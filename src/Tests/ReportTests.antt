-- ===== src/Tests/ReportTests.antt =====
-- The theorems on the reports at small trees.
use distributed_verification.Prelude.{
  ◌≡◌, refl, ℕ, Option, none, some, List, [], ◌∷◌, Text, codes, get_or,
}
use distributed_verification.Reports.{
  Element, node, nil, cons, flat_map, generate_file_summary, merge_files, verdict_of,
}
use distributed_verification.Reports.Json.{JsonReport, json_from_junit, report_of}
use distributed_verification.Reports.Merge.{summary_tests, tests-merge_files}

abbrev failing : Element
failing =
    node (codes "testcase") ((codes "name", codes "t2") ∷ []) none
      (cons (node (codes "failure") ((codes "message", codes "no") ∷ []) none nil) nil)

-- A suite with a case that passes and one that fails.
abbrev suite : Element
suite =
    node (codes "testsuite") ((codes "name", codes "pytest") ∷ []) none
      (cons (node (codes "testcase") ((codes "name", codes "t1") ∷ []) none nil) (cons failing nil))

abbrev files : List (Option Element)
files = some (node (codes "testsuites") [] none (cons suite nil)) ∷ none ∷ some suite ∷ []

tests-merge_files_example :
    (generate_file_summary (merge_files files)).tests ≡ flat_map summary_tests files
tests-merge_files_example = tests-merge_files files refl

abbrev no_int : Text → Option ℕ
no_int t = none

abbrev report_in : Option JsonReport → JsonReport
report_in none = report_of []
report_in (some r) = r

made_report : JsonReport
unfolding json_from_junit
made_report = report_in (json_from_junit no_int suite)

made_lem : json_from_junit no_int suite ≡ some made_report
unfolding made_report get_or
made_lem = refl

failures : made_report.failed ≡ 1
unfolding made_report verdict_of get_or
failures = refl
