-- ===== src/Reports/Generated.antt =====
-- backend/app/services/report_generator.py: generate_all_reports and _read_junit_xml. The files of
-- the run are given as element trees, `none` where one cannot be parsed; times are left out, and
-- with them a time that is no number. Parameters: the pages that are made of a run, its logs in the
-- order of their times and its tests, and the two reports that are read from the disk.
pub mod Cases
pub mod Stored
pub mod Served
use distributed_verification.Prelude.{
  ℕ, suc, Bool, true, false, ◌&&◌, Option, none, some, List, [], ◌∷◌, ◌++◌, map, Text, codes,
  text_eq, ◌==◌, if◌then◌else◌, length, first, select, count,
}
use distributed_verification.Model.{RunStatus, Run, LogEntry, ReportData, Db}
use distributed_verification.Queue.{find_run}
use distributed_verification.Reports.{
  Element, attribute_of, text_of, find, iter, merge_files, CaseStatus, passed, failed, error,
  is_status,
}

-- The junit.xml of the run, the one below "all", and those of the files.
pub record JunitFiles : Type 0 where
  pub main : Option (Option Element)
  pub all : Option (Option Element)
  pub files : List (Option Element)

-- The tree that is read: outer `none` if there is no file.
unfoldable pub junit_tree : JunitFiles → Option (Option Element)
junit_tree j = elim j.main [
  | some tree ↦ some tree
  | none ↦ elim j.all [
    | some tree ↦ some tree
    | none ↦ elim j.files [ [] ↦ none | f ∷ fs ↦ some (some (merge_files j.files)) ]
  ]
]

-- `element.get("message", "") or element.text or ""`.
abbrev or_text : Text → Element → Text
or_text [] e = text_of e
or_text (c ∷ t) e = c ∷ t

abbrev pub message_of : Element → Text
message_of e = or_text (attribute_of (codes "message") e) e

-- `test_info`.
pub record TestInfo : Type 0 where
  pub classname : Text
  pub name : Text
  pub status : CaseStatus
  pub message : Text

unfoldable pub outcome : Option Element → Option Element → CaseStatus × Text
outcome (some failure) e = (failed, message_of failure)
outcome none (some e) = (error, message_of e)
outcome none none = (passed, [])

unfoldable pub test_info : Element → TestInfo
unfolding outcome
test_info tc =
    let (status, message) = outcome (find (codes "failure") tc) (find (codes "error") tc) in
    record {
      classname = attribute_of (codes "classname") tc;
      name = attribute_of (codes "name") tc;
      status = status;
      message = message;
    }

pub record Stats : Type 0 where
  pub total : ℕ
  pub passed : ℕ
  pub failed : ℕ
  pub errors : ℕ

pub record JunitData : Type 0 where
  pub tests : List TestInfo
  pub stats : Stats

-- One turn of the loop over the test cases, behind those that are still to come.
abbrev pub count_case : CaseStatus → Stats → Stats
count_case CaseStatus.failed s = record s { total = suc s.total; failed = suc s.failed }
count_case CaseStatus.error s = record s { total = suc s.total; errors = suc s.errors }
count_case status s = record s { total = suc s.total; passed = suc s.passed }

abbrev pub no_stats : Stats
no_stats = record { total = 0; passed = 0; failed = 0; errors = 0 }

unfoldable pub junit_stats : List Element → Stats
unfolding test_info
junit_stats [] = no_stats
junit_stats (tc ∷ tcs) = count_case (test_info tc).status (junit_stats tcs)

abbrev pub no_tests : JunitData
no_tests = record { tests = []; stats = no_stats }

abbrev pub junit_data : Option (Option Element) → JunitData
junit_data (some (some root)) =
    let tcs = iter (codes "testcase") root in
    record { tests = map test_info tcs; stats = junit_stats tcs }
junit_data (some none) = no_tests
junit_data none = no_tests

unfoldable pub read_junit_xml : JunitFiles → JunitData
unfolding junit_tree junit_stats iter
read_junit_xml j = junit_data (junit_tree j)

abbrev pub is_report : ℕ → Text → ReportData → Bool
is_report run_id report_type r = r.run_id == run_id && text_eq r.report_type report_type

-- The first row of the type is given the content, or a row is added.
unfoldable pub put_report : ℕ → Text → Text → List ReportData → List ReportData
put_report run_id report_type content [] =
    record { run_id = run_id; report_type = report_type; content = content } ∷ []
put_report run_id report_type content (r ∷ rows) =
    let rest = put_report run_id report_type content rows in
    if is_report run_id report_type r then record r { content = content } ∷ rows else r ∷ rest

unfoldable pub store_reports : ℕ → List (Text × Text) → List ReportData → List ReportData
unfolding put_report
store_reports run_id [] rows = rows
store_reports run_id ((report_type, content) ∷ reports) rows =
    store_reports run_id reports (put_report run_id report_type content rows)

-- `if report: reports_to_store.append(...)`.
abbrev pub given_report : Text → Option Text → List (Text × Text)
given_report report_type none = []
given_report report_type (some []) = []
given_report report_type (some (c ∷ t)) = (report_type, c ∷ t) ∷ []

-- coverage.json and the index.html of allure, as they are on the disk.
pub record OnDisk : Type 0 where
  pub junit : JunitFiles
  pub coverage : Option Text
  pub allure : Option Text

abbrev pub is_completed : Run → Bool
is_completed r = elim r.status [ RunStatus.completed ↦ true | _ ↦ false ]

module _ (html_report json_report : Run → List LogEntry → JunitData → Text) where
  abbrev pub reports_to_store : Run → OnDisk → Db → List (Text × Text)
  reports_to_store run disk db =
      let logs = select (λ (l : LogEntry). l.run_id == run.id) db.logs in
      let junit = read_junit_xml disk.junit in
      (codes "html", html_report run logs junit)
      ∷ (codes "json", json_report run logs junit)
      ∷ (given_report (codes "coverage") disk.coverage ++ given_report (codes "allure") disk.allure)

  -- How many reports were made, `none` for the status "error".
  unfoldable pub generate_all_reports : ℕ → OnDisk → Db → Option ℕ × Db
  unfolding read_junit_xml store_reports
  generate_all_reports run_id disk db = elim (find_run run_id db) [
    | none ↦ (none, db)
    | some run ↦
        if is_completed run
        then (
          some (length (reports_to_store run disk db)),
          record db { reports = store_reports run_id (reports_to_store run disk db) db.reports },
        )
        else (none, db)
  ]
