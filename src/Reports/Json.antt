-- ===== src/Reports/Json.antt =====
-- runner.py: _json_from_junit, the JSON report of a run.
use mathlib.Core.Option.{bind}
use distributed_verification.Prelude.{
  ℕ, ◌+◌, Option, none, some, List, [], ◌∷◌, ◌++◌, map, Text, codes, ◌==◌, if◌then◌else◌, take,
  get_or, count,
}
use distributed_verification.Reports.{
  Element, node, attribute_of, find_all, iter, CaseStatus, verdict, is_status,
}

pub record JsonCase : Type 0 where
  pub name : Text
  pub classname : Text
  pub file : Text
  pub status : CaseStatus
  pub message : Text
  pub details : Text

-- `text.replace(".", "/")`.
abbrev pub dots_to_slashes : Text → Text
dots_to_slashes = map (λ c. if c == b'.' then b'/' else c)

-- `tc.get("file", default)`.
abbrev pub file_of : Element → Text
file_of (node tag attrs text es) =
    get_or (dots_to_slashes (get_or [] (codes "classname") attrs) ++ codes ".py") (codes "file")
      attrs

abbrev pub make_json_case : Element → JsonCase
make_json_case tc =
    let v = verdict tc in
    record {
      name = attribute_of (codes "name") tc;
      classname = attribute_of (codes "classname") tc;
      file = file_of tc;
      status = v.status;
      message = v.message;
      details = take 2000 v.details;
    }

pub record JsonSuite : Type 0 where
  pub name : Text
  pub tests : ℕ
  pub errors : ℕ
  pub failures : ℕ
  pub skipped : ℕ
  pub testcases : List JsonCase

pub record JsonReport : Type 0 where
  pub suites : List JsonSuite
  pub total : ℕ
  pub passed : ℕ
  pub failed : ℕ
  pub errors : ℕ
  pub skipped : ℕ

infixl 5 ◌>>=◌
-- A call that may raise a ValueError, and what follows it.
abbrev ◌>>=◌ {ℓ κ} : {A : Type ℓ} {B : Type κ} → Option A → (A → Option B) → Option B
o >>= f = bind o f

-- `sum(1 for s in suites for c in s["testcases"] if ...)`.
abbrev pub count_in : CaseStatus → List JsonSuite → ℕ
count_in s [] = 0
count_in s (suite ∷ suites) = count (λ c. is_status c.status s) suite.testcases + count_in s suites

abbrev pub sum_tests : List JsonSuite → ℕ
sum_tests [] = 0
sum_tests (suite ∷ suites) = suite.tests + sum_tests suites

unfoldable pub report_of : List JsonSuite → JsonReport
report_of suites = record {
  suites = suites;
  total = sum_tests suites;
  passed = count_in CaseStatus.passed suites;
  failed = count_in CaseStatus.failed suites;
  errors = count_in CaseStatus.error suites;
  skipped = count_in CaseStatus.skipped suites;
}

module _ (to_int : Text → Option ℕ) where
  -- `int(suite.get(key, 0))`.
  abbrev pub int_of : Text → Element → Option ℕ
  int_of key (node tag attrs text es) =
      elim (get_or none key (map (λ (p : Text × Text). (p.0, some p.1)) attrs)) [
        | none ↦ some 0
        | some t ↦ to_int t
      ]

  unfoldable pub make_suite : Element → Option JsonSuite
  unfolding bind
  make_suite suite = do
    tests ← int_of (codes "tests") suite
    errors ← int_of (codes "errors") suite
    failures ← int_of (codes "failures") suite
    skipped ← int_of (codes "skipped") suite
    some (record {
      name = attribute_of (codes "name") suite;
      tests = tests;
      errors = errors;
      failures = failures;
      skipped = skipped;
      testcases = map make_json_case (find_all (codes "testcase") suite);
    })

  unfoldable pub make_suites : List Element → Option (List JsonSuite)
  unfolding bind make_suite
  make_suites [] = some []
  make_suites (e ∷ es) = do suite ← make_suite e; suites ← make_suites es; some (suite ∷ suites)

  -- `none` if a number cannot be read: then no JSON report is written.
  unfoldable pub json_from_junit : Element → Option JsonReport
  unfolding bind make_suites report_of iter
  json_from_junit root = do
    suites ← make_suites (iter (codes "testsuite") root)
    some (report_of suites)
