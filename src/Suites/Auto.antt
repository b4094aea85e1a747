-- ===== src/Suites/Auto.antt =====
-- backend/app/api/routes.py: the suites that are built from the discovered tests, and the list of
-- all suites. `lower` is `str.lower`.
use distributed_verification.Prelude.{
  Bool, true, false, Option, List, [], ◌∷◌, ◌++◌, map, Text, codes, contains, ◌==◌, ltb,
  if◌then◌else◌, select, first, sort_by,
}
use distributed_verification.Model.{CustomSuite, Db}
use distributed_verification.Runs.Naming.{decimal}
use distributed_verification.Suites.History.{
  HistoryEntry, Estimate, suite_history, estimated_duration,
}

pub data SuiteSource : Type 0 where
  auto marker custom : SuiteSource

pub record Suite : Type 0 where
  pub id : Text
  pub name : Text
  pub description : Text
  pub tests : List Text
  pub tags : List Text
  pub source : SuiteSource

abbrev pub suite_of : Text → Text → Text → List Text → List Text → Suite
suite_of id name description tests tags = record {
  id = id;
  name = name;
  description = description;
  tests = tests;
  tags = tags;
  source = auto;
}

-- `if tests: suites.append(...)`.
abbrev pub has_tests : Suite → Bool
has_tests s = elim s.tests [ [] ↦ false | t ∷ tests ↦ true ]

-- `<` of texts: the first code point that differs decides.
abbrev pub text_leb : Text → Text → Bool
text_leb [] t = true
text_leb (c ∷ s) [] = false
text_leb (c ∷ s) (d ∷ t) = if c == d then text_leb s t else ltb c d

abbrev pub marker_suite : Text × List Text → Suite
marker_suite (name, tests) = record {
  id = codes "marker-" ++ name;
  name = codes "@" ++ name;
  description = codes "Tests decorated with @pytest.mark." ++ name;
  tests = tests;
  tags = codes "marker" ∷ name ∷ [];
  source = marker;
}

module _ (lower : Text → Text) where
  -- `[t for t in all_tests if needle in t.lower()]`.
  abbrev pub naming : Text → List Text → List Text
  naming needle = select (λ t. contains needle (lower t))

  -- The suites that are left out if they are empty.
  abbrev pub named_suites : List Text → List Suite
  named_suites all_tests =
      suite_of (codes "smoke") (codes "Smoke Tests")
        (codes "Quick sanity checks to verify basic functionality is working")
        (select (contains (codes "/smoke/")) all_tests) (codes "fast" ∷ codes "ci" ∷ [])
      ∷ suite_of (codes "unit") (codes "Unit Tests")
          (codes "Isolated unit tests for individual functions and modules")
          (select (contains (codes "/unit/")) all_tests) (codes "fast" ∷ codes "isolated" ∷ [])
      ∷ suite_of (codes "integration") (codes "Integration Tests")
          (codes "Tests that verify multiple components working together")
          (select (contains (codes "/integration/")) all_tests) (codes "slow" ∷ codes "api" ∷ [])
      ∷ suite_of (codes "quick") (codes "Quick Validation")
          (codes "Fast-running tests for rapid feedback during development")
          (select (contains (codes "_quick")) all_tests) (codes "fast" ∷ codes "dev" ∷ [])
      ∷ suite_of (codes "security") (codes "Security Tests")
          (codes "Tests focused on security validations and vulnerability checks")
          (naming (codes "security") all_tests) (codes "security" ∷ codes "ci" ∷ [])
      ∷ suite_of (codes "data") (codes "Data Tests")
          (codes "Tests for data processing, validation, and integrity")
          (naming (codes "data") all_tests) (codes "data" ∷ [])
      ∷ suite_of (codes "core-ops") (codes "Core Operations")
          (codes "Math and string operation tests covering core utility functions")
          (naming (codes "math") all_tests ++ naming (codes "string") all_tests)
          (codes "fast" ∷ codes "core" ∷ [])
      ∷ suite_of (codes "dummy") (codes "Sample / Dummy Tests")
          (codes "Example tests used for demonstration and template purposes")
          (naming (codes "dummy") all_tests) (codes "sample" ∷ [])
      ∷ []

  unfoldable pub auto_suites : List Text → List Suite
  auto_suites all_tests =
      suite_of (codes "all") (codes "All Tests") (codes "Run every discovered test in the project")
        all_tests (codes "complete" ∷ [])
      ∷ select has_tests (named_suites all_tests)

  -- `sorted(marker_map.items())`: the names are the keys of a dictionary, so they decide.
  unfoldable pub build_test_suites : List Text → List (Text × List Text) → List Suite
  unfolding auto_suites sort_by
  build_test_suites all_tests marked =
      auto_suites all_tests
      ++ map marker_suite (sort_by (λ (x y : Text × List Text). text_leb x.0 y.0) marked)

abbrev pub custom_suite : CustomSuite → Suite
custom_suite cs = record {
  id = codes "custom-" ++ decimal cs.id;
  name = cs.name;
  description = cs.description;
  tests = cs.tests;
  tags = cs.tags;
  source = custom;
}

pub record SuiteOut : Type 0 where
  pub suite : Suite
  pub estimated_duration : Option Estimate
  pub last_run : Option HistoryEntry

abbrev pub describe_suite : Db → Suite → SuiteOut
describe_suite db s = record {
  suite = s;
  estimated_duration = estimated_duration s.id db;
  last_run = first (suite_history s.id 1 db);
}

-- The suites that are built come first, then the custom ones by name.
unfoldable pub get_test_suites : List Suite → Db → List SuiteOut
unfolding sort_by
get_test_suites built db =
    map (describe_suite db) (
      built ++ map custom_suite (sort_by (λ (x y : CustomSuite). text_leb x.name y.name) db.suites))

unfoldable pub get_suite_history : Text → Db → List HistoryEntry
unfolding suite_history
get_suite_history suite_id db = suite_history suite_id 20 db
