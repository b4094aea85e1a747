-- ===== src/Reports/Endpoints/Totals.antt =====
-- The totals of an aggregate, and the suites that an aggregate can be asked for.
use distributed_verification.Prelude.{
  ℕ, ◌+◌, ◌≤◌, ◌≡◌, refl, arith, Bool, true, false, ◌||◌, Option, none, List, [], ◌∷◌, map, Text,
  codes, text_eq, text_eq_iff, starts_with, length, count, first, select, All, All-append,
  All-select, sort_by,
}
use distributed_verification.Model.{Run, CustomSuite, Db}
use distributed_verification.Access.{not_found, raise, ok, verify_run_owner}
use distributed_verification.Reports.Endpoints.{Disk}
use distributed_verification.Reports.Endpoints.Results.{
  TestIndex, TestResult, Summary, has_result, summary_of, get_suite_report,
}
use distributed_verification.Suites.Auto.{
  Suite, has_tests, named_suites, auto_suites, marker_suite, build_test_suites, custom_suite,
  text_leb,
}

-- "passed", "failed", "error" or "skipped".
abbrev pub has_known_status : TestResult → Bool
has_known_status t =
    has_result (codes "passed") t
    || has_result (codes "failed") t
    || has_result (codes "error") t
    || has_result (codes "skipped") t

abbrev pub counted : Summary → ℕ
counted s = s.passed + s.failed + s.errors + s.skipped

-- A status is at most one of the four.
one_status :
    (status : Text)
    → (text_eq status (codes "passed") ≡ true → text_eq status (codes "failed") ≡ false)
      × (text_eq status (codes "passed") ≡ true → text_eq status (codes "error") ≡ false)
      × (text_eq status (codes "passed") ≡ true → text_eq status (codes "skipped") ≡ false)
      × (text_eq status (codes "failed") ≡ true → text_eq status (codes "error") ≡ false)
      × (text_eq status (codes "failed") ≡ true → text_eq status (codes "skipped") ≡ false)
      × (text_eq status (codes "error") ≡ true → text_eq status (codes "skipped") ≡ false)
one_status status =
    let at : (s : Text) → text_eq status s ≡ true → status ≡ s = λ s. (text_eq_iff status s).0 in
    (
      λ h. rw (at (codes "passed") h) refl,
      λ h. rw (at (codes "passed") h) refl,
      λ h. rw (at (codes "passed") h) refl,
      λ h. rw (at (codes "failed") h) refl,
      λ h. rw (at (codes "failed") h) refl,
      λ h. rw (at (codes "error") h) refl,
    )

counted-eq-count :
    (tests : List TestResult) → counted (summary_of tests) ≡ count has_known_status tests
unfolding summary_of
counted-eq-count [] = refl
counted-eq-count (t ∷ tests) = ground (arith, one_status t.status, counted-eq-count tests)

count-le-length {ℓ} : {A : Type ℓ} (p : A → Bool) (xs : List A) → count p xs ≤ length xs
count-le-length p [] = omega arith
count-le-length p (x ∷ xs) = ground (arith, count-le-length p xs)

count-eq-length {ℓ} :
    {A : Type ℓ} (p : A → Bool) (xs : List A) → All (λ x. p x ≡ true) xs → count p xs ≡ length xs
count-eq-length p [] h = refl
count-eq-length p (x ∷ xs) h = ground (arith, count-eq-length p xs h.1)

-- The four counts of a summary add up to at most the total, and to the total if each status is
-- passed, failed, error or skipped.
pub summary_of-counted :
    (tests : List TestResult)
    → (counted (summary_of tests) ≤ (summary_of tests).total)
      × (All (λ t. has_known_status t ≡ true) tests
          → counted (summary_of tests) ≡ (summary_of tests).total)
unfolding summary_of
summary_of-counted tests = (
  omega (arith, counted-eq-count tests, count-le-length has_known_status tests),
  λ h. omega (arith, counted-eq-count tests, count-eq-length has_known_status tests h),
)

-- A suite that is not a custom one, by its id.
abbrev IsBuilt : Suite → Type 0
IsBuilt s = starts_with (codes "custom-") s.id ≡ false

auto_suites-IsBuilt :
    (lower : Text → Text) (all_tests : List Text) → All IsBuilt (auto_suites lower all_tests)
unfolding auto_suites
auto_suites-IsBuilt lower all_tests = (
  refl,
  All-select IsBuilt has_tests (named_suites lower all_tests)
      (refl, (refl, (refl, (refl, (refl, (refl, (refl, (refl, tt)))))))),
)

marker_suites-IsBuilt : (marked : List (Text × List Text)) → All IsBuilt (map marker_suite marked)
marker_suites-IsBuilt [] = tt
marker_suites-IsBuilt (m ∷ marked) = (refl, marker_suites-IsBuilt marked)

no_custom :
    (id : Text) (built : List Suite)
    → starts_with (codes "custom-") id ≡ true
    → All IsBuilt built
    → first (select (λ (s : Suite). text_eq s.id id) built) ≡ none
no_custom id [] h k = refl
no_custom id (s ∷ built) h k = ground (arith, no_custom id built h k.1, text_eq_iff s.id id)

-- A run's owner who asks for the report on a custom suite, by the id that the list of suites gives
-- it, is told that there is no such suite, whatever the tests, the markers and the reports.
pub get_suite_report_custom :
    (parse_index : Text → Option TestIndex) (parse_result : Text → Option TestResult)
    (lower : Text → Text) (all_tests : List Text) (marked : List (Text × List Text)) (disk : Disk)
    (run_id : ℕ) (client_key : Option Text) (db : Db) (run : Run) (cs : CustomSuite)
    → verify_run_owner run_id client_key db ≡ ok run
    → get_suite_report parse_index parse_result
        (build_test_suites lower all_tests marked)
        disk
        run_id
        (custom_suite cs).id
        client_key
        db
      ≡ raise not_found
unfolding get_suite_report build_test_suites
get_suite_report_custom parse_index parse_result lower all_tests marked disk run_id client_key db
      run cs owner =
    let sorted = sort_by (λ (x y : Text × List Text). text_leb x.0 y.0) marked in
    let built =
      All-append IsBuilt (auto_suites lower all_tests) (map marker_suite sorted)
        (auto_suites-IsBuilt lower all_tests) (marker_suites-IsBuilt sorted) in
    rw owner (rw (no_custom (custom_suite cs).id _ refl built) refl)
