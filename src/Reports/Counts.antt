-- ===== src/Reports/Counts.antt =====
-- The two reports on one junit.xml count alike.
use mathlib.Core.List.{map-append}
use mathlib.Core.Option.{bind}
use distributed_verification.Prelude.{
  ℕ, ◌+◌, ◌≡◌, refl, sym, ap, ◌∙◌, ◌⊎◌, inl, inr, Option, none, some, List, [], ◌∷◌, map, arith,
  Text, codes, count, count-append, length,
}
use distributed_verification.Reports.{
  Element, find_all, iter, flat_map, CaseStatus, passed, failed, error, skipped, Case, make_case,
  is_status, count_cases, test_cases, generate_file_summary,
}
use distributed_verification.Reports.Json.{
  make_json_case, JsonSuite, JsonReport, count_in, int_of, make_suite, make_suites, report_of,
  json_from_junit,
}

bind-eq-some {ℓ κ} :
    {A : Type ℓ} {B : Type κ} (o : Option A) (f : A → Option B) {y : B}
    → bind o f ≡ some y
    → (x : A) × (o ≡ some x) × (f x ≡ some y)
unfolding bind
bind-eq-some none f h = cc
bind-eq-some (some x) f h = (x, refl, h)

status_cases : (s : CaseStatus) → (s ≡ passed) ⊎ ((s ≡ failed) ⊎ ((s ≡ error) ⊎ (s ≡ skipped)))
status_cases passed = inl refl
status_cases failed = inr (inl refl)
status_cases error = inr (inr (inl refl))
status_cases skipped = inr (inr (inr refl))

-- The four statuses divide the cases.
count_cases_total :
    (cases : List Case)
    → count_cases passed cases
        + count_cases failed cases
        + count_cases error cases
        + count_cases skipped cases
      ≡ length cases
count_cases_total [] = refl
count_cases_total (c ∷ cases) = elim (status_cases c.status) [
  | inl p ↦ rw p (omega (arith, count_cases_total cases))
  | inr (inl p) ↦ rw p (omega (arith, count_cases_total cases))
  | inr (inr (inl p)) ↦ rw p (omega (arith, count_cases_total cases))
  | inr (inr (inr p)) ↦ rw p (omega (arith, count_cases_total cases))
]

module _ (s : CaseStatus) where
  count-json_cases :
      (tcs : List Element)
      → count (λ c. is_status c.status s) (map make_json_case tcs)
        ≡ count_cases s (map make_case tcs)
  count-json_cases [] = refl
  count-json_cases (tc ∷ tcs) = rw (count-json_cases tcs) refl

  module _ (to_int : Text → Option ℕ) where
    testcases-make_suite :
        (e : Element) (suite : JsonSuite)
        → make_suite to_int e ≡ some suite
        → suite.testcases ≡ map make_json_case (find_all (codes "testcase") e)
    unfolding make_suite
    testcases-make_suite e suite h =
        let (tests, _, h₁) = bind-eq-some (int_of to_int (codes "tests") e) _ h in
        let (errors, _, h₂) = bind-eq-some (int_of to_int (codes "errors") e) _ h₁ in
        let (failures, _, h₃) = bind-eq-some (int_of to_int (codes "failures") e) _ h₂ in
        let (skips, _, h₄) = bind-eq-some (int_of to_int (codes "skipped") e) _ h₃ in cc

    count_in-make_suites :
        (es : List Element) (suites : List JsonSuite)
        → make_suites to_int es ≡ some suites
        → count_in s suites
          ≡ count_cases s (map make_case (flat_map (find_all (codes "testcase")) es))
    unfolding make_suites
    count_in-make_suites [] suites h =
        let none_made : ◌≡◌ {A = List JsonSuite} [] suites = cc in rw (sym none_made) refl
    count_in-make_suites (e ∷ es) suites h =
        let (suite, made, h₁) = bind-eq-some (make_suite to_int e) _ h in
        let (others, rest, h₂) = bind-eq-some (make_suites to_int es) _ h₁ in
        let both : suite ∷ others ≡ suites = cc in
        let own = find_all (codes "testcase") e in
        let further = flat_map (find_all (codes "testcase")) es in
        rw (sym both) (
          rw
            (
              testcases-make_suite e suite made,
              count-json_cases own,
              count_in-make_suites es others rest,
            )
            (sym (
              ap (count_cases s) (map-append make_case own further)
              ∙ count-append (λ c. is_status c.status s) (map make_case own)
                  (map make_case further))))

-- If the JSON report of a junit.xml can be made, it counts as many passed, failed, erroneous and
-- skipped cases as the summary of the file, and in that these four add up to the total.
pub json_from_junit-counts :
    (to_int : Text → Option ℕ) (root : Element) (report : JsonReport)
    → json_from_junit to_int root ≡ some report
    → let summary = generate_file_summary root in
      (report.passed ≡ summary.passed)
      × (report.failed ≡ summary.failed)
      × (report.errors ≡ summary.errors)
      × (report.skipped ≡ summary.skipped)
      × (summary.passed + summary.failed + summary.errors + summary.skipped ≡ summary.total)
unfolding json_from_junit generate_file_summary report_of
json_from_junit-counts to_int root report h =
    let es = iter (codes "testsuite") root in
    let (suites, made, h₁) =
      bind-eq-some (make_suites to_int es) (λ suites. some (report_of suites)) h in
    let same : report_of suites ≡ report = cc in
    let agree = λ (s : CaseStatus). count_in-make_suites s to_int es suites made in
    rw (sym same) (
      agree passed,
      agree failed,
      agree error,
      agree skipped,
      count_cases_total (map make_case (test_cases root)),
    )
