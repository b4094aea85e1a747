-- ===== src/Reports/Generated/Cases.antt =====
-- What the generated reports count, next to what the runner counts.
use distributed_verification.Prelude.{
  ℕ, suc, ◌+◌, ◌≡◌, refl, arith, Option, none, some, List, [], ◌∷◌, map, codes, if◌then◌else◌,
  length,
}
use distributed_verification.Reports.{
  Element, CaseStatus, find, verdict_of, make_case, is_status, count_cases,
}
use distributed_verification.Reports.Generated.{outcome, test_info, Stats, count_case, junit_stats}

-- The status that the report gives a case is the runner's, but for a skipped one.
outcome-verdict_of :
    (f e s : Option Element) (stats : Stats) (passes fails errs skips : ℕ)
    → stats.passed ≡ passes + skips
    → stats.failed ≡ fails
    → stats.errors ≡ errs
    → let status = (verdict_of f e s).status in
      let counted = count_case (outcome f e).0 stats in
      (counted.passed ≡ (
        (if is_status status CaseStatus.passed then suc passes else passes)
        + (if is_status status CaseStatus.skipped then suc skips else skips)))
      × (counted.failed ≡ (if is_status status CaseStatus.failed then suc fails else fails))
      × (counted.errors ≡ (if is_status status CaseStatus.error then suc errs else errs))
unfolding outcome verdict_of
outcome-verdict_of (some f) e s stats passes fails errs skips p q r = (p, omega (arith, q), r)
outcome-verdict_of none (some e) s stats passes fails errs skips p q r = (p, q, omega (arith, r))
outcome-verdict_of none none (some s) stats passes fails errs skips p q r = (omega (arith, p), q, r)
outcome-verdict_of none none none stats passes fails errs skips p q r = (omega (arith, p), q, r)

-- The total and the counts of failures and errors in the generated reports are those of the summary
-- that the runner makes of the same test cases; the count of passed cases is the runner's with the
-- skipped ones added, as the generated reports know no skipped case.
pub junit_stats-count_cases :
    (tcs : List Element)
    → ((junit_stats tcs).total ≡ length tcs)
      × ((junit_stats tcs).failed ≡ count_cases CaseStatus.failed (map make_case tcs))
      × ((junit_stats tcs).errors ≡ count_cases CaseStatus.error (map make_case tcs))
      × ((junit_stats tcs).passed
          ≡ count_cases CaseStatus.passed (map make_case tcs)
            + count_cases CaseStatus.skipped (map make_case tcs))
unfolding junit_stats test_info
junit_stats-count_cases [] = (refl, refl, refl, refl)
junit_stats-count_cases (tc ∷ tcs) =
    let (total, fails, errs, passes) = junit_stats-count_cases tcs in
    let (p, q, r) =
      outcome-verdict_of (find (codes "failure") tc) (find (codes "error") tc)
        (find (codes "skipped") tc) (junit_stats tcs) _ _ _ _ passes fails errs in
    (total_of (outcome _ _).0 (junit_stats tcs) total, q, r, p)
  where
    total_of :
        {n : ℕ} (status : CaseStatus) (stats : Stats)
        → stats.total ≡ n
        → (count_case status stats).total ≡ suc n
    total_of CaseStatus.passed stats h = omega (arith, h)
    total_of CaseStatus.failed stats h = omega (arith, h)
    total_of CaseStatus.error stats h = omega (arith, h)
    total_of CaseStatus.skipped stats h = omega (arith, h)
