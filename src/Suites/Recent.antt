-- ===== src/Suites/Recent.antt =====
-- The history lists the newest runs, and the estimate lies between the shortest and the longest.
use distributed_verification.Prelude.{
  ℕ, suc, ◌+◌, ◌*◌, ◌≡◌, ◌≤◌, Bool, count, inl, inr, arith, Option, none, some, List, [], ◌∷◌, Text,
  ◌==◌, length, take, All, All-select, All-take, All-sort_by, sort_by, is_newer, length-take-le,
  select, Bool-cases, text_eq, ◌&&◌,
}
use distributed_verification.Model.{RunStatus, Run, RunSuiteLink, Db}
use distributed_verification.Suites.History.{
  Span, HistoryEntry, Estimate, span_of, linked_runs, created, has_duration, add_span, sum_spans,
  given_runs, latest_runs, estimated_duration,
}

-- The linked runs, the newest first.
abbrev pub newest_first : Text → Db → List Run
newest_first suite_id db = sort_by (is_newer created) (linked_runs suite_id db)

-- A run with the id `n` stands among the linked runs once for each link to it.
abbrev pub is_link : Text → ℕ → RunSuiteLink → Bool
is_link suite_id n link = text_eq link.suite_id suite_id && link.run_id == n

abbrev has_id : ℕ → Run → Bool
has_id n r = r.id == n

-- What an entry says of its run.
abbrev pub facts_of : HistoryEntry → ℕ × Option Text × RunStatus × ℕ
facts_of e = (e.run_id, e.run_name, e.status, e.created_at)

-- A run that took from `shortest` to `longest` seconds, if it has both times.
abbrev pub IsBetween : ℕ → ℕ → Option Span → Type 0
IsBetween shortest longest none = Unit
IsBetween shortest longest (some span) =
    (span.started + shortest ≤ span.finished) × (span.finished ≤ span.started + longest)

abbrev pub Took : ℕ → ℕ → Run → Type 0
Took shortest longest r = IsBetween shortest longest (span_of r.started_at r.finished_at)

-- The sums of the times are that far apart for each run.
abbrev pub IsMean : ℕ → ℕ → Estimate → Type 0
IsMean shortest longest e =
    (e.started + e.count * shortest ≤ e.finished) × (e.finished ≤ e.started + e.count * longest)

add_span-IsMean :
    (shortest longest : ℕ) (span : Option Span) (e : Estimate)
    → IsBetween shortest longest span
    → IsMean shortest longest e
    → IsMean shortest longest (add_span span e)
add_span-IsMean shortest longest none e h k = k
add_span-IsMean shortest longest (some span) e h k = (omega arith, omega arith)

add_span-count :
    (span : Option Span) (e : Estimate) (n : ℕ) → e.count ≤ n → (add_span span e).count ≤ suc n
add_span-count none e n h = omega arith
add_span-count (some span) e n h = omega arith

sum_spans-IsMean :
    (shortest longest : ℕ) (runs : List Run)
    → All (Took shortest longest) runs
    → IsMean shortest longest (sum_spans runs) × ((sum_spans runs).count ≤ length runs)
unfolding sum_spans
sum_spans-IsMean shortest longest [] h = ((omega arith, omega arith), omega arith)
sum_spans-IsMean shortest longest (r ∷ runs) h =
    let (mean, few) = sum_spans-IsMean shortest longest runs h.1 in
    (
      add_span-IsMean shortest longest (span_of r.started_at r.finished_at) _ h.0 mean,
      add_span-count (span_of r.started_at r.finished_at) _ _ few,
    )

given_runs-IsMean :
    (shortest longest : ℕ) (sum : Estimate) {e : Estimate}
    → IsMean shortest longest sum
    → sum.count ≤ 5
    → given_runs sum ≡ some e
    → (1 ≤ e.count) × (e.count ≤ 5) × IsMean shortest longest e
given_runs-IsMean shortest longest sum {e} mean few f = elim (Bool-cases (sum.count == 0)) [
  | inl z ↦ absurd_case (rw z at f)
  | inr z ↦ let same : sum ≡ e = ground (arith, rw z at f) in rw (← same) (ground arith, few, mean)
]
  where
    absurd_case : {A B : Type 0} {x : A} → none ≡ some x → B
    absurd_case k = cc

-- If a suite has an estimate and each of its linked runs took from `shortest` to `longest` seconds,
-- the estimate is a mean of one to five durations, and it lies between the two.
pub estimated_duration-IsMean :
    (suite_id : Text) (db : Db) (shortest longest : ℕ) (e : Estimate)
    → All (Took shortest longest) (linked_runs suite_id db)
    → estimated_duration suite_id db ≡ some e
    → (1 ≤ e.count) × (e.count ≤ 5) × IsMean shortest longest e
unfolding estimated_duration latest_runs
estimated_duration-IsMean suite_id db shortest longest e took found =
    let rows = sort_by (is_newer created) (select has_duration (linked_runs suite_id db)) in
    let each = All-take (Took shortest longest) 5 rows (
      All-sort_by (is_newer created) (Took shortest longest) _
        (All-select (Took shortest longest) has_duration _ took)) in
    let (mean, few) = sum_spans-IsMean shortest longest (take 5 rows) each in
    given_runs-IsMean shortest longest _ mean (omega (arith, few, length-take-le 5 rows)) found
