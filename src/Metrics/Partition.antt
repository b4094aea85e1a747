-- ===== src/Metrics/Partition.antt =====
-- The counters of the six statuses add up.
use distributed_verification.Prelude.{
  ℕ, ◌+◌, ◌-◌, ◌≡◌, refl, sym, ◌≤◌, true, inl, inr, ◌&&◌, Option, List, [], ◌∷◌, arith, Text, ◌==◌,
  count, count_mono, leb, Bool-cases,
}
use distributed_verification.Model.{RunStatus, Run, Db}
use distributed_verification.Access.{ok, resolve_client, >>=-eq-ok}
use distributed_verification.Metrics.{Metrics, has_status, count_runs, metrics_of, get_metrics}

abbrev all_statuses : ℕ → List Run → ℕ
all_statuses c runs =
    count_runs c RunStatus.completed runs
    + count_runs c RunStatus.failed runs
    + count_runs c RunStatus.running runs
    + count_runs c RunStatus.pending runs
    + count_runs c RunStatus.cancelled runs
    + count_runs c RunStatus.queued runs

-- Every run counts under the status it has, and under no other.
abbrev one : RunStatus → RunStatus → ℕ
one s t = count (λ u. has_status u t) (s ∷ [])

count_runs-cons :
    (c : ℕ) (r : Run) (runs : List Run) (t : RunStatus)
    → (r.client_id == c) ≡ true
    → count_runs c t (r ∷ runs) ≡ one r.status t + count_runs c t runs
count_runs-cons c r runs t e = ground arith

one_total :
    (s : RunStatus)
    → one s RunStatus.completed
        + one s RunStatus.failed
        + one s RunStatus.running
        + one s RunStatus.pending
        + one s RunStatus.cancelled
        + one s RunStatus.queued
      ≡ 1
one_total RunStatus.pending = refl
one_total RunStatus.queued = refl
one_total RunStatus.running = refl
one_total RunStatus.completed = refl
one_total RunStatus.failed = refl
one_total RunStatus.cancelled = refl

all_statuses_total :
    (c : ℕ) (runs : List Run) → all_statuses c runs ≡ count (λ r. r.client_id == c) runs
all_statuses_total c [] = refl
all_statuses_total c (r ∷ runs) = elim (Bool-cases (r.client_id == c)) [
  | inl e ↦
      rw
        (
          count_runs-cons c r runs RunStatus.completed e,
          count_runs-cons c r runs RunStatus.failed e,
          count_runs-cons c r runs RunStatus.running e,
          count_runs-cons c r runs RunStatus.pending e,
          count_runs-cons c r runs RunStatus.cancelled e,
          count_runs-cons c r runs RunStatus.queued e,
          e,
        )
        (omega (arith, one_total r.status, all_statuses_total c runs))
  | inr e ↦ rw e (all_statuses_total c runs)
]

-- The six counters of a client add up to the number of its runs, and no more runs than that are
-- recent.
pub get_metrics_partition :
    (now : ℕ) (client_key : Option Text) (db : Db) (m : Metrics)
    → get_metrics now client_key db ≡ ok m
    → (m.completed_runs + m.failed_runs + m.running_runs + m.pending_runs + m.cancelled_runs
          + m.queued_runs
        ≡ m.total_runs)
      × (m.recent_runs ≤ m.total_runs)
unfolding get_metrics
get_metrics_partition now client_key db m e =
    let (client, _, e₁) = >>=-eq-ok (resolve_client client_key db) _ e in
    let same : metrics_of now client.id db ≡ m = cc in
    rw (sym same) (
      all_statuses_total client.id db.runs,
      count_mono (λ r. r.client_id == client.id && leb (now - 86400) r.created_at)
          (λ r. r.client_id == client.id) db.runs (λ r h. ground arith),
    )
