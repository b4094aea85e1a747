-- ===== src/Suites/History.antt =====
-- backend/app/api/routes.py: the history of a suite and the estimate of its duration, from the runs
-- that are linked to it. Of runs created at the same time the database may list any first. A
-- duration is kept as the two times that it is the difference of, and the estimate as the sums that
-- it is the quotient of; rounding is left out.
use distributed_verification.Prelude.{
  ℕ, suc, ◌+◌, Bool, true, false, ◌&&◌, Option, none, some, List, [], ◌∷◌, map, Text, text_eq, ◌==◌,
  if◌then◌else◌, select, take, sort_by, is_newer,
}
use distributed_verification.Model.{RunStatus, Run, RunSuiteLink, Db}
use distributed_verification.Reports.{flat_map}

-- `started_at` and `finished_at`, where a run has both.
pub record Span : Type 0 where
  pub started : ℕ
  pub finished : ℕ

pub record HistoryEntry : Type 0 where
  pub run_id : ℕ
  pub run_name : Option Text
  pub status : RunStatus
  pub created_at : ℕ
  pub duration : Option Span

abbrev pub span_of : Option ℕ → Option ℕ → Option Span
span_of (some started) (some finished) = some (record { started = started; finished = finished })
span_of (some started) none = none
span_of none finished = none

-- The runs of the links of a suite: the join of run_suite_links with runs.
unfoldable pub linked_runs : Text → Db → List Run
linked_runs suite_id db =
    flat_map (λ (link : RunSuiteLink). select (λ (r : Run). r.id == link.run_id) db.runs)
      (select (λ (link : RunSuiteLink). text_eq link.suite_id suite_id) db.links)

abbrev pub created : Run → ℕ
created r = r.created_at

abbrev pub history_entry : Run → HistoryEntry
history_entry r = record {
  run_id = r.id;
  run_name = r.run_name;
  status = r.status;
  created_at = r.created_at;
  duration = span_of r.started_at r.finished_at;
}

-- `_get_suite_history`.
unfoldable pub suite_history : Text → ℕ → Db → List HistoryEntry
unfolding linked_runs sort_by
suite_history suite_id limit db =
    map history_entry (take limit (sort_by (is_newer created) (linked_runs suite_id db)))

-- A run that was completed or failed, with both times.
abbrev pub has_duration : Run → Bool
has_duration r =
    elim r.status [ RunStatus.completed ↦ true | RunStatus.failed ↦ true | _ ↦ false ]
    && elim (span_of r.started_at r.finished_at) [ none ↦ false | some span ↦ true ]

-- `sum(durations) / len(durations)`: the difference of the sums, over the count.
pub record Estimate : Type 0 where
  pub started : ℕ
  pub finished : ℕ
  pub count : ℕ

abbrev pub add_span : Option Span → Estimate → Estimate
add_span none e = e
add_span (some span) e = record {
  started = span.started + e.started;
  finished = span.finished + e.finished;
  count = suc e.count;
}

abbrev no_time : Estimate
no_time = record { started = 0; finished = 0; count = 0 }

unfoldable pub sum_spans : List Run → Estimate
sum_spans [] = no_time
sum_spans (r ∷ runs) = add_span (span_of r.started_at r.finished_at) (sum_spans runs)

abbrev pub given_runs : Estimate → Option Estimate
given_runs e = if e.count == 0 then none else some e

-- The last five runs with a duration.
unfoldable pub latest_runs : Text → Db → List Run
unfolding linked_runs sort_by
latest_runs suite_id db =
    take 5 (sort_by (is_newer created) (select has_duration (linked_runs suite_id db)))

-- `_get_estimated_duration`.
unfoldable pub estimated_duration : Text → Db → Option Estimate
unfolding latest_runs sum_spans
estimated_duration suite_id db = given_runs (sum_spans (latest_runs suite_id db))
