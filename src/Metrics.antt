-- ===== src/Metrics.antt =====
-- backend/app/api/routes.py: get_metrics, the counters of a client's runs. The rate, a rounded
-- quotient, is left out. A day is 86,400 seconds.
pub mod Partition
use distributed_verification.Prelude.{
  ℕ, ◌+◌, ◌-◌, Bool, true, false, ◌&&◌, Option, some, List, [], ◌∷◌, map, Text, leb, ltb, ◌==◌,
  if◌then◌else◌, select, count,
}
use distributed_verification.Model.{RunStatus, Run, Resource, is_id, Db}
use distributed_verification.Access.{Result, ok, ◌>>=◌, resolve_client}

pub record Metrics : Type 0 where
  pub total_runs : ℕ
  pub completed_runs : ℕ
  pub failed_runs : ℕ
  pub running_runs : ℕ
  pub pending_runs : ℕ
  pub cancelled_runs : ℕ
  pub queued_runs : ℕ
  pub recent_runs : ℕ
  pub resource_stats : List (Text × ℕ)

-- `Run.status == "..."`.
abbrev pub has_status : RunStatus → RunStatus → Bool
has_status RunStatus.pending RunStatus.pending = true
has_status RunStatus.queued RunStatus.queued = true
has_status RunStatus.running RunStatus.running = true
has_status RunStatus.completed RunStatus.completed = true
has_status RunStatus.failed RunStatus.failed = true
has_status RunStatus.cancelled RunStatus.cancelled = true
has_status s t = false

abbrev pub count_runs : ℕ → RunStatus → List Run → ℕ
count_runs client_id s runs = count (λ r. r.client_id == client_id && has_status r.status s) runs

abbrev pub runs_on : ℕ → Resource → List Run → ℕ
runs_on client_id resource runs =
    count (λ r. r.client_id == client_id && is_id resource.id r.resource_id) runs

-- The outer join gives a resource without runs a row without a client, which the condition on the
-- client drops.
abbrev pub stats_of : ℕ → Db → List (Text × ℕ)
stats_of client_id db =
    map (λ (r : Resource). (r.name, runs_on client_id r db.runs))
      (select (λ r. ltb 0 (runs_on client_id r db.runs)) db.resources)

abbrev pub metrics_of : ℕ → ℕ → Db → Metrics
metrics_of now client_id db = record {
  total_runs = count (λ r. r.client_id == client_id) db.runs;
  completed_runs = count_runs client_id RunStatus.completed db.runs;
  failed_runs = count_runs client_id RunStatus.failed db.runs;
  running_runs = count_runs client_id RunStatus.running db.runs;
  pending_runs = count_runs client_id RunStatus.pending db.runs;
  cancelled_runs = count_runs client_id RunStatus.cancelled db.runs;
  queued_runs = count_runs client_id RunStatus.queued db.runs;
  recent_runs = count (λ r. r.client_id == client_id && leb (now - 86400) r.created_at) db.runs;
  resource_stats = stats_of client_id db;
}

unfoldable pub get_metrics : ℕ → Option Text → Db → Result Metrics
unfolding resolve_client
get_metrics now client_key db = do
  client ← resolve_client client_key db
  ok (metrics_of now client.id db)
