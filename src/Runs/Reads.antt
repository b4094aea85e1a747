-- ===== src/Runs/Reads.antt =====
-- backend/app/api/routes.py: the endpoints on runs and resources that only read. The log entries
-- stand in the order of their times.
use distributed_verification.Prelude.{
  ℕ, Option, List, Text, text_eq, ◌==◌, first, select, sort_by, order_by, is_newer,
}
use distributed_verification.Model.{Resource, Run, QueueEntry, LogEntry, Db}
use distributed_verification.Access.{
  Result, ok, not_found, ◌>>=◌, or_raise, resolve_client, verify_run_owner,
}
use distributed_verification.Runner.Processes.{Runtime, get_active_files}

unfoldable pub list_runs : Option Text → Db → Result (List Run)
unfolding resolve_client sort_by
list_runs client_key db = do
  client ← resolve_client client_key db
  ok (
      sort_by (is_newer (λ (r : Run). r.created_at))
        (select (λ (r : Run). r.client_id == client.id) db.runs))

unfoldable pub get_run : ℕ → Option Text → Db → Result Run
unfolding verify_run_owner
get_run run_id client_key db = verify_run_owner run_id client_key db

unfoldable pub get_run_active_files : ℕ → Option Text → Runtime → Db → Result (List Text)
unfolding verify_run_owner get_active_files
get_run_active_files run_id client_key rt db = do
  run ← verify_run_owner run_id client_key db
  ok (get_active_files run_id rt)

unfoldable pub get_resource_queue : Text → Db → Result (List QueueEntry)
unfolding order_by
get_resource_queue resource_name db = do
  resource ←
      or_raise (first (select (λ (r : Resource). text_eq r.name resource_name) db.resources))
        not_found
  ok (
      order_by (λ (e : QueueEntry). e.position)
        (select (λ (e : QueueEntry). e.resource_id == resource.id) db.entries))

unfoldable pub get_run_logs : ℕ → Option Text → Db → Result (List LogEntry)
unfolding verify_run_owner
get_run_logs run_id client_key db = do
  run ← verify_run_owner run_id client_key db
  ok (select (λ (l : LogEntry). l.run_id == run_id) db.logs)
