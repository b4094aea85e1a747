-- ===== src/Runs.antt =====
-- backend/app/api/routes.py: the life of a run. create_run makes one,
-- cancel_run_endpoint ends one, and the `finally` blocks of schedule_run_task and _schedule_cli_run
-- hand its resource on. A result lists the runs whose tasks are scheduled.
pub mod Reads
pub mod Naming
pub mod Names
pub mod Cancel
pub mod DoubleRelease
pub mod CancelTwice
pub mod CancelCommand
pub mod Selection
pub mod Task
use distributed_verification.Prelude.{
  ℕ, suc, ◌+◌, ◌/◌, ◌%◌, ◌≡◌, refl, Bool, true, false, ◌&&◌, ◌||◌, Option, none, some, List, [],
  ◌∷◌, ◌++◌, map, Text, codes, text_eq, starts_with, ◌==◌, ltb, if◌then◌else◌, first, select,
  delete, count,
}
use distributed_verification.Model.{
  RunStatus, is_finished, Client, Resource, Run, QueueEntry, RunSuiteLink, Db,
}
use distributed_verification.Queue.{
  find_run, update_run, find_or_create_resource, acquire_lock, enqueue_run, release_resource,
}
use distributed_verification.Access.{
  Result, ok, raise, HttpError, not_found, conflict, ◌>>=◌, ◌>>◌, require, or_raise, find_client,
  verify_run_owner,
}
use distributed_verification.Runner.Processes.{Runtime, cancel_run, FileCancel, cancel_run_file}
use Naming.{generate_run_name}

-- RunCreate of schemas.py.
pub record RunCreate : Type 0 where
  pub client_key : Text
  pub selected_tests : List Text
  pub resource_name : Option Text
  pub setup_config_id : Option ℕ
  pub teardown_config_id : Option ℕ
  pub suite_ids : List Text

-- A foreign key that is tested for truth: 0 counts as absent.
abbrev pub truthy_id : Option ℕ → Option ℕ
truthy_id none = none
truthy_id (some ℕ.zero) = none
truthy_id (some (suc n)) = some (suc n)

-- An optional text that is tested for truth.
abbrev pub truthy_text : Option Text → Option Text
truthy_text none = none
truthy_text (some []) = none
truthy_text (some (c ∷ t)) = some (c ∷ t)

-- An assignment that is made in one of two callers only.
abbrev later : Option ℕ → Option ℕ → Option ℕ
later none old = old
later (some t) old = some t

-- `db.get(Resource, id)`.
abbrev pub find_resource : ℕ → Db → Option Resource
find_resource id db = first (select (λ (r : Resource). r.id == id) db.resources)

-- `nid.split("::")[0] if "::" in nid else nid`: the text before the first "::".
unfoldable pub file_part : Text → Text
file_part [] = []
file_part (c ∷ t) = if starts_with (codes "::") (c ∷ t) then [] else c ∷ file_part t

unfoldable pub new_run :
    ℕ → Text → Client → List Text → Option ℕ → Option ℕ → Option Text → Db → Run
unfolding generate_run_name
new_run now today client tests setup_config_id teardown_config_id note db = record {
  id = db.next_id;
  run_name = some (generate_run_name today client.id db);
  client_id = client.id;
  resource_id = none;
  selected_tests = tests;
  setup_config_id = setup_config_id;
  setup_status = none;
  teardown_config_id = teardown_config_id;
  teardown_status = none;
  status = RunStatus.pending;
  note = note;
  created_at = now;
  started_at = none;
  finished_at = none;
}

abbrev pub add_run : Run → Db → Db
add_run run db = record db { runs = db.runs ++ run ∷ []; next_id = suc db.next_id }

abbrev pub add_links : ℕ → List Text → Db → Db
add_links run_id suite_ids db = record db {
  links = db.links ++ map (λ s. record { run_id = run_id; suite_id = s }) suite_ids;
}

-- The lock or the queue: what both ways to make a run do with a resource name.
unfoldable pub admit_to : ℕ → Run → Resource → Db → List ℕ × Db
unfolding acquire_lock enqueue_run
admit_to now run resource db =
    let (acquired, after) = acquire_lock now run resource db in
    if acquired then (run.id ∷ [], after) else ([], (enqueue_run run resource after).1)

unfoldable pub admit : ℕ → Run → Option Text → Db → List ℕ × Db
unfolding find_or_create_resource admit_to
admit now run resource_name db = elim (truthy_text resource_name) [
  | none ↦ (run.id ∷ [], update_run run.id (λ r. record r { status = RunStatus.running }) db)
  | some name ↦
      let (resource, found) = find_or_create_resource name db in admit_to now run resource found
]

-- `exists` tells which files are on disk; `today` is the date as YYYYMMDD.
unfoldable pub create_run : ℕ → Text → (Text → Bool) → RunCreate → Db → Result (ℕ × List ℕ × Db)
unfolding new_run admit file_part
create_run now today exists payload db = do
  client ← or_raise (find_client payload.client_key db) not_found
  let tests = select (λ nid. exists (file_part nid)) payload.selected_tests
  let run =
      new_run now today client tests payload.setup_config_id payload.teardown_config_id none db
  let (tasks, after) =
      admit now run payload.resource_name (add_links run.id payload.suite_ids (add_run run db))
  ok (run.id, tasks, after)

-- The end of the `finally` blocks and of `cancel_run_endpoint`: the lock of the run is released,
-- and the result is the run to start next.
unfoldable pub hand_on : ℕ → ℕ → Option ℕ → Db → Option ℕ × Db
unfolding release_resource
hand_on now run_id resource_id db = elim (truthy_id resource_id) [
  | none ↦ (none, db)
  | some rid ↦ elim (find_resource rid db) [
    | none ↦ (none, db)
    | some resource ↦ release_resource now resource (some run_id) db
  ]
]

-- `finally:` of `schedule_run_task`, up to the pruning of reports, and of `_schedule_cli_run`.
unfoldable pub release_of_run : ℕ → ℕ → Db → Option ℕ × Db
unfolding hand_on
release_of_run now run_id db = elim (find_run run_id db) [
  | none ↦ (none, db)
  | some run ↦ hand_on now run_id run.resource_id db
]

-- `except:` of both tasks: a run that has not ended is marked as failed. `schedule_run_task` uses
-- it for a failed setup too, with the time of the end.
unfoldable pub mark_failed : ℕ → Option ℕ → Db → Db
mark_failed run_id finished_at db = elim (find_run run_id db) [
  | none ↦ db
  | some run ↦
      if is_finished run.status
      then db
      else update_run run_id
          (λ r. record r {
            status = RunStatus.failed;
            finished_at = later finished_at r.finished_at;
          })
          db
]

-- `run.status in ("running", "queued", "pending")`.
abbrev pub is_cancellable : RunStatus → Bool
is_cancellable RunStatus.pending = true
is_cancellable RunStatus.queued = true
is_cancellable RunStatus.running = true
is_cancellable RunStatus.completed = false
is_cancellable RunStatus.failed = false
is_cancellable RunStatus.cancelled = false

-- The queue entries of the run go, and the run is marked.
unfoldable pub mark_cancelled : ℕ → ℕ → Db → Db
mark_cancelled now run_id db =
    update_run run_id (λ r. record r { status = RunStatus.cancelled; finished_at = some now })
      (record db { entries = delete (λ e. e.run_id == run_id) db.entries })

pub record Cancelled : Type 0 where
  pub processes_killed : ℕ
  pub next_run_id : Option ℕ
  pub db : Db
  pub runtime : Runtime

unfoldable pub cancel_run_endpoint : ℕ → ℕ → Text → Db → Runtime → Result Cancelled
unfolding verify_run_owner mark_cancelled hand_on
cancel_run_endpoint now run_id client_key db rt = do
  run ← verify_run_owner run_id (some client_key) db
  require (is_cancellable run.status) conflict
  let (killed, rt') = cancel_run run_id rt
  let (next, db') = hand_on now run_id run.resource_id (mark_cancelled now run_id db)
  ok (record { processes_killed = killed; next_run_id = next; db = db'; runtime = rt' })

abbrev is_running : RunStatus → Bool
is_running RunStatus.pending = false
is_running RunStatus.queued = false
is_running RunStatus.running = true
is_running RunStatus.completed = false
is_running RunStatus.failed = false
is_running RunStatus.cancelled = false

-- Whether the file's process was cancelled; not when it had finished.
unfoldable pub cancel_run_file_endpoint : ℕ → Text → Text → Db → Runtime → Result (Bool × Runtime)
unfolding verify_run_owner cancel_run_file
cancel_run_file_endpoint run_id file_path client_key db rt = do
  run ← verify_run_owner run_id (some client_key) db
  require (is_running run.status) conflict
  let (result, rt') = cancel_run_file run_id file_path rt
  elim result [
    | FileCancel.killed ↦ ok (true, rt')
    | FileCancel.already_finished ↦ ok (false, rt')
    | FileCancel.not_found ↦ raise HttpError.not_found
  ]
