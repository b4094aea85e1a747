-- ===== src/Runs/Task.antt =====
-- routes.py: schedule_run_task, the task of a run: setup, tests and teardown, and then the resource
-- is handed on and excess runs are pruned. The log entries of the steps are left out.
pub mod Finish
use mathlib.Core.Option
use distributed_verification.Prelude.{ℕ, Bool, true, false, Option, none, some, List, [], ◌∷◌, Text}
use distributed_verification.Model.{PhaseStatus, Step, Run, Db}
use distributed_verification.Queue.{find_run, update_run}
use distributed_verification.Configs.{load_config}
use distributed_verification.Runner.Processes.{Runtime}
use distributed_verification.Runner.Steps.{Outcome, execute_setup_steps, execute_teardown_steps}
use distributed_verification.Runner.Capture.{
  Surroundings, Attempt, returned, raised, capture_test_run,
}
use distributed_verification.Purge.{prune_excess_reports}
use distributed_verification.Runs.{truthy_id, mark_failed, release_of_run}

-- What surrounds the task: the outcomes of the steps, the capture, and the times of its parts.
pub record TaskWorld : Type 0 where
  pub outcome : Step → Outcome
  pub capture : Surroundings
  pub setup_time : ℕ
  pub release_time : ℕ
  pub max_report_count : ℕ
  pub report_dirs : List ℕ

module _ (world : TaskWorld) where
  -- `setup_ok`; without a configuration the setup is skipped.
  unfoldable pub setup_phase : Run → Db → Bool × Db
  unfolding execute_setup_steps
  setup_phase run db = elim (truthy_id run.setup_config_id) [
    | none ↦
        (true, update_run run.id (λ r. record r { setup_status = some PhaseStatus.skipped }) db)
    | some config_id ↦
        let (setup_ok, _, after) =
          execute_setup_steps world.outcome run.id config_id (load_config config_id db.setup) db in
        (setup_ok, after)
  ]

  unfoldable pub teardown_phase : ℕ → Db → Db
  unfolding execute_teardown_steps
  teardown_phase run_id db = elim (find_run run_id db) [
    | none ↦ db
    | some run ↦ elim (truthy_id run.teardown_config_id) [
      | none ↦ update_run run_id (λ r. record r { teardown_status = some PhaseStatus.skipped }) db
      | some config_id ↦
          (execute_teardown_steps world.outcome run_id config_id (load_config config_id db.teardown)
            db).2
    ]
  ]

  -- What follows `capture_test_run`: the teardown, or the handler of the exception.
  unfoldable pub after_capture : ℕ → Attempt → Db × Runtime
  unfolding teardown_phase mark_failed
  after_capture run_id (returned (db, rt)) = (teardown_phase run_id db, rt)
  after_capture run_id (raised (db, rt)) = (mark_failed run_id none db, rt)

  unfoldable pub after_setup : ℕ → Run → Runtime → Bool × Db → Option (Db × Runtime)
  unfolding after_capture capture_test_run
  after_setup now run rt (false, db) = some (mark_failed run.id (some world.setup_time) db, rt)
  after_setup now run rt (true, db) =
      Option.map (after_capture run.id)
        (capture_test_run world.capture now run.id run.selected_tests (db, rt))

  -- The task up to its `finally` block.
  unfoldable pub task_body : ℕ → Run → Db × Runtime → Option (Db × Runtime)
  unfolding setup_phase after_setup
  task_body now run (db, rt) = after_setup now run rt (setup_phase run db)

  -- The `finally` block: the result has the run whose task is started next.
  unfoldable pub task_end : ℕ → Db × Runtime → Option ℕ × Db × Runtime
  unfolding release_of_run prune_excess_reports
  task_end run_id (db, rt) =
      let (next_run_id, released) = release_of_run world.release_time run_id db in
      (next_run_id, (prune_excess_reports world.max_report_count released world.report_dirs).db, rt)

  unfoldable pub schedule_run_task : ℕ → ℕ → Db × Runtime → Option (Option ℕ × Db × Runtime)
  unfolding task_body task_end
  schedule_run_task now run_id (db, rt) = elim (find_run run_id db) [
    | none ↦ some (none, db, rt)
    | some run ↦ Option.map (task_end run_id) (task_body now run (db, rt))
  ]
