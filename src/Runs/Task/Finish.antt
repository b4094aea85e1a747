-- ===== src/Runs/Task/Finish.antt =====
-- Every task brings its run to an end.
use distributed_verification.Prelude.{
  ℕ, ◌≡◌, refl, inl, inr, Bool, true, false, Option, none, some, ltb, ◌==◌, any, first-update_self,
  Bool-cases, Option-cases,
}
use distributed_verification.Model.{PhaseStatus, Step, is_finished, Run, Db}
use distributed_verification.Queue.{find_run, update_run}
use distributed_verification.Configs.{load_config}
use distributed_verification.Runner.Processes.{Runtime}
use distributed_verification.Runner.Steps.{
  Configuration, Outcome, execute_steps, execute_setup_steps, execute_teardown_steps,
}
use distributed_verification.Runner.Capture.{Attempt, returned, raised}
use distributed_verification.Runner.Capture.Ending.{capture_test_run_ends}
use distributed_verification.Runner.Capture.Over.{
  IsThere, IsOver, KeepsRun, update_run-IsThere, update_run-IsOver, AttemptOf,
  capture_test_run-AttemptOf,
}
use distributed_verification.Runs.{truthy_id, mark_failed}
use distributed_verification.Runs.Task.{
  TaskWorld, setup_phase, teardown_phase, after_capture, after_setup, task_body,
}

pub mark_failed-IsOver :
    (n : ℕ) (t : Option ℕ) (db : Db) → IsThere n db → IsOver n (mark_failed n t db)
unfolding mark_failed
mark_failed-IsOver n t db (r, there) = elim (Bool-cases (is_finished r.status)) [
  | inl over ↦ rw (there, mark_failed) (rw over (r, there, over))
  | inr alive ↦
      rw (there, mark_failed)
        (rw alive (_, first-update_self (λ r. r.id == n) _ db.runs {x = r} (λ r. refl) there, refl))
]

module _ (outcome : Step → Outcome) where
  execute_setup_steps-IsThere :
      (n config_id : ℕ) (o : Option Configuration) (db : Db)
      → IsThere n db
      → IsThere n (execute_setup_steps outcome n config_id o db).2
  unfolding execute_setup_steps execute_steps
  execute_setup_steps-IsThere n config_id none db h = h
  execute_setup_steps-IsThere n config_id (some config) db h =
      update_run-IsThere n _
        (update_run n (λ r. record r { setup_status = some PhaseStatus.running }) db) (λ r. refl)
        (update_run-IsThere n (λ r. record r { setup_status = some PhaseStatus.running }) db
          (λ r. refl) h)

  execute_teardown_steps-IsOver :
      (n config_id : ℕ) (o : Option Configuration) (db : Db)
      → IsOver n db
      → IsOver n (execute_teardown_steps outcome n config_id o db).2
  unfolding execute_teardown_steps execute_steps
  execute_teardown_steps-IsOver n config_id none db h = h
  execute_teardown_steps-IsOver n config_id (some config) db h =
      update_run-IsOver n _
        (update_run n (λ r. record r { teardown_status = some PhaseStatus.running }) db) (λ r. refl)
        (λ r k. k)
        (update_run-IsOver n (λ r. record r { teardown_status = some PhaseStatus.running }) db
          (λ r. refl) (λ r k. k) h)

module _ (world : TaskWorld) where
  setup_phase-IsThere :
      (run : Run) (db : Db) → IsThere run.id db → IsThere run.id (setup_phase world run db).1
  unfolding setup_phase
  setup_phase-IsThere run db h = elim (Option-cases (truthy_id run.setup_config_id)) [
    | inl e ↦
        rw (e, setup_phase)
          (update_run-IsThere run.id (λ r. record r { setup_status = some PhaseStatus.skipped }) db
            (λ r. refl) h)
    | inr (config_id, e) ↦
        rw (e, setup_phase)
          (execute_setup_steps-IsThere world.outcome run.id config_id
            (load_config config_id db.setup) db h)
  ]

  teardown_phase-IsOver : (n : ℕ) (db : Db) → IsOver n db → IsOver n (teardown_phase world n db)
  unfolding teardown_phase
  teardown_phase-IsOver n db (r, there, over) =
      elim (Option-cases (truthy_id r.teardown_config_id)) [
        | inl e ↦
            rw (there, teardown_phase)
              (rw e (
                update_run-IsOver n (λ r. record r { teardown_status = some PhaseStatus.skipped })
                  db (λ r. refl) (λ r k. k) (r, there, over)))
        | inr (config_id, e) ↦
            rw (there, teardown_phase)
              (rw e (
                execute_teardown_steps-IsOver world.outcome n config_id
                  (load_config config_id db.teardown) db (r, there, over)))
      ]

  after_capture-IsOver :
      (n : ℕ) (result : Attempt) → AttemptOf n result → IsOver n (after_capture world n result).0
  unfolding after_capture
  after_capture-IsOver n (returned (db, rt)) h = teardown_phase-IsOver n db h
  after_capture-IsOver n (raised (db, rt)) h = mark_failed-IsOver n none db h

  after_setup-IsOver :
      (now : ℕ) (run : Run) (rt : Runtime) (passed : Bool) (db : Db)
      → any (λ r. ltb world.capture.timeout r.elapsed) world.capture.rounds ≡ true
      → KeepsRun run.id world.capture.rounds
      → IsThere run.id db
      → (after : Db × Runtime) × (after_setup world now run rt (passed, db) ≡ some after)
        × IsOver run.id after.0
  unfolding after_setup
  after_setup-IsOver now run rt false db late keeps h = (
    (mark_failed run.id (some world.setup_time) db, rt),
    refl,
    mark_failed-IsOver run.id (some world.setup_time) db h,
  )
  after_setup-IsOver now run rt true db late keeps h =
      let (result, e) =
        capture_test_run_ends world.capture now run.id run.selected_tests (db, rt) late in
      let over =
        capture_test_run-AttemptOf world.capture now run.id run.selected_tests db rt result keeps h
          e in
      (after_capture world run.id result, rw e refl, after_capture-IsOver run.id result over)

  -- The task of a run in the table ends, up to its `finally` block, and the run is finished then,
  -- whether its setup fails, its processes cannot be started, or its tests run; a round of the loop
  -- must come after the timeout, and the other tasks must not delete the run.
  pub task_body-IsOver :
      (now : ℕ) (run : Run) (db : Db) (rt : Runtime)
      → any (λ r. ltb world.capture.timeout r.elapsed) world.capture.rounds ≡ true
      → KeepsRun run.id world.capture.rounds
      → find_run run.id db ≡ some run
      → (after : Db × Runtime) × (task_body world now run (db, rt) ≡ some after)
        × IsOver run.id after.0
  unfolding task_body
  task_body-IsOver now run db rt late keeps there =
      let (passed, db') = setup_phase world run db in
      after_setup-IsOver now run rt passed db' late keeps (setup_phase-IsThere run db (run, there))
