-- ===== src/Cli/Task/Finish.antt =====
-- Every command brings its run to an end.
use distributed_verification.Prelude.{
  ℕ, ◌≡◌, refl, inl, inr, Bool, true, not, ◌&&◌, ◌||◌, Option, none, some, List, [], ◌∷◌, arith,
  Text, codes, ltb, ◌==◌, if◌then◌else◌, length, any, first-update_self, Bool-cases,
}
use distributed_verification.Model.{is_finished, Run, Db}
use distributed_verification.Queue.{find_run}
use distributed_verification.Runner.Processes.{Exit, code, signal, Runtime}
use distributed_verification.Runner.Capture.{
  add_logs, is_nil, Round, is_done, begin_capture, register, Attempt, returned, raised,
}
use distributed_verification.Runner.Capture.Over.{
  IsThere, IsOver, KeepsRun, update_run-IsThere, add_logs-IsThere, begin_capture-IsThere, AttemptOf,
}
use distributed_verification.Runner.Commands.{complete_args, is_pytest_command}
use distributed_verification.Runner.CliCapture.{
  Detected, nothing_detected, cli_entries, note_progress, CliLoop, cli_round, cli_loop, cli_status,
  finish_cli, CliSurroundings, after_cli_loop, end_cli_loop, run_command, capture_cli_run,
}
use distributed_verification.Runs.Task.Finish.{mark_failed-IsOver}
use distributed_verification.Cli.Task.{after_command, command_body}

note_progress-IsThere :
    (is_pytest : Bool) (n : ℕ) (d : Detected) (db : Db)
    → IsThere n db
    → IsThere n (note_progress is_pytest n d db)
unfolding note_progress
note_progress-IsThere is_pytest n d db h =
    elim (Bool-cases (is_pytest && not (is_nil d.discovered))) [
      | inl e ↦ rw e (
          update_run-IsThere n
            (λ r.
              if length d.discovered == length r.selected_tests
              then r
              else record r { selected_tests = d.discovered })
            db (λ r. ground arith) h)
      | inr e ↦ rw e h
    ]

module _ (strip : Text → Text) (is_space : ℕ → Bool) (timeout : ℕ) (is_pytest : Bool) (n : ℕ)
    (client : Option ℕ) where
  cli_round-IsThere :
      (s : CliLoop) (r : Round)
      → ((w : Db × Runtime) → IsThere n w.0 → IsThere n (r.meanwhile w).0)
      → IsThere n s.db
      → IsThere n (cli_round strip is_space timeout is_pytest n client s r).db
  unfolding cli_round
  cli_round-IsThere s r keeps h =
      let now = (r.meanwhile (s.db, s.runtime)).0 in
      let (entries, next) = cli_entries strip is_space is_pytest r.batch s.detected in
      note_progress-IsThere is_pytest n next (add_logs n client entries now)
        (add_logs-IsThere n n client entries now (keeps (s.db, s.runtime) h))

  -- A late round ends the loop, and the run is in the table then.
  cli_loop_ends :
      (rounds : List Round) (s : CliLoop)
      → any (λ r. ltb timeout r.elapsed) rounds ≡ true
      → KeepsRun n rounds
      → IsThere n s.db
      → (after : CliLoop) × (cli_loop strip is_space timeout is_pytest n client rounds s
          ≡ some after)
        × IsThere n after.db
  unfolding cli_loop
  cli_loop_ends [] s late keeps h = cc
  cli_loop_ends (r ∷ rs) s late keeps h =
      let after = cli_round strip is_space timeout is_pytest n client s r in
      let there = cli_round-IsThere s r keeps.0 h in
      elim (Bool-cases (is_done (codes "cli" ∷ []) r || ltb timeout r.elapsed)) [
        | inl stop ↦ (after, rw stop refl, there)
        | inr go_on ↦
            let (last, e, h') = cli_loop_ends rs after (ground arith) keeps.1 there in
            (last, rw go_on e, h')
      ]

cli_status-is_finished : (exit : Option Exit) → is_finished (cli_status exit) ≡ true
cli_status-is_finished none = refl
cli_status-is_finished (some (code ℕ.zero)) = refl
cli_status-is_finished (some (code (ℕ.suc n))) = refl
cli_status-is_finished (some (signal n)) = refl

finish_cli-IsOver :
    (now n : ℕ) (is_pytest : Bool) (discovered : List Text) (exit : Option Exit) (db : Db)
    (rt : Runtime)
    → IsThere n db
    → IsOver n (finish_cli now n is_pytest discovered exit (db, rt)).0
unfolding finish_cli
finish_cli-IsOver now n is_pytest discovered exit db rt (r, there) = (
  _,
  first-update_self (λ r. r.id == n) _ db.runs {x = r} (λ r. refl) there,
  cli_status-is_finished exit,
)

module _ (env : CliSurroundings) where
  after_cli_loop-IsOver :
      (is_pytest : Bool) (run : Run) (s : CliLoop)
      → IsThere run.id s.db
      → IsOver run.id (after_cli_loop env is_pytest run s).0
  unfolding after_cli_loop
  after_cli_loop-IsOver is_pytest run s h =
      let (entries, next) = cli_entries env.strip env.is_space is_pytest env.drained s.detected in
      finish_cli-IsOver env.end_time run.id is_pytest next.discovered env.exit
        (add_logs run.id (some run.client_id) entries s.db) s.runtime
        (add_logs-IsThere run.id run.id (some run.client_id) entries s.db h)

  run_command_ends :
      (run : Run) (args : List Text) (db : Db) (rt : Runtime)
      → any (λ r. ltb env.timeout r.elapsed) env.rounds ≡ true
      → KeepsRun run.id env.rounds
      → IsThere run.id db
      → (result : Attempt) × (run_command env run args (db, rt) ≡ some result)
        × AttemptOf run.id result
  unfolding run_command end_cli_loop
  run_command_ends run args db rt late keeps h = elim (Bool-cases (env.starts args)) [
    | inl up ↦
        let is_pytest = is_pytest_command env.executable env.lower args in
        let start : CliLoop = record {
          db = db;
          runtime =
              register run.id (record { tag = codes "cli"; targets = args; key = codes "cli" } ∷ [])
                rt;
          detected = nothing_detected;
        } in
        let (last, e, there) =
          cli_loop_ends env.strip env.is_space env.timeout is_pytest run.id (some run.client_id)
            env.rounds start late keeps h in
        (
          returned (after_cli_loop env is_pytest run last),
          rw (up, e) refl,
          after_cli_loop-IsOver is_pytest run last there,
        )
    | inr down ↦ (raised (db, rt), rw down refl, h)
  ]

  begun_ends :
      (run : Run) (o : Option (List Text)) (begun : Db) (rt : Runtime)
      → any (λ r. ltb env.timeout r.elapsed) env.rounds ≡ true
      → KeepsRun run.id env.rounds
      → IsThere run.id begun
      → (result : Attempt) × ((elim o [
        | none ↦ some (raised (begun, rt))
        | some args ↦ run_command env run (complete_args env.executable args) (begun, rt)
      ])
          ≡ some result)
        × AttemptOf run.id result
  begun_ends run none begun rt late keeps h = (raised (begun, rt), refl, h)
  begun_ends run (some args) begun rt late keeps h =
      run_command_ends run (complete_args env.executable args) begun rt late keeps h

  capture_cli_run_ends :
      (now : ℕ) (run : Run) (command : Text) (db : Db) (rt : Runtime)
      → any (λ r. ltb env.timeout r.elapsed) env.rounds ≡ true
      → KeepsRun run.id env.rounds
      → find_run run.id db ≡ some run
      → (result : Attempt) × (capture_cli_run env now run.id command (db, rt) ≡ some result)
        × AttemptOf run.id result
  unfolding capture_cli_run
  capture_cli_run_ends now run command db rt late keeps there =
      let begun = begin_capture now run db in
      let (result, e, h) =
        begun_ends run (env.split command) begun rt late keeps
          (begin_capture-IsThere now run db (run, there)) in
      (result, rw (there, capture_cli_run) e, h)

  after_command-IsOver :
      (n : ℕ) (result : Attempt) → AttemptOf n result → IsOver n (after_command n result).0
  unfolding after_command
  after_command-IsOver n (returned (db, rt)) h = h
  after_command-IsOver n (raised (db, rt)) h = mark_failed-IsOver n none db h

  -- The task of a command whose run is in the table ends, up to its `finally` block, and the run is
  -- finished then, whether the command can be split, can be started, or fails; a round of the loop
  -- must come after the timeout, and the other tasks must not delete the run.
  pub command_body-IsOver :
      (now : ℕ) (run : Run) (command : Text) (db : Db) (rt : Runtime)
      → any (λ r. ltb env.timeout r.elapsed) env.rounds ≡ true
      → KeepsRun run.id env.rounds
      → find_run run.id db ≡ some run
      → (after : Db × Runtime) × (command_body env now run.id command (db, rt) ≡ some after)
        × IsOver run.id after.0
  unfolding command_body
  command_body-IsOver now run command db rt late keeps there =
      let (result, e, h) = capture_cli_run_ends now run command db rt late keeps there in
      (after_command run.id result, rw e refl, after_command-IsOver run.id result h)
