-- ===== src/Runner/Steps.antt =====
-- runner.py: execute_setup_steps and execute_teardown_steps. The two differ in the status column
-- that they write. A process that is started is known by its outcome, which `world` gives for each
-- step; the log lines are events, which carry what the messages are made of.
pub mod Order
use distributed_verification.Prelude.{
  ℕ, suc, Bool, true, false, not, Option, none, some, List, [], ◌∷◌, ◌++◌, map, Text, ◌==◌,
  if◌then◌else◌, first, select, order_by, length,
}
use distributed_verification.Model.{PhaseStatus, OnFailure, Step, Run, Db}
use distributed_verification.Queue.{update_run}

-- A configuration as it is loaded, with its steps.
pub record Configuration : Type 0 where
  pub id : ℕ
  pub name : Text
  pub steps : List Step

-- What came of the process of a step: it ended with an exit code (negative for a signal: `none`) and
-- the lines of its two streams, it was killed after its timeout, or it could not be run.
pub data Outcome : Type 0 where
  exited : Option ℕ → List Text → List Text → Outcome
  timed_out : Outcome
  crashed : Text → Outcome

pub data Level : Type 0 where
  info error pass fail : Level

pub data Event : Type 0 where
  config_missing : ℕ → Event
  started : Text → ℕ → Event
  step_started : Step → Event
  step_line : Level → Text → Event
  step_timeout : Step → Event
  step_failed : Step → Option ℕ → Event
  step_passed : Step → Event
  step_error : Step → Text → Event
  finished : Bool → Text → Event

-- `step.on_failure == "fail"`: the run of the steps breaks off.
abbrev pub is_fatal : OnFailure → Bool
is_fatal OnFailure.fail = true
is_fatal OnFailure.skip = false
is_fatal OnFailure.continue = false

-- The exit code 0.
abbrev pub is_zero_exit : Option ℕ → Bool
is_zero_exit none = false
is_zero_exit (some n) = n == 0

-- The log of one step behind its first line, and whether it passed.
unfoldable pub step_log : Step → Outcome → List Event × Bool
step_log step (exited code out err) =
    let lines = map (step_line Level.info) out ++ map (step_line Level.error) err in
    if is_zero_exit code
    then (lines ++ step_passed step ∷ [], true)
    else (lines ++ step_failed step code ∷ [], false)
step_log step timed_out = (step_timeout step ∷ [], false)
step_log step (crashed message) = (step_error step message ∷ [], false)

module _ (world : Step → Outcome) where
  -- The loop over the steps: `all_passed`, and the log.
  unfoldable pub run_steps : List Step → Bool × List Event
  unfolding step_log
  run_steps [] = (true, [])
  run_steps (step ∷ steps) =
      let (log, passed) = step_log step (world step) in
      let rest = run_steps steps in
      let begun = step_started step ∷ log in
      if passed
      then (rest.0, begun ++ rest.1)
      else (if is_fatal step.on_failure then (false, begun) else (rest.0, begun ++ rest.1))

  module _ (set_status : Option PhaseStatus → Run → Run) where
    -- `config` is the row that `db.get` finds, if any.
    unfoldable pub execute_steps : ℕ → ℕ → Option Configuration → Db → Bool × List Event × Db
    unfolding run_steps order_by
    execute_steps run_id config_id none db = (true, config_missing config_id ∷ [], db)
    execute_steps run_id config_id (some config) db =
        let running = update_run run_id (set_status (some PhaseStatus.running)) db in
        let (all_passed, log) = run_steps (order_by (λ s. s.order) config.steps) in
        let status = if all_passed then PhaseStatus.passed else PhaseStatus.failed in
        (
          all_passed,
          started config.name (length config.steps) ∷ log ++ finished all_passed config.name ∷ [],
          update_run run_id (set_status (some status)) running,
        )

  unfoldable pub execute_setup_steps : ℕ → ℕ → Option Configuration → Db → Bool × List Event × Db
  unfolding execute_steps
  execute_setup_steps = execute_steps (λ s r. record r { setup_status = s })

  unfoldable pub execute_teardown_steps : ℕ → ℕ → Option Configuration → Db → Bool × List Event × Db
  unfolding execute_steps
  execute_teardown_steps = execute_steps (λ s r. record r { teardown_status = s })
