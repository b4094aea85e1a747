-- ===== src/Cli/Task.antt =====
-- backend/app/api/routes.py: _schedule_cli_run, the task of a command.
pub mod Finish
use mathlib.Core.Option
use distributed_verification.Prelude.{ℕ, Option, none, some, Text}
use distributed_verification.Model.{Db}
use distributed_verification.Queue.{find_run}
use distributed_verification.Runner.Processes.{Runtime}
use distributed_verification.Runner.Capture.{Attempt, returned, raised}
use distributed_verification.Runner.CliCapture.{CliSurroundings, capture_cli_run}
use distributed_verification.Runs.{mark_failed, release_of_run}

-- Behind `capture_cli_run`: nothing, or the handler of the exception.
unfoldable pub after_command : ℕ → Attempt → Db × Runtime
unfolding mark_failed
after_command run_id (returned w) = w
after_command run_id (raised (db, rt)) = (mark_failed run_id none db, rt)

-- The `finally` block: the result has the run to start next.
unfoldable pub command_end : ℕ → ℕ → Db × Runtime → Option ℕ × Db × Runtime
unfolding release_of_run
command_end release_time run_id (db, rt) =
    let (next_run_id, after) = release_of_run release_time run_id db in (next_run_id, after, rt)

module _ (env : CliSurroundings) where
  -- The task up to its `finally` block.
  unfoldable pub command_body : ℕ → ℕ → Text → Db × Runtime → Option (Db × Runtime)
  unfolding capture_cli_run after_command
  command_body now run_id command w =
      Option.map (after_command run_id) (capture_cli_run env now run_id command w)

  unfoldable pub schedule_cli_run :
      ℕ → ℕ → ℕ → Text → Db × Runtime → Option (Option ℕ × Db × Runtime)
  unfolding command_body command_end
  schedule_cli_run release_time now run_id command (db, rt) = elim (find_run run_id db) [
    | none ↦ some (none, db, rt)
    | some run ↦
        Option.map (command_end release_time run_id) (command_body now run_id command (db, rt))
  ]
