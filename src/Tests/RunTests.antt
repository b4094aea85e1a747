-- ===== src/Tests/RunTests.antt =====
-- The theorems on the life of a run at small databases.
use distributed_verification.Prelude.{
  ◌≡◌, refl, true, false, none, some, [], ◌∷◌, arith, codes, order_by,
}
use distributed_verification.Model.{RunStatus, Run}
use distributed_verification.Queue.{find_run}
use distributed_verification.Queue.Locks.{held}
use distributed_verification.Access.{ok}
use distributed_verification.Runner.Processes.{code, mem_id, cancel_run}
use distributed_verification.Runner.Capture.{finish_capture}
use distributed_verification.Runner.CliCapture.{finish_cli}
use distributed_verification.Runs.CancelCommand.{finish_cli_overwrites}
use distributed_verification.Runs.{
  release_of_run, mark_cancelled, Cancelled, cancel_run_endpoint, hand_on,
}
use distributed_verification.Runs.DoubleRelease.{IsContended}
use distributed_verification.Runs.CancelTwice.{cancel_then_finish_doubles}
use distributed_verification.Tests.Samples.{board, make_run, lock_of, contended, quiet}

-- Run 1 is cancelled at time 50.
cancelled_one : Cancelled
unfolding cancel_run_endpoint
cancelled_one = record {
  processes_killed = 0;
  next_run_id = (hand_on 50 1 (some 1) (mark_cancelled 50 1 contended)).0;
  db = (hand_on 50 1 (some 1) (mark_cancelled 50 1 contended)).1;
  runtime = (cancel_run 1 quiet).1;
}

cancelled_one_lem : cancel_run_endpoint 50 1 (codes "k1") contended quiet ≡ ok cancelled_one
unfolding cancelled_one cancel_run
cancelled_one_lem = refl

marked-IsContended : IsContended (mark_cancelled 50 1 contended) board 1 2 3 []
unfolding mark_cancelled order_by
marked-IsContended = record {
  lock = lock_of 1;
  found = refl;
  held_by = refl;
  single = refl;
  keyed = record { unique = λ id. ground arith; below = λ id late. ground arith };
  waits = refl;
  run_b = make_run 2 RunStatus.queued none;
  there_b = refl;
  run_c = make_run 3 RunStatus.queued none;
  there_c = refl;
  other = λ e. omega arith;
}

cancel_then_finish_doubles_example :
    (cancelled_one.next_run_id ≡ some 2)
    × ((release_of_run 60 1 cancelled_one.db).0 ≡ some 3)
    × (held 1 (release_of_run 60 1 cancelled_one.db).1 ≡ 2)
cancel_then_finish_doubles_example =
    cancel_then_finish_doubles 50 60 1 2 3 0 [] (codes "k1") contended quiet
      (make_run 1 RunStatus.running (some 1)) board cancelled_one cancelled_one_lem refl refl refl
      marked-IsContended

-- The process of run 1 ends with code 0 while the run is cancelled.
finish_cli_overwrites_example :
    let (after, rt') =
      finish_cli 60 1 false [] (some (code 0)) (cancelled_one.db, cancelled_one.runtime) in
    let (tested, _) =
      finish_capture 60 1 (some (code 0) ∷ []) (cancelled_one.db, cancelled_one.runtime) in
    (run : Run) × (find_run 1 after ≡ some run)
    × (run.status ≡ RunStatus.completed)
    × (mem_id 1 rt'.cancelled ≡ true)
    × (other : Run) × (find_run 1 tested ≡ some other)
    × (other.status ≡ RunStatus.cancelled)
finish_cli_overwrites_example =
    finish_cli_overwrites 50 60 1 0 false [] (codes "k1") contended quiet cancelled_one
      cancelled_one_lem
