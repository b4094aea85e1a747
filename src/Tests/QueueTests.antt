-- ===== src/Tests/QueueTests.antt =====
-- The theorems on the queue manager at small databases.
use distributed_verification.Prelude.{
  true, ◌⊎◌, ◌≡◌, refl, false, none, some, [], ◌∷◌, ◌++◌, arith, order_by,
}
use distributed_verification.Model.{RunStatus}
use distributed_verification.Queue.{acquire_lock, enqueue_run, release_resource}
use distributed_verification.Queue.Locks.{
  IsExclusive, stale, IsGranted, acquire_lock-available, acquire_lock-IsExclusive,
}
use distributed_verification.Queue.Refused.{IsTaken, acquire_lock-cases}
use distributed_verification.Queue.Release.{holder, release_resource-IsExclusive}
use distributed_verification.Queue.Fifo.{
  IsKeyed, waiting_runs, waiting_runs-enqueue_run, release_resource-serves,
}
use distributed_verification.Tests.Samples.{board, make_run, lock_of, contended, stale_holder}

contended-IsExclusive : IsExclusive contended
contended-IsExclusive r = ground arith

stale_holder-IsExclusive : IsExclusive stale_holder
stale_holder-IsExclusive r = ground arith

pub contended-IsKeyed : IsKeyed contended
contended-IsKeyed = record { unique = λ id. ground arith; below = λ id late. ground arith }

acquire_lock-cases_example :
    (IsTaken 1 contended
      × (acquire_lock 50 (make_run 3 RunStatus.pending none) board contended ≡ (false, contended)))
    ⊎ (¬ IsTaken 1 contended
        × ((acquire_lock 50 (make_run 3 RunStatus.pending none) board contended).0 ≡ true))
acquire_lock-cases_example =
    acquire_lock-cases 50 (make_run 3 RunStatus.pending none) board contended (omega arith)

acquire_lock-available_example :
    IsGranted
      (make_run 3 RunStatus.pending none)
      board
      (acquire_lock 50 (make_run 3 RunStatus.pending none) board stale_holder)
acquire_lock-available_example =
    acquire_lock-available 50 (make_run 3 RunStatus.pending none) board stale_holder (omega arith)
      (stale (lock_of 1) (make_run 1 RunStatus.completed (some 1)) refl refl refl)

acquire_lock-IsExclusive_example :
    IsExclusive (acquire_lock 50 (make_run 3 RunStatus.pending none) board stale_holder).1
acquire_lock-IsExclusive_example =
    acquire_lock-IsExclusive 50 (make_run 3 RunStatus.pending none) board stale_holder
      stale_holder-IsExclusive

release_resource-IsExclusive_example : IsExclusive (release_resource 50 board (some 1) contended).1
release_resource-IsExclusive_example =
    release_resource-IsExclusive 50 board contended contended-IsExclusive
      (holder (lock_of 1) refl refl)

waiting_runs-enqueue_run_example :
    waiting_runs 1 (enqueue_run (make_run 7 RunStatus.pending none) board contended).1
    ≡ waiting_runs 1 contended ++ 7 ∷ []
waiting_runs-enqueue_run_example =
    waiting_runs-enqueue_run (make_run 7 RunStatus.pending none) board contended

release_resource-serves_example :
    ((release_resource 50 board (some 1) contended).0 ≡ some 2)
    × (waiting_runs 1 (release_resource 50 board (some 1) contended).1 ≡ 3 ∷ [])
unfolding order_by
release_resource-serves_example =
    release_resource-serves 50 board (some 1) contended 2 (3 ∷ [])
      (make_run 2 RunStatus.queued none) contended-IsKeyed refl refl

-- The third request waits behind the two others.
enqueue_position : (enqueue_run (make_run 7 RunStatus.pending none) board contended).0.position ≡ 3
unfolding enqueue_run
enqueue_position = refl
