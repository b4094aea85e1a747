-- ===== src/Startup/Laws.antt =====
-- What the two clean-ups guarantee.
use distributed_verification.Prelude.{
  ℕ, ◌≡◌, refl, true, not, List, [], ◌∷◌, arith, delete, update, count, All, length,
}
use distributed_verification.Model.{RunStatus, is_finished, Run, ResourceLock, Db}
use distributed_verification.Queue.{is_null, is_active}
use distributed_verification.Queue.Locks.{held}
use distributed_verification.Runs.{is_cancellable}
use distributed_verification.Startup.{release_all, lifespan_cleanup, cleanup_stale}

held-release_all :
    (r now : ℕ) (ls : List ResourceLock) → count (is_active r) (release_all now ls) ≡ 0
held-release_all r now [] = refl
held-release_all r now (l ∷ ls) = ground (arith, held-release_all r now ls)

module _ (fail : Run → Run) (fails : (r : Run) → (fail r).status ≡ RunStatus.failed) where
  All-finished :
      (rs : List Run)
      → All (λ r. is_finished r.status ≡ true) (update (λ r. is_cancellable r.status) fail rs)
  All-finished [] = tt
  All-finished (r ∷ rs) = (ground (arith, fails r), All-finished rs)

-- After a start of the server no resource is locked, and every run is finished.
pub lifespan_cleanup_clears :
    (now : ℕ) (db : Db)
    → ((resource_id : ℕ) → held resource_id (lifespan_cleanup now db) ≡ 0)
      × All (λ r. is_finished r.status ≡ true) (lifespan_cleanup now db).runs
unfolding lifespan_cleanup
lifespan_cleanup_clears now db =
    (λ r. held-release_all r now db.locks, All-finished _ (λ r. refl) db.runs)

not_null_after :
    (now : ℕ) (ls : List ResourceLock)
    → delete (λ l. not (is_null l.released_at)) (release_all now ls) ≡ []
not_null_after now [] = refl
not_null_after now (l ∷ ls) = ground (arith, not_null_after now ls)

count_after :
    (now : ℕ) (ls : List ResourceLock)
    → count (λ l. not (is_null l.released_at)) (release_all now ls) ≡ length ls
count_after now [] = refl
count_after now (l ∷ ls) = ground (arith, count_after now ls)

-- The clean-up by an administrator deletes every lock, not only the stale ones, and reports their
-- number; every run is finished then.
pub cleanup_stale_clears :
    (now : ℕ) (db : Db)
    → ((cleanup_stale now db).db.locks ≡ [])
      × ((cleanup_stale now db).deleted_locks ≡ length db.locks)
      × All (λ r. is_finished r.status ≡ true) (cleanup_stale now db).db.runs
unfolding cleanup_stale
cleanup_stale_clears now db =
    (not_null_after now db.locks, count_after now db.locks, All-finished _ (λ r. refl) db.runs)
