-- ===== src/Startup.antt =====
-- backend/app/main.py: the clean-up in `lifespan` when the server starts, and cleanup_stale of
-- backend/app/api/routes.py, which an administrator calls.
pub mod Laws
pub mod Backfill
use distributed_verification.Prelude.{
  ℕ, Bool, true, false, ◌&&◌, Option, none, some, List, ◌++◌, map, Text, codes, select, delete,
  update, count, length, not,
}
use distributed_verification.Model.{RunStatus, Run, ResourceLock, Db}
use distributed_verification.Queue.{is_null}
use distributed_verification.Runs.{is_cancellable}
use distributed_verification.Runner.Processes.{mem_id}

-- `status in ("failed", "completed")`.
abbrev pub is_over : RunStatus → Bool
is_over RunStatus.pending = false
is_over RunStatus.queued = false
is_over RunStatus.running = false
is_over RunStatus.completed = true
is_over RunStatus.failed = true
is_over RunStatus.cancelled = false

-- Every unreleased lock is released.
abbrev pub release_all : ℕ → List ResourceLock → List ResourceLock
release_all now locks =
    update (λ l. is_null l.released_at) (λ l. record l { released_at = some now }) locks

-- `(r.note or "") + " [auto-failed: server restart]"`.
abbrev restart_note : Option Text → Option Text
restart_note none = some (codes " [auto-failed: server restart]")
restart_note (some note) = some (note ++ codes " [auto-failed: server restart]")

-- The ids of the runs that have failed or completed.
abbrev pub over_ids : List Run → List ℕ
over_ids runs = map (λ r. r.id) (select (λ r. is_over r.status) runs)

unfoldable pub lifespan_cleanup : ℕ → Db → Db
lifespan_cleanup now db =
    let runs' =
      update (λ r. is_cancellable r.status)
        (λ r. record r { status = RunStatus.failed; note = restart_note r.note }) db.runs in
    record db {
      locks = release_all now db.locks;
      runs = runs';
      entries = delete (λ e. mem_id e.run_id (over_ids runs')) db.entries;
    }

pub record Cleaned : Type 0 where
  pub released_locks : ℕ
  pub failed_runs : ℕ
  pub deleted_locks : ℕ
  pub deleted_queue_entries : ℕ
  pub db : Db

unfoldable pub cleanup_stale : ℕ → Db → Cleaned
cleanup_stale now db =
    let locks' = release_all now db.locks in
    let runs' =
      update (λ r. is_cancellable r.status) (λ r. record r { status = RunStatus.failed }) db.runs in
    let over = over_ids runs' in
    record {
      released_locks = count (λ l. is_null l.released_at) db.locks;
      failed_runs = count (λ r. is_cancellable r.status) db.runs;
      deleted_locks = count (λ l. not (is_null l.released_at)) locks';
      deleted_queue_entries = count (λ e. mem_id e.run_id over) db.entries;
      db = record db {
        locks = delete (λ l. not (is_null l.released_at)) locks';
        runs = runs';
        entries = delete (λ e. mem_id e.run_id over) db.entries;
      };
    }
