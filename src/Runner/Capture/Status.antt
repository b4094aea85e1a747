-- ===== src/Runner/Capture/Status.antt =====
-- The status that a run has when its capture ends.
use distributed_verification.Prelude.{
  ℕ, ◌≡◌, refl, ◌↔◌, Bool, true, false, not, ◌&&◌, ◌||◌, Option, some, List, [], ◌∷◌, arith, ◌==◌,
  any, delete, first-update_self, select-delete_self,
}
use distributed_verification.Model.{RunStatus, Run, Db}
use distributed_verification.Queue.{find_run}
use distributed_verification.Runner.Processes.{Exit, ActiveRun, Runtime, mem_id, procs_of}
use distributed_verification.Runner.Capture.{
  is_success, is_cancelled, final_status, was_cancelled, finish_capture,
}

-- The run was cancelled by its endpoint or for a file, by a signal, or in the database.
abbrev pub IsCancelled : ℕ → List (Option Exit) → Runtime → Run → Type 0
IsCancelled run_id exits rt run = (was_cancelled run_id exits rt || is_cancelled run.status) ≡ true

final_status_iff :
    (cancelled any_failed : Bool) (old : RunStatus)
    → ((final_status cancelled any_failed old ≡ RunStatus.cancelled)
        ↔ ((cancelled || is_cancelled old) ≡ true))
      × ((final_status cancelled any_failed old ≡ RunStatus.completed)
          ↔ ((not (cancelled || is_cancelled old) && not any_failed) ≡ true))
unfolding final_status
final_status_iff cancelled any_failed RunStatus.pending = ground arith
final_status_iff cancelled any_failed RunStatus.queued = ground arith
final_status_iff cancelled any_failed RunStatus.running = ground arith
final_status_iff cancelled any_failed RunStatus.completed = ground arith
final_status_iff cancelled any_failed RunStatus.failed = ground arith
final_status_iff cancelled any_failed RunStatus.cancelled = ground arith

procs_of-delete :
    (run_id : ℕ) (rt : Runtime) (ids : List ℕ)
    → procs_of run_id
        (record { active = delete (λ a. a.run_id == run_id) rt.active; cancelled = ids })
      ≡ []
procs_of-delete run_id rt ids =
    rw (select-delete_self (λ (a : ActiveRun). a.run_id == run_id) rt.active, procs_of) refl

mem_id-delete : (n : ℕ) (ids : List ℕ) → mem_id n (delete (λ i. i == n) ids) ≡ false
mem_id-delete n [] = refl
mem_id-delete n (i ∷ ids) = ground (arith, mem_id-delete n ids)

-- At the end of a capture the run is cancelled exactly if its id was marked, a process died of a
-- signal, or the database says so; it is completed exactly if it is not cancelled and every process
-- ended with code 0. Its end is noted, and it is in neither table of the processes any more.
pub finish_capture_lem :
    (now run_id : ℕ) (exits : List (Option Exit)) (db : Db) (rt : Runtime) (run : Run)
    → find_run run_id db ≡ some run
    → let (after, rt') = finish_capture now run_id exits (db, rt) in
      (status : RunStatus) × (find_run run_id after
        ≡ some (record run { status = status; finished_at = some now }))
      × ((status ≡ RunStatus.cancelled) ↔ IsCancelled run_id exits rt run)
      × ((status ≡ RunStatus.completed) ↔ (
          (not (was_cancelled run_id exits rt || is_cancelled run.status)
            && not (any (λ e. not (is_success e)) exits))
          ≡ true))
      × (procs_of run_id rt' ≡ [])
      × (mem_id run_id rt'.cancelled ≡ false)
unfolding finish_capture
finish_capture_lem now run_id exits db rt run there =
    let failed = any (λ e. not (is_success e)) exits in
    let cancelled = was_cancelled run_id exits rt in
    let (cancelled_iff, completed_iff) = final_status_iff cancelled failed run.status in
    (
      final_status cancelled failed run.status,
      first-update_self (λ r. r.id == run_id) _ db.runs {x = run} (λ r. refl) there,
      cancelled_iff,
      completed_iff,
      procs_of-delete run_id rt (delete (λ i. i == run_id) rt.cancelled),
      mem_id-delete run_id rt.cancelled,
    )
