-- ===== src/Runs/CancelCommand.antt =====
-- cancel_run_endpoint while a command ends by itself.
use distributed_verification.Prelude.{
  ℕ, zero, suc, ◌≡◌, refl, sym, inl, inr, Bool, true, some, List, [], ◌∷◌, ◌++◌, Text, arith, ◌==◌,
  ==_refl, if◌then◌else◌, Bool-cases,
}
use distributed_verification.Model.{RunStatus, Run, Db}
use distributed_verification.Queue.{find_run}
use distributed_verification.Access.{ok, verify_run_owner, require, conflict, >>=-eq-ok}
use distributed_verification.Runner.Processes.{code, Runtime, mem_id, add_id, cancel_run}
use distributed_verification.Runner.Capture.{finish_capture}
use distributed_verification.Runner.Capture.Status.{finish_capture_lem}
use distributed_verification.Runner.CliCapture.{cli_status, finish_cli}
use distributed_verification.Runs.{is_cancellable, Cancelled, cancel_run_endpoint}
use distributed_verification.Runs.Cancel.{find_run-update_self, cancel_run_endpoint_cancels}

mem_id-snoc : (n : ℕ) (ids : List ℕ) → mem_id n (ids ++ n ∷ []) ≡ true
mem_id-snoc n [] = rw (==_refl n) refl
mem_id-snoc n (i ∷ ids) = ground (arith, mem_id-snoc n ids)

mem_id-add_id : (n : ℕ) (ids : List ℕ) → mem_id n (add_id n ids) ≡ true
mem_id-add_id n ids = elim (Bool-cases (mem_id n ids)) [
  | inl e ↦ rw e e
  | inr e ↦ rw e (mem_id-snoc n ids)
]

cli_status-code :
    (n : ℕ)
    → cli_status (some (code n)) ≡ (if n == 0 then RunStatus.completed else RunStatus.failed)
cli_status-code zero = refl
cli_status-code (suc n) = ground arith

cancelled-runtime :
    (now a : ℕ) (key : Text) (db : Db) (rt : Runtime) (c : Cancelled)
    → cancel_run_endpoint now a key db rt ≡ ok c
    → mem_id a c.runtime.cancelled ≡ true
unfolding cancel_run_endpoint cancel_run
cancelled-runtime now a key db rt c e =
    let (run, owned, e₁) = >>=-eq-ok (verify_run_owner a (some key) db) _ e in
    let (_, _, e₂) = >>=-eq-ok (require (is_cancellable run.status) conflict) _ e₁ in
    let result : (cancel_run a rt).1 ≡ c.runtime = cc in
    rw (sym result) (mem_id-add_id a rt.cancelled)

-- A run is cancelled while its process ends by itself with code `n`. If the run is a command, the end
-- of its capture overwrites the cancellation with the outcome of the process, and its id stays among
-- those of the cancelled runs; the end of the capture of a test run would keep the cancellation.
pub finish_cli_overwrites :
    (now later a n : ℕ) (is_pytest : Bool) (discovered : List Text) (key : Text) (db : Db)
    (rt : Runtime) (c : Cancelled)
    → cancel_run_endpoint now a key db rt ≡ ok c
    → let (after, rt') =
        finish_cli later a is_pytest discovered (some (code n)) (c.db, c.runtime) in
      let (tested, _) = finish_capture later a (some (code n) ∷ []) (c.db, c.runtime) in
      (run : Run) × (find_run a after ≡ some run)
      × (run.status ≡ (if n == 0 then RunStatus.completed else RunStatus.failed))
      × (mem_id a rt'.cancelled ≡ true)
      × (other : Run) × (find_run a tested ≡ some other)
      × (other.status ≡ RunStatus.cancelled)
unfolding finish_cli
finish_cli_overwrites now later a n is_pytest discovered key db rt c e =
    let (run, there, marked, _) = cancel_run_endpoint_cancels now a key db rt c e in
    let (status, tested, kept, _, _, _) =
      finish_capture_lem later a (some (code n) ∷ []) c.db c.runtime run there in
    let known = cancelled-runtime now a key db rt c e in
    (
      _,
      find_run-update_self a _ c.db.runs {run = run} (λ r. refl) there,
      cli_status-code n,
      known,
      record run { status = status; finished_at = some later },
      tested,
      kept.1 (ground (arith, known)),
    )
