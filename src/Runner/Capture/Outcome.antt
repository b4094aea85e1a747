-- ===== src/Runner/Capture/Outcome.antt =====
-- The status that a run has when its capture ends, by what happened to it and its processes.
use distributed_verification.Prelude.{
  ℕ, ◌≡◌, refl, sym, ◌∙◌, ap, ◌↔◌, ◌⊎◌, inl, inr, Bool, true, false, not, ◌||◌, Option, none, some,
  List, [], ◌∷◌, arith, ◌==◌, ==_iff, any, All, Any, Bool-cases, first-update_self,
}
use distributed_verification.Model.{RunStatus, Run, Db}
use distributed_verification.Queue.{find_run}
use distributed_verification.Runner.Processes.{Exit, code, signal, Runtime, mem_id, procs_of}
use distributed_verification.Runner.Capture.{
  is_signal, is_success, is_cancelled, final_status, was_cancelled, finish_capture,
}
use distributed_verification.Runner.Capture.Status.{finish_capture_lem}

-- The id is among those of the cancelled runs, a signal ended a process, or the database says so.
abbrev pub WasCancelled : ℕ → List (Option Exit) → Runtime → Run → Type 0
WasCancelled run_id exits rt run =
    Any (λ i. i ≡ run_id) rt.cancelled
    ⊎ Any (λ e. (n : ℕ) × (e ≡ some (signal n))) exits
    ⊎ (run.status ≡ RunStatus.cancelled)

-- Every process ended with code 0.
abbrev pub AllPassed : List (Option Exit) → Type 0
AllPassed exits = All (λ e. e ≡ some (code 0)) exits

module _ {A : Type 0} (p : A → Bool) (P : A → Type 0) (iff : (x : A) → (p x ≡ true) ↔ P x) where
  any_iff : (xs : List A) → (any p xs ≡ true) ↔ Any P xs
  any_iff [] = (λ h. cc, λ h. absurd h)
  any_iff (x ∷ xs) = elim (Bool-cases (p x)) [
    | inl e ↦ (λ h. inl ((iff x).0 e), λ h. rw e refl)
    | inr e ↦ rw e (
      λ h. inr ((any_iff xs).0 h),
      λ h. elim h [ inl k ↦ absurd_case ((iff x).1 k) e | inr k ↦ (any_iff xs).1 k ],
    )
  ]
    where
      absurd_case : {b c : Bool} → b ≡ true → b ≡ false → c ≡ true
      absurd_case k e = cc

is_signal_iff : (e : Option Exit) → (is_signal e ≡ true) ↔ ((n : ℕ) × (e ≡ some (signal n)))
is_signal_iff none = (λ h. cc, λ h. cc)
is_signal_iff (some (code n)) = (λ h. cc, λ h. cc)
is_signal_iff (some (signal n)) = (λ h. (n, refl), λ h. refl)

code-inj : (n : ℕ) → ◌≡◌ {A = Option Exit} (some (code n)) (some (code 0)) → n ≡ 0
code-inj n h = cc

is_success_iff : (e : Option Exit) → (is_success e ≡ true) ↔ (e ≡ some (code 0))
is_success_iff none = (λ h. cc, λ h. cc)
is_success_iff (some (signal n)) = (λ h. cc, λ h. cc)
is_success_iff (some (code n)) =
    (λ h. ap (λ k. some (code k)) ((==_iff n 0).0 h), λ h. (==_iff n 0).1 (code-inj n h))

is_cancelled_iff : (s : RunStatus) → (is_cancelled s ≡ true) ↔ (s ≡ RunStatus.cancelled)
is_cancelled_iff RunStatus.pending = (λ h. cc, λ h. cc)
is_cancelled_iff RunStatus.queued = (λ h. cc, λ h. cc)
is_cancelled_iff RunStatus.running = (λ h. cc, λ h. cc)
is_cancelled_iff RunStatus.completed = (λ h. cc, λ h. cc)
is_cancelled_iff RunStatus.failed = (λ h. cc, λ h. cc)
is_cancelled_iff RunStatus.cancelled = (λ h. refl, λ h. refl)

any_failed_iff :
    (exits : List (Option Exit)) → (any (λ e. not (is_success e)) exits ≡ false) ↔ AllPassed exits
any_failed_iff [] = (λ h. tt, λ h. refl)
any_failed_iff (e ∷ exits) = (
  λ h. ((is_success_iff e).0 (ground arith), (any_failed_iff exits).0 (ground arith)),
  λ h. ground (arith, (is_success_iff e).1 h.0, (any_failed_iff exits).1 h.1),
)

-- What ends a run: its processes passed, one of them did not, or it was cancelled.
pub data HasOutcome (run_id : ℕ) (exits : List (Option Exit)) (rt : Runtime) (run : Run)
    : RunStatus → Type 0 where
  cancelled : WasCancelled run_id exits rt run → HasOutcome run_id exits rt run RunStatus.cancelled
  completed :
      ¬ WasCancelled run_id exits rt run
      → AllPassed exits
      → HasOutcome run_id exits rt run RunStatus.completed
  failed :
      ¬ WasCancelled run_id exits rt run
      → ¬ AllPassed exits
      → HasOutcome run_id exits rt run RunStatus.failed

or_iff :
    {A B C : Type 0} (a b c : Bool)
    → ((a ≡ true) ↔ A)
    → ((b ≡ true) ↔ B)
    → ((c ≡ true) ↔ C)
    → (((a || b) || c) ≡ true) ↔ (A ⊎ B ⊎ C)
or_iff true b c h k l = (λ e. inl (h.0 refl), λ e. refl)
or_iff false true c h k l = (λ e. inr (inl (k.0 refl)), λ e. refl)
or_iff false false true h k l = (λ e. inr (inr (l.0 refl)), λ e. refl)
or_iff false false false h k l =
    (λ e. cc, λ e. elim e [ inl x ↦ h.1 x | inr (inl x) ↦ k.1 x | inr (inr x) ↦ l.1 x ])

was_cancelled_iff :
    (run_id : ℕ) (exits : List (Option Exit)) (rt : Runtime) (run : Run)
    → ((was_cancelled run_id exits rt || is_cancelled run.status) ≡ true)
      ↔ WasCancelled run_id exits rt run
was_cancelled_iff run_id exits rt run =
    let marked = any_iff (λ i. i == run_id) (λ i. i ≡ run_id) (λ i. ==_iff i run_id) rt.cancelled in
    let killed = any_iff is_signal _ is_signal_iff exits in
    or_iff (mem_id run_id rt.cancelled) (any is_signal exits) (is_cancelled run.status) marked
      killed (is_cancelled_iff run.status)

not_true : false ≡ true → ⊥
not_true h = cc

not_false : true ≡ false → ⊥
not_false h = cc

module _ (run_id : ℕ) (exits : List (Option Exit)) (rt : Runtime) (run : Run) where
  outcome_of :
      (was any_failed : Bool) (old : RunStatus)
      → (((was || is_cancelled old) ≡ true) ↔ WasCancelled run_id exits rt run)
      → ((any_failed ≡ false) ↔ AllPassed exits)
      → HasOutcome run_id exits rt run (final_status was any_failed old)
  unfolding final_status
  outcome_of true any_failed old w p = cancelled (w.0 refl)
  outcome_of false any_failed RunStatus.cancelled w p = cancelled (w.0 refl)
  outcome_of false true RunStatus.pending w p =
      failed (λ k. not_true (w.1 k)) (λ k. not_false (p.1 k))
  outcome_of false false RunStatus.pending w p = completed (λ k. not_true (w.1 k)) (p.0 refl)
  outcome_of false true RunStatus.queued w p =
      failed (λ k. not_true (w.1 k)) (λ k. not_false (p.1 k))
  outcome_of false false RunStatus.queued w p = completed (λ k. not_true (w.1 k)) (p.0 refl)
  outcome_of false true RunStatus.running w p =
      failed (λ k. not_true (w.1 k)) (λ k. not_false (p.1 k))
  outcome_of false false RunStatus.running w p = completed (λ k. not_true (w.1 k)) (p.0 refl)
  outcome_of false true RunStatus.completed w p =
      failed (λ k. not_true (w.1 k)) (λ k. not_false (p.1 k))
  outcome_of false false RunStatus.completed w p = completed (λ k. not_true (w.1 k)) (p.0 refl)
  outcome_of false true RunStatus.failed w p =
      failed (λ k. not_true (w.1 k)) (λ k. not_false (p.1 k))
  outcome_of false false RunStatus.failed w p = completed (λ k. not_true (w.1 k)) (p.0 refl)

-- At the end of a capture the run is cancelled if its id was marked, a signal ended a process, or
-- the database says so; otherwise it is completed if every process ended with code 0, and else
-- failed. Its end is noted, and it is in neither table of the processes any more.
pub finish_capture-HasOutcome :
    (now run_id : ℕ) (exits : List (Option Exit)) (db : Db) (rt : Runtime) (run : Run)
    → find_run run_id db ≡ some run
    → let (after, rt') = finish_capture now run_id exits (db, rt) in
      (status : RunStatus) × HasOutcome run_id exits rt run status
      × (find_run run_id after ≡ some (record run { status = status; finished_at = some now }))
      × (procs_of run_id rt' ≡ [])
      × ¬ Any (λ i. i ≡ run_id) rt'.cancelled
unfolding finish_capture
finish_capture-HasOutcome now run_id exits db rt run there =
    let (status, kept, _, _, procs, ids) = finish_capture_lem now run_id exits db rt run there in
    (
      final_status (was_cancelled run_id exits rt) (any (λ e. not (is_success e)) exits) run.status,
      outcome_of run_id exits rt run (was_cancelled run_id exits rt)
          (any (λ e. not (is_success e)) exits) run.status (was_cancelled_iff run_id exits rt run)
          (any_failed_iff exits),
      first-update_self (λ (r : Run). r.id == run_id) _ db.runs {x = run} (λ r. refl) there,
      procs,
      λ k.
          not_true
            (sym ids ∙ (any_iff (λ i. i == run_id) (λ i. i ≡ run_id) (λ i. ==_iff i run_id) _).1 k),
    )
