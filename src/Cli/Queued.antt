-- ===== src/Cli/Queued.antt =====
-- What becomes of a command whose resource is taken.
use distributed_verification.Prelude.{
  ℕ, ◌≡◌, refl, sym, ap, ◌∙◌, inl, inr, Bool, true, false, not, Option, none, some, List, [], ◌∷◌,
  ◌++◌, arith, Text, codes, text_eq, ◌==◌, ==_refl, Bool-cases, Option-cases, first, select,
}
use distributed_verification.Model.{RunStatus, Resource, Run, ResourceLock, Db}
use distributed_verification.Queue.{
  find_run, is_active, is_stale, find_or_create_resource, add_resource, release_lock, recheck,
  take_over, acquire_lock, enqueue_run,
}
use distributed_verification.Access.{
  Result, ok, bad_request, not_found, require, or_raise, find_client, >>=-eq-ok,
}
use distributed_verification.Runs.{truthy_text, new_run, add_run, admit_to, admit}
use distributed_verification.Runs.Cancel.{find_run-update_self}
use distributed_verification.Cli.{is_empty, validate_cli_command, execute_cli_command}

-- A refusal leaves the runs as they were.
abbrev Keeps : List Run → Bool × Db → Type 0
Keeps runs (accepted, after) = accepted ≡ false → after.runs ≡ runs

recheck-Keeps :
    (run : Run) (resource : Resource) (db : Db) → Keeps db.runs (recheck run resource db)
unfolding recheck
recheck-Keeps run resource db =
    elim (Option-cases (first (select (is_active resource.id) db.locks))) [
      | inl e ↦ rw (e, recheck) (λ h. cc)
      | inr (l, e) ↦ rw (e, recheck) (λ h. refl)
    ]

take_over-Keeps :
    (now : ℕ) (run : Run) (resource : Resource) (existing : ResourceLock) (db : Db)
    → Keeps db.runs (take_over now run resource existing db)
unfolding take_over release_lock
take_over-Keeps now run resource existing db = elim (Option-cases (find_run existing.run_id db)) [
  | inl e ↦ rw (e, take_over) (λ h. refl)
  | inr (holder, e) ↦ elim (Bool-cases (is_stale holder.status)) [
    | inl over ↦
        rw (e, take_over) (rw over (recheck-Keeps run resource (release_lock now existing db)))
    | inr live ↦ rw (e, take_over) (rw live (λ h. refl))
  ]
]

acquire_lock-Keeps :
    (now : ℕ) (run : Run) (resource : Resource) (db : Db)
    → Keeps db.runs (acquire_lock now run resource db)
unfolding acquire_lock
acquire_lock-Keeps now run resource db =
    elim (Option-cases (first (select (is_active resource.id) db.locks))) [
      | inl e ↦ rw (e, acquire_lock) (λ h. cc)
      | inr (l, e) ↦ rw (e, acquire_lock) (take_over-Keeps now run resource l db)
    ]

find_or_create_resource-runs :
    (name : Text) (db : Db) → (find_or_create_resource name db).1.runs ≡ db.runs
unfolding find_or_create_resource add_resource
find_or_create_resource-runs name db =
    elim (Option-cases (first (select (λ (r : Resource). text_eq r.name name) db.resources))) [
      | inl e ↦ rw (e, find_or_create_resource) refl
      | inr (r, e) ↦ rw (e, find_or_create_resource) refl
    ]

first-snoc :
    (p : Run → Bool) (rs : List Run) (r : Run)
    → first (select p rs) ≡ none
    → p r ≡ true
    → first (select p (rs ++ r ∷ [])) ≡ some r
first-snoc p [] r h k = ground arith
first-snoc p (x ∷ rs) r h k = ground (arith, first-snoc p rs r)

enqueue_run_lem :
    (run : Run) (resource : Resource) (db : Db)
    → find_run run.id db ≡ some run
    → find_run run.id (enqueue_run run resource db).1
      ≡ some (record run { status = RunStatus.queued })
unfolding enqueue_run
enqueue_run_lem run resource db there =
    find_run-update_self run.id (λ r. record r { status = RunStatus.queued }) db.runs {run = run}
      (λ r. refl) there

-- The run is queued, if no task starts.
abbrev Waits : Run → List ℕ × Db → Type 0
Waits run (tasks, after) =
    tasks ≡ [] → find_run run.id after ≡ some (record run { status = RunStatus.queued })

admit_to-Waits :
    (now : ℕ) (run : Run) (resource : Resource) (db : Db)
    → find_run run.id db ≡ some run
    → Waits run (admit_to now run resource db)
unfolding admit_to
admit_to-Waits now run resource db there = elim (Bool-cases (acquire_lock now run resource db).0) [
  | inl e ↦ rw e (λ h. cc)
  | inr e ↦ rw e (λ h. enqueue_run_lem run resource (acquire_lock now run resource db).1 (
      ap (λ rs. first (select (λ r. r.id == run.id) rs)) (acquire_lock-Keeps now run resource db e)
      ∙ there))
]

admit-Waits :
    (now : ℕ) (run : Run) (resource_name : Option Text) (db : Db)
    → find_run run.id db ≡ some run
    → Waits run (admit now run resource_name db)
unfolding admit
admit-Waits now run resource_name db there = elim (Option-cases (truthy_text resource_name)) [
  | inl e ↦ rw (e, admit) (λ h. cc)
  | inr (name, e) ↦
      let (resource, found) = find_or_create_resource name db in
      rw (e, admit)
        (admit_to-Waits now run resource found (
          ap (λ rs. first (select (λ r. r.id == run.id) rs)) (find_or_create_resource-runs name db)
          ∙ there))
]

-- The same, of a handler's result.
queued_run :
    (run : Run) (result : List ℕ × Db) (run_id : ℕ) (after : Db)
    → Waits run result
    → run.selected_tests ≡ []
    → ◌≡◌ {A = Result (ℕ × List ℕ × Db)} (ok (run.id, result.0, result.1)) (ok (run_id, [], after))
    → (r : Run) × (find_run run_id after ≡ some r)
      × (r.status ≡ RunStatus.queued)
      × (r.selected_tests ≡ [])
queued_run run result run_id after waits no_tests e =
    let same_id : run.id ≡ run_id = cc in
    let idle : result.0 ≡ [] = cc in
    let same_db : result.1 ≡ after = cc in
    (
      record run { status = RunStatus.queued },
      rw (sym same_id, sym same_db) (waits idle),
      refl,
      no_tests,
    )

module _ (strip : Text → Text) (split : Text → Option (List Text)) (is_word : ℕ → Bool) where
  -- A command that is accepted but not scheduled has a run in the queue without any tests. No
  -- run has the next id before.
  pub execute_cli_command_queues :
      (now : ℕ) (today : Text) (key : Option Text) (text : Text) (resource_name : Option Text)
      (db : Db) (run_id : ℕ) (after : Db)
      → find_run db.next_id db ≡ none
      → execute_cli_command strip split is_word now today key text resource_name db
        ≡ ok (run_id, [], after)
      → (run : Run) × (find_run run_id after ≡ some run)
        × (run.status ≡ RunStatus.queued)
        × (run.selected_tests ≡ [])
  unfolding execute_cli_command new_run
  execute_cli_command_queues now today key text resource_name db run_id after fresh e =
      let (given, _, e₁) = >>=-eq-ok (or_raise (truthy_text key) bad_request) _ e in
      let (_, _, e₂) = >>=-eq-ok (require (not (is_empty (strip text))) bad_request) _ e₁ in
      let (_, _, e₃) =
        >>=-eq-ok (require (validate_cli_command strip split is_word (strip text)) bad_request) _
          e₂ in
      let (client, _, e₄) = >>=-eq-ok (or_raise (find_client given db) not_found) _ e₃ in
      let run = new_run now today client [] none none (some (codes "CLI: " ++ strip text)) db in
      let there = first-snoc (λ r. r.id == db.next_id) db.runs run fresh (==_refl db.next_id) in
      let queued = admit-Waits now run resource_name (add_run run db) there in
      queued_run run (admit now run resource_name (add_run run db)) run_id after queued refl e₄
