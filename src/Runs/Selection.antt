-- ===== src/Runs/Selection.antt =====
-- What becomes of a selection whose files are all gone.
use distributed_verification.Prelude.{
  ℕ, ◌≡◌, refl, sym, ◌∙◌, inl, inr, Bool, true, not, Option, none, some, List, [], ◌∷◌, arith, Text,
  codes, text_eq, ◌==◌, ==_refl, Bool-cases, Option-cases, all, first, select, first-select_snoc,
  count-eq-zero_of_first,
}
use distributed_verification.Model.{RunStatus, Resource, Run, ResourceLock, Db}
use distributed_verification.Queue.{
  find_run, is_active, is_stale, find_or_create_resource, add_resource, release_lock, grant,
  recheck, take_over, acquire_lock, enqueue_run,
}
use distributed_verification.Access.{Result, ok, not_found, or_raise, find_client, >>=-eq-ok}
use distributed_verification.Runner.Launches.{launches}
use distributed_verification.Runs.{
  RunCreate, file_part, truthy_text, new_run, add_run, add_links, admit_to, admit, create_run,
}
use distributed_verification.Runs.Cancel.{find_run-update_self}

-- The run is in the table, with the tests that it had.
abbrev pub HasTests : Run → Db → Type 0
HasTests run db =
    (r : Run) × (find_run run.id db ≡ some r) × (r.selected_tests ≡ run.selected_tests)

module _ (run : Run) (resource : Resource) where
  grant-HasTests : (db : Db) → HasTests run db → HasTests run (grant run resource db)
  unfolding grant
  grant-HasTests db (r, there, same) = (
    record r { resource_id = some resource.id; status = RunStatus.running },
    find_run-update_self run.id
        (λ r. record r { resource_id = some resource.id; status = RunStatus.running }) db.runs
        {run = r} (λ r. refl) there,
    same,
  )

  recheck-HasTests : (db : Db) → HasTests run db → HasTests run (recheck run resource db).1
  unfolding recheck
  recheck-HasTests db h = elim (Option-cases (first (select (is_active resource.id) db.locks))) [
    | inl e ↦ rw (e, recheck) (grant-HasTests db h)
    | inr (l, e) ↦ rw (e, recheck) h
  ]

  take_over-HasTests :
      (now : ℕ) (existing : ResourceLock) (db : Db)
      → HasTests run db
      → HasTests run (take_over now run resource existing db).1
  unfolding take_over release_lock
  take_over-HasTests now existing db h = elim (Option-cases (find_run existing.run_id db)) [
    | inl e ↦ rw (e, take_over) h
    | inr (holder, e) ↦ elim (Bool-cases (is_stale holder.status)) [
      | inl over ↦ rw (e, take_over) (rw over (recheck-HasTests (release_lock now existing db) h))
      | inr live ↦ rw (e, take_over) (rw live h)
    ]
  ]

  acquire_lock-HasTests :
      (now : ℕ) (db : Db) → HasTests run db → HasTests run (acquire_lock now run resource db).1
  unfolding acquire_lock
  acquire_lock-HasTests now db h =
      elim (Option-cases (first (select (is_active resource.id) db.locks))) [
        | inl e ↦ rw (e, acquire_lock) (grant-HasTests db h)
        | inr (l, e) ↦ rw (e, acquire_lock) (take_over-HasTests now l db h)
      ]

  enqueue_run-HasTests : (db : Db) → HasTests run db → HasTests run (enqueue_run run resource db).1
  unfolding enqueue_run
  enqueue_run-HasTests db (r, there, same) = (
    record r { status = RunStatus.queued },
    find_run-update_self run.id (λ r. record r { status = RunStatus.queued }) db.runs {run = r}
        (λ r. refl) there,
    same,
  )

  admit_to-HasTests :
      (now : ℕ) (db : Db) → HasTests run db → HasTests run (admit_to now run resource db).1
  unfolding admit_to
  admit_to-HasTests now db h = elim (Bool-cases (acquire_lock now run resource db).0) [
    | inl e ↦ rw e (acquire_lock-HasTests now db h)
    | inr e ↦
        rw e (
          enqueue_run-HasTests (acquire_lock now run resource db).1
            (acquire_lock-HasTests now db h))
  ]

find_or_create_resource-HasTests :
    (run : Run) (name : Text) (db : Db)
    → HasTests run db
    → HasTests run (find_or_create_resource name db).1
unfolding find_or_create_resource add_resource
find_or_create_resource-HasTests run name db h =
    elim (Option-cases (first (select (λ (r : Resource). text_eq r.name name) db.resources))) [
      | inl e ↦ rw (e, find_or_create_resource) h
      | inr (r, e) ↦ rw (e, find_or_create_resource) h
    ]

admit-HasTests :
    (now : ℕ) (run : Run) (name : Option Text) (db : Db)
    → HasTests run db
    → HasTests run (admit now run name db).1
unfolding admit
admit-HasTests now run resource_name db h = elim (Option-cases (truthy_text resource_name)) [
  | inl e ↦
      let (r, there, same) = h in
      rw (e, admit)
        (
          record r { status = RunStatus.running },
          find_run-update_self run.id (λ r. record r { status = RunStatus.running }) db.runs
              {run = r} (λ r. refl) there,
          same,
        )
  | inr (name, e) ↦
      let (resource, found) = find_or_create_resource name db in
      rw (e, admit)
        (admit_to-HasTests run resource now found (find_or_create_resource-HasTests run name db h))
]

nothing_left :
    (exists : Text → Bool) (nids : List Text)
    → all (λ nid. not (exists (file_part nid))) nids ≡ true
    → select (λ nid. exists (file_part nid)) nids ≡ []
nothing_left exists [] h = refl
nothing_left exists (n ∷ nids) h = ground (arith, nothing_left exists nids)

-- The same, of a handler's result.
created :
    (exists : Text → Bool) (test_root : Text) (run : Run) (result : List ℕ × Db) (run_id : ℕ)
    (tasks : List ℕ) (after : Db)
    → HasTests run result.1
    → run.selected_tests ≡ []
    → ◌≡◌ {A = Result (ℕ × List ℕ × Db)}
        (ok (run.id, result.0, result.1))
        (ok (run_id, tasks, after))
    → (r : Run) × (find_run run_id after ≡ some r)
      × (launches exists test_root r.selected_tests
          ≡ record { tag = codes "all"; targets = test_root ∷ []; key = codes "all" } ∷ [])
unfolding launches
created exists test_root run result run_id tasks after (r, found, same) none_left e =
    let same_id : run.id ≡ run_id = cc in
    let same_db : result.1 ≡ after = cc in
    let empty : r.selected_tests ≡ [] = same ∙ none_left in
    (r, rw (sym same_id, sym same_db) found, rw empty refl)

-- A client that selects only tests whose files are gone gets a run without selected tests, and a run
-- without selected tests starts one process for all the tests there are. No run has the next id
-- before.
pub create_run_of_missing :
    (now : ℕ) (today : Text) (exists : Text → Bool) (test_root : Text) (payload : RunCreate)
    (db after : Db) (run_id : ℕ) (tasks : List ℕ)
    → find_run db.next_id db ≡ none
    → all (λ nid. not (exists (file_part nid))) payload.selected_tests ≡ true
    → create_run now today exists payload db ≡ ok (run_id, tasks, after)
    → (run : Run) × (find_run run_id after ≡ some run)
      × (launches exists test_root run.selected_tests
          ≡ record { tag = codes "all"; targets = test_root ∷ []; key = codes "all" } ∷ [])
unfolding create_run new_run launches
create_run_of_missing now today exists test_root payload db after run_id tasks fresh gone e =
    let (client, _, e₁) = >>=-eq-ok (or_raise (find_client payload.client_key db) not_found) _ e in
    let tests = select (λ nid. exists (file_part nid)) payload.selected_tests in
    let run =
      new_run now today client tests payload.setup_config_id payload.teardown_config_id none db in
    let stored = add_links run.id payload.suite_ids (add_run run db) in
    let there : find_run run.id stored ≡ some run =
      first-select_snoc (λ r. r.id == db.next_id) db.runs run
        (count-eq-zero_of_first (λ r. r.id == db.next_id) db.runs fresh) (==_refl db.next_id) in
    created exists test_root run (admit now run payload.resource_name stored) run_id tasks after
      (admit-HasTests now run payload.resource_name stored (run, there, refl))
      (nothing_left exists payload.selected_tests gone) e₁
