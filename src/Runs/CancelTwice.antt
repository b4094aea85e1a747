-- ===== src/Runs/CancelTwice.antt =====
-- cancel_run_endpoint followed by the `finally` block of the cancelled run's task.
use distributed_verification.Prelude.{
  ℕ, suc, ◌≡◌, refl, sym, ap, ◌∙◌, inl, inr, Option, some, List, Text, ◌==◌, Option-cases, first,
  select,
}
use distributed_verification.Model.{Run, Resource, Db}
use distributed_verification.Queue.{
  find_run, release_resource, release_current, start_next, dequeue, grant, lock_filter,
  next_waiting,
}
use distributed_verification.Queue.Locks.{held}
use distributed_verification.Queue.Release.{start_next-some, start_next-none, start_next-missing}
use distributed_verification.Access.{ok, verify_run_owner, require, conflict, >>=-eq-ok}
use distributed_verification.Runner.Processes.{Runtime}
use distributed_verification.Runs.{
  find_resource, is_cancellable, hand_on, release_of_run, mark_cancelled, Cancelled,
  cancel_run_endpoint,
}
use distributed_verification.Runs.Cancel.{owned-run, mark_cancelled_lem, release_resource-keeps}
use distributed_verification.Runs.DoubleRelease.{IsContended, release_twice}

resources-start_next :
    (resource : Resource) (db : Db) → (start_next resource db).1.resources ≡ db.resources
unfolding dequeue grant
resources-start_next resource db = elim (Option-cases (next_waiting resource.id db)) [
  | inl e ↦ rw (start_next-none resource db e) refl
  | inr (item, e) ↦ elim (Option-cases (find_run item.run_id db)) [
    | inl gone ↦ rw (start_next-missing resource db item e gone) refl
    | inr (run, there) ↦ rw (start_next-some resource db item run e there) refl
  ]
]

resources-release_current :
    (now : ℕ) (resource : Resource) (who : Option ℕ) (db : Db)
    → (release_current now resource who db).resources ≡ db.resources
unfolding release_current
resources-release_current now resource who db =
    elim (Option-cases (first (select (lock_filter resource.id who) db.locks))) [
      | inl e ↦ rw (e, release_current) refl
      | inr (lock, e) ↦ rw (e, release_current) refl
    ]

resources-release_resource :
    (now : ℕ) (resource : Resource) (who : Option ℕ) (db : Db)
    → (release_resource now resource who db).1.resources ≡ db.resources
unfolding release_resource
resources-release_resource now resource who db =
    resources-start_next resource (release_current now resource who db)
    ∙ resources-release_current now resource who db

hand_on-some :
    (now a n : ℕ) (resource : Resource) (held_id : Option ℕ) (db : Db)
    → held_id ≡ some (suc n)
    → find_resource (suc n) db ≡ some resource
    → hand_on now a held_id db ≡ release_resource now resource (some a) db
unfolding hand_on
hand_on-some now a n resource held_id db e there = rw (e, hand_on) (rw (there, hand_on) refl)

cancel_result :
    (now a : ℕ) (key : Text) (db : Db) (rt : Runtime) (run : Run) (done : Cancelled)
    → cancel_run_endpoint now a key db rt ≡ ok done
    → find_run a db ≡ some run
    → hand_on now a run.resource_id (mark_cancelled now a db) ≡ (done.next_run_id, done.db)
unfolding cancel_run_endpoint
cancel_result now a key db rt run done e there =
    let (run', owned, e₁) = >>=-eq-ok (verify_run_owner a (some key) db) _ e in
    let (_, _, e₂) = >>=-eq-ok (require (is_cancellable run'.status) conflict) _ e₁ in
    let there' = owned-run a (some key) db run' owned in
    let same : run' ≡ run = cc in
    ap (λ (r : Run). hand_on now a r.resource_id (mark_cancelled now a db)) (sym same) ∙ (cc)

release_of_run-some :
    (later a n : ℕ) (resource : Resource) (db : Db) (run : Run)
    → find_run a db ≡ some run
    → run.resource_id ≡ some (suc n)
    → find_resource (suc n) db ≡ some resource
    → release_of_run later a db ≡ release_resource later resource (some a) db
unfolding release_of_run
release_of_run-some later a n resource db run there bound found =
    rw (there, release_of_run) (hand_on-some later a n resource run.resource_id db bound found)

module _ (now later a b c n : ℕ) (rest : List ℕ) (key : Text) (db : Db) (rt : Runtime) (run : Run)
    (resource : Resource) (done : Cancelled) where
  found_marked :
      find_resource (suc n) db ≡ some resource
      → find_resource (suc n) (mark_cancelled now a db) ≡ some resource
  unfolding mark_cancelled
  found_marked found = found

  -- A run is cancelled while it holds the lock of a resource for which two more runs wait. The
  -- cancellation starts the first of them; the end of the cancelled run's own task starts the
  -- second, and then both hold the resource.
  pub cancel_then_finish_doubles :
      cancel_run_endpoint now a key db rt ≡ ok done
      → find_run a db ≡ some run
      → run.resource_id ≡ some (suc n)
      → find_resource (suc n) db ≡ some resource
      → IsContended (mark_cancelled now a db) resource a b c rest
      → (done.next_run_id ≡ some b)
        × ((release_of_run later a done.db).0 ≡ some c)
        × (held resource.id (release_of_run later a done.db).1 ≡ 2)
  cancel_then_finish_doubles e there bound found contended =
      let marked = mark_cancelled now a db in
      let (there', gone) = mark_cancelled_lem now a db run there in
      let released : release_resource now resource (some a) marked ≡ (done.next_run_id, done.db) =
        sym (hand_on-some now a n resource run.resource_id marked bound (found_marked found))
        ∙ cancel_result now a key db rt run done e there in
      let same_db = ap (λ (p : Option ℕ × Db). p.1) released in
      let (first_b, second_c, two) = release_twice now a b c rest resource marked contended later in
      let still =
        ap (find_run a) (sym same_db)
        ∙ release_resource-keeps now a resource (some a) marked gone
        ∙ there' in
      let known =
        ap (λ (rs : List Resource). first (select (λ r. r.id == suc n) rs))
          (ap (λ (d : Db). d.resources) (sym same_db)
            ∙ resources-release_resource now resource (some a) marked)
        ∙ found_marked found in
      let again = release_of_run-some later a n resource done.db _ still bound known in
      (
        sym (ap (λ (p : Option ℕ × Db). p.0) released) ∙ first_b,
        ap (λ (p : Option ℕ × Db). p.0) again
            ∙ ap (λ d. (release_resource later resource (some a) d).0) (sym same_db)
            ∙ second_c,
        ap (λ (p : Option ℕ × Db). held resource.id p.1) again
            ∙ ap (λ d. held resource.id (release_resource later resource (some a) d).1)
                (sym same_db)
            ∙ two,
      )
