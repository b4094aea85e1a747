-- ===== src/Runs/DoubleRelease.antt =====
-- The resource of a cancelled run is released twice: by cancel_run_endpoint, and again by the
-- `finally` block of the run's own task. The second release starts one run too many.
use mathlib.Core.Path.{subst}
use distributed_verification.Prelude.{
  ℕ, ◌≡◌, refl, sym, ap, ◌∙◌, ◌≢◌, inl, inr, some, List, [], ◌∷◌, map, arith, ◌==◌, Bool-cases,
  first, select, count, count-append, count_mono,
}
use distributed_verification.Model.{RunStatus, Run, Resource, QueueEntry, ResourceLock, Db}
use distributed_verification.Queue.{
  find_run, is_active, next_waiting, release_resource, release_current, dequeue, grant, new_lock,
  lock_filter,
}
use distributed_verification.Queue.Locks.{held, held-grant}
use distributed_verification.Queue.Release.{
  start_next-some, release_current-free, release_resource_doubles, holder, held-dequeue,
  lock_filter-is_active,
}
use distributed_verification.Queue.Fifo.{
  IsKeyed, waiting_runs, waiting_entries, entries-release_current, id-find_run,
  release_resource-serves,
}
use distributed_verification.Runs.Cancel.{find_run-update_self, find_run-update_ne}

-- The front of the queue, as an entry.
front :
    (r : ℕ) (db : Db) (es : List QueueEntry) (b : ℕ) (rest : List ℕ)
    → waiting_entries r db ≡ es
    → map (λ e. e.run_id) es ≡ b ∷ rest
    → (item : QueueEntry) × (next_waiting r db ≡ some item) × (item.run_id ≡ b)
front r db [] b rest e k = cc
front r db (item ∷ items) b rest e k = (item, ap first e, cc)

-- Run `a` holds the resource, and `b` and `c` wait for it before all others.
pub record IsContended (db : Db) (resource : Resource) (a b c : ℕ) (rest : List ℕ) : Type 0 where
  pub lock : ResourceLock
  pub found : first (select (is_active resource.id) db.locks) ≡ some lock
  pub held_by : lock.run_id ≡ a
  pub single : held resource.id db ≡ 1
  pub keyed : IsKeyed db
  pub waits : waiting_runs resource.id db ≡ b ∷ c ∷ rest
  pub run_b : Run
  pub there_b : find_run b db ≡ some run_b
  pub run_c : Run
  pub there_c : find_run c db ≡ some run_c
  pub other : b ≢ a

still_there :
    (c : ℕ) (run : Run) (resource : Resource) (db : Db) (run_c : Run)
    → find_run c db ≡ some run_c
    → (run' : Run) × (find_run c (grant run resource db) ≡ some run')
unfolding grant
still_there c run resource db run_c there = elim (Bool-cases (c == run.id)) [
  | inl same ↦
      let e : run.id ≡ c = ground arith in
      (
        record run_c { resource_id = some resource.id; status = RunStatus.running },
        rw e (find_run-update_self c _ db.runs {run = run_c} (λ r. refl) there),
      )
  | inr differ ↦
      (run_c, find_run-update_ne c run.id _ db.runs (λ r. refl) (λ e. ground arith) ∙ there)
]

-- What the first release has done to the database.
record IsHandedOn (a c : ℕ) (resource : Resource) (db : Db) : Type 0 where
  gone : count (lock_filter resource.id (some a)) db.locks ≡ 0
  locked : held resource.id db ≡ 1
  run_c' : Run
  there : find_run c db ≡ some run_c'

module _ (now a b c : ℕ) (rest : List ℕ) (resource : Resource) (db : Db)
    (h : IsContended db resource a b c rest) where
  abbrev once : Db
  once = (release_resource now resource (some a) db).1

  freed_held : held resource.id (release_current now resource (some a) db) ≡ 0
  freed_held =
      release_current-free now resource db (omega (arith, h.single))
        (holder h.lock h.found h.held_by)

  first_step :
      ((release_resource now resource (some a) db).0 ≡ some b)
      × (waiting_runs resource.id once ≡ c ∷ rest)
  first_step =
      release_resource-serves now resource (some a) db b (c ∷ rest) h.run_b h.keyed h.waits
        h.there_b

  grant_gone :
      (item : QueueEntry)
      → count
          (lock_filter resource.id (some a))
          (grant h.run_b resource (dequeue item (release_current now resource (some a) db))).locks
        ≡ 0
  unfolding grant dequeue
  grant_gone item =
      let freed = release_current now resource (some a) db in
      let mine = lock_filter resource.id (some a) in
      ground (
        arith,
        count-append mine freed.locks (new_lock h.run_b resource freed ∷ []),
        count_mono mine (is_active resource.id) freed.locks
            (lock_filter-is_active resource.id (some a)),
        freed_held,
        id-find_run b db h.run_b h.there_b,
        h.other,
      )

  found_c :
      (item : QueueEntry) (freed : Db)
      → find_run c freed ≡ some h.run_c
      → find_run c (dequeue item freed) ≡ some h.run_c
  unfolding dequeue
  found_c item freed e = e

  first_result :
      (item : QueueEntry) × (release_resource now resource (some a) db ≡ (
        some h.run_b.id,
        grant h.run_b resource (dequeue item (release_current now resource (some a) db)),
      ))
  unfolding release_resource
  first_result =
      let freed = release_current now resource (some a) db in
      let (entries, runs, _) = entries-release_current now resource (some a) db in
      let (item, next, named) =
        front resource.id freed (waiting_entries resource.id freed) b (c ∷ rest) refl
          (rw entries h.waits) in
      (item, start_next-some resource freed item h.run_b next (rw (named, runs) h.there_b))

  handed_on : IsHandedOn a c resource once
  handed_on =
      let freed = release_current now resource (some a) db in
      let (_, runs, _) = entries-release_current now resource (some a) db in
      let (item, result) = first_result in
      let (run', there) =
        still_there c h.run_b resource (dequeue item freed) h.run_c
          (found_c item freed (rw runs h.there_c)) in
      subst (λ p. IsHandedOn a c resource p.1) (sym result)
        (record {
          gone = grant_gone item;
          locked = ground (
            arith,
            held-grant resource.id h.run_b resource (dequeue item freed),
            held-dequeue resource.id item freed,
            freed_held,
          );
          run_c' = run';
          there = there;
        })

  -- After the second release both waiting runs have been started, and both hold the resource.
  pub release_twice :
      (later : ℕ)
      → ((release_resource now resource (some a) db).0 ≡ some b)
        × ((release_resource later resource (some a) once).0 ≡ some c)
        × (held resource.id (release_resource later resource (some a) once).1 ≡ 2)
  release_twice later =
      let (item, next, named) =
        front resource.id once (waiting_entries resource.id once) c rest refl first_step.1 in
      let (second, doubled) =
        release_resource_doubles later a resource once item handed_on.run_c' handed_on.gone next
          (rw named handed_on.there) in
      (
        first_step.0,
        second ∙ ap some (id-find_run c once handed_on.run_c' handed_on.there),
        omega (arith, handed_on.locked),
      )
