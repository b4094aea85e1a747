-- ===== src/Queue/Release.antt =====
-- Exclusion by `release_resource`: it keeps it when the caller is the holder, and loses it when the
-- lock has passed on.
use distributed_verification.Prelude.{
  ℕ, suc, ◌≤◌, ◌≡◌, refl, inl, inr, true, Option, none, some, arith, Bool-cases, List, [], ◌∷◌,
  Option-cases, first, select, count, count-eq-zero_of_first, first-eq-none_of_count,
}
use distributed_verification.Model.{Resource, Run, ResourceLock, QueueEntry, Db}
use distributed_verification.Queue.{
  find_run, is_active, grant, lock_filter, release_current, next_waiting, dequeue, start_item,
  start_next, release_resource,
}
use distributed_verification.Queue.Locks.{
  held, IsExclusive, held-grant, held-release_lock-le, held-release_lock-lt,
}

-- A dequeued entry leaves the locks and the runs alone.
pub held-dequeue : (r : ℕ) (item : QueueEntry) (db : Db) → held r (dequeue item db) ≡ held r db
unfolding dequeue
held-dequeue r item db = refl

pub start_next-none :
    (resource : Resource) (db : Db)
    → next_waiting resource.id db ≡ none
    → start_next resource db ≡ (none, db)
unfolding start_next
start_next-none resource db e = rw (e, start_next)

pub start_next-some :
    (resource : Resource) (db : Db) (item : QueueEntry) (run : Run)
    → next_waiting resource.id db ≡ some item
    → find_run item.run_id db ≡ some run
    → start_next resource db ≡ (some run.id, grant run resource (dequeue item db))
unfolding start_next
start_next-some resource db item run e there = rw (e, start_next) (rw (there, start_item))

pub start_next-missing :
    (resource : Resource) (db : Db) (item : QueueEntry)
    → next_waiting resource.id db ≡ some item
    → find_run item.run_id db ≡ none
    → start_next resource db ≡ (none, dequeue item db)
unfolding start_next
start_next-missing resource db item e gone = rw (e, start_next) (rw (gone, start_item))

start_next-IsExclusive :
    (resource : Resource) (db : Db)
    → held resource.id db ≡ 0
    → IsExclusive db
    → IsExclusive (start_next resource db).1
start_next-IsExclusive resource db free h r = elim (Option-cases (next_waiting resource.id db)) [
  | inl e ↦ rw (start_next-none resource db e) (h r)
  | inr (item, e) ↦ elim (Option-cases (find_run item.run_id db)) [
    | inl gone ↦ rw (start_next-missing resource db item e gone) (rw (held-dequeue r item db) (h r))
    | inr (run, there) ↦ rw (start_next-some resource db item run e there) (
        ground (
          arith,
          held-grant r run resource (dequeue item db),
          held-dequeue r item db,
          held-dequeue resource.id item db,
          h r,
        ))
  ]
]

-- Whose lock a call may release: anybody's without a run id, and with one only that run's.
pub data MayRelease (resource_id : ℕ) (db : Db) : Option ℕ → Type 0 where
  anyone : MayRelease resource_id db none
  unlocked : {run_id : Option ℕ} → held resource_id db ≡ 0 → MayRelease resource_id db run_id
  holder :
      {run_id : ℕ} (lock : ResourceLock)
      → first (select (is_active resource_id) db.locks) ≡ some lock
      → lock.run_id ≡ run_id
      → MayRelease resource_id db (some run_id)

pub lock_filter-is_active :
    (r : ℕ) (run_id : Option ℕ) (l : ResourceLock)
    → lock_filter r run_id l ≡ true
    → is_active r l ≡ true
lock_filter-is_active r none l h = h
lock_filter-is_active r (some a) l h = ground arith

first-lock_filter :
    (r a : ℕ) (ls : List ResourceLock) (lock : ResourceLock)
    → first (select (is_active r) ls) ≡ some lock
    → lock.run_id ≡ a
    → first (select (lock_filter r (some a)) ls) ≡ some lock
first-lock_filter r a [] lock e k = cc
first-lock_filter r a (l ∷ ls) lock e k = elim (Bool-cases (is_active r l)) [
  | inl yes_ ↦ ground (arith, first-lock_filter r a ls lock)
  | inr no_ ↦ ground (arith, first-lock_filter r a ls lock)
]

release_current-some :
    (now : ℕ) (resource : Resource) (run_id : Option ℕ) (db : Db) (lock : ResourceLock)
    → held resource.id db ≤ 1
    → first (select (lock_filter resource.id run_id) db.locks) ≡ some lock
    → held resource.id (release_current now resource run_id db) ≡ 0
unfolding release_current
release_current-some now resource run_id db lock h e =
    rw (e, release_current)
      (omega (
        arith,
        held-release_lock-lt resource.id now lock (lock_filter resource.id run_id) db
            (lock_filter-is_active resource.id run_id) e,
      ))

pub held-release_current-le :
    (r now : ℕ) (resource : Resource) (run_id : Option ℕ) (db : Db)
    → held r (release_current now resource run_id db) ≤ held r db
unfolding release_current
held-release_current-le r now resource run_id db =
    elim (Option-cases (first (select (lock_filter resource.id run_id) db.locks))) [
      | inl e ↦ rw (e, release_current) (omega arith)
      | inr (lock, e) ↦ rw (e, release_current) (held-release_lock-le r now lock db)
    ]

pub release_current-free :
    (now : ℕ) (resource : Resource) {run_id : Option ℕ} (db : Db)
    → held resource.id db ≤ 1
    → MayRelease resource.id db run_id
    → held resource.id (release_current now resource run_id db) ≡ 0
unfolding release_current
release_current-free now resource db h anyone =
    elim (Option-cases (first (select (is_active resource.id) db.locks))) [
      | inl e ↦ rw (e, release_current) (count-eq-zero_of_first (is_active resource.id) db.locks e)
      | inr (lock, e) ↦ release_current-some now resource none db lock h e
    ]
release_current-free now resource {run_id} db h (unlocked e) =
    omega (arith, held-release_current-le resource.id now resource run_id db)
release_current-free now resource db h (holder {run_id = a} lock e k) =
    release_current-some now resource (some a) db lock h
      (first-lock_filter resource.id a db.locks lock e k)

-- A release by the holder, of a free resource, or without a run id gives no resource a second
-- holder.
pub release_resource-IsExclusive :
    (now : ℕ) (resource : Resource) {run_id : Option ℕ} (db : Db)
    → IsExclusive db
    → MayRelease resource.id db run_id
    → IsExclusive (release_resource now resource run_id db).1
unfolding release_resource
release_resource-IsExclusive now resource {run_id} db h may =
    start_next-IsExclusive resource (release_current now resource run_id db)
      (release_current-free now resource db (h resource.id) may)
      (λ r. omega (arith, held-release_current-le r now resource run_id db, h r))

-- A release by a run that holds no lock, while a run waits, starts that run beside the holder: the
-- resource has one lock more than before.
pub release_resource_doubles :
    (now a : ℕ) (resource : Resource) (db : Db) (item : QueueEntry) (run : Run)
    → count (lock_filter resource.id (some a)) db.locks ≡ 0
    → next_waiting resource.id db ≡ some item
    → find_run item.run_id db ≡ some run
    → ((release_resource now resource (some a) db).0 ≡ some run.id)
      × (held resource.id (release_resource now resource (some a) db).1 ≡ suc (held resource.id db))
unfolding release_resource release_current
release_resource_doubles now a resource db item run h e there =
    rw (first-eq-none_of_count (lock_filter resource.id (some a)) db.locks h, release_current)
      (rw (start_next-some resource db item run e there) (
        refl,
        ground (
          arith,
          held-grant resource.id run resource (dequeue item db),
          held-dequeue resource.id item db,
        ),
      ))
