-- ===== src/Queue/Locks.antt =====
-- Exclusion by ResourceQueueManager: who holds the lock of a resource after each operation.
use distributed_verification.Prelude.{
  ℕ, suc, ◌+◌, ◌≤◌, ◌≡◌, refl, ap, ◌⊎◌, inl, inr, Bool, true, false, Option, none, some, arith,
  ◌==◌, ==_refl, if◌then◌else◌, Bool-cases, Option-cases, first, select, count, count-append,
  count-update-le, count-update-lt, count-eq-zero_of_first, first-eq-none_of_count,
  first-select_snoc, [], ◌∷◌,
}
use distributed_verification.Model.{Resource, Run, ResourceLock, Db}
use distributed_verification.Queue.{
  find_run, new_lock, is_active, is_stale, release_lock, grant, recheck, take_over, acquire_lock,
}

-- The number of unreleased locks of a resource.
abbrev pub held : ℕ → Db → ℕ
held resource_id db = count (is_active resource_id) db.locks

abbrev pub IsExclusive : Db → Type 0
IsExclusive db = (resource_id : ℕ) → held resource_id db ≤ 1

abbrev pub run_of : Option ResourceLock → Option ℕ
run_of none = none
run_of (some lock) = some lock.run_id

-- The run that holds the resource.
abbrev pub owner : ℕ → Db → Option ℕ
owner resource_id db = run_of (first (select (is_active resource_id) db.locks))

pub held-grant :
    (r : ℕ) (run : Run) (resource : Resource) (db : Db)
    → held r (grant run resource db) ≡ held r db + (if resource.id == r then 1 else 0)
unfolding grant
held-grant r run resource db =
    ground (arith, count-append (is_active r) db.locks (new_lock run resource db ∷ []))

owner-grant :
    (run : Run) (resource : Resource) (db : Db)
    → held resource.id db ≡ 0
    → owner resource.id (grant run resource db) ≡ some run.id
unfolding grant
owner-grant run resource db h =
    ap run_of (
      first-select_snoc (is_active resource.id) db.locks (new_lock run resource db) h
        (ground arith))

module _ (r now : ℕ) (lock : ResourceLock) where
  abbrev released : ResourceLock → ResourceLock
  released l = record l { released_at = some now }

  released-inactive : (l : ResourceLock) → is_active r (released l) ≡ false
  released-inactive l = ground arith

  pub held-release_lock-le : (db : Db) → held r (release_lock now lock db) ≤ held r db
  unfolding release_lock
  held-release_lock-le db =
      count-update-le (is_active r) (λ l. l.id == lock.id) released db.locks
        (λ l h. cc (released-inactive l))

  -- Releasing the first lock that a narrower filter finds takes one away.
  pub held-release_lock-lt :
      (p : ResourceLock → Bool) (db : Db)
      → ((l : ResourceLock) → p l ≡ true → is_active r l ≡ true)
      → first (select p db.locks) ≡ some lock
      → suc (held r (release_lock now lock db)) ≤ held r db
  unfolding release_lock
  held-release_lock-lt p db sub h =
      count-update-lt p (is_active r) (λ l. l.id == lock.id) released db.locks lock sub
        released-inactive (==_refl lock.id) h

grant-IsExclusive :
    (run : Run) (resource : Resource) (db : Db)
    → held resource.id db ≡ 0
    → IsExclusive db
    → IsExclusive (grant run resource db)
grant-IsExclusive run resource db free h r = ground (arith, held-grant r run resource db, h r)

-- The resource is locked by a run that is still alive, or by a run that is no longer there.
pub record IsBlocked (resource_id : ℕ) (db : Db) : Type 0 where
  pub existing : ResourceLock
  pub found : first (select (is_active resource_id) db.locks) ≡ some existing
  pub alive :
      (find_run existing.run_id db ≡ none)
      ⊎ ((holder : Run) × (find_run existing.run_id db ≡ some holder)
          × (is_stale holder.status ≡ false))

-- The resource has no lock, or that of a run which has ended or not begun.
pub data IsAvailable (resource_id : ℕ) (db : Db) : Type 0 where
  free : held resource_id db ≡ 0 → IsAvailable resource_id db
  stale :
      (existing : ResourceLock) (holder : Run)
      → first (select (is_active resource_id) db.locks) ≡ some existing
      → find_run existing.run_id db ≡ some holder
      → is_stale holder.status ≡ true
      → IsAvailable resource_id db

pub IsAvailable-or_IsBlocked : (r : ℕ) (db : Db) → IsAvailable r db ⊎ IsBlocked r db
IsAvailable-or_IsBlocked r db = elim (Option-cases (first (select (is_active r) db.locks))) [
  | inl e ↦ inl (free (count-eq-zero_of_first (is_active r) db.locks e))
  | inr (l, e) ↦ elim (Option-cases (find_run l.run_id db)) [
    | inl gone ↦ inr (record { existing = l; found = e; alive = inl gone })
    | inr (holder, there) ↦ elim (Bool-cases (is_stale holder.status)) [
      | inl over ↦ inl (stale l holder e there over)
      | inr live ↦ inr (record { existing = l; found = e; alive = inr (holder, there, live) })
    ]
  ]
]

-- A request for a blocked resource is refused and changes nothing.
pub acquire_lock-blocked :
    (now : ℕ) (run : Run) (resource : Resource) (db : Db)
    → IsBlocked resource.id db
    → acquire_lock now run resource db ≡ (false, db)
unfolding acquire_lock
acquire_lock-blocked now run resource db b = elim b.alive [
  | inl gone ↦ rw (b.found, acquire_lock) (rw (gone, take_over))
  | inr (holder, there, live) ↦ rw (b.found, acquire_lock) (rw (there, take_over) (rw live))
]

acquire_lock-free :
    (now : ℕ) (run : Run) (resource : Resource) (db : Db)
    → held resource.id db ≡ 0
    → acquire_lock now run resource db ≡ (true, grant run resource db)
unfolding acquire_lock
acquire_lock-free now run resource db e =
    rw (first-eq-none_of_count (is_active resource.id) db.locks e, acquire_lock)

held-stale :
    (r now : ℕ) (lock : ResourceLock) (db : Db)
    → held r db ≤ 1
    → first (select (is_active r) db.locks) ≡ some lock
    → held r (release_lock now lock db) ≡ 0
held-stale r now lock db h e =
    omega (arith, held-release_lock-lt r now lock (is_active r) db (λ l k. k) e)

acquire_lock-stale :
    (now : ℕ) (run : Run) (resource : Resource) (db : Db) (lock : ResourceLock) (holder : Run)
    → held resource.id db ≤ 1
    → first (select (is_active resource.id) db.locks) ≡ some lock
    → find_run lock.run_id db ≡ some holder
    → is_stale holder.status ≡ true
    → acquire_lock now run resource db ≡ (true, grant run resource (release_lock now lock db))
unfolding acquire_lock
acquire_lock-stale now run resource db lock holder h e there over =
    let cleared = release_lock now lock db in
    let none_left =
      first-eq-none_of_count (is_active resource.id) cleared.locks
        (held-stale resource.id now lock db h e) in
    rw (e, acquire_lock) (rw (there, take_over) (rw over (rw (none_left, recheck))))

-- What a granted request leaves behind.
pub record IsGranted (run : Run) (resource : Resource) (result : Bool × Db) : Type 0 where
  pub accepted : result.0 ≡ true
  pub single : held resource.id result.1 ≡ 1
  pub owned : owner resource.id result.1 ≡ some run.id

grant-IsGranted :
    (run : Run) (resource : Resource) (db : Db)
    → held resource.id db ≡ 0
    → IsGranted run resource (true, grant run resource db)
grant-IsGranted run resource db h = record {
  accepted = refl;
  single = ground (arith, held-grant resource.id run resource db);
  owned = owner-grant run resource db h;
}

-- A request for an available resource succeeds: the run is then the only holder.
pub acquire_lock-available :
    (now : ℕ) (run : Run) (resource : Resource) (db : Db)
    → held resource.id db ≤ 1
    → IsAvailable resource.id db
    → IsGranted run resource (acquire_lock now run resource db)
acquire_lock-available now run resource db h (free e) =
    rw (acquire_lock-free now run resource db e) (grant-IsGranted run resource db e)
acquire_lock-available now run resource db h (stale l holder found there over) =
    rw (acquire_lock-stale now run resource db l holder h found there over) (
      grant-IsGranted run resource (release_lock now l db)
        (held-stale resource.id now l db h found))

-- No request, granted or refused, gives a resource a second holder.
pub acquire_lock-IsExclusive :
    (now : ℕ) (run : Run) (resource : Resource) (db : Db)
    → IsExclusive db
    → IsExclusive (acquire_lock now run resource db).1
acquire_lock-IsExclusive now run resource db h = elim (IsAvailable-or_IsBlocked resource.id db) [
  | inl (free e) ↦
      rw (acquire_lock-free now run resource db e) (grant-IsExclusive run resource db e h)
  | inl (stale l holder found there over) ↦
      rw (acquire_lock-stale now run resource db l holder (h resource.id) found there over) (
        grant-IsExclusive run resource (release_lock now l db)
          (held-stale resource.id now l db (h resource.id) found)
          (λ r. omega (arith, held-release_lock-le r now l db, h r)))
  | inr b ↦ rw (acquire_lock-blocked now run resource db b) h
]
