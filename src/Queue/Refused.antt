-- ===== src/Queue/Refused.antt =====
-- The requests for a lock that are refused.
use distributed_verification.Prelude.{
  ℕ, ◌≡◌, ◌≤◌, refl, ap, ◌∙◌, ◌⊎◌, inl, inr, arith, Bool, true, false, Option, none, some, List, [],
  ◌∷◌, ◌++◌, ==_refl, first, select, count, Bool-cases, test-first,
}
use distributed_verification.Model.{RunStatus, Resource, Run, ResourceLock, Db}
use distributed_verification.Queue.{find_run, is_null, is_active, is_stale, acquire_lock}
use distributed_verification.Queue.Locks.{
  held, IsBlocked, IsAvailable, free, stale, IsAvailable-or_IsBlocked, acquire_lock-blocked,
  acquire_lock-available,
}

-- The run is running or queued, or it is not in the table.
abbrev pub IsHolding : ℕ → Db → Type 0
IsHolding run_id db =
    (find_run run_id db ≡ none)
    ⊎ ((holder : Run) × (find_run run_id db ≡ some holder)
        × ((holder.status ≡ RunStatus.running) ⊎ (holder.status ≡ RunStatus.queued)))

-- The table has a lock of the resource that is not released, and its run holds on to it.
pub record IsTaken (resource_id : ℕ) (db : Db) : Type 0 where
  pub before : List ResourceLock
  pub lock : ResourceLock
  pub after : List ResourceLock
  pub rows : db.locks ≡ before ++ lock ∷ after
  pub of_resource : lock.resource_id ≡ resource_id
  pub unreleased : lock.released_at ≡ none
  pub holding : IsHolding lock.run_id db

module _ {A : Type 0} (p : A → Bool) where
  split-first :
      (xs : List A) {x : A}
      → first (select p xs) ≡ some x
      → (before : List A) × (after : List A) × (xs ≡ before ++ x ∷ after)
  split-first [] h = cc
  split-first (y ∷ ys) {x} h = elim (Bool-cases (p y)) [
    | inl e ↦ let same : y ≡ x = ground (arith, rw e at h) in ([], ys, ap (λ z. z ∷ ys) same)
    | inr e ↦
        let (before, after, rest) = split-first ys {x = x} (rw e at h) in
        (y ∷ before, after, ap (λ zs. y ∷ zs) rest)
  ]

  count-middle :
      (before : List A) (x : A) (after : List A) → p x ≡ true → 1 ≤ count p (before ++ x ∷ after)
  count-middle [] x after e = ground arith
  count-middle (y ∷ before) x after e = ground (arith, count-middle before x after e)

  first-select_single :
      (before : List A) (x : A) (after : List A)
      → p x ≡ true
      → count p (before ++ x ∷ after) ≤ 1
      → first (select p (before ++ x ∷ after)) ≡ some x
  first-select_single [] x after e h = ground arith
  first-select_single (y ∷ before) x after e h = elim (Bool-cases (p y)) [
    | inl k ↦ ground (arith, count-middle before x after e)
    | inr k ↦ ground (arith, first-select_single before x after e)
  ]

-- A status that is not stale is running or queued.
is_stale-eq-false :
    (s : RunStatus) → is_stale s ≡ false → (s ≡ RunStatus.running) ⊎ (s ≡ RunStatus.queued)
is_stale-eq-false RunStatus.pending h = cc
is_stale-eq-false RunStatus.queued h = inr refl
is_stale-eq-false RunStatus.running h = inl refl
is_stale-eq-false RunStatus.completed h = cc
is_stale-eq-false RunStatus.failed h = cc
is_stale-eq-false RunStatus.cancelled h = cc

IsTaken-active : (r : ℕ) (db : Db) (t : IsTaken r db) → is_active r t.lock ≡ true
IsTaken-active r db t = rw (t.of_resource, t.unreleased) (rw (==_refl r) refl)

IsTaken-first :
    (r : ℕ) (db : Db) (t : IsTaken r db)
    → held r db ≤ 1
    → first (select (is_active r) db.locks) ≡ some t.lock
IsTaken-first r db t h =
    ap (λ rows. first (select (is_active r) rows)) t.rows
    ∙ first-select_single (is_active r) t.before t.lock t.after (IsTaken-active r db t)
        (rw (← ap (count (is_active r)) t.rows) h)

is_active-eq-true :
    (r : ℕ) (lock : ResourceLock)
    → is_active r lock ≡ true
    → (lock.resource_id ≡ r) × (lock.released_at ≡ none)
is_active-eq-true r lock h = (ground arith, not_released lock.released_at (ground arith))
  where
    not_released : (o : Option ℕ) → is_null o ≡ true → o ≡ none
    not_released none h = refl
    not_released (some t) h = cc

IsHolding-of_alive :
    (run_id : ℕ) (db : Db)
    → (find_run run_id db ≡ none)
      ⊎ ((holder : Run) × (find_run run_id db ≡ some holder) × (is_stale holder.status ≡ false))
    → IsHolding run_id db
IsHolding-of_alive run_id db (inl gone) = inl gone
IsHolding-of_alive run_id db (inr (holder, there, alive)) =
    inr (holder, there, is_stale-eq-false holder.status alive)

not_true : false ≡ true → ⊥
not_true h = cc

IsHolding-not_stale :
    (run_id : ℕ) (db : Db) (holder : Run)
    → IsHolding run_id db
    → find_run run_id db ≡ some holder
    → is_stale holder.status ≡ true
    → ⊥
IsHolding-not_stale run_id db holder (inl gone) there over = cc
IsHolding-not_stale run_id db holder (inr (other, found, inl running)) there over =
    let same : other ≡ holder = cc in
    let busy : holder.status ≡ RunStatus.running = rw (← same) running in not_true (rw busy at over)
IsHolding-not_stale run_id db holder (inr (other, found, inr queued)) there over =
    let same : other ≡ holder = cc in
    let busy : holder.status ≡ RunStatus.queued = rw (← same) queued in not_true (rw busy at over)

IsTaken-of_IsBlocked : (r : ℕ) (db : Db) → IsBlocked r db → IsTaken r db
IsTaken-of_IsBlocked r db b =
    let (before, after, rows) = split-first (is_active r) db.locks b.found in
    let (of_resource, unreleased) =
      is_active-eq-true r b.existing (test-first (is_active r) db.locks b.found) in
    record {
      before = before;
      lock = b.existing;
      after = after;
      rows = rows;
      of_resource = of_resource;
      unreleased = unreleased;
      holding = IsHolding-of_alive b.existing.run_id db b.alive;
    }

IsTaken-not_IsAvailable : (r : ℕ) (db : Db) → held r db ≤ 1 → IsAvailable r db → ¬ IsTaken r db
IsTaken-not_IsAvailable r db h (free e) t =
    let some_lock = count-middle (is_active r) t.before t.lock t.after (IsTaken-active r db t) in
    let rows = ap (count (is_active r)) t.rows in omega (arith, some_lock, rows, e)
IsTaken-not_IsAvailable r db h (stale l holder found there over) t =
    let single : first (select (is_active r) db.locks) ≡ some t.lock = IsTaken-first r db t h in
    let same : l ≡ t.lock = cc in
    IsHolding-not_stale t.lock.run_id db holder t.holding (rw (← same) there) over

-- A request for a resource with at most one unreleased lock is refused, and then changes nothing, if
-- there is such a lock whose run is running or queued, or not in the table. If there is none, the
-- request succeeds.
pub acquire_lock-cases :
    (now : ℕ) (run : Run) (resource : Resource) (db : Db)
    → held resource.id db ≤ 1
    → (IsTaken resource.id db × (acquire_lock now run resource db ≡ (false, db)))
      ⊎ (¬ IsTaken resource.id db × ((acquire_lock now run resource db).0 ≡ true))
acquire_lock-cases now run resource db h = elim (IsAvailable-or_IsBlocked resource.id db) [
  | inl available ↦ inr (
    IsTaken-not_IsAvailable resource.id db h available,
    (acquire_lock-available now run resource db h available).accepted,
  )
  | inr blocked ↦ inl (
    IsTaken-of_IsBlocked resource.id db blocked,
    acquire_lock-blocked now run resource db blocked,
  )
]
