-- ===== src/Queue.antt =====
-- backend/app/services/queue.py: ResourceQueueManager. Each operation takes the database and
-- returns it with its result; `now` is the clock of `func.now()`. An operation runs to its end
-- with no other task between its statements.
pub mod Locks
pub mod Refused
pub mod Release
pub mod Fifo
use distributed_verification.Prelude.{
  ℕ, suc, ◌+◌, ◌≡◌, Bool, true, false, ◌&&◌, Option, none, some, List, [], ◌∷◌, ◌++◌, Text, text_eq,
  codes, ◌==◌, if◌then◌else◌, first, select, update, order_by, leb,
}
use distributed_verification.Model.{
  RunStatus, QueueStatus, Resource, Run, ResourceLock, QueueEntry, Db,
}

-- `db.get(Run, id)`.
abbrev pub find_run : ℕ → Db → Option Run
find_run id db = first (select (λ r. r.id == id) db.runs)

-- Assignments to the columns of one run.
abbrev pub update_run : ℕ → (Run → Run) → Db → Db
update_run id f db = record db { runs = update (λ r. r.id == id) f db.runs }

abbrev pub is_null : Option ℕ → Bool
is_null none = true
is_null (some t) = false

-- `resource_id == resource.id and released_at is None`.
abbrev pub is_active : ℕ → ResourceLock → Bool
is_active resource_id lock = lock.resource_id == resource_id && is_null lock.released_at

abbrev pub is_waiting_status : QueueStatus → Bool
is_waiting_status QueueStatus.waiting = true
is_waiting_status QueueStatus.running = false

-- `resource_id == resource.id and status == "waiting"`.
abbrev pub is_waiting : ℕ → QueueEntry → Bool
is_waiting resource_id entry = entry.resource_id == resource_id && is_waiting_status entry.status

-- `holder.status in ("completed", "failed", "pending", "cancelled")`.
abbrev pub is_stale : RunStatus → Bool
is_stale RunStatus.pending = true
is_stale RunStatus.queued = false
is_stale RunStatus.running = false
is_stale RunStatus.completed = true
is_stale RunStatus.failed = true
is_stale RunStatus.cancelled = true

unfoldable pub add_resource : Text → Db → Resource × Db
add_resource name db =
    let resource : Resource = record { id = db.next_id; name = name } in
    (resource, record db { resources = db.resources ++ resource ∷ []; next_id = suc db.next_id })

unfoldable pub find_or_create_resource : Text → Db → Resource × Db
unfolding add_resource
find_or_create_resource name db =
    elim (first (select (λ (r : Resource). text_eq r.name name) db.resources)) [
      | none ↦ add_resource name db
      | some resource ↦ (resource, db)
    ]

-- `existing.released_at = func.now()`.
unfoldable pub release_lock : ℕ → ResourceLock → Db → Db
release_lock now existing db = record db {
  locks = update (λ l. l.id == existing.id) (λ l. record l { released_at = some now }) db.locks;
}

abbrev pub new_lock : Run → Resource → Db → ResourceLock
new_lock run resource db = record {
  id = db.next_id;
  resource_id = resource.id;
  run_id = run.id;
  released_at = none;
}

-- A new lock, with the run bound to the resource and running: the end of `acquire_lock`, and of
-- `release_resource` for the next run.
unfoldable pub grant : Run → Resource → Db → Db
grant run resource db = record db {
  locks = db.locks ++ new_lock run resource db ∷ [];
  runs =
      update (λ r. r.id == run.id)
        (λ r. record r { resource_id = some resource.id; status = RunStatus.running }) db.runs;
  next_id = suc db.next_id;
}

-- After a stale lock was released: another unreleased lock refuses the request.
unfoldable pub recheck : Run → Resource → Db → Bool × Db
unfolding grant
recheck run resource db = elim (first (select (is_active resource.id) db.locks)) [
  | none ↦ (true, grant run resource db)
  | some other ↦ (false, db)
]

unfoldable pub take_over : ℕ → Run → Resource → ResourceLock → Db → Bool × Db
unfolding release_lock recheck
take_over now run resource existing db = elim (find_run existing.run_id db) [
  | none ↦ (false, db)
  | some holder ↦
      if is_stale holder.status
      then recheck run resource (release_lock now existing db)
      else (false, db)
]

unfoldable pub acquire_lock : ℕ → Run → Resource → Db → Bool × Db
unfolding take_over
acquire_lock now run resource db = elim (first (select (is_active resource.id) db.locks)) [
  | none ↦ (true, grant run resource db)
  | some existing ↦ take_over now run resource existing db
]

-- `select(func.max(QueueEntry.position)).where(resource)`, `or 0`.
unfoldable pub max_position : ℕ → List QueueEntry → ℕ
max_position resource_id [] = 0
max_position resource_id (e ∷ es) =
    let rest = max_position resource_id es in
    if e.resource_id == resource_id
    then (if leb rest e.position then e.position else rest)
    else rest

abbrev pub new_entry : Run → Resource → Db → QueueEntry
new_entry run resource db = record {
  id = db.next_id;
  resource_id = resource.id;
  run_id = run.id;
  client_id = run.client_id;
  position = max_position resource.id db.entries + 1;
  status = QueueStatus.waiting;
}

unfoldable pub enqueue_run : Run → Resource → Db → QueueEntry × Db
unfolding max_position
enqueue_run run resource db = (
  new_entry run resource db,
  record db {
    entries = db.entries ++ new_entry run resource db ∷ [];
    runs = update (λ r. r.id == run.id) (λ r. record r { status = RunStatus.queued }) db.runs;
    next_id = suc db.next_id;
  },
)

-- `lock_filter`: with a run id, only the lock of that run.
abbrev pub lock_filter : ℕ → Option ℕ → ResourceLock → Bool
lock_filter resource_id none lock = is_active resource_id lock
lock_filter resource_id (some run_id) lock = is_active resource_id lock && lock.run_id == run_id

-- The first half of `release_resource`.
unfoldable pub release_current : ℕ → Resource → Option ℕ → Db → Db
unfolding release_lock
release_current now resource run_id db =
    elim (first (select (lock_filter resource.id run_id) db.locks)) [
      | none ↦ db
      | some current_lock ↦ release_lock now current_lock db
    ]

abbrev pub next_waiting : ℕ → Db → Option QueueEntry
next_waiting resource_id db =
    first (order_by (λ e. e.position) (select (is_waiting resource_id) db.entries))

-- `next_item.status = "running"`.
unfoldable pub dequeue : QueueEntry → Db → Db
dequeue item db = record db {
  entries =
      update (λ e. e.id == item.id) (λ e. record e { status = QueueStatus.running }) db.entries;
}

unfoldable pub start_item : Resource → QueueEntry → Db → Option ℕ × Db
unfolding grant
start_item resource item db = elim (find_run item.run_id db) [
  | none ↦ (none, db)
  | some next_run ↦ (some next_run.id, grant next_run resource db)
]

-- The second half of `release_resource`.
unfoldable pub start_next : Resource → Db → Option ℕ × Db
unfolding dequeue start_item order_by
start_next resource db = elim (next_waiting resource.id db) [
  | none ↦ (none, db)
  | some next_item ↦ start_item resource next_item (dequeue next_item db)
]

unfoldable pub release_resource : ℕ → Resource → Option ℕ → Db → Option ℕ × Db
unfolding release_current start_next
release_resource now resource run_id db =
    start_next resource (release_current now resource run_id db)
