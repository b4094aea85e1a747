-- ===== src/Queue/Fifo.antt =====
-- The queue of a resource as a first-in first-out list of run ids.
use mathlib.Core.List.{map-append}
use distributed_verification.Prelude.{
  ℕ, ◌≤◌, ◌≡◌, refl, sym, ap, ◌∙◌, inl, inr, Option, none, some, List, [], ◌∷◌, ◌++◌, map, arith,
  ◌==◌, ==_refl, Bool-cases, Option-cases, first, All, select, delete, count, count-append,
  count-update_same, select-append, select-update, delete-eq_self, count-select-le, test-first,
  order_by, order_by-snoc, count-order_by, delete-order_by,
}
use distributed_verification.Model.{QueueStatus, Resource, Run, QueueEntry, Db}
use distributed_verification.Queue.{
  find_run, is_waiting, max_position, enqueue_run, release_current, lock_filter, next_waiting,
  new_entry, dequeue, start_next, release_resource, grant,
}
use distributed_verification.Queue.Release.{start_next-some, start_next-none}

abbrev pub position : QueueEntry → ℕ
position e = e.position

abbrev pub waiting_entries : ℕ → Db → List QueueEntry
waiting_entries resource_id db = order_by position (select (is_waiting resource_id) db.entries)

-- The runs that wait for a resource, first come first.
abbrev pub waiting_runs : ℕ → Db → List ℕ
waiting_runs resource_id db = map (λ e. e.run_id) (waiting_entries resource_id db)

-- Entry ids are primary keys below the next one.
pub record IsKeyed (db : Db) : Type 0 where
  pub unique : (id : ℕ) → count (λ e. e.id == id) db.entries ≤ 1
  pub below : (id : ℕ) → db.next_id ≤ id → count (λ e. e.id == id) db.entries ≡ 0

position-le-max_position :
    (r n : ℕ) (es : List QueueEntry)
    → max_position r es ≤ n
    → All (λ e. position e ≤ n) (select (is_waiting r) es)
unfolding max_position
position-le-max_position r n [] h = tt
position-le-max_position r n (e ∷ es) h = elim (Bool-cases (is_waiting r e)) [
  | inl w ↦ rw w (ground arith, position-le-max_position r n es (ground arith))
  | inr w ↦ rw w (position-le-max_position r n es (ground arith))
]

select-enqueue :
    (run : Run) (resource : Resource) (db : Db)
    → select (is_waiting resource.id) (db.entries ++ new_entry run resource db ∷ [])
      ≡ select (is_waiting resource.id) db.entries ++ new_entry run resource db ∷ []
select-enqueue run resource db =
    select-append (is_waiting resource.id) db.entries (new_entry run resource db ∷ [])
    ∙ ground (arith, ==_refl resource.id)

-- A new run waits behind all others.
pub waiting_runs-enqueue_run :
    (run : Run) (resource : Resource) (db : Db)
    → waiting_runs resource.id (enqueue_run run resource db).1
      ≡ waiting_runs resource.id db ++ run.id ∷ []
unfolding enqueue_run
waiting_runs-enqueue_run run resource db =
    let queue = select (is_waiting resource.id) db.entries in
    let item = new_entry run resource db in
    ap (λ es. map (λ e. e.run_id) (order_by position es)) (select-enqueue run resource db)
    ∙ ap (map (λ e. e.run_id)) (
        order_by-snoc position queue item
          (position-le-max_position resource.id item.position db.entries (omega arith)))
    ∙ map-append (λ e. e.run_id) (order_by position queue) (item ∷ [])

pub enqueue_run-IsKeyed :
    (run : Run) (resource : Resource) (db : Db)
    → IsKeyed db
    → IsKeyed (enqueue_run run resource db).1
unfolding enqueue_run
enqueue_run-IsKeyed run resource db h = record {
  unique = λ id. ground (
    arith,
    h.unique id,
    h.below id,
    count-append (λ e. e.id == id) db.entries (new_entry run resource db ∷ []),
  );
  below = λ id late. ground (
    arith,
    h.below id,
    count-append (λ e. e.id == id) db.entries (new_entry run resource db ∷ []),
  );
}

same_ids :
    (item : QueueEntry) (db : Db) (id : ℕ)
    → count (λ e. e.id == id) (dequeue item db).entries ≡ count (λ e. e.id == id) db.entries
unfolding dequeue
same_ids item db id =
    count-update_same (λ e. e.id == id) (λ e. e.id == item.id)
      (λ e. record e { status = QueueStatus.running }) db.entries (λ e. refl)

dequeue-IsKeyed : (item : QueueEntry) (db : Db) → IsKeyed db → IsKeyed (dequeue item db)
unfolding dequeue
dequeue-IsKeyed item db h = record {
  unique = λ id. rw (same_ids item db id) (h.unique id);
  below = λ id late. rw (same_ids item db id) (h.below id late);
}

-- The dequeued entry leaves the queue, and no other does.
waiting_entries-dequeue :
    (r : ℕ) (db : Db) (item : QueueEntry) (rest : List QueueEntry)
    → IsKeyed db
    → waiting_entries r db ≡ item ∷ rest
    → waiting_entries r (dequeue item db) ≡ rest
unfolding dequeue
waiting_entries-dequeue r db item rest h e =
    let same = λ (x : QueueEntry). x.id == item.id in
    let queue = select (is_waiting r) db.entries in
    let bound = count-select-le (is_waiting r) same db.entries in
    let counted = count-order_by position same queue in
    ap (order_by position) (
      select-update (is_waiting r) same (λ x. record x { status = QueueStatus.running }) db.entries
        (λ x. ground arith))
    ∙ sym (delete-order_by position same queue)
    ∙ ap (delete same) e
    ∙ ground (arith, delete-eq_self same rest, h.unique item.id, ap (count same) e)

pub entries-release_current :
    (now : ℕ) (resource : Resource) (who : Option ℕ) (db : Db)
    → ((release_current now resource who db).entries ≡ db.entries)
      × ((release_current now resource who db).runs ≡ db.runs)
      × ((release_current now resource who db).next_id ≡ db.next_id)
unfolding release_current
entries-release_current now resource who db =
    elim (Option-cases (first (select (lock_filter resource.id who) db.locks))) [
      | inl e ↦ rw (e, release_current) (refl, refl, refl)
      | inr (lock, e) ↦ rw (e, release_current) (refl, refl, refl)
    ]

pub release_current-IsKeyed :
    (now : ℕ) (resource : Resource) (who : Option ℕ) (db : Db)
    → IsKeyed db
    → IsKeyed (release_current now resource who db)
release_current-IsKeyed now resource who db h =
    let (entries, runs, next_id) = entries-release_current now resource who db in
    record {
      unique = λ id. rw entries (h.unique id);
      below = λ id late. rw entries (h.below id (rw next_id at late));
    }

pub id-find_run : (a : ℕ) (db : Db) (run : Run) → find_run a db ≡ some run → run.id ≡ a
id-find_run a db run e = ground (arith, test-first (λ r. r.id == a) db.runs {x = run} e)

pub serve :
    (resource : Resource) (db : Db) (es : List QueueEntry) (a : ℕ) (rest : List ℕ) (run : Run)
    → IsKeyed db
    → waiting_entries resource.id db ≡ es
    → map (λ e. e.run_id) es ≡ a ∷ rest
    → find_run a db ≡ some run
    → ((start_next resource db).0 ≡ some a)
      × (waiting_runs resource.id (start_next resource db).1 ≡ rest)
unfolding grant
serve resource db [] a rest run h e k there = cc
serve resource db (item ∷ items) a rest run h e k there =
    let named : item.run_id ≡ a = cc in
    rw (start_next-some resource db item run (ap first e) (rw named there)) (
      ap some (id-find_run a db run there),
      ap (map (λ x. x.run_id)) (waiting_entries-dequeue resource.id db item items h e) ∙ (cc),
    )

-- A release starts the run that has waited longest, and leaves the others waiting in their order.
pub release_resource-serves :
    (now : ℕ) (resource : Resource) (who : Option ℕ) (db : Db) (a : ℕ) (rest : List ℕ) (run : Run)
    → IsKeyed db
    → waiting_runs resource.id db ≡ a ∷ rest
    → find_run a db ≡ some run
    → ((release_resource now resource who db).0 ≡ some a)
      × (waiting_runs resource.id (release_resource now resource who db).1 ≡ rest)
unfolding release_resource
release_resource-serves now resource who db a rest run h e there =
    let freed = release_current now resource who db in
    let (entries, runs, next_id) = entries-release_current now resource who db in
    serve resource freed (waiting_entries resource.id freed) a rest run
      (release_current-IsKeyed now resource who db h) refl (rw entries e) (rw runs there)

-- With nobody waiting no run is started.
pub release_resource-idle :
    (now : ℕ) (resource : Resource) (who : Option ℕ) (db : Db)
    → next_waiting resource.id db ≡ none
    → release_resource now resource who db ≡ (none, release_current now resource who db)
unfolding release_resource
release_resource-idle now resource who db e =
    start_next-none resource (release_current now resource who db)
      (rw ((entries-release_current now resource who db).0) e)
