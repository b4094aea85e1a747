-- ===== src/Runs/Cancel.antt =====
-- What a cancelled run leaves behind, and what its task then does.
use distributed_verification.Prelude.{
  ℕ, suc, ◌≡◌, refl, sym, ap, ◌∙◌, ◌≢◌, inl, inr, Bool, false, Option, none, some, List, [], ◌∷◌,
  arith, Text, ◌==◌, Option-cases, first, select, update, count, order_by, count-order_by,
  count-select-le, count-delete_self,
}
use distributed_verification.Model.{RunStatus, Run, Resource, QueueEntry, Db}
use distributed_verification.Queue.{
  find_run, is_waiting, next_waiting, release_resource, release_current, start_next, dequeue, grant,
}
use distributed_verification.Queue.Release.{start_next-some, start_next-none, start_next-missing}
use distributed_verification.Queue.Fifo.{entries-release_current, id-find_run}
use distributed_verification.Access.{ok, verify_run_owner, require, conflict, >>=-eq-ok}
use distributed_verification.Runner.Processes.{Runtime}
use distributed_verification.Runs.{
  find_resource, is_cancellable, hand_on, mark_cancelled, Cancelled, cancel_run_endpoint,
}

-- Updates of one run, seen from a run id.
pub find_run-update_self :
    (a : ℕ) (f : Run → Run) (rs : List Run) {run : Run}
    → ((r : Run) → (f r).id ≡ r.id)
    → first (select (λ r. r.id == a) rs) ≡ some run
    → first (select (λ r. r.id == a) (update (λ r. r.id == a) f rs)) ≡ some (f run)
find_run-update_self a f [] keep e = cc
find_run-update_self a f (r ∷ rs) {run} keep e =
    ground (arith, keep r, find_run-update_self a f rs {run = run} keep)

pub find_run-update_ne :
    (a b : ℕ) (f : Run → Run) (rs : List Run)
    → ((r : Run) → (f r).id ≡ r.id)
    → a ≢ b
    → first (select (λ r. r.id == a) (update (λ r. r.id == b) f rs))
      ≡ first (select (λ r. r.id == a) rs)
find_run-update_ne a b f [] keep ne = refl
find_run-update_ne a b f (r ∷ rs) keep ne =
    ground (arith, keep r, find_run-update_ne a b f rs keep ne)

first-fails :
    (q : QueueEntry → Bool) (es : List QueueEntry) {e : QueueEntry}
    → first es ≡ some e
    → count q es ≡ 0
    → q e ≡ false
first-fails q [] h k = cc
first-fails q (e ∷ es) h k = ground arith

-- A run with no queue entry is not the next one.
next_waiting-ne :
    (r a : ℕ) (db : Db) (item : QueueEntry)
    → count (λ e. e.run_id == a) db.entries ≡ 0
    → next_waiting r db ≡ some item
    → a ≢ item.run_id
next_waiting-ne r a db item none_left e same =
    let named = λ (x : QueueEntry). x.run_id == a in
    let queue = select (is_waiting r) db.entries in
    let missed = first-fails named (order_by (λ x. x.position) queue) {e = item} e (
      omega (
        arith,
        count-order_by (λ x. x.position) named queue,
        count-select-le (is_waiting r) named db.entries,
      )) in
    ground (arith, missed)

find_run-grant :
    (a : ℕ) (run : Run) (resource : Resource) (db : Db)
    → a ≢ run.id
    → find_run a (grant run resource db) ≡ find_run a db
unfolding grant
find_run-grant a run resource db ne = find_run-update_ne a run.id _ db.runs (λ r. refl) ne

start_next-keeps :
    (a : ℕ) (resource : Resource) (db : Db)
    → count (λ e. e.run_id == a) db.entries ≡ 0
    → find_run a (start_next resource db).1 ≡ find_run a db
unfolding dequeue
start_next-keeps a resource db none_left = elim (Option-cases (next_waiting resource.id db)) [
  | inl e ↦ rw (start_next-none resource db e) refl
  | inr (item, e) ↦ elim (Option-cases (find_run item.run_id db)) [
    | inl gone ↦ rw (start_next-missing resource db item e gone) refl
    | inr (run, there) ↦ rw (start_next-some resource db item run e there) (
        find_run-grant a run resource (dequeue item db) λ same.
          next_waiting-ne resource.id a db item none_left e
            (same ∙ id-find_run item.run_id db run there))
  ]
]

pub release_resource-keeps :
    (now a : ℕ) (resource : Resource) (who : Option ℕ) (db : Db)
    → count (λ e. e.run_id == a) db.entries ≡ 0
    → find_run a (release_resource now resource who db).1 ≡ find_run a db
unfolding release_resource
release_resource-keeps now a resource who db none_left =
    let (entries, runs, _) = entries-release_current now resource who db in
    start_next-keeps a resource (release_current now resource who db) (rw entries none_left)
    ∙ ap (λ rs. first (select (λ r. r.id == a) rs)) runs

pub hand_on-keeps :
    (now a : ℕ) (resource_id : Option ℕ) (db : Db)
    → count (λ e. e.run_id == a) db.entries ≡ 0
    → find_run a (hand_on now a resource_id db).1 ≡ find_run a db
unfolding hand_on
hand_on-keeps now a none db none_left = refl
hand_on-keeps now a (some ℕ.zero) db none_left = refl
hand_on-keeps now a (some (suc n)) db none_left = elim (Option-cases (find_resource (suc n) db)) [
  | inl e ↦ rw (e, hand_on) refl
  | inr (resource, e) ↦
      rw (e, hand_on) (release_resource-keeps now a resource (some a) db none_left)
]

pub owned-run :
    (a : ℕ) (key : Option Text) (db : Db) (run : Run)
    → verify_run_owner a key db ≡ ok run
    → find_run a db ≡ some run
unfolding verify_run_owner
owned-run a key db run e = ground arith

pub mark_cancelled_lem :
    (now a : ℕ) (db : Db) (run : Run)
    → find_run a db ≡ some run
    → (find_run a (mark_cancelled now a db)
        ≡ some (record run { status = RunStatus.cancelled; finished_at = some now }))
      × (count (λ e. e.run_id == a) (mark_cancelled now a db).entries ≡ 0)
unfolding mark_cancelled
mark_cancelled_lem now a db run e = (
  find_run-update_self a _ db.runs {run = run} (λ r. refl) e,
  count-delete_self (λ x. x.run_id == a) db.entries,
)

-- A cancellation that succeeds leaves the run cancelled with its end noted, whatever run it starts.
pub cancel_run_endpoint_cancels :
    (now a : ℕ) (key : Text) (db : Db) (rt : Runtime) (c : Cancelled)
    → cancel_run_endpoint now a key db rt ≡ ok c
    → (run : Run) × (find_run a c.db ≡ some run)
      × (run.status ≡ RunStatus.cancelled)
      × (run.finished_at ≡ some now)
unfolding cancel_run_endpoint
cancel_run_endpoint_cancels now a key db rt c e =
    let (run, owned, e₁) = >>=-eq-ok (verify_run_owner a (some key) db) _ e in
    let (_, _, e₂) = >>=-eq-ok (require (is_cancellable run.status) conflict) _ e₁ in
    let marked = mark_cancelled now a db in
    let (there, gone) = mark_cancelled_lem now a db run (owned-run a (some key) db run owned) in
    let result : (hand_on now a run.resource_id marked).1 ≡ c.db = cc in
    (
      record run { status = RunStatus.cancelled; finished_at = some now },
      ap (find_run a) (sym result) ∙ hand_on-keeps now a run.resource_id marked gone ∙ there,
      refl,
      refl,
    )
