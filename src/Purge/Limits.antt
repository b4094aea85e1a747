-- ===== src/Purge/Limits.antt =====
-- How much a purge leaves.
use mathlib.Core.Path.{subst}
use distributed_verification.Prelude.{
  ℕ, zero, suc, ◌-◌, ◌≤◌, ◌≡◌, refl, ap, inl, inr, Bool, true, false, not, ◌||◌, List, [], ◌∷◌, map,
  arith, ◌==◌, Bool-cases, leb, length, take, select, delete, count, count-delete-le, count-select,
  ==_iff, order_by, count-order_by, length-order_by,
}
use distributed_verification.Model.{Run, is_finished, Db}
use distributed_verification.Runner.Processes.{mem_id}
use distributed_verification.Purge.{
  Purged, delete_runs, nothing, prune_client, prune_clients, prune_excess_reports, client_ids,
  distinct, excess_ids, is_finished_of,
}

-- Of the rows that are in `p`, those outside `q` are counted after a deletion.
count-delete-select :
    (p q : Run → Bool) (rs : List Run)
    → count p (delete q rs) ≡ count (λ r. not (q r)) (select p rs)
count-delete-select p q [] = refl
count-delete-select p q (r ∷ rs) = elim (Bool-cases (q r)) [
  | inl e ↦ ground (arith, count-delete-select p q rs)
  | inr e ↦ ground (arith, count-delete-select p q rs)
]

mem_id-head : (r : Run) (ids : List ℕ) → mem_id r.id (r.id ∷ ids) ≡ true
mem_id-head r ids = ground arith

or_right : (a : Bool) {b : Bool} → b ≡ true → (a || b) ≡ true
or_right true h = refl
or_right false h = h

count-le-length : (q : Run → Bool) (rs : List Run) → count q rs ≤ length rs
count-le-length q [] = omega arith
count-le-length q (r ∷ rs) = ground (arith, count-le-length q rs)

-- Rows whose ids are listed do not count.
count-others-le :
    (n : ℕ) (more : List ℕ) (rs : List Run)
    → ((i : ℕ) → mem_id i (map (λ r. r.id) (take n rs)) ≡ true → mem_id i more ≡ true)
    → count (λ r. not (mem_id r.id more)) rs ≤ length rs - n
count-others-le zero more [] sub = omega arith
count-others-le zero more (r ∷ rs) sub =
    ground (arith, count-le-length (λ x. not (mem_id x.id more)) rs)
count-others-le (suc n) more [] sub = omega arith
count-others-le (suc n) more (r ∷ rs) sub =
    let hit = sub r.id (mem_id-head r (map (λ x. x.id) (take n rs))) in
    ground (arith, hit, count-others-le n more rs (λ i h. sub i (or_right (r.id == i) h)))

-- The client's turn brings it under the limit.
prune_client-le :
    (max_count cid : ℕ) (p : Purged)
    → count (is_finished_of cid) (prune_client max_count cid p).db.runs ≤ max_count
unfolding prune_client delete_runs
prune_client-le max_count cid p =
    elim (Bool-cases (leb (count (is_finished_of cid) p.db.runs) max_count)) [
      | inl few ↦ rw few (ground arith)
      | inr many ↦ rw many (
          let finished = select (is_finished_of cid) p.db.runs in
          let excess = count (is_finished_of cid) p.db.runs - max_count in
          let out = λ (r : Run). not (mem_id r.id (excess_ids max_count cid p.db)) in
          ground (
            arith,
            count-delete-select (is_finished_of cid)
                (λ r. mem_id r.id (excess_ids max_count cid p.db)) p.db.runs,
            count-order_by (λ r. r.created_at) out finished,
            count-others-le excess (excess_ids max_count cid p.db)
                (order_by (λ r. r.created_at) finished) (λ i h. h),
            length-order_by (λ r. r.created_at) finished,
            count-select (is_finished_of cid) p.db.runs,
          ))
    ]

-- No turn brings another client over it.
prune_client_mono :
    (max_count cid other : ℕ) (p : Purged)
    → count (is_finished_of other) (prune_client max_count cid p).db.runs
      ≤ count (is_finished_of other) p.db.runs
unfolding prune_client delete_runs
prune_client_mono max_count cid other p =
    elim (Bool-cases (leb (count (is_finished_of cid) p.db.runs) max_count)) [
      | inl few ↦ rw few (omega arith)
      | inr many ↦ rw many (count-delete-le (is_finished_of other) _ p.db.runs)
    ]

prune_clients_mono :
    (max_count other : ℕ) (cids : List ℕ) (p : Purged)
    → count (is_finished_of other) (prune_clients max_count cids p).db.runs
      ≤ count (is_finished_of other) p.db.runs
unfolding prune_clients
prune_clients_mono max_count other [] p = omega arith
prune_clients_mono max_count other (cid ∷ cids) p = omega (
  arith,
  prune_clients_mono max_count other cids (prune_client max_count cid p),
  prune_client_mono max_count cid other p,
)

prune_clients-le :
    (max_count other : ℕ) (cids : List ℕ) (p : Purged)
    → mem_id other cids ≡ true
    → count (is_finished_of other) (prune_clients max_count cids p).db.runs ≤ max_count
unfolding prune_clients
prune_clients-le max_count other [] p h = cc
prune_clients-le max_count other (cid ∷ cids) p h = elim (Bool-cases (cid == other)) [
  | inl same ↦
      let e : cid ≡ other = (==_iff cid other).0 same in
      let after = prune_client max_count cid p in
      let bound =
        subst (λ x. count (is_finished_of x) after.db.runs ≤ max_count) e
          (prune_client-le max_count cid p) in
      omega (arith, prune_clients_mono max_count other cids after, bound)
  | inr differ ↦
      prune_clients-le max_count other cids (prune_client max_count cid p) (rw differ at h)
]

mem_id-distinct : (n : ℕ) (ns : List ℕ) → mem_id n ns ≡ true → mem_id n (distinct ns) ≡ true
unfolding distinct
mem_id-distinct n [] h = h
mem_id-distinct n (m ∷ ns) h = elim (Bool-cases (m == n)) [
  | inl same ↦
      let e : m ≡ n = (==_iff m n).0 same in ground (arith, ap (λ x. mem_id x (distinct ns)) e)
  | inr differ ↦ ground (arith, mem_id-distinct n ns)
]

no_finished :
    (cid : ℕ) (rs : List Run)
    → mem_id cid (map (λ r. r.client_id) (select (λ r. is_finished r.status) rs)) ≡ false
    → count (is_finished_of cid) rs ≡ 0
no_finished cid [] h = refl
no_finished cid (r ∷ rs) h = elim (Bool-cases (is_finished r.status)) [
  | inl e ↦ ground (arith, no_finished cid rs)
  | inr e ↦ ground (arith, no_finished cid rs)
]

-- After the pruning no client has more than `max_count` finished runs.
pub prune_excess_reports-le :
    (max_count : ℕ) (db : Db) (dirs : List ℕ) (cid : ℕ)
    → count (is_finished_of cid) (prune_excess_reports max_count db dirs).db.runs ≤ max_count
unfolding prune_excess_reports client_ids
prune_excess_reports-le max_count db dirs cid =
    let listed = map (λ r. r.client_id) (select (λ r. is_finished r.status) db.runs) in
    elim (Bool-cases (mem_id cid listed)) [
      | inl e ↦
          prune_clients-le max_count cid (client_ids db) (nothing db dirs)
            (mem_id-distinct cid listed e)
      | inr e ↦ omega (
        arith,
        prune_clients_mono max_count cid (client_ids db) (nothing db dirs),
        no_finished cid db.runs e,
      )
    ]
