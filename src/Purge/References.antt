-- ===== src/Purge/References.antt =====
-- No purge leaves a row behind whose run is gone.
use distributed_verification.Prelude.{
  ℕ, ◌≡◌, refl, inl, inr, true, false, List, [], ◌∷◌, map, arith, ◌==◌, Bool-cases, leb, All,
  select, delete, count, ==_iff,
}
use distributed_verification.Model.{Run, Db}
use distributed_verification.Runner.Processes.{mem_id}
use distributed_verification.Purge.{
  Purged, delete_runs, nothing, purge_old_runs, prune_client, prune_clients, prune_excess_reports,
  client_ids, purge_found, is_expired, is_finished_of, excess_ids,
}

abbrev run_ids : List Run → List ℕ
run_ids rs = map (λ r. r.id) rs

-- Every row that names a run names one that is in the table.
pub record IsConsistent (db : Db) : Type 0 where
  pub logs : All (λ l. mem_id l.run_id (run_ids db.runs) ≡ true) db.logs
  pub locks : All (λ l. mem_id l.run_id (run_ids db.runs) ≡ true) db.locks
  pub entries : All (λ e. mem_id e.run_id (run_ids db.runs) ≡ true) db.entries
  pub reports : All (λ r. mem_id r.run_id (run_ids db.runs) ≡ true) db.reports
  pub links : All (λ l. mem_id l.run_id (run_ids db.runs) ≡ true) db.links

mem_id_congr : (a b : ℕ) (ids : List ℕ) → (a == b) ≡ true → mem_id a ids ≡ mem_id b ids
mem_id_congr a b ids h = let e : a ≡ b = (==_iff a b).0 h in rw e refl

-- A run whose id is not deleted is still there.
mem_id-delete :
    (n : ℕ) (ids : List ℕ) (rs : List Run)
    → mem_id n ids ≡ false
    → mem_id n (run_ids rs) ≡ true
    → mem_id n (run_ids (delete (λ r. mem_id r.id ids) rs)) ≡ true
mem_id-delete n ids [] out h = h
mem_id-delete n ids (r ∷ rs) out h =
    ground (arith, mem_id_congr r.id n ids, mem_id-delete n ids rs out)

module _ {A : Type 0} (key : A → ℕ) (ids : List ℕ) (rs : List Run) where
  delete-consistent :
      (xs : List A)
      → All (λ x. mem_id (key x) (run_ids rs) ≡ true) xs
      → All
          (λ x. mem_id (key x) (run_ids (delete (λ r. mem_id r.id ids) rs)) ≡ true)
          (delete (λ x. mem_id (key x) ids) xs)
  delete-consistent [] h = tt
  delete-consistent (x ∷ xs) h = elim (Bool-cases (mem_id (key x) ids)) [
    | inl gone ↦ rw gone (delete-consistent xs h.1)
    | inr kept ↦ rw kept (mem_id-delete (key x) ids rs kept h.0, delete-consistent xs h.1)
  ]

delete_runs-IsConsistent :
    (ids : List ℕ) (db : Db) → IsConsistent db → IsConsistent (delete_runs ids db)
unfolding delete_runs
delete_runs-IsConsistent ids db h = record {
  logs = delete-consistent (λ l. l.run_id) ids db.runs db.logs h.logs;
  locks = delete-consistent (λ l. l.run_id) ids db.runs db.locks h.locks;
  entries = delete-consistent (λ e. e.run_id) ids db.runs db.entries h.entries;
  reports = delete-consistent (λ r. r.run_id) ids db.runs db.reports h.reports;
  links = delete-consistent (λ l. l.run_id) ids db.runs db.links h.links;
}

purge_found-IsConsistent :
    (ids : List ℕ) (db : Db) (dirs : List ℕ)
    → IsConsistent db
    → IsConsistent (purge_found ids db dirs).db
unfolding purge_found
purge_found-IsConsistent [] db dirs h = h
purge_found-IsConsistent (i ∷ ids) db dirs h = delete_runs-IsConsistent (i ∷ ids) db h

-- The purge by age keeps every row's run in the table.
pub purge_old_runs-IsConsistent :
    (now retention_days : ℕ) (db : Db) (dirs : List ℕ)
    → IsConsistent db
    → IsConsistent (purge_old_runs now retention_days db dirs).db
unfolding purge_old_runs
purge_old_runs-IsConsistent now retention_days db dirs h =
    purge_found-IsConsistent (map (λ r. r.id) (select (is_expired now retention_days) db.runs)) db
      dirs h

prune_client-IsConsistent :
    (max_count cid : ℕ) (p : Purged)
    → IsConsistent p.db
    → IsConsistent (prune_client max_count cid p).db
unfolding prune_client
prune_client-IsConsistent max_count cid p h =
    elim (Bool-cases (leb (count (is_finished_of cid) p.db.runs) max_count)) [
      | inl few ↦ rw few h
      | inr many ↦ rw many (delete_runs-IsConsistent (excess_ids max_count cid p.db) p.db h)
    ]

prune_clients-IsConsistent :
    (max_count : ℕ) (cids : List ℕ) (p : Purged)
    → IsConsistent p.db
    → IsConsistent (prune_clients max_count cids p).db
unfolding prune_clients
prune_clients-IsConsistent max_count [] p h = h
prune_clients-IsConsistent max_count (cid ∷ cids) p h =
    prune_clients-IsConsistent max_count cids (prune_client max_count cid p)
      (prune_client-IsConsistent max_count cid p h)

-- The pruning by number keeps every row's run in the table.
pub prune_excess_reports-IsConsistent :
    (max_count : ℕ) (db : Db) (dirs : List ℕ)
    → IsConsistent db
    → IsConsistent (prune_excess_reports max_count db dirs).db
unfolding prune_excess_reports
prune_excess_reports-IsConsistent max_count db dirs h =
    prune_clients-IsConsistent max_count (client_ids db) (nothing db dirs) h
