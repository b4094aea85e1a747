-- ===== src/Purge.antt =====
-- backend/app/services/purge.py: the retention of finished runs. The report directories on disk are
-- the list of the run ids that have one; `now` and the timestamps are seconds. The summary of
-- prune_excess_reports has the first and the last of the counts only.
pub mod References
pub mod Endpoint
pub mod Limits
pub mod Pass
use distributed_verification.Prelude.{
  ℕ, ◌+◌, ◌-◌, ◌*◌, Bool, true, false, not, ◌&&◌, List, [], ◌∷◌, map, ◌==◌, ltb, leb, if◌then◌else◌,
  length, take, select, delete, count, order_by,
}
use distributed_verification.Model.{Run, is_finished, Db}
use distributed_verification.Runner.Processes.{mem_id}

pub record Purged : Type 0 where
  pub purged_runs : ℕ
  pub purged_logs : ℕ
  pub purged_locks : ℕ
  pub purged_queue_entries : ℕ
  pub purged_dirs : ℕ
  pub db : Db
  pub dirs : List ℕ

-- The six DELETE statements: every row of a run in the list, and then the run.
unfoldable pub delete_runs : List ℕ → Db → Db
delete_runs ids db = record db {
  logs = delete (λ l. mem_id l.run_id ids) db.logs;
  locks = delete (λ l. mem_id l.run_id ids) db.locks;
  entries = delete (λ e. mem_id e.run_id ids) db.entries;
  reports = delete (λ r. mem_id r.run_id ids) db.reports;
  links = delete (λ l. mem_id l.run_id ids) db.links;
  runs = delete (λ r. mem_id r.id ids) db.runs;
}

-- The number of rows that `delete_runs` takes from the table of runs, and of directories removed.
abbrev pub deleted_runs : List ℕ → Db → ℕ
deleted_runs ids db = count (λ r. mem_id r.id ids) db.runs

-- `created_at < now - retention_days`, and finished.
abbrev pub is_expired : ℕ → ℕ → Run → Bool
is_expired now retention_days r =
    is_finished r.status && ltb r.created_at (now - retention_days * 86400)

purge_ids : List ℕ → Db → List ℕ → Purged
unfolding delete_runs
purge_ids ids db dirs = record {
  purged_runs = deleted_runs ids db;
  purged_logs = count (λ l. mem_id l.run_id ids) db.logs;
  purged_locks = count (λ l. mem_id l.run_id ids) db.locks;
  purged_queue_entries = count (λ e. mem_id e.run_id ids) db.entries;
  purged_dirs = count (λ d. mem_id d ids) dirs;
  db = delete_runs ids db;
  dirs = delete (λ d. mem_id d ids) dirs;
}

nothing : Db → List ℕ → Purged
nothing db dirs = record {
  purged_runs = 0;
  purged_logs = 0;
  purged_locks = 0;
  purged_queue_entries = 0;
  purged_dirs = 0;
  db = db;
  dirs = dirs;
}

-- `if not run_ids: return` with zeros.
unfoldable pub purge_found : List ℕ → Db → List ℕ → Purged
unfolding purge_ids nothing
purge_found [] db dirs = nothing db dirs
purge_found (i ∷ ids) db dirs = purge_ids (i ∷ ids) db dirs

unfoldable pub purge_old_runs : ℕ → ℕ → Db → List ℕ → Purged
unfolding purge_found
purge_old_runs now retention_days db dirs =
    purge_found (map (λ r. r.id) (select (is_expired now retention_days) db.runs)) db dirs

abbrev pub is_finished_of : ℕ → Run → Bool
is_finished_of cid r = r.client_id == cid && is_finished r.status

-- The oldest finished runs of a client, beyond the limit.
abbrev pub excess_ids : ℕ → ℕ → Db → List ℕ
excess_ids max_count cid db =
    map (λ r. r.id)
      (take (count (is_finished_of cid) db.runs - max_count)
        (order_by (λ r. r.created_at) (select (is_finished_of cid) db.runs)))

-- The body of the loop over the clients, after the counters so far.
unfoldable pub prune_client : ℕ → ℕ → Purged → Purged
unfolding order_by purge_ids
prune_client max_count cid p =
    if leb (count (is_finished_of cid) p.db.runs) max_count
    then p
    else (let more = purge_ids (excess_ids max_count cid p.db) p.db p.dirs in
        record more {
          purged_runs = p.purged_runs + more.purged_runs;
          purged_dirs = p.purged_dirs + more.purged_dirs;
        })

-- `GROUP BY client_id`: each client with a finished run once.
unfoldable pub distinct : List ℕ → List ℕ
distinct [] = []
distinct (n ∷ ns) = let rest = distinct ns in if mem_id n rest then rest else n ∷ rest

unfoldable pub client_ids : Db → List ℕ
unfolding distinct
client_ids db = distinct (map (λ r. r.client_id) (select (λ r. is_finished r.status) db.runs))

unfoldable pub prune_clients : ℕ → List ℕ → Purged → Purged
unfolding prune_client
prune_clients max_count [] p = p
prune_clients max_count (cid ∷ cids) p = prune_clients max_count cids (prune_client max_count cid p)

unfoldable pub prune_excess_reports : ℕ → Db → List ℕ → Purged
unfolding client_ids prune_clients nothing
prune_excess_reports max_count db dirs = prune_clients max_count (client_ids db) (nothing db dirs)

-- The directories of runs that are not in the table; a directory whose name is no number stays, and
-- is not in the list.
unfoldable pub cleanup_orphaned_report_dirs : Db → List ℕ → ℕ × List ℕ
cleanup_orphaned_report_dirs db dirs =
    let valid_ids = map (λ r. r.id) db.runs in
    (count (λ d. not (mem_id d valid_ids)) dirs, delete (λ d. not (mem_id d valid_ids)) dirs)

-- One turn of the loop in `periodic_purge`; the result has `first_run` for the next one.
unfoldable pub periodic_pass : ℕ → ℕ → ℕ → Bool → Db → List ℕ → Bool × Db × List ℕ
unfolding purge_old_runs prune_excess_reports cleanup_orphaned_report_dirs
periodic_pass now retention_days max_count first_run db dirs =
    let old = purge_old_runs now retention_days db dirs in
    let pruned = prune_excess_reports max_count old.db old.dirs in
    let kept =
      if first_run then (cleanup_orphaned_report_dirs pruned.db pruned.dirs).1 else pruned.dirs in
    (false, pruned.db, kept)
