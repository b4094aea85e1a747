-- ===== src/Purge/Pass.antt =====
-- What one turn of the periodic purge leaves.
use distributed_verification.Prelude.{
  ℕ, ◌≤◌, ◌≡◌, inl, inr, Bool, true, not, List, [], ◌∷◌, map, Bool-cases, All, delete, count,
}
use distributed_verification.Model.{Db}
use distributed_verification.Runner.Processes.{mem_id}
use distributed_verification.Purge.{
  is_finished_of, purge_old_runs, prune_excess_reports, cleanup_orphaned_report_dirs, periodic_pass,
}
use distributed_verification.Purge.References.{
  IsConsistent, purge_old_runs-IsConsistent, prune_excess_reports-IsConsistent,
}
use distributed_verification.Purge.Limits.{prune_excess_reports-le}

delete-All : (p : ℕ → Bool) (ds : List ℕ) → All (λ d. p d ≡ true) (delete (λ d. not (p d)) ds)
delete-All p [] = tt
delete-All p (d ∷ ds) = elim (Bool-cases (p d)) [
  | inl e ↦ rw e (e, delete-All p ds)
  | inr e ↦ rw e (delete-All p ds)
]

-- If every row's run is in the table, the first turn of the periodic purge keeps it so, leaves no
-- client with more than `max_count` finished runs, and no report directory of a run that is gone.
pub periodic_pass_first :
    (now retention_days max_count : ℕ) (db : Db) (dirs : List ℕ)
    → IsConsistent db
    → let (again, after, kept) = periodic_pass now retention_days max_count true db dirs in
      IsConsistent after
      × ((cid : ℕ) → count (is_finished_of cid) after.runs ≤ max_count)
      × All (λ d. mem_id d (map (λ r. r.id) after.runs) ≡ true) kept
unfolding periodic_pass
periodic_pass_first now retention_days max_count db dirs h =
    let old = purge_old_runs now retention_days db dirs in
    let pruned = prune_excess_reports max_count old.db old.dirs in
    (
      prune_excess_reports-IsConsistent max_count old.db old.dirs
          (purge_old_runs-IsConsistent now retention_days db dirs h),
      prune_excess_reports-le max_count old.db old.dirs,
      unfold cleanup_orphaned_report_dirs in
          delete-All (λ d. mem_id d (map (λ r. r.id) pruned.db.runs)) pruned.dirs,
    )
