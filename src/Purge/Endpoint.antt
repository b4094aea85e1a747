-- ===== src/Purge/Endpoint.antt =====
-- backend/app/api/routes.py: purge_old_data, by which an administrator starts the retention.
use distributed_verification.Prelude.{ℕ, suc, zero, List, Text, ℤ, pos, negsuc}
use distributed_verification.Model.{Db}
use distributed_verification.Access.{Result, raise, ok, bad_request, ◌>>=◌, ◌>>◌, verify_admin}
use distributed_verification.Purge.{Purged, purge_old_runs, prune_excess_reports}

-- `if n < 1: raise HTTPException(status_code=400)`.
abbrev pub at_least_one : ℤ → Result ℕ
at_least_one (pos zero) = raise bad_request
at_least_one (pos (suc n)) = ok (suc n)
at_least_one (negsuc n) = raise bad_request

-- The counts of both parts; the second has the database behind them.
unfoldable pub purge_old_data : Text → Text → ℕ → ℤ → ℤ → Db → List ℕ → Result (Purged × Purged)
unfolding verify_admin purge_old_runs prune_excess_reports
purge_old_data admin_key header now retention_days max_reports db dirs = do
  verify_admin admin_key header
  days ← at_least_one retention_days
  limit ← at_least_one max_reports
  let old = purge_old_runs now days db dirs
  ok (old, prune_excess_reports limit old.db old.dirs)
