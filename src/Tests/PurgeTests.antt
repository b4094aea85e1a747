-- ===== src/Tests/PurgeTests.antt =====
-- The theorems on the retention of runs, the clean-ups and the steps, at small inputs.
use distributed_verification.Prelude.{
  ℕ, ◌≤◌, ◌≡◌, refl, true, none, some, [], ◌∷◌, All, count, map, codes, order_by,
}
use distributed_verification.Model.{Step, OnFailure, RunStatus, Db}
use distributed_verification.Purge.{prune_excess_reports, is_finished_of, periodic_pass}
use distributed_verification.Purge.References.{IsConsistent}
use distributed_verification.Runner.Processes.{mem_id}
use distributed_verification.Purge.Pass.{periodic_pass_first}
use distributed_verification.Runner.Steps.{Configuration, Outcome, timed_out}
use distributed_verification.Runner.Steps.Order.{until_fatal}
use distributed_verification.Tests.Samples.{make_run, contended}

-- Three finished runs and one that runs; the report directories of three of them.
abbrev archive : Db
archive = record contended {
  runs =
      make_run 1 RunStatus.running (some 1)
      ∷ make_run 2 RunStatus.completed none
      ∷ make_run 3 RunStatus.failed none
      ∷ make_run 4 RunStatus.cancelled none
      ∷ [];
}

archive-IsConsistent : IsConsistent archive
archive-IsConsistent = record {
  logs = tt;
  locks = (refl, tt);
  entries = (refl, (refl, tt));
  reports = tt;
  links = tt;
}

periodic_pass_first_example :
    let (again, after, kept) = periodic_pass 1000000 2 1 true archive (3 ∷ 9 ∷ []) in
    IsConsistent after
    × ((cid : ℕ) → count (is_finished_of cid) after.runs ≤ 1)
    × All (λ d. mem_id d (map (λ r. r.id) after.runs) ≡ true) kept
periodic_pass_first_example =
    periodic_pass_first 1000000 2 1 archive (3 ∷ 9 ∷ []) archive-IsConsistent

-- Two of the three finished runs are deleted, and one report directory of them.
pruned_runs : (prune_excess_reports 1 archive (3 ∷ 4 ∷ [])).purged_runs ≡ 2
unfolding prune_excess_reports
pruned_runs = refl

-- A configuration whose second step fails and breaks off.
abbrev make_step : ℕ → OnFailure → Step
make_step order on_failure = record {
  name = codes "step";
  step_type = codes "command";
  command = codes "make";
  timeout = 60;
  order = order;
  on_failure = on_failure;
  env_vars = none;
}

abbrev config : Configuration
config = record {
  id = 5;
  name = codes "bench";
  steps =
      make_step 2 OnFailure.fail ∷ make_step 1 OnFailure.continue ∷ make_step 3 OnFailure.fail ∷ [];
}

-- Every step times out.
abbrev hanging : Step → Outcome
hanging s = timed_out

-- The third step is not started.
broken_off :
    until_fatal hanging (order_by (λ (s : Step). s.order) config.steps)
    ≡ make_step 1 OnFailure.continue ∷ make_step 2 OnFailure.fail ∷ []
unfolding order_by
broken_off = refl
