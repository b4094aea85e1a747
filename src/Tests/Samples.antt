-- ===== src/Tests/Samples.antt =====
-- The inputs of the tests.
use distributed_verification.Prelude.{ℕ, Option, none, some, [], ◌∷◌, codes}
use distributed_verification.Model.{
  RunStatus, QueueStatus, Client, Resource, Run, ResourceLock, QueueEntry, ConfigTables, Db,
}
use distributed_verification.Runner.Processes.{Runtime}

abbrev pub ann : Client
ann = record {
  id = 1;
  client_key = codes "k1";
  name = codes "Ann";
  secret = codes "s";
  email = none;
  webhook_url = none;
}

abbrev pub board : Resource
board = record { id = 1; name = codes "board" }

abbrev pub make_run : ℕ → RunStatus → Option ℕ → Run
make_run id status resource_id = record {
  id = id;
  run_name = some (codes "RUN-20240101-001");
  client_id = 1;
  resource_id = resource_id;
  selected_tests = [];
  setup_config_id = none;
  setup_status = none;
  teardown_config_id = none;
  teardown_status = none;
  status = status;
  note = none;
  created_at = 10;
  started_at = none;
  finished_at = none;
}

abbrev pub lock_of : ℕ → ResourceLock
lock_of run_id = record { id = 20; resource_id = 1; run_id = run_id; released_at = none }

abbrev pub entry : ℕ → ℕ → ℕ → QueueEntry
entry id run_id position = record {
  id = id;
  resource_id = 1;
  run_id = run_id;
  client_id = 1;
  position = position;
  status = QueueStatus.waiting;
}

abbrev pub no_configs : ConfigTables
no_configs = record { configs = []; steps = [] }

-- Run 1 holds the board, and runs 2 and 3 wait for it.
abbrev pub contended : Db
contended = record {
  clients = ann ∷ [];
  resources = board ∷ [];
  runs =
      make_run 1 RunStatus.running (some 1)
      ∷ make_run 2 RunStatus.queued none
      ∷ make_run 3 RunStatus.queued none
      ∷ [];
  locks = lock_of 1 ∷ [];
  entries = entry 30 2 1 ∷ entry 31 3 2 ∷ [];
  logs = [];
  reports = [];
  links = [];
  setup = no_configs;
  teardown = no_configs;
  suites = [];
  next_id = 40;
}

-- The same, with the run that holds the board at its end.
abbrev pub stale_holder : Db
stale_holder = record contended {
  runs =
      make_run 1 RunStatus.completed (some 1)
      ∷ make_run 2 RunStatus.queued none
      ∷ make_run 3 RunStatus.queued none
      ∷ [];
}

-- Nobody holds the board.
abbrev pub unlocked_board : Db
unlocked_board = record contended { locks = [] }

abbrev pub quiet : Runtime
quiet = record { active = []; cancelled = [] }
