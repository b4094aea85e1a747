-- ===== src/Model.antt =====
-- backend/app/models.py: the tables that the services read and write, one record per ORM class.
-- A text column is the list of its code points, a timestamp a number of seconds, and the status
-- strings are enumerations. Columns that no modelled operation reads are left out.
use distributed_verification.Prelude.{ℕ, Bool, true, false, Option, List, Text, ◌==◌}

-- Run.status.
pub data RunStatus : Type 0 where
  pending queued running completed failed cancelled : RunStatus

-- Run.setup_status and Run.teardown_status.
pub data PhaseStatus : Type 0 where
  pending running passed failed skipped : PhaseStatus

-- QueueEntry.status.
pub data QueueStatus : Type 0 where
  waiting running : QueueStatus

pub record Client : Type 0 where
  pub id : ℕ
  pub client_key : Text
  pub name : Text
  pub secret : Text
  pub email : Option Text
  pub webhook_url : Option Text

pub record Resource : Type 0 where
  pub id : ℕ
  pub name : Text

pub record Run : Type 0 where
  pub id : ℕ
  pub run_name : Option Text
  pub client_id : ℕ
  pub resource_id : Option ℕ
  pub selected_tests : List Text
  pub setup_config_id : Option ℕ
  pub setup_status : Option PhaseStatus
  pub teardown_config_id : Option ℕ
  pub teardown_status : Option PhaseStatus
  pub status : RunStatus
  pub note : Option Text
  pub created_at : ℕ
  pub started_at : Option ℕ
  pub finished_at : Option ℕ

pub record ResourceLock : Type 0 where
  pub id : ℕ
  pub resource_id : ℕ
  pub run_id : ℕ
  pub released_at : Option ℕ

pub record QueueEntry : Type 0 where
  pub id : ℕ
  pub resource_id : ℕ
  pub run_id : ℕ
  pub client_id : ℕ
  pub position : ℕ
  pub status : QueueStatus

pub record LogEntry : Type 0 where
  pub id : ℕ
  pub run_id : ℕ
  pub client_id : Option ℕ
  pub level : Text
  pub source : Text
  pub message : Text

pub record ReportData : Type 0 where
  pub run_id : ℕ
  pub report_type : Text
  pub content : Text

pub record RunSuiteLink : Type 0 where
  pub run_id : ℕ
  pub suite_id : Text

-- SetupStep.on_failure and TeardownStep.on_failure: any other text acts as "continue".
pub data OnFailure : Type 0 where
  fail skip continue : OnFailure

-- The columns of a row of either table of steps that say what it does.
pub record Step : Type 0 where
  pub name : Text
  pub step_type : Text
  pub command : Text
  pub timeout : ℕ
  pub order : ℕ
  pub on_failure : OnFailure
  pub env_vars : Option (List (Text × Text))

pub record StepRow : Type 0 where
  pub id : ℕ
  pub config_id : ℕ
  pub step : Step

pub record ConfigRow : Type 0 where
  pub id : ℕ
  pub name : Text
  pub description : Text

-- SetupConfiguration with SetupStep, or TeardownConfiguration with TeardownStep.
pub record ConfigTables : Type 0 where
  pub configs : List ConfigRow
  pub steps : List StepRow

pub record CustomSuite : Type 0 where
  pub id : ℕ
  pub name : Text
  pub description : Text
  pub tests : List Text
  pub tags : List Text
  pub created_at : ℕ

-- The database: its tables in the order of insertion. `next_id` stands for the autoincremented
-- primary keys, one counter for all tables.
pub record Db : Type 0 where
  pub clients : List Client
  pub resources : List Resource
  pub runs : List Run
  pub locks : List ResourceLock
  pub entries : List QueueEntry
  pub logs : List LogEntry
  pub reports : List ReportData
  pub links : List RunSuiteLink
  pub setup : ConfigTables
  pub teardown : ConfigTables
  pub suites : List CustomSuite
  pub next_id : ℕ

-- `status in ("completed", "failed", "cancelled")`.
abbrev pub is_finished : RunStatus → Bool
is_finished RunStatus.pending = false
is_finished RunStatus.queued = false
is_finished RunStatus.running = false
is_finished RunStatus.completed = true
is_finished RunStatus.failed = true
is_finished RunStatus.cancelled = true

-- `id == column` for a nullable foreign key.
abbrev pub is_id : ℕ → Option ℕ → Bool
is_id n Option.none = false
is_id n (Option.some m) = n == m
