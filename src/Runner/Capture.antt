-- ===== src/Runner/Capture.antt =====
-- runner.py: capture_test_run. What the processes and the other tasks do while it waits is given as
-- a list of rounds of its loop. Not here: the environment and the command line of the processes but
-- their tests, the report files, and the notification at the end
-- (Notifications).
pub mod Ending
pub mod Status
pub mod Outcome
pub mod Logs
pub mod Over
use distributed_verification.Prelude.{
  ℕ, zero, suc, ◌+◌, ◌-◌, Bool, true, false, not, ◌&&◌, ◌||◌, Option, none, some, List, [], ◌∷◌,
  ◌++◌, map, Text, codes, text_eq, starts_with, ltb, ◌==◌, if◌then◌else◌, length, any, all, select,
  delete,
}
use distributed_verification.Model.{RunStatus, Run, LogEntry, Db}
use distributed_verification.Queue.{find_run, update_run}
use distributed_verification.Runner.Processes.{Exit, code, signal, ActiveRun, Runtime, mem_id}
use distributed_verification.Runner.Launches.{Launch, launches, missing_tests}
use distributed_verification.Runner.Lines.{Line, Current, log_level, drained_level, attribute_all}

-- What is new in a log entry of the run.
pub record Entry : Type 0 where
  pub level : Text
  pub source : Text
  pub message : Text

unfoldable pub add_log : ℕ → Option ℕ → Entry → Db → Db
add_log run_id client_id e db = record db {
  logs =
      db.logs
      ++ record {
        id = db.next_id;
        run_id = run_id;
        client_id = client_id;
        level = e.level;
        source = e.source;
        message = e.message;
      }
        ∷ [];
  next_id = suc db.next_id;
}

unfoldable pub add_logs : ℕ → Option ℕ → List Entry → Db → Db
unfolding add_log
add_logs run_id client_id [] db = db
add_logs run_id client_id (e ∷ es) db = add_logs run_id client_id es (add_log run_id client_id e db)

abbrev pub skipped_entry : Text → Entry
skipped_entry mf = record {
  level = codes "WARN";
  source = mf;
  message = codes "Skipped " ++ mf ++ codes " — file no longer exists";
}

abbrev pub line_entry : Line × Text → Entry
line_entry (l, source) = record { level = log_level l; source = source; message = l.text }

abbrev pub drained_entry : Line → Entry
drained_entry l = record { level = drained_level l; source = codes "session"; message = l.text }

-- One turn of the loop: what the other tasks did since the last one, the lines on the queue, the
-- tags of the processes that have ended, seen twice, whether the queue is empty then, and the time
-- that has passed.
pub record Round : Type 0 where
  pub meanwhile : Db × Runtime → Db × Runtime
  pub batch : List Line
  pub ended_first : List Text
  pub ended : List Text
  pub queue_empty : Bool
  pub elapsed : ℕ

-- The state of the loop: `completed` are the files whose reports were made.
pub record Loop : Type 0 where
  pub db : Db
  pub runtime : Runtime
  pub current : Current
  pub completed : List Text

abbrev pub mem_text : Text → List Text → Bool
mem_text t ts = any (λ u. text_eq u t) ts

-- `for proc, ... in processes: if tag not in completed_files and proc.poll() is not None`.
unfoldable pub report_files : List Text → List Text → List Text → List Text
report_files ended completed [] = completed
report_files ended completed (tag ∷ tags) =
    report_files ended
      (if mem_text tag ended && not (mem_text tag completed) then tag ∷ completed else completed)
      tags

abbrev pub is_nil {ℓ} : {A : Type ℓ} → List A → Bool
is_nil [] = true
is_nil (x ∷ xs) = false

-- `all_done and line_queue.empty() and not lines_batch`.
abbrev pub is_done : List Text → Round → Bool
is_done tags r = all (λ t. mem_text t r.ended) tags && r.queue_empty && is_nil r.batch

module _ (strip : Text → Text) (timeout : ℕ) (nids : List Text) (run_id : ℕ) (client_id : Option ℕ)
    (tags : List Text) where
  unfoldable pub run_round : Loop → Round → Loop
  unfolding attribute_all add_logs report_files
  run_round s r =
      let (db, runtime) = r.meanwhile (s.db, s.runtime) in
      let (lines, next) = attribute_all strip nids s.current r.batch in
      record {
        db = add_logs run_id client_id (map line_entry lines) db;
        runtime = runtime;
        current = next;
        completed = report_files r.ended_first s.completed tags;
      }

  -- The loop ends when all is done, or past the timeout; `none` if the rounds run out before.
  unfoldable pub capture_loop : List Round → Loop → Option Loop
  unfolding run_round
  capture_loop [] s = none
  capture_loop (r ∷ rs) s =
      let after = run_round s r in
      let rest = capture_loop rs after in
      if is_done tags r || ltb timeout r.elapsed then some after else rest

-- How the processes ended, by their tags; a process that was killed after the timeout has no
-- return code yet.
abbrev pub is_signal : Option Exit → Bool
is_signal none = false
is_signal (some (code n)) = false
is_signal (some (signal n)) = true

abbrev pub is_success : Option Exit → Bool
is_success none = false
is_success (some (code n)) = n == 0
is_success (some (signal n)) = false

abbrev pub is_cancelled : RunStatus → Bool
is_cancelled RunStatus.pending = false
is_cancelled RunStatus.queued = false
is_cancelled RunStatus.running = false
is_cancelled RunStatus.completed = false
is_cancelled RunStatus.failed = false
is_cancelled RunStatus.cancelled = true

-- The status at the end, from `cancelled`, `any_failed` and the status that is read again.
unfoldable pub final_status : Bool → Bool → RunStatus → RunStatus
final_status cancelled any_failed old =
    if cancelled
    then RunStatus.cancelled
    else (if is_cancelled old
        then old
        else (if any_failed then RunStatus.failed else RunStatus.completed))

abbrev pub was_cancelled : ℕ → List (Option Exit) → Runtime → Bool
was_cancelled run_id exits rt = mem_id run_id rt.cancelled || any is_signal exits

unfoldable pub finish_capture : ℕ → ℕ → List (Option Exit) → Db × Runtime → Db × Runtime
unfolding final_status
finish_capture now run_id exits (db, rt) = (
  update_run run_id
      (λ r. record r {
        status =
            final_status (was_cancelled run_id exits rt) (any (λ e. not (is_success e)) exits)
              r.status;
        finished_at = some now;
      })
      db,
  record {
    active = delete (λ a. a.run_id == run_id) rt.active;
    cancelled = delete (λ i. i == run_id) rt.cancelled;
  },
)

-- `_active_runs[run_id] = {...}`.
unfoldable pub register : ℕ → List Launch → Runtime → Runtime
register run_id ls rt = record rt {
  active =
      delete (λ a. a.run_id == run_id) rt.active
      ++ record { run_id = run_id; procs = map (λ l. record { tag = l.tag; returncode = none }) ls }
        ∷ [];
}

-- `if started_at is None`.
unfoldable pub begin_capture : ℕ → Run → Db → Db
begin_capture now run db = elim run.started_at [
  | some t ↦ db
  | none ↦
      update_run run.id (λ r. record r { started_at = some now; status = RunStatus.running }) db
]

-- What surrounds a capture: the disk, the order in which a set of the selected tests is iterated (each
-- of them once), the processes that can be started, the rounds of the loop, the
-- lines that come behind it, the ends of the processes, and the time of the end.
pub record Surroundings : Type 0 where
  pub exists : Text → Bool
  pub test_root : Text
  pub strip : Text → Text
  pub as_set : List Text → List Text
  pub timeout : ℕ
  pub starts : Text → Bool
  pub rounds : List Round
  pub drained : List Line
  pub exit_of : Text → Option Exit
  pub end_time : ℕ

-- A call returns, or raises an exception; either way the database and the registry are as given.
pub data Attempt : Type 0 where
  returned : Db × Runtime → Attempt
  raised : Db × Runtime → Attempt

module _ (env : Surroundings) where
  unfoldable pub after_loop : ℕ → Option ℕ → List Launch → Loop → Db × Runtime
  unfolding finish_capture add_logs
  after_loop run_id client_id ls s =
      finish_capture env.end_time run_id (map (λ l. env.exit_of l.tag) ls)
        (add_logs run_id client_id (map drained_entry env.drained) s.db, s.runtime)

  -- What comes before the processes are started.
  unfoldable pub before_loop : ℕ → Run → List Text → Db → Db
  unfolding add_logs missing_tests begin_capture
  before_loop now run selected_tests db =
      add_logs run.id (some run.client_id)
        (map skipped_entry (missing_tests env.exists selected_tests)) (begin_capture now run db)

  abbrev pub start_loop : Run → List Launch → Db × Runtime → Loop
  start_loop run ls (db, rt) = record {
    db = db;
    runtime = register run.id ls rt;
    current = [];
    completed = [];
  }

  unfoldable pub end_loop : Run → List Launch → Option Loop → Option Attempt
  unfolding after_loop
  end_loop run ls none = none
  end_loop run ls (some s) = some (returned (after_loop run.id (some run.client_id) ls s))

  unfoldable pub capture_with : ℕ → Run → List Text → List Launch → Db × Runtime → Option Attempt
  unfolding before_loop capture_loop end_loop register
  capture_with now run selected_tests ls (db, rt) =
      let begun = before_loop now run selected_tests db in
      if all (λ l. env.starts l.tag) ls
      then end_loop run ls (
          capture_loop env.strip env.timeout (env.as_set selected_tests) run.id (some run.client_id)
            (map (λ l. l.tag) ls) env.rounds (start_loop run ls (begun, rt)))
      else some (raised (begun, rt))

  unfoldable pub capture_test_run : ℕ → ℕ → List Text → Db × Runtime → Option Attempt
  unfolding launches capture_with
  capture_test_run now run_id selected_tests (db, rt) = elim (find_run run_id db) [
    | none ↦ some (returned (db, rt))
    | some run ↦
        capture_with now run selected_tests (launches env.exists env.test_root selected_tests)
          (db, rt)
  ]
