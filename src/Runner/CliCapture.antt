-- ===== src/Runner/CliCapture.antt =====
-- runner.py: capture_cli_run, which runs one command as the process "cli". What happens while it
-- waits is given as rounds, as in Capture. Parameters: `shlex.split`, which is `none` where it
-- raises, `str.strip`, `str.lower`, `sys.executable`, and the blanks of regular expressions. Not
-- here: the report files, and the notification at the end.
use distributed_verification.Prelude.{
  ℕ, zero, suc, Bool, false, not, ◌&&◌, ◌||◌, Option, none, some, List, [], ◌∷◌, ◌++◌, Text, codes,
  starts_with, contains, ltb, ◌==◌, if◌then◌else◌, length, any, select, delete, first, get_or, put,
}
use distributed_verification.Model.{RunStatus, Run, Db}
use distributed_verification.Queue.{find_run, update_run}
use distributed_verification.Runs.{truthy_text}
use distributed_verification.Runner.Processes.{Exit, code, signal, Runtime}
use distributed_verification.Runner.Lines.{
  Line, drained_level, header_name, last_part_from, is_separator,
}
use distributed_verification.Runner.Capture.{
  Entry, add_logs, mem_text, is_nil, Round, is_done, register, begin_capture, Attempt, returned,
  raised,
}
use distributed_verification.Runner.Commands.{complete_args, is_pytest_command}

-- `current_test`, `discovered_nodeids` and `_cli_func_to_nodeid`.
pub record Detected : Type 0 where
  pub current : Option Text
  pub discovered : List Text
  pub index : List (Text × Option Text)

abbrev pub nothing_detected : Detected
nothing_detected = record { current = none; discovered = []; index = [] }

-- Whether ".py::" with something behind it stands in the text.
abbrev pub names_test : Text → Bool
names_test [] = false
names_test (c ∷ t) = starts_with (codes ".py::") (c ∷ t) && ltb 5 (length (c ∷ t)) || names_test t

abbrev pub is_nodeid : Text → Bool
is_nodeid [] = false
is_nodeid (c ∷ t) = names_test t

abbrev pub starts_with_result : Text → Bool
starts_with_result t =
    any (λ w. starts_with w t)
      (codes "PASSED" ∷ codes "FAILED" ∷ codes "ERROR" ∷ codes "SKIPPED" ∷ [])

module _ (is_space : ℕ → Bool) where
  -- The first word of a line, and what is behind it.
  unfoldable pub first_word : Text → Text × Text
  first_word [] = ([], [])
  first_word (c ∷ t) =
      let (word, rest) = first_word t in if is_space c then ([], c ∷ t) else (c ∷ word, rest)

  unfoldable pub skip_spaces : Text → Text
  skip_spaces [] = []
  skip_spaces (c ∷ t) = let rest = skip_spaces t in if is_space c then rest else c ∷ t

  -- `^(\S+\.py::\S+)\s+(PASSED|FAILED|ERROR|SKIPPED)`: the first word, which ends at a blank.
  unfoldable pub nodeid_match : Text → Option Text
  unfolding first_word skip_spaces
  nodeid_match line =
      let (word, rest) = first_word line in
      if is_nodeid word && starts_with_result (skip_spaces rest) then some word else none

-- A test that is seen: it is noted if it is new.
unfoldable pub discover : Text → Detected → Detected
unfolding put last_part_from
discover nid d = if mem_text nid d.discovered then record d { current = some nid } else record {
  current = some nid;
  discovered = d.discovered ++ nid ∷ [];
  index = put (last_part_from [] 0 nid) (some nid) d.index;
}

-- The test of a section header.
unfoldable pub header_test : Option Text → Detected → Option Text
unfolding get_or
header_test none d = none
header_test (some name) d = elim (get_or none name d.index) [
  | some nid ↦ some nid
  | none ↦ first (select (λ nid. contains name nid) d.discovered)
]

unfoldable pub keep_source : Text → Option Text → Detected → Text × Detected
keep_source line none d =
    (codes "cli", if starts_with (codes "===") line then record d { current = none } else d)
keep_source line (some test) d =
    if is_separator line
    then (codes "cli", if starts_with (codes "===") line then record d { current = none } else d)
    else (test, d)

module _ (strip : Text → Text) (is_space : ℕ → Bool) where
  unfoldable pub detect_source : Text → Detected → Text × Detected
  unfolding nodeid_match discover header_name header_test keep_source
  detect_source line d = elim (nodeid_match is_space line) [
    | some nid ↦ (nid, discover nid d)
    | none ↦ elim (header_test (header_name (strip line)) d) [
      | some nid ↦ (nid, record d { current = some nid })
      | none ↦ keep_source line (truthy_text d.current) d
    ]
  ]

  -- The log entries of a batch; for another program than pytest the source is always "cli".
  unfoldable pub cli_entries : Bool → List Line → Detected → List Entry × Detected
  unfolding detect_source
  cli_entries is_pytest [] d = ([], d)
  cli_entries is_pytest (l ∷ ls) d =
      let (source, next) = if is_pytest then detect_source l.text d else (codes "cli", d) in
      let rest = cli_entries is_pytest ls next in
      (record { level = drained_level l; source = source; message = l.text } ∷ rest.0, rest.1)

-- `if is_pytest and discovered_nodeids and len(discovered_nodeids) != len(run.selected_tests or [])`.
unfoldable pub note_progress : Bool → ℕ → Detected → Db → Db
note_progress is_pytest run_id d db =
    if is_pytest && not (is_nil d.discovered)
    then update_run run_id
        (λ r.
          if length d.discovered == length r.selected_tests
          then r
          else record r { selected_tests = d.discovered })
        db
    else db

pub record CliLoop : Type 0 where
  pub db : Db
  pub runtime : Runtime
  pub detected : Detected

module _ (strip : Text → Text) (is_space : ℕ → Bool) (timeout : ℕ) (is_pytest : Bool) (run_id : ℕ)
    (client_id : Option ℕ) where
  unfoldable pub cli_round : CliLoop → Round → CliLoop
  unfolding cli_entries add_logs note_progress
  cli_round s r =
      let (db, runtime) = r.meanwhile (s.db, s.runtime) in
      let (entries, next) = cli_entries strip is_space is_pytest r.batch s.detected in
      record {
        db = note_progress is_pytest run_id next (add_logs run_id client_id entries db);
        runtime = runtime;
        detected = next;
      }

  unfoldable pub cli_loop : List Round → CliLoop → Option CliLoop
  unfolding cli_round
  cli_loop [] s = none
  cli_loop (r ∷ rs) s =
      let after = cli_round s r in
      let rest = cli_loop rs after in
      if is_done (codes "cli" ∷ []) r || ltb timeout r.elapsed then some after else rest

-- From the return code; a process that was killed after the timeout has none yet.
abbrev pub cli_status : Option Exit → RunStatus
cli_status none = RunStatus.failed
cli_status (some (code zero)) = RunStatus.completed
cli_status (some (code (suc n))) = RunStatus.failed
cli_status (some (signal n)) = RunStatus.cancelled

unfoldable pub finish_cli : ℕ → ℕ → Bool → List Text → Option Exit → Db × Runtime → Db × Runtime
finish_cli now run_id is_pytest discovered exit (db, rt) = (
  update_run run_id
      (λ r. record r {
        selected_tests =
            if is_pytest && not (is_nil discovered) then discovered else r.selected_tests;
        status = cli_status exit;
        finished_at = some now;
      })
      db,
  record rt { active = delete (λ a. a.run_id == run_id) rt.active },
)

-- What surrounds the capture of a command.
pub record CliSurroundings : Type 0 where
  pub split : Text → Option (List Text)
  pub strip : Text → Text
  pub lower : Text → Text
  pub executable : Text
  pub is_space : ℕ → Bool
  pub timeout : ℕ
  pub starts : List Text → Bool
  pub rounds : List Round
  pub drained : List Line
  pub exit : Option Exit
  pub end_time : ℕ

module _ (env : CliSurroundings) where
  unfoldable pub after_cli_loop : Bool → Run → CliLoop → Db × Runtime
  unfolding cli_entries add_logs finish_cli
  after_cli_loop is_pytest run s =
      let (entries, next) = cli_entries env.strip env.is_space is_pytest env.drained s.detected in
      finish_cli env.end_time run.id is_pytest next.discovered env.exit
        (add_logs run.id (some run.client_id) entries s.db, s.runtime)

  unfoldable pub end_cli_loop : Bool → Run → Option CliLoop → Option Attempt
  unfolding after_cli_loop
  end_cli_loop is_pytest run none = none
  end_cli_loop is_pytest run (some s) = some (returned (after_cli_loop is_pytest run s))

  unfoldable pub run_command : Run → List Text → Db × Runtime → Option Attempt
  unfolding is_pytest_command cli_loop end_cli_loop register
  run_command run args (db, rt) =
      let is_pytest = is_pytest_command env.executable env.lower args in
      let started =
        register run.id (record { tag = codes "cli"; targets = args; key = codes "cli" } ∷ []) rt in
      if env.starts args
      then end_cli_loop is_pytest run (
          cli_loop env.strip env.is_space env.timeout is_pytest run.id (some run.client_id)
            env.rounds (record { db = db; runtime = started; detected = nothing_detected }))
      else some (raised (db, rt))

  unfoldable pub capture_cli_run : ℕ → ℕ → Text → Db × Runtime → Option Attempt
  unfolding begin_capture complete_args run_command
  capture_cli_run now run_id command (db, rt) = elim (find_run run_id db) [
    | none ↦ some (returned (db, rt))
    | some run ↦
        let begun = begin_capture now run db in
        elim (env.split command) [
          | none ↦ some (raised (begun, rt))
          | some args ↦ run_command run (complete_args env.executable args) (begun, rt)
        ]
  ]
