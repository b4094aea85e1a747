-- ===== src/Tests/CaptureTests.antt =====
-- The theorems on the capture of test runs and on their tasks at small inputs.
use distributed_verification.Prelude.{
  count, Any, ◌==◌, ◌≡◌, refl, ℕ, true, false, Option, none, some, List, [], ◌∷◌, ◌++◌, map, Text,
  codes, text_eq, select,
}
use distributed_verification.Model.{RunStatus, Run, Db}
use distributed_verification.Access.{Result, ok, raise}
use distributed_verification.Queue.{find_run}
use distributed_verification.Runner.Processes.{code, signal, Runtime, procs_of}
use distributed_verification.Runner.Steps.{timed_out}
use distributed_verification.Runner.Lines.{Line, attribute_all}
use distributed_verification.Runner.Lines.Groups.{attribute_all_alone}
use distributed_verification.Runner.Launches.{launches}
use distributed_verification.Runner.Capture.{
  Surroundings, Attempt, returned, raised, finish_capture, capture_test_run,
}
use distributed_verification.Runner.Capture.Ending.{capture_test_run_ends}
use distributed_verification.Runner.Capture.Outcome.{HasOutcome, finish_capture-HasOutcome}
use distributed_verification.Runner.Capture.Logs.{
  messages_of, consumed, messages_of-capture_test_run,
}
use distributed_verification.Runner.Capture.Over.{IsOver}
use distributed_verification.Runs.{RunCreate, create_run}
use distributed_verification.Runs.Selection.{create_run_of_missing}
use distributed_verification.Runner.CliCapture.{CliSurroundings}
use distributed_verification.Runs.Task.{TaskWorld, task_body}
use distributed_verification.Runs.Task.Finish.{task_body-IsOver}
use distributed_verification.Tests.Samples.{make_run, contended, quiet}

abbrev line : Text → Text → Line
line tag text = record { level = codes "INFO"; text = text; tag = tag }

-- The first round reads a line, and the second one comes after the timeout.
abbrev disk : Surroundings
disk = record {
  exists = λ f. true;
  test_root = codes "tests";
  strip = λ t. t;
  as_set = λ ts. ts;
  timeout = 5;
  starts = λ t. true;
  rounds =
      record {
        meanwhile = λ w. w;
        batch = line (codes "all") (codes "t1 PASSED") ∷ [];
        ended_first = [];
        ended = [];
        queue_empty = true;
        elapsed = 1;
      }
      ∷ record {
        meanwhile = λ w. w;
        batch = [];
        ended_first = [];
        ended = [];
        queue_empty = true;
        elapsed = 6;
      }
      ∷ [];
  drained = [];
  exit_of = λ t. some (code 0);
  end_time = 90;
}

capture_test_run_ends_example :
    (result : Attempt) × (capture_test_run disk 60 1 [] (contended, quiet) ≡ some result)
capture_test_run_ends_example = capture_test_run_ends disk 60 1 [] (contended, quiet) refl

attribute_all_alone_example :
    let ls = line (codes "a") (codes "t1") ∷ line (codes "b") (codes "x") ∷ [] in
    let nids = codes "t1" ∷ [] in
    select (λ p. text_eq p.0.tag (codes "b")) (attribute_all (λ t. t) nids [] ls).0
    ≡ (attribute_all (λ t. t) nids [] (select (λ l. text_eq l.tag (codes "b")) ls)).0
attribute_all_alone_example =
    attribute_all_alone (λ t. t) (codes "t1" ∷ []) (codes "b")
      (line (codes "a") (codes "t1") ∷ line (codes "b") (codes "x") ∷ []) [] [] refl

abbrev world : TaskWorld
world = record {
  outcome = λ s. timed_out;
  capture = disk;
  setup_time = 55;
  release_time = 95;
  max_report_count = 100;
  report_dirs = [];
}

task_body-IsOver_example :
    (after : Db × Runtime) × (task_body world 60
        (make_run 1 RunStatus.running (some 1))
        (contended, quiet)
      ≡ some after)
    × IsOver 1 after.0
task_body-IsOver_example =
    task_body-IsOver world 60 (make_run 1 RunStatus.running (some 1)) contended quiet refl
      ((λ w h. h), ((λ w h. h), tt)) refl

abbrev result_of : Option Attempt → Db × Runtime
result_of none = (contended, quiet)
result_of (some (returned w)) = w
result_of (some (raised w)) = w

-- What the capture of run 1 leaves.
finished : Db × Runtime
unfolding capture_test_run
finished = result_of (capture_test_run disk 60 1 [] (contended, quiet))

finished_lem : capture_test_run disk 60 1 [] (contended, quiet) ≡ some (returned finished)
unfolding finished
finished_lem = refl

messages_of-capture_test_run_example :
    let tags = map (λ l. l.tag) (launches (λ f. true) (codes "tests") []) in
    (missing : List Text) × ((t : Text) → count (text_eq t) missing ≡ 0)
    × (messages_of 1 finished.0
        ≡ messages_of 1 contended
          ++ (map (λ t. codes "Skipped " ++ t ++ codes " — file no longer exists") missing
              ++ (map (λ l. l.text) (consumed 5 tags disk.rounds) ++ [])))
messages_of-capture_test_run_example =
    messages_of-capture_test_run disk 60 1 [] contended quiet
      (make_run 1 RunStatus.running (some 1)) finished refl ((λ w. refl), ((λ w. refl), tt))
      finished_lem

finish_capture-HasOutcome_example :
    let exits = some (code 0) ∷ some (signal 9) ∷ [] in
    let run = make_run 1 RunStatus.running (some 1) in
    let (after, rt') = finish_capture 90 1 exits (contended, quiet) in
    (status : RunStatus) × HasOutcome 1 exits quiet run status
    × (find_run 1 after ≡ some (record run { status = status; finished_at = some 90 }))
    × (procs_of 1 rt' ≡ [])
    × ¬ Any (λ i. i ≡ 1) rt'.cancelled
finish_capture-HasOutcome_example =
    finish_capture-HasOutcome 90 1 (some (code 0) ∷ some (signal 9) ∷ []) contended quiet
      (make_run 1 RunStatus.running (some 1)) refl

-- The request for a test whose file is gone.
abbrev vanished : RunCreate
vanished = record {
  client_key = codes "k1";
  suite_ids = [];
  selected_tests = codes "old.py::t" ∷ [];
  resource_name = none;
  setup_config_id = none;
  teardown_config_id = none;
}

abbrev outcome_of : Result (ℕ × List ℕ × Db) → ℕ × List ℕ × Db
outcome_of (ok x) = x
outcome_of (raise e) = (0, [], contended)

made : ℕ × List ℕ × Db
unfolding create_run
made = outcome_of (create_run 60 (codes "20240101") (λ f. false) vanished contended)

made_lem : create_run 60 (codes "20240101") (λ f. false) vanished contended ≡ ok made
unfolding made
made_lem = refl

create_run_of_missing_example :
    (run : Run) × (find_run made.0 made.2 ≡ some run)
    × (launches (λ f. false) (codes "tests") run.selected_tests
        ≡ record { tag = codes "all"; targets = codes "tests" ∷ []; key = codes "all" } ∷ [])
create_run_of_missing_example =
    create_run_of_missing 60 (codes "20240101") (λ f. false) (codes "tests") vanished contended
      made.2 made.0 made.1 refl refl made_lem

abbrev terminal : CliSurroundings
terminal = record {
  split = λ t. some (t ∷ []);
  strip = λ t. t;
  lower = λ t. t;
  executable = codes "python3";
  is_space = λ c. c == 32;
  timeout = 5;
  starts = λ args. true;
  rounds = disk.rounds;
  drained = [];
  exit = some (code 1);
  end_time = 90;
}
