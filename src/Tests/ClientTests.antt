-- ===== src/Tests/ClientTests.antt =====
-- The theorems on the names of runs, the command line client, uploads, the limit on requests and
-- notifications at small inputs.
use distributed_verification.Prelude.{
  ◌++◌, select, delete, ℕ, ◌≡◌, refl, true, false, Option, none, some, List, [], ◌∷◌, Text, codes,
  take,
}
use distributed_verification.Model.{RunStatus, Db, Run, Client}
use distributed_verification.Access.{Result, raise, ok}
use distributed_verification.Runs.{create_run, new_run, add_run}
use distributed_verification.Runs.Names.{IsNumbered, new_run-IsNumbered, generate_run_name_repeats}
use distributed_verification.Runs.Naming.{pad3, named_today, generate_run_name}
use distributed_verification.Purge.{delete_runs}
use distributed_verification.Runner.Processes.{mem_id}
use distributed_verification.CommandLine.{CreateOptions, selected_tests, payload_of, run_create}
use distributed_verification.CommandLine.Waiting.{run_create_aborts}
use distributed_verification.Reports.Endpoints.Results.{ends_with}
use distributed_verification.Upload.Endpoints.{
  UploadFile, TestFile, dir_of, upload_out, upload_tests,
}
use distributed_verification.Upload.Ids.{upload_tests_again}
use distributed_verification.Tests.Samples.{ann, make_run, contended}

-- The client creates a run of two tests on the board that is taken, and waits for it.
abbrev on_board : CreateOptions
on_board = record {
  client_key = codes "k1";
  suite = none;
  test_list = some (codes "a.py::x,b.py::y");
  resource = some (codes "board");
  wait = true;
}

abbrev two_tests : List Text
two_tests = codes "a.py::x" ∷ codes "b.py::y" ∷ []

abbrev outcome_of : Result (ℕ × List ℕ × Db) → ℕ × List ℕ × Db
outcome_of (ok made) = made
outcome_of (raise e) = (0, [], contended)

queued_run : ℕ × List ℕ × Db
unfolding create_run
queued_run = outcome_of (
    create_run 60 (codes "20240101") (λ f. true) (payload_of (λ t. t) two_tests on_board) contended)

queued_run_lem :
    create_run 60 (codes "20240101") (λ f. true) (payload_of (λ t. t) two_tests on_board) contended
    ≡ ok queued_run
unfolding queued_run
queued_run_lem = refl

chosen_tests : selected_tests (λ t. t) [] on_board ≡ some two_tests
unfolding selected_tests
chosen_tests = refl

run_create_aborts_example :
    run_create (λ t. t) 60 (codes "20240101") (λ f. true) [] on_board [] contended
    ≡ (none, queued_run.2)
run_create_aborts_example =
    run_create_aborts (λ t. t) 60 (codes "20240101") (λ f. true) [] on_board [] contended
      queued_run.2 two_tests queued_run.0 queued_run.1 chosen_tests queued_run_lem

-- An archive with one file, first uploaded as a.zip and then as b.zip.
abbrev upload_of : Text → UploadFile
upload_of name = record {
  filename = some name;
  contents = 80 ∷ 75 ∷ [];
  archive = some (record { filename = codes "test_a.py"; file_size = 2 } ∷ []);
}

abbrev hash_text : Text → Text
hash_text contents = codes "0f"

abbrev one_file : List Text → Text → List TestFile
one_file written folder = record { relative = codes "test_a.py"; source = none } ∷ []

first_upload :
    upload_tests
      (λ c. false)
      (λ c. true)
      hash_text
      (λ t. take 1 t)
      (λ d infos. [])
      100
      (λ client. [])
      one_file
      (codes "k1")
      (upload_of (codes "a.zip"))
      contended
    ≡ ok
        (upload_out (λ c. false) ann (codes "a_0f") (one_file [] (dir_of ann (codes "a_0f"))) false)
unfolding upload_tests
first_upload = refl

upload_tests_again_example :
    (second : Text) × (upload_tests
        (λ c. false)
        (λ c. true)
        hash_text
        (λ t. take 1 t)
        (λ d infos. [])
        100
        (λ client. codes "a_0f" ∷ [])
        one_file
        (codes "k1")
        (upload_of (codes "b.zip"))
        contended
      ≡ ok (upload_out (λ c. false) ann second (one_file [] (dir_of ann second)) true))
    × (ends_with (codes "_0f") second ≡ true)
unfolding ends_with
upload_tests_again_example =
    upload_tests_again (λ c. false) (λ c. true) hash_text (λ t. take 1 t) (λ d infos. []) 100
      (λ client. []) (λ client. codes "a_0f" ∷ []) one_file one_file (codes "k1")
      (upload_of (codes "a.zip")) (upload_of (codes "b.zip")) contended ann
      (upload_out (λ c. false) ann (codes "a_0f") (one_file [] (dir_of ann (codes "a_0f"))) false)
      refl first_upload refl refl refl

abbrev no_time : Option ℕ → Text
no_time time = codes "None"

abbrev reachable_ann : Client
reachable_ann = record ann {
  email = some (codes "ann@example.org");
  webhook_url = some (codes "http://ann");
}

abbrev reachable : Db
reachable = record contended { clients = reachable_ann ∷ [] }

-- One run of the day, and then a second one.
abbrev one_run : Db
one_run = record contended { runs = make_run 1 RunStatus.completed none ∷ [] }

abbrev second_run : Db → Run
second_run db = new_run 60 (codes "20240101") ann [] none none none db

one_run-IsNumbered :
    IsNumbered (codes "20240101") 1 (select (named_today (codes "20240101") 1) one_run.runs)
unfolding pad3
one_run-IsNumbered = (refl, tt)

new_run-IsNumbered_example :
    IsNumbered
      (codes "20240101")
      1
      (select (named_today (codes "20240101") 1) (add_run (second_run one_run) one_run).runs)
new_run-IsNumbered_example =
    new_run-IsNumbered 60 (codes "20240101") ann [] none none none one_run 1 one_run-IsNumbered

-- The first of two runs is deleted.
generate_run_name_repeats_example :
    ((delete_runs (1 ∷ []) (add_run (second_run one_run) one_run)).runs
      ≡ delete (λ (r : Run). mem_id r.id (1 ∷ [])) one_run.runs ++ second_run one_run ∷ [])
    × ((second_run one_run).run_name
        ≡ some (
            generate_run_name
              (codes "20240101")
              ann.id
              (delete_runs (1 ∷ []) (add_run (second_run one_run) one_run))))
generate_run_name_repeats_example =
    generate_run_name_repeats 60 (codes "20240101") ann [] none none none one_run (1 ∷ []) refl refl
