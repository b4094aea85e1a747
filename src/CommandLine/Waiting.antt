-- ===== src/CommandLine/Waiting.antt =====
-- What the commands that wait for a run, or show one, come to.
use distributed_verification.Prelude.{
  ℕ, ◌≡◌, refl, Bool, true, false, Option, none, some, List, [], ◌∷◌, ◌++◌, map, Text, All, ℤ,
}
use distributed_verification.Model.{Run, Db, is_finished}
use distributed_verification.Access.{ok}
use distributed_verification.Runs.{create_run}
use distributed_verification.Suites.Auto.{Suite}
use distributed_verification.CommandLine.{
  Answer, returned, run_list, run_show, run_logs, ended, wait_for_run, CreateOptions,
  selected_tests, payload_of, run_create,
}

-- A loop that is answered ends with the status of the first run that has ended.
pub wait_for_run-ends :
    (before : List Run) (run : Run) (rest : List (Answer Run))
    → All (λ (r : Run). is_finished r.status ≡ false) before
    → is_finished run.status ≡ true
    → wait_for_run (map (returned 200) before ++ returned 200 run ∷ rest) ≡ ended run.status
unfolding wait_for_run
wait_for_run-ends [] run rest h e = rw e refl
wait_for_run-ends (r ∷ before) run rest h e = rw h.0 (wait_for_run-ends before run rest h.1 e)

-- Whatever the database holds, the commands that list runs, show a run or its logs abort.
pub commands_abort :
    (upper : Text → Text) (run_id limit : ℕ) (level : Option Text) (tail : Option ℤ) (db : Db)
    → (run_list limit db ≡ none)
      × (run_show run_id db ≡ none)
      × (run_logs upper run_id level tail db ≡ none)
unfolding run_list run_show run_logs
commands_abort upper run_id limit level tail db = (refl, refl, refl)

-- A command that creates a run, with tests or a suite that is known, aborts, with --wait or without;
-- and yet, if the handler accepts the request, the database is the one that it leaves, with the run.
pub run_create_aborts :
    (strip : Text → Text) (now : ℕ) (today : Text) (exists : Text → Bool) (suites : List Suite)
    (options : CreateOptions) (later : List Db) (db after : Db) (tests : List Text) (run_id : ℕ)
    (tasks : List ℕ)
    → selected_tests strip suites options ≡ some tests
    → create_run now today exists (payload_of strip tests options) db ≡ ok (run_id, tasks, after)
    → run_create strip now today exists suites options later db ≡ (none, after)
unfolding run_create
run_create_aborts strip now today exists suites options later db after tests run_id tasks chosen
      made =
    rw (run_create, chosen) (rw made refl)
