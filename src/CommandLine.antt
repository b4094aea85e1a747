-- ===== src/CommandLine.antt =====
-- backend/cli.py: what the commands on runs ask of the server and make of its answers. An answer is
-- a refusal by its status, or the status of the endpoint with what the handler returns; FastAPI answers 422 to a request without a
-- parameter that has no default. A command that ends with _abort is `none`. Parameters: `str.strip`
-- and `str.upper`. Tables, panels and colours are left out.
pub mod Waiting
pub mod Platform
use distributed_verification.Prelude.{
  ℕ, zero, suc, ◌+◌, ◌-◌, Bool, true, false, Option, none, some, List, [], ◌∷◌, ◌++◌, map, Text,
  codes, text_eq, ◌==◌, if◌then◌else◌, length, take, drop, select, get_or, put, ℤ, pos, negsuc,
}
use distributed_verification.Model.{RunStatus, Run, LogEntry, Db, is_finished}
use distributed_verification.Access.{
  HttpError, bad_request, unauthorized, forbidden, not_found, conflict, too_large, too_many,
  internal, Result, raise, ok,
}
use distributed_verification.Runs.{RunCreate, truthy_text, create_run}
use distributed_verification.Runs.Reads.{list_runs, get_run, get_run_logs}
use distributed_verification.Suites.Auto.{Suite}

pub data Answer {ℓ} (A : Type ℓ) : Type ℓ where
  refused : ℕ → Answer A
  returned : ℕ → A → Answer A

abbrev pub status_code : HttpError → ℕ
status_code bad_request = 400
status_code unauthorized = 401
status_code forbidden = 403
status_code not_found = 404
status_code conflict = 409
status_code too_large = 413
status_code too_many = 429
status_code internal = 500

-- By the status that the route of the handler has.
abbrev pub answer {ℓ} : {A : Type ℓ} → ℕ → Result A → Answer A
answer status (raise e) = refused (status_code e)
answer status (ok a) = returned status a

-- A handler whose `client_key` has no default, by the key in the request.
abbrev pub with_key {ℓ} : {A : Type ℓ} → Option Text → (Option Text → Result A) → Answer A
with_key none handler = refused 422
with_key (some key) handler = answer 200 (handler (some key))

-- `if r.status_code != 200: _abort(r.text)`.
abbrev pub fetch {ℓ} : {A : Type ℓ} → Answer A → Option A
fetch (refused status) = none
fetch (returned status a) = if status == 200 then some a else none

-- `_client().get(f"/runs/{run_id}")`, `get("/runs")` and `get(f"/runs/{run_id}/logs")`: the requests
-- carry no key.
unfoldable pub ask_run : ℕ → Db → Answer Run
unfolding get_run
ask_run run_id db = with_key none (λ key. get_run run_id key db)

unfoldable pub ask_runs : Db → Answer (List Run)
unfolding list_runs
ask_runs db = with_key none (λ key. list_runs key db)

unfoldable pub ask_logs : ℕ → Db → Answer (List LogEntry)
unfolding get_run_logs
ask_logs run_id db = with_key none (λ key. get_run_logs run_id key db)

-- `runs list` and `runs show`: the rows, and the run.
unfoldable pub run_list : ℕ → Db → Option (List Run)
unfolding ask_runs
run_list limit db = elim (fetch (ask_runs db)) [ none ↦ none | some runs ↦ some (take limit runs) ]

unfoldable pub run_show : ℕ → Db → Option Run
unfolding ask_run
run_show run_id db = fetch (ask_run run_id db)

-- `logs[-tail:]` if `tail` is not 0.
abbrev pub last_entries {ℓ} : {A : Type ℓ} → Option ℤ → List A → List A
last_entries none logs = logs
last_entries (some (pos zero)) logs = logs
last_entries (some (pos (suc n))) logs = drop (length logs - suc n) logs
last_entries (some (negsuc n)) logs = drop (suc n) logs

module _ (upper : Text → Text) where
  abbrev pub of_level : Option Text → List LogEntry → List LogEntry
  of_level none logs = logs
  of_level (some level) logs = select (λ (l : LogEntry). text_eq (upper l.level) (upper level)) logs

  -- `runs logs`: the entries that are printed.
  unfoldable pub run_logs : ℕ → Option Text → Option ℤ → Db → Option (List LogEntry)
  unfolding ask_logs
  run_logs run_id level tail db = elim (fetch (ask_logs run_id db)) [
    | none ↦ none
    | some logs ↦ some (last_entries tail (of_level (truthy_text level) logs))
  ]

-- Where a loop of `_wait_for_run` has come to: it aborts, waits on, or ends with a status.
pub data Waited : Type 0 where
  aborted waiting : Waited
  ended : RunStatus → Waited

-- `_wait_for_run`, over the answers to its polls.
unfoldable pub wait_for_run : List (Answer Run) → Waited
wait_for_run [] = waiting
wait_for_run (polled ∷ answers) =
    let rest = wait_for_run answers in
    elim (fetch polled) [
      | none ↦ aborted
      | some run ↦ if is_finished run.status then ended run.status else rest
    ]

-- `text.split(",")`.
unfoldable pub split_commas : Text → Text → List Text
split_commas part [] = part ∷ []
split_commas part (c ∷ t) =
    let cut = c == b',' in
    let rest = split_commas (if cut then [] else part ++ c ∷ []) t in
    if cut then part ∷ rest else rest

-- `{s["id"]: s["tests"] for s in r.json()}`.
unfoldable pub tests_by_id :
    List Suite → List (Text × Option (List Text)) → List (Text × Option (List Text))
unfolding put
tests_by_id [] suites = suites
tests_by_id (s ∷ rest) suites = tests_by_id rest (put s.id (some s.tests) suites)

pub record CreateOptions : Type 0 where
  pub client_key : Text
  pub suite : Option Text
  pub test_list : Option Text
  pub resource : Option Text
  pub wait : Bool

module _ (strip : Text → Text) where
  unfoldable pub selected_tests : List Suite → CreateOptions → Option (List Text)
  unfolding tests_by_id split_commas get_or
  selected_tests suites options = elim (truthy_text options.suite) [
    | some suite ↦ get_or none suite (tests_by_id suites [])
    | none ↦ elim (truthy_text options.test_list) [
      | some tests ↦ some (map strip (split_commas [] tests))
      | none ↦ none
    ]
  ]

  abbrev pub payload_of : List Text → CreateOptions → RunCreate
  payload_of tests options = record {
    client_key = options.client_key;
    selected_tests = tests;
    resource_name = truthy_text options.resource;
    suite_ids = [];
    setup_config_id = none;
    teardown_config_id = none;
  }

module _ (strip : Text → Text) (now : ℕ) (today : Text) (exists : Text → Bool) where
  -- The request is handled, and then the answer is looked at. The loop of `_wait_for_run` asks at
  -- once, and then later, when the database may be another.
  abbrev pub after_create :
      Bool → List Db → Answer (ℕ × List ℕ × Db) → Db → Option (ℕ × Option Waited) × Db
  after_create wait later (refused status) db = (none, db)
  after_create wait later (returned status (run_id, tasks, after)) db = (
    elim (fetch (returned status run_id)) [
      | none ↦ none
      | some id ↦
          some (id, if wait then some (wait_for_run (map (ask_run id) (after ∷ later))) else none)
    ],
    after,
  )

  -- `runs create`: the run, with the end of the wait for it, if the command does not abort.
  unfoldable pub run_create :
      List Suite → CreateOptions → List Db → Db → Option (ℕ × Option Waited) × Db
  unfolding selected_tests create_run wait_for_run ask_run
  run_create suites options later db = elim (selected_tests strip suites options) [
    | none ↦ (none, db)
    | some tests ↦
        after_create options.wait later
          (answer 201 (create_run now today exists (payload_of strip tests options) db)) db
  ]
