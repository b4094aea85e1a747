-- ===== src/Runner/Capture/Over.antt =====
-- A run whose capture ends has ended.
use mathlib.Core.Path.{subst}
use distributed_verification.Prelude.{
  ℕ, ◌≡◌, refl, sym, ap, ◌∙◌, inl, inr, Bool, true, not, ◌||◌, Option, none, some, List, [], ◌∷◌,
  map, arith, Text, ltb, ◌==◌, ==_iff, any, all, All, first, select, first-update_self, test-first,
  Bool-cases, Option-cases,
}
use distributed_verification.Model.{RunStatus, is_finished, Run, Db}
use distributed_verification.Queue.{find_run, update_run}
use distributed_verification.Runner.Processes.{Exit, Runtime}
use distributed_verification.Runner.Lines.{attribute_all}
use distributed_verification.Runner.Launches.{Launch, launches, missing_tests}
use distributed_verification.Runner.Capture.{
  Entry, line_entry, add_log, add_logs, Round, Loop, is_done, run_round, capture_loop, is_success,
  final_status, was_cancelled, finish_capture, begin_capture, drained_entry, skipped_entry,
  Surroundings, Attempt, returned, raised, after_loop, before_loop, start_loop, end_loop,
  capture_with, capture_test_run,
}

-- The run is in the table; it is there and has ended.
abbrev pub IsThere : ℕ → Db → Type 0
IsThere run_id db = (r : Run) × (find_run run_id db ≡ some r)

abbrev pub IsOver : ℕ → Db → Type 0
IsOver run_id db = (r : Run) × (find_run run_id db ≡ some r) × (is_finished r.status ≡ true)

-- The other tasks leave the run in the table.
abbrev pub KeepsRun : ℕ → List Round → Type 0
KeepsRun run_id rounds =
    All (λ r. (w : Db × Runtime) → IsThere run_id w.0 → IsThere run_id (r.meanwhile w).0) rounds

pub update_run-IsThere :
    (n : ℕ) (f : Run → Run) (db : Db)
    → ((r : Run) → (f r).id ≡ r.id)
    → IsThere n db
    → IsThere n (update_run n f db)
update_run-IsThere n f db keeps (r, there) =
    (f r, first-update_self (λ r. r.id == n) f db.runs {x = r} (λ r. rw (keeps r) refl) there)

pub update_run-IsOver :
    (n : ℕ) (f : Run → Run) (db : Db)
    → ((r : Run) → (f r).id ≡ r.id)
    → ((r : Run) → is_finished r.status ≡ true → is_finished (f r).status ≡ true)
    → IsOver n db
    → IsOver n (update_run n f db)
update_run-IsOver n f db keeps ends (r, there, over) = (
  f r,
  first-update_self (λ r. r.id == n) f db.runs {x = r} (λ r. rw (keeps r) refl) there,
  ends r over,
)

add_logs-runs :
    (n : ℕ) (client : Option ℕ) (es : List Entry) (db : Db)
    → (add_logs n client es db).runs ≡ db.runs
unfolding add_logs
add_logs-runs n client [] db = refl
add_logs-runs n client (e ∷ es) db =
    unfold add_log in add_logs-runs n client es (add_log n client e db)

pub add_logs-IsThere :
    (m n : ℕ) (client : Option ℕ) (es : List Entry) (db : Db)
    → IsThere m db
    → IsThere m (add_logs n client es db)
add_logs-IsThere m n client es db (r, there) =
    (r, ap (λ rs. first (select (λ r. r.id == m) rs)) (add_logs-runs n client es db) ∙ there)

pub final_status-is_finished :
    (cancelled any_failed : Bool) (old : RunStatus)
    → is_finished (final_status cancelled any_failed old) ≡ true
unfolding final_status
final_status-is_finished cancelled any_failed RunStatus.pending = ground arith
final_status-is_finished cancelled any_failed RunStatus.queued = ground arith
final_status-is_finished cancelled any_failed RunStatus.running = ground arith
final_status-is_finished cancelled any_failed RunStatus.completed = ground arith
final_status-is_finished cancelled any_failed RunStatus.failed = ground arith
final_status-is_finished cancelled any_failed RunStatus.cancelled = ground arith

finish_capture-IsOver :
    (now n : ℕ) (exits : List (Option Exit)) (db : Db) (rt : Runtime)
    → IsThere n db
    → IsOver n (finish_capture now n exits (db, rt)).0
unfolding finish_capture
finish_capture-IsOver now n exits db rt (r, there) =
    let cancelled = was_cancelled n exits rt in
    let failed = any (λ e. not (is_success e)) exits in
    (
      record r { status = final_status cancelled failed r.status; finished_at = some now },
      first-update_self (λ r. r.id == n)
          (λ r. record r {
            status = final_status cancelled failed r.status;
            finished_at = some now;
          })
          db.runs {x = r} (λ r. refl) there,
      final_status-is_finished cancelled failed r.status,
    )

pub begin_capture-IsThere :
    (now : ℕ) (run : Run) (db : Db) → IsThere run.id db → IsThere run.id (begin_capture now run db)
unfolding begin_capture
begin_capture-IsThere now run db h = elim (Option-cases run.started_at) [
  | inl e ↦
      rw (e, begin_capture)
        (update_run-IsThere run.id
          (λ r. record r { started_at = some now; status = RunStatus.running }) db (λ r. refl) h)
  | inr (t, e) ↦ rw (e, begin_capture) h
]

module _ (strip : Text → Text) (timeout : ℕ) (nids : List Text) (n : ℕ) (client : Option ℕ)
    (tags : List Text) where
  run_round-IsThere :
      (s : Loop) (r : Round)
      → ((w : Db × Runtime) → IsThere n w.0 → IsThere n (r.meanwhile w).0)
      → IsThere n s.db
      → IsThere n (run_round strip timeout nids n client tags s r).db
  unfolding run_round
  run_round-IsThere s r keeps h =
      add_logs-IsThere n n client (map line_entry (attribute_all strip nids s.current r.batch).0)
        (r.meanwhile (s.db, s.runtime)).0 (keeps (s.db, s.runtime) h)

  capture_loop-IsThere :
      (rounds : List Round) (s after : Loop)
      → KeepsRun n rounds
      → IsThere n s.db
      → capture_loop strip timeout nids n client tags rounds s ≡ some after
      → IsThere n after.db
  unfolding capture_loop
  capture_loop-IsThere [] s after keeps h e = cc
  capture_loop-IsThere (r ∷ rs) s after keeps h e =
      let next = run_round strip timeout nids n client tags s r in
      let there = run_round-IsThere s r keeps.0 h in
      elim (Bool-cases (is_done tags r || ltb timeout r.elapsed)) [
        | inl stop ↦
            let ended : some next ≡ some after = rw stop at e in
            let same : next ≡ after = cc in rw (sym same) there
        | inr go_on ↦ capture_loop-IsThere rs next after keeps.1 there (rw go_on at e)
      ]

-- An outcome of a capture: the run has ended if it returned, and is there if it raised.
abbrev pub AttemptOf : ℕ → Attempt → Type 0
AttemptOf run_id (returned (db, rt)) = IsOver run_id db
AttemptOf run_id (raised (db, rt)) = IsThere run_id db

module _ (env : Surroundings) where
  after_loop-IsOver :
      (n : ℕ) (client : Option ℕ) (ls : List Launch) (s : Loop)
      → IsThere n s.db
      → IsOver n (after_loop env n client ls s).0
  unfolding after_loop
  after_loop-IsOver n client ls s h =
      finish_capture-IsOver env.end_time n (map (λ l. env.exit_of l.tag) ls)
        (add_logs n client (map drained_entry env.drained) s.db) s.runtime
        (add_logs-IsThere n n client (map drained_entry env.drained) s.db h)

  before_loop-IsThere :
      (now : ℕ) (run : Run) (tests : List Text) (db : Db)
      → IsThere run.id db
      → IsThere run.id (before_loop env now run tests db)
  unfolding before_loop
  before_loop-IsThere now run tests db h =
      add_logs-IsThere run.id run.id (some run.client_id)
        (map skipped_entry (missing_tests env.exists tests)) (begin_capture now run db)
        (begin_capture-IsThere now run db h)

  end_loop-AttemptOf :
      (run : Run) (ls : List Launch) (o : Option Loop) (result : Attempt)
      → ((s : Loop) → o ≡ some s → IsThere run.id s.db)
      → end_loop env run ls o ≡ some result
      → AttemptOf run.id result
  unfolding end_loop
  end_loop-AttemptOf run ls none result h e = cc
  end_loop-AttemptOf run ls (some s) result h e =
      let same : returned (after_loop env run.id (some run.client_id) ls s) ≡ result = cc in
      subst (AttemptOf run.id) same (after_loop-IsOver run.id (some run.client_id) ls s (h s refl))

  capture_with-AttemptOf :
      (now : ℕ) (run : Run) (tests : List Text) (ls : List Launch) (db : Db) (rt : Runtime)
      (result : Attempt)
      → KeepsRun run.id env.rounds
      → IsThere run.id db
      → capture_with env now run tests ls (db, rt) ≡ some result
      → AttemptOf run.id result
  unfolding capture_with
  capture_with-AttemptOf now run tests ls db rt result keeps h e =
      let begun = before_loop env now run tests db in
      let there = before_loop-IsThere now run tests db h in
      elim (Bool-cases (all (λ l. env.starts l.tag) ls)) [
        | inl up ↦
            end_loop-AttemptOf run ls _ result
              (λ s looped.
                capture_loop-IsThere env.strip env.timeout (env.as_set tests) run.id
                  (some run.client_id) (map (λ l. l.tag) ls) env.rounds
                  (start_loop env run ls (begun, rt)) s keeps there looped)
              (rw up at e)
        | inr down ↦
            let failed : some (raised (begun, rt)) ≡ some result = rw down at e in
            let same : raised (begun, rt) ≡ result = cc in subst (AttemptOf run.id) same there
      ]

  -- A capture that ends leaves a run that was in the table finished, if it returned, and in the
  -- table, if it raised; the other tasks must not delete the run.
  pub capture_test_run-AttemptOf :
      (now run_id : ℕ) (tests : List Text) (db : Db) (rt : Runtime) (result : Attempt)
      → KeepsRun run_id env.rounds
      → IsThere run_id db
      → capture_test_run env now run_id tests (db, rt) ≡ some result
      → AttemptOf run_id result
  unfolding capture_test_run
  capture_test_run-AttemptOf now run_id tests db rt result keeps (run, there) e =
      let ls = launches env.exists env.test_root tests in
      let found : capture_test_run env now run_id tests (db, rt)
          ≡ capture_with env now run tests ls (db, rt) =
        rw (there, capture_test_run) refl in
      let same_id : run.id ≡ run_id =
        (==_iff run.id run_id).0 (test-first (λ r. r.id == run_id) db.runs there) in
      let keeps_run : KeepsRun run.id env.rounds = rw same_id keeps in
      let there_run : IsThere run.id db = rw same_id (run, there) in
      subst (λ n. AttemptOf n result) same_id
        (capture_with-AttemptOf now run tests ls db rt result keeps_run there_run (sym found ∙ e))
