-- ===== src/Runner/Capture/Logs.antt =====
-- Every line that the processes print is logged, once and in order.
use mathlib.Core.List.{append_assoc, append-nil, map-append}
use distributed_verification.Prelude.{
  ℕ, ◌≡◌, refl, sym, ap, ◌∙◌, inl, inr, ◌||◌, Option, none, some, List, [], ◌∷◌, ◌++◌, map, Text,
  ltb, ◌==◌, ==_refl, if◌then◌else◌, all, All, select, select-append, Bool-cases, Option-cases,
  ==_iff, test-first, count, text_eq, codes, not,
}
use distributed_verification.Model.{LogEntry, Run, Db}
use distributed_verification.Runner.Processes.{Runtime}
use distributed_verification.Runner.Lines.{Line, Current, attribute, attribute_all}
use distributed_verification.Queue.{find_run}
use distributed_verification.Runs.{file_part}
use distributed_verification.Runner.Launches.{Launch, launches, missing_tests}
use distributed_verification.Runner.Launches.Missing.{count-missing_tests}
use distributed_verification.Runner.Capture.{
  Entry, add_log, add_logs, line_entry, Round, Loop, is_done, run_round, capture_loop,
  begin_capture, skipped_entry, drained_entry, Surroundings, after_loop, finish_capture,
  before_loop, start_loop, end_loop, returned, raised, capture_with, capture_test_run,
}

-- The messages in the log of a run, in order.
abbrev pub messages_of : ℕ → Db → List Text
messages_of run_id db = map (λ l. l.message) (select (λ l. l.run_id == run_id) db.logs)

messages_of-add_log :
    (run_id : ℕ) (client_id : Option ℕ) (e : Entry) (db : Db)
    → messages_of run_id (add_log run_id client_id e db) ≡ messages_of run_id db ++ e.message ∷ []
unfolding add_log
messages_of-add_log run_id client_id e db =
    let row : LogEntry = record {
      id = db.next_id;
      run_id = run_id;
      client_id = client_id;
      level = e.level;
      source = e.source;
      message = e.message;
    } in
    ap (map (λ (l : LogEntry). l.message))
      (select-append (λ (l : LogEntry). l.run_id == run_id) db.logs (row ∷ []))
    ∙ map-append (λ (l : LogEntry). l.message)
        (select (λ (l : LogEntry). l.run_id == run_id) db.logs)
        (select (λ (l : LogEntry). l.run_id == run_id) (row ∷ []))
    ∙ rw (==_refl run_id) refl

pub messages_of-add_logs :
    (run_id : ℕ) (client_id : Option ℕ) (es : List Entry) (db : Db)
    → messages_of run_id (add_logs run_id client_id es db)
      ≡ messages_of run_id db ++ map (λ e. e.message) es
unfolding add_logs
messages_of-add_logs run_id client_id [] db = sym (append-nil (messages_of run_id db))
messages_of-add_logs run_id client_id (e ∷ es) db =
    messages_of-add_logs run_id client_id es (add_log run_id client_id e db)
    ∙ rw (messages_of-add_log run_id client_id e db)
        (append_assoc (messages_of run_id db) (e.message ∷ []) (map (λ e. e.message) es))

messages-attribute_all :
    (strip : Text → Text) (nids : List Text) (current : Current) (ls : List Line)
    → map (λ e. e.message) (map line_entry (attribute_all strip nids current ls).0)
      ≡ map (λ l. l.text) ls
unfolding attribute_all
messages-attribute_all strip nids current [] = refl
messages-attribute_all strip nids current (l ∷ ls) =
    ap (λ ms. l.text ∷ ms) (messages-attribute_all strip nids (attribute strip nids current l).1 ls)

-- What the other tasks do between the rounds leaves the log of the run.
abbrev pub Quiet : ℕ → List Round → Type 0
Quiet run_id rounds =
    All (λ r. (w : Db × Runtime) → messages_of run_id (r.meanwhile w).0 ≡ messages_of run_id w.0)
      rounds

-- The lines of the rounds up to the one that ends the loop.
abbrev pub consumed : ℕ → List Text → List Round → List Line
consumed timeout tags [] = []
consumed timeout tags (r ∷ rs) =
    let rest = consumed timeout tags rs in
    r.batch ++ (if is_done tags r || ltb timeout r.elapsed then [] else rest)

module _ (strip : Text → Text) (timeout : ℕ) (nids : List Text) (run_id : ℕ) (client_id : Option ℕ)
    (tags : List Text) where
  messages_of-run_round :
      (s : Loop) (r : Round)
      → messages_of run_id (r.meanwhile (s.db, s.runtime)).0 ≡ messages_of run_id s.db
      → messages_of run_id (run_round strip timeout nids run_id client_id tags s r).db
        ≡ messages_of run_id s.db ++ map (λ l. l.text) r.batch
  unfolding run_round
  messages_of-run_round s r quiet =
      let entries = map line_entry (attribute_all strip nids s.current r.batch).0 in
      messages_of-add_logs run_id client_id entries (r.meanwhile (s.db, s.runtime)).0
      ∙ rw (quiet, messages-attribute_all strip nids s.current r.batch) refl

  messages_of-capture_loop :
      (rounds : List Round) (s after : Loop)
      → Quiet run_id rounds
      → capture_loop strip timeout nids run_id client_id tags rounds s ≡ some after
      → messages_of run_id after.db
        ≡ messages_of run_id s.db ++ map (λ l. l.text) (consumed timeout tags rounds)
  unfolding capture_loop
  messages_of-capture_loop [] s after quiet e = cc
  messages_of-capture_loop (r ∷ rs) s after quiet e =
      let next = run_round strip timeout nids run_id client_id tags s r in
      let step = messages_of-run_round s r (quiet.0 (s.db, s.runtime)) in
      elim (Bool-cases (is_done tags r || ltb timeout r.elapsed)) [
        | inl stop ↦
            let ended : some next ≡ some after = rw stop at e in
            let same : next ≡ after = cc in rw (sym same, stop, append-nil r.batch) step
        | inr go_on ↦
            let continued : capture_loop strip timeout nids run_id client_id tags rs next
                ≡ some after =
              rw go_on at e in
            let texts = map (λ (l : Line). l.text) in
            messages_of-capture_loop rs next after quiet.1 continued
            ∙ rw (step, go_on, map-append (λ (l : Line). l.text) r.batch (consumed timeout tags rs))
                (append_assoc (messages_of run_id s.db) (texts r.batch)
                  (texts (consumed timeout tags rs)))
      ]

messages_of-begin_capture :
    (n now : ℕ) (run : Run) (db : Db) → messages_of n (begin_capture now run db) ≡ messages_of n db
unfolding begin_capture
messages_of-begin_capture n now run db = elim (Option-cases run.started_at) [
  | inl e ↦ rw (e, begin_capture) refl
  | inr (t, e) ↦ rw (e, begin_capture) refl
]

drained-messages :
    (ls : List Line) → map (λ e. e.message) (map drained_entry ls) ≡ map (λ l. l.text) ls
drained-messages [] = refl
drained-messages (l ∷ ls) = ap (λ ms. l.text ∷ ms) (drained-messages ls)

-- The message for a test whose file is gone.
abbrev pub skipped_message : Text → Text
skipped_message mf = (skipped_entry mf).message

skipped-messages :
    (ts : List Text) → map (λ e. e.message) (map skipped_entry ts) ≡ map skipped_message ts
skipped-messages [] = refl
skipped-messages (t ∷ ts) = ap (λ ms. skipped_message t ∷ ms) (skipped-messages ts)

-- What a capture adds to the log of its run.
abbrev pub captured : Surroundings → List Text → List Text → List Text
captured env selected_tests tags =
    map skipped_message (missing_tests env.exists selected_tests)
    ++ (map (λ l. l.text) (consumed env.timeout tags env.rounds) ++ map (λ l. l.text) env.drained)

module _ (env : Surroundings) where
  messages_of-after_loop :
      (run_id : ℕ) (client_id : Option ℕ) (ls : List Launch) (s : Loop)
      → messages_of run_id (after_loop env run_id client_id ls s).0
        ≡ messages_of run_id s.db ++ map (λ l. l.text) env.drained
  unfolding after_loop finish_capture
  messages_of-after_loop run_id client_id ls s =
      messages_of-add_logs run_id client_id (map drained_entry env.drained) s.db
      ∙ rw (drained-messages env.drained) refl

  messages_of-before_loop :
      (now : ℕ) (run : Run) (selected_tests : List Text) (db : Db)
      → messages_of run.id (before_loop env now run selected_tests db)
        ≡ messages_of run.id db ++ map skipped_message (missing_tests env.exists selected_tests)
  unfolding before_loop
  messages_of-before_loop now run selected_tests db =
      let missing = missing_tests env.exists selected_tests in
      messages_of-add_logs run.id (some run.client_id) (map skipped_entry missing)
        (begin_capture now run db)
      ∙ rw (messages_of-begin_capture run.id now run db, skipped-messages missing) refl

  messages_of-end_loop :
      (now : ℕ) (run : Run) (selected_tests : List Text) (ls : List Launch) (db : Db) (rt : Runtime)
      (o : Option Loop) (after : Db × Runtime)
      → Quiet run.id env.rounds
      → capture_loop env.strip env.timeout
          (env.as_set selected_tests)
          run.id
          (some run.client_id)
          (map (λ l. l.tag) ls)
          env.rounds
          (start_loop env run ls (before_loop env now run selected_tests db, rt))
        ≡ o
      → end_loop env run ls o ≡ some (returned after)
      → messages_of run.id after.0
        ≡ messages_of run.id db ++ captured env selected_tests (map (λ l. l.tag) ls)
  unfolding end_loop
  messages_of-end_loop now run selected_tests ls db rt none after quiet h e = cc
  messages_of-end_loop now run selected_tests ls db rt (some s) after quiet h e =
      let tags = map (λ (l : Launch). l.tag) ls in
      let texts = map (λ (l : Line). l.text) in
      let same : after_loop env run.id (some run.client_id) ls s ≡ after = cc in
      let start = start_loop env run ls (before_loop env now run selected_tests db, rt) in
      let looped =
        messages_of-capture_loop env.strip env.timeout (env.as_set selected_tests) run.id
          (some run.client_id) tags env.rounds start s quiet h in
      let old = messages_of run.id db in
      let skipped = map skipped_message (missing_tests env.exists selected_tests) in
      let read = texts (consumed env.timeout tags env.rounds) in
      rw (sym same) (
        messages_of-after_loop run.id (some run.client_id) ls s
        ∙ rw (looped, messages_of-before_loop now run selected_tests db)
            (append_assoc (old ++ skipped) read (texts env.drained)
              ∙ append_assoc old skipped (read ++ texts env.drained)))

  messages_of-capture_with :
      (now : ℕ) (run : Run) (selected_tests : List Text) (ls : List Launch) (db : Db) (rt : Runtime)
      (after : Db × Runtime)
      → Quiet run.id env.rounds
      → capture_with env now run selected_tests ls (db, rt) ≡ some (returned after)
      → messages_of run.id after.0
        ≡ messages_of run.id db ++ captured env selected_tests (map (λ l. l.tag) ls)
  unfolding capture_with
  messages_of-capture_with now run selected_tests ls db rt after quiet e =
      elim (Bool-cases (all (λ l. env.starts l.tag) ls)) [
        | inl up ↦
            messages_of-end_loop now run selected_tests ls db rt _ after quiet refl (rw up at e)
        | inr down ↦ let refused : some (raised _) ≡ some (returned after) = rw down at e in cc
      ]

  messages_of-captured :
      (now run_id : ℕ) (selected_tests : List Text) (db : Db) (rt : Runtime) (run : Run)
      (after : Db × Runtime)
      → find_run run_id db ≡ some run
      → Quiet run_id env.rounds
      → capture_test_run env now run_id selected_tests (db, rt) ≡ some (returned after)
      → messages_of run_id after.0
        ≡ messages_of run_id db
          ++ captured env selected_tests
              (map (λ l. l.tag) (launches env.exists env.test_root selected_tests))
  unfolding capture_test_run
  messages_of-captured now run_id selected_tests db rt run after there quiet e =
      let ls = launches env.exists env.test_root selected_tests in
      let found : capture_test_run env now run_id selected_tests (db, rt)
          ≡ capture_with env now run selected_tests ls (db, rt) =
        rw (there, capture_test_run) refl in
      let same_id : run.id ≡ run_id =
        (==_iff run.id run_id).0 (test-first (λ r. r.id == run_id) db.runs there) in
      let quiet_run : Quiet run.id env.rounds = rw same_id quiet in
      rw (sym same_id)
        (messages_of-capture_with now run selected_tests ls db rt after quiet_run (sym found ∙ e))

  -- If no other task writes to the log of the run, a capture that returns has added to it, in order:
  -- one entry for each selected test whose file, the part before "::", is not on the disk, each as
  -- often as it is selected; one for each line that the processes printed up to the end of the loop;
  -- and one for each line behind it.
  pub messages_of-capture_test_run :
      (now run_id : ℕ) (selected_tests : List Text) (db : Db) (rt : Runtime) (run : Run)
      (after : Db × Runtime)
      → find_run run_id db ≡ some run
      → Quiet run_id env.rounds
      → capture_test_run env now run_id selected_tests (db, rt) ≡ some (returned after)
      → let tags = map (λ l. l.tag) (launches env.exists env.test_root selected_tests) in
        (missing : List Text) × ((t : Text)
          → count (text_eq t) missing
            ≡ count (text_eq t) (select (λ n. not (env.exists (file_part n))) selected_tests))
        × (messages_of run_id after.0
            ≡ messages_of run_id db
              ++ (map (λ t. codes "Skipped " ++ t ++ codes " — file no longer exists") missing
                  ++ (map (λ l. l.text) (consumed env.timeout tags env.rounds)
                      ++ map (λ l. l.text) env.drained)))
  messages_of-capture_test_run now run_id selected_tests db rt run after there quiet e = (
    missing_tests env.exists selected_tests,
    λ t. count-missing_tests env.exists (text_eq t) selected_tests,
    messages_of-captured now run_id selected_tests db rt run after there quiet e,
  )
