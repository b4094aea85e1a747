-- ===== src/Streaming/Prefix.antt =====
-- A websocket sends a beginning of the log of its run, and all of it before the last message.
use distributed_verification.Prelude.{
  ℕ, ◌≡◌, refl, sym, ap, ◌∙◌, ◌<◌, true, some, List, [], ◌∷◌, ◌++◌, map, ◌==◌, All, All-select,
}
use distributed_verification.Model.{is_finished, Run, LogEntry, Db}
use distributed_verification.Queue.{find_run}
use distributed_verification.Streaming.{
  Message, done, checking, finishing, closed, Stream, to_data, logs_after, batch_of, check_run,
  advance, turns, opened, StreamStep, turn, lose, grow, StreamReach, here, next,
}
use distributed_verification.Streaming.Batches.{log_of, received}
use distributed_verification.Streaming.Cut.{
  IsKeyed, IsBehind, IsCut, logs_after-eq-behind, batch-IsCut,
}
use distributed_verification.Streaming.Turns.{advance-IsCut, grow-IsKeyed, grow-IsCut}

module _ (run_id : ℕ) where
  abbrev pub IsGood : Db × Stream → Type 0
  IsGood w = IsKeyed w.0 × IsCut run_id w.0 w.1

  StreamStep-IsGood : {w v : Db × Stream} → StreamStep run_id w v → IsGood w → IsGood v
  StreamStep-IsGood (turn db s) (keyed, cut) = (
    keyed,
    advance-IsCut run_id db s s.phase cut.before cut.behind refl keyed cut.log cut.got cut.split
        cut.small,
  )
  StreamStep-IsGood (lose db s) (keyed, cut) = (
    keyed,
    record {
      before = cut.before;
      behind = cut.behind;
      log = cut.log;
      got = cut.got;
      split = tt;
      small = cut.small;
    },
  )
  StreamStep-IsGood (grow db after s g) (keyed, cut) =
      (grow-IsKeyed run_id db after g keyed, grow-IsCut run_id db after s g cut)

  StreamReach-IsGood : {w v : Db × Stream} → IsGood w → StreamReach run_id w v → IsGood v
  StreamReach-IsGood h here = h
  StreamReach-IsGood h (next r step) = StreamStep-IsGood step (StreamReach-IsGood h r)

  opened-IsGood :
      (db : Db) → IsKeyed db → All (λ l. 0 < l.id) db.logs → 0 < db.next_id → IsGood (db, opened)
  opened-IsGood db keyed positive small = (
    keyed,
    record {
      before = [];
      behind = log_of run_id db;
      log = refl;
      got = refl;
      split = (tt, All-select (λ l. 0 < l.id) (λ l. l.run_id == run_id) db.logs positive);
      small = small;
    },
  )

  -- However the loop, other tasks that only add log entries, and a lost connection take turns: what a
  -- websocket has sent is a beginning of the log of its run, each entry once and in order. The ids of
  -- the log are positive and grow at the start, and are below the next id.
  pub stream_sends_prefix :
      (db after : Db) (s : Stream)
      → IsKeyed db
      → All (λ l. 0 < l.id) db.logs
      → 0 < db.next_id
      → StreamReach run_id (db, opened) (after, s)
      → (before : List LogEntry) × (behind : List LogEntry) × (log_of run_id after
          ≡ before ++ behind)
        × (received s.sent ≡ map to_data before)
  stream_sends_prefix db after s keyed positive small reach =
      let (_, cut) = StreamReach-IsGood (opened-IsGood db keyed positive small) reach in
      (cut.before, cut.behind, cut.log, cut.got)

  finishing-IsAll :
      (db : Db) (s : Stream) (run : Run)
      → IsGood (db, s)
      → s.phase ≡ finishing run
      → received (s.sent ++ batch_of (logs_after run_id s.last_id db))
        ≡ map to_data (log_of run_id db)
  unfolding advance
  finishing-IsAll db s run (keyed, cut) p =
      let split : IsBehind (finishing run) s.last_id cut.before cut.behind = rw p at cut.split in
      rw
        (logs_after-eq-behind run_id s.last_id db cut.before cut.behind keyed cut.log split.0
          split.1)
        (batch-IsCut run_id db s cut.before cut.behind cut.got ∙ ap (map to_data) (sym cut.log))

  checked :
      (run : Run) (s : Stream)
      → is_finished run.status ≡ true
      → check_run (some run) s ≡ record s { phase = finishing run }
  unfolding check_run
  checked run s over = rw over refl

  -- Once the loop looks at a run that has ended, and no more entries come, three more steps close the
  -- websocket: it has sent the whole log of the run, and then the signal with the run's status. The
  -- ids of the log are positive and grow at the start, and are below the next id.
  pub stream_ends :
      (db after : Db) (s : Stream) (run : Run)
      → IsKeyed db
      → All (λ l. 0 < l.id) db.logs
      → 0 < db.next_id
      → StreamReach run_id (db, opened) (after, s)
      → s.phase ≡ checking
      → find_run run_id after ≡ some run
      → is_finished run.status ≡ true
      → (sent : List Message) × ((turns run_id 3 after s).sent
          ≡ sent ++ done run.finished_at run.status ∷ [])
        × (received sent ≡ map to_data (log_of run_id after))
        × ((turns run_id 3 after s).phase ≡ closed)
  unfolding advance
  stream_ends db after s run keyed positive small reach p there over =
      let next : Stream = record s { phase = finishing run } in
      let turned : advance run_id after s.phase s ≡ next = rw p (rw there (checked run s over)) in
      let good : IsGood (after, advance run_id after s.phase s) =
        StreamStep-IsGood (turn after s)
          (StreamReach-IsGood (opened-IsGood db keyed positive small) reach) in
      let good' : IsGood (after, next) = rw turned at good in
      (
        s.sent ++ batch_of (logs_after run_id s.last_id after),
        rw turned refl,
        finishing-IsAll after next run good' refl,
        rw turned refl,
      )
