-- ===== src/Streaming/Turns.antt =====
-- Each step of a websocket, and each addition to the log, moves the division of the log.
use mathlib.Core.List.{append-nil, append_assoc}
use distributed_verification.Prelude.{
  All-append, ℕ, suc, ◌≡◌, sym, ◌∙◌, ◌≤◌, ◌<◌, inl, inr, Option, none, some, List, [], ◌∷◌, ◌++◌,
  map, arith, leb, ◌==◌, if◌then◌else◌, All, All-map, select, select-append, All-select, Bool-cases,
}
use distributed_verification.Model.{is_finished, Run, LogEntry, Db}
use distributed_verification.Queue.{find_run}
use distributed_verification.Streaming.{
  batch, done, Phase, polling, checking, pinging, finishing, signing, closed, Stream, to_data,
  last_of, send_new, check_run, ping, advance, Grows,
}
use distributed_verification.Streaming.Batches.{
  log_of, received, received-append, IsSorted-append, last_of-bounds,
}
use distributed_verification.Streaming.Cut.{
  IsKeyed, IsBehind, IsCut, IsBehind-cons, IsBehind-append, logs_after-eq-behind, batch-IsCut,
  IsSorted-behind,
}

module _ (run_id : ℕ) where
  pub send_new-IsCut :
      (db : Db) (s : Stream) (before behind : List LogEntry)
      → IsKeyed db
      → log_of run_id db ≡ before ++ behind
      → received s.sent ≡ map to_data before
      → All (λ l. l.id ≤ s.last_id) before
      → All (λ l. s.last_id < l.id) behind
      → s.last_id < db.next_id
      → IsCut run_id db (send_new behind s)
  unfolding send_new
  send_new-IsCut db s before behind keyed log got old new small =
      let (sorted, top) = IsSorted-behind run_id db before behind keyed log in
      let (low, high, bound) =
        last_of-bounds s.last_id db.next_id behind sorted (All-map (λ l lt. omega arith) behind new)
          top small in
      record {
        before = before ++ behind;
        behind = [];
        log = log ∙ sym (append-nil (before ++ behind));
        got = batch-IsCut run_id db s before behind got;
        split = (
          All-append (λ l. l.id ≤ last_of s.last_id behind) before behind
              (All-map (λ l le. omega arith) before old) bound,
          tt,
        );
        small = high;
      }

  pub check_run-IsCut :
      (db : Db) (o : Option Run) (s : Stream) (before behind : List LogEntry)
      → log_of run_id db ≡ before ++ behind
      → received s.sent ≡ map to_data before
      → All (λ l. l.id ≤ s.last_id) before
      → All (λ l. s.last_id < l.id) behind
      → s.last_id < db.next_id
      → IsCut run_id db (check_run o s)
  unfolding check_run
  check_run-IsCut db none s before behind log got old new small = record {
    before = before;
    behind = behind;
    log = log;
    got = got;
    split = (old, new);
    small = small;
  }
  check_run-IsCut db (some run) s before behind log got old new small = record {
    before = before;
    behind = behind;
    log = log;
    got = got;
    split =
        IsBehind-cons (if is_finished run.status then finishing run else pinging) s.last_id before
          behind old new;
    small = small;
  }

  pub ping-IsCut :
      (db : Db) (s : Stream) (before behind : List LogEntry)
      → log_of run_id db ≡ before ++ behind
      → received s.sent ≡ map to_data before
      → All (λ l. l.id ≤ s.last_id) before
      → All (λ l. s.last_id < l.id) behind
      → s.last_id < db.next_id
      → IsCut run_id db (ping s)
  unfolding ping
  ping-IsCut db s before behind log got old new small =
      elim (Bool-cases (leb 30 (suc s.ping_counter))) [
        | inl e ↦
            rw (e, ping)
              (record {
                before = before;
                behind = behind;
                log = log;
                got = received-append s.sent (batch [] ∷ []) ∙ append-nil (received s.sent) ∙ got;
                split = (old, new);
                small = small;
              })
        | inr e ↦
            rw (e, ping)
              (record {
                before = before;
                behind = behind;
                log = log;
                got = got;
                split = (old, new);
                small = small;
              })
      ]

  pub advance-IsCut :
      (db : Db) (s : Stream) (phase : Phase) (before behind : List LogEntry)
      → s.phase ≡ phase
      → IsKeyed db
      → log_of run_id db ≡ before ++ behind
      → received s.sent ≡ map to_data before
      → IsBehind phase s.last_id before behind
      → s.last_id < db.next_id
      → IsCut run_id db (advance run_id db phase s)
  unfolding advance
  advance-IsCut db s polling before behind p keyed log got (old, new) small =
      rw (logs_after-eq-behind run_id s.last_id db before behind keyed log old new)
        (send_new-IsCut db s before behind keyed log got old new small)
  advance-IsCut db s checking before behind p keyed log got (old, new) small =
      check_run-IsCut db (find_run run_id db) s before behind log got old new small
  advance-IsCut db s pinging before behind p keyed log got (old, new) small =
      ping-IsCut db s before behind log got old new small
  advance-IsCut db s (finishing run) before behind p keyed log got (old, new) small =
      rw (logs_after-eq-behind run_id s.last_id db before behind keyed log old new) (record {
        before = before ++ behind;
        behind = [];
        log = log ∙ sym (append-nil (before ++ behind));
        got = batch-IsCut run_id db s before behind got;
        split = tt;
        small = small;
      })
  advance-IsCut db s (signing run) before behind p keyed log got split small = record {
    before = before;
    behind = behind;
    log = log;
    got =
        received-append s.sent (done run.finished_at run.status ∷ [])
        ∙ append-nil (received s.sent)
        ∙ got;
    split = tt;
    small = small;
  }
  advance-IsCut db s closed before behind p keyed log got split small = record {
    before = before;
    behind = behind;
    log = log;
    got = got;
    split = rw p tt;
    small = small;
  }

  pub grow-IsKeyed : (db after : Db) → Grows db after → IsKeyed db → IsKeyed after
  grow-IsKeyed db after g keyed = record {
    sorted = rw g.appended (
        IsSorted-append (λ (l : LogEntry). l.id) db.next_id db.logs g.added keyed.sorted g.sorted
          keyed.below g.fresh);
    below = rw g.appended (
        All-append (λ l. l.id < after.next_id) db.logs g.added
          (All-map (λ l lt. omega (arith, lt, g.ids)) db.logs keyed.below) g.below);
  }

  pub grow-IsCut :
      (db after : Db) (s : Stream) → Grows db after → IsCut run_id db s → IsCut run_id after s
  grow-IsCut db after s g cut =
      let mine = λ (l : LogEntry). l.run_id == run_id in
      let newer : All (λ l. s.last_id < l.id) (select mine g.added) =
        All-select (λ l. s.last_id < l.id) mine g.added
          (All-map (λ l le. omega (arith, le, cut.small)) g.added g.fresh) in
      record {
        before = cut.before;
        behind = cut.behind ++ select mine g.added;
        log = rw g.appended (
            select-append mine db.logs g.added
            ∙ rw cut.log (append_assoc cut.before cut.behind (select mine g.added)));
        got = cut.got;
        split =
            IsBehind-append s.phase s.last_id cut.before cut.behind (select mine g.added) cut.split
              newer;
        small = omega (arith, cut.small, g.ids);
      }
