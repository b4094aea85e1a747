-- ===== src/Streaming/Cut.antt =====
-- A websocket divides the log of its run into the entries that it has sent and those behind them.
use mathlib.Core.List.{map-append}
use distributed_verification.Prelude.{
  All-append, ℕ, ◌≡◌, sym, ◌∙◌, ◌≤◌, ◌<◌, ◌&&◌, List, ◌++◌, map, ltb, ◌==◌, All, IsSorted,
  order_by-eq_self, select, All-select,
}
use distributed_verification.Model.{LogEntry, Db}
use distributed_verification.Streaming.{
  Phase, polling, checking, pinging, finishing, signing, closed, Stream, to_data, logs_after,
  batch_of,
}
use distributed_verification.Streaming.Batches.{
  log_of, received, received-append, received-batch_of, select-and, select-split, IsSorted-right,
  IsSorted-select, All-right,
}

-- A log whose ids grow, below the next one.
pub record IsKeyed (db : Db) : Type 0 where
  pub sorted : IsSorted (λ (l : LogEntry). l.id) db.logs
  pub below : All (λ l. l.id < db.next_id) db.logs

-- Until the last query, `last_id` divides the entries that were sent from the others.
abbrev pub IsBehind : Phase → ℕ → List LogEntry → List LogEntry → Type 0
IsBehind polling n before behind = All (λ l. l.id ≤ n) before × All (λ l. n < l.id) behind
IsBehind checking n before behind = All (λ l. l.id ≤ n) before × All (λ l. n < l.id) behind
IsBehind pinging n before behind = All (λ l. l.id ≤ n) before × All (λ l. n < l.id) behind
IsBehind (finishing run) n before behind = All (λ l. l.id ≤ n) before × All (λ l. n < l.id) behind
IsBehind (signing run) n before behind = Unit
IsBehind closed n before behind = Unit

pub record IsCut (run_id : ℕ) (db : Db) (s : Stream) : Type 0 where
  pub before : List LogEntry
  pub behind : List LogEntry
  pub log : log_of run_id db ≡ before ++ behind
  pub got : received s.sent ≡ map to_data before
  pub split : IsBehind s.phase s.last_id before behind
  pub small : s.last_id < db.next_id

pub IsBehind-cons :
    (phase : Phase) (n : ℕ) (before behind : List LogEntry)
    → All (λ l. l.id ≤ n) before
    → All (λ l. n < l.id) behind
    → IsBehind phase n before behind
IsBehind-cons polling n before behind h k = (h, k)
IsBehind-cons checking n before behind h k = (h, k)
IsBehind-cons pinging n before behind h k = (h, k)
IsBehind-cons (finishing run) n before behind h k = (h, k)
IsBehind-cons (signing run) n before behind h k = tt
IsBehind-cons closed n before behind h k = tt

pub IsBehind-append :
    (phase : Phase) (n : ℕ) (before behind added : List LogEntry)
    → IsBehind phase n before behind
    → All (λ l. n < l.id) added
    → IsBehind phase n before (behind ++ added)
IsBehind-append polling n before behind added h k =
    (h.0, All-append (λ l. n < l.id) behind added h.1 k)
IsBehind-append checking n before behind added h k =
    (h.0, All-append (λ l. n < l.id) behind added h.1 k)
IsBehind-append pinging n before behind added h k =
    (h.0, All-append (λ l. n < l.id) behind added h.1 k)
IsBehind-append (finishing run) n before behind added h k =
    (h.0, All-append (λ l. n < l.id) behind added h.1 k)
IsBehind-append (signing run) n before behind added h k = tt
IsBehind-append closed n before behind added h k = tt

-- The query finds the entries that were not sent.
pub logs_after-eq-behind :
    (run_id n : ℕ) (db : Db) (before behind : List LogEntry)
    → IsKeyed db
    → log_of run_id db ≡ before ++ behind
    → All (λ l. l.id ≤ n) before
    → All (λ l. n < l.id) behind
    → logs_after run_id n db ≡ behind
unfolding logs_after
logs_after-eq-behind run_id n db before behind keyed log old new =
    let id = λ (l : LogEntry). l.id in
    let found : select (λ l. l.run_id == run_id && ltb n l.id) db.logs ≡ behind =
      select-and (λ (l : LogEntry). l.run_id == run_id) (λ l. ltb n l.id) db.logs
      ∙ rw log (select-split id n before behind old new) in
    let whole : IsSorted id (log_of run_id db) =
      IsSorted-select id (λ l. l.run_id == run_id) db.logs keyed.sorted in
    let cut : IsSorted id (before ++ behind) = rw log at whole in
    rw found (order_by-eq_self id behind (IsSorted-right id before behind cut))

module _ (run_id : ℕ) where
  pub batch-IsCut :
      (db : Db) (s : Stream) (before behind : List LogEntry)
      → received s.sent ≡ map to_data before
      → received (s.sent ++ batch_of behind) ≡ map to_data (before ++ behind)
  batch-IsCut db s before behind got =
      received-append s.sent (batch_of behind)
      ∙ rw (got, received-batch_of behind) (sym (map-append to_data before behind))

  pub IsSorted-behind :
      (db : Db) (before behind : List LogEntry)
      → IsKeyed db
      → log_of run_id db ≡ before ++ behind
      → IsSorted (λ (l : LogEntry). l.id) behind × All (λ l. l.id < db.next_id) behind
  IsSorted-behind db before behind keyed log =
      let id = λ (l : LogEntry). l.id in
      let mine = λ (l : LogEntry). l.run_id == run_id in
      let sorted : IsSorted id (log_of run_id db) = IsSorted-select id mine db.logs keyed.sorted in
      let small : All (λ l. l.id < db.next_id) (log_of run_id db) =
        All-select (λ l. l.id < db.next_id) mine db.logs keyed.below in
      let cut : IsSorted id (before ++ behind) = rw log at sorted in
      let small_cut : All (λ l. l.id < db.next_id) (before ++ behind) = rw log at small in
      (
        IsSorted-right id before behind cut,
        All-right (λ l. l.id < db.next_id) before behind small_cut,
      )
