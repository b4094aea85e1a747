-- ===== src/Streaming/Sources.antt =====
-- The log entries that a capture writes are what a websocket expects of the other tasks.
use mathlib.Core.List.{append-nil, append_assoc}
use distributed_verification.Prelude.{
  ℕ, suc, ◌+◌, ◌≡◌, sym, ◌∙◌, ◌≤◌, ◌<◌, Option, List, [], ◌∷◌, ◌++◌, arith, length, All, IsSorted,
}
use distributed_verification.Model.{LogEntry, Db}
use distributed_verification.Runner.Capture.{Entry, add_log, add_logs}
use distributed_verification.Streaming.{Grows}

module _ (run_id : ℕ) (client_id : Option ℕ) where
  -- The rows of the entries, from a primary key on.
  abbrev rows_of : ℕ → List Entry → List LogEntry
  rows_of id [] = []
  rows_of id (e ∷ es) =
      record {
        id = id;
        run_id = run_id;
        client_id = client_id;
        level = e.level;
        source = e.source;
        message = e.message;
      }
      ∷ rows_of (suc id) es

  logs-add_logs :
      (es : List Entry) (db : Db)
      → ((add_logs run_id client_id es db).logs ≡ db.logs ++ rows_of db.next_id es)
        × ((add_logs run_id client_id es db).next_id ≡ db.next_id + length es)
  unfolding add_logs add_log
  logs-add_logs [] db = (sym (append-nil db.logs), omega arith)
  logs-add_logs (e ∷ es) db =
      let (logs, next) = logs-add_logs es (add_log run_id client_id e db) in
      (logs ∙ append_assoc db.logs _ (rows_of (suc db.next_id) es), omega (arith, next))

  rows_of-above : (m id : ℕ) (es : List Entry) → m ≤ id → All (λ l. m ≤ l.id) (rows_of id es)
  rows_of-above m id [] h = tt
  rows_of-above m id (e ∷ es) h = (h, rows_of-above m (suc id) es (omega arith))

  rows_of-below :
      (m id : ℕ) (es : List Entry) → id + length es ≤ m → All (λ l. l.id < m) (rows_of id es)
  rows_of-below m id [] h = tt
  rows_of-below m id (e ∷ es) h = (omega arith, rows_of-below m (suc id) es (omega arith))

  IsSorted-rows_of : (id : ℕ) (es : List Entry) → IsSorted (λ (l : LogEntry). l.id) (rows_of id es)
  IsSorted-rows_of id [] = tt
  IsSorted-rows_of id (e ∷ es) =
      (rows_of-above id (suc id) es (omega arith), IsSorted-rows_of (suc id) es)

  -- The entries that a capture adds to the log have new ids that grow, behind those of the log.
  pub add_logs-Grows : (es : List Entry) (db : Db) → Grows db (add_logs run_id client_id es db)
  add_logs-Grows es db =
      let (logs, next) = logs-add_logs es db in
      record {
        added = rows_of db.next_id es;
        appended = logs;
        ids = omega (arith, next);
        fresh = rows_of-above db.next_id db.next_id es (omega arith);
        below =
            rows_of-below (add_logs run_id client_id es db).next_id db.next_id es
              (omega (arith, next));
        sorted = IsSorted-rows_of db.next_id es;
      }
