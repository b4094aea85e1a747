-- ===== src/Streaming.antt =====
-- backend/app/api/routes.py: websocket_logs, the websocket that sends the log of a run while it
-- grows. Between two awaits nothing else runs, and an await is a send, a query or a sleep, so the
-- loop is cut into phases. The loss of the connection is a step of its own. Timestamps are left
-- out, as in the log.
pub mod Batches
pub mod Cut
pub mod Turns
pub mod Prefix
pub mod Sources
use distributed_verification.Prelude.{
  ℕ, zero, suc, ◌≡◌, ◌≤◌, ◌<◌, Bool, ◌&&◌, Option, none, some, List, [], ◌∷◌, ◌++◌, map, Text, ltb,
  leb, ◌==◌, if◌then◌else◌, All, IsSorted, select, order_by,
}
use distributed_verification.Model.{RunStatus, is_finished, Run, LogEntry, Db}
use distributed_verification.Access.{raise, ok, given_key, verify_run_owner}
use distributed_verification.Queue.{find_run}

-- One object of a batch.
pub record LogData : Type 0 where
  pub level : Text
  pub source : Text
  pub message : Text

-- A batch of log entries, which is empty to keep the connection alive, or the signal "__DONE__" with
-- the end of the run and its status.
pub data Message : Type 0 where
  batch : List LogData → Message
  done : Option ℕ → RunStatus → Message

-- Where the loop is: before the query of the new entries; before the look at the run; before the
-- ping; before the last query, and before the last message, with the run as it was read.
pub data Phase : Type 0 where
  polling checking pinging : Phase
  finishing signing : Run → Phase
  closed : Phase

pub record Stream : Type 0 where
  pub last_id : ℕ
  pub ping_counter : ℕ
  pub sent : List Message
  pub phase : Phase

abbrev pub to_data : LogEntry → LogData
to_data l = record { level = l.level; source = l.source; message = l.message }

-- `new_logs`, `final_logs`.
unfoldable pub logs_after : ℕ → ℕ → Db → List LogEntry
unfolding order_by
logs_after run_id last_id db =
    order_by (λ l. l.id) (select (λ l. l.run_id == run_id && ltb last_id l.id) db.logs)

-- `new_logs[-1].id`, or the old one if there are none.
abbrev pub last_of : ℕ → List LogEntry → ℕ
last_of last_id [] = last_id
last_of last_id (l ∷ ls) = last_of l.id ls

-- `if logs: await websocket.send_json(...)`.
abbrev pub batch_of : List LogEntry → List Message
batch_of [] = []
batch_of (l ∷ ls) = batch (map to_data (l ∷ ls)) ∷ []

unfoldable pub send_new : List LogEntry → Stream → Stream
send_new new_logs s = record s {
  last_id = last_of s.last_id new_logs;
  sent = s.sent ++ batch_of new_logs;
  phase = checking;
}

-- `if run and run.status in (...)`.
unfoldable pub check_run : Option Run → Stream → Stream
check_run none s = record s { phase = pinging }
check_run (some run) s = record s {
  phase = if is_finished run.status then finishing run else pinging;
}

unfoldable pub ping : Stream → Stream
ping s =
    if leb 30 (suc s.ping_counter)
    then record s { ping_counter = 0; sent = s.sent ++ batch [] ∷ []; phase = polling }
    else record s { ping_counter = suc s.ping_counter; phase = polling }

-- One step of the loop.
unfoldable pub advance : ℕ → Db → Phase → Stream → Stream
unfolding logs_after send_new check_run ping
advance run_id db polling s = send_new (logs_after run_id s.last_id db) s
advance run_id db checking s = check_run (find_run run_id db) s
advance run_id db pinging s = ping s
advance run_id db (finishing run) s = record s {
  sent = s.sent ++ batch_of (logs_after run_id s.last_id db);
  phase = signing run;
}
advance run_id db (signing run) s = record s {
  sent = s.sent ++ done run.finished_at run.status ∷ [];
  phase = closed;
}
advance run_id db closed s = s

-- Several steps, while the other tasks do nothing.
abbrev pub turns : ℕ → ℕ → Db → Stream → Stream
turns run_id zero db s = s
turns run_id (suc n) db s = turns run_id n db (advance run_id db s.phase s)

abbrev pub opened : Stream
opened = record { last_id = 0; ping_counter = 0; sent = []; phase = polling }

-- The websocket is closed with a code, or accepted.
pub data Opening : Type 0 where
  refused : ℕ → Opening
  accepted : Stream → Opening

unfoldable pub open_stream : ℕ → Option Text → Db → Opening
unfolding verify_run_owner
open_stream run_id client_key db = elim (given_key client_key) [
  | none ↦ refused 4001
  | some key ↦ elim (verify_run_owner run_id (some key) db) [
    | raise e ↦ refused 4003
    | ok run ↦ accepted opened
  ]
]

-- The other tasks add log entries, with ids that no entry had, and change the other tables at will.
pub record Grows (db after : Db) : Type 0 where
  pub added : List LogEntry
  pub appended : after.logs ≡ db.logs ++ added
  pub ids : db.next_id ≤ after.next_id
  pub fresh : All (λ l. db.next_id ≤ l.id) added
  pub below : All (λ l. l.id < after.next_id) added
  pub sorted : IsSorted (λ (l : LogEntry). l.id) added

-- What can happen: the loop goes on, the connection is lost, or another task adds log entries.
pub data StreamStep (run_id : ℕ) : Db × Stream → Db × Stream → Type 0 where
  turn : (db : Db) (s : Stream) → StreamStep run_id (db, s) (db, advance run_id db s.phase s)
  lose : (db : Db) (s : Stream) → StreamStep run_id (db, s) (db, record s { phase = closed })
  grow : (db after : Db) (s : Stream) → Grows db after → StreamStep run_id (db, s) (after, s)

pub data StreamReach (run_id : ℕ) (start : Db × Stream) : Db × Stream → Type 0 where
  here : StreamReach run_id start start
  next :
      {now later : Db × Stream}
      → StreamReach run_id start now
      → StreamStep run_id now later
      → StreamReach run_id start later
