-- ===== src/Tests/StreamTests.antt =====
-- The theorems on the websocket of a log at a small database.
use distributed_verification.Prelude.{◌≡◌, refl, none, some, List, [], ◌∷◌, ◌++◌, map, codes, arith}
use distributed_verification.Model.{RunStatus, LogEntry, Db}
use distributed_verification.Streaming.{
  Message, done, polling, checking, closed, Stream, to_data, advance, turns, opened, turn,
  StreamReach, here, next,
}
use distributed_verification.Streaming.Batches.{log_of, received}
use distributed_verification.Streaming.Cut.{IsKeyed}
use distributed_verification.Streaming.Prefix.{stream_sends_prefix, stream_ends}
use distributed_verification.Tests.Samples.{make_run, stale_holder}

-- Run 1 has ended, and has two log entries.
abbrev logged : Db
logged = record stale_holder {
  logs =
      record {
        id = 5;
        run_id = 1;
        client_id = some 1;
        level = codes "INFO";
        source = codes "session";
        message = codes "a";
      }
      ∷ record {
        id = 6;
        run_id = 1;
        client_id = some 1;
        level = codes "PASS";
        source = codes "t";
        message = codes "b";
      }
      ∷ [];
}

-- The stream behind its first query.
abbrev queried : Stream
queried = advance 1 logged polling opened

queried-StreamReach : StreamReach 1 (logged, opened) (logged, queried)
queried-StreamReach = next here (turn logged opened)

logged-IsKeyed : IsKeyed logged
logged-IsKeyed = record {
  sorted = ((omega arith, tt), (tt, tt));
  below = (omega arith, (omega arith, tt));
}

stream_sends_prefix_example :
    (before : List LogEntry) × (behind : List LogEntry) × (log_of 1 logged ≡ before ++ behind)
    × (received queried.sent ≡ map to_data before)
stream_sends_prefix_example =
    stream_sends_prefix 1 logged logged queried logged-IsKeyed (omega arith, (omega arith, tt))
      (omega arith) queried-StreamReach

queried_checks : queried.phase ≡ checking
unfolding advance
queried_checks = refl

stream_ends_example :
    (sent : List Message) × ((turns 1 3 logged queried).sent
      ≡ sent ++ done none RunStatus.completed ∷ [])
    × (received sent ≡ map to_data (log_of 1 logged))
    × ((turns 1 3 logged queried).phase ≡ closed)
stream_ends_example =
    stream_ends 1 logged logged queried (make_run 1 RunStatus.completed (some 1)) logged-IsKeyed
      (omega arith, (omega arith, tt)) (omega arith) queried-StreamReach queried_checks refl refl
