-- ===== src/Streams/Tests.antt =====
-- Runs of the streams at concrete inputs.
use nobase_agent.Prelude.{
  ℕ, String, ◌<>◌, ◌≡◌, refl, Bool, true, false, List, [], ◌∷◌, ◌++◌, none, some, ok, err, ◌⊎◌, ℤ,
  pos, neg, map, All, arith,
}
use nobase_agent.Samples.{wire}
use nobase_agent.Proto.Methods.{StreamChannel, stdout, stderr}
use nobase_agent.FileSystem.{Bytes}
use nobase_agent.Listing.{printed}
use nobase_agent.Streams.{Turn, exited, exit_code, joined_chunks}
use nobase_agent.Streams.Channels.{on_channel}
use nobase_agent.Streams.Prefix.{IsChunk, chunk_message, end_text, download_task_lem}
use nobase_agent.Streams.Drain.{download_drains}
use nobase_agent.Streams.Download.{Source, download_chunk_size, download_task}
use nobase_agent.Streams.Exec.{Event, turns, exits, run, started}
use nobase_agent.Streams.Order.{Interleaved, chunk_text}
use nobase_agent.Streams.Order
use nobase_agent.Streams.Runs.{run_interleaves}
use nobase_agent.Streams.Finish.{turn_events, exec_stream_drains}
use nobase_agent.Streams.Logs.{LogItem, std_out, std_err, other, collect_logs, follow_task}
use nobase_agent.Streams.Follow.{follow_task-collect_logs}

abbrev encode : Bytes → String
encode [] = ""
encode (b ∷ bytes) = "AA"

abbrev print : ℤ → String
print z = "-1"

abbrev calm : ℕ → Turn
calm n = record { outcome = ok n; receiving = true }

abbrev source : Source
source = record {
  stat = printed "5";
  metadata = ok 5;
  opening = ok (7 ∷ 8 ∷ 9 ∷ []);
  turns = calm 1 ∷ calm 0 ∷ calm 9 ∷ calm 4 ∷ [];
  waiting = exited (some (pos 0));
  receiving = true;
}

-- The channel is closed after the first chunk.
abbrev closing : Source
closing = record source {
  turns = calm 1 ∷ record { outcome = ok 0; receiving = false } ∷ [];
  receiving = false;
}

test_download :
    download_task wire encode print true "t" source
    ≡ "stream.data stream_id:t,channel:stdout,data:AA,"
      ∷ "stream.data stream_id:t,channel:stdout,data:AA," ∷ "stream.end stream_id:t,exit_code:+,"
      ∷ []
unfolding download_task
test_download = refl

test_closing :
    download_task wire encode print true "t" closing
    ≡ "stream.data stream_id:t,channel:stdout,data:AA," ∷ []
unfolding download_task
test_closing = refl

download_task_lem_example :
    let sent = download_task wire encode print true "t" closing in
    (chunks : List Bytes) × (left : Bytes) × (joined_chunks chunks ++ left ≡ 7 ∷ 8 ∷ 9 ∷ [])
    × All (IsChunk download_chunk_size) chunks
    × ((sent ≡ map (chunk_message wire encode print "t") chunks)
        ⊎ (((left ≡ [])
              × (sent
                  ≡ map (chunk_message wire encode print "t") chunks
                    ++ end_text wire encode print "t" (pos 0) ∷ []))
            ⊎ (sent
                ≡ map (chunk_message wire encode print "t") chunks
                  ++ end_text wire encode print "t" (neg 1) ∷ [])))
download_task_lem_example =
    download_task_lem wire encode print true "t" closing (7 ∷ 8 ∷ 9 ∷ []) refl

download_drains_example :
    (chunks : List Bytes) × (joined_chunks chunks ≡ 7 ∷ 8 ∷ 9 ∷ [])
    × All (IsChunk download_chunk_size) chunks
    × (download_task wire encode print true "t" source
        ≡ map (chunk_message wire encode print "t") chunks
          ++ end_text wire encode print "t" (pos 0) ∷ [])
download_drains_example =
    download_drains wire encode print true "t" source (7 ∷ 8 ∷ 9 ∷ []) refl
      (λ r. (r.method <> (" " <> r.params), refl))
      (((1, refl), refl), (((0, refl), refl), (((9, refl), refl), (((4, refl), refl), tt))))
      (omega arith) refl refl

abbrev events : List Event
events =
    turns stderr (calm 4)
    ∷ turns stdout (calm 0)
    ∷ turns stderr (calm 4)
    ∷ turns stdout (record { outcome = err "reset"; receiving = true })
    ∷ exits (exited none) true
    ∷ turns stdout (calm 4)
    ∷ []

run_interleaves_example :
    Interleaved wire encode "x"
      (1 ∷ 2 ∷ [])
      (3 ∷ [])
      (run wire encode "x" events (started wire encode (1 ∷ 2 ∷ []) (3 ∷ [])))
run_interleaves_example = run_interleaves wire encode "x" events (1 ∷ 2 ∷ []) (3 ∷ [])

abbrev ts : List (StreamChannel × Turn)
ts =
    (stderr, calm 4)
    ∷ (stdout, calm 0)
    ∷ (stderr, calm 4)
    ∷ (stdout, calm 7)
    ∷ (stdout, calm 7)
    ∷ []

exec_stream_drains_example :
    (chunks : List (StreamChannel × Bytes)) × (joined_chunks (on_channel stdout chunks)
      ≡ 1 ∷ 2 ∷ [])
    × (joined_chunks (on_channel stderr chunks) ≡ 3 ∷ [])
    × ((run wire encode "x"
          (turn_events ts ++ exits (exited none) true ∷ [])
          (started wire encode (1 ∷ 2 ∷ []) (3 ∷ []))).sent
        ≡ map (chunk_text wire encode "x") chunks ++ Order.end_text wire encode "x" (neg 1) ∷ [])
unfolding exit_code
exec_stream_drains_example =
    exec_stream_drains wire encode "x" ts (exited none) (1 ∷ 2 ∷ []) (3 ∷ [])
      (
        ((4, refl), refl),
        (((0, refl), refl), (((4, refl), refl), (((7, refl), refl), (((7, refl), refl), tt)))),
      )
      (omega arith) (omega arith)

abbrev log : List (LogItem × Bool)
log =
    (std_out (1 ∷ []), true)
    ∷ (std_err (2 ∷ []), true)
    ∷ (other (9 ∷ []), true)
    ∷ (std_out (3 ∷ []), true)
    ∷ []

test_collect_logs : collect_logs (map (λ i. i.0) log) ≡ (1 ∷ 3 ∷ [], 2 ∷ [])
unfolding collect_logs
test_collect_logs = refl

follow_task-collect_logs_example :
    (chunks : List (StreamChannel × Bytes)) × (follow_task wire encode "x" log true
      ≡ map (chunk_text wire encode "x") chunks ++ Order.end_text wire encode "x" (pos 0) ∷ [])
    × (collect_logs (map (λ i. i.0) log)
        ≡ (joined_chunks (on_channel stdout chunks), joined_chunks (on_channel stderr chunks)))
follow_task-collect_logs_example =
    follow_task-collect_logs wire encode "x" log (refl, (refl, (refl, (refl, tt))))
