-- ===== src/Dispatch/Tests.antt =====
-- Runs of the dispatch at concrete requests.
use nobase_agent.Prelude.{String, ◌≡◌, refl, true, some, List, [], ◌∷◌, ◌++◌, map, ok, ◌+◌, length}
use mathlib.Core.List.{Perm}
use nobase_agent.Config.{no_save_faults}
use nobase_agent.Proto.Rpc.{RpcRequest, RpcResponse, agent_timeout, method_not_found, error}
use nobase_agent.Proto.Rpc.Laws.{Answers}
use nobase_agent.Dispatch.Samples.{libraries, outcomes, state}
use nobase_agent.Dispatch.Routes.{streaming, dispatch_request, handle}
use nobase_agent.Proto.Methods.{stdout}
use nobase_agent.Streams.Exec.{turns, started, step}
use nobase_agent.Dispatch.Receive.{
  SessionEvent, arrives, dispatches, replies, puts, text, closed, session, advance, receive,
  receive_message, dispatch_task, send_reply, append_reply, pick, go_on, stream_event,
}
use nobase_agent.Dispatch.Merged.{Merged}
use nobase_agent.Dispatch.Trace.{
  reply_text, request_ids, reply_ids, open_ids, arrived, notes, connected,
}
use nobase_agent.Dispatch.Answered.{session_lem}
use nobase_agent.Dispatch.Replies.{dispatch_request-Answers}

abbrev request : String → RpcRequest String
request method = record { jsonrpc = "2.0"; id = some "7"; method = method; params = "ls" }

test_exec :
    (dispatch_request libraries outcomes (request "exec") state).0
    ≡ error "7" agent_timeout "Command timed out after 30000ms"
unfolding dispatch_request handle error
test_exec = refl

test_unknown :
    (dispatch_request libraries outcomes (request "exec ") state).0
    ≡ error "7" method_not_found "Method not found: exec "
unfolding dispatch_request error
test_unknown = refl

dispatch_request-Answers_example :
    Answers "7" (dispatch_request libraries outcomes (request "fs.upload.start") state).0
dispatch_request-Answers_example =
    dispatch_request-Answers libraries outcomes (request "fs.upload.start") state

-- Two requests arrive, the later one is answered first, while a shell puts a text into the channel; a
-- third request comes after the end.
abbrev events : List (SessionEvent libraries)
events =
    arrives (text "ping") no_save_faults
    ∷ arrives (text "exec") no_save_faults
    ∷ dispatches 1 outcomes
    ∷ puts "shell.data"
    ∷ replies 0 true
    ∷ arrives closed no_save_faults
    ∷ arrives (text "late") no_save_faults
    ∷ []

test_session :
    let u = session libraries events (connected libraries state) in
    (u.sent ≡ "shell.data" ∷ "" ∷ []) × (map (λ r. r.method) u.pending ≡ "ping" ∷ [])
unfolding session advance receive receive_message dispatch_task send_reply append_reply pick
test_session = (refl, refl)

abbrev chunk_text : String
chunk_text = "stream.data stream_id:s,channel:stdout,data:aGk=,"

-- A stream goes on with a chunk of its output.
test_go_on :
    go_on libraries
      (stream_event (turns stdout (record { outcome = ok 9; receiving = true })))
      (streaming "s" (started libraries.wire libraries.printer.encode (1 ∷ []) []))
    ≡ (
      streaming "s" (record (started libraries.wire libraries.printer.encode [] []) {
        sent = chunk_text ∷ [];
      }),
      chunk_text ∷ [],
    )
unfolding go_on step
test_go_on = refl

session_lem_example :
    let s = connected libraries state in
    let u = session libraries events s in
    (answers : List (RpcResponse String)) × Merged
      (map (reply_text libraries) answers)
      (notes libraries events s)
      u.sent
    × Perm
        (reply_ids libraries answers ++ open_ids libraries u)
        (request_ids libraries (arrived libraries true events))
    × (length u.running + length u.pending ≡ length (arrived libraries true events))
session_lem_example =
    session_lem libraries events state (λ a. (a.id, refl))
      (tt, (tt, (tt, (tt, (refl, (tt, (tt, tt)))))))
