-- ===== src/Dispatch/Receive.antt =====
-- The receive loop of src/connection.rs (`connect_and_run`) and the tasks that it starts, one for each
-- request.
use nobase_agent.Prelude.{
  ℕ, zero, suc, String, Bool, false, List, [], ◌∷◌, ◌++◌, Option, none, some, Result, ok, err,
  if◌then◌else◌,
}
use nobase_agent.Proto.Rpc.{RpcRequest, RpcResponse, RpcMessage, request, response}
use nobase_agent.Config.{SaveFaults}
use nobase_agent.Connection.{handle_response}
use nobase_agent.Dispatch.{Libraries, AgentState, Outcomes}
use nobase_agent.Streams.Exec.{Event, step}
use nobase_agent.Dispatch.Routes.{Background, messages, streaming, dispatch_request}

-- What comes over the WebSocket: a text, the close of the gateway, an error, or a ping and the like.
pub data Incoming : Type 0 where
  text : String → Incoming
  closed : Incoming
  broken : String → Incoming
  other : Incoming

-- The element at an index, and the list without it.
unfoldable pub pick {ℓ} : {A : Type ℓ} → ℕ → List A → Option (A × List A)
pick n [] = none
pick zero (x ∷ xs) = some (x, xs)
pick (suc n) (x ∷ xs) = elim (pick n xs) [ none ↦ none | some p ↦ some (p.0, x ∷ p.1) ]

-- The channel after a response, where that prints and the channel is open.
unfoldable pub append_reply : Result String String → Bool → List String → List String
append_reply (err e) receiving sent = sent
append_reply (ok msg) receiving sent = if receiving then sent ++ msg ∷ [] else sent

-- How a task that a handler has left running goes on.
pub data TaskStep : Type 0 where
  next_message : TaskStep
  stream_event : Event → TaskStep

module _ (libraries : Libraries) where
  open libraries use {wire, toml, config_path, printer}

  -- The shared state, the requests whose tasks have not dispatched them yet, the responses that their
  -- tasks have not put into the channel yet, what the handlers have left running, the texts that the
  -- channel got, and whether the loop still runs.
  pub record Session : Type 0 where
    pub state : AgentState libraries
    pub pending : List (RpcRequest wire.Value)
    pub answered : List (RpcResponse wire.Value)
    pub running : List Background
    pub sent : List String
    pub is_open : Bool

  -- Something arrives; a task dispatches its request, or puts its response into the channel, which takes
  -- it or is closed; what a handler left running goes on; or a task that no request has started (a shell's
  -- read thread, the heartbeat, the metrics push) puts a text into the channel. Tasks are named by their
  -- index.
  pub data SessionEvent : Type 0 where
    arrives : Incoming → SaveFaults → SessionEvent
    dispatches : ℕ → Outcomes libraries → SessionEvent
    replies : ℕ → Bool → SessionEvent
    goes_on : ℕ → TaskStep → SessionEvent
    puts : String → SessionEvent

  -- A parsed message: a request gets a task, a response is handled at once.
  unfoldable pub receive_message :
      SaveFaults → Result String (RpcMessage wire.Value) → Session → Session
  unfolding handle_response
  receive_message f (err e) s = s
  receive_message f (ok (request r)) s = record s { pending = s.pending ++ r ∷ [] }
  receive_message f (ok (response r)) s = record s {
    state = record s.state { agent = handle_response wire toml config_path f r s.state.agent };
  }

  -- A turn of the receive loop.
  unfoldable pub receive : SaveFaults → Incoming → Session → Session
  unfolding receive_message
  receive f (text t) s = if s.is_open then receive_message f (wire.parse_message t) s else s
  receive f closed s = record s { is_open = false }
  receive f (broken e) s = record s { is_open = false }
  receive f other s = s

  -- The task of a request: the dispatch, and what it leaves running.
  unfoldable pub dispatch_task :
      Outcomes libraries
      → Option (RpcRequest wire.Value × List (RpcRequest wire.Value))
      → Session
      → Session
  unfolding dispatch_request
  dispatch_task o none s = s
  dispatch_task o (some (r, rest)) s =
      let (reply, (state, background)) = dispatch_request libraries o r s.state in
      record s {
        state = state;
        pending = rest;
        answered = s.answered ++ reply ∷ [];
        running = s.running ++ background ∷ [];
      }

  -- The task of a request: its response.
  unfoldable pub send_reply :
      Bool → Option (RpcResponse wire.Value × List (RpcResponse wire.Value)) → Session → Session
  unfolding append_reply
  send_reply receiving none s = s
  send_reply receiving (some (a, rest)) s = record s {
    answered = rest;
    sent = append_reply (wire.print_response a) receiving s.sent;
  }

  -- What is left of a task that goes on, and what it puts into the channel.
  unfoldable pub go_on : TaskStep → Background → Background × List String
  unfolding step
  go_on next_message (messages (m ∷ more)) = (messages more, m ∷ [])
  go_on (stream_event e) (streaming stream_id task) =
      let after = step wire printer.encode stream_id e (record task { sent = [] }) in
      (streaming stream_id after, after.sent)
  go_on p b = (b, [])

  unfoldable pub go_on_picked : TaskStep → Option (Background × List Background) → Session → Session
  unfolding go_on
  go_on_picked p none s = s
  go_on_picked p (some (b, rest)) s =
      let (after, texts) = go_on p b in record s { running = after ∷ rest; sent = s.sent ++ texts }

  unfoldable pub advance : SessionEvent → Session → Session
  unfolding receive dispatch_task send_reply go_on_picked pick
  advance (arrives incoming f) s = receive f incoming s
  advance (dispatches n o) s = dispatch_task o (pick n s.pending) s
  advance (replies n receiving) s = send_reply receiving (pick n s.answered) s
  advance (goes_on n p) s = go_on_picked p (pick n s.running) s
  advance (puts msg) s = record s { sent = s.sent ++ msg ∷ [] }

  unfoldable pub session : List SessionEvent → Session → Session
  unfolding advance
  session [] s = s
  session (e ∷ events) s = session events (advance e s)
