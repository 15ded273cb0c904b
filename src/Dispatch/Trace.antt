-- ===== src/Dispatch/Trace.antt =====
-- What a session of src/connection.rs is compared with: the requests that arrive, and the texts that other
-- tasks than those of the requests put into the channel.
use nobase_agent.Prelude.{
  String, ◌≡◌, Bool, true, false, List, [], ◌∷◌, ◌++◌, map, Option, none, some, Result, ok, err,
  unwrap_or, if◌then◌else◌,
}
use nobase_agent.Proto.Rpc.{RpcRequest, RpcResponse, RpcMessage, request, response}
use nobase_agent.Streams.Exec.{step}
use nobase_agent.Dispatch.{Libraries, AgentState}
use nobase_agent.Dispatch.Routes.{Background, idle, messages, streaming}
use nobase_agent.Dispatch.Receive.{
  text, closed, broken, other, pick, TaskStep, Session, SessionEvent, arrives, dispatches, replies,
  goes_on, puts, next_message, stream_event, advance,
}

module _ (libraries : Libraries) where
  open libraries use {wire, printer}

  abbrev pub id_of : RpcRequest wire.Value → String
  id_of r = unwrap_or "" r.id

  abbrev pub request_ids : List (RpcRequest wire.Value) → List String
  request_ids requests = map id_of requests

  abbrev pub reply_ids : List (RpcResponse wire.Value) → List String
  reply_ids answers = map (λ a. a.id) answers

  -- The ids of the requests whose responses are not in the channel yet.
  abbrev pub open_ids : Session libraries → List String
  open_ids s = reply_ids s.answered ++ request_ids s.pending

  -- The text of a response that prints.
  abbrev pub reply_text : RpcResponse wire.Value → String
  reply_text r = elim (wire.print_response r) [ ok s ↦ s | err e ↦ "" ]

  abbrev pub parsed_request : Result String (RpcMessage wire.Value) → List (RpcRequest wire.Value)
  parsed_request (ok (request r)) = r ∷ []
  parsed_request (ok (response r)) = []
  parsed_request (err e) = []

  -- The request that an event brings to a loop that runs or not, and whether the loop then runs.
  abbrev pub brought : SessionEvent libraries → Bool → List (RpcRequest wire.Value)
  brought (arrives (text t) f) is_open =
      if is_open then parsed_request (wire.parse_message t) else []
  brought (arrives closed f) is_open = []
  brought (arrives (broken e) f) is_open = []
  brought (arrives other f) is_open = []
  brought (dispatches n o) is_open = []
  brought (replies n receiving) is_open = []
  brought (goes_on n p) is_open = []
  brought (puts msg) is_open = []

  abbrev pub stays_open : SessionEvent libraries → Bool → Bool
  stays_open (arrives (text t) f) is_open = is_open
  stays_open (arrives closed f) is_open = false
  stays_open (arrives (broken e) f) is_open = false
  stays_open (arrives other f) is_open = is_open
  stays_open (dispatches n o) is_open = is_open
  stays_open (replies n receiving) is_open = is_open
  stays_open (goes_on n p) is_open = is_open
  stays_open (puts msg) is_open = is_open

  -- The requests that arrive before the loop ends.
  abbrev pub arrived : Bool → List (SessionEvent libraries) → List (RpcRequest wire.Value)
  arrived is_open [] = []
  arrived is_open (e ∷ events) =
      let rest = arrived (stays_open e is_open) events in brought e is_open ++ rest

  -- The texts that other tasks than those of the requests put into the channel.
  abbrev pub turn_of : TaskStep → Background → List String
  turn_of next_message idle = []
  turn_of next_message (messages []) = []
  turn_of next_message (messages (m ∷ more)) = m ∷ []
  turn_of next_message (streaming stream_id task) = []
  turn_of (stream_event e) idle = []
  turn_of (stream_event e) (messages more) = []
  turn_of (stream_event e) (streaming stream_id task) =
      (step wire printer.encode stream_id e (record task { sent = [] })).sent

  abbrev pub went_on : TaskStep → Option (Background × List Background) → List String
  went_on p none = []
  went_on p (some (b, rest)) = turn_of p b

  abbrev pub noted : SessionEvent libraries → Session libraries → List String
  noted (arrives incoming f) s = []
  noted (dispatches n o) s = []
  noted (replies n receiving) s = []
  noted (goes_on n p) s = went_on p (pick n s.running)
  noted (puts msg) s = msg ∷ []

  abbrev pub notes : List (SessionEvent libraries) → Session libraries → List String
  notes [] s = []
  notes (e ∷ events) s = let rest = notes events (advance libraries e s) in noted e s ++ rest

  -- The channel is open whenever a task puts its response into it.
  abbrev pub IsReceived : SessionEvent libraries → Type 0
  IsReceived (arrives incoming f) = Unit
  IsReceived (dispatches n o) = Unit
  IsReceived (replies n receiving) = receiving ≡ true
  IsReceived (goes_on n p) = Unit
  IsReceived (puts msg) = Unit

  abbrev pub Prints : Type 0
  Prints = (a : RpcResponse wire.Value) → (s : String) × (wire.print_response a ≡ ok s)

  -- A connection that has just been opened.
  abbrev pub connected : AgentState libraries → Session libraries
  connected state = record {
    state = state;
    pending = [];
    answered = [];
    running = [];
    sent = [];
    is_open = true;
  }
