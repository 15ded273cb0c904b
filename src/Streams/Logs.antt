-- ===== src/Streams/Logs.antt =====
-- docker.logs of src/handlers/docker.rs (`handle_docker_logs`).
use nobase_agent.Prelude.{
  ℕ, String, ◌<>◌, Bool, true, List, [], ◌∷◌, ◌++◌, Option, none, some, Result, ok, err,
  if◌then◌else◌, pos, neg, map,
}
use nobase_agent.Proto.Rpc.{RpcResponse, Failure, fault, respond, invalid_params}
use nobase_agent.Proto.Methods.{StreamChannel, stdout, stderr, DockerLogsRequest}
use nobase_agent.Proto.Wire.{Wire}
use nobase_agent.FileSystem.{Bytes}
use nobase_agent.Upload.{unwrap_or_false}
use nobase_agent.Streams.{data_message, end_message, text_of}

-- What the stream of the daemon yields (`LogOutput`), or an error.
pub data LogItem : Type 0 where
  std_out : Bytes → LogItem
  std_err : Bytes → LogItem
  other : Bytes → LogItem
  broken : String → LogItem

unfoldable pub tail_option : (ℕ → String) → Option ℕ → String
tail_option print none = "all"
tail_option print (some t) = print t

-- The loop that collects both outputs.
unfoldable pub collect_logs : List LogItem → Bytes × Bytes
collect_logs [] = ([], [])
collect_logs (broken e ∷ items) = ([], [])
collect_logs (std_out m ∷ items) = let (out, errors) = collect_logs items in (m ++ out, errors)
collect_logs (std_err m ∷ items) = let (out, errors) = collect_logs items in (out, m ++ errors)
collect_logs (other m ∷ items) = collect_logs items

module _ (wire : Wire) (encode : Bytes → String) where
  open wire use {Value, string, object, boolean}

  -- A message of the following loop, and the rest of the loop where the channel takes it.
  abbrev follow_message : String → StreamChannel → Bytes → Bool → List String → List String
  follow_message stream_id channel m receiving rest =
      if receiving
      then text_of wire encode (data_message wire encode stream_id channel m) ∷ rest
      else []

  -- The loop that sends what comes; `receiving` says whether the channel takes a message then.
  unfoldable pub follow_loop : String → List (LogItem × Bool) → List String
  unfolding data_message
  follow_loop stream_id [] = []
  follow_loop stream_id ((std_out m, receiving) ∷ items) =
      let rest = follow_loop stream_id items in follow_message stream_id stdout m receiving rest
  follow_loop stream_id ((std_err m, receiving) ∷ items) =
      let rest = follow_loop stream_id items in follow_message stream_id stderr m receiving rest
  follow_loop stream_id ((other m, receiving) ∷ items) = follow_loop stream_id items
  follow_loop stream_id ((broken e, receiving) ∷ items) = []

  -- The background task of a request that follows: the loop, and the end with the code 0.
  unfoldable pub follow_task : String → List (LogItem × Bool) → Bool → List String
  unfolding follow_loop end_message
  follow_task stream_id items receiving =
      if receiving
      then follow_loop stream_id items
        ++ text_of wire encode (end_message wire encode stream_id (pos 0)) ∷ []
      else follow_loop stream_id items

  -- The daemon: an error of the connection, or what `docker.logs` yields for a container, a tail and
  -- whether to follow, with what the channel does.
  unfoldable pub docker_logs :
      (ℕ → String)
      → (Bytes → String)
      → Result String (String → String → Bool → List (LogItem × Bool))
      → Bool
      → DockerLogsRequest
      → Result Failure Value × List String
  unfolding follow_task collect_logs tail_option
  docker_logs print from_utf8_lossy (err e) receiving req =
      (err (fault (neg 1) ("Failed to connect to Docker: " <> e)), [])
  docker_logs print from_utf8_lossy (ok logs) receiving req =
      let follow = unwrap_or_false req.follow in
      let items = logs req.container_id (tail_option print req.tail) follow in
      if follow
      then (
        ok (object (("streaming", boolean true) ∷ ("stream_id", string req.stream_id) ∷ [])),
        follow_task req.stream_id items receiving,
      )
      else let (out, errors) = collect_logs (map (λ i. i.0) items) in
        (
          ok (
              object (
                ("stdout", string (from_utf8_lossy out))
                ∷ ("stderr", string (from_utf8_lossy errors))
                ∷ [])),
          [],
        )

  unfoldable pub handle_docker_logs :
      (ℕ → String)
      → (Bytes → String)
      → Result String (String → String → Bool → List (LogItem × Bool))
      → Bool
      → String
      → Value
      → RpcResponse Value × List String
  unfolding docker_logs
  handle_docker_logs print from_utf8_lossy daemon receiving id params =
      elim (wire.docker_logs params) [
        | err e ↦ (respond id (err (fault invalid_params ("Invalid params: " <> e))), [])
        | ok req ↦
            let (r, messages) = docker_logs print from_utf8_lossy daemon receiving req in
            (respond id r, messages)
      ]
