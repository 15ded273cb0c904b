-- ===== src/Dispatch/Tasks.antt =====
-- The heartbeat task and the update check of src/connection.rs (`connect_and_run`).
use nobase_agent.Prelude.{String, Bool, true, [], ◌∷◌, Option, none, some, ok, err, if◌then◌else◌}
use nobase_agent.Proto.Rpc.{RpcRequest, notification}
use nobase_agent.Updater.{check_and_update}
use nobase_agent.Dispatch.{Libraries, AgentState, Outcomes}

module _ (libraries : Libraries) where
  open libraries use {wire, machine}
  open wire use {Value, string, object}

  unfoldable pub heartbeat : String → RpcRequest Value
  unfolding notification
  heartbeat timestamp =
      notification "agent.heartbeat" (object (("timestamp", string timestamp) ∷ []))

  -- A tick of the heartbeat: nothing where the task ends, or the text that it sends, if any.
  unfoldable pub heartbeat_tick : String → Bool → Option (Option String)
  unfolding heartbeat
  heartbeat_tick timestamp receiving = elim (wire.print_request (heartbeat timestamp)) [
    | err e ↦ some none
    | ok msg ↦ if receiving then some (some msg) else none
  ]

  -- The check for an update after the connection has stabilised; its result is only logged.
  unfoldable pub update_check : Outcomes libraries → AgentState libraries → AgentState libraries
  unfolding check_and_update
  update_check o s =
      let (r, i) =
        check_and_update machine o.backend o.update_faults s.agent.config.connection.backend_url
          true (record { fs = s.disk.fs; restarts = s.restarts }) in
      record s { disk = record s.disk { fs = i.fs }; restarts = i.restarts }
