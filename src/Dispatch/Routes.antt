-- ===== src/Dispatch/Routes.antt =====
-- The dispatch of a request to its handler, src/dispatcher.rs (`dispatch_request`, `handle_ping`,
-- `handle_rotate_key`, `handle_self_update`).
use nobase_agent.Prelude.{
  String, ◌<>◌, true, List, [], ◌∷◌, Option, none, some, Result, ok, err, unwrap_or,
}
use nobase_agent.Proto.Rpc.{
  RpcRequest, RpcResponse, Failure, fault, respond, method_not_found, server_error,
}
use nobase_agent.Proto.Methods.{ExecStreamRequest}
use nobase_agent.Connection.{handle_rotate_key}
use nobase_agent.FileSystem.{FileSystem}
use nobase_agent.FileAccess.{handle_fs_read, handle_fs_write}
use nobase_agent.Upload.{
  Uploads, handle_fs_upload_start, handle_fs_upload_chunk, handle_fs_upload_end,
}
use nobase_agent.Shell.{
  Shells, handle_shell_open, handle_shell_data, handle_shell_resize, handle_shell_close,
}
use nobase_agent.Updater.{
  UpdateResult, already_up_to_date, updated, not_configured, check_and_update,
}
use nobase_agent.Listing.Handlers.{handle_fs_list, handle_fs_stat}
use nobase_agent.Streams.Exec.{Task, handle_exec, handle_system_info, handle_exec_stream}
use nobase_agent.Streams.Download.{handle_fs_download}
use nobase_agent.Streams.Logs.{handle_docker_logs}
use nobase_agent.FileCalls.{handle_fs_mkdir, handle_fs_delete, handle_fs_rename, handle_fs_search}
use nobase_agent.Docker.{handle_docker_list, handle_docker_inspect}
use nobase_agent.Docker.Stats.{handle_docker_stats, take_chars}
use nobase_agent.Metrics.Payload.{build_metrics}
use nobase_agent.Dispatch.{Libraries, AgentState, Outcomes, Method, methods, find_method}
use nobase_agent.Dispatch

-- What a handler leaves running: nothing, a task that has messages to put into the channel, or the task
-- of exec.stream, with the id of its stream.
pub data Background : Type 0 where
  idle : Background
  messages : List String → Background
  streaming : String → Task → Background

module _ (libraries : Libraries) where
  open libraries use {
    wire, toml, config_path, text, system, base64, names, printer, print, machine, version, floats,
    parsing, float, metrics,
  }
  open wire use {Value, string, boolean, object}

  -- The response, the state after it, and what runs on.
  abbrev pub Reply : Type 0
  Reply = RpcResponse Value × (AgentState libraries × Background)

  unfoldable pub handle_ping : String → String → RpcResponse Value
  handle_ping timestamp id =
      respond id (ok (object (("ok", boolean true) ∷ ("timestamp", string timestamp) ∷ [])))

  abbrev status_name : UpdateResult → String
  status_name already_up_to_date = "up_to_date"
  status_name (updated old_hash new_hash) = "updated"
  status_name not_configured = "not_configured"

  -- The text of an `UpdateResult`
  unfoldable pub display : UpdateResult → String
  unfolding take_chars
  display already_up_to_date = "Already up-to-date (v" <> (version <> ")")
  display (updated old_hash new_hash) = "Updated to " <> take_chars 12 new_hash
  display not_configured = "backend_url not configured, skipping update check"

  unfoldable pub update_answer : Result String UpdateResult → Result Failure Value
  unfolding display
  update_answer (ok r) =
      ok (object (("status", string (status_name r)) ∷ ("message", string (display r)) ∷ []))
  update_answer (err e) = err (fault server_error ("Update failed: " <> e))

  unfoldable pub handle_self_update : Outcomes libraries → String → AgentState libraries → Reply
  unfolding check_and_update update_answer
  handle_self_update o id s =
      let (r, i) =
        check_and_update machine o.backend o.update_faults s.agent.config.connection.backend_url
          true (record { fs = s.disk.fs; restarts = s.restarts }) in
      (
        respond id (update_answer r),
        (record s { disk = record s.disk { fs = i.fs }; restarts = i.restarts }, idle),
      )

  -- A handler that changes nothing, one of the shells, and one of the uploads.
  abbrev pub plain : RpcResponse Value → AgentState libraries → Reply
  plain r s = (r, (s, idle))

  abbrev pub with_call :
      (FileSystem → FileSystem) → RpcResponse Value → AgentState libraries → Reply
  with_call changed r s = (r, (record s { disk = record s.disk { fs = changed s.disk.fs } }, idle))

  abbrev pub with_shells : RpcResponse Value × Shells → AgentState libraries → Reply
  with_shells (r, shells) s = (r, (record s { shells = shells }, idle))

  abbrev pub uploads_of : AgentState libraries → Uploads
  uploads_of s = record { transfers = s.transfers; fs = s.disk.fs }

  abbrev pub with_uploads : RpcResponse Value × Uploads → AgentState libraries → Reply
  with_uploads (r, u) s =
      (r, (record s { transfers = u.transfers; disk = record s.disk { fs = u.fs } }, idle))

  abbrev pub with_messages : RpcResponse Value × List String → AgentState libraries → Reply
  with_messages (r, sent) s = (r, (s, messages sent))

  abbrev pub with_task : String → RpcResponse Value × Option Task → AgentState libraries → Reply
  with_task stream_id (r, none) s = (r, (s, idle))
  with_task stream_id (r, some task) s = (r, (s, streaming stream_id task))

  -- The id of the stream that a request names.
  abbrev pub stream_id_of : Result String ExecStreamRequest → String
  stream_id_of (ok req) = req.stream_id
  stream_id_of (err e) = ""

  unfoldable pub handle :
      Method → Outcomes libraries → String → Value → AgentState libraries → Reply
  unfolding handle_ping handle_self_update handle_exec handle_system_info handle_fs_list
      handle_fs_stat handle_fs_read handle_fs_write handle_fs_mkdir handle_fs_delete
      handle_fs_rename handle_fs_search handle_fs_upload_start handle_fs_upload_chunk
      handle_fs_upload_end handle_fs_download handle_shell_open handle_shell_data
      handle_shell_resize handle_shell_close handle_exec_stream handle_docker_list
      handle_docker_stats handle_docker_inspect handle_docker_logs handle_rotate_key build_metrics
  handle Dispatch.exec o id params s =
      with_call o.changed (handle_exec wire printer.encode printer o.run id params) s
  handle Dispatch.ping o id params s = plain (handle_ping o.timestamp id) s
  handle Dispatch.system_info o id params s =
      plain (handle_system_info wire printer.encode o.host id) s
  handle Dispatch.shell_open o id params s =
      with_shells (handle_shell_open wire base64 o.creation id params s.shells) s
  handle Dispatch.shell_data o id params s =
      with_shells (handle_shell_data wire base64 o.written id params s.shells) s
  handle Dispatch.shell_resize o id params s =
      with_shells (handle_shell_resize wire base64 o.resized id params s.shells) s
  handle Dispatch.shell_close o id params s =
      with_shells (handle_shell_close wire base64 id params s.shells) s
  handle Dispatch.fs_list o id params s =
      plain (handle_fs_list wire names o.ls o.directory id params) s
  handle Dispatch.fs_read o id params s =
      plain (handle_fs_read wire text o.stat_fault o.read_fault o.cat id params s.disk.fs s.disk.fs)
        s
  handle Dispatch.fs_write o id params s =
      let (r, d) = handle_fs_write wire text o.write_fault o.tee id params s.disk in
      (r, (record s { disk = d }, idle))
  handle Dispatch.fs_stat o id params s =
      plain (handle_fs_stat wire names o.stat_output o.stat id params) s
  handle Dispatch.fs_mkdir o id params s =
      with_call o.changed (handle_fs_mkdir wire print o.calls id params) s
  handle Dispatch.fs_delete o id params s =
      with_call o.changed (handle_fs_delete wire print o.calls id params) s
  handle Dispatch.fs_rename o id params s =
      with_call o.changed (handle_fs_rename wire print o.calls id params) s
  handle Dispatch.fs_search o id params s =
      plain (handle_fs_search wire print printer.print o.find id params) s
  handle Dispatch.upload_start o id params s =
      with_uploads (handle_fs_upload_start wire system o.start_faults id params (uploads_of s)) s
  handle Dispatch.upload_chunk o id params s =
      with_uploads (handle_fs_upload_chunk wire system o.chunk_faults id params (uploads_of s)) s
  handle Dispatch.upload_end o id params s =
      with_uploads (handle_fs_upload_end wire system o.end_faults id params (uploads_of s)) s
  handle Dispatch.fs_download o id params s =
      with_messages (handle_fs_download wire printer.encode print o.source id params) s
  handle Dispatch.metrics_collect o id params s =
      let (payload, caches) = build_metrics floats parsing o.sample s.caches in
      (respond id (ok (metrics payload)), (record s { caches = caches }, idle))
  handle Dispatch.exec_stream o id params s =
      with_task (stream_id_of (wire.exec_stream params))
        (handle_exec_stream wire printer.encode o.spawn id params) s
  handle Dispatch.docker_list o id params s =
      plain (handle_docker_list wire names.to_lowercase o.docker_list id params) s
  handle Dispatch.docker_stats o id params s =
      plain (handle_docker_stats floats wire float o.docker_stats id params) s
  handle Dispatch.docker_inspect o id params s =
      plain (handle_docker_inspect wire o.docker_inspect id params) s
  handle Dispatch.docker_logs o id params s =
      with_messages
        (handle_docker_logs wire printer.encode printer.print printer.from_utf8_lossy o.docker_logs
          o.log_end id params)
        s
  handle Dispatch.rotate_key o id params s =
      let (r, agent) = handle_rotate_key wire toml config_path o.save_faults params s.agent in
      (respond id r, (record s { agent = agent }, idle))
  handle Dispatch.self_update o id params s = handle_self_update o id s

  -- A request without an id is answered with the empty id.
  unfoldable pub dispatch_request :
      Outcomes libraries → RpcRequest Value → AgentState libraries → Reply
  unfolding handle find_method
  dispatch_request o request s =
      let id = unwrap_or "" request.id in
      elim (find_method methods request.method) [
        | none ↦
            plain
              (respond id (err (fault method_not_found ("Method not found: " <> request.method)))) s
        | some method ↦ handle method o id request.params s
      ]
