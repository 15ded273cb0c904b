-- ===== src/Dispatch/Replies.antt =====
-- Every response that the dispatch returns, src/dispatcher.rs, is one for its request.
use nobase_agent.Prelude.{
  ℕ, String, ◌<>◌, Bool, true, List, [], ◌∷◌, Option, none, some, Result, ok, err, Result-cases,
  Option-cases, inl, inr, unwrap_or, ℤ,
}
use nobase_agent.Proto.Rpc.{RpcRequest, RpcResponse, fault, method_not_found, invalid_params}
use nobase_agent.Proto.Rpc.Laws.{Answers, Answers-respond, Answers-reply}
use nobase_agent.Proto.Wire.{Wire}
use nobase_agent.FileSystem.{Bytes}
use nobase_agent.FileAccess.{
  handle_fs_read, handle_fs_write, read_file, write_file, written_value, read_value,
}
use nobase_agent.FileAccess
use nobase_agent.Listing.{list, stat}
use nobase_agent.Listing.Handlers.{handle_fs_list, handle_fs_stat, entries_value, stat_value}
use nobase_agent.Streams.Exec.{
  Command, Task, handle_exec, execute, exec_value, handle_system_info, system_info,
  system_info_value, handle_exec_stream, exec_stream,
}
use nobase_agent.Streams.Download.{Source, handle_fs_download, download}
use nobase_agent.Streams.Logs.{LogItem, handle_docker_logs, docker_logs}
use nobase_agent.FileCalls.{
  handle_fs_mkdir, handle_fs_delete, handle_fs_rename, handle_fs_search, mkdir, delete, move,
  search, search_command, matches_value,
}
use nobase_agent.Docker.{
  docker_list, handle_docker_list, summaries_value, handle_docker_inspect, docker_inspect,
}
use nobase_agent.Docker.Stats.{docker_stats, handle_docker_stats, containers_value}
use nobase_agent.Metrics.Payload.{build_metrics}
use nobase_agent.Shell.{
  handle_shell_open, handle_shell_data, handle_shell_resize, handle_shell_close,
}
use nobase_agent.Upload.{handle_fs_upload_start, handle_fs_upload_chunk, handle_fs_upload_end}
use nobase_agent.Dispatch.{Libraries, AgentState, Outcomes, Method, methods, find_method}
use nobase_agent.Dispatch
use nobase_agent.Dispatch.Routes.{
  handle, with_task, handle_ping, handle_self_update, dispatch_request,
}

module _ (wire : Wire) where
  handle_fs_write-Answers :
      (text : FileAccess.Text) (f : Option FileAccess.WriteFault) (tee : FileAccess.Tee)
      (id : String) (params : wire.Value) (d : FileAccess.Disk)
      → Answers id (handle_fs_write wire text f tee id params d).0
  unfolding handle_fs_write
  handle_fs_write-Answers text f tee id params d = elim (Result-cases (wire.fs_write params)) [
    | inr (e, p) ↦
        rw (p, handle_fs_write)
          (Answers-respond id (err (fault invalid_params ("Invalid params: " <> e))))
    | inl (req, p) ↦ elim (Result-cases (write_file text f tee req d).0) [
      | inr (e, q) ↦ rw (p, handle_fs_write, q) (Answers-respond id (err e))
      | inl (size, q) ↦
          rw (p, handle_fs_write, q) (Answers-respond id (ok (written_value wire text size)))
    ]
  ]

  handle_fs_download-Answers :
      (encode : Bytes → String) (print : ℤ → String) (source : Source) (id : String)
      (params : wire.Value)
      → Answers id (handle_fs_download wire encode print source id params).0
  unfolding handle_fs_download
  handle_fs_download-Answers encode print source id params =
      elim (Result-cases (wire.fs_download params)) [
        | inr (e, p) ↦
            rw (p, handle_fs_download)
              (Answers-respond id (err (fault invalid_params ("Invalid params: " <> e))))
        | inl (req, p) ↦
            rw (p, handle_fs_download)
              (Answers-respond id (download wire encode print source req).0)
      ]

  handle_docker_logs-Answers :
      (encode : Bytes → String) (print : ℕ → String) (lossy : Bytes → String)
      (daemon : Result String (String → String → Bool → List (LogItem × Bool))) (receiving : Bool)
      (id : String) (params : wire.Value)
      → Answers id (handle_docker_logs wire encode print lossy daemon receiving id params).0
  unfolding handle_docker_logs
  handle_docker_logs-Answers encode print lossy daemon receiving id params =
      elim (Result-cases (wire.docker_logs params)) [
        | inr (e, p) ↦
            rw (p, handle_docker_logs)
              (Answers-respond id (err (fault invalid_params ("Invalid params: " <> e))))
        | inl (req, p) ↦
            rw (p, handle_docker_logs)
              (Answers-respond id (docker_logs wire encode print lossy daemon receiving req).0)
      ]

  handle_exec_stream-Answers :
      (encode : Bytes → String) (spawn : Command → Result String (Bytes × Bytes)) (id : String)
      (params : wire.Value)
      → Answers id (handle_exec_stream wire encode spawn id params).0
  unfolding handle_exec_stream
  handle_exec_stream-Answers encode spawn id params =
      elim (Result-cases (wire.exec_stream params)) [
        | inr (e, p) ↦
            rw (p, handle_exec_stream)
              (Answers-respond id (err (fault invalid_params ("Invalid params: " <> e))))
        | inl (req, p) ↦ elim (Result-cases (exec_stream wire encode spawn req)) [
          | inr (f, q) ↦ rw (p, handle_exec_stream, q) (Answers-respond id (err f))
          | inl ((v, task), q) ↦ rw (p, handle_exec_stream, q) (Answers-respond id (ok v))
        ]
      ]

module _ (libraries : Libraries) where
  open libraries use {wire, text, names, printer, print, floats, float, parsing, metrics}

  with_task-Answers :
      (id stream_id : String) (p : RpcResponse wire.Value × Option Task) (s : AgentState libraries)
      → Answers id p.0
      → Answers id (with_task libraries stream_id p s).0
  with_task-Answers id stream_id (r, none) s h = h
  with_task-Answers id stream_id (r, some task) s h = h

  handle-Answers :
      (method : Method) (o : Outcomes libraries) (id : String) (params : wire.Value)
      (s : AgentState libraries)
      → Answers id (handle libraries method o id params s).0
  unfolding handle handle_ping handle_self_update handle_system_info handle_fs_list handle_fs_stat
      handle_exec handle_fs_read handle_fs_mkdir handle_fs_delete handle_fs_rename handle_fs_search
      handle_docker_list handle_docker_stats handle_docker_inspect handle_shell_open
      handle_shell_data handle_shell_resize handle_shell_close handle_fs_upload_start
      handle_fs_upload_chunk handle_fs_upload_end
  handle-Answers Dispatch.exec o id params s =
      Answers-reply id (wire.exec params) (execute printer o.run) (exec_value wire printer.encode)
  handle-Answers Dispatch.ping o id params s =
      Answers-respond id
        (ok (wire.object (("ok", wire.boolean true) ∷ ("timestamp", wire.string o.timestamp) ∷ [])))
  handle-Answers Dispatch.system_info o id params s =
      Answers-respond id (ok (system_info_value wire printer.encode (system_info o.host)))
  handle-Answers Dispatch.shell_open o id params s = Answers-respond id _
  handle-Answers Dispatch.shell_data o id params s = Answers-respond id _
  handle-Answers Dispatch.shell_resize o id params s = Answers-respond id _
  handle-Answers Dispatch.shell_close o id params s = Answers-respond id _
  handle-Answers Dispatch.fs_list o id params s =
      Answers-reply id (wire.fs_list params) (λ req. list names req o.ls o.directory)
        (entries_value wire names)
  handle-Answers Dispatch.fs_read o id params s =
      Answers-reply id (wire.fs_read params)
        (λ req. read_file text o.stat_fault o.read_fault o.cat req s.disk.fs s.disk.fs)
        (read_value wire text)
  handle-Answers Dispatch.fs_write o id params s =
      handle_fs_write-Answers wire text o.write_fault o.tee id params s.disk
  handle-Answers Dispatch.fs_stat o id params s =
      Answers-reply id (wire.fs_stat params) (λ req. stat names req o.stat_output o.stat)
        (stat_value wire names)
  handle-Answers Dispatch.fs_mkdir o id params s =
      Answers-reply id (wire.fs_mkdir params) (mkdir wire print o.calls) (λ v. v)
  handle-Answers Dispatch.fs_delete o id params s =
      Answers-reply id (wire.fs_delete params) (delete wire print o.calls) (λ v. v)
  handle-Answers Dispatch.fs_rename o id params s =
      Answers-reply id (wire.fs_rename params) (move wire print o.calls) (λ v. v)
  handle-Answers Dispatch.fs_search o id params s =
      Answers-reply id (wire.fs_search params)
        (λ req. search (o.find (search_command printer.print req))) (matches_value wire print)
  handle-Answers Dispatch.upload_start o id params s = Answers-respond id _
  handle-Answers Dispatch.upload_chunk o id params s = Answers-respond id _
  handle-Answers Dispatch.upload_end o id params s = Answers-respond id _
  handle-Answers Dispatch.fs_download o id params s =
      handle_fs_download-Answers wire printer.encode print o.source id params
  handle-Answers Dispatch.metrics_collect o id params s =
      Answers-respond id (ok (metrics (build_metrics floats parsing o.sample s.caches).0))
  handle-Answers Dispatch.exec_stream o id params s =
      with_task-Answers id _ (handle_exec_stream wire printer.encode o.spawn id params) s
        (handle_exec_stream-Answers wire printer.encode o.spawn id params)
  handle-Answers Dispatch.docker_list o id params s =
      Answers-reply id (wire.docker_list params) (docker_list wire names.to_lowercase o.docker_list)
        (summaries_value wire)
  handle-Answers Dispatch.docker_stats o id params s =
      Answers-reply id (wire.docker_stats params) (docker_stats floats o.docker_stats)
        (containers_value floats wire float)
  handle-Answers Dispatch.docker_inspect o id params s =
      Answers-reply id (wire.docker_inspect params) (docker_inspect wire o.docker_inspect) (λ v. v)
  handle-Answers Dispatch.docker_logs o id params s =
      handle_docker_logs-Answers wire printer.encode printer.print printer.from_utf8_lossy
        o.docker_logs o.log_end id params
  handle-Answers Dispatch.rotate_key o id params s = Answers-respond id _
  handle-Answers Dispatch.self_update o id params s = Answers-respond id _

  -- Whatever the method and its parameters, and whatever fails, the response that the dispatch of a
  -- request returns has its id, or the empty id where it has none, and either a result or an error.
  pub dispatch_request-Answers :
      (o : Outcomes libraries) (request : RpcRequest wire.Value) (s : AgentState libraries)
      → Answers (unwrap_or "" request.id) (dispatch_request libraries o request s).0
  unfolding dispatch_request
  dispatch_request-Answers o request s = elim (Option-cases (find_method methods request.method)) [
    | inl p ↦
        rw (p, dispatch_request)
          (Answers-respond (unwrap_or "" request.id)
            (err (fault method_not_found ("Method not found: " <> request.method))))
    | inr (method, p) ↦
        rw (p, dispatch_request)
          (handle-Answers method o (unwrap_or "" request.id) request.params s)
  ]
