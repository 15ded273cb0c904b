-- ===== src/Proto/Wire.antt =====
-- The encoding of the messages, `serde_json`, which the agent calls and does not implement:
-- the values that it builds with `json!` and `to_value`, and the decoding of a method's parameters.
use nobase_agent.Prelude.{String, Bool, List, Result, ℤ}
use nobase_agent.Proto.Rpc.{RpcRequest, RpcResponse, RpcMessage}
use nobase_agent.Proto.Methods.{
  AgentRegisterResponse, FsReadRequest, FsWriteRequest, FsUploadStartRequest, FsUploadChunkRequest,
  FsUploadEndRequest, ShellOpenRequest, ShellDataRequest, ShellResizeRequest, ShellCloseRequest,
  RotateKeyRequest, ExecRequest, ExecStreamRequest, FsListRequest, FsStatRequest, FsMkdirRequest,
  FsDeleteRequest, FsRenameRequest, FsSearchRequest, FsDownloadRequest, DockerLogsRequest,
  DockerStatsRequest, DockerListRequest, DockerInspectRequest,
}

pub record Wire : Type 1 where
  pub Value : Type 0
  pub null : Value
  pub boolean : Bool → Value
  pub number : ℤ → Value
  pub string : String → Value
  pub array : List Value → Value
  pub object : List (String × Value) → Value
  pub parse_message : String → Result String (RpcMessage Value)
  pub print_request : RpcRequest Value → Result String String
  pub print_response : RpcResponse Value → Result String String
  pub register_response : Value → Result String AgentRegisterResponse
  pub fs_read : Value → Result String FsReadRequest
  pub fs_write : Value → Result String FsWriteRequest
  pub upload_start : Value → Result String FsUploadStartRequest
  pub upload_chunk : Value → Result String FsUploadChunkRequest
  pub upload_end : Value → Result String FsUploadEndRequest
  pub shell_open : Value → Result String ShellOpenRequest
  pub shell_data : Value → Result String ShellDataRequest
  pub shell_resize : Value → Result String ShellResizeRequest
  pub shell_close : Value → Result String ShellCloseRequest
  pub rotate_key : Value → Result String RotateKeyRequest
  pub exec : Value → Result String ExecRequest
  pub exec_stream : Value → Result String ExecStreamRequest
  pub fs_list : Value → Result String FsListRequest
  pub fs_stat : Value → Result String FsStatRequest
  pub fs_mkdir : Value → Result String FsMkdirRequest
  pub fs_delete : Value → Result String FsDeleteRequest
  pub fs_rename : Value → Result String FsRenameRequest
  pub fs_search : Value → Result String FsSearchRequest
  pub fs_download : Value → Result String FsDownloadRequest
  pub docker_logs : Value → Result String DockerLogsRequest
  pub docker_stats : Value → Result String DockerStatsRequest
  pub docker_list : Value → Result String DockerListRequest
  pub docker_inspect : Value → Result String DockerInspectRequest
