-- ===== src/Proto/Methods.antt =====
-- proto/src/methods.rs and proto/src/stream.rs: the payloads of the methods, field by field.
-- A `u64`, `u32` or `u16` is a number; an `i32` is an integer.
use nobase_agent.Prelude.{ℕ, String, Bool, Option, ℤ, List}
use nobase_agent.Prelude.Dict.{Dict}

pub record AgentRegisterRequest : Type 0 where
  pub registration_token : String
  pub hostname : String
  pub os_type : String
  pub os_version : String
  pub agent_version : String
  pub arch : String

pub record AgentRegisterResponse : Type 0 where
  pub server_id : String
  pub api_key : String

pub record AgentReconnectRequest : Type 0 where
  pub api_key : String
  pub server_id : String
  pub hostname : String
  pub agent_version : String

pub record ExecRequest : Type 0 where
  pub command : String
  pub sudo : Option Bool
  pub timeout_ms : Option ℕ
  pub env : Option (Dict String)

pub record ExecResponse : Type 0 where
  pub stdout : String
  pub stderr : String
  pub exit_code : ℤ
  pub duration_ms : ℕ

pub record ExecStreamRequest : Type 0 where
  pub command : String
  pub sudo : Option Bool
  pub stream_id : String

pub record ShellOpenRequest : Type 0 where
  pub shell_id : String
  pub cols : ℕ
  pub rows : ℕ
  pub env : Option (Dict String)

pub record ShellDataRequest : Type 0 where
  pub shell_id : String
  pub payload : String

pub record ShellResizeRequest : Type 0 where
  pub shell_id : String
  pub cols : ℕ
  pub rows : ℕ

pub record ShellCloseRequest : Type 0 where
  pub shell_id : String

pub record FsListRequest : Type 0 where
  pub path : String
  pub sudo : Option Bool

pub data FsEntryType : Type 0 where
  file directory symlink : FsEntryType

pub record FsEntry : Type 0 where
  pub name : String
  pub entry_type : FsEntryType
  pub size : ℕ
  pub permissions : String
  pub modified : String
  pub owner : String
  pub group : String

pub record FsStatRequest : Type 0 where
  pub path : String
  pub sudo : Option Bool

pub record FsStatResponse : Type 0 where
  pub entry : FsEntry
  pub exists : Bool

pub record FsMkdirRequest : Type 0 where
  pub path : String
  pub recursive : Option Bool
  pub sudo : Option Bool

pub record FsDeleteRequest : Type 0 where
  pub path : String
  pub recursive : Option Bool
  pub sudo : Option Bool

pub record FsRenameRequest : Type 0 where
  pub old_path : String
  pub new_path : String
  pub sudo : Option Bool

pub record FsSearchRequest : Type 0 where
  pub path : String
  pub pattern : String
  pub max_depth : Option ℕ

pub record FsDownloadRequest : Type 0 where
  pub transfer_id : String
  pub path : String
  pub sudo : Option Bool

pub data FsEncoding : Type 0 where
  utf8 base64 : FsEncoding

pub record FsReadRequest : Type 0 where
  pub path : String
  pub encoding : Option FsEncoding
  pub sudo : Option Bool

pub record FsReadResponse : Type 0 where
  pub content : String
  pub encoding : FsEncoding
  pub size : ℕ

pub record FsWriteRequest : Type 0 where
  pub path : String
  pub content : String
  pub encoding : Option FsEncoding
  pub sudo : Option Bool
  pub mode : Option String

pub record FsUploadStartRequest : Type 0 where
  pub transfer_id : String
  pub path : String
  pub total_size : ℕ
  pub sudo : Option Bool

pub record FsUploadChunkRequest : Type 0 where
  pub transfer_id : String
  pub offset : ℕ
  pub payload : String

pub record FsUploadEndRequest : Type 0 where
  pub transfer_id : String
  pub checksum_sha256 : String

pub record DockerStatsRequest : Type 0 where
  pub container_ids : List String

-- `Float` stands for `f64`.
pub record ContainerStats (Float : Type 0) : Type 0 where
  pub id : String
  pub name : String
  pub cpu_percent : Float
  pub memory_usage_mb : Float
  pub memory_limit_mb : Float
  pub memory_percent : Float
  pub network_rx_mb : Float
  pub network_tx_mb : Float
  pub block_read_mb : Float
  pub block_write_mb : Float
  pub pids : ℕ

pub record DockerInspectRequest : Type 0 where
  pub container_id : String

pub record DockerLogsRequest : Type 0 where
  pub container_id : String
  pub stream_id : String
  pub tail : Option ℕ
  pub follow : Option Bool

pub record DockerListRequest : Type 0 where
  pub all : Bool

pub record DockerPortMapping : Type 0 where
  pub container_port : ℕ
  pub host_port : Option ℕ
  pub protocol : String
  pub host_ip : Option String

pub record DockerContainerSummary : Type 0 where
  pub id : String
  pub name : String
  pub image : String
  pub state : String
  pub status : String
  pub created : ℤ
  pub ports : List DockerPortMapping
  pub networks : List String
  pub labels : Dict String

pub record SystemInfoResponse : Type 0 where
  pub hostname : String
  pub os_type : String
  pub os_version : String
  pub kernel : String
  pub arch : String
  pub uptime_secs : ℕ

pub record RotateKeyRequest : Type 0 where
  pub new_api_key : String

pub data StreamChannel : Type 0 where
  stdout stderr : StreamChannel

pub record StreamData : Type 0 where
  pub stream_id : String
  pub channel : StreamChannel
  pub payload : String

pub record StreamEnd : Type 0 where
  pub stream_id : String
  pub exit_code : ℤ
