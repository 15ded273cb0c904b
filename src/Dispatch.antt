-- ===== src/Dispatch.antt =====
-- The state and the outcomes that a request meets, and the methods, src/dispatcher.rs.
pub mod Routes
pub mod Replies
pub mod Receive
pub mod Merged
pub mod Trace
pub mod Settling
pub mod Answered
pub mod Tasks
mod Samples
mod Tests
use nobase_agent.Prelude.{
  ℕ, String, Bool, List, [], ◌∷◌, Option, none, some, Result, ℤ, if◌then◌else◌, ◌==ₛ◌,
}
use nobase_agent.Prelude.Dict.{Dict}
use nobase_agent.Proto.Wire.{Wire}
use nobase_agent.FileSystem.{Bytes, FileSystem}
use nobase_agent.Config.{Toml, SaveFaults}
use nobase_agent.Connection.{Agent}
use nobase_agent.FileAccess
use nobase_agent.Upload.{System, UploadTransfer, StartFaults, ChunkFaults, EndFaults}
use nobase_agent.Shell.{Shells, Creation, Base64}
use nobase_agent.Updater.{Backend, UpdateFaults}
use nobase_agent.Updater
use nobase_agent.Listing.{Names, Output, DirStep, Stat}
use nobase_agent.Streams.Exec.{Command, Run, Printer}
use nobase_agent.Streams.Exec
use nobase_agent.Streams.Download.{Source}
use nobase_agent.Streams.Logs.{LogItem}
use nobase_agent.FileCalls.{SystemCall, Found}
use nobase_agent.FileCalls
use nobase_agent.Docker.{ListOptions, Container}
use nobase_agent.Docker.Stats.{Floats, Daemon}
use nobase_agent.Metrics.Payload.{Sample, Caches, Parsing, MetricsPayload}

-- What the agent is linked with, and the path of its configuration.
pub record Libraries : Type 1 where
  pub wire : Wire
  pub toml : Toml
  pub config_path : String
  pub text : FileAccess.Text
  pub system : System
  pub base64 : Base64
  pub names : Names
  pub printer : Printer
  pub print : ℤ → String
  pub machine : Updater.Machine
  pub version : String
  pub floats : Floats
  pub parsing : Parsing floats
  pub float : floats.Float → wire.Value
  pub metrics : MetricsPayload floats.Float → wire.Value

-- The state that the handlers share.
pub record AgentState (libraries : Libraries) : Type 0 where
  pub agent : Agent
  pub disk : FileAccess.Disk
  pub transfers : Dict UploadTransfer
  pub shells : Shells
  pub caches : Caches libraries.floats
  pub restarts : ℕ

-- What the host, the daemons and the backend do during a request. `changed` is what a command or a
-- call on paths does to the files.
pub record Outcomes (libraries : Libraries) : Type 0 where
  pub timestamp : String
  pub run : Command → ℕ → Run × ℕ
  pub host : Exec.HostInfo
  pub spawn : Command → Result String (Bytes × Bytes)
  pub creation : Creation
  pub written : Result String ℕ
  pub resized : Option String
  pub ls : Output
  pub directory : Result String (List DirStep)
  pub stat_output : Output
  pub stat : Stat
  pub stat_fault : Option String
  pub read_fault : Option String
  pub cat : FileAccess.Cat
  pub write_fault : Option FileAccess.WriteFault
  pub tee : FileAccess.Tee
  pub calls : FileCalls.Paths
  pub changed : FileSystem → FileSystem
  pub find : SystemCall → Found
  pub start_faults : StartFaults
  pub chunk_faults : ChunkFaults
  pub end_faults : EndFaults
  pub source : Source
  pub sample : Sample libraries.floats
  pub docker_list : Result String (ListOptions → Result String (List Container))
  pub docker_stats : Result String Daemon
  pub docker_inspect : Result String (String → Result String libraries.wire.Value)
  pub docker_logs : Result String (String → String → Bool → List (LogItem × Bool))
  pub log_end : Bool
  pub save_faults : SaveFaults
  pub backend : Backend
  pub update_faults : UpdateFaults

-- The methods, in the order of the source.
pub data Method : Type 0 where
  exec ping system_info : Method
  shell_open shell_data shell_resize shell_close : Method
  fs_list fs_read fs_write fs_stat fs_mkdir fs_delete fs_rename fs_search : Method
  upload_start upload_chunk upload_end fs_download : Method
  metrics_collect exec_stream : Method
  docker_list docker_stats docker_inspect docker_logs : Method
  rotate_key self_update : Method

abbrev pub methods : List (String × Method)
methods =
    ("exec", exec)
    ∷ ("agent.heartbeat", ping)
    ∷ ("heartbeat", ping)
    ∷ ("ping", ping)
    ∷ ("system.info", system_info)
    ∷ ("shell.open", shell_open)
    ∷ ("shell.data", shell_data)
    ∷ ("shell.resize", shell_resize)
    ∷ ("shell.close", shell_close)
    ∷ ("fs.list", fs_list)
    ∷ ("fs.read", fs_read)
    ∷ ("fs.write", fs_write)
    ∷ ("fs.stat", fs_stat)
    ∷ ("fs.mkdir", fs_mkdir)
    ∷ ("fs.delete", fs_delete)
    ∷ ("fs.rename", fs_rename)
    ∷ ("fs.search", fs_search)
    ∷ ("fs.upload.start", upload_start)
    ∷ ("fs.upload.chunk", upload_chunk)
    ∷ ("fs.upload.end", upload_end)
    ∷ ("fs.download", fs_download)
    ∷ ("metrics.collect", metrics_collect)
    ∷ ("exec.stream", exec_stream)
    ∷ ("docker.list", docker_list)
    ∷ ("docker.stats", docker_stats)
    ∷ ("docker.inspect", docker_inspect)
    ∷ ("docker.logs", docker_logs)
    ∷ ("rotate_key", rotate_key)
    ∷ ("self_update", self_update)
    ∷ []

unfoldable pub find_method : List (String × Method) → String → Option Method
find_method [] name = none
find_method ((key, method) ∷ rest) name =
    let later = find_method rest name in if name ==ₛ key then some method else later
