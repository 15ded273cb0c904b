-- ===== src/Config.antt =====
-- src/config.rs: the agent's configuration, its file, and its credentials.
pub mod Persist
pub mod Accept
mod Tests
use text.Mathlib.Text.{◌==◌}
use nobase_agent.Prelude.{
  ℕ, String, ◌<>◌, Bool, true, false, ◌&&◌, Option, none, some, List, [], Result, ok, err,
  if◌then◌else◌,
}
use nobase_agent.Storage.{Files, read, write, rename, WriteFault}

pub record ConnectionConfig : Type 0 where
  pub gateway_url : String
  pub api_key : String
  pub registration_token : String
  pub server_id : String
  pub backend_url : String

pub record HeartbeatConfig : Type 0 where
  pub interval_secs : ℕ
  pub reconnect_max_delay_secs : ℕ

pub record MetricsConfig : Type 0 where
  pub collection_interval_secs : ℕ
  pub push_interval_secs : ℕ
  pub include_docker : Bool
  pub include_gpu : Bool
  pub buffer_retention_hours : ℕ
  pub buffer_path : String
  pub backfill_chunk_size : ℕ

pub record SecurityConfig : Type 0 where
  pub allowed_commands : List String
  pub allowed_paths : List String
  pub max_file_size_mb : ℕ

pub record LoggingConfig : Type 0 where
  pub level : String
  pub format : String
  pub log_file : Option String
  pub max_size_mb : ℕ
  pub max_files : ℕ

pub record AgentConfig : Type 0 where
  pub connection : ConnectionConfig
  pub heartbeat : HeartbeatConfig
  pub metrics : MetricsConfig
  pub security : SecurityConfig
  pub logging : LoggingConfig

abbrev pub default_heartbeat : HeartbeatConfig
default_heartbeat = record { interval_secs = 30; reconnect_max_delay_secs = 300 }

abbrev pub default_metrics : MetricsConfig
default_metrics = record {
  collection_interval_secs = 1;
  push_interval_secs = 5;
  include_docker = true;
  include_gpu = true;
  buffer_retention_hours = 24;
  buffer_path = "/var/lib/nobase/metrics.db";
  backfill_chunk_size = 300;
}

abbrev pub default_security : SecurityConfig
default_security = record { allowed_commands = []; allowed_paths = []; max_file_size_mb = 100 }

abbrev pub default_logging : LoggingConfig
default_logging = record {
  level = "info";
  format = "text";
  log_file = none;
  max_size_mb = 50;
  max_files = 3;
}

-- What the agent calls and does not implement: the `toml` crate, and `Path::with_extension`.
pub record Toml : Type 0 where
  pub from_str : String → Result String AgentConfig
  pub to_string_pretty : AgentConfig → Result String String
  pub temporary : String → String

abbrev pub is_empty : String → Bool
is_empty s = s == ""

-- The checks of `load`, on the parsed file.
unfoldable pub validate : AgentConfig → Result String AgentConfig
validate c =
    if is_empty c.connection.gateway_url
    then err "connection.gateway_url is required"
    else if is_empty c.connection.api_key && is_empty c.connection.registration_token
    then err "Either connection.api_key or connection.registration_token is required"
    else ok c

-- `AgentConfig::load`. The second argument is the error of a read of a file that is there.
unfoldable pub load : Toml → Option String → String → Files → Result String AgentConfig
unfolding validate
load toml unreadable path files = elim (read path files) [
  | none ↦ err ("Config file not found: " <> path)
  | some content ↦ elim unreadable [
    | some e ↦ err e
    | none ↦ elim (toml.from_str content) [ err e ↦ err e | ok c ↦ validate c ]
  ]
]

unfoldable pub needs_registration : AgentConfig → Bool
needs_registration c = is_empty c.connection.api_key

-- What fails while the file is saved.
pub record SaveFaults : Type 0 where
  pub write : Option WriteFault
  pub rename : Option String

abbrev pub no_save_faults : SaveFaults
no_save_faults = record { write = none; rename = none }

-- `AgentConfig::save`: the text goes to a temporary file, which is renamed over the old one.
unfoldable pub save :
    Toml → SaveFaults → AgentConfig → String → Files → Result String (Unit {0}) × Files
save toml f c path files = elim (toml.to_string_pretty c) [
  | err e ↦ (err e, files)
  | ok content ↦
      let (written, files') = write f.write (toml.temporary path) content files in
      elim written [
        | err e ↦ (err e, files')
        | ok _ ↦ rename f.rename (toml.temporary path) path files'
      ]
]

-- `AgentConfig::set_credentials`: the one-time token is cleared.
unfoldable pub set_credentials : String → String → AgentConfig → AgentConfig
set_credentials server_id api_key c = record c {
  connection = record c.connection {
    server_id = server_id;
    api_key = api_key;
    registration_token = "";
  };
}
