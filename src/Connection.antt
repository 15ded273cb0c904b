-- ===== src/Connection.antt =====
-- src/connection.rs: the first message of a connection, the responses of the gateway, and the key
-- rotation of src/dispatcher.rs, which all go by the shared configuration and its file.
pub mod Credentials
pub mod Backoff
mod Tests
use nobase_agent.Prelude.{
  String, ◌<>◌, Bool, true, Option, none, some, List, [], ◌∷◌, Result, ok, err, if◌then◌else◌,
}
use nobase_agent.Proto.Rpc
use nobase_agent.Proto.Rpc.{
  RpcRequest, RpcResponse, is_error, Failure, fault, invalid_params, server_error,
}
use nobase_agent.Proto.Methods.{AgentRegisterRequest, AgentReconnectRequest}
use nobase_agent.Proto.Wire.{Wire}
use nobase_agent.Storage.{Files}
use nobase_agent.Config.{AgentConfig, Toml, SaveFaults, needs_registration, save, set_credentials}

-- What the tasks share: the configuration behind its lock, and the disk.
pub record Agent : Type 0 where
  pub config : AgentConfig
  pub files : Files

-- What the agent tells of its host.
pub record Host : Type 0 where
  pub hostname : String
  pub os_type : String
  pub os_version : String
  pub agent_version : String
  pub arch : String

abbrev pub with_key : String → AgentConfig → AgentConfig
with_key key c = record c { connection = record c.connection { api_key = key } }

module _ (wire : Wire) where
  open wire use {Value, string, object, boolean}

  abbrev pub register_value : AgentRegisterRequest → Value
  register_value r = object (
      ("registration_token", string r.registration_token)
      ∷ ("hostname", string r.hostname)
      ∷ ("os_type", string r.os_type)
      ∷ ("os_version", string r.os_version)
      ∷ ("agent_version", string r.agent_version)
      ∷ ("arch", string r.arch)
      ∷ [])

  abbrev pub reconnect_value : AgentReconnectRequest → Value
  reconnect_value r = object (
      ("api_key", string r.api_key)
      ∷ ("server_id", string r.server_id)
      ∷ ("hostname", string r.hostname)
      ∷ ("agent_version", string r.agent_version)
      ∷ [])

  -- Register or reconnect; `id` is a fresh uuid.
  unfoldable pub first_message : Host → String → AgentConfig → RpcRequest Value
  unfolding Rpc.new needs_registration
  first_message host id c =
      if needs_registration c
      then Rpc.new id "agent.register" (
          register_value (record {
            registration_token = c.connection.registration_token;
            hostname = host.hostname;
            os_type = host.os_type;
            os_version = host.os_version;
            agent_version = host.agent_version;
            arch = host.arch;
          }))
      else Rpc.new id "agent.reconnect" (
          reconnect_value (record {
            api_key = c.connection.api_key;
            server_id = c.connection.server_id;
            hostname = host.hostname;
            agent_version = host.agent_version;
          }))

  unfoldable pub rotated : Result String (Unit {0}) → Result Failure Value
  rotated (ok _) = ok (object (("ok", boolean true) ∷ []))
  rotated (err e) = err (fault server_error ("Failed to save new key: " <> e))

  module _ (toml : Toml) (path : String) where
    -- The new credentials stay in the shared configuration also where the save fails.
    unfoldable pub register : SaveFaults → String → String → Agent → Agent
    register f server_id api_key a =
        let c = set_credentials server_id api_key a.config in
        record { config = c; files = (save toml f c path a.files).1 }

    unfoldable pub handle_response : SaveFaults → RpcResponse Value → Agent → Agent
    unfolding register
    handle_response f response a = if is_error response then a else elim response.result [
      | none ↦ a
      | some value ↦ elim (wire.register_response value) [
        | err e ↦ a
        | ok reg ↦ register f reg.server_id reg.api_key a
      ]
    ]

    -- The new key stays in the shared configuration also where the save fails.
    unfoldable pub rotate : SaveFaults → String → Agent → Result Failure Value × Agent
    rotate f key a =
        let c = with_key key a.config in
        let (saved, files) = save toml f c path a.files in
        (rotated saved, record { config = c; files = files })

    -- `handle_rotate_key` of src/dispatcher.rs
    unfoldable pub handle_rotate_key : SaveFaults → Value → Agent → Result Failure Value × Agent
    unfolding rotate rotated
    handle_rotate_key f params a = elim (wire.rotate_key params) [
      | err e ↦ (err (fault invalid_params ("Invalid params: " <> e)), a)
      | ok req ↦ rotate f req.new_api_key a
    ]
