-- ===== src/Connection/Credentials.antt =====
-- What registration and key rotation leave in memory and on disk: src/connection.rs
-- (`handle_response`) and src/dispatcher.rs (`handle_rotate_key`).
use nobase_agent.Prelude.{String, ◌≡◌, ◌≢◌, refl, false, none, some, Result, ok, err}
use nobase_agent.Proto.Rpc.{success, is_error, Failure}
use nobase_agent.Proto.Wire.{Wire}
use nobase_agent.Storage.{Files, read}
use nobase_agent.Config.{
  AgentConfig, Toml, SaveFaults, no_save_faults, is_empty, load, validate, save, set_credentials,
}
use nobase_agent.Config.Persist.{Saved, save_atomic, load-save}
use nobase_agent.Connection.{
  Agent, Host, first_message, reconnect_value, register, handle_response, with_key, rotate, rotated,
  handle_rotate_key,
}

module _ (wire : Wire) (toml : Toml) (path : String) where
  handle_response-register :
      (f : SaveFaults) (a : Agent) (id server_id api_key : String) (value : wire.Value)
      → wire.register_response value ≡ ok (record { server_id = server_id; api_key = api_key })
      → handle_response wire toml path f (success id value) a
        ≡ register wire toml path f server_id api_key a
  unfolding handle_response success is_error
  handle_response-register f a id server_id api_key value reg = rw (reg, handle_response)

  validate-set_credentials :
      (c : AgentConfig) (server_id api_key : String)
      → is_empty api_key ≡ false
      → is_empty c.connection.gateway_url ≡ false
      → validate (set_credentials server_id api_key c) ≡ ok (set_credentials server_id api_key c)
  unfolding validate set_credentials
  validate-set_credentials c server_id api_key key gateway = rw (gateway, key)

  -- After the gateway has accepted a registration with a key, and the save did not fail, the agent
  -- loads the new credentials from its file, and the first message of its next connection is a
  -- reconnect with them. The file has a gateway, and the configuration survives print and parse.
  pub register_then_reconnect :
      (a : Agent) (id server_id api_key content : String) (value : wire.Value) (host : Host)
      (uuid : String)
      → wire.register_response value ≡ ok (record { server_id = server_id; api_key = api_key })
      → is_empty api_key ≡ false
      → is_empty a.config.connection.gateway_url ≡ false
      → toml.to_string_pretty (set_credentials server_id api_key a.config) ≡ ok content
      → toml.from_str content ≡ ok (set_credentials server_id api_key a.config)
      → let b = handle_response wire toml path no_save_faults (success id value) a in
        (load toml none path b.files ≡ ok (set_credentials server_id api_key a.config))
        × ((first_message wire host uuid b.config).method ≡ "agent.reconnect")
        × ((first_message wire host uuid b.config).params
            ≡ reconnect_value wire (record {
              api_key = api_key;
              server_id = server_id;
              hostname = host.hostname;
              agent_version = host.agent_version;
            }))
  unfolding register first_message set_credentials
  register_then_reconnect a id server_id api_key content value host uuid reg key gateway printed
        parsed =
      rw (handle_response-register no_save_faults a id server_id api_key value reg) (
        load-save toml (set_credentials server_id api_key a.config) content path a.files printed
            parsed (validate-set_credentials a.config server_id api_key key gateway),
        rw key,
        rw key,
      )

  -- What a rotation leaves: on success the new key in memory and on disk; on failure the file as
  -- it was, and the new key in memory.
  abbrev pub Rotated : String → Agent → Result Failure wire.Value × Agent → Type 0
  Rotated key a (ok _, b) =
      (b.config ≡ with_key key a.config)
      × ((content : String) × (toml.to_string_pretty (with_key key a.config) ≡ ok content)
          × (read path b.files ≡ some content))
  Rotated key a (err e, b) =
      (b.config ≡ with_key key a.config) × (read path b.files ≡ read path a.files)

  rotated-Rotated :
      (key : String) (a : Agent) (r : Result String (Unit {0})) (files : Files)
      → Saved toml (with_key key a.config) path a.files (r, files)
      → Rotated key a (rotated wire r, record { config = with_key key a.config; files = files })
  unfolding rotated
  rotated-Rotated key a (ok u) files s = (refl, s)
  rotated-Rotated key a (err e) files s = (refl, s)

  handle_rotate_key-rotate :
      (f : SaveFaults) (key : String) (params : wire.Value) (a : Agent)
      → wire.rotate_key params ≡ ok (record { new_api_key = key })
      → handle_rotate_key wire toml path f params a ≡ rotate wire toml path f key a
  unfolding handle_rotate_key
  handle_rotate_key-rotate f key params a parsed = rw (parsed, handle_rotate_key)

  -- A rotation whose parameters parse changes the key in memory, whether or not the save fails. If
  -- it reports success, the file holds the new configuration; if not, the file is as it was.
  pub rotate_key_lem :
      (f : SaveFaults) (key : String) (params : wire.Value) (a : Agent)
      → toml.temporary path ≢ path
      → wire.rotate_key params ≡ ok (record { new_api_key = key })
      → Rotated key a (handle_rotate_key wire toml path f params a)
  unfolding rotate
  rotate_key_lem f key params a ne parsed =
      let c = with_key key a.config in
      let (r, files) = save toml f c path a.files in
      rw (handle_rotate_key-rotate f key params a parsed)
        (rotated-Rotated key a r files (save_atomic toml f c path a.files ne))
