-- ===== src/Connection/Tests.antt =====
-- Runs of src/connection.rs, and the theorems at concrete states.
use nobase_agent.Prelude.{◌≡◌, ◌≤◌, refl, ◌++◌, none, some, [], ◌∷◌, ok, arith, eq_iff, All}
use nobase_agent.Proto.Rpc.{success}
use nobase_agent.Config.{SaveFaults, no_save_faults, needs_registration, load, set_credentials}
use nobase_agent.Connection.{
  Agent, Host, first_message, reconnect_value, handle_response, handle_rotate_key,
}
use nobase_agent.Connection.Credentials.{register_then_reconnect, Rotated, rotate_key_lem}
use nobase_agent.Connection.Backoff.{
  failed, closed, run_connection_loop, delays, capped_powers, run_connection_loop_bounded,
  run_connection_loop_doubles, run_connection_loop_resets,
}
use nobase_agent.Samples.{toml, wire, new_config, old_files, keyed}

abbrev host : Host
host = record {
  hostname = "h";
  os_type = "linux";
  os_version = "24.04";
  agent_version = "0.1.0";
  arch = "x86_64";
}

abbrev agent : Agent
agent = record { config = new_config; files = old_files }

first_connection : (first_message wire host "u" new_config).method ≡ "agent.register"
unfolding first_message needs_registration
first_connection = refl

-- The last failure came after 31 seconds.
delays_run :
    run_connection_loop 5 (failed 0 ∷ failed 3 ∷ failed 30 ∷ failed 31 ∷ failed 0 ∷ closed ∷ [])
    ≡ 1 ∷ 2 ∷ 4 ∷ 1 ∷ 2 ∷ []
unfolding run_connection_loop delays
delays_run = refl

register_then_reconnect_example :
    let b = handle_response wire toml "a" no_save_faults (success "1" "registered") agent in
    (load toml none "a" b.files ≡ ok keyed)
    × ((first_message wire host "u" b.config).method ≡ "agent.reconnect")
    × ((first_message wire host "u" b.config).params
        ≡ reconnect_value wire
            (record { api_key = "k1"; server_id = "s1"; hostname = "h"; agent_version = "0.1.0" }))
unfolding set_credentials
register_then_reconnect_example =
    register_then_reconnect wire toml "a" agent "1" "s1" "k1" "k1" "registered" host "u" refl refl
      refl refl refl

abbrev full_disk : SaveFaults
full_disk = record {
  write = some (record { left = some ""; message = "no space left" });
  rename = none;
}

rotate_key_lem_example :
    Rotated wire toml "a" "k2" agent (handle_rotate_key wire toml "a" full_disk "k2" agent)
rotate_key_lem_example =
    rotate_key_lem wire toml "a" full_disk "k2" "k2" agent
      (λ e. ground (arith, eq_iff "a.toml.tmp" "a")) refl

run_connection_loop_bounded_example :
    All (λ d. (1 ≤ d) × (d ≤ 300)) (run_connection_loop 300 (failed 0 ∷ failed 40 ∷ []))
run_connection_loop_bounded_example =
    run_connection_loop_bounded 300 (failed 0 ∷ failed 40 ∷ []) (omega arith) (omega arith)

run_connection_loop_doubles_example :
    run_connection_loop 300 (failed 0 ∷ failed 30 ∷ []) ≡ capped_powers 300 0 2
run_connection_loop_doubles_example =
    run_connection_loop_doubles 300 (failed 0 ∷ failed 30 ∷ []) (omega arith) (omega arith)
      (omega arith, (omega arith, tt))

run_connection_loop_resets_example :
    run_connection_loop 300 ((failed 0 ∷ failed 1 ∷ []) ++ failed 31 ∷ failed 2 ∷ [])
    ≡ run_connection_loop 300 (failed 0 ∷ failed 1 ∷ [])
      ++ run_connection_loop 300 (failed 0 ∷ failed 2 ∷ [])
run_connection_loop_resets_example =
    run_connection_loop_resets 300 31 (failed 0 ∷ failed 1 ∷ []) (failed 2 ∷ []) (omega arith)
      (tt, (tt, tt))
