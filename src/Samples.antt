-- ===== src/Samples.antt =====
-- Concrete values of what the model takes as parameters, for the tests of the components.
use nobase_agent.Prelude.{
  String, ◌<>◌, true, none, List, [], ◌∷◌, ok, err, ◌==ₛ◌, if◌then◌else◌, ℤ, pos, negsuc,
}
use nobase_agent.Proto.Rpc.{request}
use nobase_agent.Proto.Wire.{Wire}
use nobase_agent.Storage.{Files}
use nobase_agent.Config.{
  AgentConfig, Toml, default_heartbeat, default_metrics, default_security, default_logging,
}
use nobase_agent.MetricsBuffer.{Codec, Clock}

-- Samples are their own texts, and one text does not parse.
abbrev pub codec : Codec
codec = record {
  Payload = String;
  to_string = λ m. ok m;
  from_str = λ s. if s ==ₛ "corrupt" then err "expected value" else ok s;
}

abbrev show : ℤ → String
show (pos n) = "+"
show (negsuc n) = "-"

abbrev show_fields : List (String × String) → String
show_fields [] = ""
show_fields ((k, v) ∷ fields) = k <> ":" <> v <> "," <> show_fields fields

abbrev show_items : List String → String
show_items [] = ""
show_items (v ∷ items) = v <> "," <> show_items items

-- Values are texts.
abbrev pub wire : Wire
wire = record {
  Value = String;
  null = "null";
  boolean = λ b. if b then "true" else "false";
  number = show;
  string = λ s. s;
  array = show_items;
  object = show_fields;
  parse_message =
      λ s. ok (request (record { jsonrpc = "2.0"; id = none; method = s; params = "" }));
  print_request = λ r. ok (r.method <> " " <> r.params);
  print_response = λ r. ok r.id;
  register_response = λ v.
      if v ==ₛ "registered"
      then ok (record { server_id = "s1"; api_key = "k1" })
      else err "missing field";
  fs_read = λ v.
      if v ==ₛ "bad"
      then err "missing field"
      else ok (record { path = v; encoding = none; sudo = none });
  fs_write = λ v.
      if v ==ₛ "bad"
      then err "missing field"
      else ok (record { path = v; content = ""; encoding = none; sudo = none; mode = none });
  upload_start = λ v.
      if v ==ₛ "bad"
      then err "missing field"
      else ok (record { transfer_id = "t"; path = v; total_size = 4; sudo = none });
  upload_chunk = λ v.
      if v ==ₛ "bad"
      then err "missing field"
      else ok (record { transfer_id = "t"; offset = 0; payload = v });
  upload_end = λ v.
      if v ==ₛ "bad"
      then err "missing field"
      else ok (record { transfer_id = "t"; checksum_sha256 = v });
  shell_open = λ v.
      if v ==ₛ "bad"
      then err "missing field"
      else ok (record { shell_id = v; cols = 80; rows = 24; env = none });
  shell_data =
      λ v. if v ==ₛ "bad" then err "missing field" else ok (record { shell_id = v; payload = "" });
  shell_resize = λ v.
      if v ==ₛ "bad"
      then err "missing field"
      else ok (record { shell_id = v; cols = 80; rows = 24 });
  shell_close = λ v. if v ==ₛ "bad" then err "missing field" else ok (record { shell_id = v });
  rotate_key = λ v. if v ==ₛ "bad" then err "missing field" else ok (record { new_api_key = v });
  exec = λ v.
      if v ==ₛ "bad"
      then err "missing field"
      else ok (record { command = v; sudo = none; timeout_ms = none; env = none });
  exec_stream = λ v.
      if v ==ₛ "bad"
      then err "missing field"
      else ok (record { command = v; sudo = none; stream_id = "x" });
  fs_list = λ v. if v ==ₛ "bad" then err "missing field" else ok (record { path = v; sudo = none });
  fs_stat = λ v. if v ==ₛ "bad" then err "missing field" else ok (record { path = v; sudo = none });
  fs_mkdir = λ v.
      if v ==ₛ "bad"
      then err "missing field"
      else ok (record { path = v; recursive = none; sudo = none });
  fs_delete = λ v.
      if v ==ₛ "bad"
      then err "missing field"
      else ok (record { path = v; recursive = none; sudo = none });
  fs_rename = λ v.
      if v ==ₛ "bad"
      then err "missing field"
      else ok (record { old_path = v; new_path = "b"; sudo = none });
  fs_search = λ v.
      if v ==ₛ "bad"
      then err "missing field"
      else ok (record { path = v; pattern = "*"; max_depth = none });
  fs_download = λ v.
      if v ==ₛ "bad"
      then err "missing field"
      else ok (record { transfer_id = "t"; path = v; sudo = none });
  docker_logs = λ v.
      if v ==ₛ "bad"
      then err "missing field"
      else ok (record { container_id = v; stream_id = "x"; tail = none; follow = none });
  docker_stats =
      λ v. if v ==ₛ "bad" then err "missing field" else ok (record { container_ids = v ∷ [] });
  docker_list = λ v. if v ==ₛ "bad" then err "missing field" else ok (record { all = true });
  docker_inspect =
      λ v. if v ==ₛ "bad" then err "missing field" else ok (record { container_id = v });
}

abbrev pub clock : Clock
clock = record { hours_ago = λ h. "2026-01-01"; minutes_ago = λ m. "2026-01-02" }

abbrev pub new_config : AgentConfig
new_config = record {
  connection = record {
    gateway_url = "wss://g/ws";
    api_key = "";
    registration_token = "t";
    server_id = "";
    backend_url = "";
  };
  heartbeat = default_heartbeat;
  metrics = default_metrics;
  security = default_security;
  logging = default_logging;
}

-- `new_config` after a registration as `s1` with the key `k1`, written out.
abbrev pub keyed : AgentConfig
keyed = record new_config {
  connection = record {
    gateway_url = "wss://g/ws";
    api_key = "k1";
    registration_token = "";
    server_id = "s1";
    backend_url = "";
  };
}

-- A configuration's text is its key; the text "new" is `new_config`.
abbrev pub toml : Toml
toml = record {
  from_str = λ s.
      if s ==ₛ "new"
      then ok new_config
      else ok (record keyed { connection = record keyed.connection { api_key = s } });
  to_string_pretty = λ c. ok c.connection.api_key;
  temporary = λ path. path <> ".toml.tmp";
}

abbrev pub old_files : Files
old_files = ("a", "new") ∷ []
