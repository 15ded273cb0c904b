-- ===== src/Docker/Stats.antt =====
-- docker.stats of src/handlers/docker.rs (`handle_docker_stats`).

use nobase_agent.Prelude.{
  ℕ, zero, suc, ◌+◌, ◌^◌, ◌%◌, String, ◌<>◌, ◌||◌, Bool, List, [], ◌∷◌, Option, none, some, Result,
  ok, err, neg, pos, if◌then◌else◌, ◌==ₛ◌, map, unwrap_or,
}
use nobase_agent.Proto.Rpc.{RpcResponse, reply, Failure, fault}
use nobase_agent.Proto.Methods.{DockerStatsRequest, ContainerStats}
use nobase_agent.Proto.Wire.{Wire}
use nobase_agent.Docker.{Container, ListOptions, running_only, connect_docker, trim_slashes}

-- `f64`, as far as the handlers calculate with it.
pub record Floats : Type 1 where
  pub Float : Type 0
  pub of_nat : ℕ → Float
  pub minus : Float → Float → Float
  pub times : Float → Float → Float
  pub over : Float → Float → Float
  pub round : Float → Float
  pub is_positive : Float → Bool

-- The counters of a container, `Stats` of bollard.
pub record Usage : Type 0 where
  pub name : String
  pub total_usage : ℕ
  pub system_cpu_usage : Option ℕ
  pub previous_total_usage : ℕ
  pub previous_system_cpu_usage : Option ℕ
  pub online_cpus : Option ℕ
  pub memory_usage : Option ℕ
  pub memory_limit : Option ℕ
  pub networks : Option (List (ℕ × ℕ))
  pub io_service_bytes : Option (List (String × ℕ))
  pub pids : Option ℕ

-- The daemon: what it lists, and the first item that its statistics of a container yield, if any.
pub record Daemon : Type 0 where
  pub list_containers : ListOptions → Result String (List Container)
  pub stats : String → Option (Result String Usage)

-- `u64` addition
abbrev pub add_u64 : ℕ → ℕ → ℕ
add_u64 a b = (a + b) % 2 ^ 64

-- `chars().take(n)`
unfoldable pub take_chars : ℕ → String → String
take_chars zero s = ""
take_chars (suc n) String.[] = ""
take_chars (suc n) (String.◌∷◌ c s) = String.◌∷◌ c (take_chars n s)

unfoldable pub filter_ids : List Container → List String
filter_ids [] = []
filter_ids (c ∷ containers) =
    let rest = filter_ids containers in elim c.id [ none ↦ rest | some id ↦ id ∷ rest ]

unfoldable pub network_bytes : ℕ × ℕ → List (ℕ × ℕ) → ℕ × ℕ
network_bytes totals [] = totals
network_bytes (rx, tx) ((r, t) ∷ nets) = network_bytes (add_u64 rx r, add_u64 tx t) nets

-- One entry of the block I/O counters is added to what was read or written.
unfoldable pub add_entry : ℕ × ℕ → String × ℕ → ℕ × ℕ
add_entry (r, w) (op, value) =
    if (op ==ₛ "read") || (op ==ₛ "Read")
    then (add_u64 r value, w)
    else if (op ==ₛ "write") || (op ==ₛ "Write")
    then (r, add_u64 w value)
    else (r, w)

unfoldable pub block_bytes : ℕ × ℕ → List (String × ℕ) → ℕ × ℕ
unfolding add_entry
block_bytes totals [] = totals
block_bytes totals (entry ∷ entries) = block_bytes (add_entry totals entry) entries

module _ (floats : Floats) where
  open floats use {Float, of_nat, minus, times, over, round, is_positive}

  -- Two places after the point.
  abbrev hundredths : Float → Float
  hundredths x = over (round (times x (of_nat 100))) (of_nat 100)

  abbrev megabytes : ℕ → Float
  megabytes n = over (of_nat n) (of_nat 1048576)

  abbrev percent : Float → Float → Float → Float
  percent part whole factor =
      if is_positive whole then times (times (over part whole) factor) (of_nat 100) else of_nat 0

  abbrev share : Float → Float → Float
  share part whole = if is_positive whole then times (over part whole) (of_nat 100) else of_nat 0

  unfoldable pub container_stats : String → Usage → ContainerStats Float
  unfolding take_chars network_bytes block_bytes trim_slashes
  container_stats container_id u =
      let cpu_delta = minus (of_nat u.total_usage) (of_nat u.previous_total_usage) in
      let system_delta =
        minus (of_nat (unwrap_or 0 u.system_cpu_usage))
          (of_nat (unwrap_or 0 u.previous_system_cpu_usage)) in
      let mem_usage = megabytes (unwrap_or 0 u.memory_usage) in
      let mem_limit = megabytes (unwrap_or 1 u.memory_limit) in
      let (rx_bytes, tx_bytes) = network_bytes (0, 0) (unwrap_or [] u.networks) in
      let (block_read, block_write) = block_bytes (0, 0) (unwrap_or [] u.io_service_bytes) in
      record {
        id = take_chars 12 container_id;
        name = if u.name ==ₛ "" then take_chars 12 container_id else trim_slashes u.name;
        cpu_percent =
            hundredths (percent cpu_delta system_delta (of_nat (unwrap_or 1 u.online_cpus)));
        memory_usage_mb = hundredths mem_usage;
        memory_limit_mb = hundredths mem_limit;
        memory_percent = hundredths (share mem_usage mem_limit);
        network_rx_mb = hundredths (megabytes rx_bytes);
        network_tx_mb = hundredths (megabytes tx_bytes);
        block_read_mb = hundredths (megabytes block_read);
        block_write_mb = hundredths (megabytes block_write);
        pids = unwrap_or 0 u.pids % 2 ^ 32;
      }

  -- The loop over the ids; a container whose statistics fail is left out.
  unfoldable pub collect_stats : Daemon → List String → List (ContainerStats Float)
  unfolding container_stats
  collect_stats daemon [] = []
  collect_stats daemon (id ∷ ids) =
      let rest = collect_stats daemon ids in
      elim (daemon.stats id) [
        | none ↦ rest
        | some (err e) ↦ rest
        | some (ok u) ↦ container_stats id u ∷ rest
      ]

  -- The ids of a request, or of all running containers where it names none.
  unfoldable pub stats_ids : Daemon → List String → Result Failure (List String)
  unfolding filter_ids
  stats_ids daemon [] = elim (daemon.list_containers running_only) [
    | err e ↦ err (fault (neg 1) ("Failed to list containers: " <> e))
    | ok containers ↦ ok (filter_ids containers)
  ]
  stats_ids daemon (id ∷ ids) = ok (id ∷ ids)

  unfoldable pub docker_stats :
      Result String Daemon → DockerStatsRequest → Result Failure (List (ContainerStats Float))
  unfolding stats_ids collect_stats
  docker_stats (err e) req = connect_docker (err e)
  docker_stats (ok daemon) req = elim (stats_ids daemon req.container_ids) [
    | err f ↦ err f
    | ok ids ↦ ok (collect_stats daemon ids)
  ]

  module _ (wire : Wire) (float : floats.Float → wire.Value) where
    open wire use {Value, string, number, array, object}

    unfoldable pub stats_value : ContainerStats Float → Value
    stats_value s = object (
        ("id", string s.id)
        ∷ ("name", string s.name)
        ∷ ("cpu_percent", float s.cpu_percent)
        ∷ ("memory_usage_mb", float s.memory_usage_mb)
        ∷ ("memory_limit_mb", float s.memory_limit_mb)
        ∷ ("memory_percent", float s.memory_percent)
        ∷ ("network_rx_mb", float s.network_rx_mb)
        ∷ ("network_tx_mb", float s.network_tx_mb)
        ∷ ("block_read_mb", float s.block_read_mb)
        ∷ ("block_write_mb", float s.block_write_mb)
        ∷ ("pids", number (pos s.pids))
        ∷ [])

    abbrev pub containers_value : List (ContainerStats Float) → Value
    containers_value found = object (("containers", array (map stats_value found)) ∷ [])

    unfoldable pub handle_docker_stats : Result String Daemon → String → Value → RpcResponse Value
    unfolding reply docker_stats stats_value
    handle_docker_stats daemon id params =
        reply id (wire.docker_stats params) (docker_stats daemon) containers_value
