-- ===== src/Metrics.antt =====
-- The probes of src/handlers/metrics.rs: what is calculated from the counters of the host and from the
-- output of commands, and what is cached.
pub mod Primary
pub mod Payload
mod Tests
use Prim.Native.String
use text.Mathlib.Text.{starts_with}
use nobase_agent.Prelude.{
  ℕ, zero, suc, ◌+◌, ◌*◌, ◌-◌, ◌^◌, String, ◌<>◌, Bool, true, false, not, ◌||◌, ◌&&◌, List, [], ◌∷◌,
  Option, none, some, Result, ok, err, if◌then◌else◌, ◌==ₛ◌, ltb, ◌==◌, map, select, lines, split,
  trim, parse_u64, is_whitespace, unwrap_or,
}
use nobase_agent.Docker.Stats.{Floats, add_u64}

-- An interface with the bytes that it has received and sent.
pub record Interface : Type 0 where
  pub name : String
  pub received : ℕ
  pub transmitted : ℕ

-- What the loop over the interfaces keeps.
pub record Traffic : Type 0 where
  pub primary : String
  pub max_traffic : ℕ
  pub rx_total : ℕ
  pub tx_total : ℕ

abbrev pub no_traffic : Traffic
no_traffic = record { primary = ""; max_traffic = 0; rx_total = 0; tx_total = 0 }

unfoldable pub is_virtual : String → Bool
is_virtual name =
    starts_with name "lo"
    || (starts_with name "veth" || (starts_with name "docker" || starts_with name "br-"))

-- A turn of the loop: the totals, and the interface with the most traffic, the first of equals.
unfoldable pub add_interface : Interface → Traffic → Traffic
unfolding is_virtual
add_interface i t =
    if is_virtual i.name
    then t
    else let traffic = add_u64 i.received i.transmitted in
      record {
        primary = if ltb t.max_traffic traffic then i.name else t.primary;
        max_traffic = if ltb t.max_traffic traffic then traffic else t.max_traffic;
        rx_total = add_u64 t.rx_total i.received;
        tx_total = add_u64 t.tx_total i.transmitted;
      }

unfoldable pub fold_interfaces : List Interface → Traffic → Traffic
unfolding add_interface
fold_interfaces [] t = t
fold_interfaces (i ∷ interfaces) t = fold_interfaces interfaces (add_interface i t)

-- `NetworkSnapshot`; the time is in nanoseconds.
pub record NetworkSnapshot : Type 0 where
  pub rx_total : ℕ
  pub tx_total : ℕ
  pub timestamp : ℕ

-- The rate of a counter: `(delta as f64 / elapsed) as u64`, for the nanoseconds that have passed. A
-- counter that has gone back counts as one that stands still.
unfoldable pub rate : (ℕ → ℕ → ℕ) → ℕ → ℕ → ℕ → ℕ
rate per_second total previous nanos = per_second (total - previous) nanos

-- The two rates and the snapshot that is kept: none at first, and none within a tenth of a second.
unfoldable pub rates :
    (ℕ → ℕ → ℕ) → ℕ → Traffic → Option NetworkSnapshot → (ℕ × ℕ) × Option NetworkSnapshot
unfolding rate
rates per_second now t prev = (
  elim prev [
    | none ↦ (0, 0)
    | some snapshot ↦
        let nanos = now - snapshot.timestamp in
        if ltb 100000000 nanos
        then (
          rate per_second t.rx_total snapshot.rx_total nanos,
          rate per_second t.tx_total snapshot.tx_total nanos,
        )
        else (0, 0)
  ],
  some (record { rx_total = t.rx_total; tx_total = t.tx_total; timestamp = now }),
)

-- A file system that is not shown.
unfoldable pub is_pseudo : String → Bool
is_pseudo fs =
    (fs ==ₛ "tmpfs")
    || ((fs ==ₛ "devtmpfs") || ((fs ==ₛ "overlay") || ((fs ==ₛ "squashfs") || (fs ==ₛ "efivarfs"))))

-- A disk of `sysinfo`.
pub record DiskInfo : Type 0 where
  pub mount_point : String
  pub file_system : String
  pub total_space : ℕ
  pub available_space : ℕ
  pub name : String

unfoldable pub shown_disks : List DiskInfo → List DiskInfo
unfolding is_pseudo
shown_disks disks = select (λ d. not (is_pseudo d.file_system)) disks

-- How a probing command ends: it does not run, or with a status that is success or not, and its output.
pub data Probe : Type 0 where
  absent : Probe
  ended : Bool → String → Probe

abbrev pub nth : ℕ → List String → Option String
nth n [] = none
nth zero (x ∷ xs) = some x
nth (suc n) (x ∷ xs) = nth n xs

-- `split_whitespace`
unfoldable pub split_whitespace : String → List String
split_whitespace s = select (λ w. not (w ==ₛ "")) (split is_whitespace s)

module _ (contains : String → String → Bool) where
  -- The speed in a line of dmidecode: the second word, where it is a number.
  unfoldable pub line_speed : String → Option ℕ
  unfolding split_whitespace
  line_speed line =
      if contains line "Speed:" && not (contains line "Unknown")
      then elim (nth 1 (split_whitespace line)) [ none ↦ none | some speed ↦ parse_u64 speed ]
      else none

  unfoldable pub first_speed : List String → Option ℕ
  unfolding line_speed
  first_speed [] = none
  first_speed (line ∷ rest) =
      let later = first_speed rest in elim (line_speed line) [ some mhz ↦ some mhz | none ↦ later ]

  -- The status of dmidecode does not matter.
  unfoldable pub memory_speed : Probe → Option ℕ
  unfolding first_speed
  memory_speed absent = none
  memory_speed (ended success stdout) = first_speed (lines stdout)

-- `get_or_init`
unfoldable pub get_or_init {ℓ} : {A : Type ℓ} → A → Option A → A × Option A
get_or_init probed none = (probed, some probed)
get_or_init probed (some a) = (a, some a)

-- `GpuMetrics` and `DockerMetrics`; `Float` stands for `f64`.
pub record GpuMetrics (Float : Type 0) : Type 0 where
  pub name : String
  pub memory_total_mb : ℕ
  pub memory_used_mb : ℕ
  pub usage_percent : Float
  pub temperature_celsius : Float

pub record DockerMetrics : Type 0 where
  pub installed : Bool
  pub version : String
  pub containers_total : ℕ
  pub containers_running : ℕ

-- `parse::<u32>().unwrap_or(0)`
abbrev pub number_u32 : String → ℕ
number_u32 s = elim (parse_u64 s) [ none ↦ 0 | some n ↦ if ltb n (2 ^ 32) then n else 0 ]

abbrev pub is_comma : ℕ → Bool
is_comma c = c == b','

abbrev pub is_bar : ℕ → Bool
is_bar c = c == b'|'

module _ {Float : Type 0} (parse_float : String → Float) where
  unfoldable pub gpu_of : List String → Option (GpuMetrics Float)
  gpu_of (name ∷ total ∷ used ∷ usage ∷ temperature ∷ rest) = some (record {
    name = name;
    memory_total_mb = unwrap_or 0 (parse_u64 total);
    memory_used_mb = unwrap_or 0 (parse_u64 used);
    usage_percent = parse_float usage;
    temperature_celsius = parse_float temperature;
  })
  gpu_of _ = none

  -- The first line of nvidia-smi, at its commas. `parse_float` is 0 where a text is not a number.
  unfoldable pub probe_gpu_metrics : Probe → Option (GpuMetrics Float)
  unfolding gpu_of
  probe_gpu_metrics absent = none
  probe_gpu_metrics (ended false stdout) = none
  probe_gpu_metrics (ended true stdout) = elim (lines stdout) [
    | [] ↦ none
    | line ∷ rest ↦ gpu_of (map trim (split is_comma (trim line)))
  ]

unfoldable pub docker_of : List String → Option DockerMetrics
docker_of (version ∷ total ∷ running ∷ rest) = some (record {
  installed = true;
  version = version;
  containers_total = number_u32 total;
  containers_running = number_u32 running;
})
docker_of _ = none

unfoldable pub docker_info : String → Option DockerMetrics
unfolding docker_of
docker_info stdout = docker_of (split is_bar (trim stdout))

-- `docker info`, and the same with sudo where its status is not success.
unfoldable pub probe_docker_metrics : (plain sudo : Probe) → Option DockerMetrics
unfolding docker_info
probe_docker_metrics absent sudo = none
probe_docker_metrics (ended true stdout) sudo = docker_info stdout
probe_docker_metrics (ended false stdout) absent = none
probe_docker_metrics (ended false stdout) (ended false again) = none
probe_docker_metrics (ended false stdout) (ended true again) = docker_info again

-- `PROBE_CACHE_TTL`, in nanoseconds
abbrev pub probe_cache_ttl : ℕ
probe_cache_ttl = 30 * 1000000000

-- `get_gpu_metrics` and `get_docker_metrics`: at the time `now`, the cached value where it is younger
-- than the limit, and else what the probe says, which is finished at the time `later`.
unfoldable pub get_cached {ℓ} : {A : Type ℓ} → ℕ → ℕ → A → Option (ℕ × A) → A × Option (ℕ × A)
get_cached now later probed none = (probed, some (later, probed))
get_cached now later probed (some (ts, cached)) =
    if ltb (now - ts) probe_cache_ttl
    then (cached, some (ts, cached))
    else (probed, some (later, probed))
