-- ===== src/Metrics/Payload.antt =====
-- The sample that src/handlers/metrics.rs makes of the host (`build_metrics`), with the payloads of
-- proto/src/metrics.rs.
use nobase_agent.Prelude.{
  ℕ, ◌*◌, ◌/◌, ◌%◌, ◌^◌, String, Bool, List, [], ◌∷◌, Option, none, some, length, map, unwrap_or,
  trim, if◌then◌else◌,
}
use nobase_agent.Docker.Stats.{Floats}
use nobase_agent.Metrics.{
  Interface, NetworkSnapshot, no_traffic, fold_interfaces, rates, DiskInfo, shown_disks, Probe,
  memory_speed, get_or_init, GpuMetrics, DockerMetrics, probe_gpu_metrics, probe_docker_metrics,
  get_cached,
}

pub record OsInfo : Type 0 where
  pub name : String
  pub version : String
  pub kernel : String
  pub arch : String

pub record CpuMetrics (Float : Type 0) : Type 0 where
  pub model : String
  pub cores : ℕ
  pub usage_percent : Float
  pub temperature_celsius : Option Float
  pub mhz : Float

pub record MemoryMetrics : Type 0 where
  pub total_mb : ℕ
  pub used_mb : ℕ
  pub available_mb : ℕ
  pub swap_total_mb : ℕ
  pub swap_used_mb : ℕ
  pub speed_mhz : Option ℕ

pub record DiskMetrics (Float : Type 0) : Type 0 where
  pub mount : String
  pub filesystem : String
  pub total_gb : Float
  pub used_gb : Float
  pub available_gb : Float
  pub usage_percent : Float
  pub device : String

pub record NetworkMetrics (Float : Type 0) : Type 0 where
  pub interface : String
  pub rx_bytes_per_sec : ℕ
  pub tx_bytes_per_sec : ℕ
  pub rx_total_bytes : ℕ
  pub tx_total_bytes : ℕ
  pub latency_ms : Float

pub record MetricsPayload (Float : Type 0) : Type 0 where
  pub hostname : String
  pub os : OsInfo
  pub uptime_secs : ℕ
  pub cpu : CpuMetrics Float
  pub memory : MemoryMetrics
  pub disks : List (DiskMetrics Float)
  pub network : NetworkMetrics Float
  pub gpu : Option (GpuMetrics Float)
  pub docker : Option DockerMetrics

module _ (floats : Floats) where
  open floats use {Float, of_nat, minus, times, over, round, is_positive}

  -- What `sysinfo`, the thermal zone, the commands and the clock say of the host. A processor is its
  -- brand and its frequency. The two times of a probe are before and after it.
  pub record Sample : Type 0 where
    pub host_name : Option String
    pub os_name : Option String
    pub os : String
    pub os_version : Option String
    pub kernel_version : Option String
    pub arch : String
    pub uptime : ℕ
    pub cpus : List (String × ℕ)
    pub global_cpu_usage : Float
    pub thermal_zone : Option String
    pub total_memory : ℕ
    pub used_memory : ℕ
    pub available_memory : ℕ
    pub total_swap : ℕ
    pub used_swap : ℕ
    pub dmidecode : Probe
    pub disks : List DiskInfo
    pub interfaces : List Interface
    pub now : ℕ
    pub nvidia_smi : Probe
    pub gpu_times : ℕ × ℕ
    pub docker : Probe
    pub sudo_docker : Probe
    pub docker_times : ℕ × ℕ

  -- The statics that a sample reads and writes.
  pub record Caches : Type 0 where
    pub network : Option NetworkSnapshot
    pub speed : Option (Option ℕ)
    pub gpu : Option (ℕ × Option (GpuMetrics Float))
    pub docker : Option (ℕ × Option DockerMetrics)

  -- The calls of `f64` that texts and rates need.
  pub record Parsing : Type 0 where
    pub parse : String → Option Float
    pub per_second : ℕ → ℕ → ℕ
    pub contains : String → String → Bool

  abbrev tenths : Float → Float
  tenths x = over (round (times x (of_nat 10))) (of_nat 10)

  abbrev gigabytes : ℕ → Float
  gigabytes n = over (of_nat n) (of_nat (1024 * (1024 * 1024)))

  unfoldable pub disk_metrics : DiskInfo → DiskMetrics Float
  disk_metrics d =
      let total = gigabytes d.total_space in
      let available = gigabytes d.available_space in
      let used = minus total available in
      let usage = if is_positive total then times (over used total) (of_nat 100) else of_nat 0 in
      record {
        mount = d.mount_point;
        filesystem = d.file_system;
        total_gb = tenths total;
        used_gb = tenths used;
        available_gb = tenths available;
        usage_percent = tenths usage;
        device = d.name;
      }

  unfoldable pub cpu_temperature : Parsing → Option String → Option Float
  cpu_temperature p none = none
  cpu_temperature p (some content) = elim (p.parse (trim content)) [
    | none ↦ none
    | some millidegrees ↦ some (tenths (over millidegrees (of_nat 1000)))
  ]

  abbrev mebibytes : ℕ → ℕ
  mebibytes n = n / (1024 * 1024)

  abbrev first_cpu {ℓ} : {A : Type ℓ} → A → (String × ℕ → A) → List (String × ℕ) → A
  first_cpu default f [] = default
  first_cpu default f (c ∷ cpus) = f c

  unfoldable pub build_metrics : Parsing → Sample → Caches → MetricsPayload Float × Caches
  unfolding disk_metrics cpu_temperature fold_interfaces rates shown_disks memory_speed get_or_init
      get_cached probe_gpu_metrics probe_docker_metrics
  build_metrics p s caches =
      let (speed, speed_cache) = get_or_init (memory_speed p.contains s.dmidecode) caches.speed in
      let traffic = fold_interfaces s.interfaces no_traffic in
      let ((rx_rate, tx_rate), network_cache) = rates p.per_second s.now traffic caches.network in
      let (gpu, gpu_cache) =
        get_cached s.gpu_times.0 s.gpu_times.1
          (probe_gpu_metrics (λ t. unwrap_or (of_nat 0) (p.parse t)) s.nvidia_smi) caches.gpu in
      let (docker, docker_cache) =
        get_cached s.docker_times.0 s.docker_times.1 (probe_docker_metrics s.docker s.sudo_docker)
          caches.docker in
      (
        record {
          hostname = unwrap_or "unknown" s.host_name;
          os = record {
            name = unwrap_or s.os s.os_name;
            version = unwrap_or "unknown" s.os_version;
            kernel = unwrap_or "unknown" s.kernel_version;
            arch = s.arch;
          };
          uptime_secs = s.uptime;
          cpu = record {
            model = first_cpu "" (λ c. c.0) s.cpus;
            cores = length s.cpus % 2 ^ 32;
            usage_percent = tenths s.global_cpu_usage;
            temperature_celsius = cpu_temperature p s.thermal_zone;
            mhz = first_cpu (of_nat 0) (λ c. of_nat c.1) s.cpus;
          };
          memory = record {
            total_mb = mebibytes s.total_memory;
            used_mb = mebibytes s.used_memory;
            available_mb = mebibytes s.available_memory;
            swap_total_mb = mebibytes s.total_swap;
            swap_used_mb = mebibytes s.used_swap;
            speed_mhz = speed;
          };
          disks = map disk_metrics (shown_disks s.disks);
          network = record {
            interface = traffic.primary;
            rx_bytes_per_sec = rx_rate;
            tx_bytes_per_sec = tx_rate;
            rx_total_bytes = traffic.rx_total;
            tx_total_bytes = traffic.tx_total;
            latency_ms = of_nat 0;
          };
          gpu = gpu;
          docker = docker;
        },
        record {
          network = network_cache;
          speed = speed_cache;
          gpu = gpu_cache;
          docker = docker_cache;
        },
      )
