-- ===== src/Dispatch/Samples.antt =====
-- Concrete libraries, outcomes and a state, for the tests of the dispatch.
use nobase_agent.Prelude.{ℕ, true, false, none, some, [], ◌∷◌, ok, err, pos}
use nobase_agent.Samples.{wire, toml, keyed, old_files}
use nobase_agent.Config.{no_save_faults}
use nobase_agent.FileAccess.{exited}
use nobase_agent.FileAccess
use nobase_agent.Upload.{moved, no_start_faults, no_chunk_faults, no_end_faults}
use nobase_agent.Shell.{no_pty}
use nobase_agent.Updater.{no_update_faults}
use nobase_agent.Listing.{printed, not_found}
use nobase_agent.Streams
use nobase_agent.Streams.Exec.{elapsed}
use nobase_agent.FileCalls.{succeeded}
use nobase_agent.Docker.Stats.{Floats}
use nobase_agent.Metrics.{absent}
use nobase_agent.Dispatch.{Libraries, AgentState, Outcomes}

-- Whole numbers.
abbrev floats : Floats
floats = record {
  Float = ℕ;
  of_nat = λ n. n;
  minus = λ a b. a;
  times = λ a b. a;
  over = λ a b. a;
  round = λ a. a;
  is_positive = λ a. true;
}

abbrev pub libraries : Libraries
libraries = record {
  wire = wire;
  toml = toml;
  config_path = "a";
  text = record {
    from_utf8 = λ bytes. some "hi";
    into_bytes = λ s. 104 ∷ 105 ∷ [];
    encode = λ bytes. "aGk=";
    decode = λ s. ok (104 ∷ 105 ∷ []);
    from_octal = λ s. some 420;
    print = λ n. "n";
  };
  system = record {
    sha256 = λ bytes. "ab";
    decode = λ s. ok (1 ∷ 2 ∷ []);
    sudo_mv = λ tmp path fs. (moved, fs);
  };
  base64 = record { encode = λ bytes. "YQ=="; decode = λ s. ok (97 ∷ []) };
  names = record {
    user = λ uid. none;
    group = λ gid. none;
    rfc3339 = λ secs. none;
    print = λ n. "n";
    to_lowercase = λ s. s;
    file_name = λ path. some path;
    contains = λ s t. false;
  };
  printer = record {
    from_utf8_lossy = λ bytes. "hi";
    print = λ n. "30000";
    encode = λ bytes. "aGk=";
  };
  print = λ z. "-1";
  machine = record { arch = "x86_64"; sha256 = λ bytes. "ab" };
  version = "0.1.0";
  floats = floats;
  parsing = record {
    parse = λ s. none;
    per_second = λ delta nanos. delta;
    contains = λ s t. false;
  };
  float = λ x. "1.0";
  metrics = λ payload. payload.hostname;
}

-- No command ends in time, and nothing is there.
abbrev pub outcomes : Outcomes libraries
outcomes = record {
  timestamp = "2026-01-01";
  run = λ command timeout. (elapsed, timeout);
  host = record {
    hostname = ok "h";
    os_type = "linux";
    os_version = none;
    kernel_version = none;
    arch = "x86_64";
    uptime = 5;
  };
  spawn = λ command. ok ([], []);
  creation = no_pty "out of ptys";
  written = ok 1;
  resized = none;
  ls = printed "";
  directory = ok [];
  stat_output = printed "";
  stat = not_found;
  stat_fault = none;
  read_fault = none;
  cat = FileAccess.printed [];
  write_fault = none;
  tee = exited 0 none;
  calls = record {
    perform = λ call. none;
    status = λ call. Streams.exited (some (pos 0));
    is_dir = λ path. ok false;
  };
  changed = λ fs. fs;
  find = λ call. succeeded "";
  start_faults = no_start_faults;
  chunk_faults = no_chunk_faults;
  end_faults = no_end_faults;
  source = record {
    stat = printed "";
    metadata = ok 0;
    opening = ok [];
    turns = [];
    waiting = Streams.exited none;
    receiving = true;
  };
  sample = record {
    host_name = some "h";
    os_name = none;
    os = "linux";
    os_version = none;
    kernel_version = none;
    arch = "x86_64";
    uptime = 5;
    cpus = [];
    global_cpu_usage = 0;
    thermal_zone = none;
    total_memory = 0;
    used_memory = 0;
    available_memory = 0;
    total_swap = 0;
    used_swap = 0;
    dmidecode = absent;
    disks = [];
    interfaces = [];
    now = 0;
    nvidia_smi = absent;
    gpu_times = (0, 0);
    docker = absent;
    sudo_docker = absent;
    docker_times = (0, 0);
  };
  docker_list = err "no socket";
  docker_stats = err "no socket";
  docker_inspect = err "no socket";
  docker_logs = err "no socket";
  log_end = true;
  save_faults = no_save_faults;
  backend = record {
    client = some "no network";
    get_checksum = λ url. err "no network";
    get_binary = λ url. err "no network";
  };
  update_faults = no_update_faults;
}

abbrev pub state : AgentState libraries
state = record {
  agent = record { config = keyed; files = old_files };
  disk = record {
    fs = record { names = []; contents = λ i. []; next = 0 };
    modes = [];
    sudo_modes = [];
  };
  transfers = [];
  shells = record {
    sessions = [];
    readers = [];
    open_fds = [];
    flags = [];
    terminated = [];
    input = [];
  };
  caches = record { network = none; speed = none; gpu = none; docker = none };
  restarts = 0;
}
