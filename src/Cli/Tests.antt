-- ===== src/Cli/Tests.antt =====
-- Runs of the command line at concrete installations.
use nobase_agent.Prelude.{
  String, ◌≡◌, refl, true, false, [], ◌∷◌, none, some, ok, err, ◌⊎◌, pos, if◌then◌else◌, ◌==ₛ◌,
}
use nobase_agent.Streams.{exited}
use nobase_agent.Cli.{
  Installed, Outside, exists, service_path, config_dir, metrics_db, metrics_dir, agent_binary,
  uninstall, uninstall_agent, main_code, log_arguments,
}
use nobase_agent.Cli.Removal.{uninstall_agent_lem}

-- The configuration cannot be removed, nor the directory of the metrics.
abbrev outside : Outside
outside = record {
  is_root = true;
  systemctl = λ args. exited (some (pos 0));
  journalctl = λ args. exited (some (pos 0));
  remove = λ path.
      if path ==ₛ "/etc/nobase"
      then some "Device or resource busy"
      else if path ==ₛ "/var/lib/nobase"
      then some "Directory not empty"
      else none;
  load = λ path. err "missing";
  connect = λ config path. ok tt;
  check_and_update = λ url. err "no network";
}

abbrev all : Installed
all = record {
  paths = service_path ∷ config_dir ∷ metrics_db ∷ metrics_dir ∷ agent_binary ∷ [];
  calls = [];
}

test_uninstall :
    let (code, s) = main_code outside (λ n. "5") uninstall all in
    (code ≡ pos 1) × (s.paths ≡ config_dir ∷ metrics_db ∷ metrics_dir ∷ agent_binary ∷ [])
unfolding main_code
test_uninstall = (refl, refl)

test_log_arguments :
    log_arguments (λ n. "5") (some 5) true ≡ "-u" ∷ "nobase" ∷ "-n" ∷ "5" ∷ "-f" ∷ []
unfolding log_arguments
test_log_arguments = refl

uninstall_agent_lem_example :
    (((uninstall_agent outside all).0 ≡ ok tt)
      × (exists service_path (uninstall_agent outside all).1.paths ≡ false)
      × (exists config_dir (uninstall_agent outside all).1.paths ≡ false)
      × (exists agent_binary (uninstall_agent outside all).1.paths ≡ false))
    ⊎ ((e : String) × ((uninstall_agent outside all).0 ≡ err e)
        × (exists agent_binary (uninstall_agent outside all).1.paths
            ≡ exists agent_binary all.paths))
uninstall_agent_lem_example = uninstall_agent_lem outside all refl
