-- ===== src/Cli.antt =====
-- The command line of src/main.rs: what each command runs, with what code it exits, and `uninstall`.
pub mod Steps
pub mod Removal
mod Tests
use nobase_agent.Prelude.{
  ℕ, zero, String, ◌<>◌, Bool, true, false, not, List, [], ◌∷◌, ◌++◌, Option, none, some, Result,
  ok, err, ℤ, pos, unwrap_or, if◌then◌else◌, ◌==ₛ◌, select, Action, fail, ◌>>=◌, ◌>>◌,
}
use nobase_agent.Config.{AgentConfig}
use nobase_agent.Updater.{UpdateResult, already_up_to_date, updated, not_configured}
use nobase_agent.Streams.{Exit, exited, lost}

pub data Commands : Type 0 where
  run : String → Commands
  start stop restart status : Commands
  logs : Option ℕ → Bool → Commands
  enable disable : Commands
  update : String → Commands
  uninstall version : Commands

-- The paths that are there, and the calls of systemctl, last first.
pub record Installed : Type 0 where
  pub paths : List String
  pub calls : List (List String)

-- What the host does: who runs the program, how systemctl and journalctl end, which removals fail, what
-- the configuration loads to, how the connection loop ends, and what an update comes to.
pub record Outside : Type 0 where
  pub is_root : Bool
  pub systemctl : List String → Exit
  pub journalctl : List String → Exit
  pub remove : String → Option String
  pub load : String → Result String AgentConfig
  pub connect : AgentConfig → String → Result String (Unit {0})
  pub check_and_update : String → Result String UpdateResult

abbrev pub service_path : String
service_path = "/etc/systemd/system/nobase.service"

abbrev pub config_dir : String
config_dir = "/etc/nobase"

abbrev pub log_file : String
log_file = "/var/log/nobase.log"

abbrev pub metrics_db : String
metrics_db = "/var/lib/nobase/metrics.db"

abbrev pub metrics_dir : String
metrics_dir = "/var/lib/nobase"

abbrev pub old_uninstall : String
old_uninstall = "/usr/local/bin/nobase-uninstall"

abbrev pub agent_binary : String
agent_binary = "/usr/local/bin/nobase"

unfoldable pub exists : String → List String → Bool
exists path [] = false
exists path (p ∷ paths) = let rest = exists path paths in if p ==ₛ path then true else rest

abbrev pub without : String → Installed → Installed
without path s = record s { paths = select (λ p. not (p ==ₛ path)) s.paths }

abbrev pub call : List String → Installed → Installed
call args s = record s { calls = args ∷ s.calls }

-- `systemctl … nobase`: the exit code of the program.
unfoldable pub run_systemctl : Exit → ℤ
run_systemctl (lost e) = pos 1
run_systemctl (exited code) = unwrap_or (pos 1) code

-- The arguments of journalctl: without a number of lines the log is followed.
unfoldable pub log_arguments : (ℕ → String) → Option ℕ → Bool → List String
log_arguments print none follow = "-u" ∷ "nobase" ∷ "-f" ∷ []
log_arguments print (some n) follow =
    "-u" ∷ "nobase" ∷ "-n" ∷ print n ∷ (if follow then "-f" ∷ [] else [])

module _ (outside : Outside) where
  -- A path that is there is removed, where a failure ends the uninstall.
  unfoldable pub remove_path : String → Action Installed String (Unit {0})
  unfolding exists
  remove_path path s =
      if exists path s.paths
      then elim (outside.remove path) [ some e ↦ (err e, s) | none ↦ (ok tt, without path s) ]
      else (ok tt, s)

  -- The same, where a failure does not matter.
  unfoldable pub remove_quietly : String → Action Installed String (Unit {0})
  unfolding remove_path
  remove_quietly path s = (ok tt, (remove_path path s).1)

  abbrev pub reload : Action Installed String (Unit {0})
  reload s = (ok tt, call ("daemon-reload" ∷ []) s)

  -- The unit, and the reload that follows its removal.
  unfoldable pub remove_service : Action Installed String (Unit {0})
  unfolding remove_path exists
  remove_service s =
      if exists service_path s.paths then (do remove_path service_path; reload) s else (ok tt, s)

  -- The database of the metrics, and then its directory, where that is empty.
  unfoldable pub remove_metrics : Action Installed String (Unit {0})
  unfolding remove_quietly exists
  remove_metrics s =
      if exists metrics_db s.paths
      then (do remove_quietly metrics_db; remove_quietly metrics_dir) s
      else (ok tt, s)

  abbrev pub stop_service : Action Installed String (Unit {0})
  stop_service s =
      (ok tt, call ("disable" ∷ "nobase" ∷ "--quiet" ∷ []) (call ("stop" ∷ "nobase" ∷ []) s))

  -- What may stay where it cannot be removed: the log, the metrics and an old script.
  abbrev pub remove_leftovers : Action Installed String (Unit {0})
  remove_leftovers = remove_quietly log_file >> (remove_metrics >> remove_quietly old_uninstall)

  -- The steps before the last one.
  unfoldable pub remove_rest : Action Installed String (Unit {0})
  unfolding remove_service remove_path remove_quietly remove_metrics
  remove_rest = stop_service >> (remove_service >> (remove_path config_dir >> remove_leftovers))

  -- The binary goes last.
  unfoldable pub uninstall_agent : Action Installed String (Unit {0})
  unfolding remove_rest remove_path
  uninstall_agent =
      if outside.is_root
      then remove_rest >> remove_path agent_binary
      else fail "This command must be run as root (use sudo)"

  abbrev failed : {A : Type 0} → Result String A → ℤ
  failed (ok a) = pos 0
  failed (err e) = pos 1

  unfoldable pub update_code : Bool → Result String UpdateResult → ℤ
  update_code false r = pos 1
  update_code true (ok already_up_to_date) = pos 0
  update_code true (ok (updated old_hash new_hash)) = pos 0
  update_code true (ok not_configured) = pos 1
  update_code true (err e) = pos 1

  -- `main`: the code of the program, and what it leaves of the installation.
  unfoldable pub main_code : (ℕ → String) → Commands → Installed → ℤ × Installed
  unfolding run_systemctl log_arguments uninstall_agent update_code
  main_code print (run path) s = elim (outside.load path) [
    | err e ↦ (pos 1, s)
    | ok c ↦ (failed (outside.connect c path), s)
  ]
  main_code print start s =
      let args = "start" ∷ "nobase" ∷ [] in (run_systemctl (outside.systemctl args), call args s)
  main_code print stop s =
      let args = "stop" ∷ "nobase" ∷ [] in (run_systemctl (outside.systemctl args), call args s)
  main_code print restart s =
      let args = "restart" ∷ "nobase" ∷ [] in (run_systemctl (outside.systemctl args), call args s)
  main_code print status s =
      let args = "status" ∷ "nobase" ∷ [] in (run_systemctl (outside.systemctl args), call args s)
  main_code print (logs lines follow) s =
      (run_systemctl (outside.journalctl (log_arguments print lines follow)), s)
  main_code print enable s =
      let args = "enable" ∷ "nobase" ∷ [] in (run_systemctl (outside.systemctl args), call args s)
  main_code print disable s =
      let args = "disable" ∷ "nobase" ∷ [] in (run_systemctl (outside.systemctl args), call args s)
  main_code print (update path) s = elim (outside.load path) [
    | err e ↦ (pos 1, s)
    | ok c ↦ (update_code outside.is_root (outside.check_and_update c.connection.backend_url), s)
  ]
  main_code print uninstall s = let (r, s') = uninstall_agent s in (failed r, s')
  main_code print version s = (pos 0, s)
