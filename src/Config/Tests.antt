-- ===== src/Config/Tests.antt =====
-- Saves and loads of src/config.rs, and the theorems at concrete configurations.
use nobase_agent.Prelude.{◌≡◌, refl, none, some, [], ◌∷◌, ok, err, ◌↔◌, arith, eq_iff}
use nobase_agent.Prelude.Dict.{get, insert}
use nobase_agent.Storage.{write, rename}
use nobase_agent.Config.{SaveFaults, no_save_faults, load, validate, save}
use nobase_agent.Config.Accept.{Accepted, load_iff}
use nobase_agent.Config.Persist.{Saved, save_atomic, load-save}
use nobase_agent.Samples.{toml, new_config, old_files, keyed}

new_file : load toml none "a" old_files ≡ ok new_config
unfolding load validate get
new_file = refl

missing_file : load toml none "b" old_files ≡ err "Config file not found: b"
unfolding load get
missing_file = refl

abbrev full_disk : SaveFaults
full_disk = record {
  write = some (record { left = some "k"; message = "no space left" });
  rename = none;
}

-- The temporary file is left behind.
torn_save :
    save toml full_disk keyed "a" old_files
    ≡ (err "no space left", ("a", "new") ∷ ("a.toml.tmp", "k") ∷ [])
unfolding save write rename insert
torn_save = refl

load_iff_example :
    (load toml none "a" old_files ≡ ok new_config) ↔ Accepted toml "a" old_files new_config
load_iff_example = load_iff toml "a" old_files new_config

save_atomic_example : Saved toml keyed "a" old_files (save toml full_disk keyed "a" old_files)
save_atomic_example =
    save_atomic toml full_disk keyed "a" old_files (λ e. ground (arith, eq_iff "a.toml.tmp" "a"))

load-save_example : load toml none "a" (save toml no_save_faults keyed "a" old_files).1 ≡ ok keyed
unfolding validate
load-save_example = load-save toml keyed "k1" "a" old_files refl refl refl
