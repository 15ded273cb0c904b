-- ===== src/Config/Persist.antt =====
-- What a save of the configuration leaves in its file, src/config.rs, and what a load makes of it.
use nobase_agent.Prelude.{
  String, ◌≡◌, ◌≢◌, refl, Option, none, some, ◌⊎◌, inl, inr, Result, ok, err, arith, eq_iff,
  Option-cases,
}
use text.Mathlib.TextPositions.{eq_refl}
use nobase_agent.Prelude.Dict.{insert, get-insert}
use nobase_agent.Storage.{Files, read, write, rename, read-write_ne, WriteFault}
use nobase_agent.Config.{AgentConfig, Toml, SaveFaults, no_save_faults, load, validate, save}

-- The file at `path` after a save that ended with `r`: the new text, or what was there.
abbrev pub Saved : Toml → AgentConfig → String → Files → Result String (Unit {0}) × Files → Type 0
Saved toml c path files (ok _, after) =
    (content : String) × (toml.to_string_pretty c ≡ ok content) × (read path after ≡ some content)
Saved toml c path files (err e, after) = read path after ≡ read path files

write-cases :
    (f : Option WriteFault) (path content : String) (files : Files)
    → (write f path content files ≡ (ok tt, insert path content files))
      ⊎ ((e : String) × ((write f path content files).0 ≡ err e))
unfolding write
write-cases none path content files = inl refl
write-cases (some f) path content files = elim (Option-cases f.left) [
  | inl p ↦ inr (f.message, rw p)
  | inr (rest, p) ↦ inr (f.message, rw p)
]

Saved-rename :
    (toml : Toml) (f : Option String) (c : AgentConfig) (path content : String) (files : Files)
    → toml.temporary path ≢ path
    → toml.to_string_pretty c ≡ ok content
    → Saved toml c path files
        (rename f (toml.temporary path) path (insert (toml.temporary path) content files))
unfolding rename
Saved-rename toml (some e) c path content files ne printed =
    rw get-insert (ground (arith, eq_iff (toml.temporary path) path))
Saved-rename toml none c path content files ne printed =
    rw (get-insert, eq_refl) (content, printed, rw (get-insert, eq_refl))

module _ (toml : Toml) (f : SaveFaults) (c : AgentConfig) (path : String) (files : Files) where
  save_unprinted :
      (e : String) → toml.to_string_pretty c ≡ err e → save toml f c path files ≡ (err e, files)
  unfolding save
  save_unprinted e printed = rw (printed, save)

  save_unwritten :
      (content e : String)
      → toml.to_string_pretty c ≡ ok content
      → (write f.write (toml.temporary path) content files).0 ≡ err e
      → save toml f c path files ≡ (err e, (write f.write (toml.temporary path) content files).1)
  unfolding save
  save_unwritten content e printed p = rw (printed, save) (ground arith)

  save_written :
      (content : String)
      → toml.to_string_pretty c ≡ ok content
      → write f.write (toml.temporary path) content files
        ≡ (ok tt, insert (toml.temporary path) content files)
      → save toml f c path files
        ≡ rename f.rename (toml.temporary path) path (insert (toml.temporary path) content files)
  unfolding save
  save_written content printed p = rw (printed, save) (ground arith)

  Saved-save :
      (r : Result String String)
      → toml.temporary path ≢ path
      → toml.to_string_pretty c ≡ r
      → Saved toml c path files (save toml f c path files)
  Saved-save (err e) ne printed = rw (save_unprinted e printed) refl
  Saved-save (ok content) ne printed =
      elim (write-cases f.write (toml.temporary path) content files) [
        | inl p ↦
            rw (save_written content printed p)
              (Saved-rename toml f.rename c path content files ne printed)
        | inr (e, p) ↦
            rw (save_unwritten content e printed p)
              (read-write_ne f.write (toml.temporary path) content files path ne)
      ]

  -- Whatever fails during a save, the file holds its old text, and then the save reports an
  -- error, or the whole new text. The temporary file has another path.
  pub save_atomic : toml.temporary path ≢ path → Saved toml c path files (save toml f c path files)
  save_atomic ne = Saved-save (toml.to_string_pretty c) ne refl

-- What a save with no failure leaves in the file.
pub read-save :
    (toml : Toml) (c : AgentConfig) (content path : String) (files : Files)
    → toml.to_string_pretty c ≡ ok content
    → read path (save toml no_save_faults c path files).1 ≡ some content
unfolding rename write
read-save toml c content path files printed =
    rw (save_written toml no_save_faults c path files content printed refl, get-insert, eq_refl)
      (rw (get-insert, eq_refl))

-- A configuration that `load` accepts comes back after it was saved with no failure, if the text
-- that `toml` prints parses to it.
pub load-save :
    (toml : Toml) (c : AgentConfig) (content path : String) (files : Files)
    → toml.to_string_pretty c ≡ ok content
    → toml.from_str content ≡ ok c
    → validate c ≡ ok c
    → load toml none path (save toml no_save_faults c path files).1 ≡ ok c
unfolding load
load-save toml c content path files printed parsed valid =
    rw (read-save toml c content path files printed, load, parsed) valid
