-- ===== src/Storage.antt =====
-- Files by path, as far as the agent writes whole texts: `std::fs::write` and `rename` in src/config.rs.
use nobase_agent.Prelude.{
  String, ◌≡◌, ◌≢◌, refl, Option, none, some, Result, ok, err, arith, eq_iff,
}
use nobase_agent.Prelude.Dict.{Dict, get, insert, remove, get-insert}

abbrev pub Files : Type 0
Files = Dict String

abbrev pub read : String → Files → Option String
read = get

-- A failed write of a file: the error, and what it leaves in the file, if the file was opened.
pub record WriteFault : Type 0 where
  pub message : String
  pub left : Option String

-- `std::fs::write`
unfoldable pub write :
    Option WriteFault → String → String → Files → Result String (Unit {0}) × Files
write none path content files = (ok tt, insert path content files)
write (some f) path content files = elim f.left [
  | none ↦ (err f.message, files)
  | some rest ↦ (err f.message, insert path rest files)
]

unfoldable pub renamed : Option String → String → String → Files → Result String (Unit {0}) × Files
renamed none old_path new_path files = (err "No such file or directory", files)
renamed (some content) old_path new_path files =
    (ok tt, insert new_path content (remove old_path files))

-- `std::fs::rename`, which replaces the file at the new path in one step
unfoldable pub rename : Option String → String → String → Files → Result String (Unit {0}) × Files
unfolding renamed
rename none old_path new_path files = renamed (read old_path files) old_path new_path files
rename (some e) old_path new_path files = (err e, files)

-- A write touches its own path only.
pub read-write_ne :
    (f : Option WriteFault) (path content : String) (files : Files) (other : String)
    → path ≢ other
    → read other (write f path content files).1 ≡ read other files
unfolding write
read-write_ne none path content files other ne =
    ground (arith, get-insert path other content files, eq_iff path other)
read-write_ne (some f) path content files other ne = go f.left
  where
    go :
        (left : Option String)
        → read other
            (elim left as (λ x. Result String (Unit {0}) × Files) [
              | none ↦ (err f.message, files)
              | some rest ↦ (err f.message, insert path rest files)
            ]).1
          ≡ read other files
    go none = refl
    go (some rest) = ground (arith, get-insert path other rest files, eq_iff path other)
