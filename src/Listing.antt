-- ===== src/Listing.antt =====
-- fs.list and fs.stat of src/handlers/fs.rs: the entries of a directory and their order
-- (`metadata_to_entry`, `mode_to_string`, `handle_fs_list`), what is read from the output of `ls` and
-- `stat` (`handle_fs_list_sudo`), and `handle_fs_stat`.
pub mod Mode
pub mod Order
pub mod Columns
pub mod Handlers
mod Tests
use Prim.Native.String.{compare}
use Prim.Native.Nat.{Ordering}
use text.Mathlib.Text.{starts_with}
use nobase_agent.Prelude.{
  ℕ, zero, suc, ◌+◌, ◌*◌, ◌/◌, ◌%◌, String, ◌<>◌, Bool, true, false, not, ◌&&◌, ◌||◌, Option, none,
  some, List, [], ◌∷◌, Result, ok, err, length, leb, ◌==◌, ◌==ₛ◌, if◌then◌else◌, pos, lines, splitn,
  split, trim, parse_u64, is_whitespace, drop, unwrap_or,
}
use nobase_agent.Proto.Rpc.{RpcResponse, Failure, fault, respond, command_failed, invalid_params}
use nobase_agent.Proto.Methods.{
  FsEntry, FsEntryType, file, directory, symlink, FsListRequest, FsStatRequest, FsStatResponse,
}
use nobase_agent.Upload.{unwrap_or_false}

-- `std::fs::Metadata`. `modified` is the time in seconds after the epoch, where it is known and not
-- before.
pub record Metadata : Type 0 where
  pub is_dir : Bool
  pub is_symlink : Bool
  pub len : ℕ
  pub mode : ℕ
  pub uid : ℕ
  pub gid : ℕ
  pub modified : Option ℕ

-- `getpwuid`, `getgrgid`, the date of a time where there is one (chrono), the print of a number,
-- `to_lowercase`, `Path::file_name`, and `contains`.
pub record Names : Type 0 where
  pub user : ℕ → Option String
  pub group : ℕ → Option String
  pub rfc3339 : ℕ → Option String
  pub print : ℕ → String
  pub to_lowercase : String → String
  pub file_name : String → Option String
  pub contains : String → String → Bool

-- `mode & bit != 0`, for a power of two
abbrev pub has_bit : ℕ → ℕ → Bool
has_bit mode bit = mode / bit % 2 == 1

abbrev pub flag : String → Bool → String
flag letter b = if b then letter else "-"

-- The type bits: `S_IFMT` is 0o170000, `S_IFDIR` 0o040000, `S_IFLNK` 0o120000.
abbrev pub type_letter : ℕ → String
type_letter mode =
    let ft = mode / 4096 % 16 in if ft == 4 then "d" else if ft == 10 then "l" else "-"

-- 0o400, 0o200, … 0o001
unfoldable pub mode_to_string : ℕ → String
mode_to_string mode =
    type_letter mode
    <> (flag "r" (has_bit mode 256)
        <> (flag "w" (has_bit mode 128)
            <> (flag "x" (has_bit mode 64)
                <> (flag "r" (has_bit mode 32)
                    <> (flag "w" (has_bit mode 16)
                        <> (flag "x" (has_bit mode 8)
                            <> (flag "r" (has_bit mode 4)
                                <> (flag "w" (has_bit mode 2) <> flag "x" (has_bit mode 1)))))))))

abbrev pub is_directory : FsEntry → Bool
is_directory e = elim e.entry_type [ directory ↦ true | _ ↦ false ]

abbrev pub not_greater : Ordering → Bool
not_greater Ordering.gt = false
not_greater _ = true

-- The commands of `fs.list` and `fs.stat` end with a status and their output, or do not run.
pub data Output : Type 0 where
  printed : String → Output
  refused : String → Output
  unrunnable : String → Output

-- What a step of `next_entry` yields: an entry and its metadata, or an error.
pub data DirStep : Type 0 where
  next_entry : String → Result String Metadata → DirStep
  broken : String → DirStep

-- What `symlink_metadata` comes to.
pub data Stat : Type 0 where
  found : Metadata → Stat
  not_found : Stat
  failed : String → Stat

-- A blank in the output of `stat --format`
abbrev pub is_bar : ℕ → Bool
is_bar c = c == b'|'

module _ (names : Names) where
  unfoldable pub uid_to_name : ℕ → String
  uid_to_name uid = elim (names.user uid) [ some name ↦ name | none ↦ names.print uid ]

  unfoldable pub gid_to_name : ℕ → String
  gid_to_name gid = elim (names.group gid) [ some name ↦ name | none ↦ names.print gid ]

  unfoldable pub metadata_to_entry : String → Metadata → FsEntry
  unfolding uid_to_name gid_to_name mode_to_string
  metadata_to_entry name meta = record {
    name = name;
    entry_type = if meta.is_dir then directory else if meta.is_symlink then symlink else file;
    size = meta.len;
    permissions = mode_to_string meta.mode;
    modified = elim meta.modified [ none ↦ "" | some secs ↦ unwrap_or "" (names.rfc3339 secs) ];
    owner = uid_to_name meta.uid;
    group = gid_to_name meta.gid;
  }

  -- The loop over the directory: it ends at the first error, and skips an entry with no metadata.
  unfoldable pub collect : List DirStep → List FsEntry
  unfolding metadata_to_entry
  collect [] = []
  collect (broken e ∷ steps) = []
  collect (next_entry name (ok meta) ∷ steps) = metadata_to_entry name meta ∷ collect steps
  collect (next_entry name (err e) ∷ steps) = collect steps

  -- The comparison of two entries is not greater: directories first, then by name.
  unfoldable pub precedes : FsEntry → FsEntry → Bool
  precedes a b =
      let by_name = not_greater (compare (names.to_lowercase a.name) (names.to_lowercase b.name)) in
      if is_directory a
      then (if is_directory b then by_name else true)
      else if is_directory b
      then false
      else by_name

  unfoldable pub insert_entry : FsEntry → List FsEntry → List FsEntry
  unfolding precedes
  insert_entry e [] = e ∷ []
  insert_entry e (x ∷ entries) =
      if precedes e x then e ∷ x ∷ entries else x ∷ insert_entry e entries

  -- `sort_by`, which is stable
  unfoldable pub sort_entries : List FsEntry → List FsEntry
  unfolding insert_entry
  sort_entries [] = []
  sort_entries (e ∷ entries) = insert_entry e (sort_entries entries)

  unfoldable pub list_plain : String → Result String (List DirStep) → Result Failure (List FsEntry)
  unfolding collect sort_entries
  list_plain path (err e) =
      err (fault command_failed ("Cannot read directory '" <> (path <> ("': " <> e))))
  list_plain path (ok steps) = ok (sort_entries (collect steps))

  -- The type of an entry by the first letter of its permissions.
  abbrev pub type_of : String → FsEntryType
  type_of perms =
      if starts_with perms "d" then directory else if starts_with perms "l" then symlink else file

  -- The pieces of a line of `ls -la`: permissions, links, owner, group, size, date, time, zone, name.
  unfoldable pub columns_entry : List String → Option FsEntry
  columns_entry (perms ∷ links ∷ owner ∷ group ∷ size ∷ date ∷ time ∷ zone ∷ name ∷ []) =
      if (name ==ₛ ".") || (name ==ₛ "..")
      then none
      else some (record {
        name = name;
        entry_type = type_of perms;
        size = unwrap_or 0 (parse_u64 size);
        permissions = perms;
        modified = date <> (" " <> time);
        owner = owner;
        group = group;
      })
  columns_entry _ = none

  unfoldable pub parse_ls_line : String → Option FsEntry
  unfolding columns_entry
  parse_ls_line line = columns_entry (splitn is_whitespace 8 line)

  unfoldable pub parse_lines : List String → List FsEntry
  unfolding parse_ls_line
  parse_lines [] = []
  parse_lines (line ∷ rest) =
      let entries = parse_lines rest in
      elim (parse_ls_line line) [ none ↦ entries | some e ↦ e ∷ entries ]

  -- `handle_fs_list_sudo`: the first line, with the total, is skipped.
  unfoldable pub list_sudo : Output → Result Failure (List FsEntry)
  unfolding parse_lines
  list_sudo (printed stdout) = ok (parse_lines (drop 1 (lines stdout)))
  list_sudo (refused stderr) = err (fault command_failed ("ls failed: " <> stderr))
  list_sudo (unrunnable e) = err (fault command_failed ("exec failed: " <> e))

  -- `handle_fs_list`, from the parsed request on
  unfoldable pub list :
      FsListRequest → Output → Result String (List DirStep) → Result Failure (List FsEntry)
  unfolding list_sudo list_plain
  list req ls dir = if unwrap_or_false req.sudo then list_sudo ls else list_plain req.path dir

  abbrev pub no_entry : FsEntry
  no_entry = record {
    name = "";
    entry_type = file;
    size = 0;
    permissions = "";
    modified = "";
    owner = "";
    group = "";
  }

  abbrev pub absent : FsStatResponse
  absent = record { exists = false; entry = no_entry }

  -- The fields that `stat` prints: type, size, mode, user, group, time.
  unfoldable pub stat_fields : String → List String → Result Failure FsStatResponse
  stat_fields path (kind ∷ size ∷ mode ∷ user ∷ group ∷ time ∷ rest) = ok (record {
    exists = true;
    entry = record {
      name = unwrap_or "" (names.file_name path);
      entry_type =
          if names.contains kind "directory"
          then directory
          else if names.contains kind "link"
          then symlink
          else file;
      size = unwrap_or 0 (parse_u64 size);
      permissions = mode;
      modified = time;
      owner = user;
      group = group;
    };
  })
  stat_fields path _ = err (fault command_failed "Failed to parse stat output")

  -- A status other than success counts as a path that does not exist.
  unfoldable pub stat_sudo : String → Output → Result Failure FsStatResponse
  unfolding stat_fields
  stat_sudo path (printed stdout) = stat_fields path (split is_bar (trim stdout))
  stat_sudo path (refused stderr) = ok absent
  stat_sudo path (unrunnable e) = err (fault command_failed ("exec failed: " <> e))

  unfoldable pub stat_plain : String → Stat → Result Failure FsStatResponse
  unfolding metadata_to_entry
  stat_plain path (found meta) = ok (record {
    exists = true;
    entry = metadata_to_entry (unwrap_or "" (names.file_name path)) meta;
  })
  stat_plain path not_found = ok absent
  stat_plain path (failed e) =
      err (fault command_failed ("Cannot stat '" <> (path <> ("': " <> e))))

  -- `handle_fs_stat`, from the parsed request on
  unfoldable pub stat : FsStatRequest → Output → Stat → Result Failure FsStatResponse
  unfolding stat_sudo stat_plain
  stat req output meta =
      if unwrap_or_false req.sudo then stat_sudo req.path output else stat_plain req.path meta
