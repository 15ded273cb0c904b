-- ===== src/Listing/Tests.antt =====
-- Runs of fs.list and fs.stat of src/handlers/fs.rs, and the theorems at concrete directories.
use mathlib.Core.List.{Perm, filter_map}
use nobase_agent.Prelude.{
  ℕ, ◌≡◌, refl, true, false, none, some, List, [], ◌∷◌, ok, err, ◌==◌, if◌then◌else◌, lines, splitn,
  parse_u64, parse_digits, free,
}
use nobase_agent.Proto.Methods.{FsEntry, file, FsListRequest}
use nobase_agent.Listing.{
  Metadata, Names, printed, refused, DirStep, next_entry, broken, not_found, mode_to_string,
  metadata_to_entry, collect, insert_entry, precedes, sort_entries, list_plain, list_sudo, list,
  parse_lines, parse_ls_line, columns_entry, stat, stat_sudo,
}
use nobase_agent.Listing.Order.{Sorted, Seen, Split, entry_of, list_lem}
use nobase_agent.Listing.Columns.{parse_ls_line-joined, parse_ls_line_padded}

abbrev names : Names
names = record {
  user = λ uid. if uid == 0 then some "root" else none;
  group = λ gid. none;
  rfc3339 = λ secs. none;
  print = λ n. if n == 0 then "0" else "1000";
  to_lowercase = λ s. s;
  file_name = λ path. some path;
  contains = λ s t. false;
}

abbrev meta : ℕ → Metadata
meta mode = record {
  is_dir = mode == 16877;
  is_symlink = false;
  len = 5;
  mode = mode;
  uid = 0;
  gid = 0;
  modified = none;
}

-- 0o100644
mode_run : mode_to_string 33188 ≡ "-rw-r--r--"
unfolding mode_to_string
mode_run = refl

-- The set-user-id bit does not show: 0o104755 prints as 0o100755 does.
setuid_run : mode_to_string 35309 ≡ mode_to_string 33261
unfolding mode_to_string
setuid_run = refl

abbrev steps : List DirStep
steps =
    next_entry "b" (ok (meta 33188))
    ∷ next_entry "c" (err "gone")
    ∷ next_entry "d" (ok (meta 16877))
    ∷ broken "Input/output error"
    ∷ next_entry "a" (ok (meta 33188))
    ∷ []

abbrev plain : FsListRequest
plain = record { path = "/a"; sudo = none }

-- The error of the directory ends the listing, which counts as complete.
short_list :
    list names plain (refused "") (ok steps)
    ≡ ok (metadata_to_entry names "d" (meta 16877) ∷ metadata_to_entry names "b" (meta 33188) ∷ [])
unfolding list list_plain collect sort_entries insert_entry precedes metadata_to_entry
short_list = refl

ls_run :
    list names
      (record plain { sudo = some true })
      (printed
        "total 4\ndrwxr-xr-x 2 root root 4096 2026-01-01 00:00:00 +0000 .\n-rw-r--r-- 1 root root 512 2026-01-01 00:00:00 +0000 a b\n")
      (ok [])
    ≡ ok (
        record {
          name = "a b";
          entry_type = file;
          size = 512;
          permissions = "-rw-r--r--";
          modified = "2026-01-01 00:00:00";
          owner = "root";
          group = "root";
        }
        ∷ [])
unfolding list list_sudo parse_lines parse_ls_line columns_entry lines splitn parse_u64 parse_digits
ls_run = refl

-- A path that sudo may not look at counts as one that does not exist.
stat_run :
    (elim (stat names
      (record { path = "/a"; sudo = some true })
      (refused "not allowed")
      not_found) [ ok r ↦ r.exists | err e ↦ true ])
    ≡ false
unfolding stat stat_sudo
stat_run = refl

list_lem_example :
    (entries : List FsEntry) × (list names plain (refused "") (ok steps) ≡ ok entries)
    × Sorted names entries
    × (seen : List (Seen names)) × (rest : List DirStep) × Split names steps seen rest
    × Perm entries (filter_map (entry_of names) seen)
list_lem_example = list_lem names plain (refused "") steps refl

parse_ls_line-joined_example :
    parse_ls_line names "-rw-r--r-- 1 root root 512 2026-01-01 00:00:00 +0000 a b"
    ≡ some (record {
      name = "a b";
      entry_type = file;
      size = 512;
      permissions = "-rw-r--r--";
      modified = "2026-01-01 00:00:00";
      owner = "root";
      group = "root";
    })
unfolding free parse_u64 parse_digits
parse_ls_line-joined_example =
    parse_ls_line-joined names "-rw-r--r--" "1" "root" "root" "512" "2026-01-01" "00:00:00" "+0000"
      "a b" (refl, (refl, (refl, (refl, (refl, (refl, (refl, (refl, tt)))))))) refl

parse_ls_line_padded_example :
    parse_ls_line names "-rw-r--r-- 1 root root  512 2026-01-01 00:00:00 +0000 a"
    ≡ some (record {
      name = "+0000 a";
      entry_type = file;
      size = 0;
      permissions = "-rw-r--r--";
      modified = "512 2026-01-01";
      owner = "root";
      group = "root";
    })
unfolding free
parse_ls_line_padded_example =
    parse_ls_line_padded names "-rw-r--r--" "1" "root" "root" "512" "2026-01-01" "00:00:00" "+0000"
      "a" (refl, (refl, (refl, (refl, (refl, (refl, (refl, (refl, tt)))))))) refl
