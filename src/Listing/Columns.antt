-- ===== src/Listing/Columns.antt =====
-- The lines that `ls -la` prints, as src/handlers/fs.rs reads them (`handle_fs_list_sudo`).

use nobase_agent.Prelude.{
  unwrap_or, String, ◌<>◌, ◌≡◌, refl, ◌∙◌, ap, true, false, ◌||◌, some, List, [], ◌∷◌, ◌==ₛ◌, All,
  length, ◌++◌, splitn, splitn-append, free, is_whitespace, parse_u64,
}
use nobase_agent.Listing.{Names, type_of, columns_entry, parse_ls_line}

-- No character of a text is white space.
abbrev pub IsWord : String → Type 0
IsWord s = free is_whitespace s ≡ true

-- Pieces with a blank behind each, and a last one.
abbrev pub joined : List String → String → String
joined [] last = last
joined (piece ∷ pieces) last = piece <> String.◌∷◌ " " (joined pieces last)

splitn-joined :
    (pieces : List String) (last : String)
    → All IsWord pieces
    → splitn is_whitespace (length pieces) (joined pieces last) ≡ pieces ++ last ∷ []
unfolding splitn
splitn-joined [] last words = refl
splitn-joined (piece ∷ pieces) last (word, words) =
    splitn-append is_whitespace (length pieces) piece " " (joined pieces last) word refl
    ∙ ap (λ x. piece ∷ x) (splitn-joined pieces last words)

module _ (names : Names) where
  -- A line whose columns are words with one blank between them, and whose name, which may hold
  -- blanks, is neither `.` nor `..`, comes back as its entry.
  pub parse_ls_line-joined :
      (perms links owner group size date time zone name : String)
      → All IsWord (perms ∷ links ∷ owner ∷ group ∷ size ∷ date ∷ time ∷ zone ∷ [])
      → ((name ==ₛ ".") || (name ==ₛ "..")) ≡ false
      → parse_ls_line names
          (joined (perms ∷ links ∷ owner ∷ group ∷ size ∷ date ∷ time ∷ zone ∷ []) name)
        ≡ some (record {
          name = name;
          entry_type = type_of names perms;
          size = unwrap_or 0 (parse_u64 size);
          permissions = perms;
          modified = date <> (" " <> time);
          owner = owner;
          group = group;
        })
  unfolding parse_ls_line columns_entry
  parse_ls_line-joined perms links owner group size date time zone name words listed =
      rw
        (
          splitn-joined (perms ∷ links ∷ owner ∷ group ∷ size ∷ date ∷ time ∷ zone ∷ []) name words,
          listed,
        )
        refl

  -- A line whose size is padded by one more blank, as `ls` pads its columns, comes back with the size
  -- 0, with the size for a date, and with the zone in its name.
  pub parse_ls_line_padded :
      (perms links owner group size date time zone name : String)
      → All IsWord (perms ∷ links ∷ owner ∷ group ∷ size ∷ date ∷ time ∷ zone ∷ [])
      → ((joined (zone ∷ []) name ==ₛ ".") || (joined (zone ∷ []) name ==ₛ "..")) ≡ false
      → parse_ls_line names
          (joined (perms ∷ links ∷ owner ∷ group ∷ "" ∷ size ∷ date ∷ time ∷ zone ∷ []) name)
        ≡ some (record {
          name = joined (zone ∷ []) name;
          entry_type = type_of names perms;
          size = 0;
          permissions = perms;
          modified = size <> (" " <> date);
          owner = owner;
          group = group;
        })
  unfolding parse_ls_line columns_entry parse_u64 free
  parse_ls_line_padded perms links owner group size date time zone name
        (p, (l, (o, (g, (s, (d, (t, (z, e)))))))) listed =
      rw
        (
          splitn-joined (perms ∷ links ∷ owner ∷ group ∷ "" ∷ size ∷ date ∷ time ∷ [])
              (joined (zone ∷ []) name) (p, (l, (o, (g, (refl, (s, (d, (t, tt)))))))),
          listed,
        )
        refl
