-- ===== src/FileSystem.antt =====
-- Files as the handlers of src/handlers/fs.rs see them: a name leads to a file, and an open file
-- stays what it is when its name goes.
use nobase_agent.Prelude.{
  ℕ, zero, suc, ◌+◌, ◌-◌, ◌≤◌, String, ◌∙◌, ◌≡◌, refl, ap, Option, none, some, List, [], ◌∷◌, ◌++◌,
  take, drop, replicate, length, ◌==◌, if◌then◌else◌, arith, take_all, eq_iff,
}
use nobase_agent.Prelude.Dict.{Dict, get, insert, remove, get-insert}

abbrev pub Bytes : Type 0
Bytes = List ℕ

pub record FileSystem : Type 0 where
  pub names : Dict ℕ
  pub contents : ℕ → Bytes
  pub next : ℕ

abbrev pub set_contents : ℕ → Bytes → FileSystem → FileSystem
set_contents file c fs = record fs { contents = λ j. if j == file then c else fs.contents j }

unfoldable pub opened : Option ℕ → String → FileSystem → ℕ × FileSystem
opened (some file) path fs = (file, set_contents file [] fs)
opened none path fs = (
  fs.next,
  set_contents fs.next [] (record fs { names = insert path fs.next fs.names; next = fs.next + 1 }),
)

-- `File::create`: the file of that name is truncated, or a new one gets the name.
unfoldable pub create : String → FileSystem → ℕ × FileSystem
unfolding opened
create path fs = opened (get path fs.names) path fs

-- `seek` to an offset and `write_all`: a gap is filled with zeros, and nothing is written for no data.
unfoldable pub write_at : ℕ → Bytes → Bytes → Bytes
write_at offset [] c = c
write_at offset (b ∷ bytes) c =
    take offset c
    ++ (replicate (offset - length c) 0 ++ ((b ∷ bytes) ++ drop (offset + length (b ∷ bytes)) c))

-- `remove_file`
abbrev pub remove_file : String → FileSystem → FileSystem
remove_file path fs = record fs { names = remove path fs.names }

-- What a reader of the path finds.
abbrev pub look : String → FileSystem → Option Bytes
look path fs = elim (get path fs.names) [ none ↦ none | some file ↦ some (fs.contents file) ]

drop_all : (n : ℕ) (c : Bytes) → length c ≤ n → drop n c ≡ []
drop_all zero [] h = refl
drop_all zero (x ∷ c) h = absurd (omega arith)
drop_all (suc n) [] h = refl
drop_all (suc n) (x ∷ c) h = drop_all n c (omega arith)

pub append_nil : (c : Bytes) → c ++ [] ≡ c
append_nil [] = refl
append_nil (x ∷ c) = rw (append_nil c)

-- Data written at the end of a file is appended.
pub write_at_end : (bytes c : Bytes) → write_at (length c) bytes c ≡ c ++ bytes
unfolding write_at
write_at_end [] c = rw (append_nil c)
write_at_end (b ∷ bytes) c =
    let gap : length c - length c ≡ 0 = omega arith in
    rw
      (
        take_all (length c) c (omega arith),
        gap,
        drop_all (length c + length (b ∷ bytes)) c (omega arith),
      )
      (ap (λ x. c ++ x) (append_nil (b ∷ bytes)))

opened-look :
    (o : Option ℕ) (path : String) (fs : FileSystem)
    → get path fs.names ≡ o
    → let (file, fs') = opened o path fs in
      (get path fs'.names ≡ some file) × (fs'.contents file ≡ [])
unfolding opened
opened-look none path fs found =
    (ground (arith, get-insert path path fs.next fs.names, eq_iff path path), ground arith)
opened-look (some file) path fs found = (found, ground arith)

-- What `create` returns, either way: the path leads to the file, and it is empty.
pub create-look :
    (path : String) (fs : FileSystem)
    → let (file, fs') = create path fs in
      (get path fs'.names ≡ some file) × (fs'.contents file ≡ [])
unfolding create
create-look path fs = opened-look (get path fs.names) path fs refl

pub look_named :
    (path : String) (file : ℕ) (fs : FileSystem)
    → get path fs.names ≡ some file
    → look path fs ≡ some (fs.contents file)
look_named path file fs named = ground arith

-- `fs::write`, and the last part of a copy
unfoldable pub put : String → Bytes → FileSystem → FileSystem
put path bytes fs = let (file, fs') = create path fs in set_contents file bytes fs'

pub look-put :
    (path : String) (bytes : Bytes) (fs : FileSystem) → look path (put path bytes fs) ≡ some bytes
unfolding put
look-put path bytes fs =
    let (file, fs') = create path fs in
    let (named, empty) = create-look path fs in
    look_named path file (put path bytes fs) named ∙ ground arith
