-- ===== src/Updater/Files.antt =====
-- The files that an update touches, src/updater.rs.
use nobase_agent.Prelude.{
  ℕ, ◌<◌, String, ◌≡◌, ◌≢◌, refl, ◌∙◌, sym, ap, Option, none, some, inl, inr, arith, eq_iff,
  Option-cases,
}
use nobase_agent.Prelude.Dict.{get, remove, get-insert, get-insert_ne}
use nobase_agent.FileSystem.{Bytes, FileSystem, create, opened, look, look_named, put}
use nobase_agent.Updater.{binary_path, update_path, rename_file}

-- The temporary name does not lead to the binary's file, and the next new file is another one.
pub record Apart (fs : FileSystem) : Type 0 where
  pub apart : (i : ℕ) → get binary_path fs.names ≡ some i → get update_path fs.names ≢ some i
  pub fresh : (i : ℕ) → get binary_path fs.names ≡ some i → i < fs.next

pub look_same :
    (path : String) (fs fs' : FileSystem)
    → get path fs'.names ≡ get path fs.names
    → ((i : ℕ) → get path fs.names ≡ some i → fs'.contents i ≡ fs.contents i)
    → look path fs' ≡ look path fs
look_same path fs fs' names contents = elim (Option-cases (get path fs.names)) [
  | inl p ↦ ground (arith, names)
  | inr (i, p) ↦
      look_named path i fs' (names ∙ p) ∙ ap some (contents i p) ∙ sym (look_named path i fs p)
]

-- What `create` of the temporary name leaves of the binary's.
opened_other :
    (o : Option ℕ) (fs : FileSystem)
    → Apart fs
    → get update_path fs.names ≡ o
    → let (file, fs') = opened o update_path fs in
      (get binary_path fs'.names ≡ get binary_path fs.names)
      × ((i : ℕ)
          → get binary_path fs.names ≡ some i
          → (file ≢ i) × (fs'.contents i ≡ fs.contents i))
unfolding opened
opened_other (some file) fs a found = (
  refl,
  λ i h. let ne : file ≢ i = λ e. a.apart i h (found ∙ ap some e) in (ne, ground (arith, ne)),
)
opened_other none fs a found = (
  get-insert_ne update_path binary_path fs.next fs.names
      (λ e. ground (arith, eq_iff update_path binary_path)),
  λ i h. let ne : fs.next ≢ i = omega (arith, a.fresh i h) in (ne, ground (arith, ne)),
)

pub look-put_other :
    (bytes : Bytes) (fs : FileSystem)
    → Apart fs
    → look binary_path (put update_path bytes fs) ≡ look binary_path fs
unfolding put create
look-put_other bytes fs a =
    let (names, others) = opened_other (get update_path fs.names) fs a refl in
    look_same binary_path fs (put update_path bytes fs) names
      (λ i h. let (ne, same) = others i h in ground (arith, ne, same))

pub look-rename_file :
    (bytes : Bytes) (fs : FileSystem)
    → look update_path fs ≡ some bytes
    → look binary_path (rename_file (get update_path fs.names) update_path binary_path fs)
      ≡ some bytes
unfolding rename_file
look-rename_file bytes fs found = elim (Option-cases (get update_path fs.names)) [
  | inl p ↦ absurd (ground (arith, p))
  | inr (file, p) ↦
      let there : fs.contents file ≡ bytes = ground (arith, p, found) in
      rw (p, rename_file)
        (look_named binary_path file (rename_file (some file) update_path binary_path fs) (
            ground (
              arith,
              get-insert binary_path binary_path file (remove update_path fs.names),
              eq_iff binary_path binary_path,
            ))
          ∙ ap some there)
]
