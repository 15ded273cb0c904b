-- ===== src/Listing/Order.antt =====
-- The order of a listing, src/handlers/fs.rs (`handle_fs_list`).

use Prim.Native.String.{compare}
use Prim.Native.String.compare
use mathlib.Core.List.{Perm, filter_map}
use mathlib.Core.List.Perm
use nobase_agent.Prelude.{
  String, ◌≡◌, refl, ap, subst, true, false, List, [], ◌∷◌, ◌++◌, map, Option, none, some, Result,
  ok, err, arith, Bool-cases, inl, inr, All,
}
use nobase_agent.Proto.Methods.{FsEntry, FsListRequest}
use nobase_agent.Upload.{unwrap_or_false}
use nobase_agent.Listing.{
  Names, Metadata, DirStep, next_entry, broken, metadata_to_entry, Output, not_greater, precedes,
  insert_entry, sort_entries, collect, list_plain, list,
}

text_total : (s t : String) → not_greater (compare s t) ≡ false → not_greater (compare t s) ≡ true
text_total String.[] String.[] h = refl
text_total String.[] (String.◌∷◌ d t) h = absurd (ground (arith, compare.nil-cons d t, h))
text_total (String.◌∷◌ c s) String.[] h = rw compare.nil-cons refl
text_total (String.◌∷◌ c s) (String.◌∷◌ d t) h =
    let h' = rw compare.cons-cons at h in rw compare.cons-cons (ground (arith, h', text_total s t))

text_trans :
    (s t u : String)
    → not_greater (compare s t) ≡ true
    → not_greater (compare t u) ≡ true
    → not_greater (compare s u) ≡ true
text_trans String.[] t String.[] h k = refl
text_trans String.[] t (String.◌∷◌ e u) h k = rw compare.nil-cons refl
text_trans (String.◌∷◌ c s) String.[] u h k = absurd (ground (arith, compare.cons-nil c s, h))
text_trans (String.◌∷◌ c s) (String.◌∷◌ d t) String.[] h k =
    absurd (ground (arith, compare.cons-nil d t, k))
text_trans (String.◌∷◌ c s) (String.◌∷◌ d t) (String.◌∷◌ e u) h k =
    let h' = rw compare.cons-cons at h in
    let k' = rw compare.cons-cons at k in
    rw compare.cons-cons (ground (arith, h', k', text_trans s t u))

module _ (names : Names) where
  -- Every entry precedes all that come after it.
  abbrev pub Sorted : List FsEntry → Type 0
  Sorted [] = Unit
  Sorted (x ∷ entries) = All (λ y. precedes names x y ≡ true) entries × Sorted entries

  precedes_total : (a b : FsEntry) → precedes names a b ≡ false → precedes names b a ≡ true
  unfolding precedes
  precedes_total a b h =
      ground (arith, h, text_total (names.to_lowercase a.name) (names.to_lowercase b.name))

  precedes_trans :
      (a b c : FsEntry)
      → precedes names a b ≡ true
      → precedes names b c ≡ true
      → precedes names a c ≡ true
  unfolding precedes
  precedes_trans a b c h k = ground (
    arith,
    h,
    k,
    text_trans (names.to_lowercase a.name) (names.to_lowercase b.name) (names.to_lowercase c.name),
  )

  All-precedes_trans :
      (a b : FsEntry) (entries : List FsEntry)
      → precedes names a b ≡ true
      → All (λ y. precedes names b y ≡ true) entries
      → All (λ y. precedes names a y ≡ true) entries
  All-precedes_trans a b [] h all = tt
  All-precedes_trans a b (y ∷ entries) h all =
      (precedes_trans a b y h all.0, All-precedes_trans a b entries h all.1)

  All-insert_entry :
      (a e : FsEntry) (entries : List FsEntry)
      → precedes names a e ≡ true
      → All (λ y. precedes names a y ≡ true) entries
      → All (λ y. precedes names a y ≡ true) (insert_entry names e entries)
  unfolding insert_entry
  All-insert_entry a e [] h all = (h, tt)
  All-insert_entry a e (x ∷ entries) h all = elim (Bool-cases (precedes names e x)) [
    | inl p ↦ rw p (h, all)
    | inr p ↦ rw p (all.0, All-insert_entry a e entries h all.1)
  ]

  insert_entry-Sorted :
      (e : FsEntry) (entries : List FsEntry)
      → Sorted entries
      → Sorted (insert_entry names e entries)
  unfolding insert_entry
  insert_entry-Sorted e [] s = (tt, tt)
  insert_entry-Sorted e (x ∷ entries) (all, s) = elim (Bool-cases (precedes names e x)) [
    | inl p ↦ rw p ((p, All-precedes_trans e x entries p all), (all, s))
    | inr p ↦
        rw p
          (All-insert_entry x e entries (precedes_total e x p) all, insert_entry-Sorted e entries s)
  ]

  insert_entry-Perm :
      (e : FsEntry) (entries : List FsEntry) → Perm (insert_entry names e entries) (e ∷ entries)
  unfolding insert_entry
  insert_entry-Perm e [] = Perm.refl (e ∷ [])
  insert_entry-Perm e (x ∷ entries) = elim (Bool-cases (precedes names e x)) [
    | inl p ↦ rw p (Perm.refl (e ∷ x ∷ entries))
    | inr p ↦ rw p (Perm.trans (Perm.cons x (insert_entry-Perm e entries)) (Perm.swap e x entries))
  ]

  sort_entries-Sorted : (entries : List FsEntry) → Sorted (sort_entries names entries)
  unfolding sort_entries
  sort_entries-Sorted [] = tt
  sort_entries-Sorted (e ∷ entries) =
      insert_entry-Sorted e (sort_entries names entries) (sort_entries-Sorted entries)

  sort_entries-Perm : (entries : List FsEntry) → Perm (sort_entries names entries) entries
  unfolding sort_entries
  sort_entries-Perm [] = Perm.refl []
  sort_entries-Perm (e ∷ entries) =
      Perm.trans (insert_entry-Perm e (sort_entries names entries))
        (Perm.cons e (sort_entries-Perm entries))

  -- What the directory yields at a step without an error: a name, and its metadata if it has any.
  abbrev pub Seen : Type 0
  Seen = String × Result String Metadata

  abbrev pub step_of : Seen → DirStep
  step_of s = next_entry s.0 s.1

  abbrev pub entry_of : Seen → Option FsEntry
  entry_of (name, ok meta) = some (metadata_to_entry names name meta)
  entry_of (name, err e) = none

  -- The directory ends here, or breaks.
  abbrev pub IsEnd : List DirStep → Type 0
  IsEnd [] = Unit
  IsEnd (broken e ∷ steps) = Unit
  IsEnd (next_entry name meta ∷ steps) = ⊥

  abbrev pub Split : List DirStep → List Seen → List DirStep → Type 0
  Split steps seen rest = (steps ≡ map step_of seen ++ rest) × IsEnd rest

  collect-filter_map :
      (steps : List DirStep)
      → (seen : List Seen) × (rest : List DirStep) × Split steps seen rest
        × (collect names steps ≡ filter_map entry_of seen)
  unfolding collect filter_map
  collect-filter_map [] = ([], [], (refl, tt), refl)
  collect-filter_map (broken e ∷ steps) = ([], broken e ∷ steps, (refl, tt), refl)
  collect-filter_map (next_entry name (ok meta) ∷ steps) =
      let (seen, rest, (split, end), same) = collect-filter_map steps in
      (
        (name, ok meta) ∷ seen,
        rest,
        (ap (λ w. next_entry name (ok meta) ∷ w) split, end),
        ap (λ w. metadata_to_entry names name meta ∷ w) same,
      )
  collect-filter_map (next_entry name (err e) ∷ steps) =
      let (seen, rest, (split, end), same) = collect-filter_map steps in
      ((name, err e) ∷ seen, rest, (ap (λ w. next_entry name (err e) ∷ w) split, end), same)

  -- The entries of a directory that can be read come back sorted, directories first and then by their
  -- names in lower case. They are those of all that the directory yields up to its end or its first
  -- error, each as often, but for what has no metadata.
  pub list_lem :
      (req : FsListRequest) (ls : Output) (steps : List DirStep)
      → unwrap_or_false req.sudo ≡ false
      → (entries : List FsEntry) × (list names req ls (ok steps) ≡ ok entries)
        × Sorted entries
        × (seen : List Seen) × (rest : List DirStep) × Split steps seen rest
        × Perm entries (filter_map entry_of seen)
  unfolding list list_plain
  list_lem req ls steps plain =
      let (seen, rest, split, same) = collect-filter_map steps in
      (
        sort_entries names (collect names steps),
        rw plain refl,
        sort_entries-Sorted (collect names steps),
        seen,
        rest,
        split,
        subst (λ w. Perm (sort_entries names (collect names steps)) w) same
            (sort_entries-Perm (collect names steps)),
      )
