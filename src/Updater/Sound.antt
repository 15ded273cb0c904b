-- ===== src/Updater/Sound.antt =====
-- What an update may leave as the agent's binary, src/updater.rs.
use nobase_agent.Prelude.{
  String, ◌<>◌, ◌≡◌, ◌≢◌, refl, ◌∙◌, Bool, Option, none, some, Result, ok, err, ◌⊎◌, inl, inr,
  arith, eq_iff, ◌==ₛ◌, Option-cases, Bool-cases, Result-cases, continue,
}
use nobase_agent.Prelude.Dict.{get-remove_ne}
use nobase_agent.FileSystem.{Bytes, FileSystem, remove_file, look, put, look-put}
use nobase_agent.Updater.{
  binary_path, update_path, CopyFault, UpdateResult, updated, already_up_to_date, not_configured,
  Backend, Machine, UpdateFaults, Installation, platform, put_or_fail, current_hash, swap,
  trim_end_slashes, install, finishing, verify_and_install, read_binary, update_to, expected_hash,
  fetch_and_update, check_and_update,
}
use nobase_agent.Updater.Files.{Apart, look_same, look-put_other, look-rename_file}

-- The backend has, under the URL, this binary, which has this hash, and gives the hash out.
abbrev pub Offered : Machine → Backend → String → Bytes → Type 0
Offered machine backend hash bytes =
    (url : String) × (expected_hash (backend.get_checksum (url <> "/checksum")) ≡ ok (some hash))
    × (read_binary (backend.get_binary url) ≡ ok bytes)
    × (machine.sha256 bytes ≡ hash)

module _ (machine : Machine) (backend : Backend) (f : UpdateFaults) (restart_service : Bool) where
  -- The binary is an offered one.
  abbrev pub Replaced : Installation → Type 0
  Replaced after =
      (hash : String) × (bytes : Bytes) × (Offered machine backend hash bytes
        × (look binary_path after.fs ≡ some bytes))

  -- The rename failed, and the copy then left this in the binary's file.
  abbrev pub Cut : Installation → Type 0
  Cut after =
      (e : String) × (c : CopyFault) × (rest : Bytes) × (f.rename ≡ some e)
      × (f.copy ≡ some c)
      × (c.left ≡ some rest)
      × (look binary_path after.fs ≡ some rest)

  -- What an outcome says: an update that the binary is an offered one with the reported hash, the
  -- others that nothing was touched, and an error that the binary is what it was, or an offered one, or
  -- what the copy left.
  abbrev pub Sound : Installation → Result String UpdateResult × Installation → Type 0
  Sound s (ok (updated old_hash new_hash), after) =
      (bytes : Bytes) × (Offered machine backend new_hash bytes
        × (look binary_path after.fs ≡ some bytes))
  Sound s (ok already_up_to_date, after) = after ≡ s
  Sound s (ok not_configured, after) = after ≡ s
  Sound s (err e, after) =
      (look binary_path after.fs ≡ look binary_path s.fs) ⊎ Replaced after ⊎ Cut after

  pub look-swap :
      (bytes : Bytes) (s : Installation)
      → (f.copy ≡ none) ⊎ (f.rename ≡ none)
      → look update_path s.fs ≡ some bytes
      → look binary_path (swap f bytes s).1.fs ≡ some bytes
  unfolding swap put_or_fail
  look-swap bytes s whole found = elim (Option-cases f.rename) [
    | inl p ↦ rw (p, swap) (look-rename_file bytes s.fs found)
    | inr (e, p) ↦ elim whole [
      | inr renamed ↦ absurd (ground (arith, rw p at renamed))
      | inl copied ↦ elim (Option-cases f.binary_permissions) [
        | inr (e', q) ↦ rw (p, swap, copied, q) (look-put binary_path bytes s.fs)
        | inl q ↦ rw (p, swap, copied, q) (removed f.remove)
      ]
    ]
  ]
    where
      t : FileSystem
      t = put binary_path bytes s.fs

      ne : update_path ≢ binary_path
      ne e = ground (arith, eq_iff update_path binary_path)

      removed :
          (o : Option String)
          → look binary_path
              (elim o as (λ x. Installation) [
                | none ↦ record s { fs = remove_file update_path t }
                | some e ↦ record s { fs = t }
              ]).fs
            ≡ some bytes
      removed (some e) = look-put binary_path bytes s.fs
      removed none =
          look_same binary_path t (remove_file update_path t)
            (get-remove_ne update_path binary_path t.names ne) (λ i h. refl)
          ∙ look-put binary_path bytes s.fs

  -- A swap whose rename and copy fail.
  swap_fails :
      (bytes : Bytes) (s : Installation) (e : String) (c : CopyFault)
      → f.rename ≡ some e
      → f.copy ≡ some c
      → swap f bytes s ≡ elim c.left [
        | none ↦ (err c.message, s)
        | some rest ↦ (err c.message, record s { fs = put binary_path rest s.fs })
      ]
  unfolding swap put_or_fail
  swap_fails bytes s e c p q = elim (Option-cases c.left) [
    | inl r ↦ rw (p, swap, q, r) refl
    | inr (rest, r) ↦ rw (p, swap, q, r) refl
  ]

  installed :
      (old_hash : String) (bytes : Bytes) (s : Installation)
      (o : Result String (Unit {0}) × Installation)
      → Offered machine backend (machine.sha256 bytes) bytes
      → look binary_path o.1.fs ≡ some bytes
      → Sound s (continue o.0 (λ _. finishing machine restart_service old_hash bytes) o.1)
  unfolding finishing
  installed old_hash bytes s (ok u, after) offered there = elim (Bool-cases restart_service) [
    | inl p ↦ (bytes, (offered, rw p there))
    | inr p ↦ (bytes, (offered, rw p there))
  ]
  installed old_hash bytes s (err e, after) offered there =
      inr (inl (machine.sha256 bytes, bytes, (offered, there)))

  -- From the swap on, with the new binary in the temporary file.
  swapped :
      (old_hash : String) (bytes : Bytes) (s t : Installation)
      → Offered machine backend (machine.sha256 bytes) bytes
      → look update_path t.fs ≡ some bytes
      → look binary_path t.fs ≡ look binary_path s.fs
      → Sound s (
          continue
            (swap f bytes t).0
            (λ _. finishing machine restart_service old_hash bytes)
            (swap f bytes t).1)
  swapped old_hash bytes s t offered found kept = elim (Option-cases f.copy) [
    | inl q ↦ installed old_hash bytes s (swap f bytes t) offered (look-swap bytes t (inl q) found)
    | inr (c, q) ↦ elim (Option-cases f.rename) [
      | inl p ↦
          installed old_hash bytes s (swap f bytes t) offered (look-swap bytes t (inr p) found)
      | inr (e, p) ↦ elim (Option-cases c.left) [
        | inl r ↦ rw (swap_fails bytes t e c p q, r) (inl kept)
        | inr (rest, r) ↦
            rw (swap_fails bytes t e c p q, r)
              (inr (inr (e, c, rest, p, q, r, look-put binary_path rest t.fs)))
      ]
    ]
  ]

  install-Sound :
      (old_hash : String) (bytes : Bytes) (s : Installation)
      → Apart s.fs
      → Offered machine backend (machine.sha256 bytes) bytes
      → Sound s (install machine f restart_service old_hash bytes s)
  unfolding install put_or_fail
  install-Sound old_hash bytes s a offered =
      let put_there = record s { fs = put update_path bytes s.fs } in
      elim (Option-cases f.write) [
        | inl p ↦ elim (Option-cases f.permissions) [
          | inr (e, q) ↦ rw (p, install, q) (inl (look-put_other bytes s.fs a))
          | inl q ↦
              rw (p, install, q)
                (swapped old_hash bytes s put_there offered (look-put update_path bytes s.fs)
                  (look-put_other bytes s.fs a))
        ]
        | inr (g, p) ↦ elim (Option-cases g.left) [
          | inl q ↦ rw (p, install, q) (inl refl)
          | inr (rest, q) ↦ rw (p, install, q) (inl (look-put_other rest s.fs a))
        ]
      ]

  verify_and_install-Sound :
      (expected old_hash url : String) (bytes : Bytes) (s : Installation)
      → Apart s.fs
      → expected_hash (backend.get_checksum (url <> "/checksum")) ≡ ok (some expected)
      → read_binary (backend.get_binary url) ≡ ok bytes
      → Sound s (verify_and_install machine f restart_service expected old_hash bytes s)
  unfolding verify_and_install
  verify_and_install-Sound expected old_hash url bytes s a hash binary =
      elim (Bool-cases (machine.sha256 bytes ==ₛ expected)) [
        | inl hit ↦
            let same : machine.sha256 bytes ≡ expected =
              ground (arith, eq_iff (machine.sha256 bytes) expected) in
            rw (hit, verify_and_install)
              (install-Sound old_hash bytes s a (url, rw same hash, binary, refl))
        | inr miss ↦ rw (miss, verify_and_install) (inl refl)
      ]

  update_to-Sound :
      (url expected : String) (s : Installation)
      → Apart s.fs
      → expected_hash (backend.get_checksum (url <> "/checksum")) ≡ ok (some expected)
      → Sound s (update_to machine backend f restart_service url expected s)
  unfolding update_to
  update_to-Sound url expected s a hash = elim (Result-cases (current_hash machine f.read s.fs)) [
    | inr (e, p) ↦ rw (p, update_to) (inl refl)
    | inl (old_hash, p) ↦ elim (Bool-cases (old_hash ==ₛ expected)) [
      | inl hit ↦ rw (p, update_to, hit) refl
      | inr miss ↦ elim (Result-cases (read_binary (backend.get_binary url))) [
        | inr (e, q) ↦ rw (p, update_to, miss, q) (inl refl)
        | inl (bytes, q) ↦
            rw (p, update_to, miss, q)
              (verify_and_install-Sound expected old_hash url bytes s a hash q)
      ]
    ]
  ]

  fetch_and_update-Sound :
      (url : String) (s : Installation)
      → Apart s.fs
      → Sound s (fetch_and_update machine backend f restart_service url s)
  unfolding fetch_and_update
  fetch_and_update-Sound url s a =
      elim (Result-cases (expected_hash (backend.get_checksum (url <> "/checksum")))) [
        | inr (e, p) ↦ rw (p, fetch_and_update) (inl refl)
        | inl (none, p) ↦ rw (p, fetch_and_update) refl
        | inl (some expected, p) ↦ rw (p, fetch_and_update) (update_to-Sound url expected s a p)
      ]

  -- Whatever fails during an update: if it reports an update, the binary is one that the backend offers,
  -- with the reported hash, which is the one that the backend gives out; if it reports none, nothing was
  -- touched; if it fails, the binary is what it was, or such an offered one, or what a copy that broke
  -- off after a failed rename left of it. The temporary name does not lead to the binary's file.
  pub check_and_update_lem :
      (backend_url : String) (s : Installation)
      → Apart s.fs
      → Sound s (check_and_update machine backend f backend_url restart_service s)
  unfolding check_and_update
  check_and_update_lem backend_url s a = elim (Bool-cases (backend_url ==ₛ "")) [
    | inl p ↦ rw (p, check_and_update) refl
    | inr p ↦ elim (Result-cases (platform machine.arch)) [
      | inr (e, q) ↦ rw (p, check_and_update, q) (inl refl)
      | inl (name, q) ↦ elim (Option-cases backend.client) [
        | inr (e, r) ↦ rw (p, check_and_update, q, r) (inl refl)
        | inl r ↦
            rw (p, check_and_update, q, r)
              (fetch_and_update-Sound
                (trim_end_slashes backend_url <> ("/api/agents/binary/" <> name)) s a)
      ]
    ]
  ]
