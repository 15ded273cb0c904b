-- ===== src/Updater/Settled.antt =====
-- An update that nothing hinders, and the next one, src/updater.rs.
use nobase_agent.Prelude.{
  String, ◌<>◌, ◌≡◌, refl, Bool, true, false, none, some, Result, ok, inl, inr, arith, eq_iff,
  ◌==ₛ◌, Option-cases, Bool-cases,
}
use nobase_agent.FileSystem.{Bytes, FileSystem, look, put, look-put}
use nobase_agent.Updater.{
  binary_path, UpdateResult, already_up_to_date, Backend, Machine, no_update_faults, Installation,
  platform, trim_end_slashes, update_path, put_or_fail, current_hash, swap, install, finishing,
  verify_and_install, read_binary, update_to, expected_hash, fetch_and_update, check_and_update,
}
use nobase_agent.Updater.Sound.{look-swap}

module _ (machine : Machine) (backend : Backend) (restart_service : Bool) (url : String)
    (bytes : Bytes) where
  run : Installation → Result String UpdateResult × Installation
  run = update_to machine backend no_update_faults restart_service url (machine.sha256 bytes)

  -- The binary that is installed has the expected hash: nothing is done.
  run_settled :
      (s : Installation) (old_hash : String)
      → current_hash machine none s.fs ≡ ok old_hash
      → (old_hash ==ₛ machine.sha256 bytes) ≡ true
      → run s ≡ (ok already_up_to_date, s)
  unfolding run update_to
  run_settled s old_hash p hit = rw (p, update_to, hit) refl

  current_hash_ok : (fs : FileSystem) → (h : String) × (current_hash machine none fs ≡ ok h)
  unfolding current_hash
  current_hash_ok fs = elim (Option-cases (look binary_path fs)) [
    | inl p ↦ ("", rw (p, current_hash) refl)
    | inr (b, p) ↦ (machine.sha256 b, rw (p, current_hash) refl)
  ]

  current_hash_there :
      (fs : FileSystem)
      → look binary_path fs ≡ some bytes
      → current_hash machine none fs ≡ ok (machine.sha256 bytes)
  unfolding current_hash
  current_hash_there fs there = rw (there, current_hash) refl

  sha_hit : (machine.sha256 bytes ==ₛ machine.sha256 bytes) ≡ true
  sha_hit = ground (arith, eq_iff (machine.sha256 bytes) (machine.sha256 bytes))

  run_fresh :
      (s : Installation) (old_hash : String)
      → current_hash machine none s.fs ≡ ok old_hash
      → (old_hash ==ₛ machine.sha256 bytes) ≡ false
      → read_binary (backend.get_binary url) ≡ ok bytes
      → run s ≡ install machine no_update_faults restart_service old_hash bytes s
  unfolding run update_to verify_and_install
  run_fresh s old_hash p miss binary = rw (p, update_to, miss, binary, sha_hit) refl

  install_there :
      (s : Installation) (old_hash : String)
      → look binary_path (install machine no_update_faults restart_service old_hash bytes s).1.fs
        ≡ some bytes
  unfolding install finishing put_or_fail swap
  install_there s old_hash =
      let put_there = record s { fs = put update_path bytes s.fs } in
      let there =
        look-swap machine backend no_update_faults restart_service bytes put_there (inl refl)
          (look-put update_path bytes s.fs) in
      elim (Bool-cases restart_service) [ inl p ↦ rw p there | inr p ↦ rw p there ]

  run_twice :
      (s : Installation)
      → read_binary (backend.get_binary url) ≡ ok bytes
      → run (run s).1 ≡ (ok already_up_to_date, (run s).1)
  run_twice s binary =
      let (h, p) = current_hash_ok s.fs in
      elim (Bool-cases (h ==ₛ machine.sha256 bytes)) [
        | inl hit ↦ rw (run_settled s h p hit) (run_settled s h p hit)
        | inr miss ↦ rw (run_fresh s h p miss binary) (
            let after = (install machine no_update_faults restart_service h bytes s).1 in
            run_settled after (machine.sha256 bytes)
              (current_hash_there after.fs (install_there s h)) sha_hit)
      ]

  fetch_run :
      (s : Installation)
      → expected_hash (backend.get_checksum (url <> "/checksum")) ≡ ok (some (machine.sha256 bytes))
      → fetch_and_update machine backend no_update_faults restart_service url s ≡ run s
  unfolding fetch_and_update run
  fetch_run s hash = rw (hash, fetch_and_update) refl

  check_run :
      (backend_url name : String) (s : Installation)
      → (backend_url ==ₛ "") ≡ false
      → platform machine.arch ≡ ok name
      → backend.client ≡ none
      → url ≡ trim_end_slashes backend_url <> ("/api/agents/binary/" <> name)
      → expected_hash (backend.get_checksum (url <> "/checksum")) ≡ ok (some (machine.sha256 bytes))
      → check_and_update machine backend no_update_faults backend_url restart_service s ≡ run s
  unfolding check_and_update run fetch_and_update
  check_run backend_url name s full arch client here hash =
      rw (full, check_and_update, arch, ← here) (simp client (fetch_run s hash))

  -- After an update in which nothing fails, from a backend that gives out the hash of the binary
  -- that it delivers, the next one finds the agent up to date and touches nothing. The URL is not
  -- empty and the architecture is supported.
  pub check_and_update_settles :
      (backend_url name : String) (s : Installation)
      → (backend_url ==ₛ "") ≡ false
      → platform machine.arch ≡ ok name
      → backend.client ≡ none
      → url ≡ trim_end_slashes backend_url <> ("/api/agents/binary/" <> name)
      → expected_hash (backend.get_checksum (url <> "/checksum")) ≡ ok (some (machine.sha256 bytes))
      → read_binary (backend.get_binary url) ≡ ok bytes
      → let after =
          (check_and_update machine backend no_update_faults backend_url restart_service s).1 in
        check_and_update machine backend no_update_faults backend_url restart_service after
        ≡ (ok already_up_to_date, after)
  check_and_update_settles backend_url name s full arch client here hash binary =
      rw
        (
          check_run backend_url name s full arch client here hash,
          check_run backend_url name (run s).1 full arch client here hash,
        )
        (run_twice s binary)
