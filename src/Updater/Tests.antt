-- ===== src/Updater/Tests.antt =====
-- Runs of the self-update of src/updater.rs, and the theorems at a concrete backend.
use nobase_agent.Prelude.{
  ◌==◌, String, ◌<>◌, ◌≡◌, refl, true, none, some, [], ◌∷◌, ok, arith, if◌then◌else◌,
}
use nobase_agent.Prelude.Dict.{get}
use nobase_agent.FileSystem.{Bytes}
use nobase_agent.Updater.{
  Backend, Machine, UpdateFaults, no_update_faults, Installation, already_up_to_date,
  check_and_update, trim_end_slashes, platform, read_binary, expected_hash,
}
use nobase_agent.Updater.Files.{Apart}
use nobase_agent.Updater.Sound.{Sound, check_and_update_lem}
use nobase_agent.Updater.Settled.{check_and_update_settles}

abbrev digest : Bytes → String
digest [] = ""
digest (b ∷ bytes) = (if b == 1 then "a" else "b") <> digest bytes

abbrev machine : Machine
machine = record { arch = "x86_64"; sha256 = digest }

abbrev backend : Backend
backend = record {
  client = none;
  get_checksum = λ url. ok (record { status = 200; status_text = "200 OK"; body = ok (some "ab") });
  get_binary = λ url. ok (record { status = 200; status_text = "200 OK"; body = ok (1 ∷ 2 ∷ []) });
}

-- The binary with the hash "a" is installed.
abbrev old : Installation
old = record {
  fs = record { names = ("/usr/local/bin/nobase", 0) ∷ []; contents = λ i. 1 ∷ []; next = 1 };
  restarts = 0;
}

trimmed : trim_end_slashes "http://b//" ≡ "http://b"
unfolding trim_end_slashes
trimmed = refl

old-Apart : Apart old.fs
unfolding get
old-Apart = record { apart = λ i h k. ground arith; fresh = λ i h. ground arith }

-- The new binary cannot be renamed, and is copied.
abbrev other_device : UpdateFaults
other_device = record no_update_faults { rename = some "Invalid cross-device link" }

check_and_update_lem_example :
    Sound machine backend other_device true old
      (check_and_update machine backend other_device "http://b/" true old)
check_and_update_lem_example =
    check_and_update_lem machine backend other_device true "http://b/" old old-Apart

check_and_update_settles_example :
    let after = (check_and_update machine backend no_update_faults "http://b/" true old).1 in
    check_and_update machine backend no_update_faults "http://b/" true after
    ≡ (ok already_up_to_date, after)
unfolding platform trim_end_slashes expected_hash read_binary
check_and_update_settles_example =
    check_and_update_settles machine backend true "http://b/api/agents/binary/linux-x86_64"
      (1 ∷ 2 ∷ []) "http://b/" "linux-x86_64" old refl refl refl refl refl refl
