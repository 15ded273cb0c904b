-- ===== src/Updater.antt =====
-- The self-update of src/updater.rs (`check_and_update`): what it does to the binary's file, and
-- with what it answers.
pub mod Files
pub mod Sound
pub mod Settled
mod Tests
use Prim.Native.Char.{code}
use Prim.Native.String
use nobase_agent.Prelude.{
  ℕ, ◌+◌, String, ◌<>◌, Bool, true, false, ◌&&◌, Option, none, some, List, [], ◌∷◌, Result, ok, err,
  leb, ◌==◌, if◌then◌else◌, ◌==ₛ◌, Action, pure, fail, lift, ◌>>=◌, ◌>>◌, check, modify, gets,
}
use nobase_agent.Prelude.Dict.{get, insert, remove}
use nobase_agent.FileSystem.{Bytes, FileSystem, remove_file, look, put}

abbrev pub binary_path : String
binary_path = "/usr/local/bin/nobase"

abbrev pub update_path : String
update_path = "/tmp/nobase-update"

pub data UpdateResult : Type 0 where
  already_up_to_date : UpdateResult
  updated : String → String → UpdateResult
  not_configured : UpdateResult

-- An HTTP response: its status and how that prints, and its body once it is read.
pub record HttpResponse (A : Type 0) : Type 0 where
  pub status : ℕ
  pub status_text : String
  pub body : Result String A

-- The backend, through the crate `reqwest`: the checksum of a platform's binary, in which the
-- field `sha256` may be missing, and the binary. And the crate `sha2`.
pub record Backend : Type 0 where
  pub client : Option String
  pub get_checksum : String → Result String (HttpResponse (Option String))
  pub get_binary : String → Result String (HttpResponse Bytes)

pub record Machine : Type 0 where
  pub arch : String
  pub sha256 : Bytes → String

-- A write or a copy that fails: the error, and what it leaves in the file, if that was opened.
pub record CopyFault : Type 0 where
  pub message : String
  pub left : Option Bytes

-- What fails on the machine.
pub record UpdateFaults : Type 0 where
  pub read : Option String
  pub write : Option CopyFault
  pub permissions : Option String
  pub rename : Option String
  pub copy : Option CopyFault
  pub binary_permissions : Option String
  pub remove : Option String

abbrev pub no_update_faults : UpdateFaults
no_update_faults = record {
  read = none;
  write = none;
  permissions = none;
  rename = none;
  copy = none;
  binary_permissions = none;
  remove = none;
}

-- The files, and how often a restart of the service was asked for.
pub record Installation : Type 0 where
  pub fs : FileSystem
  pub restarts : ℕ

abbrev pub is_success : ℕ → Bool
is_success status = leb 200 status && leb status 299

-- `trim_end_matches('/')`
unfoldable pub trim_end_slashes : String → String
trim_end_slashes String.[] = ""
trim_end_slashes (String.◌∷◌ c s) =
    let rest = trim_end_slashes s in if rest ==ₛ "" && code c == b'/' then "" else String.◌∷◌ c rest

-- `linux-` and the architecture
unfoldable pub platform : String → Result String String
platform arch =
    if arch ==ₛ "x86_64"
    then ok "linux-x86_64"
    else if arch ==ₛ "aarch64"
    then ok "linux-aarch64"
    else err ("Unsupported architecture: " <> arch)

unfoldable pub put_or_fail :
    Option CopyFault → String → Bytes → Action Installation String (Unit {0})
unfolding put
put_or_fail none path bytes s = (ok tt, record s { fs = put path bytes s.fs })
put_or_fail (some f) path bytes s = elim f.left [
  | none ↦ (err f.message, s)
  | some rest ↦ (err f.message, record s { fs = put path rest s.fs })
]

-- `rename`, of a name that leads to a file
unfoldable pub rename_file : Option ℕ → String → String → FileSystem → FileSystem
rename_file none old_path new_path fs = fs
rename_file (some file) old_path new_path fs = record fs {
  names = insert new_path file (remove old_path fs.names);
}

-- The rename, and the copy where it fails.
unfoldable pub swap : UpdateFaults → Bytes → Action Installation String (Unit {0})
unfolding rename_file put_or_fail
swap f bytes s = elim f.rename [
  | none ↦ (
    ok tt,
    record s { fs = rename_file (get update_path s.fs.names) update_path binary_path s.fs },
  )
  | some e ↦
      (do
        put_or_fail f.copy binary_path bytes
        check f.binary_permissions
        modify (λ s. elim f.remove [
          | none ↦ record s { fs = remove_file update_path s.fs }
          | some e ↦ s
        ]))
        s
]

unfoldable pub read_binary : Result String (HttpResponse Bytes) → Result String Bytes
read_binary (err e) = err e
read_binary (ok response) =
    if is_success response.status
    then response.body
    else err ("Failed to download binary (HTTP " <> (response.status_text <> ")"))

-- What the response to the request for the checksum comes to: nothing where there is no binary.
unfoldable pub expected_hash :
    Result String (HttpResponse (Option String)) → Result String (Option String)
expected_hash (err e) = err e
expected_hash (ok response) =
    if response.status == 404
    then ok none
    else if is_success response.status
    then elim response.body [
      | err e ↦ err e
      | ok none ↦ err "Invalid checksum response from backend"
      | ok (some sha256) ↦ ok (some sha256)
    ]
    else err ("Failed to fetch checksum (HTTP " <> (response.status_text <> ")"))

module _ (machine : Machine) where
  -- The hash of the binary that is installed, or the empty text.
  unfoldable pub current_hash : Option String → FileSystem → Result String String
  current_hash unreadable fs = elim (look binary_path fs) [
    | none ↦ ok ""
    | some bytes ↦ elim unreadable [ none ↦ ok (machine.sha256 bytes) | some e ↦ err e ]
  ]

  -- The restart, and the answer.
  unfoldable pub finishing : Bool → String → Bytes → Action Installation String UpdateResult
  finishing restart_service old_hash bytes = do
    modify (λ s. if restart_service then record s { restarts = s.restarts + 1 } else s)
    pure (updated old_hash (machine.sha256 bytes))

  -- From the write of the temporary file on.
  unfoldable pub install :
      UpdateFaults → Bool → String → Bytes → Action Installation String UpdateResult
  unfolding swap put_or_fail finishing
  install f restart_service old_hash bytes = do
    put_or_fail f.write update_path bytes
    check f.permissions
    swap f bytes
    finishing restart_service old_hash bytes

  -- The checksum of what was downloaded is compared with the expected one.
  unfoldable pub verify_and_install :
      UpdateFaults → Bool → String → String → Bytes → Action Installation String UpdateResult
  unfolding install
  verify_and_install f restart_service expected old_hash bytes =
      if machine.sha256 bytes ==ₛ expected
      then install f restart_service old_hash bytes
      else fail
          ("Checksum mismatch! expected=" <> (expected <> (" actual=" <> machine.sha256 bytes)))

  -- From the comparison with the installed binary on.
  unfoldable pub update_to :
      Backend → UpdateFaults → Bool → String → String → Action Installation String UpdateResult
  unfolding verify_and_install read_binary current_hash
  update_to backend f restart_service url expected s = elim (current_hash f.read s.fs) [
    | err e ↦ (err e, s)
    | ok old_hash ↦
        if old_hash ==ₛ expected
        then (ok already_up_to_date, s)
        else elim (read_binary (backend.get_binary url)) [
          | err e ↦ (err e, s)
          | ok bytes ↦ verify_and_install f restart_service expected old_hash bytes s
        ]
  ]

  unfoldable pub fetch_and_update :
      Backend → UpdateFaults → Bool → String → Action Installation String UpdateResult
  unfolding expected_hash update_to
  fetch_and_update backend f restart_service url s =
      elim (expected_hash (backend.get_checksum (url <> "/checksum"))) [
        | err e ↦ (err e, s)
        | ok none ↦ (ok already_up_to_date, s)
        | ok (some expected) ↦ update_to backend f restart_service url expected s
      ]

  -- `check_and_update`
  unfoldable pub check_and_update :
      Backend → UpdateFaults → String → Bool → Action Installation String UpdateResult
  unfolding platform fetch_and_update trim_end_slashes
  check_and_update backend f backend_url restart_service =
      if backend_url ==ₛ "" then pure not_configured else (do
        p ← lift (platform machine.arch)
        check backend.client
        fetch_and_update backend f restart_service
            (trim_end_slashes backend_url <> ("/api/agents/binary/" <> p)))
