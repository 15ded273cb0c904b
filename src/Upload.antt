-- ===== src/Upload.antt =====
-- The chunked uploads of src/handlers/fs.rs (`handle_fs_upload_start`, `handle_fs_upload_chunk`,
-- `handle_fs_upload_end`) and the map `UPLOADS` that they share.
pub mod Progress
pub mod Arrivals
pub mod InOrder
pub mod Refused
pub mod Isolation
mod Tests
use nobase_agent.Prelude.{
  ℕ, ◌+◌, ◌%◌, ◌^◌, String, ◌<>◌, Bool, true, false, not, Option, none, some, List, [], ◌∷◌, ◌++◌,
  length, leb, Result, ok, err, if◌then◌else◌, ◌==ₛ◌, pos, Action, pure, fail, lift, map_err, ◌>>=◌,
  ◌>>◌, modify, gets,
}
use nobase_agent.Prelude.Dict.{Dict, get, insert, remove}
use nobase_agent.Proto.Rpc.{RpcResponse, Failure, fault, respond, command_failed, invalid_params}
use nobase_agent.Proto.Methods.{FsUploadStartRequest, FsUploadChunkRequest, FsUploadEndRequest}
use nobase_agent.Proto.Wire.{Wire}
use nobase_agent.FileSystem.{Bytes, FileSystem, create, set_contents, write_at, remove_file}

-- `hasher` is what the SHA-256 state was fed.
pub record UploadTransfer : Type 0 where
  pub path : String
  pub file : ℕ
  pub total_size : ℕ
  pub received : ℕ
  pub hasher : Bytes
  pub sudo : Bool

-- `UPLOADS`, and the files.
pub record Uploads : Type 0 where
  pub transfers : Dict UploadTransfer
  pub fs : FileSystem

-- How `sudo -n mv` ends: with success, with another status and a stderr, or it does not run.
pub data MvStatus : Type 0 where
  moved : MvStatus
  exited : String → MvStatus
  unrunnable : String → MvStatus

-- The crates `sha2` and `base64`, and the command `sudo -n mv`.
pub record System : Type 0 where
  pub sha256 : Bytes → String
  pub decode : String → Result String Bytes
  pub sudo_mv : String → String → FileSystem → MvStatus × FileSystem

-- What fails during a start.
pub record StartFaults : Type 0 where
  pub parent_missing : Bool
  pub create_dir : Option String
  pub create : Option String

-- What fails during a chunk. A failed write may leave anything in the file.
pub record ChunkFaults : Type 0 where
  pub seek : Option String
  pub write : Option (String × Bytes)

-- What fails during an end, where data that was still to be written may get lost.
pub record EndFaults : Type 0 where
  pub flush : Option (String × Bytes)
  pub sync : Option (String × Bytes)
  pub remove : Option String

abbrev pub no_start_faults : StartFaults
no_start_faults = record { parent_missing = false; create_dir = none; create = none }

abbrev pub no_chunk_faults : ChunkFaults
no_chunk_faults = record { seek = none; write = none }

abbrev pub no_end_faults : EndFaults
no_end_faults = record { flush = none; sync = none; remove = none }

abbrev pub unwrap_or_false : Option Bool → Bool
unwrap_or_false none = false
unwrap_or_false (some b) = b

abbrev pub tmp_path : String → String
tmp_path transfer_id = "/tmp/.qd-upload-" <> transfer_id

-- Where the data of a transfer goes.
abbrev pub write_path : String → UploadTransfer → String
write_path transfer_id t = if t.sudo then tmp_path transfer_id else t.path

-- The same of the request.
unfoldable pub target_path : FsUploadStartRequest → String
target_path req = if unwrap_or_false req.sudo then tmp_path req.transfer_id else req.path

-- A step that fails with a message, in a handler.
abbrev pub attempt : String → Option String → Action Uploads Failure (Unit {0})
attempt what none s = (ok tt, s)
attempt what (some e) s = (err (fault command_failed (what <> e)), s)

-- A step that fails with a message and leaves `rest` in the file.
abbrev pub attempt_on : ℕ → String → Option (String × Bytes) → Action Uploads Failure (Unit {0})
attempt_on file what none s = (ok tt, s)
attempt_on file what (some (e, rest)) s =
    (err (fault command_failed (what <> e)), record s { fs = set_contents file rest s.fs })

-- Offsets are cast to i64, and negative ones are refused.
abbrev pub seek_error : Option String → ℕ → Option String
seek_error (some e) offset = some e
seek_error none offset = if leb (2 ^ 63) offset then some "Invalid argument (os error 22)" else none

abbrev pub no_upload : String → Failure
no_upload transfer_id = fault command_failed ("No active upload for transfer_id: " <> transfer_id)

module _ (wire : Wire) where
  open wire use {Value, number, string, object, boolean}

  -- The file is created, and the transfer takes its place in the map.
  unfoldable pub begin_transfer : FsUploadStartRequest → Action Uploads Failure Value
  unfolding target_path
  begin_transfer req s =
      let sudo = unwrap_or_false req.sudo in
      let (file, fs) = create (target_path req) s.fs in
      (
        ok (object (("ok", boolean true) ∷ ("transfer_id", string req.transfer_id) ∷ [])),
        record {
          transfers =
              insert req.transfer_id
                (record {
                  path = req.path;
                  file = file;
                  total_size = req.total_size;
                  received = 0;
                  hasher = [];
                  sudo = sudo;
                })
                s.transfers;
          fs = fs;
        },
      )

  -- The directory of the file is made where it is missing.
  unfoldable pub start_upload : StartFaults → FsUploadStartRequest → Action Uploads Failure Value
  unfolding begin_transfer target_path
  start_upload f req = do
    attempt "Cannot create parent directory: " (if f.parent_missing then f.create_dir else none)
    attempt ("Cannot create file " <> ((target_path req) <> ": ")) f.create
    begin_transfer req

  -- The chunk is hashed and counted in the order of arrival.
  unfoldable pub count_chunk : String → Bytes → UploadTransfer → Action Uploads Failure Value
  count_chunk transfer_id bytes t s =
      let received = (t.received + length bytes) % 2 ^ 64 in
      (
        ok (
            object (
              ("ok", boolean true)
              ∷ ("received", number (pos received))
              ∷ ("total", number (pos t.total_size))
              ∷ [])),
        record s {
          transfers =
              insert transfer_id (record t { received = received; hasher = t.hasher ++ bytes })
                s.transfers;
        },
      )

  -- The chunk of a transfer that is in the map: it is written at its offset.
  unfoldable pub write_chunk :
      ChunkFaults → String → ℕ → Bytes → UploadTransfer → Action Uploads Failure Value
  unfolding count_chunk
  write_chunk f transfer_id offset bytes t = do
    attempt "Seek error: " (seek_error f.seek offset)
    attempt_on t.file "Write error: " f.write
    modify (λ s. record s {
      fs = set_contents t.file (write_at offset bytes (s.fs.contents t.file)) s.fs;
    })
    count_chunk transfer_id bytes t

  unfoldable pub receive_chunk : ChunkFaults → String → ℕ → Bytes → Action Uploads Failure Value
  unfolding write_chunk
  receive_chunk f transfer_id offset bytes s = elim (get transfer_id s.transfers) [
    | none ↦ (err (no_upload transfer_id), s)
    | some t ↦ write_chunk f transfer_id offset bytes t s
  ]

module _ (wire : Wire) (system : System) where
  open wire use {Value, number, string, object, boolean}

  -- `let _ = remove_file`: a failure is dropped.
  abbrev pub try_remove : Option String → String → FileSystem → FileSystem
  try_remove none path fs = remove_file path fs
  try_remove (some e) path fs = fs

  unfoldable pub settle :
      Option String → String → MvStatus × FileSystem → Result Failure (Unit {0}) × FileSystem
  settle f tmp (moved, fs) = (ok tt, fs)
  settle f tmp (exited stderr, fs) =
      (err (fault command_failed ("sudo mv failed: " <> stderr)), try_remove f tmp fs)
  settle f tmp (unrunnable e, fs) =
      (err (fault command_failed ("Failed to run sudo mv: " <> e)), try_remove f tmp fs)

  -- A file that was written for `sudo` goes to its place.
  unfoldable pub move_in :
      Option String → String → UploadTransfer → FileSystem → Result Failure (Unit {0}) × FileSystem
  unfolding settle
  move_in f transfer_id t fs =
      if t.sudo
      then settle f (tmp_path transfer_id) (system.sudo_mv (tmp_path transfer_id) t.path fs)
      else (ok tt, fs)

  abbrev pub on_files :
      (FileSystem → Result Failure (Unit {0}) × FileSystem) → Action Uploads Failure (Unit {0})
  on_files f s = let (r, fs) = f s.fs in (r, record s { fs = fs })

  -- The checksum of what was hashed is compared with the one of the request.
  unfoldable pub verify :
      EndFaults → FsUploadEndRequest → UploadTransfer → Action Uploads Failure Value
  unfolding move_in
  verify f req t =
      let actual_hash = system.sha256 t.hasher in
      if actual_hash ==ₛ req.checksum_sha256
      then (do
        on_files (move_in f.remove req.transfer_id t)
        pure (
            object (
              ("ok", boolean true)
              ∷ ("path", string t.path)
              ∷ ("size", number (pos t.received))
              ∷ ("checksum", string actual_hash)
              ∷ [])))
      else (do
        modify (λ s. record s { fs = try_remove f.remove (write_path req.transfer_id t) s.fs })
        fail (
            fault command_failed (
              "Checksum mismatch: expected "
              <> (req.checksum_sha256 <> (", got " <> actual_hash)))))

  unfoldable pub finish :
      EndFaults → FsUploadEndRequest → UploadTransfer → Action Uploads Failure Value
  unfolding verify
  finish f req t = do
    modify (λ s. record s { transfers = remove req.transfer_id s.transfers })
    attempt_on t.file "Flush error: " f.flush
    attempt_on t.file "Sync error: " f.sync
    verify f req t

  unfoldable pub end_upload : EndFaults → FsUploadEndRequest → Action Uploads Failure Value
  unfolding finish
  end_upload f req s = elim (get req.transfer_id s.transfers) [
    | none ↦ (err (no_upload req.transfer_id), s)
    | some t ↦ finish f req t s
  ]

  abbrev invalid : String → Failure
  invalid e = fault invalid_params e

  -- A handler: the response with its id to what the action came to.
  abbrev pub answer : String → Action Uploads Failure Value → Uploads → RpcResponse Value × Uploads
  answer id m s = let (r, s') = m s in (respond id r, s')

  unfoldable pub handle_fs_upload_start :
      StartFaults → String → Value → Uploads → RpcResponse Value × Uploads
  unfolding start_upload
  handle_fs_upload_start f id params = answer id (do
    req ← lift (map_err (λ e. invalid ("Invalid params: " <> e)) (wire.upload_start params))
    start_upload wire f req)

  unfoldable pub handle_fs_upload_chunk :
      ChunkFaults → String → Value → Uploads → RpcResponse Value × Uploads
  unfolding receive_chunk
  handle_fs_upload_chunk f id params = answer id (do
    req ← lift (map_err (λ e. invalid ("Invalid params: " <> e)) (wire.upload_chunk params))
    bytes ← lift (map_err (λ e. invalid ("Invalid base64 data: " <> e)) (system.decode req.payload))
    receive_chunk wire f req.transfer_id req.offset bytes)

  unfoldable pub handle_fs_upload_end :
      EndFaults → String → Value → Uploads → RpcResponse Value × Uploads
  unfolding end_upload
  handle_fs_upload_end f id params = answer id (do
    req ← lift (map_err (λ e. invalid ("Invalid params: " <> e)) (wire.upload_end params))
    end_upload f req)
