-- ===== src/Upload/Isolation.antt =====
-- What an upload's request leaves alone, whatever fails, src/handlers/fs.rs.
use nobase_agent.Prelude.{
  ℕ, String, ◌≡◌, ◌≢◌, refl, ◌∙◌, true, none, [], ◌∷◌, Result, ok, err, if◌then◌else◌, ◌==ₛ◌,
  Option-cases, Bool-cases, inl, inr, Action, pure, pos, continue,
}
use nobase_agent.Prelude.Dict.{get, remove, get-insert_ne, get-remove_ne}
use nobase_agent.Proto.Rpc.{Failure}
use nobase_agent.Proto.Methods.{FsUploadStartRequest, FsUploadEndRequest}
use nobase_agent.Proto.Wire.{Wire}
use nobase_agent.FileSystem.{Bytes, FileSystem, create}
use nobase_agent.Upload.Progress.{fresh, fed}
use nobase_agent.Upload.{
  System, Uploads, UploadTransfer, StartFaults, ChunkFaults, EndFaults, write_path, seek_error,
  start_upload, begin_transfer, receive_chunk, write_chunk, count_chunk, end_upload, finish, verify,
  move_in,
}

-- The entry of `other` in the map is what it was.
abbrev pub Keeps {ℓ} : {A : Type ℓ} → String → Uploads → A × Uploads → Type 0
Keeps other s (r, after) = get other after.transfers ≡ get other s.transfers

module _ (wire : Wire) (system : System) (other : String) where
  begin_transfer-Keeps :
      (req : FsUploadStartRequest) (s : Uploads)
      → req.transfer_id ≢ other
      → Keeps other s (begin_transfer wire req s)
  unfolding begin_transfer
  begin_transfer-Keeps req s ne =
      get-insert_ne req.transfer_id other
        (fresh wire req (create (write_path req.transfer_id (fresh wire req 0)) s.fs).0) s.transfers
        ne

  start_upload-Keeps :
      (f : StartFaults) (req : FsUploadStartRequest) (s : Uploads)
      → req.transfer_id ≢ other
      → Keeps other s (start_upload wire f req s)
  unfolding start_upload
  start_upload-Keeps f req s ne =
      elim (Option-cases (if f.parent_missing then f.create_dir else none)) [
        | inr (e, p) ↦ rw (p, start_upload) refl
        | inl p ↦ elim (Option-cases f.create) [
          | inr (e, q) ↦ rw (p, start_upload, q) refl
          | inl q ↦ rw (p, start_upload, q) (begin_transfer-Keeps req s ne)
        ]
      ]

  write_chunk-Keeps :
      (f : ChunkFaults) (transfer_id : String) (offset : ℕ) (bytes : Bytes) (t : UploadTransfer)
      (s : Uploads)
      → transfer_id ≢ other
      → Keeps other s (write_chunk wire f transfer_id offset bytes t s)
  unfolding write_chunk count_chunk
  write_chunk-Keeps f transfer_id offset bytes t s ne =
      elim (Option-cases (seek_error f.seek offset)) [
        | inr (e, p) ↦ rw (p, write_chunk) refl
        | inl p ↦ elim (Option-cases f.write) [
          | inr (e, q) ↦ rw (p, write_chunk, q) refl
          | inl q ↦
              rw (p, write_chunk, q)
                (get-insert_ne transfer_id other (fed wire bytes t) s.transfers ne)
        ]
      ]

  receive_chunk-Keeps :
      (f : ChunkFaults) (transfer_id : String) (offset : ℕ) (bytes : Bytes) (s : Uploads)
      → transfer_id ≢ other
      → Keeps other s (receive_chunk wire f transfer_id offset bytes s)
  unfolding receive_chunk
  receive_chunk-Keeps f transfer_id offset bytes s ne =
      elim (Option-cases (get transfer_id s.transfers)) [
        | inl p ↦ rw (p, receive_chunk) refl
        | inr (t, p) ↦ rw (p, receive_chunk) (write_chunk-Keeps f transfer_id offset bytes t s ne)
      ]

  verify-Keeps :
      (f : EndFaults) (req : FsUploadEndRequest) (t : UploadTransfer) (s : Uploads)
      → Keeps other s (verify wire system f req t s)
  unfolding verify
  verify-Keeps f req t s = elim (Bool-cases (system.sha256 t.hasher ==ₛ req.checksum_sha256)) [
    | inl hit ↦ rw (hit, verify) (moved (move_in wire system f.remove req.transfer_id t s.fs))
    | inr miss ↦ rw (miss, verify) refl
  ]
    where
      receipt : Action Uploads Failure wire.Value
      receipt = pure (
          wire.object (
            ("ok", wire.boolean true)
            ∷ ("path", wire.string t.path)
            ∷ ("size", wire.number (pos t.received))
            ∷ ("checksum", wire.string (system.sha256 t.hasher))
            ∷ []))

      moved :
          (o : Result Failure (Unit {0}) × FileSystem)
          → Keeps other s (continue o.0 (λ _. receipt) (record s { fs = o.1 }))
      moved (ok u, fs) = refl
      moved (err e, fs) = refl

  finish-Keeps :
      (f : EndFaults) (req : FsUploadEndRequest) (t : UploadTransfer) (s : Uploads)
      → req.transfer_id ≢ other
      → Keeps other s (finish wire system f req t s)
  unfolding finish
  finish-Keeps f req t s ne =
      let gone = get-remove_ne req.transfer_id other s.transfers ne in
      elim (Option-cases f.flush) [
        | inr (e, p) ↦ rw (p, finish) gone
        | inl p ↦ elim (Option-cases f.sync) [
          | inr (e, q) ↦ rw (p, finish, q) gone
          | inl q ↦
              rw (p, finish, q)
                (verify-Keeps f req t (record s { transfers = remove req.transfer_id s.transfers })
                  ∙ gone)
        ]
      ]

  end_upload-Keeps :
      (f : EndFaults) (req : FsUploadEndRequest) (s : Uploads)
      → req.transfer_id ≢ other
      → Keeps other s (end_upload wire system f req s)
  unfolding end_upload
  end_upload-Keeps f req s ne = elim (Option-cases (get req.transfer_id s.transfers)) [
    | inl p ↦ rw (p, end_upload) refl
    | inr (t, p) ↦ rw (p, end_upload) (finish-Keeps f req t s ne)
  ]

  -- A request for one transfer leaves every other transfer's entry as it was, whatever fails.
  pub transfers_isolated :
      (start : StartFaults) (chunk : ChunkFaults) (end : EndFaults) (first : FsUploadStartRequest)
      (offset : ℕ) (bytes : Bytes) (last : FsUploadEndRequest) (s : Uploads)
      → first.transfer_id ≢ other
      → last.transfer_id ≢ other
      → Keeps other s (start_upload wire start first s)
        × Keeps other s (receive_chunk wire chunk first.transfer_id offset bytes s)
        × Keeps other s (end_upload wire system end last s)
  transfers_isolated start chunk end first offset bytes last s ne ne' = (
    start_upload-Keeps start first s ne,
    receive_chunk-Keeps chunk first.transfer_id offset bytes s ne,
    end_upload-Keeps end last s ne',
  )
