-- ===== src/Upload/Arrivals.antt =====
-- The end of an upload in which nothing fails, src/handlers/fs.rs, in whatever order its chunks arrive.
use nobase_agent.Prelude.{
  ℕ, ◌%◌, ◌^◌, ◌<◌, String, ◌≡◌, refl, ◌∙◌, sym, ap, true, none, some, List, [], ◌∷◌, length,
  Result, ok, ◌==ₛ◌, eq_iff, arith, All, Bool-cases, inl, inr, pos,
}
use nobase_agent.Prelude.Dict.{get, remove, get-remove}
use nobase_agent.Proto.Rpc.{Failure}
use nobase_agent.Proto.Methods.{FsUploadStartRequest, FsUploadEndRequest}
use nobase_agent.Proto.Wire.{Wire}
use nobase_agent.FileSystem.{Bytes, FileSystem, look, look_named}
use nobase_agent.Upload.{
  UploadTransfer, Uploads, MvStatus, System, no_end_faults, unwrap_or_false, tmp_path, write_path,
  settle, move_in, verify, finish, end_upload,
}
use nobase_agent.Upload.Progress.{InProgress, arrival, writes, uploaded, uploaded-InProgress}

module _ (wire : Wire) where
  -- What `sudo mv` does where it succeeds.
  abbrev pub Moves : System → String → String → Type 0
  Moves system tmp path =
      (fs : FileSystem) (c : Bytes)
      → look tmp fs ≡ some c
      → let (status, fs') = system.sudo_mv tmp path fs in
        (status ≡ MvStatus.moved) × (look path fs' ≡ some c)

  settle-look :
      (system : System) (o : MvStatus × FileSystem) (tmp path : String) (bytes : Bytes)
      → o.0 ≡ MvStatus.moved
      → look path o.1 ≡ some bytes
      → (settle wire system none tmp o ≡ (ok tt, o.1))
  unfolding settle
  settle-look system (MvStatus.moved, fs) tmp path bytes ok_mv there = refl
  settle-look system (MvStatus.exited e, fs) tmp path bytes ok_mv there = absurd (ground arith)
  settle-look system (MvStatus.unrunnable e, fs) tmp path bytes ok_mv there = absurd (ground arith)

  -- A finished file gets to its place.
  move_in_arrives :
      (system : System) (transfer_id : String) (t : UploadTransfer) (bytes : Bytes)
      (fs : FileSystem)
      → (t.sudo ≡ true → Moves system (tmp_path transfer_id) t.path)
      → look (write_path transfer_id t) fs ≡ some bytes
      → (fs' : FileSystem) × (move_in wire system none transfer_id t fs ≡ (ok tt, fs'))
        × (look t.path fs' ≡ some bytes)
  unfolding move_in
  move_in_arrives system transfer_id t bytes fs moves found = elim (Bool-cases t.sudo) [
    | inl sudo ↦
        let o = system.sudo_mv (tmp_path transfer_id) t.path fs in
        let tmp : look (tmp_path transfer_id) fs ≡ some bytes = rw sudo at found in
        let (status, there) = moves sudo fs bytes tmp in
        (
          o.1,
          rw (sudo, move_in)
              (settle-look system o (tmp_path transfer_id) t.path bytes status there),
          there,
        )
    | inr plain ↦ (fs, rw (plain, move_in) refl, rw plain at found)
  ]

  -- What the response to an end says.
  abbrev pub receipt : String → ℕ → String → wire.Value
  receipt path size checksum = wire.object (
      ("ok", wire.boolean true)
      ∷ ("path", wire.string path)
      ∷ ("size", wire.number (pos size))
      ∷ ("checksum", wire.string checksum)
      ∷ [])

  verify_match :
      (system : System) (req : FsUploadEndRequest) (t : UploadTransfer) (s : Uploads)
      (fs' : FileSystem)
      → system.sha256 t.hasher ≡ req.checksum_sha256
      → move_in wire system none req.transfer_id t s.fs ≡ (ok tt, fs')
      → verify wire system no_end_faults req t s
        ≡ (ok (receipt t.path t.received (system.sha256 t.hasher)), record s { fs = fs' })
  unfolding verify
  verify_match system req t s fs' same arrived =
      let hit : (system.sha256 t.hasher ==ₛ req.checksum_sha256) ≡ true =
        ground (arith, eq_iff (system.sha256 t.hasher) req.checksum_sha256) in
      rw (hit, verify, arrived) refl

  pub end_upload_here :
      (system : System) (req : FsUploadEndRequest) (t : UploadTransfer) (s : Uploads)
      → get req.transfer_id s.transfers ≡ some t
      → end_upload wire system no_end_faults req s
        ≡ verify wire system no_end_faults req t
            (record s { transfers = remove req.transfer_id s.transfers })
  unfolding end_upload finish
  end_upload_here system req t s here = rw (here, end_upload) refl

  -- What a successful end leaves, beside its response.
  abbrev pub Finished :
      String → String → ℕ → Bytes → String → Result Failure wire.Value × Uploads → Type 0
  Finished transfer_id path size content checksum (r, after) =
      (r ≡ ok (receipt path size checksum))
      × (look path after.fs ≡ some content)
      × (get transfer_id after.transfers ≡ none)

  end_upload-Finished :
      (system : System) (req : FsUploadEndRequest) (t : UploadTransfer) (arrived content : Bytes)
      (s : Uploads)
      → system.sha256 arrived ≡ req.checksum_sha256
      → (t.sudo ≡ true → Moves system (tmp_path req.transfer_id) t.path)
      → InProgress req.transfer_id t arrived content s
      → Finished req.transfer_id t.path
          (length arrived % 2 ^ 64)
          content
          req.checksum_sha256
          (end_upload wire system no_end_faults req s)
  end_upload-Finished system req t arrived content s same moves p =
      let found : look (write_path req.transfer_id t) s.fs ≡ some content =
        look_named (write_path req.transfer_id t) t.file s.fs p.named ∙ ap some p.written in
      let (fs', arrives, there) =
        move_in_arrives system req.transfer_id t content s.fs moves found in
      let hash : system.sha256 t.hasher ≡ req.checksum_sha256 = rw p.hashed same in
      rw
        (
          end_upload_here system req t s p.here,
          verify_match system req t (record s { transfers = remove req.transfer_id s.transfers })
              fs' hash arrives,
        )
        (
          rw (p.counted, hash) refl,
          there,
          ground (
            arith,
            get-remove req.transfer_id req.transfer_id s.transfers,
            eq_iff req.transfer_id req.transfer_id,
          ),
        )

  -- An upload in which nothing fails, with any chunks at any offsets below 2^63, succeeds when the
  -- checksum is that of their bytes in the order of arrival. The file then holds what their writes
  -- leave, the size of the response counts every byte that arrived, and the transfer is gone.
  -- `sudo mv`, if the upload wants it, moves the file.
  pub upload_lem :
      (system : System) (req : FsUploadStartRequest) (checksum : String) (chunks : List (ℕ × Bytes))
      (s : Uploads)
      → All (λ c. c.0 < 2 ^ 63) chunks
      → system.sha256 (arrival chunks) ≡ checksum
      → (unwrap_or_false req.sudo ≡ true → Moves system (tmp_path req.transfer_id) req.path)
      → Finished req.transfer_id req.path
          (length (arrival chunks) % 2 ^ 64)
          (writes chunks [])
          checksum
          (end_upload wire system no_end_faults
            (record { transfer_id = req.transfer_id; checksum_sha256 = checksum })
            (uploaded wire req chunks s))
  upload_lem system req checksum chunks s small same moves =
      let (t, path, sudo, p) = uploaded-InProgress wire req chunks s small in
      rw path at (
        end_upload-Finished system
          (record { transfer_id = req.transfer_id; checksum_sha256 = checksum }) t (arrival chunks)
          (writes chunks []) (uploaded wire req chunks s) same (λ h. rw path (moves (sym sudo ∙ h)))
          p)
