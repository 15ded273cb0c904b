-- ===== src/Upload/Refused.antt =====
-- Uploads whose checksum does not fit, src/handlers/fs.rs.
use mathlib.Core.List.{append-nil}
use nobase_agent.Prelude.{
  ℕ, zero, suc, ◌+◌, ◌-◌, ◌^◌, ◌<◌, String, ◌<>◌, ◌≡◌, ◌≢◌, refl, ◌∙◌, sym, ap, false, none, some,
  List, [], ◌∷◌, ◌++◌, length, take, drop, replicate, Result, err, ◌==ₛ◌, eq_iff, arith, All,
}
use nobase_agent.Prelude.Dict.{get, remove, get-remove}
use nobase_agent.Proto.Rpc.{Failure, fault, command_failed}
use nobase_agent.Proto.Methods.{FsUploadStartRequest, FsUploadEndRequest}
use nobase_agent.Proto.Wire.{Wire}
use nobase_agent.FileSystem.{Bytes, look, look_named, write_at}
use nobase_agent.Upload.{
  System, Uploads, UploadTransfer, no_end_faults, write_path, unwrap_or_false, target_path,
  end_upload, verify,
}
use nobase_agent.Upload.Progress.{InProgress, arrival, writes, uploaded, uploaded-InProgress}
use nobase_agent.Upload.Arrivals.{end_upload_here}

abbrev pub mismatch : String → String → Failure
mismatch expected actual =
    fault command_failed ("Checksum mismatch: expected " <> (expected <> (", got " <> actual)))

module _ (wire : Wire) (system : System) where
  -- What a refused end leaves: an error, no transfer, and no file.
  abbrev pub Discarded : String → String → Failure → Result Failure wire.Value × Uploads → Type 0
  Discarded transfer_id path e (r, after) =
      (r ≡ err e) × (look path after.fs ≡ none) × (get transfer_id after.transfers ≡ none)

  verify_wrong :
      (req : FsUploadEndRequest) (t : UploadTransfer) (s : Uploads)
      → system.sha256 t.hasher ≢ req.checksum_sha256
      → get req.transfer_id s.transfers ≡ none
      → Discarded req.transfer_id
          (write_path req.transfer_id t)
          (mismatch req.checksum_sha256 (system.sha256 t.hasher))
          (verify wire system no_end_faults req t s)
  unfolding verify
  verify_wrong req t s ne gone =
      let miss : (system.sha256 t.hasher ==ₛ req.checksum_sha256) ≡ false =
        ground (arith, eq_iff (system.sha256 t.hasher) req.checksum_sha256, ne) in
      rw (miss, verify)
        (
          refl,
          ground (
            arith,
            get-remove (write_path req.transfer_id t) (write_path req.transfer_id t) s.fs.names,
            eq_iff (write_path req.transfer_id t) (write_path req.transfer_id t),
          ),
          gone,
        )

  end_upload-Discarded :
      (req : FsUploadEndRequest) (t : UploadTransfer) (arrived content : Bytes) (s : Uploads)
      → system.sha256 arrived ≢ req.checksum_sha256
      → InProgress req.transfer_id t arrived content s
      → Discarded req.transfer_id
          (write_path req.transfer_id t)
          (mismatch req.checksum_sha256 (system.sha256 arrived))
          (end_upload wire system no_end_faults req s)
  end_upload-Discarded req t arrived content s ne p =
      let same : system.sha256 t.hasher ≡ system.sha256 arrived = ap system.sha256 p.hashed in
      let gone : get req.transfer_id (remove req.transfer_id s.transfers) ≡ none = ground (
        arith,
        get-remove req.transfer_id req.transfer_id s.transfers,
        eq_iff req.transfer_id req.transfer_id,
      ) in
      rw (end_upload_here wire system req t s p.here, ← same)
        (verify_wrong req t (record s { transfers = remove req.transfer_id s.transfers })
          (λ e. ne (sym same ∙ e)) gone)

  -- An upload in which nothing fails, with any chunks at any offsets below 2^63, is refused when
  -- the checksum is not that of their bytes in the order of arrival; then its file and the transfer
  -- are gone.
  pub upload_refused :
      (req : FsUploadStartRequest) (checksum : String) (chunks : List (ℕ × Bytes)) (s : Uploads)
      → All (λ c. c.0 < 2 ^ 63) chunks
      → system.sha256 (arrival chunks) ≢ checksum
      → let (r, after) =
          end_upload wire system no_end_faults
            (record { transfer_id = req.transfer_id; checksum_sha256 = checksum })
            (uploaded wire req chunks s) in
        (r ≡ err (mismatch checksum (system.sha256 (arrival chunks))))
        × (look (target_path req) after.fs ≡ none)
        × (get req.transfer_id after.transfers ≡ none)
  unfolding target_path
  upload_refused req checksum chunks s small ne =
      let (t, path, sudo, p) = uploaded-InProgress wire req chunks s small in
      rw (path, sudo) at
        (end_upload-Discarded (record { transfer_id = req.transfer_id; checksum_sha256 = checksum })
          t (arrival chunks) (writes chunks []) (uploaded wire req chunks s) ne p)

take_nil : (n : ℕ) → take {A = ℕ} n [] ≡ []
take_nil zero = refl
take_nil (suc n) = refl

drop_nil : (n : ℕ) → drop {A = ℕ} n [] ≡ []
drop_nil zero = refl
drop_nil (suc n) = refl

drop_zeros : (n : ℕ) (c : Bytes) → drop n (replicate n 0 ++ c) ≡ c
drop_zeros zero c = refl
drop_zeros (suc n) c = drop_zeros n c

write_at_gap :
    (offset : ℕ) (bytes : Bytes)
    → bytes ≢ []
    → write_at offset bytes [] ≡ replicate offset 0 ++ bytes
unfolding write_at
write_at_gap offset [] h = absurd (h refl)
write_at_gap offset (b ∷ bytes) h =
    let gap : offset - 0 ≡ offset = omega arith in
    rw (take_nil offset, drop_nil (offset + length (b ∷ bytes)), append-nil (b ∷ bytes), gap) refl

write_at_start : (bytes c : Bytes) → write_at 0 bytes c ≡ bytes ++ drop (length bytes) c
unfolding write_at
write_at_start [] c = refl
write_at_start (b ∷ bytes) c =
    let no_gap : 0 - length c ≡ 0 = omega arith in
    let end : 0 + length (b ∷ bytes) ≡ length (b ∷ bytes) = omega arith in rw (no_gap, end) refl

-- The second piece of a file, and then the first one.
writes_swapped : (a b : Bytes) → b ≢ [] → writes ((length a, b) ∷ (0, a) ∷ []) [] ≡ a ++ b
writes_swapped a b h =
    ap (λ c. write_at 0 a c) (write_at_gap (length a) b h)
    ∙ write_at_start a (replicate (length a) 0 ++ b)
    ∙ ap (λ c. a ++ c) (drop_zeros (length a) b)

abbrev pub swapped : Bytes → Bytes → List (ℕ × Bytes)
swapped a b = (length a, b) ∷ (0, a) ∷ []

module _ (wire : Wire) (system : System) where
  -- Of two pieces of a file the second one is handled first, and nothing fails. Before the end the
  -- file is right, and the checksum of the request is that of the file, but the end refuses it and
  -- removes the file and the transfer. The pieces in the other order have another checksum, the
  -- second is not empty, the first is shorter than 2^63, and the upload is one without sudo.
  pub upload_swapped :
      (req : FsUploadStartRequest) (a b : Bytes) (s : Uploads)
      → b ≢ []
      → length a < 2 ^ 63
      → unwrap_or_false req.sudo ≡ false
      → system.sha256 (b ++ a) ≢ system.sha256 (a ++ b)
      → let u = uploaded wire req (swapped a b) s in
        (look req.path u.fs ≡ some (a ++ b))
        × Discarded wire system req.transfer_id req.path
            (mismatch (system.sha256 (a ++ b)) (system.sha256 (b ++ a)))
            (end_upload wire system no_end_faults
              (record { transfer_id = req.transfer_id; checksum_sha256 = system.sha256 (a ++ b) })
              u)
  unfolding target_path
  upload_swapped req a b s full short plain ne =
      let u = uploaded wire req (swapped a b) s in
      let small : All (λ c. c.0 < 2 ^ 63) (swapped a b) = (short, (omega arith, tt)) in
      let bytes : arrival (swapped a b) ≡ b ++ a = ap (λ c. b ++ c) (append-nil a) in
      let (t, path, sudo, p) = uploaded-InProgress wire req (swapped a b) s small in
      let named : look (write_path req.transfer_id t) u.fs ≡ some (a ++ b) =
        look_named (write_path req.transfer_id t) t.file u.fs p.named
        ∙ ap some p.written
        ∙ ap some (writes_swapped a b full) in
      (
        rw (sudo ∙ plain, path) at named,
        rw (plain, bytes) at
            (upload_refused wire system req (system.sha256 (a ++ b)) (swapped a b) s small
              (λ e. ne (ap system.sha256 (sym bytes) ∙ e))),
      )
