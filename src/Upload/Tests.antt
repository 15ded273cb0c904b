-- ===== src/Upload/Tests.antt =====
-- Runs of the uploads of src/handlers/fs.rs, and the theorems at concrete requests.
use mathlib.Core.List.{flatten}
use nobase_agent.Prelude.{
  ◌==◌, String, ◌<>◌, ◌≡◌, refl, none, some, [], ◌∷◌, ok, err, arith, eq_iff, if◌then◌else◌, ◌==ₛ◌,
}
use nobase_agent.Prelude.Dict.{get, insert}
use nobase_agent.Proto.Rpc.{invalid_params, respond}
use nobase_agent.Proto.Methods.{FsUploadStartRequest, FsUploadEndRequest}
use nobase_agent.FileSystem.{Bytes, create, opened, look, write_at}
use nobase_agent.Upload.{
  Uploads, System, MvStatus, EndFaults, no_start_faults, no_chunk_faults, no_end_faults,
  start_upload, begin_transfer, target_path, receive_chunk, write_chunk, count_chunk, end_upload,
  handle_fs_upload_chunk,
}
use nobase_agent.Upload.Progress.{uploaded}
use nobase_agent.Upload.Arrivals.{Finished, upload_lem}
use nobase_agent.Upload.InOrder.{in_order, upload_in_order}
use nobase_agent.Upload.Refused.{Discarded, mismatch, upload_refused, swapped, upload_swapped}
use nobase_agent.Upload.Isolation.{Keeps, transfers_isolated}
use nobase_agent.Samples.{wire}

abbrev digest : Bytes → String
digest [] = ""
digest (b ∷ bytes) = (if b == 1 then "a" else "b") <> digest bytes

abbrev system : System
system = record {
  sha256 = digest;
  decode = λ s. if s ==ₛ "bad" then err "Invalid byte" else ok (1 ∷ 2 ∷ []);
  sudo_mv = λ tmp path fs. (MvStatus.exited "mv: cannot stat", fs);
}

abbrev empty : Uploads
empty = record { transfers = []; fs = record { names = []; contents = λ i. []; next = 0 } }

abbrev start : FsUploadStartRequest
start = record { transfer_id = "t"; path = "/a"; total_size = 4; sudo = none }

abbrev last : FsUploadEndRequest
last = record { transfer_id = "t"; checksum_sha256 = "ab" }

-- The gap before the first chunk reads as a zero until it is filled.
sparse_run : look "/a" (uploaded wire start ((1, 2 ∷ []) ∷ []) empty).fs ≡ some (0 ∷ 2 ∷ [])
unfolding start_upload begin_transfer create opened get insert receive_chunk write_chunk count_chunk
    write_at
sparse_run = refl

unknown_run :
    (handle_fs_upload_chunk wire system no_chunk_faults "7" "bad" empty).0
    ≡ respond "7"
        (err (record { code = invalid_params; message = "Invalid params: missing field" }))
unfolding handle_fs_upload_chunk
unknown_run = refl

upload_lem_example : Finished wire "t" "/a" 2 (2 ∷ []) "ab" (
    end_upload wire system no_end_faults last
      (uploaded wire start ((0, 1 ∷ []) ∷ (0, 2 ∷ []) ∷ []) empty))
unfolding write_at
upload_lem_example =
    upload_lem wire system start "ab" ((0, 1 ∷ []) ∷ (0, 2 ∷ []) ∷ []) empty
      (omega arith, (omega arith, tt)) refl (λ sudo. absurd (ground arith))

upload_in_order_example : Finished wire "t" "/a" 2 (1 ∷ 2 ∷ []) "ab" (
    end_upload wire system no_end_faults last
      (uploaded wire start (in_order 0 ((1 ∷ []) ∷ (2 ∷ []) ∷ [])) empty))
unfolding flatten
upload_in_order_example =
    upload_in_order wire system start "ab" ((1 ∷ []) ∷ (2 ∷ []) ∷ []) empty (omega arith) refl
      (λ sudo. absurd (ground arith))

upload_refused_example :
    Discarded wire system "t" "/a"
      (mismatch "ab" "a")
      (end_upload wire system no_end_faults last (uploaded wire start ((0, 1 ∷ []) ∷ []) empty))
unfolding target_path
upload_refused_example =
    upload_refused wire system start "ab" ((0, 1 ∷ []) ∷ []) empty (omega arith, tt)
      (λ e. ground (arith, eq_iff "a" "ab"))

upload_swapped_example :
    let u = uploaded wire start (swapped (1 ∷ []) (2 ∷ [])) empty in
    (look "/a" u.fs ≡ some (1 ∷ 2 ∷ []))
    × Discarded wire system "t" "/a"
        (mismatch "ab" "ba")
        (end_upload wire system no_end_faults last u)
upload_swapped_example =
    upload_swapped wire system start (1 ∷ []) (2 ∷ []) empty (λ e. cc) (omega arith) refl
      (λ e. ground (arith, eq_iff "ba" "ab"))

abbrev lost : EndFaults
lost = record no_end_faults { flush = some ("Input/output error", 0 ∷ []) }

abbrev under_way : Uploads
under_way = uploaded wire start ((0, 1 ∷ []) ∷ []) empty

transfers_isolated_example :
    Keeps "u" under_way (start_upload wire no_start_faults start under_way)
    × Keeps "u" under_way (receive_chunk wire no_chunk_faults "t" 1 (2 ∷ []) under_way)
    × Keeps "u" under_way (end_upload wire system lost last under_way)
transfers_isolated_example =
    transfers_isolated wire system "u" no_start_faults no_chunk_faults lost start 1 (2 ∷ []) last
      under_way (λ e. ground (arith, eq_iff "t" "u")) (λ e. ground (arith, eq_iff "t" "u"))
