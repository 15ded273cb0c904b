-- ===== src/Upload/InOrder.antt =====
-- Uploads whose chunks arrive in the order of the file, and in another, src/handlers/fs.rs.
use mathlib.Core.List.{flatten, append-nil, append_assoc}
use nobase_agent.Prelude.{
  ℕ, ◌+◌, ◌%◌, ◌^◌, ◌<◌, String, ◌≡◌, refl, ◌∙◌, sym, ap, true, List, [], ◌∷◌, ◌++◌, length, arith,
  length-append, All,
}
use nobase_agent.Proto.Methods.{FsUploadStartRequest}
use nobase_agent.Proto.Wire.{Wire}
use nobase_agent.FileSystem.{Bytes, write_at_end}
use nobase_agent.Upload.{System, Uploads, no_end_faults, unwrap_or_false, tmp_path, end_upload}
use nobase_agent.Upload.Progress.{arrival, writes, uploaded}
use nobase_agent.Upload.Arrivals.{Moves, Finished, upload_lem}

-- The pieces of a file with their offsets, from one on.
abbrev pub in_order : ℕ → List Bytes → List (ℕ × Bytes)
in_order offset [] = []
in_order offset (bytes ∷ pieces) = (offset, bytes) ∷ in_order (offset + length bytes) pieces

arrival-in_order :
    (offset : ℕ) (pieces : List Bytes) → arrival (in_order offset pieces) ≡ flatten pieces
unfolding flatten
arrival-in_order offset [] = refl
arrival-in_order offset (bytes ∷ pieces) =
    ap (λ x. bytes ++ x) (arrival-in_order (offset + length bytes) pieces)

writes-in_order :
    (content : Bytes) (pieces : List Bytes)
    → writes (in_order (length content) pieces) content ≡ content ++ flatten pieces
unfolding flatten
writes-in_order content [] = sym (append-nil content)
writes-in_order content (bytes ∷ pieces) =
    let rest : writes (in_order (length content + length bytes) pieces) (content ++ bytes)
        ≡ content ++ bytes ++ flatten pieces =
      rw (← length-append content bytes) (writes-in_order (content ++ bytes) pieces) in
    ap (λ c. writes (in_order (length content + length bytes) pieces) c)
      (write_at_end bytes content)
    ∙ rest
    ∙ append_assoc content bytes (flatten pieces)

in_order_small :
    (offset : ℕ) (pieces : List Bytes)
    → offset + length (flatten pieces) < 2 ^ 63
    → All (λ c. c.0 < 2 ^ 63) (in_order offset pieces)
unfolding flatten
in_order_small offset [] small = tt
in_order_small offset (bytes ∷ pieces) small = (
  omega arith,
  in_order_small (offset + length bytes) pieces
      (omega (arith, small, length-append bytes (flatten pieces))),
)

module _ (wire : Wire) (system : System) where
  -- A file of fewer than 2^63 bytes that is cut into pieces, which arrive in order with nothing
  -- failing, is uploaded: with its checksum the end succeeds, the response has the path and the
  -- size, the path leads to a file with exactly these bytes, and the transfer is gone. `sudo mv`,
  -- if the upload wants it, moves the file.
  pub upload_in_order :
      (req : FsUploadStartRequest) (checksum : String) (pieces : List Bytes) (s : Uploads)
      → length (flatten pieces) < 2 ^ 63
      → system.sha256 (flatten pieces) ≡ checksum
      → (unwrap_or_false req.sudo ≡ true → Moves wire system (tmp_path req.transfer_id) req.path)
      → Finished wire req.transfer_id req.path (length (flatten pieces)) (flatten pieces) checksum (
          end_upload wire system no_end_faults
            (record { transfer_id = req.transfer_id; checksum_sha256 = checksum })
            (uploaded wire req (in_order 0 pieces) s))
  upload_in_order req checksum pieces s small same moves =
      let bytes : arrival (in_order 0 pieces) ≡ flatten pieces = arrival-in_order 0 pieces in
      let size : length (arrival (in_order 0 pieces)) % 2 ^ 64 ≡ length (flatten pieces) =
        rw bytes (omega (arith, small)) in
      rw (size, writes-in_order [] pieces) at
        (upload_lem wire system req checksum (in_order 0 pieces) s
          (in_order_small 0 pieces (omega (arith, small))) (ap system.sha256 bytes ∙ same) moves)
