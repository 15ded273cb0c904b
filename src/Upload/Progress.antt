-- ===== src/Upload/Progress.antt =====
-- How far an upload in which nothing fails has got, src/handlers/fs.rs, on any chunks.
use mathlib.Core.List.{append-nil, append_assoc}
use nobase_agent.Prelude.{
  ℕ, ◌+◌, ◌%◌, ◌^◌, ◌<◌, String, ◌≡◌, refl, ap, true, false, some, List, [], ◌∷◌, ◌++◌, length,
  eq_iff, arith, length-append, All, leb, ◌==◌,
}
use nobase_agent.Prelude.Dict.{Dict, get, insert, get-insert}
use nobase_agent.Proto.Methods.{FsUploadStartRequest}
use nobase_agent.Proto.Wire.{Wire}
use nobase_agent.FileSystem.{Bytes, create, create-look, set_contents, write_at}
use nobase_agent.Upload.{
  UploadTransfer, Uploads, no_start_faults, no_chunk_faults, unwrap_or_false, write_path,
  begin_transfer, start_upload, write_chunk, count_chunk, receive_chunk,
}

-- The transfer `t` is in the map, has hashed and counted `arrived`, and its file holds `content`.
pub record InProgress (transfer_id : String) (t : UploadTransfer) (arrived content : Bytes)
    (s : Uploads) : Type 0 where
  pub here : get transfer_id s.transfers ≡ some t
  pub hashed : t.hasher ≡ arrived
  pub counted : t.received ≡ length arrived % 2 ^ 64
  pub written : s.fs.contents t.file ≡ content
  pub named : get (write_path transfer_id t) s.fs.names ≡ some t.file

get-insert_same : {V : Type 0} (k : String) (v : V) (d : Dict V) → get k (insert k v d) ≡ some v
get-insert_same k v d = ground (arith, get-insert k k v d, eq_iff k k)

-- The bytes of the chunks in the order of their arrival.
abbrev pub arrival : List (ℕ × Bytes) → Bytes
arrival [] = []
arrival ((offset, bytes) ∷ chunks) = bytes ++ arrival chunks

-- A file after their writes.
abbrev pub writes : List (ℕ × Bytes) → Bytes → Bytes
writes [] content = content
writes ((offset, bytes) ∷ chunks) content = writes chunks (write_at offset bytes content)

module _ (wire : Wire) where
  -- The transfer that a start puts into the map.
  abbrev pub fresh : FsUploadStartRequest → ℕ → UploadTransfer
  fresh req file = record {
    path = req.path;
    file = file;
    total_size = req.total_size;
    received = 0;
    hasher = [];
    sudo = unwrap_or_false req.sudo;
  }

  start-InProgress :
      (req : FsUploadStartRequest) (s : Uploads)
      → InProgress req.transfer_id
          (fresh req (create (write_path req.transfer_id (fresh req 0)) s.fs).0)
          []
          []
          (start_upload wire no_start_faults req s).1
  unfolding start_upload begin_transfer
  start-InProgress req s =
      let (named, empty) = create-look (write_path req.transfer_id (fresh req 0)) s.fs in
      record {
        here =
            get-insert_same req.transfer_id
              (fresh req (create (write_path req.transfer_id (fresh req 0)) s.fs).0) s.transfers;
        hashed = refl;
        counted = refl;
        written = empty;
        named = named;
      }

  -- A transfer after a chunk.
  abbrev pub fed : Bytes → UploadTransfer → UploadTransfer
  fed bytes t = record t {
    received = (t.received + length bytes) % 2 ^ 64;
    hasher = t.hasher ++ bytes;
  }

  write_chunk_small :
      (transfer_id : String) (offset : ℕ) (bytes : Bytes) (t : UploadTransfer) (s : Uploads)
      → offset < 2 ^ 63
      → write_chunk wire no_chunk_faults transfer_id offset bytes t s
        ≡ count_chunk wire transfer_id bytes t (record s {
          fs = set_contents t.file (write_at offset bytes (s.fs.contents t.file)) s.fs;
        })
  unfolding write_chunk
  write_chunk_small transfer_id offset bytes t s small =
      let low : leb (2 ^ 63) offset ≡ false = ground arith in rw (low, write_chunk)

  write_chunk-InProgress :
      (transfer_id : String) (offset : ℕ) (bytes : Bytes) (t : UploadTransfer)
      (arrived content : Bytes) (s : Uploads)
      → offset < 2 ^ 63
      → InProgress transfer_id t arrived content s
      → InProgress transfer_id
          (fed bytes t)
          (arrived ++ bytes)
          (write_at offset bytes content)
          (write_chunk wire no_chunk_faults transfer_id offset bytes t s).1
  unfolding count_chunk
  write_chunk-InProgress transfer_id offset bytes t arrived content s small p =
      rw (write_chunk_small transfer_id offset bytes t s small) (record {
        here = get-insert_same transfer_id (fed bytes t) s.transfers;
        hashed = ap (λ h. h ++ bytes) p.hashed;
        counted = omega (arith, p.counted, length-append arrived bytes);
        written = let same : (t.file == t.file) ≡ true = ground arith in rw (same, p.written) refl;
        named = p.named;
      })

  receive_chunk_here :
      (transfer_id : String) (offset : ℕ) (bytes : Bytes) (t : UploadTransfer) (s : Uploads)
      → get transfer_id s.transfers ≡ some t
      → receive_chunk wire no_chunk_faults transfer_id offset bytes s
        ≡ write_chunk wire no_chunk_faults transfer_id offset bytes t s
  unfolding receive_chunk
  receive_chunk_here transfer_id offset bytes t s here = rw (here, receive_chunk)

  -- The chunks of a transfer, with their offsets.
  abbrev pub receive_all : String → List (ℕ × Bytes) → Uploads → Uploads
  receive_all transfer_id [] s = s
  receive_all transfer_id ((offset, bytes) ∷ chunks) s =
      receive_all transfer_id chunks
        (receive_chunk wire no_chunk_faults transfer_id offset bytes s).1

  receive_all-InProgress :
      (transfer_id : String) (chunks : List (ℕ × Bytes)) (t : UploadTransfer)
      (arrived content : Bytes) (s : Uploads)
      → All (λ c. c.0 < 2 ^ 63) chunks
      → InProgress transfer_id t arrived content s
      → (t' : UploadTransfer) × (t'.path ≡ t.path)
        × (t'.sudo ≡ t.sudo)
        × InProgress transfer_id t'
            (arrived ++ arrival chunks)
            (writes chunks content)
            (receive_all transfer_id chunks s)
  receive_all-InProgress transfer_id [] t arrived content s small p =
      (t, refl, refl, rw (append-nil arrived) p)
  receive_all-InProgress transfer_id ((offset, bytes) ∷ chunks) t arrived content s small p =
      rw
        (
          ← append_assoc arrived bytes (arrival chunks),
          receive_chunk_here transfer_id offset bytes t s p.here,
        )
        (receive_all-InProgress transfer_id chunks (fed bytes t) (arrived ++ bytes)
          (write_at offset bytes content)
          (write_chunk wire no_chunk_faults transfer_id offset bytes t s).1 small.1
          (write_chunk-InProgress transfer_id offset bytes t arrived content s small.0 p))

  -- The uploads after a start and the chunks.
  abbrev pub uploaded : FsUploadStartRequest → List (ℕ × Bytes) → Uploads → Uploads
  uploaded req chunks s =
      receive_all req.transfer_id chunks (start_upload wire no_start_faults req s).1

  pub uploaded-InProgress :
      (req : FsUploadStartRequest) (chunks : List (ℕ × Bytes)) (s : Uploads)
      → All (λ c. c.0 < 2 ^ 63) chunks
      → (t : UploadTransfer) × (t.path ≡ req.path)
        × (t.sudo ≡ unwrap_or_false req.sudo)
        × InProgress req.transfer_id t (arrival chunks) (writes chunks []) (uploaded req chunks s)
  uploaded-InProgress req chunks s small =
      receive_all-InProgress req.transfer_id chunks
        (fresh req (create (write_path req.transfer_id (fresh req 0)) s.fs).0) [] []
        (start_upload wire no_start_faults req s).1 small (start-InProgress req s)
