-- ===== src/Streams/Prefix.antt =====
-- What the messages of fs.download carry, src/handlers/fs.rs.
use nobase_agent.Prelude.{
  neg, ℕ, suc, ◌<◌, ◌≤◌, min, String, ◌≡◌, refl, ◌∙◌, ap, sym, Bool, true, false, List, [], ◌∷◌,
  ◌++◌, Option, none, some, Result, ok, err, inl, inr, ◌⊎◌, ℤ, pos, arith, map, All, length,
  take-append-drop, length-take, Bool-cases, Option-cases, List-cases, Result-cases,
}
use nobase_agent.Proto.Rpc.{RpcRequest}
use nobase_agent.Proto.Methods.{stdout}
use nobase_agent.Proto.Wire.{Wire}
use nobase_agent.FileSystem.{Bytes}
use nobase_agent.Streams.{
  Turn, Exit, chunk, behind, joined_chunks, data_message, end_message, text_of,
}
use nobase_agent.Streams.Download.{
  Progress, Source, download_chunk_size, stream_loop, stream_file_direct, stream_file_sudo,
  stream_file, after_cat, with_end, download_code, download_task,
}

abbrev pub IsChunk : ℕ → Bytes → Type 0
IsChunk size c = (0 < length c) × (length c ≤ size)

pub append_assoc : (a b c : Bytes) → (a ++ b) ++ c ≡ a ++ (b ++ c)
append_assoc [] b c = refl
append_assoc (x ∷ a) b c = ap (λ y. x ∷ y) (append_assoc a b c)

pub chunk_whole :
    (size limit : ℕ) (rest tail : Bytes)
    → tail ≡ behind size limit rest
    → chunk size limit rest ++ tail ≡ rest
chunk_whole size limit rest tail e = rw e (take-append-drop (min size (suc limit)) rest)

pub chunk_sized :
    (size limit b : ℕ) (bytes rest : Bytes)
    → chunk size limit rest ≡ b ∷ bytes
    → IsChunk size (b ∷ bytes)
chunk_sized size limit b bytes rest e =
    let n = length-take (min size (suc limit)) rest in
    let m = ap length e in (omega arith, omega (arith, n, m))

-- Only the end of the data makes a read with a buffer yield nothing.
pub chunk_end : (size limit : ℕ) (rest : Bytes) → 0 < size → chunk size limit rest ≡ [] → rest ≡ []
chunk_end size limit [] h e = refl
chunk_end size limit (x ∷ rest) h e =
    absurd (omega (arith, length-take (min size (suc limit)) (x ∷ rest), ap length e))

module _ (wire : Wire) (encode : Bytes → String) (print : ℤ → String) where
  abbrev pub chunk_message : String → Bytes → String
  chunk_message transfer_id c = text_of wire encode (data_message wire encode transfer_id stdout c)

  -- What the loop has sent is the text of chunks that are the beginning of the bytes.
  pub record Streamed (transfer_id : String) (bytes : Bytes) (p : Progress) : Type 0 where
    pub chunks : List Bytes
    pub left : Bytes
    pub sent : p.sent ≡ map (chunk_message transfer_id) chunks
    pub whole : joined_chunks chunks ++ left ≡ bytes
    pub sized : All (IsChunk download_chunk_size) chunks
    pub complete : p.result ≡ some (ok tt) → left ≡ []

  nothing_yet :
      (transfer_id : String) (bytes : Bytes) (r : Option (Result String (Unit {0})))
      → (r ≡ some (ok tt) → bytes ≡ [])
      → Streamed transfer_id bytes (record { sent = []; result = r })
  nothing_yet transfer_id bytes r h = record {
    chunks = [];
    left = bytes;
    sent = refl;
    whole = refl;
    sized = tt;
    complete = h;
  }

  text_printed :
      (r : RpcRequest wire.Value) (msg : String)
      → wire.print_request r ≡ ok msg
      → text_of wire encode r ≡ msg
  text_printed r msg e = rw (e, text_of) refl

  one_more :
      (transfer_id : String) (limit b : ℕ) (bytes rest : Bytes) (msg : String) (more : Progress)
      → chunk download_chunk_size limit rest ≡ b ∷ bytes
      → wire.print_request (data_message wire encode transfer_id stdout (b ∷ bytes)) ≡ ok msg
      → Streamed transfer_id (behind download_chunk_size limit rest) more
      → Streamed transfer_id rest (record { sent = msg ∷ more.sent; result = more.result })
  one_more transfer_id limit b bytes rest msg more q u m = record {
    chunks = (b ∷ bytes) ∷ m.chunks;
    left = m.left;
    sent =
        ap (λ x. x ∷ more.sent)
          (sym (text_printed (data_message wire encode transfer_id stdout (b ∷ bytes)) msg u))
        ∙ ap (λ x. chunk_message transfer_id (b ∷ bytes) ∷ x) m.sent;
    whole =
        append_assoc (b ∷ bytes) (joined_chunks m.chunks) m.left
        ∙ ap (λ x. x ++ (joined_chunks m.chunks ++ m.left)) (sym q)
        ∙ chunk_whole download_chunk_size limit rest (joined_chunks m.chunks ++ m.left) m.whole;
    sized = (chunk_sized download_chunk_size limit b bytes rest q, m.sized);
    complete = m.complete;
  }

  stream_loop-Streamed :
      (transfer_id : String) (turns : List Turn) (rest : Bytes)
      → Streamed transfer_id rest (stream_loop wire encode print transfer_id turns rest)
  unfolding stream_loop
  stream_loop-Streamed transfer_id [] rest =
      nothing_yet transfer_id rest none (λ e. absurd (ground (arith, e)))
  stream_loop-Streamed transfer_id (t ∷ turns) rest = elim (Result-cases t.outcome) [
    | inr (e, p) ↦
        rw p (nothing_yet transfer_id rest (some (err e)) (λ q. absurd (ground (arith, q))))
    | inl (limit, p) ↦ elim (List-cases (chunk download_chunk_size limit rest)) [
      | inl q ↦
          rw (p, q)
            (nothing_yet transfer_id rest (some (ok tt))
              (λ u. chunk_end download_chunk_size limit rest (omega arith) q))
      | inr (b, bytes, q) ↦
          elim (Result-cases
            (wire.print_request (data_message wire encode transfer_id stdout (b ∷ bytes)))) [
              | inr (e, u) ↦
                  rw (p, q, u)
                    (nothing_yet transfer_id rest (some (err e)) (λ v. absurd (ground (arith, v))))
              | inl (msg, u) ↦ elim (Bool-cases t.receiving) [
                | inr v ↦
                    rw (p, q, u, v)
                      (nothing_yet transfer_id rest _ (λ w. absurd (ground (arith, w))))
                | inl v ↦
                    rw (p, q, u, v)
                      (one_more transfer_id limit b bytes rest msg
                        (stream_loop wire encode print transfer_id turns
                          (behind download_chunk_size limit rest))
                        q u
                        (stream_loop-Streamed transfer_id turns
                          (behind download_chunk_size limit rest)))
              ]
            ]
    ]
  ]

  abbrev pub end_text : String → ℤ → String
  end_text transfer_id code = text_of wire encode (end_message wire encode transfer_id code)

  direct-Streamed :
      (transfer_id : String) (source : Source) (bytes : Bytes)
      → source.opening ≡ ok bytes
      → Streamed transfer_id bytes (stream_file_direct wire encode print transfer_id source)
  unfolding stream_file_direct
  direct-Streamed transfer_id source bytes e =
      rw e (stream_loop-Streamed transfer_id source.turns bytes)

  after_cat-Streamed :
      (transfer_id : String) (bytes : Bytes) (exit : Exit) (p : Progress)
      → Streamed transfer_id bytes p
      → Streamed transfer_id bytes (after_cat wire encode print exit p)
  unfolding after_cat
  after_cat-Streamed transfer_id bytes exit p m = elim (Option-cases p.result) [
    | inl e ↦ rw (e, after_cat) m
    | inr (err f, e) ↦ rw (e, after_cat) m
    | inr (ok u, e) ↦
        rw (e, after_cat)
          (record {
            chunks = m.chunks;
            left = m.left;
            sent = m.sent;
            whole = m.whole;
            sized = m.sized;
            complete = λ h. m.complete e;
          })
  ]

  pub stream_file-Streamed :
      (sudo : Bool) (transfer_id : String) (source : Source) (bytes : Bytes)
      → source.opening ≡ ok bytes
      → Streamed transfer_id bytes (stream_file wire encode print sudo transfer_id source)
  unfolding stream_file stream_file_sudo
  stream_file-Streamed false transfer_id source bytes e = direct-Streamed transfer_id source bytes e
  stream_file-Streamed true transfer_id source bytes e =
      after_cat-Streamed transfer_id bytes source.waiting
        (stream_file_direct wire encode print transfer_id source)
        (direct-Streamed transfer_id source bytes e)

  with_end_lem :
      (transfer_id : String) (receiving : Bool) (p : Progress)
      → (with_end wire encode print transfer_id receiving p ≡ p.sent)
        ⊎ (((p.result ≡ some (ok tt))
              × (with_end wire encode print transfer_id receiving p
                  ≡ p.sent ++ end_text transfer_id (pos 0) ∷ []))
            ⊎ (with_end wire encode print transfer_id receiving p
                ≡ p.sent ++ end_text transfer_id (neg 1) ∷ []))
  unfolding with_end download_code
  with_end_lem transfer_id false p = elim (Option-cases p.result) [
    | inl e ↦ inl (rw (e, with_end) refl)
    | inr (r, e) ↦ inl (rw (e, with_end) refl)
  ]
  with_end_lem transfer_id true p = elim (Option-cases p.result) [
    | inl e ↦ inl (rw (e, with_end) refl)
    | inr (ok tt, e) ↦ inr (inl (e, rw (e, with_end) refl))
    | inr (err f, e) ↦ inr (inr (rw (e, with_end) refl))
  ]

  -- Whatever fails during a download, its messages are the beginning of the file or of the output of
  -- `sudo cat`, in chunks of 1 to 65536 bytes, with one end behind them at most, whose code is 0 and then
  -- all of it was sent, or -1. The file or the pipe was opened.
  pub download_task_lem :
      (sudo : Bool) (transfer_id : String) (source : Source) (bytes : Bytes)
      → source.opening ≡ ok bytes
      → let sent = download_task wire encode print sudo transfer_id source in
        (chunks : List Bytes) × (left : Bytes) × (joined_chunks chunks ++ left ≡ bytes)
        × All (IsChunk download_chunk_size) chunks
        × ((sent ≡ map (chunk_message transfer_id) chunks)
            ⊎ (((left ≡ [])
                  × (sent
                      ≡ map (chunk_message transfer_id) chunks
                        ++ end_text transfer_id (pos 0) ∷ []))
                ⊎ (sent
                    ≡ map (chunk_message transfer_id) chunks ++ end_text transfer_id (neg 1) ∷ [])))
  unfolding download_task
  download_task_lem sudo transfer_id source bytes e =
      let m = stream_file-Streamed sudo transfer_id source bytes e in
      let p = stream_file wire encode print sudo transfer_id source in
      (
        m.chunks,
        m.left,
        m.whole,
        m.sized,
        elim (with_end_lem transfer_id source.receiving p) [
          | inl h ↦ inl (h ∙ m.sent)
          | inr (inl (r, h)) ↦
              inr (inl (m.complete r, h ∙ ap (λ x. x ++ end_text transfer_id (pos 0) ∷ []) m.sent))
          | inr (inr h) ↦ inr (inr (h ∙ ap (λ x. x ++ end_text transfer_id (neg 1) ∷ []) m.sent))
        ],
      )
