-- ===== src/Streams/Drain.antt =====
-- A download in which nothing fails sends everything, src/handlers/fs.rs.
use nobase_agent.Prelude.{
  ℕ, suc, ◌<◌, min, String, ◌≡◌, refl, ◌∙◌, ap, sym, Bool, true, false, List, [], ◌∷◌, ◌++◌, some,
  ok, inl, inr, ℤ, pos, arith, map, All, length, length-take, length-drop, List-cases,
}
use nobase_agent.Proto.Rpc.{RpcRequest}
use nobase_agent.Proto.Methods.{stdout}
use nobase_agent.Proto.Wire.{Wire}
use nobase_agent.FileSystem.{Bytes}
use nobase_agent.Streams.{Turn, exited, chunk, behind, joined_chunks, data_message}
use nobase_agent.Streams.Download.{
  Progress, Source, download_chunk_size, stream_loop, stream_file_direct, stream_file_sudo,
  stream_file, after_cat, with_end, download_code, cat_result, download_task,
}
use nobase_agent.FileSystem.{append_nil}
use nobase_agent.Streams.Prefix.{IsChunk, chunk_message, end_text, stream_file-Streamed}

-- A turn in which nothing fails.
abbrev pub IsCalm : Turn → Type 0
IsCalm t = ((limit : ℕ) × (t.outcome ≡ ok limit)) × (t.receiving ≡ true)

pub behind_shorter :
    (size limit b : ℕ) (bytes rest : Bytes)
    → chunk size limit rest ≡ b ∷ bytes
    → length (behind size limit rest) < length rest
behind_shorter size limit b bytes rest q =
    let n = length-drop (min size (suc limit)) rest in
    let m = length-take (min size (suc limit)) rest in omega (arith, n, m, ap length q)

module _ (wire : Wire) (encode : Bytes → String) (print : ℤ → String) where
  loop_ends :
      (transfer_id : String) (t : Turn) (turns : List Turn) (limit : ℕ) (rest : Bytes)
      → t.outcome ≡ ok limit
      → chunk download_chunk_size limit rest ≡ []
      → stream_loop wire encode print transfer_id (t ∷ turns) rest
        ≡ record { sent = []; result = some (ok tt) }
  unfolding stream_loop
  loop_ends transfer_id t turns limit rest p q = rw (p, stream_loop, q) refl

  loop_sends :
      (transfer_id : String) (t : Turn) (turns : List Turn) (limit b : ℕ) (bytes rest : Bytes)
      (msg : String)
      → t.outcome ≡ ok limit
      → t.receiving ≡ true
      → chunk download_chunk_size limit rest ≡ b ∷ bytes
      → wire.print_request (data_message wire encode transfer_id stdout (b ∷ bytes)) ≡ ok msg
      → let more =
          stream_loop wire encode print transfer_id turns (behind download_chunk_size limit rest) in
        stream_loop wire encode print transfer_id (t ∷ turns) rest
        ≡ record { sent = msg ∷ more.sent; result = more.result }
  unfolding stream_loop
  loop_sends transfer_id t turns limit b bytes rest msg p v q u = rw (p, stream_loop, q, u, v) refl

  -- Turns in which nothing fails, more of them than bytes, bring the loop to its end.
  stream_loop-drains :
      (transfer_id : String) (turns : List Turn) (rest : Bytes)
      → ((r : RpcRequest wire.Value) → (s : String) × (wire.print_request r ≡ ok s))
      → All IsCalm turns
      → length rest < length turns
      → (stream_loop wire encode print transfer_id turns rest).result ≡ some (ok tt)
  unfolding stream_loop
  stream_loop-drains transfer_id [] rest prints calm h = absurd (omega arith)
  stream_loop-drains transfer_id (t ∷ turns) rest prints (((limit, p), v), calm) h =
      elim (List-cases (chunk download_chunk_size limit rest)) [
        | inl q ↦ ap (λ x. x.result) (loop_ends transfer_id t turns limit rest p q)
        | inr (b, bytes, q) ↦
            let (msg, u) = prints (data_message wire encode transfer_id stdout (b ∷ bytes)) in
            let n = length-drop (min download_chunk_size (suc limit)) rest in
            ap (λ x. x.result) (loop_sends transfer_id t turns limit b bytes rest msg p v q u)
            ∙ (stream_loop-drains transfer_id turns (behind download_chunk_size limit rest) prints
                calm (omega (arith, n, behind_shorter download_chunk_size limit b bytes rest q)))
      ]

  stream_file_done :
      (sudo : Bool) (transfer_id : String) (source : Source) (bytes : Bytes)
      → source.opening ≡ ok bytes
      → ((r : RpcRequest wire.Value) → (s : String) × (wire.print_request r ≡ ok s))
      → All IsCalm source.turns
      → length bytes < length source.turns
      → source.waiting ≡ exited (some (pos 0))
      → (stream_file wire encode print sudo transfer_id source).result ≡ some (ok tt)
  unfolding stream_file stream_file_sudo stream_file_direct after_cat cat_result
  stream_file_done false transfer_id source bytes e prints calm h waited =
      rw e (stream_loop-drains transfer_id source.turns bytes prints calm h)
  stream_file_done true transfer_id source bytes e prints calm h waited =
      rw (e, stream_loop-drains transfer_id source.turns bytes prints calm h, after_cat, waited)
        refl

  with_end_done :
      (transfer_id : String) (receiving : Bool) (p : Progress)
      → receiving ≡ true
      → p.result ≡ some (ok tt)
      → with_end wire encode print transfer_id receiving p
        ≡ p.sent ++ end_text wire encode print transfer_id (pos 0) ∷ []
  unfolding with_end download_code
  with_end_done transfer_id receiving p r e = rw (e, with_end, r) refl

  -- A download in which nothing fails, with more turns than there are bytes, sends all of them in
  -- order, in chunks of 1 to 65536 bytes, and then an end with the code 0.
  pub download_drains :
      (sudo : Bool) (transfer_id : String) (source : Source) (bytes : Bytes)
      → source.opening ≡ ok bytes
      → ((r : RpcRequest wire.Value) → (s : String) × (wire.print_request r ≡ ok s))
      → All IsCalm source.turns
      → length bytes < length source.turns
      → source.waiting ≡ exited (some (pos 0))
      → source.receiving ≡ true
      → (chunks : List Bytes) × (joined_chunks chunks ≡ bytes)
        × All (IsChunk download_chunk_size) chunks
        × (download_task wire encode print sudo transfer_id source
            ≡ map (chunk_message wire encode print transfer_id) chunks
              ++ end_text wire encode print transfer_id (pos 0) ∷ [])
  unfolding download_task
  download_drains sudo transfer_id source bytes e prints calm h waited receiving =
      let m = stream_file-Streamed wire encode print sudo transfer_id source bytes e in
      let done = stream_file_done sudo transfer_id source bytes e prints calm h waited in
      let empty = m.complete done in
      (
        m.chunks,
        sym (append_nil (joined_chunks m.chunks))
            ∙ ap (λ x. joined_chunks m.chunks ++ x) (sym empty)
            ∙ m.whole,
        m.sized,
        with_end_done transfer_id source.receiving
              (stream_file wire encode print sudo transfer_id source) receiving done
            ∙ ap (λ x. x ++ end_text wire encode print transfer_id (pos 0) ∷ []) m.sent,
      )
