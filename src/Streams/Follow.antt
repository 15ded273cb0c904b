-- ===== src/Streams/Follow.antt =====
-- docker.logs with and without following, src/handlers/docker.rs.
use nobase_agent.Prelude.{
  String, ◌≡◌, refl, ap, Bool, true, false, List, [], ◌∷◌, ◌++◌, pos, map, All, arith,
}
use nobase_agent.Proto.Methods.{StreamChannel, stdout, stderr}
use nobase_agent.Proto.Wire.{Wire}
use nobase_agent.FileSystem.{Bytes}
use nobase_agent.Streams.{joined_chunks}
use nobase_agent.Streams.Channels.{on_channel}
use nobase_agent.Streams.Order.{chunk_text, end_text}
use nobase_agent.Streams.Logs.{
  LogItem, std_out, std_err, other, broken, collect_logs, follow_loop, follow_task,
}

-- The chunks of a log, up to the first error of the daemon.
abbrev pub chunks_of : List LogItem → List (StreamChannel × Bytes)
chunks_of [] = []
chunks_of (broken e ∷ items) = []
chunks_of (std_out m ∷ items) = (stdout, m) ∷ chunks_of items
chunks_of (std_err m ∷ items) = (stderr, m) ∷ chunks_of items
chunks_of (other m ∷ items) = chunks_of items

collect_logs-chunks_of :
    (items : List LogItem)
    → collect_logs items ≡ (
      joined_chunks (on_channel stdout (chunks_of items)),
      joined_chunks (on_channel stderr (chunks_of items)),
    )
unfolding collect_logs
collect_logs-chunks_of [] = refl
collect_logs-chunks_of (broken e ∷ items) = refl
collect_logs-chunks_of (std_out m ∷ items) =
    ap (λ p. (m ++ p.0, p.1)) (collect_logs-chunks_of items)
collect_logs-chunks_of (std_err m ∷ items) =
    ap (λ p. (p.0, m ++ p.1)) (collect_logs-chunks_of items)
collect_logs-chunks_of (other m ∷ items) = collect_logs-chunks_of items

module _ (wire : Wire) (encode : Bytes → String) where
  follow_loop-chunks_of :
      (stream_id : String) (items : List (LogItem × Bool))
      → All (λ i. i.1 ≡ true) items
      → follow_loop wire encode stream_id items
        ≡ map (chunk_text wire encode stream_id) (chunks_of (map (λ i. i.0) items))
  unfolding follow_loop
  follow_loop-chunks_of stream_id [] h = refl
  follow_loop-chunks_of stream_id ((std_out m, true) ∷ items) (e, h) =
      ap (λ x. chunk_text wire encode stream_id (stdout, m) ∷ x)
        (follow_loop-chunks_of stream_id items h)
  follow_loop-chunks_of stream_id ((std_err m, true) ∷ items) (e, h) =
      ap (λ x. chunk_text wire encode stream_id (stderr, m) ∷ x)
        (follow_loop-chunks_of stream_id items h)
  follow_loop-chunks_of stream_id ((other m, receiving) ∷ items) (e, h) =
      follow_loop-chunks_of stream_id items h
  follow_loop-chunks_of stream_id ((broken x, receiving) ∷ items) h = refl
  follow_loop-chunks_of stream_id ((std_out m, false) ∷ items) (e, h) = absurd (ground (arith, e))
  follow_loop-chunks_of stream_id ((std_err m, false) ∷ items) (e, h) = absurd (ground (arith, e))

  -- A log that is followed, with the channel open, is sent in chunks whose bytes, output by output,
  -- are those that the same log yields without following, and then an end with the code 0, also where
  -- the daemon failed.
  pub follow_task-collect_logs :
      (stream_id : String) (items : List (LogItem × Bool))
      → All (λ i. i.1 ≡ true) items
      → (chunks : List (StreamChannel × Bytes)) × (follow_task wire encode stream_id items true
          ≡ map (chunk_text wire encode stream_id) chunks
            ++ end_text wire encode stream_id (pos 0) ∷ [])
        × (collect_logs (map (λ i. i.0) items)
            ≡ (joined_chunks (on_channel stdout chunks), joined_chunks (on_channel stderr chunks)))
  unfolding follow_task
  follow_task-collect_logs stream_id items h = (
    chunks_of (map (λ i. i.0) items),
    ap (λ x. x ++ end_text wire encode stream_id (pos 0) ∷ [])
        (follow_loop-chunks_of stream_id items h),
    collect_logs-chunks_of (map (λ i. i.0) items),
  )
