-- ===== src/Streams/Finish.antt =====
-- An exec.stream in which nothing fails sends everything, src/handlers/exec.rs.
use nobase_agent.Prelude.{
  ℕ, suc, ◌<◌, length, String, ◌≡◌, refl, ◌∙◌, ap, sym, subst, true, false, List, [], ◌∷◌, ◌++◌,
  inl, inr, arith, map, All, List-cases,
}
use nobase_agent.Proto.Methods.{StreamChannel, stdout, stderr}
use nobase_agent.Proto.Wire.{Wire}
use nobase_agent.FileSystem.{Bytes, append_nil}
use nobase_agent.Streams.{Turn, Exit, exit_code, chunk, joined_chunks}
use nobase_agent.Streams.Prefix.{chunk_end}
use nobase_agent.Streams.Exec.{
  OutputReader, reading, ended, Task, Event, turns, exits, reader_of, with_reader, buffer_size,
  output_turn, reader_turn, end_task, step, run, started,
}
use nobase_agent.Streams.Channels.{on_channel, text_nil}
use nobase_agent.Streams.Order.{left_of, chunk_text, end_text, no_tail, no_tail}
use nobase_agent.Streams.Runs.{run-Interleaved, started-Interleaved}
use nobase_agent.Streams.Drain.{IsCalm, behind_shorter}

abbrev pub turn_events : List (StreamChannel × Turn) → List Event
turn_events [] = []
turn_events ((channel, t) ∷ ts) = turns channel t ∷ turn_events ts

-- The number of turns of a reader.
abbrev pub turn_count : StreamChannel → List (StreamChannel × Turn) → ℕ
turn_count channel [] = 0
turn_count stdout ((stdout, t) ∷ ts) = suc (turn_count stdout ts)
turn_count stdout ((stderr, t) ∷ ts) = turn_count stdout ts
turn_count stderr ((stdout, t) ∷ ts) = turn_count stderr ts
turn_count stderr ((stderr, t) ∷ ts) = suc (turn_count stderr ts)

reader_of-with_reader :
    (channel : StreamChannel) (r : OutputReader) (messages : List String) (s : Task)
    → reader_of channel (with_reader channel r messages s) ≡ r
reader_of-with_reader stdout r messages s = refl
reader_of-with_reader stderr r messages s = refl

is_done-with_reader :
    (channel : StreamChannel) (r : OutputReader) (messages : List String) (s : Task)
    → (with_reader channel r messages s).is_done ≡ s.is_done
is_done-with_reader stdout r messages s = refl
is_done-with_reader stderr r messages s = refl

all_read :
    (joined : Bytes) (r : OutputReader) (whole : Bytes)
    → r ≡ ended []
    → joined ++ left_of r ≡ whole
    → joined ≡ whole
all_read joined r whole e h = sym (append_nil joined) ∙ ap (λ x. joined ++ left_of x) (sym e) ∙ h

module _ (wire : Wire) (encode : Bytes → String) where
  -- A reader that has everything read, or whose bytes are fewer than the turns to come.
  abbrev Near : OutputReader → ℕ → Type 0
  Near (ended rest) n = rest ≡ []
  Near (reading rest) n = length rest < n

  output_turn-Near :
      (stream_id : String) (channel : StreamChannel) (t : Turn) (rest : Bytes) (n : ℕ)
      → IsCalm t
      → length rest < suc n
      → Near (output_turn wire encode stream_id channel t rest).0 n
  unfolding output_turn
  output_turn-Near stream_id channel t rest n ((limit, p), v) h =
      elim (List-cases (chunk buffer_size limit rest)) [
        | inl q ↦ rw (p, output_turn, q) (chunk_end buffer_size limit rest (omega arith) q)
        | inr (b, bytes, q) ↦
            rw (p, output_turn, q, v)
              (omega (arith, behind_shorter buffer_size limit b bytes rest q))
      ]

  reader_turn-Near :
      (stream_id : String) (channel : StreamChannel) (t : Turn) (s : Task) (n : ℕ)
      → IsCalm t
      → Near (reader_of channel s) (suc n)
      → Near (reader_of channel (reader_turn wire encode stream_id channel t s)) n
  unfolding reader_turn
  reader_turn-Near stream_id channel t s n calm h = go (reader_of channel s) refl
    where
      go :
          (r : OutputReader)
          → reader_of channel s ≡ r
          → Near (reader_of channel (reader_turn wire encode stream_id channel t s)) n
      go (ended rest) e = rw (e, reader_turn, e) (subst (λ x. Near x (suc n)) e h)
      go (reading rest) e =
          let (r, messages) = output_turn wire encode stream_id channel t rest in
          rw (e, reader_turn, reader_of-with_reader channel r messages s)
            (output_turn-Near stream_id channel t rest n calm (subst (λ x. Near x (suc n)) e h))

  -- What a turn of a reader leaves alone.
  turn_keeps_errors :
      (stream_id : String) (t : Turn) (s : Task)
      → (reader_turn wire encode stream_id stdout t s).errors ≡ s.errors
  unfolding reader_turn
  turn_keeps_errors stream_id t s = go s.out refl
    where
      go :
          (r : OutputReader)
          → s.out ≡ r
          → (reader_turn wire encode stream_id stdout t s).errors ≡ s.errors
      go (ended rest) e = rw (e, reader_turn) refl
      go (reading rest) e = rw (e, reader_turn) refl

  turn_keeps_out :
      (stream_id : String) (t : Turn) (s : Task)
      → (reader_turn wire encode stream_id stderr t s).out ≡ s.out
  unfolding reader_turn
  turn_keeps_out stream_id t s = go s.errors refl
    where
      go :
          (r : OutputReader)
          → s.errors ≡ r
          → (reader_turn wire encode stream_id stderr t s).out ≡ s.out
      go (ended rest) e = rw (e, reader_turn) refl
      go (reading rest) e = rw (e, reader_turn) refl

  turn_keeps_is_done :
      (stream_id : String) (channel : StreamChannel) (t : Turn) (s : Task)
      → (reader_turn wire encode stream_id channel t s).is_done ≡ s.is_done
  unfolding reader_turn
  turn_keeps_is_done stream_id channel t s = go (reader_of channel s) refl
    where
      go :
          (r : OutputReader)
          → reader_of channel s ≡ r
          → (reader_turn wire encode stream_id channel t s).is_done ≡ s.is_done
      go (ended rest) e = rw (e, reader_turn) refl
      go (reading rest) e =
          let (r, messages) = output_turn wire encode stream_id channel t rest in
          rw (e, reader_turn) (is_done-with_reader channel r messages s)

  Near-zero : (r : OutputReader) → Near r 0 → r ≡ ended []
  Near-zero (ended rest) h = ap ended h
  Near-zero (reading rest) h = absurd (omega arith)

  turns_end :
      (stream_id : String) (ts : List (StreamChannel × Turn)) (s : Task)
      → All (λ x. IsCalm x.1) ts
      → Near s.out (turn_count stdout ts)
      → Near s.errors (turn_count stderr ts)
      → let u = run wire encode stream_id (turn_events ts) s in
        (u.out ≡ ended []) × (u.errors ≡ ended []) × (u.is_done ≡ s.is_done)
  unfolding run step
  turns_end stream_id [] s calm a b = (Near-zero s.out a, Near-zero s.errors b, refl)
  turns_end stream_id ((stdout, t) ∷ ts) s (c, calm) a b =
      let s' = reader_turn wire encode stream_id stdout t s in
      let (x, y, z) =
        turns_end stream_id ts s' calm
          (reader_turn-Near stream_id stdout t s (turn_count stdout ts) c a)
          (subst (λ r. Near r (turn_count stderr ts)) (sym (turn_keeps_errors stream_id t s)) b) in
      (x, y, z ∙ turn_keeps_is_done stream_id stdout t s)
  turns_end stream_id ((stderr, t) ∷ ts) s (c, calm) a b =
      let s' = reader_turn wire encode stream_id stderr t s in
      let (x, y, z) =
        turns_end stream_id ts s' calm
          (subst (λ r. Near r (turn_count stdout ts)) (sym (turn_keeps_out stream_id t s)) a)
          (reader_turn-Near stream_id stderr t s (turn_count stderr ts) c b) in
      (x, y, z ∙ turn_keeps_is_done stream_id stderr t s)

  run-append :
      (stream_id : String) (events more : List Event) (s : Task)
      → run wire encode stream_id (events ++ more) s
        ≡ run wire encode stream_id more (run wire encode stream_id events s)
  unfolding run
  run-append stream_id [] more s = refl
  run-append stream_id (e ∷ events) more s =
      run-append stream_id events more (step wire encode stream_id e s)

  end_sent :
      (stream_id : String) (exit : Exit) (u : Task)
      → u.out ≡ ended []
      → u.errors ≡ ended []
      → u.is_done ≡ false
      → (run wire encode stream_id (exits exit true ∷ []) u).sent
        ≡ u.sent ++ end_text wire encode stream_id (exit_code exit) ∷ []
  unfolding run step end_task
  end_sent stream_id exit u x y z = rw (x, end_task, y, z) refl

  -- Where nothing fails, and each reader has more turns than its output has bytes, exec.stream ends
  -- with the code of the child, after all of both outputs, each in its order, whatever the order of
  -- the turns.
  pub exec_stream_drains :
      (stream_id : String) (ts : List (StreamChannel × Turn)) (exit : Exit) (out errors : Bytes)
      → All (λ x. IsCalm x.1) ts
      → length out < turn_count stdout ts
      → length errors < turn_count stderr ts
      → (chunks : List (StreamChannel × Bytes)) × (joined_chunks (on_channel stdout chunks) ≡ out)
        × (joined_chunks (on_channel stderr chunks) ≡ errors)
        × ((run wire encode stream_id
              (turn_events ts ++ exits exit true ∷ [])
              (started wire encode out errors)).sent
            ≡ map (chunk_text wire encode stream_id) chunks
              ++ end_text wire encode stream_id (exit_code exit) ∷ [])
  unfolding run step
  exec_stream_drains stream_id ts exit out errors calm a b =
      let u = run wire encode stream_id (turn_events ts) (started wire encode out errors) in
      let (x, y, z) = turns_end stream_id ts (started wire encode out errors) calm a b in
      let m =
        run-Interleaved wire encode stream_id (turn_events ts) out errors
          (started wire encode out errors) (started-Interleaved wire encode stream_id out errors) in
      let empty = no_tail wire encode stream_id u.is_done m.tail z m.last in
      (
        m.chunks,
        all_read (joined_chunks (on_channel stdout m.chunks)) u.out out x m.out_whole,
        all_read (joined_chunks (on_channel stderr m.chunks)) u.errors errors y m.errors_whole,
        ap (λ s. s.sent)
              (run-append stream_id (turn_events ts) (exits exit true ∷ [])
                (started wire encode out errors))
            ∙ end_sent stream_id exit u x y z
            ∙ ap (λ w. w ++ end_text wire encode stream_id (exit_code exit) ∷ [])
                (m.sent
                  ∙ ap (λ w. map (chunk_text wire encode stream_id) m.chunks ++ w) empty
                  ∙ text_nil (map (chunk_text wire encode stream_id) m.chunks)),
      )
