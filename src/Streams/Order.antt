-- ===== src/Streams/Order.antt =====
-- The messages of exec.stream in any order of what happens, src/handlers/exec.rs.
use nobase_agent.Prelude.{
  String, ◌≡◌, refl, ◌∙◌, ap, sym, Bool, true, false, List, [], ◌∷◌, ◌++◌, inl, inr, ◌⊎◌, ℤ, arith,
  map, All, Bool-cases, List-cases, Result-cases, All-append,
}
use nobase_agent.Proto.Methods.{StreamChannel, stdout, stderr}
use nobase_agent.Proto.Wire.{Wire}
use nobase_agent.FileSystem.{Bytes}
use nobase_agent.Streams.{Turn, chunk, behind, joined_chunks, data_message, end_message, text_of}
use nobase_agent.Streams.Prefix.{IsChunk, chunk_whole, chunk_sized}
use nobase_agent.Streams.Exec.{
  OutputReader, reading, ended, Task, reader_of, with_reader, buffer_size, output_turn,
}
use nobase_agent.Streams.Channels.{
  on_channel, on_channel-append, add_chunk, no_chunk, text_nil, map_append,
}

-- What a reader has not read.
abbrev pub left_of : OutputReader → Bytes
left_of (reading rest) = rest
left_of (ended rest) = rest

module _ (wire : Wire) (encode : Bytes → String) where
  abbrev pub chunk_text : String → StreamChannel × Bytes → String
  chunk_text stream_id (channel, c) =
      text_of wire encode (data_message wire encode stream_id channel c)

  abbrev pub end_text : String → ℤ → String
  end_text stream_id code = text_of wire encode (end_message wire encode stream_id code)

  -- What the channel holds behind the data, with an end or without.
  abbrev pub Tail : String → Bool → List String → Type 0
  Tail stream_id false tail = tail ≡ []
  Tail stream_id true tail = (tail ≡ []) ⊎ ((code : ℤ) × (tail ≡ end_text stream_id code ∷ []))

  -- The channel holds the text of chunks of both outputs, each in its order, and then an end at most,
  -- which comes after both readers have ended.
  pub record Interleaved (stream_id : String) (out errors : Bytes) (s : Task) : Type 0 where
    pub chunks : List (StreamChannel × Bytes)
    pub tail : List String
    pub sent : s.sent ≡ map (chunk_text stream_id) chunks ++ tail
    pub out_whole : joined_chunks (on_channel stdout chunks) ++ left_of s.out ≡ out
    pub errors_whole : joined_chunks (on_channel stderr chunks) ++ left_of s.errors ≡ errors
    pub sized : All (λ c. IsChunk buffer_size c.1) chunks
    pub last : Tail stream_id s.is_done tail
    pub after :
        (s.is_done ≡ false) ⊎ ((a : Bytes) × (b : Bytes) × (s.out ≡ ended a) × (s.errors ≡ ended b))

  -- A turn of a read loop sends nothing and ends the loop, or sends the chunk that it has read.
  abbrev pub Turned : String → StreamChannel → Bytes → OutputReader × List String → Type 0
  Turned stream_id channel rest (r, messages) =
      ((messages ≡ []) × (left_of r ≡ rest))
      ⊎ ((c : Bytes) × (messages ≡ chunk_text stream_id (channel, c) ∷ [])
          × (c ++ left_of r ≡ rest)
          × IsChunk buffer_size c)

  pub output_turn-Turned :
      (stream_id : String) (channel : StreamChannel) (t : Turn) (rest : Bytes)
      → Turned stream_id channel rest (output_turn wire encode stream_id channel t rest)
  unfolding output_turn
  output_turn-Turned stream_id channel t rest = elim (Result-cases t.outcome) [
    | inr (e, p) ↦ rw (p, output_turn) (inl (refl, refl))
    | inl (limit, p) ↦ elim (List-cases (chunk buffer_size limit rest)) [
      | inl q ↦ rw (p, output_turn, q) (inl (refl, refl))
      | inr (b, bytes, q) ↦ elim (Bool-cases t.receiving) [
        | inr v ↦ rw (p, output_turn, q, v) (inl (refl, refl))
        | inl v ↦
            rw (p, output_turn, q, v)
              (inr (
                b ∷ bytes,
                refl,
                ap (λ x. x ++ behind buffer_size limit rest) (sym q)
                    ∙ chunk_whole buffer_size limit rest (behind buffer_size limit rest) refl,
                chunk_sized buffer_size limit b bytes rest q,
              ))
      ]
    ]
  ]

  -- A task that is not done holds no end.
  pub no_tail :
      (stream_id : String) (is_done : Bool) (tail : List String)
      → is_done ≡ false
      → Tail stream_id is_done tail
      → tail ≡ []
  no_tail stream_id false tail e h = h
  no_tail stream_id true tail e h = absurd (ground (arith, e))

  still_running :
      (channel : StreamChannel) (s : Task) (rest : Bytes)
      → reader_of channel s ≡ reading rest
      → (s.is_done ≡ false) ⊎ ((a : Bytes) × (b : Bytes) × (s.out ≡ ended a) × (s.errors ≡ ended b))
      → s.is_done ≡ false
  still_running channel s rest e (inl d) = d
  still_running stdout s rest e (inr (a, b, o, x)) = absurd (ground (arith, e, o))
  still_running stderr s rest e (inr (a, b, o, x)) = absurd (ground (arith, e, x))

  tail_empty : (stream_id : String) (is_done : Bool) → Tail stream_id is_done []
  tail_empty stream_id false = refl
  tail_empty stream_id true = inl refl

  one_sent :
      (stream_id : String) (sent tail : List String) (chunks : List (StreamChannel × Bytes))
      (c : StreamChannel × Bytes)
      → sent ≡ map (chunk_text stream_id) chunks ++ tail
      → tail ≡ []
      → sent ++ chunk_text stream_id c ∷ [] ≡ map (chunk_text stream_id) (chunks ++ c ∷ []) ++ []
  one_sent stream_id sent tail chunks c e t =
      ap (λ x. x ++ chunk_text stream_id c ∷ [])
        (e
          ∙ ap (λ x. map (chunk_text stream_id) chunks ++ x) t
          ∙ text_nil (map (chunk_text stream_id) chunks))
      ∙ sym (map_append (chunk_text stream_id) chunks (c ∷ []))
      ∙ sym (text_nil (map (chunk_text stream_id) (chunks ++ c ∷ [])))

  pub sends :
      (stream_id : String) (channel : StreamChannel) (out errors c rest : Bytes) (r : OutputReader)
      (s : Task)
      → reader_of channel s ≡ reading rest
      → c ++ left_of r ≡ rest
      → IsChunk buffer_size c
      → Interleaved stream_id out errors s
      → Interleaved stream_id out errors
          (with_reader channel r (chunk_text stream_id (channel, c) ∷ []) s)
  sends stream_id stdout out errors c rest r s e w z m =
      let running = still_running stdout s rest e m.after in
      let empty = no_tail stream_id s.is_done m.tail running m.last in
      record {
        chunks = m.chunks ++ (stdout, c) ∷ [];
        tail = [];
        sent = one_sent stream_id s.sent m.tail m.chunks (stdout, c) m.sent empty;
        out_whole =
            ap (λ x. joined_chunks x ++ left_of r)
              (on_channel-append stdout m.chunks ((stdout, c) ∷ []))
            ∙ add_chunk (on_channel stdout m.chunks) (c ∷ []) c (left_of r) refl
            ∙ ap (λ x. joined_chunks (on_channel stdout m.chunks) ++ x) (w ∙ ap left_of (sym e))
            ∙ m.out_whole;
        errors_whole =
            ap (λ x. joined_chunks x ++ left_of s.errors)
              (on_channel-append stderr m.chunks ((stdout, c) ∷ []))
            ∙ no_chunk (on_channel stderr m.chunks) [] (left_of s.errors) refl
            ∙ m.errors_whole;
        sized =
            All-append (λ x. IsChunk buffer_size x.1) m.chunks ((stdout, c) ∷ []) m.sized (z, tt);
        last = tail_empty stream_id s.is_done;
        after = inl running;
      }
  sends stream_id stderr out errors c rest r s e w z m =
      let running = still_running stderr s rest e m.after in
      let empty = no_tail stream_id s.is_done m.tail running m.last in
      record {
        chunks = m.chunks ++ (stderr, c) ∷ [];
        tail = [];
        sent = one_sent stream_id s.sent m.tail m.chunks (stderr, c) m.sent empty;
        out_whole =
            ap (λ x. joined_chunks x ++ left_of s.out)
              (on_channel-append stdout m.chunks ((stderr, c) ∷ []))
            ∙ no_chunk (on_channel stdout m.chunks) [] (left_of s.out) refl
            ∙ m.out_whole;
        errors_whole =
            ap (λ x. joined_chunks x ++ left_of r)
              (on_channel-append stderr m.chunks ((stderr, c) ∷ []))
            ∙ add_chunk (on_channel stderr m.chunks) (c ∷ []) c (left_of r) refl
            ∙ ap (λ x. joined_chunks (on_channel stderr m.chunks) ++ x) (w ∙ ap left_of (sym e))
            ∙ m.errors_whole;
        sized =
            All-append (λ x. IsChunk buffer_size x.1) m.chunks ((stderr, c) ∷ []) m.sized (z, tt);
        last = tail_empty stream_id s.is_done;
        after = inl running;
      }

  pub stops :
      (stream_id : String) (channel : StreamChannel) (out errors rest : Bytes) (r : OutputReader)
      (s : Task)
      → reader_of channel s ≡ reading rest
      → left_of r ≡ rest
      → Interleaved stream_id out errors s
      → Interleaved stream_id out errors (with_reader channel r [] s)
  stops stream_id stdout out errors rest r s e w m =
      let running = still_running stdout s rest e m.after in
      record {
        chunks = m.chunks;
        tail = m.tail;
        sent = text_nil s.sent ∙ m.sent;
        out_whole =
            ap (λ x. joined_chunks (on_channel stdout m.chunks) ++ x) (w ∙ ap left_of (sym e))
            ∙ m.out_whole;
        errors_whole = m.errors_whole;
        sized = m.sized;
        last = m.last;
        after = inl running;
      }
  stops stream_id stderr out errors rest r s e w m =
      let running = still_running stderr s rest e m.after in
      record {
        chunks = m.chunks;
        tail = m.tail;
        sent = text_nil s.sent ∙ m.sent;
        out_whole = m.out_whole;
        errors_whole =
            ap (λ x. joined_chunks (on_channel stderr m.chunks) ++ x) (w ∙ ap left_of (sym e))
            ∙ m.errors_whole;
        sized = m.sized;
        last = m.last;
        after = inl running;
      }
