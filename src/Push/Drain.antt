-- ===== src/Push/Drain.antt =====
-- The backfill of src/connection.rs, on rounds in which nothing fails.
use mathlib.Core.List.{flatten, map-map, append-nil, append_assoc}
use nobase_agent.Prelude.{
  ℕ, zero, suc, ◌^◌, ◌≤◌, ◌<◌, ◌≡◌, refl, sym, ap, subst, ◌∙◌, ◌≢◌, String, Bool, true, false, List,
  [], ◌∷◌, ◌++◌, Result, ok, arith, length, take, drop, replicate, All, length-take, length-drop,
  take-append-drop, map, max,
}
use nobase_agent.Proto.Wire.{Wire}
use nobase_agent.MetricsBuffer.{Codec, BufferedMetric, no_faults, decode, mark_sent}
use nobase_agent.MetricsBuffer.Sql.{Row, Table, limit_rows, unsent}
use nobase_agent.MetricsBuffer.Order.{IsValid}
use nobase_agent.MetricsBuffer.Valid.{mark_sent_call, perform_all-IsValid}
use nobase_agent.MetricsBuffer.Drain.{
  Parses, ids, fetched, fetched_small, get_unsent-fetched, decode-append, mark_sent-fetched,
  mark_sent-Parses, Parses-unsent,
}
use nobase_agent.Push.{
  MetricsBatchPushNotification, runs, Verdict, more, stop, Phase, backfilling, steady, Round, State,
  batch_request, push_round, push_task, round_in, next_phase,
}

-- The list cut into pieces of `size`, as far as `n` pieces go.
pub batches : ℕ → ℕ → List Row → List (List Row)
batches zero size rows = []
batches (suc n) size [] = []
batches (suc n) size (r ∷ rows) = take size (r ∷ rows) ∷ batches n size (drop size (r ∷ rows))

flatten-batches :
    (n size : ℕ) (rows : List Row)
    → 0 < size
    → length rows < n
    → flatten (batches n size rows) ≡ rows
unfolding batches flatten
flatten-batches zero size rows h k = absurd (omega arith)
flatten-batches (suc n) size [] h k = refl
flatten-batches (suc n) size (r ∷ rows) h k =
    rw
      (flatten-batches n size (drop size (r ∷ rows)) h (omega (arith, length-drop size (r ∷ rows))))
      (take-append-drop size (r ∷ rows))

All-batches : (n size : ℕ) (rows : List Row) → All (λ b. length b ≤ size) (batches n size rows)
unfolding batches
All-batches zero size rows = tt
All-batches (suc n) size [] = tt
All-batches (suc n) size (r ∷ rows) =
    (omega (arith, length-take size (r ∷ rows)), All-batches n size (drop size (r ∷ rows)))

module _ (codec : Codec) (wire : Wire)
    (to_value : MetricsBatchPushNotification codec.Payload → Result String wire.Value) where
  -- A round in which nothing fails and no other task touches the buffer.
  abbrev pub calm : Round codec wire to_value
  calm = record {
    fetch = runs no_faults;
    receiving = true;
    mark = runs no_faults;
    between = [];
    after = [];
  }

  -- What a calm round makes of a state whose next batch is not empty.
  abbrev pub pushed : ℕ → String → State codec wire to_value → State codec wire to_value
  pushed limit msg s = record {
    table = (mark_sent no_faults (ids codec (decode codec (fetched limit s.table))) s.table).1;
    queue = s.queue ++ msg ∷ [];
  }

  pub calm_push :
      (idle : Verdict) (is_backfill : Bool) (limit : ℕ) (msg : String)
      (s : State codec wire to_value)
      → IsValid s.table
      → decode codec (fetched limit s.table) ≢ []
      → wire.print_request
          (batch_request codec wire to_value is_backfill (decode codec (fetched limit s.table)))
        ≡ ok msg
      → push_round codec wire to_value idle is_backfill limit calm s ≡ (more, pushed limit msg s)
  unfolding push_round
  calm_push idle is_backfill limit msg s w h printed =
      rw (get_unsent-fetched codec limit s.table w) (ground arith)

  pub calm_idle :
      (idle : Verdict) (is_backfill : Bool) (limit : ℕ) (s : State codec wire to_value)
      → IsValid s.table
      → decode codec (fetched limit s.table) ≡ []
      → push_round codec wire to_value idle is_backfill limit calm s ≡ (idle, s)
  unfolding push_round
  calm_idle idle is_backfill limit s w h = rw (get_unsent-fetched codec limit s.table w, h)

  decode-ne-nil :
      (limit : ℕ) (rows : List Row)
      → 0 < limit
      → rows ≢ []
      → All (Parses codec) rows
      → decode codec (take limit rows) ≢ []
  unfolding decode
  decode-ne-nil zero rows h ne parse = absurd (omega arith)
  decode-ne-nil (suc limit) [] h ne parse = absurd (ne refl)
  decode-ne-nil (suc limit) (r ∷ rows) h ne parse = let (metrics, p) = parse.0 in rw p (λ e. cc)

  decode-nil : decode codec [] ≡ []
  unfolding decode
  decode-nil = refl

  fetched-nil : (limit : ℕ) (t : Table) → unsent t.rows ≡ [] → fetched limit t ≡ []
  unfolding fetched limit_rows
  fetched-nil zero t e = ground arith
  fetched-nil (suc limit) t e = rw e (ground arith)

  pub push_task_step :
      (chunk_size push_interval : ℕ) (round : Round codec wire to_value)
      (rounds : List (Round codec wire to_value)) (phase : Phase) (v : Verdict)
      (s s' : State codec wire to_value)
      → round_in codec wire to_value chunk_size push_interval phase round s ≡ (v, s')
      → push_task codec wire to_value chunk_size push_interval (round ∷ rounds) phase s
        ≡ push_task codec wire to_value chunk_size push_interval rounds (next_phase phase v) s'
  unfolding push_task
  push_task_step chunk_size push_interval round rounds phase v s s' e = rw e

  -- The steady loop waits while the buffer is empty.
  steady_idle :
      (n chunk_size push_interval : ℕ) (s : State codec wire to_value)
      → IsValid s.table
      → unsent s.table.rows ≡ []
      → push_task codec wire to_value chunk_size push_interval (replicate n calm) steady s
        ≡ (steady, s)
  unfolding push_task
  steady_idle zero chunk_size push_interval s w e = refl
  steady_idle (suc n) chunk_size push_interval s w e =
      push_task_step chunk_size push_interval calm (replicate n calm) steady more s s (
        calm_idle more false (max push_interval 5) s w
          (rw (fetched-nil (max push_interval 5) s.table e) decode-nil))
      ∙ steady_idle n chunk_size push_interval s w e

  length-decode : (rows : List Row) → length (decode codec rows) ≤ length rows
  unfolding decode
  length-decode [] = omega arith
  length-decode (r ∷ rows) = ground (arith, length-decode rows)

  module _ (text : List (BufferedMetric codec) → String)
      (prints : (rows : List (BufferedMetric codec))
        → wire.print_request (batch_request codec wire to_value true rows) ≡ ok (text rows))
      (chunk_size push_interval : ℕ) (positive : 0 < chunk_size) (small : chunk_size < 2 ^ 63) where
    abbrev message : List Row → String
    message rows = text (decode codec rows)

    abbrev IsDrained :
        List (List Row) → State codec wire to_value → Phase × State codec wire to_value → Type 0
    IsDrained pieces s (phase, u) =
        (phase ≡ steady) × (unsent u.table.rows ≡ []) × (u.queue ≡ s.queue ++ map message pieces)

    drain :
        (n : ℕ) (rows : List Row) (s : State codec wire to_value)
        → unsent s.table.rows ≡ rows
        → IsValid s.table
        → All (Parses codec) s.table.rows
        → length rows < n
        → IsDrained (batches n chunk_size rows) s (
            push_task codec wire to_value chunk_size push_interval (replicate n calm) backfilling s)
    unfolding batches
    drain zero rows s e w parse h = absurd (omega arith)
    drain (suc n) [] s e w parse h =
        rw
          (
            push_task_step chunk_size push_interval calm (replicate n calm) backfilling stop s s (
                calm_idle stop true chunk_size s w
                  (rw (fetched-nil chunk_size s.table e) decode-nil)),
            steady_idle n chunk_size push_interval s w e,
          )
          (refl, e, sym (append-nil s.queue))
    drain (suc n) (r ∷ rows) s e w parse h =
        let batch = fetched chunk_size s.table in
        let found : batch ≡ take chunk_size (r ∷ rows) =
          fetched_small chunk_size s.table small ∙ ap (take chunk_size) e in
        let parse' = subst (All (Parses codec)) e (Parses-unsent codec s.table.rows parse) in
        let next = pushed chunk_size (message batch) s in
        let d =
          drain n (drop chunk_size (r ∷ rows)) next
            (mark_sent-fetched codec chunk_size s.table w parse small ∙ ap (drop chunk_size) e)
            (perform_all-IsValid codec
              (mark_sent_call no_faults (ids codec (decode codec batch)) ∷ []) s.table w).0
            (mark_sent-Parses codec (ids codec (decode codec batch)) s.table parse)
            (omega (arith, length-drop chunk_size (r ∷ rows))) in
        rw
          (push_task_step chunk_size push_interval calm (replicate n calm) backfilling more s next (
            calm_push stop true chunk_size (message batch) s w
              (rw found (decode-ne-nil chunk_size (r ∷ rows) positive (λ p. cc) parse'))
              (prints _)))
          (
            d.0,
            d.1,
            d.2
                ∙ append_assoc s.queue (message batch ∷ []) _
                ∙ ap
                    (λ b.
                      s.queue
                      ++ message b
                        ∷ map message (batches n chunk_size (drop chunk_size (r ∷ rows))))
                    found,
          )

    decode-flatten :
        (pieces : List (List Row))
        → flatten (map (decode codec) pieces) ≡ decode codec (flatten pieces)
    unfolding flatten
    decode-flatten [] = sym decode-nil
    decode-flatten (b ∷ pieces) =
        rw (decode-flatten pieces) (sym (decode-append codec b (flatten pieces)))

    length-batch :
        (pieces : List (List Row))
        → All (λ (b : List Row). length b ≤ chunk_size) pieces
        → All (λ b. length b ≤ chunk_size) (map (decode codec) pieces)
    length-batch [] h = tt
    length-batch (b ∷ pieces) h = (omega (arith, length-decode b), length-batch pieces h.1)

    -- Rounds in which nothing fails, more of them than there are unsent rows, take the task out
    -- of the backfill with no unsent row left. What it has put into the channel are the messages
    -- of batches of at most `chunk_size` samples, which together are all the samples that were
    -- unsent, in order and once each. The texts of the rows parse, and the messages print.
    pub backfill_drains :
        (n : ℕ) (s : State codec wire to_value)
        → IsValid s.table
        → All (Parses codec) s.table.rows
        → length (unsent s.table.rows) < n
        → let (phase, u) =
            push_task codec wire to_value chunk_size push_interval
              (replicate n calm)
              backfilling
              s in
          (pieces : List (List (BufferedMetric codec))) × (phase ≡ steady)
          × (unsent u.table.rows ≡ [])
          × (u.queue ≡ s.queue ++ map text pieces)
          × (flatten pieces ≡ decode codec (unsent s.table.rows))
          × All (λ b. length b ≤ chunk_size) pieces
    backfill_drains n s w parse h =
        let cut = batches n chunk_size (unsent s.table.rows) in
        let d = drain n (unsent s.table.rows) s refl w parse h in
        (
          map (decode codec) cut,
          d.0,
          d.1,
          d.2 ∙ ap (λ q. s.queue ++ q) (sym (map-map text (decode codec) cut)),
          decode-flatten cut
              ∙ ap (decode codec) (flatten-batches n chunk_size (unsent s.table.rows) positive h),
          length-batch cut (All-batches n chunk_size (unsent s.table.rows)),
        )
