-- ===== src/Push/Safety.antt =====
-- What a round of the push loops in src/connection.rs marks and queues, whatever fails.
use nobase_agent.Prelude.{
  ℕ, ◌≡◌, refl, String, Bool, none, some, ◌⊎◌, inl, inr, List, [], ◌∷◌, ◌++◌, Result, ok, arith,
  Bool-cases, Option-cases,
}
use nobase_agent.Proto.Wire.{Wire}
use nobase_agent.MetricsBuffer.{Codec, BufferedMetric, decode, get_unsent}
use nobase_agent.MetricsBuffer.Sql.{Table, limit_rows, order_by_id, unsent}
use nobase_agent.MetricsBuffer.Valid.{perform_all}
use nobase_agent.Push.{
  MetricsBatchPushNotification, Blocking, runs, panics, Verdict, Round, State, batch_request,
  fetch_rows, deliver, send_rows, push_round,
}

module _ (codec : Codec) (wire : Wire)
    (to_value : MetricsBatchPushNotification codec.Payload → Result String wire.Value) where
  -- Every batch prints.
  abbrev pub Prints : Bool → Type 0
  Prints is_backfill =
      (rows : List (BufferedMetric codec))
      → (msg : String) × (wire.print_request (batch_request codec wire to_value is_backfill rows)
          ≡ ok msg)

  -- What the other tasks alone make of the table in a round.
  abbrev pub others : Round codec wire to_value → Table → Table
  others round t = perform_all codec round.after (perform_all codec round.between t)

  -- The rows that a fetch of at most `limit` would return.
  abbrev pub batch : ℕ → Table → List (BufferedMetric codec)
  batch limit t = decode codec (limit_rows limit (order_by_id (unsent t.rows)))

  -- The round queues nothing and marks nothing, or it queues the message of `rows`.
  abbrev Outcome :
      Bool
      → Round codec wire to_value
      → List (BufferedMetric codec)
      → State codec wire to_value
      → State codec wire to_value
      → Type 0
  Outcome is_backfill round rows s u =
      ((u.queue ≡ s.queue) × (u.table ≡ others round s.table))
      ⊎ ((msg : String) × (wire.print_request (batch_request codec wire to_value is_backfill rows)
            ≡ ok msg)
          × (u.queue ≡ s.queue ++ msg ∷ []))

  fetch_rows-cases :
      (fetch : Blocking) (limit : ℕ) (t : Table)
      → (fetch_rows codec wire to_value fetch limit t ≡ (none, t))
        ⊎ (fetch_rows codec wire to_value fetch limit t ≡ (some (batch limit t), t))
  unfolding fetch_rows get_unsent
  fetch_rows-cases panics limit t = inl refl
  fetch_rows-cases (runs f) limit t = elim (Option-cases f.lock) [
    | inr (e, p) ↦ rw p (inl refl)
    | inl p ↦ elim (Option-cases f.sqlite) [
      | inr (e, q) ↦ rw (p, q) (inl refl)
      | inl q ↦ rw (p, q) (inr refl)
    ]
  ]

  -- The end of a round.
  abbrev finish : Round codec wire to_value → State codec wire to_value → State codec wire to_value
  finish round u = record { table = perform_all codec round.after u.table; queue = u.queue }

  deliver_safe :
      (is_backfill : Bool) (round : Round codec wire to_value) (rows : List (BufferedMetric codec))
      (s : State codec wire to_value)
      → Prints is_backfill
      → Outcome is_backfill round rows s
          (finish round (deliver codec wire to_value is_backfill round rows s).1)
  unfolding deliver
  deliver_safe is_backfill round rows s prints =
      let (msg, printed) = prints rows in
      elim (Bool-cases round.receiving) [
        | inl receiving ↦ inr (msg, printed, ground arith)
        | inr closed ↦ inl (ground arith, ground arith)
      ]

  send_rows_safe :
      (idle : Verdict) (is_backfill : Bool) (round : Round codec wire to_value)
      (rows : List (BufferedMetric codec)) (s : State codec wire to_value)
      → Prints is_backfill
      → Outcome is_backfill round rows s (
          finish round
            (send_rows codec wire to_value idle is_backfill round s.queue (some rows, s.table)).1)
  unfolding send_rows
  send_rows_safe idle is_backfill round [] s prints = inl (refl, refl)
  send_rows_safe idle is_backfill round (r ∷ rows) s prints =
      deliver_safe is_backfill round (r ∷ rows) s prints

  -- If batches print, then whatever fails in a round and whatever the other tasks do meanwhile:
  -- the round leaves the channel alone and the table is what the other tasks make of it, with no
  -- row marked, or it puts into the channel the message of the batch that was unsent at its start.
  pub push_round_safe :
      (idle : Verdict) (is_backfill : Bool) (limit : ℕ) (round : Round codec wire to_value)
      (s : State codec wire to_value)
      → Prints is_backfill
      → let u = (push_round codec wire to_value idle is_backfill limit round s).1 in
        ((u.queue ≡ s.queue) × (u.table ≡ others round s.table))
        ⊎ ((msg : String) × (wire.print_request
                (batch_request codec wire to_value is_backfill (batch limit s.table))
              ≡ ok msg)
            × (u.queue ≡ s.queue ++ msg ∷ []))
  push_round_safe idle is_backfill limit round s prints =
      elim (fetch_rows-cases round.fetch limit s.table) [
        | inl p ↦ unfold push_round in rw p (inl (refl, refl))
        | inr p ↦
            unfold push_round in
            rw p (send_rows_safe idle is_backfill round (batch limit s.table) s prints)
      ]
