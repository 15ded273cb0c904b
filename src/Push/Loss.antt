-- ===== src/Push/Loss.antt =====
-- Runs of the push task of src/connection.rs with disconnects, failing marks and corrupt rows.
use mathlib.Core.List.{append-nil, append_assoc}
use nobase_agent.Prelude.{
  ℕ, zero, suc, ◌^◌, ◌<◌, ◌≡◌, refl, ◌∙◌, ap, ◌≢◌, String, Bool, true, false, List, [], ◌∷◌, ◌++◌,
  Result, ok, arith, drop, replicate, All, map, max,
}
use nobase_agent.Proto.Wire.{Wire}
use nobase_agent.MetricsBuffer.{Codec, Faults, decode}
use nobase_agent.MetricsBuffer.Sql.{Table, unsent}
use nobase_agent.MetricsBuffer.Order.{IsValid}
use nobase_agent.MetricsBuffer.Valid.{Call, store_call, perform_all, perform_all-IsValid}
use nobase_agent.MetricsBuffer.Drain.{Parses, fetched, get_unsent-fetched, mark_sent-fetched}
use nobase_agent.MetricsBuffer.Stuck.{IsStuck, IsStuck-nil, IsStuck-store}
use nobase_agent.Push.{
  MetricsBatchPushNotification, panics, Verdict, more, stop, backfilling, steady, Round, State,
  batch_request, push_round, push_task, disconnect,
}
use nobase_agent.Push.Drain.{calm, calm_push, push_task_step}

module _ (codec : Codec) (wire : Wire)
    (to_value : MetricsBatchPushNotification codec.Payload → Result String wire.Value) where
  -- A batch that a round puts into the channel is lost if the connection ends before the sender
  -- task takes it: then it is neither in the channel nor unsent, and no later fetch returns it.
  pub lost_on_disconnect :
      (idle : Verdict) (is_backfill : Bool) (limit : ℕ) (msg : String)
      (s : State codec wire to_value)
      → IsValid s.table
      → All (Parses codec) s.table.rows
      → limit < 2 ^ 63
      → decode codec (fetched limit s.table) ≢ []
      → wire.print_request
          (batch_request codec wire to_value is_backfill (decode codec (fetched limit s.table)))
        ≡ ok msg
      → let u =
          disconnect codec wire to_value
            (push_round codec wire to_value idle is_backfill limit
              (calm codec wire to_value)
              s).1 in
        (u.queue ≡ []) × (unsent u.table.rows ≡ drop limit (unsent s.table.rows))
  unfolding disconnect
  lost_on_disconnect idle is_backfill limit msg s w parse small some_rows printed =
      rw (calm_push codec wire to_value idle is_backfill limit msg s w some_rows printed)
        (refl, mark_sent-fetched codec limit s.table w parse small)

  -- A round whose marking panics, and which is calm otherwise.
  abbrev pub unmarked : Round codec wire to_value
  unmarked = record (calm codec wire to_value) { mark = panics }

  unmarked_push :
      (limit : ℕ) (msg : String) (s : State codec wire to_value)
      → IsValid s.table
      → decode codec (fetched limit s.table) ≢ []
      → wire.print_request
          (batch_request codec wire to_value true (decode codec (fetched limit s.table)))
        ≡ ok msg
      → push_round codec wire to_value stop true limit unmarked s
        ≡ (more, record s { queue = s.queue ++ msg ∷ [] })
  unfolding push_round
  unmarked_push limit msg s w h printed =
      rw (get_unsent-fetched codec limit s.table w) (ground arith)

  -- While the marking fails, the backfill puts the same message into the channel in every round
  -- and does not end.
  pub resends :
      (n chunk_size push_interval : ℕ) (msg : String) (s : State codec wire to_value)
      → IsValid s.table
      → decode codec (fetched chunk_size s.table) ≢ []
      → wire.print_request
          (batch_request codec wire to_value true (decode codec (fetched chunk_size s.table)))
        ≡ ok msg
      → push_task codec wire to_value chunk_size push_interval (replicate n unmarked) backfilling s
        ≡ (backfilling, record s { queue = s.queue ++ replicate n msg })
  resends zero chunk_size push_interval msg s w h printed =
      unfold push_task in rw (append-nil s.queue)
  resends (suc n) chunk_size push_interval msg s w h printed =
      let next = record s { queue = s.queue ++ msg ∷ [] } in
      push_task_step codec wire to_value chunk_size push_interval unmarked (replicate n unmarked)
        backfilling more s next (unmarked_push chunk_size msg s w h printed)
      ∙ resends n chunk_size push_interval msg next w h printed
      ∙ ap (λ q. (backfilling, record s { queue = q }))
          (append_assoc s.queue (msg ∷ []) (replicate n msg))

  -- A sample that the collection task stores, and what fails while it does.
  abbrev pub Stores : Type 0
  Stores = List (Faults × String × codec.Payload)

  abbrev store_calls : Stores → List (Call codec)
  store_calls = map (λ (f, timestamp, metrics). store_call f timestamp metrics)

  -- A calm round, after which the collection task stores samples.
  abbrev pub storing : Stores → Round codec wire to_value
  storing samples = record (calm codec wire to_value) { after = store_calls samples }

  -- A buffer in which a fetch of `limit` rows finds only texts that do not parse.
  abbrev pub IsBlocked : ℕ → Table → Type 0
  IsBlocked limit t = IsValid t × IsStuck codec limit t

  IsBlocked-stores :
      (limit : ℕ) (samples : Stores) (t : Table)
      → IsBlocked limit t
      → IsBlocked limit (perform_all codec (store_calls samples) t)
  IsBlocked-stores limit [] t b = b
  IsBlocked-stores limit ((f, timestamp, metrics) ∷ samples) t b =
      IsBlocked-stores limit samples _ (
        (perform_all-IsValid codec (store_call f timestamp metrics ∷ []) t b.0).0,
        IsStuck-store codec limit f timestamp metrics t b.1,
      )

  storing_idle :
      (samples : Stores) (limit : ℕ) (s : State codec wire to_value)
      → limit < 2 ^ 63
      → IsBlocked limit s.table
      → push_round codec wire to_value more false limit (storing samples) s
        ≡ (more, record s { table = perform_all codec (store_calls samples) s.table })
  unfolding push_round
  storing_idle samples limit s small b =
      rw (get_unsent-fetched codec limit s.table b.0, IsStuck-nil codec limit s.table small b.1)

  -- Once the oldest unsent rows, as many as a fetch may return, hold texts that do not parse, the
  -- steady loop sends nothing more, however many samples are stored behind them.
  pub stalls :
      (rounds : List Stores) (chunk_size push_interval : ℕ) (s : State codec wire to_value)
      → max push_interval 5 < 2 ^ 63
      → IsBlocked (max push_interval 5) s.table
      → let (phase, u) =
          push_task codec wire to_value chunk_size push_interval (map storing rounds) steady s in
        (phase ≡ steady) × (u.queue ≡ s.queue) × IsBlocked (max push_interval 5) u.table
  stalls [] chunk_size push_interval s small b = unfold push_task in (refl, refl, b)
  stalls (samples ∷ rounds) chunk_size push_interval s small b =
      let next = record s { table = perform_all codec (store_calls samples) s.table } in
      rw
        (push_task_step codec wire to_value chunk_size push_interval (storing samples)
          (map storing rounds) steady more s next
          (storing_idle samples (max push_interval 5) s small b))
        (stalls rounds chunk_size push_interval next small
          (IsBlocked-stores (max push_interval 5) samples s.table b))
