-- ===== src/Push/Tests.antt =====
-- Runs of the push task of src/connection.rs, and the theorems at concrete states.
use mathlib.Core.List.{flatten}
use nobase_agent.Prelude.{
  ℕ, ◌≤◌, ◌≡◌, refl, ◌⊎◌, ◌<>◌, String, true, false, List, [], ◌∷◌, ◌++◌, Result, ok, arith, length,
  All, replicate, map,
}
use nobase_agent.MetricsBuffer.{BufferedMetric, no_faults, get_unsent, mark_sent, decode}
use nobase_agent.MetricsBuffer.Sql.{Row, Table, unsent, limit_rows, order_by_id, mark_rows}
use nobase_agent.MetricsBuffer.Valid.{cleanup_sent_call}
use nobase_agent.MetricsBuffer.Drain.{Parses, fetched}
use nobase_agent.MetricsBuffer.Stuck.{IsCorrupt}
use nobase_agent.Push.{
  MetricsBatchPushNotification, MetricsDataPoint, data_points, stop, backfilling, steady, ended,
  Round, State, batch_request, push_round, push_task, disconnect,
}
use nobase_agent.Push.Safety.{others, batch, push_round_safe}
use nobase_agent.Push.Drain.{calm, backfill_drains}
use nobase_agent.Push.Loss.{lost_on_disconnect, unmarked, resends, storing, IsBlocked, stalls}
use nobase_agent.Samples.{codec, wire, clock}

abbrev row : ℕ → String → Row
row id text = record { id = id; timestamp = "2026-01-01"; metrics_json = text; sent = false }

abbrev three : Table
three = record { rows = row 1 "a" ∷ row 2 "b" ∷ row 3 "c" ∷ []; next_id = 4 }

abbrev texts : List (MetricsDataPoint String) → String
texts [] = ""
texts (d ∷ points) = d.metrics <> texts points

-- A batch's value is the text of its samples.
abbrev to_value : MetricsBatchPushNotification String → Result String String
to_value b = ok (texts b.data_points)

abbrev message : List (BufferedMetric codec) → String
message rows = "metrics.batch_push" <> (" " <> texts (data_points codec wire to_value rows))

prints :
    (rows : List (BufferedMetric codec))
    → wire.print_request (batch_request codec wire to_value true rows) ≡ ok (message rows)
unfolding batch_request
prints rows = refl

abbrev start : State codec wire to_value
start = record { table = three; queue = [] }

three-Parses : All (Parses codec) three.rows
three-Parses = (("a", refl), (("b", refl), (("c", refl), tt)))

abbrev sent_row : ℕ → String → Row
sent_row id text = record (row id text) { sent = true }

-- Two batches of at most two samples, and then the steady loop.
backfill_run :
    push_task codec wire to_value 2 5 (replicate 4 (calm codec wire to_value)) backfilling start ≡ (
      steady,
      record {
        table = record {
          rows = sent_row 1 "a" ∷ sent_row 2 "b" ∷ sent_row 3 "c" ∷ [];
          next_id = 4;
        };
        queue = "metrics.batch_push ab" ∷ "metrics.batch_push c" ∷ [];
      },
    )
unfolding push_task push_round get_unsent limit_rows order_by_id decode mark_sent mark_rows
backfill_run = refl

-- The channel is closed: the backfill ends, and so does the steady loop at its first batch.
closed_run :
    push_task codec wire to_value 2 5
      (replicate 3 (record (calm codec wire to_value) { receiving = false }))
      backfilling
      start
    ≡ (ended, start)
unfolding push_task push_round get_unsent limit_rows order_by_id decode
closed_run = refl

backfill_drains_example :
    let (phase, u) =
      push_task codec wire to_value 2 5
        (replicate 4 (calm codec wire to_value))
        backfilling
        start in
    (pieces : List (List (BufferedMetric codec))) × (phase ≡ steady)
    × (unsent u.table.rows ≡ [])
    × (u.queue ≡ [] ++ map message pieces)
    × (flatten pieces ≡ decode codec (unsent three.rows))
    × All (λ b. length b ≤ 2) pieces
backfill_drains_example =
    backfill_drains codec wire to_value message prints 2 5 (omega arith) (omega arith) 4 start
      (omega arith) three-Parses (omega arith)

abbrev broken : Round codec wire to_value
broken = record (calm codec wire to_value) {
  receiving = false;
  between = cleanup_sent_call no_faults clock ∷ [];
}

push_round_safe_example :
    let u = (push_round codec wire to_value stop true 2 broken start).1 in
    ((u.queue ≡ []) × (u.table ≡ others codec wire to_value broken three))
    ⊎ ((msg : String) × (wire.print_request
            (batch_request codec wire to_value true (batch codec wire to_value 2 three))
          ≡ ok msg)
        × (u.queue ≡ [] ++ msg ∷ []))
push_round_safe_example =
    push_round_safe codec wire to_value stop true 2 broken start
      (λ rows. (message rows, prints rows))

lost_on_disconnect_example :
    let u =
      disconnect codec wire to_value
        (push_round codec wire to_value stop true 2 (calm codec wire to_value) start).1 in
    (u.queue ≡ []) × (unsent u.table.rows ≡ row 3 "c" ∷ [])
unfolding fetched limit_rows decode
lost_on_disconnect_example =
    lost_on_disconnect codec wire to_value stop true 2 (message (decode codec (fetched 2 three)))
      start (omega arith) three-Parses (omega arith) (λ e. cc)
      (prints (decode codec (fetched 2 three)))

resends_example :
    push_task codec wire to_value 2 5 (replicate 2 (unmarked codec wire to_value)) backfilling start
    ≡ (backfilling, record start { queue = "metrics.batch_push ab" ∷ "metrics.batch_push ab" ∷ [] })
unfolding fetched limit_rows decode data_points
resends_example =
    resends codec wire to_value 2 2 5 (message (decode codec (fetched 2 three))) start (omega arith)
      (λ e. cc) (prints (decode codec (fetched 2 three)))

-- Five texts that do not parse, as many as the steady loop fetches, before one that does.
abbrev clogged : State codec wire to_value
clogged = record {
  table = record {
    rows =
        row 1 "corrupt"
        ∷ row 2 "corrupt"
        ∷ row 3 "corrupt"
        ∷ row 4 "corrupt"
        ∷ row 5 "corrupt"
        ∷ row 6 "f"
        ∷ [];
    next_id = 7;
  };
  queue = [];
}

abbrev corrupt_row : (id : ℕ) → IsCorrupt codec (row id "corrupt")
corrupt_row id = ("expected value", refl)

clogged-IsBlocked : IsBlocked codec wire to_value 5 clogged.table
clogged-IsBlocked = (
  omega arith,
  record {
    full = omega arith;
    corrupt =
        (corrupt_row 1, (corrupt_row 2, (corrupt_row 3, (corrupt_row 4, (corrupt_row 5, tt)))));
  },
)

stalls_example :
    let (phase, u) =
      push_task codec wire to_value 300 5
        (map (storing codec wire to_value) (((no_faults, "2026-01-02", "g") ∷ []) ∷ [] ∷ []))
        steady
        clogged in
    (phase ≡ steady) × (u.queue ≡ []) × IsBlocked codec wire to_value 5 u.table
stalls_example =
    stalls codec wire to_value (((no_faults, "2026-01-02", "g") ∷ []) ∷ [] ∷ []) 300 5 clogged
      (omega arith) clogged-IsBlocked
