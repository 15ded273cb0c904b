-- ===== src/Push.antt =====
-- The metrics push task of src/connection.rs (`connect_and_run`): the backfill loop, then the
-- steady loop. A loop runs on a schedule, which says for each round what fails in it and what the
-- other tasks do to the buffer meanwhile.
pub mod Safety
pub mod Drain
pub mod Loss
mod Tests
use nobase_agent.Prelude.{
  ℕ, String, Bool, true, false, Option, none, some, List, [], ◌∷◌, ◌++◌, map, Result, ok, err, max,
  if◌then◌else◌,
}
use nobase_agent.Proto.Rpc.{RpcRequest, notification}
use nobase_agent.Proto.Wire.{Wire}
use nobase_agent.MetricsBuffer.{Codec, BufferedMetric, Faults, BufferError, get_unsent, mark_sent}
use nobase_agent.MetricsBuffer.Sql.{Table}
use nobase_agent.MetricsBuffer.Valid.{Call, perform_all}

-- proto/src/metrics.rs
pub record MetricsDataPoint (Payload : Type 0) : Type 0 where
  pub metrics : Payload
  pub timestamp : String

pub record MetricsBatchPushNotification (Payload : Type 0) : Type 0 where
  pub server_id : String
  pub data_points : List (MetricsDataPoint Payload)
  pub is_backfill : Bool

-- A closure under `spawn_blocking`: it runs, or the task panics before the call.
pub data Blocking : Type 0 where
  runs : Faults → Blocking
  panics : Blocking

-- Whether a loop goes round again.
pub data Verdict : Type 0 where
  more stop : Verdict

-- The phases of the task.
pub data Phase : Type 0 where
  backfilling steady ended : Phase

-- Leaving the backfill starts the steady loop, and leaving that ends the task.
abbrev pub next_phase : Phase → Verdict → Phase
next_phase backfilling stop = steady
next_phase backfilling more = backfilling
next_phase steady stop = ended
next_phase steady more = steady
next_phase ended v = ended

abbrev unwrap_or {ℓ} : {A : Type ℓ} → A → Result String A → A
unwrap_or d (ok a) = a
unwrap_or d (err e) = d

module _ (codec : Codec) (wire : Wire)
    (to_value : MetricsBatchPushNotification codec.Payload → Result String wire.Value) where
  -- What happens in one round: to the fetch, to the channel's receiver, to the marking, and what
  -- the other tasks call between the fetch and the marking, and until the next round.
  pub record Round : Type 0 where
    pub fetch : Blocking
    pub receiving : Bool
    pub mark : Blocking
    pub between : List (Call codec)
    pub after : List (Call codec)

  -- The buffer, and the texts that wait in the channel `tx` for the sender task.
  pub record State : Type 0 where
    pub table : Table
    pub queue : List String

  unfoldable pub data_points : List (BufferedMetric codec) → List (MetricsDataPoint codec.Payload)
  data_points = map (λ r. record { metrics = r.metrics; timestamp = r.timestamp })

  unfoldable pub batch_request : Bool → List (BufferedMetric codec) → RpcRequest wire.Value
  unfolding data_points notification
  batch_request is_backfill rows = notification "metrics.batch_push" (
      unwrap_or wire.null (
        to_value
          (record { server_id = ""; data_points = data_points rows; is_backfill = is_backfill })))

  fetched :
      Result BufferError (List (BufferedMetric codec)) × Table
      → Option (List (BufferedMetric codec)) × Table
  fetched (ok rows, u) = (some rows, u)
  fetched (err e, u) = (none, u)

  unfoldable pub fetch_rows : Blocking → ℕ → Table → Option (List (BufferedMetric codec)) × Table
  unfolding fetched
  fetch_rows panics limit t = (none, t)
  fetch_rows (runs f) limit t = fetched (get_unsent codec f limit t)

  -- The result of the marking is dropped.
  unfoldable pub mark_rows_sent : Blocking → List ℕ → Table → Table
  mark_rows_sent panics ids t = t
  mark_rows_sent (runs f) ids t = (mark_sent f ids t).1

  -- From the print of the batch to the marking of its rows. A batch that does not print is marked
  -- all the same; a closed channel ends the loop before the marking.
  unfoldable pub deliver : Bool → Round → List (BufferedMetric codec) → State → Verdict × State
  unfolding batch_request mark_rows_sent
  deliver is_backfill round rows s =
      let t = perform_all codec round.between s.table in
      let marked = mark_rows_sent round.mark (map (λ r. r.id) rows) t in
      elim (wire.print_request (batch_request is_backfill rows)) [
        | err e ↦ (more, record { table = marked; queue = s.queue })
        | ok msg ↦
            if round.receiving
            then (more, record { table = marked; queue = s.queue ++ msg ∷ [] })
            else (stop, record { table = t; queue = s.queue })
      ]

  -- A round behind its fetch, in a loop that goes on with `idle` when there is nothing to send.
  unfoldable pub send_rows :
      Verdict
      → Bool
      → Round
      → List String
      → Option (List (BufferedMetric codec)) × Table
      → Verdict × State
  unfolding deliver
  send_rows idle is_backfill round queue (none, t) =
      (idle, record { table = perform_all codec round.between t; queue = queue })
  send_rows idle is_backfill round queue (some [], t) =
      (idle, record { table = perform_all codec round.between t; queue = queue })
  send_rows idle is_backfill round queue (some (r ∷ rows), t) =
      deliver is_backfill round (r ∷ rows) (record { table = t; queue = queue })

  unfoldable pub push_round : Verdict → Bool → ℕ → Round → State → Verdict × State
  unfolding fetch_rows send_rows
  push_round idle is_backfill limit round s =
      let (v, u) =
        send_rows idle is_backfill round s.queue (fetch_rows round.fetch limit s.table) in
      (v, record { table = perform_all codec round.after u.table; queue = u.queue })

  -- The two loops: an error or an empty buffer ends the backfill and is skipped in the steady state.
  abbrev pub backfill_round : ℕ → Round → State → Verdict × State
  backfill_round chunk_size = push_round stop true chunk_size

  abbrev pub steady_round : ℕ → Round → State → Verdict × State
  steady_round push_interval = push_round more false (max push_interval 5)

  abbrev pub round_in : ℕ → ℕ → Phase → Round → State → Verdict × State
  round_in chunk_size push_interval backfilling round s = backfill_round chunk_size round s
  round_in chunk_size push_interval steady round s = steady_round push_interval round s
  round_in chunk_size push_interval ended round s = (stop, s)

  -- The task on a schedule of rounds, from a phase.
  unfoldable pub push_task : ℕ → ℕ → List Round → Phase → State → Phase × State
  push_task chunk_size push_interval [] phase s = (phase, s)
  push_task chunk_size push_interval (round ∷ rounds) phase s =
      let (v, s') = round_in chunk_size push_interval phase round s in
      push_task chunk_size push_interval rounds (next_phase phase v) s'

  -- The end of the connection: the tasks are aborted, and the channel goes with its receiver.
  unfoldable pub disconnect : State → State
  disconnect s = record s { queue = [] }
