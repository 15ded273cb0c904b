-- ===== src/MetricsBuffer.antt =====
-- src/metrics_buffer.rs: the disk-backed metrics buffer. The SQL statements are written out as
-- functions on the table; that SQLite runs them, or fails and changes nothing, is assumed.
pub mod Sql
pub mod Order
pub mod Valid
pub mod Drain
pub mod Retention
pub mod Stuck
pub mod Collection
mod Tests
use nobase_agent.Prelude.{
  ℕ, String, ◌<>◌, Bool, true, false, not, Option, none, some, List, [], ◌∷◌, map, Result, ok, err,
  Action, pure, lift, map_err, check, modify, gets, ◌>>=◌, ◌>>◌, length, if◌then◌else◌,
}
use nobase_agent.MetricsBuffer.Sql.{
  Row, Table, created, unsent, mem_id, limit_rows, order_by_id, insert_row, mark_rows, is_older,
  delete_rows, deleted_rows, is_sent_and_older,
}

pub record BufferError : Type 0 where
  pub message : String

abbrev pub buffer_error : String → BufferError
buffer_error message = record { message = message }

-- The payload and its JSON text, by `serde_json`.
pub record Codec : Type 1 where
  pub Payload : Type 0
  pub to_string : Payload → Result String String
  pub from_str : String → Result String Payload

-- What fails during one call: taking the lock (it is poisoned), or SQLite.
pub record Faults : Type 0 where
  pub lock : Option BufferError
  pub sqlite : Option BufferError

abbrev pub no_faults : Faults
no_faults = record { lock = none; sqlite = none }

-- The texts of past times, as `to_rfc3339` prints them.
pub record Clock : Type 0 where
  pub hours_ago : ℕ → String
  pub minutes_ago : ℕ → String

-- What fails while the database is opened, and what the file holds already.
pub record Disk : Type 0 where
  pub parent_missing : Bool
  pub create_dir : Option String
  pub connect : Option BufferError
  pub pragmas : Option BufferError
  pub create_table : Option BufferError
  pub create_index : Option BufferError
  pub existing : Option Table

abbrev or_created : Option Table → Table
or_created none = created
or_created (some t) = t

-- The connection, its pragmas, the table and the index. `CREATE TABLE IF NOT EXISTS` keeps a table
-- that is there.
open_database : Disk → Result BufferError Table
open_database disk = outcome.0
  where
    statements : Action Table BufferError Table
    statements = do
      check disk.connect
      check disk.pragmas
      check disk.create_table
      check disk.create_index
      gets (λ t. t)

    outcome : Result BufferError Table × Table
    outcome = statements (or_created disk.existing)

-- `MetricsBuffer::new`
unfoldable pub new : Disk → Result BufferError Table
unfolding open_database
new disk =
    if disk.parent_missing
    then elim disk.create_dir [
      | some e ↦ err (buffer_error ("Failed to create directory: " <> e))
      | none ↦ open_database disk
    ]
    else open_database disk

-- The lock and the statement of one call.
unfoldable pub locked : Faults → Action Table BufferError (Unit {0})
locked f = do check f.lock; check f.sqlite

module _ (codec : Codec) where
  open codec use {Payload, to_string, from_str}

  pub record BufferedMetric : Type 0 where
    pub id : ℕ
    pub timestamp : String
    pub metrics : Payload

  -- The loop over the rows: a row whose text does not parse is skipped.
  unfoldable pub decode : List Row → List BufferedMetric
  decode [] = []
  decode (row ∷ rows) = elim (from_str row.metrics_json) [
    | ok metrics ↦
        record { id = row.id; timestamp = row.timestamp; metrics = metrics } ∷ decode rows
    | err e ↦ decode rows
  ]

  unfoldable pub store : Faults → String → Payload → Action Table BufferError (Unit {0})
  unfolding locked
  store f timestamp metrics = do
    json ← lift (map_err buffer_error (to_string metrics))
    locked f
    modify (insert_row timestamp json)

  unfoldable pub get_unsent : Faults → ℕ → Action Table BufferError (List BufferedMetric)
  unfolding locked
  get_unsent f limit = do
    locked f
    rows ← gets (λ t. limit_rows limit (order_by_id (unsent t.rows)))
    pure (decode rows)

unfoldable pub mark_sent : Faults → List ℕ → Action Table BufferError (Unit {0})
unfolding locked
mark_sent f [] = pure tt
mark_sent f (id ∷ ids) = do locked f; modify (mark_rows (id ∷ ids))

unfoldable pub cleanup : Faults → Clock → ℕ → Action Table BufferError ℕ
unfolding locked
cleanup f clock retention_hours = do
  let cutoff = clock.hours_ago retention_hours
  locked f
  deleted ← gets (λ t. deleted_rows (is_older cutoff) t)
  modify (delete_rows (is_older cutoff))
  pure deleted

unfoldable pub cleanup_sent : Faults → Clock → Action Table BufferError ℕ
unfolding locked
cleanup_sent f clock = do
  let cutoff = clock.minutes_ago 5
  locked f
  deleted ← gets (λ t. deleted_rows (is_sent_and_older cutoff) t)
  modify (delete_rows (is_sent_and_older cutoff))
  pure deleted

unfoldable pub unsent_count : Faults → Action Table BufferError ℕ
unfolding locked
unsent_count f = do locked f; gets (λ t. length (unsent t.rows))

unfoldable pub total_count : Faults → Action Table BufferError ℕ
unfolding locked
total_count f = do locked f; gets (λ t. length t.rows)
