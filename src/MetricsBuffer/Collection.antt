-- ===== src/MetricsBuffer/Collection.antt =====
-- The collection task of src/connection.rs (`run_connection_loop`), which fills the buffer.
use nobase_agent.Prelude.{
  ℕ, ◌+◌, ◌%◌, ◌^◌, String, ◌≡◌, refl, ◌∙◌, ap, sym, Bool, List, [], ◌∷◌, ◌++◌, if◌then◌else◌, ◌==◌,
  Bool-cases, inl, inr,
}
use nobase_agent.MetricsBuffer.{Codec, Clock, Faults, store, cleanup, cleanup_sent}
use nobase_agent.MetricsBuffer.Sql.{Table}
use nobase_agent.MetricsBuffer.Valid.{
  Call, store_call, cleanup_call, cleanup_sent_call, perform, perform_all,
}

module _ (codec : Codec) (retention_hours : ℕ) where
  -- A tick of the task: the sample, what fails in the methods, the clock of the cleanups, and whether
  -- the task of the store, or of the cleanups before them, panics.
  pub record Tick : Type 0 where
    pub timestamp : String
    pub metrics : codec.Payload
    pub store_faults : Faults
    pub cleanup_faults : Faults
    pub sent_faults : Faults
    pub clock : Clock
    pub store_panics : Bool
    pub cleanup_panics : Bool

  -- The table, and `cleanup_tick`.
  pub record Collector : Type 0 where
    pub table : Table
    pub cleanup_tick : ℕ

  abbrev pub next_tick : ℕ → ℕ
  next_tick n = (n + 1) % 2 ^ 64

  unfoldable pub store_sample : Tick → Table → Table
  unfolding store
  store_sample t table =
      if t.store_panics then table else (store codec t.store_faults t.timestamp t.metrics table).1

  -- The cleanups of every 300th tick; their results are dropped.
  unfoldable pub clean : Tick → ℕ → Table → Table
  unfolding cleanup cleanup_sent
  clean t n table =
      if n % 300 == 0
      then if t.cleanup_panics
        then table
        else (cleanup_sent t.sent_faults t.clock
            (cleanup t.cleanup_faults t.clock retention_hours table).1).1
      else table

  unfoldable pub collect_tick : Tick → Collector → Collector
  unfolding store_sample clean
  collect_tick t c =
      let n = next_tick c.cleanup_tick in
      record { table = clean t n (store_sample t c.table); cleanup_tick = n }

  unfoldable pub run_collection : List Tick → Collector → Collector
  unfolding collect_tick
  run_collection [] c = c
  run_collection (t ∷ ticks) c = run_collection ticks (collect_tick t c)

  -- The calls of the buffer in a tick.
  abbrev pub store_calls : Tick → List (Call codec)
  store_calls t =
      if t.store_panics then [] else store_call t.store_faults t.timestamp t.metrics ∷ []

  abbrev pub clean_calls : Tick → ℕ → List (Call codec)
  clean_calls t n =
      if n % 300 == 0
      then if t.cleanup_panics
        then []
        else cleanup_call t.cleanup_faults t.clock retention_hours
          ∷ cleanup_sent_call t.sent_faults t.clock
          ∷ []
      else []

  abbrev pub calls_of : Tick → ℕ → List (Call codec)
  calls_of t n = store_calls t ++ clean_calls t n

  abbrev pub all_calls : List Tick → ℕ → List (Call codec)
  all_calls [] n = []
  all_calls (t ∷ ticks) n =
      let rest = all_calls ticks (next_tick n) in calls_of t (next_tick n) ++ rest

  perform_all-append :
      (calls more : List (Call codec)) (table : Table)
      → perform_all codec (calls ++ more) table
        ≡ perform_all codec more (perform_all codec calls table)
  perform_all-append [] more table = refl
  perform_all-append (c ∷ calls) more table = perform_all-append calls more (perform codec c table)

  store_sample-calls :
      (t : Tick) (table : Table) → store_sample t table ≡ perform_all codec (store_calls t) table
  unfolding store_sample
  store_sample-calls t table = elim (Bool-cases t.store_panics) [
    | inl p ↦ rw (p, store_sample, store_calls) refl
    | inr p ↦ rw (p, store_sample, store_calls) refl
  ]

  clean-calls :
      (t : Tick) (n : ℕ) (table : Table)
      → clean t n table ≡ perform_all codec (clean_calls t n) table
  unfolding clean
  clean-calls t n table = elim (Bool-cases (n % 300 == 0)) [
    | inr q ↦ rw (q, clean, clean_calls) refl
    | inl q ↦ elim (Bool-cases t.cleanup_panics) [
      | inl p ↦ rw (q, clean, clean_calls, p) refl
      | inr p ↦ rw (q, clean, clean_calls, p) refl
    ]
  ]

  collect_tick-calls_of :
      (t : Tick) (c : Collector)
      → (collect_tick t c).table ≡ perform_all codec (calls_of t (next_tick c.cleanup_tick)) c.table
  unfolding collect_tick
  collect_tick-calls_of t c =
      let n = next_tick c.cleanup_tick in
      ap (clean t n) (store_sample-calls t c.table)
      ∙ clean-calls t n (perform_all codec (store_calls t) c.table)
      ∙ sym (perform_all-append (store_calls t) (clean_calls t n) c.table)

  -- Whatever fails or panics, the collection task does to the table what a list of calls of the
  -- buffer's methods does, a store in each tick and the two cleanups in every 300th.
  pub run_collection-perform_all :
      (ticks : List Tick) (c : Collector)
      → (run_collection ticks c).table ≡ perform_all codec (all_calls ticks c.cleanup_tick) c.table
  unfolding run_collection collect_tick
  run_collection-perform_all [] c = refl
  run_collection-perform_all (t ∷ ticks) c =
      run_collection-perform_all ticks (collect_tick t c)
      ∙ ap (perform_all codec (all_calls ticks (next_tick c.cleanup_tick)))
          (collect_tick-calls_of t c)
      ∙ sym (
          perform_all-append (calls_of t (next_tick c.cleanup_tick))
            (all_calls ticks (next_tick c.cleanup_tick)) c.table)
