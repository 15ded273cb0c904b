-- ===== src/MetricsBuffer/Tests.antt =====
-- Runs of the buffer of src/metrics_buffer.rs, and the theorems at concrete tables.
use nobase_agent.Prelude.{
  ℕ, ◌+◌, ◌≤◌, String, ◌≡◌, refl, Bool, true, false, none, some, List, [], ◌∷◌, ◌++◌, ok, arith,
  length, select, not, All,
}
use nobase_agent.MetricsBuffer.{
  no_faults, store, get_unsent, mark_sent, cleanup, cleanup_sent, buffer_error, decode,
}
use nobase_agent.MetricsBuffer.Sql.{
  Row, Table, unsent, is_older, limit_rows, order_by_id, insert_row, mark_rows, delete_rows,
  deleted_rows,
}
use nobase_agent.MetricsBuffer.Order.{IsValid}
use nobase_agent.MetricsBuffer.Valid.{
  Call, store_call, mark_sent_call, cleanup_call, perform_all, perform_all-IsValid,
}
use nobase_agent.MetricsBuffer.Drain.{ids, fetched, get_unsent-store, mark_sent-fetched}
use nobase_agent.MetricsBuffer.Retention.{cleanup_lem, unsent-cleanup_sent}
use nobase_agent.MetricsBuffer.Collection.{Tick, run_collection, collect_tick, store_sample, clean}
use nobase_agent.Samples.{codec, clock}

abbrev row : ℕ → String → String → Row
row id timestamp text = record { id = id; timestamp = timestamp; metrics_json = text; sent = false }

abbrev three : Table
three = record {
  rows = row 1 "2025-12-31" "a" ∷ row 2 "2026-01-01" "b" ∷ row 4 "2026-01-02" "c" ∷ [];
  next_id = 5;
}

abbrev calls : List (Call codec)
calls =
    store_call no_faults "2026-01-03" "d"
    ∷ mark_sent_call no_faults (1 ∷ 2 ∷ [])
    ∷ store_call (record { lock = none; sqlite = some (buffer_error "disk full") }) "2026-01-03" "e"
    ∷ cleanup_call no_faults clock 24
    ∷ []

-- The third call fails, and the cleanup takes the oldest row.
perform_all_run : perform_all codec calls three ≡ record {
  rows =
      record { id = 2; timestamp = "2026-01-01"; metrics_json = "b"; sent = true }
      ∷ row 4 "2026-01-02" "c"
      ∷ row 5 "2026-01-03" "d"
      ∷ [];
  next_id = 6;
}
unfolding store mark_sent cleanup insert_row mark_rows delete_rows deleted_rows
perform_all_run = refl

perform_all-IsValid_example :
    IsValid (perform_all codec calls three) × (5 ≤ (perform_all codec calls three).next_id)
perform_all-IsValid_example = perform_all-IsValid codec calls three (omega arith)

get_unsent_run :
    (get_unsent codec no_faults 2 three).0
    ≡ ok (
        record { id = 1; timestamp = "2025-12-31"; metrics = "a" }
        ∷ record { id = 2; timestamp = "2026-01-01"; metrics = "b" }
        ∷ [])
unfolding get_unsent limit_rows order_by_id decode
get_unsent_run = refl

get_unsent-store_example :
    (get_unsent codec no_faults 9 (store codec no_faults "2026-01-03" "d" three).1).0
    ≡ ok (
        decode codec (unsent three.rows)
        ++ record { id = 5; timestamp = "2026-01-03"; metrics = "d" } ∷ [])
get_unsent-store_example =
    get_unsent-store codec 9 "2026-01-03" "d" "d" three (omega arith) refl refl (omega arith)

mark_sent-fetched_example :
    unsent (mark_sent no_faults (ids codec (decode codec (fetched 2 three))) three).1.rows
    ≡ row 4 "2026-01-02" "c" ∷ []
mark_sent-fetched_example =
    mark_sent-fetched codec 2 three (omega arith) (("a", refl), (("b", refl), (("c", refl), tt)))
      (omega arith)

cleanup_lem_example :
    let u = (cleanup no_faults clock 24 three).1 in
    let recent = λ (r : Row). not (is_older "2026-01-01" r) in
    (3 ≡ 1 + length u.rows)
    × All (λ r. is_older "2026-01-01" r ≡ false) u.rows
    × (select recent u.rows ≡ select recent three.rows)
unfolding cleanup deleted_rows delete_rows
cleanup_lem_example = cleanup_lem no_faults clock 24 three {n = 1} refl

unsent-cleanup_sent_example : unsent (cleanup_sent no_faults clock three).1.rows ≡ unsent three.rows
unsent-cleanup_sent_example = unsent-cleanup_sent no_faults clock three

abbrev tick : String → Bool → Tick codec 24
tick text panics = record {
  timestamp = "2026-01-03";
  metrics = text;
  store_faults = no_faults;
  cleanup_faults = no_faults;
  sent_faults = no_faults;
  clock = clock;
  store_panics = panics;
  cleanup_panics = false;
}

-- The ticks 299 to 301, of which the second one panics and cleans up.
collect_run :
    run_collection codec 24
      (tick "d" false ∷ tick "e" true ∷ tick "f" false ∷ [])
      (record { table = three; cleanup_tick = 298 })
    ≡ record {
      table = record {
        rows =
            row 2 "2026-01-01" "b"
            ∷ row 4 "2026-01-02" "c"
            ∷ row 5 "2026-01-03" "d"
            ∷ row 6 "2026-01-03" "f"
            ∷ [];
        next_id = 7;
      };
      cleanup_tick = 301;
    }
unfolding run_collection collect_tick store_sample clean store cleanup cleanup_sent insert_row
    delete_rows deleted_rows
collect_run = refl
