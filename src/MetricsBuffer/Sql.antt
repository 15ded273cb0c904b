-- ===== src/MetricsBuffer/Sql.antt =====
-- The table `metrics` of src/metrics_buffer.rs, and its SQL statements as functions.
use Prim.Native.String.{compare}
use text.Mathlib.Text.{is_lt}
use nobase_agent.Prelude.{
  ℕ, ◌+◌, ◌^◌, String, Bool, true, false, not, ◌&&◌, List, [], ◌∷◌, ◌++◌, map, length, take, select,
  ltb, leb, ◌==◌, if◌then◌else◌,
}

-- The column `sent` holds 0 or 1.
pub record Row : Type 0 where
  pub id : ℕ
  pub timestamp : String
  pub metrics_json : String
  pub sent : Bool

-- `AUTOINCREMENT`: `next_id` lies above every id that was ever used.
pub record Table : Type 0 where
  pub rows : List Row
  pub next_id : ℕ

abbrev pub created : Table
created = record { rows = []; next_id = 1 }

abbrev pub is_unsent : Row → Bool
is_unsent r = not r.sent

-- WHERE sent = 0
abbrev pub unsent : List Row → List Row
unsent = select is_unsent

-- WHERE id IN (…)
abbrev pub mem_id : ℕ → List ℕ → Bool
mem_id i [] = false
mem_id i (j ∷ ids) = let rest = mem_id i ids in if i == j then true else rest

-- LIMIT ?1, bound to `limit as i64`: the cast makes a limit from 2 ^ 63 on negative, which is none.
unfoldable pub limit_rows : ℕ → List Row → List Row
limit_rows limit rows = if ltb limit (2 ^ 63) then take limit rows else rows

unfoldable pub insert_by_id : Row → List Row → List Row
insert_by_id r [] = r ∷ []
insert_by_id r (s ∷ rows) = if leb r.id s.id then r ∷ s ∷ rows else s ∷ insert_by_id r rows

-- ORDER BY id ASC
unfoldable pub order_by_id : List Row → List Row
unfolding insert_by_id
order_by_id [] = []
order_by_id (r ∷ rows) = insert_by_id r (order_by_id rows)

-- INSERT INTO metrics (timestamp, metrics_json, sent) VALUES (?1, ?2, 0)
unfoldable pub insert_row : String → String → Table → Table
insert_row timestamp json t = record {
  rows =
      t.rows
      ++ record { id = t.next_id; timestamp = timestamp; metrics_json = json; sent = false } ∷ [];
  next_id = t.next_id + 1;
}

abbrev pub mark_row : List ℕ → Row → Row
mark_row ids r = if mem_id r.id ids then record r { sent = true } else r

-- UPDATE metrics SET sent = 1 WHERE id IN (…)
unfoldable pub mark_rows : List ℕ → Table → Table
mark_rows ids t = record t { rows = map (mark_row ids) t.rows }

-- timestamp < ?1, on texts
abbrev pub is_older : String → Row → Bool
is_older cutoff r = is_lt (compare r.timestamp cutoff)

-- sent = 1 AND timestamp < ?1
abbrev pub is_sent_and_older : String → Row → Bool
is_sent_and_older cutoff r = r.sent && is_lt (compare r.timestamp cutoff)

-- DELETE FROM metrics WHERE …, and the number of rows that it deletes
unfoldable pub delete_rows : (Row → Bool) → Table → Table
delete_rows p t = record t { rows = select (λ r. not (p r)) t.rows }

unfoldable pub deleted_rows : (Row → Bool) → Table → ℕ
deleted_rows p t = length (select p t.rows)
