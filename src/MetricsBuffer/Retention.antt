-- ===== src/MetricsBuffer/Retention.antt =====
-- What the cleanups of src/metrics_buffer.rs delete, and what they keep.
use nobase_agent.Prelude.{
  ℕ, ◌+◌, ◌≡◌, refl, String, Bool, false, not, List, [], ◌∷◌, ok, arith, length, All, select,
  Bool-cases, inl, inr, Option-cases,
}
use nobase_agent.MetricsBuffer.{Faults, Clock, cleanup, cleanup_sent}
use nobase_agent.MetricsBuffer.Sql.{
  Row, Table, unsent, is_older, is_sent_and_older, delete_rows, deleted_rows,
}

module _ (p : Row → Bool) where
  abbrev keep : Row → Bool
  keep r = not (p r)

  length-select :
      (rows : List Row) → length rows ≡ length (select p rows) + length (select keep rows)
  length-select [] = omega arith
  length-select (r ∷ rows) = ground (arith, length-select rows)

  All-select_self : (rows : List Row) → All (λ r. p r ≡ false) (select keep rows)
  All-select_self [] = tt
  All-select_self (r ∷ rows) = elim (Bool-cases (p r)) [
    | inl e ↦ rw e (All-select_self rows)
    | inr e ↦ rw e (e, All-select_self rows)
  ]

  select-select : (rows : List Row) → select keep (select keep rows) ≡ select keep rows
  select-select [] = refl
  select-select (r ∷ rows) = ground (arith, select-select rows)

unsent-delete_sent :
    (p : Row → Bool)
    → ((r : Row) → r.sent ≡ false → p r ≡ false)
    → (rows : List Row) → unsent (select (λ r. not (p r)) rows) ≡ unsent rows
unsent-delete_sent p h [] = refl
unsent-delete_sent p h (r ∷ rows) = ground (arith, h r, unsent-delete_sent p h rows)

is_sent_and_older_lem :
    (cutoff : String) (r : Row) → r.sent ≡ false → is_sent_and_older cutoff r ≡ false
is_sent_and_older_lem cutoff r e = ground arith

-- A cleanup that reports `n` deletions has taken `n` rows away, has left no row that is older
-- than the cutoff, and has kept every other row in its place.
pub cleanup_lem :
    (f : Faults) (clock : Clock) (hours : ℕ) (t : Table) {n : ℕ}
    → (cleanup f clock hours t).0 ≡ ok n
    → let u = (cleanup f clock hours t).1 in
      let recent = λ (r : Row). not (is_older (clock.hours_ago hours) r) in
      (length t.rows ≡ n + length u.rows)
      × All (λ r. is_older (clock.hours_ago hours) r ≡ false) u.rows
      × (select recent u.rows ≡ select recent t.rows)
unfolding cleanup deleted_rows delete_rows
cleanup_lem f clock hours t h =
    let old = is_older (clock.hours_ago hours) in
    (
      ground (arith, length-select old t.rows),
      elim (Option-cases f.lock) [
        | inr (e, p) ↦ absurd (ground arith)
        | inl p ↦ elim (Option-cases f.sqlite) [
          | inr (e, q) ↦ absurd (ground arith)
          | inl q ↦ rw (p, q) (All-select_self old t.rows)
        ]
      ],
      ground (arith, select-select old t.rows),
    )

-- The cleanup of sent rows, failing or not, keeps every row that is still to be pushed.
pub unsent-cleanup_sent :
    (f : Faults) (clock : Clock) (t : Table)
    → unsent (cleanup_sent f clock t).1.rows ≡ unsent t.rows
unfolding cleanup_sent delete_rows
unsent-cleanup_sent f clock t = ground (
  arith,
  unsent-delete_sent (is_sent_and_older (clock.minutes_ago 5))
      (is_sent_and_older_lem (clock.minutes_ago 5)) t.rows,
)
