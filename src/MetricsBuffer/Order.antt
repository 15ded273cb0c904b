-- ===== src/MetricsBuffer/Order.antt =====
-- Tables whose rows ascend by id, for `ORDER BY id` in src/metrics_buffer.rs.
use nobase_agent.Prelude.{
  ℕ, ◌+◌, ◌≤◌, ◌≡◌, refl, Bool, inl, inr, List, [], ◌∷◌, ◌++◌, map, arith, select, Bool-cases,
}
use nobase_agent.MetricsBuffer.Sql.{Row, Table, order_by_id, insert_by_id, mark_row}

-- The ids ascend, from `lo` on and below `hi`.
abbrev pub Within : ℕ → List Row → ℕ → Type 0
Within lo [] hi = lo ≤ hi
Within lo (r ∷ rows) hi = (lo ≤ r.id) × Within (r.id + 1) rows hi

-- The ids are distinct, ascend in the order of the rows, and lie below the next one.
abbrev pub IsValid : Table → Type 0
IsValid t = Within 1 t.rows t.next_id

pub Within-le : (lo : ℕ) (rows : List Row) (hi : ℕ) → Within lo rows hi → lo ≤ hi
Within-le lo [] hi w = w
Within-le lo (r ∷ rows) hi w = omega (arith, Within-le (r.id + 1) rows hi w.1)

pub Within-weaken :
    (lo lo' : ℕ) (rows : List Row) (hi : ℕ) → lo' ≤ lo → Within lo rows hi → Within lo' rows hi
Within-weaken lo lo' [] hi h w = omega arith
Within-weaken lo lo' (r ∷ rows) hi h w = (omega arith, w.1)

pub Within-append :
    (lo : ℕ) (rows : List Row) (hi : ℕ) (r : Row)
    → r.id ≡ hi
    → Within lo rows hi
    → Within lo (rows ++ r ∷ []) (hi + 1)
Within-append lo [] hi r e w = omega arith
Within-append lo (s ∷ rows) hi r e w = (w.0, Within-append (s.id + 1) rows hi r e w.1)

pub Within-select :
    (p : Row → Bool) (lo : ℕ) (rows : List Row) (hi : ℕ)
    → Within lo rows hi
    → Within lo (select p rows) hi
Within-select p lo [] hi w = w
Within-select p lo (r ∷ rows) hi w = elim (Bool-cases (p r)) [
  | inl keep ↦ rw keep (w.0, Within-select p (r.id + 1) rows hi w.1)
  | inr drop ↦ rw drop (
      Within-weaken (r.id + 1) lo (select p rows) hi (omega arith)
        (Within-select p (r.id + 1) rows hi w.1))
]

id-mark_row : (ids : List ℕ) (r : Row) → (mark_row ids r).id ≡ r.id
id-mark_row ids r = ground arith

pub Within-mark_row :
    (ids : List ℕ) (lo : ℕ) (rows : List Row) (hi : ℕ)
    → Within lo rows hi
    → Within lo (map (mark_row ids) rows) hi
Within-mark_row ids lo [] hi w = w
Within-mark_row ids lo (r ∷ rows) hi w =
    rw (id-mark_row ids r) (w.0, Within-mark_row ids (r.id + 1) rows hi w.1)

insert_by_id_least :
    (r : Row) (rows : List Row) (hi : ℕ)
    → Within (r.id + 1) rows hi
    → insert_by_id r rows ≡ r ∷ rows
unfolding insert_by_id
insert_by_id_least r [] hi w = refl
insert_by_id_least r (s ∷ rows) hi w = ground arith

-- Where the rows ascend already, sorting them changes nothing.
pub order_by_id-Within :
    (lo : ℕ) (rows : List Row) (hi : ℕ) → Within lo rows hi → order_by_id rows ≡ rows
unfolding order_by_id
order_by_id-Within lo [] hi w = refl
order_by_id-Within lo (r ∷ rows) hi w =
    rw (order_by_id-Within (r.id + 1) rows hi w.1) (insert_by_id_least r rows hi w.1)
