-- ===== src/MetricsBuffer/Valid.antt =====
-- The ids of the table across every method of the buffer in src/metrics_buffer.rs.
use nobase_agent.Prelude.{
  ℕ, ◌≤◌, refl, String, Bool, not, List, [], ◌∷◌, ok, err, arith, ◌>>=◌, inl, inr, Option-cases,
  lift, modify, map_err, Action, Result,
}
use nobase_agent.MetricsBuffer.{
  Codec, Faults, Clock, store, get_unsent, mark_sent, cleanup, cleanup_sent, unsent_count,
  total_count, locked, buffer_error, BufferError,
}
use nobase_agent.MetricsBuffer.Sql.{Row, Table, mark_rows, insert_row, delete_rows}
use nobase_agent.MetricsBuffer.Order.{IsValid, Within-append, Within-select, Within-mark_row}

-- A call of a method, with what fails during it.
pub data Call (codec : Codec) : Type 0 where
  store_call : Faults → String → codec.Payload → Call codec
  get_unsent_call : Faults → ℕ → Call codec
  mark_sent_call : Faults → List ℕ → Call codec
  cleanup_call : Faults → Clock → ℕ → Call codec
  cleanup_sent_call : Faults → Clock → Call codec
  unsent_count_call : Faults → Call codec
  total_count_call : Faults → Call codec

-- The table after a call.
abbrev pub perform : (codec : Codec) → Call codec → Table → Table
perform codec (store_call f timestamp m) t = (store codec f timestamp m t).1
perform codec (get_unsent_call f limit) t = (get_unsent codec f limit t).1
perform codec (mark_sent_call f ids) t = (mark_sent f ids t).1
perform codec (cleanup_call f clock hours) t = (cleanup f clock hours t).1
perform codec (cleanup_sent_call f clock) t = (cleanup_sent f clock t).1
perform codec (unsent_count_call f) t = (unsent_count f t).1
perform codec (total_count_call f) t = (total_count f t).1

abbrev pub perform_all : (codec : Codec) → List (Call codec) → Table → Table
perform_all codec [] t = t
perform_all codec (call ∷ calls) t = perform_all codec calls (perform codec call t)

-- What one statement keeps: the order of the ids, and that ids are not given twice.
record Keeps (t u : Table) : Type 0 where
  valid : IsValid t → IsValid u
  grows : t.next_id ≤ u.next_id

Keeps-refl : (t : Table) → Keeps t t
Keeps-refl t = record { valid = λ w. w; grows = omega arith }

Keeps-insert_row : (timestamp json : String) (t : Table) → Keeps t (insert_row timestamp json t)
unfolding insert_row
Keeps-insert_row timestamp json t = record {
  valid = λ w. Within-append 1 t.rows t.next_id _ refl w;
  grows = omega arith;
}

Keeps-mark_rows : (ids : List ℕ) (t : Table) → Keeps t (mark_rows ids t)
unfolding mark_rows
Keeps-mark_rows ids t = record {
  valid = λ w. Within-mark_row ids 1 t.rows t.next_id w;
  grows = omega arith;
}

Keeps-delete_rows : (p : Row → Bool) (t : Table) → Keeps t (delete_rows p t)
unfolding delete_rows
Keeps-delete_rows p t = record {
  valid = λ w. Within-select (λ r. not (p r)) 1 t.rows t.next_id w;
  grows = omega arith;
}

-- A call that cannot take the lock, or whose statement fails, leaves the table as it was.
Keeps-locked :
    {B : Type 0} (f : Faults) (rest : Unit {0} → Action Table BufferError B) (t : Table)
    → Keeps t (rest tt t).1
    → Keeps t ((locked f >>= rest) t).1
unfolding locked
Keeps-locked f rest t k = elim (Option-cases f.lock) [
  | inr (e, p) ↦ rw p (Keeps-refl t)
  | inl p ↦ elim (Option-cases f.sqlite) [
    | inr (e, q) ↦ rw (p, q) (Keeps-refl t)
    | inl q ↦ rw (p, q) k
  ]
]

Keeps-store :
    (codec : Codec) (f : Faults) (timestamp : String) (r : Result String String) (t : Table)
    → Keeps t
        ((lift (map_err buffer_error r) >>= λ json.
            locked f >>= λ _. modify (insert_row timestamp json))
          t).1
Keeps-store codec f timestamp (ok json) t = Keeps-locked f _ t (Keeps-insert_row timestamp json t)
Keeps-store codec f timestamp (err e) t = Keeps-refl t

module _ (codec : Codec) where
  Keeps-perform : (call : Call codec) (t : Table) → Keeps t (perform codec call t)
  unfolding store get_unsent mark_sent cleanup cleanup_sent unsent_count total_count
  Keeps-perform (store_call f timestamp m) t = Keeps-store codec f timestamp (codec.to_string m) t
  Keeps-perform (get_unsent_call f limit) t = Keeps-locked f _ t (Keeps-refl t)
  Keeps-perform (mark_sent_call f []) t = Keeps-refl t
  Keeps-perform (mark_sent_call f (i ∷ ids)) t = Keeps-locked f _ t (Keeps-mark_rows (i ∷ ids) t)
  Keeps-perform (cleanup_call f clock hours) t = Keeps-locked f _ t (Keeps-delete_rows _ t)
  Keeps-perform (cleanup_sent_call f clock) t = Keeps-locked f _ t (Keeps-delete_rows _ t)
  Keeps-perform (unsent_count_call f) t = Keeps-locked f _ t (Keeps-refl t)
  Keeps-perform (total_count_call f) t = Keeps-locked f _ t (Keeps-refl t)

  -- Whatever methods are called and whatever fails during them, a table whose ids ascend below
  -- `next_id` stays such a table, and `next_id` never falls, so no id is given twice.
  pub perform_all-IsValid :
      (calls : List (Call codec)) (t : Table)
      → IsValid t
      → IsValid (perform_all codec calls t) × (t.next_id ≤ (perform_all codec calls t).next_id)
  perform_all-IsValid [] t w = (w, omega arith)
  perform_all-IsValid (call ∷ calls) t w =
      let k = Keeps-perform call t in
      let rest = perform_all-IsValid calls (perform codec call t) (k.valid w) in
      (rest.0, omega arith)
