-- ===== src/MetricsBuffer/Drain.antt =====
-- The buffer of src/metrics_buffer.rs as a queue: samples are stored at the end, fetched from the
-- front, and leave it when they are marked.
use nobase_agent.Prelude.{
  ◌≤◌, ℕ, zero, suc, ◌+◌, ◌^◌, ◌≤◌, ◌<◌, ◌≡◌, refl, String, Bool, false, inl, inr, List, [], ◌∷◌,
  ◌++◌, map, ok, arith, length, take, All, drop, select, length-append, take_all, select-append,
  Bool-cases,
}
use nobase_agent.MetricsBuffer.{
  Codec, BufferedMetric, no_faults, decode, store, get_unsent, mark_sent,
}
use nobase_agent.MetricsBuffer.Sql.{
  Row, Table, is_unsent, unsent, mem_id, mark_row, mark_rows, limit_rows, insert_row,
}
use nobase_agent.MetricsBuffer.Order.{
  IsValid, Within, Within-append, Within-select, order_by_id-Within,
}

-- The rows that the next fetch of at most `limit` returns, if their texts parse.
unfoldable pub fetched : ℕ → Table → List Row
fetched limit t = limit_rows limit (unsent t.rows)

module _ (codec : Codec) where
  pub get_unsent-fetched :
      (limit : ℕ) (t : Table)
      → IsValid t
      → get_unsent codec no_faults limit t ≡ (ok (decode codec (fetched limit t)), t)
  unfolding get_unsent fetched
  get_unsent-fetched limit t w =
      rw (order_by_id-Within 1 (unsent t.rows) t.next_id (Within-select _ 1 t.rows t.next_id w))

  pub decode-append :
      (xs ys : List Row) → decode codec (xs ++ ys) ≡ decode codec xs ++ decode codec ys
  unfolding decode
  decode-append [] ys = refl
  decode-append (r ∷ xs) ys = ground (arith, decode-append xs ys)

pub fetched_small :
    (limit : ℕ) (t : Table) → limit < 2 ^ 63 → fetched limit t ≡ take limit (unsent t.rows)
unfolding fetched limit_rows
fetched_small limit t h = ground arith

limit_rows_all : (limit : ℕ) (rows : List Row) → length rows ≤ limit → limit_rows limit rows ≡ rows
unfolding limit_rows
limit_rows_all limit rows h = ground (arith, take_all limit rows)

abbrev pub new_row : String → String → Table → Row
new_row timestamp json t = record {
  id = t.next_id;
  timestamp = timestamp;
  metrics_json = json;
  sent = false;
}

insert_row-IsValid :
    (timestamp json : String) (t : Table) → IsValid t → IsValid (insert_row timestamp json t)
unfolding insert_row
insert_row-IsValid timestamp json t w = Within-append 1 t.rows t.next_id _ refl w

fetched-insert_row :
    (limit : ℕ) (timestamp json : String) (t : Table)
    → length (unsent t.rows) < limit
    → fetched limit (insert_row timestamp json t) ≡ unsent t.rows ++ new_row timestamp json t ∷ []
unfolding fetched insert_row
fetched-insert_row limit timestamp json t room = rw (
  select-append,
  limit_rows_all limit (unsent t.rows ++ new_row timestamp json t ∷ [])
      (omega (arith, length-append (unsent t.rows) (new_row timestamp json t ∷ []))),
)

mem_id-below :
    (i lo : ℕ) (rows : List Row) (hi : ℕ)
    → i < lo
    → Within lo rows hi
    → mem_id i (map (λ r. r.id) rows) ≡ false
mem_id-below i lo [] hi h w = refl
mem_id-below i lo (r ∷ rows) hi h w = ground (arith, mem_id-below i (r.id + 1) rows hi)

mark_row-skip :
    (r : Row) (ids : List ℕ) (lo : ℕ) (rows : List Row) (hi : ℕ)
    → r.id < lo
    → Within lo rows hi
    → map (mark_row (r.id ∷ ids)) rows ≡ map (mark_row ids) rows
mark_row-skip r ids lo [] hi h w = refl
mark_row-skip r ids lo (s ∷ rows) hi h w = ground (arith, mark_row-skip r ids (s.id + 1) rows hi)

-- Marking the ids of the first `k` unsent rows leaves the unsent rows after those.
unsent-mark_take :
    (k lo : ℕ) (rows : List Row) (hi : ℕ)
    → Within lo rows hi
    → unsent (map (mark_row (map (λ r. r.id) (take k (unsent rows)))) rows) ≡ drop k (unsent rows)
unsent-mark_take zero lo [] hi w = refl
unsent-mark_take (suc k) lo [] hi w = refl
unsent-mark_take zero lo (r ∷ rows) hi w =
    ground (arith, unsent-mark_take zero (r.id + 1) rows hi w.1)
unsent-mark_take (suc k) lo (r ∷ rows) hi w = ground (
  arith,
  unsent-mark_take k (r.id + 1) rows hi w.1,
  unsent-mark_take (suc k) (r.id + 1) rows hi w.1,
  mark_row-skip r (map (λ s. s.id) (take k (unsent rows))) (r.id + 1) rows hi,
)

-- The text of the row parses.
abbrev pub Parses : Codec → Row → Type 0
Parses codec r = (metrics : codec.Payload) × (codec.from_str r.metrics_json ≡ ok metrics)

All-take {ℓ} : (P : Row → Type ℓ) (k : ℕ) (rows : List Row) → All P rows → All P (take k rows)
All-take P zero rows h = tt
All-take P (suc k) [] h = tt
All-take P (suc k) (r ∷ rows) h = (h.0, All-take P k rows h.1)

All-select {ℓ} :
    (P : Row → Type ℓ) (p : Row → Bool) (rows : List Row) → All P rows → All P (select p rows)
All-select P p [] h = tt
All-select P p (r ∷ rows) h = elim (Bool-cases (p r)) [
  | inl e ↦ rw e (h.0, All-select P p rows h.1)
  | inr e ↦ rw e (All-select P p rows h.1)
]

pub Parses-unsent :
    (codec : Codec) (rows : List Row) → All (Parses codec) rows → All (Parses codec) (unsent rows)
Parses-unsent codec rows = All-select (Parses codec) is_unsent rows

map-mark_row-nil : (rows : List Row) → map (mark_row []) rows ≡ rows
map-mark_row-nil [] = refl
map-mark_row-nil (r ∷ rows) = rw (map-mark_row-nil rows)

mark_sent-mark_rows : (ids : List ℕ) (t : Table) → (mark_sent no_faults ids t).1 ≡ mark_rows ids t
unfolding mark_sent mark_rows
mark_sent-mark_rows [] t = rw (map-mark_row-nil t.rows)
mark_sent-mark_rows (i ∷ ids) t = refl

json-mark_row : (ids : List ℕ) (r : Row) → (mark_row ids r).metrics_json ≡ r.metrics_json
json-mark_row ids r = ground arith

-- Marking changes no text.
All-Parses-mark_rows :
    (codec : Codec) (ids : List ℕ) (rows : List Row)
    → All (Parses codec) rows
    → All (Parses codec) (map (mark_row ids) rows)
All-Parses-mark_rows codec ids [] h = tt
All-Parses-mark_rows codec ids (r ∷ rows) h =
    (rw (json-mark_row ids r) h.0, All-Parses-mark_rows codec ids rows h.1)

pub mark_sent-Parses :
    (codec : Codec) (ids : List ℕ) (t : Table)
    → All (Parses codec) t.rows
    → All (Parses codec) (mark_sent no_faults ids t).1.rows
mark_sent-Parses codec ids t h =
    rw (mark_sent-mark_rows ids t) (unfold mark_rows in All-Parses-mark_rows codec ids t.rows h)

module _ (codec : Codec) where
  abbrev pub ids : List (BufferedMetric codec) → List ℕ
  ids = map (λ m. m.id)

  ids-decode :
      (rows : List Row) → All (Parses codec) rows → ids (decode codec rows) ≡ map (λ r. r.id) rows
  unfolding decode
  ids-decode [] h = refl
  ids-decode (r ∷ rows) h = ground (arith, ids-decode rows h.1)

  store-insert_row :
      (timestamp json : String) (metrics : codec.Payload) (t : Table)
      → codec.to_string metrics ≡ ok json
      → (store codec no_faults timestamp metrics t).1 ≡ insert_row timestamp json t
  unfolding store
  store-insert_row timestamp json metrics t printed = rw printed

  decode_one :
      (timestamp json : String) (metrics : codec.Payload) (t : Table)
      → codec.from_str json ≡ ok metrics
      → decode codec (new_row timestamp json t ∷ [])
        ≡ (record { id = t.next_id; timestamp = timestamp; metrics = metrics }) ∷ []
  unfolding decode
  decode_one timestamp json metrics t parsed = rw (parsed, decode)

  -- A sample that is stored comes back as the last of a fetch that has room for all, behind
  -- those that were unsent before, and with the id that was next.
  pub get_unsent-store :
      (limit : ℕ) (timestamp json : String) (metrics : codec.Payload) (t : Table)
      → IsValid t
      → codec.to_string metrics ≡ ok json
      → codec.from_str json ≡ ok metrics
      → length (unsent t.rows) < limit
      → (get_unsent codec no_faults limit (store codec no_faults timestamp metrics t).1).0
        ≡ ok (
            decode codec (unsent t.rows)
            ++ (record { id = t.next_id; timestamp = timestamp; metrics = metrics }) ∷ [])
  get_unsent-store limit timestamp json metrics t w printed parsed room = rw (
    store-insert_row timestamp json metrics t printed,
    get_unsent-fetched codec limit _ (insert_row-IsValid timestamp json t w),
    fetched-insert_row limit timestamp json t room,
    decode-append,
    decode_one timestamp json metrics t parsed,
  )

  -- Where the texts parse, marking the ids of a fetched batch leaves unsent exactly the rows
  -- behind that batch, in order.
  pub mark_sent-fetched :
      (limit : ℕ) (t : Table)
      → IsValid t
      → All (Parses codec) t.rows
      → limit < 2 ^ 63
      → unsent (mark_sent no_faults (ids (decode codec (fetched limit t))) t).1.rows
        ≡ drop limit (unsent t.rows)
  mark_sent-fetched limit t w parse h =
      rw
        (
          fetched_small limit t h,
          ids-decode _ (All-take _ limit _ (All-select (Parses codec) is_unsent t.rows parse)),
          mark_sent-mark_rows,
        )
        (unfold mark_rows in unsent-mark_take limit 1 t.rows t.next_id w)
