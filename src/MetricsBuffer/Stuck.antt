-- ===== src/MetricsBuffer/Stuck.antt =====
-- A fetch of src/metrics_buffer.rs that finds only texts that do not parse.
use nobase_agent.Prelude.{
  ℕ, zero, suc, ◌^◌, ◌≤◌, ◌<◌, ◌≡◌, refl, String, inl, inr, List, [], ◌∷◌, ◌++◌, Result, ok, err,
  arith, length, take, All, length-append, select-append, Option-cases,
}
use nobase_agent.MetricsBuffer.{Codec, Faults, decode, store}
use nobase_agent.MetricsBuffer.Sql.{Row, Table, is_unsent, unsent, insert_row}
use nobase_agent.MetricsBuffer.Drain.{fetched, fetched_small, new_row}

-- The text of the row does not parse.
abbrev pub IsCorrupt : Codec → Row → Type 0
IsCorrupt codec r = (e : String) × (codec.from_str r.metrics_json ≡ err e)

decode_corrupt :
    (codec : Codec) (rows : List Row) → All (IsCorrupt codec) rows → decode codec rows ≡ []
unfolding decode
decode_corrupt codec [] h = refl
decode_corrupt codec (r ∷ rows) h =
    let (e, p) = h.0 in rw (p, decode) (decode_corrupt codec rows h.1)

-- A fetch of `limit` rows meets texts that do not parse only, and as many of them as it may return.
pub record IsStuck (codec : Codec) (limit : ℕ) (t : Table) : Type 0 where
  pub full : limit ≤ length (unsent t.rows)
  pub corrupt : All (IsCorrupt codec) (take limit (unsent t.rows))

pub IsStuck-nil :
    (codec : Codec) (limit : ℕ) (t : Table)
    → limit < 2 ^ 63
    → IsStuck codec limit t
    → decode codec (fetched limit t) ≡ []
IsStuck-nil codec limit t small stuck =
    rw (fetched_small limit t small) (decode_corrupt codec _ stuck.corrupt)

take-append_left {ℓ} :
    {A : Type ℓ} (n : ℕ) (xs ys : List A) → n ≤ length xs → take n (xs ++ ys) ≡ take n xs
take-append_left zero xs ys h = refl
take-append_left (suc n) [] ys h = elim h [ ]
take-append_left (suc n) (x ∷ xs) ys h = rw (take-append_left n xs ys (omega arith))

IsStuck-insert_row :
    (codec : Codec) (limit : ℕ) (timestamp json : String) (t : Table)
    → IsStuck codec limit t
    → IsStuck codec limit (insert_row timestamp json t)
unfolding insert_row
IsStuck-insert_row codec limit timestamp json t stuck =
    let more = new_row timestamp json t ∷ [] in
    record {
      full =
          rw (select-append is_unsent t.rows more)
            (omega (arith, stuck.full, length-append (unsent t.rows) more));
      corrupt =
          rw
            (
              select-append is_unsent t.rows more,
              take-append_left limit (unsent t.rows) more stuck.full,
            )
            stuck.corrupt;
    }

-- Storing a sample, whatever fails, does not help.
pub IsStuck-store :
    (codec : Codec) (limit : ℕ) (f : Faults) (timestamp : String) (metrics : codec.Payload)
    (t : Table)
    → IsStuck codec limit t
    → IsStuck codec limit (store codec f timestamp metrics t).1
unfolding store
IsStuck-store codec limit f timestamp metrics t stuck = go (codec.to_string metrics) refl
  where
    go :
        (r : Result String String)
        → codec.to_string metrics ≡ r
        → IsStuck codec limit (store codec f timestamp metrics t).1
    go (err e) p = rw p stuck
    go (ok json) p = elim (Option-cases f.lock) [
      | inr (e, q) ↦ rw (p, q) stuck
      | inl q ↦ elim (Option-cases f.sqlite) [
        | inr (e, q') ↦ rw (p, q, q') stuck
        | inl q' ↦ rw (p, q, q') (IsStuck-insert_row codec limit timestamp json t stuck)
      ]
    ]
