-- ===== src/Dispatch/Merged.antt =====
-- The texts of two kinds of task in one channel, and an element taken out of a list: for the sessions of
-- src/connection.rs.
use mathlib.Core.List.{Perm}
use mathlib.Core.List.Perm
use nobase_agent.Prelude.{
  ℕ, zero, suc, ◌≡◌, ap, subst, List, [], ◌∷◌, ◌++◌, some, inl, inr, arith, Option-cases, unwrap_or,
  ◌+◌, length,
}
use nobase_agent.Dispatch.Receive.{pick}

-- The third list holds the elements of the first two, each of them in its order.
pub data Merged {ℓ} {A : Type ℓ} : List A → List A → List A → Type ℓ where
  empty : Merged [] [] []
  left : (x : A) {xs ys zs : List A} → Merged xs ys zs → Merged (x ∷ xs) ys (x ∷ zs)
  right : (y : A) {xs ys zs : List A} → Merged xs ys zs → Merged xs (y ∷ ys) (y ∷ zs)

module _ {ℓ} {A : Type ℓ} where
  pub Merged-append :
      {xs ys zs xs' ys' zs' : List A}
      → Merged xs ys zs
      → Merged xs' ys' zs'
      → Merged (xs ++ xs') (ys ++ ys') (zs ++ zs')
  Merged-append empty n = n
  Merged-append (left x m) n = left x (Merged-append m n)
  Merged-append (right y m) n = right y (Merged-append m n)

  pub Merged-right : (ys : List A) → Merged [] ys ys
  Merged-right [] = empty
  Merged-right (y ∷ ys) = right y (Merged-right ys)

  pub pick-Perm : (n : ℕ) (xs : List A) (p : A × List A) → pick n xs ≡ some p → Perm (p.0 ∷ p.1) xs
  unfolding pick
  pick-Perm n [] p e = absurd (ground (arith, e))
  pick-Perm zero (x ∷ xs) p e =
      subst (λ w. Perm (w.0 ∷ w.1) (x ∷ xs)) (ap (unwrap_or p) e) (Perm.refl (x ∷ xs))
  pick-Perm (suc n) (x ∷ xs) p e = elim (Option-cases (pick n xs)) [
    | inl q ↦ absurd (ground (arith, rw (q, pick) at e))
    | inr (r, q) ↦
        subst (λ w. Perm (w.0 ∷ w.1) (x ∷ xs)) (ap (unwrap_or p) (rw (q, pick) at e))
          (Perm.trans (Perm.swap x r.0 r.1) (Perm.cons x (pick-Perm n xs r q)))
  ]

  pub length-pick :
      (n : ℕ) (xs : List A) (p : A × List A) → pick n xs ≡ some p → length p.1 + 1 ≡ length xs
  unfolding pick
  length-pick n [] p e = absurd (ground (arith, e))
  length-pick zero (x ∷ xs) p e =
      subst (λ w. length w.1 + 1 ≡ length (x ∷ xs)) (ap (unwrap_or p) e) (omega arith)
  length-pick (suc n) (x ∷ xs) p e = elim (Option-cases (pick n xs)) [
    | inl q ↦ absurd (ground (arith, rw (q, pick) at e))
    | inr (r, q) ↦
        subst (λ w. length w.1 + 1 ≡ length (x ∷ xs)) (ap (unwrap_or p) (rw (q, pick) at e))
          (let h = length-pick n xs r q in omega (arith, h))
  ]
