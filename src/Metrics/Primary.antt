-- ===== src/Metrics/Primary.antt =====
-- The interface that the metrics name, src/handlers/metrics.rs (`build_metrics`).
use nobase_agent.Prelude.{
  true, ℕ, ◌≤◌, ◌<◌, String, ◌≡◌, refl, ◌∙◌, sym, false, List, [], ◌∷◌, arith, Bool-cases, inl, inr,
  ◌⊎◌, All, ltb,
}
use nobase_agent.Docker.Stats.{add_u64}
use nobase_agent.Metrics.{
  Interface, Traffic, no_traffic, is_virtual, add_interface, fold_interfaces,
}

abbrev pub traffic_of : Interface → ℕ
traffic_of i = add_u64 i.received i.transmitted

-- No interface that counts has more traffic.
abbrev pub Covers : ℕ → Interface → Type 0
Covers most i = (is_virtual i.name ≡ true) ⊎ (traffic_of i ≤ most)

-- An interface that counts has less traffic.
abbrev pub Below : ℕ → Interface → Type 0
Below most i = (is_virtual i.name ≡ true) ⊎ (traffic_of i < most)

-- The first interface of the list that counts and has the traffic, more than any before it, is this one.
abbrev pub First : String → ℕ → List Interface → Type 0
First name most [] = ⊥
First name most (i ∷ interfaces) =
    ((is_virtual i.name ≡ false) × (i.name ≡ name) × (traffic_of i ≡ most))
    ⊎ (Below most i × First name most interfaces)

Below-Covers : (less most : ℕ) (i : Interface) → Covers less i → less < most → Below most i
Below-Covers less most i (inl v) h = inl v
Below-Covers less most i (inr d) h = inr (omega (arith, d, h))

-- What a turn does to the most traffic.
turn_lem :
    (i : Interface) (t : Traffic)
    → Covers (add_interface i t).max_traffic i
      × ((((add_interface i t).primary ≡ t.primary)
            × ((add_interface i t).max_traffic ≡ t.max_traffic))
          ⊎ ((t.max_traffic < (add_interface i t).max_traffic)
              × (is_virtual i.name ≡ false)
              × (i.name ≡ (add_interface i t).primary)
              × (traffic_of i ≡ (add_interface i t).max_traffic)))
unfolding add_interface
turn_lem i t = elim (Bool-cases (is_virtual i.name)) [
  | inl p ↦ rw (p, add_interface) (inl refl, inl (refl, refl))
  | inr p ↦ elim (Bool-cases (ltb t.max_traffic (traffic_of i))) [
    | inl q ↦
        rw (p, add_interface, q) (inr (omega arith), inr (ground (arith, q), refl, refl, refl))
    | inr q ↦ rw (p, add_interface, q) (inr (ground (arith, q)), inl (refl, refl))
  ]
]

fold_lem :
    (interfaces : List Interface) (t : Traffic)
    → let u = fold_interfaces interfaces t in
      (t.max_traffic ≤ u.max_traffic)
      × All (Covers u.max_traffic) interfaces
      × (((u.primary ≡ t.primary) × (u.max_traffic ≡ t.max_traffic))
          ⊎ ((t.max_traffic < u.max_traffic) × First u.primary u.max_traffic interfaces))
unfolding fold_interfaces
fold_lem [] t = (omega arith, tt, inl (refl, refl))
fold_lem (i ∷ interfaces) t =
    let u = fold_interfaces interfaces (add_interface i t) in
    let (c, k) = turn_lem i t in
    let (b, all, h) = fold_lem interfaces (add_interface i t) in
    let grows : t.max_traffic ≤ (add_interface i t).max_traffic = elim k [
      | inl (q, n) ↦ omega (arith, n)
      | inr (lt, v, q, n) ↦ omega (arith, lt)
    ] in
    (
      omega (arith, grows, b),
      (elim c [ inl v ↦ inl v | inr d ↦ inr (omega (arith, b, d)) ], all),
      elim h [
        | inr (lt, x) ↦ inr (omega (arith, grows, lt), inr (Below-Covers _ u.max_traffic i c lt, x))
        | inl (p, m) ↦ elim k [
          | inl (q, n) ↦ inl (p ∙ q, m ∙ n)
          | inr (lt, v, q, n) ↦ inr (omega (arith, lt, m), inl (v, q ∙ sym p, n ∙ sym m))
        ]
      ],
    )

-- The interface that is named is the first of those that have the most traffic of all that count, which
-- loopback, containers and bridges do not, and has some; where none of them has traffic, none is named.
pub fold_interfaces_lem :
    (interfaces : List Interface)
    → let t = fold_interfaces interfaces no_traffic in
      All (Covers t.max_traffic) interfaces
      × (((t.primary ≡ "") × (t.max_traffic ≡ 0))
          ⊎ ((0 < t.max_traffic) × First t.primary t.max_traffic interfaces))
fold_interfaces_lem interfaces = let (a, b, c) = fold_lem interfaces no_traffic in (b, c)
