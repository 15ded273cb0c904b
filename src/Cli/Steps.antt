-- ===== src/Cli/Steps.antt =====
-- Lists of paths from which some are removed, and actions that only remove, src/main.rs (`uninstall`).
use nobase_agent.Prelude.{
  String, ◌≡◌, refl, ◌∙◌, ap, true, false, not, List, [], ◌∷◌, ok, inl, inr, arith, if◌then◌else◌,
  ◌==ₛ◌, select, Action, ◌>>◌, Bool-cases, Result-cases, eq_iff,
}
use nobase_agent.Cli.{Installed, exists}

pub removed_gone :
    (path : String) (paths : List String)
    → exists path (select (λ p. not (p ==ₛ path)) paths) ≡ false
unfolding exists
removed_gone path [] = refl
removed_gone path (p ∷ paths) = elim (Bool-cases (p ==ₛ path)) [
  | inl e ↦ rw e (removed_gone path paths)
  | inr e ↦ rw (e, exists, e) (removed_gone path paths)
]

pub removed_shrinks :
    (path other : String) (paths : List String)
    → exists path paths ≡ false
    → exists path (select (λ p. not (p ==ₛ other)) paths) ≡ false
unfolding exists
removed_shrinks path other [] h = refl
removed_shrinks path other (p ∷ paths) h = elim (Bool-cases (p ==ₛ path)) [
  | inl e ↦ absurd (ground (arith, rw (e, exists) at h))
  | inr e ↦
      let h' = rw (e, exists) at h in
      elim (Bool-cases (p ==ₛ other)) [
        | inl q ↦ rw q (removed_shrinks path other paths h')
        | inr q ↦ rw (q, exists, e) (removed_shrinks path other paths h')
      ]
]

pub removed_other :
    (path other : String) (paths : List String)
    → (other ==ₛ path) ≡ false
    → exists path (select (λ p. not (p ==ₛ other)) paths) ≡ exists path paths
unfolding exists
removed_other path other [] h = refl
removed_other path other (p ∷ paths) h = elim (Bool-cases (p ==ₛ other)) [
  | inr q ↦
      rw (q, exists) (ap (λ b. if p ==ₛ path then true else b) (removed_other path other paths h))
  | inl q ↦
      let e : (p ==ₛ path) ≡ false = ap (λ x. x ==ₛ path) ((eq_iff p other).0 q) ∙ h in
      rw (q, e, exists) (removed_other path other paths h)
]

-- An action that adds no path, one that leaves a path as it is, and one after whose success a path is
-- gone.
abbrev pub Step : Type 0
Step = Action Installed String (Unit {0})

abbrev pub Shrinks : String → Step → Type 0
Shrinks path m = (s : Installed) → exists path s.paths ≡ false → exists path (m s).1.paths ≡ false

abbrev pub Keeps : String → Step → Type 0
Keeps path m = (s : Installed) → exists path (m s).1.paths ≡ exists path s.paths

abbrev pub Gone : String → Step → Type 0
Gone path m = (s : Installed) → (m s).0 ≡ ok tt → exists path (m s).1.paths ≡ false

pub Shrinks-then :
    (path : String) (m n : Step) → Shrinks path m → Shrinks path n → Shrinks path (m >> n)
Shrinks-then path m n a b s h = elim (Result-cases (m s).0) [
  | inl (u, p) ↦ rw p (b (m s).1 (a s h))
  | inr (e, p) ↦ rw p (a s h)
]

pub Keeps-then : (path : String) (m n : Step) → Keeps path m → Keeps path n → Keeps path (m >> n)
Keeps-then path m n a b s = elim (Result-cases (m s).0) [
  | inl (u, p) ↦ rw p (b (m s).1 ∙ a s)
  | inr (e, p) ↦ rw p (a s)
]

pub Gone-then : (path : String) (m n : Step) → Gone path m → Shrinks path n → Gone path (m >> n)
Gone-then path m n a b s h = elim (Result-cases (m s).0) [
  | inl (tt, p) ↦ rw p (b (m s).1 (a s p))
  | inr (e, p) ↦ absurd (ground (arith, rw p at h))
]

pub then-Gone : (path : String) (m n : Step) → Gone path n → Gone path (m >> n)
then-Gone path m n b s h = elim (Result-cases (m s).0) [
  | inl (u, p) ↦ rw p (b (m s).1 (rw p at h))
  | inr (e, p) ↦ absurd (ground (arith, rw p at h))
]
