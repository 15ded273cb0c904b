-- ===== src/Listing/Mode.antt =====
-- The permission text of a mode, src/handlers/fs.rs (`mode_to_string`), read back.
use Prim.Native.Char.{Char, code}
use Prim.Native.String.append
use nobase_agent.Prelude.{
  ℕ, ◌+◌, ◌*◌, ◌/◌, ◌%◌, ◌<◌, String, ◌<>◌, ◌≡◌, refl, ◌∙◌, ap, Bool, true, false, ◌==◌,
  if◌then◌else◌, arith, Bool-cases, inl, inr,
}
use nobase_agent.Listing.{has_bit, flag, type_letter, mode_to_string}

-- The number of the flags, from a weight on, which is halved at each flag.
abbrev pub read_flags : ℕ → String → ℕ
read_flags w String.[] = 0
read_flags w (String.◌∷◌ c s) = (if code c == b'-' then 0 else w) + read_flags (w / 2) s

-- The number of the nine flags behind the type.
abbrev pub read_mode : String → ℕ
read_mode String.[] = 0
read_mode (String.◌∷◌ c s) = read_flags 256 s

read_flags-flag :
    (w : ℕ) (c : Char) (b : Bool) (s : String)
    → (code c == b'-') ≡ false
    → read_flags w (flag (String.◌∷◌ c "") b <> s) ≡ (if b then w else 0) + read_flags (w / 2) s
read_flags-flag w c true s letter = rw (append.cons, append.nil, letter) refl
read_flags-flag w c false s letter = rw (append.cons, append.nil) refl

read_mode-type_letter :
    (mode : ℕ) (s : String) → read_mode (type_letter mode <> s) ≡ read_flags 256 s
read_mode-type_letter mode s = elim (Bool-cases (mode / 4096 % 16 == 4)) [
  | inl p ↦ rw (p, append.cons, append.nil) refl
  | inr p ↦ elim (Bool-cases (mode / 4096 % 16 == 10)) [
    | inl q ↦ rw (p, q, append.cons, append.nil) refl
    | inr q ↦ rw (p, q, append.cons, append.nil) refl
  ]
]

bit_value : (v bit : ℕ) → v < 2 → (if v == 1 then bit else 0) ≡ v * bit
bit_value v bit small = elim (Bool-cases (v == 1)) [
  | inl p ↦ let one : v ≡ 1 = ground arith in rw (p, one) (omega arith)
  | inr p ↦ let none : v ≡ 0 = ground arith in rw (p, none) (omega arith)
]

read_flags-last :
    (w : ℕ) (c : Char) (b : Bool)
    → (code c == b'-') ≡ false
    → read_flags w (flag (String.◌∷◌ c "") b) ≡ (if b then w else 0)
read_flags-last w c true letter = rw letter (omega arith)
read_flags-last w c false letter = refl

-- The flags behind one of weight `w` give `r`, and it its value.
step :
    (w : ℕ) (c : Char) (mode : ℕ) (s : String) (r : ℕ)
    → (code c == b'-') ≡ false
    → read_flags (w / 2) s ≡ r
    → read_flags w (flag (String.◌∷◌ c "") (has_bit mode w) <> s) ≡ mode / w % 2 * w + r
step w c mode s r letter rest =
    read_flags-flag w c (has_bit mode w) s letter
    ∙ (rw rest (ap (λ x. x + r) (bit_value (mode / w % 2) w (omega arith))))

last_step :
    (c : Char) (mode : ℕ)
    → (code c == b'-') ≡ false
    → read_flags 1 (flag (String.◌∷◌ c "") (has_bit mode 1)) ≡ mode / 1 % 2 * 1
last_step c mode letter =
    read_flags-last 1 c (has_bit mode 1) letter ∙ bit_value (mode / 1 % 2) 1 (omega arith)

-- The nine letters of the text are the nine permission bits of the mode.
pub read_mode-mode_to_string : (mode : ℕ) → read_mode (mode_to_string mode) ≡ mode % 512
unfolding mode_to_string
read_mode-mode_to_string mode =
    read_mode-type_letter mode _
    ∙ step 256 "r" mode _ _ refl (
        step 128 "w" mode _ _ refl (
          step 64 "x" mode _ _ refl (
            step 32 "r" mode _ _ refl (
              step 16 "w" mode _ _ refl (
                step 8 "x" mode _ _ refl (
                  step 4 "r" mode _ _ refl
                    (step 2 "w" mode _ _ refl (last_step "x" mode refl))))))))
    ∙ omega arith
