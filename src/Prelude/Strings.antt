-- ===== src/Prelude/Strings.antt =====
-- Rust's operations on texts that the agent uses to read the output of commands.
use Prim.Native.Nat.{ℕ, zero, suc, ◌+◌, ◌*◌, ◌-◌, ◌^◌}
use Prim.Native.Char.{Char, code}
use Prim.Native.String.append
use Prim.Native.String.{String, ◌++◌}
use mathlib.Core.Path.{◌≡◌, refl}
use mathlib.Core.Bool.{Bool, true, false, ◌&&◌, ◌||◌}
use mathlib.Core.Option.{Option, none, some}
use mathlib.Core.List.{List, [], ◌∷◌}
use native.Mathlib.Omega.{arith}
use mathlib.Core.Logic.{inl, inr}
use nobase_agent.Prelude.Tests.{Bool-cases, leb, ltb, ◌==◌, if◌then◌else◌}

-- `char::is_whitespace`, the code points with the property White_Space
abbrev pub is_whitespace : ℕ → Bool
is_whitespace c =
    (leb 9 c && leb c 13)
    || (c == 32)
    || (c == 133)
    || (c == 160)
    || (c == 5760)
    || (leb 8192 c && leb c 8202)
    || (c == 8232)
    || (c == 8233)
    || (c == 8239)
    || (c == 8287)
    || (c == 12288)

abbrev pub cons_first : Char → List String → List String
cons_first c [] = String.◌∷◌ c "" ∷ []
cons_first c (s ∷ pieces) = String.◌∷◌ c s ∷ pieces

abbrev pub starts_line_feed : String → Bool
starts_line_feed String.[] = false
starts_line_feed (String.◌∷◌ c s) = code c == 10

-- `lines`: pieces that end with a line feed, which goes with a carriage return in front of it.
unfoldable pub lines : String → List String
lines String.[] = []
lines (String.◌∷◌ c s) =
    let rest = lines s in
    if code c == 10
    then "" ∷ rest
    else if code c == 13 && starts_line_feed s
    then rest
    else cons_first c rest

-- `splitn(k + 1, test)`: at most k cuts, each at a character that passes the test.
unfoldable pub splitn : (ℕ → Bool) → ℕ → String → List String
splitn test zero s = s ∷ []
splitn test (suc k) String.[] = "" ∷ []
splitn test (suc k) (String.◌∷◌ c s) =
    let cut = splitn test k s in
    let on = splitn test (suc k) s in if test (code c) then "" ∷ cut else cons_first c on

-- `split(test)`
unfoldable pub split : (ℕ → Bool) → String → List String
split test String.[] = "" ∷ []
split test (String.◌∷◌ c s) =
    let rest = split test s in if test (code c) then "" ∷ rest else cons_first c rest

unfoldable pub trim_start : String → String
trim_start String.[] = ""
trim_start (String.◌∷◌ c s) =
    let rest = trim_start s in if is_whitespace (code c) then rest else String.◌∷◌ c s

abbrev pub is_nil : String → Bool
is_nil String.[] = true
is_nil (String.◌∷◌ c s) = false

unfoldable pub trim_end : String → String
trim_end String.[] = ""
trim_end (String.◌∷◌ c s) =
    let rest = trim_end s in if is_nil rest && is_whitespace (code c) then "" else String.◌∷◌ c rest

unfoldable pub trim : String → String
unfolding trim_start trim_end
trim s = trim_start (trim_end s)

-- The number that decimal digits continue, none above 2 ^ 64.
unfoldable pub parse_digits : ℕ → String → Option ℕ
parse_digits acc String.[] = some acc
parse_digits acc (String.◌∷◌ c s) =
    let next = acc * 10 + (code c - 48) in
    let rest = parse_digits next s in
    if leb 48 (code c) && leb (code c) 57 && ltb next (2 ^ 64) then rest else none

-- `parse::<u64>`: a plus sign may stand in front.
unfoldable pub parse_u64 : String → Option ℕ
unfolding parse_digits
parse_u64 String.[] = none
parse_u64 (String.◌∷◌ c String.[]) = if code c == 43 then none else parse_digits 0 (String.◌∷◌ c "")
parse_u64 (String.◌∷◌ c (String.◌∷◌ d s)) =
    let signed = parse_digits 0 (String.◌∷◌ d s) in
    let plain = parse_digits 0 (String.◌∷◌ c (String.◌∷◌ d s)) in
    if code c == 43 then signed else plain

-- No character passes the test.
unfoldable pub free : (ℕ → Bool) → String → Bool
free test String.[] = true
free test (String.◌∷◌ c s) = let rest = free test s in if test (code c) then false else rest

-- A piece with no cut in it, up to a separator.
pub splitn-append :
    (test : ℕ → Bool) (k : ℕ) (piece : String) (sep : Char) (rest : String)
    → free test piece ≡ true
    → test (code sep) ≡ true
    → splitn test (suc k) (piece ++ String.◌∷◌ sep rest) ≡ piece ∷ splitn test k rest
unfolding splitn free
splitn-append test k String.[] sep rest h cut = rw (append.nil, cut) refl
splitn-append test k (String.◌∷◌ c piece) sep rest h cut = elim (Bool-cases (test (code c))) [
  | inl p ↦ absurd (ground (arith, p, h))
  | inr p ↦
      let h' : free test piece ≡ true = ground (arith, p, h) in
      rw (append.cons, p, splitn-append test k piece sep rest h' cut) refl
]
