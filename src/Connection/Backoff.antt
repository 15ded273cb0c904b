-- ===== src/Connection/Backoff.antt =====
-- The reconnection loop of src/connection.rs (`run_connection_loop`) and its delays.
use native.Mathlib.Nat.{pow-suc}
use nobase_agent.Prelude.{
  ℕ, zero, suc, ◌*◌, ◌%◌, ◌^◌, ◌≤◌, ◌<◌, ◌≡◌, refl, ap, List, [], ◌∷◌, ◌++◌, arith, ltb, All, min,
  if◌then◌else◌, length,
}

-- How `connect_and_run` ended, and after how many seconds.
pub data Attempt : Type 0 where
  closed : Attempt
  failed : ℕ → Attempt

-- A u64 product.
abbrev pub double : ℕ → ℕ
double b = b * 2 % 2 ^ 64

-- The delay before the next attempt: a connection that lived for more than 30 seconds resets it.
abbrev pub delay : ℕ → ℕ → ℕ
delay elapsed backoff_secs = if ltb 30 elapsed then 1 else backoff_secs

abbrev pub next_backoff : ℕ → ℕ → ℕ
next_backoff max_backoff backoff_secs = min (double backoff_secs) max_backoff

-- The delays that the loop sleeps, from a backoff, as its attempts end.
unfoldable pub delays : ℕ → ℕ → List Attempt → List ℕ
delays max_backoff backoff_secs [] = []
delays max_backoff backoff_secs (closed ∷ attempts) = []
delays max_backoff backoff_secs (failed elapsed ∷ attempts) =
    let d = delay elapsed backoff_secs in
    d ∷ delays max_backoff (next_backoff max_backoff d) attempts

-- The loop of `run_connection_loop`, whose backoff starts at 1.
unfoldable pub run_connection_loop : ℕ → List Attempt → List ℕ
run_connection_loop max_backoff attempts = delays max_backoff 1 attempts

delays_bounded :
    (max_backoff backoff_secs : ℕ) (attempts : List Attempt)
    → 1 ≤ max_backoff
    → max_backoff < 2 ^ 63
    → 1 ≤ backoff_secs
    → backoff_secs ≤ max_backoff
    → All (λ d. (1 ≤ d) × (d ≤ max_backoff)) (delays max_backoff backoff_secs attempts)
unfolding delays
delays_bounded m b [] h k lo hi = tt
delays_bounded m b (closed ∷ attempts) h k lo hi = tt
delays_bounded m b (failed elapsed ∷ attempts) h k lo hi =
    let d = delay elapsed b in
    let low : 1 ≤ d = ground arith in
    let high : d ≤ m = ground arith in
    ((low, high), delays_bounded m (next_backoff m d) attempts h k (omega arith) (omega arith))

-- With a cap of at least 1 and below 2^63, every delay lies between one second and the cap,
-- whatever the attempts.
pub run_connection_loop_bounded :
    (max_backoff : ℕ) (attempts : List Attempt)
    → 1 ≤ max_backoff
    → max_backoff < 2 ^ 63
    → All (λ d. (1 ≤ d) × (d ≤ max_backoff)) (run_connection_loop max_backoff attempts)
unfolding run_connection_loop
run_connection_loop_bounded m attempts h k = delays_bounded m 1 attempts h k (omega arith) h

-- 1, 2, 4, … from the power `i` on, capped.
abbrev pub capped_powers : ℕ → ℕ → ℕ → List ℕ
capped_powers max_backoff i zero = []
capped_powers max_backoff i (suc n) = min (2 ^ i) max_backoff ∷ capped_powers max_backoff (suc i) n

abbrev pub IsShort : Attempt → Type 0
IsShort closed = ⊥
IsShort (failed elapsed) = elapsed ≤ 30

delay_short : (elapsed b : ℕ) → elapsed ≤ 30 → delay elapsed b ≡ b
delay_short elapsed b h = ground arith

double_min : (i m : ℕ) → m < 2 ^ 63 → next_backoff m (min (2 ^ i) m) ≡ min (2 ^ suc i) m
double_min i m h = omega (arith, pow-suc 2 i)

delays_double :
    (max_backoff i : ℕ) (attempts : List Attempt)
    → max_backoff < 2 ^ 63
    → All IsShort attempts
    → delays max_backoff (min (2 ^ i) max_backoff) attempts
      ≡ capped_powers max_backoff i (length attempts)
unfolding delays
delays_double m i [] h short = refl
delays_double m i (closed ∷ attempts) h short = absurd short.0
delays_double m i (failed elapsed ∷ attempts) h short =
    rw (delay_short elapsed (min (2 ^ i) m) short.0, double_min i m h)
      (ap (λ ds. min (2 ^ i) m ∷ ds) (delays_double m (suc i) attempts h short.1))

-- Attempts that all fail within 30 seconds are followed by delays of 1, 2, 4, … seconds, capped.
pub run_connection_loop_doubles :
    (max_backoff : ℕ) (attempts : List Attempt)
    → 1 ≤ max_backoff
    → max_backoff < 2 ^ 63
    → All IsShort attempts
    → run_connection_loop max_backoff attempts ≡ capped_powers max_backoff 0 (length attempts)
unfolding run_connection_loop
run_connection_loop_doubles m attempts h k short =
    let one : min (2 ^ 0) m ≡ 1 = omega arith in rw one at (delays_double m 0 attempts k short)

abbrev pub IsFailed : Attempt → Type 0
IsFailed closed = ⊥
IsFailed (failed elapsed) = Unit

delays_reset :
    (max_backoff backoff_secs elapsed : ℕ) (before after : List Attempt)
    → 30 < elapsed
    → All IsFailed before
    → delays max_backoff backoff_secs (before ++ failed elapsed ∷ after)
      ≡ delays max_backoff backoff_secs before ++ delays max_backoff 1 (failed 0 ∷ after)
unfolding delays
delays_reset m b e [] after h all = ground arith
delays_reset m b e (closed ∷ before) after h all = absurd all.0
delays_reset m b e (failed elapsed ∷ before) after h all =
    rw (delays_reset m (next_backoff m (delay elapsed b)) e before after h all.1)

-- A connection that lived for more than 30 seconds starts the delays again: what follows it is
-- what follows a first attempt.
pub run_connection_loop_resets :
    (max_backoff elapsed : ℕ) (before after : List Attempt)
    → 30 < elapsed
    → All IsFailed before
    → run_connection_loop max_backoff (before ++ failed elapsed ∷ after)
      ≡ run_connection_loop max_backoff before ++ run_connection_loop max_backoff (failed 0 ∷ after)
unfolding run_connection_loop
run_connection_loop_resets m e before after h all = delays_reset m 1 e before after h all
