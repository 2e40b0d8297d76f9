-- ===== src/Dispatcher/Backoff.antt =====
-- `Backoff` of internal/dispatcher/retry.go. A time.Duration is an int64 of nanoseconds, kept as
-- its bit pattern below 2 ^ 64: the patterns from 2 ^ 63 on are the negative durations.
use native.Mathlib.Decide.{dec_lt}
use abb_app.Base.{
  le-mul-pow, mul-pow-suc, ◌∙◌, sym, ℕ, zero, suc, ◌-◌, ◌*◌, ◌%◌, ◌^◌, ◌≤◌, ◌<◌, ◌≡◌, refl, min,
  Bool, ◌&&◌, ltb, leb, arith, if◌then◌else◌,
}

abbrev pub word : ℕ
word = 2 ^ 64

abbrev pub sign_bit : ℕ
sign_bit = 2 ^ 63

-- time.Hour
abbrev pub max_backoff : ℕ
max_backoff = 3_600_000_000_000

-- d >= bound, for a bound that is not negative.
abbrev pub reaches : ℕ → ℕ → Bool
reaches d bound = ltb d sign_bit && leb bound d

-- The rounds of the loop that are left.
unfoldable pub double_loop : ℕ → ℕ → ℕ
double_loop zero d = d
double_loop (suc rounds) d =
    let d' = d * 2 % word in
    let rest = double_loop rounds d' in if reaches d' max_backoff then max_backoff else rest

unfoldable pub backoff : ℕ → ℕ → ℕ
unfolding double_loop
backoff attempts base = if leb attempts 1 then base else double_loop (attempts - 1) base

-- A doubling below the cap does not wrap.
double_small : (d : ℕ) → d < max_backoff → d * 2 % word ≡ d * 2
double_small d h = omega arith

double_loop_lem :
    (rounds d : ℕ) → d < max_backoff → double_loop rounds d ≡ min (d * 2 ^ rounds) max_backoff
unfolding double_loop
double_loop_lem zero d h = omega arith
double_loop_lem (suc rounds) d h =
    rw (double_small d h, mul-pow-suc)
      (ground (arith, le-mul-pow (d * 2) rounds, double_loop_lem rounds (d * 2)))

double_loop_capped :
    (rounds d : ℕ) → max_backoff ≤ d → d < 2 ^ 62 → double_loop (suc rounds) d ≡ max_backoff
unfolding double_loop
double_loop_capped rounds d h k = ground arith

minus_one : (n : ℕ) → suc (suc n) - 1 ≡ suc n
minus_one n = omega arith

backoff_again : (n base : ℕ) → backoff (suc (suc n)) base ≡ double_loop (suc n) base
unfolding backoff
backoff_again n base = rw minus_one (ground arith)

backoff_doubled :
    (n base : ℕ)
    → base < 2 ^ 62
    → backoff (suc (suc n)) base ≡ min (base * 2 ^ (suc (suc n) - 1)) max_backoff
backoff_doubled n base h =
    rw (backoff_again, minus_one)
      (elim (dec_lt base max_backoff) [
        | yes small ↦ double_loop_lem (suc n) base small
        | no large ↦
            double_loop_capped n base (omega arith) h ∙ sym (omega (arith, le-mul-pow base (suc n)))
      ])

over_one : (n a b : ℕ) → (if leb (suc (suc n)) 1 then a else b) ≡ b
over_one n a b = ground arith

-- For a base that is not negative and below 2 ^ 62 nanoseconds, the wait from the second attempt on
-- is the base doubled once for each attempt but the first, at most an hour; for the first attempt,
-- and before it, it is the base, whatever its size.
pub backoff-eq-min :
    (attempts base : ℕ)
    → base < 2 ^ 62
    → backoff attempts base
      ≡ (if leb attempts 1 then base else min (base * 2 ^ (attempts - 1)) max_backoff)
unfolding backoff
backoff-eq-min zero base h = refl
backoff-eq-min (suc zero) base h = refl
backoff-eq-min (suc (suc n)) base h = backoff_doubled n base h ∙ sym (over_one n base _)
