-- ===== src/Retry/Delay.antt =====
-- The delay before a retry.
use native.Mathlib.Nat.{pow-suc}
use geodineum_comms.Prelude.{ℕ, zero, suc, ◌+◌, ◌-◌, ◌*◌, ◌/◌, ◌^◌, ◌≤◌, ◌<◌, min, ◌≡◌, arith}
use geodineum_comms.Settings.{RetrySettings}
use geodineum_comms.Retry.{delay_secs, final_delay, jitter_range}

-- The generator gives a number from 0 to twice the range.
abbrev pub InRange : (ℕ → ℕ) → Type 0
InRange gen_range = (r : ℕ) → gen_range r ≤ 2 * r

delay-le-max : (attempts : ℕ) (s : RetrySettings) → delay_secs attempts s ≤ s.max_delay_secs
unfolding delay_secs
delay-le-max attempts s = omega arith

pow_two_mono : (a k : ℕ) → 2 ^ a ≤ 2 ^ (k + a)
pow_two_mono a zero = let e : zero + a ≡ a = omega arith in rw e (omega arith)
pow_two_mono a (suc k) =
    let e : suc k + a ≡ suc (k + a) = omega arith in
    rw (e, pow-suc) (omega (arith, pow_two_mono a k))

pow_two_capped : (a b : ℕ) → a ≤ b → 2 ^ a ≤ 2 ^ b
pow_two_capped a b h = let e : b ≡ (b - a) + a = omega arith in rw e (pow_two_mono a (b - a))

times_mono : (x a b : ℕ) → a ≤ b → x * a ≤ x * b
times_mono x a b h = grind arith

delay_exact :
    (attempts : ℕ) (s : RetrySettings)
    → s.base_delay_secs * 1024 < 2 ^ 64
    → delay_secs attempts s ≡ min (s.base_delay_secs * 2 ^ min attempts 10) s.max_delay_secs
unfolding delay_secs
delay_exact attempts s h =
    let top =
      times_mono s.base_delay_secs (2 ^ min attempts 10) 1024
        (pow_two_capped (min attempts 10) 10 (omega arith)) in
    omega (arith, top)

-- Without overflow the delay before the jitter does not fall from one attempt to the next, and from
-- the tenth on it stays.
pub delay_secs_grows :
    (attempts : ℕ) (s : RetrySettings)
    → s.base_delay_secs * 1024 < 2 ^ 64
    → (delay_secs attempts s ≤ delay_secs (suc attempts) s)
      × (delay_secs (10 + attempts) s ≡ min (s.base_delay_secs * 1024) s.max_delay_secs)
delay_secs_grows attempts s h =
    let e : min (10 + attempts) 10 ≡ 10 = omega arith in
    let step =
      times_mono s.base_delay_secs (2 ^ min attempts 10) (2 ^ min (suc attempts) 10)
        (pow_two_capped (min attempts 10) (min (suc attempts) 10) (omega arith)) in
    (
      rw (delay_exact attempts s h, delay_exact (suc attempts) s h) (omega (arith, step)),
      rw (delay_exact (10 + attempts) s h, e),
    )

-- The wait is at least a second, and within a fifth of the capped exponential delay where that is
-- five seconds or more; it never passes the largest delay by more than a fifth of it.
pub final_delay_bounds :
    (gen_range : ℕ → ℕ) (attempts : ℕ) (s : RetrySettings)
    → InRange gen_range
    → (1 ≤ final_delay gen_range attempts s)
      × (5 ≤ delay_secs attempts s
          → final_delay gen_range attempts s ≤ delay_secs attempts s + delay_secs attempts s / 5)
      × (5 ≤ delay_secs attempts s
          → delay_secs attempts s ≤ final_delay gen_range attempts s + delay_secs attempts s / 5)
      × (1 ≤ s.max_delay_secs
          → final_delay gen_range attempts s ≤ s.max_delay_secs + s.max_delay_secs / 5)
unfolding final_delay
final_delay_bounds gen_range attempts s h =
    ground (arith, h (jitter_range (delay_secs attempts s)), delay-le-max attempts s)
