-- ===== src/Backoff/Progress.antt =====
-- How `BackoffTracker` moves from failure to failure, and back.
use native.Mathlib.Nat.{pow-suc}
use geodineum_comms.Prelude.{
  ℕ, zero, suc, ◌+◌, ◌-◌, ◌*◌, ◌%◌, ◌^◌, ◌≤◌, ◌<◌, min, String, ap, ◌==◌, eq_iff, eq_refl, ◌≡◌,
  refl, false, Option, none, some, length, ◌∙◌, List, [], ◌∷◌, arith, ltb, eqb, if◌then◌else◌,
}
use geodineum_comms.Prelude.Dict.{Dict, lookup, lookup-insert}
use geodineum_comms.Backoff.{
  BackoffConfig, SiteBackoffState, BackoffTracker, reset_state, is_in_backoff, remaining_backoff,
  record_success, record_failure, scaled_delay, backoff, failed_state, consecutive_failures,
  last_error, succeed, is_nan, default_config,
}

-- Up to 2^31 failures the delay is the initial one times the multiplier for each failure before.
scaled_delay-pow :
    (c : BackoffConfig) (n : ℕ)
    → n < 2 ^ 31
    → scaled_delay c (suc n) ≡ c.initial_delay * c.multiplier ^ n
unfolding scaled_delay
scaled_delay-pow c n h =
    let e : (suc n + 2 ^ 32 - 1) % 2 ^ 32 ≡ n = omega arith in rw e (ground arith)

-- A positive delay has a number as its product.
not_nan : (c : BackoffConfig) (failures : ℕ) → 0 < c.initial_delay → is_nan c failures ≡ false
unfolding is_nan
not_nan c failures h =
    let some_delay : eqb c.initial_delay 0 ≡ false = ground arith in rw some_delay refl

backoff_number :
    (c : BackoffConfig) (failures : ℕ)
    → 0 < c.initial_delay
    → backoff c failures ≡ min (scaled_delay c failures) c.max_delay
unfolding backoff
backoff_number c failures h = rw (not_nan c failures h) refl

grow : (a p m : ℕ) → 0 < m → a * p ≤ a * (p * m)
grow a p zero h = absurd (omega arith)
grow a p (suc m) h = omega arith

-- With a positive first delay, a multiplier of at least one, and below 2^31 failures, the wait after a failure is at most
-- `max_delay`, and no shorter than after the failure before.
pub backoff_grows :
    (c : BackoffConfig) (n : ℕ)
    → 0 < c.initial_delay
    → 0 < c.multiplier
    → suc n < 2 ^ 31
    → (backoff c (suc n) ≤ backoff c (suc (suc n))) × (backoff c (suc (suc n)) ≤ c.max_delay)
backoff_grows c n f h b =
    let low : c.initial_delay * c.multiplier ^ n ≤ c.initial_delay * c.multiplier ^ suc n =
      rw pow-suc (grow c.initial_delay (c.multiplier ^ n) c.multiplier h) in
    (
      omega (
        arith,
        backoff_number c (suc n) f,
        backoff_number c (suc (suc n)) f,
        scaled_delay-pow c n (omega arith),
        scaled_delay-pow c (suc n) b,
        low,
      ),
      omega (arith, backoff_number c (suc (suc n)) f),
    )

-- Failures of one site in turn, each with its time.
unfoldable pub fail_all : String → List (ℕ × String) → BackoffTracker → BackoffTracker
fail_all site [] t = t
fail_all site ((now, error) ∷ rest) t = fail_all site rest (record_failure now site error t)

record_failure_counts :
    (now : ℕ) (site error : String) (t : BackoffTracker)
    → consecutive_failures site t < 2 ^ 32 - 1
    → consecutive_failures site (record_failure now site error t) ≡ consecutive_failures site t + 1
unfolding consecutive_failures record_failure failed_state
record_failure_counts now site error t h = rw lookup-insert (ground (arith, eq_refl site))

-- A failure makes a site wait for `backoff` of its count, from the failure on, and no other site, as
-- long as the count does not overflow.
pub record_failure_waits :
    (now later : ℕ) (site other error : String) (t : BackoffTracker)
    → consecutive_failures site t < 2 ^ 32 - 1
    → is_in_backoff later other (record_failure now site error t) ≡ (
        if site == other
        then ltb later (now + backoff t.config (consecutive_failures site t + 1))
        else is_in_backoff later other t)
unfolding is_in_backoff record_failure failed_state consecutive_failures
record_failure_waits now later site other error t h =
    rw lookup-insert (ground (arith, eq_iff site other))

record_failure_config :
    (now : ℕ) (site error : String) (t : BackoffTracker)
    → (record_failure now site error t).config ≡ t.config
unfolding record_failure
record_failure_config now site error t = refl

fail_all_counts :
    (site : String) (es : List (ℕ × String)) (t : BackoffTracker) (n : ℕ)
    → consecutive_failures site t ≡ n
    → n + length es < 2 ^ 32
    → (consecutive_failures site (fail_all site es t) ≡ n + length es)
      × ((fail_all site es t).config ≡ t.config)
unfolding fail_all
fail_all_counts site [] t n e h = (omega arith, refl)
fail_all_counts site ((now, error) ∷ es) t n e h =
    let rest =
      fail_all_counts site es (record_failure now site error t) (n + 1)
        (omega (arith, record_failure_counts now site error t)) (omega arith) in
    (omega (arith, rest.0), rest.1 ∙ record_failure_config now site error t)

backoff_of_count :
    (c : BackoffConfig) (count n : ℕ)
    → 0 < c.initial_delay
    → count ≡ n
    → n < 2 ^ 31
    → backoff c (count + 1) ≡ min (c.initial_delay * c.multiplier ^ n) c.max_delay
backoff_of_count c count n f e h =
    let next : count + 1 ≡ suc n = omega arith in
    backoff_number c (count + 1) f ∙ rw (next, scaled_delay-pow c n h) refl

-- With the default configuration, from a success on or from the start, the wait after n further failures
-- and one more at `now` is 2^n seconds, cut at 300 seconds, for n below 2^31.
pub backoff_exponential :
    (site error : String) (es : List (ℕ × String)) (now later : ℕ) (t : BackoffTracker)
    → t.config ≡ default_config
    → consecutive_failures site t ≡ 0
    → length es < 2 ^ 31
    → is_in_backoff later site (record_failure now site error (fail_all site es t))
      ≡ ltb later (now + min (1_000_000_000 * 2 ^ length es) 300_000_000_000)
backoff_exponential site error es now later t d e h =
    let counts = fail_all_counts site es t 0 e (omega arith) in
    record_failure_waits now later site site error (fail_all site es t) (omega (arith, counts.0))
    ∙ rw eq_refl (
        ap (λ w. ltb later (now + w))
          (ap (λ c. backoff c (consecutive_failures site (fail_all site es t) + 1)) (counts.1 ∙ d)
            ∙ backoff_of_count default_config _ (length es) (omega arith) (omega (arith, counts.0))
                h))

abbrev reset : Option SiteBackoffState → Option SiteBackoffState
reset none = none
reset (some s) = some (reset_state s)

lookup-succeed :
    (site other : String) (o : Option SiteBackoffState) (m : Dict SiteBackoffState)
    → lookup site m ≡ o
    → lookup other (succeed site o m) ≡ (if site == other then reset o else lookup other m)
lookup-succeed site other none m e = ground (arith, eq_iff site other, ap (λ k. lookup k m))
lookup-succeed site other (some s) m e = lookup-insert site other (reset_state s) m

-- After a success the site waits no more, has no failure and no error, and another site is as before.
pub record_success_resets :
    (now : ℕ) (site other : String) (t : BackoffTracker)
    → (is_in_backoff now site (record_success site t) ≡ false)
      × (consecutive_failures site (record_success site t) ≡ 0)
      × (last_error site (record_success site t) ≡ none)
      × ((site == other) ≡ false
          → lookup other (record_success site t).states ≡ lookup other t.states)
unfolding is_in_backoff consecutive_failures last_error record_success
record_success_resets now site other t =
    let own = lookup-succeed site site (lookup site t.states) t.states refl in
    let others = lookup-succeed site other (lookup site t.states) t.states refl in
    (
      rw own (ground (arith, eq_refl site)),
      rw own (ground (arith, eq_refl site)),
      rw own (ground (arith, eq_refl site)),
      λ ne. others ∙ rw ne,
    )

-- Where some time is left the site is in backoff until then, and no longer.
pub remaining_backoff_exact :
    (now later : ℕ) (site : String) (t : BackoffTracker) (d : ℕ)
    → remaining_backoff now site t ≡ some d
    → now ≤ later
    → is_in_backoff later site t ≡ ltb later (now + d)
unfolding is_in_backoff remaining_backoff
remaining_backoff_exact now later site t d h le = ground arith
