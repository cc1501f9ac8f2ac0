-- ===== src/Backoff.antt =====
-- `BackoffTracker` of src/persistence/backoff.rs: after a failed archive write a site waits, each
-- time longer. A `Duration` is a whole number of nanoseconds, an `Instant` one since some start, and
-- the multiplier of `BackoffConfig` a whole number, as in its default. The `f64` product of seconds is
-- exact for delays of whole seconds below 2^53, such as the default's; others it rounds.
pub mod Progress
pub mod Stats
use geodineum_comms.Prelude.{
  ℕ, suc, ◌+◌, ◌-◌, ◌*◌, ◌/◌, ◌%◌, ◌^◌, min, String, Bool, true, false, Option, none, some, List,
  [], ◌∷◌, ltb, leb, eqb, ◌&&◌, length, from_secs, if◌then◌else◌,
}
use geodineum_comms.Prelude.Dict.{Dict, lookup, insert, remove, or_else}

pub record BackoffConfig : Type 0 where
  pub initial_delay : ℕ
  pub max_delay : ℕ
  pub multiplier : ℕ
  pub unhealthy_threshold : ℕ

-- `BackoffConfig::default`
abbrev pub default_config : BackoffConfig
default_config = record {
  initial_delay = from_secs 1;
  max_delay = from_secs 300;
  multiplier = 2;
  unhealthy_threshold = 5;
}

pub record SiteBackoffState : Type 0 where
  pub consecutive_failures : ℕ  -- u32
  pub backoff_until : Option ℕ
  pub last_error : Option String
  pub total_failures : ℕ  -- u64

-- `SiteBackoffState::default`
abbrev pub default_state : SiteBackoffState
default_state = record {
  consecutive_failures = 0;
  backoff_until = none;
  last_error = none;
  total_failures = 0;
}

pub record BackoffTracker : Type 0 where
  pub config : BackoffConfig
  pub states : Dict SiteBackoffState

abbrev pub with_config : BackoffConfig → BackoffTracker
with_config config = record { config = config; states = [] }

abbrev pub until : Option SiteBackoffState → Option ℕ
until none = none
until (some s) = s.backoff_until

abbrev pub before : ℕ → Option ℕ → Bool
before now none = false
before now (some u) = ltb now u

unfoldable pub is_in_backoff : ℕ → String → BackoffTracker → Bool
is_in_backoff now site t = before now (until (lookup site t.states))

abbrev pub time_left : ℕ → Option ℕ → Option ℕ
time_left now none = none
time_left now (some u) = if ltb now u then some (u - now) else none

unfoldable pub remaining_backoff : ℕ → String → BackoffTracker → Option ℕ
remaining_backoff now site t = time_left now (until (lookup site t.states))

abbrev pub reset_state : SiteBackoffState → SiteBackoffState
reset_state s = record s { consecutive_failures = 0; backoff_until = none; last_error = none }

abbrev pub succeed :
    String → Option SiteBackoffState → Dict SiteBackoffState → Dict SiteBackoffState
succeed site none states = states
succeed site (some s) states = insert site (reset_state s) states

unfoldable pub record_success : String → BackoffTracker → BackoffTracker
record_success site t = record t { states = succeed site (lookup site t.states) t.states }

-- `initial_delay * multiplier.powi((consecutive_failures - 1) as i32)`: the subtraction wraps as u32,
-- and an exponent from 2^31 on is a negative i32.
unfoldable pub scaled_delay : BackoffConfig → ℕ → ℕ
scaled_delay c failures =
    let e = (failures + 2 ^ 32 - 1) % 2 ^ 32 in
    if ltb e (2 ^ 31)
    then c.initial_delay * c.multiplier ^ e
    else c.initial_delay / c.multiplier ^ (2 ^ 32 - e)

-- The product is no number: no delay times a power that overflows `f64`.
unfoldable pub is_nan : BackoffConfig → ℕ → Bool
is_nan c failures =
    let e = (failures + 2 ^ 32 - 1) % 2 ^ 32 in
    eqb c.initial_delay 0 && (ltb e (2 ^ 31) && leb (2 ^ 1_024) (c.multiplier ^ e))

-- `backoff_secs.min(max_delay)`, which is `max_delay` if the product is no number
unfoldable pub backoff : BackoffConfig → ℕ → ℕ
backoff c failures =
    if is_nan c failures then c.max_delay else min (scaled_delay c failures) c.max_delay

unfoldable pub failed_state : BackoffConfig → ℕ → String → SiteBackoffState → SiteBackoffState
failed_state c now error s =
    let failures = (s.consecutive_failures + 1) % 2 ^ 32 in
    record {
      consecutive_failures = failures;
      backoff_until = some (now + backoff c failures);
      last_error = some error;
      total_failures = (s.total_failures + 1) % 2 ^ 64;
    }

unfoldable pub record_failure : ℕ → String → String → BackoffTracker → BackoffTracker
record_failure now site error t =
    let s = or_else (lookup site t.states) default_state in
    record t { states = insert site (failed_state t.config now error s) t.states }

abbrev pub failures_of : Option SiteBackoffState → ℕ
failures_of none = 0
failures_of (some s) = s.consecutive_failures

unfoldable pub consecutive_failures : String → BackoffTracker → ℕ
consecutive_failures site t = failures_of (lookup site t.states)

abbrev pub reached : ℕ → Option SiteBackoffState → Bool
reached threshold none = false
reached threshold (some s) = leb threshold s.consecutive_failures

unfoldable pub is_unhealthy : String → BackoffTracker → Bool
is_unhealthy site t = reached t.config.unhealthy_threshold (lookup site t.states)

abbrev pub error_of : Option SiteBackoffState → Option String
error_of none = none
error_of (some s) = s.last_error

unfoldable pub last_error : String → BackoffTracker → Option String
last_error site t = error_of (lookup site t.states)

unfoldable pub clear : String → BackoffTracker → BackoffTracker
clear site t = record t { states = remove site t.states }

unfoldable pub clear_all : BackoffTracker → BackoffTracker
clear_all t = record t { states = [] }

pub record BackoffStats : Type 0 where
  pub total_sites : ℕ
  pub healthy : ℕ
  pub in_backoff : ℕ
  pub unhealthy : ℕ
  pub total_failures : ℕ

abbrev pub no_stats : BackoffStats
no_stats = record {
  total_sites = 0;
  healthy = 0;
  in_backoff = 0;
  unhealthy = 0;
  total_failures = 0;
}

-- one round of the loop of `stats`
unfoldable pub count_site :
    ℕ → BackoffTracker → String → SiteBackoffState → BackoffStats → BackoffStats
count_site now t site s n =
    let m = record n { total_failures = (n.total_failures + s.total_failures) % 2 ^ 64 } in
    if is_unhealthy site t
    then record m { unhealthy = m.unhealthy + 1 }
    else if is_in_backoff now site t
    then record m { in_backoff = m.in_backoff + 1 }
    else record m { healthy = m.healthy + 1 }

unfoldable pub stats_from : ℕ → BackoffTracker → BackoffStats → Dict SiteBackoffState → BackoffStats
stats_from now t n [] = n
stats_from now t n ((site, s) ∷ rest) = stats_from now t (count_site now t site s n) rest

unfoldable pub stats : ℕ → BackoffTracker → BackoffStats
stats now t = record (stats_from now t no_stats t.states) { total_sites = length t.states }
