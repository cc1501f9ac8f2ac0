-- ===== src/RateLimiter.antt =====
-- `DispatchRateLimiter` of src/main.rs: a sliding window of dispatch times for each site.
-- An `Instant` is a number of nanoseconds; `t > now - window` is written `now < t + window`, which is
-- the same where the subtraction does not stop at 0.
pub mod Window
pub mod Rate
pub mod Capacity
use geodineum_comms.Prelude.{
  ℕ, ◌+◌, ◌%◌, ◌^◌, String, Bool, true, false, not, ◌&&◌, List, [], ◌∷◌, ◌++◌, ltb, leb, any, keep,
  length, if◌then◌else◌,
}
use geodineum_comms.Prelude.Tests.{from_secs}
use geodineum_comms.Prelude.Dict.{Dict, lookup, insert, retain, contains_key, or_else}

pub record DispatchRateLimiter : Type 0 where
  pub windows : Dict (List ℕ)
  pub max_per_window : ℕ
  pub window_duration : ℕ
  pub total_limited : ℕ  -- u64

abbrev pub max_tracked_sites : ℕ
max_tracked_sites = 1024

-- `DispatchRateLimiter::new`
unfoldable pub new : ℕ → ℕ → DispatchRateLimiter
new max_per_window window_secs = record {
  windows = [];
  max_per_window = max_per_window;
  window_duration = from_secs window_secs;
  total_limited = 0;
}

-- `|t| *t > cutoff`
abbrev pub in_window : ℕ → ℕ → ℕ → Bool
in_window now window t = ltb now (t + window)

-- the first `retain` of `try_acquire`: sites with no dispatch in the window are dropped
unfoldable pub evict : ℕ → DispatchRateLimiter → Dict (List ℕ)
evict now l = retain (any (in_window now l.window_duration)) l.windows

-- `entry(site_id).or_default()`, pruned by the second `retain`
unfoldable pub pruned : ℕ → String → DispatchRateLimiter → List ℕ
pruned now site l = keep (in_window now l.window_duration) (or_else (lookup site (evict now l)) [])

unfoldable pub limited : ℕ → ℕ
limited n = (n + 1) % 2 ^ 64

-- `try_acquire` at the time `now`: the new state, and whether the dispatch is allowed
unfoldable pub try_acquire : ℕ → String → DispatchRateLimiter → DispatchRateLimiter × Bool
try_acquire now site l =
    let windows = evict now l in
    let timestamps = pruned now site l in
    if leb max_tracked_sites (length windows) && not (contains_key site windows)
    then (record l { windows = windows; total_limited = limited l.total_limited }, false)
    else if leb l.max_per_window (length timestamps)
    then (
      record l {
        windows = insert site timestamps windows;
        total_limited = limited l.total_limited;
      },
      false,
    )
    else (record l { windows = insert site (timestamps ++ now ∷ []) windows }, true)
