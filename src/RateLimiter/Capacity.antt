-- ===== src/RateLimiter/Capacity.antt =====
-- The map of `DispatchRateLimiter` is bounded, whatever sites call.
use geodineum_comms.Prelude.{
  ℕ, ◌≤◌, ◌<◌, String, ◌≡◌, ◌⊎◌, inl, inr, true, List, [], ◌∷◌, ◌++◌, arith, length, any,
  Bool-cases,
}
use geodineum_comms.Prelude.Dict.{
  insert, contains_key, length-insert_new, length-insert_old, length-retain,
}
use geodineum_comms.RateLimiter.{
  DispatchRateLimiter, max_tracked_sites, new, in_window, evict, pruned, try_acquire,
}

length-insert_le :
    (k : String) (v : List ℕ) (l : DispatchRateLimiter) (now : ℕ)
    → contains_key k (evict now l) ≡ true ⊎ (length (evict now l) < max_tracked_sites)
    → length (evict now l) ≤ max_tracked_sites
    → length (insert k v (evict now l)) ≤ max_tracked_sites
length-insert_le k v l now room h = elim (Bool-cases (contains_key k (evict now l))) [
  | inl old ↦ omega (arith, length-insert_old k v (evict now l) old)
  | inr new ↦ ground (arith, length-insert_new k v (evict now l) new)
]

length-evict : (now : ℕ) (l : DispatchRateLimiter) → length (evict now l) ≤ length l.windows
unfolding evict
length-evict now l = length-retain (any (in_window now l.window_duration)) l.windows

-- If the map holds at most `max_tracked_sites` sites, it does so after a call too.
pub try_acquire_capacity :
    (now : ℕ) (site : String) (l : DispatchRateLimiter)
    → length l.windows ≤ max_tracked_sites
    → length (try_acquire now site l).0.windows ≤ max_tracked_sites
unfolding try_acquire
try_acquire_capacity now site l h = ground (
  arith,
  length-evict now l,
  length-insert_le site (pruned now site l) l now,
  length-insert_le site (pruned now site l ++ now ∷ []) l now,
)
