-- ===== src/RateLimiter/Window.antt =====
-- The dispatches that `DispatchRateLimiter` allows, against a log of all of them.
use geodineum_comms.Prelude.{
  ℕ, suc, ◌≤◌, String, ◌==◌, eq_iff, ◌≡◌, refl, ◌∙◌, Bool, false, ◌&&◌, ◌||◌, List, [], ◌∷◌, ◌++◌,
  arith, length, any, keep, ltb, sym, Option-cases, Bool-cases, if◌then◌else◌, inl, inr,
}
use geodineum_comms.Prelude.Dict.{
  Dict, lookup, insert, or_else, contains_key, lookup-insert, lookup-retain, UniqueKeys,
  UniqueKeys-insert, UniqueKeys-retain,
}
use geodineum_comms.RateLimiter.{
  DispatchRateLimiter, max_tracked_sites, new, in_window, evict, pruned, try_acquire,
}

-- An allowed dispatch: its time and its site.
abbrev pub Grant : Type 0
Grant = ℕ × String

-- How many grants of a log are for the site and in the window that ends at `now`.
abbrev pub recent : ℕ → ℕ → String → List Grant → ℕ
recent now window site [] = 0
recent now window site ((t, s) ∷ log) =
    let rest = recent now window site log in
    if (s == site) && in_window now window t then suc rest else rest

abbrev pub noted : Bool → ℕ → String → List Grant → List Grant
noted allowed now site log = if allowed then (now, site) ∷ log else log

-- what the limiter has stored for a site
pub stored : String → Dict (List ℕ) → List ℕ
stored site m = or_else (lookup site m) []

pub live : ℕ → ℕ → List ℕ → ℕ
live now window ts = length (keep (in_window now window) ts)

-- dropping what has left the window is not seen later
live-keep :
    (now later window : ℕ) (ts : List ℕ)
    → now ≤ later
    → live later window (keep (in_window now window) ts) ≡ live later window ts
unfolding live
live-keep now later window [] h = refl
live-keep now later window (t ∷ ts) h = ground (arith, live-keep now later window ts h)

live-none :
    (now later window : ℕ) (ts : List ℕ)
    → now ≤ later
    → any (in_window now window) ts ≡ false
    → live later window ts ≡ 0
unfolding live
live-none now later window [] h e = refl
live-none now later window (t ∷ ts) h e = ground (arith, live-none now later window ts h)

live_mono :
    (now later window : ℕ) (ts : List ℕ) → now ≤ later → live later window ts ≤ live now window ts
unfolding live
live_mono now later window [] h = omega arith
live_mono now later window (t ∷ ts) h = ground (arith, live_mono now later window ts h)

live-push :
    (later window t : ℕ) (ts : List ℕ)
    → live later window (ts ++ t ∷ [])
      ≡ (if in_window later window t then suc (live later window ts) else live later window ts)
unfolding live
live-push later window t [] = ground arith
live-push later window t (u ∷ ts) = ground (arith, live-push later window t ts)

live-evict :
    (now later : ℕ) (s : String) (l : DispatchRateLimiter)
    → UniqueKeys l.windows
    → now ≤ later
    → live later l.window_duration (stored s (evict now l))
      ≡ live later l.window_duration (stored s l.windows)
unfolding evict stored live
live-evict now later s l u h =
    let dead = live-none now later l.window_duration in
    rw lookup-retain (elim (Option-cases (lookup s l.windows)) [
      | inl e ↦ rw e
      | inr (ts, e) ↦ rw e (elim (Bool-cases (any (in_window now l.window_duration) ts)) [
        | inl some_live ↦ rw some_live
        | inr none_live ↦ rw none_live (sym (dead ts h none_live))
      ])
    ])

live-stored_insert :
    (later window : ℕ) (k s : String) (ts : List ℕ) (m : Dict (List ℕ))
    → live later window (stored s (insert k ts m))
      ≡ (if k == s then live later window ts else live later window (stored s m))
unfolding stored
live-stored_insert later window k s ts m = rw lookup-insert (ground arith)

-- What the limiter has stored counts the log, from now on, and the log keeps to the bound.
pub record Tracks (now : ℕ) (l : DispatchRateLimiter) (log : List Grant) : Type 0 where
  pub unique : UniqueKeys l.windows
  pub exact :
      (s : String) (later : ℕ)
      → now ≤ later
      → live later l.window_duration (stored s l.windows) ≡ recent later l.window_duration s log
  pub capped :
      (s : String) (later : ℕ)
      → now ≤ later
      → recent later l.window_duration s log ≤ l.max_per_window

pub new-Tracks : (cap window : ℕ) → Tracks 0 (new cap window) []
unfolding new stored live lookup
new-Tracks cap window = record {
  unique = tt;
  exact = λ s later h. refl;
  capped = λ s later h. omega arith;
}

module _ (now t : ℕ) (site : String) (l : DispatchRateLimiter) (log : List Grant)
    (h : Tracks now l log) (le : now ≤ t) where
  abbrev pub l' : DispatchRateLimiter
  l' = (try_acquire t site l).0

  abbrev pub log' : List Grant
  log' = noted (try_acquire t site l).1 t site log

  UniqueKeys-evict : UniqueKeys (evict t l)
  unfolding evict
  UniqueKeys-evict = UniqueKeys-retain (any (in_window t l.window_duration)) l.windows h.unique

  UniqueKeys-try_acquire : UniqueKeys l'.windows
  unfolding try_acquire
  UniqueKeys-try_acquire = ground (
    arith,
    UniqueKeys-evict,
    UniqueKeys-insert site (pruned t site l) (evict t l) UniqueKeys-evict,
    UniqueKeys-insert site (pruned t site l ++ t ∷ []) (evict t l) UniqueKeys-evict,
  )

  live-evict_log :
      (s : String) (later : ℕ)
      → t ≤ later
      → live later l.window_duration (stored s (evict t l)) ≡ recent later l.window_duration s log
  live-evict_log s later tl = live-evict t later s l h.unique tl ∙ h.exact s later (omega arith)

  live-pruned :
      (later : ℕ)
      → t ≤ later
      → live later l.window_duration (pruned t site l) ≡ recent later l.window_duration site log
  unfolding pruned stored
  live-pruned later tl = live-keep t later l.window_duration _ tl ∙ live-evict_log site later tl

  length-pruned : length (pruned t site l) ≡ recent t l.window_duration site log
  unfolding pruned stored live
  length-pruned = live-evict_log site t (omega arith)

  recent_mono :
      (later : ℕ)
      → t ≤ later
      → recent later l.window_duration site log ≤ recent t l.window_duration site log
  recent_mono later tl =
      rw (← live-evict_log site later tl, ← live-evict_log site t (omega arith))
        (live_mono t later l.window_duration _ tl)

  try_acquire-exact :
      (s : String) (later : ℕ)
      → t ≤ later
      → live later l.window_duration (stored s l'.windows) ≡ recent later l.window_duration s log'
  unfolding try_acquire
  try_acquire-exact s later tl = ground (
    arith,
    live-evict_log s later tl,
    live-pruned later tl,
    eq_iff site s,
    live-stored_insert later l.window_duration site s (pruned t site l) (evict t l),
    live-stored_insert later l.window_duration site s (pruned t site l ++ t ∷ []) (evict t l),
    live-push later l.window_duration t (pruned t site l),
  )

  try_acquire-capped :
      (s : String) (later : ℕ)
      → t ≤ later
      → recent later l.window_duration s log' ≤ l.max_per_window
  unfolding try_acquire
  try_acquire-capped s later tl =
      ground (arith, h.capped s later, length-pruned, recent_mono later tl, eq_iff site s)

  pub try_acquire_config :
      (l'.window_duration ≡ l.window_duration) × (l'.max_per_window ≡ l.max_per_window)
  unfolding try_acquire
  try_acquire_config = ground arith

  pub try_acquire-Tracks : Tracks t l' log'
  try_acquire-Tracks = record {
    unique = UniqueKeys-try_acquire;
    exact = λ s later tl. rw try_acquire_config.0 (try_acquire-exact s later tl);
    capped = λ s later tl.
        rw (try_acquire_config.0, try_acquire_config.1) (try_acquire-capped s later tl);
  }

  -- Where the limiter agrees with a log of the dispatches that it allowed, none of them later than the
  -- call, another is allowed exactly when the log has room for the site in the window, and the map has.
  pub try_acquire_decides : (try_acquire t site l).1 ≡ (
      (contains_key site (evict t l) || ltb (length (evict t l)) max_tracked_sites)
      && ltb (recent t l.window_duration site log) l.max_per_window)
  unfolding try_acquire
  try_acquire_decides = ground (arith, length-pruned)
