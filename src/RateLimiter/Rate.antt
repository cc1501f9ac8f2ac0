-- ===== src/RateLimiter/Rate.antt =====
-- A log of what `try_acquire` allows over a series of calls never passes the bound in any window.
use geodineum_comms.Prelude.{
  ℕ, suc, ◌≤◌, ◌<◌, String, ◌==◌, ◌≡◌, Bool, ◌&&◌, List, [], ◌∷◌, arith, leb, ltb, if◌then◌else◌,
  Bool-cases, inl, inr, refl, ltb→lt, ltb→le, ◌∙◌,
}
use geodineum_comms.Prelude.Tests.{from_secs}
use geodineum_comms.RateLimiter.{DispatchRateLimiter, new, in_window, try_acquire}
use geodineum_comms.RateLimiter.Window.{
  Grant, recent, noted, Tracks, try_acquire_config, try_acquire-Tracks, new-Tracks,
}

-- Calls of `try_acquire` in turn, with the log of what they allowed.
unfoldable pub serve :
    DispatchRateLimiter → List Grant → List Grant → DispatchRateLimiter × List Grant
serve l log [] = (l, log)
serve l log ((now, site) ∷ calls) =
    let (l', allowed) = try_acquire now site l in serve l' (noted allowed now site log) calls

-- The calls come in the order of their times, none before `now`.
abbrev pub InOrder : ℕ → List Grant → Type 0
InOrder now [] = Unit
InOrder now ((t, s) ∷ calls) = (now ≤ t) × InOrder t calls

-- How many grants of a log are for the site in the window that ends at `now`, none after `now`.
abbrev pub within : ℕ → ℕ → String → List Grant → ℕ
within now window site [] = 0
within now window site ((t, s) ∷ log) =
    let rest = within now window site log in
    if (s == site) && (leb t now && in_window now window t) then suc rest else rest

within-le-recent :
    (now window : ℕ) (s : String) (log : List Grant)
    → within now window s log ≤ recent now window s log
within-le-recent now window s [] = omega arith
within-le-recent now window s (g ∷ log) = ground (arith, within-le-recent now window s log)

-- A later grant is not counted.
within-noted :
    (now window t : ℕ) (allowed : Bool) (site s : String) (log : List Grant)
    → now < t
    → within now window s (noted allowed t site log) ≡ within now window s log
within-noted now window t allowed site s log h = ground arith

module _ (now t : ℕ) (site s : String) (l : DispatchRateLimiter) (log : List Grant)
    (h : Tracks now l log) (le : now ≤ t) where
  abbrev log' : List Grant
  log' = noted (try_acquire t site l).1 t site log

  recent_bound : (end : ℕ) → t ≤ end → recent end l.window_duration s log' ≤ l.max_per_window
  recent_bound end le_end =
      let config = try_acquire_config now t site l log h le in
      rw config.0 at
        (rw config.1 at ((try_acquire-Tracks now t site l log h le).capped s end le_end))

  noted-within :
      (end : ℕ)
      → within end l.window_duration s log ≤ l.max_per_window
      → within end l.window_duration s log' ≤ l.max_per_window
  noted-within end w = elim (Bool-cases (ltb end t)) [
    | inl before ↦
        rw
          (within-noted end l.window_duration t (try_acquire t site l).1 site s log
            (ltb→lt end t before))
          w
    | inr after ↦ omega (
      arith,
      within-le-recent end l.window_duration s log',
      recent_bound end (ltb→le end t after),
    )
  ]

serve-within :
    (calls log : List Grant) (now : ℕ) (l : DispatchRateLimiter) (s : String) (end window cap : ℕ)
    → l.window_duration ≡ window
    → l.max_per_window ≡ cap
    → Tracks now l log
    → ((e : ℕ) → within e l.window_duration s log ≤ l.max_per_window)
    → InOrder now calls
    → within end window s (serve l log calls).1 ≤ cap
unfolding serve
serve-within [] log now l s end window cap ew ec h w o = rw (← ew, ← ec) (w end)
serve-within ((t, site) ∷ calls) log now l s end window cap ew ec h w o =
    let config = try_acquire_config now t site l log h o.0 in
    serve-within calls (noted (try_acquire t site l).1 t site log) t (try_acquire t site l).0 s end
      window cap (config.0 ∙ ew) (config.1 ∙ ec) (try_acquire-Tracks now t site l log h o.0)
      (λ e. rw (config.0, config.1) (noted-within now t site s l log h o.0 e (w e))) o.1

-- However `try_acquire` is called on a new limiter, in the order of time: in no window of
-- `window_secs` does the log of allowed dispatches hold more than `max_per_window` of one site.
pub serve_rate :
    (cap window : ℕ) (calls : List Grant) (s : String) (end : ℕ)
    → InOrder 0 calls
    → within end (from_secs window) s (serve (new cap window) [] calls).1 ≤ cap
unfolding new
serve_rate cap window calls s end o =
    serve-within calls [] 0 (new cap window) s end (from_secs window) cap refl refl
      (new-Tracks cap window) (λ e. omega arith) o
