-- ===== src/Retry/Due.antt =====
-- What `get_due_retries` returns.
use geodineum_comms.Prelude.{
  Bool, true, eq_iff, ap, ℕ, ◌≤◌, String, ◌≡◌, some, List, [], ◌∷◌, arith, All, ◌⊎◌,
}
use geodineum_comms.Prelude.Dict.{lookup}
use geodineum_comms.Retry.{RetryState, Entry, Store, alive, due_from}

abbrev pub Has : RetryState → List RetryState → Type 0
Has s [] = ⊥
Has s (x ∷ xs) = (x ≡ s) ⊎ Has s xs

pub due-alive :
    (gets : String → Bool) (now : ℕ) (key : String) (e e' : Entry) (s : RetryState) (m : Store)
    → gets key ≡ true
    → lookup key m ≡ some e
    → alive now (some e) ≡ some e'
    → e'.state ≡ some s
    → s.next_retry ≤ now
    → Has s (due_from gets now m)
unfolding lookup due_from
due-alive gets now key e e' s [] g p a q d = cc
due-alive gets now key e e' s ((j, x) ∷ m) g p a q d =
    ground (arith, due-alive gets now key e e' s m, eq_iff j key, same)
  where
    same : j ≡ key → gets j ≡ gets key
    same h = ap gets h

-- Only states whose time has come are returned.
pub due_now :
    (gets : String → Bool) (now : ℕ) (m : Store)
    → All (λ s. s.next_retry ≤ now) (due_from gets now m)
unfolding due_from
due_now gets now [] = tt
due_now gets now ((j, e) ∷ m) = ground (arith, due_now gets now m)
