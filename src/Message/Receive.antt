-- ===== src/Message/Receive.antt =====
-- Which messages a recipient takes.
use geodineum_comms.Prelude.{
  ℕ, ◌≤◌, String, ◌==◌, eq_iff, ◌≡◌, ◌↔◌, ◌⊎◌, Bool, true, ◌||◌, List, [], ◌∷◌, arith, any,
}
use geodineum_comms.Prelude.Texts.{In}
use geodineum_comms.Message.{RecipientConfig, should_receive}

abbrev wants : String → String → Bool
wants message_type t = t == message_type || t == "all"

wants_some : (m : String) (ts : List String) → any (wants m) ts ≡ true → (In m ts) ⊎ (In "all" ts)
wants_some m [] h = cc
wants_some m (t ∷ ts) h = ground (arith, wants_some m ts, eq_iff t m, eq_iff t "all")

any_of_In : (m : String) (ts : List String) → (In m ts) ⊎ (In "all" ts) → any (wants m) ts ≡ true
any_of_In m [] h = ground arith
any_of_In m (t ∷ ts) h = ground (arith, any_of_In m ts, eq_iff t m, eq_iff t "all")

-- A recipient takes a message exactly when its priority number is at most the recipient's, and the
-- recipient names no type, or the message's, or `all`.
pub should_receive_iff :
    (r : RecipientConfig) (m : String) (p : ℕ)
    → (should_receive r m p ≡ true)
      ↔ ((p ≤ r.min_priority) × ((r.types ≡ []) ⊎ (In m r.types) ⊎ (In "all" r.types)))
unfolding should_receive
should_receive_iff r m p = (to, from)
  where
    to :
        should_receive r m p ≡ true
        → (p ≤ r.min_priority) × ((r.types ≡ []) ⊎ (In m r.types) ⊎ (In "all" r.types))
    to h = ground (arith, wants_some m r.types)

    from :
        (p ≤ r.min_priority) × ((r.types ≡ []) ⊎ (In m r.types) ⊎ (In "all" r.types))
        → should_receive r m p ≡ true
    from h = ground (arith, any_of_In m r.types)
