-- ===== src/Router/Dispatcher/Asked.antt =====
-- Which channels determine_channels (src/router/dispatcher.rs) gives a message that is for everyone.
use Prim.Native.String.{String}
use geodineum_comms.Prelude.{
  ◌≡◌, refl, ◌==◌, eq_iff, ◌⊎◌, inl, inr, Bool, true, false, ◌||◌, Bool-cases, Option, none, some,
  List, [], ◌∷◌, All, arith,
}
use geodineum_comms.Prelude.Texts.{In}
use geodineum_comms.Message.{CommsMessage, DispatchInfo, is_empty}
use geodineum_comms.Settings.{SiteSettings, RoutingRule}
use geodineum_comms.Router.Dispatcher.{
  first_rule, rule_or, requested, enabled_channels, determine_channels,
}

-- A rule is for a type of message: for this one, or for all.
abbrev pub IsFor : String → RoutingRule → Type 0
IsFor message_type r = (r.message_type ≡ message_type) ⊎ (r.message_type ≡ "all")

-- The first of the rules that is for the type of the message names the channel.
pub data IsRouted (message_type name : String) : List RoutingRule → Type 0 where
  first :
      {r : RoutingRule} {rs : List RoutingRule}
      → IsFor message_type r
      → In name r.channels
      → IsRouted message_type name (r ∷ rs)
  later :
      {r : RoutingRule} {rs : List RoutingRule}
      → (IsFor message_type r → ⊥)
      → IsRouted message_type name rs
      → IsRouted message_type name (r ∷ rs)

-- No rule is for the type of the message.
abbrev pub IsUnruled : String → List RoutingRule → Type 0
IsUnruled message_type rules = All (λ r. IsFor message_type r → ⊥) rules

-- Whether a message that is for everyone asks for a channel: its own instructions come first, then the
-- rules of the site, and without either the channels that the site has enabled.
pub data IsAsked (settings : SiteSettings) (message : CommsMessage) (name : String) : Type 0 where
  instructed :
      {i : DispatchInfo}
      → message.dispatch ≡ some i
      → In name i.channels
      → IsAsked settings message name
  routed :
      ((i : DispatchInfo) → message.dispatch ≡ some i → i.channels ≡ [])
      → IsRouted message.message_type name settings.routing_rules
      → IsAsked settings message name
  unruled :
      ((i : DispatchInfo) → message.dispatch ≡ some i → i.channels ≡ [])
      → IsUnruled message.message_type settings.routing_rules
      → In name (enabled_channels settings)
      → IsAsked settings message name

is_for : String → RoutingRule → Bool
is_for message_type r = r.message_type == message_type || r.message_type == "all"

is_for-IsFor :
    (message_type : String) (r : RoutingRule) → is_for message_type r ≡ true → IsFor message_type r
unfolding is_for
is_for-IsFor message_type r h =
    ground (arith, eq_iff r.message_type message_type, eq_iff r.message_type "all")

is_for-none :
    (message_type : String) (r : RoutingRule)
    → is_for message_type r ≡ false
    → IsFor message_type r
    → ⊥
unfolding is_for
is_for-none message_type r h (inl e) = ground (arith, eq_iff r.message_type message_type)
is_for-none message_type r h (inr e) = ground (arith, eq_iff r.message_type "all")

-- What a name is in that the rules give, or that stands in for them.
ruled :
    (message_type name : String) (rules : List RoutingRule) (channels : List String)
    → In name (rule_or channels (first_rule message_type rules))
    → IsRouted message_type name rules ⊎ (IsUnruled message_type rules × In name channels)
unfolding first_rule is_for
ruled message_type name [] channels h = inr (tt, h)
ruled message_type name (r ∷ rs) channels h = elim (Bool-cases (is_for message_type r)) [
  | inl e ↦ inl (first (is_for-IsFor message_type r e) (rw e at h))
  | inr e ↦ elim (ruled message_type name rs channels (rw e at h)) [
    | inl k ↦ inl (later (is_for-none message_type r e) k)
    | inr k ↦ inr ((is_for-none message_type r e, k.0), k.1)
  ]
]

no_instructions :
    (message : CommsMessage)
    → is_empty (requested message) ≡ true
    → (i : DispatchInfo) → message.dispatch ≡ some i
    → i.channels ≡ []
no_instructions message h i e = by_channels i.channels (rw e at h)
  where
    by_channels : (xs : List String) → is_empty xs ≡ true → xs ≡ []
    by_channels [] k = refl
    by_channels (x ∷ xs) k = cc

own_instructions :
    (settings : SiteSettings) (message : CommsMessage) (name : String) (o : Option DispatchInfo)
    → message.dispatch ≡ o
    → In name (elim o [ none ↦ [] | some i ↦ i.channels ])
    → IsAsked settings message name
own_instructions settings message name none e h = absurd h
own_instructions settings message name (some i) e h = instructed e h

pub determine_channels-IsAsked :
    (settings : SiteSettings) (message : CommsMessage) (name : String)
    → In name (determine_channels settings message)
    → IsAsked settings message name
unfolding determine_channels
determine_channels-IsAsked settings message name h =
    elim (Bool-cases (is_empty (requested message))) [
      | inr e ↦ own_instructions settings message name message.dispatch refl (rw e at h)
      | inl e ↦
          elim (ruled message.message_type name settings.routing_rules (enabled_channels settings)
            (rw e at h)) [
              | inl k ↦ routed (no_instructions message e) k
              | inr k ↦ unruled (no_instructions message e) k.0 k.1
            ]
    ]
