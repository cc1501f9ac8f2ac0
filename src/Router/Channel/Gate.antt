-- ===== src/Router/Channel/Gate.antt =====
-- What `dispatch_to_channel` sends, and when it sends nothing.
use geodineum_comms.Prelude.{
  String, ◌≡◌, refl, sym, ap, ◌⊎◌, inl, inr, Bool, true, Option, none, some, List, [], ◌∷◌, arith,
  keep, Bool-cases, ◌∙◌,
}
use mathlib.Core.Path.{subst}
use geodineum_comms.Errors.{Result, ok, err}
use geodineum_comms.Message.{CommsMessage, ChannelConfig, RecipientConfig}
use geodineum_comms.Settings.{SiteSettings}
use geodineum_comms.Router.Channel.{
  Sent, Providers, World, MessageDispatcher, send_block, get_channel_config, recipients_for, Plan,
  plan_with, plan, Tally, no_tally, count_send, send_all, carry_out, dispatch_to_channel,
}

-- A log that grew by sends of which `P` holds.
pub data Grows (P : Sent → Type 0) (old : List Sent) : List Sent → Type 0 where
  same : Grows P old old
  more : {s : Sent} {new : List Sent} → P s → Grows P old new → Grows P old (s ∷ new)

pub Grows-trans : {P : Sent → Type 0} {a b c : List Sent} → Grows P a b → Grows P b c → Grows P a c
Grows-trans g same = g
Grows-trans g (more p h) = more p (Grows-trans g h)

pub Grows-map :
    {P Q : Sent → Type 0} {a b : List Sent} → ((s : Sent) → P s → Q s) → Grows P a b → Grows Q a b
Grows-map f same = same
Grows-map f (more {s} p h) = more (f s p) (Grows-map f h)

abbrev pub Has : RecipientConfig → List RecipientConfig → Type 0
Has r [] = ⊥
Has r (x ∷ xs) = (x ≡ r) ⊎ Has r xs

pub Has-keep :
    (r : RecipientConfig) (f : RecipientConfig → Bool) (xs : List RecipientConfig)
    → Has r (keep f xs)
    → Has r xs × (f r ≡ true)
Has-keep r f [] h = absurd h
Has-keep r f (x ∷ xs) h = elim (Bool-cases (f x)) [
  | inl yes_x ↦ elim (rw yes_x at h) [
    | inl e ↦ (inl e, ap f (sym e) ∙ yes_x)
    | inr t ↦ let (m, w) = Has-keep r f xs t in (inr m, w)
  ]
  | inr no_x ↦ let (m, w) = Has-keep r f xs (rw no_x at h) in (inr m, w)
]

-- What holds of every send over one channel.
pub record IsPlanned (p : Providers) (d : MessageDispatcher) (name : String)
    (message : CommsMessage) (settings : SiteSettings) (addressed : Option RecipientConfig)
    (s : Sent) : Type 0 where
  pub open_gate : send_block d.delivery_off d.allow_nonprod_send message.environment ≡ none
  pub registered : p.registered name ≡ true
  pub enabled : s.config.enabled ≡ true
  pub configured : get_channel_config name settings ≡ some s.config
  pub on_channel : s.channel ≡ name
  pub of_message : s.message ≡ message
  pub wanted : Has s.recipient (recipients_for addressed s.config message)

module _ (p : Providers) (name : String) (message : CommsMessage) (config : ChannelConfig)
    (P : Sent → Type 0) where
  abbrev send_of : RecipientConfig → Sent
  send_of r = record { channel = name; message = message; recipient = r; config = config }

  send_all-Grows :
      (rs : List RecipientConfig) (t : Tally) (sent : List Sent)
      → ((r : RecipientConfig) → Has r rs → P (send_of r))
      → Grows P sent (send_all p name message config rs t sent).0
  unfolding send_all
  send_all-Grows [] t sent h = same
  send_all-Grows (r ∷ rs) t sent h = Grows-trans (more {s = send_of r} (h r (inl refl)) same) (
      send_all-Grows rs (count_send (p.send sent (send_of r)) t) (send_of r ∷ sent)
        (λ x m. h x (inr m)))

module _ (p : Providers) (d : MessageDispatcher) (name : String) (message : CommsMessage)
    (settings : SiteSettings) (addressed : Option RecipientConfig) where
  -- the conditions of a plan
  record IsOpen (q : Plan) : Type 0 where
    gate : send_block d.delivery_off d.allow_nonprod_send message.environment ≡ none
    registered : p.registered name ≡ true
    enabled : q.config.enabled ≡ true
    configured : get_channel_config name settings ≡ some q.config
    recipients : q.recipients ≡ recipients_for addressed q.config message

  plan-IsOpen :
      (c : Option ChannelConfig) (q : Plan)
      → get_channel_config name settings ≡ c
      → plan p d name message settings addressed ≡ ok q
      → IsOpen q
  unfolding plan plan_with send_block
  plan-IsOpen none q e h = ground arith
  plan-IsOpen (some c) q e h = ground arith

  carried_out :
      (w : World) (r : Result Plan)
      → plan p d name message settings addressed ≡ r
      → Grows
          (IsPlanned p d name message settings addressed)
          w.sent
          (carry_out p name message w r).0.sent
  carried_out w (err e) h = same
  carried_out w (ok q) h =
      let o = plan-IsOpen (get_channel_config name settings) q refl h in
      send_all-Grows p name message q.config (IsPlanned p d name message settings addressed)
        q.recipients no_tally w.sent
        (λ r m. record {
          open_gate = o.gate;
          registered = o.registered;
          enabled = o.enabled;
          configured = o.configured;
          on_channel = refl;
          of_message = refl;
          wanted = subst (Has r) o.recipients m;
        })

  -- Whatever a channel sends goes over that channel, by its own enabled configuration in the settings,
  -- to the addressed person or else to a recipient whose filters take the message, and only if
  -- neither the delivery switch nor the environment of the message blocks it.
  pub dispatch_to_channel_sends :
      (w : World)
      → Grows
          (IsPlanned p d name message settings addressed)
          w.sent
          (dispatch_to_channel p d name message settings addressed w).0.sent
  unfolding dispatch_to_channel
  dispatch_to_channel_sends w = carried_out w (plan p d name message settings addressed) refl
