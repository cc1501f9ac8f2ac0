-- ===== src/Router/Dispatcher/Allowed.antt =====
-- Every send that a dispatch makes is one that the message, the site and the daemon allow.
use mathlib.Core.Path.{subst}
use geodineum_comms.Prelude.{
  some_inj, String, ◌≡◌, sym, inl, inr, Bool, true, false, Option, none, some, List, [], ◌∷◌, arith,
  ◌∙◌,
}
use geodineum_comms.Prelude.Texts.{In, In-keep, contains, contains-In}
use geodineum_comms.Prelude.Chars.{trim}
use geodineum_comms.WebLink.{chat_for}
use geodineum_comms.Message.{CommsMessage, RecipientConfig, AddressedTo, should_receive, is_empty}
use geodineum_comms.Settings.{SiteSettings}
use geodineum_comms.Router.Channel.{
  Sent, Providers, World, MessageDispatcher, send_block, get_channel_config, filter_recipients,
}
use geodineum_comms.Router.Channel.Gate.{Grows, same, Grows-map, Has, Has-keep}
use geodineum_comms.Router.Outcome.{DispatchResult, no_result}
use geodineum_comms.Router.Target.{
  Target, everyone, person, linked, refused, chat_recipient, addressed_recipient_config,
}
use geodineum_comms.Router.Target.Choice.{
  Suits, to_everyone, to_person, to_linked, to_nobody, IsPermitted,
}
use geodineum_comms.Router.Dispatcher.{restrict, determine_channels, count_if, dispatch_to}
use geodineum_comms.Router.Dispatcher.Asked.{IsAsked, determine_channels-IsAsked}
use geodineum_comms.Router.Dispatcher.Safety.{IsLooped, dispatch_loop-Grows}

restrict-In :
    (only : Option (List String)) (names : List String) (c : String)
    → In c (restrict only names)
    → (In c names) × ((xs : List String) → only ≡ some xs → is_empty xs ≡ false → In c xs)
restrict-In none names c h = (h, λ xs e f. cc)
restrict-In (some []) names c h = (h, λ xs e f. absurd (not_empty xs e f))
  where
    not_empty : (xs : List String) → some [] ≡ some xs → is_empty xs ≡ false → ⊥
    not_empty [] e f = cc
    not_empty (x ∷ xs) e f = cc
restrict-In (some (y ∷ ys)) names c h =
    let (m, k) = In-keep c (λ x. contains x (y ∷ ys)) names h in
    (m, λ xs e f. subst (In c) (some_inj e) (contains-In c (y ∷ ys) k))

module _ (p : Providers) (d : MessageDispatcher) (message : CommsMessage)
    (only : Option (List String)) (w : World) where
  -- What may be sent for a message: over a registered, enabled channel, past the gates, among the
  -- channels asked for (IsAsked, and those of a retry); to a configured recipient that takes the message or, where the message is
  -- addressed, to that one person by email or that one linked account by Telegram.
  pub record IsAllowed (settings : SiteSettings) (s : Sent) : Type 0 where
    pub open_gate : send_block d.delivery_off d.allow_nonprod_send message.environment ≡ none
    pub registered : p.registered s.channel ≡ true
    pub enabled : s.config.enabled ≡ true
    pub of_message : s.message ≡ message
    pub narrowed :
        (names : List String) → only ≡ some names → is_empty names ≡ false → In s.channel names
    pub to_site :
        message.to ≡ none
        → IsAsked settings message s.channel
          × (get_channel_config s.channel settings ≡ some s.config)
          × Has s.recipient s.config.recipients
          × (should_receive s.recipient message.message_type message.priority ≡ true)
    pub to_one :
        (to : AddressedTo)
        → message.to ≡ some to
        → to.telegram ≡ none
        → (s.channel ≡ "email")
          × (s.recipient ≡ addressed_recipient_config (trim to.email) to.name)
          × IsPermitted settings message w
    pub to_account :
        (to : AddressedTo) (consumer : String)
        → message.to ≡ some to
        → to.telegram ≡ some consumer
        → (s.channel ≡ "telegram")
          × IsPermitted settings message w
          × ((link_site : String)
              → d.link_site ≡ some link_site
              → (chat : String) × (s.recipient ≡ chat_recipient chat)
                × (chat_for w.store.links link_site message.site_id consumer ≡ some chat))

  module _ (settings : SiteSettings) where
    everyone-IsAllowed :
        message.to ≡ none
        → (s : Sent)
        → IsLooped p d message settings none (restrict only (determine_channels settings message)) s
        → IsAllowed settings s
    unfolding filter_recipients
    everyone-IsAllowed e s h = record {
      open_gate = h.planned.open_gate;
      registered = h.planned.registered;
      enabled = h.planned.enabled;
      of_message = h.planned.of_message;
      narrowed = (restrict-In only (determine_channels settings message) s.channel h.member).1;
      to_site = λ _.
          let (m, k) =
            Has-keep s.recipient (λ r. should_receive r message.message_type message.priority)
              s.config.recipients h.planned.wanted in
          (
            determine_channels-IsAsked settings message s.channel
                (restrict-In only (determine_channels settings message) s.channel h.member).0,
            h.planned.configured,
            m,
            k,
          );
      to_one = λ to t. cc;
      to_account = λ to consumer t. cc;
    }

    one_channel : (name c : String) → In c (name ∷ []) → c ≡ name
    one_channel name c (inl e) = sym e
    one_channel name c (inr h) = absurd h

    person-IsAllowed :
        (to : AddressedTo) (r : RecipientConfig)
        → message.to ≡ some to
        → to.telegram ≡ none
        → r ≡ addressed_recipient_config (trim to.email) to.name
        → IsPermitted settings message w
        → (s : Sent) → IsLooped p d message settings (some r) (restrict only ("email" ∷ [])) s
        → IsAllowed settings s
    person-IsAllowed to r e t er q s h =
        let (m, n) = restrict-In only ("email" ∷ []) s.channel h.member in
        record {
          open_gate = h.planned.open_gate;
          registered = h.planned.registered;
          enabled = h.planned.enabled;
          of_message = h.planned.of_message;
          narrowed = n;
          to_site = λ x. cc;
          to_one =
              λ to' e' t'. (one_channel "email" s.channel m, only_one to' e' h.planned.wanted, q);
          to_account = λ to' consumer e' t'. cc;
        }
      where
        only_one :
            (to' : AddressedTo)
            → message.to ≡ some to'
            → Has s.recipient (r ∷ [])
            → s.recipient ≡ addressed_recipient_config (trim to'.email) to'.name
        only_one to' e' (inl x) = cc
        only_one to' e' (inr x) = absurd x

    linked-IsAllowed :
        (to : AddressedTo) (consumer link_site chat : String) (r : RecipientConfig)
        (bot : SiteSettings)
        → message.to ≡ some to
        → to.telegram ≡ some consumer
        → d.link_site ≡ some link_site
        → r ≡ chat_recipient chat
        → chat_for w.store.links link_site message.site_id consumer ≡ some chat
        → IsPermitted settings message w
        → (s : Sent) → IsLooped p d message bot (some r) (restrict only ("telegram" ∷ [])) s
        → IsAllowed settings s
    linked-IsAllowed to consumer link_site chat r bot e t l er f q s h =
        let (m, n) = restrict-In only ("telegram" ∷ []) s.channel h.member in
        record {
          open_gate = h.planned.open_gate;
          registered = h.planned.registered;
          enabled = h.planned.enabled;
          of_message = h.planned.of_message;
          narrowed = n;
          to_site = λ x. cc;
          to_one = λ to' e' t'. cc;
          to_account = λ to' consumer' e' t'. (
            one_channel "telegram" s.channel m,
            q,
            λ site l'. (chat, only_one h.planned.wanted, same_chat site consumer' to' e' t' l'),
          );
        }
      where
        only_one : Has s.recipient (r ∷ []) → s.recipient ≡ chat_recipient chat
        only_one (inl x) = sym x ∙ er
        only_one (inr x) = absurd x

        same_chat :
            (site consumer' : String) (to' : AddressedTo)
            → message.to ≡ some to'
            → to'.telegram ≡ some consumer'
            → d.link_site ≡ some site
            → chat_for w.store.links site message.site_id consumer' ≡ some chat
        same_chat site consumer' to' e' t' l' =
            let es : link_site ≡ site = cc in
            let ec : consumer ≡ consumer' = cc in rw (← es, ← ec) f

    count_if-sent :
        (b : Bool) (x : World × DispatchResult) → (count_if b message.site_id x).0.sent ≡ x.0.sent
    count_if-sent b (w', r) = ground arith

    pub dispatch_to-Grows :
        (w' : World) (t : Target)
        → Suits d p settings message w t
        → Grows (IsAllowed settings) w'.sent (dispatch_to p d settings message only t w').0.sent
    unfolding dispatch_to
    dispatch_to-Grows w' everyone (to_everyone e) = rw count_if-sent (
        Grows-map (everyone-IsAllowed e) (
          dispatch_loop-Grows p d message settings none
            (restrict only (determine_channels settings message)) w' (no_result message.id)))
    dispatch_to-Grows w' (person r) (to_person to e t er a q) = rw count_if-sent (
        Grows-map (person-IsAllowed to r e t er q) (
          dispatch_loop-Grows p d message settings (some r) (restrict only ("email" ∷ [])) w'
            (no_result message.id)))
    dispatch_to-Grows w' (linked r bot) (to_linked to consumer link_site chat e t l er f q) =
        rw count_if-sent (
          Grows-map (linked-IsAllowed to consumer link_site chat r bot e t l er f q) (
            dispatch_loop-Grows p d message bot (some r) (restrict only ("telegram" ∷ [])) w'
              (no_result message.id)))
    dispatch_to-Grows w' (refused name why) to_nobody = same
