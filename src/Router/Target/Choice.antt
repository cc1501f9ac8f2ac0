-- ===== src/Router/Target/Choice.antt =====
-- What the choice of a target guarantees.
use geodineum_comms.Prelude.{
  String, ◌≡◌, refl, inl, inr, true, false, Option, none, some, arith, Bool-cases, leb, ◌<◌,
}
use mathlib.Core.Path.{subst}
use geodineum_comms.Prelude.Texts.{contains}
use geodineum_comms.Prelude.Dict.{lookup, or_else}
use geodineum_comms.Prelude.Chars.{trim}
use geodineum_comms.Errors.{CommsError, Result, ok, err}
use geodineum_comms.Message.{CommsMessage, RecipientConfig, AddressedTo}
use geodineum_comms.Settings.{SiteSettings}
use geodineum_comms.Settings.Store.{SettingsStore, get_settings, addressed_sent_today, linked_chat}
use geodineum_comms.WebLink.{chat_for}
use geodineum_comms.Router.Channel.{Providers, World, MessageDispatcher}
use geodineum_comms.Router.Target.{
  Target, everyone, person, linked, refused, addressed_recipient, addressed_recipient_config,
  linked_recipient, chat_recipient, bot_target, chat_target, link_target, target_to, target_of,
  channel_enabled, continue, pure, in_world,
}

-- The site allows the type of the message, and has not yet sent its number of them today.
pub record IsPermitted (settings : SiteSettings) (message : CommsMessage) (w : World) : Type 0 where
  pub of_type : contains message.message_type settings.addressed.types ≡ true
  pub below_cap : or_else (lookup message.site_id w.store.counters) 0 < settings.addressed.daily_cap

-- A target of the message in a world, by the kind of the message.
pub data Suits (d : MessageDispatcher) (p : Providers) (settings : SiteSettings)
    (message : CommsMessage) (w : World) : Target → Type 0 where
  to_everyone : message.to ≡ none → Suits d p settings message w everyone
  to_person :
      (to : AddressedTo) {r : RecipientConfig}
      → message.to ≡ some to
      → to.telegram ≡ none
      → r ≡ addressed_recipient_config (trim to.email) to.name
      → p.is_address (trim to.email) ≡ true
      → IsPermitted settings message w
      → Suits d p settings message w (person r)
  to_linked :
      (to : AddressedTo) (consumer link_site chat : String) {r : RecipientConfig}
      {bot : SiteSettings}
      → message.to ≡ some to
      → to.telegram ≡ some consumer
      → d.link_site ≡ some link_site
      → r ≡ chat_recipient chat
      → chat_for w.store.links link_site message.site_id consumer ≡ some chat
      → IsPermitted settings message w
      → Suits d p settings message w (linked r bot)
  to_nobody : {name why : String} → Suits d p settings message w (refused name why)

-- an outcome that is a suitable target, or an error, and has sent nothing
pub record Chooses (d : MessageDispatcher) (p : Providers) (settings : SiteSettings)
    (message : CommsMessage) (w : World) (r : World × Result Target) : Type 0 where
  pub quiet : r.0.sent ≡ w.sent
  pub suits : (t : Target) → r.1 ≡ ok t → Suits d p settings message w t

ok-injective : {A : Type 0} {a b : A} → ok a ≡ ok b → a ≡ b
ok-injective e = cc

module _ (d : MessageDispatcher) (p : Providers) (settings : SiteSettings) (message : CommsMessage)
    (w : World) where
  decided :
      (w' : World) (t : Target)
      → w'.sent ≡ w.sent
      → Suits d p settings message w t
      → Chooses d p settings message w (w', ok t)
  decided w' t q s = record {
    quiet = q;
    suits = λ u e. subst (Suits d p settings message w) (ok-injective e) s;
  }

  failed :
      (w' : World) (e : CommsError) → w'.sent ≡ w.sent → Chooses d p settings message w (w', err e)
  failed w' e q = record { quiet = q; suits = λ u h. cc }

  permitted :
      contains message.message_type settings.addressed.types ≡ true
      → leb settings.addressed.daily_cap (or_else (lookup message.site_id w.store.counters) 0)
        ≡ false
      → IsPermitted settings message w
  permitted t n = record { of_type = t; below_cap = ground arith }

  addressed_recipient-Chooses :
      (to : AddressedTo)
      → message.to ≡ some to
      → to.telegram ≡ none
      → Chooses d p settings message w (addressed_recipient p settings message to w)
  unfolding addressed_recipient addressed_sent_today
  addressed_recipient-Chooses to e none_t =
      elim (Bool-cases (contains message.message_type settings.addressed.types)) [
        | inr no_type ↦ rw no_type (decided w _ refl to_nobody)
        | inl of_type ↦ rw of_type (elim (Bool-cases (p.is_address (trim to.email))) [
          | inr no_address ↦ rw no_address (decided w _ refl to_nobody)
          | inl address ↦ rw address (elim (Bool-cases w.store.reads) [
            | inr down ↦ simp down (failed w _ refl)
            | inl up ↦
                simp up
                  (elim (Bool-cases (
                    leb settings.addressed.daily_cap
                      (or_else (lookup message.site_id w.store.counters) 0))) [
                        | inl full ↦ rw full (decided w _ refl to_nobody)
                        | inr room ↦ rw room (
                            decided w _ refl
                              (to_person to e none_t refl address (permitted of_type room)))
                      ])
          ])
        ])
      ]

  bot_target-Suits :
      (to : AddressedTo) (consumer link_site chat : String) (bot : Option SiteSettings)
      → message.to ≡ some to
      → to.telegram ≡ some consumer
      → d.link_site ≡ some link_site
      → chat_for w.store.links link_site message.site_id consumer ≡ some chat
      → IsPermitted settings message w
      → Suits d p settings message w (bot_target chat bot)
  bot_target-Suits to consumer link_site chat none e c l h q = to_nobody
  bot_target-Suits to consumer link_site chat (some bot) e c l h q =
      elim (Bool-cases (channel_enabled bot.channels.telegram)) [
        | inl on ↦ rw on (to_linked to consumer link_site chat e c l refl h q)
        | inr off ↦ rw off to_nobody
      ]

  chat_target-Chooses :
      (to : AddressedTo) (consumer link_site : String) (chat : Option String)
      → message.to ≡ some to
      → to.telegram ≡ some consumer
      → d.link_site ≡ some link_site
      → chat_for w.store.links link_site message.site_id consumer ≡ chat
      → IsPermitted settings message w
      → Chooses d p settings message w (chat_target link_site chat w)
  chat_target-Chooses to consumer link_site none e c l h q = decided w _ refl to_nobody
  chat_target-Chooses to consumer link_site (some chat) e c l h q =
      got (get_settings link_site w.store)
    where
      got :
          (g : SettingsStore × Result (Option SiteSettings))
          → Chooses d p settings message w
              (continue (λ bot. pure (bot_target chat bot)) (in_world w g))
      got (s, ok bot) =
          decided (record w { store = s }) _ refl
            (bot_target-Suits to consumer link_site chat bot e c l h q)
      got (s, err x) = failed (record w { store = s }) x refl

  link_target-Chooses :
      (to : AddressedTo) (consumer : String) (link_site : Option String)
      → message.to ≡ some to
      → to.telegram ≡ some consumer
      → d.link_site ≡ link_site
      → IsPermitted settings message w
      → Chooses d p settings message w (link_target message consumer link_site w)
  unfolding linked_chat
  link_target-Chooses to consumer none e c l q = decided w _ refl to_nobody
  link_target-Chooses to consumer (some link_site) e c l q =
      chat_target-Chooses to consumer link_site _ e c l refl q

  linked_recipient-Chooses :
      (to : AddressedTo) (consumer : String)
      → message.to ≡ some to
      → to.telegram ≡ some consumer
      → Chooses d p settings message w (linked_recipient d settings message consumer w)
  unfolding linked_recipient addressed_sent_today
  linked_recipient-Chooses to consumer e c =
      elim (Bool-cases (contains message.message_type settings.addressed.types)) [
        | inr no_type ↦ rw no_type (decided w _ refl to_nobody)
        | inl of_type ↦ rw of_type (elim (Bool-cases w.store.reads) [
          | inr down ↦ simp down (failed w _ refl)
          | inl up ↦
              simp up
                (elim (Bool-cases (
                  leb settings.addressed.daily_cap
                    (or_else (lookup message.site_id w.store.counters) 0))) [
                      | inl full ↦ rw full (decided w _ refl to_nobody)
                      | inr room ↦ rw room (
                          link_target-Chooses to consumer d.link_site e c refl
                            (permitted of_type room))
                    ])
        ])
      ]

  target_to-Chooses :
      (to : AddressedTo) (telegram : Option String)
      → message.to ≡ some to
      → to.telegram ≡ telegram
      → Chooses d p settings message w (target_to p d settings message to telegram w)
  target_to-Chooses to none e t = addressed_recipient-Chooses to e t
  target_to-Chooses to (some consumer) e t = linked_recipient-Chooses to consumer e t

  -- Choosing whom a message is for sends nothing, and chooses only a suitable target.
  pub target_of-Chooses :
      (to : Option AddressedTo)
      → message.to ≡ to
      → Chooses d p settings message w (target_of p d settings message to w)
  target_of-Chooses none e = decided w everyone refl (to_everyone e)
  target_of-Chooses (some to) e = target_to-Chooses to to.telegram e refl
