-- ===== src/Router/Target.antt =====
-- Whom a message is for: `addressed_recipient` and `linked_recipient` of src/router/dispatcher.rs.
pub mod Choice
use Prim.Native.String.{String}
use geodineum_comms.Prelude.{
  Bool, false, not, Option, none, some, List, [], ◌∷◌, leb, if◌then◌else◌,
}
use geodineum_comms.Prelude.Texts.{contains}
use geodineum_comms.Prelude.Chars.{trim, is_empty_text}
use geodineum_comms.Errors.{Result, ok, err}
use geodineum_comms.Message.{CommsMessage, ChannelConfig, RecipientConfig, AddressedTo}
use geodineum_comms.Settings.{SiteSettings}
use geodineum_comms.Settings.Store.{
  SettingsStore, Action, get_settings, addressed_sent_today, linked_chat,
}
use geodineum_comms.Router.Channel.{Providers, World, MessageDispatcher}

-- A call that may fail, from one state of the world to the next.
abbrev pub M : Type 0 → Type 0
M A = World → World × Result A

infixl 5 ◌>>=◌
abbrev pub continue : {A B : Type 0} → (A → M B) → World × Result A → World × Result B
continue f (w, ok a) = f a w
continue f (w, err e) = (w, err e)

abbrev pub ◌>>=◌ : {A B : Type 0} → M A → (A → M B) → M B
◌>>=◌ m f w = continue f (m w)

abbrev pub pure : {A : Type 0} → A → M A
pure a w = (w, ok a)

abbrev pub in_world : {A : Type 0} → World → SettingsStore × Result A → World × Result A
in_world w (s, r) = (record w { store = s }, r)

abbrev pub on_store : {A : Type 0} → Action A → M A
on_store f w = in_world w (f w.store)

-- Whom a message is for: the site's recipients, one person by email, one linked account by Telegram
-- with the bot site's settings, or nobody, and why.
pub data Target : Type 0 where
  everyone : Target
  person : RecipientConfig → Target
  linked : RecipientConfig → SiteSettings → Target
  refused : String → String → Target

abbrev pub named : Option String → List (String × String)
named none = []
named (some n) = if is_empty_text n then [] else ("name", n) ∷ []

unfoldable pub addressed_recipient_config : String → Option String → RecipientConfig
addressed_recipient_config email name = record {
  address = ("email", email) ∷ named name;
  types = [];
  min_priority = 5;
}

-- `addressed_recipient`
unfoldable pub addressed_recipient :
    Providers → SiteSettings → CommsMessage → AddressedTo → M Target
addressed_recipient p settings message to =
    let email = trim to.email in
    if not (contains message.message_type settings.addressed.types)
    then pure (refused "email" "addressed_type_refused")
    else if not (p.is_address email)
    then pure (refused "email" "addressed_invalid")
    else do
      n ← on_store (addressed_sent_today message.site_id)
      if leb settings.addressed.daily_cap n
          then pure (refused "email" "addressed_cap")
          else pure (person (addressed_recipient_config email to.name))

abbrev pub chat_recipient : String → RecipientConfig
chat_recipient chat = record { address = ("chat_id", chat) ∷ []; types = []; min_priority = 5 }

abbrev pub channel_enabled : Option ChannelConfig → Bool
channel_enabled none = false
channel_enabled (some c) = c.enabled

-- the end of `linked_recipient`: the bot site's settings
abbrev pub bot_target : String → Option SiteSettings → Target
bot_target chat none = refused "telegram" "no_bot"
bot_target chat (some bot) =
    if channel_enabled bot.channels.telegram
    then linked (chat_recipient chat) bot
    else refused "telegram" "no_bot"

abbrev pub chat_target : String → Option String → M Target
chat_target link_site none = pure (refused "telegram" "not_linked")
chat_target link_site (some chat) = do
  bot ← on_store (get_settings link_site)
  pure (bot_target chat bot)

abbrev pub link_target : CommsMessage → String → Option String → M Target
link_target message consumer none w = (w, ok (refused "telegram" "no_bot"))
link_target message consumer (some link_site) w =
    chat_target link_site (linked_chat link_site message.site_id consumer w.store) w

-- `linked_recipient`
unfoldable pub linked_recipient :
    MessageDispatcher → SiteSettings → CommsMessage → String → M Target
linked_recipient d settings message consumer =
    if not (contains message.message_type settings.addressed.types)
    then pure (refused "telegram" "addressed_type_refused")
    else do
      n ← on_store (addressed_sent_today message.site_id)
      if leb settings.addressed.daily_cap n
          then pure (refused "telegram" "addressed_cap")
          else link_target message consumer d.link_site

abbrev pub target_to :
    Providers
    → MessageDispatcher
    → SiteSettings
    → CommsMessage
    → AddressedTo
    → Option String
    → M Target
target_to p d settings message to none = addressed_recipient p settings message to
target_to p d settings message to (some consumer) = linked_recipient d settings message consumer

abbrev pub target_of :
    Providers → MessageDispatcher → SiteSettings → CommsMessage → Option AddressedTo → M Target
target_of p d settings message none = pure everyone
target_of p d settings message (some to) = target_to p d settings message to to.telegram
