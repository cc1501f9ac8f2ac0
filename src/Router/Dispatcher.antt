-- ===== src/Router/Dispatcher.antt =====
-- `MessageDispatcher::dispatch` of src/router/dispatcher.rs: which channels a message takes, to whom,
-- and what came of each.
pub mod Accounting
pub mod Safety
pub mod Asked
pub mod Allowed
pub mod Sends
use Prim.Native.String.{String, ◌++◌}
use geodineum_comms.Prelude.{
  ℕ, ◌+◌, ◌==◌, Bool, true, false, not, ◌&&◌, ◌||◌, Option, none, some, List, [], ◌∷◌, keep, any,
  leb, if◌then◌else◌,
}
use geodineum_comms.Prelude.Lists.{append}
use geodineum_comms.Prelude.Texts.{contains}
use geodineum_comms.Prelude.Chars.{trim, is_empty_text}
use geodineum_comms.Errors.{
  CommsError, channel, site_not_found, Result, ok, err, DispatchError, to_string,
}
use geodineum_comms.Message.{CommsMessage, ChannelConfig, RecipientConfig, AddressedTo, is_empty}
use geodineum_comms.Settings.{SiteSettings, RoutingRule}
use geodineum_comms.Settings.Store.{
  SettingsStore, Action, get_settings, addressed_sent_today, count_addressed, linked_chat,
}
use geodineum_comms.Router.Channel.{Providers, World, MessageDispatcher, dispatch_to_channel}
use geodineum_comms.Router.Outcome.{DispatchResult, no_result, add_skipped, note}
use geodineum_comms.Router.Target.{
  M, ◌>>=◌, continue, pure, on_store, Target, everyone, person, linked, refused, channel_enabled,
  target_of,
}

unfoldable pub first_rule : String → List RoutingRule → Option (List String)
first_rule message_type [] = none
first_rule message_type (r ∷ rs) =
    if r.message_type == message_type || r.message_type == "all"
    then some r.channels
    else first_rule message_type rs

abbrev pub enabled_channel : String → Option ChannelConfig → List String
enabled_channel name c = if channel_enabled c then name ∷ [] else []

abbrev pub enabled_channels : SiteSettings → List String
enabled_channels s =
    append (enabled_channel "email" s.channels.email) (
      append (enabled_channel "telegram" s.channels.telegram)
        (enabled_channel "sms" s.channels.sms))

abbrev pub rule_or : List String → Option (List String) → List String
rule_or channels none = channels
rule_or channels (some cs) = cs

abbrev pub requested : CommsMessage → List String
requested message = elim message.dispatch [ none ↦ [] | some i ↦ i.channels ]

unfoldable pub determine_channels : SiteSettings → CommsMessage → List String
determine_channels settings message =
    if is_empty (requested message)
    then rule_or (enabled_channels settings)
        (first_rule message.message_type settings.routing_rules)
    else requested message

-- `retain(|c| only.contains(c))`, if `only` is there and not empty
abbrev pub restrict : Option (List String) → List String → List String
restrict none channels = channels
restrict (some only) channels =
    if is_empty only then channels else keep (λ c. contains c only) channels

abbrev pub is_sentinel : String → Bool
is_sentinel name = name == "record" || (name == "log" || name == "none")

abbrev pub noted :
    Providers → String → DispatchResult → World × Result (Option String) → World × DispatchResult
noted p name r (w, outcome) = (w, note p name outcome r)

-- one round of the loop over the channels
unfoldable pub dispatch_one :
    Providers
    → MessageDispatcher
    → CommsMessage
    → SiteSettings
    → Option RecipientConfig
    → String
    → World
    → DispatchResult
    → World × DispatchResult
dispatch_one p d message settings addressed name w r =
    if is_sentinel name
    then (w, add_skipped p name "recorded only" r)
    else noted p name r (dispatch_to_channel p d name message settings addressed w)

unfoldable pub dispatch_loop :
    Providers
    → MessageDispatcher
    → CommsMessage
    → SiteSettings
    → Option RecipientConfig
    → List String
    → World
    → DispatchResult
    → World × DispatchResult
dispatch_loop p d message settings addressed [] w r = (w, r)
dispatch_loop p d message settings addressed (name ∷ names) w r =
    let (w', r') = dispatch_one p d message settings addressed name w r in
    dispatch_loop p d message settings addressed names w' r'

abbrev pub counts : DispatchResult → Bool
counts r = any (λ c. c == "email" || c == "telegram") r.successful_channels

-- `count_addressed`, whose failure is only logged
abbrev pub count_if : Bool → String → World × DispatchResult → World × Result DispatchResult
count_if addressed site_id (w, r) =
    if addressed && counts r
    then (record w { store = (count_addressed site_id w.store).0 }, ok r)
    else (w, ok r)

-- `dispatch_filtered` behind the target
unfoldable pub dispatch_to :
    Providers
    → MessageDispatcher
    → SiteSettings
    → CommsMessage
    → Option (List String)
    → Target
    → M DispatchResult
dispatch_to p d settings message only everyone w = count_if false message.site_id (
    dispatch_loop p d message settings none (restrict only (determine_channels settings message)) w
      (no_result message.id))
dispatch_to p d settings message only (person r) w = count_if true message.site_id (
    dispatch_loop p d message settings (some r) (restrict only ("email" ∷ [])) w
      (no_result message.id))
dispatch_to p d settings message only (linked r bot) w = count_if true message.site_id (
    dispatch_loop p d message bot (some r) (restrict only ("telegram" ∷ [])) w
      (no_result message.id))
dispatch_to p d settings message only (refused name why) w =
    (w, ok (record (no_result message.id) { skipped_channels = (name ++ " (" ++ why ++ ")") ∷ [] }))

abbrev pub with_settings :
    Providers
    → MessageDispatcher
    → CommsMessage
    → Option (List String)
    → Option SiteSettings
    → M DispatchResult
with_settings p d message only none w = (w, err (site_not_found message.site_id))
with_settings p d message only (some settings) w =
    if not settings.enabled
    then (w, ok (record (no_result message.id) { skipped_channels = "all (site disabled)" ∷ [] }))
    else continue (dispatch_to p d settings message only)
        (target_of p d settings message message.to w)

unfoldable pub dispatch_filtered :
    Providers → MessageDispatcher → CommsMessage → Option (List String) → M DispatchResult
dispatch_filtered p d message only = do
  found ← on_store (get_settings message.site_id)
  with_settings p d message only found

unfoldable pub dispatch : Providers → MessageDispatcher → CommsMessage → M DispatchResult
dispatch p d message = dispatch_filtered p d message none

unfoldable pub dispatch_channels :
    Providers → MessageDispatcher → CommsMessage → List String → M DispatchResult
dispatch_channels p d message only = dispatch_filtered p d message (some only)
