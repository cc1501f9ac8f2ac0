-- ===== src/Router/Channel.antt =====
-- Sending over one channel: `send_block` and `dispatch_to_channel` of src/router/dispatcher.rs with
-- what they call. The channels' providers are a parameter; what they were asked to send is logged.
pub mod Gate
use Prim.Native.String.{String, ◌++◌}
use geodineum_comms.Prelude.{
  ℕ, ◌+◌, ◌==◌, Bool, true, false, not, ◌&&◌, Option, none, some, List, [], ◌∷◌, keep, eqb,
  if◌then◌else◌,
}
use geodineum_comms.Prelude.Lists.{append}
use geodineum_comms.Dtap.{is_production}
use geodineum_comms.Errors.{CommsError, channel, Result, ok, err}
use geodineum_comms.Message.{
  CommsMessage, ChannelConfig, RecipientConfig, SendResult, should_receive, is_empty,
}
use geodineum_comms.Settings.{SiteSettings}
use geodineum_comms.Settings.Store.{SettingsStore}

-- One call of a channel's `send`.
pub record Sent : Type 0 where
  pub channel : String
  pub message : CommsMessage
  pub recipient : RecipientConfig
  pub config : ChannelConfig

-- The registered channels and what their `send` answers after the calls before; whether
-- `lettre::Address` reads a text; and the clock.
pub record Providers : Type 0 where
  pub registered : String → Bool
  pub send : List Sent → Sent → Result SendResult
  pub is_address : String → Bool
  pub now : String

-- The latest call stands first.
pub record World : Type 0 where
  pub store : SettingsStore
  pub sent : List Sent

pub record MessageDispatcher : Type 0 where
  pub allow_nonprod_send : Bool
  pub delivery_off : Bool
  pub link_site : Option String

unfoldable pub send_block : Bool → Bool → String → Option String
send_block delivery_off allow_nonprod_send environment =
    if delivery_off
    then some "delivery_off"
    else if not (is_production environment) && not allow_nonprod_send
    then some "nonprod_dry_run"
    else none

unfoldable pub get_channel_config : String → SiteSettings → Option ChannelConfig
get_channel_config name settings =
    if name == "email"
    then settings.channels.email
    else if name == "telegram"
    then settings.channels.telegram
    else if name == "sms"
    then settings.channels.sms
    else none

unfoldable pub filter_recipients : ChannelConfig → CommsMessage → List RecipientConfig
filter_recipients config message =
    keep (λ r. should_receive r message.message_type message.priority) config.recipients

abbrev pub recipients_for :
    Option RecipientConfig → ChannelConfig → CommsMessage → List RecipientConfig
recipients_for none config message = filter_recipients config message
recipients_for (some r) config message = r ∷ []

abbrev pub is_delivery_off : Option String → Bool
is_delivery_off none = false
is_delivery_off (some m) = m == "delivery_off"

abbrev pub is_blocked : Option String → Bool
is_blocked none = false
is_blocked (some m) = true

-- A send that is allowed: over which configuration, and to whom.
pub record Plan : Type 0 where
  pub config : ChannelConfig
  pub recipients : List RecipientConfig

-- the checks of `dispatch_to_channel` behind the configuration
unfoldable pub plan_with :
    MessageDispatcher → String → CommsMessage → Option RecipientConfig → ChannelConfig → Result Plan
plan_with d name message addressed config =
    let recipients = recipients_for addressed config message in
    if not config.enabled
    then err (channel name "disabled")
    else if is_empty recipients
    then err (channel name "no_recipients")
    else if is_blocked (send_block false d.allow_nonprod_send message.environment)
    then err (channel name "nonprod_dry_run")
    else ok (record { config = config; recipients = recipients })

abbrev pub with_config : (ChannelConfig → Result Plan) → String → Option ChannelConfig → Result Plan
with_config go name none = err (channel name "Channel not configured")
with_config go name (some config) = go config

-- `dispatch_to_channel` up to the loop over the recipients
unfoldable pub plan :
    Providers
    → MessageDispatcher
    → String
    → CommsMessage
    → SiteSettings
    → Option RecipientConfig
    → Result Plan
plan p d name message settings addressed =
    if is_delivery_off (send_block d.delivery_off true message.environment)
    then err (channel name "delivery_off")
    else if not (p.registered name)
    then err (channel name "Channel not found")
    else with_config (plan_with d name message addressed) name (get_channel_config name settings)

-- What the loop over the recipients keeps; `success_count` stays far below the bound of an i32.
pub record Tally : Type 0 where
  pub last_error : Option CommsError
  pub success_count : ℕ
  pub provider_ids : List String

abbrev pub no_tally : Tally
no_tally = record { last_error = none; success_count = 0; provider_ids = [] }

abbrev pub push_id : Option String → List String → List String
push_id none ids = ids
push_id (some i) ids = append ids (i ∷ [])

unfoldable pub count_send : Result SendResult → Tally → Tally
count_send (ok r) t = record t {
  success_count = t.success_count + 1;
  provider_ids = push_id r.provider_id t.provider_ids;
}
count_send (err e) t = record t { last_error = some e }

unfoldable pub send_all :
    Providers
    → String
    → CommsMessage
    → ChannelConfig
    → List RecipientConfig
    → Tally
    → List Sent
    → List Sent × Tally
send_all p name message config [] t sent = (sent, t)
send_all p name message config (r ∷ rs) t sent =
    let s : Sent = record { channel = name; message = message; recipient = r; config = config } in
    send_all p name message config rs (count_send (p.send sent s) t) (s ∷ sent)

-- `join("; ")`
unfoldable pub join : List String → String
join [] = ""
join (i ∷ []) = i
join (i ∷ j ∷ is) = i ++ "; " ++ join (j ∷ is)

abbrev pub joined : List String → Option String
joined ids = if is_empty ids then none else some (join ids)

abbrev pub or_error : Option CommsError → Result (Option String) → Result (Option String)
or_error none r = r
or_error (some e) r = err e

unfoldable pub send_outcome : Tally → Result (Option String)
send_outcome t =
    let done = ok (joined t.provider_ids) in
    if eqb t.success_count 0 then or_error t.last_error done else done

abbrev pub carry_out :
    Providers → String → CommsMessage → World → Result Plan → World × Result (Option String)
carry_out p name message w (err e) = (w, err e)
carry_out p name message w (ok q) =
    let (sent, t) = send_all p name message q.config q.recipients no_tally w.sent in
    (record w { sent = sent }, send_outcome t)

unfoldable pub dispatch_to_channel :
    Providers
    → MessageDispatcher
    → String
    → CommsMessage
    → SiteSettings
    → Option RecipientConfig
    → World
    → World × Result (Option String)
dispatch_to_channel p d name message settings addressed w =
    carry_out p name message w (plan p d name message settings addressed)
