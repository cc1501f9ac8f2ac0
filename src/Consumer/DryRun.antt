-- ===== src/Consumer/DryRun.antt =====
-- The environment of a message, from the stream that src/consumer/site_discovery.rs names to the gate of
-- src/router/dispatcher.rs.
use geodineum_comms.Prelude.{
  String, ◌≡◌, refl, Bool, true, false, Option, none, some, List, if◌then◌else◌,
}
use geodineum_comms.Prelude.Dict.{lookup, or_else}
use geodineum_comms.Prelude.Chars.{upto}
use geodineum_comms.Dtap.{trimmed, is_production}
use geodineum_comms.Errors.{ok}
use geodineum_comms.Message.{CommsMessage}
use geodineum_comms.Router.Channel.{Providers, MessageDispatcher, World, send_block}
use geodineum_comms.Router.Dispatcher.{dispatch_filtered}
use geodineum_comms.Router.Dispatcher.Sends.{dispatch_blocked}
use geodineum_comms.Consumer.{
  Decoder, StreamEntry, parse_message, message_of, is_site_id, environment_of,
}
use geodineum_comms.Consumer.Discovery.{SiteDiscovery, get_stream_key}
use geodineum_comms.Consumer.SiteId.{environment_from_stream_key-get_stream_key}
use geodineum_comms.Consumer.Gate.{parse_message-get_stream_key}

-- What a message counts for that says nothing of its environment.
abbrev pub environment_of_streams : SiteDiscovery → String
environment_of_streams d = or_else (trimmed (some (upto ":gnode:comms:" d.environment))) "unknown"

environment_of_unstamped :
    (site : String) (d : SiteDiscovery) (e : StreamEntry)
    → is_site_id site ≡ true
    → trimmed (lookup "environment" e.fields) ≡ none
    → environment_of (get_stream_key site d) e.fields ≡ environment_of_streams d
unfolding environment_of
environment_of_unstamped site d e h s =
    simp (s, environment_from_stream_key-get_stream_key site d h) refl

abbrev marker_of : Bool → String
marker_of off = if off then "delivery_off" else "nonprod_dry_run"

send_block_nonprod :
    (off : Bool) (environment : String)
    → is_production environment ≡ false
    → send_block off false environment ≡ some (marker_of off)
unfolding send_block
send_block_nonprod true environment h = refl
send_block_nonprod false environment h = rw h refl

-- A daemon that may not send outside production sends nothing for an entry of its own streams which
-- carries no stamp of an environment, where the streams are not those of production.
pub unstamped_not_sent :
    (p : Decoder) (providers : Providers) (dispatcher : MessageDispatcher)
    (only : Option (List String)) (w : World) (site : String) (d : SiteDiscovery) (e : StreamEntry)
    (m : CommsMessage)
    → dispatcher.allow_nonprod_send ≡ false
    → is_site_id site ≡ true
    → trimmed (lookup "environment" e.fields) ≡ none
    → is_production (environment_of_streams d) ≡ false
    → parse_message p (get_stream_key site d) e ≡ ok m
    → (dispatch_filtered providers dispatcher m only w).0.sent ≡ w.sent
unfolding message_of
unstamped_not_sent p providers dispatcher only w site d e m held valid unstamped other h =
    dispatch_blocked providers dispatcher m only w (marker_of dispatcher.delivery_off)
      (simp (held, environment) (send_block_nonprod dispatcher.delivery_off _ other))
  where
    parsed_as : ok (message_of p (get_stream_key site d) site e) ≡ ok m
    parsed_as = rw (← parse_message-get_stream_key p site d e valid) h

    environment : m.environment ≡ environment_of_streams d
    environment = rw (← environment_of_unstamped site d e valid unstamped) (same parsed_as)
      where
        same :
            ok (message_of p (get_stream_key site d) site e) ≡ ok m
            → m.environment ≡ environment_of (get_stream_key site d) e.fields
        same q = cc
