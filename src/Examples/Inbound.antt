-- ===== src/Examples/Inbound.antt =====
-- The results on the streams at concrete inputs.
use geodineum_comms.Prelude.{◌≡◌, refl, true, false, none, some, List, [], ◌∷◌}
use geodineum_comms.Prelude.Dict.{lookup}
use geodineum_comms.Prelude.Chars.{
  trim, upto, strip_prefix, trim_start, trim_end, trim_start_char, trim_end_char,
  eq_ignore_ascii_case,
}
use geodineum_comms.Dtap.{is_production}
use geodineum_comms.Errors.{ok}
use geodineum_comms.Daemon.{stream_key}
use geodineum_comms.Router.Dispatcher.{dispatch_filtered}
use geodineum_comms.Consumer.{
  Decoder, StreamEntry, parse_message, message_of, is_site_id, site_of_key, validate_site_id,
}
use geodineum_comms.Consumer.Discovery.{SiteDiscovery, get_stream_key}
use geodineum_comms.Consumer.Reading.{
  StreamConsumer, Answers, StreamReadReply, read_messages, maybe_rediscover,
}
use geodineum_comms.Consumer.Gate.{HasValidSites, read_messages-HasValidSites}
use geodineum_comms.Consumer.DryRun.{unstamped_not_sent}
use geodineum_comms.Consumer.Groups.{IsCovered, maybe_rediscover-IsCovered}
use geodineum_comms.Consumer.Acked.{stream_key-parse_message}
use geodineum_comms.Examples.{providers, dispatcher, world, setup}

abbrev decoder : Decoder
decoder = record {
  sender = λ s. none;
  content = λ s. none;
  metadata = λ s. none;
  dispatch = λ s. none;
  to = λ s. none;
  quoted = λ s. s;
  now = "2026-01-01T00:00:00Z";
}

abbrev staging : SiteDiscovery
staging = record { known_sites = "shop" ∷ []; environment = "staging" }

abbrev live : SiteDiscovery
live = record { known_sites = "shop" ∷ []; environment = "production" }

abbrev entry : StreamEntry
entry = record { id = "1-0"; fields = ("type", "contact") ∷ ("body", "Hello") ∷ [] }

parsed_staging :
    parse_message decoder (get_stream_key "shop" staging) entry
    ≡ ok (message_of decoder (get_stream_key "shop" staging) "shop" entry)
unfolding parse_message get_stream_key site_of_key validate_site_id is_site_id upto strip_prefix
    trim_start_char trim_end_char
parsed_staging = refl

site_is_valid : is_site_id "shop" ≡ true
unfolding is_site_id
site_is_valid = refl

staging_held : is_production "staging" ≡ false
unfolding is_production eq_ignore_ascii_case
staging_held = refl

unstamped_not_sent_example :
    (dispatch_filtered providers dispatcher
      (message_of decoder (get_stream_key "shop" staging) "shop" entry)
      none
      world).0.sent
    ≡ []
unfolding lookup upto strip_prefix trim trim_start trim_end
unstamped_not_sent_example =
    unstamped_not_sent decoder providers dispatcher none world "shop" staging entry
      (message_of decoder (get_stream_key "shop" staging) "shop" entry) refl site_is_valid refl
      staging_held parsed_staging

parsed_live :
    parse_message decoder (get_stream_key "shop" live) entry
    ≡ ok (message_of decoder (get_stream_key "shop" live) "shop" entry)
unfolding parse_message get_stream_key site_of_key validate_site_id is_site_id upto strip_prefix
    trim_start_char trim_end_char
parsed_live = refl

stream_key-parse_message_example :
    stream_key setup (message_of decoder (get_stream_key "shop" live) "shop" entry)
    ≡ get_stream_key "shop" live
stream_key-parse_message_example =
    stream_key-parse_message decoder setup "shop" live entry
      (message_of decoder (get_stream_key "shop" live) "shop" entry) site_is_valid refl parsed_live

abbrev scanned : Answers
scanned = record {
  now = 100;
  keys = ok ("{shop}:gnode:comms:production" ∷ "{blog}:gnode:comms:production" ∷ []);
  meta = none;
  no_group = λ key. none;
}

abbrev consumer : StreamConsumer
consumer = record {
  site_discovery = record { known_sites = []; environment = "production" };
  groups = [];
  discovery_interval = 60;
  last_discovery = 0;
}

abbrev reply : List StreamReadReply
reply = record { key = "{shop}:gnode:comms:production"; entries = entry ∷ [] } ∷ []

read_messages-HasValidSites_example :
    HasValidSites (read_messages decoder scanned (λ groups keys. ok (some reply)) consumer).1
read_messages-HasValidSites_example =
    read_messages-HasValidSites decoder scanned (λ groups keys. ok (some reply)) consumer

maybe_rediscover-IsCovered_example : IsCovered (maybe_rediscover scanned consumer)
maybe_rediscover-IsCovered_example =
    maybe_rediscover-IsCovered scanned consumer (λ key. refl) no_streams
  where
    no_streams : IsCovered consumer
    no_streams site h = cc
