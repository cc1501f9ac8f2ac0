-- ===== src/Consumer/Acked.antt =====
-- The stream that src/main.rs acknowledges an entry on, against the one that
-- src/consumer/stream_reader.rs read it from.
use Prim.Native.String.{String}
use geodineum_comms.Prelude.{◌≡◌, refl, true}
use geodineum_comms.Errors.{ok}
use geodineum_comms.Message.{CommsMessage}
use geodineum_comms.Daemon.{Setup, stream_key}
use geodineum_comms.Consumer.{Decoder, StreamEntry, parse_message, message_of, is_site_id}
use geodineum_comms.Consumer.Discovery.{SiteDiscovery, get_stream_key}
use geodineum_comms.Consumer.Gate.{parse_message-get_stream_key}

-- An entry of a stream that the discovery names is acknowledged on that stream, where the daemon and
-- its discovery are of one environment, whatever the entry says of its site.
pub stream_key-parse_message :
    (p : Decoder) (setup : Setup) (site : String) (d : SiteDiscovery) (e : StreamEntry)
    (m : CommsMessage)
    → is_site_id site ≡ true
    → d.environment ≡ setup.environment
    → parse_message p (get_stream_key site d) e ≡ ok m
    → stream_key setup m ≡ get_stream_key site d
unfolding stream_key get_stream_key message_of
stream_key-parse_message p setup site d e m valid same h =
    simp (same, of_site (rw (parse_message-get_stream_key p site d e valid) at h)) refl
  where
    of_site : ok (message_of p (get_stream_key site d) site e) ≡ ok m → m.site_id ≡ site
    of_site q = cc
