-- ===== src/Consumer/Gate.antt =====
-- What the daemon may rely on of a message of src/consumer/stream_reader.rs: whose it is, and which
-- environment it counts for.
use Prim.Native.String.{String}
use geodineum_comms.Prelude.{
  ◌≡◌, refl, inl, inr, true, false, ◌⊎◌, Bool-cases, Option, none, some, List, [], ◌∷◌, All,
}
use geodineum_comms.Errors.{CommsError, Result, ok, err}
use geodineum_comms.Message.{CommsMessage}
use geodineum_comms.Consumer.{
  Decoder, StreamEntry, parse_message, message_of, validate_site_id, is_site_id, site_of_key,
}
use geodineum_comms.Consumer.Discovery.{SiteDiscovery, get_stream_key, get_all_stream_keys}
use geodineum_comms.Consumer.Reading.{
  StreamReadReply, StreamConsumer, Answers, kept, claimed, messages_of, read_keys, read_messages,
  maybe_rediscover, parse_entries, parse_streams, claim_pending,
}
use geodineum_comms.Consumer.SiteId.{site_of_key-get_stream_key}

abbrev IsOfValidSite : CommsMessage → Type 0
IsOfValidSite m = is_site_id m.site_id ≡ true

-- An entry is parsed to a message only of a site with a valid id.
parse_message-IsOfValidSite :
    (p : Decoder) (key : String) (e : StreamEntry) (m : CommsMessage)
    → parse_message p key e ≡ ok m
    → IsOfValidSite m
unfolding parse_message validate_site_id message_of
parse_message-IsOfValidSite p key e m h = by_site (Bool-cases (is_site_id (site_of_key key)))
  where
    by_site :
        (is_site_id (site_of_key key) ≡ true) ⊎ (is_site_id (site_of_key key) ≡ false)
        → IsOfValidSite m
    by_site (inl good) = rw (← of_key (rw good at h)) good
      where
        of_key : ok (message_of p key (site_of_key key) e) ≡ ok m → site_of_key key ≡ m.site_id
        of_key q = cc
    by_site (inr bad) = absurd (refused (rw bad at h))
      where
        refused : {x : CommsError} → err x ≡ ok m → ⊥
        refused q = cc

abbrev pub AreOfValidSites : List (String × CommsMessage) → Type 0
AreOfValidSites ms = All (λ x. IsOfValidSite x.1) ms

kept-AreOfValidSites :
    (id : String) (r : Result CommsMessage) (rest : List (String × CommsMessage))
    → ((m : CommsMessage) → r ≡ ok m → IsOfValidSite m)
    → AreOfValidSites rest
    → AreOfValidSites (kept id r rest)
kept-AreOfValidSites id (ok m) rest h hs = (h m refl, hs)
kept-AreOfValidSites id (err e) rest h hs = hs

parse_entries-AreOfValidSites :
    (p : Decoder) (key : String) (es : List StreamEntry) (rest : List (String × CommsMessage))
    → AreOfValidSites rest
    → AreOfValidSites (parse_entries p key es rest)
unfolding parse_entries
parse_entries-AreOfValidSites p key [] rest hs = hs
parse_entries-AreOfValidSites p key (e ∷ es) rest hs =
    kept-AreOfValidSites e.id (parse_message p key e) _ (parse_message-IsOfValidSite p key e)
      (parse_entries-AreOfValidSites p key es rest hs)

parse_streams-AreOfValidSites :
    (p : Decoder) (ss : List StreamReadReply) → AreOfValidSites (parse_streams p ss)
unfolding parse_streams
parse_streams-AreOfValidSites p [] = tt
parse_streams-AreOfValidSites p (s ∷ ss) =
    parse_entries-AreOfValidSites p s.key s.entries _ (parse_streams-AreOfValidSites p ss)

claimed-AreOfValidSites :
    (p : Decoder) (key : String) (o : Option (List StreamEntry))
    (rest : List (String × CommsMessage))
    → AreOfValidSites rest
    → AreOfValidSites (claimed p key o rest)
claimed-AreOfValidSites p key none rest hs = hs
claimed-AreOfValidSites p key (some entries) rest hs =
    parse_entries-AreOfValidSites p key entries rest hs

-- Whatever pending entries ValKey hands over, each message that the daemon takes from them is of a
-- site whose id is valid.
pub claim_pending-AreOfValidSites :
    (p : Decoder) (xautoclaim : String → Option (List StreamEntry)) (keys : List String)
    → AreOfValidSites (claim_pending p xautoclaim keys)
unfolding claim_pending
claim_pending-AreOfValidSites p xautoclaim [] = tt
claim_pending-AreOfValidSites p xautoclaim (key ∷ keys) =
    claimed-AreOfValidSites p key (xautoclaim key) _
      (claim_pending-AreOfValidSites p xautoclaim keys)

unfoldable pub HasValidSites : Result (List (String × CommsMessage)) → Type 0
HasValidSites (ok ms) = AreOfValidSites ms
HasValidSites (err e) = Unit {0}

messages_of-HasValidSites :
    (p : Decoder) (r : Result (Option (List StreamReadReply))) → HasValidSites (messages_of p r)
unfolding HasValidSites
messages_of-HasValidSites p (ok none) = tt
messages_of-HasValidSites p (ok (some streams)) = parse_streams-AreOfValidSites p streams
messages_of-HasValidSites p (err e) = tt

-- Whatever a round of reading gets from ValKey, each message that it gives the daemon is of a site
-- whose id is valid.
pub read_messages-HasValidSites :
    (p : Decoder) (a : Answers)
    (xreadgroup : List String → List String → Result (Option (List StreamReadReply)))
    (c : StreamConsumer)
    → HasValidSites (read_messages p a xreadgroup c).1
unfolding read_messages HasValidSites
read_messages-HasValidSites p a xreadgroup c =
    of_keys (get_all_stream_keys (maybe_rediscover a c).site_discovery)
  where
    of_keys :
        (keys : List String)
        → HasValidSites (read_keys p (xreadgroup (maybe_rediscover a c).groups) keys)
    of_keys [] = tt
    of_keys (key ∷ more) =
        messages_of-HasValidSites p (xreadgroup (maybe_rediscover a c).groups (key ∷ more))

-- An entry of the stream that a discovery names for a valid site is a message of just that site.
pub parse_message-get_stream_key :
    (p : Decoder) (site : String) (d : SiteDiscovery) (e : StreamEntry)
    → is_site_id site ≡ true
    → parse_message p (get_stream_key site d) e ≡ ok (message_of p (get_stream_key site d) site e)
unfolding parse_message validate_site_id
parse_message-get_stream_key p site d e h = simp (site_of_key-get_stream_key site d h, h) refl
