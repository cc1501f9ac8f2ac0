-- ===== src/Consumer/Reading.antt =====
-- `StreamConsumer` of src/consumer/stream_reader.rs: which streams are read, and what comes of their
-- entries. `groups` are the streams that have the consumer group. What ValKey answers are arguments.
use Prim.Native.String.{String}
use geodineum_comms.Prelude.{
  ℕ, ◌-◌, ◌||◌, Option, none, some, List, [], ◌∷◌, ltb, eqb, if◌then◌else◌,
}
use geodineum_comms.Prelude.Dict.{Dict, insert}
use geodineum_comms.Prelude.Texts.{contains}
use geodineum_comms.Errors.{CommsError, Result, ok, err}
use geodineum_comms.Message.{CommsMessage}
use geodineum_comms.Consumer.{Decoder, StreamEntry, parse_message}
use geodineum_comms.Consumer.Discovery.{
  SiteDiscovery, discover_sites, get_stream_key, get_all_stream_keys,
}

pub record StreamConsumer : Type 0 where
  pub site_discovery : SiteDiscovery
  pub groups : List String
  pub discovery_interval : ℕ
  pub last_discovery : ℕ

-- What ValKey answers to the commands of one round: the two scans, and the stream keys for which
-- `XGROUP CREATE` fails, other than for a group that is there, with the error.
pub record Answers : Type 0 where
  pub now : ℕ
  pub keys : Result (List String)
  pub meta : Option (List String)
  pub no_group : String → Option CommsError

-- A group that is there is fine (`BUSYGROUP`).
unfoldable pub ensure_consumer_group :
    Answers → String → List String → List String × Result (Unit {0})
ensure_consumer_group a key groups = elim (a.no_group key) [
  | some e ↦ (groups, err e)
  | none ↦ (if contains key groups then groups else key ∷ groups, ok tt)
]

abbrev pub go_on :
    (List String → List String × Result (Unit {0}))
    → List String × Result (Unit {0})
    → List String × Result (Unit {0})
go_on f (groups, ok u) = f groups
go_on f (groups, err e) = (groups, err e)

-- the loop of `sync_groups`
unfoldable pub ensure_groups :
    Answers → SiteDiscovery → List String → List String → List String × Result (Unit {0})
ensure_groups a d [] groups = (groups, ok tt)
ensure_groups a d (site ∷ sites) groups =
    go_on (ensure_groups a d sites) (ensure_consumer_group a (get_stream_key site d) groups)

abbrev pub grouped :
    Answers → StreamConsumer → List String × Result (Unit {0}) → StreamConsumer × Result (Unit {0})
grouped a c (groups, ok u) = (record c { groups = groups; last_discovery = a.now }, ok u)
grouped a c (groups, err e) = (record c { groups = groups }, err e)

abbrev pub with_sites :
    Answers
    → StreamConsumer
    → SiteDiscovery × Result (List String)
    → StreamConsumer × Result (Unit {0})
with_sites a c (d, err e) = (record c { site_discovery = d }, err e)
with_sites a c (d, ok sites) =
    grouped a (record c { site_discovery = d }) (ensure_groups a d sites c.groups)

unfoldable pub sync_groups : Answers → StreamConsumer → StreamConsumer × Result (Unit {0})
sync_groups a c = with_sites a c (discover_sites a.keys a.meta c.site_discovery)

abbrev pub next_try : Answers → StreamConsumer × Result (Unit {0}) → StreamConsumer
next_try a (c, ok u) = c
next_try a (c, err e) = record c { last_discovery = a.now }

unfoldable pub maybe_rediscover : Answers → StreamConsumer → StreamConsumer
maybe_rediscover a c =
    if eqb c.discovery_interval 0 || ltb (a.now - c.last_discovery) c.discovery_interval
    then c
    else next_try a (sync_groups a c)

-- The fields of an entry, whose keys and values stand in turn.
unfoldable pub fields_from : Dict String → List String → Dict String
fields_from fields [] = fields
fields_from fields (k ∷ []) = fields
fields_from fields (k ∷ v ∷ rest) = fields_from (insert k v fields) rest

-- `fields.into_iter().collect()`
unfoldable pub collect : Dict String → List (String × String) → Dict String
collect fields [] = fields
collect fields ((k, v) ∷ rest) = collect (insert k v fields) rest

pub record StreamReadReply : Type 0 where
  pub key : String
  pub entries : List StreamEntry

abbrev pub kept :
    String → Result CommsMessage → List (String × CommsMessage) → List (String × CommsMessage)
kept id (ok m) rest = (id, m) ∷ rest
kept id (err e) rest = rest

-- The entries of a stream that are messages; the others are passed over.
unfoldable pub parse_entries :
    Decoder
    → String
    → List StreamEntry
    → List (String × CommsMessage)
    → List (String × CommsMessage)
parse_entries p key [] rest = rest
parse_entries p key (e ∷ es) rest = kept e.id (parse_message p key e) (parse_entries p key es rest)

unfoldable pub parse_streams : Decoder → List StreamReadReply → List (String × CommsMessage)
parse_streams p [] = []
parse_streams p (s ∷ ss) = parse_entries p s.key s.entries (parse_streams p ss)

abbrev pub messages_of :
    Decoder → Result (Option (List StreamReadReply)) → Result (List (String × CommsMessage))
messages_of p (ok none) = ok []
messages_of p (ok (some streams)) = ok (parse_streams p streams)
messages_of p (err e) = err e

abbrev pub read_keys :
    Decoder
    → (List String → Result (Option (List StreamReadReply)))
    → List String
    → Result (List (String × CommsMessage))
read_keys p xreadgroup [] = ok []
read_keys p xreadgroup (key ∷ more) = messages_of p (xreadgroup (key ∷ more))

-- `xreadgroup` is what the command gives for the stream keys, to a consumer whose groups are these.
unfoldable pub read_messages :
    Decoder
    → Answers
    → (List String → List String → Result (Option (List StreamReadReply)))
    → StreamConsumer
    → StreamConsumer × Result (List (String × CommsMessage))
read_messages p a xreadgroup c =
    let c' = maybe_rediscover a c in
    (c', read_keys p (xreadgroup c'.groups) (get_all_stream_keys c'.site_discovery))

-- The first entry of `XRANGE`, if there is one.
abbrev pub first_entry :
    Decoder → String → List (String × List (String × String)) → Result (Option CommsMessage)
first_entry p key [] = ok none
first_entry p key ((id, fields) ∷ more) =
    elim (parse_message p key (record { id = id; fields = collect [] fields })) [
      | ok m ↦ ok (some m)
      | err e ↦ err e
    ]

unfoldable pub fetch_message :
    Decoder
    → String
    → Result (List (String × List (String × String)))
    → Result (Option CommsMessage)
fetch_message p key (err e) = err e
fetch_message p key (ok reply) = first_entry p key reply

-- A stream whose `XAUTOCLAIM` fails is passed over.
abbrev pub claimed :
    Decoder
    → String
    → Option (List StreamEntry)
    → List (String × CommsMessage)
    → List (String × CommsMessage)
claimed p key none rest = rest
claimed p key (some entries) rest = parse_entries p key entries rest

unfoldable pub claim_pending :
    Decoder → (String → Option (List StreamEntry)) → List String → List (String × CommsMessage)
claim_pending p xautoclaim [] = []
claim_pending p xautoclaim (key ∷ keys) =
    claimed p key (xautoclaim key) (claim_pending p xautoclaim keys)
