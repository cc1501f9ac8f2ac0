-- ===== src/Consumer.antt =====
-- src/consumer/stream_reader.rs: how an entry of a stream becomes a message. What serde_json reads a
-- field as, Rust's quoting of a text and the clock are parameters.
pub mod Discovery
pub mod Reading
pub mod SiteId
pub mod Gate
pub mod DryRun
pub mod Groups
pub mod Acked
use Prim.Native.String.{String, ◌++◌, count}
use geodineum_comms.Prelude.{
  ℕ, ◌+◌, Bool, true, false, not, ◌&&◌, ◌||◌, Option, none, some, List, [], ◌∷◌, ltb, leb, eqb,
  if◌then◌else◌,
}
use geodineum_comms.Prelude.Dict.{Dict, lookup, or_else}
use geodineum_comms.Prelude.Chars.{
  is_empty_text, trim, upto, all_codes, is_digit, trim_start_char, trim_end_char, byte_length,
  decimal, below,
}
use geodineum_comms.Dtap.{environment_from_stream_key, trimmed}
use geodineum_comms.Errors.{CommsError, internal, Result, ok, err}
use geodineum_comms.Message.{
  CommsMessage, SenderInfo, MessageContent, DispatchInfo, AddressedTo, Json,
}

-- What JSON texts decode to, `{:?}` of a text, and `Utc::now().to_rfc3339()`.
pub record Decoder : Type 0 where
  pub sender : String → Option SenderInfo
  pub content : String → Option MessageContent
  pub metadata : String → Option (Dict Json)
  pub dispatch : String → Option DispatchInfo
  pub to : String → Option AddressedTo
  pub quoted : String → String
  pub now : String

pub record StreamEntry : Type 0 where
  pub id : String
  pub fields : Dict String

abbrev pub max_field_bytes : ℕ
max_field_bytes = 65_536

unfoldable pub parse_field_safely : {A : Type 0} → (String → Option A) → String → Option A
parse_field_safely from_str s = if ltb max_field_bytes (byte_length s) then none else from_str s

-- a character of `[a-z0-9_-]`
abbrev pub is_site_code : ℕ → Bool
is_site_code c = (leb b'a' c && leb c b'z') || (is_digit c || (eqb c b'_' || eqb c b'-'))

-- `SITE_ID_RE`
unfoldable pub is_site_id : String → Bool
is_site_id s = leb 1 (count s) && (leb (count s) 64 && all_codes is_site_code s)

unfoldable pub validate_site_id : Decoder → String → Result (Unit {0})
validate_site_id p site_id =
    if is_site_id site_id
    then ok tt
    else err (
        internal ("rejected site_id " ++ p.quoted site_id ++ ": does not match ^[a-z0-9_-]{1,64}$"))

-- The site of a stream key: what stands before `:gnode:comms:`, without the braces of the hash tag.
unfoldable pub site_of_key : String → String
site_of_key stream_key = trim_end_char b'}' (trim_start_char b'{' (upto ":gnode:comms:" stream_key))

abbrev pub parsed : {A : Type 0} → (String → Option A) → Option String → Option A
parsed from_str none = none
parsed from_str (some s) = parse_field_safely from_str s

abbrev pub first_of : {A : Type 0} → Option A → Option A → Option A
first_of none o = o
first_of (some a) o = some a

-- `priority`, a u8
abbrev pub priority_of : Option String → ℕ
priority_of none = 3
priority_of (some s) = or_else (below 256 (decimal s)) 3

-- The content where there is none, or none that decodes.
unfoldable pub plain_content : Dict String → MessageContent
plain_content fields = record {
  subject = lookup "subject" fields;
  body = first_of (lookup "body" fields) (lookup "message" fields);
  attachments = [];
}

-- The environment of a message: its own stamp, or that of the stream it came on.
unfoldable pub environment_of : String → Dict String → String
environment_of stream_key fields =
    or_else
      (first_of (trimmed (lookup "environment" fields)) (environment_from_stream_key stream_key))
      "unknown"

unfoldable pub message_of : Decoder → String → String → StreamEntry → CommsMessage
message_of p stream_key site_id entry =
    let fields = entry.fields in
    record {
      id = or_else (lookup "id" fields) entry.id;
      message_type = or_else (lookup "type" fields) "unknown";
      timestamp = or_else (lookup "timestamp" fields) p.now;
      site_id = site_id;
      priority = priority_of (lookup "priority" fields);
      sender = parsed p.sender (lookup "sender" fields);
      content = or_else (parsed p.content (lookup "content" fields)) (plain_content fields);
      metadata = or_else (parsed p.metadata (lookup "metadata" fields)) [];
      environment = environment_of stream_key fields;
      dispatch = parsed p.dispatch (lookup "dispatch" fields);
      to = parsed p.to (lookup "to" fields);
    }

abbrev pub when_valid : {A : Type 0} → Result (Unit {0}) → A → Result A
when_valid (ok u) a = ok a
when_valid (err e) a = err e

unfoldable pub parse_message : Decoder → String → StreamEntry → Result CommsMessage
parse_message p stream_key entry =
    when_valid (validate_site_id p (site_of_key stream_key))
      (message_of p stream_key (site_of_key stream_key) entry)
