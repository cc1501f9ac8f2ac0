-- ===== src/Conversation.antt =====
-- `ConversationState` of src/inbound/conversation_state.rs: the sessions of the operators' chats and the
-- alerts that wait for a reply, in ValKey. The times of expiry are in seconds; what serde_json, chrono
-- and Unicode give, and which commands succeed, are arguments.
pub mod Context
pub mod Session
use Prim.Native.String.{String, ◌++◌}
use geodineum_comms.Prelude.{
  ℕ, ◌+◌, ◌*◌, ◌^◌, ◌==◌, Bool, true, false, Option, none, some, List, [], ◌∷◌, any, ltb,
  if◌then◌else◌,
}
use geodineum_comms.Prelude.Dict.{Dict, lookup, insert, remove, or_else}
use geodineum_comms.Prelude.Chars.{trim, decimal, below}
use geodineum_comms.Errors.{CommsError, valkey, internal, Result, ok, err}

abbrev pub session_timeout_secs : ℕ
session_timeout_secs = 1_800

abbrev pub context_ttl_secs : ℕ
context_ttl_secs = 86_400

pub record ConvState : Type 0 where
  pub pipeline : String
  pub session_id : String
  pub last_command : String
  pub last_activity : String
  pub operator_id : String
  pub operator_name : String
  pub message_count : ℕ  -- u32

pub record ContextResolution : Type 0 where
  pub context_id : String
  pub component : String
  pub command : String
  pub callback_stream : String

-- A hash of ValKey, and when it expires.
pub record Hash : Type 0 where
  pub fields : Dict String
  pub expires : Option ℕ

-- The hashes, and the `active_context` keys, which are texts.
pub record Chats : Type 0 where
  pub hashes : Dict Hash
  pub active : Dict (String × ℕ)

-- `now` counts seconds, `stamp` is it in RFC 3339, `read_stamp` gives the nanoseconds of such a text.
pub record Clock : Type 0 where
  pub now : ℕ
  pub now_nanos : ℕ
  pub now_text : String
  pub stamp : String
  pub read_stamp : String → Option ℕ

-- The JSON of the reply options (that of a list of texts never fails), upper case, and what `HINCRBY key field 1` makes of a field.
pub record Codec : Type 0 where
  pub encode : List String → String
  pub decode : String → Option (List String)
  pub to_uppercase : String → String
  pub hincrby : Option String → Option String

-- Which round trips to ValKey succeed: those that read, that write, and that delete.
pub record Reached : Type 0 where
  pub touch : Bool
  pub write : Bool
  pub get : Bool
  pub hgetall : Bool
  pub del : Bool
  pub failure : String

unfoldable pub conv_key : String → String → String
conv_key site_id chat_id = "{" ++ site_id ++ "}:comms:conversation:" ++ chat_id

unfoldable pub ctx_key : String → String → String
ctx_key site_id context_id = "{" ++ site_id ++ "}:comms:context:" ++ context_id

unfoldable pub active_ctx_key : String → String → String
active_ctx_key site_id chat_id = "{" ++ site_id ++ "}:comms:active_context:" ++ chat_id

abbrev pub is_live : ℕ → Option ℕ → Bool
is_live now none = true
is_live now (some t) = ltb now t

abbrev pub fields_of : ℕ → Option Hash → Dict String
fields_of now none = []
fields_of now (some h) = if is_live now h.expires then h.fields else []

-- `HGETALL`
unfoldable pub hgetall : ℕ → String → Chats → Dict String
hgetall now key s = fields_of now (lookup key s.hashes)

abbrev pub expiry_of : ℕ → Option Hash → Option ℕ
expiry_of now none = none
expiry_of now (some h) = if is_live now h.expires then h.expires else none

unfoldable pub insert_all : List (String × String) → Dict String → Dict String
insert_all [] fields = fields
insert_all ((k, v) ∷ more) fields = insert_all more (insert k v fields)

-- `HSET`, which leaves the expiry of a hash that is there
unfoldable pub hset : ℕ → String → List (String × String) → Chats → Chats
hset now key values s =
    let h = lookup key s.hashes in
    record s {
      hashes =
          insert key
            (record { fields = insert_all values (fields_of now h); expires = expiry_of now h })
            s.hashes;
    }

abbrev pub expire_at : ℕ → Option Hash → String → Dict Hash → Dict Hash
expire_at t none key hashes = hashes
expire_at t (some h) key hashes = insert key (record h { expires = some t }) hashes

-- `EXPIRE`, on a hash that was just written
unfoldable pub expire : ℕ → String → ℕ → Chats → Chats
expire now key ttl s = record s {
  hashes = expire_at (now + ttl) (lookup key s.hashes) key s.hashes;
}

abbrev pub count_of : Option String → ℕ
count_of none = 0
count_of (some t) = or_else (below (2 ^ 32) (decimal t)) 0

unfoldable pub parse_conv_state : Dict String → String → ConvState
parse_conv_state fields default_pipeline = record {
  pipeline = or_else (lookup "pipeline" fields) default_pipeline;
  session_id = or_else (lookup "session_id" fields) "";
  last_command = or_else (lookup "last_command" fields) "";
  last_activity = or_else (lookup "last_activity" fields) "";
  operator_id = or_else (lookup "operator_id" fields) "";
  operator_name = or_else (lookup "operator_name" fields) "";
  message_count = count_of (lookup "message_count" fields);
}
