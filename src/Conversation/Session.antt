-- ===== src/Conversation/Session.antt =====
-- The sessions of the operators' chats, of src/inbound/conversation_state.rs.
pub mod Kept
use Prim.Native.String.{String, ◌++◌}
use geodineum_comms.Prelude.{
  ℕ, ◌+◌, ◌*◌, Bool, true, false, Option, none, some, List, [], ◌∷◌, ltb, if◌then◌else◌,
}
use geodineum_comms.Prelude.Dict.{Dict, lookup, insert, remove, or_else}
use geodineum_comms.Prelude.Tests.{from_secs}
use geodineum_comms.Errors.{CommsError, valkey, Result, ok, err}
use geodineum_comms.Conversation.{
  Chats, Clock, Codec, Reached, Hash, ConvState, session_timeout_secs, conv_key, active_ctx_key,
  hgetall, hset, parse_conv_state, insert_all,
}

-- The session that `create_session` writes.
abbrev pub new_session : Clock → String → String → String → String → ConvState
new_session c default_pipeline chat_id operator_id operator_name = record {
  pipeline = default_pipeline;
  session_id = "tg_" ++ chat_id ++ "_" ++ c.now_text;
  last_command = "";
  last_activity = c.stamp;
  operator_id = operator_id;
  operator_name = operator_name;
  message_count = 0;
}

abbrev pub session_fields : ConvState → List (String × String)
session_fields state =
    ("pipeline", state.pipeline)
    ∷ ("session_id", state.session_id)
    ∷ ("last_command", state.last_command)
    ∷ ("last_activity", state.last_activity)
    ∷ ("operator_id", state.operator_id)
    ∷ ("operator_name", state.operator_name)
    ∷ ("message_count", "0")
    ∷ []

unfoldable pub create_session :
    Clock → Reached → String → String → String → String → String → Chats → Chats × Result ConvState
create_session c r default_pipeline chat_id site_id operator_id operator_name s =
    let state = new_session c default_pipeline chat_id operator_id operator_name in
    if r.write
    then (hset c.now (conv_key site_id chat_id) (session_fields state) s, ok state)
    else (s, err (valkey r.failure))

-- Whether the last activity is a time that lies more than half an hour back.
unfoldable pub is_timed_out : Clock → ConvState → Bool
is_timed_out c state = elim (c.read_stamp state.last_activity) [
  | none ↦ false
  | some last ↦ ltb (last + from_secs session_timeout_secs) c.now_nanos
]

-- From the fields on that the transaction has read, before it touched them.
abbrev pub session_of :
    Clock
    → Reached
    → String
    → String
    → String
    → String
    → String
    → Dict String
    → Chats
    → Chats × Result ConvState
session_of c r default_pipeline chat_id site_id operator_id operator_name [] s =
    create_session c r default_pipeline chat_id site_id operator_id operator_name s
session_of c r default_pipeline chat_id site_id operator_id operator_name (field ∷ fields) s =
    let state = parse_conv_state (field ∷ fields) default_pipeline in
    if is_timed_out c state
    then create_session c r default_pipeline chat_id site_id operator_id operator_name s
    else (s, ok state)

unfoldable pub get_or_create :
    Clock → Reached → String → String → String → String → String → Chats → Chats × Result ConvState
get_or_create c r default_pipeline chat_id site_id operator_id operator_name s =
    let key = conv_key site_id chat_id in
    if r.touch
    then session_of c r default_pipeline chat_id site_id operator_id operator_name
        (hgetall c.now key s) (hset c.now key (("last_activity", c.stamp) ∷ []) s)
    else (s, err (valkey r.failure))

unfoldable pub set_pipeline :
    Clock → Reached → String → String → String → Chats → Chats × Result (Unit {0})
set_pipeline c r chat_id site_id pipeline s =
    if r.write
    then (hset c.now (conv_key site_id chat_id) (("pipeline", pipeline) ∷ []) s, ok tt)
    else (s, err (valkey r.failure))

-- The counter goes first; where it is no number, `HINCRBY` fails and the `HSET` behind it is done.
unfoldable pub record_message :
    Clock → Codec → Reached → String → String → String → Chats → Chats × Result (Unit {0})
record_message c j r chat_id site_id command_text s =
    let key = conv_key site_id chat_id in
    let said = ("last_command", command_text) ∷ ("last_activity", c.stamp) ∷ [] in
    if r.write
    then elim (j.hincrby (lookup "message_count" (hgetall c.now key s))) [
      | some n ↦ (hset c.now key said (hset c.now key (("message_count", n) ∷ []) s), ok tt)
      | none ↦ (hset c.now key said s, err (valkey r.failure))
    ]
    else (s, err (valkey r.failure))

unfoldable pub reset : Reached → String → String → Chats → Chats × Result (Unit {0})
reset r chat_id site_id s =
    if r.del
    then (
      record {
        hashes = remove (conv_key site_id chat_id) s.hashes;
        active = remove (active_ctx_key site_id chat_id) s.active;
      },
      ok tt,
    )
    else (s, err (valkey r.failure))

abbrev pub state_of : String → Dict String → Option ConvState
state_of default_pipeline [] = none
state_of default_pipeline (field ∷ fields) =
    some (parse_conv_state (field ∷ fields) default_pipeline)

unfoldable pub get : Clock → Reached → String → String → String → Chats → Result (Option ConvState)
get c r default_pipeline chat_id site_id s =
    if r.hgetall
    then ok (state_of default_pipeline (hgetall c.now (conv_key site_id chat_id) s))
    else err (valkey r.failure)
