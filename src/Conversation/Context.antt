-- ===== src/Conversation/Context.antt =====
-- The alerts that wait for a reply, of src/inbound/conversation_state.rs.
pub mod Resolved
use Prim.Native.String.{String, ◌++◌}
use geodineum_comms.Prelude.{
  ℕ, ◌+◌, ◌≡◌, refl, Bool, true, false, Option, none, some, List, [], ◌∷◌, any, ltb, ◌==◌, eq_iff,
  eq_refl, arith, ap, sym, ◌∙◌, if◌then◌else◌, ◌≢◌, ◌<◌,
}
use geodineum_comms.Prelude.Dict.{
  Dict, lookup, insert, remove, or_else, lookup-insert, lookup-remove,
}
use geodineum_comms.Prelude.Chars.{trim}
use geodineum_comms.Errors.{CommsError, valkey, internal, Result, ok, err}
use geodineum_comms.Conversation.{
  Chats, Clock, Codec, Reached, Hash, ContextResolution, context_ttl_secs, ctx_key, active_ctx_key,
  hgetall, hset, expire, is_live, insert_all,
}

-- The pipelined commands of a tracking are sent together: none takes effect where ValKey is not reached.
unfoldable pub track_callback_context :
    Clock
    → Codec
    → Reached
    → String
    → String
    → String
    → List String
    → String
    → Chats
    → Chats × Result (Unit {0})
track_callback_context c j r site_id context_id component reply_options callback_stream s =
    if r.write
    then (
      expire c.now (ctx_key site_id context_id) context_ttl_secs (
          hset c.now (ctx_key site_id context_id)
            (("component", component)
              ∷ ("reply_options", j.encode reply_options)
              ∷ ("callback_stream", callback_stream)
              ∷ ("created_at", c.stamp)
              ∷ [])
            s),
      ok tt,
    )
    else (s, err (internal ("Failed to track callback context: " ++ r.failure)))

abbrev pub context_fields :
    Clock → Codec → String → List String → String → String → List (String × String)
context_fields c j component reply_options callback_stream original_message_id =
    ("component", component)
    ∷ ("reply_options", j.encode reply_options)
    ∷ ("callback_stream", callback_stream)
    ∷ ("original_message_id", original_message_id)
    ∷ ("created_at", c.stamp)
    ∷ []

abbrev pub tracked :
    Clock
    → Codec
    → String
    → String
    → String
    → String
    → List String
    → String
    → String
    → Chats
    → Chats
tracked c j site_id chat_id context_id component reply_options callback_stream original_message_id
      s =
    let t = expire c.now (ctx_key site_id context_id) context_ttl_secs (
      hset c.now (ctx_key site_id context_id)
        (context_fields c j component reply_options callback_stream original_message_id) s) in
    record t {
      active =
          insert (active_ctx_key site_id chat_id) (context_id, c.now + context_ttl_secs) s.active;
    }

unfoldable pub track_context :
    Clock
    → Codec
    → Reached
    → String
    → String
    → String
    → String
    → List String
    → String
    → String
    → Chats
    → Chats × Result (Unit {0})
track_context c j r site_id chat_id context_id component reply_options callback_stream
      original_message_id s =
    if r.write
    then (
      tracked c j site_id chat_id context_id component reply_options callback_stream
          original_message_id s,
      ok tt,
    )
    else (s, err (valkey r.failure))

-- `GET` of the active context
abbrev pub live_context : ℕ → Option (String × ℕ) → Option String
live_context now none = none
live_context now (some (id, t)) = if ltb now t then some id else none

abbrev pub options_of : Codec → Option String → List String
options_of j none = []
options_of j (some s) = or_else (j.decode s) []

unfoldable pub is_option : Codec → Dict String → String → Bool
is_option j fields reply_text =
    any (λ opt. j.to_uppercase opt == j.to_uppercase (trim reply_text))
      (options_of j (lookup "reply_options" fields))

abbrev pub resolution_of : Codec → Dict String → String → String → ContextResolution
resolution_of j fields context_id reply_text = record {
  context_id = context_id;
  component = or_else (lookup "component" fields) "";
  command = j.to_uppercase (trim reply_text);
  callback_stream = or_else (lookup "callback_stream" fields) "";
}

-- From the loaded hash on: an empty one has expired.
abbrev pub resolve_in :
    Codec
    → Reached
    → String
    → String
    → String
    → Dict String
    → Chats
    → Chats × Result (Option ContextResolution)
resolve_in j r active_key context_id reply_text [] s = (s, ok none)
resolve_in j r active_key context_id reply_text (field ∷ fields) s =
    if is_option j (field ∷ fields) reply_text
    then if r.del
      then (
        record s { active = remove active_key s.active },
        ok (some (resolution_of j (field ∷ fields) context_id reply_text)),
      )
      else (s, err (valkey r.failure))
    else (s, ok none)

abbrev pub resolve_context :
    Clock
    → Codec
    → Reached
    → String
    → String
    → String
    → Option String
    → Chats
    → Chats × Result (Option ContextResolution)
resolve_context c j r active_key site_id reply_text none s = (s, ok none)
resolve_context c j r active_key site_id reply_text (some context_id) s =
    if r.hgetall
    then resolve_in j r active_key context_id reply_text
        (hgetall c.now (ctx_key site_id context_id) s) s
    else (s, err (valkey r.failure))

unfoldable pub resolve_reply :
    Clock
    → Codec
    → Reached
    → String
    → String
    → String
    → Chats
    → Chats × Result (Option ContextResolution)
resolve_reply c j r chat_id site_id reply_text s =
    if r.get
    then resolve_context c j r (active_ctx_key site_id chat_id) site_id reply_text
        (live_context c.now (lookup (active_ctx_key site_id chat_id) s.active)) s
    else (s, err (valkey r.failure))
