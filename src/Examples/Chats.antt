-- ===== src/Examples/Chats.antt =====
-- The results on the conversations, the commands and the workflows at concrete inputs.
use Prim.Native.String.{String}
use geodineum_comms.Prelude.{
  ◌≡◌, ◌⊎◌, refl, true, false, none, some, [], ◌∷◌, if◌then◌else◌, arith, ◌==◌,
}
use geodineum_comms.Prelude.Dict.{lookup, insert}
use geodineum_comms.Prelude.Chars.{trim, trim_start, trim_end}
use geodineum_comms.Errors.{valkey, ok, err}
use geodineum_comms.Conversation.{Chats, Clock, Codec, Reached, ConvState, conv_key, hgetall, hset}
use geodineum_comms.Conversation.Context.{track_context, resolve_reply}
use geodineum_comms.Conversation.Context.Resolved.{resolve_reply_once, resolve_reply-track_context}
use geodineum_comms.Conversation.Session.{
  get_or_create, create_session, get, is_timed_out, new_session,
}
use geodineum_comms.Conversation.Session.Kept.{
  IsLasting, get-create_session, get_or_create_keeps, get_or_create_half, half_session,
}
use geodineum_comms.Workflow.{WorkflowIntent, WorkflowDispatcher, intent, Engine, dispatch, refused}
use geodineum_comms.Workflow.Whitelist.{IsQueued, dispatch_requests}
use geodineum_comms.Commands.{InboundMessage, CommandRouter, Cases}

abbrev chats : Chats
chats = record { hashes = []; active = [] }

abbrev clock : Clock
clock = record {
  now = 1_000;
  now_nanos = 1_000_000_000_000;
  now_text = "1000";
  stamp = "t1000";
  read_stamp = λ s. if s == "t1000" then some 1_000_000_000_000 else none;
}

abbrev next_minute : Clock
next_minute = record {
  now = 1_060;
  now_nanos = 1_060_000_000_000;
  now_text = "1060";
  stamp = "t1060";
  read_stamp = λ s. if s == "t1000" then some 1_000_000_000_000 else none;
}

abbrev codec : Codec
codec = record {
  encode = λ options. "[QUARANTINE,DISMISS]";
  decode = λ s. some ("QUARANTINE" ∷ "DISMISS" ∷ []);
  to_uppercase = λ s. s;
  hincrby = λ o. some "1";
}

abbrev reached : Reached
reached = record {
  touch = true;
  write = true;
  get = true;
  hgetall = true;
  del = true;
  failure = "";
}

abbrev unwritten : Reached
unwritten = record {
  touch = true;
  write = false;
  get = true;
  hgetall = true;
  del = true;
  failure = "READONLY";
}

abbrev alerted : Chats
alerted =
    (track_context clock codec reached "geodine" "42" "c1" "guard" ("QUARANTINE" ∷ "DISMISS" ∷ [])
      "guard:replies" "m7" chats).0

resolve_reply-track_context_example :
    (resolve_reply next_minute codec reached "42" "geodine" "DISMISS" alerted).1
    ≡ ok (
        some (record {
          context_id = "c1";
          component = "guard";
          command = "DISMISS";
          callback_stream = "guard:replies";
        }))
unfolding trim trim_start trim_end
resolve_reply-track_context_example =
    resolve_reply-track_context clock next_minute codec reached reached "geodine" "42" "c1" "guard"
      ("QUARANTINE" ∷ "DISMISS" ∷ []) "guard:replies" "m7" "DISMISS" chats refl refl refl refl refl
      refl (omega arith)

resolve_reply_once_example :
    (resolve_reply next_minute codec reached "42" "geodine" "QUARANTINE"
      (resolve_reply next_minute codec reached "42" "geodine" "DISMISS" alerted).0).1
    ≡ ok none
resolve_reply_once_example =
    resolve_reply_once next_minute next_minute codec reached reached "42" "geodine" "DISMISS"
      "QUARANTINE" alerted
      (record {
        context_id = "c1";
        component = "guard";
        command = "DISMISS";
        callback_stream = "guard:replies";
      })
      resolve_reply-track_context_example refl

abbrev greeted : ConvState
greeted = new_session clock "chat" "42" "7" "Ann"

abbrev greeting : Chats
greeting = (create_session clock reached "chat" "42" "geodine" "7" "Ann" chats).0

greeting_kept : get next_minute reached "chat" "42" "geodine" greeting ≡ ok (some greeted)
unfolding lookup
greeting_kept =
    get-create_session clock next_minute reached reached "chat" "42" "geodine" "7" "Ann" chats refl
      refl refl

greeting_lasts : IsLasting next_minute (conv_key "geodine" "42") greeting
unfolding create_session hset conv_key lookup insert
greeting_lasts = refl

greeting_fresh : is_timed_out next_minute greeted ≡ false
unfolding is_timed_out
greeting_fresh = refl

get_or_create_keeps_example :
    ((get_or_create next_minute reached "chat" "42" "geodine" "7" "Ann" greeting).1 ≡ ok greeted)
    × (get next_minute reached "chat" "42" "geodine"
          (get_or_create next_minute reached "chat" "42" "geodine" "7" "Ann" greeting).0
        ≡ ok (some (record greeted { last_activity = "t1060" })))
get_or_create_keeps_example =
    get_or_create_keeps next_minute next_minute reached reached "chat" "42" "geodine" "7" "Ann"
      greeting greeted refl refl refl greeting_lasts greeting_kept 1_000_000_000_000 refl
      (omega arith)

no_session : hgetall 1_000 (conv_key "geodine" "42") chats ≡ []
unfolding hgetall lookup
no_session = refl

get_or_create_half_example :
    ((get_or_create clock unwritten "chat" "42" "geodine" "7" "Ann" chats).1
      ≡ err (valkey "READONLY"))
    × ((get_or_create next_minute reached "chat" "42" "geodine" "7" "Ann"
          (get_or_create clock unwritten "chat" "42" "geodine" "7" "Ann" chats).0).1
        ≡ ok (half_session "chat" "t1000"))
unfolding lookup
get_or_create_half_example =
    get_or_create_half clock next_minute unwritten reached "chat" "42" "geodine" "7" "Ann" chats
      refl refl refl refl no_session 1_000_000_000_000 refl (omega arith)

abbrev engine : Engine
engine = record {
  has_consumer = true;
  xadd_error = none;
  millis = "1000";
  stamp = "t1000";
  encode = λ params. "{}";
}

abbrev workflows : WorkflowDispatcher
workflows = record { workflow_stream = "{geodine}:gnode:comms:workflows:production" }

abbrev backup : WorkflowIntent
backup = intent "backup" "Backup (target: ALL)" "target" "ALL"

dispatch_requests_example :
    IsQueued workflows engine backup "7" "Ann" [] (dispatch workflows engine backup "7" "Ann" [])
    ⊎ ((why : String) × (dispatch workflows engine backup "7" "Ann" [] ≡ ([], refused why)))
dispatch_requests_example = dispatch_requests workflows engine backup "7" "Ann" []

abbrev cases : Cases
cases = record { to_uppercase = λ s. s; to_lowercase = λ s. s }

abbrev router : CommandRouter
router = record {
  local_commands = "status" ∷ [];
  workflow_dispatcher = some workflows;
  chain_enabled = false;
}

abbrev dismissal : InboundMessage
dismissal = record {
  text = "DISMISS";
  chat_id = "42";
  operator_id = "7";
  operator_name = "Ann";
  channel_source = "telegram";
  reply_to_msg_id = none;
  timestamp = "t1060";
  chat_type = "private";
  is_callback = false;
  callback_query_id = "";
  callback_message_id = none;
}
