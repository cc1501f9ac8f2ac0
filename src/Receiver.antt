-- ===== src/Receiver.antt =====
-- `TelegramReceiver` of src/inbound/telegram_receiver.rs: which updates of the bot become messages of the
-- inbound stream. The ids of chats and people are decimal texts. What Telegram and ValKey answer, and the
-- times as texts, are arguments; sending and editing messages is left out.
pub mod Gate
use Prim.Native.Char.{code}
use Prim.Native.String.{String, ◌++◌, count}
use geodineum_comms.Prelude.{
  ℕ, zero, suc, ◌+◌, ◌==◌, Bool, true, false, not, ◌&&◌, ◌||◌, Option, none, some, List, [], ◌∷◌,
  length, eqb, if◌then◌else◌,
}
use geodineum_comms.Prelude.Lists.{append}
use geodineum_comms.Prelude.Dict.{is_some, or_else}
use geodineum_comms.Prelude.Texts.{contains}
use geodineum_comms.Prelude.Chars.{after, strip_prefix, trim}
use geodineum_comms.Errors.{CommsError, telegram, Result, ok, err}
use geodineum_comms.Commands.{InboundMessage}
use geodineum_comms.Consumer.{first_of}
use geodineum_comms.WebLink.Linking.{Book, parse_link, is_unlink, is_linked}

pub record TelegramUser : Type 0 where
  pub id : String
  pub first_name : String
  pub last_name : Option String

-- The message that another one replies to, as far as it is read.
pub record Replied : Type 0 where
  pub message_id : ℕ
  pub from : Option TelegramUser

-- A message; `date` is its time as a text.
pub record TelegramMsg : Type 0 where
  pub message_id : ℕ
  pub from : Option TelegramUser
  pub chat_id : String
  pub chat_type : String
  pub text : Option String
  pub reply_to_message : Option Replied
  pub caption : Option String
  pub date : String

-- A press of a button; `chat` is the chat and the id of the message that had it.
pub record CallbackQuery : Type 0 where
  pub id : String
  pub from : TelegramUser
  pub chat : Option (String × ℕ)
  pub payload : Option String

pub record TelegramUpdate : Type 0 where
  pub update_id : ℕ
  pub message : Option TelegramMsg
  pub callback_query : Option CallbackQuery

-- The settings of the receiver, with the accounts that are linked.
pub record TelegramReceiver : Type 0 where
  pub site_id : String
  pub environment : String
  pub admin_ids : Option (List String)
  pub bot_username : Option String
  pub bot_user_id : Option String
  pub book : Book
  pub now : String
  pub writes : InboundMessage → Bool

-- The offset of the receiver, the messages of its stream, and the answers to presses.
pub record Received : Type 0 where
  pub offset : ℕ
  pub stream : List InboundMessage
  pub answers : List (String × String)

-- the text, or the caption of a photo
abbrev pub text_of : TelegramMsg → Option String
text_of m = first_of m.text m.caption

-- The sender is the bot itself, whose id is known once it has asked for it.
abbrev pub is_user : Option TelegramUser → Option String → Bool
is_user none my_id = false
is_user (some u) none = false
is_user (some u) (some my_id) = u.id == my_id

abbrev pub is_from : Option Replied → Option String → Bool
is_from none my_id = false
is_from (some reply) my_id = is_user reply.from my_id

abbrev pub has_slash : String → Bool
has_slash String.[] = false
has_slash (String.◌∷◌ c s) = eqb (code c) b'/'

unfoldable pub is_mentioned_in_group : TelegramReceiver → TelegramMsg → Bool
is_mentioned_in_group r m =
    let text = or_else (text_of m) "" in
    m.chat_type == "private"
    || (is_some (after (or_else r.bot_username "@GeodineBot") text)
        || (is_from m.reply_to_message r.bot_user_id || has_slash text))

-- `replace(mention, "")`, one character or one mention in a round
unfoldable pub remove_from : ℕ → String → String → String
remove_from zero mention s = s
remove_from (suc fuel) mention String.[] = ""
remove_from (suc fuel) mention (String.◌∷◌ c s) = elim (strip_prefix mention (String.◌∷◌ c s)) [
  | some rest ↦ remove_from fuel mention rest
  | none ↦ String.◌∷◌ c (remove_from fuel mention s)
]

abbrev pub clean_text : Option String → String → String
clean_text none text = text
clean_text (some mention) text = trim (remove_from (count text) mention text)

abbrev pub with_last : String → Option String → String
with_last first_name none = first_name
with_last first_name (some last) = first_name ++ " " ++ last

abbrev pub full_name : TelegramUser → String
full_name u = with_last u.first_name u.last_name

abbrev pub replied_id : Option Replied → Option ℕ
replied_id none = none
replied_id (some reply) = some reply.message_id

abbrev pub inbound_of : TelegramReceiver → TelegramMsg → String → TelegramUser → InboundMessage
inbound_of r m text from = record {
  text = clean_text r.bot_username text;
  chat_id = m.chat_id;
  operator_id = from.id;
  operator_name = full_name from;
  channel_source = "telegram";
  reply_to_msg_id = replied_id m.reply_to_message;
  timestamp = m.date;
  chat_type = m.chat_type;
  is_callback = false;
  callback_query_id = "";
  callback_message_id = none;
}

abbrev pub parsed_update :
    TelegramReceiver → TelegramMsg → Option String → Option TelegramUser → Option InboundMessage
parsed_update r m none from = none
parsed_update r m (some text) none = none
parsed_update r m (some text) (some from) = some (inbound_of r m text from)

unfoldable pub parse_update : TelegramReceiver → TelegramMsg → Option InboundMessage
parse_update r m = parsed_update r m (text_of m) m.from

unfoldable pub web_subscriber_may_pass : TelegramReceiver → InboundMessage → Bool
web_subscriber_may_pass r m =
    m.chat_type == "private"
    && (is_some (parse_link m.text)
        || (is_unlink m.text || is_linked r.book r.site_id m.operator_id))

-- The list of operators; without one, everybody is.
abbrev pub is_operator : Option (List String) → String → Bool
is_operator none id = true
is_operator (some allowed) id = contains id allowed

-- An entry of the stream stands as the message whose fields it has.
abbrev pub write_to_stream : TelegramReceiver → InboundMessage → Received → Received
write_to_stream r m s = if r.writes m then record s { stream = append s.stream (m ∷ []) } else s

abbrev pub chat_of : Option (String × ℕ) → String
chat_of none = ""
chat_of (some (chat, id)) = chat

abbrev pub message_of : Option (String × ℕ) → Option ℕ
message_of none = none
message_of (some (chat, id)) = some id

abbrev pub press_of : TelegramReceiver → CallbackQuery → InboundMessage
press_of r cb = record {
  text = or_else cb.payload "";
  chat_id = chat_of cb.chat;
  operator_id = cb.from.id;
  operator_name = full_name cb.from;
  channel_source = "telegram";
  reply_to_msg_id = none;
  timestamp = r.now;
  chat_type = "private";
  is_callback = true;
  callback_query_id = cb.id;
  callback_message_id = message_of cb.chat;
}

abbrev pub answer : String → String → Received → Received
answer id text s = record s { answers = append s.answers ((id, text) ∷ []) }

-- A press is answered behind its write, with what came of it.
unfoldable pub take_press : TelegramReceiver → CallbackQuery → Received → Received
take_press r cb s =
    if is_operator r.admin_ids cb.from.id
    then answer cb.id
        (if r.writes (press_of r cb) then "Recorded" else "Not recorded — press again")
        (write_to_stream r (press_of r cb) s)
    else s

abbrev pub take_inbound : TelegramReceiver → Option InboundMessage → Received → Received
take_inbound r none s = s
take_inbound r (some m) s =
    if is_operator r.admin_ids m.operator_id || web_subscriber_may_pass r m
    then write_to_stream r m s
    else s

unfoldable pub take_message : TelegramReceiver → TelegramMsg → Received → Received
take_message r m s = if is_mentioned_in_group r m then take_inbound r (parse_update r m) s else s

abbrev pub take_parts :
    TelegramReceiver → Option CallbackQuery → Option TelegramMsg → Received → Received
take_parts r (some cb) m s = take_press r cb s
take_parts r none (some m) s = take_message r m s
take_parts r none none s = s

-- The loop over the updates, whose offset moves before each is handled.
unfoldable pub take_updates : TelegramReceiver → List TelegramUpdate → Received → Received
take_updates r [] s = s
take_updates r (u ∷ us) s =
    take_updates r us
      (take_parts r u.callback_query u.message (record s { offset = u.update_id + 1 }))

-- What `getUpdates` gives: its updates, or why it failed.
unfoldable pub poll_once :
    TelegramReceiver → Result (List TelegramUpdate) → Received → Received × Result ℕ
poll_once r (err e) s = (s, err e)
poll_once r (ok updates) s = (take_updates r updates s, ok (length updates))
