-- ===== src/Archive.antt =====
-- `MessageStore` of src/persistence/store.rs: one SQLite database for each site, as far as the daemon
-- loop uses it. A database is the table of its messages; which statements SQLite carries out is
-- given by `Sql`. The JSON columns of the sender, the content and the metadata are left out.
pub mod Status
pub mod Message
use Prim.Native.String.{String}
use geodineum_comms.Prelude.{
  ℕ, ◌+◌, ◌==◌, ◌≡◌, refl, Bool, true, false, ◌&&◌, ◌||◌, Option, none, some, List, [], ◌∷◌,
  if◌then◌else◌,
}
use geodineum_comms.Prelude.Lists.{append}
use geodineum_comms.Prelude.Dict.{Dict, lookup, insert, or_else}
use geodineum_comms.Message.{CommsMessage, Json}
use geodineum_comms.Router.Outcome.{ChannelResult}

pub data MessageStatus : Type 0 where
  pending processing sent partial_sent failed spam skipped : MessageStatus

-- `MessageStatus::as_str`
unfoldable pub as_str : MessageStatus → String
as_str pending = "pending"
as_str processing = "processing"
as_str sent = "sent"
as_str partial_sent = "partial_sent"
as_str failed = "failed"
as_str spam = "spam"
as_str skipped = "skipped"

-- `MessageStatus::from_str`
unfoldable pub from_str : String → MessageStatus
from_str s =
    if s == "pending"
    then pending
    else if s == "processing"
    then processing
    else if s == "sent"
    then sent
    else if s == "partial_sent"
    then partial_sent
    else if s == "failed"
    then failed
    else if s == "spam"
    then spam
    else if s == "skipped"
    then skipped
    else pending

-- A row of `messages`, with its rows of `channel_results`.
pub record Row : Type 0 where
  pub stream_id : String
  pub environment : String
  pub message_type : String
  pub priority : ℕ
  pub status : MessageStatus
  pub attempts : ℕ
  pub channel_results : List ChannelResult
  pub received_at : String
  pub updated_at : String
  pub completed_at : Option String

-- The rows of a site by their ids; a site that was never opened has an empty table.
abbrev pub Table : Type 0
Table = Dict Row

abbrev pub MessageStore : Type 0
MessageStore = Dict Table

-- Whether a call of each kind succeeds: the site's database opens and its statements run.
pub record Sql : Type 0 where
  pub select : Bool
  pub insert_message : Bool
  pub update_message : Bool
  pub insert_result : Bool
  pub update_result : Bool

abbrev pub table : String → MessageStore → Table
table site_id store = or_else (lookup site_id store) []

abbrev pub row : String → String → MessageStore → Option Row
row site_id id store = lookup id (table site_id store)

abbrev pub put_row : String → String → Row → MessageStore → MessageStore
put_row site_id id r store = insert site_id (insert id r (table site_id store)) store

abbrev pub text_of : Option Json → String
text_of none = "production"
text_of (some j) = or_else j.as_str "production"

unfoldable pub new_row : String → String → CommsMessage → Row
new_row now stream_id m = record {
  stream_id = stream_id;
  environment = text_of (lookup "environment" m.metadata);
  message_type = m.message_type;
  priority = m.priority;
  status = pending;
  attempts = 0;
  channel_results = [];
  received_at = now;
  updated_at = now;
  completed_at = none;
}

-- `status NOT IN ('sent', 'spam', 'skipped')`
abbrev pub is_open : MessageStatus → Bool
is_open sent = false
is_open spam = false
is_open skipped = false
is_open _ = true

abbrev pub received : String → Row → Option Row → Row
received now fresh none = fresh
received now fresh (some r) = if is_open r.status then record r { updated_at = now } else r

-- `archive_received`: the store, and whether the call succeeded
unfoldable pub archive_received :
    Sql → String → String → CommsMessage → String → MessageStore → MessageStore × Bool
archive_received sql now site_id m stream_id store =
    if sql.insert_message
    then (
      put_row site_id m.id (received now (new_row now stream_id m) (row site_id m.id store)) store,
      true,
    )
    else (store, false)

abbrev pub is_sent : Option Row → Bool
is_sent none = false
is_sent (some r) = as_str r.status == "sent"

unfoldable pub is_already_sent : Sql → String → String → MessageStore → Bool
unfolding as_str
is_already_sent sql site_id id store = sql.select && is_sent (row site_id id store)

abbrev pub completion : MessageStatus → String → Option String → Option String
completion sent now old = some now
completion failed now old = some now
completion spam now old = some now
completion skipped now old = some now
completion _ now old = old

abbrev pub updated : String → String → (Row → Row) → Option Row → MessageStore → MessageStore
updated site_id id f none store = store
updated site_id id f (some r) store = put_row site_id id (f r) store

unfoldable pub update_status :
    Sql → String → String → String → MessageStatus → MessageStore → MessageStore × Bool
update_status sql now site_id id status store =
    if sql.update_message
    then (
      updated site_id id
          (λ r. record r {
            status = status;
            updated_at = now;
            completed_at = completion status now r.completed_at;
          })
          (row site_id id store) store,
      true,
    )
    else (store, false)

-- An INSERT, which stays even if the UPDATE behind it fails. The JSON of the results that the UPDATE
-- writes into the message is left out.
unfoldable pub record_channel_result :
    Sql → String → String → String → ChannelResult → MessageStore → MessageStore × Bool
record_channel_result sql now site_id id result store =
    if sql.insert_result
    then (
      updated site_id id
          (λ r. record r {
            channel_results = append r.channel_results (result ∷ []);
            attempts = if sql.update_result then r.attempts + 1 else r.attempts;
            updated_at = if sql.update_result then now else r.updated_at;
          })
          (row site_id id store) store,
      sql.update_result,
    )
    else (store, false)

-- The calls of `archive_message` (src/main.rs) after each other: the first that fails ends it.
abbrev pub and_then :
    MessageStore × Bool → (MessageStore → MessageStore × Bool) → MessageStore × Bool
and_then (store, true) f = f store
and_then (store, false) f = (store, false)

unfoldable pub record_results :
    Sql → String → String → String → List ChannelResult → MessageStore → MessageStore × Bool
record_results sql now site_id id [] store = (store, true)
record_results sql now site_id id (r ∷ rs) store =
    and_then (record_channel_result sql now site_id id r store)
      (record_results sql now site_id id rs)

abbrev pub update_unless_pending :
    Sql → String → String → String → MessageStatus → MessageStore → MessageStore × Bool
update_unless_pending sql now site_id id pending store = (store, true)
update_unless_pending sql now site_id id status store =
    update_status sql now site_id id status store

unfoldable pub archive_message :
    Sql
    → String
    → CommsMessage
    → String
    → MessageStatus
    → List ChannelResult
    → MessageStore
    → MessageStore × Bool
archive_message sql now m stream_id status results store =
    and_then
      (and_then (archive_received sql now m.site_id m stream_id store)
        (update_unless_pending sql now m.site_id m.id status))
      (record_results sql now m.site_id m.id results)
