-- ===== src/Daemon.antt =====
-- The loop of the daemon, src/main.rs: what it does with one entry that it read from a stream. One
-- entry is handled at one `Moment`, where the source reads the clocks call by call. Calls of
-- `ConversationState`, the status hashes in ValKey and the acknowledgements are kept as logs, the
-- latest first; each of them is best effort in the source (`.ok()`).
pub mod Claimed
pub mod Retried
pub mod Fence
pub mod Pause
pub mod Acknowledged
pub mod Sends
pub mod Redelivery
pub mod Tries
pub mod Failures
pub mod Runs
use Prim.Native.String.{String, ◌++◌}
use geodineum_comms.Prelude.{
  ℕ, ◌==◌, Bool, true, false, not, ◌&&◌, ◌||◌, Option, none, some, List, [], ◌∷◌, map,
  if◌then◌else◌,
}
use geodineum_comms.Prelude.Dict.{Dict, lookup, or_else}
use geodineum_comms.Prelude.Chars.{is_empty_text}
use geodineum_comms.Errors.{CommsError, Result, ok, err, DispatchError, to_string}
use geodineum_comms.Message.{CommsMessage, Json, is_empty}
use geodineum_comms.Settings.{RetrySettings}
use geodineum_comms.Settings.Store.{invalidate_cache}
use geodineum_comms.RateLimiter.{DispatchRateLimiter, try_acquire}
use geodineum_comms.Backoff.{BackoffTracker, is_in_backoff, record_success, record_failure}
use geodineum_comms.Retry.{Commands, Failure}
use geodineum_comms.Retry
use geodineum_comms.Spam.{Unicode, SpamFilter, check}
use geodineum_comms.Router.Channel.{Providers, World, MessageDispatcher}
use geodineum_comms.Router.Outcome.{
  ChannelResult, DispatchResult, is_success, has_retryable_failures,
}
use geodineum_comms.Router.Dispatcher.{dispatch}
use geodineum_comms.Archive.{
  MessageStatus, sent, skipped, failed, partial_sent, spam, as_str, MessageStore, Sql,
  is_already_sent, archive_message,
}

-- What does not change while the daemon runs.
pub record Setup : Type 0 where
  pub environment : String
  pub providers : Providers
  pub dispatcher : MessageDispatcher
  pub spam_filter : Option SpamFilter
  pub unicode : Unicode
  pub retry : RetrySettings

-- The clocks while one entry is handled, and what SQLite and ValKey answer then.
pub record Moment : Type 0 where
  pub now : ℕ
  pub utc : ℕ
  pub stamp : String
  pub sql : Sql
  pub archive_error : String
  pub commands : Commands
  pub gen_range : ℕ → ℕ

-- A call of `track_context` or of `track_callback_context`.
pub data Context : Type 0 where
  of_chat : String → String → String → String → List String → String → String → Context
  of_callback : String → String → String → List String → String → Context

-- A status hash of `writeback_status`.
pub record Writeback : Type 0 where
  pub site_id : String
  pub stream_id : String
  pub status : String
  pub attempts : ℕ  -- i64
  pub error : String

pub record Daemon : Type 0 where
  pub backoff_tracker : BackoffTracker
  pub message_store : Option MessageStore
  pub world : World
  pub rate_limiter : DispatchRateLimiter
  pub retries : Retry.Store
  pub contexts : List Context
  pub statuses : List Writeback
  pub acked : List (String × String)

unfoldable pub stream_key : Setup → CommsMessage → String
stream_key c m = "{" ++ m.site_id ++ "}:gnode:comms:" ++ c.environment

unfoldable pub ack_message : Setup → CommsMessage → String → Daemon → Daemon
ack_message c m entry_id d = record d { acked = (stream_key c m, entry_id) ∷ d.acked }

unfoldable pub writeback_status : String → String → String → ℕ → Option String → Daemon → Daemon
writeback_status site_id stream_id status attempts error d = record d {
  statuses =
      record {
        site_id = site_id;
        stream_id = stream_id;
        status = status;
        attempts = attempts;
        error = or_else error "";
      }
      ∷ d.statuses;
}

abbrev pub already_sent : Moment → CommsMessage → Option MessageStore → Bool
already_sent t m none = false
already_sent t m (some store) = is_already_sent t.sql m.site_id m.id store

abbrev pub is_spam : Setup → CommsMessage → Bool
is_spam c m = elim c.spam_filter [ none ↦ false | some f ↦ (check c.unicode f m).is_spam ]

abbrev pub stored : Moment → CommsMessage → Daemon → MessageStore × Bool → Daemon × Bool
stored t m d (s, true) = (
  record d { message_store = some s; backoff_tracker = record_success m.site_id d.backoff_tracker },
  true,
)
stored t m d (s, false) = (
  record d {
    message_store = some s;
    backoff_tracker = record_failure t.now m.site_id t.archive_error d.backoff_tracker;
  },
  false,
)

-- Archive, then note the outcome for the site's backoff; without a store there is nothing to do.
unfoldable pub archive :
    Moment → CommsMessage → String → MessageStatus → List ChannelResult → Daemon → Daemon × Bool
archive t m entry_id status results d = elim d.message_store [
  | none ↦ (d, true)
  | some store ↦ stored t m d (archive_message t.sql t.stamp m entry_id status results store)
]

abbrev pub ack_if : Setup → CommsMessage → String → Daemon × Bool → Daemon
ack_if c m entry_id (d, true) = ack_message c m entry_id d
ack_if c m entry_id (d, false) = d

abbrev pub text_at : String → Dict Json → String
text_at key metadata = elim (lookup key metadata) [ none ↦ "" | some j ↦ or_else j.as_str "" ]

abbrev pub has_options : Option Json → Bool
has_options none = false
has_options (some j) = true

abbrev pub options_of : Option Json → List String
options_of none = []
options_of (some j) = or_else j.as_texts []

-- Where a message offers replies, the context that an answer to it is routed by.
unfoldable pub context_of : CommsMessage → Option Context
context_of m =
    let offered = lookup "reply_options" m.metadata in
    let context_id = text_at "context_id" m.metadata in
    let component = text_at "component" m.metadata in
    let callback_stream = text_at "callback_stream" m.metadata in
    let chat_id = text_at "chat_id" m.metadata in
    let asked =
      has_options offered && (not (is_empty_text context_id) && not (is_empty_text component)) in
    if asked && not (is_empty_text chat_id)
    then some
        (of_chat m.site_id chat_id context_id component (options_of offered) callback_stream m.id)
    else if asked && not (is_empty_text callback_stream)
    then some (of_callback m.site_id context_id component (options_of offered) callback_stream)
    else none

abbrev pub tracked : Option Context → List Context → List Context
tracked none contexts = contexts
tracked (some x) contexts = x ∷ contexts

unfoldable pub track_context : CommsMessage → Daemon → Daemon
track_context m d = record d { contexts = tracked (context_of m) d.contexts }

unfoldable pub final_status : DispatchResult → MessageStatus
final_status r =
    if is_success r
    then sent
    else if not (is_empty r.skipped_channels) && is_empty r.failed_channels
    then skipped
    else if has_retryable_failures r
    then failed
    else if not (is_empty r.failed_channels)
    then partial_sent
    else sent

abbrev pub first_error : List DispatchError → Option String
first_error [] = none
first_error (e ∷ es) = some (to_string e.error)

-- `retry_manager.record_failure(..).await.ok()`
unfoldable pub record_retry : Setup → Moment → Failure → Daemon → Daemon
record_retry c t f d = record d {
  retries = (Retry.record_failure t.gen_range t.commands t.utc c.retry f d.retries).0;
}

abbrev pub failure : Setup → CommsMessage → String → String → List String → Failure
failure c m entry_id error channels = record {
  message_id = m.id;
  site_id = m.site_id;
  stream_key = stream_key c m;
  stream_entry_id = entry_id;
  error = error;
  failed_channels = channels;
}

abbrev pub names_of : List DispatchError → List String
names_of = map (λ e. e.channel)

-- `retry_manager.record_success(..).await.ok()`
unfoldable pub forget_retry : Moment → String → String → Daemon → Daemon
forget_retry t site_id message_id d = record d {
  retries = (Retry.record_success t.commands site_id message_id d.retries).0;
}

-- Behind an archive write that succeeded: acknowledge, and schedule a retry where one is due.
unfoldable pub acknowledge :
    Setup → Moment → CommsMessage → String → DispatchResult → Daemon → Daemon
acknowledge c t m entry_id r d =
    let d1 = ack_message c m entry_id d in
    if is_success r || not (is_empty r.skipped_channels)
    then forget_retry t m.site_id m.id d1
    else if has_retryable_failures r
    then record_retry c t
        (failure c m entry_id (or_else (first_error r.failed_channels) "")
          (names_of r.failed_channels))
        d1
    else d1

abbrev pub acknowledge_if :
    Setup → Moment → CommsMessage → String → DispatchResult → Daemon × Bool → Daemon
acknowledge_if c t m entry_id r (d, true) = acknowledge c t m entry_id r (
    writeback_status m.site_id entry_id (as_str (final_status r)) 1 (first_error r.failed_channels)
      d)
acknowledge_if c t m entry_id r (d, false) = d

unfoldable pub settle :
    Setup → Moment → CommsMessage → String → Daemon → Result DispatchResult → Daemon
settle c t m entry_id d (ok r) =
    acknowledge_if c t m entry_id r (archive t m entry_id (final_status r) r.results d)
settle c t m entry_id d (err e) = record_retry c t (failure c m entry_id (to_string e) []) (
    ack_message c m entry_id
      (writeback_status m.site_id entry_id "failed" 1 (some (to_string e)) d))

abbrev pub settled :
    Setup → Moment → CommsMessage → String → Daemon → World × Result DispatchResult → Daemon
settled c t m entry_id d (w, r) = settle c t m entry_id (record d { world = w }) r

unfoldable pub deliver : Setup → Moment → CommsMessage → String → Daemon → Daemon
deliver c t m entry_id d = settled c t m entry_id d (dispatch c.providers c.dispatcher m d.world)

abbrev pub deliver_if :
    Setup → Moment → CommsMessage → String → Daemon → DispatchRateLimiter × Bool → Daemon
deliver_if c t m entry_id d (l, true) =
    deliver c t m entry_id (track_context m (record d { rate_limiter = l }))
deliver_if c t m entry_id d (l, false) = record d { rate_limiter = l }

-- The messages that are acknowledged and never dispatched.
abbrev pub is_undelivered : Setup → CommsMessage → Bool
is_undelivered c m =
    m.message_type == "test" && c.environment == "production" || m.message_type == "system"

-- The part of the handler behind the spam check.
unfoldable pub route : Setup → Moment → CommsMessage → String → Daemon → Daemon
route c t m entry_id d =
    if m.message_type == "settings.reload"
    then ack_message c m entry_id
        (record d { world = record d.world { store = invalidate_cache m.site_id d.world.store } })
    else if is_undelivered c m
    then ack_message c m entry_id d
    else deliver_if c t m entry_id d (try_acquire t.now m.site_id d.rate_limiter)

-- One entry of `read_messages`.
unfoldable pub process_message : Setup → Moment → CommsMessage → String → Daemon → Daemon
process_message c t m entry_id d =
    if is_in_backoff t.now m.site_id d.backoff_tracker
    then d
    else if already_sent t m d.message_store
    then ack_message c m entry_id d
    else if is_spam c m
    then ack_if c m entry_id (archive t m entry_id spam [] d)
    else route c t m entry_id d
