-- ===== src/Daemon/Retried.antt =====
-- The loop of src/main.rs over the retries that are due.
use Prim.Native.String.{String}
use geodineum_comms.Prelude.{
  ℕ, ◌+◌, ◌%◌, ◌^◌, Bool, true, false, Option, none, some, List, [], ◌∷◌, if◌then◌else◌,
}
use geodineum_comms.Prelude.Dict.{or_else}
use geodineum_comms.Errors.{Result, ok, err, to_string}
use geodineum_comms.Message.{CommsMessage, is_empty}
use geodineum_comms.RateLimiter.{DispatchRateLimiter, try_acquire}
use geodineum_comms.Retry.{RetryState, Failure, Reply, Scan, get_due_retries}
use geodineum_comms.Router.Channel.{World}
use geodineum_comms.Router.Outcome.{ChannelResult, DispatchResult}
use geodineum_comms.Router.Dispatcher.{dispatch_channels}
use geodineum_comms.Archive.{sent, MessageStore, update_status, record_channel_result}
use geodineum_comms.Daemon.{
  Setup, Moment, Daemon, writeback_status, first_error, names_of, record_retry, forget_retry,
}

-- `record_channel_result(..).ok()` for each result: none ends the loop
unfoldable pub add_results :
    Moment → String → String → List ChannelResult → MessageStore → MessageStore
add_results t site_id id [] store = store
add_results t site_id id (r ∷ rs) store =
    add_results t site_id id rs (record_channel_result t.sql t.stamp site_id id r store).0

unfoldable pub mark_sent : Moment → RetryState → List ChannelResult → Daemon → Daemon
mark_sent t s results d = elim d.message_store [
  | none ↦ d
  | some store ↦ record d {
    message_store = some (
        add_results t s.site_id s.message_id results
          (update_status t.sql t.stamp s.site_id s.message_id sent store).0);
  }
]

abbrev pub failed_retry : RetryState → String → List String → Failure
failed_retry s error channels = record {
  message_id = s.message_id;
  site_id = s.site_id;
  stream_key = s.stream_key;
  stream_entry_id = s.stream_entry_id;
  error = error;
  failed_channels = channels;
}

unfoldable pub settle_retry : Setup → Moment → RetryState → Daemon → Result DispatchResult → Daemon
settle_retry c t s d (ok r) =
    if is_empty r.failed_channels
    then writeback_status s.site_id s.stream_entry_id "sent" s.attempts none
        (mark_sent t s r.results (forget_retry t s.site_id s.message_id d))
    else let error = or_else (first_error r.failed_channels) "" in
      record_retry c t (failed_retry s error (names_of r.failed_channels)) (
        writeback_status s.site_id s.stream_entry_id "failed" ((s.attempts + 1) % 2 ^ 32)
          (some error) d)
settle_retry c t s d (err e) = record_retry c t (failed_retry s (to_string e) s.failed_channels) d

abbrev pub settled_retry :
    Setup → Moment → RetryState → Daemon → World × Result DispatchResult → Daemon
settled_retry c t s d (w, r) = settle_retry c t s (record d { world = w }) r

-- Behind the fetch of the entry from the stream's history.
unfoldable pub redeliver :
    Setup → Moment → RetryState → Result (Option CommsMessage) → Daemon → Daemon
redeliver c t s (ok (some m)) d =
    settled_retry c t s d (dispatch_channels c.providers c.dispatcher m s.failed_channels d.world)
redeliver c t s (ok none) d = forget_retry t s.site_id s.message_id d
redeliver c t s (err e) d = d

abbrev pub redeliver_if :
    Setup
    → Moment
    → RetryState
    → Result (Option CommsMessage)
    → Daemon
    → DispatchRateLimiter × Bool
    → Daemon
redeliver_if c t s fetched d (l, true) = redeliver c t s fetched (record d { rate_limiter = l })
redeliver_if c t s fetched d (l, false) = record d { rate_limiter = l }

-- One due retry; `fetched` is what `fetch_message` gives for its entry.
unfoldable pub process_retry :
    Setup → Moment → RetryState → Result (Option CommsMessage) → Daemon → Daemon
process_retry c t s fetched d =
    redeliver_if c t s fetched d (try_acquire t.now s.site_id d.rate_limiter)

-- The loop over the due retries: when each is handled, and what is fetched for it.
unfoldable pub process_retries :
    Setup
    → (RetryState → Moment)
    → (RetryState → Result (Option CommsMessage))
    → List RetryState
    → Daemon
    → Daemon
process_retries c moments fetch [] d = d
process_retries c moments fetch (s ∷ due) d =
    process_retries c moments fetch due (process_retry c (moments s) s (fetch s) d)

abbrev pub if_found :
    Setup
    → (RetryState → Moment)
    → (RetryState → Result (Option CommsMessage))
    → Reply (List RetryState)
    → Daemon
    → Daemon
if_found c moments fetch (Reply.ok due) d = process_retries c moments fetch due d
if_found c moments fetch (Reply.err e) d = d

-- The due retries at the time `utc`.
unfoldable pub retry_due :
    Setup
    → Scan
    → ℕ
    → (RetryState → Moment)
    → (RetryState → Result (Option CommsMessage))
    → Daemon
    → Daemon
retry_due c scan utc moments fetch d =
    if_found c moments fetch (get_due_retries scan utc d.retries) d
