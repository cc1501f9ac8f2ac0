-- ===== src/Daemon/Claimed.antt =====
-- The loop of src/main.rs over the entries that `claim_pending` takes over from dead consumers.
use Prim.Native.String.{String}
use geodineum_comms.Prelude.{ℕ, Bool, true, false, Option, none, some, List, [], leb, if◌then◌else◌}
use geodineum_comms.Errors.{Result, ok, err, to_string}
use geodineum_comms.Message.{CommsMessage}
use geodineum_comms.RateLimiter.{DispatchRateLimiter, try_acquire}
use geodineum_comms.Backoff.{is_in_backoff}
use geodineum_comms.Retry.{RetryState, Reply, get_retry_state}
use geodineum_comms.Router.Channel.{World}
use geodineum_comms.Router.Outcome.{ChannelResult, DispatchResult, is_success}
use geodineum_comms.Router.Dispatcher.{dispatch}
use geodineum_comms.Archive.{MessageStatus, sent, failed, spam, as_str, archive_message}
use geodineum_comms.Daemon.{
  Setup, Moment, Daemon, ack_message, writeback_status, already_sent, is_spam, record_retry,
  failure, forget_retry,
}

-- `archive_message(..).ok()`, where there is a store
unfoldable pub try_archive :
    Moment → CommsMessage → String → MessageStatus → List ChannelResult → Daemon → Daemon
try_archive t m entry_id status results d = elim d.message_store [
  | none ↦ d
  | some store ↦ record d {
    message_store = some (archive_message t.sql t.stamp m entry_id status results store).0;
  }
]

abbrev pub exhausted : ℕ → Reply (Option RetryState) → Bool
exhausted max_attempts (Reply.ok (some s)) = leb max_attempts s.attempts
exhausted max_attempts _ = false

unfoldable pub give_up : Setup → Moment → CommsMessage → String → Daemon → Daemon
give_up c t m entry_id d = ack_message c m entry_id (
    writeback_status m.site_id entry_id "failed" c.retry.max_attempts (some "exceeded max retries")
      (try_archive t m entry_id failed [] d))

abbrev pub claimed_status : DispatchResult → MessageStatus
claimed_status r = if is_success r then sent else failed

unfoldable pub settle_claimed :
    Setup → Moment → CommsMessage → String → Daemon → Result DispatchResult → Daemon
settle_claimed c t m entry_id d (ok r) =
    let d1 = ack_message c m entry_id (
      writeback_status m.site_id entry_id (as_str (claimed_status r)) 1 none
        (try_archive t m entry_id (claimed_status r) r.results d)) in
    if is_success r then forget_retry t m.site_id m.id d1 else d1
settle_claimed c t m entry_id d (err e) =
    record_retry c t (failure c m entry_id (to_string e) []) (ack_message c m entry_id d)

abbrev pub settled_claimed :
    Setup → Moment → CommsMessage → String → Daemon → World × Result DispatchResult → Daemon
settled_claimed c t m entry_id d (w, r) = settle_claimed c t m entry_id (record d { world = w }) r

abbrev pub deliver_claimed_if :
    Setup → Moment → CommsMessage → String → Daemon → DispatchRateLimiter × Bool → Daemon
deliver_claimed_if c t m entry_id d (l, true) =
    settled_claimed c t m entry_id (record d { rate_limiter = l })
      (dispatch c.providers c.dispatcher m d.world)
deliver_claimed_if c t m entry_id d (l, false) = record d { rate_limiter = l }

-- One entry of `claim_pending`.
unfoldable pub process_claimed : Setup → Moment → CommsMessage → String → Daemon → Daemon
process_claimed c t m entry_id d =
    if is_in_backoff t.now m.site_id d.backoff_tracker
    then d
    else if already_sent t m d.message_store
    then ack_message c m entry_id d
    else if exhausted c.retry.max_attempts
        (get_retry_state t.commands t.utc m.site_id m.id d.retries)
    then give_up c t m entry_id d
    else if is_spam c m
    then ack_message c m entry_id (try_archive t m entry_id spam [] d)
    else deliver_claimed_if c t m entry_id d (try_acquire t.now m.site_id d.rate_limiter)
