-- ===== src/Daemon/Tries.antt =====
-- The retry states of the daemon stay below the limit of attempts, in each of the loops of src/main.rs.
use geodineum_comms.Prelude.{
  String, ◌==◌, Bool, true, false, ◌||◌, not, Option, none, some, List, [],
}
use geodineum_comms.Errors.{Result, ok, err}
use geodineum_comms.Message.{CommsMessage, is_empty}
use geodineum_comms.RateLimiter.{DispatchRateLimiter, try_acquire}
use geodineum_comms.Backoff.{is_in_backoff}
use geodineum_comms.Retry.{
  RetryState, Entry, Store, Failure, Reply, Commands, get_retry_state, retry_key, alive, decode,
}
use geodineum_comms.Retry
use geodineum_comms.Retry.Attempts.{IsBounded, clear-IsBounded, record_failure-IsBounded}
use geodineum_comms.Router.Channel.{World}
use geodineum_comms.Router.Outcome.{
  ChannelResult, DispatchResult, is_success, has_retryable_failures,
}
use geodineum_comms.Archive.{MessageStatus, spam, MessageStore, archive_message}
use geodineum_comms.Daemon.{
  Setup, Moment, Daemon, ack_message, writeback_status, already_sent, is_spam, stored, archive,
  ack_if, track_context, final_status, record_retry, forget_retry, acknowledge, acknowledge_if,
  settle, settled, deliver, deliver_if, is_undelivered, route, process_message,
}
use geodineum_comms.Daemon.Sends.{if_all}

module _ (c : Setup) (t : Moment) where
  -- Few attempts: every retry state is below the limit.
  abbrev pub HasTries : Daemon → Type 0
  HasTries d = IsBounded c.retry.max_attempts d.retries

  pub record_retry_tries : (f : Failure) (d : Daemon) → HasTries d → HasTries (record_retry c t f d)
  unfolding record_retry
  record_retry_tries f d h =
      record_failure-IsBounded t.gen_range t.commands t.utc c.retry f d.retries h

  pub forget_retry_tries :
      (site id : String) (d : Daemon) → HasTries d → HasTries (forget_retry t site id d)
  unfolding forget_retry Retry.record_success
  forget_retry_tries site id d h =
      clear-IsBounded t.commands c.retry.max_attempts site id d.retries h

  module _ (m : CommsMessage) (entry_id : String) where
    archive_tries :
        (status : MessageStatus) (results : List ChannelResult) (d : Daemon)
        → HasTries d
        → HasTries (archive t m entry_id status results d).0
    unfolding archive
    archive_tries status results d h = by_store d.message_store
      where
        by_result : (x : MessageStore × Bool) → HasTries (stored t m d x).0
        by_result (s, true) = h
        by_result (s, false) = h

        by_store :
            (o : Option MessageStore)
            → HasTries
                (elim o as (λ q. Daemon × Bool) [
                  | none ↦ (d, true)
                  | some s ↦
                      stored t m d (archive_message t.sql t.stamp m entry_id status results s)
                ]).0
        by_store none = h
        by_store (some s) = by_result _

    acknowledge_tries :
        (r : DispatchResult) (d : Daemon) → HasTries d → HasTries (acknowledge c t m entry_id r d)
    unfolding acknowledge ack_message
    acknowledge_tries r d h =
        if_all HasTries (is_success r || not (is_empty r.skipped_channels))
          (forget_retry_tries m.site_id m.id _ h)
          (if_all HasTries (has_retryable_failures r) (record_retry_tries _ _ h) h)

    acknowledge_if_tries :
        (r : DispatchResult) (x : Daemon × Bool)
        → HasTries x.0
        → HasTries (acknowledge_if c t m entry_id r x)
    unfolding writeback_status
    acknowledge_if_tries r (d, true) h = acknowledge_tries r _ h
    acknowledge_if_tries r (d, false) h = h

    settled_tries :
        (d : Daemon) (x : World × Result DispatchResult)
        → HasTries d
        → HasTries (settled c t m entry_id d x)
    unfolding settle ack_message writeback_status
    settled_tries d (w, ok r) h =
        acknowledge_if_tries r _
          (archive_tries (final_status r) r.results (record d { world = w }) h)
    settled_tries d (w, err e) h = record_retry_tries _ _ h

    deliver_if_tries :
        (d : Daemon) (x : DispatchRateLimiter × Bool)
        → HasTries d
        → HasTries (deliver_if c t m entry_id d x)
    unfolding deliver track_context
    deliver_if_tries d (l, true) h =
        settled_tries (track_context m (record d { rate_limiter = l })) _ h
    deliver_if_tries d (l, false) h = h

    ack_if_tries : (x : Daemon × Bool) → HasTries x.0 → HasTries (ack_if c m entry_id x)
    unfolding ack_message
    ack_if_tries (d, true) h = h
    ack_if_tries (d, false) h = h

    pub process_message_tries :
        (d : Daemon) → HasTries d → HasTries (process_message c t m entry_id d)
    unfolding process_message route ack_message
    process_message_tries d h =
        if_all HasTries (is_in_backoff t.now m.site_id d.backoff_tracker) h (
          if_all HasTries (already_sent t m d.message_store) h (
            if_all HasTries (is_spam c m) (ack_if_tries _ (archive_tries spam [] d h)) (
              if_all HasTries (m.message_type == "settings.reload") h (
                if_all HasTries (is_undelivered c m) h
                  (deliver_if_tries d (try_acquire t.now m.site_id d.rate_limiter) h)))))
