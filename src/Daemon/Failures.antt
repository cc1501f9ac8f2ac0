-- ===== src/Daemon/Failures.antt =====
-- What src/main.rs does with the failed channels of a dispatch.
use geodineum_comms.Prelude.{
  ℕ, ◌+◌, ◌*◌, ◌%◌, ◌^◌, ◌<◌, ◌∷◌, Option, some, arith, eq_refl, String, ◌≡◌, ◌≢◌, refl, inl, inr,
  Bool, true, false, ◌&&◌, not, none, if◌then◌else◌, Bool-cases,
}
use geodineum_comms.Prelude.Dict.{or_else, lookup-remove}
use geodineum_comms.Errors.{ok}
use geodineum_comms.Message.{CommsMessage, is_empty}
use geodineum_comms.Router.Channel.{World}
use geodineum_comms.Router.Outcome.{DispatchResult, is_success, has_retryable_failures}
use geodineum_comms.Router.Dispatcher.{dispatch}
use geodineum_comms.Router.Dispatcher.Accounting.{dispatch_again}
use geodineum_comms.Archive.{MessageStatus, sent, skipped, failed, partial_sent}
use geodineum_comms.Retry
use geodineum_comms.Retry.{
  RetryState, Reply, Failure, get_retry_state, clear_retry_state, retry_key, ttl_secs,
}
use geodineum_comms.Retry.Attempts.{reachable, state_of, record_failure_schedules}
use geodineum_comms.Retry.Delay.{InRange}
use geodineum_comms.Daemon.{
  Setup, Moment, Daemon, stream_key, ack_message, final_status, first_error, names_of, failure,
  record_retry, forget_retry, acknowledge,
}

-- `final_status` by which lists are empty: of the channels that were sent, failed and were skipped.
abbrev by_empty : Bool → Bool → Bool → MessageStatus
by_empty none_sent none_failed none_skipped =
    if not none_sent && none_failed
    then sent
    else if not none_skipped && none_failed
    then skipped
    else if not none_failed
    then failed
    else if not none_failed
    then partial_sent
    else sent

by_lists :
    (none_sent none_failed none_skipped : Bool)
    → (by_empty none_sent none_failed none_skipped ≢ partial_sent)
      × (none_failed ≡ false → by_empty none_sent none_failed none_skipped ≡ failed)
      × (none_failed ≡ true → by_empty none_sent none_failed none_skipped ≢ failed)
by_lists false true k = (λ e. cc, λ e. cc, λ e q. cc)
by_lists true true false = (λ e. cc, λ e. cc, λ e q. cc)
by_lists true true true = (λ e. cc, λ e. cc, λ e q. cc)
by_lists false false false = (λ e. cc, λ e. refl, λ e q. cc)
by_lists false false true = (λ e. cc, λ e. refl, λ e q. cc)
by_lists true false false = (λ e. cc, λ e. refl, λ e q. cc)
by_lists true false true = (λ e. cc, λ e. refl, λ e q. cc)

module _ (c : Setup) (t : Moment) (m : CommsMessage) (entry_id : String) (w w' : World)
    (r : DispatchResult) (dispatched : dispatch c.providers c.dispatcher m w ≡ (w', ok r)) where
  again : has_retryable_failures r ≡ not (is_empty r.failed_channels)
  unfolding dispatch
  again = dispatch_again c.providers c.dispatcher m none w w' r dispatched

  -- The status that is archived for a dispatch that gave a result is failed exactly when a channel failed, however many
  -- others took the message; it is never partially sent.
  pub final_status_of_failures :
      (final_status r ≢ partial_sent)
      × (is_empty r.failed_channels ≡ false → final_status r ≡ failed)
      × (is_empty r.failed_channels ≡ true → final_status r ≢ failed)
  unfolding final_status is_success
  final_status_of_failures = rw again (
      by_lists (is_empty r.successful_channels) (is_empty r.failed_channels)
        (is_empty r.skipped_channels))

  abbrev reported : Failure
  reported =
      failure c m entry_id (or_else (first_error r.failed_channels) "") (names_of r.failed_channels)

  acknowledge_failed :
      (d : Daemon)
      → is_empty r.failed_channels ≡ false
      → acknowledge c t m entry_id r d ≡ (
          if is_empty r.skipped_channels
          then record_retry c t reported (ack_message c m entry_id d)
          else forget_retry t m.site_id m.id (ack_message c m entry_id d))
  unfolding acknowledge is_success
  acknowledge_failed d some_failed =
      rw (again, some_failed)
        (elim (Bool-cases (is_empty r.successful_channels)) [
          | inl e ↦ rw e (elim (Bool-cases (is_empty r.skipped_channels)) [
            | inl q ↦ rw q refl
            | inr q ↦ rw q refl
          ])
          | inr e ↦ rw e (elim (Bool-cases (is_empty r.skipped_channels)) [
            | inl q ↦ rw q refl
            | inr q ↦ rw q refl
          ])
        ])

  -- What waits in ValKey for the message behind the acknowledgement.
  pub record IsAwaited (d after : Daemon) (old : Option RetryState) : Type 0 where
    pub acknowledged : after.acked ≡ (stream_key c m, entry_id) ∷ d.acked
    pub waits :
        is_empty r.skipped_channels ≡ true
        → (s : RetryState) × (s.failed_channels ≡ names_of r.failed_channels)
          × (s.attempts ≡ ((state_of old t.utc reported).attempts + 1) % 2 ^ 32)
          × ((later : ℕ)
              → later < t.utc + ttl_secs c.retry * 1000
              → get_retry_state reachable later m.site_id m.id after.retries ≡ Reply.ok (some s))
    pub forgotten :
        is_empty r.skipped_channels ≡ false
        → (later : ℕ) → get_retry_state reachable later m.site_id m.id after.retries ≡ Reply.ok none

  retried-IsAwaited :
      (d : Daemon) (old : Option RetryState)
      → t.commands ≡ reachable
      → get_retry_state reachable t.utc m.site_id m.id d.retries ≡ Reply.ok old
      → ((state_of old t.utc reported).attempts + 1) % 2 ^ 32 < c.retry.max_attempts
      → InRange t.gen_range
      → is_empty r.skipped_channels ≡ true
      → IsAwaited d (record_retry c t reported (ack_message c m entry_id d)) old
  unfolding record_retry ack_message
  retried-IsAwaited d old up loaded few jitter none_skipped =
      let (s, _, n, f, _, kept, _) =
        record_failure_schedules t.gen_range t.utc c.retry reported d.retries old loaded few
          jitter in
      record {
        acknowledged = refl;
        waits = λ e. (s, f, n, λ later soon. rw up (kept later soon));
        forgotten = λ e. cc;
      }

  forgotten-IsAwaited :
      (d : Daemon) (old : Option RetryState)
      → t.commands ≡ reachable
      → is_empty r.skipped_channels ≡ false
      → IsAwaited d (forget_retry t m.site_id m.id (ack_message c m entry_id d)) old
  unfolding forget_retry Retry.record_success clear_retry_state get_retry_state ack_message
  forgotten-IsAwaited d old up some_skipped = record {
    acknowledged = refl;
    waits = λ e. cc;
    forgotten = λ e later. rw up (
        ground (
          arith,
          lookup-remove (retry_key m.site_id m.id) (retry_key m.site_id m.id) d.retries,
          eq_refl (retry_key m.site_id m.id),
        ));
  }

  -- Where channels failed in a dispatch that gave a result, ValKey answers and the message is not to be
  -- given up, the acknowledgement goes with a retry of exactly the failed channels, which waits until it
  -- expires, if no channel was skipped; if one was, no retry waits at all.
  pub failures_are_retried :
      (d : Daemon) (old : Option RetryState)
      → is_empty r.failed_channels ≡ false
      → t.commands ≡ reachable
      → get_retry_state reachable t.utc m.site_id m.id d.retries ≡ Reply.ok old
      → ((state_of old t.utc reported).attempts + 1) % 2 ^ 32 < c.retry.max_attempts
      → InRange t.gen_range
      → IsAwaited d (acknowledge c t m entry_id r d) old
  failures_are_retried d old some_failed up loaded few jitter =
      rw (acknowledge_failed d some_failed) (elim (Bool-cases (is_empty r.skipped_channels)) [
        | inl e ↦ rw e (retried-IsAwaited d old up loaded few jitter e)
        | inr e ↦ rw e (forgotten-IsAwaited d old up e)
      ])
