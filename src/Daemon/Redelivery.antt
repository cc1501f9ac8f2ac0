-- ===== src/Daemon/Redelivery.antt =====
-- What src/main.rs sends for claimed entries and for due retries.
use geodineum_comms.Prelude.{
  String, ◌≡◌, refl, sym, ap, Bool, true, false, Option, none, some, List, [],
}
use mathlib.Core.Path.{subst}
use geodineum_comms.Errors.{Result, ok, err}
use geodineum_comms.Message.{CommsMessage, is_empty}
use geodineum_comms.RateLimiter.{DispatchRateLimiter, try_acquire}
use geodineum_comms.Backoff.{is_in_backoff}
use geodineum_comms.Retry.{RetryState, get_retry_state}
use geodineum_comms.Router.Channel.{Sent, World}
use geodineum_comms.Router.Channel.Gate.{Grows, same, Grows-map}
use geodineum_comms.Router.Outcome.{ChannelResult, DispatchResult, is_success}
use geodineum_comms.Router.Dispatcher.{dispatch, dispatch_channels}
use geodineum_comms.Router.Dispatcher.Sends.{IsAllowedBySite, dispatch_filtered_sends}
use geodineum_comms.Archive.{
  MessageStatus, sent, spam, failed, MessageStore, archive_message, update_status,
}
use geodineum_comms.Daemon.{
  Setup, Moment, Daemon, ack_message, writeback_status, already_sent, is_spam, record_retry,
  forget_retry,
}
use geodineum_comms.Daemon.Claimed.{
  try_archive, exhausted, give_up, claimed_status, settle_claimed, settled_claimed,
  deliver_claimed_if, process_claimed,
}
use geodineum_comms.Daemon.Retried.{
  add_results, mark_sent, settle_retry, settled_retry, redeliver, redeliver_if, process_retry,
}
use geodineum_comms.Daemon.Sends.{IsDelivered, if_all, if_cases}

module _ (c : Setup) (t : Moment) (m : CommsMessage) (entry_id : String) where
  try_archive_world :
      (status : MessageStatus) (results : List ChannelResult) (d : Daemon)
      → (try_archive t m entry_id status results d).world ≡ d.world
  unfolding try_archive
  try_archive_world status results d = by_store d.message_store
    where
      by_store :
          (o : Option MessageStore)
          → (elim o as (λ q. Daemon) [
            | none ↦ d
            | some store ↦ record d {
              message_store =
                  some (archive_message t.sql t.stamp m entry_id status results store).0;
            }
          ]).world
            ≡ d.world
      by_store none = refl
      by_store (some s) = refl

  settle_claimed_world :
      (d : Daemon) (r : Result DispatchResult) → (settle_claimed c t m entry_id d r).world ≡ d.world
  unfolding settle_claimed record_retry forget_retry ack_message writeback_status
  settle_claimed_world d (ok r) =
      if_all (λ x. x.world ≡ d.world) (is_success r)
        (try_archive_world (claimed_status r) r.results d)
        (try_archive_world (claimed_status r) r.results d)
  settle_claimed_world d (err e) = refl

  settled_claimed_world :
      (d : Daemon) (x : World × Result DispatchResult)
      → (settled_claimed c t m entry_id d x).world ≡ x.0
  settled_claimed_world d (w, r) = settle_claimed_world (record d { world = w }) r

  -- A send for a claimed entry, whose retries are not used up.
  pub record IsClaimed (d : Daemon) (s : Sent) : Type 0 where
    pub delivered : IsDelivered c t m none d s
    pub tries_left :
        exhausted c.retry.max_attempts (get_retry_state t.commands t.utc m.site_id m.id d.retries)
        ≡ false

  Claims : Daemon → Daemon → Type 0
  Claims d after = Grows (IsClaimed d) d.world.sent after.world.sent

  deliver_claimed_if_sends :
      (d : Daemon) (x : DispatchRateLimiter × Bool)
      → is_in_backoff t.now m.site_id d.backoff_tracker ≡ false
      → already_sent t m d.message_store ≡ false
      → exhausted c.retry.max_attempts (get_retry_state t.commands t.utc m.site_id m.id d.retries)
        ≡ false
      → is_spam c m ≡ false
      → try_acquire t.now m.site_id d.rate_limiter ≡ x
      → Claims d (deliver_claimed_if c t m entry_id d x)
  unfolding Claims dispatch
  deliver_claimed_if_sends d (l, true) healthy unsent left clean e =
      subst (λ w. Grows (IsClaimed d) d.world.sent w.sent)
        (sym (
          settled_claimed_world (record d { rate_limiter = l })
            (dispatch c.providers c.dispatcher m d.world)))
        (Grows-map
          (λ s h. record {
            delivered = record {
              healthy = healthy;
              unsent = unsent;
              clean = clean;
              granted = ap (λ q. q.1) e;
              allowed = h;
            };
            tries_left = left;
          })
          (dispatch_filtered_sends c.providers c.dispatcher m none d.world))
  deliver_claimed_if_sends d (l, false) healthy unsent left clean e = same

  -- Everything that handling a claimed entry sends is for a message whose site is not in backoff, which
  -- was not sent already, has tries left and is not spam, with a slot of the rate limiter, and as the
  -- settings of its enabled site allow.
  pub process_claimed_sends :
      (d : Daemon) → Grows (IsClaimed d) d.world.sent (process_claimed c t m entry_id d).world.sent
  unfolding Claims process_claimed give_up ack_message writeback_status
  process_claimed_sends d =
      if_cases (Claims d) (is_in_backoff t.now m.site_id d.backoff_tracker) (λ e. same)
        (λ healthy.
          if_cases (Claims d) (already_sent t m d.message_store) (λ e. same)
            (λ unsent.
              if_cases (Claims d)
                (exhausted c.retry.max_attempts
                  (get_retry_state t.commands t.utc m.site_id m.id d.retries))
                (λ e. quiet failed)
                (λ left.
                  if_cases (Claims d) (is_spam c m) (λ e. quiet spam)
                    (λ clean.
                      deliver_claimed_if_sends d (try_acquire t.now m.site_id d.rate_limiter)
                        healthy unsent left clean refl))))
    where
      quiet :
          (status : MessageStatus)
          → Grows (IsClaimed d) d.world.sent (try_archive t m entry_id status [] d).world.sent
      quiet status =
          subst (λ w. Grows (IsClaimed d) d.world.sent w.sent) (sym (try_archive_world status [] d))
            same

module _ (c : Setup) (t : Moment) (s : RetryState) where
  mark_sent_world :
      (results : List ChannelResult) (d : Daemon) → (mark_sent t s results d).world ≡ d.world
  unfolding mark_sent
  mark_sent_world results d = by_store d.message_store
    where
      by_store :
          (o : Option MessageStore)
          → (elim o as (λ q. Daemon) [
            | none ↦ d
            | some store ↦ record d {
              message_store = some (
                  add_results t s.site_id s.message_id results
                    (update_status t.sql t.stamp s.site_id s.message_id sent store).0);
            }
          ]).world
            ≡ d.world
      by_store none = refl
      by_store (some x) = refl

  settle_retry_world :
      (d : Daemon) (r : Result DispatchResult) → (settle_retry c t s d r).world ≡ d.world
  unfolding settle_retry record_retry forget_retry writeback_status
  settle_retry_world d (ok r) =
      if_all (λ x. x.world ≡ d.world) (is_empty r.failed_channels) (mark_sent_world r.results _)
        refl
  settle_retry_world d (err e) = refl

  settled_retry_world :
      (d : Daemon) (x : World × Result DispatchResult) → (settled_retry c t s d x).world ≡ x.0
  settled_retry_world d (w, r) = settle_retry_world (record d { world = w }) r

  -- A send for a due retry: of the message that its entry was read as, over a channel that failed.
  pub record IsRetried (fetched : Result (Option CommsMessage)) (d : Daemon) (x : Sent)
      : Type 0 where
    pub message : CommsMessage
    pub entry : fetched ≡ ok (some message)
    pub granted : (try_acquire t.now s.site_id d.rate_limiter).1 ≡ true
    pub allowed :
        IsAllowedBySite c.providers c.dispatcher message (some s.failed_channels) d.world x

  redeliver_sends :
      (d : Daemon) (l : DispatchRateLimiter) (fetched : Result (Option CommsMessage))
      → (try_acquire t.now s.site_id d.rate_limiter).1 ≡ true
      → Grows
          (IsRetried fetched d)
          d.world.sent
          (redeliver c t s fetched (record d { rate_limiter = l })).world.sent
  unfolding redeliver dispatch_channels forget_retry
  redeliver_sends d l (ok (some m)) e =
      subst (λ w. Grows (IsRetried (ok (some m)) d) d.world.sent w.sent)
        (sym (
          settled_retry_world (record d { rate_limiter = l })
            (dispatch_channels c.providers c.dispatcher m s.failed_channels d.world)))
        (Grows-map (λ x h. record { message = m; entry = refl; granted = e; allowed = h })
          (dispatch_filtered_sends c.providers c.dispatcher m (some s.failed_channels) d.world))
  redeliver_sends d l (ok none) e = same
  redeliver_sends d l (err x) e = same

  -- Everything that a due retry sends is of the message that its stream entry still holds, over one of
  -- the channels that failed (over any channel where none is noted), with a slot of the rate limiter, and
  -- as the settings of its enabled site allow.
  pub process_retry_sends :
      (fetched : Result (Option CommsMessage)) (d : Daemon)
      → Grows (IsRetried fetched d) d.world.sent (process_retry c t s fetched d).world.sent
  unfolding process_retry
  process_retry_sends fetched d = by_slot (try_acquire t.now s.site_id d.rate_limiter) refl
    where
      by_slot :
          (x : DispatchRateLimiter × Bool)
          → try_acquire t.now s.site_id d.rate_limiter ≡ x
          → Grows (IsRetried fetched d) d.world.sent (redeliver_if c t s fetched d x).world.sent
      by_slot (l, true) e = redeliver_sends d l fetched (ap (λ q. q.1) e)
      by_slot (l, false) e = same
