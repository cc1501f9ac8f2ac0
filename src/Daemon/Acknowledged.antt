-- ===== src/Daemon/Acknowledged.antt =====
-- When src/main.rs acknowledges an entry that it claimed.
use geodineum_comms.Prelude.{
  String, ◌≡◌, refl, ap, Bool, true, false, Option, none, some, List, ◌∷◌,
}
use geodineum_comms.Errors.{Result, ok, err}
use geodineum_comms.Message.{CommsMessage}
use geodineum_comms.RateLimiter.{DispatchRateLimiter, try_acquire}
use geodineum_comms.Backoff.{is_in_backoff}
use geodineum_comms.Retry.{get_retry_state}
use geodineum_comms.Router.Channel.{World}
use geodineum_comms.Router.Outcome.{ChannelResult, DispatchResult, is_success}
use geodineum_comms.Archive.{MessageStatus, spam, failed, MessageStore, archive_message}
use geodineum_comms.Daemon.{
  Setup, Moment, Daemon, stream_key, ack_message, writeback_status, already_sent, is_spam,
  record_retry, forget_retry,
}
use geodineum_comms.Daemon.Claimed.{
  try_archive, exhausted, give_up, claimed_status, settle_claimed, settled_claimed,
  deliver_claimed_if, process_claimed,
}
use geodineum_comms.Daemon.Sends.{if_all}

module _ (c : Setup) (t : Moment) (m : CommsMessage) (entry_id : String) where
  Acks : Daemon → Daemon → Type 0
  Acks d after = after.acked ≡ (stream_key c m, entry_id) ∷ d.acked

  try_archive_acked :
      (status : MessageStatus) (results : List ChannelResult) (d : Daemon)
      → (try_archive t m entry_id status results d).acked ≡ d.acked
  unfolding try_archive
  try_archive_acked status results d = by_store d.message_store
    where
      by_store :
          (o : Option MessageStore)
          → (elim o as (λ q. Daemon) [
            | none ↦ d
            | some store ↦ record d {
              message_store =
                  some (archive_message t.sql t.stamp m entry_id status results store).0;
            }
          ]).acked
            ≡ d.acked
      by_store none = refl
      by_store (some s) = refl

  archived_Acks :
      (status : MessageStatus) (results : List ChannelResult) (d : Daemon)
      → (stream_key c m, entry_id) ∷ (try_archive t m entry_id status results d).acked
        ≡ (stream_key c m, entry_id) ∷ d.acked
  archived_Acks status results d =
      ap (λ l. (stream_key c m, entry_id) ∷ l) (try_archive_acked status results d)

  settled_claimed-Acks :
      (d : Daemon) (x : World × Result DispatchResult) → Acks d (settled_claimed c t m entry_id d x)
  unfolding Acks settle_claimed record_retry forget_retry ack_message writeback_status
  settled_claimed-Acks d (w, ok r) =
      if_all (Acks d) (is_success r)
        (archived_Acks (claimed_status r) r.results (record d { world = w }))
        (archived_Acks (claimed_status r) r.results (record d { world = w }))
  settled_claimed-Acks d (w, err e) = refl

  deliver_claimed_if-Acks :
      (d : Daemon) (x : DispatchRateLimiter × Bool)
      → x.1 ≡ true
      → Acks d (deliver_claimed_if c t m entry_id d x)
  unfolding Acks
  deliver_claimed_if-Acks d (l, true) e = settled_claimed-Acks (record d { rate_limiter = l }) _
  deliver_claimed_if-Acks d (l, false) e = absurd cc

  -- A claimed entry of a site that is not in backoff and has a slot of the rate limiter is acknowledged,
  -- once, whatever becomes of it: also where the archive write fails or channels failed.
  pub process_claimed_acknowledges :
      (d : Daemon)
      → is_in_backoff t.now m.site_id d.backoff_tracker ≡ false
      → (try_acquire t.now m.site_id d.rate_limiter).1 ≡ true
      → (process_claimed c t m entry_id d).acked ≡ (stream_key c m, entry_id) ∷ d.acked
  unfolding Acks process_claimed give_up ack_message writeback_status
  process_claimed_acknowledges d healthy granted = rw healthy (
      if_all (Acks d) (already_sent t m d.message_store) refl (
        if_all (Acks d)
          (exhausted c.retry.max_attempts
            (get_retry_state t.commands t.utc m.site_id m.id d.retries))
          (archived_Acks failed _ d)
          (if_all (Acks d) (is_spam c m) (archived_Acks spam _ d)
            (deliver_claimed_if-Acks d (try_acquire t.now m.site_id d.rate_limiter) granted))))
