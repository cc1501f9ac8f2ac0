-- ===== src/Daemon/Sends.antt =====
-- What the three loops of src/main.rs hand to the channels.
use geodineum_comms.Prelude.{
  String, ◌==◌, ◌≡◌, refl, sym, ap, ◌∙◌, Bool, true, false, ◌||◌, not, Option, none, some, List, [],
  if◌then◌else◌,
}
use mathlib.Core.Path.{subst}
use geodineum_comms.Errors.{Result, ok, err}
use geodineum_comms.Message.{CommsMessage, is_empty}
use geodineum_comms.RateLimiter.{DispatchRateLimiter, try_acquire}
use geodineum_comms.Backoff.{is_in_backoff}
use geodineum_comms.Router.Channel.{Sent, World}
use geodineum_comms.Router.Channel.Gate.{Grows, same, Grows-map}
use geodineum_comms.Router.Outcome.{
  ChannelResult, DispatchResult, is_success, has_retryable_failures,
}
use geodineum_comms.Router.Dispatcher.{dispatch}
use geodineum_comms.Router.Dispatcher.Sends.{IsAllowedBySite, dispatch_filtered_sends}
use geodineum_comms.Archive.{MessageStatus, spam, MessageStore, archive_message}
use geodineum_comms.Daemon.{
  Setup, Moment, Daemon, ack_message, writeback_status, already_sent, is_spam, stored, archive,
  ack_if, track_context, final_status, record_retry, forget_retry, acknowledge, acknowledge_if,
  settle, settled, deliver, deliver_if, is_undelivered, route, process_message,
}

pub if_all : (P : Daemon → Type 0) {x y : Daemon} (b : Bool) → P x → P y → P (if b then x else y)
if_all P true f g = f
if_all P false f g = g

pub if_cases :
    (P : Daemon → Type 0) {x y : Daemon} (b : Bool)
    → (b ≡ true → P x)
    → (b ≡ false → P y)
    → P (if b then x else y)
if_cases P true f g = f refl
if_cases P false f g = g refl

-- A send that the daemon makes for an entry, which it lets through to the dispatcher.
pub record IsDelivered (c : Setup) (t : Moment) (m : CommsMessage) (only : Option (List String))
    (d : Daemon) (s : Sent) : Type 0 where
  pub healthy : is_in_backoff t.now m.site_id d.backoff_tracker ≡ false
  pub unsent : already_sent t m d.message_store ≡ false
  pub clean : is_spam c m ≡ false
  pub granted : (try_acquire t.now m.site_id d.rate_limiter).1 ≡ true
  pub allowed : IsAllowedBySite c.providers c.dispatcher m only d.world s

-- A send for an entry of the stream, whose message is not only for the daemon.
pub record IsRouted (c : Setup) (t : Moment) (m : CommsMessage) (d : Daemon) (s : Sent)
    : Type 0 where
  pub delivered : IsDelivered c t m none d s
  pub no_signal : (m.message_type == "settings.reload") ≡ false
  pub deliverable : is_undelivered c m ≡ false

module _ (c : Setup) (t : Moment) (m : CommsMessage) (entry_id : String) where
  archive_world :
      (status : MessageStatus) (results : List ChannelResult) (d : Daemon)
      → (archive t m entry_id status results d).0.world ≡ d.world
  unfolding archive
  archive_world status results d = by_store d.message_store
    where
      by_result : (x : MessageStore × Bool) → (stored t m d x).0.world ≡ d.world
      by_result (s, true) = refl
      by_result (s, false) = refl

      by_store :
          (o : Option MessageStore)
          → (elim o as (λ q. Daemon × Bool) [
            | none ↦ (d, true)
            | some s ↦ stored t m d (archive_message t.sql t.stamp m entry_id status results s)
          ]).0.world
            ≡ d.world
      by_store none = refl
      by_store (some s) = by_result _

  acknowledge_world :
      (r : DispatchResult) (d : Daemon) → (acknowledge c t m entry_id r d).world ≡ d.world
  unfolding acknowledge record_retry forget_retry ack_message
  acknowledge_world r d =
      if_all (λ x. x.world ≡ d.world) (is_success r || not (is_empty r.skipped_channels)) refl
        (if_all (λ x. x.world ≡ d.world) (has_retryable_failures r) refl refl)

  acknowledge_if_world :
      (r : DispatchResult) (x : Daemon × Bool)
      → (acknowledge_if c t m entry_id r x).world ≡ x.0.world
  unfolding writeback_status
  acknowledge_if_world r (d, true) = acknowledge_world r _
  acknowledge_if_world r (d, false) = refl

  settle_world :
      (d : Daemon) (r : Result DispatchResult) → (settle c t m entry_id d r).world ≡ d.world
  unfolding settle record_retry ack_message writeback_status
  settle_world d (ok r) =
      acknowledge_if_world r (archive t m entry_id (final_status r) r.results d)
      ∙ archive_world (final_status r) r.results d
  settle_world d (err e) = refl

  settled_world :
      (d : Daemon) (x : World × Result DispatchResult) → (settled c t m entry_id d x).world ≡ x.0
  settled_world d (w, r) = settle_world (record d { world = w }) r

  ack_if_world : (x : Daemon × Bool) → (ack_if c m entry_id x).world ≡ x.0.world
  unfolding ack_message
  ack_if_world (d, true) = refl
  ack_if_world (d, false) = refl

  Routes : Daemon → Daemon → Type 0
  Routes d after = Grows (IsRouted c t m d) d.world.sent after.world.sent

  deliver_if_sends :
      (d : Daemon) (x : DispatchRateLimiter × Bool)
      → is_in_backoff t.now m.site_id d.backoff_tracker ≡ false
      → already_sent t m d.message_store ≡ false
      → is_spam c m ≡ false
      → (m.message_type == "settings.reload") ≡ false
      → is_undelivered c m ≡ false
      → try_acquire t.now m.site_id d.rate_limiter ≡ x
      → Routes d (deliver_if c t m entry_id d x)
  unfolding Routes deliver dispatch track_context
  deliver_if_sends d (l, true) healthy unsent clean quiet live e =
      subst (λ w. Grows (IsRouted c t m d) d.world.sent w.sent)
        (sym (
          settled_world (track_context m (record d { rate_limiter = l }))
            (dispatch c.providers c.dispatcher m d.world)))
        (Grows-map
          (λ s h. record {
            delivered = record {
              healthy = healthy;
              unsent = unsent;
              clean = clean;
              granted = ap (λ q. q.1) e;
              allowed = h;
            };
            no_signal = quiet;
            deliverable = live;
          })
          (dispatch_filtered_sends c.providers c.dispatcher m none d.world))
  deliver_if_sends d (l, false) healthy unsent clean quiet live e = same

  -- Everything that handling a newly read entry sends is for a message whose site is not in backoff,
  -- which was not sent already, is not spam and no signal, system or production test message, with a
  -- slot of the rate limiter, and as the settings of its enabled site allow.
  pub process_message_sends :
      (d : Daemon)
      → Grows (IsRouted c t m d) d.world.sent (process_message c t m entry_id d).world.sent
  unfolding Routes process_message route ack_message
  process_message_sends d =
      if_cases (Routes d) (is_in_backoff t.now m.site_id d.backoff_tracker) (λ e. same)
        (λ healthy.
          if_cases (Routes d) (already_sent t m d.message_store) (λ e. same)
            (λ unsent.
              if_cases (Routes d) (is_spam c m)
                (λ e.
                  subst (λ w. Grows (IsRouted c t m d) d.world.sent w.sent)
                    (sym (ack_if_world (archive t m entry_id spam [] d) ∙ archive_world spam [] d))
                    same)
                (λ clean.
                  if_cases (Routes d) (m.message_type == "settings.reload") (λ e. same)
                    (λ no.
                      if_cases (Routes d) (is_undelivered c m) (λ e. same)
                        (λ live.
                          deliver_if_sends d (try_acquire t.now m.site_id d.rate_limiter) healthy
                            unsent clean no live refl)))))
