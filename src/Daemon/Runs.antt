-- ===== src/Daemon/Runs.antt =====
-- The retry states of the daemon stay below the limit of attempts, for claimed entries and due retries
-- of src/main.rs too, and so in every run.
use geodineum_comms.Prelude.{
  ℕ, String, ◌≡◌, refl, inl, inr, Bool, true, false, Option, none, some, List, [], ◌∷◌, arith,
  if◌then◌else◌, Bool-cases, leb,
}
use geodineum_comms.Prelude.Dict.{lookup}
use geodineum_comms.Errors.{Result, ok, err}
use geodineum_comms.Message.{CommsMessage, is_empty}
use geodineum_comms.RateLimiter.{DispatchRateLimiter, try_acquire}
use geodineum_comms.Backoff.{is_in_backoff}
use geodineum_comms.Retry.{
  RetryState, Entry, Store, Failure, Reply, Commands, get_retry_state, retry_key, alive, decode,
  Scan,
}
use geodineum_comms.Retry
use geodineum_comms.Retry.Attempts.{IsBounded}
use geodineum_comms.Router.Channel.{World}
use geodineum_comms.Router.Outcome.{ChannelResult, DispatchResult, is_success}
use geodineum_comms.Archive.{
  MessageStatus, sent, spam, failed, MessageStore, archive_message, update_status,
}
use geodineum_comms.Daemon.{
  Setup, Moment, Daemon, ack_message, writeback_status, already_sent, is_spam, process_message,
}
use geodineum_comms.Daemon.Claimed.{
  try_archive, exhausted, give_up, claimed_status, settle_claimed, settled_claimed,
  deliver_claimed_if, process_claimed,
}
use geodineum_comms.Daemon.Retried.{
  add_results, mark_sent, settle_retry, settled_retry, redeliver, redeliver_if, process_retries,
  if_found, retry_due, process_retry,
}
use geodineum_comms.Daemon.Sends.{if_all}
use geodineum_comms.Daemon.Tries.{
  HasTries, record_retry_tries, forget_retry_tries, process_message_tries,
}

module _ (c : Setup) (t : Moment) where
  module _ (m : CommsMessage) (entry_id : String) where
    try_archive_tries :
        (status : MessageStatus) (results : List ChannelResult) (d : Daemon)
        → (HasTries c t) d
        → (HasTries c t) (try_archive t m entry_id status results d)
    unfolding try_archive
    try_archive_tries status results d h = by_store d.message_store
      where
        by_store :
            (o : Option MessageStore)
            → (HasTries c t) (elim o as (λ q. Daemon) [
              | none ↦ d
              | some store ↦ record d {
                message_store =
                    some (archive_message t.sql t.stamp m entry_id status results store).0;
              }
            ])
        by_store none = h
        by_store (some s) = h

    settled_claimed_tries :
        (d : Daemon) (x : World × Result DispatchResult)
        → (HasTries c t) d
        → (HasTries c t) (settled_claimed c t m entry_id d x)
    unfolding settle_claimed ack_message writeback_status
    settled_claimed_tries d (w, ok r) h =
        let kept = try_archive_tries (claimed_status r) r.results (record d { world = w }) h in
        if_all (HasTries c t) (is_success r) (forget_retry_tries c t m.site_id m.id _ kept) kept
    settled_claimed_tries d (w, err e) h = record_retry_tries c t _ _ h

    deliver_claimed_if_tries :
        (d : Daemon) (x : DispatchRateLimiter × Bool)
        → (HasTries c t) d
        → (HasTries c t) (deliver_claimed_if c t m entry_id d x)
    deliver_claimed_if_tries d (l, true) h =
        settled_claimed_tries (record d { rate_limiter = l }) _ h
    deliver_claimed_if_tries d (l, false) h = h

    process_claimed_tries :
        (d : Daemon) → (HasTries c t) d → (HasTries c t) (process_claimed c t m entry_id d)
    unfolding process_claimed give_up ack_message writeback_status
    process_claimed_tries d h =
        if_all (HasTries c t) (is_in_backoff t.now m.site_id d.backoff_tracker) h (
          if_all (HasTries c t) (already_sent t m d.message_store) h (
            if_all (HasTries c t)
              (exhausted c.retry.max_attempts
                (get_retry_state t.commands t.utc m.site_id m.id d.retries))
              (try_archive_tries failed [] d h)
              (if_all (HasTries c t) (is_spam c m) (try_archive_tries spam [] d h)
                (deliver_claimed_if_tries d (try_acquire t.now m.site_id d.rate_limiter) h))))

  module _ (s : RetryState) where
    mark_sent_tries :
        (results : List ChannelResult) (d : Daemon)
        → (HasTries c t) d
        → (HasTries c t) (mark_sent t s results d)
    unfolding mark_sent
    mark_sent_tries results d h = by_store d.message_store
      where
        by_store :
            (o : Option MessageStore)
            → (HasTries c t) (elim o as (λ q. Daemon) [
              | none ↦ d
              | some store ↦ record d {
                message_store = some (
                    add_results t s.site_id s.message_id results
                      (update_status t.sql t.stamp s.site_id s.message_id sent store).0);
              }
            ])
        by_store none = h
        by_store (some x) = h

    settled_retry_tries :
        (d : Daemon) (x : World × Result DispatchResult)
        → (HasTries c t) d
        → (HasTries c t) (settled_retry c t s d x)
    unfolding settle_retry writeback_status
    settled_retry_tries d (w, ok r) h =
        if_all (HasTries c t) (is_empty r.failed_channels)
          (mark_sent_tries r.results _ (forget_retry_tries c t s.site_id s.message_id _ h))
          (record_retry_tries c t _ _ h)
    settled_retry_tries d (w, err e) h = record_retry_tries c t _ _ h

    redeliver_if_tries :
        (fetched : Result (Option CommsMessage)) (d : Daemon) (x : DispatchRateLimiter × Bool)
        → (HasTries c t) d
        → (HasTries c t) (redeliver_if c t s fetched d x)
    unfolding redeliver
    redeliver_if_tries (ok (some m)) d (l, true) h =
        settled_retry_tries (record d { rate_limiter = l }) _ h
    redeliver_if_tries (ok none) d (l, true) h = forget_retry_tries c t s.site_id s.message_id _ h
    redeliver_if_tries (err e) d (l, true) h = h
    redeliver_if_tries fetched d (l, false) h = h

  process_retry_tries :
      (s : RetryState) (fetched : Result (Option CommsMessage)) (d : Daemon)
      → (HasTries c t) d
      → (HasTries c t) (process_retry c t s fetched d)
  unfolding process_retry
  process_retry_tries s fetched d h =
      redeliver_if_tries s fetched d (try_acquire t.now s.site_id d.rate_limiter) h

module _ (c : Setup) (moments : RetryState → Moment)
    (fetch : RetryState → Result (Option CommsMessage)) where
  process_retries_tries :
      (due : List RetryState) (d : Daemon)
      → IsBounded c.retry.max_attempts d.retries
      → IsBounded c.retry.max_attempts (process_retries c moments fetch due d).retries
  unfolding process_retries
  process_retries_tries [] d h = h
  process_retries_tries (s ∷ due) d h =
      process_retries_tries due _ (process_retry_tries c (moments s) s (fetch s) d h)

  if_found_tries :
      (found : Reply (List RetryState)) (d : Daemon)
      → IsBounded c.retry.max_attempts d.retries
      → IsBounded c.retry.max_attempts (if_found c moments fetch found d).retries
  if_found_tries (Reply.ok due) d h = process_retries_tries due d h
  if_found_tries (Reply.err e) d h = h

-- While no state reaches the limit, the check of the claimed entries for used up attempts finds none,
-- whatever ValKey answers.
exhausted_never :
    (c : Commands) (now max_attempts : ℕ) (site id : String) (m : Store)
    → IsBounded max_attempts m
    → exhausted max_attempts (get_retry_state c now site id m) ≡ false
unfolding get_retry_state
exhausted_never c now max_attempts site id m h = elim (Bool-cases c.get) [
  | inl on ↦ simp on (found _ refl)
  | inr off ↦ simp off refl
]
  where
    stated :
        (e : Entry) (s : Option RetryState)
        → lookup (retry_key site id) m ≡ some e
        → e.state ≡ s
        → exhausted max_attempts (elim s as (λ q. Reply (Option RetryState)) [
          | none ↦ Reply.err Retry.serialization
          | some x ↦ Reply.ok (some x)
        ])
          ≡ false
    stated e none p q = refl
    stated e (some s) p q = ground (arith, h (retry_key site id) e s p q)

    unexpired :
        (e : Entry) (b : Bool)
        → lookup (retry_key site id) m ≡ some e
        → exhausted max_attempts (decode (if b then none else some e)) ≡ false
    unexpired e true p = refl
    unexpired e false p = stated e e.state p refl

    dated :
        (e : Entry) (x : Option ℕ)
        → lookup (retry_key site id) m ≡ some e
        → exhausted max_attempts (
            decode (elim x as (λ q. Option Entry) [
              | none ↦ some e
              | some t ↦ if leb t now then none else some e
            ]))
          ≡ false
    dated e none p = stated e e.state p refl
    dated e (some t) p = unexpired e (leb t now) p

    found :
        (o : Option Entry)
        → lookup (retry_key site id) m ≡ o
        → exhausted max_attempts (decode (alive now o)) ≡ false
    found none p = refl
    found (some e) p = dated e e.expires p

-- One handling by the daemon: of an entry that was read or claimed, or of the retries that are due.
pub data Handles (c : Setup) (d : Daemon) : Daemon → Type 0 where
  reads :
      (t : Moment) (m : CommsMessage) (entry_id : String)
      → Handles c d (process_message c t m entry_id d)
  claims :
      (t : Moment) (m : CommsMessage) (entry_id : String)
      → Handles c d (process_claimed c t m entry_id d)
  retries :
      (scan : Scan) (utc : ℕ) (moments : RetryState → Moment)
      (fetch : RetryState → Result (Option CommsMessage))
      → Handles c d (retry_due c scan utc moments fetch d)

pub data Runs (c : Setup) (start : Daemon) : Daemon → Type 0 where
  started : Runs c start start
  onward : {d after : Daemon} → Runs c start d → Handles c d after → Runs c start after

Handles-IsBounded :
    (c : Setup) {d after : Daemon}
    → Handles c d after
    → IsBounded c.retry.max_attempts d.retries
    → IsBounded c.retry.max_attempts after.retries
unfolding retry_due
Handles-IsBounded c (reads t m entry_id) h = process_message_tries c t m entry_id _ h
Handles-IsBounded c (claims t m entry_id) h = process_claimed_tries c t m entry_id _ h
Handles-IsBounded c (retries scan utc moments fetch) h = if_found_tries c moments fetch _ _ h

-- However long the daemon runs, over whatever entries and retries, whatever fails, every retry state
-- that it leaves in ValKey has had fewer attempts than the limit, if that was so at the start.
pub Runs-IsBounded :
    (c : Setup) {start d : Daemon}
    → Runs c start d
    → IsBounded c.retry.max_attempts start.retries
    → IsBounded c.retry.max_attempts d.retries
Runs-IsBounded c started h = h
Runs-IsBounded c (onward r step) h = Handles-IsBounded c step (Runs-IsBounded c r h)

-- However long the daemon runs from retry states below the limit, the check of the claimed entries for
-- used up attempts finds none.
pub Runs-exhausted_never :
    (c : Setup) {start d : Daemon} (t : Moment) (m : CommsMessage)
    → Runs c start d
    → IsBounded c.retry.max_attempts start.retries
    → exhausted c.retry.max_attempts (get_retry_state t.commands t.utc m.site_id m.id d.retries)
      ≡ false
Runs-exhausted_never c t m r h =
    exhausted_never t.commands t.utc c.retry.max_attempts m.site_id m.id _ (Runs-IsBounded c r h)
