-- ===== src/Examples/Waiting.antt =====
-- Later runs of the daemon on the sample data: after failures, and of the retries.
use geodineum_comms.Prelude.{
  ℕ, ◌≡◌, refl, ◌==◌, true, false, none, some, List, [], ◌∷◌, arith, ◌+◌, ◌<◌,
}
use geodineum_comms.Prelude.Dict.{lookup}
use geodineum_comms.Errors.{ok}
use geodineum_comms.Backoff.{consecutive_failures, backoff, scaled_delay, is_nan}
use geodineum_comms.Retry.{
  RetryState, Reply, Store, Scan, get_retry_state, get_due_retries, retry_key, record_failure,
  fresh, failed_again, save, schedule, delay_secs, final_delay, calculate_next_retry,
}
use geodineum_comms.Retry.Attempts.{IsBounded, reachable, retry_becomes_due}
use geodineum_comms.Retry.Delay.{InRange}
use geodineum_comms.Retry.Due.{Has}
use geodineum_comms.Settings.{default_retry}
use geodineum_comms.Router.Channel.Gate.{Grows}
use geodineum_comms.Archive.{sent, archive_message, archive_received, update_status, record_results}
use geodineum_comms.Archive.Message.{archive_message_records}
use geodineum_comms.Daemon.{Daemon, Moment, archive, process_message}
use geodineum_comms.Daemon.{stream_key}
use geodineum_comms.Daemon.Acknowledged.{process_claimed_acknowledges}
use geodineum_comms.RateLimiter.{new, evict, pruned, try_acquire}
use geodineum_comms.Backoff.{is_in_backoff}
use geodineum_comms.Prelude.Dict.{retain}
use geodineum_comms.Daemon.Claimed.{process_claimed, exhausted}
use geodineum_comms.Daemon.Retried.{process_retry}
use geodineum_comms.Daemon.Fence.{IsArchived}
use geodineum_comms.Daemon.Pause.{archive_failure_pauses}
use geodineum_comms.Daemon.Redelivery.{
  IsClaimed, IsRetried, process_claimed_sends, process_retry_sends,
}
use geodineum_comms.Daemon.Runs.{
  Runs, started, onward, reads, claims, Runs-IsBounded, Runs-exhausted_never,
}
use geodineum_comms.Examples.{setup, moment, contact, daemon, due, timed_out, working}

process_claimed_sends_example :
    Grows
      (IsClaimed setup moment contact "1-0" daemon)
      []
      (process_claimed setup moment contact "1-0" daemon).world.sent
process_claimed_sends_example = process_claimed_sends setup moment contact "1-0" daemon

process_retry_sends_example :
    Grows
      (IsRetried setup moment due (ok (some contact)) daemon)
      []
      (process_retry setup moment due (ok (some contact)) daemon).world.sent
process_retry_sends_example = process_retry_sends setup moment due (ok (some contact)) daemon

-- Nothing waits at the start.
none_waiting : IsBounded 5 []
unfolding lookup
none_waiting key e s p q = absurd (nothing p)
  where
    nothing : none ≡ some e → ⊥
    nothing h = cc

-- The sample message is read, and claimed afterwards.
a_run :
    Runs setup daemon (
      process_claimed setup moment contact "1-0"
        (process_message setup moment contact "1-0" daemon))
a_run = onward (onward started (reads moment contact "1-0")) (claims moment contact "1-0")

Runs-IsBounded_example :
    IsBounded 5
      (process_claimed setup moment contact "1-0"
        (process_message setup moment contact "1-0" daemon)).retries
Runs-IsBounded_example = Runs-IsBounded setup a_run none_waiting

Runs-exhausted_never_example :
    exhausted 5 (
      get_retry_state reachable 5_000 "shop" "m1"
        (process_claimed setup moment contact "1-0"
          (process_message setup moment contact "1-0" daemon)).retries)
    ≡ false
Runs-exhausted_never_example = Runs-exhausted_never setup moment contact a_run none_waiting

-- A moment at which nothing can be inserted.
abbrev full_disk : Moment
full_disk = record moment { sql = record working { insert_message = false } }

abbrev soon : Moment
soon = record moment { now = 2_000 }

refused_write : (archive full_disk contact "1-0" sent [] daemon).1 ≡ false
unfolding archive archive_message archive_received
refused_write = refl

no_failure : consecutive_failures "shop" daemon.backoff_tracker ≡ 0
unfolding consecutive_failures lookup
no_failure = refl

too_soon :
    2_000
    < 1_000
      + backoff daemon.backoff_tracker.config
          (consecutive_failures "shop" daemon.backoff_tracker + 1)
unfolding consecutive_failures lookup backoff is_nan scaled_delay
too_soon = omega arith

archive_failure_pauses_example :
    (process_message setup soon contact "2-0" (archive full_disk contact "1-0" sent [] daemon).0
      ≡ (archive full_disk contact "1-0" sent [] daemon).0)
    × (process_claimed setup soon contact "2-0" (archive full_disk contact "1-0" sent [] daemon).0
        ≡ (archive full_disk contact "1-0" sent [] daemon).0)
archive_failure_pauses_example =
    archive_failure_pauses setup full_disk soon contact contact "1-0" "2-0" sent [] daemon
      refused_write refl (omega (arith, no_failure)) too_soon

-- The daemon after the sample message was archived as sent.
abbrev archived : Daemon
archived = record daemon {
  message_store = some (archive_message working "now" contact "1-0" sent [] []).0;
}

written : (archive_message working "now" contact "1-0" sent [] []).1 ≡ true
unfolding archive_message archive_received update_status record_results
written = refl

kept : IsArchived contact sent archived.message_store
kept = record {
  store = (archive_message working "now" contact "1-0" sent [] []).0;
  kept = refl;
  recorded = archive_message_records working "now" contact "1-0" sent [] [] (λ e. cc) written;
}

abbrev nothing_kept : Store
nothing_kept = []

loaded : get_retry_state reachable 0 "shop" "m1" nothing_kept ≡ Reply.ok none
unfolding get_retry_state lookup
loaded = refl

abbrev same_number : ℕ → ℕ
same_number r = r

same_number-InRange : InRange same_number
same_number-InRange r = omega arith

other_key : (retry_key "shop" "m1" == "{shop}:comms:retry:m2") ≡ false
unfolding retry_key
other_key = refl

abbrev first_retry : RetryState
first_retry = record due { attempts = 1; last_attempt = 0; next_retry = 60_000 }

scheduled_first :
    (record_failure same_number reachable 0 default_retry timed_out nothing_kept).1
    ≡ Reply.ok (some first_retry)
unfolding record_failure get_retry_state lookup schedule fresh failed_again save
    calculate_next_retry final_delay delay_secs
scheduled_first = refl

-- ValKey answers every command.
abbrev whole_scan : Scan
whole_scan = record { scanned = true; gets = λ key. true }

retry_becomes_due_example :
    (found : List RetryState) × (get_due_retries whole_scan 61_000
        (record_failure same_number reachable 0 default_retry timed_out nothing_kept).0
      ≡ Reply.ok found)
    × Has first_retry found
unfolding fresh
retry_becomes_due_example =
    retry_becomes_due same_number 0 default_retry timed_out nothing_kept none loaded first_retry
      61_000 whole_scan (omega arith) (omega arith) scheduled_first (omega arith) (omega arith) refl
      refl

healthy : is_in_backoff 1_000 "shop" daemon.backoff_tracker ≡ false
unfolding is_in_backoff lookup
healthy = refl

granted : (try_acquire 1_000 "shop" daemon.rate_limiter).1 ≡ true
unfolding try_acquire evict pruned retain new lookup
granted = refl

process_claimed_acknowledges_example :
    (process_claimed setup full_disk contact "1-0" daemon).acked
    ≡ (stream_key setup contact, "1-0") ∷ []
process_claimed_acknowledges_example =
    process_claimed_acknowledges setup full_disk contact "1-0" daemon healthy granted
