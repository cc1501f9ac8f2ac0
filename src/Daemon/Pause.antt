-- ===== src/Daemon/Pause.antt =====
-- What a failed archive write means for later entries.
use geodineum_comms.Prelude.{
  String, ◌+◌, ◌-◌, ◌^◌, ◌<◌, eq_refl, ◌≡◌, refl, Bool, true, false, Option, none, some, List,
  arith,
}
use geodineum_comms.Message.{CommsMessage}
use geodineum_comms.Backoff.{is_in_backoff, consecutive_failures, backoff, record_failure}
use geodineum_comms.Backoff.Progress.{record_failure_waits}
use geodineum_comms.Router.Outcome.{ChannelResult}
use geodineum_comms.Archive.{MessageStatus, MessageStore, archive_message}
use geodineum_comms.Daemon.{Setup, Moment, Daemon, stored, archive, process_message}
use geodineum_comms.Daemon.Claimed.{process_claimed}

-- The backoff that a failed archive write leaves.
failed_backoff :
    (t : Moment) (m : CommsMessage) (entry_id : String) (status : MessageStatus)
    (results : List ChannelResult) (d : Daemon)
    → (archive t m entry_id status results d).1 ≡ false
    → (archive t m entry_id status results d).0.backoff_tracker
      ≡ record_failure t.now m.site_id t.archive_error d.backoff_tracker
unfolding archive
failed_backoff t m entry_id status results d = by_store d.message_store
  where
    by_result :
        (x : MessageStore × Bool)
        → (stored t m d x).1 ≡ false
        → (stored t m d x).0.backoff_tracker
          ≡ record_failure t.now m.site_id t.archive_error d.backoff_tracker
    by_result (s, true) e = absurd cc
    by_result (s, false) e = refl

    archived : Option MessageStore → Daemon × Bool
    archived o = elim o [
      | none ↦ (d, true)
      | some store ↦ stored t m d (archive_message t.sql t.stamp m entry_id status results store)
    ]

    by_store :
        (o : Option MessageStore)
        → (archived o).1 ≡ false
        → (archived o).0.backoff_tracker
          ≡ record_failure t.now m.site_id t.archive_error d.backoff_tracker
    by_store none e = absurd cc
    by_store (some s) e = by_result _ e

-- After a failed archive write of an entry that was read, every entry of the same site, read or claimed,
-- is left as it is until the backoff of the site's count of failures is over: nothing is sent, written or acknowledged,
-- as long as that count does not overflow.
pub archive_failure_pauses :
    (c : Setup) (t later : Moment) (m next : CommsMessage) (entry_id next_id : String)
    (status : MessageStatus) (results : List ChannelResult) (d : Daemon)
    → (archive t m entry_id status results d).1 ≡ false
    → next.site_id ≡ m.site_id
    → consecutive_failures m.site_id d.backoff_tracker < 2 ^ 32 - 1
    → later.now
      < t.now
        + backoff d.backoff_tracker.config (consecutive_failures m.site_id d.backoff_tracker + 1)
    → (process_message c later next next_id (archive t m entry_id status results d).0
        ≡ (archive t m entry_id status results d).0)
      × (process_claimed c later next next_id (archive t m entry_id status results d).0
          ≡ (archive t m entry_id status results d).0)
unfolding process_message process_claimed
archive_failure_pauses c t later m next entry_id next_id status results d failed same few soon =
    (rw waits refl, rw waits refl)
  where
    waits :
        is_in_backoff later.now next.site_id
          (archive t m entry_id status results d).0.backoff_tracker
        ≡ true
    waits =
        rw
          (
            failed_backoff t m entry_id status results d failed,
            same,
            record_failure_waits t.now later.now m.site_id m.site_id t.archive_error
                d.backoff_tracker few,
            eq_refl m.site_id,
          )
          (ground arith)
