-- ===== src/Daemon/Fence.antt =====
-- When src/main.rs acknowledges an entry that it read from a stream.
use geodineum_comms.Prelude.{
  String, ◌==◌, eq_iff, ◌≡◌, ◌≢◌, refl, sym, ap, ◌∙◌, ◌⊎◌, inl, inr, Bool, true, false, ◌&&◌, ◌||◌,
  not, Option, none, some, List, [], ◌∷◌, if◌then◌else◌,
}
use geodineum_comms.Errors.{CommsError, Result, ok, err}
use geodineum_comms.Message.{CommsMessage, is_empty}
use geodineum_comms.RateLimiter.{DispatchRateLimiter, try_acquire}
use geodineum_comms.Backoff.{is_in_backoff}
use geodineum_comms.Router.Channel.{World}
use geodineum_comms.Router.Outcome.{
  ChannelResult, DispatchResult, is_success, has_retryable_failures,
}
use geodineum_comms.Router.Dispatcher.{dispatch}
use geodineum_comms.Archive.{MessageStatus, pending, spam, MessageStore, row, archive_message}
use geodineum_comms.Archive.Status.{status_of}
use geodineum_comms.Archive.Message.{archive_message_records}
use geodineum_comms.Daemon.{
  Setup, Moment, Daemon, stream_key, ack_message, writeback_status, already_sent, is_spam, stored,
  archive, ack_if, track_context, final_status, record_retry, forget_retry, acknowledge,
  acknowledge_if, settle, settled, deliver, deliver_if, is_undelivered, route, process_message,
}

-- The row of the message stands in the database with a status.
pub record IsArchived (m : CommsMessage) (status : MessageStatus) (o : Option MessageStore)
    : Type 0 where
  pub store : MessageStore
  pub kept : o ≡ some store
  pub recorded : status_of (row m.site_id m.id store) ≡ some status

record ArchiveOutcome (m : CommsMessage) (status : MessageStatus) (d : Daemon) (x : Daemon × Bool)
    : Type 0 where
  acked : x.0.acked ≡ d.acked
  kept : x.1 ≡ true → (d.message_store ≡ none) ⊎ IsArchived m status x.0.message_store

stored-ArchiveOutcome :
    (t : Moment) (m : CommsMessage) (status : MessageStatus) (d : Daemon) (x : MessageStore × Bool)
    → (x.1 ≡ true → status_of (row m.site_id m.id x.0) ≡ some status)
    → ArchiveOutcome m status d (stored t m d x)
stored-ArchiveOutcome t m status d (s, true) h = record {
  acked = refl;
  kept = λ e. inr (record { store = s; kept = refl; recorded = h refl });
}
stored-ArchiveOutcome t m status d (s, false) h = record { acked = refl; kept = λ e. absurd cc }

archive-ArchiveOutcome :
    (t : Moment) (m : CommsMessage) (entry_id : String) (status : MessageStatus)
    (results : List ChannelResult) (d : Daemon)
    → status ≢ pending
    → ArchiveOutcome m status d (archive t m entry_id status results d)
unfolding archive
archive-ArchiveOutcome t m entry_id status results d ne = by_store d.message_store refl
  where
    by_store :
        (o : Option MessageStore)
        → d.message_store ≡ o
        → ArchiveOutcome m status d (elim o [
          | none ↦ (d, true)
          | some s ↦ stored t m d (archive_message t.sql t.stamp m entry_id status results s)
        ])
    by_store none e = record { acked = refl; kept = λ h. inl e }
    by_store (some s) e =
        stored-ArchiveOutcome t m status d
          (archive_message t.sql t.stamp m entry_id status results s)
          (archive_message_records t.sql t.stamp m entry_id status results s ne)

-- Why an entry may be acknowledged.
pub data Reason (c : Setup) (t : Moment) (m : CommsMessage) (before after : Daemon) : Type 0 where
  duplicate : already_sent t m before.message_store ≡ true → Reason c t m before after
  unstored : before.message_store ≡ none → Reason c t m before after
  archived :
      (status : MessageStatus) → IsArchived m status after.message_store → Reason c t m before after
  reload : m.message_type ≡ "settings.reload" → Reason c t m before after
  undelivered : is_undelivered c m ≡ true → Reason c t m before after
  undispatched :
      (e : CommsError)
      → (dispatch c.providers c.dispatcher m before.world).1 ≡ err e
      → Reason c t m before after

pub data IsFenced (c : Setup) (t : Moment) (m : CommsMessage) (entry_id : String)
    (before after : Daemon) : Type 0 where
  held : after.acked ≡ before.acked → IsFenced c t m entry_id before after
  acknowledged :
      after.acked ≡ (stream_key c m, entry_id) ∷ before.acked
      → Reason c t m before after
      → IsFenced c t m entry_id before after

if_other : (b : Bool) (x y z : MessageStatus) → x ≢ z → y ≢ z → (if b then x else y) ≢ z
if_other true x y z nx ny = nx
if_other false x y z nx ny = ny

-- The status that is archived is never the initial one.
pub final_status-kept : (r : DispatchResult) → final_status r ≢ pending
unfolding final_status
final_status-kept r =
    if_other (is_success r) _ _ pending (λ e. cc)
      (if_other (not (is_empty r.skipped_channels) && is_empty r.failed_channels) _ _ pending
        (λ e. cc)
        (if_other (has_retryable_failures r) _ _ pending (λ e. cc)
          (if_other (not (is_empty r.failed_channels)) _ _ pending (λ e. cc) (λ e. cc))))

module _ (c : Setup) (t : Moment) (m : CommsMessage) (entry_id : String) where
  if_fenced :
      {before x y : Daemon} (b : Bool)
      → (b ≡ true → IsFenced c t m entry_id before x)
      → (b ≡ false → IsFenced c t m entry_id before y)
      → IsFenced c t m entry_id before (if b then x else y)
  if_fenced true f g = f refl
  if_fenced false f g = g refl

  -- Whatever an archive write that succeeded left, an acknowledgement behind it is fenced.
  reason_of :
      {status : MessageStatus} {before after : Daemon}
      → (before.message_store ≡ none) ⊎ IsArchived m status after.message_store
      → Reason c t m before after
  reason_of (inl e) = unstored e
  reason_of (inr h) = archived _ h

  record SameBooks (d x : Daemon) : Type 0 where
    acked : x.acked ≡ d.acked
    message_store : x.message_store ≡ d.message_store

  if_all : (P : Daemon → Type 0) {x y : Daemon} (b : Bool) → P x → P y → P (if b then x else y)
  if_all P true f g = f
  if_all P false f g = g

  acknowledge_books :
      (r : DispatchResult) (d : Daemon)
      → SameBooks (ack_message c m entry_id d) (acknowledge c t m entry_id r d)
  unfolding acknowledge record_retry forget_retry ack_message
  acknowledge_books r d =
      if_all (SameBooks (ack_message c m entry_id d))
        (is_success r || not (is_empty r.skipped_channels))
        (record { acked = refl; message_store = refl })
        (if_all (SameBooks (ack_message c m entry_id d)) (has_retryable_failures r)
          (record { acked = refl; message_store = refl })
          (record { acked = refl; message_store = refl }))

  transport :
      {status : MessageStatus} (before : Daemon) {a b : Option MessageStore}
      → b ≡ a
      → (before.message_store ≡ none) ⊎ IsArchived m status a
      → (before.message_store ≡ none) ⊎ IsArchived m status b
  transport before e (inl n) = inl n
  transport before e (inr h) =
      inr (record { store = h.store; kept = e ∙ h.kept; recorded = h.recorded })

  ack_if_fenced :
      {status : MessageStatus} (before : Daemon) (x : Daemon × Bool)
      → ArchiveOutcome m status before x
      → IsFenced c t m entry_id before (ack_if c m entry_id x)
  unfolding ack_message
  ack_if_fenced before (d, true) h =
      acknowledged (ap (λ l. (stream_key c m, entry_id) ∷ l) h.acked) (reason_of (h.kept refl))
  ack_if_fenced before (d, false) h = held h.acked

  acknowledge_if_fenced :
      {status : MessageStatus} (r : DispatchResult) (before : Daemon) (x : Daemon × Bool)
      → ArchiveOutcome m status before x
      → IsFenced c t m entry_id before (acknowledge_if c t m entry_id r x)
  unfolding ack_message writeback_status
  acknowledge_if_fenced r before (d, true) h =
      let b = acknowledge_books r _ in
      acknowledged (b.acked ∙ ap (λ l. (stream_key c m, entry_id) ∷ l) h.acked)
        (reason_of (transport before b.message_store (h.kept refl)))
  acknowledge_if_fenced r before (d, false) h = held h.acked

  rebase :
      {status : MessageStatus} (before d : Daemon) (x : Daemon × Bool)
      → SameBooks before d
      → ArchiveOutcome m status d x
      → ArchiveOutcome m status before x
  rebase before d x b h = record {
    acked = h.acked ∙ b.acked;
    kept = λ e. elim (h.kept e) [ inl n ↦ inl (sym b.message_store ∙ n) | inr a ↦ inr a ];
  }

  settled_fenced :
      (before d : Daemon) (x : World × Result DispatchResult)
      → SameBooks before d
      → (dispatch c.providers c.dispatcher m before.world).1 ≡ x.1
      → IsFenced c t m entry_id before (settled c t m entry_id d x)
  unfolding settle record_retry ack_message writeback_status
  settled_fenced before d (w, ok r) b e = acknowledge_if_fenced r before _ (
      rebase before (record d { world = w }) _
        (record { acked = b.acked; message_store = b.message_store })
        (archive-ArchiveOutcome t m entry_id (final_status r) r.results (record d { world = w })
          (final_status-kept r)))
  settled_fenced before d (w, err x) b e =
      acknowledged (ap (λ l. (stream_key c m, entry_id) ∷ l) b.acked) (undispatched x e)

  track_context_quiet :
      (d : Daemon) → SameBooks d (track_context m d) × ((track_context m d).world ≡ d.world)
  unfolding track_context
  track_context_quiet d = (record { acked = refl; message_store = refl }, refl)

  deliver_fenced :
      (before : Daemon) (x : DispatchRateLimiter × Bool)
      → IsFenced c t m entry_id before (deliver_if c t m entry_id before x)
  unfolding deliver
  deliver_fenced before (l, true) =
      let (b, e) = track_context_quiet (record before { rate_limiter = l }) in
      settled_fenced before (track_context m (record before { rate_limiter = l })) _
        (record { acked = b.acked; message_store = b.message_store })
        (ap (λ w. (dispatch c.providers c.dispatcher m w).1) (sym e))
  deliver_fenced before (l, false) = held refl

  route_fenced : (before : Daemon) → IsFenced c t m entry_id before (route c t m entry_id before)
  unfolding route ack_message
  route_fenced before =
      if_fenced (m.message_type == "settings.reload")
        (λ e. acknowledged refl (reload ((eq_iff m.message_type "settings.reload").0 e)))
        (λ ne.
          if_fenced (is_undelivered c m) (λ e. acknowledged refl (undelivered e))
            (λ no. deliver_fenced before (try_acquire t.now m.site_id before.rate_limiter)))

  -- An entry that was read is acknowledged at most once, and only if its message was already sent, is
  -- archived by now with a status (or the daemon has no store), is a reload signal, or is a test or
  -- system message, or else its dispatch ended in an error.
  pub process_message_fence :
      (before : Daemon) → IsFenced c t m entry_id before (process_message c t m entry_id before)
  unfolding process_message ack_message
  process_message_fence before =
      if_fenced (is_in_backoff t.now m.site_id before.backoff_tracker) (λ e. held refl)
        (λ ne.
          if_fenced (already_sent t m before.message_store) (λ e. acknowledged refl (duplicate e))
            (λ new.
              if_fenced (is_spam c m)
                (λ e.
                  ack_if_fenced before _
                    (archive-ArchiveOutcome t m entry_id spam [] before (λ q. cc)))
                (λ clean. route_fenced before)))
