-- ===== src/Archive/Message.antt =====
-- What `archive_message` of src/main.rs leaves in the database of the site.
use geodineum_comms.Prelude.{
  some_inj, String, ◌==◌, ◌≡◌, ◌≢◌, refl, sym, ap, ◌∙◌, inl, inr, Bool, true, false, ◌&&◌, Option,
  none, some, List, Bool-cases,
}
use geodineum_comms.Message.{CommsMessage}
use geodineum_comms.Router.Outcome.{ChannelResult}
use geodineum_comms.Archive.{
  MessageStatus, pending, processing, sent, partial_sent, failed, spam, skipped, as_str, Row,
  MessageStore, Sql, row, received, new_row, archive_received, is_already_sent, update_status,
  and_then, record_results, update_unless_pending, archive_message, is_sent,
}
use geodineum_comms.Archive.Status.{
  status_of, row-put_row_same, row-put_row_other, row-updated_other, status_of-record_results,
  row-record_results_other,
}

status_of-update_status :
    (sql : Sql) (now site id : String) (status : MessageStatus) (r : Row) (store : MessageStore)
    → sql.update_message ≡ true
    → row site id store ≡ some r
    → status_of (row site id (update_status sql now site id status store).0) ≡ some status
unfolding update_status
status_of-update_status sql now site id status r store works there =
    simp works (rw there (rw (row-put_row_same site id) refl))

row-update_status_other :
    (sql : Sql) (now site id other j : String) (status : MessageStatus) (store : MessageStore)
    → ((site == other) && (id == j)) ≡ false
    → row other j (update_status sql now site id status store).0 ≡ row other j store
unfolding update_status
row-update_status_other sql now site id other j status store apart =
    elim (Bool-cases sql.update_message) [
      | inl works ↦ simp works (row-updated_other site other id j _ (row site id store) store apart)
      | inr broken ↦ simp broken refl
    ]

update_unless_pending-status :
    (sql : Sql) (now site id : String) (status : MessageStatus) (store : MessageStore)
    → status ≢ pending
    → update_unless_pending sql now site id status store
      ≡ update_status sql now site id status store
update_unless_pending-status sql now site id pending store ne = absurd (ne refl)
update_unless_pending-status sql now site id processing store ne = refl
update_unless_pending-status sql now site id sent store ne = refl
update_unless_pending-status sql now site id partial_sent store ne = refl
update_unless_pending-status sql now site id failed store ne = refl
update_unless_pending-status sql now site id spam store ne = refl
update_unless_pending-status sql now site id skipped store ne = refl

-- A chain that worked ran both calls.
and_then_worked :
    (x : MessageStore × Bool) (f : MessageStore → MessageStore × Bool)
    → (and_then x f).1 ≡ true
    → (x.1 ≡ true) × (and_then x f ≡ f x.0)
and_then_worked (store, true) f worked = (refl, refl)
and_then_worked (store, false) f worked = absurd cc

update_status_works :
    (sql : Sql) (now site id : String) (status : MessageStatus) (store : MessageStore)
    → (update_status sql now site id status store).1 ≡ true
    → sql.update_message ≡ true
unfolding update_status
update_status_works sql now site id status store worked = elim (Bool-cases sql.update_message) [
  | inl works ↦ works
  | inr broken ↦ absurd cc
]

row-archive_received :
    (sql : Sql) (now : String) (m : CommsMessage) (stream_id : String) (store : MessageStore)
    → (archive_received sql now m.site_id m stream_id store).1 ≡ true
    → row m.site_id m.id (archive_received sql now m.site_id m stream_id store).0
      ≡ some (received now (new_row now stream_id m) (row m.site_id m.id store))
unfolding archive_received
row-archive_received sql now m stream_id store worked = elim (Bool-cases sql.insert_message) [
  | inl works ↦ simp works (row-put_row_same m.site_id m.id _ store)
  | inr broken ↦ absurd cc
]

-- A call of `archive_message` that succeeds, with a status other than pending, leaves the message's
-- row with that status, whatever row was there before.
pub archive_message_records :
    (sql : Sql) (now : String) (m : CommsMessage) (stream_id : String) (status : MessageStatus)
    (results : List ChannelResult) (store : MessageStore)
    → status ≢ pending
    → (archive_message sql now m stream_id status results store).1 ≡ true
    → status_of (row m.site_id m.id (archive_message sql now m stream_id status results store).0)
      ≡ some status
unfolding archive_message
archive_message_records sql now m stream_id status results store ne worked =
    let received_then = archive_received sql now m.site_id m stream_id store in
    let (both, e1) =
      and_then_worked (and_then received_then (update_unless_pending sql now m.site_id m.id status))
        (record_results sql now m.site_id m.id results) worked in
    let (first, e2) =
      and_then_worked received_then (update_unless_pending sql now m.site_id m.id status) both in
    let e3 = e2 ∙ update_unless_pending-status sql now m.site_id m.id status received_then.0 ne in
    ap (λ x. status_of (row m.site_id m.id x.0)) e1
    ∙ status_of-record_results sql now m.site_id m.id results _
    ∙ ap (λ x. status_of (row m.site_id m.id x.0)) e3
    ∙ status_of-update_status sql now m.site_id m.id status _ received_then.0
        (update_status_works sql now m.site_id m.id status received_then.0
          (sym (ap (λ x. x.1) e3) ∙ both))
        (row-archive_received sql now m stream_id store first)

and_then_other :
    (other j : String) (x : MessageStore × Bool) (f : MessageStore → MessageStore × Bool)
    → ((s : MessageStore) → row other j (f s).0 ≡ row other j s)
    → row other j (and_then x f).0 ≡ row other j x.0
and_then_other other j (store, true) f h = h store
and_then_other other j (store, false) f h = refl

archive_received_other :
    (sql : Sql) (now other j : String) (m : CommsMessage) (stream_id : String)
    (store : MessageStore)
    → ((m.site_id == other) && (m.id == j)) ≡ false
    → row other j (archive_received sql now m.site_id m stream_id store).0 ≡ row other j store
unfolding archive_received
archive_received_other sql now other j m stream_id store apart =
    elim (Bool-cases sql.insert_message) [
      | inl works ↦ simp works (row-put_row_other m.site_id other m.id j _ store apart)
      | inr broken ↦ simp broken refl
    ]

update_unless_pending_other :
    (sql : Sql) (now site id other j : String) (status : MessageStatus) (store : MessageStore)
    → ((site == other) && (id == j)) ≡ false
    → row other j (update_unless_pending sql now site id status store).0 ≡ row other j store
update_unless_pending_other sql now site id other j pending store apart = refl
update_unless_pending_other sql now site id other j processing store apart =
    row-update_status_other sql now site id other j processing store apart
update_unless_pending_other sql now site id other j sent store apart =
    row-update_status_other sql now site id other j sent store apart
update_unless_pending_other sql now site id other j partial_sent store apart =
    row-update_status_other sql now site id other j partial_sent store apart
update_unless_pending_other sql now site id other j failed store apart =
    row-update_status_other sql now site id other j failed store apart
update_unless_pending_other sql now site id other j spam store apart =
    row-update_status_other sql now site id other j spam store apart
update_unless_pending_other sql now site id other j skipped store apart =
    row-update_status_other sql now site id other j skipped store apart

-- `archive_message` changes no row but the one of its message and site, whether or not it succeeds.
pub archive_message_frame :
    (sql : Sql) (now other j : String) (m : CommsMessage) (stream_id : String)
    (status : MessageStatus) (results : List ChannelResult) (store : MessageStore)
    → ((m.site_id == other) && (m.id == j)) ≡ false
    → row other j (archive_message sql now m stream_id status results store).0 ≡ row other j store
unfolding archive_message
archive_message_frame sql now other j m stream_id status results store apart =
    and_then_other other j _ _
      (λ s. row-record_results_other sql now m.site_id m.id other j results s apart)
    ∙ and_then_other other j _ _
        (λ s. update_unless_pending_other sql now m.site_id m.id other j status s apart)
    ∙ archive_received_other sql now other j m stream_id store apart

-- After a successful `archive_message`, a message counts as already sent exactly when it was archived
-- as sent, as long as the database answers.
pub archive_message_dedups :
    (sql sql' : Sql) (now : String) (m : CommsMessage) (stream_id : String) (status : MessageStatus)
    (results : List ChannelResult) (store : MessageStore)
    → status ≢ pending
    → (archive_message sql now m stream_id status results store).1 ≡ true
    → sql'.select ≡ true
    → is_already_sent sql' m.site_id m.id
        (archive_message sql now m stream_id status results store).0
      ≡ (as_str status == "sent")
unfolding is_already_sent
archive_message_dedups sql sql' now m stream_id status results store ne worked reads = simp reads (
    by_status _ status (archive_message_records sql now m stream_id status results store ne worked))
  where
    by_status :
        (o : Option Row) (s : MessageStatus)
        → status_of o ≡ some s
        → is_sent o ≡ (as_str s == "sent")
    by_status none s e = absurd cc
    by_status (some r) s e = rw (some_inj e) refl
