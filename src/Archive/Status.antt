-- ===== src/Archive/Status.antt =====
-- What `archive_message` leaves in the database.
use geodineum_comms.Prelude.{
  Bool, true, false, String, ◌==◌, eq_iff, eq_refl, ◌≡◌, refl, ap, ◌∙◌, inl, inr, false, ◌&&◌,
  Option, none, some, List, [], ◌∷◌, if◌then◌else◌, Bool-cases,
}
use geodineum_comms.Prelude.Dict.{lookup-insert}
use geodineum_comms.Router.Outcome.{ChannelResult}
use geodineum_comms.Archive.{
  MessageStatus, pending, processing, sent, partial_sent, failed, spam, skipped, as_str, from_str,
  Row, MessageStore, Sql, table, row, put_row, updated, record_channel_result, record_results,
  and_then,
}

-- A status is read back from its column as it was written.
pub from_str-as_str : (s : MessageStatus) → from_str (as_str s) ≡ s
unfolding from_str as_str
from_str-as_str pending = refl
from_str-as_str processing = refl
from_str-as_str sent = refl
from_str-as_str partial_sent = refl
from_str-as_str failed = refl
from_str-as_str spam = refl
from_str-as_str skipped = refl

row-put_row :
    (site other id j : String) (r : Row) (store : MessageStore)
    → row other j (put_row site id r store) ≡ (
        if site == other
        then (if id == j then some r else row other j store)
        else row other j store)
row-put_row site other id j r store = rw lookup-insert (elim (Bool-cases (site == other)) [
  | inl e ↦ rw e (
      lookup-insert id j r (table site store)
      ∙ ap (λ s. if id == j then some r else row s j store) ((eq_iff site other).0 e))
  | inr ne ↦ rw ne
])

abbrev pub status_of : Option Row → Option MessageStatus
status_of none = none
status_of (some r) = some r.status

pub row-put_row_same :
    (site id : String) (r : Row) (store : MessageStore)
    → row site id (put_row site id r store) ≡ some r
row-put_row_same site id r store =
    rw (row-put_row site site id id r store, eq_refl site, eq_refl id) refl

pub row-put_row_other :
    (site other id j : String) (r : Row) (store : MessageStore)
    → ((site == other) && (id == j)) ≡ false
    → row other j (put_row site id r store) ≡ row other j store
row-put_row_other site other id j r store apart =
    rw (row-put_row site other id j r store) (elim (Bool-cases (site == other)) [
      | inl e ↦ rw e (rw (rw e at apart) refl)
      | inr ne ↦ rw ne refl
    ])

status_of-updated :
    (site id : String) (f : Row → Row) (o : Option Row) (store : MessageStore)
    → row site id store ≡ o
    → ((r : Row) → (f r).status ≡ r.status)
    → status_of (row site id (updated site id f o store)) ≡ status_of (row site id store)
status_of-updated site id f none store e keeps = refl
status_of-updated site id f (some r) store e keeps =
    rw (row-put_row_same site id (f r) store, e) (ap some (keeps r))

pub row-updated_other :
    (site other id j : String) (f : Row → Row) (o : Option Row) (store : MessageStore)
    → ((site == other) && (id == j)) ≡ false
    → row other j (updated site id f o store) ≡ row other j store
row-updated_other site other id j f none store apart = refl
row-updated_other site other id j f (some r) store apart =
    row-put_row_other site other id j (f r) store apart

-- What holds behind both calls of a chain, whether the first worked or not.
and_then_keeps :
    (P : MessageStore → Type 0) (x : MessageStore × Bool) (f : MessageStore → MessageStore × Bool)
    → P x.0
    → ((s : MessageStore) → P s → P (f s).0)
    → P (and_then x f).0
and_then_keeps P (s, true) f h g = g s h
and_then_keeps P (s, false) f h g = h

status_of-record_channel_result :
    (sql : Sql) (now site id : String) (r : ChannelResult) (store : MessageStore)
    → status_of (row site id (record_channel_result sql now site id r store).0)
      ≡ status_of (row site id store)
unfolding record_channel_result
status_of-record_channel_result sql now site id r store = elim (Bool-cases sql.insert_result) [
  | inr broken ↦ simp broken refl
  | inl works ↦ simp works (status_of-updated site id _ (row site id store) store refl (λ x. refl))
]

-- What the calls behind the first insertion do to the row of the message.
pub status_of-record_results :
    (sql : Sql) (now site id : String) (rs : List ChannelResult) (store : MessageStore)
    → status_of (row site id (record_results sql now site id rs store).0)
      ≡ status_of (row site id store)
unfolding record_results
status_of-record_results sql now site id [] store = refl
status_of-record_results sql now site id (r ∷ rs) store =
    and_then_keeps (λ s. status_of (row site id s) ≡ status_of (row site id store)) _
      (record_results sql now site id rs) (status_of-record_channel_result sql now site id r store)
      (λ s h. status_of-record_results sql now site id rs s ∙ h)

row-record_channel_result_other :
    (sql : Sql) (now site id other j : String) (r : ChannelResult) (store : MessageStore)
    → ((site == other) && (id == j)) ≡ false
    → row other j (record_channel_result sql now site id r store).0 ≡ row other j store
unfolding record_channel_result
row-record_channel_result_other sql now site id other j r store apart =
    elim (Bool-cases sql.insert_result) [
      | inr broken ↦ simp broken refl
      | inl works ↦ simp works (row-updated_other site other id j _ (row site id store) store apart)
    ]

pub row-record_results_other :
    (sql : Sql) (now site id other j : String) (rs : List ChannelResult) (store : MessageStore)
    → ((site == other) && (id == j)) ≡ false
    → row other j (record_results sql now site id rs store).0 ≡ row other j store
unfolding record_results
row-record_results_other sql now site id other j [] store apart = refl
row-record_results_other sql now site id other j (r ∷ rs) store apart =
    and_then_keeps (λ s. row other j s ≡ row other j store) _ (record_results sql now site id rs)
      (row-record_channel_result_other sql now site id other j r store apart)
      (λ s h. row-record_results_other sql now site id other j rs s apart ∙ h)
