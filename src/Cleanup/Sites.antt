-- ===== src/Cleanup/Sites.antt =====
-- The cleanup of the sites, of src/persistence/cleanup.rs.
use Prim.Native.String.{String, ◌++◌}
use geodineum_comms.Prelude.{
  ℕ, zero, suc, ◌+◌, ◌-◌, ◌*◌, ◌/◌, ◌%◌, ◌^◌, min, max, Bool, true, not, ◌&&◌, Option, none, some,
  List, [], ◌∷◌, keep, length, ltb, leb, eqb, if◌then◌else◌,
}
use geodineum_comms.Prelude.Lists.{append}
use geodineum_comms.Prelude.Texts.{contains}
use geodineum_comms.Prelude.Dict.{insert, or_else}
use geodineum_comms.Errors.{CommsError, internal, Result, ok, err, to_string}
use geodineum_comms.Archive.{Row, Table, MessageStore, table}
use geodineum_comms.Cleanup.{
  SpamRetentionPolicy, keep_spam, delete_immediately, never_delete, delete_after_days,
  RetentionConfig, effective_sent_max_age, effective_failed_max_age, CleanupResult, nothing_deleted,
  Step, connect, sent_age, failed_age, other_age, delete_spam_rows, count, delete_count, measure,
  delete_size, Site, is_before, is_failed, is_sent_status, is_spam_status, is_other, is_active,
  delete_where,
}

abbrev pub plus : ℕ → Table × Result ℕ → Table × Result ℕ
plus n (t, ok m) = (t, ok (n + m))
plus n (t, err e) = (t, err e)

-- A deletion behind another, with the sum of their counts.
abbrev pub and_delete : Table × Result ℕ → (Table → Table × Result ℕ) → Table × Result ℕ
and_delete (t, ok n) f = plus n (f t)
and_delete (t, err e) f = (t, err e)

abbrev pub when : Bool → (Table → Table × Result ℕ) → Table → Table × Result ℕ
when b f t = if b then f t else (t, ok 0)

abbrev pub is_older : Site → ℕ → String × Row → Bool
is_older site days x = is_before x.1.received_at (site.cutoff days)

unfoldable pub delete_by_age : Site → RetentionConfig → Table → Table × Result ℕ
delete_by_age site c t =
    let sent = effective_sent_max_age c in
    let failed = effective_failed_max_age c in
    and_delete
      (and_delete
        (when (ltb 0 sent)
          (delete_where site sent_age "Delete by age failed: "
            (λ x. is_sent_status x.1.status && is_older site sent x))
          t)
        (when (ltb 0 failed) (
          delete_where site failed_age "Delete by age failed: "
            (λ x. is_failed x.1.status && is_older site failed x))))
      (when (ltb 0 c.max_age_days) (
        delete_where site other_age "Delete by age failed: "
          (λ x. is_other x.1.status && is_older site c.max_age_days x)))

unfoldable pub delete_spam : Site → SpamRetentionPolicy → Table → Table × Result ℕ
delete_spam site keep_spam t = (t, ok 0)
delete_spam site never_delete t = (t, ok 0)
delete_spam site delete_immediately t =
    delete_where site delete_spam_rows "Delete spam failed: " (λ x. is_spam_status x.1.status) t
delete_spam site (delete_after_days days) t =
    delete_where site delete_spam_rows "Delete spam failed: "
      (λ x. is_spam_status x.1.status && is_older site days x) t

-- `ORDER BY received_at ASC`; rows of one time stay in the order of the table
abbrev pub insert_row : String × Row → Table → Table
insert_row x [] = x ∷ []
insert_row x (y ∷ ys) =
    let rest = insert_row x ys in
    if is_before y.1.received_at x.1.received_at then y ∷ rest else x ∷ y ∷ ys

unfoldable pub by_age : Table → Table
by_age [] = []
by_age (x ∷ xs) = insert_row x (by_age xs)

-- `LIMIT n`, of the ids
unfoldable pub ids_of : ℕ → Table → List String
ids_of zero t = []
ids_of (suc n) [] = []
ids_of (suc n) (x ∷ xs) = x.0 ∷ ids_of n xs

-- The oldest messages that are not active.
unfoldable pub oldest : ℕ → Table → List String
oldest n t = ids_of n (by_age (keep (λ x. not (is_active x.1.status)) t))

abbrev pub delete_oldest : Site → Step → String → ℕ → Table → Table × Result ℕ
delete_oldest site step what n t = delete_where site step what (λ x. contains x.0 (oldest n t)) t

abbrev pub unless_failed : Option String → String → Table × Result ℕ → Table → Table × Result ℕ
unless_failed none what r t = r
unless_failed (some e) what r t = (t, err (internal (what ++ e)))

unfoldable pub delete_by_count : Site → ℕ → ℕ → Table → Table × Result ℕ
delete_by_count site max_count min_keep t =
    unless_failed (site.error count) "Count query failed: "
      (if leb (length t) max_count
        then (t, ok 0)
        else if leb (length t) (max max_count min_keep)
        then (t, ok 0)
        else delete_oldest site delete_count "Delete by count failed: "
            (length t - max max_count min_keep) t)
      t

abbrev pub total_size : Site → Table → ℕ
total_size site [] = 0
total_size site (x ∷ xs) = site.json_length x.1 + total_size site xs

-- How many rows are to go: an estimate by their average size, but never too many.
unfoldable pub to_delete : Site → ℕ → ℕ → ℕ → Table → ℕ
to_delete site current_size max_bytes min_keep t =
    min (max ((current_size - max_bytes) / max (total_size site t / length t) 1) 1)
      (length t - min_keep)

unfoldable pub delete_by_size : Site → ℕ → ℕ → Table → Table × Result ℕ
delete_by_size site max_bytes min_keep t =
    let current_size = or_else site.size_now 0 in
    let n = to_delete site current_size max_bytes min_keep t in
    if leb current_size max_bytes
    then (t, ok 0)
    else unless_failed (site.error measure) "Size query failed: "
        (if eqb (length t) 0
          then (t, ok 0)
          else if eqb n 0
          then (t, ok 0)
          else delete_oldest site delete_size "Delete by size failed: " n t)
        t

-- The result of a deletion goes into the result of the cleanup; an error ends it.
abbrev pub deleted :
    (ℕ → CleanupResult)
    → Table × Result ℕ
    → (Table → CleanupResult → Table × Result CleanupResult)
    → Table × Result CleanupResult
deleted f (t, err e) k = (t, err e)
deleted f (t, ok n) k = k t (f n)

abbrev pub vacuumed : Option String → CleanupResult → CleanupResult
vacuumed none r = record r { vacuumed = true }
vacuumed (some e) r = record r { errors = append r.errors (("Vacuum failed: " ++ e) ∷ []) }

abbrev pub finish : Site → RetentionConfig → Table → CleanupResult → Table × Result CleanupResult
finish site c t r =
    let r' =
      if c.vacuum_after_cleanup && ltb 0 r.total_deleted then vacuumed site.vacuum_error r else r in
    (t, ok (record r' { size_after = or_else site.size_at_end r'.size_before }))

abbrev pub cleanup_size :
    Site → RetentionConfig → Table → CleanupResult → Table × Result CleanupResult
cleanup_size site c t r =
    deleted (λ n. record r { deleted_by_size = n; total_deleted = r.total_deleted + n })
      (when (ltb 0 c.max_db_size_mb)
        (delete_by_size site (c.max_db_size_mb * 1_024 * 1_024 % 2 ^ 64) c.min_messages_keep) t)
      (finish site c)

abbrev pub cleanup_count :
    Site → RetentionConfig → Table → CleanupResult → Table × Result CleanupResult
cleanup_count site c t r =
    deleted (λ n. record r { deleted_by_count = n; total_deleted = r.total_deleted + n })
      (when (ltb 0 c.max_messages_per_site)
        (delete_by_count site c.max_messages_per_site c.min_messages_keep) t)
      (cleanup_size site c)

abbrev pub cleanup_spam :
    Site → RetentionConfig → Table → CleanupResult → Table × Result CleanupResult
cleanup_spam site c t r =
    deleted (λ n. record r { deleted_spam = n; total_deleted = r.total_deleted + n })
      (delete_spam site c.spam_policy t) (cleanup_count site c)

abbrev pub cleanup_age :
    Site → RetentionConfig → Table → CleanupResult → Table × Result CleanupResult
cleanup_age site c t r =
    deleted (λ n. record r { deleted_by_age = n; total_deleted = r.total_deleted + n })
      (when (ltb 0 c.max_age_days) (delete_by_age site c) t) (cleanup_spam site c)

abbrev pub opened :
    Option CommsError
    → Option String
    → Table
    → Table × Result CleanupResult
    → Table × Result CleanupResult
opened (some e) connection t r = (t, err e)
opened none none t r = r
opened none (some e) t r = (t, err (internal ("Failed to get connection: " ++ e)))

unfoldable pub cleanup_site : Site → RetentionConfig → Table → Table × Result CleanupResult
cleanup_site site c t =
    opened site.pool_error (site.error connect) t
      (cleanup_age site c t (record nothing_deleted { size_before = or_else site.size_at_start 0 }))

abbrev pub result_of : Result CleanupResult → CleanupResult
result_of (ok r) = r
result_of (err e) = record nothing_deleted { errors = to_string e ∷ [] }

abbrev pub cleanup_named :
    (String → Site)
    → RetentionConfig
    → List String
    → MessageStore
    → MessageStore × List (String × CleanupResult)
cleanup_named site c [] store = (store, [])
cleanup_named site c (site_id ∷ site_ids) store =
    let (t, r) = cleanup_site (site site_id) c (table site_id store) in
    let (store', results) = cleanup_named site c site_ids (insert site_id t store) in
    (store', (site_id, result_of r) ∷ results)

abbrev pub all_ok :
    MessageStore × List (String × CleanupResult)
    → MessageStore × Result (List (String × CleanupResult))
all_ok (store, results) = (store, ok results)

abbrev pub cleanup_listed :
    (String → Site)
    → RetentionConfig
    → Result (List String)
    → MessageStore
    → MessageStore × Result (List (String × CleanupResult))
cleanup_listed site c (ok ids) store = all_ok (cleanup_named site c ids store)
cleanup_listed site c (err e) store = (store, err e)

-- The sites are those of `list_sites`, or its error.
unfoldable pub cleanup_all :
    (String → Site)
    → RetentionConfig
    → Result (List String)
    → MessageStore
    → MessageStore × Result (List (String × CleanupResult))
cleanup_all site c listed store =
    if c.enabled then cleanup_listed site c listed store else (store, ok [])
