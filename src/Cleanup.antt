-- ===== src/Cleanup.antt =====
-- src/persistence/retention.rs and src/persistence/cleanup.rs: the deletion of old messages from the
-- database of a site, a table as in Archive. What SQLite, the clock and the file system answer is `Site`.
pub mod Sites
pub mod Counts
pub mod Totals
pub mod Kept
pub mod Removed
use Prim.Native.Nat.{Ordering}
use Prim.Native.String.{String, ◌++◌, compare}
use geodineum_comms.Prelude.{
  ℕ, zero, suc, ◌+◌, ◌-◌, ◌*◌, ◌/◌, min, max, ◌==◌, Bool, true, false, not, ◌&&◌, ◌||◌, Option,
  none, some, List, [], ◌∷◌, map, any, keep, length, ltb, leb, eqb, if◌then◌else◌,
}
use geodineum_comms.Prelude.Lists.{append}
use geodineum_comms.Prelude.Texts.{contains}
use geodineum_comms.Prelude.Dict.{Dict, lookup, insert, or_else}
use geodineum_comms.Errors.{CommsError, internal, Result, ok, err, to_string}
use geodineum_comms.Archive.{
  MessageStatus, pending, processing, sent, partial_sent, failed, spam, skipped, Row, Table,
}

pub data SpamRetentionPolicy : Type 0 where
  keep_spam delete_immediately never_delete : SpamRetentionPolicy
  delete_after_days : ℕ → SpamRetentionPolicy

pub record RetentionConfig : Type 0 where
  pub enabled : Bool
  pub max_messages_per_site : ℕ
  pub max_db_size_mb : ℕ
  pub max_age_days : ℕ
  pub sent_max_age_days : ℕ
  pub failed_max_age_days : ℕ
  pub spam_policy : SpamRetentionPolicy
  pub cleanup_interval_secs : ℕ
  pub vacuum_after_cleanup : Bool
  pub min_messages_keep : ℕ

unfoldable pub default_config : RetentionConfig
default_config = record {
  enabled = true;
  max_messages_per_site = 0;
  max_db_size_mb = 0;
  max_age_days = 90;
  sent_max_age_days = 0;
  failed_max_age_days = 0;
  spam_policy = delete_after_days 7;
  cleanup_interval_secs = 3_600;
  vacuum_after_cleanup = true;
  min_messages_keep = 100;
}

unfoldable pub effective_sent_max_age : RetentionConfig → ℕ
effective_sent_max_age c = if ltb 0 c.sent_max_age_days then c.sent_max_age_days else c.max_age_days

unfoldable pub effective_failed_max_age : RetentionConfig → ℕ
effective_failed_max_age c =
    if ltb 0 c.failed_max_age_days then c.failed_max_age_days else c.max_age_days

pub record CleanupResult : Type 0 where
  pub deleted_by_age : ℕ
  pub deleted_spam : ℕ
  pub deleted_by_count : ℕ
  pub deleted_by_size : ℕ
  pub total_deleted : ℕ
  pub vacuumed : Bool
  pub size_before : ℕ
  pub size_after : ℕ
  pub errors : List String

abbrev pub nothing_deleted : CleanupResult
nothing_deleted = record {
  deleted_by_age = 0;
  deleted_spam = 0;
  deleted_by_count = 0;
  deleted_by_size = 0;
  total_deleted = 0;
  vacuumed = false;
  size_before = 0;
  size_after = 0;
  errors = [];
}

unfoldable pub had_cleanup : CleanupResult → Bool
had_cleanup r = ltb 0 r.total_deleted || r.vacuumed

unfoldable pub space_reclaimed : CleanupResult → ℕ
space_reclaimed r = r.size_before - r.size_after

-- the connection, and the statements of a cleanup
pub data Step : Type 0 where
  connect sent_age failed_age other_age delete_spam_rows count delete_count measure delete_size :
      Step

-- The error of opening the database and of each statement, if it has one, and of `VACUUM`; the text of the time that lies a number of
-- days back; the size of the file at the start, before the deletion by size and at the end; and the
-- length of the three JSON columns of a row.
pub record Site : Type 0 where
  pub pool_error : Option CommsError
  pub error : Step → Option String
  pub vacuum_error : Option String
  pub cutoff : ℕ → String
  pub size_at_start : Option ℕ
  pub size_now : Option ℕ
  pub size_at_end : Option ℕ
  pub json_length : Row → ℕ

-- `received_at < ?1`, on texts
abbrev pub is_before : String → String → Bool
is_before a b = elim (compare a b) [ Ordering.lt ↦ true | _ ↦ false ]

abbrev pub is_failed : MessageStatus → Bool
is_failed failed = true
is_failed partial_sent = true
is_failed _ = false

abbrev pub is_sent_status : MessageStatus → Bool
is_sent_status sent = true
is_sent_status _ = false

abbrev pub is_spam_status : MessageStatus → Bool
is_spam_status spam = true
is_spam_status _ = false

-- `status NOT IN ('sent', 'failed', 'partial_sent', 'spam')`
abbrev pub is_other : MessageStatus → Bool
is_other s = not (is_sent_status s || (is_failed s || is_spam_status s))

abbrev pub is_active : MessageStatus → Bool
is_active pending = true
is_active processing = true
is_active _ = false

abbrev pub outcome : Option String → String → Table → Table → ℕ → Table × Result ℕ
outcome none what t t' n = (t', ok n)
outcome (some e) what t t' n = (t, err (internal (what ++ e)))

-- `DELETE FROM messages WHERE …`: the rows that are left, and how many went
unfoldable pub delete_where :
    Site → Step → String → (String × Row → Bool) → Table → Table × Result ℕ
delete_where site step what p t =
    outcome (site.error step) what t (keep (λ x. not (p x)) t) (length (keep p t))
