-- ===== src/Cleanup/Totals.antt =====
-- The result of a cleanup of src/persistence/cleanup.rs.
use geodineum_comms.Prelude.{
  String, ℕ, ◌+◌, ◌≡◌, refl, Bool, true, false, Option, none, some, length, ltb, arith,
  if◌then◌else◌,
}
use geodineum_comms.Prelude.{◌*◌, ◌%◌, ◌^◌, ◌&&◌}
use geodineum_comms.Prelude.Dict.{or_else}
use geodineum_comms.Errors.{CommsError, Result, ok, err}
use geodineum_comms.Archive.{Table}
use geodineum_comms.Cleanup.{RetentionConfig, CleanupResult, Site, connect}
use geodineum_comms.Cleanup.Sites.{
  delete_by_age, delete_by_count, delete_by_size, deleted, vacuumed, finish, cleanup_size,
  cleanup_count, cleanup_spam, cleanup_age, opened, cleanup_site,
}
use geodineum_comms.Cleanup.{nothing_deleted}
use geodineum_comms.Cleanup.Counts.{
  IsCounted, when-IsCounted, delete_by_age-IsCounted, delete_spam-IsCounted,
  delete_by_count-IsCounted, delete_by_size-IsCounted,
}

-- The rows before a cleanup are those that are left and as many as its result says, which is the sum of
-- the counts of its four stages.
pub record Adds (before after : Table) (r : CleanupResult) : Type 0 where
  pub rows : length after + r.total_deleted ≡ length before
  pub total :
      r.total_deleted
      ≡ r.deleted_by_age + (r.deleted_spam + (r.deleted_by_count + r.deleted_by_size))

abbrev pub AddsUp : Table → Table × Result CleanupResult → Type 0
AddsUp before (t, ok r) = Adds before t r
AddsUp before (t, err e) = Unit {0}

vacuumed-Adds :
    (o : Option String) (before t : Table) (r : CleanupResult)
    → Adds before t r
    → Adds before t (vacuumed o r)
vacuumed-Adds none before t r h = record { rows = h.rows; total = h.total }
vacuumed-Adds (some e) before t r h = record { rows = h.rows; total = h.total }

finish-AddsUp :
    (site : Site) (c : RetentionConfig) (before t : Table) (r : CleanupResult)
    → Adds before t r
    → AddsUp before (finish site c t r)
finish-AddsUp site c before t r h = by_vacuum (c.vacuum_after_cleanup && ltb 0 r.total_deleted)
  where
    sized :
        (x : CleanupResult)
        → Adds before t x
        → Adds before t (record x { size_after = or_else site.size_at_end x.size_before })
    sized x k = record { rows = k.rows; total = k.total }

    by_vacuum :
        (b : Bool)
        → Adds before t (record (if b then vacuumed site.vacuum_error r else r) {
          size_after =
              or_else site.size_at_end (if b then vacuumed site.vacuum_error r else r).size_before;
        })
    by_vacuum true =
        sized (vacuumed site.vacuum_error r) (vacuumed-Adds site.vacuum_error before t r h)
    by_vacuum false = sized r h

-- a stage that sets a count which was none
deleted-AddsUp :
    (before t : Table) (f : ℕ → CleanupResult) (x : Table × Result ℕ)
    (k : Table → CleanupResult → Table × Result CleanupResult)
    → IsCounted t x
    → ((u : Table) (n : ℕ) → length u + n ≡ length t → AddsUp before (k u (f n)))
    → AddsUp before (deleted f x k)
unfolding IsCounted
deleted-AddsUp before t f (u, ok n) k h g = g u n h
deleted-AddsUp before t f (u, err e) k h g = tt

cleanup_size-AddsUp :
    (site : Site) (c : RetentionConfig) (before t : Table) (r : CleanupResult)
    → Adds before t r
    → r.deleted_by_size ≡ 0
    → AddsUp before (cleanup_size site c t r)
cleanup_size-AddsUp site c before t r h z =
    deleted-AddsUp before t
      (λ n. record r { deleted_by_size = n; total_deleted = r.total_deleted + n }) _ (finish site c)
      (when-IsCounted (ltb 0 c.max_db_size_mb)
        (delete_by_size site (c.max_db_size_mb * 1_024 * 1_024 % 2 ^ 64) c.min_messages_keep) t
        (delete_by_size-IsCounted site _ _ t))
      (λ u n e.
        finish-AddsUp site c before u
          (record r { deleted_by_size = n; total_deleted = r.total_deleted + n })
          (record { rows = omega (arith, h.rows, e); total = omega (arith, h.total, z) }))

cleanup_count-AddsUp :
    (site : Site) (c : RetentionConfig) (before t : Table) (r : CleanupResult)
    → Adds before t r
    → r.deleted_by_count ≡ 0
    → r.deleted_by_size ≡ 0
    → AddsUp before (cleanup_count site c t r)
cleanup_count-AddsUp site c before t r h y z =
    deleted-AddsUp before t
      (λ n. record r { deleted_by_count = n; total_deleted = r.total_deleted + n }) _
      (cleanup_size site c)
      (when-IsCounted (ltb 0 c.max_messages_per_site)
        (delete_by_count site c.max_messages_per_site c.min_messages_keep) t
        (delete_by_count-IsCounted site _ _ t))
      (λ u n e.
        cleanup_size-AddsUp site c before u
          (record r { deleted_by_count = n; total_deleted = r.total_deleted + n })
          (record { rows = omega (arith, h.rows, e); total = omega (arith, h.total, y) }) z)

cleanup_spam-AddsUp :
    (site : Site) (c : RetentionConfig) (before t : Table) (r : CleanupResult)
    → Adds before t r
    → r.deleted_spam ≡ 0
    → r.deleted_by_count ≡ 0
    → r.deleted_by_size ≡ 0
    → AddsUp before (cleanup_spam site c t r)
cleanup_spam-AddsUp site c before t r h x y z =
    deleted-AddsUp before t
      (λ n. record r { deleted_spam = n; total_deleted = r.total_deleted + n }) _
      (cleanup_count site c) (delete_spam-IsCounted site c.spam_policy t)
      (λ u n e.
        cleanup_count-AddsUp site c before u
          (record r { deleted_spam = n; total_deleted = r.total_deleted + n })
          (record { rows = omega (arith, h.rows, e); total = omega (arith, h.total, x) }) y z)

cleanup_age-AddsUp :
    (site : Site) (c : RetentionConfig) (t : Table) (size : ℕ)
    → AddsUp t (cleanup_age site c t (record nothing_deleted { size_before = size }))
cleanup_age-AddsUp site c t size =
    let r = record nothing_deleted { size_before = size } in
    deleted-AddsUp t t (λ n. record r { deleted_by_age = n; total_deleted = r.total_deleted + n }) _
      (cleanup_spam site c)
      (when-IsCounted (ltb 0 c.max_age_days) (delete_by_age site c) t
        (delete_by_age-IsCounted site c t))
      (λ u n e.
        cleanup_spam-AddsUp site c t u
          (record r { deleted_by_age = n; total_deleted = r.total_deleted + n })
          (record { rows = omega (arith, e); total = omega arith }) refl refl refl)

opened-AddsUp :
    (p : Option CommsError) (o : Option String) (t : Table) (x : Table × Result CleanupResult)
    → AddsUp t x
    → AddsUp t (opened p o t x)
opened-AddsUp (some e) o t x h = tt
opened-AddsUp none none t x h = h
opened-AddsUp none (some e) t x h = tt

-- A cleanup that ends without an error has removed just as many messages as its result says, and the
-- total is the sum of the counts by age, of spam, by count and by size.
pub cleanup_site-AddsUp :
    (site : Site) (c : RetentionConfig) (t : Table) → AddsUp t (cleanup_site site c t)
unfolding cleanup_site
cleanup_site-AddsUp site c t =
    opened-AddsUp site.pool_error (site.error connect) t _
      (cleanup_age-AddsUp site c t (or_else site.size_at_start 0))
