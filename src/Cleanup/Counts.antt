-- ===== src/Cleanup/Counts.antt =====
-- The counts of a cleanup of src/persistence/cleanup.rs against the rows that are gone.
use geodineum_comms.Prelude.{
  String, ℕ, ◌+◌, ◌≡◌, Bool, true, false, not, Option, none, some, [], ◌∷◌, keep, length, ltb, leb,
  eqb, arith, if◌then◌else◌,
}
use geodineum_comms.Prelude.{max, ◌-◌}
use geodineum_comms.Prelude.Texts.{contains}
use geodineum_comms.Prelude.Dict.{or_else}
use geodineum_comms.Errors.{Result, ok, err}
use geodineum_comms.Archive.{Row, Table}
use geodineum_comms.Cleanup.{
  RetentionConfig, Step, Site, delete_where, outcome, count, delete_count, measure, delete_size,
  sent_age, failed_age, other_age, effective_sent_max_age, effective_failed_max_age,
  SpamRetentionPolicy, keep_spam, delete_immediately, never_delete, delete_after_days,
}
use geodineum_comms.Cleanup.Sites.{
  plus, and_delete, when, delete_by_age, delete_spam, unless_failed, delete_oldest, oldest,
  to_delete, delete_by_count, delete_by_size,
}

-- the rows of the table before are those that are left and as many as the count says
unfoldable pub IsCounted : Table → Table × Result ℕ → Type 0
IsCounted before (t, ok n) = length t + n ≡ length before
IsCounted before (t, err e) = Unit {0}

pub length-keep_rest :
    (p : String × Row → Bool) (t : Table)
    → length (keep (λ x. not (p x)) t) + length (keep p t) ≡ length t
length-keep_rest p [] = omega arith
length-keep_rest p (x ∷ t) = ground (arith, length-keep_rest p t)

outcome-IsCounted :
    (o : Option String) (what : String) (t t' : Table) (n : ℕ)
    → length t' + n ≡ length t
    → IsCounted t (outcome o what t t' n)
unfolding IsCounted
outcome-IsCounted none what t t' n h = h
outcome-IsCounted (some e) what t t' n h = tt

delete_where-IsCounted :
    (site : Site) (step : Step) (what : String) (p : String × Row → Bool) (t : Table)
    → IsCounted t (delete_where site step what p t)
unfolding delete_where
delete_where-IsCounted site step what p t =
    outcome-IsCounted (site.error step) what t _ _ (length-keep_rest p t)

if-IsCounted :
    (t : Table) (b : Bool) (r s : Table × Result ℕ)
    → IsCounted t r
    → IsCounted t s
    → IsCounted t (if b then r else s)
unfolding IsCounted
if-IsCounted t true r s h k = h
if-IsCounted t false r s h k = k

plus-IsCounted :
    (t t' : Table) (n : ℕ) (r : Table × Result ℕ)
    → length t' + n ≡ length t
    → IsCounted t' r
    → IsCounted t (plus n r)
unfolding IsCounted
plus-IsCounted t t' n (u, ok m) h k = omega (arith, h, k)
plus-IsCounted t t' n (u, err e) h k = tt

and_delete-IsCounted :
    (t : Table) (r : Table × Result ℕ) (f : Table → Table × Result ℕ)
    → IsCounted t r
    → ((u : Table) → IsCounted u (f u))
    → IsCounted t (and_delete r f)
unfolding IsCounted
and_delete-IsCounted t (u, ok n) f h k = plus-IsCounted t u n (f u) h (k u)
and_delete-IsCounted t (u, err e) f h k = tt

none_deleted : (t : Table) → IsCounted t (t, ok 0)
unfolding IsCounted
none_deleted t = omega arith

pub when-IsCounted :
    (b : Bool) (f : Table → Table × Result ℕ) (t : Table)
    → IsCounted t (f t)
    → IsCounted t (when b f t)
when-IsCounted b f t h = if-IsCounted t b (f t) (t, ok 0) h (none_deleted t)

pub delete_by_age-IsCounted :
    (site : Site) (c : RetentionConfig) (t : Table) → IsCounted t (delete_by_age site c t)
unfolding delete_by_age
delete_by_age-IsCounted site c t =
    let sent = effective_sent_max_age c in
    let failed = effective_failed_max_age c in
    and_delete-IsCounted t _ _
      (and_delete-IsCounted t _ _
        (when-IsCounted (ltb 0 sent) (delete_where site sent_age _ _) t
          (delete_where-IsCounted site sent_age _ _ t))
        (λ u.
          when-IsCounted (ltb 0 failed) (delete_where site failed_age _ _) u
            (delete_where-IsCounted site failed_age _ _ u)))
      (λ u.
        when-IsCounted (ltb 0 c.max_age_days) (delete_where site other_age _ _) u
          (delete_where-IsCounted site other_age _ _ u))

pub delete_spam-IsCounted :
    (site : Site) (policy : SpamRetentionPolicy) (t : Table)
    → IsCounted t (delete_spam site policy t)
unfolding delete_spam
delete_spam-IsCounted site keep_spam t = none_deleted t
delete_spam-IsCounted site never_delete t = none_deleted t
delete_spam-IsCounted site delete_immediately t = delete_where-IsCounted site _ _ _ t
delete_spam-IsCounted site (delete_after_days days) t = delete_where-IsCounted site _ _ _ t

-- a deletion that is left out by one of two tests, behind a query that may fail
limited-IsCounted :
    (o : Option String) (what : String) (a b : Bool) (t : Table) (r : Table × Result ℕ)
    → IsCounted t r
    → IsCounted t (unless_failed o what (if a then (t, ok 0) else if b then (t, ok 0) else r) t)
limited-IsCounted none what true b t r h = none_deleted t
limited-IsCounted none what false true t r h = none_deleted t
limited-IsCounted none what false false t r h = h
limited-IsCounted (some e) what a b t r h = unfold IsCounted in tt

delete_oldest-IsCounted :
    (site : Site) (step : Step) (what : String) (n : ℕ) (t : Table)
    → IsCounted t (delete_oldest site step what n t)
delete_oldest-IsCounted site step what n t =
    delete_where-IsCounted site step what (λ x. contains x.0 (oldest n t)) t

pub delete_by_count-IsCounted :
    (site : Site) (max_count min_keep : ℕ) (t : Table)
    → IsCounted t (delete_by_count site max_count min_keep t)
unfolding delete_by_count
delete_by_count-IsCounted site max_count min_keep t =
    limited-IsCounted (site.error count) "Count query failed: " (leb (length t) max_count)
      (leb (length t) (max max_count min_keep)) t _
      (delete_oldest-IsCounted site delete_count "Delete by count failed: "
        (length t - max max_count min_keep) t)

pub delete_by_size-IsCounted :
    (site : Site) (max_bytes min_keep : ℕ) (t : Table)
    → IsCounted t (delete_by_size site max_bytes min_keep t)
unfolding delete_by_size
delete_by_size-IsCounted site max_bytes min_keep t =
    let n = to_delete site (or_else site.size_now 0) max_bytes min_keep t in
    if-IsCounted t (leb (or_else site.size_now 0) max_bytes) (t, ok 0) _ (none_deleted t)
      (limited-IsCounted (site.error measure) "Size query failed: " (eqb (length t) 0) (eqb n 0) t _
        (delete_oldest-IsCounted site delete_size "Delete by size failed: " n t))
