-- ===== src/Cleanup/Kept.antt =====
-- What the deletions by count and by size of src/persistence/cleanup.rs leave.
use Prim.Native.String.{String}
use geodineum_comms.Prelude.{
  ℕ, zero, suc, some_inj, ◌+◌, ◌-◌, ◌≤◌, max, min, ◌≡◌, refl, sym, ap, ◌∙◌, ◌==◌, eq_iff, Bool,
  true, false, not, ◌||◌, Bool-cases, inl, inr, Option, none, some, List, [], ◌∷◌, keep, length,
  leb, eqb, arith, if◌then◌else◌,
}
use geodineum_comms.Prelude.Texts.{contains}
use geodineum_comms.Prelude.Dict.{lookup, contains_key, UniqueKeys, or_else}
use geodineum_comms.Errors.{Result, ok}
use geodineum_comms.Archive.{Row, Table}
use geodineum_comms.Cleanup.{
  Step, count, delete_count, measure, delete_size, Site, is_active, delete_where, outcome,
}
use geodineum_comms.Cleanup.Counts.{length-keep_rest}
use geodineum_comms.Cleanup.Sites.{
  insert_row, by_age, ids_of, oldest, delete_oldest, unless_failed, delete_by_count, delete_by_size,
  to_delete,
}

module _ (id : String) where
  pub key-insert_row :
      (x : String × Row) (t : Table) → contains_key id (insert_row x t) ≡ contains_key id (x ∷ t)
  unfolding contains_key lookup
  key-insert_row x [] = refl
  key-insert_row x (y ∷ t) = ground (arith, key-insert_row x t)

  pub key-by_age : (t : Table) → contains_key id (by_age t) ≡ contains_key id t
  unfolding by_age contains_key lookup
  key-by_age [] = refl
  key-by_age (x ∷ t) = key-insert_row x (by_age t) ∙ ground (arith, key-by_age t)

  pub key-ids_of : (n : ℕ) (t : Table) → contains id (ids_of n t) ≡ true → contains_key id t ≡ true
  unfolding ids_of contains_key lookup
  key-ids_of zero t h = cc
  key-ids_of (suc n) [] h = cc
  key-ids_of (suc n) (x ∷ t) h = ground (arith, key-ids_of n t)

  pub no_key-keep :
      (p : String × Row → Bool) (t : Table)
      → contains_key id t ≡ false
      → contains_key id (keep p t) ≡ false
  unfolding contains_key lookup
  no_key-keep p [] h = refl
  no_key-keep p (x ∷ t) h = ground (arith, no_key-keep p t)

  active_key :
      (t : Table) (r : Row)
      → UniqueKeys t
      → lookup id t ≡ some r
      → is_active r.status ≡ true
      → contains_key id (keep (λ x. not (is_active x.1.status)) t) ≡ false
  unfolding contains_key lookup
  active_key [] r u h a = refl
  active_key (x ∷ t) r u h a = elim (Bool-cases (x.0 == id)) [
    | inl same ↦
        let of_row : x.1 ≡ r = some_inj (rw same at h) in
        let key : x.0 ≡ id = (eq_iff x.0 id).0 same in
        simp (of_row, a) (no_key-keep (λ y. not (is_active y.1.status)) t (rw key at u.0))
    | inr other ↦ skip (is_active x.1.status) other (active_key t r u.1 (rw other at h) a)
  ]
    where
      skip :
          (b : Bool)
          → (x.0 == id) ≡ false
          → contains_key id (keep (λ y. not (is_active y.1.status)) t) ≡ false
          → contains_key id (
              if not b
              then x ∷ keep (λ y. not (is_active y.1.status)) t
              else keep (λ y. not (is_active y.1.status)) t)
            ≡ false
      skip true o k = k
      skip false o k = rw o k

  lookup-keep :
      (ids : List String) (t : Table)
      → contains id ids ≡ false
      → lookup id (keep (λ x. not (contains x.0 ids)) t) ≡ lookup id t
  unfolding lookup
  lookup-keep ids [] h = refl
  lookup-keep ids (x ∷ t) h = ground (arith, lookup-keep ids t h, same)
    where
      same : (x.0 == id) ≡ true → contains x.0 ids ≡ contains id ids
      same e = ap (λ k. contains k ids) ((eq_iff x.0 id).0 e)

  -- A row that is not finished is none of the oldest ones to go.
  active-oldest :
      (n : ℕ) (t : Table) (r : Row)
      → UniqueKeys t
      → lookup id t ≡ some r
      → is_active r.status ≡ true
      → contains id (oldest n t) ≡ false
  unfolding oldest
  active-oldest n t r u h a = elim (Bool-cases (contains id (oldest n t))) [
    | inr e ↦ e
    | inl e ↦
        let there = key-ids_of n (by_age (keep (λ x. not (is_active x.1.status)) t)) e in
        let none_there =
          key-by_age (keep (λ x. not (is_active x.1.status)) t) ∙ active_key t r u h a in
        absurd (clash there none_there)
  ]
    where
      clash : {b : Bool} → b ≡ true → b ≡ false → ⊥
      clash p q = cc

key_once :
    (k : String) (t : Table)
    → UniqueKeys t
    → length (keep (λ x. k == x.0) t) ≤ 1 - (if contains_key k t then 0 else 1)
unfolding contains_key lookup
key_once k [] u = omega arith
key_once k (x ∷ t) u = ground (arith, key_once k t u.1, u.0, eq_iff k x.0, eq_iff x.0 k, same)
  where
    same : k ≡ x.0 → contains_key x.0 t ≡ contains_key k t
    same e = ap (λ j. contains_key j t) (sym e)

length-keep_or :
    (p q : String × Row → Bool) (t : Table)
    → length (keep (λ x. p x || q x) t) ≤ length (keep p t) + length (keep q t)
length-keep_or p q [] = omega arith
length-keep_or p q (x ∷ t) = ground (arith, length-keep_or p q t)

length-keep_none : (t : Table) → length (keep (λ x. false) t) ≡ 0
length-keep_none [] = refl
length-keep_none (x ∷ t) = length-keep_none t

pub length-removed :
    (ids : List String) (t : Table)
    → UniqueKeys t
    → length (keep (λ x. contains x.0 ids) t) ≤ length ids
length-removed [] t u = omega (arith, length-keep_none t)
length-removed (k ∷ ids) t u = omega (
  arith,
  length-keep_or (λ x. k == x.0) (λ x. contains x.0 ids) t,
  key_once k t u,
  length-removed ids t u,
)

length-ids_of : (n : ℕ) (t : Table) → length (ids_of n t) ≤ n
unfolding ids_of
length-ids_of zero t = omega arith
length-ids_of (suc n) [] = omega arith
length-ids_of (suc n) (x ∷ t) = omega (arith, length-ids_of n t)

-- the table behind a deletion that two tests and a query may leave out
limited :
    (P : Table → Type 0) (o : Option String) (what : String) (a b : Bool) (t : Table)
    (r : Table × Result ℕ)
    → P t
    → P r.0
    → P (unless_failed o what (if a then (t, ok 0) else if b then (t, ok 0) else r) t).0
limited P none what true b t r h k = h
limited P none what false true t r h k = h
limited P none what false false t r h k = k
limited P (some e) what a b t r h k = h

outcome_left :
    (P : Table → Type 0) (o : Option String) (what : String) (t t' : Table) (n : ℕ)
    → P t
    → P t'
    → P (outcome o what t t' n).0
outcome_left P none what t t' n h k = k
outcome_left P (some e) what t t' n h k = h

module _ (site : Site) (t : Table) (u : UniqueKeys t) where
  delete_oldest_active :
      (step : Step) (what : String) (n : ℕ) (id : String) (r : Row)
      → lookup id t ≡ some r
      → is_active r.status ≡ true
      → lookup id (delete_oldest site step what n t).0 ≡ some r
  unfolding delete_where
  delete_oldest_active step what n id r h a =
      outcome_left (λ x. lookup id x ≡ some r) (site.error step) what t _ _ h
        (lookup-keep id (oldest n t) t (active-oldest id n t r u h a) ∙ h)

  length-delete_oldest :
      (step : Step) (what : String) (n : ℕ)
      → length t ≤ length (delete_oldest site step what n t).0 + n
  unfolding delete_where oldest
  length-delete_oldest step what n =
      let gone = length-removed (oldest n t) t u in
      let few = length-ids_of n (by_age (keep (λ x. not (is_active x.1.status)) t)) in
      let whole = length-keep_rest (λ x. contains x.0 (oldest n t)) t in
      outcome_left (λ x. length t ≤ length x + n) (site.error step) what t _ _ (omega arith)
        (omega (arith, gone, few, whole))

  count_left :
      (P : Table → Type 0) (max_count min_keep : ℕ)
      → P t
      → P
          (delete_oldest site delete_count "Delete by count failed: "
            (length t - max max_count min_keep)
            t).0
      → P (delete_by_count site max_count min_keep t).0
  unfolding delete_by_count
  count_left P max_count min_keep h k =
      limited P (site.error count) "Count query failed: " (leb (length t) max_count)
        (leb (length t) (max max_count min_keep)) t _ h k

  size_left :
      (P : Table → Type 0) (max_bytes min_keep : ℕ)
      → P t
      → P
          (delete_oldest site delete_size "Delete by size failed: "
            (to_delete site (or_else site.size_now 0) max_bytes min_keep t)
            t).0
      → P (delete_by_size site max_bytes min_keep t).0
  unfolding delete_by_size
  size_left P max_bytes min_keep h k = by_size (leb (or_else site.size_now 0) max_bytes)
    where
      by_size :
          (b : Bool)
          → P
              (if b
                then (t, ok 0)
                else unless_failed
                    (site.error measure)
                    "Size query failed: "
                    (if eqb (length t) 0
                      then (t, ok 0)
                      else if eqb (to_delete site (or_else site.size_now 0) max_bytes min_keep t) 0
                      then (t, ok 0)
                      else delete_oldest site delete_size "Delete by size failed: "
                          (to_delete site (or_else site.size_now 0) max_bytes min_keep t)
                          t)
                    t).0
      by_size true = h
      by_size false =
          limited P (site.error measure) "Size query failed: " (eqb (length t) 0)
            (eqb (to_delete site (or_else site.size_now 0) max_bytes min_keep t) 0) t _ h k

  -- No deletion by count or by size touches a message that is pending or being processed.
  pub delete_by_limits_active :
      (max_count max_bytes min_keep : ℕ) (id : String) (r : Row)
      → lookup id t ≡ some r
      → is_active r.status ≡ true
      → (lookup id (delete_by_count site max_count min_keep t).0 ≡ some r)
        × (lookup id (delete_by_size site max_bytes min_keep t).0 ≡ some r)
  delete_by_limits_active max_count max_bytes min_keep id r h a = (
    count_left (λ x. lookup id x ≡ some r) max_count min_keep h
        (delete_oldest_active delete_count _ _ id r h a),
    size_left (λ x. lookup id x ≡ some r) max_bytes min_keep h
        (delete_oldest_active delete_size _ _ id r h a),
  )

  to_delete_most :
      (current max_bytes min_keep : ℕ)
      → to_delete site current max_bytes min_keep t ≤ length t - min_keep
  unfolding to_delete
  to_delete_most current max_bytes min_keep = omega arith

  pub delete_by_limits_bound :
      (max_count max_bytes min_keep : ℕ)
      → (min (length t) (max max_count min_keep)
          ≤ length (delete_by_count site max_count min_keep t).0)
        × (min (length t) min_keep ≤ length (delete_by_size site max_bytes min_keep t).0)
  delete_by_limits_bound max_count max_bytes min_keep =
      let by_count =
        length-delete_oldest delete_count "Delete by count failed: "
          (length t - max max_count min_keep) in
      let n = to_delete site (or_else site.size_now 0) max_bytes min_keep t in
      let by_size = length-delete_oldest delete_size "Delete by size failed: " n in
      let most = to_delete_most (or_else site.size_now 0) max_bytes min_keep in
      (
        count_left (λ x. min (length t) (max max_count min_keep) ≤ length x) max_count min_keep
            (omega arith) (omega (arith, by_count)),
        size_left (λ x. min (length t) min_keep ≤ length x) max_bytes min_keep (omega arith)
            (omega (arith, by_size, most)),
      )
