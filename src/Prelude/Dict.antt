-- ===== src/Prelude/Dict.antt =====
-- `HashMap<String, V>` as an association list. The program never relies on the order of a map.
use Prim.Native.Nat.{◌+◌, ◌≤◌}
use Prim.Native.String.{String}
use mathlib.Core.Path.{◌≡◌, refl, sym, ap}
use mathlib.Core.Bool.{Bool, true, false}
use mathlib.Core.Option.{Option, none, some}
use mathlib.Core.List.{List, [], ◌∷◌}
use native.Mathlib.Omega.{arith}
use text.Mathlib.Text.{◌==◌}
use text.Mathlib.TextEquality.{eq_iff}
use geodineum_comms.Prelude.Tests.{if◌then◌else◌}
use geodineum_comms.Prelude.Lists.{length}

abbrev pub Dict {ℓ} : Type ℓ → Type ℓ
Dict V = List (String × V)

module _ {ℓ} {V : Type ℓ} where
  unfoldable pub lookup : String → Dict V → Option V
  lookup key [] = none
  lookup key (entry ∷ entries) = if entry.0 == key then some entry.1 else lookup key entries

  -- `insert`: replaces the value of a key that is there
  unfoldable pub insert : String → V → Dict V → Dict V
  insert key value [] = (key, value) ∷ []
  insert key value (entry ∷ entries) =
      let kept = insert key value entries in
      if entry.0 == key then (key, value) ∷ entries else entry ∷ kept

  unfoldable pub remove : String → Dict V → Dict V
  remove k [] = []
  remove k ((j, v) ∷ m) = let rest = remove k m in if j == k then rest else (j, v) ∷ rest

  -- `retain(|_, v| p(v))`
  unfoldable pub retain : (V → Bool) → Dict V → Dict V
  retain p [] = []
  retain p ((j, v) ∷ m) = let rest = retain p m in if p v then (j, v) ∷ rest else rest

  abbrev pub is_some : Option V → Bool
  is_some none = false
  is_some (some v) = true

  unfoldable pub contains_key : String → Dict V → Bool
  unfolding lookup
  contains_key k m = is_some (lookup k m)

  abbrev pub or_else : Option V → V → V
  or_else none d = d
  or_else (some v) d = v

  pub lookup-insert :
      (key other : String) (value : V) (entries : Dict V)
      → lookup other (insert key value entries)
        ≡ (if key == other then some value else lookup other entries)
  unfolding lookup insert
  lookup-insert key other value [] = refl
  lookup-insert key other value (entry ∷ entries) = ground (
    arith,
    lookup-insert key other value entries,
    eq_iff key other,
    eq_iff entry.0 key,
    eq_iff entry.0 other,
  )

  pub lookup-remove :
      (k j : String) (m : Dict V) → lookup j (remove k m) ≡ (if k == j then none else lookup j m)
  unfolding lookup remove
  lookup-remove k j [] = ground arith
  lookup-remove k j ((i, w) ∷ m) =
      ground (arith, eq_iff k j, eq_iff i k, eq_iff i j, lookup-remove k j m)

  pub length-insert_new :
      (k : String) (v : V) (m : Dict V)
      → contains_key k m ≡ false
      → length (insert k v m) ≡ length m + 1
  unfolding contains_key insert
  length-insert_new k v [] h = omega arith
  length-insert_new k v ((j, w) ∷ m) h = ground (arith, length-insert_new k v m)

  pub length-insert_old :
      (k : String) (v : V) (m : Dict V) → contains_key k m ≡ true → length (insert k v m) ≡ length m
  unfolding contains_key insert
  length-insert_old k v [] h = ground arith
  length-insert_old k v ((j, w) ∷ m) h = ground (arith, length-insert_old k v m)

  pub length-retain : (p : V → Bool) (m : Dict V) → length (retain p m) ≤ length m
  unfolding retain
  length-retain p [] = omega arith
  length-retain p ((j, v) ∷ m) = ground (arith, length-retain p m)

  -- No key stands twice.
  abbrev pub UniqueKeys : Dict V → Type 0
  UniqueKeys [] = Unit {0}
  UniqueKeys ((j, v) ∷ m) = (contains_key j m ≡ false) × UniqueKeys m

  abbrev pub only_if : (V → Bool) → Option V → Option V
  only_if p none = none
  only_if p (some v) = if p v then some v else none

  lookup_same : (k j : String) (m : Dict V) → (j == k) ≡ true → lookup k m ≡ lookup j m
  lookup_same k j m h = ap (λ i. lookup i m) (sym ((eq_iff j k).0 h))

  pub lookup-retain :
      (k : String) (p : V → Bool) (m : Dict V)
      → UniqueKeys m
      → lookup k (retain p m) ≡ only_if p (lookup k m)
  unfolding contains_key retain
  lookup-retain k p [] u = refl
  lookup-retain k p ((j, v) ∷ m) u = ground (arith, lookup-retain k p m u.1, lookup_same k j m, u.0)

  pub UniqueKeys-insert :
      (k : String) (v : V) (m : Dict V) → UniqueKeys m → UniqueKeys (insert k v m)
  unfolding contains_key insert
  UniqueKeys-insert k v [] u = (refl, tt)
  UniqueKeys-insert k v ((j, w) ∷ m) u = ground (
    arith,
    UniqueKeys-insert k v m u.1,
    lookup-insert k j v m,
    lookup_same k j m,
    eq_iff k j,
    eq_iff j k,
    u.0,
  )

  pub UniqueKeys-retain : (p : V → Bool) (m : Dict V) → UniqueKeys m → UniqueKeys (retain p m)
  unfolding contains_key retain
  UniqueKeys-retain p [] u = tt
  UniqueKeys-retain p ((j, v) ∷ m) u =
      ground (arith, UniqueKeys-retain p m u.1, lookup-retain j p m u.1, u.0)
