-- ===== src/Prelude/Texts.antt =====
-- Lists of texts: membership as a predicate and as a test.
use Prim.Native.String.{String}
use mathlib.Core.Path.{◌≡◌}
use mathlib.Core.Bool.{Bool, true}
use mathlib.Core.Logic.{◌⊎◌}
use mathlib.Core.List.{List, [], ◌∷◌}
use native.Mathlib.Omega.{arith}
use text.Mathlib.Text.{◌==◌}
use text.Mathlib.TextEquality.{eq_iff}
use geodineum_comms.Prelude.Lists.{any, keep}

abbrev pub In : String → List String → Type 0
In a [] = ⊥
In a (x ∷ xs) = (x ≡ a) ⊎ In a xs

-- `contains`
abbrev pub contains : String → List String → Bool
contains a = any (λ x. x == a)

pub contains-In : (a : String) (xs : List String) → contains a xs ≡ true → In a xs
contains-In a [] h = cc
contains-In a (x ∷ xs) h = ground (arith, contains-In a xs, eq_iff x a)

pub In-contains : (a : String) (xs : List String) → In a xs → contains a xs ≡ true
In-contains a [] h = absurd h
In-contains a (x ∷ xs) h = ground (arith, In-contains a xs, eq_iff x a)

pub In-keep :
    (a : String) (p : String → Bool) (xs : List String)
    → In a (keep p xs)
    → (In a xs) × (p a ≡ true)
In-keep a p [] h = absurd h
In-keep a p (x ∷ xs) h = ground (arith, In-keep a p xs)
