-- ===== src/Prelude/Within.antt =====
-- What a search leaves of a text is no longer than the text.
use Prim.Native.Nat.{ℕ, ◌≤◌}
use Prim.Native.Char.{code}
use Prim.Native.String.{String, count}
use mathlib.Core.Bool.{Bool, true, false}
use mathlib.Core.Option.{Option, none, some}
use native.Mathlib.Omega.{arith}
use text.Mathlib.TextLemmas.{length-cons}
use geodineum_comms.Prelude.Tests.{eqb, if◌then◌else◌}
use geodineum_comms.Prelude.Chars.{strip_prefix, after}

-- what is left of a text, if anything, is no longer than that many characters
abbrev pub IsWithin : ℕ → Option String → Type 0
IsWithin n none = Unit {0}
IsWithin n (some t) = count t ≤ n

pub IsWithin-if :
    (n : ℕ) (b : Bool) (o : Option String) → IsWithin n o → IsWithin n (if b then o else none)
IsWithin-if n true o h = h
IsWithin-if n false o h = tt

pub IsWithin-more : (m n : ℕ) (o : Option String) → m ≤ n → IsWithin m o → IsWithin n o
IsWithin-more m n none h k = tt
IsWithin-more m n (some t) h k = omega (arith, h, k)

pub strip_prefix-IsWithin : (p s : String) → IsWithin (count s) (strip_prefix p s)
unfolding strip_prefix
strip_prefix-IsWithin String.[] s = omega arith
strip_prefix-IsWithin (String.◌∷◌ c p) String.[] = tt
strip_prefix-IsWithin (String.◌∷◌ c p) (String.◌∷◌ d s) =
    IsWithin-if _ (eqb (code c) (code d)) (strip_prefix p s) (
      IsWithin-more (count s) _ (strip_prefix p s) (omega (arith, length-cons d s))
        (strip_prefix-IsWithin p s))

either-IsWithin :
    (n : ℕ) (o other : Option String)
    → IsWithin n o
    → IsWithin n other
    → IsWithin n (elim o [ some t ↦ some t | none ↦ other ])
either-IsWithin n none other h k = k
either-IsWithin n (some t) other h k = h

pub after-IsWithin : (sep s : String) → IsWithin (count s) (after sep s)
unfolding after
after-IsWithin sep String.[] = strip_prefix-IsWithin sep String.[]
after-IsWithin sep (String.◌∷◌ c s) =
    either-IsWithin _ (strip_prefix sep (String.◌∷◌ c s)) (after sep s)
      (strip_prefix-IsWithin sep (String.◌∷◌ c s))
      (IsWithin-more (count s) _ (after sep s) (omega (arith, length-cons c s))
        (after-IsWithin sep s))
