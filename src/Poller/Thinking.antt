-- ===== src/Poller/Thinking.antt =====
-- The loop of strip_thinking (src/inbound/response_poller.rs) ends: no round is left over.
use Prim.Native.Char.{code, Char}
use Prim.Native.String.{String, count}
use text.Mathlib.TextLemmas.{length-cons}
use geodineum_comms.Prelude.{ℕ, zero, suc, ◌≤◌, ◌≡◌, refl, ap, Option, none, some, arith, eqb}
use geodineum_comms.Prelude.Chars.{strip_prefix, after}
use geodineum_comms.Prelude.Within.{
  IsWithin, IsWithin-if, IsWithin-more, strip_prefix-IsWithin, after-IsWithin,
}
use geodineum_comms.Poller.{behind, trace_here, strip_from}

-- a trace that starts here leaves at most that many characters
abbrev IsShorter : ℕ → Option (Option String) → Type 0
IsShorter n none = Unit {0}
IsShorter n (some found) = IsWithin n found

behind-IsShorter :
    (n : ℕ) (close : String) (o : Option String) → IsWithin n o → IsShorter n (behind close o)
behind-IsShorter n close none h = tt
behind-IsShorter n close (some t) h =
    IsWithin-more (count t) n (after close t) h (after-IsWithin close t)

-- an opening tag takes the first character and more
trace_here-IsShorter : (c : Char) (s : String) → IsShorter (count s) (trace_here (String.◌∷◌ c s))
unfolding strip_prefix
trace_here-IsShorter c s = by_tag (behind "</think>" (strip_prefix "<think>" (String.◌∷◌ c s))) (
    behind-IsShorter (count s) "</think>" _ (
      IsWithin-if _ (eqb b'<' (code c)) (strip_prefix "think>" s)
        (strip_prefix-IsWithin "think>" s)))
  where
    by_tag :
        (o : Option (Option String))
        → IsShorter (count s) o
        → IsShorter (count s) (elim o [
          | some found ↦ some found
          | none ↦ behind "</thinking>" (strip_prefix "<thinking>" (String.◌∷◌ c s))
        ])
    by_tag none h = behind-IsShorter (count s) "</thinking>" _ (
        IsWithin-if _ (eqb b'<' (code c)) (strip_prefix "thinking>" s)
          (strip_prefix-IsWithin "thinking>" s))
    by_tag (some found) h = h

one_round :
    (f g : ℕ) (c : Char) (s : String) (o : Option (Option String))
    → IsShorter (count s) o
    → ((t : String) → count t ≤ count s → strip_from f t ≡ strip_from g t)
    → ◌≡◌ {A = String}
        (elim o [
          | none ↦ String.◌∷◌ c (strip_from f s)
          | some found ↦ elim found [ none ↦ "" | some rest ↦ strip_from f rest ]
        ])
        (elim o [
          | none ↦ String.◌∷◌ c (strip_from g s)
          | some found ↦ elim found [ none ↦ "" | some rest ↦ strip_from g rest ]
        ])
one_round f g c s none h k = ap (λ t. String.◌∷◌ c t) (k s (omega arith))
one_round f g c s (some none) h k = refl
one_round f g c s (some (some rest)) h k = k rest h

not_empty : (c : Char) (s : String) → count (String.◌∷◌ c s) ≤ 0 → ⊥
not_empty c s h = omega (arith, h, length-cons c s)

-- With any number of rounds from the count of the characters on, the loop gives the same text.
pub strip_from_rounds :
    (f : ℕ) (s : String) (g : ℕ) → count s ≤ f → count s ≤ g → strip_from f s ≡ strip_from g s
unfolding strip_from
strip_from_rounds zero String.[] zero h k = refl
strip_from_rounds zero String.[] (suc g) h k = refl
strip_from_rounds (suc f) String.[] zero h k = refl
strip_from_rounds (suc f) String.[] (suc g) h k = refl
strip_from_rounds zero (String.◌∷◌ c s) g h k = absurd (not_empty c s h)
strip_from_rounds (suc f) (String.◌∷◌ c s) zero h k = absurd (not_empty c s k)
strip_from_rounds (suc f) (String.◌∷◌ c s) (suc g) h k =
    one_round f g c s (trace_here (String.◌∷◌ c s)) (trace_here-IsShorter c s) (λ t l.
      strip_from_rounds f t g (omega (arith, h, l, length-cons c s))
        (omega (arith, k, l, length-cons c s)))
