-- ===== src/Errors/Rounds.antt =====
-- The loop of scrub_bot_token (src/error.rs) ends: no round is left over.
use Prim.Native.Char.{code, Char}
use Prim.Native.String.{String, ◌++◌, count}
use text.Mathlib.TextLemmas.{length-cons}
use geodineum_comms.Prelude.{ℕ, zero, suc, ◌≤◌, ◌≡◌, refl, ap, Bool, Option, none, some, arith, eqb}
use geodineum_comms.Prelude.Chars.{strip_prefix}
use geodineum_comms.Prelude.Within.{IsWithin, IsWithin-if, IsWithin-more, strip_prefix-IsWithin}
use geodineum_comms.Errors.{
  is_digit, is_secret, drop_while, skip_secret, skip_colon, skip_token, token_here, scrub_from,
  scrub_bot_token,
}

count-drop_while : (p : ℕ → Bool) (s : String) → count (drop_while p s) ≤ count s
unfolding drop_while
count-drop_while p String.[] = omega arith
count-drop_while p (String.◌∷◌ c s) = ground (arith, count-drop_while p s, length-cons c s)

skip_secret-IsWithin : (s : String) → IsWithin (count s) (skip_secret s)
unfolding skip_secret
skip_secret-IsWithin String.[] = tt
skip_secret-IsWithin (String.◌∷◌ c s) =
    IsWithin-if _ (is_secret (code c)) (some (drop_while is_secret s))
      (omega (arith, count-drop_while is_secret s, length-cons c s))

skip_colon-IsWithin : (s : String) → IsWithin (count s) (skip_colon s)
unfolding skip_colon
skip_colon-IsWithin String.[] = tt
skip_colon-IsWithin (String.◌∷◌ c s) = IsWithin-if _ (eqb (code c) b':') (skip_secret s) (
    IsWithin-more (count s) _ (skip_secret s) (omega (arith, length-cons c s))
      (skip_secret-IsWithin s))

skip_token-IsWithin : (s : String) → IsWithin (count s) (skip_token s)
unfolding skip_token
skip_token-IsWithin String.[] = tt
skip_token-IsWithin (String.◌∷◌ c s) =
    IsWithin-if _ (is_digit (code c)) (skip_colon (drop_while is_digit s)) (
      IsWithin-more (count (drop_while is_digit s)) _ (skip_colon (drop_while is_digit s))
        (omega (arith, count-drop_while is_digit s, length-cons c s))
        (skip_colon-IsWithin (drop_while is_digit s)))

token_here-IsWithin : (n : ℕ) (o : Option String) → IsWithin n o → IsWithin n (token_here o)
token_here-IsWithin n none h = tt
token_here-IsWithin n (some t) h =
    IsWithin-more (count t) n (skip_token t) h (skip_token-IsWithin t)

-- a token takes the first character and more
token_shorter :
    (c : Char) (s : String) → IsWithin (count s) (token_here (strip_prefix "bot" (String.◌∷◌ c s)))
unfolding strip_prefix
token_shorter c s =
    token_here-IsWithin (count s) _
      (IsWithin-if _ (eqb b'b' (code c)) (strip_prefix "ot" s) (strip_prefix-IsWithin "ot" s))

one_round :
    (f g : ℕ) (c : Char) (s : String) (o : Option String)
    → IsWithin (count s) o
    → ((t : String) → count t ≤ count s → scrub_from f t ≡ scrub_from g t)
    → ◌≡◌ {A = String}
        (elim o [
          | some rest ↦ "bot<redacted>" ++ scrub_from f rest
          | none ↦ String.◌∷◌ c (scrub_from f s)
        ])
        (elim o [
          | some rest ↦ "bot<redacted>" ++ scrub_from g rest
          | none ↦ String.◌∷◌ c (scrub_from g s)
        ])
one_round f g c s none h k = ap (λ t. String.◌∷◌ c t) (k s (omega arith))
one_round f g c s (some rest) h k = ap (λ t. "bot<redacted>" ++ t) (k rest h)

not_empty : (c : Char) (s : String) → count (String.◌∷◌ c s) ≤ 0 → ⊥
not_empty c s h = omega (arith, h, length-cons c s)

scrub_from_rounds :
    (f : ℕ) (s : String) (g : ℕ) → count s ≤ f → count s ≤ g → scrub_from f s ≡ scrub_from g s
unfolding scrub_from
scrub_from_rounds zero String.[] zero h k = refl
scrub_from_rounds zero String.[] (suc g) h k = refl
scrub_from_rounds (suc f) String.[] zero h k = refl
scrub_from_rounds (suc f) String.[] (suc g) h k = refl
scrub_from_rounds zero (String.◌∷◌ c s) g h k = absurd (not_empty c s h)
scrub_from_rounds (suc f) (String.◌∷◌ c s) zero h k = absurd (not_empty c s k)
scrub_from_rounds (suc f) (String.◌∷◌ c s) (suc g) h k =
    one_round f g c s (token_here (strip_prefix "bot" (String.◌∷◌ c s))) (token_shorter c s) (λ t l.
      scrub_from_rounds f t g (omega (arith, h, l, length-cons c s))
        (omega (arith, k, l, length-cons c s)))

-- The redaction of a text ends within as many rounds as the text has characters: with any number of
-- further rounds it gives the same text.
pub scrub_bot_token_ends :
    (s : String) (fuel : ℕ) → count s ≤ fuel → scrub_from fuel s ≡ scrub_bot_token s
unfolding scrub_bot_token
scrub_bot_token_ends s fuel h = scrub_from_rounds fuel s (count s) h (omega arith)
