-- ===== src/Poller/Fits.antt =====
-- How long the chunks are that src/inbound/response_poller.rs cuts a response into.
use Prim.Native.Char.{Char}
use Prim.Native.String.{String, count}
use text.Mathlib.TextLemmas.{length-append, length-nil, length-cons}
use geodineum_comms.Prelude.{
  ℕ, ◌+◌, ◌≤◌, ◌≡◌, true, false, Bool-cases, inl, inr, List, [], ◌∷◌, All, leb, if◌then◌else◌,
  arith,
}
use geodineum_comms.Prelude.Lists.{append}
use geodineum_comms.Poller.Split.{join, join-split_message}
use geodineum_comms.Poller.{
  Chunks, lines, paragraphs, flush, push, take_chars, take_line, take_lines, take_paragraph,
  take_paragraphs, split_message,
}

abbrev Fits : ℕ → Chunks → Type 0
Fits max k = All (λ c. count c ≤ max) k.chunks × (count k.cur ≤ max)

module _ (max : ℕ) where
  All-snoc :
      (xs : List String) (x : String)
      → All (λ c. count c ≤ max) xs
      → count x ≤ max
      → All (λ c. count c ≤ max) (append xs (x ∷ []))
  All-snoc [] x h l = (l, tt)
  All-snoc (y ∷ xs) x h l = (h.0, All-snoc xs x h.1 l)

  flushed-Fits :
      (cur : String) (chunks : List String)
      → Fits max (record { cur = cur; chunks = chunks })
      → Fits max (flush (record { cur = cur; chunks = chunks }))
        × (count (flush (record { cur = cur; chunks = chunks })).cur ≡ 0)
  flushed-Fits String.[] chunks h = (h, length-nil)
  flushed-Fits (String.◌∷◌ c s) chunks h =
      ((All-snoc chunks (String.◌∷◌ c s) h.0 h.1, omega (arith, length-nil)), length-nil)

  flush-Fits : (k : Chunks) → Fits max k → Fits max (flush k) × (count (flush k).cur ≡ 0)
  flush-Fits k h = flushed-Fits k.cur k.chunks h

  push-Fits :
      (s : String) (k : Chunks) → Fits max k → count k.cur + count s ≤ max → Fits max (push s k)
  push-Fits s k h l = (h.0, omega (arith, length-append k.cur s))

  push-flush-Fits :
      (s : String) (k : Chunks)
      → Fits max k
      → leb (count s) max ≡ true
      → Fits max (push s (flush k))
  push-flush-Fits s k h e = let (f, z) = flush-Fits k h in push-Fits s (flush k) f (ground arith)

  push_short-Fits :
      (s : String) (k : Chunks)
      → Fits max k
      → leb (count k.cur + count s) max ≡ true
      → Fits max (push s k)
  push_short-Fits s k h e = push-Fits s k h (ground arith)

  one_char : (c : Char) → count (String.◌∷◌ c "") ≡ 1
  one_char c = omega (arith, length-cons c "", length-nil)

  room-Fits :
      (c : Char) (k : Chunks)
      → 1 ≤ max
      → Fits max k
      → Fits max (push (String.◌∷◌ c "") (if leb max (count k.cur) then flush k else k))
  room-Fits c k l h = elim (Bool-cases (leb max (count k.cur))) [
    | inl e ↦
        let (f, z) = flush-Fits k h in
        rw e (push-Fits (String.◌∷◌ c "") (flush k) f (omega (arith, one_char c)))
    | inr e ↦ rw e (push-Fits (String.◌∷◌ c "") k h (ground (arith, one_char c)))
  ]

  module _ (positive : 1 ≤ max) where
    take_chars-Fits : (s : String) (k : Chunks) → Fits max k → Fits max (take_chars max s k)
    unfolding take_chars
    take_chars-Fits String.[] k h = h
    take_chars-Fits (String.◌∷◌ c s) k h = take_chars-Fits s _ (room-Fits c k positive h)

    take_line-Fits : (s : String) (k : Chunks) → Fits max k → Fits max (take_line max s k)
    unfolding take_line
    take_line-Fits s k h = elim (Bool-cases (leb (count k.cur + count s) max)) [
      | inl e ↦ rw e (push_short-Fits s k h e)
      | inr e ↦ elim (Bool-cases (leb (count s) max)) [
        | inl f ↦ rw e (rw f (push-flush-Fits s k h f))
        | inr f ↦ rw e (rw f (take_chars-Fits s (flush k) (flush-Fits k h).0))
      ]
    ]

    take_lines-Fits : (xs : List String) (k : Chunks) → Fits max k → Fits max (take_lines max xs k)
    unfolding take_lines
    take_lines-Fits [] k h = h
    take_lines-Fits (x ∷ xs) k h = take_lines-Fits xs (take_line max x k) (take_line-Fits x k h)

    take_paragraph-Fits : (s : String) (k : Chunks) → Fits max k → Fits max (take_paragraph max s k)
    unfolding take_paragraph
    take_paragraph-Fits s k h = elim (Bool-cases (leb (count k.cur + count s) max)) [
      | inl e ↦ rw e (push_short-Fits s k h e)
      | inr e ↦ elim (Bool-cases (leb (count s) max)) [
        | inl f ↦ rw e (rw f (push-flush-Fits s k h f))
        | inr f ↦ rw e (rw f (take_lines-Fits (lines s) (flush k) (flush-Fits k h).0))
      ]
    ]

    take_paragraphs-Fits :
        (xs : List String) (k : Chunks) → Fits max k → Fits max (take_paragraphs max xs k)
    unfolding take_paragraphs
    take_paragraphs-Fits [] k h = h
    take_paragraphs-Fits (x ∷ xs) k h =
        take_paragraphs-Fits xs (take_paragraph max x k) (take_paragraph-Fits x k h)

split_message_fits :
    (text : String) (max : ℕ) → 1 ≤ max → All (λ c. count c ≤ max) (split_message text max)
unfolding split_message
split_message_fits text max positive = elim (Bool-cases (leb (count text) max)) [
  | inl e ↦ rw e (ground arith, tt)
  | inr e ↦
      rw e
        (flush-Fits max _ (
          take_paragraphs-Fits max positive (paragraphs false text)
            (record { cur = ""; chunks = [] }) (tt, omega (arith, length-nil)))).0.0
]

-- The chunks of a response put behind each other are the response, so that nothing of it is dropped or
-- moved; and none is longer than the bound, if that is positive.
pub split_message_whole :
    (text : String) (max : ℕ)
    → 1 ≤ max
    → (join (split_message text max) ≡ text) × All (λ c. count c ≤ max) (split_message text max)
split_message_whole text max positive =
    (join-split_message text max, split_message_fits text max positive)
