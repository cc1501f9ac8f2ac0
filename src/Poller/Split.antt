-- ===== src/Poller/Split.antt =====
-- The chunks that src/inbound/response_poller.rs cuts a response into.
use Prim.Native.Char.{Char}
use Prim.Native.String.{String, ◌++◌, count}
use text.Mathlib.TextLemmas.{nil-append, cons-append, append-nil, append_assoc}
use geodineum_comms.Prelude.{
  ℕ, ◌+◌, ◌≡◌, refl, sym, ap, ◌∙◌, Bool, true, false, not, ◌&&◌, Bool-cases, inl, inr, List, [],
  ◌∷◌, leb, if◌then◌else◌,
}
use geodineum_comms.Prelude.Lists.{append}
use geodineum_comms.Poller.{
  Chunks, is_newline, put, lines, paragraphs, flush, push, take_chars, take_line, take_lines,
  take_paragraph, take_paragraphs, split_message,
}

-- The chunks one behind the other.
abbrev pub join : List String → String
join [] = ""
join (x ∷ xs) = x ++ join xs

abbrev text_of : Chunks → String
text_of k = join k.chunks ++ k.cur

join-snoc : (xs : List String) (x : String) → join (append xs (x ∷ [])) ≡ join xs ++ x
join-snoc [] x = append-nil x ∙ sym (nil-append x)
join-snoc (y ∷ xs) x = ap (λ t. y ++ t) (join-snoc xs x) ∙ sym (append_assoc y (join xs) x)

join-put : (b : Bool) (c : Char) (xs : List String) → join (put b c xs) ≡ String.◌∷◌ c (join xs)
join-put true c xs =
    cons-append c "" (join xs) ∙ ap (λ (t : String). String.◌∷◌ c t) (nil-append (join xs))
join-put false c [] = append-nil (String.◌∷◌ c "")
join-put false c (x ∷ xs) = cons-append c x (join xs)

join-lines : (s : String) → join (lines s) ≡ s
unfolding lines
join-lines String.[] = refl
join-lines (String.◌∷◌ c s) =
    join-put (is_newline c) c (lines s) ∙ ap (λ (t : String). String.◌∷◌ c t) (join-lines s)

join-paragraphs : (half : Bool) (s : String) → join (paragraphs half s) ≡ s
unfolding paragraphs
join-paragraphs half String.[] = refl
join-paragraphs half (String.◌∷◌ c s) =
    join-put (half && is_newline c) c (paragraphs (not half && is_newline c) s)
    ∙ ap (λ (t : String). String.◌∷◌ c t) (join-paragraphs (not half && is_newline c) s)

flushed-text :
    (cur : String) (chunks : List String)
    → text_of (flush (record { cur = cur; chunks = chunks })) ≡ join chunks ++ cur
flushed-text String.[] chunks = refl
flushed-text (String.◌∷◌ c s) chunks =
    append-nil (join (append chunks (String.◌∷◌ c s ∷ []))) ∙ join-snoc chunks (String.◌∷◌ c s)

flush-text : (k : Chunks) → text_of (flush k) ≡ text_of k
flush-text k = flushed-text k.cur k.chunks

push-text : (s : String) (k : Chunks) → text_of (push s k) ≡ text_of k ++ s
push-text s k = sym (append_assoc (join k.chunks) k.cur s)

push-flush-text : (s : String) (k : Chunks) → text_of (push s (flush k)) ≡ text_of k ++ s
push-flush-text s k = push-text s (flush k) ∙ ap (λ t. t ++ s) (flush-text k)

room-text : (b : Bool) (k : Chunks) → text_of (if b then flush k else k) ≡ text_of k
room-text true k = flush-text k
room-text false k = refl

module _ (max : ℕ) where
  take_chars-text : (s : String) (k : Chunks) → text_of (take_chars max s k) ≡ text_of k ++ s
  unfolding take_chars
  take_chars-text String.[] k = sym (append-nil (text_of k))
  take_chars-text (String.◌∷◌ c s) k =
      let room = if leb max (count k.cur) then flush k else k in
      take_chars-text s (push (String.◌∷◌ c "") room)
      ∙ (ap (λ t. t ++ s)
            (push-text (String.◌∷◌ c "") room
              ∙ ap (λ t. t ++ String.◌∷◌ c "") (room-text (leb max (count k.cur)) k))
          ∙ (append_assoc (text_of k) (String.◌∷◌ c "") s
              ∙ ap (λ t. text_of k ++ t)
                  (cons-append c "" s ∙ ap (λ (t : String). String.◌∷◌ c t) (nil-append s))))

  take_line-text : (s : String) (k : Chunks) → text_of (take_line max s k) ≡ text_of k ++ s
  unfolding take_line
  take_line-text s k = elim (Bool-cases (leb (count k.cur + count s) max)) [
    | inl e ↦ rw e (push-text s k)
    | inr e ↦ elim (Bool-cases (leb (count s) max)) [
      | inl f ↦ rw e (rw f (push-flush-text s k))
      | inr f ↦ rw e (rw f (take_chars-text s (flush k) ∙ ap (λ t. t ++ s) (flush-text k)))
    ]
  ]

  take_lines-text :
      (xs : List String) (k : Chunks) → text_of (take_lines max xs k) ≡ text_of k ++ join xs
  unfolding take_lines
  take_lines-text [] k = sym (append-nil (text_of k))
  take_lines-text (x ∷ xs) k =
      take_lines-text xs (take_line max x k)
      ∙ (ap (λ t. t ++ join xs) (take_line-text x k) ∙ append_assoc (text_of k) x (join xs))

  take_paragraph-text :
      (s : String) (k : Chunks) → text_of (take_paragraph max s k) ≡ text_of k ++ s
  unfolding take_paragraph
  take_paragraph-text s k = elim (Bool-cases (leb (count k.cur + count s) max)) [
    | inl e ↦ rw e (push-text s k)
    | inr e ↦ elim (Bool-cases (leb (count s) max)) [
      | inl f ↦ rw e (rw f (push-flush-text s k))
      | inr f ↦ rw e (
          rw f (
            take_lines-text (lines s) (flush k)
            ∙ (ap (λ t. t ++ join (lines s)) (flush-text k)
                ∙ ap (λ t. text_of k ++ t) (join-lines s))))
    ]
  ]

  take_paragraphs-text :
      (xs : List String) (k : Chunks) → text_of (take_paragraphs max xs k) ≡ text_of k ++ join xs
  unfolding take_paragraphs
  take_paragraphs-text [] k = sym (append-nil (text_of k))
  take_paragraphs-text (x ∷ xs) k =
      take_paragraphs-text xs (take_paragraph max x k)
      ∙ (ap (λ t. t ++ join xs) (take_paragraph-text x k) ∙ append_assoc (text_of k) x (join xs))

flushed-join :
    (cur : String) (chunks : List String)
    → join (flush (record { cur = cur; chunks = chunks })).chunks ≡ join chunks ++ cur
flushed-join String.[] chunks = sym (append-nil (join chunks))
flushed-join (String.◌∷◌ c s) chunks = join-snoc chunks (String.◌∷◌ c s)

split-join :
    (max : ℕ) (text : String)
    → join
        (flush
          (take_paragraphs max (paragraphs false text) (record { cur = ""; chunks = [] }))).chunks
      ≡ text
split-join max text =
    let k = take_paragraphs max (paragraphs false text) (record { cur = ""; chunks = [] }) in
    flushed-join k.cur k.chunks
    ∙ (take_paragraphs-text max (paragraphs false text) (record { cur = ""; chunks = [] })
        ∙ (ap (λ t. t ++ join (paragraphs false text)) (nil-append "")
            ∙ (nil-append (join (paragraphs false text)) ∙ join-paragraphs false text)))

pub join-split_message : (text : String) (max : ℕ) → join (split_message text max) ≡ text
unfolding split_message
join-split_message text max = elim (Bool-cases (leb (count text) max)) [
  | inl e ↦ rw e (append-nil text)
  | inr e ↦ rw e (split-join max text)
]
