-- ===== src/TgEscape/Readable.antt =====
-- What Telegram reads in the texts that src/templates/tg_escape.rs escapes. Telegram is a parameter: what
-- its documentation says of the reading of MarkdownV2.
use Prim.Native.Char.{code, Char}
use Prim.Native.String.{String}
use geodineum_comms.Prelude.{
  ℕ, ◌≡◌, ◌≤◌, ap, ◌∙◌, Bool, true, false, not, Bool-cases, inl, inr, Option, none, some, eqb,
  arith, any, [], ◌∷◌,
}
use geodineum_comms.Prelude.Chars.{all_codes}
use geodineum_comms.TgEscape.{is_special, escape_markdown_v2}

-- The characters of which Telegram's documentation says that they must be escaped.
unfoldable pub is_reserved : ℕ → Bool
is_reserved c =
    any (λ k. eqb k c)
      (95 ∷ 42 ∷ 91 ∷ 93 ∷ 40 ∷ 41 ∷ 126 ∷ 96 ∷ 62 ∷ 35 ∷ 43 ∷ 45 ∷ 61 ∷ 124 ∷ 123 ∷ 125 ∷ 46 ∷ 33
        ∷ [])

abbrev pub cons : Char → Option String → Option String
cons c none = none
cons c (some s) = some (String.◌∷◌ c s)

-- What is documented of the reading of a message; `none` is a message with markup or an error.
pub record IsReader (read : String → Option String) : Type 0 where
  pub empty : read "" ≡ some ""
  pub plain :
      (c : Char) (s : String)
      → is_reserved (code c) ≡ false
      → eqb (code c) b'\\' ≡ false
      → read (String.◌∷◌ c s) ≡ cons c (read s)
  pub escaped :
      (c : Char) (s : String)
      → 1 ≤ code c
      → code c ≤ 126
      → read (String.◌∷◌ "\\" (String.◌∷◌ c s)) ≡ cons c (read s)

abbrev pub no_backslash : ℕ → Bool
no_backslash c = not (eqb c b'\\')

-- What is escaped may be, and what is not need not be.
special_range : (c : ℕ) → is_special c ≡ true → (1 ≤ c) × (c ≤ 126)
unfolding is_special
special_range c h = ground arith

plain_unreserved : (c : ℕ) → is_special c ≡ false → is_reserved c ≡ false
unfolding is_special is_reserved
plain_unreserved c h = h

plain_first :
    (c : Char) (s : String)
    → all_codes no_backslash (String.◌∷◌ c s) ≡ true
    → (eqb (code c) b'\\' ≡ false) × (all_codes no_backslash s ≡ true)
plain_first c s h = ground arith

module _ (read : String → Option String) (reader : IsReader read) where
  read_one :
      (c : Char) (s : String)
      → eqb (code c) b'\\' ≡ false
      → read (escape_markdown_v2 (String.◌∷◌ c s)) ≡ cons c (read (escape_markdown_v2 s))
  unfolding escape_markdown_v2
  read_one c s k = elim (Bool-cases (is_special (code c))) [
    | inl h ↦
        let (low, high) = special_range (code c) h in
        rw h (reader.escaped c (escape_markdown_v2 s) low high)
    | inr h ↦ rw h (reader.plain c (escape_markdown_v2 s) (plain_unreserved (code c) h) k)
  ]

  -- If Telegram reads MarkdownV2 as documented, it reads an escaped text as the text itself, where that
  -- has no backslash.
  pub escape_markdown_v2_readable :
      (s : String) → all_codes no_backslash s ≡ true → read (escape_markdown_v2 s) ≡ some s
  escape_markdown_v2_readable String.[] h = unfold escape_markdown_v2 in reader.empty
  escape_markdown_v2_readable (String.◌∷◌ c s) h =
      let (k, hs) = plain_first c s h in
      read_one c s k ∙ ap (cons c) (escape_markdown_v2_readable s hs)
