-- ===== src/TgEscape.antt =====
-- src/templates/tg_escape.rs: plain text for Telegram's MarkdownV2.
pub mod Readable
use Prim.Native.Char.{code, Char}
use Prim.Native.String.{String}
use geodineum_comms.Prelude.{
  ℕ, ◌≡◌, refl, sym, ap, Bool, true, false, not, ◌||◌, ◌&&◌, Bool-cases, inl, inr, Option, none,
  some, List, [], ◌∷◌, any, eqb, arith, if◌then◌else◌,
}
use geodineum_comms.Prelude.Chars.{all_codes}

abbrev pub markdown_v2_specials : List ℕ
markdown_v2_specials =
    b'_' ∷ b'*' ∷ b'[' ∷ b']' ∷ b'(' ∷ b')' ∷ b'~' ∷ b'`' ∷ b'>' ∷ b'#' ∷ b'+' ∷ b'-' ∷ b'=' ∷ b'|'
    ∷ b'{' ∷ b'}' ∷ b'.' ∷ b'!' ∷ []

unfoldable pub is_special : ℕ → Bool
is_special c = any (λ k. eqb k c) markdown_v2_specials

unfoldable pub escape_markdown_v2 : String → String
escape_markdown_v2 String.[] = ""
escape_markdown_v2 (String.◌∷◌ c s) =
    let rest = String.◌∷◌ c (escape_markdown_v2 s) in
    if is_special (code c) then String.◌∷◌ "\\" rest else rest

-- a JSON value of a template, with the text that Tera prints it as
pub data Value : Type 0 where
  text printed : String → Value

unfoldable pub tg_escape_filter : Value → Value
tg_escape_filter (text s) = text (escape_markdown_v2 s)
tg_escape_filter (printed s) = text (escape_markdown_v2 s)
