-- ===== src/Prelude/Chars.antt =====
-- What the program uses of Rust's `str`: texts are walked character by character.
use Prim.Native.Nat.{ℕ, zero, suc, ◌+◌, ◌-◌, ◌*◌}
use Prim.Native.Char.{code, Char}
use Prim.Native.String.{String}
use mathlib.Core.Bool.{Bool, true, false, ◌&&◌, ◌||◌}
use mathlib.Core.List.{List, [], ◌∷◌}
use mathlib.Core.Option.{Option, none, some}
use geodineum_comms.Prelude.Tests.{ltb, leb, eqb, if◌then◌else◌}

-- The Unicode property `White_Space`, on code points.
abbrev pub is_whitespace : ℕ → Bool
is_whitespace c =
    (leb 9 c && leb c 13)
    || (eqb c 32
        || (eqb c 0x85
            || (eqb c 0xa0
                || (eqb c 0x1680
                    || ((leb 0x2000 c && leb c 0x200a)
                        || (eqb c 0x2028
                            || (eqb c 0x2029
                                || (eqb c 0x202f || (eqb c 0x205f || eqb c 0x3000)))))))))

abbrev pub lower_ascii : ℕ → ℕ
lower_ascii c = if leb b'A' c && leb c b'Z' then c + 32 else c

-- `chars()`, as code points
abbrev pub codes : String → List ℕ
codes String.[] = []
codes (String.◌∷◌ c s) = code c ∷ codes s

-- `eq_ignore_ascii_case`
unfoldable pub eq_ignore_ascii_case : String → String → Bool
eq_ignore_ascii_case String.[] String.[] = true
eq_ignore_ascii_case String.[] (String.◌∷◌ d t) = false
eq_ignore_ascii_case (String.◌∷◌ c s) String.[] = false
eq_ignore_ascii_case (String.◌∷◌ c s) (String.◌∷◌ d t) =
    eqb (lower_ascii (code c)) (lower_ascii (code d)) && eq_ignore_ascii_case s t

-- `strip_prefix`
unfoldable pub strip_prefix : String → String → Option String
strip_prefix String.[] s = some s
strip_prefix (String.◌∷◌ c p) String.[] = none
strip_prefix (String.◌∷◌ c p) (String.◌∷◌ d s) =
    if eqb (code c) (code d) then strip_prefix p s else none

-- The text behind the first place where `sep` stands.
unfoldable pub after : String → String → Option String
unfolding strip_prefix
after sep String.[] = strip_prefix sep String.[]
after sep (String.◌∷◌ c s) =
    let rest = after sep s in
    elim (strip_prefix sep (String.◌∷◌ c s)) [ some t ↦ some t | none ↦ rest ]

-- The text before the first place where `sep` stands, or all of it: `split(sep).next()`.
unfoldable pub upto : String → String → String
unfolding strip_prefix
upto sep String.[] = String.[]
upto sep (String.◌∷◌ c s) =
    let rest = upto sep s in
    elim (strip_prefix sep (String.◌∷◌ c s)) [ some t ↦ String.[] | none ↦ String.◌∷◌ c rest ]

abbrev pub upto_option : String → Option String → Option String
upto_option sep none = none
upto_option sep (some s) = some (upto sep s)

-- `split(sep).nth(1)`
unfoldable pub split_second : String → String → Option String
unfolding after upto
split_second sep s = upto_option sep (after sep s)

unfoldable pub trim_start : String → String
trim_start String.[] = String.[]
trim_start (String.◌∷◌ c s) =
    let rest = trim_start s in if is_whitespace (code c) then rest else String.◌∷◌ c s

abbrev pub is_empty_text : String → Bool
is_empty_text String.[] = true
is_empty_text (String.◌∷◌ c s) = false

unfoldable pub trim_end : String → String
trim_end String.[] = String.[]
trim_end (String.◌∷◌ c s) =
    let rest = trim_end s in
    if is_empty_text rest && is_whitespace (code c) then String.[] else String.◌∷◌ c rest

-- `trim`
unfoldable pub trim : String → String
unfolding trim_start trim_end
trim s = trim_end (trim_start s)

-- `chars().all(p)`, on code points
abbrev pub all_codes : (ℕ → Bool) → String → Bool
all_codes p String.[] = true
all_codes p (String.◌∷◌ c s) = p (code c) && all_codes p s

-- `trim_start_matches(c)`
unfoldable pub trim_start_char : ℕ → String → String
trim_start_char k String.[] = String.[]
trim_start_char k (String.◌∷◌ c s) =
    let rest = trim_start_char k s in if eqb (code c) k then rest else String.◌∷◌ c s

-- `trim_end_matches(c)`
unfoldable pub trim_end_char : ℕ → String → String
trim_end_char k String.[] = String.[]
trim_end_char k (String.◌∷◌ c s) =
    let rest = trim_end_char k s in
    if is_empty_text rest && eqb (code c) k then String.[] else String.◌∷◌ c rest

abbrev utf8_width : ℕ → ℕ
utf8_width c = if ltb c 0x80 then 1 else if ltb c 0x800 then 2 else if ltb c 0x10000 then 3 else 4

-- `len()`: the bytes of the text in UTF-8
unfoldable pub byte_length : String → ℕ
byte_length String.[] = 0
byte_length (String.◌∷◌ c s) = utf8_width (code c) + byte_length s

abbrev pub is_digit : ℕ → Bool
is_digit c = leb b'0' c && leb c b'9'

-- The number that decimal digits write, behind the digits read so far.
unfoldable pub decimal_from : ℕ → String → Option ℕ
decimal_from n String.[] = some n
decimal_from n (String.◌∷◌ c s) =
    let rest = decimal_from (n * 10 + (code c - b'0')) s in if is_digit (code c) then rest else none

-- A number of at least one digit, behind an optional `+`: what `parse::<uN>()` reads, but for its bound.
unfoldable pub decimal : String → Option ℕ
unfolding decimal_from
decimal String.[] = none
decimal (String.◌∷◌ c String.[]) = decimal_from 0 (String.◌∷◌ c String.[])
decimal (String.◌∷◌ c (String.◌∷◌ d s)) =
    if eqb (code c) b'+'
    then decimal_from 0 (String.◌∷◌ d s)
    else decimal_from 0 (String.◌∷◌ c (String.◌∷◌ d s))

abbrev pub below : ℕ → Option ℕ → Option ℕ
below bound none = none
below bound (some n) = if ltb n bound then some n else none

abbrev push_word : String × List String → List String
push_word (String.[], ws) = ws
push_word (String.◌∷◌ c w, ws) = String.◌∷◌ c w ∷ ws

-- the word at the start of a text, and the words behind it
abbrev first_word : String → String × List String
first_word String.[] = ("", [])
first_word (String.◌∷◌ c s) =
    let rest = first_word s in
    if is_whitespace (code c) then ("", push_word rest) else (String.◌∷◌ c rest.0, rest.1)

-- `split_whitespace().collect()`
unfoldable pub split_whitespace : String → List String
split_whitespace s = push_word (first_word s)

-- `splitn(2, char::is_whitespace)`: the first part, and the second if there is one
unfoldable pub split_once : String → String × Option String
split_once String.[] = ("", none)
split_once (String.◌∷◌ c s) =
    let rest = split_once s in
    if is_whitespace (code c) then ("", some s) else (String.◌∷◌ c rest.0, rest.1)

abbrev pub is_upper : ℕ → Bool
is_upper c = leb b'A' c && leb c b'Z'

-- `is_ascii_alphanumeric`
abbrev pub is_alphanumeric : ℕ → Bool
is_alphanumeric c = (leb b'a' c && leb c b'z') || (is_upper c || is_digit c)

-- the character at a place of a text, or another one
abbrev char_at : ℕ → String → Char → Char
char_at n String.[] d = d
char_at zero (String.◌∷◌ c s) d = c
char_at (suc n) (String.◌∷◌ c s) d = char_at n s d

abbrev lower_char : Char → Char
lower_char c =
    if is_upper (code c) then char_at (code c - b'A') "abcdefghijklmnopqrstuvwxyz" c else c

-- `to_ascii_lowercase`
unfoldable pub ascii_lowercase : String → String
ascii_lowercase String.[] = ""
ascii_lowercase (String.◌∷◌ c s) = String.◌∷◌ (lower_char c) (ascii_lowercase s)

abbrev upper_char : Char → Char
upper_char c =
    if leb b'a' (code c) && leb (code c) b'z'
    then char_at (code c - b'a') "ABCDEFGHIJKLMNOPQRSTUVWXYZ" c
    else c

-- `to_ascii_uppercase`
unfoldable pub ascii_uppercase : String → String
ascii_uppercase String.[] = ""
ascii_uppercase (String.◌∷◌ c s) = String.◌∷◌ (upper_char c) (ascii_uppercase s)

abbrev before_char : Char → Option (String × String) → Option (String × String)
before_char c none = none
before_char c (some (s, t)) = some (String.◌∷◌ c s, t)

-- `rsplit_once` at a character: what stands before and behind its last place
unfoldable pub rsplit_once : ℕ → String → Option (String × String)
rsplit_once k String.[] = none
rsplit_once k (String.◌∷◌ c s) = elim (rsplit_once k s) [
  | some parts ↦ before_char c (some parts)
  | none ↦ if eqb (code c) k then some ("", s) else none
]

-- `chars().take(n).collect()`
unfoldable pub take_chars : ℕ → String → String
take_chars zero s = ""
take_chars (suc n) String.[] = ""
take_chars (suc n) (String.◌∷◌ c s) = String.◌∷◌ c (take_chars n s)
