-- ===== src/Poller.antt =====
-- src/inbound/response_poller.rs: how a response is cut into chunks that Telegram takes (split_message)
-- and what is shown of it (strip_thinking).
pub mod Split
pub mod Fits
pub mod Thinking
use Prim.Native.Char.{code, Char}
use Prim.Native.String.{String, ◌++◌, count}
use geodineum_comms.Prelude.{
  ℕ, zero, suc, Option, none, some, ◌+◌, Bool, true, false, not, ◌&&◌, List, [], ◌∷◌, eqb, leb,
  if◌then◌else◌,
}
use geodineum_comms.Prelude.Lists.{append}
use geodineum_comms.Prelude.Chars.{is_empty_text, upto, after, strip_prefix, trim}

abbrev pub is_newline : Char → Bool
is_newline c = eqb (code c) b'\n'

abbrev pub push_first : Char → List String → List String
push_first c [] = String.◌∷◌ c String.[] ∷ []
push_first c (x ∷ xs) = String.◌∷◌ c x ∷ xs

-- The pieces of a text with `c` before them, which ends a piece of its own or belongs to the first.
abbrev pub put : Bool → Char → List String → List String
put true c pieces = String.◌∷◌ c String.[] ∷ pieces
put false c pieces = push_first c pieces

-- `split_inclusive('\n')`
unfoldable pub lines : String → List String
lines String.[] = []
lines (String.◌∷◌ c s) = put (is_newline c) c (lines s)

-- `split_inclusive("\n\n")`; whether the character before is the first newline of two
unfoldable pub paragraphs : Bool → String → List String
paragraphs half String.[] = []
paragraphs half (String.◌∷◌ c s) =
    put (half && is_newline c) c (paragraphs (not half && is_newline c) s)

-- The variables of split_message: the chunk that grows, and those that are done.
pub record Chunks : Type 0 where
  pub cur : String
  pub chunks : List String

abbrev pub flush : Chunks → Chunks
flush k =
    if is_empty_text k.cur
    then k
    else record { cur = String.[]; chunks = append k.chunks (k.cur ∷ []) }

abbrev pub push : String → Chunks → Chunks
push s k = record k { cur = k.cur ++ s }

unfoldable pub take_chars : ℕ → String → Chunks → Chunks
take_chars max String.[] k = k
take_chars max (String.◌∷◌ c s) k =
    take_chars max s (push (String.◌∷◌ c String.[]) (if leb max (count k.cur) then flush k else k))

unfoldable pub take_line : ℕ → String → Chunks → Chunks
take_line max line k =
    if leb (count k.cur + count line) max
    then push line k
    else if leb (count line) max
    then push line (flush k)
    else take_chars max line (flush k)

unfoldable pub take_lines : ℕ → List String → Chunks → Chunks
take_lines max [] k = k
take_lines max (line ∷ rest) k = take_lines max rest (take_line max line k)

unfoldable pub take_paragraph : ℕ → String → Chunks → Chunks
take_paragraph max para k =
    if leb (count k.cur + count para) max
    then push para k
    else if leb (count para) max
    then push para (flush k)
    else take_lines max (lines para) (flush k)

unfoldable pub take_paragraphs : ℕ → List String → Chunks → Chunks
take_paragraphs max [] k = k
take_paragraphs max (para ∷ rest) k = take_paragraphs max rest (take_paragraph max para k)

unfoldable pub split_message : String → ℕ → List String
split_message text max =
    if leb (count text) max
    then text ∷ []
    else let k =
        flush
          (take_paragraphs max (paragraphs false text) (record { cur = String.[]; chunks = [] })) in
      k.chunks

-- `site_prefix`
unfoldable pub site_prefix : String → String
site_prefix unified_stream = upto ":gnode:" unified_stream

abbrev pub behind : String → Option String → Option (Option String)
behind close none = none
behind close (some t) = some (after close t)

-- The text behind a trace of reasoning that starts here, if it is closed.
abbrev pub trace_here : String → Option (Option String)
trace_here s = elim (behind "</think>" (strip_prefix "<think>" s)) [
  | some found ↦ some found
  | none ↦ behind "</thinking>" (strip_prefix "<thinking>" s)
]

-- The loop of strip_thinking, one character or one trace in a round.
unfoldable pub strip_from : ℕ → String → String
strip_from zero s = ""
strip_from (suc fuel) String.[] = ""
strip_from (suc fuel) (String.◌∷◌ c s) = elim (trace_here (String.◌∷◌ c s)) [
  | none ↦ String.◌∷◌ c (strip_from fuel s)
  | some found ↦ elim found [ none ↦ "" | some rest ↦ strip_from fuel rest ]
]

unfoldable pub strip_thinking : String → String
strip_thinking text = trim (strip_from (count text) text)
