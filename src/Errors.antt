-- ===== src/Errors.antt =====
-- src/error.rs: the errors of the program and how they are shown. What another library's error says
-- of itself is a text that the constructor holds.
pub mod Rounds
use Prim.Native.Nat.{ℕ, zero, suc}
use Prim.Native.Char.{code}
use Prim.Native.String.{String, ◌++◌, count}
use geodineum_comms.Prelude.{Bool, ◌&&◌, ◌||◌, Option, none, some, leb, eqb, if◌then◌else◌}
use geodineum_comms.Prelude.Chars.{strip_prefix, after, upto}

pub data CommsError : Type 0 where
  config valkey email telegram sms template serialization http encryption validation rate_limited
        message_not_found site_not_found io internal :
      String → CommsError
  channel : String → String → CommsError

pub data Result {ℓ} (A : Type ℓ) : Type ℓ where
  ok : A → Result A
  err : CommsError → Result A

abbrev pub is_digit : ℕ → Bool
is_digit c = leb b'0' c && leb c b'9'

-- the characters of a bot's secret
abbrev pub is_secret : ℕ → Bool
is_secret c =
    is_digit c
    || ((leb b'a' c && leb c b'z') || ((leb b'A' c && leb c b'Z') || (eqb c b'_' || eqb c b'-')))

unfoldable pub drop_while : (ℕ → Bool) → String → String
drop_while p String.[] = String.[]
drop_while p (String.◌∷◌ c s) =
    let rest = drop_while p s in if p (code c) then rest else String.◌∷◌ c s

-- the loop over `k`: one character of the secret at least
unfoldable pub skip_secret : String → Option String
skip_secret String.[] = none
skip_secret (String.◌∷◌ c s) = if is_secret (code c) then some (drop_while is_secret s) else none

unfoldable pub skip_colon : String → Option String
skip_colon String.[] = none
skip_colon (String.◌∷◌ c s) = if eqb (code c) b':' then skip_secret s else none

-- the loop over `j`, behind "bot": one digit at least, a colon and the secret
unfoldable pub skip_token : String → Option String
unfolding drop_while skip_secret skip_colon
skip_token String.[] = none
skip_token (String.◌∷◌ c s) = if is_digit (code c) then skip_colon (drop_while is_digit s) else none

abbrev pub token_here : Option String → Option String
token_here none = none
token_here (some t) = skip_token t

-- The loop of `scrub_bot_token`, one character or one token in a round.
unfoldable pub scrub_from : ℕ → String → String
unfolding strip_prefix skip_token
scrub_from zero s = s
scrub_from (suc fuel) String.[] = String.[]
scrub_from (suc fuel) (String.◌∷◌ c s) = elim (token_here (strip_prefix "bot" (String.◌∷◌ c s))) [
  | some rest ↦ "bot<redacted>" ++ scrub_from fuel rest
  | none ↦ String.◌∷◌ c (scrub_from fuel s)
]

-- Each round takes a character at least, so as many rounds as characters are enough.
unfoldable pub scrub_bot_token : String → String
unfolding scrub_from
scrub_bot_token s = scrub_from (count s) s

abbrev pub cut_url : String → Option String → String
cut_url s none = s
cut_url s (some t) = upto " for url" s ++ " (url redacted)"

-- `scrub_reqwest_url`, on what the error says of itself
unfoldable pub scrub_reqwest_url : String → String
unfolding after upto
scrub_reqwest_url s = cut_url s (after " for url" s)

-- `Display` of `CommsError`
unfoldable pub to_string : CommsError → String
unfolding scrub_bot_token scrub_reqwest_url
to_string (config s) = "Configuration error: " ++ s
to_string (valkey s) = "ValKey connection error: " ++ s
to_string (channel c s) = "Channel error [" ++ c ++ "]: " ++ s
to_string (email s) = "Email error: " ++ s
to_string (telegram s) = "Telegram error: " ++ scrub_bot_token s
to_string (sms s) = "SMS error: " ++ s
to_string (template s) = "Template error: " ++ s
to_string (serialization s) = "Serialization error: " ++ s
to_string (http s) = "HTTP error: " ++ scrub_reqwest_url s
to_string (encryption s) = "Encryption error: " ++ s
to_string (validation s) = "Validation error: " ++ s
to_string (rate_limited s) = "Rate limit exceeded for channel: " ++ s
to_string (message_not_found s) = "Message not found: " ++ s
to_string (site_not_found s) = "Site not found: " ++ s
to_string (io s) = "IO error: " ++ s
to_string (internal s) = "Internal error: " ++ s

pub record DispatchError : Type 0 where
  pub channel : String
  pub error : CommsError
  pub retryable : Bool
