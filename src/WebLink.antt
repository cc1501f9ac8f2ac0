-- ===== src/WebLink.antt =====
-- src/inbound/web_link.rs, as far as the dispatcher uses it: which Telegram chat a site's web
-- subscriber is linked to (WebLink/Linking has the rest). A key that is missing and one whose JSON does not decode are both absent,
-- as `get_json` has it, and so is every key while ValKey does not answer.
pub mod Linking
pub mod Identity
pub mod Spent
use Prim.Native.String.{String, ◌++◌}
use Prim.Native.Char.{code}
use geodineum_comms.Prelude.{
  ℕ, zero, suc, ◌==◌, eq_iff, ◌≡◌, refl, inl, inr, Bool-cases, Bool, true, false, not, ◌&&◌, ◌||◌,
  Option, none, some, arith, leb, eqb, if◌then◌else◌,
}
use geodineum_comms.Prelude.Chars.{is_empty_text}
use geodineum_comms.Prelude.Dict.{Dict, lookup}

pub record WebLink : Type 0 where
  pub site : String
  pub consumer : String
  pub chat : String
  pub at_ms : ℕ  -- i64, a time

pub record Route : Type 0 where
  pub consumer : String
  pub lane : String
  pub pipeline : String
  pub session_id : String
  pub system : Option String
  pub system_mode : Option String
  pub system_name : Option String
  pub operator : Option String
  pub chat : Option String

pub record Links : Type 0 where
  pub routes : Dict Route
  pub webs : Dict WebLink
  pub up : Bool  -- whether ValKey answers

unfoldable pub route_key : String → String → String
route_key site consumer = "{" ++ site ++ "}:gnode:comms:tg:" ++ consumer

unfoldable pub web_key : String → String → String
web_key link_site operator = "{" ++ link_site ++ "}:gnode:comms:web:" ++ operator

abbrev pub is_hex : ℕ → Bool
is_hex c = (leb b'0' c && leb c b'9') || (leb b'a' c && leb c b'f')

abbrev pub is_lower : ℕ → Bool
is_lower c = leb b'a' c && leb c b'z'

-- `[0-9a-f]{n}$`
unfoldable pub hex_digits : ℕ → String → Bool
hex_digits zero s = is_empty_text s
hex_digits (suc n) String.[] = false
hex_digits (suc n) (String.◌∷◌ c s) = is_hex (code c) && hex_digits n s

-- `[a-z]*:[0-9a-f]{16}$`
unfoldable pub more_letters : String → Bool
unfolding hex_digits
more_letters String.[] = false
more_letters (String.◌∷◌ c s) =
    let rest = more_letters s in
    if eqb (code c) b':' then hex_digits 16 s else is_lower (code c) && rest

-- `CONSUMER_RE`
unfoldable pub is_consumer : String → Bool
unfolding more_letters
is_consumer String.[] = false
is_consumer (String.◌∷◌ c s) = is_lower (code c) && more_letters s

abbrev pub get_json {ℓ} : {A : Type ℓ} → Bool → Dict A → String → Option A
get_json up m key = if up then lookup key m else none

abbrev pub chat_of : String → String → Option WebLink → Option String
chat_of site consumer none = none
chat_of site consumer (some web) =
    if web.site == site && (web.consumer == consumer && not (is_empty_text web.chat))
    then some web.chat
    else none

abbrev pub operator_of : Option Route → Option String
operator_of none = none
operator_of (some r) = r.operator

abbrev pub web_of : Links → String → Option String → Option WebLink
web_of l link_site none = none
web_of l link_site (some operator) = get_json l.up l.webs (web_key link_site operator)

unfoldable pub chat_for : Links → String → String → String → Option String
chat_for l link_site site consumer =
    if is_consumer consumer
    then chat_of site consumer
        (web_of l link_site (operator_of (get_json l.up l.routes (route_key site consumer))))
    else none

-- COMMS's own record of an account names the site, the consumer and the chat.
pub record IsLinked (l : Links) (link_site site consumer chat : String) : Type 0 where
  pub operator : String
  pub web : WebLink
  pub kept : lookup (web_key link_site operator) l.webs ≡ some web
  pub of_site : web.site ≡ site
  pub of_consumer : web.consumer ≡ consumer
  pub of_chat : web.chat ≡ chat

chat_of_lem :
    (site consumer : String) (web : WebLink) (chat : String)
    → chat_of site consumer (some web) ≡ some chat
    → (web.site ≡ site) × (web.consumer ≡ consumer) × (web.chat ≡ chat)
chat_of_lem site consumer web chat h =
    ground (arith, eq_iff web.site site, eq_iff web.consumer consumer)

web_owned :
    (l : Links) (link_site site consumer chat operator : String) (web : Option WebLink)
    → get_json l.up l.webs (web_key link_site operator) ≡ web
    → chat_of site consumer web ≡ some chat
    → IsLinked l link_site site consumer chat
web_owned l link_site site consumer chat operator none e h = cc
web_owned l link_site site consumer chat operator (some web) e h =
    let (s, c, t) = chat_of_lem site consumer web chat h in
    record {
      operator = operator;
      web = web;
      kept = ground arith;
      of_site = s;
      of_consumer = c;
      of_chat = t;
    }

operator_owned :
    (l : Links) (link_site site consumer chat : String) (o : Option String)
    → chat_of site consumer (web_of l link_site o) ≡ some chat
    → IsLinked l link_site site consumer chat
operator_owned l link_site site consumer chat none h = cc
operator_owned l link_site site consumer chat (some operator) h =
    web_owned l link_site site consumer chat operator _ refl h

-- A chat is given only for a well-formed consumer, and only where COMMS's own record of some account
-- names this site, this consumer and this chat.
pub chat_for_owned :
    (l : Links) (link_site site consumer chat : String)
    → chat_for l link_site site consumer ≡ some chat
    → (is_consumer consumer ≡ true) × IsLinked l link_site site consumer chat
unfolding chat_for
chat_for_owned l link_site site consumer chat h = elim (Bool-cases (is_consumer consumer)) [
  | inl good ↦ (good, operator_owned l link_site site consumer chat _ (rw good at h))
  | inr bad ↦ absurd (bad_case (rw bad at h))
]
  where
    bad_case : none ≡ some chat → ⊥
    bad_case e = cc
