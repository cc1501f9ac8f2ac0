-- ===== src/WebLink/Linking.antt =====
-- The linking of a Telegram account to a site's subscriber, of src/inbound/web_link.rs. While ValKey does
-- not answer (`up`), nothing is read; each write succeeds or fails on its own (`Saves`), which the source does
-- not look at. The expiry of an answered code is left out.
use Prim.Native.Char.{code}
use Prim.Native.String.{String, ◌++◌, count}
use geodineum_comms.Prelude.{
  ℕ, zero, suc, ◌+◌, ◌==◌, Bool, true, false, not, ◌&&◌, ◌||◌, Option, none, some, List, [], ◌∷◌,
  keep, ltb, leb, eqb, if◌then◌else◌,
}
use geodineum_comms.Prelude.Texts.{contains}
use geodineum_comms.Prelude.Dict.{Dict, lookup, insert, remove, contains_key, is_some, or_else}
use geodineum_comms.Prelude.Chars.{
  split_whitespace, upto, trim, all_codes, is_alphanumeric, is_digit, is_upper, byte_length,
  ascii_uppercase, rsplit_once, take_chars,
}
use geodineum_comms.WebLink.{
  WebLink, Route, Links, route_key, web_key, is_consumer, hex_digits, is_lower, get_json,
}

abbrev pub prompt_max : ℕ
prompt_max = 8_000

abbrev pub per_hour : ℕ
per_hour = 60

abbrev is_name_code : ℕ → Bool
is_name_code c = is_lower c || (is_digit c || eqb c b'_')

-- `SITE_RE`
unfoldable pub is_site : String → Bool
is_site String.[] = false
is_site (String.◌∷◌ c s) =
    is_lower (code c) && (leb 1 (count s) && (leb (count s) 62 && all_codes is_name_code s))

abbrev is_code_code : ℕ → Bool
is_code_code c = is_upper c || (leb b'2' c && leb c b'9')

-- `CODE_RE`
unfoldable pub is_code : String → Bool
is_code s = eqb (count s) 10 && all_codes is_code_code s

-- `[a-z0-9_]{0,n}(\.[0-9a-f]{8})?$`
unfoldable pub lane_rest : ℕ → String → Bool
lane_rest n String.[] = true
lane_rest zero (String.◌∷◌ c s) = eqb (code c) b'.' && hex_digits 8 s
lane_rest (suc n) (String.◌∷◌ c s) =
    let rest = lane_rest n s in
    if eqb (code c) b'.' then hex_digits 8 s else is_name_code (code c) && rest

-- `LANE_RE`
unfoldable pub is_lane : String → Bool
is_lane String.[] = false
is_lane (String.◌∷◌ c s) = is_lower (code c) && lane_rest 48 s

abbrev pub link_of : Option (String × String) → Option (String × String)
link_of none = none
link_of (some (site, code_text)) =
    if is_site site && is_code (ascii_uppercase code_text)
    then some (site, ascii_uppercase code_text)
    else none

abbrev pub linked_words : List String → Option (String × String)
linked_words [] = none
linked_words (cmd ∷ []) = none
linked_words (cmd ∷ payload ∷ []) =
    if upto "@" cmd == "/start" || upto "@" cmd == "/link"
    then link_of (rsplit_once b'-' payload)
    else none
linked_words (cmd ∷ payload ∷ more ∷ rest) = none

unfoldable pub parse_link : String → Option (String × String)
parse_link text = linked_words (split_whitespace text)

abbrev pub has_space : String → Bool
has_space String.[] = false
has_space (String.◌∷◌ c s) = eqb (code c) b' ' || has_space s

unfoldable pub is_unlink : String → Bool
is_unlink text = upto "@" (trim text) == "/unlink" && not (has_space (trim text))

unfoldable pub link_key : String → String → String
link_key site code_text = "{" ++ site ++ "}:gnode:comms:link:" ++ code_text

abbrev is_session_code : ℕ → Bool
is_session_code c = is_alphanumeric c || (eqb c b'_' || eqb c b'-')

-- `Route::valid`
unfoldable pub valid : String → Route → Bool
valid consumer r =
    r.consumer == consumer
    && (is_consumer r.consumer
        && (is_lane r.lane
            && (is_site r.pipeline
                && (leb (byte_length r.session_id) 64 && all_codes is_session_code r.session_id))))

unfoldable pub prompt_params : Option String → Option String → Option String → String → Dict String
prompt_params none mode name prompt = ("prompt", prompt) ∷ []
prompt_params (some system) mode name prompt =
    if or_else mode "" == "prefixed"
    then ("prompt", "[" ++ or_else name "preset" ++ "]\n" ++ system ++ "\n\n---\n\n" ++ prompt) ∷ []
    else ("prompt", prompt) ∷ ("system", system) ∷ []

-- The parameters of `command_fields`, as a JSON object of texts.
abbrev pub params_of : Route → String → Dict String
params_of route prompt =
    ("pipeline", route.pipeline)
    ∷ ("consumer", route.consumer)
    ∷ ("session_id", route.session_id)
    ∷ prompt_params route.system route.system_mode route.system_name (take_chars prompt_max prompt)

-- `to_json` prints an object; `ts` is the time as a text.
unfoldable pub command_fields :
    (Dict String → String)
    → String
    → String
    → Route
    → String
    → String
    → String
    → List (String × String)
command_fields to_json site node route prompt request_id ts =
    ("t", "c")
    ∷ ("c", "direct")
    ∷ ("p", to_json (params_of route prompt))
    ∷ ("id", request_id)
    ∷ ("ss", site)
    ∷ ("sn", node)
    ∷ ("ts", ts)
    ∷ ("_rt", "geodine")
    ∷ ("via", "telegram")
    ∷ ("cs", route.consumer)
    ∷ ("lane", route.lane)
    ∷ []

unfoldable pub site_stream : String → String → String
site_stream site environment = "{" ++ site ++ "}:gnode:unified:" ++ environment

-- The site's code, or COMMS's answer to it.
pub record Code : Type 0 where
  pub consumer : String
  pub expires_ms : ℕ
  pub state : Option String

-- All that the linking keeps in ValKey; `unreadable` has the keys whose value is no record.
pub record Book : Type 0 where
  pub links : Links
  pub codes : Dict Code
  pub rates : Dict ℕ
  pub unreadable : List String

unfoldable pub is_linked : Book → String → String → Bool
is_linked b link_site operator =
    let key = web_key link_site operator in
    b.links.up && (contains_key key b.links.webs || contains key b.unreadable)

pub data LinkOutcome : Type 0 where
  linked : (site lane : String) → LinkOutcome
  expired : LinkOutcome

-- Which writes of one call ValKey carries out: to the route of an old link, and to the account's record,
-- its route and its code.
pub record Saves : Type 0 where
  pub old_route : Bool
  pub web : Bool
  pub route : Bool
  pub answer : Bool

abbrev pub is_spent : ℕ → Code → Bool
is_spent now_ms c =
    is_some c.state
    || ((ltb 0 c.expires_ms && ltb c.expires_ms now_ms) || not (is_consumer c.consumer))

-- The route of the account's old link goes, if that was to another subscriber.
abbrev pub without_old : String → String → Option WebLink → Dict Route → Dict Route
without_old site consumer none routes = routes
without_old site consumer (some old) routes =
    if not (old.site == site) || not (old.consumer == consumer)
    then remove (route_key old.site old.consumer) routes
    else routes

abbrev pub new_link : String → String → String → ℕ → WebLink
new_link site consumer chat now_ms = record {
  site = site;
  consumer = consumer;
  chat = chat;
  at_ms = now_ms;
}

abbrev pub answered : String → Code
answered consumer = record { consumer = consumer; expires_ms = 0; state = some "linked" }

-- The deletion and the three records of a spent code, as far as ValKey carries them out.
abbrev pub linking :
    Saves → String → String → String → String → String → ℕ → String → Route → Book → Book
linking saves link_site site code_text operator chat now_ms consumer route b =
    let key = web_key link_site operator in
    let old = lookup key b.links.webs in
    let routes =
      if saves.old_route then without_old site consumer old b.links.routes else b.links.routes in
    record b {
      links = record b.links {
        webs =
            if saves.web
            then insert key (new_link site consumer chat now_ms) b.links.webs
            else b.links.webs;
        routes =
            if saves.route
            then insert (route_key site consumer)
                (record route { operator = some operator; chat = some chat }) routes
            else routes;
      };
      unreadable = if saves.web then keep (λ k. not (k == key)) b.unreadable else b.unreadable;
      codes =
          if saves.answer
          then insert (link_key site code_text) (answered consumer) b.codes
          else b.codes;
    }

abbrev pub link_route :
    Saves
    → String
    → String
    → String
    → String
    → String
    → ℕ
    → String
    → Option Route
    → Book
    → Book × LinkOutcome
link_route saves link_site site code_text operator chat now_ms consumer none b = (b, expired)
link_route saves link_site site code_text operator chat now_ms consumer (some route) b =
    if valid consumer route
    then (
      linking saves link_site site code_text operator chat now_ms consumer route b,
      linked site route.lane,
    )
    else (b, expired)

abbrev pub link_code :
    Saves → String → String → String → String → String → ℕ → Option Code → Book → Book × LinkOutcome
link_code saves link_site site code_text operator chat now_ms none b = (b, expired)
link_code saves link_site site code_text operator chat now_ms (some c) b =
    if is_spent now_ms c
    then (b, expired)
    else link_route saves link_site site code_text operator chat now_ms c.consumer
        (get_json b.links.up b.links.routes (route_key site c.consumer)) b

unfoldable pub link :
    Saves → String → String → String → String → String → ℕ → Book → Book × LinkOutcome
link saves link_site site code_text operator chat now_ms b =
    link_code saves link_site site code_text operator chat now_ms
      (get_json b.links.up b.codes (link_key site code_text)) b

-- `Some(Ok(..))`, `Some(Err(..))` and `None`
pub data Resolved : Type 0 where
  routed : WebLink → Route → Resolved
  unlinked : WebLink → Resolved
  unknown : Resolved

abbrev pub is_operator : String → Option String → Bool
is_operator operator none = false
is_operator operator (some o) = o == operator

abbrev pub without_web : Saves → String → Book → Book
without_web saves key b =
    if saves.web then record b { links = record b.links { webs = remove key b.links.webs } } else b

abbrev pub resolve_route : Saves → String → String → WebLink → Option Route → Book → Book × Resolved
resolve_route saves key operator web none b = (without_web saves key b, unlinked web)
resolve_route saves key operator web (some r) b =
    if valid web.consumer r && is_operator operator r.operator
    then (b, routed web r)
    else (without_web saves key b, unlinked web)

abbrev pub resolve_web : Saves → String → String → Option WebLink → Book → Book × Resolved
resolve_web saves key operator none b = (b, unknown)
resolve_web saves key operator (some web) b =
    resolve_route saves key operator web
      (get_json b.links.up b.links.routes (route_key web.site web.consumer)) b

unfoldable pub resolve : Saves → String → String → Book → Book × Resolved
resolve saves link_site operator b =
    let key = web_key link_site operator in
    resolve_web saves key operator (get_json b.links.up b.links.webs key) b

-- The counter of an hour; `hour` is the text of `now_ms / 3_600_000`.
unfoldable pub within_rate : String → String → String → Book → Book × Bool
within_rate link_site operator hour b =
    let key = "{" ++ link_site ++ "}:gnode:comms:rate:" ++ operator ++ ":" ++ hour in
    let n = or_else (lookup key b.rates) 0 + 1 in
    if b.links.up then (record b { rates = insert key n b.rates }, leb n per_hour) else (b, true)

abbrev pub without_route : String → WebLink → Option Route → Dict Route → Dict Route
without_route operator web none routes = routes
without_route operator web (some r) routes =
    if is_operator operator r.operator
    then remove (route_key web.site web.consumer) routes
    else routes

abbrev pub unlink_web : Saves → String → String → Option WebLink → Book → Book × Bool
unlink_web saves key operator none b = (b, false)
unlink_web saves key operator (some web) b = (
  record b {
    links = record b.links {
      routes =
          if saves.old_route
          then without_route operator web (lookup (route_key web.site web.consumer) b.links.routes)
              b.links.routes
          else b.links.routes;
      webs = if saves.web then remove key b.links.webs else b.links.webs;
    };
  },
  true,
)

unfoldable pub unlink : Saves → String → String → Book → Book × Bool
unlink saves link_site operator b =
    let key = web_key link_site operator in
    unlink_web saves key operator (get_json b.links.up b.links.webs key) b
