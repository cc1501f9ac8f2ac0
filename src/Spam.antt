-- ===== src/Spam.antt =====
-- `SpamFilter` of src/filters/spam.rs. A score is counted in tenths: the sums of 1.0, 0.8, 0.5, 0.4 and
-- 0.3 that the filter makes in `f32` compare with 0.7 as the tenths do. What the standard library says
-- of characters beyond ASCII is the parameter `Unicode`. The ratio of vowels is compared by
-- multiplying out, which `f32` does too for fewer than a million letters.
pub mod Blocklists
use Prim.Native.String.{String, ◌++◌, len}
use geodineum_comms.Prelude.{
  ℕ, zero, suc, ◌+◌, ◌*◌, ◌/◌, ◌==◌, Bool, true, false, not, ◌&&◌, ◌||◌, Option, none, some, List,
  [], ◌∷◌, map, length, keep, any, ltb, leb, eqb, if◌then◌else◌,
}
use geodineum_comms.Prelude.Lists.{append}
use geodineum_comms.Prelude.Texts.{contains}
use geodineum_comms.Prelude.Chars.{codes, after, split_second}
use geodineum_comms.Message.{CommsMessage, SenderInfo}
use geodineum_comms.Settings.{FilterSettings}

pub record Unicode : Type 0 where
  pub to_lowercase : String → String
  pub is_alphabetic : ℕ → Bool
  pub is_uppercase : ℕ → Bool
  pub is_lowercase : ℕ → Bool

pub record SpamCheckResult : Type 0 where
  pub is_spam : Bool
  pub score : ℕ  -- tenths
  pub reasons : List String

-- The sets of the filter, each text once.
pub record SpamFilter : Type 0 where
  pub keywords_blocklist : List String
  pub ip_blocklist : List String
  pub email_blocklist : List String

-- `HashSet::extend`
unfoldable pub extend : List String → List String → List String
extend set [] = set
extend set (x ∷ xs) = extend (if contains x set then set else append set (x ∷ [])) xs

abbrev pub new : SpamFilter
new = record { keywords_blocklist = []; ip_blocklist = []; email_blocklist = [] }

abbrev pub spam_keywords : List String
spam_keywords =
    "viagra" ∷ "cialis" ∷ "crypto" ∷ "bitcoin" ∷ "investment opportunity" ∷ "make money fast"
    ∷ "nigerian prince" ∷ "lottery winner" ∷ "casino" ∷ "free money" ∷ []

-- `SpamFilter::default`
unfoldable pub default_filter : SpamFilter
default_filter = record new { keywords_blocklist = extend [] spam_keywords }

unfoldable pub with_extra_blocklists : Unicode → List String → List String → SpamFilter
with_extra_blocklists u keywords ips = record default_filter {
  keywords_blocklist = extend default_filter.keywords_blocklist (map u.to_lowercase keywords);
  ip_blocklist = extend default_filter.ip_blocklist ips;
}

unfoldable pub from_settings : Unicode → FilterSettings → SpamFilter
from_settings u s = record {
  keywords_blocklist = extend [] (map u.to_lowercase s.keywords_blocklist);
  ip_blocklist = extend [] s.ip_blocklist;
  email_blocklist = extend [] (map u.to_lowercase s.email_blocklist);
}

abbrev pub is_vowel : ℕ → Bool
is_vowel c = eqb c b'a' || (eqb c b'e' || (eqb c b'i' || (eqb c b'o' || eqb c b'u')))

-- the loop over `consonant_run`, which returns as soon as a run is longer than five
unfoldable pub long_consonants : Unicode → ℕ → List ℕ → Bool
long_consonants u run [] = false
long_consonants u run (c ∷ cs) =
    let run' = if u.is_alphabetic c && not (is_vowel c) then run + 1 else 0 in
    ltb 5 run' || long_consonants u run' cs

abbrev pub changed : Option Bool → Bool → ℕ
changed none upper = 0
changed (some true) upper = if upper then 0 else 1
changed (some false) upper = if upper then 1 else 0

-- the loop over `case_changes`
unfoldable pub case_changes : Unicode → Option Bool → List ℕ → ℕ
case_changes u last [] = 0
case_changes u last (c ∷ cs) =
    let upper = u.is_uppercase c in
    let letter = u.is_alphabetic c in
    (if letter then changed last upper else 0)
    + case_changes u (if letter then some upper else last) cs

-- the last part of `looks_like_gibberish`, on the text that it has lower-cased
unfoldable pub mixed_case : Unicode → String → Bool
mixed_case u text =
    (any u.is_uppercase (codes text) && any u.is_lowercase (codes text))
    && ltb (len text / 3) (case_changes u none (codes text))

unfoldable pub gibberish_letters : Unicode → String → Bool
gibberish_letters u text =
    let vowels = length (keep is_vowel (codes text)) in
    let letters = length (keep u.is_alphabetic (codes text)) in
    if eqb letters 0
    then false
    else if ltb (vowels * 100) (15 * letters) || ltb (65 * letters) (vowels * 100)
    then true
    else if long_consonants u 0 (codes text)
    then true
    else mixed_case u text

unfoldable pub looks_like_gibberish : Unicode → String → Bool
looks_like_gibberish u text =
    if ltb (len text) 3 then false else gibberish_letters u (u.to_lowercase text)

-- A score with its reasons, as `check` adds to them.
pub record Score : Type 0 where
  pub points : ℕ
  pub reasons : List String

abbrev pub add : Bool → ℕ → String → Score → Score
add hit n why s =
    if hit then record { points = s.points + n; reasons = append s.reasons (why ∷ []) } else s

abbrev pub check_ip : SpamFilter → Option String → Score → Score
check_ip f none s = s
check_ip f (some ip) s = add (contains ip f.ip_blocklist) 10 ("IP " ++ ip ++ " in blocklist") s

abbrev pub check_domain : SpamFilter → Option String → Score → Score
check_domain f none s = s
check_domain f (some domain) s =
    add (contains domain f.email_blocklist) 8 ("Email domain " ++ domain ++ " in blocklist") s

abbrev pub check_email : Unicode → SpamFilter → Option String → Score → Score
check_email u f none s = s
check_email u f (some email) s = check_domain f (split_second "@" (u.to_lowercase email)) s

abbrev pub check_text : Unicode → Option String → ℕ → String → Score → Score
check_text u none n why s = s
check_text u (some text) n why s = add (looks_like_gibberish u text) n why s

abbrev pub check_sender : Unicode → SpamFilter → Option SenderInfo → Score → Score
check_sender u f none s = s
check_sender u f (some sender) s =
    check_text u sender.name 5 "Sender name appears to be gibberish"
      (check_email u f sender.email (check_ip f sender.ip s))

abbrev pub text_or_empty : Option String → String
text_or_empty none = ""
text_or_empty (some t) = t

abbrev pub is_found : Option String → Bool
is_found none = false
is_found (some t) = true

-- `str::contains`
unfoldable pub contains_text : String → String → Bool
contains_text text part = is_found (after part text)

unfoldable pub check_keywords : String → List String → Score → Score
check_keywords text [] s = s
check_keywords text (k ∷ ks) s =
    check_keywords text ks (add (contains_text text k) 3 ("Contains blocked keyword: " ++ k) s)

abbrev pub content_text : Unicode → CommsMessage → String
content_text u m =
    u.to_lowercase (text_or_empty m.content.subject ++ " " ++ text_or_empty m.content.body)

unfoldable pub score_of : Unicode → SpamFilter → CommsMessage → Score
score_of u f m = check_text u m.content.subject 4 "Subject appears to be gibberish" (
    check_keywords (content_text u m) f.keywords_blocklist
      (check_sender u f m.sender (record { points = 0; reasons = [] })))

unfoldable pub check : Unicode → SpamFilter → CommsMessage → SpamCheckResult
check u f m =
    let s = score_of u f m in
    if leb 7 s.points
    then record { is_spam = true; score = s.points; reasons = s.reasons }
    else record { is_spam = false; score = 0; reasons = [] }
