-- ===== src/Consumer/SiteId.antt =====
-- The stream keys that src/consumer/site_discovery.rs makes, read back by src/consumer/stream_reader.rs.
use Prim.Native.Char.{code, Char}
use Prim.Native.String.{String, ◌++◌}
use text.Mathlib.TextLemmas.{nil-append, cons-append}
use geodineum_comms.Prelude.{◌∙◌, ap}
use geodineum_comms.Prelude.{ℕ, ◌≡◌, refl, Bool, true, false, ◌&&◌, some, arith, eqb}
use geodineum_comms.Prelude.Chars.{
  upto, after, all_codes, trim_start_char, trim_end_char, strip_prefix,
}
use geodineum_comms.Prelude.Chars.{split_second}
use geodineum_comms.Dtap.{environment_from_stream_key, trimmed}
use geodineum_comms.Consumer.{is_site_code, is_site_id, site_of_key}
use geodineum_comms.Consumer.Discovery.{SiteDiscovery, get_stream_key}

-- a character that is neither a brace nor a colon
record IsPlain (c : ℕ) : Type 0 where
  no_colon : eqb b':' c ≡ false
  no_open : eqb c b'{' ≡ false
  no_close : eqb c b'}' ≡ false

both : {a b : Bool} → a && b ≡ true → (a ≡ true) × (b ≡ true)
both h = ground arith

is_site_code-IsPlain : (c : ℕ) → is_site_code c ≡ true → IsPlain c
is_site_code-IsPlain c h = record {
  no_colon = ground arith;
  no_open = ground arith;
  no_close = ground arith;
}

upto_step :
    (c : Char) (s t : String)
    → IsPlain (code c)
    → upto ":gnode:comms:" s ≡ t
    → upto ":gnode:comms:" (String.◌∷◌ c s) ≡ String.◌∷◌ c t
unfolding upto strip_prefix
upto_step c s t q e = ground (arith, q.no_colon, e)

strip_prefix-append : (p s : String) → strip_prefix p (p ++ s) ≡ some s
unfolding strip_prefix
strip_prefix-append String.[] s = rw (nil-append s) refl
strip_prefix-append (String.◌∷◌ c p) s =
    rw (cons-append c p s) (ground (arith, strip_prefix-append p s))

-- the separator with what stands before and behind it
separated : (rest : String) → "}:gnode:comms:" ++ rest ≡ String.◌∷◌ "}" (":gnode:comms:" ++ rest)
separated rest = cons-append "}" ":gnode:comms:" rest

sep_colon : (rest : String) → ":gnode:comms:" ++ rest ≡ String.◌∷◌ ":" ("gnode:comms:" ++ rest)
sep_colon rest = cons-append ":" "gnode:comms:" rest

upto_found :
    (sep : String) (c : Char) (s t : String)
    → strip_prefix sep (String.◌∷◌ c s) ≡ some t
    → upto sep (String.◌∷◌ c s) ≡ ""
unfolding upto
upto_found sep c s t e = ground (arith, e)

upto_colon : (rest : String) → upto ":gnode:comms:" (":gnode:comms:" ++ rest) ≡ ""
upto_colon rest = rw (sep_colon rest) (
    upto_found ":gnode:comms:" ":" _ rest
      (rw (← sep_colon rest) (strip_prefix-append ":gnode:comms:" rest)))

upto_sep : (rest : String) → upto ":gnode:comms:" ("}:gnode:comms:" ++ rest) ≡ "}"
unfolding upto strip_prefix
upto_sep rest = rw (separated rest) (simp (upto_colon rest) refl)

upto_site :
    (site rest : String)
    → all_codes is_site_code site ≡ true
    → upto ":gnode:comms:" (site ++ "}:gnode:comms:" ++ rest) ≡ site ++ "}"
upto_site String.[] rest h = simp (nil-append, upto_sep) refl
upto_site (String.◌∷◌ c site) rest h =
    let (plain, others) = both h in
    simp cons-append
      (upto_step c _ _ (is_site_code-IsPlain (code c) plain) (upto_site site rest others))

trim_site :
    (site : String) → all_codes is_site_code site ≡ true → trim_end_char b'}' (site ++ "}") ≡ site
unfolding trim_end_char
trim_site String.[] h = refl
trim_site (String.◌∷◌ c site) h =
    let (plain, others) = both h in
    rw (cons-append c site "}")
      (ground (arith, trim_site site others, (is_site_code-IsPlain (code c) plain).no_close))

trim_open :
    (site : String)
    → all_codes is_site_code site ≡ true
    → trim_start_char b'{' (site ++ "}") ≡ site ++ "}"
unfolding trim_start_char
trim_open String.[] h = rw (nil-append "}") refl
trim_open (String.◌∷◌ c site) h =
    rw (cons-append c site "}") (ground (arith, (is_site_code-IsPlain (code c) (both h).0).no_open))

open_brace : (s : String) → "{" ++ s ≡ String.◌∷◌ "{" s
open_brace s = cons-append "{" "" s ∙ ap (λ t. String.◌∷◌ "{" t) (nil-append s)

-- The site of a key that a discovery makes for a valid site is that site.
pub site_of_key-get_stream_key :
    (site : String) (d : SiteDiscovery)
    → is_site_id site ≡ true
    → site_of_key (get_stream_key site d) ≡ site
unfolding site_of_key get_stream_key is_site_id upto strip_prefix trim_start_char
site_of_key-get_stream_key site d h =
    let plain = (both (both h).1).1 in
    simp
      (open_brace, upto_site site d.environment plain, trim_open site plain, trim_site site plain)
      refl

after_sep : (rest : String) → after ":gnode:comms:" ("}:gnode:comms:" ++ rest) ≡ some rest
unfolding after strip_prefix
after_sep rest =
    simp (separated, sep_colon) (ground (arith, strip_prefix-append "gnode:comms:" rest))

after_step :
    (c : Char) (s t : String)
    → IsPlain (code c)
    → after ":gnode:comms:" s ≡ some t
    → after ":gnode:comms:" (String.◌∷◌ c s) ≡ some t
unfolding after strip_prefix
after_step c s t q e = ground (arith, q.no_colon, e)

after_site :
    (site rest : String)
    → all_codes is_site_code site ≡ true
    → after ":gnode:comms:" (site ++ "}:gnode:comms:" ++ rest) ≡ some rest
after_site String.[] rest h = simp (nil-append, after_sep) refl
after_site (String.◌∷◌ c site) rest h =
    let (plain, others) = both h in
    simp cons-append
      (after_step c _ _ (is_site_code-IsPlain (code c) plain) (after_site site rest others))

-- The environment of a key that a discovery makes is the discovery's, up to a further separator.
pub environment_from_stream_key-get_stream_key :
    (site : String) (d : SiteDiscovery)
    → is_site_id site ≡ true
    → environment_from_stream_key (get_stream_key site d)
      ≡ trimmed (some (upto ":gnode:comms:" d.environment))
unfolding environment_from_stream_key split_second get_stream_key is_site_id after strip_prefix
environment_from_stream_key-get_stream_key site d h =
    let plain = (both (both h).1).1 in simp (open_brace, after_site site d.environment plain) refl
