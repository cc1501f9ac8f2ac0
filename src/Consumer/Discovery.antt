-- ===== src/Consumer/Discovery.antt =====
-- `SiteDiscovery` of src/consumer/site_discovery.rs. The keys are what the two scans of ValKey gave; the
-- `HashSet` of the sites is a list with each site once.
use Prim.Native.String.{String, ◌++◌}
use geodineum_comms.Prelude.{Bool, Option, none, some, List, [], ◌∷◌, map, if◌then◌else◌}
use geodineum_comms.Prelude.Dict.{or_else}
use geodineum_comms.Prelude.Chars.{is_empty_text, upto, after, trim_start_char, trim_end_char}
use geodineum_comms.Prelude.Texts.{contains}
use geodineum_comms.Errors.{Result, ok, err}
use geodineum_comms.Consumer.{site_of_key}

pub record SiteDiscovery : Type 0 where
  pub known_sites : List String
  pub environment : String

-- `HashSet::insert`, but for the empty text
unfoldable pub add_site : String → List String → List String
add_site site sites =
    if is_empty_text site then sites else if contains site sites then sites else site ∷ sites

-- `split(c).collect()`, as far as its third part
abbrev pub third_part : String → Option String
third_part key = elim (after ":" key) [
  | none ↦ none
  | some s ↦ elim (after ":" s) [ none ↦ none | some t ↦ some (upto ":" t) ]
]

-- the site of `gnode:site:<site>:meta`
unfoldable pub site_of_meta : String → String
site_of_meta key = elim (third_part key) [
  | none ↦ ""
  | some part ↦ trim_end_char b'}' (trim_start_char b'{' part)
]

unfoldable pub add_sites : (String → String) → List String → List String → List String
add_sites site_of [] sites = sites
add_sites site_of (key ∷ keys) sites = add_sites site_of keys (add_site (site_of key) sites)

-- The two scans: the first one's failure is an error, the second one's no keys.
unfoldable pub discovered : List String → Option (List String) → List String
discovered keys meta = add_sites site_of_meta (or_else meta []) (add_sites site_of_key keys [])

unfoldable pub discover_sites :
    Result (List String)
    → Option (List String)
    → SiteDiscovery
    → SiteDiscovery × Result (List String)
discover_sites (err e) meta d = (d, err e)
discover_sites (ok keys) meta d =
    (record d { known_sites = discovered keys meta }, ok (discovered keys meta))

unfoldable pub get_stream_key : String → SiteDiscovery → String
get_stream_key site_id d = "{" ++ site_id ++ "}:gnode:comms:" ++ d.environment

unfoldable pub get_all_stream_keys : SiteDiscovery → List String
get_all_stream_keys d = map (λ site. get_stream_key site d) d.known_sites

unfoldable pub site_exists : String → SiteDiscovery → Bool
site_exists site_id d = contains site_id d.known_sites
