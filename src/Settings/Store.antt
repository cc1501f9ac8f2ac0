-- ===== src/Settings/Store.antt =====
-- `SettingsStore` of src/settings/store.rs: the settings of the sites in ValKey with a cache, and
-- the counters of addressed messages, one for each site, of today.
use geodineum_comms.Prelude.{ℕ, ◌+◌, String, Bool, Option, none, some, [], if◌then◌else◌}
use geodineum_comms.Prelude.Dict.{Dict, lookup, insert, remove, or_else}
use geodineum_comms.Errors.{Result, ok, err, valkey, config}
use geodineum_comms.Settings.{SiteSettings, site_settings}
use geodineum_comms.WebLink.{Links, chat_for}

-- `stored` is ValKey's side: `none` where the JSON is no `SiteSettings`. ValKey answers reads and
-- takes writes as the flags say, and `failure` is what it says otherwise.
pub record SettingsStore : Type 0 where
  pub cache : Dict SiteSettings
  pub stored : Dict (Option SiteSettings)
  pub counters : Dict ℕ
  pub links : Links
  pub reads : Bool
  pub writes : Bool
  pub failure : String
  pub invalid : String

abbrev pub Action : Type 0 → Type 0
Action A = SettingsStore → SettingsStore × Result A

abbrev pub loaded :
    String
    → SettingsStore
    → Option (Option SiteSettings)
    → SettingsStore × Result (Option SiteSettings)
loaded site_id s none = (s, ok none)
loaded site_id s (some none) = (s, err (config s.invalid))
loaded site_id s (some (some settings)) =
    (record s { cache = insert site_id settings s.cache }, ok (some settings))

abbrev pub cached :
    SettingsStore
    → Option SiteSettings
    → SettingsStore × Result (Option SiteSettings)
    → SettingsStore × Result (Option SiteSettings)
cached s none other = other
cached s (some settings) other = (s, ok (some settings))

unfoldable pub get_settings : String → Action (Option SiteSettings)
get_settings site_id s =
    cached s (lookup site_id s.cache)
      (if s.reads then loaded site_id s (lookup site_id s.stored) else (s, err (valkey s.failure)))

unfoldable pub save_settings : SiteSettings → Action (Unit {0})
save_settings settings s =
    if s.writes
    then (
      record s {
        stored = insert settings.site_id (some settings) s.stored;
        cache = insert settings.site_id settings s.cache;
      },
      ok tt,
    )
    else (s, err (valkey s.failure))

unfoldable pub delete_settings : String → Action (Unit {0})
delete_settings site_id s =
    if s.writes
    then (record s { stored = remove site_id s.stored; cache = remove site_id s.cache }, ok tt)
    else (s, err (valkey s.failure))

unfoldable pub invalidate_cache : String → SettingsStore → SettingsStore
invalidate_cache site_id s = record s { cache = remove site_id s.cache }

unfoldable pub clear_cache : SettingsStore → SettingsStore
clear_cache s = record s { cache = [] }

abbrev pub ensured :
    String → SettingsStore × Result (Option SiteSettings) → SettingsStore × Result SiteSettings
ensured site_id (s, err e) = (s, err e)
ensured site_id (s, ok (some settings)) = (s, ok settings)
ensured site_id (s, ok none) =
    let settings = site_settings site_id in
    let (s', saved) = save_settings settings s in
    (s', elim saved [ ok u ↦ ok settings | err e ↦ err e ])

unfoldable pub ensure_settings : String → Action SiteSettings
ensure_settings site_id s = ensured site_id (get_settings site_id s)

unfoldable pub addressed_sent_today : String → Action ℕ
addressed_sent_today site_id s =
    (s, if s.reads then ok (or_else (lookup site_id s.counters) 0) else err (valkey s.failure))

unfoldable pub count_addressed : String → Action (Unit {0})
count_addressed site_id s =
    if s.writes
    then (
      record s { counters = insert site_id (or_else (lookup site_id s.counters) 0 + 1) s.counters },
      ok tt,
    )
    else (s, err (valkey s.failure))

unfoldable pub linked_chat : String → String → String → SettingsStore → Option String
linked_chat link_site site consumer s = chat_for s.links link_site site consumer
