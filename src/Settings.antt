-- ===== src/Settings.antt =====
-- The data of src/settings/models.rs: what a site has configured.
pub mod Store
use geodineum_comms.Prelude.{ℕ, String, Bool, true, false, Option, none, List, [], ◌∷◌}
use geodineum_comms.Prelude.Dict.{Dict}
use geodineum_comms.Message.{ChannelConfig, RateLimit}

pub record AddressedSettings : Type 0 where
  pub types : List String
  pub daily_cap : ℕ  -- u64

pub record ChannelSettings : Type 0 where
  pub email : Option ChannelConfig
  pub telegram : Option ChannelConfig
  pub sms : Option ChannelConfig
  pub custom : Dict ChannelConfig

pub record RoutingRule : Type 0 where
  pub message_type : String
  pub channels : List String
  pub priority_override : Option ℕ

pub data SpamAction : Type 0 where
  reject flag quarantine : SpamAction

pub record FilterSettings : Type 0 where
  pub spam_enabled : Bool
  pub spam_action : SpamAction
  pub keywords_blocklist : List String
  pub ip_blocklist : List String
  pub email_blocklist : List String

pub record RetrySettings : Type 0 where
  pub max_attempts : ℕ  -- u32
  pub base_delay_secs : ℕ  -- u64
  pub max_delay_secs : ℕ  -- u64

pub record SiteSettings : Type 0 where
  pub site_id : String
  pub enabled : Bool
  pub channels : ChannelSettings
  pub routing_rules : List RoutingRule
  pub rate_limits : Dict RateLimit
  pub filters : FilterSettings
  pub retry : RetrySettings
  pub addressed : AddressedSettings

-- `AddressedSettings::default`
abbrev pub default_addressed : AddressedSettings
default_addressed = record { types = "planning" ∷ []; daily_cap = 200 }

-- `RetrySettings::default`
abbrev pub default_retry : RetrySettings
default_retry = record { max_attempts = 5; base_delay_secs = 30; max_delay_secs = 3600 }

abbrev pub default_filters : FilterSettings
default_filters = record {
  spam_enabled = false;
  spam_action = flag;
  keywords_blocklist = [];
  ip_blocklist = [];
  email_blocklist = [];
}

abbrev pub default_channels : ChannelSettings
default_channels = record { email = none; telegram = none; sms = none; custom = [] }

-- `SiteSettings::new`
abbrev pub site_settings : String → SiteSettings
site_settings site_id = record {
  site_id = site_id;
  enabled = true;
  channels = default_channels;
  routing_rules = [];
  rate_limits = [];
  filters = default_filters;
  retry = default_retry;
  addressed = default_addressed;
}
