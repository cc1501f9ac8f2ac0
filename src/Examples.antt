-- ===== src/Examples.antt =====
-- Sample data: one site with an email channel, a daemon that serves it, and messages for it.
pub mod Delivery
pub mod Waiting
pub mod Content
pub mod Texts
pub mod Inbound
pub mod Chats
pub mod Deletion
pub mod Accounts
use Prim.Native.String.{String}
use geodineum_comms.Prelude.{
  ℕ, ◌+◌, ◌==◌, Bool, true, false, Option, none, some, List, [], ◌∷◌, ltb, leb, ◌&&◌, ◌||◌,
}
use geodineum_comms.Errors.{CommsError, Result, ok, err, to_string, DispatchError}
use geodineum_comms.Message.{
  CommsMessage, MessageContent, SendResult, RecipientConfig, ChannelConfig, SenderInfo, AddressedTo,
}
use geodineum_comms.Settings.{SiteSettings, RetrySettings, site_settings, default_retry}
use geodineum_comms.Settings.Store.{SettingsStore}
use geodineum_comms.WebLink.{Links}
use geodineum_comms.RateLimiter.{new}
use geodineum_comms.Backoff.{with_config, default_config}
use geodineum_comms.Retry.{Commands, RetryState, Failure}
use geodineum_comms.Spam.{Unicode, SpamFilter, default_filter}
use geodineum_comms.Router.Channel.{Sent, Providers, World, MessageDispatcher}
use geodineum_comms.Router.Outcome.{DispatchResult, done}
use geodineum_comms.Archive.{Sql, MessageStore}
use geodineum_comms.Daemon.{Setup, Moment, Daemon}

abbrev pub plain : Unicode
plain = record {
  to_lowercase = λ s. s;
  is_alphabetic = λ n. ltb 64 n && ltb n 123;
  is_uppercase = λ n. false;
  is_lowercase = λ n. ltb 96 n && ltb n 123;
}

abbrev pub hello : MessageContent
hello = record {
  subject = some "Hello";
  body = some "Is the hall free on Monday?";
  attachments = [];
}

abbrev pub contact : CommsMessage
contact = record {
  id = "m1";
  message_type = "contact";
  timestamp = "2026-01-01T00:00:00Z";
  site_id = "shop";
  priority = 3;
  sender = none;
  content = hello;
  metadata = [];
  environment = "production";
  dispatch = none;
  to = none;
}

abbrev pub owner : RecipientConfig
owner = record { address = ("email", "owner@shop.test") ∷ []; types = []; min_priority = 5 }

abbrev pub email : ChannelConfig
email = record { enabled = true; config = []; recipients = owner ∷ []; rate_limit = none }

abbrev pub shop : SiteSettings
shop = record (site_settings "shop") {
  channels = record { email = some email; telegram = none; sms = none; custom = [] };
}

abbrev pub store : SettingsStore
store = record {
  cache = [];
  stored = ("shop", some shop) ∷ [];
  counters = [];
  links = record { routes = []; webs = []; up = true };
  reads = true;
  writes = true;
  failure = "";
  invalid = "";
}

abbrev pub providers : Providers
providers = record {
  registered = λ name. name == "email";
  send = λ before call. ok (record { success = true; provider_id = some "q1"; metadata = [] });
  is_address = λ text. true;
  now = "2026-01-01T00:00:00Z";
}

abbrev pub dispatcher : MessageDispatcher
dispatcher = record { allow_nonprod_send = false; delivery_off = false; link_site = some "geodine" }

abbrev pub setup : Setup
setup = record {
  environment = "production";
  providers = providers;
  dispatcher = dispatcher;
  spam_filter = some default_filter;
  unicode = plain;
  retry = default_retry;
}

abbrev pub working : Sql
working = record {
  select = true;
  insert_message = true;
  update_message = true;
  insert_result = true;
  update_result = true;
}

abbrev pub all_commands : Commands
all_commands = record { get = true; set = true; expire = true; del = true }

abbrev pub moment : Moment
moment = record {
  now = 1_000;
  utc = 5_000;
  stamp = "2026-01-01T00:00:01Z";
  sql = working;
  archive_error = "disk full";
  commands = all_commands;
  gen_range = λ r. r;
}

abbrev pub world : World
world = record { store = store; sent = [] }

abbrev pub daemon : Daemon
daemon = record {
  backoff_tracker = with_config default_config;
  message_store = some [];
  world = world;
  rate_limiter = new 100 60;
  retries = [];
  contexts = [];
  statuses = [];
  acked = [];
}

abbrev pub due : RetryState
due = record {
  message_id = "m1";
  site_id = "shop";
  stream_key = "{shop}:gnode:comms:production";
  stream_entry_id = "1-0";
  attempts = 1;
  last_attempt = 1_000;
  next_retry = 4_000;
  last_error = some "timeout";
  failed_channels = "email" ∷ [];
}

abbrev pub timed_out : Failure
timed_out = record {
  message_id = "m1";
  site_id = "shop";
  stream_key = "{shop}:gnode:comms:production";
  stream_entry_id = "1-0";
  error = "timeout";
  failed_channels = "email" ∷ [];
}

-- The mail server refuses, and what a dispatch then gives.
abbrev pub refusing : Setup
refusing = record setup {
  providers = record providers { send = λ before call. err (CommsError.email "refused") };
}

abbrev pub failed_result : DispatchResult
failed_result = record {
  message_id = "m1";
  successful_channels = [];
  failed_channels =
      record { channel = "email"; error = CommsError.email "refused"; retryable = true } ∷ [];
  skipped_channels = [];
  results =
      done refusing.providers "email" false none (some (to_string (CommsError.email "refused")))
      ∷ [];
}

abbrev pub served : World
served = record {
  store = record store { cache = ("shop", shop) ∷ [] };
  sent = record { channel = "email"; message = contact; recipient = owner; config = email } ∷ [];
}
