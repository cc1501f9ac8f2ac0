-- ===== src/Router/Outcome.antt =====
-- `DispatchResult` of src/router/dispatcher.rs, and how the outcome of a channel is noted in it.
use Prim.Native.String.{String}
use geodineum_comms.Prelude.{
  ◌==◌, Bool, true, false, not, ◌&&◌, ◌||◌, Option, none, some, List, [], ◌∷◌, any, if◌then◌else◌,
}
use geodineum_comms.Prelude.Lists.{append}
use geodineum_comms.Prelude.Texts.{contains}
use geodineum_comms.Errors.{CommsError, channel, Result, ok, err, DispatchError, to_string}
use geodineum_comms.Message.{is_empty}
use geodineum_comms.Router.Channel.{Providers}

-- `ChannelResult` of src/persistence/models.rs
pub record ChannelResult : Type 0 where
  pub channel : String
  pub success : Bool
  pub provider_id : Option String
  pub error : Option String
  pub sent_at : Option String

pub record DispatchResult : Type 0 where
  pub message_id : String
  pub successful_channels : List String
  pub failed_channels : List DispatchError
  pub skipped_channels : List String
  pub results : List ChannelResult

unfoldable pub is_success : DispatchResult → Bool
is_success r = not (is_empty r.successful_channels) && is_empty r.failed_channels

unfoldable pub is_partial_success : DispatchResult → Bool
is_partial_success r = not (is_empty r.successful_channels) && not (is_empty r.failed_channels)

unfoldable pub is_failure : DispatchResult → Bool
is_failure r = is_empty r.successful_channels && not (is_empty r.failed_channels)

unfoldable pub has_retryable_failures : DispatchResult → Bool
has_retryable_failures r = any (λ e. e.retryable) r.failed_channels

abbrev pub skip_markers : List String
skip_markers = "disabled" ∷ "no_recipients" ∷ "nonprod_dry_run" ∷ []

abbrev pub no_result : String → DispatchResult
no_result id = record {
  message_id = id;
  successful_channels = [];
  failed_channels = [];
  skipped_channels = [];
  results = [];
}

abbrev pub done : Providers → String → Bool → Option String → Option String → ChannelResult
done p name success provider_id error = record {
  channel = name;
  success = success;
  provider_id = provider_id;
  error = error;
  sent_at = some p.now;
}

unfoldable pub add_skipped : Providers → String → String → DispatchResult → DispatchResult
add_skipped p name why r = record r {
  results = append r.results (done p name false none (some why) ∷ []);
  skipped_channels = append r.skipped_channels (name ∷ []);
}

unfoldable pub add_sent : Providers → String → Option String → DispatchResult → DispatchResult
add_sent p name provider_id r = record r {
  results = append r.results (done p name true provider_id none ∷ []);
  successful_channels = append r.successful_channels (name ∷ []);
}

unfoldable pub add_failed : Providers → String → CommsError → DispatchResult → DispatchResult
add_failed p name e r = record r {
  results = append r.results (done p name false none (some (to_string e)) ∷ []);
  failed_channels =
      append r.failed_channels (record { channel = name; error = e; retryable = true } ∷ []);
}

-- The channel and the marker of an error that only says that nothing was to be sent.
unfoldable pub skip_of : CommsError → Option (String × String)
skip_of (channel c m) = if m == "delivery_off" || contains m skip_markers then some (c, m) else none
skip_of e = none

unfoldable pub note : Providers → String → Result (Option String) → DispatchResult → DispatchResult
note p name (ok provider_id) r = add_sent p name provider_id r
note p name (err e) r = elim (skip_of e) [
  | some (c, m) ↦ add_skipped p c m r
  | none ↦ add_failed p name e r
]
