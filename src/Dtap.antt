-- ===== src/Dtap.antt =====
-- src/dtap.rs: the one place that says which environment may send for real.
use geodineum_comms.Prelude.{String, Bool, Option, none, some}
use geodineum_comms.Prelude.Chars.{eq_ignore_ascii_case, split_second, trim, is_empty_text}
use geodineum_comms.Prelude.Tests.{if◌then◌else◌}

unfoldable pub is_production : String → Bool
unfolding eq_ignore_ascii_case
is_production environment = eq_ignore_ascii_case environment "production"

abbrev pub trimmed : Option String → Option String
trimmed none = none
trimmed (some e) = let t = trim e in if is_empty_text t then none else some t

-- `{site_id}:gnode:comms:<env>` → `<env>`
unfoldable pub environment_from_stream_key : String → Option String
unfolding split_second trim
environment_from_stream_key stream_key = trimmed (split_second ":gnode:comms:" stream_key)
