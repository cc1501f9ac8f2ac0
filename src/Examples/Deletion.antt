-- ===== src/Examples/Deletion.antt =====
-- The results on the cleanup and on the texts that are sent at concrete inputs.
use Prim.Native.String.{String}
use geodineum_comms.Prelude.{
  ◌≡◌, refl, false, Option, ◌||◌, eqb, if◌then◌else◌, none, some, [], ◌∷◌,
}
use geodineum_comms.Prelude.Dict.{lookup, contains_key, UniqueKeys}
use geodineum_comms.Archive.{Row, Table, pending, sent}
use geodineum_comms.Cleanup.{Site, default_config}
use geodineum_comms.Cleanup.Sites.{cleanup_site, delete_by_count, delete_by_size}
use geodineum_comms.Cleanup.Totals.{AddsUp, cleanup_site-AddsUp}
use geodineum_comms.Cleanup.Kept.{delete_by_limits_active}
use geodineum_comms.Prelude.{arith}
use geodineum_comms.Errors.{scrub_from, scrub_bot_token}
use geodineum_comms.Errors.Rounds.{scrub_bot_token_ends}
use Prim.Native.Char.{code, Char}
use geodineum_comms.TgEscape.{escape_markdown_v2}
use geodineum_comms.TgEscape.Readable.{is_reserved, cons, IsReader, escape_markdown_v2_readable}

abbrev done_row : Row
done_row = record {
  stream_id = "1-0";
  environment = "production";
  message_type = "contact";
  priority = 3;
  status = sent;
  attempts = 1;
  channel_results = [];
  received_at = "2025-01-01T00:00:00Z";
  updated_at = "2025-01-01T00:00:00Z";
  completed_at = none;
}

abbrev waiting_row : Row
waiting_row = record done_row { status = pending; received_at = "2024-01-01T00:00:00Z" }

abbrev rows : Table
rows = ("m1", waiting_row) ∷ ("m2", done_row) ∷ ("m3", done_row) ∷ []

rows_unique : UniqueKeys rows
unfolding contains_key lookup
rows_unique = (refl, (refl, (refl, tt)))

abbrev site : Site
site = record {
  pool_error = none;
  error = λ step. none;
  vacuum_error = none;
  cutoff = λ days. "2025-06-01T00:00:00Z";
  size_at_start = some 4_096;
  size_now = some 4_096;
  size_at_end = some 2_048;
  json_length = λ row. 100;
}

cleanup_site-AddsUp_example : AddsUp rows (cleanup_site site default_config rows)
cleanup_site-AddsUp_example = cleanup_site-AddsUp site default_config rows

waiting_there : lookup "m1" rows ≡ some waiting_row
unfolding lookup
waiting_there = refl

delete_by_limits_active_example :
    (lookup "m1" (delete_by_count site 1 1 rows).0 ≡ some waiting_row)
    × (lookup "m1" (delete_by_size site 1_000 1 rows).0 ≡ some waiting_row)
delete_by_limits_active_example =
    delete_by_limits_active site rows rows_unique 1 1_000 1 "m1" waiting_row waiting_there refl

-- A reader of plain text that takes no markup.
unfoldable read_plain : String → Option String
read_plain String.[] = some ""
read_plain (String.◌∷◌ c String.[]) =
    if is_reserved (code c) || eqb (code c) b'\\' then none else some (String.◌∷◌ c "")
read_plain (String.◌∷◌ c (String.◌∷◌ d s)) =
    let behind = read_plain (String.◌∷◌ d s) in
    let escaped = read_plain s in
    if is_reserved (code c)
    then none
    else if eqb (code c) b'\\'
    then cons d escaped
    else cons c behind

reads_plain :
    (c : Char) (s : String)
    → is_reserved (code c) ≡ false
    → eqb (code c) b'\\' ≡ false
    → read_plain (String.◌∷◌ c s) ≡ cons c (read_plain s)
unfolding read_plain
reads_plain c String.[] h k = simp (h, k) refl
reads_plain c (String.◌∷◌ d s) h k = simp (h, k) refl

read_plain-IsReader : IsReader read_plain
unfolding read_plain is_reserved
read_plain-IsReader = record {
  empty = refl;
  plain = λ c s h k. reads_plain c s h k;
  escaped = λ c s low high. refl;
}

escape_markdown_v2_readable_example :
    read_plain (escape_markdown_v2 "[shop] 1.5") ≡ some "[shop] 1.5"
escape_markdown_v2_readable_example =
    escape_markdown_v2_readable read_plain read_plain-IsReader "[shop] 1.5" refl

scrub_bot_token_ends_example :
    scrub_from 100 "https://api.test/bot12:ab/x" ≡ scrub_bot_token "https://api.test/bot12:ab/x"
scrub_bot_token_ends_example = scrub_bot_token_ends "https://api.test/bot12:ab/x" 100 (omega arith)
