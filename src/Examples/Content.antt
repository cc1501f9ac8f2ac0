-- ===== src/Examples/Content.antt =====
-- The rate limiter, the backoff, the archive and the checks of a message on sample data.
use geodineum_comms.Prelude.{
  ◌≡◌, refl, true, none, some, [], ◌∷◌, arith, length, ◌+◌, ◌≤◌, ◌^◌, ◌*◌, ltb, min, from_secs, All,
  ◌&&◌, ◌||◌,
}
use geodineum_comms.Prelude.Dict.{lookup, insert, contains_key}
use geodineum_comms.Message.{CommsMessage, SenderInfo}
use geodineum_comms.RateLimiter.{new, evict, try_acquire, max_tracked_sites}
use geodineum_comms.RateLimiter.Window.{recent, new-Tracks, try_acquire_decides}
use geodineum_comms.RateLimiter.Rate.{serve, within, serve_rate}
use geodineum_comms.Backoff.{
  BackoffTracker, with_config, default_config, backoff, is_in_backoff, remaining_backoff,
  consecutive_failures, record_failure, failed_state, scaled_delay, is_nan,
}
use geodineum_comms.Backoff.Progress.{fail_all, backoff_exponential}
use geodineum_comms.Archive.{
  sent, row, archive_message, archive_received, update_status, record_results,
}
use geodineum_comms.Archive.Status.{status_of}
use geodineum_comms.Archive.Message.{archive_message_records}
use geodineum_comms.WebLink.{
  Links, is_consumer, chat_for, route_key, web_key, IsLinked, chat_for_owned,
}
use geodineum_comms.Spam.{
  looks_like_gibberish, gibberish_letters, long_consonants, check_keywords, extend, contains_text,
  check, default_filter, mixed_case, score_of,
}
use geodineum_comms.Prelude.Chars.{after, strip_prefix, trim, trim_start, trim_end}
use Prim.Native.String.{count}
use geodineum_comms.Poller.{
  strip_thinking, strip_from, split_message, take_paragraphs, take_paragraph, take_lines, take_line,
  take_chars, lines, paragraphs,
}
use geodineum_comms.Poller.Split.{join}
use geodineum_comms.Poller.Fits.{split_message_whole}
use geodineum_comms.WebLink.{more_letters, hex_digits}
use geodineum_comms.Examples.{plain, hello, contact, working}

serve_rate_example :
    within 9
      (from_secs 60)
      "shop"
      (serve (new 2 60) [] ((1, "shop") ∷ (2, "shop") ∷ (3, "shop") ∷ [])).1
    ≤ 2
serve_rate_example =
    serve_rate 2 60 ((1, "shop") ∷ (2, "shop") ∷ (3, "shop") ∷ []) "shop" 9
      (omega arith, (omega arith, (omega arith, tt)))

try_acquire_decides_example : (try_acquire 5 "shop" (new 2 60)).1 ≡ (
    (contains_key "shop" (evict 5 (new 2 60))
      || ltb (length (evict 5 (new 2 60))) max_tracked_sites)
    && ltb (recent 5 (new 2 60).window_duration "shop" []) (new 2 60).max_per_window)
try_acquire_decides_example =
    try_acquire_decides 0 5 "shop" (new 2 60) [] (new-Tracks 2 60) (omega arith)

nothing_tracked : length (new 2 60).windows ≤ max_tracked_sites
unfolding new
nothing_tracked = omega arith

abbrev tracker : BackoffTracker
tracker = with_config default_config

no_failure : consecutive_failures "shop" tracker ≡ 0
unfolding consecutive_failures lookup
no_failure = refl

backoff_exponential_example :
    is_in_backoff 9 "shop"
      (record_failure 5 "shop" "disk full" (fail_all "shop" ((1, "disk full") ∷ []) tracker))
    ≡ ltb 9 (5 + min (1_000_000_000 * 2 ^ 1) 300_000_000_000)
backoff_exponential_example =
    backoff_exponential "shop" "disk full" ((1, "disk full") ∷ []) 5 9 tracker refl no_failure
      (omega arith)

remaining :
    remaining_backoff 5 "shop" (record_failure 5 "shop" "disk full" tracker) ≡ some 1_000_000_000
unfolding remaining_backoff record_failure failed_state backoff is_nan scaled_delay lookup insert
remaining = refl

written : (archive_message working "now" contact "1-0" sent [] []).1 ≡ true
unfolding archive_message archive_received update_status record_results
written = refl

archive_message_records_example :
    status_of (row "shop" "m1" (archive_message working "now" contact "1-0" sent [] []).0)
    ≡ some sent
archive_message_records_example =
    archive_message_records working "now" contact "1-0" sent [] [] (λ e. cc) written

-- One linked account of the shop.
abbrev links : Links
links = record {
  routes =
      (
        route_key "shop" "web:0123456789abcdef",
        record {
          consumer = "web:0123456789abcdef";
          lane = "";
          pipeline = "";
          session_id = "";
          system = none;
          system_mode = none;
          system_name = none;
          operator = some "op1";
          chat = some "42";
        },
      )
      ∷ [];
  webs =
      (
        web_key "geodine" "op1",
        record { site = "shop"; consumer = "web:0123456789abcdef"; chat = "42"; at_ms = 7 },
      )
      ∷ [];
  up = true;
}

linked_to : chat_for links "geodine" "shop" "web:0123456789abcdef" ≡ some "42"
unfolding chat_for route_key web_key is_consumer more_letters hex_digits lookup
linked_to = refl

chat_for_owned_example :
    (is_consumer "web:0123456789abcdef" ≡ true)
    × IsLinked links "geodine" "shop" "web:0123456789abcdef" "42"
chat_for_owned_example = chat_for_owned links "geodine" "shop" "web:0123456789abcdef" "42" linked_to

abbrev casino : CommsMessage
casino = record contact { content = record hello { body = some "casino bitcoin viagra cialis" } }

casino_is_spam : (check plain default_filter casino).is_spam ≡ true
unfolding check score_of looks_like_gibberish gibberish_letters long_consonants mixed_case
    check_keywords default_filter extend contains_text after
casino_is_spam = refl

abbrev listed : SenderInfo
listed = record {
  name = none;
  email = none;
  phone = none;
  user_agent = none;
  ip = some "203.0.113.9";
}

abbrev from_listed : CommsMessage
from_listed = record contact { sender = some listed }

split_message_whole_example :
    (join (split_message "one\n\ntwo three\nfour" 6) ≡ "one\n\ntwo three\nfour")
    × All (λ c. count c ≤ 6) (split_message "one\n\ntwo three\nfour" 6)
split_message_whole_example = split_message_whole "one\n\ntwo three\nfour" 6 (omega arith)

-- A paragraph that fits is a chunk, one that does not is cut at its lines, and a long line anywhere.
split_message_run :
    split_message "one\n\ntwo three\nfour" 6 ≡ "one\n\n" ∷ "two th" ∷ "ree\n" ∷ "four" ∷ []
unfolding split_message take_paragraphs take_paragraph take_lines take_line take_chars lines
    paragraphs
split_message_run = refl

-- What is shown of a response with a trace of reasoning, and with one that is not closed.
strip_thinking_run : strip_thinking "<think>so</think> Yes. " ≡ "Yes."
unfolding strip_thinking strip_from strip_prefix after trim trim_start trim_end
strip_thinking_run = refl

strip_thinking_unclosed : strip_thinking "Yes. <thinking>so" ≡ "Yes."
unfolding strip_thinking strip_from strip_prefix after trim trim_start trim_end
strip_thinking_unclosed = refl
