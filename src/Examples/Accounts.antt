-- ===== src/Examples/Accounts.antt =====
-- The results on linked accounts at concrete inputs.
use geodineum_comms.Prelude.{◌≡◌, refl, true, false, none, some, List, [], ◌∷◌}
use geodineum_comms.Prelude.Dict.{lookup}
use geodineum_comms.Prelude.Chars.{byte_length}
use geodineum_comms.WebLink.{
  Route, get_json, chat_for, is_consumer, more_letters, hex_digits, route_key, web_key,
}
use geodineum_comms.WebLink.Linking.{
  Book, Saves, Code, linked, expired, link, link_key, is_site, is_lane, lane_rest, valid,
}
use geodineum_comms.WebLink.Spent.{link_once, chat_for-link}
use geodineum_comms.Errors.{Result, ok}
use geodineum_comms.Receiver.{TelegramReceiver, TelegramMsg, TelegramUpdate, Received, poll_once}
use geodineum_comms.Receiver.Gate.{MayAllPass, poll_once-MayAllPass}

abbrev site_route : Route
site_route = record {
  consumer = "visitor:0123456789abcdef";
  lane = "main";
  pipeline = "chat";
  session_id = "s1";
  system = none;
  system_mode = none;
  system_name = none;
  operator = none;
  chat = none;
}

abbrev site_code : Code
site_code = record { consumer = "visitor:0123456789abcdef"; expires_ms = 2_000; state = none }

abbrev book : Book
book = record {
  links = record {
    routes = ("{shop}:gnode:comms:tg:visitor:0123456789abcdef", site_route) ∷ [];
    webs = [];
    up = true;
  };
  codes = ("{shop}:gnode:comms:link:ABCDEFGH23", site_code) ∷ [];
  rates = [];
  unreadable = [];
}

abbrev all_saved : Saves
all_saved = record { old_route = true; web = true; route = true; answer = true }

abbrev none_saved : Saves
none_saved = record { old_route = false; web = false; route = false; answer = false }

linked_book :
    (link all_saved "geodine" "shop" "ABCDEFGH23" "7" "42" 1_000 book).1 ≡ linked "shop" "main"
unfolding link link_key route_key web_key lookup valid is_consumer more_letters hex_digits is_site
    is_lane lane_rest byte_length
linked_book = refl

link_once_example :
    (link none_saved "geodine" "shop" "ABCDEFGH23" "8" "43" 1_500
      (link all_saved "geodine" "shop" "ABCDEFGH23" "7" "42" 1_000 book).0).1
    ≡ expired
link_once_example =
    link_once all_saved "geodine" "shop" "ABCDEFGH23" "7" "42" 1_000 book none_saved "main" "8" "43"
      1_500 refl linked_book

chat_for-link_example :
    (c : Code) × (get_json true book.codes (link_key "shop" "ABCDEFGH23") ≡ some c)
    × (chat_for
          (link all_saved "geodine" "shop" "ABCDEFGH23" "7" "42" 1_000 book).0.links
          "geodine"
          "shop"
          c.consumer
        ≡ some "42")
chat_for-link_example =
    chat_for-link all_saved "geodine" "shop" "ABCDEFGH23" "7" "42" 1_000 book "main" refl refl refl
      linked_book

abbrev receiver : TelegramReceiver
receiver = record {
  site_id = "geodine";
  environment = "production";
  admin_ids = some ("7" ∷ []);
  bot_username = none;
  bot_user_id = none;
  book = book;
  now = "2026-01-01T00:00:00Z";
  writes = λ m. true;
}

abbrev start_text : TelegramMsg
start_text = record {
  message_id = 1;
  from = some (record { id = "8"; first_name = "Ada"; last_name = none });
  chat_id = "42";
  chat_type = "private";
  text = some "/unlink";
  reply_to_message = none;
  caption = none;
  date = "2026-01-01T00:00:00Z";
}

abbrev nothing_received : Received
nothing_received = record { offset = 0; stream = []; answers = [] }

abbrev one_text : Result (List TelegramUpdate)
one_text = ok (record { update_id = 5; message = some start_text; callback_query = none } ∷ [])

poll_once-MayAllPass_example : MayAllPass receiver (poll_once receiver one_text nothing_received).0
poll_once-MayAllPass_example = poll_once-MayAllPass receiver one_text nothing_received tt
