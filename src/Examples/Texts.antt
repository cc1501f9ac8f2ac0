-- ===== src/Examples/Texts.antt =====
-- The environment of a stream key, and the token of a bot in a text.
use geodineum_comms.Prelude.{◌≡◌, refl, true, none, some}
use geodineum_comms.Dtap.{environment_from_stream_key, is_production}
use geodineum_comms.Errors.{to_string, telegram, scrub_bot_token}

from_key : environment_from_stream_key "{mysite}:gnode:comms:production" ≡ some "production"
unfolding environment_from_stream_key
from_key = refl

no_environment : environment_from_stream_key "{s}:gnode:comms:" ≡ none
unfolding environment_from_stream_key
no_environment = refl

any_case : is_production "PRODuction" ≡ true
unfolding is_production
any_case = refl

token_is_redacted :
    to_string (telegram "url (https://api.telegram.org/bot123456:AAG-x_y9/getUpdates?offset=0)")
    ≡ "Telegram error: url (https://api.telegram.org/bot<redacted>/getUpdates?offset=0)"
unfolding to_string
token_is_redacted = refl

ordinary_text :
    scrub_bot_token "robot: 5 bots, bot:x, Bad Gateway" ≡ "robot: 5 bots, bot:x, Bad Gateway"
unfolding scrub_bot_token
ordinary_text = refl
