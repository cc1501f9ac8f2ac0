-- ===== src/Lib.antt =====
-- Verification of the COMMS daemon: one process that reads the messages of many sites from ValKey
-- streams, dispatches each over the channels that its site's settings choose, archives it in a SQLite
-- database for each site and acknowledges it; failed channels are tried again.
--
-- The parts, and how they work together:
--   Daemon        src/main.rs, the three loops of run_daemon: process_message for the entries of
--                 read_messages, Daemon/Claimed for those of claim_pending, Daemon/Retried for the due
--                 retries; with writeback_status. It calls all the other parts.
--   RateLimiter   src/main.rs, DispatchRateLimiter: the slots that a dispatch needs.
--   Backoff       src/persistence/backoff.rs, BackoffTracker: a site waits after a failed archive write.
--   Archive       src/persistence/store.rs and models.rs, and archive_message of src/main.rs.
--   Retry         src/retry/manager.rs, RetryManager: the failed dispatches that wait in ValKey.
--   Router        src/router/dispatcher.rs, MessageDispatcher: Router/Target (whom a message is for),
--                 Router/Dispatcher (which channels), Router/Channel (the gates and the sends of one
--                 channel), Router/Outcome (the result).
--   Settings      src/settings/models.rs and store.rs: the settings of the sites, with their cache.
--   WebLink       src/inbound/web_link.rs: WebLink (chat_for: the chat of a linked account) and
--                 WebLink/Linking (how accounts are linked).
--   Spam          src/filters/spam.rs, SpamFilter.
--   Message       src/channels/channel.rs: the data, and which messages a recipient takes.
--   Consumer      src/consumer/stream_reader.rs and site_discovery.rs: Consumer (how an entry becomes a
--                 message), Consumer/Discovery (the sites), Consumer/Reading (the groups and reads).
--   Conversation  src/inbound/conversation_state.rs: Conversation/Session (the chats' sessions) and
--                 Conversation/Context (the alerts that wait for a reply).
--   Commands      src/inbound/command_router.rs, CommandRouter: what an operator's text asks for. It calls
--                 Conversation and Workflow.
--   Receiver      src/inbound/telegram_receiver.rs, TelegramReceiver: which updates get into the inbound
--                 stream.
--   Poller        src/inbound/response_poller.rs: what is shown of a response, and its chunks.
--   Workflow      src/inbound/workflow_dispatch.rs: the requests to the workflow engine.
--   Cleanup       src/persistence/retention.rs and cleanup.rs: the deletion of old messages.
--   TgEscape      src/templates/tg_escape.rs: the escaping of texts for Telegram.
--   SenderPolicy  src/channels/email/sender_policy.rs: the address that a mail is sent from.
--   Errors, Dtap  src/error.rs and src/dtap.rs.
--   Prelude       Boolean tests, lists, dictionaries, texts and characters for all of them.
--   Examples      sample data, runs of the code on it, and an application of each result.
--
-- State is passed explicitly. Daemon is the state of the process with what it leaves outside: the
-- archive, the retry states, the calls of the channels' send (World.sent), the acknowledgements and
-- the status hashes, each as a log. An operation of the source is the function of its name.
--
-- What is not under src/ is an argument: the answers of the channels and of the address parser
-- (Providers), the tables of Unicode (Spam.Unicode), the random number of the jitter (gen_range), the
-- clocks, and which calls of SQLite and ValKey succeed (Sql, Commands, Scan, Saves, the flags of
-- SettingsStore). How Telegram reads MarkdownV2 is the parameter of TgEscape/Readable.
--
-- Numbers are natural numbers. A u32 or u64 that the source increments wraps as written (% 2 ^ w); a
-- theorem that needs no wrap says so. Each loop is over a list or the characters of a text, but for
-- Errors.scrub_from: its fuel is the count of the characters, of which a round drops one at least, and for
-- Poller.strip_from (Poller/Thinking) and Receiver.remove_from, with the same fuel. The floating point
-- scores of the spam filter are in tenths, and the delays of the backoff are whole nanoseconds, exact for
-- whole seconds as in the default; its multiplier is a whole number, as there.
--
-- Not modelled: the command line, the configuration, the waiting for responses and their sending, the
-- inference and the schema registry, what the Telegram receiver sends, receipts, templates but for the
-- escaping, the statistics of the databases, and the SMTP, SMS and Telegram clients, which are calls of
-- libraries or parts for which there are no modules yet. Log lines are left out everywhere.
pub mod Prelude
pub mod RateLimiter
pub mod Backoff
pub mod Message
pub mod Settings
pub mod Retry
pub mod Dtap
pub mod Errors
pub mod WebLink
pub mod Router
pub mod Spam
pub mod Archive
pub mod Daemon
pub mod Examples
pub mod Consumer
pub mod Conversation
pub mod Commands
pub mod Workflow
pub mod Poller
pub mod Receiver
pub mod TgEscape
pub mod Cleanup
pub mod SenderPolicy
