-- ===== src/Examples/Delivery.antt =====
-- Runs of the daemon on the sample data.
use geodineum_comms.Prelude.{arith, ◌≡◌, refl, true, false, none, some, []}
use geodineum_comms.Errors.{ok, to_string}
use geodineum_comms.Prelude.Dict.{lookup, insert}
use geodineum_comms.Dtap.{is_production}
use geodineum_comms.Message.{should_receive}
use geodineum_comms.Settings.Store.{get_settings}
use geodineum_comms.Router.Dispatcher.{dispatch_to, determine_channels, first_rule, dispatch_one}
use geodineum_comms.Router.Channel.{
  MessageDispatcher, dispatch_to_channel, plan, plan_with, get_channel_config, filter_recipients,
  send_all, count_send, send_outcome, join,
}
use geodineum_comms.Router.Outcome.{note, skip_of, add_failed, add_sent, has_retryable_failures}
use geodineum_comms.Daemon.Failures.{IsAwaited, failures_are_retried}
use geodineum_comms.Retry.{Reply, get_retry_state, fresh}
use geodineum_comms.Retry.Attempts.{reachable}
use geodineum_comms.Router.Channel.{send_block}
use geodineum_comms.Router.Channel.Gate.{Grows}
use geodineum_comms.Router.Outcome.{no_result}
use geodineum_comms.Router.Dispatcher.{dispatch, dispatch_filtered, dispatch_loop}
use geodineum_comms.Router.Dispatcher.Sends.{IsAllowedBySite, dispatch_filtered_sends}
use geodineum_comms.Router.Dispatcher.Accounting.{IsAccounted}
use geodineum_comms.Router.Target.{target_of}
use geodineum_comms.Router.Target.Choice.{Chooses, target_of-Chooses}
use geodineum_comms.Daemon.{process_message, acknowledge}
use geodineum_comms.Daemon.Fence.{IsFenced, process_message_fence}
use geodineum_comms.Daemon.Sends.{IsRouted, process_message_sends}
use geodineum_comms.Examples.{
  refusing, served, failed_result, setup, moment, contact, daemon, world, dispatcher, providers,
  shop,
}

-- The mail server refuses the sample message.
refused_dispatch :
    dispatch refusing.providers refusing.dispatcher contact world ≡ (served, ok failed_result)
unfolding dispatch dispatch_filtered get_settings dispatch_to determine_channels first_rule
    dispatch_loop dispatch_one dispatch_to_channel plan plan_with send_block is_production
    get_channel_config filter_recipients should_receive send_all count_send send_outcome join note
    skip_of add_failed add_sent to_string lookup insert
refused_dispatch = refl

refused_filtered :
    dispatch_filtered refusing.providers refusing.dispatcher contact none world
    ≡ (served, ok failed_result)
unfolding dispatch
refused_filtered = refused_dispatch

none_yet : IsAccounted 0 (no_result "m1")
unfolding has_retryable_failures
none_yet = record { total = refl; shared = refl; again = refl }

abbrev held : MessageDispatcher
held = record dispatcher { delivery_off = true }

held_block : send_block true false "production" ≡ some "delivery_off"
unfolding send_block
held_block = refl

process_message_sends_example :
    Grows
      (IsRouted setup moment contact daemon)
      []
      (process_message setup moment contact "1-0" daemon).world.sent
process_message_sends_example = process_message_sends setup moment contact "1-0" daemon

process_message_fence_example :
    IsFenced setup moment contact "1-0" daemon (process_message setup moment contact "1-0" daemon)
process_message_fence_example = process_message_fence setup moment contact "1-0" daemon

never_failed : get_retry_state reachable 5_000 "shop" "m1" [] ≡ Reply.ok none
unfolding get_retry_state lookup
never_failed = refl

failures_are_retried_example :
    IsAwaited refusing moment contact "1-0" world served failed_result refused_dispatch daemon
      (acknowledge refusing moment contact "1-0" failed_result daemon)
      none
unfolding fresh
failures_are_retried_example =
    failures_are_retried refusing moment contact "1-0" world served failed_result refused_dispatch
      daemon none refl refl never_failed (omega arith) (λ r. omega arith)

dispatch_filtered_sends_example :
    Grows
      (IsAllowedBySite providers dispatcher contact none world)
      []
      (dispatch_filtered providers dispatcher contact none world).0.sent
dispatch_filtered_sends_example = dispatch_filtered_sends providers dispatcher contact none world

target_of-Chooses_example :
    Chooses dispatcher providers shop contact world
      (target_of providers dispatcher shop contact none world)
target_of-Chooses_example = target_of-Chooses dispatcher providers shop contact world none refl
