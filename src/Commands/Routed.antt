-- ===== src/Commands/Routed.antt =====
-- Where src/inbound/command_router.rs sends a message.
use geodineum_comms.Prelude.{String, ◌≡◌, true, false, none, some, ◌⊎◌}
use geodineum_comms.Errors.{Result, ok, err}
use geodineum_comms.Conversation.{Chats, Clock, Codec, Reached}
use geodineum_comms.Conversation.Context.{resolve_reply}
use geodineum_comms.Conversation.Context.Resolved.{IsResolved}
use geodineum_comms.Workflow.{WorkflowDispatcher, recognize_intent}
use geodineum_comms.Commands.{
  InboundMessage, CommandAction, local, inference, component_reply, set_pipeline, reset, start,
  history, callback, chain_inference, workflow_dispatch, no_op, CommandRouter, Cases, parse_text,
}

-- a typed text that looks like a reply command
pub record IsTypedReply (k : Cases) (msg : InboundMessage) : Type 0 where
  pub typed : msg.is_callback ≡ false
  pub no_slash : (parse_text k msg.text).is_slash ≡ false
  pub like_reply : (parse_text k msg.text).is_reply_command ≡ true

module _ (router : CommandRouter) (k : Cases) (c : Clock) (j : Codec) (r : Reached)
    (msg : InboundMessage) (site_id pipeline session_id : String) (s : Chats) where
  -- Why a message may reach a component or the workflow engine.
  abbrev pub IsJustified : Chats → CommandAction → Type 0
  IsJustified t (component_reply found) =
      IsTypedReply k msg × IsResolved c j site_id msg.chat_id msg.text s found t
  IsJustified t (workflow_dispatch i) =
      IsTypedReply k msg
      × ((d : WorkflowDispatcher) × (router.workflow_dispatcher ≡ some d)
          × (recognize_intent k.to_uppercase msg.text ≡ some i))
      × ((resolve_reply c j r msg.chat_id site_id msg.text s).1 ≡ ok none)
  IsJustified t (local command params) = t ≡ s
  IsJustified t (inference prompt p id) = Unit {0}
  IsJustified t (set_pipeline p) = t ≡ s
  IsJustified t reset = t ≡ s
  IsJustified t start = t ≡ s
  IsJustified t history = t ≡ s
  IsJustified t (callback text query_id message_id) = (t ≡ s) × (msg.is_callback ≡ true)
  IsJustified t (chain_inference prompt id) = router.chain_enabled ≡ true
  IsJustified t (no_op reason) = ⊥

  abbrev pub IsJustifiedAnswer : Chats × Result CommandAction → Type 0
  IsJustifiedAnswer (t, ok action) = IsJustified t action
  IsJustifiedAnswer (t, err e) = Unit {0}

  -- The answer is justified, and a slash command or a button has changed no conversation.
  abbrev pub IsAnswer : Chats × Result CommandAction → Type 0
  IsAnswer x =
      IsJustifiedAnswer x
      × ((msg.is_callback ≡ true) ⊎ ((parse_text k msg.text).is_slash ≡ true) → x.0 ≡ s)
