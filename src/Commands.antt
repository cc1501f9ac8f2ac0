-- ===== src/Commands.antt =====
-- `CommandRouter` of src/inbound/command_router.rs: what the daemon does with the text of an operator.
-- Upper and lower case and the conversation's `Clock`, `Codec` and `Reached` are arguments.
pub mod Routed
use Prim.Native.Char.{code}
use Prim.Native.String.{String, ◌++◌}
use geodineum_comms.Prelude.{
  ℕ, ◌==◌, Bool, true, false, ◌&&◌, ◌||◌, Option, none, some, List, [], ◌∷◌, leb, eqb, length,
  if◌then◌else◌,
}
use geodineum_comms.Prelude.Texts.{contains}
use geodineum_comms.Prelude.Chars.{
  trim, split_whitespace, split_once, is_upper, all_codes, byte_length,
}
use geodineum_comms.Errors.{CommsError, Result, ok, err}
use geodineum_comms.Conversation.{Chats, Clock, Codec, Reached, ContextResolution}
use geodineum_comms.Conversation.Context.{resolve_reply}
use geodineum_comms.Workflow.{WorkflowIntent, WorkflowDispatcher, recognize_intent}

-- `InboundMessage` (src/inbound/telegram_receiver.rs); the ids of chats and people are decimal texts.
pub record InboundMessage : Type 0 where
  pub text : String
  pub chat_id : String
  pub operator_id : String
  pub operator_name : String
  pub channel_source : String
  pub reply_to_msg_id : Option ℕ
  pub timestamp : String
  pub chat_type : String
  pub is_callback : Bool
  pub callback_query_id : String
  pub callback_message_id : Option ℕ

pub record ParsedCommand : Type 0 where
  pub command : String
  pub params : List String
  pub is_slash : Bool
  pub is_reply_command : Bool

pub data CommandAction : Type 0 where
  local : (command : String) (params : List String) → CommandAction
  inference : (prompt pipeline session_id : String) → CommandAction
  component_reply : (resolution : ContextResolution) → CommandAction
  set_pipeline : (pipeline : String) → CommandAction
  reset start history : CommandAction
  callback : (text query_id : String) (message_id : Option ℕ) → CommandAction
  chain_inference : (prompt session_id : String) → CommandAction
  workflow_dispatch : (intent : WorkflowIntent) → CommandAction
  no_op : (reason : String) → CommandAction

pub record CommandRouter : Type 0 where
  pub local_commands : List String
  pub workflow_dispatcher : Option WorkflowDispatcher
  pub chain_enabled : Bool

unfoldable pub new : CommandRouter
new = record {
  local_commands = "status" ∷ "health" ∷ "help" ∷ "stats" ∷ "sites" ∷ "visitors" ∷ [];
  workflow_dispatcher = none;
  chain_enabled = false;
}

unfoldable pub with_workflow_dispatcher : WorkflowDispatcher → CommandRouter → CommandRouter
with_workflow_dispatcher d router = record router { workflow_dispatcher = some d }

unfoldable pub with_inference_chain : Bool → CommandRouter → CommandRouter
with_inference_chain enabled router = record router { chain_enabled = enabled }

abbrev first_or_empty : List String → String
first_or_empty [] = ""
first_or_empty (w ∷ ws) = w

abbrev pub is_action_code : ℕ → Bool
is_action_code c = is_upper c || eqb c b'_'

unfoldable pub looks_like_reply_command : String → Bool
looks_like_reply_command text =
    let word = first_or_empty (split_whitespace text) in
    leb 3 (byte_length word)
    && (all_codes is_action_code word && leb (length (split_whitespace text)) 4)

-- `strip_prefix('/')` behind the test for it
abbrev pub behind_slash : String → Option String
behind_slash String.[] = none
behind_slash (String.◌∷◌ c s) = if eqb (code c) b'/' then some s else none

abbrev pub params_of : Option String → List String
params_of none = []
params_of (some rest) = split_whitespace rest

-- Upper case, and lower case.
pub record Cases : Type 0 where
  pub to_uppercase : String → String
  pub to_lowercase : String → String

-- a text without a slash in front
abbrev pub parse_plain : Cases → String → ParsedCommand
parse_plain k text =
    if looks_like_reply_command text
    then record {
      command = k.to_uppercase (split_once text).0;
      params = params_of (split_once text).1;
      is_slash = false;
      is_reply_command = true;
    }
    else record { command = ""; params = []; is_slash = false; is_reply_command = false }

abbrev pub parse_trimmed : Cases → String → Option String → ParsedCommand
parse_trimmed k text none = parse_plain k text
parse_trimmed k text (some without_slash) = record {
  command = k.to_lowercase (split_once without_slash).0;
  params = params_of (split_once without_slash).1;
  is_slash = true;
  is_reply_command = false;
}

unfoldable pub parse_text : Cases → String → ParsedCommand
parse_text k text = parse_trimmed k (trim text) (behind_slash (trim text))

abbrev pub join_words : List String → String
join_words [] = ""
join_words (w ∷ []) = w
join_words (w ∷ v ∷ ws) = w ++ " " ++ join_words (v ∷ ws)

abbrev pub pipeline_command : List String → String → CommandAction
pipeline_command [] current_pipeline = local "pipeline_info" (current_pipeline ∷ [])
pipeline_command (name ∷ names) current_pipeline = set_pipeline name

unfoldable pub handle_slash : CommandRouter → ParsedCommand → String → CommandAction
handle_slash router parsed current_pipeline =
    let command = parsed.command in
    if command == "start"
    then start
    else if command == "history"
    then history
    else if command == "pipeline" || command == "p"
    then pipeline_command parsed.params current_pipeline
    else if command == "reset" || (command == "clear" || command == "new")
    then reset
    else if contains command router.local_commands
    then local command parsed.params
    else inference ("/" ++ command ++ " " ++ join_words parsed.params) current_pipeline ""

-- Text for the inference service.
abbrev pub to_inference : CommandRouter → InboundMessage → String → String → CommandAction
to_inference router msg pipeline session_id =
    if router.chain_enabled
    then chain_inference msg.text session_id
    else inference msg.text pipeline session_id

abbrev pub intent_by : Cases → String → Option WorkflowDispatcher → Option WorkflowIntent
intent_by k text none = none
intent_by k text (some d) = recognize_intent k.to_uppercase text

abbrev pub workflow_or : Option WorkflowIntent → CommandAction → CommandAction
workflow_or none action = action
workflow_or (some i) action = workflow_dispatch i

-- Behind the resolution of a reply.
abbrev pub replied :
    CommandAction → Chats × Result (Option ContextResolution) → Chats × Result CommandAction
replied otherwise (s, err e) = (s, err e)
replied otherwise (s, ok none) = (s, ok otherwise)
replied otherwise (s, ok (some resolution)) = (s, ok (component_reply resolution))

unfoldable pub route_command :
    CommandRouter
    → Cases
    → Clock
    → Codec
    → Reached
    → InboundMessage
    → String
    → String
    → String
    → Chats
    → Chats × Result CommandAction
route_command router k c j r msg site_id pipeline session_id s =
    let parsed = parse_text k msg.text in
    let otherwise = to_inference router msg pipeline session_id in
    if msg.is_callback
    then (s, ok (callback msg.text msg.callback_query_id msg.callback_message_id))
    else if parsed.is_slash
    then (s, ok (handle_slash router parsed pipeline))
    else if parsed.is_reply_command
    then replied (workflow_or (intent_by k msg.text router.workflow_dispatcher) otherwise)
        (resolve_reply c j r msg.chat_id site_id msg.text s)
    else (s, ok otherwise)
