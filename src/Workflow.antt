-- ===== src/Workflow.antt =====
-- src/inbound/workflow_dispatch.rs: which texts of an operator ask for a workflow, and which requests
-- reach the workflow engine. Upper case, JSON, the clock and the answers of ValKey are arguments.
pub mod Whitelist
use Prim.Native.String.{String, ◌++◌}
use geodineum_comms.Prelude.{
  ℕ, ◌==◌, Bool, true, false, not, ◌&&◌, ◌||◌, Option, none, some, List, [], ◌∷◌, ltb, eqb,
  if◌then◌else◌,
}
use geodineum_comms.Prelude.Lists.{append}
use geodineum_comms.Prelude.Dict.{Dict, or_else}
use geodineum_comms.Prelude.Texts.{contains}
use geodineum_comms.Prelude.Chars.{
  trim, split_whitespace, is_alphanumeric, all_codes, is_empty_text, byte_length,
}

abbrev pub allowed_workflow_ids : List String
allowed_workflow_ids =
    "rolling_update" ∷ "backup" ∷ "lockdown" ∷ "unlock" ∷ "restart_service" ∷ "deploy" ∷ []

abbrev pub allowed_param_keys : List String
allowed_param_keys = "scope" ∷ "target" ∷ "service" ∷ []

abbrev pub is_param_code : ℕ → Bool
is_param_code c = is_alphanumeric c || (eqb c b'_' || eqb c b'-')

unfoldable pub is_safe_param_value : String → Bool
is_safe_param_value value =
    if is_empty_text value || ltb 64 (byte_length value)
    then false
    else all_codes is_param_code value

pub record WorkflowIntent : Type 0 where
  pub workflow_id : String
  pub description : String
  pub params : Dict String

pub record WorkflowDispatcher : Type 0 where
  pub workflow_stream : String

unfoldable pub new : String → String → WorkflowDispatcher
new site_id environment = record {
  workflow_stream = "{" ++ site_id ++ "}:gnode:comms:workflows:" ++ environment;
}

abbrev pub intent : String → String → String → String → WorkflowIntent
intent workflow_id description key value = record {
  workflow_id = workflow_id;
  description = description;
  params = (key, value) ∷ [];
}

-- `parts.get(1)`
abbrev pub second_part : List String → Option String
second_part [] = none
second_part (x ∷ []) = none
second_part (x ∷ y ∷ ys) = some y

abbrev pub restart : Option String → Option WorkflowIntent
restart none = none
restart (some service) =
    some (intent "restart_service" ("Restart service: " ++ service) "service" service)

abbrev pub intent_of : List String → Option WorkflowIntent
intent_of [] = none
intent_of (verb ∷ rest) =
    let target = or_else (second_part (verb ∷ rest)) "ALL" in
    if verb == "UPDATE"
    then some (intent "rolling_update" ("Rolling update (scope: " ++ target ++ ")") "scope" target)
    else if verb == "BACKUP"
    then some (intent "backup" ("Backup (target: " ++ target ++ ")") "target" target)
    else if verb == "LOCKDOWN"
    then some (intent "lockdown" ("Security lockdown (target: " ++ target ++ ")") "target" target)
    else if verb == "UNLOCK"
    then some (intent "unlock" ("Release lockdown (target: " ++ target ++ ")") "target" target)
    else if verb == "RESTART"
    then restart (second_part (verb ∷ rest))
    else if verb == "DEPLOY"
    then some (intent "deploy" ("Deploy (target: " ++ target ++ ")") "target" target)
    else none

unfoldable pub recognize_intent : (String → String) → String → Option WorkflowIntent
recognize_intent to_uppercase text = intent_of (split_whitespace (to_uppercase (trim text)))

-- What ValKey, the clock and serde_json give while a request is made: whether a group reads the stream,
-- the error of `XADD`, if it has one, and the JSON of the parameters.
pub record Engine : Type 0 where
  pub has_consumer : Bool
  pub xadd_error : Option String
  pub millis : String
  pub stamp : String
  pub encode : Dict String → String

-- The first parameter that is not allowed.
unfoldable pub rejection : Dict String → Option String
rejection [] = none
rejection ((key, value) ∷ params) =
    let rest = rejection params in
    if not (contains key allowed_param_keys)
    then some ("rejected: workflow param key '" ++ key ++ "' not in whitelist")
    else if not (is_safe_param_value value)
    then some ("rejected: workflow param value for '" ++ key ++ "' contains disallowed characters")
    else rest

-- What `dispatch` gives: an execution id, or why there is none.
pub data Dispatched : Type 0 where
  queued refused : String → Dispatched

-- An entry of the engine's stream.
pub record Request : Type 0 where
  pub stream : String
  pub execution_id : String
  pub workflow_id : String
  pub description : String
  pub params_json : String
  pub operator_id : String
  pub operator_name : String
  pub status : String
  pub ts : String

abbrev pub request_of : WorkflowDispatcher → Engine → WorkflowIntent → String → String → Request
request_of d e i operator_id operator_name = record {
  stream = d.workflow_stream;
  execution_id = "wf-" ++ i.workflow_id ++ "-" ++ e.millis;
  workflow_id = i.workflow_id;
  description = i.description;
  params_json = e.encode i.params;
  operator_id = operator_id;
  operator_name = operator_name;
  status = "pending";
  ts = e.stamp;
}

abbrev pub add_request : Option String → Request → List Request → List Request × Dispatched
add_request none q log = (append log (q ∷ []), queued q.execution_id)
add_request (some error) q log = (log, refused ("Workflow dispatch failed: " ++ error))

abbrev pub request_if :
    Option String
    → WorkflowDispatcher
    → Engine
    → WorkflowIntent
    → String
    → String
    → List Request
    → List Request × Dispatched
request_if (some why) d e i operator_id operator_name log = (log, refused why)
request_if none d e i operator_id operator_name log =
    if e.has_consumer
    then add_request e.xadd_error (request_of d e i operator_id operator_name) log
    else (
      log,
      refused
          "no workflow engine is connected (nothing consumes the workflow stream) — dispatch refused",
    )

unfoldable pub dispatch :
    WorkflowDispatcher
    → Engine
    → WorkflowIntent
    → String
    → String
    → List Request
    → List Request × Dispatched
dispatch d e i operator_id operator_name log =
    if contains i.workflow_id allowed_workflow_ids
    then request_if (rejection i.params) d e i operator_id operator_name log
    else (
      log,
      refused ("rejected: workflow_id '" ++ i.workflow_id ++ "' not in dispatch whitelist"),
    )

unfoldable pub format_dispatch_confirmation : WorkflowIntent → String → String
format_dispatch_confirmation i execution_id =
    "Workflow dispatched: <b>" ++ i.description ++ "</b>\nExecution ID: <code>" ++ execution_id
    ++ "</code>\n\nThe workflow engine will process this and report progress."
