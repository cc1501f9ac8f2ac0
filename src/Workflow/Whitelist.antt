-- ===== src/Workflow/Whitelist.antt =====
-- What src/inbound/workflow_dispatch.rs lets through to the workflow engine.
use geodineum_comms.Prelude.{
  String, ◌==◌, ◌≡◌, refl, inl, inr, ◌⊎◌, Bool, true, false, Bool-cases, Option, none, some, List,
  [], ◌∷◌, All, if◌then◌else◌,
}
use Prim.Native.String.{◌++◌}
use geodineum_comms.Prelude.{some_inj}
use geodineum_comms.Prelude.Lists.{append}
use geodineum_comms.Prelude.Dict.{Dict}
use geodineum_comms.Prelude.Chars.{split_whitespace, trim}
use geodineum_comms.Prelude.Texts.{contains}
use geodineum_comms.Workflow.{
  allowed_workflow_ids, allowed_param_keys, is_safe_param_value, WorkflowIntent, WorkflowDispatcher,
  restart, second_part, intent_of, recognize_intent, Engine, rejection, Dispatched, queued, refused,
  Request, request_of, dispatch,
}

-- a parameter that the engine may be given
abbrev pub IsSafe : String × String → Type 0
IsSafe (key, value) = (contains key allowed_param_keys ≡ true) × (is_safe_param_value value ≡ true)

rejection-none : (params : Dict String) → rejection params ≡ none → All IsSafe params
unfolding rejection
rejection-none [] h = tt
rejection-none ((key, value) ∷ params) h = elim (Bool-cases (contains key allowed_param_keys)) [
  | inr other ↦ absurd (rejected (rw other at h))
  | inl known ↦ elim (Bool-cases (is_safe_param_value value)) [
    | inl safe ↦ ((known, safe), rejection-none params (simp (known, safe) at h))
    | inr unsafe ↦ absurd (rejected (simp (known, unsafe) at h))
  ]
]
  where
    rejected : {why : String} → some why ≡ none → ⊥
    rejected q = cc

-- A request that reached the engine: its workflow is known, its parameters are safe, and an engine reads
-- the stream.
pub record IsQueued (d : WorkflowDispatcher) (e : Engine) (i : WorkflowIntent)
    (operator_id operator_name : String) (log : List Request) (r : List Request × Dispatched)
    : Type 0 where
  pub known : contains i.workflow_id allowed_workflow_ids ≡ true
  pub safe : All IsSafe i.params
  pub consumed : e.has_consumer ≡ true
  pub result : r ≡ (
    append log (request_of d e i operator_id operator_name ∷ []),
    queued ("wf-" ++ i.workflow_id ++ "-" ++ e.millis),
  )

-- A dispatch adds its one request to the engine's stream and gives its execution id, where the workflow
-- is known, each parameter is safe and an engine reads the stream; or it is refused and adds nothing.
pub dispatch_requests :
    (d : WorkflowDispatcher) (e : Engine) (i : WorkflowIntent) (operator_id operator_name : String)
    (log : List Request)
    → IsQueued d e i operator_id operator_name log (dispatch d e i operator_id operator_name log)
      ⊎ ((why : String) × (dispatch d e i operator_id operator_name log ≡ (log, refused why)))
unfolding dispatch
dispatch_requests d e i operator_id operator_name log =
    by_tests (contains i.workflow_id allowed_workflow_ids) refl (rejection i.params) refl
      e.has_consumer refl e.xadd_error refl
  where
    by_tests :
        (known : Bool)
        → contains i.workflow_id allowed_workflow_ids ≡ known
        → (why : Option String) → rejection i.params ≡ why
        → (read : Bool) → e.has_consumer ≡ read
        → (error : Option String) → e.xadd_error ≡ error
        → IsQueued d e i operator_id operator_name log
            (dispatch d e i operator_id operator_name log)
          ⊎ ((why : String) × (dispatch d e i operator_id operator_name log ≡ (log, refused why)))
    by_tests false ek why ew read er error ex =
        inr (
          "rejected: workflow_id '" ++ i.workflow_id ++ "' not in dispatch whitelist",
          simp ek refl,
        )
    by_tests true ek (some why) ew read er error ex = inr (why, simp (ek, ew) refl)
    by_tests true ek none ew false er error ex = inr (
      "no workflow engine is connected (nothing consumes the workflow stream) — dispatch refused",
      simp (ek, ew, er) refl,
    )
    by_tests true ek none ew true er (some error) ex =
        inr ("Workflow dispatch failed: " ++ error, simp (ek, ew, er, ex) refl)
    by_tests true ek none ew true er none ex = inl (record {
      known = ek;
      safe = rejection-none i.params ew;
      consumed = er;
      result = simp (ek, ew, er, ex) refl;
    })

-- a request that the whitelists allow, but for the value of its parameter
abbrev pub IsListed : WorkflowIntent → Type 0
IsListed i =
    (contains i.workflow_id allowed_workflow_ids ≡ true)
    × All (λ p. contains p.0 allowed_param_keys ≡ true) i.params

abbrev AreListed : Option WorkflowIntent → Type 0
AreListed none = Unit {0}
AreListed (some i) = IsListed i

restart-AreListed : (o : Option String) → AreListed (restart o)
restart-AreListed none = tt
restart-AreListed (some service) = (refl, (refl, tt))

if-AreListed :
    (b : Bool) (x y : Option WorkflowIntent)
    → AreListed x
    → AreListed y
    → AreListed (if b then x else y)
if-AreListed true x y h k = h
if-AreListed false x y h k = k

intent_of-AreListed : (parts : List String) → AreListed (intent_of parts)
intent_of-AreListed [] = tt
intent_of-AreListed (verb ∷ rest) =
    if-AreListed (verb == "UPDATE") _ _ (refl, (refl, tt))
      (if-AreListed (verb == "BACKUP") _ _ (refl, (refl, tt))
        (if-AreListed (verb == "LOCKDOWN") _ _ (refl, (refl, tt))
          (if-AreListed (verb == "UNLOCK") _ _ (refl, (refl, tt))
            (if-AreListed (verb == "RESTART") _ _ (restart-AreListed (second_part (verb ∷ rest)))
              (if-AreListed (verb == "DEPLOY") _ _ (refl, (refl, tt)) tt)))))

-- Each workflow that an operator's text is read as is on the whitelist of workflows, and so are the keys
-- of its parameters.
pub recognize_intent-IsListed :
    (to_uppercase : String → String) (text : String) (i : WorkflowIntent)
    → recognize_intent to_uppercase text ≡ some i
    → IsListed i
unfolding recognize_intent
recognize_intent-IsListed to_uppercase text i h =
    listed _ (intent_of-AreListed (split_whitespace (to_uppercase (trim text)))) h
  where
    listed : (o : Option WorkflowIntent) → AreListed o → o ≡ some i → IsListed i
    listed none l q = absurd (none_some q)
      where
        none_some : none ≡ some i → ⊥
        none_some e = cc
    listed (some j) l q = rw (← some_inj q) l
