-- ===== src/Agent/HumanInput.antt =====
-- crates/jux-core/src/tools/human_input.rs, and what crates/jux-core/src/main_loop/mod.rs finds
-- out about a run that waits for input.
use jux.Base.{
  Bool, not, ◌||◌, ◌&&◌, Text, codes, text_eq, List, [], ◌∷◌, ◌++◌, map, any, find, Option, none,
  some, Result, ok, err, ◌>>=◌, map_err, if◌then◌else◌,
}
use jux.State.Model.{Step, StepPayload, AssistantResponseItem, tool_call}
use jux.Agent.Messages.{filter_map, named, human_input_tool_name}
use jux.Agent.Monad.{HumanInputRequest}

pub record ToolCallRequest (Json : Type 0) : Type 0 where
  pub id : Text
  pub call_id : Option Text
  pub name : Text
  pub arguments : Json

pub record SkillInvocation : Type 0 where
  pub id : Text
  pub call_id : Option Text
  pub skill_name : Text
  pub task : Text

pub data PendingHumanInput (Json : Type 0) : Type 0 where
  main : ToolCallRequest Json → PendingHumanInput Json
  skill : SkillInvocation → ToolCallRequest Json → PendingHumanInput Json

-- `PendingHumanInput::tool_call`
abbrev pub pending_tool_call : {Json : Type 0} → PendingHumanInput Json → ToolCallRequest Json
pending_tool_call (main call) = call
pending_tool_call (skill invocation call) = call

abbrev pub or_else : {A : Type 0} → Option A → Option A → Option A
or_else none o = o
or_else (some a) o = some a

-- `iter().find_map`
abbrev pub find_map : {A B : Type 0} → (A → Option B) → List A → Option B
find_map f [] = none
find_map f (a ∷ rest) = or_else (f a) (find_map f rest)

-- `iter().rev().find_map`
abbrev pub find_map_last : {A B : Type 0} → (A → Option B) → List A → Option B
find_map_last f [] = none
find_map_last f (a ∷ rest) = or_else (find_map_last f rest) (f a)

-- `join` of texts
abbrev pub join_texts : Text → List Text → Text
join_texts separator [] = []
join_texts separator (t ∷ []) = t
join_texts separator (t ∷ next ∷ rest) = t ++ (separator ++ join_texts separator (next ∷ rest))

-- `HumanInputRequest::validate`
unfoldable pub validate : HumanInputRequest → Text → Result Text (Unit {0})
validate request input =
    if request.allow_free_text || any (λ o. text_eq o.id input) request.options
    then ok tt
    else err (
        codes "human input must match one of the option ids: "
        ++ join_texts (codes ", ") (map (λ o. o.id) request.options))

abbrev pub parsed : Result Text HumanInputRequest → Option HumanInputRequest
parsed (ok request) = some request
parsed (err error) = none

module _ {Json : Type 0} where
  -- `HumanInputRequest::parse`, over the parser of `serde_json`
  abbrev pub parse_request :
      (Json → Result Text HumanInputRequest) → Json → Result Text HumanInputRequest
  parse_request parser arguments =
      map_err (λ error. codes "invalid human_input tool arguments: " ++ error) (parser arguments)

  unfoldable pub validate_human_input :
      (Json → Result Text HumanInputRequest) → Json → Text → Result Text (Unit {0})
  validate_human_input parser arguments input = do
    request ← parse_request parser arguments
    validate request input

  abbrev pub requested :
      (Json → Result Text HumanInputRequest) → AssistantResponseItem Json → Option HumanInputRequest
  requested parser (tool_call id call_id name arguments) =
      if text_eq name human_input_tool_name then parsed (parse_request parser arguments) else none
  requested parser _ = none

  abbrev pub requested_in :
      (Json → Result Text HumanInputRequest) → StepPayload Json → Option HumanInputRequest
  requested_in parser (StepPayload.assistant_response message_id usage items) =
      find_map_last (requested parser) items
  requested_in parser (StepPayload.skill_assistant_response invocation message_id items) =
      find_map_last (requested parser) items
  requested_in parser _ = none

  unfoldable pub latest_human_input_request :
      (Json → Result Text HumanInputRequest) → List (Step Json) → Option HumanInputRequest
  latest_human_input_request parser steps =
      find_map_last (λ step. requested_in parser step.payload) steps

  -- `ToolCallRequest::from_assistant_item`
  abbrev pub from_assistant_item : AssistantResponseItem Json → Option (ToolCallRequest Json)
  from_assistant_item (tool_call id call_id name arguments) =
      some (record { id = id; call_id = call_id; name = name; arguments = arguments })
  from_assistant_item _ = none

  abbrev pub human_input_tool_call :
      List (AssistantResponseItem Json) → Option (AssistantResponseItem Json)
  human_input_tool_call calls = find (named human_input_tool_name) calls

  abbrev pub resolved_main_id : StepPayload Json → Option Text
  resolved_main_id (StepPayload.tool_result id call_id content) = some id
  resolved_main_id _ = none

  abbrev pub resolved_skill_id : StepPayload Json → Option (Text × Text)
  resolved_skill_id (StepPayload.skill_tool_result invocation id call_id content) =
      some (invocation, id)
  resolved_skill_id _ = none

  -- The calls with a result, as the sets `resolved_main_ids` and `resolved_skill_ids` have them.
  unfoldable pub resolved_main : List (Step Json) → Text → Bool
  resolved_main steps id = any (text_eq id) (filter_map (λ s. resolved_main_id s.payload) steps)

  unfoldable pub resolved_skill : List (Step Json) → Text → Text → Bool
  resolved_skill steps invocation id =
      any (λ (p : Text × Text). text_eq invocation p.0 && text_eq id p.1)
        (filter_map (λ s. resolved_skill_id s.payload) steps)

  abbrev pub unresolved_call : (Text → Bool) → ToolCallRequest Json → Option (ToolCallRequest Json)
  unresolved_call is_resolved call =
      if text_eq call.name human_input_tool_name && not (is_resolved call.id)
      then some call
      else none

  abbrev pub unresolved_item :
      (Text → Bool) → Option (ToolCallRequest Json) → Option (ToolCallRequest Json)
  unresolved_item is_resolved none = none
  unresolved_item is_resolved (some call) = unresolved_call is_resolved call

  unfoldable pub unresolved_human_input_call :
      List (AssistantResponseItem Json) → (Text → Bool) → Option (ToolCallRequest Json)
  unresolved_human_input_call items is_resolved =
      find_map_last (λ item. unresolved_item is_resolved (from_assistant_item item)) items

  abbrev pub invocation_in : Text → StepPayload Json → Option SkillInvocation
  invocation_in wanted (StepPayload.skill_started id call_id skill_name task) =
      if text_eq id wanted
      then some (record { id = id; call_id = call_id; skill_name = skill_name; task = task })
      else none
  invocation_in wanted _ = none

  unfoldable pub skill_invocation : List (Step Json) → Text → Option SkillInvocation
  skill_invocation steps invocation = find_map (λ step. invocation_in invocation step.payload) steps

  abbrev pub pending_main : Option (ToolCallRequest Json) → Option (PendingHumanInput Json)
  pending_main none = none
  pending_main (some call) = some (main call)

  abbrev pub pending_skill :
      Option (ToolCallRequest Json) → Option SkillInvocation → Option (PendingHumanInput Json)
  pending_skill none invocation = none
  pending_skill (some call) none = none
  pending_skill (some call) (some invocation) = some (skill invocation call)

  abbrev pub pending_in : List (Step Json) → StepPayload Json → Option (PendingHumanInput Json)
  pending_in steps (StepPayload.assistant_response message_id usage items) =
      pending_main (unresolved_human_input_call items (resolved_main steps))
  pending_in steps (StepPayload.skill_assistant_response invocation message_id items) =
      pending_skill (unresolved_human_input_call items (resolved_skill steps invocation))
        (skill_invocation steps invocation)
  pending_in steps _ = none

  unfoldable pub latest_pending_human_input : List (Step Json) → Option (PendingHumanInput Json)
  unfolding unresolved_human_input_call skill_invocation resolved_main resolved_skill
  latest_pending_human_input steps = find_map_last (λ step. pending_in steps step.payload) steps
