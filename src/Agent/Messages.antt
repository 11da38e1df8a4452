-- ===== src/Agent/Messages.antt =====
-- crates/jux-core/src/main_loop/mod.rs: what a model is told of a session. Messages and answers of
-- `rig` are data with what the code reads and writes of them.
use jux.Base.{
  ℕ, Bool, true, false, Text, codes, text_eq, List, [], ◌∷◌, ◌++◌, map, Option, none, some, keep,
  length, zero, suc, is_empty, if◌then◌else◌, Result, ok, err,
}
use jux.Agent.Values.{Values}
use jux.Agent.Discovery.{strip_text}
use jux.State.Model.{
  SessionContextPayload, SessionContextItem, StepPayload, Step, AssistantResponseItem, text,
  reasoning, tool_call, visible_to_llm,
}

-- `rig::message::AssistantContent`; a reasoning is its display text.
pub data AssistantContent (Json : Type 0) : Type 0 where
  text_content reasoning_content : Text → AssistantContent Json
  tool_call_content : Text → Option Text → Text → Json → AssistantContent Json
  image_content : AssistantContent Json

-- `rig::message::Message`; a tool result has its id, its call id and its text.
pub data Message (Json : Type 0) : Type 0 where
  system user : Text → Message Json
  tool_result : Text → Option Text → Text → Message Json
  assistant : Option Text → List (AssistantContent Json) → Message Json

pub record ToolDefinition (Json : Type 0) : Type 0 where
  pub name : Text
  pub description : Text
  pub parameters : Json

pub record LlmCompletionRequest (Json : Type 0) : Type 0 where
  pub prompt : Message Json
  pub history : List (Message Json)
  pub tools : List (ToolDefinition Json)

pub record AssistantTurn (Json : Type 0) : Type 0 where
  pub final_answer : Text
  pub tool_calls : List (AssistantResponseItem Json)
  pub items : List (AssistantResponseItem Json)

abbrev pub add_some : {B : Type 0} → Option B → List B → List B
add_some none bs = bs
add_some (some b) bs = b ∷ bs

-- `iter().filter_map`
abbrev pub filter_map : {A B : Type 0} → (A → Option B) → List A → List B
filter_map f [] = []
filter_map f (a ∷ as') = add_some (f a) (filter_map f as')

abbrev cons_last : {A : Type 0} → A → Option (A × List A) → Option (A × List A)
cons_last a none = some (a, [])
cons_last a (some (last, before)) = some (last, a ∷ before)

-- `slice::split_last`: the last element, and those before it.
abbrev pub split_last : {A : Type 0} → List A → Option (A × List A)
split_last [] = none
split_last (a ∷ rest) = cons_last a (split_last rest)

module _ {Json : Type 0} where
  -- The loop of `assistant_turn_from_response`, over the turn so far.
  unfoldable pub turn_from :
      AssistantTurn Json → List (AssistantContent Json) → Result Text (AssistantTurn Json)
  turn_from turn [] = ok turn
  turn_from turn (text_content t ∷ contents) =
      turn_from
        (record turn { final_answer = turn.final_answer ++ t; items = turn.items ++ text t ∷ [] })
        contents
  turn_from turn (tool_call_content id call_id name arguments ∷ contents) =
      let item = tool_call id call_id name arguments in
      turn_from
        (record turn { tool_calls = turn.tool_calls ++ item ∷ []; items = turn.items ++ item ∷ [] })
        contents
  turn_from turn (reasoning_content t ∷ contents) =
      turn_from
        (record turn {
          items = (if is_empty t then turn.items else turn.items ++ reasoning t ∷ []);
        })
        contents
  turn_from turn (image_content ∷ contents) =
      err (codes "LLM returned an unsupported image response")

  unfoldable pub assistant_turn_from_response :
      List (AssistantContent Json) → Result Text (AssistantTurn Json)
  unfolding turn_from
  assistant_turn_from_response contents =
      turn_from (record { final_answer = []; tool_calls = []; items = [] }) contents

  abbrev pub named : Text → AssistantResponseItem Json → Bool
  named wanted (tool_call id call_id name arguments) = text_eq name wanted
  named wanted _ = false

abbrev pub human_input_tool_name : Text
human_input_tool_name = codes "human_input"

abbrev pub call_skill_tool_name : Text
call_skill_tool_name = codes "call_skill"

abbrev pub is_some : {A : Type 0} → Option A → Bool
is_some none = false
is_some (some a) = true

abbrev length_less_one : Text → ℕ
length_less_one [] = 0
length_less_one (c ∷ content) = length content

-- `str::replace` of a pattern that is not empty; the first argument counts the characters of a match
-- that are still to be passed over.
unfoldable pub replace_from : ℕ → Text → Text → Text → Text
replace_from skip pattern by [] = []
replace_from (suc skip) pattern by (c ∷ content) = replace_from skip pattern by content
replace_from zero pattern by (c ∷ content) =
    let matched = by ++ replace_from (length_less_one pattern) pattern by content in
    let plain = c ∷ replace_from zero pattern by content in
    if is_some (strip_text pattern (c ∷ content)) then matched else plain

unfoldable pub workspace_relative_references : Text → Text
unfolding replace_from strip_text
workspace_relative_references content =
    replace_from 0 (codes "@/workspace/") (codes "@")
      (replace_from 0 (codes "@{/workspace/") (codes "@{") content)

module _ (values : Values) where
  open values use {Json, string, to_text, as_text, array_at, with_array_at}

  abbrev or_value : Json → Option Text → Json
  or_value value none = value
  or_value value (some content) = string content

  abbrev relative_text : Json → Text → Option Text → Json
  relative_text value content relative =
      if text_eq content (codes "/workspace") then string (codes ".") else or_value value relative

  abbrev relative_path : Json → Option Text → Json
  relative_path value none = value
  relative_path value (some content) =
      relative_text value content (strip_text (codes "/workspace/") content)

  abbrev with_relative : Json → Option (List Json) → Json
  with_relative arguments none = arguments
  with_relative arguments (some paths) =
      with_array_at (codes "args") (map (λ path. relative_path path (as_text path)) paths) arguments

  unfoldable pub workspace_relative_exec_arguments : Text → Json → Json
  unfolding strip_text
  workspace_relative_exec_arguments name arguments =
      if text_eq name (codes "exec")
      then with_relative arguments (array_at (codes "args") arguments)
      else arguments

  -- `assistant_response_item_to_chat_content`
  unfoldable pub item_to_chat_content : AssistantResponseItem Json → Option (AssistantContent Json)
  item_to_chat_content (text t) = some (text_content t)
  item_to_chat_content (tool_call id call_id name arguments) =
      some (tool_call_content id call_id name (workspace_relative_exec_arguments name arguments))
  item_to_chat_content (reasoning t) = none

  abbrev assistant_message : Option Text → List (AssistantContent Json) → Option (Message Json)
  assistant_message message_id [] = none
  assistant_message message_id (c ∷ content) = some (assistant message_id (c ∷ content))

  unfoldable pub assistant_response_to_chat_message :
      Option Text → List (AssistantResponseItem Json) → Option (Message Json)
  assistant_response_to_chat_message message_id items =
      assistant_message message_id (filter_map item_to_chat_content items)

  -- `step_to_chat_message`, of a step's payload
  unfoldable pub payload_to_chat_message : StepPayload Json → Option (Message Json)
  payload_to_chat_message (StepPayload.user_message content) =
      some (user (workspace_relative_references content))
  payload_to_chat_message (StepPayload.assistant_response message_id usage items) =
      assistant_response_to_chat_message message_id items
  payload_to_chat_message (StepPayload.tool_result id call_id content) =
      some (tool_result id call_id (to_text content))
  payload_to_chat_message _ = none

  unfoldable pub step_to_chat_message : Step Json → Option (Message Json)
  unfolding payload_to_chat_message
  step_to_chat_message step = payload_to_chat_message step.payload

  abbrev context_message : SessionContextPayload Json → Option (Message Json)
  context_message (SessionContextPayload.system_prompt content) = some (system content)
  context_message (SessionContextPayload.tool_definition name description parameters) = none

  abbrev context_tool : SessionContextPayload Json → Option (ToolDefinition Json)
  context_tool (SessionContextPayload.system_prompt content) = none
  context_tool (SessionContextPayload.tool_definition name description parameters) =
      some (record { name = name; description = description; parameters = parameters })

  -- `session_context_item_to_chat_message`
  abbrev pub item_to_chat_message : SessionContextItem Json → Option (Message Json)
  item_to_chat_message item = context_message item.payload

  -- `session_context_item_to_tool_definition`
  abbrev pub item_to_tool_definition : SessionContextItem Json → Option (ToolDefinition Json)
  item_to_tool_definition item = context_tool item.payload

  -- The messages that visible steps add.
  unfoldable pub visible_messages : List (Step Json) → List (Message Json)
  unfolding step_to_chat_message
  visible_messages steps = filter_map step_to_chat_message (keep (λ s. visible_to_llm s) steps)
