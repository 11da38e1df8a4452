-- ===== src/Agent/Prompt.antt =====
-- crates/jux-core/src/main_loop/mod.rs: the context of a session and of a skill's subflow.
use jux.Base.{
  ℕ, Bool, true, false, ◌&&◌, Text, codes, text_eq, List, [], ◌∷◌, ◌++◌, map, any, keep, length,
  is_empty, Option, none, some, Result, ok, err, ◌>>=◌, if◌then◌else◌,
}
use jux.State.Decimal.{decimal}
use jux.State.Ids.{parent}
use jux.State.Model.{
  SessionContextKind, SessionContextPayload, Step, StepPayload, AssistantResponseItem, tool_call,
  visible_to_llm,
}
use jux.State.Items.{Default}
use jux.Agent.Values.{Values}
use jux.Agent.Skills.{SkillDefinition, newline, render_skill_index}
use jux.Agent.Instructions.{InstructionDocument, render_instruction_documents}
use jux.Agent.Messages.{
  Message, ToolDefinition, add_some, step_to_chat_message, assistant_response_to_chat_message,
}
use jux.Agent.HumanInput.{SkillInvocation, find_map}

abbrev pub base_prompt : Text
base_prompt = codes "You are Jux, a concise coding agent."

abbrev pub with_section : Bool → Text → Text → Text
with_section true section prompt = prompt
with_section false section prompt = prompt ++ newline ∷ newline ∷ section

unfoldable pub system_prompt_with_context :
    List InstructionDocument → List SkillDefinition → List SkillDefinition → Text
system_prompt_with_context instructions skills active_skills =
    if is_empty instructions && (is_empty skills && is_empty active_skills)
    then base_prompt
    else with_section (is_empty skills) (render_skill_index skills) (
        with_section (is_empty instructions) (render_instruction_documents instructions)
          base_prompt)

abbrev pub tool_item : {Json : Type 0} → ToolDefinition Json → Default Json
tool_item tool = (
  SessionContextKind.tool_definition,
  SessionContextPayload.tool_definition tool.name tool.description tool.parameters,
)

-- The tools' definitions are arguments.
unfoldable pub default_session_context_items :
    {Json : Type 0}
    → List (ToolDefinition Json)
    → ToolDefinition Json
    → List InstructionDocument
    → List SkillDefinition
    → List SkillDefinition
    → List (Default Json)
default_session_context_items tools call_skill_tool instructions skills active_skills =
    (
      SessionContextKind.system_prompt,
      SessionContextPayload.system_prompt
          (system_prompt_with_context instructions skills active_skills),
    )
    ∷ (map tool_item tools ++ (if is_empty skills then [] else tool_item call_skill_tool ∷ []))

module _ {Json : Type 0} where
  abbrev calls : Text → AssistantResponseItem Json → Bool
  calls invocation (tool_call id call_id name arguments) = text_eq id invocation
  calls invocation _ = false

  abbrev payload_contains_tool_call : Text → StepPayload Json → Bool
  payload_contains_tool_call invocation (StepPayload.assistant_response message_id usage items) =
      any (calls invocation) items
  payload_contains_tool_call invocation _ = false

  abbrev pub step_contains_tool_call : Step Json → Text → Bool
  step_contains_tool_call step invocation = payload_contains_tool_call invocation step.payload

  abbrev cons_message : Message Json → Option (List (Message Json)) → Option (List (Message Json))
  cons_message m none = none
  cons_message m (some messages) = some (m ∷ messages)

  -- The messages with instructions behind the first system message, if there is one.
  unfoldable pub push_instructions : Text → List (Message Json) → Option (List (Message Json))
  push_instructions instructions [] = none
  push_instructions instructions (Message.system content ∷ rest) =
      some (Message.system (content ++ newline ∷ newline ∷ instructions) ∷ rest)
  push_instructions instructions (m ∷ rest) = cons_message m (push_instructions instructions rest)

  abbrev or_in_front :
      Text → List (Message Json) → Option (List (Message Json)) → List (Message Json)
  or_in_front instructions messages none = Message.system instructions ∷ messages
  or_in_front instructions messages (some injected) = injected

  unfoldable pub inject_skill_instructions : List (Message Json) → Text → List (Message Json)
  unfolding push_instructions
  inject_skill_instructions messages instructions =
      or_in_front instructions messages (push_instructions instructions messages)

  abbrev pub skill_responses : Text → StepPayload Json → Bool
  skill_responses invocation (StepPayload.skill_assistant_response id message_id items) =
      text_eq id invocation
  skill_responses invocation _ = false

  unfoldable pub skill_iteration_count : List (Step Json) → Text → ℕ
  skill_iteration_count steps invocation =
      length (keep (λ s. skill_responses invocation s.payload) steps)

  abbrev requested_names : StepPayload Json → Option (List Text)
  requested_names (StepPayload.skills_requested names) = some names
  requested_names _ = none

  unfoldable pub requested_skill_names : List (Step Json) → Option (List Text)
  requested_skill_names steps = find_map (λ s. requested_names s.payload) steps

  abbrev answers : Text → StepPayload Json → Bool
  answers wanted (StepPayload.tool_result id call_id content) = text_eq id wanted
  answers wanted _ = false

  unfoldable pub has_tool_result : List (Step Json) → Text → Bool
  has_tool_result steps id = any (λ s. answers id s.payload) steps

unfoldable pub explicit_skill_invocation_id : ℕ → Text
explicit_skill_invocation_id index = codes "jux_explicit_skill_" ++ decimal index

module _ (values : Values) where
  open values use {Json, to_text, string, boolean, object}

  abbrev is_call_step : Step Json → Text → Text → Text → Bool
  is_call_step step run invocation step_run =
      text_eq step_run run && step_contains_tool_call step invocation

  abbrev step_messages : Step Json → List (Message Json)
  step_messages step =
      if visible_to_llm step then add_some (step_to_chat_message values step) [] else []

  abbrev or_messages :
      Option Bool
      → List (Message Json)
      → Option (Result Text (List (Message Json)))
      → Option (Result Text (List (Message Json)))
  or_messages none messages rest = none
  or_messages (some true) messages rest = some (ok messages)
  or_messages (some false) messages rest = rest

  abbrev calls_in : Step Json → Text → Text → Option Text → Option Bool
  calls_in step run invocation none = none
  calls_in step run invocation (some step_run) = some (is_call_step step run invocation step_run)

  -- A step whose id names no run is a panic, `none`.
  unfoldable pub parent_messages_before_skill_call :
      List (Message Json)
      → List (Step Json)
      → Text
      → Text
      → Option (Result Text (List (Message Json)))
  parent_messages_before_skill_call messages [] run invocation =
      some
        (err (codes "parent assistant response for skill invocation was not found: " ++ invocation))
  parent_messages_before_skill_call messages (step ∷ steps) run invocation =
      or_messages (calls_in step run invocation (parent step.id)) messages
        (parent_messages_before_skill_call (messages ++ step_messages step) steps run invocation)

  -- `tool_result_chat_message`
  abbrev pub tool_result_chat_message : Text → Option Text → Json → Message Json
  tool_result_chat_message id call_id content = Message.tool_result id call_id (to_text content)

  abbrev spoken : Option (Message Json) → Result Text (List (Message Json))
  spoken none = err (codes "skill subflow has an empty assistant response")
  spoken (some message) = ok (message ∷ [])

  -- The messages that a step of an invocation adds to its transcript.
  abbrev transcript_of : Text → StepPayload Json → Result Text (List (Message Json))
  transcript_of wanted (StepPayload.skill_assistant_response invocation message_id items) =
      if text_eq invocation wanted
      then spoken (assistant_response_to_chat_message values message_id items)
      else ok []
  transcript_of wanted (StepPayload.skill_tool_result invocation id call_id content) =
      if text_eq invocation wanted
      then ok (tool_result_chat_message id call_id content ∷ [])
      else ok []
  transcript_of wanted _ = ok []

  unfoldable pub append_skill_transcript :
      List (Message Json) → SkillInvocation → List (Step Json) → Result Text (List (Message Json))
  append_skill_transcript messages invocation [] = ok messages
  append_skill_transcript messages invocation (step ∷ steps) = do
    added ← transcript_of invocation.id step.payload
    append_skill_transcript (messages ++ added) invocation steps

  unfoldable pub skill_result : SkillInvocation → Text → Json
  skill_result invocation summary = object (
      (codes "success", boolean true)
      ∷ (codes "skill", string invocation.skill_name)
      ∷ (codes "summary", string summary)
      ∷ [])
