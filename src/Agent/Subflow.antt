-- ===== src/Agent/Subflow.antt =====
-- crates/jux-core/src/main_loop/mod.rs: a skill's subflow.
use jux.Base.{
  ℕ, zero, suc, ◌-◌, not, Text, codes, text_eq, List, [], ◌∷◌, ◌++◌, find, keep, length, ◌==◌,
  is_empty, Option, none, some, Result, ok, err, map_err, if◌then◌else◌,
}
use jux.State.Ids.{parent}
use jux.State.Model.{Run, Step, StepKind, StepPayload, AssistantResponseItem}
use jux.State.Steps.{append_step, load_run_steps, load_session_steps}
use jux.State.Items.{load_session_context_items}
use jux.Agent.Values.{Values, failure}
use jux.Agent.Skills.{SkillDefinition, render_skill_execution_prompt}
use jux.Agent.Messages.{
  Message, ToolDefinition, LlmCompletionRequest, AssistantTurn, filter_map, split_last,
  assistant_turn_from_response, assistant_response_to_chat_message, item_to_chat_message,
  item_to_tool_definition, call_skill_tool_name,
}
use jux.Agent.Monad.{RunLoopContext, now_millis, of_option, ask_model, ask_tool}
use jux.Agent.HumanInput.{
  ToolCallRequest, SkillInvocation, from_assistant_item, human_input_tool_call,
}
use jux.Agent.Prompt.{
  inject_skill_instructions, parent_messages_before_skill_call, tool_result_chat_message,
  append_skill_transcript, skill_result,
}
use jux.Agent.Attempt.{Attempt, failing, ◌>>=◌, ◌>>◌, attempt, of_store_text, lift, expected}

pub data SkillSubflowOutcome (Json : Type 0) : Type 0 where
  completed : Json → SkillSubflowOutcome Json
  waiting_for_human_input : SkillSubflowOutcome Json

pub record SkillCompletionContext (Json : Type 0) : Type 0 where
  pub messages : List (Message Json)
  pub tools : List (ToolDefinition Json)

abbrev pub max_loop_iterations : ℕ
max_loop_iterations = 8

-- `ok_or_else`
abbrev pub or_text : {A : Type 0} → Text → Option A → Result Text A
or_text error none = err error
or_text error (some a) = ok a

module _ (values : Values) (context : RunLoopContext values.Json) where
  open values use {Json}

  -- A step of a run, and the store's error as a text.
  unfoldable pub append_text : Run → StepKind → StepPayload Json → Attempt Json (Step Json)
  append_text run kind payload = do
    now ← lift (now_millis context)
    of_store_text (append_step context.step_codec run.id kind payload now)

  abbrev pub or_failure : Result Text Json → Json
  or_failure (ok output) = output
  or_failure (err error) = failure values error

  abbrev subflow_request :
      List (ToolDefinition Json)
      → Option (Message Json × List (Message Json))
      → Result Text (LlmCompletionRequest Json)
  subflow_request tools none = err (codes "skill subflow has no message for the LLM")
  subflow_request tools (some (prompt, history)) =
      ok (record { prompt = prompt; history = history; tools = tools })

  unfoldable pub run_subflow_tool :
      Run
      → SkillInvocation
      → List (Message Json)
      → ToolCallRequest Json
      → Attempt Json (List (Message Json))
  run_subflow_tool run invocation messages call = do
    result ← lift (ask_tool (λ n. context.execute_tool n call.name call.arguments))
    let output = or_failure result
    append_text run StepKind.skill_execution
        (StepPayload.skill_tool_result invocation.id call.id call.call_id output)
    attempt (ok (messages ++ tool_result_chat_message values call.id call.call_id output ∷ []))

  abbrev pub subflow_tool :
      Run
      → SkillInvocation
      → List (Message Json)
      → Option (ToolCallRequest Json)
      → Attempt Json (List (Message Json))
  subflow_tool run invocation messages none = attempt (ok messages)
  subflow_tool run invocation messages (some call) =
      if text_eq call.name call_skill_tool_name
      then attempt (err (codes "skill subflows cannot call other skills"))
      else run_subflow_tool run invocation messages call

  -- The loop over a turn's tool calls: the messages behind it.
  unfoldable pub subflow_tools :
      Run
      → SkillInvocation
      → List (Message Json)
      → List (AssistantResponseItem Json)
      → Attempt Json (List (Message Json))
  subflow_tools run invocation messages [] = attempt (ok messages)
  subflow_tools run invocation messages (call ∷ calls) = do
    after ← subflow_tool run invocation messages (from_assistant_item call)
    subflow_tools run invocation after calls

  -- The call of the model, and its answer as a step.
  unfoldable pub subflow_turn :
      Run
      → SkillInvocation
      → List (ToolDefinition Json)
      → List (Message Json)
      → Attempt Json (AssistantTurn Json)
  subflow_turn run invocation tools messages = do
    request ← attempt (subflow_request tools (split_last messages))
    response ← λ s.
        failing (λ e. codes "skill subflow completion failed: " ++ e)
          (ask_model (λ n. context.completion n request) s)
    turn ← attempt (
        map_err (λ e. codes "skill subflow returned invalid response: " ++ e)
          (assistant_turn_from_response response.choice))
    append_text run StepKind.skill_execution
        (StepPayload.skill_assistant_response invocation.id response.message_id turn.items)
    attempt (ok turn)

  abbrev pub wait_alone :
      List (AssistantResponseItem Json) → Attempt Json (SkillSubflowOutcome Json)
  wait_alone calls =
      if not (length calls == 1)
      then attempt (err (codes "human_input must be the only tool call in a skill response"))
      else attempt (ok waiting_for_human_input)

  -- What a turn asks for: an end, or tools and another turn.
  abbrev pub subflow_next :
      Run
      → SkillInvocation
      → List (Message Json)
      → AssistantTurn Json
      → Option (AssistantResponseItem Json)
      → (List (Message Json) → Attempt Json (SkillSubflowOutcome Json))
      → Attempt Json (SkillSubflowOutcome Json)
  subflow_next run invocation messages turn (some call) continue = wait_alone turn.tool_calls
  subflow_next run invocation messages turn none continue = do
    message ← attempt (
        or_text (codes "skill subflow returned no assistant message")
          (assistant_response_to_chat_message values none turn.items))
    after ← subflow_tools run invocation (messages ++ message ∷ []) turn.tool_calls
    continue after

  -- The loop of `run_skill_subflow`, over the iterations that are left.
  unfoldable pub subflow_from :
      ℕ
      → Run
      → SkillInvocation
      → List (ToolDefinition Json)
      → List (Message Json)
      → Attempt Json (SkillSubflowOutcome Json)
  subflow_from zero run invocation tools messages =
      attempt (err (codes "skill subflow reached the maximum number of iterations"))
  subflow_from (suc left) run invocation tools messages = do
    turn ← subflow_turn run invocation tools messages
    if is_empty turn.tool_calls
        then attempt (ok (completed (skill_result values invocation turn.final_answer)))
        else subflow_next run invocation messages turn (human_input_tool_call turn.tool_calls)
            (λ after. subflow_from left run invocation tools after)

  unfoldable pub run_skill_subflow :
      Run
      → SkillInvocation
      → SkillCompletionContext Json
      → ℕ
      → Attempt Json (SkillSubflowOutcome Json)
  run_skill_subflow run invocation start completed_iterations =
      subflow_from (max_loop_iterations - completed_iterations) run invocation start.tools
        start.messages

  unfoldable pub parent_context_before_skill :
      Run → Text → Attempt Json (SkillCompletionContext Json)
  parent_context_before_skill run invocation = do
    session ← lift (of_option (parent run.id))
    items ← of_store_text (load_session_context_items context.context_codec session)
    steps ← of_store_text (load_session_steps context.step_codec session)
    messages ← expected (
        parent_messages_before_skill_call values (filter_map (item_to_chat_message values) items)
          steps run.id invocation)
    attempt (
        ok (record {
          messages = messages;
          tools =
              keep (λ t. not (text_eq t.name call_skill_tool_name))
                (filter_map (item_to_tool_definition values) items);
        }))

  unfoldable pub skill_completion_context :
      Run
      → SkillInvocation
      → SkillDefinition
      → List (Step Json)
      → Attempt Json (SkillCompletionContext Json)
  skill_completion_context run invocation skill run_steps = do
    before ← parent_context_before_skill run invocation.id
    let injected = inject_skill_instructions before.messages (render_skill_execution_prompt skill)
    messages ← attempt (
        append_skill_transcript values (injected ++ Message.user invocation.task ∷ []) invocation
          run_steps)
    attempt (ok (record before { messages = messages }))

  -- `execute_skill_call`, from the skill on
  unfoldable pub invoke_skill :
      Run → SkillInvocation → SkillDefinition → Attempt Json (SkillSubflowOutcome Json)
  invoke_skill run invocation skill = do
    append_text run StepKind.skill_execution (
        StepPayload.skill_started invocation.id invocation.call_id invocation.skill_name
          invocation.task)
    steps ← of_store_text (load_run_steps context.step_codec run.id)
    start ← skill_completion_context run invocation skill steps
    run_skill_subflow run invocation start 0

  unfoldable pub execute_skill_call :
      Run → ToolCallRequest Json → Attempt Json (SkillSubflowOutcome Json)
  execute_skill_call run call = do
    args ← attempt (
        map_err (λ e. codes "invalid call_skill tool arguments: " ++ e)
          (context.parse_skill_call call.arguments))
    skill ← attempt (
        or_text (codes "skill not found: " ++ args.name)
          (find (λ s. text_eq s.name args.name) context.skills))
    invoke_skill run
        (record { id = call.id; call_id = call.call_id; skill_name = skill.name; task = args.task })
        skill
