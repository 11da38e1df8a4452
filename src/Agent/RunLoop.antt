-- ===== src/Agent/RunLoop.antt =====
-- crates/jux-core/src/main_loop/mod.rs: `continue_run`, and how a run goes on behind a tool call.
use jux.Base.{
  ℕ, zero, suc, ◌+◌, Bool, Text, codes, text_eq, List, [], ◌∷◌, ◌++◌, find, is_empty, Option, none,
  some, Result, ok, err, if◌then◌else◌,
}
use jux.State.Model.{Run, Step, AssistantResponseItem, tool_call}
use jux.State.Steps.{load_run_steps}
use jux.Agent.Values.{Values, failure}
use jux.Agent.Skills.{SkillDefinition}
use jux.Agent.Messages.{AssistantTurn, assistant_turn_from_response, call_skill_tool_name}
use jux.Agent.Monad.{RunLoopContext, Running, runtime, ◌>>=◌, ◌>>◌, pure, fail, of_store}
use jux.Agent.Ending.{
  RunLoopOutput, emit_iteration_started, emit_iteration_completed, record_assistant_response,
  wait_for_human_input, complete_run, fail_runtime,
}
use jux.Agent.Llm.{no_usage, complete_llm_call}
use jux.Agent.HumanInput.{SkillInvocation, human_input_tool_call}
use jux.Agent.Prompt.{
  skill_iteration_count, requested_skill_names, has_tool_result, explicit_skill_invocation_id,
}
use jux.Agent.Subflow.{
  SkillSubflowOutcome, max_loop_iterations, skill_completion_context, run_skill_subflow,
}
use jux.Agent.Tools.{
  ToolCallOutcome, completed, waiting_for_human_input, append_tool_result, execute_tool_call,
}

module _ (values : Values) (context : RunLoopContext values.Json) where
  open values use {Json, string, object}

  abbrev pub turn_or_fail :
      Run → Result Text (AssistantTurn Json) → Running Json (AssistantTurn Json)
  turn_or_fail run (ok turn) = pure turn
  turn_or_fail run (err message) = fail_runtime context run message

  abbrev pub or_wait : ToolCallOutcome → Running Json ToolCallOutcome → Running Json ToolCallOutcome
  or_wait waiting_for_human_input rest = pure waiting_for_human_input
  or_wait completed rest = rest

  -- The loop over a turn's tool calls, numbered from an index on: whether one of them waits.
  unfoldable pub execute_tool_calls :
      Run → ℕ → ℕ → List (AssistantResponseItem Json) → Running Json ToolCallOutcome
  execute_tool_calls run iteration index [] = pure completed
  execute_tool_calls run iteration index (call ∷ calls) = do
    outcome ← execute_tool_call values context run iteration (index + 1) call
    or_wait outcome (execute_tool_calls run iteration (index + 1) calls)

  -- An iteration up to its recorded turn.
  unfoldable pub take_turn : Run → ℕ → Running Json (AssistantTurn Json)
  take_turn run index = do
    emit_iteration_started context index
    response ← complete_llm_call values context run index
    turn ← turn_or_fail run (assistant_turn_from_response response.choice)
    record_assistant_response context run response.message_id response.usage turn.items
    pure turn

  abbrev pub end_waiting : Run → ℕ → Running Json (RunLoopOutput Json)
  end_waiting run index = do
    emit_iteration_completed context index
    wait_for_human_input context run

  abbrev pub end_completed : Run → ℕ → Text → Running Json (RunLoopOutput Json)
  end_completed run index answer = do
    emit_iteration_completed context index
    complete_run context run answer

  abbrev pub behind_calls :
      Run
      → ℕ
      → ToolCallOutcome
      → Running Json (RunLoopOutput Json)
      → Running Json (RunLoopOutput Json)
  behind_calls run index waiting_for_human_input next = end_waiting run index
  behind_calls run index completed next = do emit_iteration_completed context index; next

  abbrev pub use_tools :
      Run
      → ℕ
      → List (AssistantResponseItem Json)
      → Running Json (RunLoopOutput Json)
      → Running Json (RunLoopOutput Json)
  use_tools run index calls next = do
    outcome ← execute_tool_calls run index 0 calls
    behind_calls run index outcome next

  -- What a turn leads to: an end of the run, or the next iteration.
  abbrev pub act_on :
      Run
      → ℕ
      → AssistantTurn Json
      → Option (AssistantResponseItem Json)
      → Running Json (RunLoopOutput Json)
      → Running Json (RunLoopOutput Json)
  act_on run index turn (some call) next = end_waiting run index
  act_on run index turn none next =
      if is_empty turn.tool_calls
      then end_completed run index turn.final_answer
      else use_tools run index turn.tool_calls next

  -- The loop of `continue_run`: the iterations that are left, and the index of the next.
  unfoldable pub iterate : ℕ → ℕ → Run → Running Json (RunLoopOutput Json)
  iterate zero index run =
      fail_runtime context run (codes "run loop reached the maximum number of iterations")
  iterate (suc left) index run = do
    turn ← take_turn run index
    act_on run index turn (human_input_tool_call turn.tool_calls) (iterate left (index + 1) run)

  unfoldable pub continue_run : Run → Running Json (RunLoopOutput Json)
  unfolding iterate
  continue_run run = iterate max_loop_iterations 1 run

  abbrev pub skill_call : Run → Text → Text → AssistantResponseItem Json
  skill_call run id name =
      tool_call id none call_skill_tool_name
        (object ((codes "name", string name) ∷ (codes "task", string run.request) ∷ []))

  -- A requested skill, as a call that the loop makes itself.
  unfoldable pub run_requested_skill : Run → ℕ → Text → Running Json ToolCallOutcome
  run_requested_skill run index name = do
    let call = skill_call run (explicit_skill_invocation_id index) name
    record_assistant_response context run none no_usage (call ∷ [])
    execute_tool_call values context run 0 (index + 1) call

  abbrev pub or_skip : Bool → Running Json ToolCallOutcome → Running Json ToolCallOutcome
  or_skip has_result call = if has_result then pure completed else call

  -- The loop of `continue_requested_skills`: whether a skill waits. Skills with a result are passed.
  unfoldable pub run_requested_skills :
      Run → List (Step Json) → ℕ → List Text → Running Json ToolCallOutcome
  run_requested_skills run steps index [] = pure completed
  run_requested_skills run steps index (name ∷ names) = do
    outcome ←
        or_skip (has_tool_result steps (explicit_skill_invocation_id index))
          (run_requested_skill run index name)
    or_wait outcome (run_requested_skills run steps (index + 1) names)

  abbrev pub behind_skills : Run → ToolCallOutcome → Running Json (RunLoopOutput Json)
  behind_skills run waiting_for_human_input = wait_for_human_input context run
  behind_skills run completed = continue_run run

  abbrev pub requested_or_continue :
      Run → List (Step Json) → Option (List Text) → Running Json (RunLoopOutput Json)
  requested_or_continue run steps none = continue_run run
  requested_or_continue run steps (some names) =
      run_requested_skills run steps 0 names >>= behind_skills run

  unfoldable pub continue_requested_skills : Run → Running Json (RunLoopOutput Json)
  unfolding run_requested_skills
  continue_requested_skills run = do
    steps ← of_store (load_run_steps context.step_codec run.id)
    requested_or_continue run steps (requested_skill_names steps)

  -- `append_skill_tool_result`, and what always follows it
  unfoldable pub conclude_resumed : Run → SkillInvocation → Json → Running Json (RunLoopOutput Json)
  conclude_resumed run invocation content = do
    append_tool_result values context run invocation.id invocation.call_id content
    continue_requested_skills run

  abbrev pub behind_subflow :
      Run
      → SkillInvocation
      → Result Text (SkillSubflowOutcome Json)
      → Running Json (RunLoopOutput Json)
  behind_subflow run invocation (ok (SkillSubflowOutcome.completed content)) =
      conclude_resumed run invocation content
  behind_subflow run invocation (ok SkillSubflowOutcome.waiting_for_human_input) =
      wait_for_human_input context run
  behind_subflow run invocation (err error) = conclude_resumed run invocation (failure values error)

  -- An error here leaves the run as it is stored.
  abbrev pub or_runtime : {A : Type 0} → Run → Result Text A → Running Json A
  or_runtime run (ok a) = pure a
  or_runtime run (err message) = fail (runtime run message)

  abbrev pub resume_skill :
      Run
      → SkillInvocation
      → List (Step Json)
      → Option SkillDefinition
      → Running Json (RunLoopOutput Json)
  resume_skill run invocation steps none =
      conclude_resumed run invocation
        (failure values (codes "skill not found while resuming: " ++ invocation.skill_name))
  resume_skill run invocation steps (some skill) = do
    built ← skill_completion_context values context run invocation skill steps
    start ← or_runtime run built
    outcome ←
        run_skill_subflow values context run invocation start
          (skill_iteration_count steps invocation.id)
    behind_subflow run invocation outcome

  unfoldable pub continue_resumed_skill : Run → SkillInvocation → Running Json (RunLoopOutput Json)
  continue_resumed_skill run invocation = do
    steps ← of_store (load_run_steps context.step_codec run.id)
    resume_skill run invocation steps
        (find (λ s. text_eq s.name invocation.skill_name) context.skills)
