-- ===== src/Agent/LogicLoop.antt =====
-- crates/jux-core/src/main_loop/mod.rs: what tool calls and the run loop meet.
use jux.Base.{ℕ, zero, suc, ◌+◌, Text, List, [], ◌∷◌, Option, none, some, Result, ok, err}
use jux.State.Model.{Run, AssistantResponseItem}
use jux.Agent.Values.{Values}
use jux.Agent.Event.{AgentEventId, AgentEventKind, AgentEventData}
use jux.Agent.Messages.{AssistantTurn, assistant_turn_from_response}
use jux.Agent.Monad.{RunLoopContext, Running}
use jux.Agent.Ending.{
  RunLoopOutput, emit_iteration_started, emit_iteration_completed, record_assistant_response,
}
use jux.Agent.HumanInput.{ToolCallRequest, from_assistant_item, human_input_tool_call}
use jux.Agent.Subflow.{SkillSubflowOutcome, max_loop_iterations}
use jux.Agent.Tools.{
  ToolCallOutcome, completed, waiting_for_human_input, emit_all, emit_tool_output_chunks,
  record_tool_output, record_tool_failure, recorded, execute_tool_content, append_tool_result,
  conclude, conclude_skill, run_tool_call, run_if_call, execute_tool_call,
}
use jux.Agent.RunLoop.{
  turn_or_fail, or_wait, execute_tool_calls, take_turn, behind_calls, act_on, iterate, continue_run,
}
use jux.Agent.Logic.{
  Logic, Follows, ◌>>=◌, ◌>>◌, if-Follows, pure-Follows, emit-Follows, ask_tool-Follows,
  append-Follows, fail_runtime-Follows,
}
use jux.Agent.LogicCalls.{
  complete_llm_call-Follows, wait_for_human_input-Follows, complete_run-Follows,
}
use jux.Agent.LogicSubflow.{execute_skill_call-Follows}

module _ (values : Values) (context : RunLoopContext values.Json) (run : Run)
    {logic : Logic context run} where
  open values use {Json}

  emit_all-Follows :
      (id : AgentEventId) (kind : AgentEventKind) (payloads : List (AgentEventData Json))
      → Follows logic (emit_all values context id kind payloads)
  unfolding emit_all
  emit_all-Follows id kind [] = pure-Follows tt
  emit_all-Follows id kind (payload ∷ payloads) = do
    emit-Follows id kind payload
    emit_all-Follows id kind payloads

  record_tool_output-Follows :
      (call : ToolCallRequest Json) (id : AgentEventId) (output : Json)
      → Follows logic (record_tool_output values context call id output)
  unfolding record_tool_output emit_tool_output_chunks
  record_tool_output-Follows call id output = do
    if-Follows _ (pure-Follows tt) (do emit_all-Follows id _ _; emit_all-Follows id _ _)
    emit-Follows _ _ _
    emit-Follows _ _ _
    pure-Follows output

  record_tool_failure-Follows :
      (call : ToolCallRequest Json) (id : AgentEventId) (error : Text)
      → Follows logic (record_tool_failure values context call id error)
  unfolding record_tool_failure
  record_tool_failure-Follows call id error = do emit-Follows _ _ _; pure-Follows _

  recorded-Follows :
      (call : ToolCallRequest Json) (id : AgentEventId) (result : Result Text Json)
      → Follows logic (recorded values context call id result)
  recorded-Follows call id (ok output) = record_tool_output-Follows call id output
  recorded-Follows call id (err error) = record_tool_failure-Follows call id error

  conclude-Follows :
      (call : ToolCallRequest Json) (content : Json)
      → Follows logic (conclude values context run call content)
  unfolding append_tool_result
  conclude-Follows call content = do append-Follows _ _; pure-Follows completed

  conclude_skill-Follows :
      (call : ToolCallRequest Json) (id : AgentEventId)
      (outcome : Result Text (SkillSubflowOutcome Json))
      → Follows logic (conclude_skill values context run call id outcome)
  conclude_skill-Follows call id (ok (SkillSubflowOutcome.completed output)) =
      record_tool_output-Follows call id output >>= conclude-Follows call
  conclude_skill-Follows call id (ok SkillSubflowOutcome.waiting_for_human_input) =
      pure-Follows waiting_for_human_input
  conclude_skill-Follows call id (err error) =
      record_tool_failure-Follows call id error >>= conclude-Follows call

  run_tool_call-Follows :
      (iteration tool : ℕ) (call : ToolCallRequest Json)
      → Follows logic (run_tool_call values context run iteration tool call)
  unfolding run_tool_call execute_tool_content
  run_tool_call-Follows iteration tool call = do
    emit-Follows _ _ _
    if-Follows _
        (execute_skill_call-Follows values context run call >>= conclude_skill-Follows call _)
        ((ask_tool-Follows _ >>= recorded-Follows call _) >>= conclude-Follows call)

  run_if_call-Follows :
      (iteration tool : ℕ) (call : Option (ToolCallRequest Json))
      → Follows logic (run_if_call values context run iteration tool call)
  run_if_call-Follows iteration tool none = pure-Follows completed
  run_if_call-Follows iteration tool (some call) = run_tool_call-Follows iteration tool call

  pub execute_tool_call-Follows :
      (iteration tool : ℕ) (call : AssistantResponseItem Json)
      → Follows logic (execute_tool_call values context run iteration tool call)
  unfolding execute_tool_call
  execute_tool_call-Follows iteration tool call =
      run_if_call-Follows iteration tool (from_assistant_item call)

  turn_or_fail-Follows :
      (turn : Result Text (AssistantTurn Json))
      → Follows logic (turn_or_fail values context run turn)
  turn_or_fail-Follows (ok turn) = pure-Follows turn
  turn_or_fail-Follows (err message) = fail_runtime-Follows message

  pub or_wait-Follows :
      (outcome : ToolCallOutcome) {rest : Running Json ToolCallOutcome}
      → Follows logic rest
      → Follows logic (or_wait values context outcome rest)
  or_wait-Follows waiting_for_human_input h = pure-Follows waiting_for_human_input
  or_wait-Follows completed h = h

  pub execute_tool_calls-Follows :
      (iteration index : ℕ) (calls : List (AssistantResponseItem Json))
      → Follows logic (execute_tool_calls values context run iteration index calls)
  unfolding execute_tool_calls
  execute_tool_calls-Follows iteration index [] = pure-Follows completed
  execute_tool_calls-Follows iteration index (call ∷ calls) = do
    outcome ← execute_tool_call-Follows iteration (index + 1) call
    or_wait-Follows outcome (execute_tool_calls-Follows iteration (index + 1) calls)

  pub take_turn-Follows : (index : ℕ) → Follows logic (take_turn values context run index)
  unfolding take_turn emit_iteration_started record_assistant_response
  take_turn-Follows index = do
    emit-Follows _ _ _
    response ← complete_llm_call-Follows values context run index
    turn ← turn_or_fail-Follows (assistant_turn_from_response response.choice)
    append-Follows _ _
    pure-Follows turn

  behind_calls-Follows :
      (index : ℕ) (outcome : ToolCallOutcome) {next : Running Json (RunLoopOutput Json)}
      → Follows logic next
      → Follows logic (behind_calls values context run index outcome next)
  unfolding emit_iteration_completed
  behind_calls-Follows index waiting_for_human_input h = do
    emit-Follows _ _ _
    wait_for_human_input-Follows values context run
  behind_calls-Follows index completed h = do emit-Follows _ _ _; h

  act_on-Follows :
      (index : ℕ) (turn : AssistantTurn Json) (call : Option (AssistantResponseItem Json))
      {next : Running Json (RunLoopOutput Json)}
      → Follows logic next
      → Follows logic (act_on values context run index turn call next)
  unfolding emit_iteration_completed
  act_on-Follows index turn (some call) h = do
    emit-Follows _ _ _
    wait_for_human_input-Follows values context run
  act_on-Follows index turn none h =
      if-Follows _
        (do emit-Follows _ _ _; complete_run-Follows values context run turn.final_answer)
        (do
          outcome ← execute_tool_calls-Follows index 0 turn.tool_calls
          behind_calls-Follows index outcome h)

  iterate-Follows : (left index : ℕ) → Follows logic (iterate values context left index run)
  unfolding iterate
  iterate-Follows zero index = fail_runtime-Follows _
  iterate-Follows (suc left) index = do
    turn ← take_turn-Follows index
    act_on-Follows index turn (human_input_tool_call turn.tool_calls)
        (iterate-Follows left (index + 1))

  pub continue_run-Follows : Follows logic (continue_run values context run)
  unfolding continue_run
  continue_run-Follows = iterate-Follows max_loop_iterations 1
