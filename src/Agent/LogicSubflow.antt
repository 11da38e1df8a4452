-- ===== src/Agent/LogicSubflow.antt =====
-- crates/jux-core/src/main_loop/mod.rs: what a skill's subflow meets.
use jux.Base.{
  ℕ, zero, suc, Bool, true, false, Text, text_eq, List, [], ◌∷◌, find, Option, none, some, Result,
  ok, err, map_err, refl, if◌then◌else◌,
}
use jux.State.Model.{Run, Step, StepKind, StepPayload, AssistantResponseItem}
use jux.State.Steps.{append_step, load_run_steps, load_session_steps}
use jux.State.Items.{load_session_context_items}
use jux.Agent.Values.{Values}
use jux.Agent.Skills.{SkillDefinition}
use jux.Agent.Messages.{Message, ToolDefinition, AssistantTurn}
use jux.Agent.Monad.{RunLoopContext, SkillCallArgs}
use jux.Agent.HumanInput.{
  ToolCallRequest, SkillInvocation, from_assistant_item, human_input_tool_call,
}
use jux.Agent.Attempt.{Attempt, and_then_ok, attempt, of_store_text}
use jux.Agent.Subflow.{
  or_text, SkillSubflowOutcome, SkillCompletionContext, append_text, run_subflow_tool, subflow_tool,
  subflow_tools, subflow_turn, subflow_next, subflow_from, run_skill_subflow,
  parent_context_before_skill, skill_completion_context, invoke_skill, execute_skill_call,
}
use jux.Agent.Logic.{
  Logic, Follows, attempt_then, attempt-Follows, mapped-Follows, now_millis-Follows,
  of_option-Follows, ask_model-Follows, ask_tool-Follows, read_text-Follows, expected-Follows,
}

module _ (values : Values) (context : RunLoopContext values.Json) (run : Run)
    {logic : Logic context run} where
  open values use {Json}

  infixl 5 ◌>>=◌ ◌>>◌
  ◌>>=◌ :
      {A B : Type 0} {m : Attempt Json A} {f : A → Attempt Json B}
      → Follows logic m
      → ((a : A) → Follows logic (f a))
      → Follows logic (λ s. and_then_ok (m s) f)
  h >>= k = attempt_then h k

  ◌>>◌ :
      {A B : Type 0} {m : Attempt Json A} {n : Attempt Json B}
      → Follows logic m
      → Follows logic n
      → Follows logic (λ s. and_then_ok (m s) (λ _. n))
  h >> k = attempt_then h (λ _. k)

  append_step-Follows :
      (kind : StepKind) (payload : StepPayload Json) (now : ℕ)
      → Follows logic (of_store_text (append_step context.step_codec run.id kind payload now))
  unfolding of_store_text
  append_step-Follows kind payload now =
      mapped-Follows _ (record { holds = logic.try_add_step kind payload now })

  append_text-Follows :
      (kind : StepKind) (payload : StepPayload Json)
      → Follows logic (append_text values context run kind payload)
  unfolding append_text
  append_text-Follows kind payload = do
    now ← mapped-Follows ok now_millis-Follows
    append_step-Follows kind payload now

  run_subflow_tool-Follows :
      (invocation : SkillInvocation) (messages : List (Message Json)) (call : ToolCallRequest Json)
      → Follows logic (run_subflow_tool values context run invocation messages call)
  unfolding run_subflow_tool
  run_subflow_tool-Follows invocation messages call = do
    result ← mapped-Follows ok (ask_tool-Follows _)
    append_text-Follows _ _
    attempt-Follows _

  refused_or_run-Follows :
      (b : Bool) (e : Text) {A : Type 0} {m : Attempt Json A}
      → Follows logic m
      → Follows logic (if b then attempt (err e) else m)
  refused_or_run-Follows true e h = attempt-Follows _
  refused_or_run-Follows false e h = h

  subflow_tool-Follows :
      (invocation : SkillInvocation) (messages : List (Message Json))
      (call : Option (ToolCallRequest Json))
      → Follows logic (subflow_tool values context run invocation messages call)
  subflow_tool-Follows invocation messages none = attempt-Follows _
  subflow_tool-Follows invocation messages (some call) =
      refused_or_run-Follows _ _ (run_subflow_tool-Follows invocation messages call)

  subflow_tools-Follows :
      (invocation : SkillInvocation) (messages : List (Message Json))
      (calls : List (AssistantResponseItem Json))
      → Follows logic (subflow_tools values context run invocation messages calls)
  unfolding subflow_tools
  subflow_tools-Follows invocation messages [] = attempt-Follows _
  subflow_tools-Follows invocation messages (call ∷ calls) = do
    after ← subflow_tool-Follows invocation messages (from_assistant_item call)
    subflow_tools-Follows invocation after calls

  subflow_turn-Follows :
      (invocation : SkillInvocation) (tools : List (ToolDefinition Json))
      (messages : List (Message Json))
      → Follows logic (subflow_turn values context run invocation tools messages)
  unfolding subflow_turn
  subflow_turn-Follows invocation tools messages = do
    request ← attempt-Follows _
    response ← mapped-Follows _ (ask_model-Follows _)
    turn ← attempt-Follows _
    append_text-Follows _ _
    attempt-Follows _

  subflow_next-Follows :
      (invocation : SkillInvocation) (messages : List (Message Json)) (turn : AssistantTurn Json)
      (call : Option (AssistantResponseItem Json))
      (continue : List (Message Json) → Attempt Json (SkillSubflowOutcome Json))
      → ((after : List (Message Json)) → Follows logic (continue after))
      → Follows logic (subflow_next values context run invocation messages turn call continue)
  subflow_next-Follows invocation messages turn (some call) continue h =
      refused_or_run-Follows _ _ (attempt-Follows _)
  subflow_next-Follows invocation messages turn none continue h = do
    message ← attempt-Follows _
    after ← subflow_tools-Follows invocation _ turn.tool_calls
    h after

  ended_or_next-Follows :
      (b : Bool) {A : Type 0} (r : Result Text A) {m : Attempt Json A}
      → Follows logic m
      → Follows logic (if b then attempt r else m)
  ended_or_next-Follows true r h = attempt-Follows _
  ended_or_next-Follows false r h = h

  subflow_from-Follows :
      (left : ℕ) (invocation : SkillInvocation) (tools : List (ToolDefinition Json))
      (messages : List (Message Json))
      → Follows logic (subflow_from values context left run invocation tools messages)
  unfolding subflow_from
  subflow_from-Follows zero invocation tools messages = attempt-Follows _
  subflow_from-Follows (suc left) invocation tools messages = do
    turn ← subflow_turn-Follows invocation tools messages
    ended_or_next-Follows _ _ (
        subflow_next-Follows invocation messages turn (human_input_tool_call turn.tool_calls) _
          (λ after. subflow_from-Follows left invocation tools after))

  pub run_skill_subflow-Follows :
      (invocation : SkillInvocation) (start : SkillCompletionContext Json)
      (completed_iterations : ℕ)
      → Follows logic (run_skill_subflow values context run invocation start completed_iterations)
  unfolding run_skill_subflow
  run_skill_subflow-Follows invocation start completed_iterations =
      subflow_from-Follows _ invocation start.tools start.messages

  pub skill_completion_context-Follows :
      (invocation : SkillInvocation) (skill : SkillDefinition) (run_steps : List (Step Json))
      → Follows logic (skill_completion_context values context run invocation skill run_steps)
  unfolding skill_completion_context parent_context_before_skill load_session_context_items
      load_session_steps
  skill_completion_context-Follows invocation skill run_steps = do
    before ← do
      session ← mapped-Follows ok (of_option-Follows _)
      items ← read_text-Follows _ (λ db. refl)
      steps ← read_text-Follows _ (λ db. refl)
      messages ← expected-Follows _
      attempt-Follows _
    messages ← attempt-Follows _
    attempt-Follows _

  invoke_skill-Follows :
      (invocation : SkillInvocation) (skill : SkillDefinition)
      → Follows logic (invoke_skill values context run invocation skill)
  unfolding invoke_skill load_run_steps
  invoke_skill-Follows invocation skill = do
    append_text-Follows _ _
    steps ← read_text-Follows _ (λ db. refl)
    start ← skill_completion_context-Follows invocation skill steps
    run_skill_subflow-Follows invocation start 0

  pub execute_skill_call-Follows :
      (call : ToolCallRequest Json) → Follows logic (execute_skill_call values context run call)
  unfolding execute_skill_call
  execute_skill_call-Follows call = do
    args ← attempt-Follows (map_err {A = SkillCallArgs} _ (context.parse_skill_call call.arguments))
    skill ← attempt-Follows (or_text _ (find (λ s. text_eq s.name args.name) context.skills))
    invoke_skill-Follows _ skill
