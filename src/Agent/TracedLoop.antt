-- ===== src/Agent/TracedLoop.antt =====
-- crates/jux-core/src/main_loop/mod.rs: the transitions behind the actions of one run.
use jux.Base.{ℕ, Bool, true, false, List, if◌then◌else◌}
use jux.State.Model.{Run, Step, AssistantResponseItem}
use jux.Agent.Values.{Values}
use jux.Agent.Skills.{SkillDefinition}
use jux.Agent.Monad.{RunLoopContext, Running}
use jux.Agent.HumanInput.{SkillInvocation}
use jux.Agent.Subflow.{SkillCompletionContext, run_skill_subflow, skill_completion_context}
use jux.Agent.Tools.{ToolCallOutcome, completed, waiting_for_human_input, execute_tool_call}
use jux.Agent.RunLoop.{or_wait, continue_run}
use jux.Agent.LogicSubflow.{run_skill_subflow-Follows, skill_completion_context-Follows}
use jux.Agent.LogicLoop.{execute_tool_call-Follows, continue_run-Follows}
use jux.Agent.Transitions.{IsTraced, pure-IsTraced}
use jux.Agent.Traced.{traced}

module _ {Json : Type 0} {context : RunLoopContext Json} where
  -- Either way of a test.
  pub if-IsTraced :
      (b : Bool) {A : Type 0} {m n : Running Json A}
      → IsTraced context m
      → IsTraced context n
      → IsTraced context (if b then m else n)
  if-IsTraced true h k = h
  if-IsTraced false h k = k

module _ (values : Values) (context : RunLoopContext values.Json) where
  open values use {Json}

  pub or_wait-IsTraced :
      (outcome : ToolCallOutcome) {rest : Running Json ToolCallOutcome}
      → IsTraced context rest
      → IsTraced context (or_wait values context outcome rest)
  or_wait-IsTraced waiting_for_human_input h = pure-IsTraced waiting_for_human_input
  or_wait-IsTraced completed h = h

  pub execute_tool_call-IsTraced :
      (run : Run) (iteration tool : ℕ) (call : AssistantResponseItem Json)
      → IsTraced context (execute_tool_call values context run iteration tool call)
  execute_tool_call-IsTraced run iteration tool call =
      (execute_tool_call-Follows values context run {logic = traced context run} iteration tool
        call).holds

  pub continue_run-IsTraced : (run : Run) → IsTraced context (continue_run values context run)
  continue_run-IsTraced run =
      (continue_run-Follows values context run {logic = traced context run}).holds

  pub skill_completion_context-IsTraced :
      (run : Run) (invocation : SkillInvocation) (skill : SkillDefinition)
      (steps : List (Step Json))
      → IsTraced context (skill_completion_context values context run invocation skill steps)
  skill_completion_context-IsTraced run invocation skill steps =
      (skill_completion_context-Follows values context run {logic = traced context run} invocation
        skill steps).holds

  pub run_skill_subflow-IsTraced :
      (run : Run) (invocation : SkillInvocation) (start : SkillCompletionContext Json) (n : ℕ)
      → IsTraced context (run_skill_subflow values context run invocation start n)
  run_skill_subflow-IsTraced run invocation start n =
      (run_skill_subflow-Follows values context run {logic = traced context run} invocation start
        n).holds
