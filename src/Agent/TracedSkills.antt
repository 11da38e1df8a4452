-- ===== src/Agent/TracedSkills.antt =====
-- crates/jux-core/src/main_loop/mod.rs: the transitions behind requested and resumed skills.
use jux.Base.{ℕ, ◌+◌, Text, List, [], ◌∷◌, Option, none, some, Result, ok, err}
use jux.State.Model.{Run, Step}
use jux.State.Steps.{load_run_steps}
use jux.Agent.Values.{Values}
use jux.Agent.Skills.{SkillDefinition}
use jux.Agent.Monad.{RunLoopContext}
use jux.Agent.Ending.{record_assistant_response}
use jux.Agent.HumanInput.{SkillInvocation}
use jux.Agent.Subflow.{SkillSubflowOutcome}
use jux.Agent.Tools.{ToolCallOutcome, completed, waiting_for_human_input, append_tool_result}
use jux.Agent.RunLoop.{
  run_requested_skill, run_requested_skills, behind_skills, requested_or_continue,
  continue_requested_skills, conclude_resumed, behind_subflow, or_runtime, resume_skill,
  continue_resumed_skill,
}
use jux.Agent.Requests.{ResumeTarget, main_run, skill_run, continue_target}
use jux.Agent.Transitions.{
  IsTraced, ◌>>=◌, ◌>>◌, pure-IsTraced, fail-IsTraced, of_store-IsTraced, Leads-refl,
}
use jux.Agent.Traced.{append-IsTraced, wait_for_human_input-IsTraced}
use jux.Agent.TracedLoop.{
  skill_completion_context-IsTraced, run_skill_subflow-IsTraced, if-IsTraced, or_wait-IsTraced,
  execute_tool_call-IsTraced, continue_run-IsTraced,
}

module _ (values : Values) (context : RunLoopContext values.Json) where
  open values use {Json}

  run_requested_skill-IsTraced :
      (run : Run) (index : ℕ) (name : Text)
      → IsTraced context (run_requested_skill values context run index name)
  unfolding run_requested_skill record_assistant_response
  run_requested_skill-IsTraced run index name = do
    append-IsTraced context run.id _ _
    execute_tool_call-IsTraced values context run 0 (index + 1) _

  run_requested_skills-IsTraced :
      (run : Run) (steps : List (Step Json)) (index : ℕ) (names : List Text)
      → IsTraced context (run_requested_skills values context run steps index names)
  unfolding run_requested_skills
  run_requested_skills-IsTraced run steps index [] = pure-IsTraced completed
  run_requested_skills-IsTraced run steps index (name ∷ names) = do
    outcome ← if-IsTraced _ (pure-IsTraced completed) (run_requested_skill-IsTraced run index name)
    or_wait-IsTraced values context outcome
        (run_requested_skills-IsTraced run steps (index + 1) names)

  behind_skills-IsTraced :
      (run : Run) (outcome : ToolCallOutcome)
      → IsTraced context (behind_skills values context run outcome)
  behind_skills-IsTraced run waiting_for_human_input = wait_for_human_input-IsTraced context run
  behind_skills-IsTraced run completed = continue_run-IsTraced values context run

  requested_or_continue-IsTraced :
      (run : Run) (steps : List (Step Json)) (names : Option (List Text))
      → IsTraced context (requested_or_continue values context run steps names)
  requested_or_continue-IsTraced run steps none = continue_run-IsTraced values context run
  requested_or_continue-IsTraced run steps (some names) =
      run_requested_skills-IsTraced run steps 0 names >>= behind_skills-IsTraced run

  pub continue_requested_skills-IsTraced :
      (run : Run) → IsTraced context (continue_requested_skills values context run)
  unfolding continue_requested_skills load_run_steps
  continue_requested_skills-IsTraced run = do
    steps ← of_store-IsTraced _ (Leads-refl context)
    requested_or_continue-IsTraced run steps _

  conclude_resumed-IsTraced :
      (run : Run) (invocation : SkillInvocation) (content : Json)
      → IsTraced context (conclude_resumed values context run invocation content)
  unfolding conclude_resumed append_tool_result
  conclude_resumed-IsTraced run invocation content = do
    append-IsTraced context run.id _ _
    continue_requested_skills-IsTraced run

  behind_subflow-IsTraced :
      (run : Run) (invocation : SkillInvocation) (outcome : Result Text (SkillSubflowOutcome Json))
      → IsTraced context (behind_subflow values context run invocation outcome)
  behind_subflow-IsTraced run invocation (ok (SkillSubflowOutcome.completed content)) =
      conclude_resumed-IsTraced run invocation content
  behind_subflow-IsTraced run invocation (ok SkillSubflowOutcome.waiting_for_human_input) =
      wait_for_human_input-IsTraced context run
  behind_subflow-IsTraced run invocation (err error) = conclude_resumed-IsTraced run invocation _

  or_runtime-IsTraced :
      {A : Type 0} (run : Run) (r : Result Text A)
      → IsTraced context (or_runtime values context run r)
  or_runtime-IsTraced run (ok a) = pure-IsTraced a
  or_runtime-IsTraced run (err message) = fail-IsTraced _

  resume_skill-IsTraced :
      (run : Run) (invocation : SkillInvocation) (steps : List (Step Json))
      (skill : Option SkillDefinition)
      → IsTraced context (resume_skill values context run invocation steps skill)
  resume_skill-IsTraced run invocation steps none = conclude_resumed-IsTraced run invocation _
  resume_skill-IsTraced run invocation steps (some skill) = do
    built ← skill_completion_context-IsTraced values context run invocation skill steps
    start ← or_runtime-IsTraced run built
    outcome ← run_skill_subflow-IsTraced values context run invocation start _
    behind_subflow-IsTraced run invocation outcome

  pub continue_target-IsTraced :
      (target : ResumeTarget) → IsTraced context (continue_target values context target)
  unfolding continue_resumed_skill load_run_steps
  continue_target-IsTraced (main_run run) = continue_run-IsTraced values context run
  continue_target-IsTraced (skill_run run invocation) = do
    steps ← of_store-IsTraced _ (Leads-refl context)
    resume_skill-IsTraced run invocation steps _
