-- ===== src/Agent/Requests.antt =====
-- crates/jux-core/src/main_loop/mod.rs: a request of the user, which starts a run or is the input
-- that one waits for, and its cancellation.
use jux.Base.{
  Bool, true, false, Text, codes, text_eq, List, [], ◌∷◌, ◌++◌, map, is_empty, Option, none, some,
  Result, ok, err, if◌then◌else◌,
}
use jux.State.Ids.{parent}
use jux.State.Model.{
  Session, Run, RunStatus, running, StepKind, StepPayload, StoreError, missing_workspace,
}
use jux.State.Sessions.{load_active_session}
use jux.State.Runs.{create_run, load_session_runs}
use jux.State.Steps.{load_run_steps}
use jux.State.Items.{Default, replace_session_context_items}
use jux.State.Sql.{order_by}
use jux.State.Digits.{text_leb}
use jux.Agent.Values.{Values}
use jux.Agent.Event.{AgentEventKind, skills_event, skills_selected}
use jux.Agent.Skills.{SkillDefinition}
use jux.Agent.Monad.{
  State, Outcome, done, failed, aborted, panicked, RunLoopContext, store, runtime, canceled,
  Running, ◌>>=◌, ◌>>◌, pure, fail, of_option, of_store, try_store, now_millis, emit,
}
use jux.Agent.Ending.{RunLoopOutput, append, set_run_status, emit_run_started}
use jux.Agent.HumanInput.{
  SkillInvocation, PendingHumanInput, main, skill, pending_tool_call, latest_pending_human_input,
  validate_human_input,
}
use jux.Agent.Prompt.{default_session_context_items}
use jux.Agent.RunLoop.{continue_run, continue_requested_skills, continue_resumed_skill}

pub data ResumeTarget : Type 0 where
  main_run : Run → ResumeTarget
  skill_run : Run → SkillInvocation → ResumeTarget

abbrev status_is_running : RunStatus → Bool
status_is_running running = true
status_is_running _ = false

abbrev status_is_waiting : RunStatus → Bool
status_is_waiting RunStatus.waiting_for_human_input = true
status_is_waiting _ = false

abbrev pub keep_waiting : Run → Option Run
keep_waiting run = if status_is_waiting run.status then some run else none

abbrev pub last_run : List Run → Option Run
last_run [] = none
last_run (run ∷ []) = some run
last_run (run ∷ next ∷ runs) = last_run (next ∷ runs)

abbrev pub waiting_in : Option Run → Option Run
waiting_in none = none
waiting_in (some run) = keep_waiting run

-- `dedup` of a vector of texts
abbrev pub dedup : List Text → List Text
dedup [] = []
dedup (t ∷ []) = t ∷ []
dedup (t ∷ next ∷ rest) = if text_eq t next then dedup (next ∷ rest) else t ∷ dedup (next ∷ rest)

module _ (values : Values) (context : RunLoopContext values.Json) where
  open values use {Json, string, object}

  -- The active session, or nothing without a workspace.
  abbrev pub session_or_none : Result StoreError Session → Running Json (Option Session)
  session_or_none (ok session) = pure (some session)
  session_or_none (err missing_workspace) = pure none
  session_or_none (err e) = fail (store e)

  unfoldable pub active_session : Running Json (Option Session)
  active_session = try_store load_active_session >>= session_or_none

  abbrev pub context_items : List (Default Json)
  context_items =
      default_session_context_items context.tool_definitions context.call_skill_tool_definition
        context.instructions context.skills context.active_skills

  unfoldable pub replace_items : Text → Running Json Unit
  replace_items session = do
    now ← now_millis context
    of_store (replace_session_context_items context.context_codec session context_items now)
    pure tt

  abbrev pub refresh_of : Option Session → Running Json Unit
  refresh_of none = pure tt
  refresh_of (some session) = replace_items session.id

  unfoldable pub refresh_active_session_context : Running Json Unit
  refresh_active_session_context = active_session >>= refresh_of

  abbrev pub last_run_of : Option Session → Running Json (Option Run)
  last_run_of none = pure none
  last_run_of (some session) = do
    runs ← of_store (load_session_runs session.id)
    pure (last_run runs)

  unfoldable pub latest_waiting_run : Running Json (Option Run)
  latest_waiting_run = do session ← active_session; run ← last_run_of session; pure (waiting_in run)

  abbrev pub cancel_run : Run → Running Json (Option Run)
  cancel_run run = do
    stopped ← set_run_status context run.id RunStatus.canceled
    pure (some stopped)

  abbrev pub cancel_if_running : Option Run → Running Json (Option Run)
  cancel_if_running none = pure none
  cancel_if_running (some run) = if status_is_running run.status then cancel_run run else pure none

  unfoldable pub cancel_latest_running_run : Running Json (Option Run)
  cancel_latest_running_run = do
    session ← active_session
    run ← last_run_of session
    cancel_if_running run

  abbrev input_content : Text → Json
  input_content input = object ((codes "input", string input) ∷ [])

  -- The step that an input adds.
  abbrev pub input_payload : PendingHumanInput Json → Text → StepPayload Json
  input_payload (main call) input =
      StepPayload.tool_result call.id call.call_id (input_content input)
  input_payload (skill invocation call) input =
      StepPayload.skill_tool_result invocation.id call.id call.call_id (input_content input)

  abbrev pub input_kind : PendingHumanInput Json → StepKind
  input_kind (main call) = StepKind.tool_result
  input_kind (skill invocation call) = StepKind.skill_execution

  abbrev pub resume_target : PendingHumanInput Json → Run → ResumeTarget
  resume_target (main call) run = main_run run
  resume_target (skill invocation call) run = skill_run run invocation

  abbrev pub pending_or_fail :
      Run → Option (PendingHumanInput Json) → Running Json (PendingHumanInput Json)
  pending_or_fail run none =
      fail (runtime run (codes "waiting run has no pending human_input tool call"))
  pending_or_fail run (some pending) = pure pending

  abbrev pub valid_or_fail : Run → Result Text (Unit {0}) → Running Json Unit
  valid_or_fail run (ok u) = pure tt
  valid_or_fail run (err message) = fail (runtime run message)

  unfoldable pub resume_waiting_run : Run → Text → Running Json ResumeTarget
  resume_waiting_run run input = do
    steps ← of_store (load_run_steps context.step_codec run.id)
    pending ← pending_or_fail run (latest_pending_human_input steps)
    let arguments = (pending_tool_call pending).arguments
    valid_or_fail run (validate_human_input context.parse_human_input arguments input)
    append context run.id (input_kind pending) (input_payload pending input)
    resumed ← set_run_status context run.id running
    pure (resume_target pending resumed)

  abbrev pub request_skills : Run → List SkillDefinition → Running Json Unit
  request_skills run [] = pure tt
  request_skills run (requested ∷ more) =
      append context run.id StepKind.skill_execution
        (StepPayload.skills_requested (map (λ s. s.name) (requested ∷ more)))

  unfoldable pub start_run : Text → Running Json Run
  start_run request = do
    now ← now_millis context
    run ← of_store (create_run context.workspace_raw context.root now request)
    session ← of_option (parent run.id)
    replace_items session
    append context run.id StepKind.user_message (StepPayload.user_message request)
    request_skills run context.requested_skills
    pure run

  abbrev pub selected_names : List Text
  selected_names =
      dedup
        (order_by text_leb (map (λ s. s.name) (context.active_skills ++ context.requested_skills)))

  abbrev pub emit_selected : List Text → Running Json Unit
  emit_selected [] = pure tt
  emit_selected (name ∷ names) =
      emit context skills_event AgentEventKind.output (skills_selected (name ∷ names))

  unfoldable pub emit_skills_selected : Running Json Unit
  emit_skills_selected = emit_selected selected_names

  abbrev pub continue_target : ResumeTarget → Running Json (RunLoopOutput Json)
  continue_target (main_run run) = continue_run values context run
  continue_target (skill_run run invocation) = continue_resumed_skill values context run invocation

  abbrev pub start_or_resume : Text → Option Run → Running Json (RunLoopOutput Json)
  start_or_resume request (some run) = resume_waiting_run run request >>= continue_target
  start_or_resume request none = do
    run ← start_run request
    emit_run_started context run.request
    emit_skills_selected
    continue_requested_skills values context run

  unfoldable pub run_with_sequenced_events : Text → Running Json (RunLoopOutput Json)
  run_with_sequenced_events request = do
    refresh_active_session_context
    waiting ← latest_waiting_run
    start_or_resume request waiting

  -- A new `SequencedAgentEventSink` numbers from one.
  unfoldable pub run_with_events : Text → Running Json (RunLoopOutput Json)
  run_with_events request s = run_with_sequenced_events request (record s { next_sequence = 1 })

  abbrev pub checkpoint : Text → Option Run → Running Json Unit
  checkpoint partial_output none = pure tt
  checkpoint partial_output (some run) =
      if is_empty partial_output
      then pure tt
      else append context run.id StepKind.assistant_output_checkpoint
          (StepPayload.assistant_output_checkpoint partial_output)

  -- What follows an abort.
  unfoldable pub stop : {A : Type 0} → Running Json A
  stop s =
      (do run ← cancel_latest_running_run; checkpoint s.partial_output run; fail (canceled run)) s

  abbrev pub or_stop : {A : Type 0} → Outcome A × State Json → Outcome A × State Json
  or_stop (aborted, s) = stop s
  or_stop (done a, s) = (done a, s)
  or_stop (failed e, s) = (failed e, s)
  or_stop (panicked, s) = (panicked, s)

  -- The state with new sinks for events: numbers start from one, and no output is there.
  abbrev pub with_new_sinks : State Json → State Json
  with_new_sinks s = record s { next_sequence = 1; partial_output = [] }

  -- The first argument says whether the token is cancelled before the request is made.
  unfoldable pub run_with_events_cancellable : Bool → Text → Running Json (RunLoopOutput Json)
  run_with_events_cancellable true request s = stop (with_new_sinks s)
  run_with_events_cancellable false request s = or_stop (run_with_events request (with_new_sinks s))
