-- ===== src/Agent/TracedRequests.antt =====
-- crates/jux-core/src/main_loop/mod.rs: the transitions behind a request.
use jux.Base.{
  Bool, true, false, Text, List, [], ◌∷◌, Option, none, some, Result, ok, err, ◌≡◌, refl, ap,
}
use jux.State.Model.{
  Workspace, Session, Run, StoreError, sqlite, json, invalid_status, invalid_step_kind,
  invalid_session_context_kind, invalid_id, missing_session, missing_run, missing_workspace,
  conversion_failure,
}
use jux.State.Sessions.{load_active_session, load_workspace, load_session}
use jux.State.Runs.{load_session_runs}
use jux.State.Steps.{load_run_steps}
use jux.State.Database
use jux.State.Database.{Database}
use jux.Agent.Values.{Values}
use jux.Agent.Skills.{SkillDefinition}
use jux.Agent.Monad.{State, Outcome, done, failed, aborted, panicked, RunLoopContext}
use jux.Agent.Ending.{emit_run_started}
use jux.Agent.HumanInput.{
  PendingHumanInput, latest_pending_human_input, pending_tool_call, validate_human_input,
}
use jux.Agent.Requests.{
  session_or_none, active_session, replace_items, refresh_of, refresh_active_session_context,
  last_run_of, latest_waiting_run, cancel_if_running, cancel_latest_running_run, pending_or_fail,
  valid_or_fail, resume_waiting_run, request_skills, start_run, emit_selected, emit_skills_selected,
  selected_names, start_or_resume, run_with_sequenced_events, run_with_events, checkpoint, stop,
  or_stop, context_items, with_new_sinks, run_with_events_cancellable,
}
use jux.Agent.Transitions.{
  IsTraced, Leads, Leads-trans, replace_context, create_a_run, ◌>>=◌, ◌>>◌, pure-IsTraced,
  fail-IsTraced, of_option-IsTraced, of_store-IsTraced, try_store-IsTraced, now_millis-IsTraced,
  emit-IsTraced, Leads-refl,
}
use jux.Agent.Traced.{append-IsTraced, set_run_status-IsTraced}
use jux.Agent.TracedLoop.{if-IsTraced}
use jux.Agent.TracedSkills.{continue_requested_skills-IsTraced, continue_target-IsTraced}

module _ (values : Values) (context : RunLoopContext values.Json) where
  open values use {Json}

  session_or_none-IsTraced :
      (r : Result StoreError Session) → IsTraced context (session_or_none values context r)
  session_or_none-IsTraced (ok session) = pure-IsTraced _
  session_or_none-IsTraced (err missing_workspace) = pure-IsTraced _
  session_or_none-IsTraced (err (sqlite e)) = fail-IsTraced _
  session_or_none-IsTraced (err (json e)) = fail-IsTraced _
  session_or_none-IsTraced (err (invalid_status e)) = fail-IsTraced _
  session_or_none-IsTraced (err (invalid_step_kind e)) = fail-IsTraced _
  session_or_none-IsTraced (err (invalid_session_context_kind e)) = fail-IsTraced _
  session_or_none-IsTraced (err (invalid_id e)) = fail-IsTraced _
  session_or_none-IsTraced (err (missing_session e)) = fail-IsTraced _
  session_or_none-IsTraced (err (missing_run e)) = fail-IsTraced _
  session_or_none-IsTraced (err (conversion_failure e)) = fail-IsTraced _

  found_session-db :
      (r : Result StoreError Workspace) (db : Database)
      → db ≡ (Database.and_then (r, db) (λ w. load_session w.active_session_id)).1
  unfolding load_session
  found_session-db (ok workspace) db = refl
  found_session-db (err e) db = refl

  active_session-IsTraced : IsTraced context (active_session values context)
  unfolding active_session load_active_session load_workspace
  active_session-IsTraced =
      try_store-IsTraced _ (λ s. ([], ap (λ db. record s { db = db }) (found_session-db _ s.db)))
      >>= session_or_none-IsTraced

  replace_items-IsTraced :
      (session : Text) → IsTraced context (replace_items values context session)
  unfolding replace_items
  replace_items-IsTraced session = do
    now ← now_millis-IsTraced
    of_store-IsTraced _
        (λ s. (replace_context session (context_items values context) now ∷ [], refl))
    pure-IsTraced tt

  refresh_of-IsTraced :
      (session : Option Session) → IsTraced context (refresh_of values context session)
  refresh_of-IsTraced none = pure-IsTraced tt
  refresh_of-IsTraced (some session) = replace_items-IsTraced session.id

  last_run_of-IsTraced :
      (session : Option Session) → IsTraced context (last_run_of values context session)
  unfolding load_session_runs
  last_run_of-IsTraced none = pure-IsTraced none
  last_run_of-IsTraced (some session) = do
    runs ← of_store-IsTraced _ (Leads-refl context)
    pure-IsTraced _

  pending_or_fail-IsTraced :
      (run : Run) (pending : Option (PendingHumanInput Json))
      → IsTraced context (pending_or_fail values context run pending)
  pending_or_fail-IsTraced run none = fail-IsTraced _
  pending_or_fail-IsTraced run (some pending) = pure-IsTraced pending

  valid_or_fail-IsTraced :
      (run : Run) (r : Result Text (Unit {0}))
      → IsTraced context (valid_or_fail values context run r)
  valid_or_fail-IsTraced run (ok u) = pure-IsTraced tt
  valid_or_fail-IsTraced run (err message) = fail-IsTraced _

  resume_waiting_run-IsTraced :
      (run : Run) (input : Text) → IsTraced context (resume_waiting_run values context run input)
  unfolding resume_waiting_run load_run_steps
  resume_waiting_run-IsTraced run input = do
    steps ← of_store-IsTraced _ (Leads-refl context)
    pending ← pending_or_fail-IsTraced run (latest_pending_human_input steps)
    valid_or_fail-IsTraced run
        (validate_human_input context.parse_human_input (pending_tool_call pending).arguments input)
    append-IsTraced context run.id _ _
    resumed ← set_run_status-IsTraced context run.id _
    pure-IsTraced _

  request_skills-IsTraced :
      (run : Run) (skills : List SkillDefinition)
      → IsTraced context (request_skills values context run skills)
  request_skills-IsTraced run [] = pure-IsTraced tt
  request_skills-IsTraced run (skill ∷ skills) = append-IsTraced context run.id _ _

  start_run-IsTraced : (request : Text) → IsTraced context (start_run values context request)
  unfolding start_run
  start_run-IsTraced request = do
    now ← now_millis-IsTraced
    run ← of_store-IsTraced _ (λ s. (create_a_run now request ∷ [], refl))
    session ← of_option-IsTraced _
    replace_items-IsTraced session
    append-IsTraced context run.id _ _
    request_skills-IsTraced run context.requested_skills
    pure-IsTraced run

  emit_selected-IsTraced :
      (names : List Text) → IsTraced context (emit_selected values context names)
  emit_selected-IsTraced [] = pure-IsTraced tt
  emit_selected-IsTraced (name ∷ names) = emit-IsTraced _ _ _

  start_or_resume-IsTraced :
      (request : Text) (run : Option Run)
      → IsTraced context (start_or_resume values context request run)
  unfolding emit_run_started emit_skills_selected
  start_or_resume-IsTraced request (some run) =
      resume_waiting_run-IsTraced run request >>= continue_target-IsTraced values context
  start_or_resume-IsTraced request none = do
    run ← start_run-IsTraced request
    emit-IsTraced _ _ _
    emit_selected-IsTraced (selected_names values context)
    continue_requested_skills-IsTraced values context run

  run_with_sequenced_events-IsTraced :
      (request : Text) → IsTraced context (run_with_sequenced_events values context request)
  unfolding run_with_sequenced_events refresh_active_session_context latest_waiting_run
  run_with_sequenced_events-IsTraced request = do
    active_session-IsTraced >>= refresh_of-IsTraced
    waiting ← do
      session ← active_session-IsTraced
      run ← last_run_of-IsTraced session
      pure-IsTraced _
    start_or_resume-IsTraced request waiting

  cancel_if_running-IsTraced :
      (run : Option Run) → IsTraced context (cancel_if_running values context run)
  cancel_if_running-IsTraced none = pure-IsTraced none
  cancel_if_running-IsTraced (some run) =
      if-IsTraced _ (do stopped ← set_run_status-IsTraced context run.id _; pure-IsTraced _)
        (pure-IsTraced none)

  checkpoint-IsTraced :
      (partial_output : Text) (run : Option Run)
      → IsTraced context (checkpoint values context partial_output run)
  checkpoint-IsTraced partial_output none = pure-IsTraced tt
  checkpoint-IsTraced partial_output (some run) =
      if-IsTraced _ (pure-IsTraced tt) (append-IsTraced context run.id _ _)

  stop-Leads : (A : Type 0) (s : State Json) → Leads context s (stop values context {A = A} s).1
  unfolding stop cancel_latest_running_run
  stop-Leads A s =
      (do
        run ← do
          session ← active_session-IsTraced
          run ← last_run_of-IsTraced session
          cancel_if_running-IsTraced run
        checkpoint-IsTraced s.partial_output run
        fail-IsTraced _).leads
        s

  or_stop-Leads :
      {A : Type 0} (r : Outcome A × State Json) → Leads context r.1 (or_stop values context r).1
  or_stop-Leads (aborted, s) = stop-Leads _ s
  or_stop-Leads (done a, s) = ([], refl)
  or_stop-Leads (failed e, s) = ([], refl)
  or_stop-Leads (panicked, s) = ([], refl)

  pub run_with_events_cancellable-Leads :
      (canceled_before : Bool) (request : Text) (s : State Json)
      → Leads context
          (with_new_sinks values context s)
          (run_with_events_cancellable values context canceled_before request s).1
  unfolding run_with_events_cancellable run_with_events
  run_with_events_cancellable-Leads true request s = stop-Leads _ (with_new_sinks values context s)
  run_with_events_cancellable-Leads false request s =
      Leads-trans context
        ((run_with_sequenced_events-IsTraced request).leads (with_new_sinks values context s))
        (or_stop-Leads _)
