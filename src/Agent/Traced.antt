-- ===== src/Agent/Traced.antt =====
-- crates/jux-core/src/main_loop/mod.rs: the transitions behind steps, events, the ends of a run and
-- a call of the model.
use jux.Base.{ℕ, Text, Option, none, some, [], ◌∷◌, Result, ok, err, ◌≡◌, refl, sym, ap}
use jux.State.Ids.{RunId}
use jux.State.Model.{Run, RunStatus, StepKind, StepPayload}
use jux.State.Sessions.{load_workspace, load_session}
use jux.State.Steps.{load_run_steps}
use jux.Agent.Monad.{State, Outcome, done, failed, aborted, panicked, RunLoopContext}
use jux.Agent.Ending.{
  append, set_run_status, emit_run_failed, read_output, wait_for_human_input, complete_run,
  fail_completion_call, fail_runtime,
}
use jux.Agent.Logic.{Logic}
use jux.Agent.Attempt.{Attempt, and_then_ok}
use jux.State.Database.{Database, Action}
use jux.Agent.Transitions.{
  Leads, Leads-trans, send-IsTraced, ask_tool-IsTraced, try_store-IsTraced, append_a_step,
  set_a_status, IsTraced, ◌>>=◌, ◌>>◌, pure-IsTraced, fail-IsTraced, of_option-IsTraced,
  of_store-IsTraced, now_millis-IsTraced, emit-IsTraced, ask_model-IsTraced, await-IsTraced,
  Leads-refl,
}

module _ {Json : Type 0} (context : RunLoopContext Json) where
  pub append-IsTraced :
      (run : RunId) (kind : StepKind) (payload : StepPayload Json)
      → IsTraced context (append context run kind payload)
  unfolding append
  append-IsTraced run kind payload = do
    now ← now_millis-IsTraced
    of_store-IsTraced _ (λ s. (append_a_step run kind payload now ∷ [], refl))
    pure-IsTraced tt

  pub set_run_status-IsTraced :
      (run : RunId) (status : RunStatus) → IsTraced context (set_run_status context run status)
  unfolding set_run_status
  set_run_status-IsTraced run status = do
    now ← now_millis-IsTraced
    of_store-IsTraced _ (λ s. (set_a_status run status now ∷ [], refl))

  pub read_output-IsTraced :
      (run : Run) (answer : Option Text) → IsTraced context (read_output context run answer)
  unfolding read_output load_workspace load_session load_run_steps
  read_output-IsTraced run answer = do
    workspace ← of_store-IsTraced _ (Leads-refl context)
    session_id ← of_option-IsTraced _
    session ← of_store-IsTraced _ (Leads-refl context)
    steps ← of_store-IsTraced _ (Leads-refl context)
    pure-IsTraced _

  pub wait_for_human_input-IsTraced :
      (run : Run) → IsTraced context (wait_for_human_input context run)
  unfolding wait_for_human_input
  wait_for_human_input-IsTraced run = do
    waiting ← set_run_status-IsTraced run.id RunStatus.waiting_for_human_input
    read_output-IsTraced waiting none

  pub complete_run-IsTraced :
      (run : Run) (answer : Text) → IsTraced context (complete_run context run answer)
  unfolding complete_run
  complete_run-IsTraced run answer = do
    completed ← set_run_status-IsTraced run.id RunStatus.completed
    output ← read_output-IsTraced completed (some answer)
    emit-IsTraced _ _ _
    pure-IsTraced output

  pub fail_completion_call-IsTraced :
      {A : Type 0} (run : Run) (error : Text) (index : ℕ)
      → IsTraced context {A = A} (fail_completion_call context run error index)
  unfolding fail_completion_call emit_run_failed
  fail_completion_call-IsTraced run error index = do
    emit-IsTraced _ _ _
    append-IsTraced run.id _ _
    failed_run ← set_run_status-IsTraced run.id RunStatus.failed
    emit-IsTraced _ _ _
    fail-IsTraced _

  pub fail_runtime-IsTraced :
      {A : Type 0} (run : Run) (message : Text)
      → IsTraced context {A = A} (fail_runtime context run message)
  unfolding fail_runtime emit_run_failed
  fail_runtime-IsTraced run message = do
    append-IsTraced run.id _ _
    failed_run ← set_run_status-IsTraced run.id RunStatus.failed
    emit-IsTraced _ _ _
    fail-IsTraced _

  pub after_ok-Leads :
      {A B : Type 0} (f : A → Attempt Json B) (r : Outcome (Result Text A) × State Json)
      → ((a : A) → IsTraced context (f a))
      → Leads context r.1 (and_then_ok r f).1
  after_ok-Leads f (done (ok a), s) k = (k a).leads s
  after_ok-Leads f (done (err e), s) k = ([], refl)
  after_ok-Leads f (failed e, s) k = ([], refl)
  after_ok-Leads f (aborted, s) k = ([], refl)
  after_ok-Leads f (panicked, s) k = ([], refl)

  pub read-Leads :
      {A : Type 0} (action : Action A)
      → ((db : Database) → (action db).1 ≡ db)
      → (s : State Json) → Leads context s (record s { db = (action s.db).1 })
  read-Leads action h s = ([], ap (λ db. record s { db = db }) (sym (h s.db)))

  -- Every action of a run is traced.
  abbrev pub traced : (run : Run) → Logic context run
  traced run = record {
    Holds = λ m. IsTraced context m;
    bind = λ m f h k. h >>= k;
    bind_ok = λ m f h k. record {
      leads = λ s. Leads-trans context (h.leads s) (after_ok-Leads f (m s) k);
    };
    map_result = λ f m h. record { leads = λ s. h.leads s };
    result = λ a. pure-IsTraced a;
    panic = record { leads = λ s. ([], refl) };
    clock = now_millis-IsTraced;
    event = λ e. send-IsTraced e;
    model = λ answer. ask_model-IsTraced answer;
    part = λ answer. await-IsTraced answer;
    tool = λ answer. ask_tool-IsTraced answer;
    read = λ action h. of_store-IsTraced action (read-Leads action h);
    try_read = λ action h. try_store-IsTraced action (read-Leads action h);
    add_step = λ kind payload now.
        of_store-IsTraced _ (λ s. (append_a_step run.id kind payload now ∷ [], refl));
    try_add_step = λ kind payload now.
        try_store-IsTraced _ (λ s. (append_a_step run.id kind payload now ∷ [], refl));
    status = λ status now. of_store-IsTraced _ (λ s. (set_a_status run.id status now ∷ [], refl));
    runtime_error = λ message. fail_runtime-IsTraced run message;
    completion_error = λ error index. fail_completion_call-IsTraced run error index;
  }
