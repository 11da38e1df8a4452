-- ===== src/Agent/Settled.antt =====
-- crates/jux-core/src/main_loop/mod.rs: how a run stands in the store when `continue_run` has ended.
use jux.Base.{
  ℕ, zero, suc, ◌+◌, Bool, true, false, Text, is_empty, Option, none, some, Result, ok, err, ◌≡◌,
  refl, ◌∙◌, ◌⊎◌, inl, inr, if◌then◌else◌,
}
use jux.State.Ids.{parent}
use jux.State.Model.{Run, RunStatus, StoreError, StepKind, StepPayload, AssistantResponseItem}
use jux.State.Database.{Database, Action}
use jux.State.Sessions.{load_workspace, load_session}
use jux.State.Steps.{append_step, load_run_steps}
use jux.Agent.Values.{Values}
use jux.Agent.Event.{run_event, run_completed, AgentEventKind}
use jux.Agent.Messages.{AssistantTurn}
use jux.Agent.Monad.{
  State, Outcome, done, failed, aborted, panicked, RunLoopContext, RunLoopError, store, prompt,
  runtime, canceled, Running, and_then, fail, of_option, of_store, stored, try_store, tried, send,
  emit, now_millis,
}
use jux.Agent.Ending.{
  RunLoopOutput, append, set_run_status, emit_run_failed, emit_iteration_completed, read_output,
  wait_for_human_input, complete_run, fail_runtime, fail_completion_call,
}
use jux.Agent.Attempt.{Attempt, and_then_ok, mapped}
use jux.Agent.HumanInput.{human_input_tool_call}
use jux.Agent.Tools.{ToolCallOutcome, completed, waiting_for_human_input}
use jux.Agent.RunLoop.{behind_calls, act_on, iterate, continue_run}
use jux.Agent.Subflow.{max_loop_iterations}
use jux.Agent.Logic.{Logic}
use jux.Agent.LogicLoop.{take_turn-Follows, execute_tool_calls-Follows}
use jux.Agent.Endings.{
  after-Ends, Post, Ends, Any, Tolerates, IsStored, bind-Ends, ◌>>=◌, ◌>>◌, pure-Ends,
  now_millis-Ends, emit-Ends, ask_model-Ends, await-Ends, ask_tool-Ends, of_store-Ends,
  set_run_status-Ends,
}

module _ {Json : Type 0} where
  -- An error other than one of the store leaves the run stored as failed.
  abbrev pub IsSettledError : Text → RunLoopError → State Json → Type 0
  IsSettledError id (store e) s = Unit
  IsSettledError id (prompt run message) s = IsStored id RunStatus.failed run s
  IsSettledError id (runtime run message) s = IsStored id RunStatus.failed run s
  IsSettledError id (canceled run) s = ⊥

  -- An output has the run as it is stored: completed with an answer, or waiting without one.
  abbrev pub IsSettled : Text → RunLoopOutput Json → State Json → Type 0
  IsSettled id out s =
      (IsStored id RunStatus.completed out.run s × ((answer : Text) × (out.answer ≡ some answer)))
      ⊎ (IsStored id RunStatus.waiting_for_human_input out.run s × (out.answer ≡ none))

  tolerant : (id : Text) → Tolerates (IsSettledError id)
  tolerant id = record { tolerated = λ e s. tt }

  module _ (context : RunLoopContext Json) (run : Run) where
    append-Ends :
        (kind : StepKind) (payload : StepPayload Json)
        → Ends Any (IsSettledError run.id) (append context run.id kind payload)
    unfolding append
    append-Ends kind payload = do
      now ← now_millis-Ends context
      of_store-Ends _ (tolerant run.id)
      pure-Ends tt

    -- Events do not change the store.
    fail_behind-Ends :
        {A : Type 0} {P : A → State Json → Type 0} (message : Text) (error : Run → RunLoopError)
        → ((r : Run) (s : State Json)
            → IsStored run.id RunStatus.failed r s
            → IsSettledError run.id (error r) s)
        → Ends {A = A} P (IsSettledError run.id) (λ s.
          and_then
            (set_run_status context run.id RunStatus.failed s)
            (λ r. λ s. and_then (emit_run_failed context message s) (λ _. fail (error r))))
    unfolding emit_run_failed emit send now_millis
    fail_behind-Ends message error h =
        bind-Ends _ (set_run_status-Ends context run.id RunStatus.failed (tolerant run.id))
          (λ r s is_stored. h r _ is_stored)

    pub fail_runtime-Ends :
        {A : Type 0} {P : A → State Json → Type 0} (message : Text)
        → Ends {A = A} P (IsSettledError run.id) (fail_runtime context run message)
    unfolding fail_runtime
    fail_runtime-Ends message =
        append-Ends StepKind.error (StepPayload.error message)
        >> fail_behind-Ends message (λ r. runtime r message) (λ r s h. h)

    fail_completion_call-Ends :
        {A : Type 0} (error : Text) (index : ℕ)
        → Ends {A = A} Any (IsSettledError run.id) (fail_completion_call context run error index)
    unfolding fail_completion_call
    fail_completion_call-Ends error index =
        emit-Ends context _ _ _
        >> (append-Ends StepKind.error (StepPayload.error error)
            >> fail_behind-Ends error (λ r. prompt r error) (λ r s h. h))

    after_ok-Post :
        {A B : Type 0} (f : A → Attempt Json B) (r : Outcome (Result Text A) × State Json)
        → Post Any (IsSettledError run.id) r
        → ((a : A) → Ends Any (IsSettledError run.id) (f a))
        → Post Any (IsSettledError run.id) (and_then_ok r f)
    after_ok-Post f (done (ok a), s) h k = (k a).ends s
    after_ok-Post f (done (err e), s) h k = tt
    after_ok-Post f (failed e, s) h k = h
    after_ok-Post f (aborted, s) h k = tt
    after_ok-Post f (panicked, s) h k = tt

    mapped-Post :
        {A B : Type 0} (f : A → B) (r : Outcome A × State Json)
        → Post Any (IsSettledError run.id) r
        → Post Any (IsSettledError run.id) (mapped f r)
    mapped-Post f (done a, s) h = tt
    mapped-Post f (failed e, s) h = h
    mapped-Post f (aborted, s) h = tt
    mapped-Post f (panicked, s) h = tt

    tried-Post :
        {A : Type 0} (s : State Json) (r : Result StoreError A × Database)
        → Post Any (IsSettledError run.id) (tried s r)
    tried-Post s (r, db) = tt

    settled : Logic context run
    unfolding send try_store
    settled = record {
      Holds = λ m. Ends Any (IsSettledError run.id) m;
      bind = λ m f h k. h >>= k;
      bind_ok = λ m f h k. record { ends = λ s. after_ok-Post f (m s) (h.ends s) k };
      map_result = λ f m h. record { ends = λ s. mapped-Post f (m s) (h.ends s) };
      result = λ a. pure-Ends a;
      panic = record { ends = λ s. tt };
      clock = now_millis-Ends context;
      event = λ e. record { ends = λ s. tt };
      model = λ answer. ask_model-Ends answer;
      part = λ answer. await-Ends answer;
      tool = λ answer. ask_tool-Ends answer;
      read = λ action h. of_store-Ends action (tolerant run.id);
      try_read = λ action h. record { ends = λ s. tried-Post s (action s.db) };
      add_step = λ kind payload now. of_store-Ends _ (tolerant run.id);
      try_add_step = λ kind payload now. record {
        ends = λ s. tried-Post s (append_step context.step_codec run.id kind payload now s.db);
      };
      status = λ status now. of_store-Ends _ (tolerant run.id);
      runtime_error = λ message. fail_runtime-Ends message;
      completion_error = λ error index. fail_completion_call-Ends error index;
    }

    -- The end of the loop: its result, given what the turn and the rest do.
    abbrev IsEnd : Running Json (RunLoopOutput Json) → Type 0
    IsEnd m = Ends (IsSettled run.id) (IsSettledError run.id) m

    abbrev HasOutput : Database → Run → Option Text → RunLoopOutput Json → State Json → Type 0
    HasOutput db r answer out s = (out.run ≡ r) × (out.answer ≡ answer) × (s.db ≡ db)

    reading :
        {A B : Type 0} (P : B → State Json → Type 0) (db : Database) (f : A → Running Json B)
        (r : Outcome A × State Json)
        → Post (λ a s. s.db ≡ db) (IsSettledError run.id) r
        → ((a : A) (s : State Json) → s.db ≡ db → Post P (IsSettledError run.id) (f a s))
        → Post P (IsSettledError run.id) (and_then r f)
    reading P db f (done a, s) h k = k a s h
    reading P db f (failed e, s) h k = h
    reading P db f (aborted, s) h k = tt
    reading P db f (panicked, s) h k = tt

    stored-Same :
        {A : Type 0} (s : State Json) (db : Database) (r : Result StoreError A × Database)
        → r.1 ≡ db
        → Post (λ a s'. s'.db ≡ db) (IsSettledError run.id) (stored s r)
    stored-Same s db (ok a, db') h = h
    stored-Same s db (err e, db') h = tt

    read-Same :
        {A : Type 0} (action : Action A) (s : State Json) (db : Database)
        → ((d : Database) → (action d).1 ≡ d)
        → s.db ≡ db
        → Post (λ a s'. s'.db ≡ db) (IsSettledError run.id) (of_store action s)
    unfolding of_store
    read-Same action s db reads h = stored-Same s db (action s.db) (reads s.db ∙ h)

    option-Same :
        {A : Type 0} (o : Option A) (s : State Json) (db : Database)
        → s.db ≡ db
        → Post (λ a s'. s'.db ≡ db) (IsSettledError run.id) (of_option o s)
    option-Same none s db h = tt
    option-Same (some a) s db h = h

    read_output-Post :
        (r : Run) (answer : Option Text) (s : State Json)
        → Post (HasOutput s.db r answer) (IsSettledError run.id) (read_output context r answer s)
    unfolding read_output load_workspace load_session load_run_steps
    read_output-Post r answer s =
        reading (HasOutput s.db r answer) s.db _ _
          (read-Same load_workspace s s.db (λ d. refl) refl)
          (λ w s1 e1.
            reading (HasOutput s.db r answer) s.db _ _ (option-Same (parent r.id) s1 s.db e1)
              (λ i s2 e2.
                reading (HasOutput s.db r answer) s.db _ _
                  (read-Same (load_session i) s2 s.db (λ d. refl) e2)
                  (λ x s3 e3.
                    reading (HasOutput s.db r answer) s.db _ _
                      (read-Same (load_run_steps context.step_codec r.id) s3 s.db (λ d. refl) e3)
                      (λ y s4 e4. (refl, refl, e4)))))

    -- A condition on the output that was read, and on the same store.
    weaken :
        {A : Type 0} (P P' : A → State Json → Type 0) (Q : RunLoopError → State Json → Type 0)
        (r : Outcome A × State Json)
        → Post P Q r
        → ((a : A) (s : State Json) → P a s → P' a s)
        → Post P' Q r
    weaken P P' Q (done a, s) h k = k a s h
    weaken P P' Q (failed e, s) h k = h
    weaken P P' Q (aborted, s) h k = tt
    weaken P P' Q (panicked, s) h k = tt

    IsSettled-output :
        (status : RunStatus) (r : Run) (s s' : State Json) (out : RunLoopOutput Json)
        → IsStored run.id status r s
        → out.run ≡ r
        → s'.db ≡ s.db
        → IsStored run.id status out.run s'
    IsSettled-output status r s s' out is_stored same kept = rw same (rw kept is_stored)

    wait_for_human_input-IsEnd : IsEnd (wait_for_human_input context run)
    unfolding wait_for_human_input
    wait_for_human_input-IsEnd =
        bind-Ends _
          (set_run_status-Ends context run.id RunStatus.waiting_for_human_input (tolerant run.id))
          (λ r s is_stored.
            weaken (HasOutput s.db r none) (IsSettled run.id) (IsSettledError run.id) _
              (read_output-Post r none s)
              (λ out s' h. inr (IsSettled-output _ r s s' out is_stored h.0 h.2, h.1)))

    complete_run-IsEnd : (answer : Text) → IsEnd (complete_run context run answer)
    unfolding complete_run emit send now_millis
    complete_run-IsEnd answer =
        bind-Ends _ (set_run_status-Ends context run.id RunStatus.completed (tolerant run.id))
          (λ r s is_stored.
            after-Ends (HasOutput s.db r (some answer)) (IsSettled run.id) (IsSettledError run.id) _
              _ (read_output-Post r (some answer) s)
              (λ out s' h. inl (
                IsSettled-output _ r s
                    (emit context run_event AgentEventKind.completed (run_completed answer) s').1
                    out is_stored h.0 h.2,
                (answer, h.1),
              )))

module _ (values : Values) (context : RunLoopContext values.Json) (run : Run) where
  open values use {Json}

  behind_calls-IsEnd :
      (index : ℕ) (outcome : ToolCallOutcome) {next : Running Json (RunLoopOutput Json)}
      → IsEnd context run next
      → IsEnd context run (behind_calls values context run index outcome next)
  unfolding emit_iteration_completed
  behind_calls-IsEnd index waiting_for_human_input h =
      emit-Ends context _ _ _ >> wait_for_human_input-IsEnd context run
  behind_calls-IsEnd index completed h = emit-Ends context _ _ _ >> h

  chosen-IsEnd :
      (b : Bool) {m n : Running Json (RunLoopOutput Json)}
      → IsEnd context run m
      → IsEnd context run n
      → IsEnd context run (if b then m else n)
  chosen-IsEnd true h k = h
  chosen-IsEnd false h k = k

  act_on-IsEnd :
      (index : ℕ) (turn : AssistantTurn Json) (call : Option (AssistantResponseItem Json))
      {next : Running Json (RunLoopOutput Json)}
      → IsEnd context run next
      → IsEnd context run (act_on values context run index turn call next)
  unfolding emit_iteration_completed settled
  act_on-IsEnd index turn (some call) h =
      emit-Ends context _ _ _ >> wait_for_human_input-IsEnd context run
  act_on-IsEnd index turn none h =
      chosen-IsEnd (is_empty turn.tool_calls)
        (emit-Ends context _ _ _ >> complete_run-IsEnd context run turn.final_answer)
        ((execute_tool_calls-Follows values context run {logic = settled context run} index 0
            turn.tool_calls).holds
          >>= λ outcome. behind_calls-IsEnd index outcome h)

  iterate-IsEnd : (left index : ℕ) → IsEnd context run (iterate values context left index run)
  unfolding iterate settled
  iterate-IsEnd zero index = fail_runtime-Ends context run _
  iterate-IsEnd (suc left) index =
      (take_turn-Follows values context run {logic = settled context run} index).holds >>= λ turn.
      act_on-IsEnd index turn (human_input_tool_call turn.tool_calls)
        (iterate-IsEnd left (index + 1))

  -- When the loop of a run ends with an output, the run is stored as it is in the output:
  -- completed with an answer, or waiting for human input without one. When it ends with an error
  -- that is not one of the store, the run is stored as failed. Nothing is said of a run that is
  -- aborted or panics.
  pub continue_run-IsSettled :
      (s : State Json)
      → Post (IsSettled run.id) (IsSettledError run.id) (continue_run values context run s)
  unfolding continue_run
  continue_run-IsSettled s = (iterate-IsEnd max_loop_iterations 1).ends s
