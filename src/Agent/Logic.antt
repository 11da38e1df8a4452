-- ===== src/Agent/Logic.antt =====
-- What every action of a run in crates/jux-core/src/main_loop/mod.rs meets, if it is met by what
-- these actions are made of. The run is fixed: none of them acts on another.
use jux.Base.{ℕ, Text, Option, none, some, Result, Bool, true, false, if◌then◌else◌, ◌≡◌}
use jux.State.Model.{Run, RunStatus, StepKind, StepPayload}
use jux.State.Runs.{update_run_status}
use jux.State.Steps.{append_step}
use jux.State.Database.{Database, Action}
use jux.Agent.Event.{AgentEvent, AgentEventId, AgentEventKind, AgentEventData}
use jux.Agent.Monad.{
  panicked, RunLoopContext, Answer, Running, and_then, pure, of_option, of_store, try_store,
  ask_model, await, ask_tool, now_millis, send, emit,
}
use jux.Agent.Ending.{append, set_run_status, fail_runtime, fail_completion_call}
use jux.Agent.Attempt.{Attempt, and_then_ok, attempt, mapped, of_store_text, expected}

pub record Logic {Json : Type 0} (context : RunLoopContext Json) (run : Run) : Type 1 where
  pub Holds : {A : Type 0} → Running Json A → Type 0
  pub bind :
      {A B : Type 0} (m : Running Json A) (f : A → Running Json B)
      → Holds m
      → ((a : A) → Holds (f a))
      → Holds (λ s. and_then (m s) f)
  pub bind_ok :
      {A B : Type 0} (m : Attempt Json A) (f : A → Attempt Json B)
      → Holds m
      → ((a : A) → Holds (f a))
      → Holds (λ s. and_then_ok (m s) f)
  pub map_result :
      {A B : Type 0} (f : A → B) (m : Running Json A) → Holds m → Holds (λ s. mapped f (m s))
  pub result : {A : Type 0} (a : A) → Holds (pure a)
  pub panic : {A : Type 0} → Holds {A = A} (λ s. (panicked, s))
  pub clock : Holds (now_millis context)
  pub event : (e : AgentEvent Json) → Holds (send context e)
  pub model : {A : Type 0} (answer : ℕ → Answer A) → Holds (ask_model answer)
  pub part : {A : Type 0} (answer : Answer A) → Holds (await answer)
  pub tool : {A : Type 0} (answer : ℕ → A) → Holds (ask_tool answer)
  -- An operation of the store that only reads.
  pub read :
      {A : Type 0} (action : Action A)
      → ((db : Database) → (action db).1 ≡ db)
      → Holds (of_store action)
  pub try_read :
      {A : Type 0} (action : Action A)
      → ((db : Database) → (action db).1 ≡ db)
      → Holds (try_store action)
  pub add_step :
      (kind : StepKind) (payload : StepPayload Json) (now : ℕ)
      → Holds (of_store (append_step context.step_codec run.id kind payload now))
  pub try_add_step :
      (kind : StepKind) (payload : StepPayload Json) (now : ℕ)
      → Holds (try_store (append_step context.step_codec run.id kind payload now))
  pub status : (s : RunStatus) (now : ℕ) → Holds (of_store (update_run_status run.id s now))
  pub runtime_error :
      {A : Type 0} (message : Text) → Holds {A = A} (fail_runtime context run message)
  pub completion_error :
      {A : Type 0} (error : Text) (index : ℕ)
      → Holds {A = A} (fail_completion_call context run error index)

module _ {Json : Type 0} {context : RunLoopContext Json} {run : Run} where
  pub record Follows (logic : Logic context run) {A : Type 0} (m : Running Json A) : Type 0 where
    pub holds : logic.Holds m

  module _ {logic : Logic context run} where
    infixl 5 ◌>>=◌ ◌>>◌
    pub ◌>>=◌ :
        {A B : Type 0} {m : Running Json A} {f : A → Running Json B}
        → Follows logic m
        → ((a : A) → Follows logic (f a))
        → Follows logic (λ s. and_then (m s) f)
    ◌>>=◌ {m = m} {f = f} h k = record { holds = logic.bind m f h.holds (λ a. (k a).holds) }

    pub ◌>>◌ :
        {A B : Type 0} {m : Running Json A} {n : Running Json B}
        → Follows logic m
        → Follows logic n
        → Follows logic (λ s. and_then (m s) (λ _. n))
    h >> k = h >>= λ _. k

    -- The bind of attempts.
    pub attempt_then :
        {A B : Type 0} {m : Attempt Json A} {f : A → Attempt Json B}
        → Follows logic m
        → ((a : A) → Follows logic (f a))
        → Follows logic (λ s. and_then_ok (m s) f)
    attempt_then {m = m} {f = f} h k = record {
      holds = logic.bind_ok m f h.holds (λ a. (k a).holds);
    }

    pub pure-Follows : {A : Type 0} (a : A) → Follows logic (pure a)
    pure-Follows a = record { holds = logic.result a }

    pub of_option-Follows : {A : Type 0} (o : Option A) → Follows logic (of_option o)
    of_option-Follows none = record { holds = logic.panic }
    of_option-Follows (some a) = record { holds = logic.result a }

    pub now_millis-Follows : Follows logic (now_millis context)
    now_millis-Follows = record { holds = logic.clock }

    pub emit-Follows :
        (id : AgentEventId) (kind : AgentEventKind) (payload : AgentEventData Json)
        → Follows logic (emit context id kind payload)
    unfolding emit
    emit-Follows id kind payload = do now ← now_millis-Follows; record { holds = logic.event _ }

    pub ask_model-Follows : {A : Type 0} (answer : ℕ → Answer A) → Follows logic (ask_model answer)
    ask_model-Follows answer = record { holds = logic.model answer }

    pub await-Follows : {A : Type 0} (answer : Answer A) → Follows logic (await answer)
    await-Follows answer = record { holds = logic.part answer }

    pub ask_tool-Follows : {A : Type 0} (answer : ℕ → A) → Follows logic (ask_tool answer)
    ask_tool-Follows answer = record { holds = logic.tool answer }

    pub read-Follows :
        {A : Type 0} (action : Action A)
        → ((db : Database) → (action db).1 ≡ db)
        → Follows logic (of_store action)
    read-Follows action h = record { holds = logic.read action h }

    pub append-Follows :
        (kind : StepKind) (payload : StepPayload Json)
        → Follows logic (append context run.id kind payload)
    unfolding append
    append-Follows kind payload = do
      now ← now_millis-Follows
      record { holds = logic.add_step kind payload now }
      pure-Follows tt

    pub set_run_status-Follows :
        (status : RunStatus) → Follows logic (set_run_status context run.id status)
    unfolding set_run_status
    set_run_status-Follows status = do
      now ← now_millis-Follows
      record { holds = logic.status status now }

    pub fail_runtime-Follows :
        {A : Type 0} (message : Text) → Follows logic {A = A} (fail_runtime context run message)
    fail_runtime-Follows message = record { holds = logic.runtime_error message }

    pub fail_completion_call-Follows :
        {A : Type 0} (error : Text) (index : ℕ)
        → Follows logic {A = A} (fail_completion_call context run error index)
    fail_completion_call-Follows error index = record { holds = logic.completion_error error index }

    -- Either way of a test.
    pub if-Follows :
        (b : Bool) {A : Type 0} {m n : Running Json A}
        → Follows logic m
        → Follows logic n
        → Follows logic (if b then m else n)
    if-Follows true h k = h
    if-Follows false h k = k

    pub attempt-Follows : {A : Type 0} (r : Result Text A) → Follows logic (attempt r)
    attempt-Follows r = record { holds = logic.result r }

    pub mapped-Follows :
        {A B : Type 0} (f : A → B) {m : Running Json A}
        → Follows logic m
        → Follows logic (λ s. mapped f (m s))
    mapped-Follows f {m} h = record { holds = logic.map_result f m h.holds }

    pub read_text-Follows :
        {A : Type 0} (action : Action A)
        → ((db : Database) → (action db).1 ≡ db)
        → Follows logic (of_store_text action)
    unfolding of_store_text
    read_text-Follows action h = mapped-Follows _ (record { holds = logic.try_read action h })

    pub expected-Follows : {A : Type 0} (o : Option (Result Text A)) → Follows logic (expected o)
    expected-Follows none = record { holds = logic.panic }
    expected-Follows (some r) = record { holds = logic.result r }
