-- ===== src/Agent/Isolated.antt =====
-- crates/jux-core/src/main_loop/mod.rs: the loop of a run leaves the other runs alone.
use jux.Base.{ℕ, Text, Result, ok, err, ◌≡◌, refl, sym}
use mathlib.Core.Path.{subst}
use jux.State.Model.{Run, RunStatus, StepKind, StepPayload, StoreError}
use jux.State.Database.{Database, Action}
use jux.Agent.Values.{Values}
use jux.Agent.Event.{AgentEvent, AgentEventId, AgentEventKind, AgentEventData}
use jux.Agent.Monad.{
  State, Outcome, done, failed, aborted, panicked, RunLoopContext, Answer, Running, and_then,
  stored, of_store, try_store, ask_model, await, ask_tool, now_millis, send, emit,
}
use jux.Agent.Ending.{append, set_run_status, emit_run_failed, fail_runtime, fail_completion_call}
use jux.Agent.Attempt.{Attempt, and_then_ok}
use jux.Agent.Logic.{Logic}
use jux.Agent.LogicLoop.{continue_run-Follows}
use jux.Agent.RunLoop.{continue_run}
use jux.Agent.Local.{
  Leaves, Leaves-refl, Leaves-trans, update_run_status-Leaves, append_step-Leaves,
}

module _ {Json : Type 0} (context : RunLoopContext Json) (run : Run) where
  -- However an action of the run ends, it leaves the rest of the store alone.
  pub record IsIsolated {A : Type 0} (m : Running Json A) : Type 0 where
    pub leaves : (s : State Json) → Leaves run.id s.db (m s).1.db

  same-IsIsolated :
      {A : Type 0} (m : Running Json A) → ((s : State Json) → (m s).1.db ≡ s.db) → IsIsolated m
  same-IsIsolated m h = record {
    leaves = λ s. subst (λ db. Leaves run.id s.db db) (sym (h s)) (Leaves-refl run.id s.db);
  }

  after-IsIsolated :
      {A B : Type 0} (f : A → Running Json B) (r : Outcome A × State Json)
      → ((a : A) → IsIsolated (f a))
      → Leaves run.id r.1.db (and_then r f).1.db
  after-IsIsolated f (done a, s) k = (k a).leaves s
  after-IsIsolated f (failed e, s) k = Leaves-refl run.id s.db
  after-IsIsolated f (aborted, s) k = Leaves-refl run.id s.db
  after-IsIsolated f (panicked, s) k = Leaves-refl run.id s.db

  after_ok-IsIsolated :
      {A B : Type 0} (f : A → Attempt Json B) (r : Outcome (Result Text A) × State Json)
      → ((a : A) → IsIsolated (f a))
      → Leaves run.id r.1.db (and_then_ok r f).1.db
  after_ok-IsIsolated f (done (ok a), s) k = (k a).leaves s
  after_ok-IsIsolated f (done (err e), s) k = Leaves-refl run.id s.db
  after_ok-IsIsolated f (failed e, s) k = Leaves-refl run.id s.db
  after_ok-IsIsolated f (aborted, s) k = Leaves-refl run.id s.db
  after_ok-IsIsolated f (panicked, s) k = Leaves-refl run.id s.db

  infixl 5 ◌>>=◌ ◌>>◌
  ◌>>=◌ :
      {A B : Type 0} {m : Running Json A} {f : A → Running Json B}
      → IsIsolated m
      → ((a : A) → IsIsolated (f a))
      → IsIsolated (λ s. and_then (m s) f)
  ◌>>=◌ {A} {B} {m} {f} h k = record {
    leaves = λ s.
        Leaves-trans run.id s.db (m s).1.db (and_then (m s) f).1.db (h.leaves s)
          (after-IsIsolated f (m s) k);
  }

  ◌>>◌ :
      {A B : Type 0} {m : Running Json A} {n : Running Json B}
      → IsIsolated m
      → IsIsolated n
      → IsIsolated (λ s. and_then (m s) (λ _. n))
  h >> k = h >>= λ _. k

  stored-db :
      {A : Type 0} (s : State Json) (r : Result StoreError A × Database) → (stored s r).1.db ≡ r.1
  stored-db s (ok a, db) = refl
  stored-db s (err e, db) = refl

  of_store-IsIsolated :
      {A : Type 0} (action : Action A)
      → ((db : Database) → Leaves run.id db (action db).1)
      → IsIsolated (of_store action)
  unfolding of_store
  of_store-IsIsolated action h = record {
    leaves = λ s. subst (λ db. Leaves run.id s.db db) (sym (stored-db s (action s.db))) (h s.db);
  }

  try_store-IsIsolated :
      {A : Type 0} (action : Action A)
      → ((db : Database) → Leaves run.id db (action db).1)
      → IsIsolated (try_store action)
  unfolding try_store
  try_store-IsIsolated action h = record { leaves = λ s. h s.db }

  read-Leaves :
      {A : Type 0} (action : Action A)
      → ((db : Database) → (action db).1 ≡ db)
      → (db : Database) → Leaves run.id db (action db).1
  read-Leaves action h db = subst (λ d. Leaves run.id db d) (sym (h db)) (Leaves-refl run.id db)

  now_millis-IsIsolated : IsIsolated (now_millis context)
  unfolding now_millis
  now_millis-IsIsolated = same-IsIsolated _ (λ s. refl)

  send-IsIsolated : (event : AgentEvent Json) → IsIsolated (send context event)
  unfolding send
  send-IsIsolated event = same-IsIsolated _ (λ s. refl)

  emit-IsIsolated :
      (id : AgentEventId) (kind : AgentEventKind) (payload : AgentEventData Json)
      → IsIsolated (emit context id kind payload)
  unfolding emit
  emit-IsIsolated id kind payload = do now ← now_millis-IsIsolated; send-IsIsolated _

  ask_model-IsIsolated : {A : Type 0} (answer : ℕ → Answer A) → IsIsolated (ask_model answer)
  unfolding ask_model
  ask_model-IsIsolated answer = same-IsIsolated _ (λ s. refl)

  await-IsIsolated : {A : Type 0} (answer : Answer A) → IsIsolated (await answer)
  unfolding await
  await-IsIsolated answer = same-IsIsolated _ (λ s. refl)

  ask_tool-IsIsolated : {A : Type 0} (answer : ℕ → A) → IsIsolated (ask_tool answer)
  unfolding ask_tool
  ask_tool-IsIsolated answer = same-IsIsolated _ (λ s. refl)

  append-IsIsolated :
      (kind : StepKind) (payload : StepPayload Json)
      → IsIsolated (append context run.id kind payload)
  unfolding append
  append-IsIsolated kind payload = do
    now ← now_millis-IsIsolated
    of_store-IsIsolated _ (append_step-Leaves run.id context.step_codec kind payload now)
    same-IsIsolated _ (λ s. refl)

  set_run_status-IsIsolated :
      (status : RunStatus) → IsIsolated (set_run_status context run.id status)
  unfolding set_run_status
  set_run_status-IsIsolated status = do
    now ← now_millis-IsIsolated
    of_store-IsIsolated _ (update_run_status-Leaves run.id status now)

  fail_runtime-IsIsolated :
      {A : Type 0} (message : Text) → IsIsolated {A = A} (fail_runtime context run message)
  unfolding fail_runtime emit_run_failed
  fail_runtime-IsIsolated message = do
    append-IsIsolated _ _
    failed_run ← set_run_status-IsIsolated RunStatus.failed
    emit-IsIsolated _ _ _
    same-IsIsolated _ (λ s. refl)

  fail_completion_call-IsIsolated :
      {A : Type 0} (error : Text) (index : ℕ)
      → IsIsolated {A = A} (fail_completion_call context run error index)
  unfolding fail_completion_call emit_run_failed
  fail_completion_call-IsIsolated error index = do
    emit-IsIsolated _ _ _
    append-IsIsolated _ _
    failed_run ← set_run_status-IsIsolated RunStatus.failed
    emit-IsIsolated _ _ _
    same-IsIsolated _ (λ s. refl)

  abbrev isolated : Logic context run
  isolated = record {
    Holds = λ m. IsIsolated m;
    bind = λ m f h k. h >>= k;
    bind_ok = λ m f h k. record {
      leaves = λ s.
          Leaves-trans run.id s.db (m s).1.db (and_then_ok (m s) f).1.db (h.leaves s)
            (after_ok-IsIsolated f (m s) k);
    };
    map_result = λ f m h. record { leaves = λ s. h.leaves s };
    result = λ a. same-IsIsolated _ (λ s. refl);
    panic = same-IsIsolated _ (λ s. refl);
    clock = now_millis-IsIsolated;
    event = λ e. send-IsIsolated e;
    model = λ answer. ask_model-IsIsolated answer;
    part = λ answer. await-IsIsolated answer;
    tool = λ answer. ask_tool-IsIsolated answer;
    read = λ action h. of_store-IsIsolated action (read-Leaves action h);
    try_read = λ action h. try_store-IsIsolated action (read-Leaves action h);
    add_step = λ kind payload now.
        of_store-IsIsolated _ (append_step-Leaves run.id context.step_codec kind payload now);
    try_add_step = λ kind payload now.
        try_store-IsIsolated _ (append_step-Leaves run.id context.step_codec kind payload now);
    status = λ status now. of_store-IsIsolated _ (update_run_status-Leaves run.id status now);
    runtime_error = λ message. fail_runtime-IsIsolated message;
    completion_error = λ error index. fail_completion_call-IsIsolated error index;
  }

-- However the loop of a run ends, with its tool calls and skills, the workspaces, the sessions,
-- the context items, the stored rows of all other runs, and all steps that are not below the run
-- are as they were.
pub continue_run-Leaves :
    (values : Values) (context : RunLoopContext values.Json) (run : Run) (s : State values.Json)
    → Leaves run.id s.db (continue_run values context run s).1.db
continue_run-Leaves values context run s =
    (continue_run-Follows values context run {logic = isolated context run}).holds.leaves s
