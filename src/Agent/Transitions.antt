-- ===== src/Agent/Transitions.antt =====
-- The transitions that the run loop of crates/jux-core/src/main_loop/mod.rs is made of, as labels
-- with their effect on the state of a run, and the actions whose effect is that of a sequence of
-- transitions.
use jux.Base.{
  ℕ, suc, Text, List, [], ◌∷◌, ◌++◌, Option, none, some, Result, ok, err, ◌≡◌, refl, ap, ◌∙◌,
}
use jux.State.Model.{StoreError, RunStatus, StepKind, StepPayload}
use jux.State.Runs.{create_run, update_run_status}
use jux.State.Steps.{append_step}
use jux.State.Items.{Default, replace_session_context_items}
use jux.State.Database.{Database, Action}
use jux.Agent.Event.{AgentEvent, AgentEventId, AgentEventKind, AgentEventData}
use jux.Agent.Monad.{
  State, Outcome, done, failed, aborted, panicked, RunLoopContext, RunLoopError, Answer, Running,
  pure, fail, and_then, of_option, of_store, try_store, stored, ask_model, await, ask_tool,
  now_millis, send, emit,
}

pub data Transition (Json : Type 0) : Type 0 where
  read_clock ask_a_model ask_a_tool : Transition Json
  send_event : AgentEvent Json → Transition Json
  append_a_step : Text → StepKind → StepPayload Json → ℕ → Transition Json
  set_a_status : Text → RunStatus → ℕ → Transition Json
  replace_context : Text → List (Default Json) → ℕ → Transition Json
  create_a_run : ℕ → Text → Transition Json

module _ {Json : Type 0} (context : RunLoopContext Json) where
  abbrev on_store : {A : Type 0} → Action A → State Json → State Json
  on_store action s = record s { db = (action s.db).1 }

  -- The effect of a transition.
  abbrev pub apply : Transition Json → State Json → State Json
  apply read_clock s = record s { clock_reads = suc s.clock_reads }
  apply ask_a_model s = record s { model_calls = suc s.model_calls }
  apply ask_a_tool s = record s { tool_calls = suc s.tool_calls }
  apply (send_event event) s = (send context event s).1
  apply (append_a_step run kind payload now) s =
      on_store (append_step context.step_codec run kind payload now) s
  apply (set_a_status run status now) s = on_store (update_run_status run status now) s
  apply (replace_context session items now) s =
      on_store (replace_session_context_items context.context_codec session items now) s
  apply (create_a_run now request) s =
      on_store (create_run context.workspace_raw context.root now request) s

  abbrev pub replay : List (Transition Json) → State Json → State Json
  replay [] s = s
  replay (t ∷ ts) s = replay ts (apply t s)

  replay-append :
      (ts us : List (Transition Json)) (s : State Json)
      → replay (ts ++ us) s ≡ replay us (replay ts s)
  replay-append [] us s = refl
  replay-append (t ∷ ts) us s = replay-append ts us (apply t s)

  abbrev pub Leads : State Json → State Json → Type 0
  Leads s s' = (ts : List (Transition Json)) × (replay ts s ≡ s')

  -- An action changes the state as a sequence of transitions does.
  pub record IsTraced {A : Type 0} (m : Running Json A) : Type 0 where
    pub leads : (s : State Json) → Leads s (m s).1

  pub Leads-trans : {s s' s'' : State Json} → Leads s s' → Leads s' s'' → Leads s s''
  Leads-trans {s} {s'} {s''} (ts, p) (us, q) =
      (ts ++ us, replay-append ts us s ∙ (ap (replay us) p ∙ q))

  pub Leads-refl : (s : State Json) → Leads s s
  Leads-refl s = ([], refl)

  stored-state :
      {A : Type 0} (s : State Json) (r : Result StoreError A × Database)
      → record s { db = r.1 } ≡ (stored s r).1
  stored-state s (ok a, db) = refl
  stored-state s (err e, db) = refl

module _ {Json : Type 0} {context : RunLoopContext Json} where
  after-IsTraced :
      {A B : Type 0} (f : A → Running Json B) (r : Outcome A × State Json)
      → ((a : A) → IsTraced context (f a))
      → Leads context r.1 (and_then r f).1
  after-IsTraced f (done a, s) k = (k a).leads s
  after-IsTraced f (failed e, s) k = ([], refl)
  after-IsTraced f (aborted, s) k = ([], refl)
  after-IsTraced f (panicked, s) k = ([], refl)

  infixl 5 ◌>>=◌ ◌>>◌
  pub ◌>>=◌ :
      {A B : Type 0} {m : Running Json A} {f : A → Running Json B}
      → IsTraced context m
      → ((a : A) → IsTraced context (f a))
      → IsTraced context (λ s. and_then (m s) f)
  ◌>>=◌ {A} {B} {m} {f} h k = record {
    leads = λ s. Leads-trans context (h.leads s) (after-IsTraced f (m s) k);
  }

  pub ◌>>◌ :
      {A B : Type 0} {m : Running Json A} {n : Running Json B}
      → IsTraced context m
      → IsTraced context n
      → IsTraced context (λ s. and_then (m s) (λ _. n))
  h >> k = h >>= λ _. k

  pub pure-IsTraced : {A : Type 0} (a : A) → IsTraced context (pure a)
  pure-IsTraced a = record { leads = λ s. ([], refl) }

  pub fail-IsTraced : {A : Type 0} (e : RunLoopError) → IsTraced context {A = A} (fail e)
  fail-IsTraced e = record { leads = λ s. ([], refl) }

  pub of_option-IsTraced : {A : Type 0} (o : Option A) → IsTraced context (of_option o)
  of_option-IsTraced none = record { leads = λ s. ([], refl) }
  of_option-IsTraced (some a) = record { leads = λ s. ([], refl) }

  pub now_millis-IsTraced : IsTraced context (now_millis context)
  unfolding now_millis
  now_millis-IsTraced = record { leads = λ s. (read_clock ∷ [], refl) }

  pub send-IsTraced : (event : AgentEvent Json) → IsTraced context (send context event)
  send-IsTraced event = record { leads = λ s. (send_event event ∷ [], refl) }

  pub emit-IsTraced :
      (id : AgentEventId) (kind : AgentEventKind) (payload : AgentEventData Json)
      → IsTraced context (emit context id kind payload)
  unfolding emit
  emit-IsTraced id kind payload = do now ← now_millis-IsTraced; send-IsTraced _

  pub ask_model-IsTraced :
      {A : Type 0} (answer : ℕ → Answer A) → IsTraced context (ask_model answer)
  unfolding ask_model
  ask_model-IsTraced answer = record { leads = λ s. (ask_a_model ∷ [], refl) }

  pub await-IsTraced : {A : Type 0} (answer : Answer A) → IsTraced context (await answer)
  unfolding await
  await-IsTraced answer = record { leads = λ s. ([], refl) }

  pub ask_tool-IsTraced : {A : Type 0} (answer : ℕ → A) → IsTraced context (ask_tool answer)
  unfolding ask_tool
  ask_tool-IsTraced answer = record { leads = λ s. (ask_a_tool ∷ [], refl) }

  -- An operation of the store whose effect on the database is that of a transition, or nothing.
  pub of_store-IsTraced :
      {A : Type 0} (action : Action A)
      → ((s : State Json) → Leads context s (record s { db = (action s.db).1 }))
      → IsTraced context (of_store action)
  unfolding of_store
  of_store-IsTraced action h = record {
    leads = λ s. ((h s).0, (h s).1 ∙ stored-state context s (action s.db));
  }

  pub try_store-IsTraced :
      {A : Type 0} (action : Action A)
      → ((s : State Json) → Leads context s (record s { db = (action s.db).1 }))
      → IsTraced context (try_store action)
  unfolding try_store
  try_store-IsTraced action h = record { leads = h }
