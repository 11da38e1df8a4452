-- ===== src/Agent/Endings.antt =====
-- Conditions on how an action of crates/jux-core/src/main_loop/mod.rs ends.
use jux.Base.{ℕ, Text, Option, none, some, Result, ok, err, ◌≡◌, refl}
use jux.State.Model.{Run, RunStatus, StoreError}
use jux.State.Runs.{load_run, update_run_status}
use jux.State.Lifecycle.{update_run_status_lem, load_run-id}
use jux.State.Database.{Database, Action}
use jux.Agent.Event.{AgentEventId, AgentEventKind, AgentEventData}
use jux.Agent.Monad.{
  State, Outcome, done, failed, aborted, panicked, RunLoopContext, RunLoopError, store, Answer,
  answered, refused, never, read_out, Running, and_then, pure, of_option, of_store, stored,
  ask_model, await, ask_tool, now_millis, send, emit,
}
use jux.Agent.Ending.{set_run_status}

module _ {Json : Type 0} where
  -- A condition on a result, and one on an error; an aborted or panicked action meets any.
  abbrev pub Post :
      {A : Type 0}
      → (A → State Json → Type 0)
      → (RunLoopError → State Json → Type 0)
      → Outcome A × State Json
      → Type 0
  Post P Q (done a, s) = P a s
  Post P Q (failed e, s) = Q e s
  Post P Q (aborted, s) = Unit
  Post P Q (panicked, s) = Unit

  pub record Ends {A : Type 0} (P : A → State Json → Type 0)
      (Q : RunLoopError → State Json → Type 0) (m : Running Json A) : Type 0 where
    pub ends : (s : State Json) → Post P Q (m s)

  abbrev pub Any : {A : Type 0} → A → State Json → Type 0
  Any a s = Unit

  -- Errors of the store are never excluded.
  pub record Tolerates (Q : RunLoopError → State Json → Type 0) : Type 0 where
    pub tolerated : (e : StoreError) (s : State Json) → Q (store e) s

  pub after-Ends :
      {A B : Type 0} (R : A → State Json → Type 0) (P : B → State Json → Type 0)
      (Q : RunLoopError → State Json → Type 0) (f : A → Running Json B) (r : Outcome A × State Json)
      → Post R Q r
      → ((a : A) (s : State Json) → R a s → Post P Q (f a s))
      → Post P Q (and_then r f)
  after-Ends R P Q f (done a, s) h k = k a s h
  after-Ends R P Q f (failed e, s) h k = h
  after-Ends R P Q f (aborted, s) h k = tt
  after-Ends R P Q f (panicked, s) h k = tt

  -- A bind that keeps what is known of the first result.
  pub bind-Ends :
      {A B : Type 0} {R : A → State Json → Type 0} {P : B → State Json → Type 0}
      {Q : RunLoopError → State Json → Type 0} {m : Running Json A} (f : A → Running Json B)
      → Ends R Q m
      → ((a : A) (s : State Json) → R a s → Post P Q (f a s))
      → Ends P Q (λ s. and_then (m s) f)
  bind-Ends {A} {B} {R} {P} {Q} {m} f h k = record {
    ends = λ s. after-Ends R P Q f (m s) (h.ends s) k;
  }

  infixl 5 ◌>>=◌ ◌>>◌
  pub ◌>>=◌ :
      {A B : Type 0} {P : B → State Json → Type 0} {Q : RunLoopError → State Json → Type 0}
      {m : Running Json A} {f : A → Running Json B}
      → Ends Any Q m
      → ((a : A) → Ends P Q (f a))
      → Ends P Q (λ s. and_then (m s) f)
  ◌>>=◌ {f = f} h k = bind-Ends f h (λ a s u. (k a).ends s)

  pub ◌>>◌ :
      {A B : Type 0} {P : B → State Json → Type 0} {Q : RunLoopError → State Json → Type 0}
      {m : Running Json A} {n : Running Json B}
      → Ends Any Q m
      → Ends P Q n
      → Ends P Q (λ s. and_then (m s) (λ _. n))
  h >> k = h >>= λ _. k

  answer-Post :
      {A : Type 0} (Q : RunLoopError → State Json → Type 0) (answer : Answer A) (s : State Json)
      → Post Any Q (read_out answer, s)
  answer-Post Q (answered a) s = tt
  answer-Post Q (refused error) s = tt
  answer-Post Q never s = tt

  -- The run that is stored under an id, and its status.
  abbrev pub IsStored : Text → RunStatus → Run → State Json → Type 0
  IsStored id status run s =
      (run.id ≡ id) × (run.status ≡ status) × (load_run id s.db ≡ (ok run, s.db))

  module _ {Q : RunLoopError → State Json → Type 0} where
    pub pure-Ends : {A : Type 0} (a : A) → Ends Any Q (pure a)
    pure-Ends a = record { ends = λ s. tt }

    pub of_option-Ends : {A : Type 0} (o : Option A) → Ends Any Q (of_option o)
    of_option-Ends none = record { ends = λ s. tt }
    of_option-Ends (some a) = record { ends = λ s. tt }

    pub now_millis-Ends : (context : RunLoopContext Json) → Ends Any Q (now_millis context)
    unfolding now_millis
    now_millis-Ends context = record { ends = λ s. tt }

    pub emit-Ends :
        (context : RunLoopContext Json) (id : AgentEventId) (kind : AgentEventKind)
        (payload : AgentEventData Json)
        → Ends Any Q (emit context id kind payload)
    unfolding emit send now_millis
    emit-Ends context id kind payload = record { ends = λ s. tt }

    pub ask_model-Ends : {A : Type 0} (answer : ℕ → Answer A) → Ends Any Q (ask_model answer)
    unfolding ask_model
    ask_model-Ends answer = record { ends = λ s. answer-Post Q (answer s.model_calls) _ }

    pub await-Ends : {A : Type 0} (answer : Answer A) → Ends Any Q (await answer)
    unfolding await
    await-Ends answer = record { ends = λ s. answer-Post Q answer s }

    pub ask_tool-Ends : {A : Type 0} (answer : ℕ → A) → Ends Any Q (ask_tool answer)
    unfolding ask_tool
    ask_tool-Ends answer = record { ends = λ s. tt }

    stored-Post :
        {A : Type 0} (s : State Json) (r : Result StoreError A × Database)
        → Tolerates Q
        → Post Any Q (stored s r)
    stored-Post s (ok a, db) t = tt
    stored-Post s (err e, db) t = t.tolerated e _

    pub of_store-Ends :
        {A : Type 0} (action : Action A) → Tolerates Q → Ends Any Q (of_store action)
    unfolding of_store
    of_store-Ends action t = record { ends = λ s. stored-Post s (action s.db) t }

    updated-Post :
        (id : Text) (status : RunStatus) (now : ℕ) (s : State Json) (r : Result StoreError Run)
        → Tolerates Q
        → load_run id s.db ≡ (r, s.db)
        → Post (IsStored id status) Q (stored s (update_run_status id status now s.db))
    unfolding update_run_status
    updated-Post id status now s (err e) t found = rw found (t.tolerated e s)
    updated-Post id status now s (ok run) t found =
        let (after, updated, reread, other, steps, sessions) =
          update_run_status_lem id status now s.db found in
        rw updated (load_run-id id s.db found, refl, reread)

    pub set_run_status-Ends :
        (context : RunLoopContext Json) (id : Text) (status : RunStatus)
        → Tolerates Q
        → Ends (IsStored id status) Q (set_run_status context id status)
    unfolding set_run_status now_millis of_store load_run
    set_run_status-Ends context id status t = record {
      ends = λ s. updated-Post id status _ _ _ t refl;
    }
