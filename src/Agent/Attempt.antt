-- ===== src/Agent/Attempt.antt =====
-- Actions on the state of a run whose errors are texts, as those of a skill's subflow in
-- crates/jux-core/src/main_loop/mod.rs are.
use jux.Base.{Text, Option, none, some, Result, ok, err, map_err}
use jux.State.Model.{StoreError}
use jux.State.Database.{Action}
use jux.Agent.Monad.{
  State, Outcome, done, failed, aborted, panicked, Running, store_error_text, try_store,
}

abbrev pub Attempt : Type 0 → Type 0 → Type 0
Attempt Json A = Running Json (Result Text A)

abbrev pub and_then_ok :
    {Json A B : Type 0}
    → Outcome (Result Text A) × State Json
    → (A → Attempt Json B)
    → Outcome (Result Text B) × State Json
and_then_ok (done (ok a), s) f = f a s
and_then_ok (done (err e), s) f = (done (err e), s)
and_then_ok (failed e, s) f = (failed e, s)
and_then_ok (aborted, s) f = (aborted, s)
and_then_ok (panicked, s) f = (panicked, s)

infixl 5 ◌>>=◌ ◌>>◌
abbrev pub ◌>>=◌ : {Json A B : Type 0} → Attempt Json A → (A → Attempt Json B) → Attempt Json B
◌>>=◌ m f s = and_then_ok (m s) f

abbrev pub ◌>>◌ : {Json A B : Type 0} → Attempt Json A → Attempt Json B → Attempt Json B
m >> k = m >>= λ _. k

-- A result, as an attempt.
abbrev pub attempt : {Json A : Type 0} → Result Text A → Attempt Json A
attempt result s = (done result, s)

abbrev map_outcome : {A B : Type 0} → (A → B) → Outcome A → Outcome B
map_outcome f (done a) = done (f a)
map_outcome f (failed e) = failed e
map_outcome f aborted = aborted
map_outcome f panicked = panicked

-- The parts of an action's result: its outcome changed by a function.
abbrev pub mapped : {Json A B : Type 0} → (A → B) → Outcome A × State Json → Outcome B × State Json
mapped f (outcome, s) = (map_outcome f outcome, s)

abbrev pub display_error : {A : Type 0} → Result StoreError A → Result Text A
display_error (ok a) = ok a
display_error (err e) = err (store_error_text e)

-- `map_err(|error| error.to_string())?`
unfoldable pub of_store_text : {Json A : Type 0} → Action A → Attempt Json A
of_store_text action s = mapped display_error (try_store action s)

-- An action that does not fail with a text.
abbrev pub lift : {Json A : Type 0} → Running Json A → Attempt Json A
lift action s = mapped ok (action s)

-- `expect`, of a result.
abbrev pub expected : {Json A : Type 0} → Option (Result Text A) → Attempt Json A
expected none s = (panicked, s)
expected (some result) s = (done result, s)

-- `map_err`
abbrev pub failing :
    {Json A : Type 0}
    → (Text → Text)
    → Outcome (Result Text A) × State Json
    → Outcome (Result Text A) × State Json
failing change result = mapped (map_err change) result
