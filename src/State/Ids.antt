-- ===== src/State/Ids.antt =====
-- crates/jux-core/src/state/ids.rs: identifiers that name their parents.
-- The raw text of a new workspace id (from the `uuid` crate) is a parameter.
use jux.Base.{
  ℕ, ◌<◌, ◌^◌, ◌≡◌, refl, Text, Option, none, some, [], ◌∷◌, ◌++◌, ◌==◌, if◌then◌else◌, leb, arith,
  All, ◌∙◌,
}
use jux.State.Decimal.{padded}
use jux.State.Digits.{IsDigit, padded-IsDigit, text_leb, text_leb-append, text_leb-padded}

abbrev pub dash : ℕ
dash = b'-'

abbrev pub split_at : ℕ → ℕ → Text → Option (Text × Text) → Option (Text × Text)
split_at separator c rest (some (before, after)) = some (c ∷ before, after)
split_at separator c rest none = if c == separator then some ([], rest) else none

-- `str::rsplit_once`
unfoldable pub rsplit_once : ℕ → Text → Option (Text × Text)
rsplit_once separator [] = none
rsplit_once separator (c ∷ text) = split_at separator c text (rsplit_once separator text)

abbrev pub WorkspaceId : Type 0
WorkspaceId = Text

abbrev pub SessionId : Type 0
SessionId = Text

abbrev pub RunId : Type 0
RunId = Text

abbrev pub StepId : Type 0
StepId = Text

abbrev first_eight : Text → Text
first_eight (a ∷ b ∷ c ∷ d ∷ e ∷ f ∷ g ∷ h ∷ rest) = a ∷ b ∷ c ∷ d ∷ e ∷ f ∷ g ∷ h ∷ []
first_eight short = short

-- `WorkspaceId::new`, from the simple form of a new UUID.
abbrev pub new_workspace_id : Text → WorkspaceId
new_workspace_id raw = first_eight raw

-- `SessionId::new`
unfoldable pub new_session_id : WorkspaceId → ℕ → SessionId
new_session_id workspace number = workspace ++ dash ∷ padded 4 number

-- `RunId::new`
unfoldable pub new_run_id : SessionId → ℕ → RunId
new_run_id session number = session ++ dash ∷ padded 6 number

-- `StepId::new`
unfoldable pub new_step_id : RunId → ℕ → StepId
new_step_id run number = run ++ dash ∷ padded 6 number

abbrev before_split : Option (Text × Text) → Option Text
before_split none = none
before_split (some (before, after)) = some before

-- `SessionId::workspace_id`, `RunId::session_id` and `StepId::run_id`; `none` is the panic of
-- their `expect`.
unfoldable pub parent : Text → Option Text
unfolding rsplit_once
parent id = before_split (rsplit_once dash id)

abbrev then_parent : Option Text → Option Text
then_parent none = none
then_parent (some id) = parent id

-- `RunId::workspace_id` and `StepId::session_id`
unfoldable pub grandparent : Text → Option Text
grandparent id = then_parent (parent id)

-- `StepId::workspace_id`
unfoldable pub great_grandparent : Text → Option Text
great_grandparent id = then_parent (grandparent id)

rsplit_once-none : (t : Text) → All IsDigit t → rsplit_once dash t ≡ none
unfolding rsplit_once
rsplit_once-none [] h = refl
rsplit_once-none (c ∷ t) h = rw (rsplit_once-none t h.1) (ground arith)

-- A text splits at a dash that only digits follow.
pub rsplit_once-append :
    (before after : Text)
    → All IsDigit after
    → rsplit_once dash (before ++ dash ∷ after) ≡ some (before, after)
unfolding rsplit_once
rsplit_once-append [] after h = rw (rsplit_once-none after h)
rsplit_once-append (c ∷ before) after h = rw (rsplit_once-append before after h)

parent-padded : (id : Text) (w n : ℕ) → parent (id ++ dash ∷ padded w n) ≡ some id
unfolding parent
parent-padded id w n = rw (rsplit_once-append id (padded w n) (padded-IsDigit w n))

-- The id of a step leads back to the workspace, over the ids of its run and its session, whatever
-- the workspace id and the numbers.
great_grandparent-new_step_id :
    (workspace : WorkspaceId) (session run step : ℕ)
    → great_grandparent (new_step_id (new_run_id (new_session_id workspace session) run) step)
      ≡ some workspace
unfolding great_grandparent grandparent new_step_id new_run_id new_session_id
great_grandparent-new_step_id workspace session run step =
    rw (parent-padded _ 6 step) (rw (parent-padded _ 6 run) (parent-padded workspace 4 session))

pub parent-new_run_id : (session : SessionId) (n : ℕ) → parent (new_run_id session n) ≡ some session
unfolding new_run_id
parent-new_run_id session n = parent-padded session 6 n

pub parent-new_step_id : (run : RunId) (n : ℕ) → parent (new_step_id run n) ≡ some run
unfolding new_step_id
parent-new_step_id run n = parent-padded run 6 n

-- Step ids of one run are ordered as texts as their numbers are, up to a million.
pub text_leb-new_step_id :
    (run : RunId) (m n : ℕ)
    → m < 10 ^ 6
    → n < 10 ^ 6
    → text_leb (new_step_id run m) (new_step_id run n) ≡ leb m n
unfolding new_step_id text_leb
text_leb-new_step_id run m n h k =
    text_leb-append run (dash ∷ padded 6 m) (dash ∷ padded 6 n)
    ∙ text_leb-padded 6 m n (omega arith) h k
