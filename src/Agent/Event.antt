-- ===== src/Agent/Event.antt =====
-- crates/jux-core/src/main_loop/event.rs: the events of a run.
use jux.Base.{ℕ, Text, codes, Option, none, some, List, ◌∷◌, ◌++◌, map, ◌==◌, if◌then◌else◌}
use jux.State.Decimal.{decimal}
use jux.State.Ids.{rsplit_once}
use jux.State.Model.{LlmUsage}

abbrev pub AgentEventId : Type 0
AgentEventId = Text

abbrev pub dot : ℕ
dot = b'.'

-- The ids of `AgentEventId`.
abbrev pub run_event : AgentEventId
run_event = codes "run"

abbrev pub skills_event : AgentEventId
skills_event = codes "run.skills"

unfoldable pub iteration_event : ℕ → AgentEventId
iteration_event index = codes "run.iteration." ++ decimal index

unfoldable pub llm_event : ℕ → ℕ → AgentEventId
llm_event iteration llm =
    codes "run.iteration." ++ (decimal iteration ++ (codes ".llm." ++ decimal llm))

-- `name.replace('.', "_")`
abbrev pub without_dots : Text → Text
without_dots name = map (λ c. if c == dot then b'_' else c) name

unfoldable pub tool_event : ℕ → Text → ℕ → AgentEventId
tool_event iteration name tool =
    codes "run.iteration."
    ++ (decimal iteration ++ (codes ".tool." ++ (without_dots name ++ dot ∷ decimal tool)))

abbrev pub before_dot : Option (Text × Text) → Option AgentEventId
before_dot none = none
before_dot (some (parent, last)) = some parent

-- `AgentEventId::parent`
unfoldable pub parent_event : AgentEventId → Option AgentEventId
parent_event id = before_dot (rsplit_once dot id)

pub data AgentEventKind : Type 0 where
  started output completed failed : AgentEventKind

pub data ToolOutputStream : Type 0 where
  stdout stderr : ToolOutputStream

-- The fields stand in the order of the source.
pub data AgentEventData (Json : Type 0) : Type 0 where
  run_started run_completed run_failed : Text → AgentEventData Json
  skills_selected : List Text → AgentEventData Json
  iteration_started iteration_completed : ℕ → AgentEventData Json
  llm_started llm_completed output_completed : AgentEventData Json
  llm_failed assistant_text_delta assistant_reasoning_delta : Text → AgentEventData Json
  tool_call_delta : Text → Text → AgentEventData Json
  usage_delta : LlmUsage → AgentEventData Json
  tool_started : Text → Option Text → Json → AgentEventData Json
  tool_output : Text → Json → AgentEventData Json
  tool_output_chunk : Text → ToolOutputStream → Text → AgentEventData Json
  tool_completed : Text → Option Text → AgentEventData Json
  tool_failed : Text → Option Text → Text → AgentEventData Json

pub record AgentEvent (Json : Type 0) : Type 0 where
  pub sequence : ℕ
  pub timestamp : ℕ
  pub id : AgentEventId
  pub parent_id : Option AgentEventId
  pub kind : AgentEventKind
  pub payload : AgentEventData Json

-- `AgentEvent::new`
abbrev pub new_event :
    {Json : Type 0} → AgentEventId → AgentEventKind → AgentEventData Json → ℕ → AgentEvent Json
new_event id kind payload now = record {
  sequence = 0;
  timestamp = now;
  id = id;
  parent_id = parent_event id;
  kind = kind;
  payload = payload;
}
