-- ===== src/Agent/Samples.antt =====
-- The theorems on the run loop at a concrete model, a store and texts.
use jux.Base.{
  ℕ, zero, suc, true, false, Text, codes, List, [], ◌∷◌, ◌++◌, length, none, some, Result, ok, err,
  ◌≡◌, ◌≢◌, refl, ap, arith, All,
}
use jux.Policy.Paths.{root_dir}
use jux.State.Model.{
  Run, new_run, new_session, new_workspace, StepKind, StepPayload, Step, new_step,
  SessionContextPayload, tool_call, StoreError,
}
use jux.State.Database.{empty_database}
use jux.State.Runs.{row_of_run}
use jux.State.Steps.{Codec}
use jux.Agent.Values.{Values}
use jux.Agent.Skills.{SkillScope, SkillDefinition, select_explicit_skills}
use jux.Agent.Selecting.{has_skill, IsDistinct, select_explicit_skills-IsDistinct}
use jux.Agent.Messages.{text_content, human_input_tool_name, call_skill_tool_name}
use jux.Agent.Monad.{RunLoopContext, State, answered, refused}
use jux.Agent.Llm.{no_usage}
use jux.Agent.HumanInput.{PendingHumanInput, main, latest_pending_human_input}
use jux.Agent.Requests.{run_with_events_cancellable, with_new_sinks, input_payload}
use jux.Agent.RunLoop.{continue_run}
use jux.Agent.Tools.{chunk_texts}
use jux.Agent.Utf8.{replacement}
use jux.Agent.Endings.{Post}
use jux.Agent.Settled.{IsSettled, IsSettledError, continue_run-IsSettled}
use jux.Agent.Local.{Leaves}
use jux.Agent.Isolated.{continue_run-Leaves}
use jux.Agent.Growing.{Grows}
use jux.Agent.History.{
  Continues, run_with_events_cancellable-Continues, run_with_events_cancellable-Grows,
}
use jux.Agent.Answering.{pending_key, input_payload-answers}
use jux.Agent.Chunks.{IsAscii, joined, chunk_texts-ascii, chunk_texts-cut}

abbrev joined_fields : List (Text × Text) → Text
joined_fields [] = []
joined_fields ((key, value) ∷ fields) = key ++ (value ++ joined_fields fields)

-- Values that are texts.
abbrev texts : Values
texts = record {
  Json = Text;
  string = λ t. t;
  boolean = λ b. codes "boolean";
  object = joined_fields;
  to_text = λ t. t;
  as_text = λ t. some t;
  text_at = λ key t. some t;
  array_at = λ key t. none;
  with_array_at = λ key elements t. t;
}

-- A user's message is kept as it is, and any other step as an empty one.
abbrev encode_payload : StepPayload Text → Result StoreError Text
encode_payload (StepPayload.user_message content) = ok content
encode_payload _ = ok []

abbrev step_texts : Codec (StepPayload Text)
step_texts = record { encode = encode_payload; decode = λ t. ok (StepPayload.user_message t) }

abbrev prompt_texts : Codec (SessionContextPayload Text)
prompt_texts = record {
  encode = λ payload. ok [];
  decode = λ t. ok (SessionContextPayload.system_prompt t);
}

-- A model that answers at once, and no tools.
abbrev context : RunLoopContext Text
context = record {
  root = root_dir ∷ [];
  instructions = [];
  skills = [];
  requested_skills = [];
  active_skills = [];
  stream_model_output = false;
  workspace_raw = codes "0123456789abcdef";
  clock = λ n. n;
  completion = λ n request.
      answered
        (record { choice = text_content (codes "done") ∷ []; usage = no_usage; message_id = none });
  stream = λ n request. refused (codes "no stream");
  execute_tool = λ n name arguments. err (codes "no tool");
  tool_definitions = [];
  call_skill_tool_definition = record {
    name = call_skill_tool_name;
    description = [];
    parameters = [];
  };
  parse_skill_call = λ t. err t;
  parse_human_input = λ t. err t;
  step_codec = step_texts;
  context_codec = prompt_texts;
}

abbrev session_id : Text
session_id = codes "01234567-0001"

abbrev run : Run
run = new_run (codes "01234567-0001-000001") (codes "hello") 3

abbrev start : State Text
start = record {
  db = record empty_database {
    workspaces = new_workspace (root_dir ∷ []) (codes "01234567") session_id 1 ∷ [];
    sessions = new_session session_id none 1 ∷ [];
    runs = row_of_run run ∷ [];
  };
  events = [];
  next_sequence = 1;
  partial_output = [];
  clock_reads = 0;
  model_calls = 0;
  tool_calls = 0;
}

continue_run-IsSettled_example :
    Post (IsSettled run.id) (IsSettledError run.id) (continue_run texts context run start)
continue_run-IsSettled_example = continue_run-IsSettled texts context run start

-- The store has another run with a step.
abbrev beside : State Text
beside = record start {
  db = record start.db {
    runs =
        row_of_run (new_run (codes "01234567-0001-000002") (codes "other") 4) ∷ row_of_run run ∷ [];
    steps =
        record {
          id = codes "01234567-0001-000002-000001";
          kind = codes "user_message";
          payload_json = codes "other";
          created_at = 4;
          updated_at = 4;
        }
        ∷ [];
  };
}

continue_run-Leaves_example : Leaves run.id beside.db (continue_run texts context run beside).1.db
continue_run-Leaves_example = continue_run-Leaves texts context run beside

run_with_events_cancellable-Continues_example :
    Continues context
      (with_new_sinks texts context start)
      (run_with_events_cancellable texts context false (codes "hello") start).1
run_with_events_cancellable-Continues_example =
    run_with_events_cancellable-Continues texts context false (codes "hello") start

run_with_events_cancellable-Grows_example :
    Grows start.db (run_with_events_cancellable texts context false (codes "hello") start).1.db
run_with_events_cancellable-Grows_example =
    run_with_events_cancellable-Grows texts context false (codes "hello") start

-- A turn that asks for input, under an id.
abbrev asking : Text → Text → Step Text
asking step id =
    new_step step StepKind.assistant_response
      (StepPayload.assistant_response none no_usage
        (tool_call id none human_input_tool_name (codes "which?") ∷ []))
      4

abbrev pending_request : Text → PendingHumanInput Text
pending_request id =
    main
      (record { id = id; call_id = none; name = human_input_tool_name; arguments = codes "which?" })

abbrev asked : List (Step Text)
asked = asking (codes "s-1") (codes "a") ∷ asking (codes "s-2") (codes "b") ∷ []

abbrev answer : Step Text
answer =
    new_step (codes "s-3") StepKind.tool_result
      (input_payload texts context (pending_request (codes "b")) (codes "this")) 5

first_waits : latest_pending_human_input (asked ++ answer ∷ []) ≡ some (pending_request (codes "a"))
unfolding latest_pending_human_input
first_waits = refl

input_payload-answers_example :
    pending_key (pending_request (codes "a")) ≢ pending_key (pending_request (codes "b"))
input_payload-answers_example =
    input_payload-answers texts context (pending_request (codes "b")) (pending_request (codes "a"))
      (codes "this") asked answer refl first_waits

abbrev letters : ℕ → Text
letters zero = []
letters (suc n) = b'a' ∷ letters n

letters-IsAscii : (n : ℕ) → IsAscii (letters n)
letters-IsAscii zero = tt
letters-IsAscii (suc n) = (omega arith, letters-IsAscii n)

length-letters : (n : ℕ) → length (letters n) ≡ n
length-letters zero = refl
length-letters (suc n) = ap suc (length-letters n)

chunk_texts-ascii_example : joined (chunk_texts texts context (some (letters 5))) ≡ letters 5
chunk_texts-ascii_example = chunk_texts-ascii texts context (letters 5) (letters-IsAscii 5)

chunk_texts-cut_example :
    chunk_texts texts context (some (letters 4095 ++ 233 ∷ []))
    ≡ (letters 4095 ++ replacement ∷ []) ∷ (replacement ∷ []) ∷ []
chunk_texts-cut_example =
    chunk_texts-cut texts context (letters 4095) 233 (letters-IsAscii 4095) (length-letters 4095)
      (omega arith) (omega arith)

abbrev named : Text → SkillDefinition
named name = record {
  name = name;
  description = codes "does it";
  content = codes "do it";
  scope = SkillScope.project;
  path = root_dir ∷ [];
}

abbrev catalog : List SkillDefinition
catalog = named (codes "build") ∷ named (codes "review") ∷ []

abbrev asked_for : List Text
asked_for = codes "review" ∷ codes "build" ∷ codes "review" ∷ []

two_selected :
    select_explicit_skills catalog asked_for
    ≡ ok (named (codes "review") ∷ named (codes "build") ∷ [])
unfolding select_explicit_skills
two_selected = refl

select_explicit_skills-IsDistinct_example :
    IsDistinct (named (codes "review") ∷ named (codes "build") ∷ [])
    × All
        (λ name. has_skill name (named (codes "review") ∷ named (codes "build") ∷ []) ≡ true)
        asked_for
select_explicit_skills-IsDistinct_example =
    select_explicit_skills-IsDistinct catalog asked_for two_selected

abbrev replacement_skill : SkillDefinition
replacement_skill = record (named (codes "review")) { content = codes "do it well" }
