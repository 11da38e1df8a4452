-- ===== src/State/Samples.antt =====
-- The theorems on the store at concrete databases, and runs of the code.
use jux.Base.{
  pos, any, ◌≡◌, ◌≢◌, refl, true, Text, codes, [], ◌∷◌, ◌++◌, none, some, ok, err, Result, arith,
  map, keep, text_eq,
}
use jux.Policy.Paths.{root_dir}
use jux.State.Decimal.{digits, decimal, padded}
use jux.State.Ids.{SessionId, RunId, new_session_id, new_step_id}
use jux.State.Model.{
  Workspace, new_workspace, Session, new_session, Run, new_run, completed, StepKind, StepPayload,
  SessionContextPayload, Step, new_step, set_status, StoreError, sqlite, json, missing_session,
  decode_run_status,
}
use jux.State.Sql.{like, children_of, insert_row, order_by, collect}
use jux.State.Database.{RunRow, StepRow, ItemRow, Database, empty_database}
use jux.State.Sessions.{
  load_workspace_from, init_workspace, init_workspace_if_missing, insert_session, load_session,
  load_active_session, count_sessions, create_session, delete_session,
}
use jux.State.Numbers.{step_ids}
use jux.State.Runs.{row_to_run, load_run, update_run_status, load_session_runs}
use jux.State.Steps.{Codec, row_of_step, append_step, load_run_steps}
use jux.State.Order.{then_row}
use jux.State.Appending.{IsReadBack, IsNumbered, append_step-load_run_steps}
use jux.State.Creation.{HasSessions, create_session-taken, create_session-next}
use jux.State.Activating.{set_active_session-load_active_session}
use jux.State.Sessions.{set_active_session}
use jux.State.Deleting.{IsGone, SameRows, delete_session_lem}
use jux.State.Apart.{IsPlain}
use jux.State.Million.{append_step-million}
use jux.State.Lifecycle.{load_active_session-delete_session, update_run_status_lem}

abbrev raw : Text
raw = codes "0123456789abcdef"

abbrev initial : Database
initial = (init_workspace raw (root_dir ∷ []) 7 empty_database).1

-- The first session is there from the start, and the second gets the number 2.
abbrev two_sessions : Database
two_sessions = (create_session raw (root_dir ∷ []) 8 none initial).1

abbrev first_id : SessionId
first_id = codes "01234567-0001"

abbrev second_id : SessionId
second_id = codes "01234567-0002"

-- The first session is deleted, and one is created: the number of the second is used again.
abbrev second_only : Database
second_only = (delete_session first_id two_sessions).1

after_delete :
    (create_session raw (root_dir ∷ []) 9 none second_only).0
    ≡ err (sqlite (codes "UNIQUE constraint failed"))
unfolding create_session init_workspace init_workspace_if_missing insert_session load_workspace_from
    count_sessions delete_session load_session like insert_row new_session_id padded digits decimal
after_delete = refl

abbrev workspace : Workspace
workspace = new_workspace (root_dir ∷ []) (codes "01234567") first_id 7

abbrev default_session : Session
default_session = new_session first_id (some (codes "default")) 7

abbrev one_left : Database
one_left = record empty_database {
  workspaces = workspace ∷ [];
  sessions = new_session second_id none 8 ∷ [];
}

one_left_reached : second_only ≡ one_left
unfolding create_session init_workspace init_workspace_if_missing insert_session load_workspace_from
    count_sessions delete_session load_session like insert_row new_session_id padded digits decimal
one_left_reached = refl

one_left-HasSessions : HasSessions workspace (2 ∷ []) one_left
unfolding load_workspace_from new_session_id padded digits decimal
one_left-HasSessions = record { first = refl; ids = refl }

second_is_taken :
    any
      (λ n. text_eq (new_session_id (codes "01234567") 2) (new_session_id (codes "01234567") n))
      (2 ∷ [])
    ≡ true
unfolding new_session_id padded digits decimal
second_is_taken = refl

create_session-taken_example :
    create_session raw (root_dir ∷ []) 9 none one_left
    ≡ (err (sqlite (codes "UNIQUE constraint failed")), one_left)
create_session-taken_example =
    create_session-taken workspace (2 ∷ []) one_left one_left-HasSessions raw (root_dir ∷ []) 9 none
      second_is_taken

abbrev one_session : Database
one_session = record empty_database { workspaces = workspace ∷ []; sessions = default_session ∷ [] }

one_session-HasSessions : HasSessions workspace (1 ∷ []) one_session
unfolding load_workspace_from new_session_id padded digits decimal
one_session-HasSessions = record { first = refl; ids = refl }

create_session-next_example : create_session raw (root_dir ∷ []) 9 none one_session ≡ (
  ok (new_session (new_session_id (codes "01234567") 2) none 9),
  record one_session {
    sessions = default_session ∷ new_session (new_session_id (codes "01234567") 2) none 9 ∷ [];
  },
)
create_session-next_example =
    create_session-next workspace (1 ∷ []) one_session one_session-HasSessions raw (root_dir ∷ []) 9
      none (omega arith, tt) (omega arith)

first_is_found : load_session first_id one_session ≡ (ok default_session, one_session)
unfolding load_session
first_is_found = refl

workspace_is_first : load_workspace_from one_session ≡ some workspace
unfolding load_workspace_from
workspace_is_first = refl

load_active_session-delete_session_example :
    (load_active_session (delete_session first_id one_session).1).0 ≡ err (missing_session first_id)
load_active_session-delete_session_example =
    load_active_session-delete_session workspace one_session workspace_is_first first_is_found

abbrev run_id : RunId
run_id = codes "01234567-0001-000001"

abbrev started : Run
started = new_run run_id (codes "hello") 10

abbrev with_run : Database
with_run = record one_session {
  runs =
      record {
        id = run_id;
        request = codes "hello";
        status = codes "running";
        created_at = 10;
        updated_at = 10;
      }
      ∷ [];
}

run_is_found : load_run run_id with_run ≡ (ok started, with_run)
unfolding load_run row_to_run decode_run_status
run_is_found = refl

update_run_status_lem_example :
    (after : Database) × (update_run_status run_id completed 11 with_run
      ≡ (ok (set_status completed 11 started), after))
    × (load_run run_id after ≡ (ok (set_status completed 11 started), after))
    × ((other : RunId) → other ≢ run_id → (load_run other after).0 ≡ (load_run other with_run).0)
    × (after.steps ≡ with_run.steps)
    × (after.sessions ≡ with_run.sessions)
update_run_status_lem_example = update_run_status_lem run_id completed 11 with_run run_is_found

-- User messages stand for themselves, and nothing else is written.
abbrev write_message : StepPayload Unit → Result StoreError Text
write_message (StepPayload.user_message t) = ok t
write_message _ = err (json (codes "not written"))

abbrev messages : Codec (StepPayload Unit)
messages = record { encode = write_message; decode = λ t. ok (StepPayload.user_message t) }

abbrev hi : StepPayload Unit
hi = StepPayload.user_message (codes "hi")

abbrev hi_is_read_back : IsReadBack messages hi
hi_is_read_back = record { text = codes "hi"; written = refl; read = refl }

abbrev with_steps : Database
with_steps = record with_run {
  steps =
      row_of_step messages
        (new_step (codes "01234567-0001-000001-000001") StepKind.user_message hi 10) (codes "hi")
      ∷ row_of_step messages
          (new_step (codes "01234567-0001-000001-000002") StepKind.user_message hi 11) (codes "hi")
      ∷ [];
}

with_steps-IsNumbered : IsNumbered run_id (1 ∷ 2 ∷ []) with_steps
unfolding like new_step_id padded digits decimal
with_steps-IsNumbered = record {
  numbers = refl;
  small = (omega arith, (omega arith, tt));
  room = omega arith;
}

abbrev third : Step Unit
third = new_step (new_step_id run_id 3) StepKind.user_message hi 12

abbrev with_third : Database
with_third = record with_steps {
  steps = with_steps.steps ++ row_of_step messages third (codes "hi") ∷ [];
}

append_step-load_run_steps_example :
    (append_step messages run_id StepKind.user_message hi 12 with_steps ≡ (ok third, with_third))
    × ((load_run_steps messages run_id with_third).0
        ≡ then_row (load_run_steps messages run_id with_steps).0 third)
    × (keep (like (children_of run_id)) (step_ids with_third)
        ≡ map (new_step_id run_id) (1 ∷ 2 ∷ 3 ∷ []))
append_step-load_run_steps_example =
    append_step-load_run_steps messages run_id (1 ∷ 2 ∷ []) with_steps with_steps-IsNumbered
      StepKind.user_message hi hi_is_read_back 12

is_completed : decode_run_status (codes "completed") ≡ ok completed
unfolding decode_run_status
is_completed = refl

set_active_session-load_active_session_example :
    (after : Database) × (set_active_session first_id 20 one_session
      ≡ (ok (record workspace { active_session_id = first_id; updated_at = 20 }), after))
    × ((load_active_session after).0 ≡ ok default_session)
    × (after.sessions ≡ one_session.sessions)
set_active_session-load_active_session_example =
    set_active_session-load_active_session first_id 20 workspace [] one_session refl first_is_found

-- Two sessions with a run, a step and a context item each.
abbrev run_row : SessionId → RunRow
run_row session = record {
  id = session ++ codes "-000001";
  request = codes "hello";
  status = codes "running";
  created_at = 10;
  updated_at = 10;
}

abbrev step_row : SessionId → StepRow
step_row session =
    row_of_step messages (new_step (session ++ codes "-000001-000001") StepKind.user_message hi 10)
      (codes "hi")

abbrev item_row : SessionId → ItemRow
item_row session = record {
  session_id = session;
  sequence = pos 1;
  kind = codes "system_prompt";
  payload_json = codes "be brief";
  created_at = 10;
  updated_at = 10;
}

abbrev full : Database
full = record {
  workspaces = workspace ∷ [];
  sessions = default_session ∷ new_session second_id none 8 ∷ [];
  runs = run_row first_id ∷ run_row second_id ∷ [];
  steps = step_row first_id ∷ step_row second_id ∷ [];
  items = item_row first_id ∷ item_row second_id ∷ [];
}

abbrev no_items : Codec (SessionContextPayload Unit)
no_items = record {
  encode = λ p. err (json (codes "not written"));
  decode = λ t. ok (SessionContextPayload.system_prompt t);
}

first_is_there :
    load_session (new_session_id (codes "01234567") 1) full ≡ (ok default_session, full)
unfolding load_session new_session_id padded digits decimal
first_is_there = refl

workspace_id-IsPlain : IsPlain (codes "01234567")
workspace_id-IsPlain = ground arith

delete_session_lem_example :
    (after : Database) × (delete_session (new_session_id (codes "01234567") 1) full
      ≡ (ok tt, after))
    × IsGone messages no_items (new_session_id (codes "01234567") 1) after
    × (after.workspaces ≡ full.workspaces)
    × SameRows messages no_items (new_session_id (codes "01234567") 2) full after
delete_session_lem_example =
    delete_session_lem messages no_items (codes "01234567") 1 2 full workspace_id-IsPlain
      (omega arith) (omega arith) (omega arith) first_is_there

-- What is left of the second session is not nothing.
second_has_run :
    (load_session_runs second_id (delete_session first_id full).1).0
    ≡ ok (new_run (codes "01234567-0002-000001") (codes "hello") 10 ∷ [])
unfolding load_session_runs row_to_run decode_run_status delete_session load_session like order_by
    collect
second_has_run = refl

abbrev million_steps : Database
million_steps = record with_run {
  steps =
      row_of_step messages
        (new_step (codes "01234567-0001-000001-999999") StepKind.user_message hi 10) (codes "hi")
      ∷ row_of_step messages
          (new_step (codes "01234567-0001-000001-1000000") StepKind.user_message hi 11) (codes "hi")
      ∷ [];
}

million_numbers :
    keep (like (children_of run_id)) (step_ids million_steps)
    ≡ map (new_step_id run_id) (999999 ∷ 1000000 ∷ [])
unfolding like new_step_id padded digits decimal
million_numbers = refl

append_step-million_example :
    append_step messages run_id StepKind.user_message hi 12 million_steps
    ≡ (err (sqlite (codes "UNIQUE constraint failed")), million_steps)
append_step-million_example =
    append_step-million messages run_id (999999 ∷ 1000000 ∷ []) million_steps million_numbers
      (omega arith, (omega arith, tt)) refl StepKind.user_message hi 12 refl refl
