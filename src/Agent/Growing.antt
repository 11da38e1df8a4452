-- ===== src/Agent/Growing.antt =====
-- crates/jux-core/src/state/store.rs: what the operations that the run loop calls do to the steps and
-- the runs that are stored.
use jux.Base.{
  ℕ, ◌+◌, ◌%◌, ◌^◌, Bool, true, false, Text, text_eq, any, List, [], ◌∷◌, ◌++◌, map, append-nil,
  append_assoc, Option, none, some, Result, ok, err, ◌≡◌, refl, sym, ap, ap₂, ◌∙◌, if◌then◌else◌,
}
use jux.Policy.Paths.{FilePath}
use jux.State.Model.{
  Workspace, Session, Run, new_run, new_step, new_item, RunStatus, StepKind, StepPayload, Step,
  SessionContextItem, SessionContextPayload, StoreError, encode_run_status,
}
use jux.State.Sql.{unique_insert, insert_row, update_rows}
use jux.State.Database.{
  Database, Action, RunRow, StepRow, and_then, commit_or_roll_back, transaction, pure, query, wrote,
  same_run, same_step, same_item, same_session, same_workspace,
}
use jux.State.Sessions.{
  init_workspace, init_workspace_if_missing, load_workspace_from, insert_workspace, insert_session,
}
use jux.State.Ids.{new_step_id, new_run_id}
use jux.State.Numbers.{next_step_number, next_run_number}
use jux.State.Runs.{row_of_run, insert_run, create_run, load_run, update_run_status}
use jux.State.Steps.{Codec, row_of_step, insert_step, append_step}
use jux.State.Items.{
  Default, row_of_item, insert_item, insert_items, delete_items, replace_session_context_items,
}

-- A list that begins with another.
abbrev pub Extends : {A : Type 0} → List A → List A → Type 0
Extends {A} xs ys = (new : List A) × (ys ≡ xs ++ new)

pub Extends-refl : {A : Type 0} (xs : List A) → Extends xs xs
Extends-refl xs = ([], sym (append-nil xs))

pub Extends-trans :
    {A : Type 0} (xs : List A) {ys zs : List A} → Extends xs ys → Extends ys zs → Extends xs zs
Extends-trans xs (new, p) (more, q) =
    (new ++ more, q ∙ (ap (λ l. l ++ more) p ∙ append_assoc xs new more))

-- What an update of a run's row leaves.
abbrev pub run_key : RunRow → Text × (Text × ℕ)
run_key row = (row.id, (row.request, row.created_at))

-- No stored step is lost or changed, and no run's id, request or time of creation.
abbrev pub Grows : Database → Database → Type 0
Grows db db' = Extends db.steps db'.steps × Extends (map run_key db.runs) (map run_key db'.runs)

pub Grows-refl : (db : Database) → Grows db db
Grows-refl db = (Extends-refl db.steps, Extends-refl (map run_key db.runs))

pub Grows-trans : (db db' db'' : Database) → Grows db db' → Grows db' db'' → Grows db db''
Grows-trans db db' db'' (s, r) (s', r') =
    (Extends-trans db.steps s s', Extends-trans (map run_key db.runs) r r')

pub record IsGrowing {A : Type 0} (action : Action A) : Type 0 where
  pub grows : (db : Database) → Grows db (action db).1

after-IsGrowing :
    {A B : Type 0} (f : A → Action B) (r : Result StoreError A × Database)
    → ((a : A) → IsGrowing (f a))
    → Grows r.1 (and_then r f).1
after-IsGrowing f (ok a, db) k = (k a).grows db
after-IsGrowing f (err e, db) k = Grows-refl db

infixl 5 ◌>>=◌ ◌>>◌
pub ◌>>=◌ :
    {A B : Type 0} {m : Action A} {f : A → Action B}
    → IsGrowing m
    → ((a : A) → IsGrowing (f a))
    → IsGrowing (λ db. and_then (m db) f)
◌>>=◌ {A} {B} {m} {f} h k = record {
  grows =
      λ db. Grows-trans db (m db).1 (and_then (m db) f).1 (h.grows db) (after-IsGrowing f (m db) k);
}

pub ◌>>◌ :
    {A B : Type 0} {m : Action A} {n : Action B}
    → IsGrowing m
    → IsGrowing n
    → IsGrowing (λ db. and_then (m db) (λ _. n))
h >> k = h >>= λ _. k

pure-IsGrowing : {A : Type 0} (a : A) → IsGrowing (pure a)
pure-IsGrowing a = record { grows = Grows-refl }

query-IsGrowing : {A : Type 0} (read : Database → Result StoreError A) → IsGrowing (query read)
query-IsGrowing read = record { grows = Grows-refl }

-- A change of other tables.
elsewhere-IsGrowing :
    {A : Type 0} (m : Action A)
    → ((db : Database) → ((m db).1.steps ≡ db.steps) × ((m db).1.runs ≡ db.runs))
    → IsGrowing m
elsewhere-IsGrowing m h = record {
  grows = λ db. (
    ([], (h db).0 ∙ sym (append-nil db.steps)),
    ([], ap (map run_key) (h db).1 ∙ sym (append-nil (map run_key db.runs))),
  );
}

rolled_back :
    {A : Type 0} (db : Database) (r : Result StoreError A × Database)
    → Grows db r.1
    → Grows db (commit_or_roll_back db r).1
rolled_back db (ok a, db') h = h
rolled_back db (err e, db') h = Grows-refl db

transaction-IsGrowing : {A : Type 0} {m : Action A} → IsGrowing m → IsGrowing (transaction m)
transaction-IsGrowing {A} {m} h = record { grows = λ db. rolled_back db (m db) (h.grows db) }

inserted_step :
    (b : Bool) (row : StepRow) (db : Database)
    → Grows db (wrote (λ rows. record db { steps = rows }) db (unique_insert b row db.steps)).1
unfolding unique_insert
inserted_step true row db = Grows-refl db
inserted_step false row db = ((row ∷ [], refl), Extends-refl (map run_key db.runs))

map-append-one :
    (rows : List RunRow) (row : RunRow)
    → map run_key (rows ++ row ∷ []) ≡ map run_key rows ++ run_key row ∷ []
map-append-one [] row = refl
map-append-one (r ∷ rows) row = ap (λ l. run_key r ∷ l) (map-append-one rows row)

inserted_run :
    (b : Bool) (row : RunRow) (db : Database)
    → Grows db (wrote (λ rows. record db { runs = rows }) db (unique_insert b row db.runs)).1
unfolding unique_insert
inserted_run true row db = Grows-refl db
inserted_run false row db = (Extends-refl db.steps, (run_key row ∷ [], map-append-one db.runs row))

wrote-elsewhere :
    {R : Type 0} (put : Database → List R → Database) (db : Database)
    (rows : Result StoreError (List R))
    → ((l : List R) → ((put db l).steps ≡ db.steps) × ((put db l).runs ≡ db.runs))
    → ((wrote (put db) db rows).1.steps ≡ db.steps) × ((wrote (put db) db rows).1.runs ≡ db.runs)
wrote-elsewhere put db (ok l) h = h l
wrote-elsewhere put db (err e) h = (refl, refl)

module _ {Json : Type 0} (codec : Codec (StepPayload Json)) where
  insert_step-IsGrowing : (step : Step Json) → IsGrowing (insert_step codec step)
  unfolding insert_step insert_row
  insert_step-IsGrowing step = do
    payload ← query-IsGrowing (λ db. codec.encode step.payload)
    record {
      grows = λ db.
          inserted_step (any (same_step (row_of_step codec step payload)) db.steps)
            (row_of_step codec step payload) db;
    }

  pub append_step-IsGrowing :
      (run : Text) (kind : StepKind) (payload : StepPayload Json) (now : ℕ)
      → IsGrowing (append_step codec run kind payload now)
  unfolding append_step
  append_step-IsGrowing run kind payload now = transaction-IsGrowing (do
    number ← query-IsGrowing (next_step_number run)
    insert_step-IsGrowing (new_step (new_step_id run number) kind payload now)
    pure-IsGrowing _)

kept_key :
    (b : Bool) (row : RunRow) (status : Text) (now : ℕ)
    → run_key (if b then record row { status = status; updated_at = now } else row) ≡ run_key row
kept_key true row status now = refl
kept_key false row status now = refl

keys-update_rows :
    (test : RunRow → Bool) (status : Text) (now : ℕ) (rows : List RunRow)
    → map run_key (update_rows test (λ r. record r { status = status; updated_at = now }) rows)
      ≡ map run_key rows
keys-update_rows test status now [] = refl
keys-update_rows test status now (r ∷ rows) =
    ap₂ (λ k l. k ∷ l) (kept_key (test r) r status now) (keys-update_rows test status now rows)

load_run-IsGrowing : (run : Text) → IsGrowing (load_run run)
unfolding load_run
load_run-IsGrowing run = record { grows = Grows-refl }

pub update_run_status-IsGrowing :
    (run : Text) (status : RunStatus) (now : ℕ) → IsGrowing (update_run_status run status now)
unfolding update_run_status
update_run_status-IsGrowing run status now = do
  before ← load_run-IsGrowing run
  record {
    grows = λ db. (
      Extends-refl db.steps,
      (
        [],
        keys-update_rows (λ r. text_eq r.id before.id) (encode_run_status status) now db.runs
            ∙ sym (append-nil (map run_key db.runs)),
      ),
    );
  }

insert_workspace-IsGrowing : (w : Workspace) → IsGrowing (insert_workspace w)
unfolding insert_workspace
insert_workspace-IsGrowing w = elsewhere-IsGrowing _ (λ db.
    wrote-elsewhere (λ d l. record d { workspaces = l }) db
      (insert_row same_workspace w db.workspaces) (λ l. (refl, refl)))

insert_session-IsGrowing : (s : Session) → IsGrowing (insert_session s)
unfolding insert_session
insert_session-IsGrowing s = elsewhere-IsGrowing _ (λ db.
    wrote-elsewhere (λ d l. record d { sessions = l }) db (insert_row same_session s db.sessions)
      (λ l. (refl, refl)))

init_workspace_if_missing-IsGrowing :
    (raw : Text) (root : FilePath) (now : ℕ) (found : Option Workspace)
    → IsGrowing (init_workspace_if_missing raw root now found)
unfolding init_workspace_if_missing
init_workspace_if_missing-IsGrowing raw root now (some workspace) = pure-IsGrowing workspace
init_workspace_if_missing-IsGrowing raw root now none =
    transaction-IsGrowing
      (do insert_workspace-IsGrowing _; insert_session-IsGrowing _; pure-IsGrowing _)

insert_run-IsGrowing : (run : Run) → IsGrowing (insert_run run)
unfolding insert_run insert_row
insert_run-IsGrowing run = record {
  grows = λ db. inserted_run (any (same_run (row_of_run run)) db.runs) (row_of_run run) db;
}

pub create_run-IsGrowing :
    (raw : Text) (root : FilePath) (now : ℕ) (request : Text)
    → IsGrowing (create_run raw root now request)
unfolding create_run init_workspace
create_run-IsGrowing raw root now request = do
  workspace ← record {
    grows =
        λ db. (init_workspace_if_missing-IsGrowing raw root now (load_workspace_from db)).grows db;
  }
  transaction-IsGrowing (do
    number ← query-IsGrowing (next_run_number workspace.active_session_id)
    insert_run-IsGrowing (new_run (new_run_id workspace.active_session_id number) request now)
    pure-IsGrowing _)

module _ {Json : Type 0} (codec : Codec (SessionContextPayload Json)) where
  insert_item-IsGrowing : (item : SessionContextItem Json) → IsGrowing (insert_item codec item)
  unfolding insert_item
  insert_item-IsGrowing item = do
    payload ← query-IsGrowing (λ db. codec.encode item.payload)
    elsewhere-IsGrowing _ (λ db.
        wrote-elsewhere (λ d l. record d { items = l }) db
          (insert_row same_item (row_of_item codec item payload) db.items) (λ l. (refl, refl)))

  insert_items-IsGrowing :
      (session : Text) (now sequence : ℕ) (items : List (SessionContextItem Json))
      (rest : List (Default Json))
      → IsGrowing (insert_items codec session now sequence items rest)
  unfolding insert_items
  insert_items-IsGrowing session now sequence items [] = pure-IsGrowing items
  insert_items-IsGrowing session now sequence items ((kind, payload) ∷ rest) = do
    insert_item-IsGrowing _
    insert_items-IsGrowing session now ((sequence + 1) % 2 ^ 64)
        (items ++ new_item session sequence kind payload now ∷ []) rest

  pub replace_session_context_items-IsGrowing :
      (session : Text) (replacements : List (Default Json)) (now : ℕ)
      → IsGrowing (replace_session_context_items codec session replacements now)
  unfolding replace_session_context_items
  replace_session_context_items-IsGrowing session replacements now = transaction-IsGrowing (do
    elsewhere-IsGrowing (delete_items codec session) (λ db. (refl, refl))
    insert_items-IsGrowing session now 1 [] replacements)
