-- ===== src/State/Database.antt =====
-- The database behind crates/jux-core/src/state/store.rs: a record of tables, and operations on it.
-- A file or a statement that fails for another reason than the store's own data is not modelled,
-- nor is the decimal text of a timestamp.
use jux.Base.{ℤ, ℕ, Bool, ◌&&◌, Text, text_eq, List, [], Option, none, some, Result, ok, err}
use jux.State.Signed.{eq_ℤ}
use jux.State.Model.{Workspace, Session, StoreError}

pub record RunRow : Type 0 where
  pub id : Text
  pub request : Text
  pub status : Text
  pub created_at : ℕ
  pub updated_at : ℕ

pub record StepRow : Type 0 where
  pub id : Text
  pub kind : Text
  pub payload_json : Text
  pub created_at : ℕ
  pub updated_at : ℕ

pub record ItemRow : Type 0 where
  pub session_id : Text
  pub sequence : ℤ
  pub kind : Text
  pub payload_json : Text
  pub created_at : ℕ
  pub updated_at : ℕ

pub record Database : Type 0 where
  pub workspaces : List Workspace
  pub sessions : List Session
  pub runs : List RunRow
  pub steps : List StepRow
  pub items : List ItemRow

abbrev pub empty_database : Database
empty_database = record { workspaces = []; sessions = []; runs = []; steps = []; items = [] }

-- An operation on the database.
abbrev pub Action : Type 0 → Type 0
Action A = Database → Result StoreError A × Database

abbrev pub and_then :
    {A B : Type 0}
    → Result StoreError A × Database
    → (A → Action B)
    → Result StoreError B × Database
and_then (ok a, db) f = f a db
and_then (err e, db) f = (err e, db)

infixl 5 ◌>>=◌ ◌>>◌
abbrev pub ◌>>=◌ : {A B : Type 0} → Action A → (A → Action B) → Action B
◌>>=◌ m f db = and_then (m db) f

abbrev pub ◌>>◌ : {A B : Type 0} → Action A → Action B → Action B
m >> k = m >>= λ _. k

abbrev pub pure : {A : Type 0} → A → Action A
pure a db = (ok a, db)

-- A pure computation that may fail, over the tables.
abbrev pub query : {A : Type 0} → (Database → Result StoreError A) → Action A
query read db = (read db, db)

abbrev pub commit_or_roll_back :
    {A : Type 0} → Database → Result StoreError A × Database → Result StoreError A × Database
commit_or_roll_back before (ok a, after) = (ok a, after)
commit_or_roll_back before (err e, after) = (err e, before)

-- A transaction that is dropped before its commit leaves the database as it was.
abbrev pub transaction : {A : Type 0} → Action A → Action A
transaction body db = commit_or_roll_back db (body db)

abbrev pub or_error : {A : Type 0} → StoreError → Option A → Result StoreError A
or_error e none = err e
or_error e (some a) = ok a

abbrev pub wrote :
    {A : Type 0}
    → (List A → Database)
    → Database
    → Result StoreError (List A)
    → Result StoreError (Unit {0}) × Database
wrote put db (ok rows) = (ok tt, put rows)
wrote put db (err e) = (err e, db)

-- The columns of a primary key.
abbrev pub same_session : Session → Session → Bool
same_session a b = text_eq a.id b.id

abbrev pub same_run : RunRow → RunRow → Bool
same_run a b = text_eq a.id b.id

abbrev pub same_step : StepRow → StepRow → Bool
same_step a b = text_eq a.id b.id

abbrev pub same_item : ItemRow → ItemRow → Bool
same_item a b = text_eq a.session_id b.session_id && eq_ℤ a.sequence b.sequence

abbrev pub same_workspace : Workspace → Workspace → Bool
same_workspace a b = text_eq a.id b.id
