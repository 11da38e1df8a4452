-- ===== src/State/Sessions.antt =====
-- crates/jux-core/src/state/store.rs: workspaces and sessions. The time is an argument, and so is
-- the raw text of a new workspace's id; one operation has one time.
use jux.Base.{
  ℕ, ◌+◌, Bool, not, Text, codes, text_eq, List, [], ◌∷◌, Option, none, some, keep, find, length,
  ok,
}
use jux.State.Model.{
  Workspace, new_workspace, Session, new_session, missing_session, missing_workspace,
}
use jux.Policy.Paths.{FilePath}
use jux.State.Digits.{text_leb}
use jux.State.Ids.{WorkspaceId, SessionId, new_workspace_id, new_session_id}
use jux.State.Sql.{like, children_of, order_by, insert_row, update_rows}
use jux.State.Database.{
  Database, Action, ◌>>=◌, ◌>>◌, pure, query, transaction, or_error, wrote, same_session,
  same_workspace,
}

abbrev pub first_workspace : List Workspace → Option Workspace
first_workspace [] = none
first_workspace (w ∷ ws) = some w

-- `load_workspace_from`
unfoldable pub load_workspace_from : Database → Option Workspace
load_workspace_from db = first_workspace db.workspaces

unfoldable pub insert_workspace : Workspace → Action Unit
insert_workspace w db =
    wrote (λ rows. record db { workspaces = rows }) db (insert_row same_workspace w db.workspaces)

unfoldable pub insert_session : Session → Action Unit
insert_session s db =
    wrote (λ rows. record db { sessions = rows }) db (insert_row same_session s db.sessions)

unfoldable pub init_workspace_if_missing : Text → FilePath → ℕ → Option Workspace → Action Workspace
unfolding insert_workspace insert_session
init_workspace_if_missing raw root now (some workspace) = pure workspace
init_workspace_if_missing raw root now none = transaction (do
  let id = new_workspace_id raw
  let session = new_session_id id 1
  let workspace = new_workspace root id session now
  insert_workspace workspace
  insert_session (new_session session (some (codes "default")) now)
  pure workspace)

unfoldable pub init_workspace : Text → FilePath → ℕ → Action Workspace
init_workspace raw root now db = init_workspace_if_missing raw root now (load_workspace_from db) db

unfoldable pub load_workspace : Action Workspace
unfolding load_workspace_from
load_workspace = query (λ db. or_error missing_workspace (load_workspace_from db))

unfoldable pub load_session : SessionId → Action Session
load_session id =
    query (λ db. or_error (missing_session id) (find (λ s. text_eq s.id id) db.sessions))

unfoldable pub load_active_session : Action Session
unfolding load_workspace load_session
load_active_session = do workspace ← load_workspace; load_session workspace.active_session_id

unfoldable pub load_sessions : Action (List Session)
load_sessions = query (λ db. ok (order_by (λ a b. text_leb a.id b.id) db.sessions))

unfoldable pub count_sessions : WorkspaceId → Database → ℕ
count_sessions workspace db = length (keep (λ s. like (children_of workspace) s.id) db.sessions)

unfoldable pub create_session : Text → FilePath → ℕ → Option Text → Action Session
create_session raw root now name = do
  workspace ← init_workspace raw root now
  transaction (do
    count ← query (λ db. ok (count_sessions workspace.id db))
    let session = new_session (new_session_id workspace.id (count + 1)) name now
    insert_session session
    pure session)

update_sessions : SessionId → (Session → Session) → Action Unit
update_sessions id change db =
    (ok tt, record db { sessions = update_rows (λ s. text_eq s.id id) change db.sessions })

-- `rename_session`, `set_session_liked` and `set_session_archived` write one column and the time.
unfoldable pub rename_session : SessionId → Option Text → ℕ → Action Session
unfolding update_sessions load_session
rename_session id name now = do
  session ← load_session id
  let renamed = record session { name = name; updated_at = now }
  update_sessions renamed.id (λ s. record s { name = renamed.name; updated_at = now })
  pure renamed

unfoldable pub set_session_liked : SessionId → Bool → ℕ → Action Session
unfolding update_sessions load_session
set_session_liked id liked now = do
  session ← load_session id
  let changed = record session { liked = liked; updated_at = now }
  update_sessions changed.id (λ s. record s { liked = changed.liked; updated_at = now })
  pure changed

unfoldable pub toggle_session_liked : SessionId → ℕ → Action Session
unfolding set_session_liked load_session
toggle_session_liked id now = do
  session ← load_session id
  set_session_liked id (not session.liked) now

unfoldable pub set_session_archived : SessionId → Bool → ℕ → Action Session
unfolding update_sessions load_session
set_session_archived id archived now = do
  session ← load_session id
  let changed = record session { archived = archived; updated_at = now }
  update_sessions changed.id (λ s. record s { archived = changed.archived; updated_at = now })
  pure changed

unfoldable pub delete_session : SessionId → Action Unit
unfolding load_session
delete_session id = do
  load_session id
  transaction (λ db. (
    ok tt,
    record db {
      steps = keep (λ r. not (like (children_of id) r.id)) db.steps;
      runs = keep (λ r. not (like (children_of id) r.id)) db.runs;
      items = keep (λ r. not (text_eq r.session_id id)) db.items;
      sessions = keep (λ r. not (text_eq r.id id)) db.sessions;
    },
  ))

unfoldable pub set_active_session : SessionId → ℕ → Action Workspace
unfolding load_session load_workspace
set_active_session id now = do
  load_session id
  workspace ← load_workspace
  let changed = record workspace { active_session_id = id; updated_at = now }
  λ db. (
    ok changed,
    record db {
      workspaces =
          update_rows (λ w. text_eq w.id changed.id)
            (λ w. record w { active_session_id = changed.active_session_id; updated_at = now })
            db.workspaces;
    },
  )
