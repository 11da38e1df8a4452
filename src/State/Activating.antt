-- ===== src/State/Activating.antt =====
-- `set_active_session` of crates/jux-core/src/state/store.rs.
use jux.Base.{ℕ, ◌≡◌, refl, ap, text_eq, text_eq_refl, List, ◌∷◌, ok}
use jux.State.Ids.{SessionId}
use jux.State.Model.{Workspace, Session}
use jux.State.Sql.{update_rows}
use jux.State.Database.{Database}
use jux.State.Sessions.{
  load_workspace, load_workspace_from, load_session, load_active_session, set_active_session,
}

-- If there is a workspace, making a session that is there the active one succeeds and answers the
-- first workspace with that session; loading the active session then gives it, and the sessions
-- stay.
pub set_active_session-load_active_session :
    (id : SessionId) (now : ℕ) (w : Workspace) (ws : List Workspace) (db : Database) {s : Session}
    → db.workspaces ≡ w ∷ ws
    → load_session id db ≡ (ok s, db)
    → (after : Database) × (set_active_session id now db
        ≡ (ok (record w { active_session_id = id; updated_at = now }), after))
      × ((load_active_session after).0 ≡ ok s)
      × (after.sessions ≡ db.sessions)
unfolding set_active_session load_active_session load_workspace load_workspace_from load_session
set_active_session-load_active_session id now w ws db {s} first found =
    let change = λ (r : Workspace). record r { active_session_id = id; updated_at = now } in
    let after : Database = record db {
      workspaces = change w ∷ update_rows (λ r. text_eq r.id w.id) change ws;
    } in
    (after, rw found (rw first (rw (text_eq_refl w.id) refl)), ap (λ p. p.0) found, refl)
