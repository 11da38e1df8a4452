-- ===== src/State/Lifecycle.antt =====
-- What the operations on sessions and runs of crates/jux-core/src/state/store.rs change, and what
-- they leave alone.
use jux.Base.{
  ℕ, ◌≡◌, ◌≢◌, refl, ap, sym, ◌∙◌, true, false, Text, text_eq, text_eq_iff, List, [], ◌∷◌, find,
  Option, none, some, Result, ok, err, arith, Bool-cases, inl, inr,
}
use jux.State.Ids.{RunId}
use jux.State.Model.{
  Workspace, Session, Run, RunStatus, set_status, StoreError, missing_session, encode_run_status,
  decode_run_status,
}
use jux.State.Tags.{decode-encode_run_status}
use jux.State.Deleting.{find-keep-not}
use jux.State.Sql.{update_rows}
use jux.State.Database.{Database, RunRow, or_error}
use jux.State.Sessions.{load_workspace_from, load_session, load_active_session, delete_session}
use jux.State.Runs.{row_to_run, read_run, found_run, load_run, update_run_status}

-- If the active session of the workspace is there, then after it is deleted, loading the active
-- session fails because it is missing.
pub load_active_session-delete_session :
    (w : Workspace) (db : Database) {s : Session}
    → load_workspace_from db ≡ some w
    → load_session w.active_session_id db ≡ (ok s, db)
    → (load_active_session (delete_session w.active_session_id db).1).0
      ≡ err (missing_session w.active_session_id)
unfolding load_active_session delete_session
load_active_session-delete_session w db first found = rw found (
    rw first (
      ap (or_error (missing_session w.active_session_id))
        (find-keep-not (λ (r : Session). text_eq r.id w.active_session_id) db.sessions)))

text_eq_ne : (s t : Text) → s ≢ t → text_eq s t ≡ false
text_eq_ne s t n = elim (Bool-cases (text_eq s t)) [
  | inl e ↦ absurd (n ((text_eq_iff s t).0 e))
  | inr e ↦ e
]

-- The row that a query by id finds has that id.
find-id :
    (id : RunId) (rows : List RunRow) {row : RunRow}
    → find (λ r. text_eq r.id id) rows ≡ some row
    → row.id ≡ id
find-id id [] e = cc
find-id id (r ∷ rows) {row} e = elim (Bool-cases (text_eq r.id id)) [
  | inl same ↦
      let first : some r ≡ some row = rw same at e in
      let eq : r.id ≡ id = (text_eq_iff r.id id).0 same in cc
  | inr other ↦ find-id id rows (rw other at e)
]

module _ (id : RunId) (change : RunRow → RunRow) (keeps : (r : RunRow) → (change r).id ≡ r.id) where
  find-update_rows :
      (rows : List RunRow) {row : RunRow}
      → find (λ r. text_eq r.id id) rows ≡ some row
      → find (λ r. text_eq r.id id) (update_rows (λ r. text_eq r.id id) change rows)
        ≡ some (change row)
  find-update_rows [] e = cc
  find-update_rows (r ∷ rows) {row} e = elim (Bool-cases (text_eq r.id id)) [
    | inl same ↦
        let first : some r ≡ some row = rw same at e in
        let eq : r ≡ row = cc in
        let hit : text_eq (change r).id id ≡ true = rw keeps same in
        rw same (rw hit (ap (λ x. some (change x)) eq))
    | inr other ↦ rw other (rw other (find-update_rows rows (rw other at e)))
  ]

  find-update_rows_other :
      (other : RunId) (rows : List RunRow)
      → other ≢ id
      → find (λ r. text_eq r.id other) (update_rows (λ r. text_eq r.id id) change rows)
        ≡ find (λ r. text_eq r.id other) rows
  find-update_rows_other other [] n = refl
  find-update_rows_other other (r ∷ rows) n =
      let ih = find-update_rows_other other rows n in
      elim (Bool-cases (text_eq r.id id)) [
        | inl same ↦
            let eq : r.id ≡ id = (text_eq_iff r.id id).0 same in
            let apart : r.id ≢ other = λ e. n (sym e ∙ eq) in
            let changed : text_eq (change r).id other ≡ false =
              rw keeps (text_eq_ne r.id other apart) in
            rw same (rw (changed, text_eq_ne r.id other apart) ih)
        | inr differ ↦ rw differ (ground (arith, ih))
      ]

load_run-row :
    (id : RunId) (db : Database) {run : Run}
    → load_run id db ≡ (ok run, db)
    → (row : RunRow) × (find (λ r. text_eq r.id id) db.runs ≡ some row) × (row_to_run row ≡ ok run)
unfolding load_run
load_run-row id db {run} h = go (find (λ r. text_eq r.id id) db.runs) refl (ap (λ p. p.0) h)
  where
    go :
        (o : Option RunRow)
        → find (λ r. text_eq r.id id) db.runs ≡ o
        → found_run id o ≡ ok run
        → (row : RunRow) × (find (λ r. text_eq r.id id) db.runs ≡ some row)
          × (row_to_run row ≡ ok run)
    go none e k = cc
    go (some row) e k = (row, e, k)

abbrev rewritten : RunStatus → ℕ → RunRow → RunRow
rewritten status now r = record r { status = encode_run_status status; updated_at = now }

row_to_run-rewritten :
    (row : RunRow) (status : RunStatus) (now : ℕ) {run : Run}
    → row_to_run row ≡ ok run
    → (row_to_run (rewritten status now row) ≡ ok (set_status status now run)) × (run.id ≡ row.id)
unfolding row_to_run
row_to_run-rewritten row status now {run} h =
    rw decode-encode_run_status (go (decode_run_status row.status) h)
  where
    go :
        (d : Result StoreError RunStatus)
        → read_run row d ≡ ok run
        → (read_run (rewritten status now row) (ok status) ≡ ok (set_status status now run))
          × (run.id ≡ row.id)
    go (err e) k = cc
    go (ok old) k = (ground arith, ground arith)

-- A run that is read has the id asked for.
pub load_run-id :
    (id : RunId) (db : Database) {run : Run} → load_run id db ≡ (ok run, db) → run.id ≡ id
load_run-id id db found =
    let (row, hit, read) = load_run-row id db found in
    let (reread, same) = row_to_run-rewritten row RunStatus.running 0 read in
    same ∙ find-id id db.runs hit

-- Setting the status of a run that can be read succeeds: reading it then gives the run with the
-- new status and time, reading any other run gives what it gave before, and steps and sessions
-- stay.
pub update_run_status_lem :
    (id : RunId) (status : RunStatus) (now : ℕ) (db : Database) {run : Run}
    → load_run id db ≡ (ok run, db)
    → (after : Database) × (update_run_status id status now db
        ≡ (ok (set_status status now run), after))
      × (load_run id after ≡ (ok (set_status status now run), after))
      × ((other : RunId) → other ≢ id → (load_run other after).0 ≡ (load_run other db).0)
      × (after.steps ≡ db.steps)
      × (after.sessions ≡ db.sessions)
unfolding update_run_status load_run
update_run_status_lem id status now db {run} found =
    let (row, hit, read) = load_run-row id db found in
    let (reread, same) = row_to_run-rewritten row status now read in
    let eq : run.id ≡ id = same ∙ find-id id db.runs hit in
    let change = rewritten status now in
    let after : Database = record db { runs = update_rows (λ r. text_eq r.id id) change db.runs } in
    (
      after,
      rw found (
          ap
            (λ k. (
              ok (set_status status now run),
              record db { runs = update_rows (λ r. text_eq r.id k) change db.runs },
            ))
            eq),
      ap (λ o. (found_run id o, after)) (find-update_rows id change (λ r. refl) db.runs hit)
          ∙ ap (λ r. (r, after)) reread,
      λ other n.
          ap (found_run other) (find-update_rows_other id change (λ r. refl) other db.runs n),
      refl,
      refl,
    )
