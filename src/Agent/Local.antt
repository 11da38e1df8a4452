-- ===== src/Agent/Local.antt =====
-- crates/jux-core/src/main_loop/mod.rs: what a run's loop leaves alone in the store.
use jux.Base.{
  ℕ, Bool, true, false, not, text_eq, List, [], ◌∷◌, keep, append-nil, Result, ok, err, ◌≡◌, refl,
  ap, ◌∙◌, Bool-cases, inl, inr, any,
}
use jux.State.Decimal.{padded}
use jux.State.Ids.{RunId, new_step_id}
use jux.State.Model.{
  Run, RunStatus, StepKind, StepPayload, Step, new_step, StoreError, set_status, encode_run_status,
}
use jux.State.Sql.{like, children_of, unique_insert, insert_row, update_rows}
use jux.State.Database.{
  Database, Action, RunRow, StepRow, and_then, commit_or_roll_back, wrote, same_step,
}
use jux.State.Numbers.{next_step_number}
use jux.State.Order.{like-children_of, keep-append}
use jux.State.Runs.{load_run, update_run_status}
use jux.State.Steps.{Codec, row_of_step, insert_step, append_step}
use jux.State.Lifecycle.{load_run-id}

-- All is the same but the row of a run and the steps below it.
pub record Leaves (run : RunId) (db db' : Database) : Type 0 where
  pub workspaces : db'.workspaces ≡ db.workspaces
  pub sessions : db'.sessions ≡ db.sessions
  pub items : db'.items ≡ db.items
  pub other_runs :
      keep (λ r. not (text_eq r.id run)) db'.runs ≡ keep (λ r. not (text_eq r.id run)) db.runs
  pub other_steps :
      keep (λ r. not (like (children_of run) r.id)) db'.steps
      ≡ keep (λ r. not (like (children_of run) r.id)) db.steps

module _ (run : RunId) where
  pub Leaves-refl : (db : Database) → Leaves run db db
  Leaves-refl db = record {
    workspaces = refl;
    sessions = refl;
    items = refl;
    other_runs = refl;
    other_steps = refl;
  }

  pub Leaves-trans :
      (db db' db'' : Database) → Leaves run db db' → Leaves run db' db'' → Leaves run db db''
  Leaves-trans db db' db'' h k = record {
    workspaces = k.workspaces ∙ h.workspaces;
    sessions = k.sessions ∙ h.sessions;
    items = k.items ∙ h.items;
    other_runs = k.other_runs ∙ h.other_runs;
    other_steps = k.other_steps ∙ h.other_steps;
  }

  after-Leaves :
      {A B : Type 0} (f : A → Action B) (r : Result StoreError A × Database)
      → ((a : A) (db : Database) → Leaves run db (f a db).1)
      → Leaves run r.1 (and_then r f).1
  after-Leaves f (ok a, db) k = k a db
  after-Leaves f (err e, db) k = Leaves-refl db

  rolled_back :
      {A : Type 0} (db : Database) (r : Result StoreError A × Database)
      → Leaves run db r.1
      → Leaves run db (commit_or_roll_back db r).1
  rolled_back db (ok a, db') h = h
  rolled_back db (err e, db') h = Leaves-refl db

  -- A new step below the run.
  inserted-Leaves :
      (b : Bool) (row : StepRow) (db : Database)
      → like (children_of run) row.id ≡ true
      → Leaves run db
          (wrote (λ rows. record db { steps = rows }) db (unique_insert b row db.steps)).1
  unfolding unique_insert
  inserted-Leaves true row db h = Leaves-refl db
  inserted-Leaves false row db h = record {
    workspaces = refl;
    sessions = refl;
    items = refl;
    other_runs = refl;
    other_steps =
        keep-append (λ r. not (like (children_of run) r.id)) db.steps (row ∷ [])
        ∙ rw h (append-nil _);
  }

  kept-update_rows :
      (change : RunRow → RunRow) (rows : List RunRow)
      → ((r : RunRow) → (change r).id ≡ r.id)
      → keep (λ r. not (text_eq r.id run)) (update_rows (λ r. text_eq r.id run) change rows)
        ≡ keep (λ r. not (text_eq r.id run)) rows
  kept-update_rows change [] keeps = refl
  kept-update_rows change (r ∷ rows) keeps = elim (Bool-cases (text_eq r.id run)) [
    | inl same ↦
        let changed : text_eq (change r).id run ≡ true = rw keeps same in
        rw same (rw changed (kept-update_rows change rows keeps))
    | inr other ↦ rw other (rw other (ap (λ l. r ∷ l) (kept-update_rows change rows keeps)))
  ]

  module _ (status : RunStatus) (now : ℕ) where
    abbrev changed : Run → Action Run
    changed found db = (
      ok (set_status status now found),
      record db {
        runs =
            update_rows (λ r. text_eq r.id found.id)
              (λ r. record r { status = encode_run_status status; updated_at = now }) db.runs;
      },
    )

    pub update_run_status-Leaves :
        (db : Database) → Leaves run db (update_run_status run status now db).1
    unfolding update_run_status load_run
    update_run_status-Leaves db = go (load_run run db).0 refl
      where
        go :
            (r : Result StoreError Run)
            → (load_run run db).0 ≡ r
            → Leaves run db (and_then (r, db) changed).1
        go (err e) h = Leaves-refl db
        go (ok found) h =
            let same : found.id ≡ run = load_run-id run db (ap (λ r. (r, db)) h) in
            record {
              workspaces = refl;
              sessions = refl;
              items = refl;
              other_runs = rw same (kept-update_rows _ db.runs (λ r. refl));
              other_steps = refl;
            }

  module _ {Json : Type 0} (codec : Codec (StepPayload Json)) where
    insert_step-Leaves :
        (step : Step Json) (db : Database)
        → like (children_of run) step.id ≡ true
        → Leaves run db (insert_step codec step db).1
    unfolding insert_step insert_row
    insert_step-Leaves step db h =
        after-Leaves _ (codec.encode step.payload, db)
          (λ text db'.
            inserted-Leaves (any (same_step (row_of_step codec step text)) db'.steps) _ db' h)

    pub append_step-Leaves :
        (kind : StepKind) (payload : StepPayload Json) (now : ℕ) (db : Database)
        → Leaves run db (append_step codec run kind payload now db).1
    unfolding append_step
    append_step-Leaves kind payload now db = rolled_back db _ (
        after-Leaves _ (next_step_number run db, db)
          (λ n db'.
            let step = new_step (new_step_id run n) kind payload now in
            let below : like (children_of run) (new_step_id run n) ≡ true =
              unfold new_step_id in like-children_of run (padded 6 n) in
            Leaves-trans db' (insert_step codec step db').1 _ (insert_step-Leaves step db' below)
              (after-Leaves _ (insert_step codec step db') (λ u db''. Leaves-refl db''))))
