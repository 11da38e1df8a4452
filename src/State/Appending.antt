-- ===== src/State/Appending.antt =====
-- Appending steps to a run (crates/jux-core/src/state/store.rs) and reading them.
use jux.Base.{
  ℕ, ◌+◌, ◌<◌, ◌^◌, ◌≡◌, refl, ap, sym, ◌∙◌, true, Text, text_eq, List, [], ◌∷◌, ◌++◌, map, any,
  keep, ok,
}
use mathlib.Core.List.{map-append}
use jux.State.Digits.{text_leb}
use jux.State.Ids.{RunId, new_step_id}
use jux.State.Decimal.{padded}
use jux.State.Model.{StepKind, StepPayload, Step, new_step}
use jux.State.Tags.{decode-encode_step_kind}
use jux.State.Sql.{like, children_of, order_by, insert_row, collect}
use jux.State.Database.{StepRow, Database, same_step}
use jux.State.Numbers.{step_ids, next_step_number}
use jux.State.Order.{
  like-children_of, map-keep, All-map_of, keep-append, order_by-snoc, then_row, collect-snoc,
}
use jux.State.Numbering.{
  highest, Below, next_number-new_step_id, next_number-fresh, next_number-last,
}
use jux.State.Steps.{
  Codec, row_of_step, row_to_step, insert_step, append_step, rows_below, load_run_steps,
}

-- What is documented of `serde_json`: a value that it writes is read back from its text.
pub record IsReadBack {A : Type 0} (codec : Codec A) (a : A) : Type 0 where
  pub text : Text
  pub written : codec.encode a ≡ ok text
  pub read : codec.decode text ≡ ok a

-- The steps below a run have the numbers `ns`, and there is room for one more.
pub record IsNumbered (run : RunId) (ns : List ℕ) (db : Database) : Type 0 where
  pub numbers : keep (like (children_of run)) (step_ids db) ≡ map (new_step_id run) ns
  pub small : Below (10 ^ 6) ns
  pub room : highest ns + 1 < 10 ^ 6

pub any-same_step :
    (row : StepRow) (rows : List StepRow)
    → any (same_step row) rows ≡ any (text_eq row.id) (map (λ r. r.id) rows)
any-same_step row [] = refl
any-same_step row (r ∷ rows) = rw (any-same_step row rows)

module _ {Json : Type 0} (codec : Codec (StepPayload Json)) where
  module _ (run : RunId) (ns : List ℕ) (db : Database) (numbered : IsNumbered run ns db)
      (kind : StepKind) (payload : StepPayload Json) (read_back : IsReadBack codec payload)
      (now : ℕ) where
    -- The step that is appended, its row, and the database with it.
    abbrev pub appended_step : Step Json
    appended_step = new_step (new_step_id run (highest ns + 1)) kind payload now

    abbrev pub appended_row : StepRow
    appended_row = row_of_step codec appended_step read_back.text

    abbrev pub appended_db : Database
    appended_db = record db { steps = db.steps ++ appended_row ∷ [] }

    next_step_number-numbered : next_step_number run db ≡ ok (highest ns + 1)
    unfolding next_step_number
    next_step_number-numbered =
        next_number-new_step_id run (step_ids db) ns numbered.numbers numbered.small

    insert_row-appended :
        insert_row same_step appended_row db.steps ≡ ok (db.steps ++ appended_row ∷ [])
    unfolding insert_row
    insert_row-appended =
        rw (any-same_step appended_row db.steps)
          (rw (next_number-fresh run (step_ids db) ns numbered.numbers numbered.room))

    append_step-result : append_step codec run kind payload now db ≡ (ok appended_step, appended_db)
    unfolding append_step insert_step
    append_step-result =
        rw next_step_number-numbered (rw read_back.written (rw insert_row-appended))

    like-appended : like (children_of run) (new_step_id run (highest ns + 1)) ≡ true
    unfolding new_step_id
    like-appended = like-children_of run (padded 6 (highest ns + 1))

    rows_below-appended :
        rows_below codec run appended_db ≡ rows_below codec run db ++ appended_row ∷ []
    unfolding rows_below
    rows_below-appended =
        let matching = λ (r : StepRow). like (children_of run) r.id in
        let before = λ (a b : StepRow). text_leb a.id b.id in
        let kept : keep matching appended_db.steps ≡ keep matching db.steps ++ appended_row ∷ [] =
          keep-append matching db.steps (appended_row ∷ []) ∙ rw like-appended in
        let ids : map (λ (r : StepRow). r.id) (keep matching db.steps) ≡ map (new_step_id run) ns =
          map-keep (λ (r : StepRow). r.id) (like (children_of run)) db.steps ∙ numbered.numbers in
        ap (order_by before) kept
        ∙ order_by-snoc before (keep matching db.steps) appended_row (
            All-map_of (λ t. text_leb t appended_row.id ≡ true) (λ r. r.id) (keep matching db.steps)
              (rw ids (next_number-last run ns numbered.room)))

    row_to_step-appended : row_to_step codec appended_row ≡ ok appended_step
    unfolding row_to_step
    row_to_step-appended = rw (decode-encode_step_kind kind) (rw read_back.read)

    load_run_steps-appended :
        (load_run_steps codec run appended_db).0
        ≡ then_row (load_run_steps codec run db).0 appended_step
    unfolding load_run_steps
    load_run_steps-appended =
        ap (collect (row_to_step codec)) rows_below-appended
        ∙ collect-snoc (row_to_step codec) (rows_below codec run db) appended_row
            row_to_step-appended

    numbers-appended :
        keep (like (children_of run)) (step_ids appended_db)
        ≡ map (new_step_id run) (ns ++ (highest ns + 1) ∷ [])
    numbers-appended =
        ap (keep (like (children_of run)))
          (map-append (λ (r : StepRow). r.id) db.steps (appended_row ∷ []))
        ∙ keep-append (like (children_of run)) (step_ids db) (appended_row.id ∷ [])
        ∙ rw (numbered.numbers, like-appended)
            (sym (map-append (new_step_id run) ns ((highest ns + 1) ∷ [])))

    -- Appending a step to a run whose steps have numbers, with the next one below a million, and
    -- whose payload is read back from its text, succeeds. The step gets the number after the
    -- highest; reading the run's steps gives the same answer as before with that step behind it;
    -- and the numbers of the run's steps are those before and the new one.
    pub append_step-load_run_steps :
        (append_step codec run kind payload now db ≡ (ok appended_step, appended_db))
        × ((load_run_steps codec run appended_db).0
            ≡ then_row (load_run_steps codec run db).0 appended_step)
        × (keep (like (children_of run)) (step_ids appended_db)
            ≡ map (new_step_id run) (ns ++ (highest ns + 1) ∷ []))
    append_step-load_run_steps = (append_step-result, load_run_steps-appended, numbers-appended)
