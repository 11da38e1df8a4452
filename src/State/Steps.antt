-- ===== src/State/Steps.antt =====
-- crates/jux-core/src/state/store.rs: steps. The encoding of payloads by `serde_json` is a parameter.
use jux.Base.{ℕ, Text, List, keep, Result, ok, err}
use jux.State.Digits.{text_leb}
use jux.State.Ids.{SessionId, RunId, new_step_id}
use jux.State.Model.{
  StepKind, StepPayload, Step, new_step, StoreError, to_sql_error, encode_step_kind,
  decode_step_kind,
}
use jux.State.Sql.{like, children_of, order_by, insert_row, collect}
use jux.State.Database.{
  StepRow, Database, Action, ◌>>=◌, ◌>>◌, pure, query, transaction, wrote, same_step,
}
use jux.State.Numbers.{next_step_number}

-- `serde_json::to_string` and `from_str` at one type.
pub record Codec (A : Type 0) : Type 0 where
  pub encode : A → Result StoreError Text
  pub decode : Text → Result StoreError A

module _ {Json : Type 0} (codec : Codec (StepPayload Json)) where
  abbrev pub row_of_step : Step Json → Text → StepRow
  row_of_step step payload = record {
    id = step.id;
    kind = encode_step_kind step.kind;
    payload_json = payload;
    created_at = step.created_at;
    updated_at = step.updated_at;
  }

  abbrev pub read_step :
      StepRow
      → Result StoreError StepKind
      → Result StoreError (StepPayload Json)
      → Result StoreError (Step Json)
  read_step row (err e) payload = err (to_sql_error e)
  read_step row (ok kind) (err e) = err (to_sql_error e)
  read_step row (ok kind) (ok payload) = ok (record {
    id = row.id;
    kind = kind;
    payload = payload;
    created_at = row.created_at;
    updated_at = row.updated_at;
  })

  -- `row_to_step`
  unfoldable pub row_to_step : StepRow → Result StoreError (Step Json)
  row_to_step row = read_step row (decode_step_kind row.kind) (codec.decode row.payload_json)

  unfoldable pub insert_step : Step Json → Action Unit
  insert_step step = do
    payload ← query (λ db. codec.encode step.payload)
    λ db.
        wrote (λ rows. record db { steps = rows }) db
          (insert_row same_step (row_of_step step payload) db.steps)

  unfoldable pub append_step : RunId → StepKind → StepPayload Json → ℕ → Action (Step Json)
  append_step run kind payload now = transaction (do
    number ← query (next_step_number run)
    let step = new_step (new_step_id run number) kind payload now
    insert_step step
    pure step)

  -- The rows of the steps below an id, in the order of their ids.
  unfoldable pub rows_below : Text → Database → List StepRow
  rows_below id db =
      order_by (λ a b. text_leb a.id b.id) (keep (λ r. like (children_of id) r.id) db.steps)

  -- `load_session_steps` and `load_run_steps`
  unfoldable pub load_session_steps : SessionId → Action (List (Step Json))
  unfolding rows_below row_to_step
  load_session_steps session = query (λ db. collect row_to_step (rows_below session db))

  unfoldable pub load_run_steps : RunId → Action (List (Step Json))
  unfolding rows_below row_to_step
  load_run_steps run = query (λ db. collect row_to_step (rows_below run db))
