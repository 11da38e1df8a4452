-- ===== src/State/Runs.antt =====
-- crates/jux-core/src/state/store.rs: runs.
use jux.Base.{ℕ, Text, text_eq, List, Option, none, some, keep, find, Result, ok, err}
use jux.State.Model.{
  RunStatus, Run, new_run, set_status, StoreError, missing_run, to_sql_error, encode_run_status,
  decode_run_status,
}
use jux.Policy.Paths.{FilePath}
use jux.State.Digits.{text_leb}
use jux.State.Ids.{SessionId, RunId, new_run_id}
use jux.State.Sql.{like, children_of, order_by, insert_row, update_rows, collect}
use jux.State.Database.{RunRow, Action, ◌>>=◌, ◌>>◌, pure, query, transaction, wrote, same_run}
use jux.State.Sessions.{init_workspace}
use jux.State.Numbers.{next_run_number}

abbrev pub row_of_run : Run → RunRow
row_of_run run = record {
  id = run.id;
  request = run.request;
  status = encode_run_status run.status;
  created_at = run.created_at;
  updated_at = run.updated_at;
}

abbrev pub read_run : RunRow → Result StoreError RunStatus → Result StoreError Run
read_run row (err e) = err (to_sql_error e)
read_run row (ok status) = ok (record {
  id = row.id;
  request = row.request;
  status = status;
  created_at = row.created_at;
  updated_at = row.updated_at;
})

-- `row_to_run`
unfoldable pub row_to_run : RunRow → Result StoreError Run
row_to_run row = read_run row (decode_run_status row.status)

unfoldable pub insert_run : Run → Action Unit
insert_run run db =
    wrote (λ rows. record db { runs = rows }) db (insert_row same_run (row_of_run run) db.runs)

unfoldable pub create_run : Text → FilePath → ℕ → Text → Action Run
create_run raw root now request = do
  workspace ← init_workspace raw root now
  transaction (do
    number ← query (next_run_number workspace.active_session_id)
    let run = new_run (new_run_id workspace.active_session_id number) request now
    insert_run run
    pure run)

abbrev pub found_run : RunId → Option RunRow → Result StoreError Run
found_run id none = err (missing_run id)
found_run id (some row) = row_to_run row

unfoldable pub load_run : RunId → Action Run
unfolding row_to_run
load_run id = query (λ db. found_run id (find (λ r. text_eq r.id id) db.runs))

unfoldable pub update_run_status : RunId → RunStatus → ℕ → Action Run
update_run_status id status now = do
  run ← load_run id
  let changed = set_status status now run
  λ db. (
    ok changed,
    record db {
      runs =
          update_rows (λ r. text_eq r.id changed.id)
            (λ r. record r {
              status = encode_run_status changed.status;
              updated_at = changed.updated_at;
            })
            db.runs;
    },
  )

unfoldable pub load_session_runs : SessionId → Action (List Run)
unfolding row_to_run
load_session_runs session = query (λ db.
    collect row_to_run
      (order_by (λ a b. text_leb a.id b.id) (keep (λ r. like (children_of session) r.id) db.runs)))
