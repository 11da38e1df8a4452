-- ===== src/State/Numbers.antt =====
-- crates/jux-core/src/state/store.rs: the number of the next run or step, behind the latest.
use jux.Base.{ℕ, ◌+◌, ◌%◌, ◌^◌, Text, List, Option, none, some, map, keep, Result, ok, err}
use jux.State.Model.{StoreError, invalid_id}
use jux.State.Decimal.{parse_u64}
use jux.State.Ids.{SessionId, RunId, rsplit_once, dash}
use jux.State.Sql.{like, children_of, latest_id}
use jux.State.Database.{Database}

-- The sum is one of `u64`.
abbrev pub number_after : Text → Option ℕ → Result StoreError ℕ
number_after id none = err (invalid_id id)
number_after id (some n) = ok ((n + 1) % 2 ^ 64)

abbrev pub number_after_split : Text → Option (Text × Text) → Result StoreError ℕ
number_after_split id none = err (invalid_id id)
number_after_split id (some (before, number)) = number_after id (parse_u64 number)

unfoldable pub next_number_after : Option Text → Result StoreError ℕ
next_number_after none = ok 1
next_number_after (some id) = number_after_split id (rsplit_once dash id)

-- `latest_id_with_prefix`, over the ids of a table
unfoldable pub latest_id_with_prefix : Text → List Text → Option Text
latest_id_with_prefix id ids = latest_id (keep (like (children_of id)) ids)

abbrev pub run_ids : Database → List Text
run_ids db = map (λ r. r.id) db.runs

abbrev pub step_ids : Database → List Text
step_ids db = map (λ r. r.id) db.steps

unfoldable pub next_run_number : SessionId → Database → Result StoreError ℕ
unfolding next_number_after latest_id_with_prefix
next_run_number session db = next_number_after (latest_id_with_prefix session (run_ids db))

unfoldable pub next_step_number : RunId → Database → Result StoreError ℕ
unfolding next_number_after latest_id_with_prefix
next_step_number run db = next_number_after (latest_id_with_prefix run (step_ids db))
