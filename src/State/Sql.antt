-- ===== src/State/Sql.antt =====
-- The statements of SQLite that crates/jux-core/src/state/store.rs uses: `like`, `order by id`,
-- `order by id desc limit 1`, `order by sequence`, and inserts under a primary key.
use jux.Base.{
  ℕ, ◌+◌, Bool, true, false, ◌&&◌, ◌||◌, Text, codes, List, [], ◌∷◌, ◌++◌, Option, none, some, ◌==◌,
  leb, if◌then◌else◌, any, is_empty, Result, ok, err,
}
use jux.State.Digits.{text_leb}
use jux.State.Model.{StoreError, sqlite}

-- `like` does not tell the cases of ASCII letters apart.
abbrev pub fold_case : ℕ → ℕ
fold_case c = if leb b'A' c && leb c b'Z' then c + 32 else c

abbrev pub some_suffix : (Text → Bool) → Text → Bool
some_suffix test [] = test []
some_suffix test (c ∷ text) = test (c ∷ text) || some_suffix test text

abbrev pub head_and_tail : ℕ → (Text → Bool) → Text → Bool
head_and_tail p test [] = false
head_and_tail p test (c ∷ text) = (p == b'_' || fold_case p == fold_case c) && test text

-- `text like pattern`
unfoldable pub like : Text → Text → Bool
like [] text = is_empty text
like (p ∷ pattern) text =
    let suffix = some_suffix (like pattern) text in
    let next = head_and_tail p (like pattern) text in if p == b'%' then suffix else next

-- The pattern `{id}-%`
abbrev pub children_of : Text → Text
children_of id = id ++ codes "-%"

module _ {A : Type 0} where
  abbrev pub insert_sorted : (A → A → Bool) → A → List A → List A
  insert_sorted before row [] = row ∷ []
  insert_sorted before row (r ∷ rows) =
      let rest = insert_sorted before row rows in if before row r then row ∷ r ∷ rows else r ∷ rest

  -- `order by`
  unfoldable pub order_by : (A → A → Bool) → List A → List A
  order_by before [] = []
  order_by before (row ∷ rows) = insert_sorted before row (order_by before rows)

  unfoldable pub unique_insert : Bool → A → List A → Result StoreError (List A)
  unique_insert true row rows = err (sqlite (codes "UNIQUE constraint failed"))
  unique_insert false row rows = ok (rows ++ row ∷ [])

  -- An insert; `same` compares primary keys.
  unfoldable pub insert_row : (A → A → Bool) → A → List A → Result StoreError (List A)
  unfolding unique_insert
  insert_row same row rows = unique_insert (any (same row) rows) row rows

  -- An update of the rows for which a test holds.
  abbrev pub update_rows : (A → Bool) → (A → A) → List A → List A
  update_rows test change [] = []
  update_rows test change (r ∷ rows) =
      (if test r then change r else r) ∷ update_rows test change rows

abbrev pub later_text : Text → Option Text → Option Text
later_text t none = some t
later_text t (some u) = some (if text_leb t u then u else t)

-- `order by id desc limit 1` of ids
unfoldable pub latest_id : List Text → Option Text
latest_id [] = none
latest_id (t ∷ ts) = later_text t (latest_id ts)

abbrev pub mapped :
    {B : Type 0} → Result StoreError (List B) → Result StoreError B → Result StoreError (List B)
mapped rest (err e) = err e
mapped (err e) (ok b) = err e
mapped (ok bs) (ok b) = ok (b ∷ bs)

-- `query_map` and `collect`: the first row that cannot be read gives the error.
unfoldable pub collect :
    {A B : Type 0} → (A → Result StoreError B) → List A → Result StoreError (List B)
collect read [] = ok []
collect read (r ∷ rows) = mapped (collect read rows) (read r)
