-- ===== src/State/Items.antt =====
-- crates/jux-core/src/state/store.rs: the context items of a session.
use jux.Base.{
  ℕ, ◌+◌, ◌%◌, ◌^◌, Bool, true, false, not, Text, text_eq, List, [], ◌∷◌, ◌++◌, any, keep, Result,
  ok, err,
}
use jux.State.Ids.{SessionId}
use jux.State.Model.{
  SessionContextKind, SessionContextPayload, SessionContextItem, new_item, StoreError, to_sql_error,
  encode_session_context_kind, decode_session_context_kind,
}
use jux.State.Sql.{order_by, insert_row, collect}
use jux.State.Database.{ItemRow, Action, ◌>>=◌, ◌>>◌, pure, query, transaction, wrote, same_item}
use jux.State.Signed.{as_i64, as_u64, leb_ℤ}
use jux.State.Steps.{Codec}

module _ {Json : Type 0} where
  abbrev pub session_context_payload_matches :
      SessionContextPayload Json → SessionContextPayload Json → Bool
  session_context_payload_matches (SessionContextPayload.system_prompt _)
        (SessionContextPayload.system_prompt _) =
      true
  session_context_payload_matches (SessionContextPayload.tool_definition left _ _)
        (SessionContextPayload.tool_definition right _ _) =
      text_eq left right
  session_context_payload_matches _ _ = false

  abbrev pub session_context_contains :
      List (SessionContextItem Json) → SessionContextPayload Json → Bool
  session_context_contains items payload =
      any (λ item. session_context_payload_matches item.payload payload) items

  -- `items.last().map_or(1, |item| item.sequence + 1)`
  abbrev pub sequence_after : List (SessionContextItem Json) → ℕ
  sequence_after [] = 1
  sequence_after (item ∷ []) = (item.sequence + 1) % 2 ^ 64
  sequence_after (item ∷ next ∷ items) = sequence_after (next ∷ items)

abbrev pub Default : Type 0 → Type 0
Default Json = SessionContextKind × SessionContextPayload Json

module _ {Json : Type 0} (codec : Codec (SessionContextPayload Json)) where
  abbrev pub row_of_item : SessionContextItem Json → Text → ItemRow
  row_of_item item payload = record {
    session_id = item.session_id;
    sequence = as_i64 item.sequence;
    kind = encode_session_context_kind item.kind;
    payload_json = payload;
    created_at = item.created_at;
    updated_at = item.updated_at;
  }

  abbrev pub read_item :
      ItemRow
      → Result StoreError SessionContextKind
      → Result StoreError (SessionContextPayload Json)
      → Result StoreError (SessionContextItem Json)
  read_item row (err e) payload = err (to_sql_error e)
  read_item row (ok kind) (err e) = err (to_sql_error e)
  read_item row (ok kind) (ok payload) = ok (record {
    session_id = row.session_id;
    sequence = as_u64 row.sequence;
    kind = kind;
    payload = payload;
    created_at = row.created_at;
    updated_at = row.updated_at;
  })

  -- `row_to_session_context_item`
  unfoldable pub row_to_item : ItemRow → Result StoreError (SessionContextItem Json)
  row_to_item row =
      read_item row (decode_session_context_kind row.kind) (codec.decode row.payload_json)

  unfoldable pub load_session_context_items : SessionId → Action (List (SessionContextItem Json))
  unfolding row_to_item
  load_session_context_items session = query (λ db. collect row_to_item (
      order_by (λ a b. leb_ℤ a.sequence b.sequence)
        (keep (λ r. text_eq r.session_id session) db.items)))

  unfoldable pub insert_item : SessionContextItem Json → Action Unit
  insert_item item = do
    payload ← query (λ db. codec.encode item.payload)
    λ db.
        wrote (λ rows. record db { items = rows }) db
          (insert_row same_item (row_of_item item payload) db.items)

  -- The loops that insert items, numbered from a sequence on, behind those so far.
  unfoldable pub insert_items :
      SessionId
      → ℕ
      → ℕ
      → List (SessionContextItem Json)
      → List (Default Json)
      → Action (List (SessionContextItem Json))
  insert_items session now sequence items [] = pure items
  insert_items session now sequence items ((kind, payload) ∷ rest) = do
    let item = new_item session sequence kind payload now
    insert_item item
    insert_items session now ((sequence + 1) % 2 ^ 64) (items ++ item ∷ []) rest

  unfoldable pub missing_defaults :
      List (SessionContextItem Json) → List (Default Json) → List (Default Json)
  missing_defaults items defaults =
      keep (λ (d : Default Json). not (session_context_contains items d.1)) defaults

  unfoldable pub ensure_missing :
      SessionId
      → ℕ
      → List (SessionContextItem Json)
      → List (Default Json)
      → Action (List (SessionContextItem Json))
  ensure_missing session now items [] = pure items
  ensure_missing session now items (d ∷ missing) =
      transaction (insert_items session now (sequence_after items) items (d ∷ missing))

  unfoldable pub ensure_session_context_items :
      SessionId → List (Default Json) → ℕ → Action (List (SessionContextItem Json))
  unfolding load_session_context_items missing_defaults ensure_missing insert_items insert_item
  ensure_session_context_items session defaults now = do
    items ← load_session_context_items session
    ensure_missing session now items (missing_defaults items defaults)

  abbrev pub delete_items : SessionId → Action Unit
  delete_items session db =
      (ok tt, record db { items = keep (λ r. not (text_eq r.session_id session)) db.items })

  unfoldable pub replace_session_context_items :
      SessionId → List (Default Json) → ℕ → Action (List (SessionContextItem Json))
  unfolding insert_items insert_item
  replace_session_context_items session replacements now =
      transaction (do delete_items session; insert_items session now 1 [] replacements)
