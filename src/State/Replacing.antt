-- ===== src/State/Replacing.antt =====
-- Inserting the context items of a session (crates/jux-core/src/state/store.rs) and reading them.
use jux.Base.{
  pos, ℕ, suc, ◌+◌, ◌%◌, ◌^◌, ◌<◌, ◌≤◌, ◌≡◌, refl, ap, ◌∙◌, Bool, false, not, Text, text_eq,
  text_eq_iff, text_eq_refl, List, [], ◌∷◌, ◌++◌, append-nil, append_assoc, any, keep, length, ok,
  All, All-map, All-append, arith, Bool-cases, inl, inr,
}
use jux.State.Ids.{SessionId}
use jux.State.Model.{SessionContextKind, SessionContextPayload, SessionContextItem, new_item}
use jux.State.Tags.{decode-encode_session_context_kind}
use jux.State.Sql.{order_by, insert_row, collect}
use jux.State.Database.{ItemRow, Database, same_item}
use jux.State.Signed.{leb_ℤ, eq_ℤ, IsBelow, as_i64, as_i64_small, as_u64-as_i64}
use jux.State.Order.{keep-append, order_by-snoc, then_row, collect-snoc}
use jux.State.Steps.{Codec}
use jux.State.Appending.{IsReadBack}
use jux.State.Items.{
  Default, row_of_item, row_to_item, load_session_context_items, insert_item, insert_items,
  replace_session_context_items,
}

text_eq-sym : (s t : Text) → text_eq s t ≡ text_eq t s
text_eq-sym s t = ground (arith, text_eq_iff s t, text_eq_iff t s)

module _ {Json : Type 0} (codec : Codec (SessionContextPayload Json)) (session : SessionId)
    (now : ℕ) where
  -- The items that are made of kinds and payloads, numbered from a sequence on.
  abbrev pub numbered : ℕ → List (Default Json) → List (SessionContextItem Json)
  numbered sequence [] = []
  numbered sequence ((kind, payload) ∷ rest) =
      new_item session sequence kind payload now ∷ numbered (sequence + 1) rest

  abbrev pub of_session : ItemRow → Bool
  of_session row = text_eq row.session_id session

  -- These are the items of the session, with sequences below a number.
  pub record Holds (items : List (SessionContextItem Json)) (sequence : ℕ) (db : Database)
      : Type 0 where
    pub loads : (load_session_context_items codec session db).0 ≡ ok items
    pub below : All (λ r. IsBelow sequence r.sequence) (keep of_session db.items)

  fresh_row :
      (n : ℕ) (row : ItemRow) (rows : List ItemRow)
      → row.session_id ≡ session
      → row.sequence ≡ pos n
      → All (λ r. IsBelow n r.sequence) (keep of_session rows)
      → any (same_item row) rows ≡ false
  fresh_row n row [] e at_n h = refl
  fresh_row n row (r ∷ rows) e at_n h = elim (Bool-cases (of_session r)) [
    | inl same ↦
        let h' : All (λ r. IsBelow n r.sequence) (r ∷ keep of_session rows) = rw same at h in
        let apart : eq_ℤ row.sequence r.sequence ≡ false = rw at_n (ground (arith, h'.0)) in
        ground (arith, apart, fresh_row n row rows e at_n h'.1)
    | inr other ↦
        let apart : text_eq row.session_id r.session_id ≡ false =
          rw e (text_eq-sym session r.session_id ∙ other) in
        rw apart (fresh_row n row rows e at_n (rw other at h))
  ]

  module _ (kind : SessionContextKind) (payload : SessionContextPayload Json)
      (read_back : IsReadBack codec payload) (items : List (SessionContextItem Json)) (sequence : ℕ)
      (db : Database) (holds : Holds items sequence db) (small : sequence < 2 ^ 63) where
    abbrev one : SessionContextItem Json
    one = new_item session sequence kind payload now

    abbrev row_of_one : ItemRow
    row_of_one = row_of_item codec one read_back.text

    abbrev with_one : Database
    with_one = record db { items = db.items ++ row_of_one ∷ [] }

    at_sequence : as_i64 sequence ≡ pos sequence
    at_sequence = as_i64_small sequence small

    insert_item-one : insert_item codec one db ≡ (ok tt, with_one)
    unfolding insert_item insert_row
    insert_item-one =
        rw read_back.written
          (rw (fresh_row sequence row_of_one db.items refl at_sequence holds.below))

    kept-one : keep of_session with_one.items ≡ keep of_session db.items ++ row_of_one ∷ []
    kept-one = keep-append of_session db.items (row_of_one ∷ []) ∙ rw (text_eq_refl session)

    row_to_item-one : row_to_item codec row_of_one ≡ ok one
    unfolding row_to_item
    row_to_item-one =
        rw (decode-encode_session_context_kind kind)
          (rw (read_back.read, as_u64-as_i64 sequence (omega arith)))

    Holds-one : Holds (items ++ one ∷ []) (sequence + 1) with_one
    unfolding load_session_context_items
    Holds-one = record {
      loads =
          (let earlier = λ (a b : ItemRow). leb_ℤ a.sequence b.sequence in
            ap (λ rows. collect (row_to_item codec) (order_by earlier rows)) kept-one
            ∙ ap (collect (row_to_item codec)) (
                order_by-snoc earlier (keep of_session db.items) row_of_one
                  (All-map (λ r lt. rw at_sequence (ground arith)) _ holds.below))
            ∙ collect-snoc (row_to_item codec) (order_by earlier (keep of_session db.items))
                row_of_one row_to_item-one
            ∙ ap (λ loaded. then_row loaded one) holds.loads);
      below = rw kept-one (
          All-append (λ r. IsBelow (sequence + 1) r.sequence) (keep of_session db.items)
            (row_of_one ∷ []) (All-map (λ r lt. ground arith) _ holds.below)
            (rw at_sequence (omega arith), tt));
    }

  -- Every payload is read back from its text.
  abbrev pub AreReadBack : List (Default Json) → Type 0
  AreReadBack defaults = All (λ (d : Default Json). IsReadBack codec d.1) defaults

  pub insert_items-Holds :
      (defaults : List (Default Json)) (items : List (SessionContextItem Json)) (sequence : ℕ)
      (db : Database)
      → AreReadBack defaults
      → sequence + length defaults ≤ 2 ^ 63
      → Holds items sequence db
      → (after : Database) × (insert_items codec session now sequence items defaults db
          ≡ (ok (items ++ numbered sequence defaults), after))
        × Holds (items ++ numbered sequence defaults) (sequence + length defaults) after
  unfolding insert_items
  insert_items-Holds [] items sequence db back small holds =
      let same : sequence + 0 ≡ sequence = omega arith in
      (db, rw append-nil refl, rw (append-nil items, same) holds)
  insert_items-Holds ((kind, payload) ∷ rest) items sequence db back small holds =
      let item = new_item session sequence kind payload now in
      let wrapped : (sequence + 1) % 2 ^ 64 ≡ sequence + 1 = omega arith in
      let count : sequence + 1 + length rest ≡ sequence + suc (length rest) = omega arith in
      let (after, e, holds') =
        insert_items-Holds rest (items ++ item ∷ []) (sequence + 1)
          (with_one kind payload back.0 items sequence db holds (omega arith)) back.1 (omega arith)
          (Holds-one kind payload back.0 items sequence db holds (omega arith)) in
      let together = append_assoc items (item ∷ []) (numbered (sequence + 1) rest) in
      (
        after,
        rw (insert_item-one kind payload back.0 items sequence db holds (omega arith)) (
            ap
              (λ n.
                insert_items codec session now n (items ++ item ∷ []) rest
                  (with_one kind payload back.0 items sequence db holds (omega arith)))
              wrapped
            ∙ (rw together at e)),
        rw (together, count) at holds',
      )

  keep-none : (rows : List ItemRow) → keep of_session (keep (λ r. not (of_session r)) rows) ≡ []
  keep-none [] = refl
  keep-none (r ∷ rows) = ground (arith, keep-none rows)

  -- If the payloads are read back from their texts, and there are fewer than 2 ^ 63, then
  -- replacing a session's context items succeeds and answers them numbered from one, and reading
  -- the session's items then gives the same.
  pub replace_session_context_items-load :
      (defaults : List (Default Json)) (db : Database)
      → AreReadBack defaults
      → 1 + length defaults ≤ 2 ^ 63
      → (after : Database) × (replace_session_context_items codec session defaults now db
          ≡ (ok (numbered 1 defaults), after))
        × ((load_session_context_items codec session after).0 ≡ ok (numbered 1 defaults))
  unfolding replace_session_context_items load_session_context_items collect order_by
  replace_session_context_items-load defaults db back small =
      let cleared : Database = record db { items = keep (λ r. not (of_session r)) db.items } in
      let none_left = keep-none db.items in
      let empty : Holds [] 1 cleared = record {
        loads = rw none_left refl;
        below = rw none_left tt;
      } in
      let (after, e, holds) = insert_items-Holds defaults [] 1 cleared back small empty in
      (after, rw e refl, holds.loads)
