-- ===== src/State/Ensuring.antt =====
-- `ensure_session_context_items` of crates/jux-core/src/state/store.rs adds what is missing.
use jux.Base.{
  ℕ, ◌+◌, ◌^◌, ◌≤◌, ◌≡◌, refl, ◌∙◌, Bool, true, ◌||◌, text_eq_refl, List, [], ◌∷◌, ◌++◌, append-nil,
  any, length, ok, All, All-map, arith, Bool-cases, inl, inr,
}
use jux.State.Ids.{SessionId}
use jux.State.Model.{SessionContextPayload, SessionContextItem}
use jux.State.Database.{Database}
use jux.State.Steps.{Codec}
use jux.State.Items.{
  Default, session_context_payload_matches, session_context_contains, sequence_after,
  load_session_context_items, missing_defaults, ensure_missing, ensure_session_context_items,
}
use jux.State.Replacing.{numbered, Holds, AreReadBack, insert_items-Holds}

any-append :
    {A : Type 0} (test : A → Bool) (xs ys : List A)
    → any test (xs ++ ys) ≡ (any test xs || any test ys)
any-append test [] ys = refl
any-append test (x ∷ xs) ys = ground (arith, any-append test xs ys)

module _ {Json : Type 0} where
  matches_self : (p : SessionContextPayload Json) → session_context_payload_matches p p ≡ true
  matches_self (SessionContextPayload.system_prompt t) = refl
  matches_self (SessionContextPayload.tool_definition name d j) = text_eq_refl name

  module _ (codec : Codec (SessionContextPayload Json)) (session : SessionId) (now : ℕ) where
    any-numbered :
        (p : SessionContextPayload Json) (n : ℕ) (ds : List (Default Json))
        → session_context_contains (numbered codec session now n ds) p
          ≡ any (λ (d : Default Json). session_context_payload_matches d.1 p) ds
    any-numbered p n [] = refl
    any-numbered p n (d ∷ ds) = rw (any-numbered p (n + 1) ds)

    -- A default is there, or among the missing ones.
    covered :
        (items : List (SessionContextItem Json)) (ds : List (Default Json))
        → All
            (λ (d : Default Json).
              (session_context_contains items d.1
                || any
                    (λ (e : Default Json). session_context_payload_matches e.1 d.1)
                    (missing_defaults codec items ds))
              ≡ true)
            ds
    unfolding missing_defaults
    covered items [] = tt
    covered items (d ∷ ds) = (
      (elim (Bool-cases (session_context_contains items d.1)) [
        | inl there ↦ rw there
        | inr missing ↦ rw missing (rw (matches_self d.1))
      ]),
      All-map (λ e h. ground (arith, h)) ds (covered items ds),
    )

    module _ (items : List (SessionContextItem Json)) (defaults : List (Default Json))
        (db : Database) (holds : Holds codec session now items (sequence_after items) db)
        (back : AreReadBack codec session now (missing_defaults codec items defaults))
        (small : sequence_after items + length (missing_defaults codec items defaults)
          ≤ 2 ^ 63) where
      abbrev pub ensured : List (SessionContextItem Json)
      ensured =
          items
          ++ numbered codec session now (sequence_after items)
              (missing_defaults codec items defaults)

      run_ensure_missing :
          (after : Database) × (ensure_missing codec session now items
              (missing_defaults codec items defaults)
              db
            ≡ (ok ensured, after))
          × ((load_session_context_items codec session after).0 ≡ ok ensured)
      unfolding ensure_missing
      run_ensure_missing = by_missing (missing_defaults codec items defaults) back small
        where
          by_missing :
              (ds : List (Default Json))
              → AreReadBack codec session now ds
              → sequence_after items + length ds ≤ 2 ^ 63
              → (after : Database) × (ensure_missing codec session now items ds db
                  ≡ (ok (items ++ numbered codec session now (sequence_after items) ds), after))
                × ((load_session_context_items codec session after).0
                    ≡ ok (items ++ numbered codec session now (sequence_after items) ds))
          by_missing [] b s = (db, rw append-nil refl, rw append-nil holds.loads)
          by_missing (d ∷ ds) b s =
              let (after, e, h) =
                insert_items-Holds codec session now (d ∷ ds) items (sequence_after items) db b s
                  holds in
              (after, rw e refl, h.loads)

      -- If a session's items are read, their sequences are below the next one, which with the
      -- count of missing defaults is at most 2 ^ 63, and the payloads of the missing defaults are
      -- read back from their texts, then ensuring the defaults succeeds. It answers the items with
      -- the missing defaults numbered behind them; reading the session's items then gives the
      -- same; and every default is matched by one of them.
      pub ensure_session_context_items-load :
          (after : Database) × (ensure_session_context_items codec session defaults now db
            ≡ (ok ensured, after))
          × ((load_session_context_items codec session after).0 ≡ ok ensured)
          × All (λ (d : Default Json). session_context_contains ensured d.1 ≡ true) defaults
      unfolding ensure_session_context_items
      ensure_session_context_items-load =
          let (after, e, loads) = run_ensure_missing in
          (
            after,
            rw holds.loads e,
            loads,
            All-map
                (λ (d : Default Json) h.
                  any-append
                    (λ (item : SessionContextItem Json).
                      session_context_payload_matches item.payload d.1)
                    items _
                  ∙ rw
                      (any-numbered d.1 (sequence_after items)
                        (missing_defaults codec items defaults))
                      h)
                defaults (covered items defaults),
          )
