-- ===== src/State/ContextSamples.antt =====
-- The theorems on context items at a concrete database.
use jux.Base.{◌≡◌, refl, true, Text, codes, [], ◌∷◌, ok, err, Result, All, arith}
use jux.State.Ids.{SessionId}
use jux.State.Model.{SessionContextKind, SessionContextPayload, StoreError, json, new_item}
use jux.State.Sql.{order_by, collect}
use jux.State.Database.{Database, empty_database}
use jux.State.Steps.{Codec}
use jux.State.Items.{
  Default, session_context_contains, load_session_context_items, missing_defaults,
  ensure_session_context_items, replace_session_context_items,
}
use jux.State.Appending.{IsReadBack}
use jux.State.Replacing.{numbered, Holds, replace_session_context_items-load}
use jux.State.Ensuring.{ensure_session_context_items-load}

-- System prompts stand for themselves, and nothing else is written.
abbrev write_prompt : SessionContextPayload Unit → Result StoreError Text
write_prompt (SessionContextPayload.system_prompt t) = ok t
write_prompt _ = err (json (codes "not written"))

abbrev prompts : Codec (SessionContextPayload Unit)
prompts = record { encode = write_prompt; decode = λ t. ok (SessionContextPayload.system_prompt t) }

abbrev session : SessionId
session = codes "01234567-0001"

abbrev prompt : Default Unit
prompt = (SessionContextKind.system_prompt, SessionContextPayload.system_prompt (codes "be brief"))

abbrev prompt_is_read_back : IsReadBack prompts prompt.1
prompt_is_read_back = record { text = codes "be brief"; written = refl; read = refl }

replace_session_context_items-load_example :
    (after : Database) × (replace_session_context_items prompts session
        (prompt ∷ [])
        5
        empty_database
      ≡ (ok (numbered prompts session 5 1 (prompt ∷ [])), after))
    × ((load_session_context_items prompts session after).0
        ≡ ok (numbered prompts session 5 1 (prompt ∷ [])))
replace_session_context_items-load_example =
    replace_session_context_items-load prompts session 5 (prompt ∷ []) empty_database
      (prompt_is_read_back, tt) (omega arith)

nothing-Holds : Holds prompts session 5 [] 1 empty_database
unfolding load_session_context_items collect order_by
nothing-Holds = record { loads = refl; below = tt }

ensure_session_context_items-load_example :
    (after : Database) × (ensure_session_context_items prompts session
        (prompt ∷ [])
        5
        empty_database
      ≡ (ok (new_item session 1 prompt.0 prompt.1 5 ∷ []), after))
    × ((load_session_context_items prompts session after).0
        ≡ ok (new_item session 1 prompt.0 prompt.1 5 ∷ []))
    × All
        (λ (d : Default Unit).
          session_context_contains (new_item session 1 prompt.0 prompt.1 5 ∷ []) d.1 ≡ true)
        (prompt ∷ [])
unfolding missing_defaults
ensure_session_context_items-load_example =
    ensure_session_context_items-load prompts session 5 [] (prompt ∷ []) empty_database
      nothing-Holds (prompt_is_read_back, tt) (omega arith)
