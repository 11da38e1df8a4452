-- ===== src/State/Million.antt =====
-- crates/jux-core/src/state/store.rs: the numbers of steps from a million on, where ids have seven
-- digits and are ordered as texts.
use jux.Base.{
  ℕ, ◌≤◌, ◌<◌, ◌^◌, ◌≡◌, ◌≢◌, ◌⊎◌, refl, ap, ◌∙◌, Bool, true, false, Text, codes, text_eq,
  text_eq_refl, List, [], ◌∷◌, map, leb, ◌==◌, ==_iff, any, keep, none, some, ok, err, All, arith,
  Bool-cases, inl, inr,
}
use jux.State.Decimal.{padded}
use jux.State.Digits.{text_leb, text_leb-append}
use jux.State.Ids.{RunId, new_step_id, text_leb-new_step_id, dash}
use jux.State.Model.{StepKind, StepPayload, new_step, sqlite}
use jux.State.Sql.{like, children_of, insert_row, latest_id, later_text}
use jux.State.Database.{Database, same_step}
use jux.State.Numbers.{step_ids, next_step_number, latest_id_with_prefix}
use jux.State.Numbering.{next_number_after-new_step_id}
use jux.State.Appending.{any-same_step}
use jux.State.Steps.{Codec, row_of_step, insert_step, append_step}

abbrev UpToMillion : List ℕ → Type 0
UpToMillion ns = All (λ n. n ≤ 1000000) ns

module _ (run : RunId) where
  million_is_before : text_leb (new_step_id run 1000000) (new_step_id run 999999) ≡ true
  unfolding new_step_id text_leb padded
  million_is_before = text_leb-append run (dash ∷ padded 6 1000000) (dash ∷ padded 6 999999)

  million_is_not_behind : text_leb (new_step_id run 999999) (new_step_id run 1000000) ≡ false
  unfolding new_step_id text_leb padded
  million_is_not_behind = text_leb-append run (dash ∷ padded 6 999999) (dash ∷ padded 6 1000000)

  before_last : (n : ℕ) → n ≤ 1000000 → text_leb (new_step_id run n) (new_step_id run 999999) ≡ true
  before_last n h = elim (Bool-cases (n == 1000000)) [
    | inl million ↦ rw ((==_iff n 1000000).0 million) million_is_before
    | inr smaller ↦
        let lt : n < 10 ^ 6 = ground (arith, smaller) in
        let le : leb n 999999 ≡ true = ground arith in
        text_leb-new_step_id run n 999999 lt (omega arith) ∙ le
  ]

  behind_last :
      (n : ℕ)
      → n ≤ 1000000
      → n ≢ 999999
      → text_leb (new_step_id run 999999) (new_step_id run n) ≡ false
  behind_last n h differ = elim (Bool-cases (n == 1000000)) [
    | inl million ↦ rw ((==_iff n 1000000).0 million) million_is_not_behind
    | inr smaller ↦
        let lt : n < 10 ^ 6 = ground (arith, smaller) in
        let gt : leb 999999 n ≡ false = ground arith in
        text_leb-new_step_id run 999999 n (omega arith) lt ∙ gt
  ]

  -- The latest id is one of those that are there.
  latest_id-IsThere :
      (ns : List ℕ)
      → UpToMillion ns
      → (latest_id (map (new_step_id run) ns) ≡ none)
        ⊎ ((k : ℕ) × (k ≤ 1000000)
            × (latest_id (map (new_step_id run) ns) ≡ some (new_step_id run k)))
  unfolding latest_id
  latest_id-IsThere [] h = inl refl
  latest_id-IsThere (n ∷ ns) h = inr (elim (latest_id-IsThere ns h.1) [
    | inl e ↦ (n, h.0, ap (later_text (new_step_id run n)) e)
    | inr (k, le, e) ↦ elim (Bool-cases (text_leb (new_step_id run n) (new_step_id run k))) [
      | inl first ↦ (k, le, rw e (rw first refl))
      | inr behind ↦ (n, h.0, rw e (rw behind refl))
    ]
  ])

  later_text-last :
      (k : ℕ)
      → k ≤ 1000000
      → later_text (new_step_id run 999999) (some (new_step_id run k))
        ≡ some (new_step_id run 999999)
  later_text-last k h = elim (Bool-cases (k == 999999)) [
    | inl same ↦ rw ((==_iff k 999999).0 same) (rw (before_last 999999 (omega arith)) refl)
    | inr other ↦ rw (behind_last k h (ground (arith, other))) refl
  ]

  -- Up to a million, number 999999 has the latest id.
  latest_id-last :
      (ns : List ℕ)
      → UpToMillion ns
      → any (λ n. n == 999999) ns ≡ true
      → latest_id (map (new_step_id run) ns) ≡ some (new_step_id run 999999)
  unfolding latest_id
  latest_id-last [] h k = cc
  latest_id-last (n ∷ ns) h k = elim (Bool-cases (n == 999999)) [
    | inl here ↦ rw ((==_iff n 999999).0 here) (elim (latest_id-IsThere ns h.1) [
      | inl e ↦ rw e refl
      | inr (j, le, e) ↦ rw e (later_text-last j le)
    ])
    | inr elsewhere ↦
        rw (latest_id-last ns h.1 (ground (arith, elsewhere, k))) (rw (before_last n h.0) refl)
  ]

  any-million :
      (ns : List ℕ)
      → any (λ n. n == 1000000) ns ≡ true
      → any (text_eq (new_step_id run 1000000)) (map (new_step_id run) ns) ≡ true
  any-million [] k = cc
  any-million (n ∷ ns) k = elim (Bool-cases (n == 1000000)) [
    | inl here ↦ rw ((==_iff n 1000000).0 here) (rw (text_eq_refl (new_step_id run 1000000)) refl)
    | inr elsewhere ↦ ground (arith, any-million ns (ground (arith, elsewhere, k)))
  ]

-- What is among the kept ids is among the ids.
any-kept :
    (t : Text) (test : Text → Bool) (ids : List Text)
    → any (text_eq t) (keep test ids) ≡ true
    → any (text_eq t) ids ≡ true
any-kept t test [] h = h
any-kept t test (x ∷ ids) h = ground (arith, h, any-kept t test ids)

module _ {Json : Type 0} (codec : Codec (StepPayload Json)) (run : RunId) (ns : List ℕ)
    (db : Database)
    (numbers : keep (like (children_of run)) (step_ids db) ≡ map (new_step_id run) ns)
    (small : UpToMillion ns) (last : any (λ n. n == 999999) ns ≡ true) where
  next_step_number-million : next_step_number run db ≡ ok 1000000
  unfolding next_step_number latest_id_with_prefix
  next_step_number-million =
      rw (numbers, latest_id-last run ns small last)
        (next_number_after-new_step_id run 999999 (omega arith))

  -- If the steps below a run have numbers up to a million, with 999999 and a million among them,
  -- then appending a step to the run whose payload is written fails, because the next number is a
  -- million again, and the database stays as it was.
  pub append_step-million :
      (kind : StepKind) (payload : StepPayload Json) (now : ℕ) {text : Text}
      → codec.encode payload ≡ ok text
      → any (λ n. n == 1000000) ns ≡ true
      → append_step codec run kind payload now db
        ≡ (err (sqlite (codes "UNIQUE constraint failed")), db)
  unfolding append_step insert_step insert_row
  append_step-million kind payload now {text} written million =
      let row = row_of_step codec (new_step (new_step_id run 1000000) kind payload now) text in
      let taken : any (same_step row) db.steps ≡ true =
        any-same_step row db.steps
        ∙ any-kept row.id (like (children_of run)) (step_ids db)
            (rw numbers (any-million run ns million)) in
      rw next_step_number-million (rw written (rw taken refl))
