-- ===== src/State/Deleting.antt =====
-- `delete_session` of crates/jux-core/src/state/store.rs: what it removes, and what it leaves alone.
use jux.Base.{
  ℕ, ◌<◌, ◌^◌, ◌≡◌, ◌≢◌, refl, ap, Bool, true, false, not, Text, text_eq, text_eq_iff, List, [],
  ◌∷◌, keep, find, none, ok, err, arith, Bool-cases, inl, inr,
}
use jux.State.Digits.{text_leb}
use jux.State.Ids.{WorkspaceId, SessionId, new_session_id}
use jux.State.Model.{Session, StepPayload, SessionContextPayload, missing_session}
use jux.State.Sql.{like, children_of, order_by, collect}
use jux.State.Signed.{leb_ℤ}
use jux.State.Database.{Database, RunRow, StepRow, ItemRow, or_error}
use jux.State.Sessions.{load_session, delete_session}
use jux.State.Runs.{row_to_run, load_session_runs}
use jux.State.Steps.{Codec, row_to_step, rows_below, load_session_steps}
use jux.State.Items.{row_to_item, load_session_context_items}
use jux.State.Apart.{IsPlain, like-other_session, new_session_id-ne_of}

module _ {A : Type 0} (test : A → Bool) where
  keep-keep-not : (xs : List A) → keep test (keep (λ x. not (test x)) xs) ≡ []
  keep-keep-not [] = refl
  keep-keep-not (x ∷ xs) = ground (arith, keep-keep-not xs)

  pub find-keep-not : (xs : List A) → find test (keep (λ x. not (test x)) xs) ≡ none
  find-keep-not [] = refl
  find-keep-not (x ∷ xs) = ground (arith, find-keep-not xs)

find-keep_other :
    {A : Type 0} (key : A → Text) (id other : Text) (xs : List A)
    → other ≢ id
    → find (λ x. text_eq (key x) other) (keep (λ x. not (text_eq (key x) id)) xs)
      ≡ find (λ x. text_eq (key x) other) xs
find-keep_other key id other [] n = refl
find-keep_other key id other (x ∷ xs) n =
    ground
      (arith, find-keep_other key id other xs n, text_eq_iff (key x) other, text_eq_iff (key x) id)

keep-keep_apart :
    {A : Type 0} (test gone : A → Bool) (xs : List A)
    → ((x : A) → test x ≡ true → gone x ≡ false)
    → keep test (keep (λ x. not (gone x)) xs) ≡ keep test xs
keep-keep_apart test gone [] apart = refl
keep-keep_apart test gone (x ∷ xs) apart = elim (Bool-cases (test x)) [
  | inl kept ↦ rw (apart x kept) (rw kept (ap (λ l. x ∷ l) (keep-keep_apart test gone xs apart)))
  | inr dropped ↦ elim (Bool-cases (gone x)) [
    | inl away ↦ rw (away, dropped) (keep-keep_apart test gone xs apart)
    | inr stays ↦ rw stays (rw dropped (keep-keep_apart test gone xs apart))
  ]
]

-- The database once a session is deleted.
abbrev without_session : SessionId → Database → Database
without_session id db = record db {
  steps = keep (λ r. not (like (children_of id) r.id)) db.steps;
  runs = keep (λ r. not (like (children_of id) r.id)) db.runs;
  items = keep (λ r. not (text_eq r.session_id id)) db.items;
  sessions = keep (λ r. not (text_eq r.id id)) db.sessions;
}

module _ {Json : Type 0} (steps : Codec (StepPayload Json))
    (items : Codec (SessionContextPayload Json)) where
  -- The rows that are read of a session, its runs, its steps and its context items.
  abbrev pub SameRows : SessionId → Database → Database → Type 0
  SameRows id before after =
      ((load_session id after).0 ≡ (load_session id before).0)
      × ((load_session_runs id after).0 ≡ (load_session_runs id before).0)
      × ((load_session_steps steps id after).0 ≡ (load_session_steps steps id before).0)
      × ((load_session_context_items items id after).0
          ≡ (load_session_context_items items id before).0)

  -- Nothing is left of the session, its runs, its steps and its context items.
  abbrev pub IsGone : SessionId → Database → Type 0
  IsGone id after =
      ((load_session id after).0 ≡ err (missing_session id))
      × ((load_session_runs id after).0 ≡ ok [])
      × ((load_session_steps steps id after).0 ≡ ok [])
      × ((load_session_context_items items id after).0 ≡ ok [])

  delete_session-IsGone : (id : SessionId) (db : Database) → IsGone id (without_session id db)
  unfolding load_session load_session_runs load_session_steps rows_below load_session_context_items
      collect order_by
  delete_session-IsGone id db = (
    ap (or_error (missing_session id))
        (find-keep-not (λ (r : Session). text_eq r.id id) db.sessions),
    ap (λ (rows : List RunRow). collect row_to_run (order_by (λ a b. text_leb a.id b.id) rows))
        (keep-keep-not (λ (r : RunRow). like (children_of id) r.id) db.runs),
    ap
        (λ (rows : List StepRow).
          collect (row_to_step steps) (order_by (λ a b. text_leb a.id b.id) rows))
        (keep-keep-not (λ (r : StepRow). like (children_of id) r.id) db.steps),
    ap
        (λ (rows : List ItemRow).
          collect (row_to_item items) (order_by (λ a b. leb_ℤ a.sequence b.sequence) rows))
        (keep-keep-not (λ (r : ItemRow). text_eq r.session_id id) db.items),
  )

  -- A session keeps its rows, if what is below it is not below the session that is deleted.
  delete_session-SameRows :
      (id other : SessionId) (db : Database)
      → other ≢ id
      → ((t : Text) → like (children_of other) t ≡ true → like (children_of id) t ≡ false)
      → SameRows other db (without_session id db)
  unfolding load_session load_session_runs load_session_steps rows_below load_session_context_items
  delete_session-SameRows id other db differ apart = (
    ap (or_error (missing_session other))
        (find-keep_other (λ (r : Session). r.id) id other db.sessions differ),
    ap (λ (rows : List RunRow). collect row_to_run (order_by (λ a b. text_leb a.id b.id) rows))
        (keep-keep_apart _ _ db.runs (λ r. apart r.id)),
    ap
        (λ (rows : List StepRow).
          collect (row_to_step steps) (order_by (λ a b. text_leb a.id b.id) rows))
        (keep-keep_apart _ _ db.steps (λ r. apart r.id)),
    ap
        (λ (rows : List ItemRow).
          collect (row_to_item items) (order_by (λ a b. leb_ℤ a.sequence b.sequence) rows))
        (keep-keep_apart _ _ db.items (λ (r : ItemRow) here. not_deleted r.session_id here)),
  )
    where
      not_deleted : (t : Text) → text_eq t other ≡ true → text_eq t id ≡ false
      not_deleted t here = ground (arith, here, text_eq_iff t other, text_eq_iff t id, differ)

  -- Deleting a session with a number below ten thousand, in a workspace whose id has no wildcard
  -- of SQL, succeeds if the session is there. Then reading the session says that it is missing,
  -- and none of its runs, steps and context items are read; the workspace stays; and for every
  -- other session with such a number the session itself, its runs, its steps and its context items
  -- are read as before.
  pub delete_session_lem :
      (w : WorkspaceId) (m n : ℕ) (db : Database) {s : Session}
      → IsPlain w
      → m < 10 ^ 4
      → n < 10 ^ 4
      → n ≢ m
      → load_session (new_session_id w m) db ≡ (ok s, db)
      → (after : Database) × (delete_session (new_session_id w m) db ≡ (ok tt, after))
        × IsGone (new_session_id w m) after
        × (after.workspaces ≡ db.workspaces)
        × SameRows (new_session_id w n) db after
  unfolding delete_session
  delete_session_lem w m n db {s} plain h k apart found =
      let id = new_session_id w m in
      (
        without_session id db,
        rw found,
        delete_session-IsGone id db,
        refl,
        delete_session-SameRows id (new_session_id w n) db (new_session_id-ne_of w m n h k apart)
            (λ t. like-other_session w m n t plain h k apart),
      )
