-- ===== src/State/Creation.antt =====
-- `create_session` of crates/jux-core/src/state/store.rs numbers a session by how many there are.
use jux.Base.{
  ℕ, ◌+◌, ◌<◌, ◌^◌, ◌≡◌, refl, ap, sym, ◌∙◌, Bool, true, false, Text, codes, text_eq, text_eq_iff,
  List, [], ◌∷◌, ◌++◌, map, leb, any, keep, length, Option, some, ok, err, All, arith, Bool-cases,
  inl, inr,
}
use jux.Policy.Paths.{FilePath}
use jux.State.Decimal.{padded}
use jux.State.Digits.{text_leb, text_leb-append, text_leb-padded}
use jux.State.Ids.{WorkspaceId, new_session_id, dash}
use jux.State.Model.{Workspace, Session, new_session, sqlite}
use jux.State.Sql.{like, children_of, insert_row}
use jux.State.Database.{Database, same_session}
use jux.State.Order.{like-children_of, map-keep}
use jux.State.Sessions.{
  load_workspace_from, init_workspace, init_workspace_if_missing, insert_session, count_sessions,
  create_session,
}

-- The workspace of the database, and the numbers of its sessions.
pub record HasSessions (w : Workspace) (ns : List ℕ) (db : Database) : Type 0 where
  pub first : load_workspace_from db ≡ some w
  pub ids : map (λ s. s.id) db.sessions ≡ map (new_session_id w.id) ns

module _ {A B : Type 0} where
  length-map : (f : A → B) (xs : List A) → length (map f xs) ≡ length xs
  length-map f [] = refl
  length-map f (x ∷ xs) = omega (arith, length-map f xs)

any-map :
    {A B : Type 0} (test : B → Bool) (f : A → B) (xs : List A)
    → any test (map f xs) ≡ any (λ x. test (f x)) xs
any-map test f [] = refl
any-map test f (x ∷ xs) = rw (any-map test f xs)

keep-new_session_id :
    (id : WorkspaceId) (ns : List ℕ)
    → keep (like (children_of id)) (map (new_session_id id) ns) ≡ map (new_session_id id) ns
unfolding new_session_id
keep-new_session_id id [] = refl
keep-new_session_id id (n ∷ ns) =
    rw (like-children_of id (padded 4 n))
      (ap (◌∷◌ (id ++ dash ∷ padded 4 n)) (keep-new_session_id id ns))

any-same_session :
    (s : Session) (rows : List Session)
    → any (same_session s) rows ≡ any (text_eq s.id) (map (λ r. r.id) rows)
any-same_session s [] = refl
any-same_session s (r ∷ rows) = rw (any-same_session s rows)

new_session_id-ne :
    (id : WorkspaceId) (m n : ℕ)
    → m < n
    → n < 10 ^ 4
    → text_eq (new_session_id id n) (new_session_id id m) ≡ false
new_session_id-ne id m n lt h =
    elim (Bool-cases (text_eq (new_session_id id n) (new_session_id id m))) [
      | inl same ↦
          let e = (text_eq_iff (new_session_id id n) (new_session_id id m)).0 same in
          let up = order n n h h in
          let down = order n m h (omega arith) in
          let clash : leb n n ≡ leb n m = cc in absurd (ground arith)
      | inr other ↦ other
    ]
  where
    order :
        (a b : ℕ)
        → a < 10 ^ 4
        → b < 10 ^ 4
        → text_leb (new_session_id id a) (new_session_id id b) ≡ leb a b
    order a b p q =
        unfold new_session_id text_leb in
        text_leb-append id (dash ∷ padded 4 a) (dash ∷ padded 4 b)
        ∙ text_leb-padded 4 a b (omega arith) p q

module _ (w : Workspace) (ns : List ℕ) (db : Database) (has : HasSessions w ns db) (raw : Text)
    (root : FilePath) (now : ℕ) (name : Option Text) where
  count_sessions-numbers : count_sessions w.id db ≡ length ns
  unfolding count_sessions
  count_sessions-numbers =
      let kept : map (λ (s : Session). s.id)
            (keep (λ (s : Session). like (children_of w.id) s.id) db.sessions)
          ≡ map (new_session_id w.id) ns =
        map-keep (λ (s : Session). s.id) (like (children_of w.id)) db.sessions
        ∙ rw has.ids (keep-new_session_id w.id ns) in
      sym (
        length-map (λ (s : Session). s.id)
          (keep (λ (s : Session). like (children_of w.id) s.id) db.sessions))
      ∙ ap length kept
      ∙ length-map (new_session_id w.id) ns

  init_workspace-first : init_workspace raw root now db ≡ (ok w, db)
  unfolding init_workspace init_workspace_if_missing
  init_workspace-first = rw has.first

  abbrev pub created : Session
  created = new_session (new_session_id w.id (length ns + 1)) name now

  abbrev pub Taken : Type 0
  Taken = any (λ n. text_eq (new_session_id w.id (length ns + 1)) (new_session_id w.id n)) ns ≡ true

  any-created :
      any (same_session created) db.sessions
      ≡ any (λ n. text_eq created.id (new_session_id w.id n)) ns
  any-created =
      any-same_session created db.sessions
      ∙ ap (any (text_eq created.id)) has.ids
      ∙ any-map (text_eq created.id) (new_session_id w.id) ns

  insert_row-taken :
      Taken
      → insert_row same_session created db.sessions
        ≡ err (sqlite (codes "UNIQUE constraint failed"))
  unfolding insert_row
  insert_row-taken taken = rw (any-created ∙ taken)

  -- If the sessions of the workspace have numbers, and one of them is the count of sessions plus
  -- one, then creating a session fails, and the database stays as it was.
  pub create_session-taken :
      Taken
      → create_session raw root now name db ≡ (err (sqlite (codes "UNIQUE constraint failed")), db)
  unfolding create_session insert_session
  create_session-taken taken =
      rw init_workspace-first (rw count_sessions-numbers (rw (insert_row-taken taken)))

  insert_row-next :
      All (λ n. n < length ns + 1) ns
      → length ns + 1 < 10 ^ 4
      → insert_row same_session created db.sessions ≡ ok (db.sessions ++ created ∷ [])
  unfolding insert_row
  insert_row-next below small = rw (any-created ∙ fresh ns below)
    where
      fresh :
          (ms : List ℕ)
          → All (λ n. n < length ns + 1) ms
          → any (λ n. text_eq created.id (new_session_id w.id n)) ms ≡ false
      fresh [] h = refl
      fresh (m ∷ ms) h = rw (new_session_id-ne w.id m (length ns + 1) h.0 small) (fresh ms h.1)

  -- If the sessions of the workspace have numbers up to their count, and the count plus one is
  -- below ten thousand, then creating a session succeeds, with the count plus one for its number,
  -- and it is added behind the others.
  pub create_session-next :
      All (λ n. n < length ns + 1) ns
      → length ns + 1 < 10 ^ 4
      → create_session raw root now name db
        ≡ (ok created, record db { sessions = db.sessions ++ created ∷ [] })
  unfolding create_session insert_session
  create_session-next below small =
      rw init_workspace-first (rw count_sessions-numbers (rw (insert_row-next below small)))
