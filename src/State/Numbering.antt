-- ===== src/State/Numbering.antt =====
-- The numbers of runs and steps: crates/jux-core/src/state/store.rs takes the next one.
use jux.Base.{
  ℕ, ◌+◌, ◌≤◌, ◌<◌, ◌^◌, ◌≡◌, refl, ap, sym, ◌∙◌, Bool, true, false, Text, text_eq, text_eq_iff,
  List, [], ◌∷◌, map, leb, if◌then◌else◌, any, keep, ok, arith, All, Bool-cases, inl, inr, some,
}
use jux.State.Decimal.{padded}
use jux.State.Digits.{text_leb, padded-IsDigit, parse_u64-padded}
use jux.State.Ids.{new_step_id, rsplit_once-append, text_leb-new_step_id}
use jux.State.Sql.{like, children_of, latest_id, later_text}
use jux.State.Order.{like-children_of, any-keep}
use jux.State.Numbers.{next_number_after, latest_id_with_prefix}

abbrev pub highest : List ℕ → ℕ
highest [] = 0
highest (n ∷ ns) = if leb n (highest ns) then highest ns else n

abbrev pub Below : ℕ → List ℕ → Type 0
Below k ns = All (λ n. n < k) ns

highest-lt : (k : ℕ) (ns : List ℕ) → 0 < k → Below k ns → highest ns < k
highest-lt k [] p h = p
highest-lt k (n ∷ ns) p h = ground (arith, highest-lt k ns p h.1)

le-highest : (ns : List ℕ) → All (λ n. n ≤ highest ns) ns
le-highest [] = tt
le-highest (n ∷ ns) = (ground arith, weaken ns (le-highest ns) (ground arith))
  where
    weaken : {j k : ℕ} (ms : List ℕ) → All (λ m. m ≤ j) ms → j ≤ k → All (λ m. m ≤ k) ms
    weaken [] h le = tt
    weaken (m ∷ ms) h le = (omega arith, weaken ms h.1 le)

module _ (id : Text) where
  later_text-new_step_id :
      (n k : ℕ)
      → n < 10 ^ 6
      → k < 10 ^ 6
      → later_text (new_step_id id n) (some (new_step_id id k))
        ≡ some (new_step_id id (if leb n k then k else n))
  later_text-new_step_id n k h h' = rw (text_leb-new_step_id id n k h h') (if_of (leb n k))
    where
      if_of :
          (b : Bool)
          → some (if b then new_step_id id k else new_step_id id n)
            ≡ some (new_step_id id (if b then k else n))
      if_of true = refl
      if_of false = refl

  latest_id-new_step_id :
      (n : ℕ) (ns : List ℕ)
      → Below (10 ^ 6) (n ∷ ns)
      → latest_id (map (new_step_id id) (n ∷ ns)) ≡ some (new_step_id id (highest (n ∷ ns)))
  unfolding latest_id
  latest_id-new_step_id n [] h =
      let one : highest (n ∷ []) ≡ n = ground arith in ap (λ k. some (new_step_id id k)) (sym one)
  latest_id-new_step_id n (m ∷ ns) h =
      let pos : 0 < 10 ^ 6 = omega arith in
      ap (later_text (new_step_id id n)) (latest_id-new_step_id m ns h.1)
      ∙ later_text-new_step_id n (highest (m ∷ ns)) h.0 (highest-lt (10 ^ 6) (m ∷ ns) pos h.1)

  pub next_number_after-new_step_id :
      (n : ℕ) → n < 10 ^ 6 → next_number_after (some (new_step_id id n)) ≡ ok (n + 1)
  unfolding next_number_after new_step_id
  next_number_after-new_step_id n h =
      rw (rsplit_once-append id (padded 6 n) (padded-IsDigit 6 n))
        (rw (parse_u64-padded 6 n (omega arith) h (omega arith)) (ap ok (omega arith)))

  -- The number that a run or step gets: one more than the highest below its parent.
  pub next_number-new_step_id :
      (ids : List Text) (ns : List ℕ)
      → keep (like (children_of id)) ids ≡ map (new_step_id id) ns
      → Below (10 ^ 6) ns
      → next_number_after (latest_id_with_prefix id ids) ≡ ok (highest ns + 1)
  unfolding latest_id_with_prefix
  next_number-new_step_id ids [] e h = rw e (unfold latest_id next_number_after in refl)
  next_number-new_step_id ids (n ∷ ns) e h =
      let pos : 0 < 10 ^ 6 = omega arith in
      rw (e, latest_id-new_step_id n ns h)
        (next_number_after-new_step_id (highest (n ∷ ns)) (highest-lt (10 ^ 6) (n ∷ ns) pos h))

  new_step_id-ne :
      (m n : ℕ) → m < n → n < 10 ^ 6 → text_eq (new_step_id id n) (new_step_id id m) ≡ false
  new_step_id-ne m n lt h = elim (Bool-cases (text_eq (new_step_id id n) (new_step_id id m))) [
    | inl same ↦
        let e = (text_eq_iff (new_step_id id n) (new_step_id id m)).0 same in
        let up = text_leb-new_step_id id n n h h in
        let down = text_leb-new_step_id id n m h (omega arith) in
        let clash : leb n n ≡ leb n m = cc in absurd (ground arith)
    | inr other ↦ other
  ]

  any-new_step_id :
      (n : ℕ) (ns : List ℕ)
      → n < 10 ^ 6
      → All (λ m. m < n) ns
      → any (text_eq (new_step_id id n)) (map (new_step_id id) ns) ≡ false
  any-new_step_id n [] h below = refl
  any-new_step_id n (m ∷ ns) h below =
      rw (new_step_id-ne m n below.0 h) (any-new_step_id n ns h below.1)

  -- That number is not taken.
  pub next_number-fresh :
      (ids : List Text) (ns : List ℕ)
      → keep (like (children_of id)) ids ≡ map (new_step_id id) ns
      → highest ns + 1 < 10 ^ 6
      → any (text_eq (new_step_id id (highest ns + 1))) ids ≡ false
  next_number-fresh ids ns e h =
      any-keep (like (children_of id)) (new_step_id id (highest ns + 1)) ids
        (unfold new_step_id in like-children_of id (padded 6 (highest ns + 1)))
        (rw e (any-new_step_id (highest ns + 1) ns h (below (highest ns) ns (le-highest ns))))
    where
      below : (k : ℕ) (ms : List ℕ) → All (λ m. m ≤ k) ms → All (λ m. m < k + 1) ms
      below k [] h = tt
      below k (m ∷ ms) h = (omega arith, below k ms h.1)

  -- And its id is the last in the order of texts.
  pub next_number-last :
      (ns : List ℕ)
      → highest ns + 1 < 10 ^ 6
      → All (λ t. text_leb t (new_step_id id (highest ns + 1)) ≡ true) (map (new_step_id id) ns)
  next_number-last ns h = each ns (le-highest ns)
    where
      each :
          (ms : List ℕ)
          → All (λ m. m ≤ highest ns) ms
          → All (λ t. text_leb t (new_step_id id (highest ns + 1)) ≡ true) (map (new_step_id id) ms)
      each [] le = tt
      each (m ∷ ms) le =
          let before : leb m (highest ns + 1) ≡ true = ground arith in
          (text_leb-new_step_id id m (highest ns + 1) (omega arith) h ∙ before, each ms le.1)
