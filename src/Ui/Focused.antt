-- ===== src/Ui/Focused.antt =====
-- The operations of crates/jux-cli/src/tui/ui/focus.rs as steps.
use native.Mathlib.Nat.{mod-lt}
use jux.Base.{
  ℕ, zero, suc, ◌+◌, ◌<◌, ◌≡◌, refl, ap, Bool, true, false, List, [], ◌∷◌, Option, none, some,
  get_elem?, length, is_empty, arith, Bool-cases, Option-cases, inl, inr,
}
use jux.Ui.Focus.{
  FocusId, focus_without_modal, next_without_modal, move_in, or_zero, position_of, id_eq,
  FocusManager, first, contains_id, new_manager, or_else, if_in, set_order, focus, position,
  current_position, next_position, focus_next, open_modal, close_modal,
}

-- The focus is in the order, or there is nothing to focus.
abbrev pub is_on : List FocusId → Option FocusId → Bool
is_on order none = is_empty order
is_on order (some id) = contains_id order id

-- While no modal is open, the focus is in the order.
abbrev pub IsFocused : FocusManager → Type 0
IsFocused m = m.modal ≡ none → is_on m.order m.current ≡ true

is_on-first : (order : List FocusId) → is_on order (first order) ≡ true
is_on-first [] = refl
is_on-first (x ∷ xs) = ground arith

is_on-or_else :
    (order : List FocusId) (o : Option FocusId)
    → is_on order (or_else (if_in order o) (first order)) ≡ true
is_on-or_else order none = is_on-first order
is_on-or_else order (some id) = elim (Bool-cases (contains_id order id)) [
  | inl e ↦ rw e e
  | inr e ↦ rw e (is_on-first order)
]

get_elem?-lt :
    (order : List FocusId) (i : ℕ)
    → i < length order
    → (id : FocusId) × (get_elem? order i ≡ some id) × (contains_id order id ≡ true)
get_elem?-lt [] i h = absurd (omega arith)
get_elem?-lt (x ∷ xs) zero h = (x, refl, ground arith)
get_elem?-lt (x ∷ xs) (suc i) h =
    let (id, e, c) = get_elem?-lt xs i (omega arith) in (id, e, ground (arith, c))

position-lt :
    (id : FocusId) (order : List FocusId) {i : ℕ} → position id order ≡ some i → i < length order
unfolding position
position-lt id [] e = cc
position-lt id (x ∷ xs) {i} e = elim (Bool-cases (id_eq x id)) [
  | inl same ↦ let at : some 0 ≡ some i = rw same at e in ground arith
  | inr other ↦ elim (Option-cases (position id xs)) [
    | inl missing ↦ cc
    | inr (j, found) ↦
        let lt = position-lt id xs found in
        let at : some (suc j) ≡ some i = rw (other, found) at e in ground arith
  ]
]

current_position-lt : (m : FocusManager) → 0 < length m.order → current_position m < length m.order
unfolding current_position
current_position-lt m h = by_current m.current
  where
    by_current : (o : Option FocusId) → or_zero (position_of o m.order) < length m.order
    by_current none = h
    by_current (some id) = elim (Option-cases (position id m.order)) [
      | inl e ↦ rw e h
      | inr (i, e) ↦ rw e (position-lt id m.order e)
    ]

next_position-lt : (reverse : Bool) (i len : ℕ) → i < len → next_position reverse i len < len
unfolding next_position
next_position-lt true i len h = ground arith
next_position-lt false i len h = mod-lt (i + 1) (omega arith)

set_order-IsFocused : (order : List FocusId) (m : FocusManager) → IsFocused (set_order order m)
unfolding set_order
set_order-IsFocused order m closed = rw closed (is_on-or_else order m.current)

focus-IsFocused : (id : FocusId) (m : FocusManager) → IsFocused m → IsFocused (focus id m).1
unfolding focus
focus-IsFocused id m h = go m.modal refl
  where
    go : (o : Option FocusId) → m.modal ≡ o → IsFocused (focus_without_modal o id m).1
    go (some modal) e = h
    go none e = elim (Bool-cases (contains_id m.order id)) [
      | inl c ↦ rw c (λ _. c)
      | inr c ↦ rw c h
    ]

open_modal-IsFocused : (id : FocusId) (m : FocusManager) → IsFocused m → IsFocused (open_modal id m)
unfolding open_modal
open_modal-IsFocused id m h = ground arith

close_modal-IsFocused : (m : FocusManager) → IsFocused (close_modal m)
unfolding close_modal
close_modal-IsFocused m closed = is_on-or_else m.order m.restore_after_modal

-- Moving the focus never indexes out of bounds, and leaves the focus in the order.
focus_next-IsFocused :
    (reverse : Bool) (m : FocusManager)
    → IsFocused m
    → (answer : Option FocusId) × (after : FocusManager) × (focus_next reverse m
        ≡ some (answer, after))
      × IsFocused after
      × (after.order ≡ m.order)
unfolding focus_next
focus_next-IsFocused reverse m h = over m.modal
  where
    in_order :
        (order : List FocusId)
        → m.order ≡ order
        → (answer : Option FocusId) × (after : FocusManager) × (move_in reverse order m
            ≡ some (answer, after))
          × IsFocused after
          × (after.order ≡ m.order)
    in_order [] e = (none, record m { current = none }, refl, λ _. rw e refl, refl)
    in_order (x ∷ xs) e =
        let same : length m.order ≡ suc (length xs) = ap length e in
        let lt : current_position m < length m.order = current_position-lt m (omega arith) in
        let pos : current_position m < suc (length xs) = omega arith in
        let (id, found, c) =
          get_elem?-lt (x ∷ xs) (next_position reverse (current_position m) (length (x ∷ xs)))
            (next_position-lt reverse _ _ pos) in
        (some id, record m { current = some id }, rw found refl, λ _. rw e c, refl)

    over :
        (modal : Option FocusId)
        → (answer : Option FocusId) × (after : FocusManager) × (next_without_modal modal reverse m
            ≡ some (answer, after))
          × IsFocused after
          × (after.order ≡ m.order)
    over (some modal) = (some modal, m, refl, h, refl)
    over none = in_order m.order refl

-- What the interface can do with the focus.
pub data Operation : Type 0 where
  set : List FocusId → Operation
  focus_on open_over : FocusId → Operation
  next : Bool → Operation
  close : Operation

abbrev pub second : Option (Option FocusId × FocusManager) → Option FocusManager
second none = none
second (some (answer, m)) = some m

abbrev pub operate : Operation → FocusManager → Option FocusManager
operate (set order) m = some (set_order order m)
operate (focus_on id) m = some (focus id m).1
operate (open_over id) m = some (open_modal id m)
operate (next reverse) m = second (focus_next reverse m)
operate close m = some (close_modal m)

-- The managers that operations lead to from a new one; an operation that panics leads nowhere.
pub data Reachable : FocusManager → Type 0 where
  new : (order : List FocusId) → Reachable (new_manager order)
  step :
      {m after : FocusManager} (op : Operation)
      → Reachable m
      → operate op m ≡ some after
      → Reachable after

operate-IsFocused :
    (op : Operation) (m : FocusManager)
    → IsFocused m
    → (after : FocusManager) × (operate op m ≡ some after) × IsFocused after
operate-IsFocused (set order) m h = (_, refl, set_order-IsFocused order m)
operate-IsFocused (focus_on id) m h = (_, refl, focus-IsFocused id m h)
operate-IsFocused (open_over id) m h = (_, refl, open_modal-IsFocused id m h)
operate-IsFocused (next reverse) m h =
    let (answer, after, e, k, same) = focus_next-IsFocused reverse m h in (after, ap second e, k)
operate-IsFocused close m h = (_, refl, close_modal-IsFocused m)

Reachable-IsFocused : {m : FocusManager} → Reachable m → IsFocused m
Reachable-IsFocused (new order) = λ _. is_on-first order
Reachable-IsFocused (step {m} {after} op r e) =
    let (after', e', k) = operate-IsFocused op m (Reachable-IsFocused r) in
    let same : after' ≡ after = cc in rw (← same) k

-- Every operation on a focus manager that operations lead to from a new one succeeds, so no index
-- is out of bounds, and afterwards, while no modal is open, the focus is in the order, or there is
-- none and the order is empty.
pub operate-Reachable :
    (op : Operation) (m : FocusManager)
    → Reachable m
    → (after : FocusManager) × (operate op m ≡ some after) × IsFocused after
operate-Reachable op m r = operate-IsFocused op m (Reachable-IsFocused r)

-- If no modal is open and the focus is in the order, or there is none and the order is empty, then
-- opening a modal and closing it gives the same manager back, with nothing to restore.
pub close_modal-open_modal :
    (id : FocusId) (m : FocusManager)
    → m.modal ≡ none
    → IsFocused m
    → close_modal (open_modal id m) ≡ record m { restore_after_modal = none }
unfolding close_modal open_modal
close_modal-open_modal id m e h = ground arith
