-- ===== src/Ui/Focus.antt =====
-- crates/jux-cli/src/tui/ui/focus.rs: which part of the interface has the focus.
use jux.Base.{
  ℕ, suc, ◌+◌, ◌-◌, ◌%◌, Bool, true, false, List, [], ◌∷◌, Option, none, some, ◌==◌, any, get_elem?,
  length, if◌then◌else◌,
}

pub data FocusId : Type 0 where
  conversation prompt_input sidebar overlay : FocusId

abbrev pub id_number : FocusId → ℕ
id_number conversation = 0
id_number prompt_input = 1
id_number sidebar = 2
id_number overlay = 3

-- `==`
abbrev pub id_eq : FocusId → FocusId → Bool
id_eq a b = id_number a == id_number b

pub record FocusManager : Type 0 where
  pub order : List FocusId
  pub current : Option FocusId
  pub modal : Option FocusId
  pub restore_after_modal : Option FocusId

-- `first().copied()`
abbrev pub first : List FocusId → Option FocusId
first [] = none
first (id ∷ ids) = some id

abbrev pub contains_id : List FocusId → FocusId → Bool
contains_id order id = any (λ x. id_eq x id) order

-- `FocusManager::new`
abbrev pub new_manager : List FocusId → FocusManager
new_manager order = record {
  order = order;
  current = first order;
  modal = none;
  restore_after_modal = none;
}

abbrev pub default_manager : FocusManager
default_manager = new_manager (prompt_input ∷ sidebar ∷ [])

abbrev pub or_else : Option FocusId → Option FocusId → Option FocusId
or_else none other = other
or_else (some id) other = some id

-- `FocusManager::current`
abbrev pub current_focus : FocusManager → Option FocusId
current_focus m = or_else m.modal m.current

-- The id if it is in the order.
abbrev pub if_in : List FocusId → Option FocusId → Option FocusId
if_in order none = none
if_in order (some id) = if contains_id order id then some id else none

abbrev order_current : List FocusId → Option FocusId → Option FocusId → Option FocusId
order_current order none current = or_else (if_in order current) (first order)
order_current order (some modal) current = current

unfoldable pub set_order : List FocusId → FocusManager → FocusManager
set_order order m = record m { order = order; current = order_current order m.modal m.current }

abbrev pub focus_without_modal : Option FocusId → FocusId → FocusManager → Bool × FocusManager
focus_without_modal (some modal) id m = (false, m)
focus_without_modal none id m =
    if contains_id m.order id then (true, record m { current = some id }) else (false, m)

unfoldable pub focus : FocusId → FocusManager → Bool × FocusManager
focus id m = focus_without_modal m.modal id m

abbrev pub counted : Option ℕ → Option ℕ
counted none = none
counted (some i) = some (suc i)

-- `iter().position(...)`
unfoldable pub position : FocusId → List FocusId → Option ℕ
position id [] = none
position id (x ∷ xs) = let rest = position id xs in if id_eq x id then some 0 else counted rest

abbrev pub or_zero : Option ℕ → ℕ
or_zero none = 0
or_zero (some i) = i

abbrev pub position_of : Option FocusId → List FocusId → Option ℕ
position_of none order = none
position_of (some id) order = position id order

unfoldable pub current_position : FocusManager → ℕ
current_position m = or_zero (position_of m.current m.order)

unfoldable pub next_position : Bool → ℕ → ℕ → ℕ
next_position reverse i len = if reverse then (if i == 0 then len - 1 else i - 1) else (i + 1) % len

-- The focus moves; `none` is the panic of an index out of bounds.
abbrev pub moved : FocusManager → Option FocusId → Option (Option FocusId × FocusManager)
moved m none = none
moved m (some id) = some (some id, record m { current = some id })

abbrev pub move_in : Bool → List FocusId → FocusManager → Option (Option FocusId × FocusManager)
move_in reverse [] m = some (none, record m { current = none })
move_in reverse (x ∷ xs) m =
    moved m (get_elem? (x ∷ xs) (next_position reverse (current_position m) (length (x ∷ xs))))

abbrev pub next_without_modal :
    Option FocusId → Bool → FocusManager → Option (Option FocusId × FocusManager)
next_without_modal (some modal) reverse m = some (some modal, m)
next_without_modal none reverse m = move_in reverse m.order m

unfoldable pub focus_next : Bool → FocusManager → Option (Option FocusId × FocusManager)
unfolding next_position current_position position
focus_next reverse m = next_without_modal m.modal reverse m

abbrev is_modal : Option FocusId → FocusId → Bool
is_modal none id = false
is_modal (some modal) id = id_eq modal id

unfoldable pub open_modal : FocusId → FocusManager → FocusManager
open_modal id m =
    if is_modal m.modal id then m else record m { restore_after_modal = m.current; modal = some id }

unfoldable pub close_modal : FocusManager → FocusManager
close_modal m = record m {
  modal = none;
  current = or_else (if_in m.order m.restore_after_modal) (first m.order);
  restore_after_modal = none;
}
