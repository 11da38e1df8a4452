-- ===== src/Ui/Samples.antt =====
-- The theorems on the interface at concrete states, and runs of the code.
use jux.Base.{ℕ, ◌+◌, ◌≡◌, ◌≤◌, refl, true, false, [], ◌∷◌, map, some, All, arith}
use jux.Ui.Focus.{
  FocusManager, prompt_input, sidebar, overlay, default_manager, position, next_position,
  current_position, focus_next, open_modal,
}
use jux.Ui.Focused.{IsFocused, operate, next, open_over, Reachable, new, step, operate-Reachable}
use jux.Ui.VirtualList.{
  Rect, VirtualItemRenderer, VirtualListState, default_list, measured, measure, total_height,
  max_scroll, visible_from, visible_items,
}
use jux.Ui.Measured.{measure-map}
use jux.Ui.Scrolling.{IsScrolled, IsThere, visible_items-IsThere}

goes_round :
    focus_next true default_manager
    ≡ some (some sidebar, record default_manager { current = some sidebar })
unfolding focus_next next_position current_position position
goes_round = refl

abbrev under_overlay : FocusManager
under_overlay = open_modal overlay default_manager

under_overlay-Reachable : Reachable under_overlay
under_overlay-Reachable = step (open_over overlay) (new (prompt_input ∷ sidebar ∷ [])) refl

operate-Reachable_example :
    (after : FocusManager) × (operate (next false) under_overlay ≡ some after) × IsFocused after
operate-Reachable_example = operate-Reachable (next false) under_overlay under_overlay-Reachable

-- An item is its own revision, and its height depends on the width.
abbrev numbers : VirtualItemRenderer ℕ
numbers = record { revision = λ n. n; measure = λ n width. n + width }

measure-map_example :
    ((measure numbers (3 ∷ 4 ∷ []) 10 5 default_list).item_heights
      ≡ map (measured numbers 10) (3 ∷ 4 ∷ []))
    × ((measure numbers (3 ∷ 4 ∷ []) 10 5 default_list).item_revisions ≡ map (λ n. n) (3 ∷ 4 ∷ []))
    × ((measure numbers (3 ∷ 4 ∷ []) 10 5 default_list).scroll_y
        ≤ max_scroll (measure numbers (3 ∷ 4 ∷ []) 10 5 default_list))
measure-map_example =
    measure-map numbers (3 ∷ 4 ∷ []) 10 5 default_list (omega arith, (omega arith, tt)) (λ e. tt)

abbrev three_items : VirtualListState
three_items = record {
  scroll_y = 3;
  measured_width = 10;
  item_heights = 2 ∷ 4 ∷ 3 ∷ [];
  stick_to_bottom = false;
  item_revisions = 1 ∷ 1 ∷ 1 ∷ [];
  viewport_height = 4;
}

abbrev window : Rect
window = record { x = 0; y = 1; width = 10; height = 4 }

in_sight :
    visible_items window 0 three_items
    ≡ record { index = 1; area = record { x = 0; y = 1; width = 10; height = 3 }; skip_top = 1 }
      ∷ record { index = 2; area = record { x = 0; y = 4; width = 10; height = 1 }; skip_top = 0 }
      ∷ []
unfolding visible_items visible_from total_height
in_sight = refl

three_items-IsScrolled : IsScrolled three_items
unfolding max_scroll total_height
three_items-IsScrolled = (omega arith, λ e. cc)

visible_items-IsThere_example :
    All (IsThere three_items.item_heights) (visible_items window 0 three_items)
visible_items-IsThere_example =
    visible_items-IsThere window 0 three_items (omega arith)
      (omega arith, (omega arith, (omega arith, tt)))
