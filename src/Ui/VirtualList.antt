-- ===== src/Ui/VirtualList.antt =====
-- crates/jux-cli/src/tui/ui/virtual_list.rs: a list that measures its items once and draws those
-- in sight. A renderer is its answers; drawing is left out. `usize` has 64 bits.
use jux.Base.{
  ℕ, zero, suc, ◌+◌, ◌-◌, ◌%◌, ◌^◌, ℤ, pos, negsuc, Bool, true, false, not, ◌||◌, List, [], ◌∷◌,
  ◌==◌, leb, length, is_empty, if◌then◌else◌,
}

-- A rectangle of `ratatui`.
pub record Rect : Type 0 where
  pub x : ℕ
  pub y : ℕ
  pub width : ℕ
  pub height : ℕ

-- `Rect::is_empty`
abbrev pub is_empty_rect : Rect → Bool
is_empty_rect area = area.width == 0 || area.height == 0

pub record VisibleItem : Type 0 where
  pub index : ℕ
  pub area : Rect
  pub skip_top : ℕ

pub record VirtualItemRenderer (T : Type 0) : Type 0 where
  pub revision : T → ℕ
  pub measure : T → ℕ → ℕ

pub record VirtualListState : Type 0 where
  pub scroll_y : ℕ
  pub measured_width : ℕ
  pub item_heights : List ℕ
  pub stick_to_bottom : Bool
  pub item_revisions : List ℕ
  pub viewport_height : ℕ

-- `Default`
abbrev pub default_list : VirtualListState
default_list = record {
  scroll_y = 0;
  measured_width = 0;
  item_heights = [];
  stick_to_bottom = true;
  item_revisions = [];
  viewport_height = 0;
}

abbrev pub min_nat : ℕ → ℕ → ℕ
min_nat a b = if leb a b then a else b

abbrev pub max_nat : ℕ → ℕ → ℕ
max_nat a b = if leb a b then b else a

-- `usize::saturating_add`
abbrev pub saturating_add : ℕ → ℕ → ℕ
saturating_add a b = min_nat (a + b) (2 ^ 64 - 1)

-- `u16::try_from(...).unwrap_or(u16::MAX)`
abbrev pub to_u16 : ℕ → ℕ
to_u16 n = min_nat n (2 ^ 16 - 1)

abbrev pub sum : List ℕ → ℕ
sum [] = 0
sum (n ∷ ns) = n + sum ns

unfoldable pub total_height : VirtualListState → ℕ
total_height s = sum s.item_heights % 2 ^ 64

unfoldable pub max_scroll : VirtualListState → ℕ
max_scroll s = total_height s - s.viewport_height

unfoldable pub use_cached_measurements :
    ℕ → ℕ → List ℕ → ℕ → Bool → VirtualListState → VirtualListState
use_cached_measurements width viewport_height item_heights scroll_y stick_to_bottom s =
    let cached : VirtualListState = record s {
      measured_width = width;
      viewport_height = viewport_height;
      item_revisions = [];
      item_heights = item_heights;
    } in
    record cached {
      scroll_y = min_nat scroll_y (total_height cached);
      stick_to_bottom = stick_to_bottom;
    }

unfoldable pub scroll_to_bottom : VirtualListState → VirtualListState
scroll_to_bottom s = record s { scroll_y = max_scroll s; stick_to_bottom = true }

unfoldable pub scroll_to_top : VirtualListState → VirtualListState
scroll_to_top s = record s { scroll_y = 0; stick_to_bottom = max_scroll s == 0 }

abbrev pub scrolled : ℤ → VirtualListState → ℕ
scrolled (negsuc n) s = s.scroll_y - suc n
scrolled (pos n) s = min_nat (saturating_add s.scroll_y n) (max_scroll s)

unfoldable pub scroll_by : ℤ → VirtualListState → VirtualListState
scroll_by delta s = record s {
  scroll_y = scrolled delta s;
  stick_to_bottom = scrolled delta s == max_scroll s;
}

-- `Vec::resize`
unfoldable pub resize : ℕ → ℕ → List ℕ → List ℕ
resize zero value ns = []
resize (suc len) value [] = value ∷ resize len value []
resize (suc len) value (n ∷ ns) = n ∷ resize len value ns

module _ {T : Type 0} (renderer : VirtualItemRenderer T) where
  abbrev pub measured : ℕ → T → ℕ
  measured width item = max_nat (renderer.measure item width) 1

  -- Whether the loop measures an item that has this height and revision.
  abbrev pub is_stale : Bool → T → ℕ → ℕ → Bool
  is_stale width_changed item height revision =
      width_changed || height == 0 || not (revision == renderer.revision item)

  -- The loop over the items, on heights and on revisions.
  unfoldable pub measure_heights : Bool → ℕ → List T → List ℕ → List ℕ → List ℕ
  measure_heights changed width [] heights revisions = heights
  measure_heights changed width (item ∷ items) [] revisions = []
  measure_heights changed width (item ∷ items) (h ∷ heights) [] = h ∷ heights
  measure_heights changed width (item ∷ items) (h ∷ heights) (r ∷ revisions) =
      (if is_stale changed item h r then measured width item else h)
      ∷ measure_heights changed width items heights revisions

  unfoldable pub measure_revisions : Bool → List T → List ℕ → List ℕ → List ℕ
  measure_revisions changed [] heights revisions = revisions
  measure_revisions changed (item ∷ items) heights [] = []
  measure_revisions changed (item ∷ items) [] (r ∷ revisions) = r ∷ revisions
  measure_revisions changed (item ∷ items) (h ∷ heights) (r ∷ revisions) =
      (if is_stale changed item h r then renderer.revision item else r)
      ∷ measure_revisions changed items heights revisions

  abbrev pub keep_in_range : Bool → VirtualListState → VirtualListState
  keep_in_range true s = scroll_to_bottom s
  keep_in_range false s = record s { scroll_y = min_nat s.scroll_y (max_scroll s) }

  unfoldable pub measure : List T → ℕ → ℕ → VirtualListState → VirtualListState
  measure items width viewport_height s =
      let changed = not (s.measured_width == width) in
      let heights = resize (length items) 0 s.item_heights in
      let revisions = resize (length items) (2 ^ 64 - 1) s.item_revisions in
      keep_in_range s.stick_to_bottom (record s {
        measured_width = width;
        viewport_height = viewport_height;
        item_heights = measure_heights changed width items heights revisions;
        item_revisions = measure_revisions changed items heights revisions;
      })

-- What is pushed for an item in sight.
abbrev pub visible_item : Rect → ℕ → ℕ → ℕ → ℕ → ℕ → VisibleItem
visible_item area start end_row index top height =
    let skip = start - top in
    record {
      index = index;
      area = record {
        x = area.x;
        y = min_nat (area.y + to_u16 (top - start)) (2 ^ 16 - 1);
        width = area.width;
        height = to_u16 (min_nat (height - skip) (end_row - max_nat top start));
      };
      skip_top = skip;
    }

-- The loop over the heights, from an index and the top of its item on.
unfoldable pub visible_from : Rect → ℕ → ℕ → ℕ → ℕ → List ℕ → List VisibleItem
visible_from area start end_row index top [] = []
visible_from area start end_row index top (height ∷ heights) =
    let bottom = saturating_add top height in
    let rest = visible_from area start end_row (suc index) bottom heights in
    if leb bottom start
    then rest
    else if leb end_row top
    then []
    else visible_item area start end_row index top height ∷ rest

unfoldable pub visible_items : Rect → ℕ → VirtualListState → List VisibleItem
visible_items area overscan_rows s =
    let end_row =
      min_nat (saturating_add (saturating_add s.scroll_y area.height) overscan_rows)
        (total_height s) in
    if is_empty_rect area || is_empty s.item_heights
    then []
    else visible_from area s.scroll_y end_row 0 0 s.item_heights
