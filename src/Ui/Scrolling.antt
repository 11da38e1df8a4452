-- ===== src/Ui/Scrolling.antt =====
-- The scroll and the rows in sight of crates/jux-cli/src/tui/ui/virtual_list.rs.
use jux.Base.{
  All-map, ℕ, suc, ◌+◌, ◌-◌, ◌^◌, ◌≤◌, ◌<◌, ◌≡◌, ◌↔◌, refl, ℤ, pos, negsuc, true, false, ◌||◌, List,
  [], ◌∷◌, some, leb, get_elem?, is_empty, arith, All, Bool-cases, inl, inr,
}
use jux.Ui.VirtualList.{
  Rect, is_empty_rect, VisibleItem, VirtualListState, saturating_add, total_height, max_scroll,
  scroll_by, scrolled, visible_from, visible_items,
}

-- The scroll is in range, and the list sticks to the bottom only if it is there.
abbrev pub IsScrolled : VirtualListState → Type 0
IsScrolled s = (s.scroll_y ≤ max_scroll s) × (s.stick_to_bottom ≡ true → s.scroll_y ≡ max_scroll s)

scrolled-le :
    (delta : ℤ) (s : VirtualListState) → s.scroll_y ≤ max_scroll s → scrolled delta s ≤ max_scroll s
scrolled-le (pos n) s h = ground arith
scrolled-le (negsuc n) s h = omega arith

-- If the scroll is in range and the list sticks to the bottom only if it is there, then so it is
-- after scrolling by any number of rows, and the list then sticks to the bottom exactly if it is
-- there.
scroll_by-IsScrolled :
    (delta : ℤ) (s : VirtualListState)
    → IsScrolled s
    → IsScrolled (scroll_by delta s)
      × (((scroll_by delta s).stick_to_bottom ≡ true)
          ↔ ((scroll_by delta s).scroll_y ≡ max_scroll (scroll_by delta s)))
unfolding scroll_by max_scroll total_height
scroll_by-IsScrolled delta s h =
    let le = scrolled-le delta s h.0 in ((le, ground arith), (ground arith, ground arith))

-- A visible item has its place in the list, and some row of it is in sight below the rows skipped.
abbrev pub IsThere : List ℕ → VisibleItem → Type 0
IsThere heights v = (h : ℕ) × (get_elem? heights v.index ≡ some h) × (v.skip_top < h)

-- The same, of the items from an index on.
abbrev IsAt : ℕ → List ℕ → VisibleItem → Type 0
IsAt index heights v =
    (k : ℕ) × (v.index ≡ index + k) × (h : ℕ) × (get_elem? heights k ≡ some h) × (v.skip_top < h)

skip-lt :
    (top start height : ℕ)
    → 0 < height
    → start < 2 ^ 64
    → leb (saturating_add top height) start ≡ false
    → start - top < height
skip-lt top start height p small below = ground arith

visible_from-IsAt :
    (area : Rect) (start end_row index top : ℕ) (heights : List ℕ)
    → start < 2 ^ 64
    → All (λ h. 0 < h) heights
    → All (IsAt index heights) (visible_from area start end_row index top heights)
unfolding visible_from
visible_from-IsAt area start end_row index top [] small positive = tt
visible_from-IsAt area start end_row index top (height ∷ heights) small positive =
    let ih =
      visible_from-IsAt area start end_row (suc index) (saturating_add top height) heights small
        positive.1 in
    let rest : All (IsAt index (height ∷ heights))
        (visible_from area start end_row (suc index) (saturating_add top height) heights) =
      All-map (λ v (k, e, h, found, lt). (suc k, omega arith, h, found, lt)) _ ih in
    elim (Bool-cases (leb (saturating_add top height) start)) [
      | inl above ↦ rw above rest
      | inr below ↦ rw below (elim (Bool-cases (leb end_row top)) [
        | inl beyond ↦ rw beyond tt
        | inr before ↦
            rw before (
              (0, omega arith, height, refl, skip-lt top start height positive.0 small below),
              rest,
            )
      ])
    ]

-- If the scroll is below 2 ^ 64 and all heights are positive, every visible item has its place in
-- the list, and the rows skipped at its top are fewer than its height.
pub visible_items-IsThere :
    (area : Rect) (overscan_rows : ℕ) (s : VirtualListState)
    → s.scroll_y < 2 ^ 64
    → All (λ h. 0 < h) s.item_heights
    → All (IsThere s.item_heights) (visible_items area overscan_rows s)
unfolding visible_items
visible_items-IsThere area overscan_rows s small positive =
    elim (Bool-cases (is_empty_rect area || is_empty s.item_heights)) [
      | inl nothing ↦ rw nothing tt
      | inr something ↦ rw something (
          All-map
            (λ v (k, e, h, found, lt).
              let place : v.index ≡ k = omega arith in (h, rw place found, lt))
            _ (visible_from-IsAt area s.scroll_y _ 0 0 s.item_heights small positive))
    ]
