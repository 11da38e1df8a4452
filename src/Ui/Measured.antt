-- ===== src/Ui/Measured.antt =====
-- The heights that `measure` of crates/jux-cli/src/tui/ui/virtual_list.rs keeps between frames.
use jux.Base.{
  ℕ, ◌-◌, ◌^◌, ◌≤◌, ◌≡◌, ◌≢◌, refl, ap, sym, ◌∙◌, Bool, true, false, not, List, [], ◌∷◌, map, ◌==◌,
  length, if◌then◌else◌, arith, All, Bool-cases, inl, inr,
}
use jux.Ui.VirtualList.{
  VirtualItemRenderer, VirtualListState, total_height, max_scroll, scroll_to_bottom, resize,
  measured, is_stale, measure_heights, measure_revisions, keep_in_range, measure,
}

module _ {T : Type 0} (renderer : VirtualItemRenderer T) where
  -- A height that was measured at the revision that an item has is the height of the item.
  abbrev pub Coherent : ℕ → List T → List ℕ → List ℕ → Type 0
  Coherent width [] heights revisions = Unit
  Coherent width (item ∷ items) [] revisions = Unit
  Coherent width (item ∷ items) (h ∷ heights) [] = Unit
  Coherent width (item ∷ items) (h ∷ heights) (r ∷ revisions) =
      (r ≡ renderer.revision item → h ≢ 0 → h ≡ measured renderer width item)
      × Coherent width items heights revisions

  -- No item has the revision that stands for a missing one.
  abbrev pub HasRevisions : List T → Type 0
  HasRevisions items = All (λ item. renderer.revision item ≢ 2 ^ 64 - 1) items

  measured_or_kept :
      (changed : Bool) (width : ℕ) (item : T) (h r : ℕ)
      → (changed ≡ false → r ≡ renderer.revision item → h ≢ 0 → h ≡ measured renderer width item)
      → (if is_stale renderer changed item h r then measured renderer width item else h)
        ≡ measured renderer width item
  measured_or_kept changed width item h r kept =
      elim (Bool-cases (is_stale renderer changed item h r)) [
        | inl stale ↦ rw stale
        | inr fresh ↦ rw fresh (kept (ground arith) (ground arith) (ground arith))
      ]

  Coherent-no_heights :
      (width : ℕ) (items : List T) (revisions : List ℕ) → Coherent width items [] revisions
  Coherent-no_heights width [] revisions = tt
  Coherent-no_heights width (item ∷ items) revisions = tt

  Coherent-no_revisions :
      (width : ℕ) (items : List T) (heights : List ℕ) → Coherent width items heights []
  Coherent-no_revisions width [] heights = tt
  Coherent-no_revisions width (item ∷ items) [] = tt
  Coherent-no_revisions width (item ∷ items) (h ∷ heights) = tt

  measure_heights-map :
      (changed : Bool) (width : ℕ) (items : List T) (heights revisions : List ℕ)
      → HasRevisions items
      → (changed ≡ false → Coherent width items heights revisions)
      → measure_heights renderer changed width items
          (resize (length items) 0 heights)
          (resize (length items) (2 ^ 64 - 1) revisions)
        ≡ map (measured renderer width) items
  unfolding measure_heights resize
  measure_heights-map changed width [] heights revisions has kept = refl
  measure_heights-map changed width (item ∷ items) [] [] has kept =
      rw (measured_or_kept changed width item 0 (2 ^ 64 - 1) (λ c e n. absurd (n refl))) (
        ap (◌∷◌ (measured renderer width item)) (
          measure_heights-map changed width items [] [] has.1
            (λ c. Coherent-no_heights width items [])))
  measure_heights-map changed width (item ∷ items) [] (r ∷ revisions) has kept =
      rw (measured_or_kept changed width item 0 r (λ c e n. absurd (n refl))) (
        ap (◌∷◌ (measured renderer width item)) (
          measure_heights-map changed width items [] revisions has.1
            (λ c. Coherent-no_heights width items revisions)))
  measure_heights-map changed width (item ∷ items) (h ∷ heights) [] has kept =
      rw (measured_or_kept changed width item h (2 ^ 64 - 1) (λ c e n. absurd (has.0 (sym e)))) (
        ap (◌∷◌ (measured renderer width item)) (
          measure_heights-map changed width items heights [] has.1
            (λ c. Coherent-no_revisions width items heights)))
  measure_heights-map changed width (item ∷ items) (h ∷ heights) (r ∷ revisions) has kept =
      rw (measured_or_kept changed width item h r (λ c. (kept c).0)) (
        ap (◌∷◌ (measured renderer width item))
          (measure_heights-map changed width items heights revisions has.1 (λ c. (kept c).1)))

  current_or_kept :
      (changed : Bool) (item : T) (h r : ℕ)
      → (if is_stale renderer changed item h r then renderer.revision item else r)
        ≡ renderer.revision item
  current_or_kept changed item h r = ground arith

  measure_revisions-map :
      (changed : Bool) (items : List T) (heights revisions : List ℕ)
      → measure_revisions renderer changed items
          (resize (length items) 0 heights)
          (resize (length items) (2 ^ 64 - 1) revisions)
        ≡ map renderer.revision items
  unfolding measure_revisions resize
  measure_revisions-map changed [] heights revisions = refl
  measure_revisions-map changed (item ∷ items) [] [] =
      rw (current_or_kept changed item 0 (2 ^ 64 - 1))
        (ap (◌∷◌ (renderer.revision item)) (measure_revisions-map changed items [] []))
  measure_revisions-map changed (item ∷ items) [] (r ∷ revisions) =
      rw (current_or_kept changed item 0 r)
        (ap (◌∷◌ (renderer.revision item)) (measure_revisions-map changed items [] revisions))
  measure_revisions-map changed (item ∷ items) (h ∷ heights) [] =
      rw (current_or_kept changed item h (2 ^ 64 - 1))
        (ap (◌∷◌ (renderer.revision item)) (measure_revisions-map changed items heights []))
  measure_revisions-map changed (item ∷ items) (h ∷ heights) (r ∷ revisions) =
      rw (current_or_kept changed item h r)
        (ap (◌∷◌ (renderer.revision item)) (measure_revisions-map changed items heights revisions))

  keep_in_range_lem :
      (stick : Bool) (s : VirtualListState)
      → ((keep_in_range renderer stick s).item_heights ≡ s.item_heights)
        × ((keep_in_range renderer stick s).item_revisions ≡ s.item_revisions)
        × ((keep_in_range renderer stick s).scroll_y ≤ max_scroll (keep_in_range renderer stick s))
  unfolding scroll_to_bottom max_scroll total_height
  keep_in_range_lem true s = (refl, refl, omega arith)
  keep_in_range_lem false s = (refl, refl, ground arith)

  -- If no item has the largest revision, and at an unchanged width the heights kept are those of
  -- the items with an unchanged revision, then measuring gives every item the height that its
  -- renderer measures, at least one, and its revision, and the scroll is in range.
  pub measure-map :
      (items : List T) (width viewport_height : ℕ) (s : VirtualListState)
      → HasRevisions items
      → (s.measured_width ≡ width → Coherent width items s.item_heights s.item_revisions)
      → ((measure renderer items width viewport_height s).item_heights
          ≡ map (measured renderer width) items)
        × ((measure renderer items width viewport_height s).item_revisions
            ≡ map renderer.revision items)
        × ((measure renderer items width viewport_height s).scroll_y
            ≤ max_scroll (measure renderer items width viewport_height s))
  unfolding measure
  measure-map items width viewport_height s has kept =
      let changed = not (s.measured_width == width) in
      let (heights, revisions, range) = keep_in_range_lem s.stick_to_bottom (record s {
        measured_width = width;
        viewport_height = viewport_height;
        item_heights =
            measure_heights renderer changed width items (resize (length items) 0 s.item_heights)
              (resize (length items) (2 ^ 64 - 1) s.item_revisions);
        item_revisions =
            measure_revisions renderer changed items (resize (length items) 0 s.item_heights)
              (resize (length items) (2 ^ 64 - 1) s.item_revisions);
      }) in
      (
        heights
            ∙ measure_heights-map changed width items s.item_heights s.item_revisions has
                (λ c. kept (ground arith)),
        revisions ∙ measure_revisions-map changed items s.item_heights s.item_revisions,
        range,
      )

  -- Items at the same place that have the same revision are of one height.
  abbrev pub Agree : ℕ → List T → List T → Type 0
  Agree width [] others = Unit
  Agree width (item ∷ items) [] = Unit
  Agree width (item ∷ items) (other ∷ others) =
      (renderer.revision item ≡ renderer.revision other
        → measured renderer width item ≡ measured renderer width other)
      × Agree width items others

  Agree-Coherent :
      (width : ℕ) (items others : List T)
      → Agree width items others
      → Coherent width others (map (measured renderer width) items) (map renderer.revision items)
  Agree-Coherent width items [] same = tt
  Agree-Coherent width [] (other ∷ others) same = tt
  Agree-Coherent width (item ∷ items) (other ∷ others) same =
      (λ e n. same.0 e, Agree-Coherent width items others same.1)

  -- Under the same conditions, measuring a second list at the same width after the first gives
  -- every item its own height, if no item has the largest revision, and if items at the same place
  -- with the same revision are of one height.
  pub measure-measure :
      (items others : List T) (width before after : ℕ) (s : VirtualListState)
      → HasRevisions items
      → HasRevisions others
      → (s.measured_width ≡ width → Coherent width items s.item_heights s.item_revisions)
      → Agree width items others
      → (measure renderer others width after (measure renderer items width before s)).item_heights
        ≡ map (measured renderer width) others
  measure-measure items others width before after s has has' kept same =
      let (heights, revisions, range) = measure-map items width before s has kept in
      let coherent = Agree-Coherent width items others same in
      (measure-map others width after (measure renderer items width before s) has'
        (λ e. rw (heights, revisions) coherent)).0
