-- ===== src/Config/Merged.antt =====
-- crates/jux-core/src/config/mod.rs: what a key stands for after the merging of two objects.
use jux.Base.{
  false, Text, text_eq, text_eq_refl, text_eq_iff, Option, none, some, ◌≡◌, refl, sym, ap, ap₂, ◌∙◌,
  inl, inr, Bool-cases,
}
use jux.State.Digits.{text_leb}
use jux.Config.Merging.{
  Value, Entries, no_entries, entry_then, get_entry, insert_entry, over_entry, merge_value,
  merge_object,
}

-- No key stands twice in the entries.
abbrev pub IsDistinct : Entries → Type 0
IsDistinct no_entries = Unit
IsDistinct (entry_then key value entries) = (get_entry key entries ≡ none) × IsDistinct entries

-- What a key has of the base and of what is laid over it.
abbrev pub merged_entry : Option Value → Option Value → Option Value
merged_entry base none = base
merged_entry base (some value) = some (over_entry (λ b. merge_value b value) value base)

get_entry-insert_same :
    (key : Text) (value : Value) (entries : Entries)
    → get_entry key (insert_entry key value entries) ≡ some value
unfolding get_entry insert_entry
get_entry-insert_same key value no_entries = rw (text_eq_refl key) refl
get_entry-insert_same key value (entry_then k v entries) = elim (Bool-cases (text_eq k key)) [
  | inl same ↦ rw (same, text_eq_refl key) refl
  | inr other ↦ elim (Bool-cases (text_leb key k)) [
    | inl before ↦ rw (other, before, text_eq_refl key) refl
    | inr after ↦ rw (other, after, other) (get_entry-insert_same key value entries)
  ]
]

get_entry-insert_other :
    (wanted key : Text) (value : Value) (entries : Entries)
    → text_eq key wanted ≡ false
    → get_entry wanted (insert_entry key value entries) ≡ get_entry wanted entries
unfolding get_entry insert_entry
get_entry-insert_other wanted key value no_entries h = rw h refl
get_entry-insert_other wanted key value (entry_then k v entries) h =
    elim (Bool-cases (text_eq k key)) [
      | inl same ↦
          let eq : k ≡ key = (text_eq_iff k key).0 same in
          let other : text_eq k wanted ≡ false = ap (λ t. text_eq t wanted) eq ∙ h in
          rw (same, h, other) refl
      | inr other ↦ elim (Bool-cases (text_leb key k)) [
        | inl before ↦ rw (other, before, h) refl
        | inr after ↦ rw (other, after, get_entry-insert_other wanted key value entries h) refl
      ]
    ]

-- If no key stands twice in what is laid over an object, then a key has in the merged object what
-- it has in the first if the second lacks it, what it has in the second if the first lacks it, and
-- otherwise its two values merged.
pub merge_object-get_entry :
    (key : Text) (base overlay : Entries)
    → IsDistinct overlay
    → get_entry key (merge_object base overlay)
      ≡ merged_entry (get_entry key base) (get_entry key overlay)
unfolding merge_object get_entry
merge_object-get_entry key base no_entries h = refl
merge_object-get_entry key base (entry_then k value overlay) h =
    let merged = over_entry (λ b. merge_value b value) value (get_entry k base) in
    let rest = merge_object-get_entry key (insert_entry k merged base) overlay h.1 in
    elim (Bool-cases (text_eq k key)) [
      | inl same ↦
          let eq : k ≡ key = (text_eq_iff k key).0 same in
          let fresh : get_entry key overlay ≡ none = ap (λ t. get_entry t overlay) (sym eq) ∙ h.0 in
          let inserted : get_entry key (insert_entry k merged base) ≡ some merged =
            ap (λ t. get_entry t (insert_entry k merged base)) (sym eq)
            ∙ get_entry-insert_same k merged base in
          rw same (
            rest
            ∙ (ap₂ merged_entry inserted fresh
                ∙ ap (λ t. some (over_entry (λ b. merge_value b value) value (get_entry t base)))
                    eq))
      | inr other ↦ rw other (
          rest
          ∙ ap (λ b. merged_entry b (get_entry key overlay))
              (get_entry-insert_other key k merged base other))
    ]
