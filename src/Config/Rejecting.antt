-- ===== src/Config/Rejecting.antt =====
-- crates/jux-core/src/config/mod.rs: which values are rejected for a null.
use jux.Base.{ℕ, suc, Text, codes, ◌++◌, Result, ok, err, ◌≡◌, ◌↔◌, refl}
use jux.State.Decimal.{decimal}
use jux.Config.Merging.{
  Value, Values, Entries, null, bool, number, string, array, object, no_values, value_then,
  no_entries, entry_then, first_error, reject_null_values, reject_null_array, reject_null_object,
}

-- No null stands in a value, however deep.
unfoldable mutual
  pub HasNoNull : Value → Type 0
  HasNoNull null = ⊥
  HasNoNull (array items) = AllHaveNoNull items
  HasNoNull (object entries) = EntriesHaveNoNull entries
  HasNoNull _ = Unit

  pub AllHaveNoNull : Values → Type 0
  AllHaveNoNull no_values = Unit
  AllHaveNoNull (value_then value items) = HasNoNull value × AllHaveNoNull items

  pub EntriesHaveNoNull : Entries → Type 0
  EntriesHaveNoNull no_entries = Unit
  EntriesHaveNoNull (entry_then key value entries) = HasNoNull value × EntriesHaveNoNull entries

both_ok :
    {P Q : Type 0} (first rest : Result Text (Unit {0}))
    → ((first ≡ ok tt) ↔ P)
    → ((rest ≡ ok tt) ↔ Q)
    → (first_error first rest ≡ ok tt) ↔ (P × Q)
both_ok (ok _) rest p q = ((λ e. (p.0 refl, q.0 e)), λ h. q.1 h.1)
both_ok (err e) rest p q =
    ((λ f. let failed : err e ≡ ok tt = f in cc), λ h. let done = p.1 h.0 in cc)

mutual
  unfolding reject_null_values HasNoNull

  reject_null_values-HasNoNull :
      (value : Value) (path : Text) → (reject_null_values value path ≡ ok tt) ↔ HasNoNull value
  reject_null_values-HasNoNull null path = ((λ e. cc), λ h. absurd h)
  reject_null_values-HasNoNull (bool b) path = ((λ _. tt), λ _. refl)
  reject_null_values-HasNoNull (number n) path = ((λ _. tt), λ _. refl)
  reject_null_values-HasNoNull (string s) path = ((λ _. tt), λ _. refl)
  reject_null_values-HasNoNull (array items) path = reject_null_array-HasNoNull 0 items path
  reject_null_values-HasNoNull (object entries) path = reject_null_object-HasNoNull entries path

  reject_null_array-HasNoNull :
      (index : ℕ) (items : Values) (path : Text)
      → (reject_null_array index items path ≡ ok tt) ↔ AllHaveNoNull items
  reject_null_array-HasNoNull index no_values path = ((λ _. tt), λ _. refl)
  reject_null_array-HasNoNull index (value_then value items) path =
      both_ok _ _
        (reject_null_values-HasNoNull value (path ++ codes "[" ++ decimal index ++ codes "]"))
        (reject_null_array-HasNoNull (suc index) items path)

  reject_null_object-HasNoNull :
      (entries : Entries) (path : Text)
      → (reject_null_object entries path ≡ ok tt) ↔ EntriesHaveNoNull entries
  reject_null_object-HasNoNull no_entries path = ((λ _. tt), λ _. refl)
  reject_null_object-HasNoNull (entry_then key value entries) path =
      both_ok _ _ (reject_null_values-HasNoNull value (path ++ codes "." ++ key))
        (reject_null_object-HasNoNull entries path)

-- A value is accepted exactly if no null stands in it, in whatever array or object, and whatever
-- the path it is reported at.
pub reject_null_values_iff :
    (value : Value) (path : Text) → (reject_null_values value path ≡ ok tt) ↔ HasNoNull value
reject_null_values_iff = reject_null_values-HasNoNull
