-- ===== src/Config/Merging.antt =====
-- crates/jux-core/src/config/mod.rs: what a user's file says, laid over the defaults.
use jux.Base.{
  ℕ, suc, Bool, Text, codes, text_eq, ◌++◌, Option, none, some, Result, ok, err, if◌then◌else◌,
}
use jux.State.Decimal.{decimal}
use jux.State.Digits.{text_leb}

-- `serde_json::Value`. A number is its text, and the entries of an object are in the order of their
-- keys.
mutual
  pub data Value : Type 0 where
    null : Value
    bool : Bool → Value
    number string : Text → Value
    array : Values → Value
    object : Entries → Value

  pub data Values : Type 0 where
    no_values : Values
    value_then : Value → Values → Values

  pub data Entries : Type 0 where
    no_entries : Entries
    entry_then : Text → Value → Entries → Entries

-- `Map::get`
unfoldable pub get_entry : Text → Entries → Option Value
get_entry key no_entries = none
get_entry key (entry_then k value entries) =
    let rest = get_entry key entries in if text_eq k key then some value else rest

-- `Map::insert`
unfoldable pub insert_entry : Text → Value → Entries → Entries
insert_entry key value no_entries = entry_then key value no_entries
insert_entry key value (entry_then k v entries) =
    let rest = insert_entry key value entries in
    if text_eq k key
    then entry_then key value entries
    else if text_leb key k
    then entry_then key value (entry_then k v entries)
    else entry_then k v rest

-- `?`
abbrev pub first_error : Result Text (Unit {0}) → Result Text (Unit {0}) → Result Text (Unit {0})
first_error (ok _) rest = rest
first_error (err e) rest = err e

-- The `match` on what the base has under a key.
abbrev pub over_entry : (Value → Value) → Value → Option Value → Value
over_entry merged value none = value
over_entry merged value (some base_value) = merged base_value

unfoldable mutual
  pub merge_value : Value → Value → Value
  merge_value (object base) (object overlay) = object (merge_object base overlay)
  merge_value base overlay = overlay

  pub merge_object : Entries → Entries → Entries
  merge_object base no_entries = base
  merge_object base (entry_then key value overlay) =
      let merged = over_entry (λ b. merge_value b value) value (get_entry key base) in
      merge_object (insert_entry key merged base) overlay

unfoldable mutual
  pub reject_null_values : Value → Text → Result Text (Unit {0})
  reject_null_values null path = err (codes "null values are not supported at " ++ path)
  reject_null_values (bool b) path = ok tt
  reject_null_values (number n) path = ok tt
  reject_null_values (string s) path = ok tt
  reject_null_values (array items) path = reject_null_array 0 items path
  reject_null_values (object entries) path = reject_null_object entries path

  pub reject_null_array : ℕ → Values → Text → Result Text (Unit {0})
  reject_null_array index no_values path = ok tt
  reject_null_array index (value_then value items) path =
      first_error (reject_null_values value (path ++ codes "[" ++ decimal index ++ codes "]"))
        (reject_null_array (suc index) items path)

  pub reject_null_object : Entries → Text → Result Text (Unit {0})
  reject_null_object no_entries path = ok tt
  reject_null_object (entry_then key value entries) path =
      first_error (reject_null_values value (path ++ codes "." ++ key))
        (reject_null_object entries path)
