-- ===== src/Agent/Values.antt =====
-- What the run loop uses of `serde_json::Value`. Values are a parameter.
use jux.Base.{Bool, false, Text, codes, List, [], ◌∷◌, Option}

pub record Values : Type 1 where
  pub Json : Type 0
  pub string : Text → Json
  pub boolean : Bool → Json
  pub object : List (Text × Json) → Json
  -- `to_string`
  pub to_text : Json → Text
  pub as_text : Json → Option Text
  -- What an object has under a key, if that is a text.
  pub text_at : Text → Json → Option Text
  -- The elements of an array that an object has under a key, and the object with others there.
  pub array_at : Text → Json → Option (List Json)
  pub with_array_at : Text → List Json → Json → Json

module _ (values : Values) where
  open values use {Json, string, boolean, object}

  -- `json!({ "success": false, "error": error })`
  abbrev pub failure : Text → Json
  failure error = object ((codes "success", boolean false) ∷ (codes "error", string error) ∷ [])
