-- ===== src/Parser/Json.antt =====
-- What encoding/json decodes into an `interface{}`, and the type assertions that the parsers make.
-- A number is left as its text, since no parser reads one.
use smart_scanner.Common.{String, Bool, Option, none, some, List, [], ◌∷◌, if◌then◌else◌, str_eq}

mutual
  pub data Json : Type 0 where
    null : Json
    bool : Bool → Json
    number : String → Json
    text : String → Json
    array : Items → Json
    object : Fields → Json

  pub data Items : Type 0 where
    nil : Items
    cons : Json → Items → Items

  pub data Fields : Type 0 where
    end : Fields
    field : String → Json → Fields → Fields

-- `data[key]`: a missing key reads as nil.
unfoldable pub get : Fields → String → Json
get end key = null
get (field k v rest) key = let later = get rest key in if str_eq k key then v else later

-- `v.(string)`, `v.(map[string]interface{})`, `v.([]interface{})`.
abbrev pub as_text : Json → Option String
as_text (text s) = some s
as_text null = none
as_text (bool b) = none
as_text (number n) = none
as_text (array xs) = none
as_text (object fs) = none

abbrev pub as_object : Json → Option Fields
as_object (object fs) = some fs
as_object null = none
as_object (bool b) = none
as_object (number n) = none
as_object (text s) = none
as_object (array xs) = none

abbrev pub elements : Items → List Json
elements nil = []
elements (cons x xs) = x ∷ elements xs

abbrev pub as_array : Json → Option (List Json)
as_array (array xs) = some (elements xs)
as_array null = none
as_array (bool b) = none
as_array (number n) = none
as_array (text s) = none
as_array (object fs) = none
