-- ===== src/Synthient/Json.antt =====
-- A decoded JSON value, as `encoding/json` with UseNumber gives it. A Go map is the list of its
-- fields, in some order; numbers are the text of `json.Number`.
use synthient_mcp.Prelude.{Bool, Option, none, some, if◌then◌else◌}
use synthient_mcp.Text.{Text, text_eq}

mutual
  pub data Value : Type 0 where
    null : Value
    bool : Bool → Value
    number : Text → Value
    string : Text → Value
    array : Items → Value
    object : Fields → Value

  pub data Items : Type 0 where
    nil : Items
    cons : Value → Items → Items

  pub data Fields : Type 0 where
    end : Fields
    field : Text → Value → Fields → Fields

-- `value, ok := m[key]`.
unfoldable pub find : Text → Fields → Option Value
unfolding text_eq
find key end = none
find key (field k v fs) = if text_eq k key then some v else find key fs
