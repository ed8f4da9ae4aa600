-- ===== src/Examples/Sanitize.antt =====
-- Runs and instances for Synthient.Sanitize.
use synthient_mcp.Prelude.{◌≡◌, refl, arith, cons-ne-nil}
use synthient_mcp.Text.{Text, codes, contains, starts_with}
use synthient_mcp.Synthient.Json.{Value, null, string, array, object, nil, cons, Fields, end, field}
use synthient_mcp.Synthient.Sanitize.{sensitive_key, sanitize_value}
use synthient_mcp.Synthient.Sanitize.Laws.{
  IsRedactable, IsClean, a_null, a_string, an_array, an_object, no_item, an_item, no_field, a_field,
  sanitize_value-IsClean,
}

abbrev api_key : Text
api_key = codes "sk-12"

abbrev answer : Fields
answer = field (codes "API_Key") (string (codes "x")) (
    field (codes "message") (string (codes "bad key sk-12!"))
      (field (codes "items") (array (cons (string (codes "sk-1sk-122")) (cons null nil))) end))

api_key-IsRedactable : IsRedactable api_key
unfolding contains starts_with
api_key-IsRedactable = record {
  occurs = cons-ne-nil _ _;
  no_open = omega arith;
  no_close = omega arith;
  fresh = refl;
}

sanitized :
    sanitize_value api_key (object answer)
    ≡ object (
        field (codes "message") (string (codes "bad key [REDACTED]!")) (
          field
            (codes "items")
            (array (cons (string (codes "sk-1[REDACTED]2")) (cons null nil)))
            end))
unfolding sanitize_value
sanitized = refl

sanitize_value-IsClean_example : IsClean api_key (sanitize_value api_key (object answer))
sanitize_value-IsClean_example = sanitize_value-IsClean api_key (object answer) api_key-IsRedactable

abbrev plain : Value
plain = object (
    field (codes "ip") (string (codes "8.8.8.8"))
      (field (codes "tags") (array (cons null nil)) end))

plain-IsClean : IsClean api_key plain
unfolding sensitive_key contains starts_with
plain-IsClean =
    an_object
      (a_field refl (a_string _ refl) (a_field refl (an_array (an_item a_null no_item)) no_field))

-- The name of a field may spell the key: names are not searched.
key_in_name :
    sanitize_value api_key (object (field api_key null end)) ≡ object (field api_key null end)
unfolding sanitize_value
key_in_name = refl

-- A key that is a part of the marker comes back with it.
marker_key : sanitize_value (codes "RED") (string (codes "RED")) ≡ string (codes "[REDACTED]")
unfolding sanitize_value
marker_key = refl
