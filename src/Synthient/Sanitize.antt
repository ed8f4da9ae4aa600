-- ===== src/Synthient/Sanitize.antt =====
-- sanitizeObject, sanitizeValue, sensitiveKey of go/internal/synthient/client.go.
pub mod Laws
use synthient_mcp.Prelude.{
  ℕ, ◌+◌, [], ◌∷◌, Bool, true, false, ◌&&◌, ◌||◌, leb, if◌then◌else◌, Option, none, some, length,
  ◌==◌,
}
use synthient_mcp.Text.{Text, codes, text_eq, replace_all}
use synthient_mcp.Synthient.Json.{
  Value, null, bool, number, string, array, object, Items, nil, cons, Fields, end, field,
}

abbrev pub is_upper : ℕ → Bool
is_upper c = leb b'A' c && leb c b'Z'

abbrev pub is_lower_or_digit : ℕ → Bool
is_lower_or_digit c = (leb b'a' c && leb c b'z') || (leb b'0' c && leb c b'9')

-- The `strings.Map` of sensitiveKey: letters in lower case and digits, all else dropped.
unfoldable pub normalize_key : Text → Text
normalize_key [] = []
normalize_key (c ∷ s) =
    let rest = normalize_key s in
    if is_upper c then (c + 32) ∷ rest else if is_lower_or_digit c then c ∷ rest else rest

abbrev pub is_credential_name : Text → Bool
is_credential_name name =
    text_eq name (codes "apikey")
    || text_eq name (codes "authorization")
    || text_eq name (codes "accesstoken")
    || text_eq name (codes "token")
    || text_eq name (codes "secret")

unfoldable pub sensitive_key : Text → Bool
unfolding normalize_key text_eq
sensitive_key key = is_credential_name (normalize_key key)

abbrev pub redacted : Text
redacted = codes "[REDACTED]"

unfoldable pub sanitize_string : Text → Text → Text
unfolding replace_all
sanitize_string [] value = value
sanitize_string (c ∷ secret) value = replace_all value (c ∷ secret) redacted

unfoldable mutual
  unfolding sensitive_key sanitize_string

  pub sanitize_value : Text → Value → Value
  sanitize_value secret (object fs) = object (sanitize_fields secret fs)
  sanitize_value secret (array xs) = array (sanitize_items secret xs)
  sanitize_value secret (string s) = string (sanitize_string secret s)
  sanitize_value secret null = null
  sanitize_value secret (bool b) = bool b
  sanitize_value secret (number n) = number n

  pub sanitize_items : Text → Items → Items
  sanitize_items secret nil = nil
  sanitize_items secret (cons x xs) = cons (sanitize_value secret x) (sanitize_items secret xs)

  pub sanitize_fields : Text → Fields → Fields
  sanitize_fields secret end = end
  sanitize_fields secret (field key item fs) =
      let cleaned = sanitize_fields secret fs in
      if sensitive_key key then cleaned else field key (sanitize_value secret item) cleaned

-- A nil map stays nil.
unfoldable pub sanitize_object : Text → Option Fields → Option Fields
unfolding sanitize_value
sanitize_object secret none = none
sanitize_object secret (some fs) = some (sanitize_fields secret fs)
