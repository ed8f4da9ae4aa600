-- ===== src/Synthient/Sanitize/Laws.antt =====
-- What is left of a response after sanitizeObject.
use synthient_mcp.Prelude.{
  [], ◌∷◌, ◌≡◌, refl, ap, ◌≢◌, Bool, false, none, arith, Bool-cases, inl, inr, if◌then◌else◌,
}
use mathlib.Core.Option
use synthient_mcp.Text.{Text, codes, contains}
use synthient_mcp.Text.Search.{Lacks}
use synthient_mcp.Text.Equality.{text_eq-cases}
use synthient_mcp.Text.Replace.{contains-replace_all, replace_all_miss}
use synthient_mcp.Synthient.Json.{
  Value, null, bool, number, string, array, object, Items, nil, cons, Fields, end, field, find,
}
use synthient_mcp.Synthient.Sanitize.{
  sensitive_key, redacted, sanitize_string, sanitize_value, sanitize_items, sanitize_fields,
}

-- A credential that the marker cannot spell or cut: it is not empty, it has no bracket, and it is
-- no part of the marker's word.
pub record IsRedactable (secret : Text) : Type 0 where
  pub occurs : secret ≢ []
  pub no_open : Lacks b'[' secret
  pub no_close : Lacks b']' secret
  pub fresh : contains (codes "[REDACTED") secret ≡ false

-- No object at any depth has a field with the name of a credential, and no string value holds the
-- secret.
mutual
  pub data IsClean (secret : Text) : Value → Type 0 where
    a_null : IsClean secret null
    a_bool : (b : Bool) → IsClean secret (bool b)
    a_number : (n : Text) → IsClean secret (number n)
    a_string : (s : Text) → contains s secret ≡ false → IsClean secret (string s)
    an_array : {xs : Items} → AreClean secret xs → IsClean secret (array xs)
    an_object : {fs : Fields} → HasClean secret fs → IsClean secret (object fs)

  pub data AreClean (secret : Text) : Items → Type 0 where
    no_item : AreClean secret nil
    an_item :
        {x : Value} {xs : Items}
        → IsClean secret x
        → AreClean secret xs
        → AreClean secret (cons x xs)

  pub data HasClean (secret : Text) : Fields → Type 0 where
    no_field : HasClean secret end
    a_field :
        {key : Text} {v : Value} {fs : Fields}
        → sensitive_key key ≡ false
        → IsClean secret v
        → HasClean secret fs
        → HasClean secret (field key v fs)

sanitize_string-clean :
    (secret s : Text) → IsRedactable secret → contains (sanitize_string secret s) secret ≡ false
unfolding sanitize_string
sanitize_string-clean [] s r = absurd (r.occurs refl)
sanitize_string-clean (c ∷ secret) s r =
    contains-replace_all (c ∷ secret) (codes "REDACTED") b'[' b']' r.occurs r.no_open r.no_close
      r.fresh s

module _ {secret : Text} (r : IsRedactable secret) where
  mutual
    unfolding sanitize_value

    value-IsClean : (v : Value) → IsClean secret (sanitize_value secret v)
    value-IsClean (object fs) = an_object (fields_clean fs)
    value-IsClean (array xs) = an_array (items_clean xs)
    value-IsClean (string s) = a_string _ (sanitize_string-clean secret s r)
    value-IsClean null = a_null
    value-IsClean (bool b) = a_bool b
    value-IsClean (number n) = a_number n

    items_clean : (xs : Items) → AreClean secret (sanitize_items secret xs)
    items_clean nil = no_item
    items_clean (cons x xs) = an_item (value-IsClean x) (items_clean xs)

    fields_clean : (fs : Fields) → HasClean secret (sanitize_fields secret fs)
    fields_clean end = no_field
    fields_clean (field key v fs) = elim (Bool-cases (sensitive_key key)) [
      | inl hit ↦ rw hit (fields_clean fs)
      | inr miss ↦ rw miss (a_field miss (value-IsClean v) (fields_clean fs))
    ]

-- Whatever JSON the upstream answers, the sanitised value holds the secret in no string value, and
-- no object at any depth keeps a field with the name of a credential, if the secret is redactable:
-- not empty, without brackets, and no part of the marker's word.
pub sanitize_value-IsClean :
    (secret : Text) (v : Value) → IsRedactable secret → IsClean secret (sanitize_value secret v)
sanitize_value-IsClean secret v r = value-IsClean r v

pub sanitize_fields-HasClean :
    (secret : Text) (fs : Fields)
    → IsRedactable secret
    → HasClean secret (sanitize_fields secret fs)
sanitize_fields-HasClean secret fs r = fields_clean r fs

sanitize_string_clean : (secret s : Text) → contains s secret ≡ false → sanitize_string secret s ≡ s
unfolding sanitize_string
sanitize_string_clean [] s h = refl
sanitize_string_clean (c ∷ secret) s h = replace_all_miss s (c ∷ secret) redacted h

mutual
  unfolding sanitize_value

  keep_value : {secret : Text} {v : Value} → IsClean secret v → sanitize_value secret v ≡ v
  keep_value a_null = refl
  keep_value (a_bool b) = refl
  keep_value (a_number n) = refl
  keep_value {secret} (a_string s h) = rw (sanitize_string_clean secret s h)
  keep_value (an_array h) = rw (keep_items h)
  keep_value (an_object h) = rw (keep_fields h)

  keep_items : {secret : Text} {xs : Items} → AreClean secret xs → sanitize_items secret xs ≡ xs
  keep_items no_item = refl
  keep_items (an_item h hs) = rw (keep_value h, keep_items hs)

  keep_fields : {secret : Text} {fs : Fields} → HasClean secret fs → sanitize_fields secret fs ≡ fs
  keep_fields no_field = refl
  keep_fields (a_field k h hs) = rw (k, keep_value h, keep_fields hs)

-- A value that holds neither the secret nor a field with the name of a credential is passed on
-- unchanged: the sanitiser removes nothing else.
pub sanitize_value_clean :
    (secret : Text) (v : Value) → IsClean secret v → sanitize_value secret v ≡ v
sanitize_value_clean secret v h = keep_value h

-- A field of the sanitised object is the sanitised field of the object, unless its name is that of
-- a credential: then there is none.
pub find-sanitize_fields :
    (secret key : Text) (fs : Fields)
    → find key (sanitize_fields secret fs)
      ≡ (if sensitive_key key then none else Option.map (sanitize_value secret) (find key fs))
unfolding find sanitize_value
find-sanitize_fields secret key end = ground arith
find-sanitize_fields secret key (field k v fs) = elim (text_eq-cases k key) [
  | inl (hit, same) ↦ ground (arith, find-sanitize_fields secret key fs, ap sensitive_key same)
  | inr (miss, other) ↦ ground (arith, find-sanitize_fields secret key fs)
]
