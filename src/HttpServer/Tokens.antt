-- ===== src/HttpServer/Tokens.antt =====
-- oidcTokenVerifier with stringClaim and scopeClaim of go/internal/httpserver/oauth.go. The
-- verification of a token by go-oidc is a parameter; a claim is a JSON value.
pub mod Granted
use synthient_mcp.Prelude.{
  Result, ok, err, ◌>>=◌, ℕ, zero, suc, ◌-◌, List, [], ◌∷◌, ◌++◌, Bool, true, false, ◌||◌, Option,
  none, some, ltb, ◌==◌, if◌then◌else◌, length,
}
use synthient_mcp.Text.{Text, codes, text_eq, trim_space, space_width}
use synthient_mcp.Synthient.Json.{Value, null, string, array, Items, nil, cons, Fields, find}
use synthient_mcp.HttpServer.Scopes.{unique_strings}

-- What go-oidc makes of a token that it verifies; `claims` is none where they do not decode.
pub record Token : Type 0 where
  pub claims : Option Fields
  pub expiry : ℕ
  pub issuer : Text

pub record TokenInfo : Type 0 where
  pub scopes : List Text
  pub expiration : ℕ
  pub user_id : Text
  pub issuer : Text

pub data Error : Type 0 where
  not_verified bad_claims bad_subject : Error

-- `json.Unmarshal` into a string, whose error stringClaim drops; a missing claim is one.
abbrev pub string_value : Option Value → Text
string_value (some (string s)) = s
string_value _ = []

unfoldable pub string_claim : Option Value → Text
unfolding trim_space
string_claim claim = trim_space (string_value claim)

abbrev pub flush : Text → List Text → List Text
flush [] words = words
flush (c ∷ word) words = (c ∷ word) ∷ words

-- `strings.Fields`: the word so far, and the bytes of a blank that are still to be passed over.
unfoldable pub fields_from : ℕ → Text → Text → List Text
unfolding space_width
fields_from skip word [] = flush word []
fields_from (suc skip) word (c ∷ s) = fields_from skip word s
fields_from zero word (c ∷ s) =
    let inside = fields_from zero (word ++ c ∷ []) s in
    let behind = fields_from (space_width (c ∷ s) - 1) [] s in
    if space_width (c ∷ s) == 0 then inside else flush word behind

abbrev pub cons_value : Text → Option (List Text) → Option (List Text)
cons_value s none = none
cons_value s (some values) = some (s ∷ values)

-- `json.Unmarshal` of an array into strings; null leaves the empty one.
unfoldable pub string_items : Items → Option (List Text)
string_items nil = some []
string_items (cons (string s) items) = cons_value s (string_items items)
string_items (cons null items) = cons_value [] (string_items items)
string_items (cons _ items) = none

abbrev pub items_or_none : Option (List Text) → List Text
items_or_none none = []
items_or_none (some values) = values

-- A text of words, or an array of strings; null is the empty text.
unfoldable pub scope_claim : Option Value → List Text
unfolding fields_from string_items
scope_claim (some (string text)) = fields_from zero [] text
scope_claim (some (array items)) = items_or_none (string_items items)
scope_claim _ = []

module _ (verify : Text → Option Token) where
  abbrev pub verified : Option Token → Result Error Token
  verified none = err not_verified
  verified (some token) = ok token

  abbrev pub decoded_claims : Option Fields → Result Error Fields
  decoded_claims none = err bad_claims
  decoded_claims (some claims) = ok claims

  abbrev pub checked_subject : Text → Result Error Text
  checked_subject subject =
      if text_eq subject [] || ltb 512 (length subject) then err bad_subject else ok subject

  -- The verifier that oidcTokenVerifier returns.
  unfoldable pub token_info : Text → Result Error TokenInfo
  unfolding string_claim scope_claim unique_strings find text_eq
  token_info raw = do
    token ← verified (verify raw)
    claims ← decoded_claims token.claims
    subject ← checked_subject (string_claim (find (codes "sub") claims))
    ok (record {
      scopes =
          unique_strings
            (scope_claim (find (codes "scope") claims) ++ scope_claim (find (codes "scp") claims));
      expiration = token.expiry;
      user_id = subject;
      issuer = token.issuer;
    })
