-- ===== src/HttpServer/Protect.antt =====
-- protectMCP, requestPrincipal, allowedRequestHost and containsHostname of
-- go/internal/httpserver/server.go. A header is the list of its values; the lower case of texts
-- outside ASCII and the digest of a key, in hexadecimal, are parameters.
pub mod Admission
pub mod Principals
pub mod Proxies
use synthient_mcp.Prelude.{
  Result, ok, err, ◌>>=◌, ℕ, zero, suc, ◌+◌, List, [], ◌∷◌, ◌++◌, Bool, true, false, not, ◌&&◌,
  ◌||◌, Option, none, some, ltb, any, length, if◌then◌else◌,
}
use synthient_mcp.Text.{Text, codes, trim_space, trim_set, to_lower, text_eq, contains}
use synthient_mcp.Text.Decimal.{ℤ, pos, negsuc}
use synthient_mcp.Net.{Prefix, split_host_port}
use synthient_mcp.Forwarding
use synthient_mcp.Forwarding.{host_or, canonical_client_ip}

-- The settings that the handler reads; `oauth` is the test of AuthMode.
pub record Config : Type 0 where
  pub allowed_hosts : List Text
  pub oauth : Bool
  pub max_api_key_length : ℤ
  pub forward_client_ip : Bool
  pub trust_proxy_hops : ℕ
  pub trusted_proxy_cidrs : List Prefix

-- `user_id` is that of the token in the request's context, if there is one.
pub record Request : Type 0 where
  pub host : Text
  pub remote_addr : Text
  pub api_key : List Text
  pub forwarded_for : List Text
  pub user_id : Option Text

-- The answers 403, 401, 400 and 400.
pub data Refusal : Type 0 where
  host_not_allowed key_missing key_malformed : Refusal
  client_unknown : Forwarding.Error → Refusal

unfoldable pub contains_hostname : (Text → Text) → List Text → Text → Bool
unfolding trim_space trim_set to_lower text_eq
contains_hostname unicode_lower allowed candidate =
    let wanted = to_lower unicode_lower (trim_set (codes "[]") (trim_space candidate)) in
    any (λ value. text_eq (to_lower unicode_lower (trim_set (codes "[]") value)) wanted) allowed

unfoldable pub allowed_request_host : (Text → Text) → Text → List Text → Bool
unfolding contains_hostname split_host_port
allowed_request_host unicode_lower value allowed =
    contains_hostname unicode_lower allowed (host_or value (split_host_port value))

-- 1024 where the setting is not positive.
abbrev pub max_key_length : ℤ → ℕ
max_key_length (pos zero) = 1024
max_key_length (pos (suc n)) = suc n
max_key_length (negsuc n) = 1024

abbrev pub is_blank : Text → Bool
is_blank key = text_eq (trim_space key) []

abbrev pub is_single : List Text → Bool
is_single [] = true
is_single _ = false

-- The two tests on the values of X-API-Key.
unfoldable pub check_key : ℕ → List Text → Result Refusal (Unit {0})
unfolding trim_space text_eq contains
check_key max_length [] = err key_missing
check_key max_length (key ∷ keys) =
    if is_blank key
    then err key_missing
    else if not (is_single keys)
        || not (text_eq key (trim_space key))
        || contains key (codes ",")
        || ltb max_length (length key)
    then err key_malformed
    else ok tt

-- In the mode of OAuth the header is dropped.
unfoldable pub take_key : Config → Request → Result Refusal Request
unfolding check_key
take_key cfg r =
    if cfg.oauth
    then ok (record r { api_key = [] })
    else check_key (max_key_length cfg.max_api_key_length) r.api_key >>= (λ _. ok r)

abbrev pub refused_as {ℓ} : {A : Type ℓ} → Result Forwarding.Error A → Result Refusal A
refused_as (ok a) = ok a
refused_as (err e) = err (client_unknown e)

-- The header X-Forwarded-For is deleted before the client's address is asked for.
unfoldable pub set_client : Config → Request → Result Refusal Request
unfolding canonical_client_ip
set_client cfg r =
    let bare = record r { forwarded_for = [] } in
    if cfg.forward_client_ip
    then refused_as (
        canonical_client_ip bare.remote_addr bare.forwarded_for cfg.trust_proxy_hops
          cfg.trusted_proxy_cidrs)
      >>= (λ ip. ok (record bare { forwarded_for = ip ∷ [] }))
    else ok bare

-- The request that the next handler gets, or the answer.
unfoldable pub protect_mcp : (Text → Text) → Config → Request → Result Refusal Request
unfolding allowed_request_host take_key set_client
protect_mcp unicode_lower cfg r =
    if not (allowed_request_host unicode_lower r.host cfg.allowed_hosts)
    then err host_not_allowed
    else take_key cfg r >>= set_client cfg

-- `request.Header.Get`.
abbrev pub first_value : List Text → Text
first_value [] = []
first_value (value ∷ values) = value

abbrev pub key_principal : (Text → Text) → Text → Text
key_principal digest [] = []
key_principal digest (c ∷ key) = codes "api-key:" ++ digest (c ∷ key)

abbrev pub principal_of : (Text → Text) → Option Text → Text → Text
principal_of digest none key = key_principal digest key
principal_of digest (some []) key = key_principal digest key
principal_of digest (some (c ∷ user)) key = codes "oauth:" ++ c ∷ user

unfoldable pub request_principal : (Text → Text) → Request → Text
request_principal digest r = principal_of digest r.user_id (first_value r.api_key)
