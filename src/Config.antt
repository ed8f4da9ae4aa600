-- ===== src/Config.antt =====
-- The settings of go/internal/config/config.go: get, integer, boolean, list, scopeList,
-- validateListenHost, validateGRPCEndpoint and parseLogLevel. The environment is the function
-- `lookup`, with `none` for a variable that is not set.
pub mod Settings
pub mod Urls
pub mod Loading
pub mod Numbers
use synthient_mcp.Prelude.{
  Result, ok, err, ◌>>=◌, ℕ, zero, suc, ◌+◌, List, [], ◌∷◌, ◌++◌, Bool, true, false, not, ◌&&◌,
  ◌||◌, Option, none, some, ltb, if◌then◌else◌, length,
}
use synthient_mcp.Text.{
  Text, codes, text_eq, member, trim_space, trim_set, to_lower, split, contains, contains_any,
}
use synthient_mcp.Text.Decimal.{ℤ, pos, negsuc, atoi}
use synthient_mcp.Net.{HostPort, Addr, split_host_port}
use synthient_mcp.Net.Parse.{parse_ip}

pub data Error : Type 0 where
  bad_integer : (name : Text) (low high : ℕ) → Error
  bad_boolean : (name : Text) → Error
  bad_host host_with_port : Error
  bad_item : (name item : Text) → Error
  no_items : (name : Text) → Error
  bad_scope bad_scope_count : Error
  bad_endpoint bad_port : Error
  bad_log_level : Error
  bad_origin bad_prefix : (name item : Text) → Error
  no_prefixes write_within_stream principal_above_total no_origins : Error
  base_unparsed base_relative base_scheme base_insecure base_extra : Error
  url_relative url_insecure url_extra : (name : Text) → Error
  bad_auth_mode bad_api_key bad_audience bad_log_format : Error

abbrev pub value_or : Text → Option Text → Text
value_or fallback none = fallback
value_or fallback (some value) = value

abbrev pub get : (Text → Option Text) → Text → Text → Text
get lookup name fallback = value_or fallback (lookup name)

abbrev pub within : Text → ℕ → ℕ → Option ℤ → Result Error ℕ
within name low high none = err (bad_integer name low high)
within name low high (some (negsuc n)) = err (bad_integer name low high)
within name low high (some (pos n)) =
    if ltb n low || ltb high n then err (bad_integer name low high) else ok n

abbrev pub integer_of : Text → ℕ → ℕ → ℕ → Option Text → Result Error ℕ
integer_of name fallback low high none = ok fallback
integer_of name fallback low high (some []) = ok fallback
integer_of name fallback low high (some (c ∷ value)) = within name low high (atoi (c ∷ value))

-- `integer`; the least value is never negative.
unfoldable pub integer : (Text → Option Text) → Text → ℕ → ℕ → ℕ → Result Error ℕ
unfolding atoi
integer lookup name fallback low high = integer_of name fallback low high (lookup name)

-- `strconv.ParseBool`.
unfoldable pub parse_bool : Text → Option Bool
unfolding member
parse_bool value =
    if member value
      (codes "1" ∷ codes "t" ∷ codes "T" ∷ codes "true" ∷ codes "TRUE" ∷ codes "True" ∷ [])
    then some true
    else if member value
        (codes "0" ∷ codes "f" ∷ codes "F" ∷ codes "false" ∷ codes "FALSE" ∷ codes "False" ∷ [])
    then some false
    else none

abbrev pub parsed_bool : Text → Option Bool → Result Error Bool
parsed_bool name none = err (bad_boolean name)
parsed_bool name (some b) = ok b

abbrev pub boolean_of : Text → Bool → Option Text → Result Error Bool
boolean_of name fallback none = ok fallback
boolean_of name fallback (some []) = ok fallback
boolean_of name fallback (some (c ∷ value)) = parsed_bool name (parse_bool (c ∷ value))

unfoldable pub boolean : (Text → Option Text) → Text → Bool → Result Error Bool
unfolding parse_bool
boolean lookup name fallback = boolean_of name fallback (lookup name)

abbrev pub is_some {ℓ} : {A : Type ℓ} → Option A → Bool
is_some none = false
is_some (some a) = true

unfoldable pub validate_listen_host : Text → Result Error (Unit {0})
unfolding contains_any contains parse_ip text_eq
validate_listen_host host =
    if text_eq host [] || contains_any host (codes " /\\\t\r\n")
    then err bad_host
    else if contains host (codes ":") && not (is_some (parse_ip host))
    then err host_with_port
    else ok tt

unfoldable pub normalize_hostname : (Text → Text) → Text → Text
unfolding trim_space trim_set to_lower
normalize_hostname unicode_lower host =
    to_lower unicode_lower (trim_set (codes "[]") (trim_space host))

abbrev pub listed : Text → Text → Result Error (Unit {0}) → Result Error (Unit {0})
listed name item (ok u) = ok u
listed name item (err e) = err (bad_item name item)

-- The loop of `list`, over the normalised items.
unfoldable pub collect_hosts :
    (Text → Text) → Text → List Text → List Text → Result Error (List Text)
unfolding normalize_hostname validate_listen_host
collect_hosts unicode_lower name hosts [] = ok hosts
collect_hosts unicode_lower name hosts (item ∷ items) =
    let host = normalize_hostname unicode_lower item in
    let skipped = collect_hosts unicode_lower name hosts items in
    let longer = collect_hosts unicode_lower name (hosts ++ host ∷ []) items in
    if text_eq host []
    then skipped
    else listed name host (validate_listen_host host) >>= (λ _. longer)

abbrev pub filled : Text → List Text → Result Error (List Text)
filled name [] = err (no_items name)
filled name (host ∷ hosts) = ok (host ∷ hosts)

abbrev pub hosts_of : (Text → Text) → Text → List Text → Option Text → Result Error (List Text)
hosts_of unicode_lower name fallback none = ok fallback
hosts_of unicode_lower name fallback (some value) =
    collect_hosts unicode_lower name [] (split b',' value) >>= filled name

unfoldable pub list :
    (Text → Text) → (Text → Option Text) → Text → List Text → Result Error (List Text)
unfolding collect_hosts split
list unicode_lower lookup name fallback = hosts_of unicode_lower name fallback (lookup name)

-- The loop of scopeList.
unfoldable pub collect_scopes : List Text → List Text → Result Error (List Text)
unfolding trim_space contains_any text_eq
collect_scopes scopes [] = ok scopes
collect_scopes scopes (item ∷ items) =
    let scope = trim_space item in
    let longer = collect_scopes (scopes ++ scope ∷ []) items in
    if text_eq scope [] || ltb 128 (length scope) || contains_any scope (codes " \t\r\n\"")
    then err bad_scope
    else longer

abbrev pub few_scopes : List Text → Result Error (List Text)
few_scopes scopes =
    if ltb (length scopes) 1 || ltb 20 (length scopes) then err bad_scope_count else ok scopes

unfoldable pub scope_list : Text → Result Error (List Text)
unfolding collect_scopes split
scope_list value = collect_scopes [] (split b',' value) >>= few_scopes

abbrev pub valid_port : Option ℤ → Result Error (Unit {0})
valid_port none = err bad_port
valid_port (some (negsuc n)) = err bad_port
valid_port (some (pos n)) = if ltb n 1 || ltb 65535 n then err bad_port else ok tt

abbrev pub valid_endpoint : Text → Option HostPort → Result Error (Unit {0})
valid_endpoint value none = err bad_endpoint
valid_endpoint value (some hp) =
    if text_eq hp.host [] || text_eq hp.port [] || contains_any value (codes "/\\\t\r\n")
    then err bad_endpoint
    else valid_port (atoi hp.port)

unfoldable pub validate_grpc_endpoint : Text → Result Error (Unit {0})
unfolding split_host_port atoi contains_any text_eq
validate_grpc_endpoint value = valid_endpoint value (split_host_port value)

pub data LogLevel : Type 0 where
  debug info warn error : LogLevel

unfoldable pub parse_log_level : (Text → Text) → Text → Result Error LogLevel
unfolding trim_space to_lower text_eq
parse_log_level unicode_lower value =
    let word = to_lower unicode_lower (trim_space value) in
    if text_eq word (codes "debug")
    then ok debug
    else if text_eq word (codes "info")
    then ok info
    else if text_eq word (codes "warn") || text_eq word (codes "warning")
    then ok warn
    else if text_eq word (codes "error")
    then ok error
    else err bad_log_level
