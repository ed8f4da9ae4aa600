-- ===== src/Config/Settings.antt =====
-- LoadFrom of go/internal/config/config.go up to its URLs, in the order in which it reads and tests
-- the settings; times are in milliseconds. canonicalOrigin, which rests on the parser of URLs, and
-- the parser of prefixes are parameters.
pub mod Ranges
use synthient_mcp.Prelude.{
  Result, ok, err, ◌>>=◌, ℕ, ◌+◌, max, List, [], ◌∷◌, Bool, true, false, ◌&&◌, leb, ltb, Option,
  none, some, if◌then◌else◌,
}
use synthient_mcp.Text.{Text, codes, text_eq, trim_space, split}
use synthient_mcp.Net.{Prefix}
use synthient_mcp.Config.{
  Error, bad_origin, bad_prefix, no_prefixes, write_within_stream, principal_above_total,
  no_origins, get, integer, boolean, list, normalize_hostname, validate_listen_host,
}

pub record Times : Type 0 where
  pub request : ℕ
  pub stream : ℕ
  pub read : ℕ
  pub write : ℕ
  pub idle : ℕ
  pub shutdown : ℕ

pub record Settings : Type 0 where
  pub host : Text
  pub port : ℕ
  pub allowed_hosts : List Text
  pub allowed_origins : List Text
  pub trust_proxy_hops : ℕ
  pub trusted_proxy_cidrs : List Prefix
  pub times : Times
  pub max_header_bytes : ℕ
  pub max_concurrent_requests : ℕ
  pub metrics_enabled : Bool
  pub max_concurrent_per_user : ℕ
  pub max_requests_per_minute : ℕ
  pub forward_client_ip : Bool
  pub cors_enabled : Bool
  pub legacy_tool_names : Bool

abbrev pub refuse_if : Error → Bool → Result Error (Unit {0})
refuse_if e true = err e
refuse_if e false = ok tt

-- The timeouts, which LoadFrom reads one behind the other.
unfoldable pub times_from : (Text → Option Text) → Result Error Times
unfolding integer
times_from lookup = do
  timeout ← integer lookup (codes "REQUEST_TIMEOUT_MS") 15000 100 120000
  stream ← integer lookup (codes "STREAM_TIMEOUT_MS") 15000 1000 30000
  let operation = max timeout stream
  read ← integer lookup (codes "READ_TIMEOUT_MS") (operation + 5000) 1000 180000
  write ← integer lookup (codes "WRITE_TIMEOUT_MS") (operation + 5000) 1000 180000
  _ ← refuse_if write_within_stream (leb write stream)
  idle ← integer lookup (codes "IDLE_TIMEOUT_MS") 60000 1000 300000
  shutdown ← integer lookup (codes "SHUTDOWN_TIMEOUT_MS") 10000 1000 120000
  ok (record {
    request = timeout;
    stream = stream;
    read = read;
    write = write;
    idle = idle;
    shutdown = shutdown;
  })

abbrev pub item_or_error {ℓ} : {A : Type ℓ} → Error → Option A → Result Error A
item_or_error e none = err e
item_or_error e (some a) = ok a

-- The loops of `origins` and `prefixes`; `parse` reads one item without blanks at its ends.
unfoldable pub parse_items {ℓ} :
    {A : Type ℓ} → (Text → Option A) → (Text → Error) → List Text → Result Error (List A)
unfolding trim_space
parse_items parse failure [] = ok []
parse_items parse failure (item ∷ items) = do
  first ← item_or_error (failure (trim_space item)) (parse (trim_space item))
  rest ← parse_items parse failure items
  ok (first ∷ rest)

abbrev pub items_of {ℓ} :
    {A : Type ℓ} → (Text → Option A) → (Text → Error) → Option Text → Result Error (List A)
items_of parse failure none = ok []
items_of parse failure (some value) =
    if text_eq (trim_space value) [] then ok [] else parse_items parse failure (split b',' value)

unfoldable pub origins :
    (Text → Option Text) → (Text → Option Text) → Text → Result Error (List Text)
unfolding parse_items trim_space split text_eq
origins canonical_origin lookup name = items_of canonical_origin (bad_origin name) (lookup name)

unfoldable pub prefixes :
    (Text → Option Prefix) → (Text → Option Text) → Text → Result Error (List Prefix)
unfolding parse_items trim_space split text_eq
prefixes parse_prefix lookup name = items_of parse_prefix (bad_prefix name) (lookup name)

abbrev pub default_allowed_hosts : List Text
default_allowed_hosts = codes "localhost" ∷ codes "127.0.0.1" ∷ codes "::1" ∷ []

abbrev pub is_nil {ℓ} : {A : Type ℓ} → List A → Bool
is_nil [] = true
is_nil (a ∷ rest) = false

module _ (unicode_lower : Text → Text) (canonical_origin : Text → Option Text)
    (parse_prefix : Text → Option Prefix) where
  -- LoadFrom up to the URLs.
  unfoldable pub settings_from : (Text → Option Text) → Result Error Settings
  unfolding integer boolean list normalize_hostname validate_listen_host origins prefixes times_from
  settings_from lookup = do
    let host = normalize_hostname unicode_lower (get lookup (codes "HOST") (codes "127.0.0.1"))
    _ ← validate_listen_host host
    port ← integer lookup (codes "PORT") 3000 1 65535
    hosts ← list unicode_lower lookup (codes "ALLOWED_HOSTS") default_allowed_hosts
    trusted_origins ← origins canonical_origin lookup (codes "ALLOWED_ORIGINS")
    hops ← integer lookup (codes "TRUST_PROXY_HOPS") 0 0 10
    cidrs ← prefixes parse_prefix lookup (codes "TRUSTED_PROXY_CIDRS")
    _ ← refuse_if no_prefixes (ltb 0 hops && is_nil cidrs)
    times ← times_from lookup
    header ← integer lookup (codes "MAX_HEADER_BYTES") 32768 8192 1048576
    total ← integer lookup (codes "MAX_CONCURRENT_REQUESTS") 8 1 1024
    metrics ← boolean lookup (codes "METRICS_ENABLED") false
    per_user ← integer lookup (codes "MAX_CONCURRENT_PER_PRINCIPAL") 2 1 1024
    _ ← refuse_if principal_above_total (ltb total per_user)
    rate ← integer lookup (codes "MAX_REQUESTS_PER_MINUTE") 120 0 100000
    forward ← boolean lookup (codes "FORWARD_CLIENT_IP") false
    cors ← boolean lookup (codes "CORS_ENABLED") false
    legacy ← boolean lookup (codes "LEGACY_TOOL_NAMES") false
    _ ← refuse_if no_origins (cors && is_nil trusted_origins)
    ok (record {
      host = host;
      port = port;
      allowed_hosts = hosts;
      allowed_origins = trusted_origins;
      trust_proxy_hops = hops;
      trusted_proxy_cidrs = cidrs;
      times = times;
      max_header_bytes = header;
      max_concurrent_requests = total;
      metrics_enabled = metrics;
      max_concurrent_per_user = per_user;
      max_requests_per_minute = rate;
      forward_client_ip = forward;
      cors_enabled = cors;
      legacy_tool_names = legacy;
    })
