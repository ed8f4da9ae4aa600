-- ===== src/Examples/Loading.antt =====
-- Runs and instances for Config.Loading and Config.Urls.
use mathlib.Core.List.{Memᴰ}
use synthient_mcp.Prelude.{
  ok, err, ◌⊎◌, ◌||◌, inl, ◌++◌, List, [], ◌∷◌, ◌≡◌, refl, true, false, Option, none, some,
  if◌then◌else◌,
}
use synthient_mcp.Text.{Text, codes, text_eq, starts_with, split, trim_space}
use synthient_mcp.Net.{Prefix}
use synthient_mcp.Net.Url.{Url, hostname}
use synthient_mcp.HttpServer.Origin
use synthient_mcp.HttpServer.Origin.{passed, require_exact_origin}
use synthient_mcp.Config
use synthient_mcp.Config.Settings.{Settings, origins}
use synthient_mcp.Config.Urls.{
  config_origin, validate_base_url, is_loopback_host, validate_secure_url,
}
use synthient_mcp.Config.Urls.Agreement.{origins-passed}
use synthient_mcp.Config.Loading.{Config, oauth, load_from, base_url_of, address}
use synthient_mcp.Config.Loading.Loaded.{IsLoaded, load_from-IsLoaded}
use synthient_mcp.Config.Loading.Bare.{prepare_bare}
use synthient_mcp.Synthient.Request
use synthient_mcp.Synthient.Request.{Client, Target, get_target, prepare}

abbrev same : Text → Text
same s = s

abbrev shuffle : List (Text × Text) → List (Text × Text)
shuffle urls = urls

abbrev url_text : Text → Text → Text
url_text scheme host = scheme ++ codes "://" ++ host

abbrev url_at : Text → Text → Text → Url
url_at scheme host path = record {
  scheme = scheme;
  opaque = [];
  has_user = false;
  host = host;
  path = path;
  raw_path = [];
  raw_query = [];
  fragment = [];
}

abbrev auth_url : Url
auth_url = url_at (codes "https") (codes "auth.example:8443") (codes "/keys")

abbrev local_url : Url
local_url = url_at (codes "http") (codes "[::1]:8080") (codes "/api/v4")

-- A parser that knows two URLs.
parse : Text → Option Url
parse value =
    if text_eq value (codes "https://auth")
    then some auth_url
    else if text_eq value (codes "http://local")
    then some local_url
    else none

parse_prefix : Text → Option Prefix
parse_prefix item = none

lookup : Text → Option Text
lookup name =
    if text_eq name (codes "AUTH_MODE")
    then some (codes " OAuth")
    else if text_eq name (codes "SYNTHIENT_API_KEY")
    then some (codes "key")
    else if text_eq name (codes "OAUTH_AUDIENCE")
    then some (codes "mcp")
    else if text_eq name (codes "SYNTHIENT_API_BASE_URL")
    then some (codes "http://local")
    else if starts_with name (codes "OAUTH_ISSUER")
        || starts_with name (codes "OAUTH_JWKS")
        || starts_with name (codes "MCP_")
    then some (codes "https://auth")
    else none

runs : Unit {0}
unfolding parse lookup text_eq starts_with load_from hostname validate_base_url is_loopback_host
    origins config_origin require_exact_origin validate_secure_url split trim_space base_url_of
    prepare address
runs = tt

abbrev defaults : Settings
defaults = record {
  host = codes "127.0.0.1";
  port = 3000;
  allowed_hosts = codes "localhost" ∷ codes "127.0.0.1" ∷ codes "::1" ∷ [];
  allowed_origins = [];
  trusted_proxy_cidrs = [];
  metrics_enabled = false;
  forward_client_ip = false;
  cors_enabled = false;
  legacy_tool_names = false;
  trust_proxy_hops = 0;
  times = record {
    request = 15000;
    stream = 15000;
    read = 20000;
    write = 20000;
    idle = 60000;
    shutdown = 10000;
  };
  max_header_bytes = 32768;
  max_concurrent_requests = 8;
  max_concurrent_per_user = 2;
  max_requests_per_minute = 120;
}

abbrev loaded : Config
loaded = record {
  settings = defaults;
  base_url = record local_url { path = codes "/api/v4/" };
  grpc_endpoint = codes "grpc.synthient.com:443";
  auth = oauth (record {
    api_key = codes "key";
    issuer_url = codes "https://auth";
    jwks_url = codes "https://auth";
    audience = codes "mcp";
    resource_url = codes "https://auth";
    required_scopes = codes "mcp:tools" ∷ [];
  });
  log_level = Config.info;
  log_json = false;
}

loads : load_from parse shuffle same url_text parse_prefix parse lookup ≡ ok loaded
unfolding runs
loads = refl

load_from-IsLoaded_example : IsLoaded parse loaded
load_from-IsLoaded_example =
    load_from-IsLoaded parse shuffle (λ urls url listed. listed) same url_text parse_prefix parse
      lookup loaded loads

hosts :
    (is_loopback_host (codes "LocalHost") ≡ true)
    × (is_loopback_host (codes "127.9.0.1") ≡ true)
    × (is_loopback_host (codes "example.com") ≡ false)
    × (hostname local_url ≡ codes "::1")
    × (hostname auth_url ≡ codes "auth.example")
    × (address defaults ≡ codes "127.0.0.1:3000")
    × (address (record defaults { host = codes "::1" }) ≡ codes "[::1]:3000")
unfolding runs
hosts = (refl, refl, refl, refl, refl, refl, refl)

abbrev bare : Url
bare = url_at (codes "https") (codes "api.example") []

abbrev slashed : Url
slashed = record bare { path = codes "/" }

bare_loads : base_url_of (some bare) ≡ ok slashed
unfolding runs
bare_loads = refl

abbrev client : Client
client = record {
  base_url = some slashed;
  has_http_client = true;
  api_key = codes "key";
  forwarded_for = [];
  version = codes "1.2.3";
}

abbrev account_target : Target
account_target = get_target (codes "account" ∷ codes "me" ∷ []) []

prepare_bare_example :
    (prepare some (λ ips. none) client account_target ≡ err Request.escaped_endpoint)
    ⊎ (prepare some (λ ips. none) client account_target ≡ err Request.empty_segment)
prepare_bare_example =
    prepare_bare some (λ ips. none) client account_target bare slashed (inl refl) bare_loads refl
      refl

-- A parser that knows the origin of a browser.
abbrev origin_of : Text → Option Url
origin_of value =
    if text_eq value (codes "https://App.example")
    then some (url_at (codes "https") (codes "App.example") [])
    else none

abbrev setting : Text → Option Text
setting name = some (codes " https://App.example ")

abbrev browser : Origin.Request
browser = record {
  origin = codes "https://App.example";
  host = codes "mcp.example";
  tls = true;
  options = false;
}

origins_load :
    origins (config_origin origin_of same url_text) setting (codes "ALLOWED_ORIGINS")
    ≡ ok (codes "https://app.example" ∷ [])
unfolding runs
origins_load = refl

browser_sends : browser.origin ≡ trim_space (codes " https://App.example ")
unfolding runs
browser_sends = refl

listed : Memᴰ (codes " https://App.example ") (split b',' (codes " https://App.example "))
unfolding runs
listed = Memᴰ.head refl

filled : text_eq (trim_space (codes " https://App.example ")) [] ≡ false
unfolding runs
filled = refl

origins-passed_example :
    require_exact_origin same origin_of url_text (codes "https://app.example" ∷ []) browser ≡ passed
origins-passed_example =
    origins-passed same origin_of url_text setting (codes "ALLOWED_ORIGINS")
      (codes " https://App.example ") (codes "https://app.example" ∷ [])
      (codes " https://App.example ") browser refl filled origins_load listed browser_sends
