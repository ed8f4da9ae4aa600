-- ===== src/Examples/Settings.antt =====
-- Runs and instances for Config.
use synthient_mcp.Prelude.{
  ◌*◌, ◌<◌, [], ◌∷◌, ◌≡◌, refl, ok, true, false, Option, none, some, if◌then◌else◌,
}
use synthient_mcp.Text.{Text, codes, text_eq, starts_with}
use synthient_mcp.Net.{Prefix}
use synthient_mcp.McpServer.Tools.{maximum_timeout}
use synthient_mcp.Config
use synthient_mcp.Config.{
  bad_integer, bad_item, write_within_stream, integer, boolean, list, scope_list,
  validate_grpc_endpoint, parse_log_level,
}
use synthient_mcp.Config.Settings.{Settings, settings_from}
use synthient_mcp.Config.Settings.Ranges.{sample_timeout, settings_from-maximum_timeout}

abbrev same : Text → Text
same s = s

-- An environment that sets two variables.
lookup : Text → Option Text
lookup name =
    if text_eq name (codes "STREAM_TIMEOUT_MS")
    then some (codes "2000")
    else if text_eq name (codes "WRITE_TIMEOUT_MS")
    then some (codes "+3000")
    else none

-- Parsers that know no origin and no prefix.
parse_origin : Text → Option Text
parse_origin item = none

parse_prefix : Text → Option Prefix
parse_prefix item = none

runs : Unit {0}
unfolding lookup text_eq starts_with settings_from boolean list scope_list validate_grpc_endpoint
    parse_log_level
runs = tt

abbrev loaded : Settings
loaded = record {
  host = codes "127.0.0.1";
  port = 3000;
  allowed_hosts = codes "localhost" ∷ codes "127.0.0.1" ∷ codes "::1" ∷ [];
  allowed_origins = [];
  trusted_proxy_cidrs = [];
  metrics_enabled = false;
  forward_client_ip = false;
  cors_enabled = false;
  legacy_tool_names = false;
  trust_proxy_hops = 0;
  times = record {
    request = 15000;
    stream = 2000;
    read = 20000;
    write = 3000;
    idle = 60000;
    shutdown = 10000;
  };
  max_header_bytes = 32768;
  max_concurrent_requests = 8;
  max_concurrent_per_user = 2;
  max_requests_per_minute = 120;
}

loads : settings_from same parse_origin parse_prefix lookup ≡ ok loaded
unfolding runs
loads = refl

settings_from-maximum_timeout_example :
    maximum_timeout (sample_timeout loaded) * 1000 < loaded.times.write
settings_from-maximum_timeout_example =
    settings_from-maximum_timeout same parse_origin parse_prefix lookup loaded loads

abbrev hosts : Text → Option Text
hosts name = some (codes " Example.COM, ,[::1]")

others :
    (list same hosts (codes "ALLOWED_HOSTS") [] ≡ ok (codes "example.com" ∷ codes "::1" ∷ []))
    × (boolean (λ name. some (codes "T")) (codes "CORS_ENABLED") false ≡ ok true)
    × (scope_list (codes "mcp:tools, mcp:read") ≡ ok (codes "mcp:tools" ∷ codes "mcp:read" ∷ []))
    × (validate_grpc_endpoint (codes "grpc.synthient.com:443") ≡ ok tt)
    × (parse_log_level same (codes " WARNING") ≡ ok Config.warn)
unfolding runs
others = (refl, refl, refl, refl, refl)
