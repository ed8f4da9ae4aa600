-- ===== src/Examples/Process.antt =====
-- Runs and instances for Process.
use synthient_mcp.Prelude.{
  ok, err, ℕ, ◌≤◌, ◌↔◌, List, [], ◌∷◌, ◌≡◌, refl, true, false, Option, none, some, length,
  if◌then◌else◌,
}
use synthient_mcp.Text.{Text, codes, text_eq, starts_with}
use synthient_mcp.Text.Decimal.{pos, negsuc}
use synthient_mcp.Net.{Prefix}
use synthient_mcp.Config.Settings.{Settings, settings_from}
use synthient_mcp.Process
use synthient_mcp.Process.{
  command_of, http_limits, healthcheck, health_url, stdio_key, invalid_port, bad_status,
}
use synthient_mcp.Process.Health.{healthcheck_iff}
use synthient_mcp.Process.Shutdown.{
  ServeError, closed, other, Failure, serve_failed, received, returned, State, start, Event, signal,
  fail, close, take_error, take_signal, end_shutdown, receive, step, run,
}
use synthient_mcp.Process.Shutdown.Returns.{IsVerdict, run-IsVerdict, run_ends}

abbrev same : Text → Text
same s = s

abbrev parse_origin : Text → Option Text
parse_origin item = none

abbrev parse_prefix : Text → Option Prefix
parse_prefix item = none

lookup : Text → Option Text
lookup name = if text_eq name (codes "PORT") then some (codes "8080") else none

abbrev fetch : Text → Option ℕ
fetch url = if text_eq url (codes "http://127.0.0.1:8080/healthz") then some 200 else none

runs : Unit {0}
unfolding lookup text_eq starts_with settings_from healthcheck command_of http_limits stdio_key step
    run
runs = tt

abbrev loaded : Settings
loaded = record {
  host = codes "127.0.0.1";
  port = 8080;
  allowed_hosts = codes "localhost" ∷ codes "127.0.0.1" ∷ codes "::1" ∷ [];
  allowed_origins = [];
  trusted_proxy_cidrs = [];
  metrics_enabled = false;
  forward_client_ip = false;
  cors_enabled = false;
  legacy_tool_names = false;
  trust_proxy_hops = 0;
  times = record {
    request = 15000;
    stream = 15000;
    read = 20000;
    write = 20000;
    idle = 60000;
    shutdown = 10000;
  };
  max_header_bytes = 32768;
  max_concurrent_requests = 8;
  max_concurrent_per_user = 2;
  max_requests_per_minute = 120;
}

loads : settings_from same parse_origin parse_prefix lookup ≡ ok loaded
unfolding runs
loads = refl

healthcheck_iff_example :
    (healthcheck fetch lookup ≡ ok tt) ↔ (fetch (health_url loaded.port) ≡ some 200)
healthcheck_iff_example = healthcheck_iff same parse_origin parse_prefix lookup loaded fetch loads

commands :
    (command_of (codes "version" ∷ []) ≡ Process.version)
    × (command_of (codes "stdio" ∷ codes "x" ∷ []) ≡ Process.http)
    × (healthcheck fetch (λ name. some (codes "0")) ≡ err invalid_port)
    × (healthcheck (λ url. some 503) lookup ≡ err (bad_status 503))
    × (stdio_key (λ name. some (codes " key ")) ≡ some (codes "key"))
    × (stdio_key (λ name. none) ≡ none)
    × ((http_limits (record {
      read_timeout = pos 0;
      write_timeout = pos 7;
      idle_timeout = negsuc 4;
      max_header_bytes = pos 8192;
    })).write_timeout
        ≡ 7)
unfolding runs
commands = (refl, refl, refl, refl, refl, refl, refl)

abbrev graceful : List Event
graceful = signal ∷ take_signal ∷ close ∷ end_shutdown true ∷ receive ∷ []

abbrev stopped : State
stopped = record { main = returned none; serving = received closed; cancelled = true }

stops : run graceful start ≡ some stopped
unfolding runs
stops = refl

abbrev broken : State
broken = record {
  main = returned (some (serve_failed 7));
  serving = received (other 7);
  cancelled = false;
}

breaks : run (fail 7 ∷ take_error ∷ []) start ≡ some broken
unfolding runs
breaks = refl

run-IsVerdict_example :
    (e : ServeError) × (broken.serving ≡ received e)
    × IsVerdict (some (serve_failed 7)) e broken.cancelled
run-IsVerdict_example =
    run-IsVerdict (fail 7 ∷ take_error ∷ []) broken (some (serve_failed 7)) breaks refl

at_rest : (e : Event) → step e stopped ≡ none
unfolding runs
at_rest signal = refl
at_rest (fail code) = refl
at_rest close = refl
at_rest take_error = refl
at_rest take_signal = refl
at_rest (end_shutdown g) = refl
at_rest receive = refl

run_ends_example : (length graceful ≤ 6) × (r : Option Failure) × (stopped.main ≡ returned r)
run_ends_example = run_ends graceful stopped stops refl at_rest
