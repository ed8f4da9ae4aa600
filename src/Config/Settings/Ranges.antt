-- ===== src/Config/Settings/Ranges.antt =====
-- What the numbers of a configuration that loads satisfy.
use synthient_mcp.Prelude.{
  List, [], ◌∷◌, ◌≢◌, cons-ne-nil, true, ok, bind_steps, ok_injective, subst, ℕ, zero, suc, ◌+◌,
  ◌*◌, ◌/◌, ◌≤◌, ◌<◌, max, Bool, false, ◌&&◌, leb, ltb, ◌≡◌, refl, Option, arith,
}
use synthient_mcp.Text.{Text, codes}
use synthient_mcp.Text.Decimal.{ℤ, pos}
use synthient_mcp.McpServer.Tools.{maximum_timeout}
use synthient_mcp.Config.{
  Error, write_within_stream, principal_above_total, no_prefixes, no_origins, integer, boolean,
  list, get, normalize_hostname, validate_listen_host,
}
use synthient_mcp.Net.{Prefix}
use synthient_mcp.Config.Numbers.{IsSetting, unset, empty, spelled, integer_iff}
use synthient_mcp.Config.Settings.{
  Times, Settings, refuse_if, times_from, settings_from, origins, prefixes, is_nil,
  default_allowed_hosts,
}

abbrev pub Between : ℕ → ℕ → ℕ → Type 0
Between low high n = (low ≤ n) × (n ≤ high)

-- The bounds of the timeouts, and that the response is written for longer than a sample lasts.
pub record AreInRange (t : Times) : Type 0 where
  pub request : Between 100 120000 t.request
  pub stream : Between 1000 30000 t.stream
  pub read : Between 1000 180000 t.read
  pub write : Between 1000 180000 t.write
  pub longer : t.stream < t.write
  pub idle : Between 1000 300000 t.idle
  pub shutdown : Between 1000 120000 t.shutdown

-- The bounds of every number, and the two orders that LoadFrom asks for.
pub record IsInRange (l : Settings) : Type 0 where
  pub port : Between 1 65535 l.port
  pub hops : l.trust_proxy_hops ≤ 10
  pub proxied : 0 < l.trust_proxy_hops → l.trusted_proxy_cidrs ≢ []
  pub times : AreInRange l.times
  pub header : Between 8192 1048576 l.max_header_bytes
  pub total : Between 1 1024 l.max_concurrent_requests
  pub per_user :
      (1 ≤ l.max_concurrent_per_user) × (l.max_concurrent_per_user ≤ l.max_concurrent_requests)
  pub rate : l.max_requests_per_minute ≤ 100000
  pub crossed : l.cors_enabled ≡ true → l.allowed_origins ≢ []

setting-Between :
    (fallback low high n : ℕ) (o : Option Text)
    → Between low high fallback
    → IsSetting fallback low high n o
    → Between low high n
setting-Between fallback low high n _ b (unset e) = rw e b
setting-Between fallback low high n _ b (empty e) = rw e b
setting-Between fallback low high n _ b (spelled value filled parsed bounds) = bounds

chosen-Between :
    (lookup : Text → Option Text) (name : Text) (fallback low high n : ℕ)
    → Between low high fallback
    → integer lookup name fallback low high ≡ ok n
    → Between low high n
chosen-Between lookup name fallback low high n b e =
    setting-Between fallback low high n (lookup name) b
      ((integer_iff lookup name fallback low high n).0 e)

-- For literal bounds, whose test computes.
integer-Between :
    (lookup : Text → Option Text) (name : Text) (fallback low high n : ℕ)
    → (leb low fallback && leb fallback high) ≡ true
    → integer lookup name fallback low high ≡ ok n
    → Between low high n
integer-Between lookup name fallback low high n b e =
    chosen-Between lookup name fallback low high n (ground arith, ground arith) e

operation-Between :
    (timeout stream : ℕ)
    → timeout ≤ 120000
    → stream ≤ 30000
    → Between 1000 180000 (max timeout stream + 5000)
operation-Between timeout stream h k = (omega arith, omega (arith, h, k))

refuse_if_passed : (e : Error) (b : Bool) (u : Unit {0}) → refuse_if e b ≡ ok u → b ≡ false
refuse_if_passed e true u h = absurd (cc)
refuse_if_passed e false u h = refl

lt_of_leb : (m n : ℕ) → leb m n ≡ false → n < m
lt_of_leb m n h = ground arith

le_of_ltb : (m n : ℕ) → ltb m n ≡ false → n ≤ m
le_of_ltb m n h = ground arith

times_from-AreInRange :
    (lookup : Text → Option Text) (t : Times) → times_from lookup ≡ ok t → AreInRange t
unfolding times_from
times_from-AreInRange lookup t e =
    let (timeout, g3, e3) =
      bind_steps (integer lookup (codes "REQUEST_TIMEOUT_MS") 15000 100 120000) _ e in
    let (stream, g4, e4) =
      bind_steps (integer lookup (codes "STREAM_TIMEOUT_MS") 15000 1000 30000) _ e3 in
    let b3 = integer-Between lookup (codes "REQUEST_TIMEOUT_MS") 15000 100 120000 timeout refl g3 in
    let b4 = integer-Between lookup (codes "STREAM_TIMEOUT_MS") 15000 1000 30000 stream refl g4 in
    let fallback = operation-Between timeout stream b3.1 b4.1 in
    let (read, g5, e5) =
      bind_steps (integer lookup (codes "READ_TIMEOUT_MS") (max timeout stream + 5000) 1000 180000)
        _ e4 in
    let (write, g6, e6) =
      bind_steps (integer lookup (codes "WRITE_TIMEOUT_MS") (max timeout stream + 5000) 1000 180000)
        _ e5 in
    let (u, g7, e7) = bind_steps (refuse_if write_within_stream (leb write stream)) _ e6 in
    let (idle, g8, e8) =
      bind_steps (integer lookup (codes "IDLE_TIMEOUT_MS") 60000 1000 300000) _ e7 in
    let (shutdown, g9, e9) =
      bind_steps (integer lookup (codes "SHUTDOWN_TIMEOUT_MS") 10000 1000 120000) _ e8 in
    subst AreInRange (ok_injective (ok _) refl e9) (record {
      request = b3;
      stream = b4;
      read = chosen-Between lookup (codes "READ_TIMEOUT_MS") _ 1000 180000 read fallback g5;
      write = chosen-Between lookup (codes "WRITE_TIMEOUT_MS") _ 1000 180000 write fallback g6;
      longer =
          lt_of_leb write stream (refuse_if_passed write_within_stream (leb write stream) u g7);
      idle = integer-Between lookup (codes "IDLE_TIMEOUT_MS") 60000 1000 300000 idle refl g8;
      shutdown =
          integer-Between lookup (codes "SHUTDOWN_TIMEOUT_MS") 10000 1000 120000 shutdown refl g9;
    })

no_proxies :
    (hops : ℕ) (cidrs : List Prefix) → (ltb 0 hops && is_nil cidrs) ≡ false → 0 < hops → cidrs ≢ []
no_proxies hops [] e h = absurd (ground arith)
no_proxies hops (p ∷ ps) e h = cons-ne-nil p ps

no_cors :
    (cors : Bool) (origins : List Text)
    → (cors && is_nil origins) ≡ false
    → cors ≡ true
    → origins ≢ []
no_cors cors [] e h = absurd (ground arith)
no_cors cors (o ∷ os) e h = cons-ne-nil o os

settings_from_parts :
    (unicode_lower : Text → Text) (canonical_origin : Text → Option Text)
    (parse_prefix : Text → Option Prefix) (lookup : Text → Option Text) (l : Settings)
    → settings_from unicode_lower canonical_origin parse_prefix lookup ≡ ok l
    → IsInRange l × (integer lookup (codes "PORT") 3000 1 65535 ≡ ok l.port)
unfolding settings_from
settings_from_parts u canonical_origin parse_prefix lookup l e =
    let (_, g0, e0) =
      bind_steps
        (validate_listen_host
          (normalize_hostname u (get lookup (codes "HOST") (codes "127.0.0.1"))))
        _ e in
    let (port, g1, e1) = bind_steps (integer lookup (codes "PORT") 3000 1 65535) _ e0 in
    let (hosts, h1, f1) =
      bind_steps (list u lookup (codes "ALLOWED_HOSTS") default_allowed_hosts) _ e1 in
    let (trusted_origins, h2, f2) =
      bind_steps (origins canonical_origin lookup (codes "ALLOWED_ORIGINS")) _ f1 in
    let (hops, g2, e2) = bind_steps (integer lookup (codes "TRUST_PROXY_HOPS") 0 0 10) _ f2 in
    let (cidrs, h3, f3) =
      bind_steps (prefixes parse_prefix lookup (codes "TRUSTED_PROXY_CIDRS")) _ e2 in
    let (w, h4, f4) = bind_steps (refuse_if no_prefixes (ltb 0 hops && is_nil cidrs)) _ f3 in
    let (times, g3, e3) = bind_steps (times_from lookup) _ f4 in
    let (header, g4, e4) =
      bind_steps (integer lookup (codes "MAX_HEADER_BYTES") 32768 8192 1048576) _ e3 in
    let (total, g5, e5) =
      bind_steps (integer lookup (codes "MAX_CONCURRENT_REQUESTS") 8 1 1024) _ e4 in
    let (metrics, h5, f5) = bind_steps (boolean lookup (codes "METRICS_ENABLED") false) _ e5 in
    let (per_user, g6, e6) =
      bind_steps (integer lookup (codes "MAX_CONCURRENT_PER_PRINCIPAL") 2 1 1024) _ f5 in
    let (v, g7, e7) = bind_steps (refuse_if principal_above_total (ltb total per_user)) _ e6 in
    let (rate, g8, e8) =
      bind_steps (integer lookup (codes "MAX_REQUESTS_PER_MINUTE") 120 0 100000) _ e7 in
    let (forward, h6, f6) = bind_steps (boolean lookup (codes "FORWARD_CLIENT_IP") false) _ e8 in
    let (cors, h7, f7) = bind_steps (boolean lookup (codes "CORS_ENABLED") false) _ f6 in
    let (legacy, h8, f8) = bind_steps (boolean lookup (codes "LEGACY_TOOL_NAMES") false) _ f7 in
    let (x, g9, e9) = bind_steps (refuse_if no_origins (cors && is_nil trusted_origins)) _ f8 in
    let per_user_range =
      integer-Between lookup (codes "MAX_CONCURRENT_PER_PRINCIPAL") 2 1 1024 per_user refl g6 in
    subst (λ l. IsInRange l × (integer lookup (codes "PORT") 3000 1 65535 ≡ ok l.port))
      (ok_injective (ok _) refl e9)
      (
        record {
          port = integer-Between lookup (codes "PORT") 3000 1 65535 port refl g1;
          hops = (integer-Between lookup (codes "TRUST_PROXY_HOPS") 0 0 10 hops refl g2).1;
          proxied =
              no_proxies hops cidrs
                (refuse_if_passed no_prefixes (ltb 0 hops && is_nil cidrs) w h4);
          times = times_from-AreInRange lookup times g3;
          header =
              integer-Between lookup (codes "MAX_HEADER_BYTES") 32768 8192 1048576 header refl g4;
          total = integer-Between lookup (codes "MAX_CONCURRENT_REQUESTS") 8 1 1024 total refl g5;
          per_user = (
            per_user_range.0,
            le_of_ltb total per_user
                (refuse_if_passed principal_above_total (ltb total per_user) v g7),
          );
          rate =
              (integer-Between lookup (codes "MAX_REQUESTS_PER_MINUTE") 120 0 100000 rate refl
                g8).1;
          crossed =
              no_cors cors trusted_origins
                (refuse_if_passed no_origins (cors && is_nil trusted_origins) x g9);
        },
        g1,
      )

-- Whatever the environment holds, the numbers of a configuration that loads are within the bounds
-- of their settings, the write timeout is longer than the stream timeout, a principal's limit is
-- not above the limit for all, prefixes of proxies are given where a hop is trusted, and origins
-- are given where CORS is enabled.
pub settings_from-IsInRange :
    (unicode_lower : Text → Text) (canonical_origin : Text → Option Text)
    (parse_prefix : Text → Option Prefix) (lookup : Text → Option Text) (l : Settings)
    → settings_from unicode_lower canonical_origin parse_prefix lookup ≡ ok l
    → IsInRange l
settings_from-IsInRange u canonical_origin parse_prefix lookup l e =
    (settings_from_parts u canonical_origin parse_prefix lookup l e).0

-- The port of a configuration that loads is that of its setting.
pub settings_from-port :
    (unicode_lower : Text → Text) (canonical_origin : Text → Option Text)
    (parse_prefix : Text → Option Prefix) (lookup : Text → Option Text) (l : Settings)
    → settings_from unicode_lower canonical_origin parse_prefix lookup ≡ ok l
    → integer lookup (codes "PORT") 3000 1 65535 ≡ ok l.port
settings_from-port u canonical_origin parse_prefix lookup l e =
    (settings_from_parts u canonical_origin parse_prefix lookup l e).1

-- The stream timeout in nanoseconds, as New hands it to the tools.
abbrev pub sample_timeout : Settings → ℤ
sample_timeout l = pos (l.times.stream * 1_000_000)

maximum_timeout_pos : (k : ℕ) → 0 < k → maximum_timeout (pos k) ≡ max 1 (k / 1_000_000_000)
maximum_timeout_pos zero h = absurd (omega (arith, h))
maximum_timeout_pos (suc k) h = refl

longest_sample : (ms : ℕ) → 1000 ≤ ms → maximum_timeout (pos (ms * 1_000_000)) * 1000 ≤ ms
longest_sample ms h =
    rw (maximum_timeout_pos (ms * 1_000_000) (omega (arith, h))) (omega (arith, h))

-- With settings that load, the longest timeout that sample_stream grants a client, in milliseconds,
-- ends before the server gives up writing the response.
pub settings_from-maximum_timeout :
    (unicode_lower : Text → Text) (canonical_origin : Text → Option Text)
    (parse_prefix : Text → Option Prefix) (lookup : Text → Option Text) (l : Settings)
    → settings_from unicode_lower canonical_origin parse_prefix lookup ≡ ok l
    → maximum_timeout (sample_timeout l) * 1000 < l.times.write
settings_from-maximum_timeout u canonical_origin parse_prefix lookup l e =
    let r = settings_from-IsInRange u canonical_origin parse_prefix lookup l e in
    omega (arith, longest_sample l.times.stream r.times.stream.0, r.times.longer)
