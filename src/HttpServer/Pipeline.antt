-- ===== src/HttpServer/Pipeline.antt =====
-- The chain of middlewares that newHandler of go/internal/httpserver/server.go puts in front of the
-- MCP handler, one request at a time: what the request meets, in which order, and what it leaves in
-- the limiters. The protection of net/http against cross-origin requests and the SDK's check of
-- bearer tokens are parameters, as is the digest of a key.
pub mod Passage
pub mod Entry
pub mod Leaks
pub mod Returns
pub mod Credentials
use synthient_mcp.Prelude.{
  Result, ok, err, ℕ, zero, suc, List, [], ◌∷◌, Bool, true, false, Option, none, some, ltb,
  if◌then◌else◌,
}
use synthient_mcp.Text.{Text}
use synthient_mcp.Text.Decimal.{ℤ, pos, negsuc}
use synthient_mcp.GoMap.{GoMap}
use synthient_mcp.HttpServer.Concurrency
use synthient_mcp.HttpServer.Concurrency.{Verdict, begin, finish, acquire, release}
use synthient_mcp.HttpServer.Rate
use synthient_mcp.HttpServer.Rate.{Limiter, handle}
use synthient_mcp.HttpServer.Protect
use synthient_mcp.HttpServer.Protect.{
  Refusal, host_not_allowed, key_missing, key_malformed, client_unknown, protect_mcp,
  request_principal, first_value,
}
use synthient_mcp.HttpServer.Origin
use synthient_mcp.HttpServer.Origin.{require_exact_origin, allow_cors}
use synthient_mcp.Net.Url.{Url}
use synthient_mcp.Synthient.Request.{Client}

-- What the middlewares read of the configuration.
pub record Wiring : Type 0 where
  pub protection : Protect.Config
  pub allowed_origins : List Text
  pub cors_enabled : Bool
  pub max_concurrent_requests : ℤ
  pub max_concurrent_per_user : ℤ
  pub max_requests_per_minute : ℤ

-- A request to /mcp, at an instant in nanoseconds.
pub record Incoming : Type 0 where
  pub now : ℕ
  pub options : Bool
  pub tls : Bool
  pub host : Text
  pub origin : Text
  pub remote_addr : Text
  pub api_key : List Text
  pub forwarded_for : List Text

-- The tokens in the channel of limitConcurrent, the map of limitConcurrentPerPrincipal, and the
-- rate limiter.
pub record Gate : Type 0 where
  pub used : ℕ
  pub inflight : GoMap ℕ
  pub limiter : Limiter

-- A request is answered with a status, or reaches the MCP handler as the request that this sees.
pub data Outcome : Type 0 where
  answered : (status : ℕ) → Outcome
  reached : Protect.Request → Outcome

abbrev pub browser_view : Incoming → Origin.Request
browser_view i = record { origin = i.origin; host = i.host; tls = i.tls; options = i.options }

abbrev pub direct_view : Incoming → Option Text → Protect.Request
direct_view i user = record {
  host = i.host;
  remote_addr = i.remote_addr;
  api_key = i.api_key;
  forwarded_for = i.forwarded_for;
  user_id = user;
}

-- `if value <= 0 { value = default }`.
abbrev pub or_positive : ℕ → ℤ → ℕ
or_positive default (pos zero) = default
or_positive default (pos (suc n)) = suc n
or_positive default (negsuc n) = default

abbrev pub refusal_status : Refusal → ℕ
refusal_status host_not_allowed = 403
refusal_status key_missing = 401
refusal_status key_malformed = 400
refusal_status (client_unknown e) = 400

abbrev pub is_limited : ℤ → Bool
is_limited (pos (suc n)) = true
is_limited _ = false

-- The deferred return of the token, when a request is answered inside limitConcurrent.
abbrev pub return_token : Gate × Outcome → Gate × Outcome
return_token (g, answered status) = (record g { used = release g.used }, answered status)
return_token (g, reached r) = (g, reached r)

module _ (digest : Text → Text) (wiring : Wiring) where
  abbrev pub per_principal : ℕ
  per_principal = or_positive 2 wiring.max_concurrent_per_user

  abbrev pub max_concurrent : ℕ
  max_concurrent = or_positive 8 wiring.max_concurrent_requests

  abbrev pub begun : Gate → Protect.Request → GoMap ℕ × Verdict → Gate × Outcome
  begun g r (m, Verdict.unauthorized) = (record g { inflight = m }, answered 401)
  begun g r (m, Verdict.refused) = (record g { inflight = m }, answered 429)
  begun g r (m, Verdict.admitted) = (record g { inflight = m }, reached r)

  -- limitConcurrentPerPrincipal, up to the call of the MCP handler.
  unfoldable pub limit_principal : Gate → Protect.Request → Gate × Outcome
  unfolding begin request_principal
  limit_principal g r = begun g r (begin per_principal g.inflight (request_principal digest r))

  abbrev pub rated : Gate → Protect.Request → Limiter × Rate.Outcome → Gate × Outcome
  rated g r (l, Rate.unauthorized) = (record g { limiter = l }, answered 401)
  rated g r (l, Rate.too_many retry_after reason) = (record g { limiter = l }, answered 429)
  rated g r (l, Rate.passed) = limit_principal (record g { limiter = l }) r

  -- limitRatePerPrincipal stands in the chain only if a limit is set.
  unfoldable pub limit_rate : ℕ → Gate → Protect.Request → Gate × Outcome
  unfolding limit_principal handle request_principal
  limit_rate now g r =
      if is_limited wiring.max_requests_per_minute
      then rated g r (handle g.limiter now (request_principal digest r))
      else limit_principal g r

  abbrev pub protected : ℕ → Gate → Result Refusal Protect.Request → Gate × Outcome
  protected now g (ok r) = limit_rate now g r
  protected now g (err refusal) = (g, answered (refusal_status refusal))

  module _ (unicode_lower : Text → Text) where
    unfoldable pub protect : ℕ → Gate → Protect.Request → Gate × Outcome
    unfolding protect_mcp limit_rate
    protect now g r = protected now g (protect_mcp unicode_lower wiring.protection r)

    module _ (bearer : Incoming → Result ℕ Text) where
      abbrev pub authenticated : Gate → Incoming → Result ℕ Text → Gate × Outcome
      authenticated g i (ok user) = protect i.now g (direct_view i (some user))
      authenticated g i (err status) = (g, answered status)

      -- oauthProtection stands in the chain only in the mode of OAuth.
      unfoldable pub authenticate : Gate → Incoming → Gate × Outcome
      unfolding protect
      authenticate g i =
          let by_token = authenticated g i (bearer i) in
          if wiring.protection.oauth then by_token else protect i.now g (direct_view i none)

      abbrev pub slotted : Gate → Incoming → ℕ × Verdict → Gate × Outcome
      slotted g i (used, Verdict.admitted) =
          return_token (authenticate (record g { used = used }) i)
      slotted g i (used, v) = (record g { used = used }, answered 503)

      unfoldable pub limit_all : Gate → Incoming → Gate × Outcome
      unfolding authenticate acquire release
      limit_all g i = slotted g i (acquire max_concurrent g.used)

      module _ (parse_request_uri : Text → Option Url) (url_text : Text → Text → Text)
          (cross_origin : Incoming → Bool) where
        abbrev pub exact : Gate → Incoming → Origin.Outcome → Gate × Outcome
        exact g i Origin.passed = limit_all g i
        exact g i _ = (g, answered 403)

        unfoldable pub check_origin : Gate → Incoming → Gate × Outcome
        unfolding limit_all require_exact_origin
        check_origin g i =
            let later = exact g i (
              require_exact_origin unicode_lower parse_request_uri url_text wiring.allowed_origins
                (browser_view i)) in
            if cross_origin i then later else (g, answered 403)

        abbrev pub crossed : Gate → Incoming → Origin.Outcome → Gate × Outcome
        crossed g i Origin.passed = check_origin g i
        crossed g i Origin.preflight = (g, answered 204)
        crossed g i Origin.forbidden = (g, answered 403)

        -- The whole chain of /mcp.
        unfoldable pub serve : Gate → Incoming → Gate × Outcome
        unfolding check_origin allow_cors
        serve g i =
            let with_cors = crossed g i (
              allow_cors unicode_lower parse_request_uri url_text wiring.allowed_origins
                wiring.protection.allowed_hosts (browser_view i)) in
            let without = check_origin g i in if wiring.cors_enabled then with_cors else without

  -- The MCP handler returns: the deferred sections of both limiters run.
  unfoldable pub leave : Gate → Protect.Request → Gate
  unfolding finish release request_principal
  leave g r = record g {
    used = release g.used;
    inflight = finish g.inflight (request_principal digest r);
  }

-- The client of the API that newHandler makes for a request; `server_key` is SYNTHIENT_API_KEY.
unfoldable pub client_of : Wiring → Option Url → Text → Text → Protect.Request → Client
client_of wiring base_url server_key version r = record {
  base_url = base_url;
  has_http_client = true;
  api_key = if wiring.protection.oauth then server_key else first_value r.api_key;
  forwarded_for = first_value r.forwarded_for;
  version = version;
}
