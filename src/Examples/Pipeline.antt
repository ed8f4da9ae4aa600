-- ===== src/Examples/Pipeline.antt =====
-- Runs and instances for HttpServer.Pipeline.
use synthient_mcp.Prelude.{
  Result, err, ℕ, suc, if◌then◌else◌, ◌*◌, [], ◌∷◌, ◌++◌, ◌≡◌, refl, Bool, true, false, Option,
  none,
}
use synthient_mcp.Text.{Text, codes, text_eq, starts_with}
use synthient_mcp.Text.Decimal.{pos}
use synthient_mcp.GoMap.{lookup, insert}
use synthient_mcp.Net.Url.{Url}
use synthient_mcp.Net.Parse.{parse_ip}
use synthient_mcp.HttpServer.Protect
use synthient_mcp.HttpServer.Concurrency.{inflight_of}
use synthient_mcp.HttpServer.Rate.{Limiter}
use synthient_mcp.HttpServer.Pipeline.{
  Wiring, Incoming, Gate, answered, reached, serve, leave, client_of, direct_view,
}
use synthient_mcp.HttpServer.Pipeline.Entry.{IsServed, serve-IsServed}
use synthient_mcp.HttpServer.Pipeline.Leaks.{serve-answered}
use synthient_mcp.HttpServer.Pipeline.Returns.{leave-serve}
use synthient_mcp.HttpServer.Pipeline.Credentials.{IsEntitled, serve-IsEntitled}

abbrev same : Text → Text
same s = s

abbrev wiring : Wiring
wiring = record {
  protection = record {
    allowed_hosts = codes "localhost" ∷ [];
    oauth = false;
    max_api_key_length = pos 1024;
    forward_client_ip = false;
    trust_proxy_hops = 0;
    trusted_proxy_cidrs = [];
  };
  allowed_origins = [];
  cors_enabled = false;
  max_concurrent_requests = pos 0;
  max_concurrent_per_user = pos 1;
  max_requests_per_minute = pos 120;
}

abbrev incoming : Incoming
incoming = record {
  now = 0;
  options = false;
  tls = false;
  host = codes "localhost:3000";
  origin = [];
  remote_addr = codes "10.1.2.3:5000";
  api_key = codes "key" ∷ [];
  forwarded_for = codes "6.6.6.6" ∷ [];
}

abbrev limiter : Limiter
limiter = record { limit = 120; windows = []; rejected = 0 }

abbrev gate : Gate
gate = record { used = 0; inflight = []; limiter = limiter }

abbrev bearer : Incoming → Result ℕ Text
bearer i = err 401

abbrev parse : Text → Option Url
parse value = none

abbrev url_text : Text → Text → Text
url_text scheme host = scheme ++ codes "://" ++ host

abbrev allow : Incoming → Bool
allow i = true

runs : Unit {0}
unfolding serve starts_with parse_ip text_eq lookup insert inflight_of
runs = tt

abbrev principal : Text
principal = codes "api-key:key"

abbrev after : Gate
after = record {
  used = 1;
  inflight = (principal, 1) ∷ [];
  limiter = record limiter {
    windows = (principal, record { count = 1; reset_at = 60 * 1_000_000_000 }) ∷ [];
  };
}

abbrev seen : Protect.Request
seen = record (direct_view incoming none) { forwarded_for = [] }

arrives : serve same wiring same bearer parse url_text allow gate incoming ≡ (after, reached seen)
unfolding runs
arrives = refl

abbrev second : Incoming
second = record incoming { now = 1 }

abbrev counted : Gate
counted = record after {
  limiter = record limiter {
    windows = (principal, record { count = 2; reset_at = 60 * 1_000_000_000 }) ∷ [];
  };
}

-- A second request of the principal is refused by its share.
refused : serve same wiring same bearer parse url_text allow after second ≡ (counted, answered 429)
unfolding runs
refused = refl

serve-IsServed_example :
    IsServed same wiring same bearer parse url_text allow gate after incoming seen
serve-IsServed_example =
    serve-IsServed same wiring same bearer parse url_text allow gate after incoming seen arrives

serve-answered_example : (counted.used ≡ after.used) × (counted.inflight ≡ after.inflight)
serve-answered_example =
    serve-answered same wiring same bearer parse url_text allow after counted second 429 refused

leave-serve_example :
    (after.used ≡ 1)
    × (inflight_of principal after.inflight ≡ (
        if text_eq principal (Protect.request_principal same seen)
        then suc (inflight_of principal gate.inflight)
        else inflight_of principal gate.inflight))
    × ((leave same wiring after seen).used ≡ gate.used)
    × (inflight_of principal (leave same wiring after seen).inflight
        ≡ inflight_of principal gate.inflight)
leave-serve_example =
    leave-serve same wiring same bearer parse url_text allow gate after incoming seen principal
      arrives

serve-IsEntitled_example :
    IsEntitled wiring
      (codes "server")
      incoming
      (client_of wiring none (codes "server") (codes "1") seen)
serve-IsEntitled_example =
    serve-IsEntitled wiring same same bearer parse url_text allow gate after incoming seen none
      (codes "server") (codes "1") arrives
