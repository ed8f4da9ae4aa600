-- ===== src/Examples/Requests.antt =====
-- Runs and instances for HttpServer.Protect.
use synthient_mcp.Prelude.{
  ok, err, [], ◌∷◌, ◌*◌, ◌≡◌, ◌≢◌, ◌↔◌, refl, cons-ne-nil, true, false, none,
}
use synthient_mcp.Text.{Text, codes, starts_with}
use synthient_mcp.Text.Decimal.{pos}
use synthient_mcp.Net.Parse.{parse_ip}
use synthient_mcp.Net.Print.{ip_string}
use synthient_mcp.Forwarding
use synthient_mcp.HttpServer.Protect.{
  Config, Request, protect_mcp, key_missing, key_malformed, host_not_allowed, client_unknown,
  request_principal,
}
use synthient_mcp.HttpServer.Protect.Admission.{IsAdmitted, protect_mcp_iff}
use synthient_mcp.HttpServer.Protect.Proxies.{protect_mcp_behind_proxy}
use synthient_mcp.HttpServer.Protect.Principals.{
  Caller, IsFrom, AreAlike, request_principal-AreAlike,
}

abbrev same : Text → Text
same s = s

runs : Unit {0}
unfolding starts_with protect_mcp parse_ip ip_string request_principal
runs = tt

abbrev settings : Config
settings = record {
  allowed_hosts = codes "localhost" ∷ [];
  oauth = false;
  max_api_key_length = pos 8;
  forward_client_ip = false;
  trust_proxy_hops = 0;
  trusted_proxy_cidrs = [];
}

abbrev request : Request
request = record {
  host = codes "LOCALHOST:3000";
  remote_addr = codes "10.1.2.3:5000";
  api_key = codes "key" ∷ [];
  forwarded_for = codes "6.6.6.6" ∷ [];
  user_id = none;
}

abbrev passed_on : Request
passed_on = record request { forwarded_for = [] }

passes : protect_mcp same settings request ≡ ok passed_on
unfolding runs
passes = refl

refused :
    (protect_mcp same settings (record request { api_key = codes "a,b" ∷ [] }) ≡ err key_malformed)
    × (protect_mcp same settings (record request { api_key = codes " " ∷ [] }) ≡ err key_missing)
    × (protect_mcp same settings (record request { host = codes "evil" }) ≡ err host_not_allowed)
unfolding runs
refused = (refl, refl, refl)

protect_mcp_iff_example :
    (protect_mcp same settings request ≡ ok passed_on) ↔ IsAdmitted same settings request passed_on
protect_mcp_iff_example = protect_mcp_iff same settings request passed_on

-- Settings like those that the README gives for a reverse proxy.
abbrev behind_proxy : Config
behind_proxy = record settings {
  forward_client_ip = true;
  trust_proxy_hops = 1;
  trusted_proxy_cidrs =
      record { base = record { is4 = true; value = 10 * 0x100_0000; zone = [] }; bits = 8 } ∷ [];
}

proxied_fails :
    protect_mcp same behind_proxy request ≡ err (client_unknown Forwarding.chain_too_short)
unfolding runs
proxied_fails = refl

protect_mcp_behind_proxy_example : ¬ (protect_mcp same behind_proxy request ≡ ok passed_on)
protect_mcp_behind_proxy_example =
    protect_mcp_behind_proxy same behind_proxy request passed_on refl 0 refl

request_principal_key : request_principal same request ≡ codes "api-key:key"
unfolding runs
request_principal_key = refl

principal-ne-nil : request_principal same request ≢ []
unfolding runs
principal-ne-nil = cons-ne-nil _ _

request_principal-AreAlike_example :
    (c : Caller) × (d : Caller) × IsFrom request c × IsFrom request d × AreAlike same c d
request_principal-AreAlike_example =
    request_principal-AreAlike same request request refl principal-ne-nil
