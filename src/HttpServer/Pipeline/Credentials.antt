-- ===== src/HttpServer/Pipeline/Credentials.antt =====
-- Whose key and whose address go upstream.
use synthient_mcp.Prelude.{
  Result, ok, ℕ, List, [], ◌∷◌, ◌≡◌, refl, sym, ◌∙◌, ap, Bool, true, false, Option, if◌then◌else◌,
  arith,
}
use synthient_mcp.Text.{Text}
use synthient_mcp.Net.Url.{Url}
use synthient_mcp.Forwarding.{canonical_client_ip}
use synthient_mcp.HttpServer.Protect
use synthient_mcp.HttpServer.Protect.{first_value}
use synthient_mcp.HttpServer.Protect.Admission.{IsAdmitted, IsClient, hidden, shown}
use synthient_mcp.HttpServer.Pipeline.{
  Wiring, Incoming, Gate, direct_view, reached, serve, client_of,
}
use synthient_mcp.HttpServer.Pipeline.Entry.{serve-IsServed}
use synthient_mcp.Synthient.Request.{Client}

-- The key is the server's in the mode of OAuth, and else the one key of the caller; the address is
-- that of the caller's connection, or none.
pub record IsEntitled (wiring : Wiring) (server_key : Text) (i : Incoming) (client : Client)
    : Type 0 where
  pub server : wiring.protection.oauth ≡ true → client.api_key ≡ server_key
  pub caller : wiring.protection.oauth ≡ false → i.api_key ≡ client.api_key ∷ []
  pub unnamed : wiring.protection.forward_client_ip ≡ false → client.forwarded_for ≡ []
  pub named :
      wiring.protection.forward_client_ip ≡ true
      → canonical_client_ip i.remote_addr [] wiring.protection.trust_proxy_hops
          wiring.protection.trusted_proxy_cidrs
        ≡ ok client.forwarded_for

client_values :
    (cfg : Protect.Config) (q : Protect.Request) (values : List Text)
    → IsClient cfg q values
    → (cfg.forward_client_ip ≡ false → first_value values ≡ [])
      × (cfg.forward_client_ip ≡ true
          → canonical_client_ip q.remote_addr [] cfg.trust_proxy_hops cfg.trusted_proxy_cidrs
            ≡ ok (first_value values))
client_values cfg q _ (hidden off) = (λ _. refl, λ on. absurd (ground arith))
client_values cfg q _ (shown ip on found) = (λ off. absurd (ground arith), λ _. found)

module _ (wiring : Wiring) (unicode_lower : Text → Text) where
  admitted-IsEntitled :
      (base_url : Option Url) (server_key version : Text) (i : Incoming) (user : Option Text)
      (r : Protect.Request)
      → IsAdmitted unicode_lower wiring.protection (direct_view i user) r
      → IsEntitled wiring server_key i (client_of wiring base_url server_key version r)
  unfolding client_of
  admitted-IsEntitled base_url server_key version i user r h =
      let forwarded : r.forwarded_for ≡ h.forwarded = ap (λ q. q.forwarded_for) h.same in
      let keys : r.api_key ≡ (if wiring.protection.oauth then [] else i.api_key) =
        ap (λ q. q.api_key) h.same in
      let (unnamed, named) =
        client_values wiring.protection (direct_view i user) h.forwarded h.client in
      record {
        server = λ on. rw on refl;
        caller = λ off.
            let key = h.keyed off in
            let sent : first_value r.api_key ≡ key.key =
              ap first_value keys ∙ rw off (ap first_value key.only) in
            rw off (key.only ∙ ap (λ k. k ∷ []) (sym sent));
        unnamed = λ off. ap first_value forwarded ∙ unnamed off;
        named = λ on. named on ∙ ap (λ values. ok (first_value values)) (sym forwarded);
      }

  module _ (digest : Text → Text) (bearer : Incoming → Result ℕ Text)
      (parse_request_uri : Text → Option Url) (url_text : Text → Text → Text)
      (cross_origin : Incoming → Bool) where
    -- Whatever request reaches the MCP handler, the client made for it uses the key of the server in
    -- the mode of OAuth, and else the one key that the caller sent; it names no address of the caller,
    -- or the one found for the caller's connection, where that is asked for. No other header has a
    -- part in it.
    pub serve-IsEntitled :
        (g g' : Gate) (i : Incoming) (r : Protect.Request) (base_url : Option Url)
        (server_key version : Text)
        → serve digest wiring unicode_lower bearer parse_request_uri url_text cross_origin g i
          ≡ (g', reached r)
        → IsEntitled wiring server_key i (client_of wiring base_url server_key version r)
    serve-IsEntitled g g' i r base_url server_key version e =
        let served =
          serve-IsServed digest wiring unicode_lower bearer parse_request_uri url_text cross_origin
            g g' i r e in
        admitted-IsEntitled base_url server_key version i served.user r served.protection.admitted
