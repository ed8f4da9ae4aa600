-- ===== src/HttpServer/Protect/Proxies.antt =====
-- protectMCP behind trusted proxies: it deletes the header from which CanonicalClientIP reads.
use synthient_mcp.Prelude.{
  ok, ℕ, suc, List, [], ◌∷◌, ◌++◌, ◌≡◌, ap, true, length, length-append, arith,
}
use synthient_mcp.Text.{Text}
use synthient_mcp.Net.{Prefix}
use synthient_mcp.Forwarding.{canonical_client_ip, collect_lines}
use synthient_mcp.Forwarding.Trust.{canonical_client_ip-IsVouched}
use synthient_mcp.HttpServer.Protect.{Config, Request, protect_mcp}
use synthient_mcp.HttpServer.Protect.Admission.{IsClient, hidden, shown, protect_mcp_iff}

-- Without the header, no address is found behind one proxy or more.
canonical_client_ip_bare :
    (address : Text) (hops : ℕ) (prefixes : List Prefix) (ip : Text)
    → ¬ (canonical_client_ip address [] (suc hops) prefixes ≡ ok ip)
unfolding collect_lines
canonical_client_ip_bare address hops prefixes ip e =
    let v = canonical_client_ip-IsVouched address [] hops prefixes ip e in
    let empty : v.chain ≡ [] = ground (arith, v.collected) in
    let placed : v.peer ∷ [] ≡ v.behind.front ++ ip ∷ v.behind.proxies =
      rw empty at v.behind.placed in
    omega (
      arith,
      ap length placed,
      length-append v.behind.front (ip ∷ v.behind.proxies),
      v.behind.counted,
    )

client_found :
    (cfg : Config) (r : Request) (forwarded : List Text)
    → cfg.forward_client_ip ≡ true
    → IsClient cfg r forwarded
    → (ip : Text) × (canonical_client_ip r.remote_addr [] cfg.trust_proxy_hops
          cfg.trusted_proxy_cidrs
        ≡ ok ip)
client_found cfg r _ on (hidden off) = absurd (ground arith)
client_found cfg r _ on (shown ip _ found) = (ip, found)

-- With client addresses forwarded and at least one trusted proxy configured, no request at all is
-- let through: the header is deleted before the chain is read from it, so the chain is too short.
pub protect_mcp_behind_proxy :
    (unicode_lower : Text → Text) (cfg : Config) (r next : Request)
    → cfg.forward_client_ip ≡ true
    → (hops : ℕ) → cfg.trust_proxy_hops ≡ suc hops
    → ¬ (protect_mcp unicode_lower cfg r ≡ ok next)
protect_mcp_behind_proxy u cfg r next on hops behind e =
    let a = (protect_mcp_iff u cfg r next).0 e in
    let (ip, found) = client_found cfg r a.forwarded on a.client in
    canonical_client_ip_bare r.remote_addr hops cfg.trusted_proxy_cidrs ip (rw behind at found)
