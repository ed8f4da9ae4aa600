-- ===== src/Examples/Forwarding.antt =====
-- Runs and instances for Forwarding.
use synthient_mcp.Prelude.{List, [], ◌∷◌, ◌++◌, ◌*◌, ◌≡◌, refl, true, ok, err}
use synthient_mcp.Text.{Text, codes, split}
use synthient_mcp.Net.{Prefix}
use synthient_mcp.Net.Parse.{parse_ip}
use synthient_mcp.Net.Print.{ip_string}
use synthient_mcp.Forwarding.{canonical_client_ip, peer_not_trusted, chain_too_short}
use synthient_mcp.Forwarding.Chain.{header_values}
use synthient_mcp.Forwarding.Trust.{canonical_client_ip_forged}

runs : Unit {0}
unfolding canonical_client_ip parse_ip ip_string
runs = tt

-- 10.0.0.0/8
abbrev private_net : List Prefix
private_net =
    record { base = record { is4 = true; value = 10 * 0x100_0000; zone = [] }; bits = 8 } ∷ []

abbrev honest : List Text
honest = codes "203.0.113.7" ∷ []

abbrev forged : List Text
forged = codes "6.6.6.6,203.0.113.7" ∷ []

honest_ip :
    canonical_client_ip (codes "10.1.2.3:5000") honest 1 private_net ≡ ok (codes "203.0.113.7")
unfolding runs
honest_ip = refl

forged_ip :
    canonical_client_ip (codes "10.1.2.3:5000") forged 1 private_net ≡ ok (codes "203.0.113.7")
unfolding runs
forged_ip = refl

refusals :
    (canonical_client_ip (codes "11.1.2.3:5000") honest 1 private_net ≡ err peer_not_trusted)
    × (canonical_client_ip (codes "10.1.2.3:5000") [] 1 private_net ≡ err chain_too_short)
unfolding runs
refusals = (refl, refl)

forged_values : header_values forged ≡ (codes "6.6.6.6" ∷ []) ++ header_values honest
unfolding header_values split
forged_values = refl

canonical_client_ip_forged_example : codes "203.0.113.7" ≡ codes "203.0.113.7"
canonical_client_ip_forged_example =
    canonical_client_ip_forged (codes "10.1.2.3:5000") honest forged (codes "6.6.6.6" ∷ []) 1
      private_net _ _ forged_values honest_ip forged_ip
