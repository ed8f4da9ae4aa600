-- ===== src/Process/Health.antt =====
-- The health check asks the server that the same environment starts.
use synthient_mcp.Prelude.{
  ok, ℕ, [], ◌∷◌, ◌≡◌, ◌↔◌, ◌||◌, Option, none, some, ltb, inl, inr, Bool-cases, arith,
}
use synthient_mcp.Text.{Text, codes}
use synthient_mcp.Text.Decimal.{ℤ, pos, negsuc, atoi}
use synthient_mcp.Net.{Prefix}
use synthient_mcp.Config.Settings.{Settings, settings_from}
use synthient_mcp.Config.Settings.Ranges.{settings_from-port}
use synthient_mcp.Config.{value_or, within, integer, integer_of}
use synthient_mcp.Process.{
  checked_port, port_of, health_port, health_url, healthcheck, checked_status,
}

checked_port-within :
    (name : Text) (parsed : Option ℤ) (n : ℕ)
    → (checked_port parsed ≡ ok n) ↔ (within name 1 65535 parsed ≡ ok n)
checked_port-within name none n = (λ e. absurd (cc), λ e. absurd (cc))
checked_port-within name (some (negsuc k)) n = (λ e. absurd (cc), λ e. absurd (cc))
checked_port-within name (some (pos k)) n = elim (Bool-cases (ltb k 1 || ltb 65535 k)) [
  | inl out ↦ (λ e. absurd (ground arith), λ e. absurd (ground arith))
  | inr fits ↦ (λ e. ground arith, λ e. ground arith)
]

port-integer :
    (name : Text) (set : Option Text) (n : ℕ)
    → (port_of (value_or [] set) ≡ ok n) ↔ (integer_of name 3000 1 65535 set ≡ ok n)
port-integer name none n = (λ e. ground arith, λ e. ground arith)
port-integer name (some []) n = (λ e. ground arith, λ e. ground arith)
port-integer name (some (c ∷ value)) n = checked_port-within name (atoi (c ∷ value)) n

health_port_iff :
    (lookup : Text → Option Text) (n : ℕ)
    → (health_port lookup ≡ ok n) ↔ (integer lookup (codes "PORT") 3000 1 65535 ≡ ok n)
unfolding health_port integer
health_port_iff lookup n = port-integer (codes "PORT") (lookup (codes "PORT")) n

checked_status_iff : (answer : Option ℕ) → (checked_status answer ≡ ok tt) ↔ (answer ≡ some 200)
checked_status_iff none = (λ e. absurd (cc), λ e. absurd (cc))
checked_status_iff (some status) = (λ e. ground arith, λ e. ground arith)

-- Where the configuration of an environment loads, the health check of the same environment succeeds
-- exactly if a GET of /healthz at the port that the server listens on, of 127.0.0.1, is answered 200.
pub healthcheck_iff :
    (unicode_lower : Text → Text) (canonical_origin : Text → Option Text)
    (parse_prefix : Text → Option Prefix) (lookup : Text → Option Text) (l : Settings)
    (fetch : Text → Option ℕ)
    → settings_from unicode_lower canonical_origin parse_prefix lookup ≡ ok l
    → (healthcheck fetch lookup ≡ ok tt) ↔ (fetch (health_url l.port) ≡ some 200)
unfolding healthcheck
healthcheck_iff u canonical_origin parse_prefix lookup l fetch e =
    let port =
      (health_port_iff lookup l.port).1
        (settings_from-port u canonical_origin parse_prefix lookup l e) in
    rw port (checked_status_iff (fetch (health_url l.port)))
