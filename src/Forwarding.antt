-- ===== src/Forwarding.antt =====
-- The package go/internal/forwarding: the address of the caller behind trusted proxies.
pub mod Chain
pub mod Trust
use synthient_mcp.Prelude.{
  Result, ok, err, ◌>>=◌, ℕ, zero, suc, ◌+◌, ◌-◌, List, [], ◌∷◌, ◌++◌, Bool, true, false, not,
  Option, none, some, ltb, any, drop, length, if◌then◌else◌,
}
use synthient_mcp.Text.{Text, codes, trim_space, trim_set, split}
use synthient_mcp.Net.{HostPort, split_host_port, Addr, unmap, Prefix, prefix_contains}
use synthient_mcp.Net.Parse.{parse_addr, parse_ip}
use synthient_mcp.Net.Print.{ip_string}

abbrev pub max_forwarded_addresses : ℕ
max_forwarded_addresses = 64

pub data Error : Type 0 where
  invalid_remote_address : Error
  not_an_ip : Text → Error
  peer_not_trusted : Error
  invalid_forwarded : Error → Error
  too_many_addresses : Error
  chain_too_short : Error
  proxy_not_trusted : Text → Error

abbrev pub host_or : Text → Option HostPort → Text
host_or value none = value
host_or value (some hp) = hp.host

abbrev pub ip_result : Text → Option Addr → Result Error Text
ip_result value none = err (not_an_ip value)
ip_result value (some a) = ok (ip_string a)

-- canonicalIP: the value without blanks, and without a port where it has one.
unfoldable pub canonical_ip : Text → Result Error Text
unfolding trim_space trim_set split_host_port
canonical_ip text =
    let value = host_or (trim_space text) (split_host_port (trim_space text)) in
    ip_result value (parse_ip (trim_set (codes "[]") value))

abbrev pub remote_host : Option HostPort → Result Error Text
remote_host none = err invalid_remote_address
remote_host (some hp) = canonical_ip hp.host

-- remoteIP.
unfoldable pub remote_ip : Text → Result Error Text
unfolding split_host_port canonical_ip
remote_ip address = remote_host (split_host_port address)

-- trustedAddress.
abbrev pub in_prefixes : List Prefix → Option Addr → Bool
in_prefixes prefixes none = false
in_prefixes prefixes (some a) = any (λ p. prefix_contains p (unmap a)) prefixes

unfoldable pub trusted_address : Text → List Prefix → Bool
unfolding parse_addr unmap prefix_contains
trusted_address value prefixes = in_prefixes prefixes (parse_addr value)

abbrev pub forwarded_error {ℓ} : {A : Type ℓ} → Result Error A → Result Error A
forwarded_error (ok a) = ok a
forwarded_error (err e) = err (invalid_forwarded e)

abbrev pub bounded : List Text → Result Error (List Text)
bounded chain =
    if ltb max_forwarded_addresses (length chain) then err too_many_addresses else ok chain

-- The inner loop of CanonicalClientIP, over the values of one header line.
unfoldable pub collect_values : List Text → List Text → Result Error (List Text)
unfolding canonical_ip
collect_values chain [] = ok chain
collect_values chain (value ∷ values) = do
  ip ← forwarded_error (canonical_ip value)
  longer ← bounded (chain ++ ip ∷ [])
  collect_values longer values

-- The outer loop, over the lines of the header.
unfoldable pub collect_lines : List Text → List Text → Result Error (List Text)
unfolding collect_values split
collect_lines chain [] = ok chain
collect_lines chain (line ∷ lines) = do
  longer ← collect_values chain (split b',' line)
  collect_lines longer lines

-- The loop over the proxies behind the client.
unfoldable pub check_proxies : List Prefix → List Text → Result Error (Unit {0})
unfolding trusted_address
check_proxies prefixes [] = ok tt
check_proxies prefixes (proxy ∷ proxies) =
    let rest = check_proxies prefixes proxies in
    if trusted_address proxy prefixes then rest else err (proxy_not_trusted proxy)

-- The choice of the address at the place `len(chain) - 1 - hops`.
abbrev pub first_behind : List Prefix → List Text → Result Error Text
first_behind prefixes [] = err chain_too_short
first_behind prefixes (client ∷ proxies) = do _ ← check_proxies prefixes proxies; ok client

unfoldable pub choose : ℕ → List Prefix → List Text → Result Error Text
unfolding check_proxies
choose hops prefixes chain =
    if ltb (length chain) (suc hops)
    then err chain_too_short
    else first_behind prefixes (drop (length chain - suc hops) chain)

abbrev pub trust_peer : List Prefix → Text → Result Error (Unit {0})
trust_peer prefixes peer = if trusted_address peer prefixes then ok tt else err peer_not_trusted

-- CanonicalClientIP, for the peer's address and the lines of X-Forwarded-For.
unfoldable pub canonical_client_ip : Text → List Text → ℕ → List Prefix → Result Error Text
unfolding remote_ip collect_lines choose
canonical_client_ip address lines zero prefixes = remote_ip address
canonical_client_ip address lines (suc hops) prefixes = do
  peer ← remote_ip address
  _ ← trust_peer prefixes peer
  chain ← collect_lines [] lines
  choose (suc hops) prefixes (chain ++ peer ∷ [])
