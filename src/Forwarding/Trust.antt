-- ===== src/Forwarding/Trust.antt =====
-- What CanonicalClientIP guarantees of the address that it returns.
use synthient_mcp.Prelude.{
  Result, ok, bind_steps, ℕ, zero, suc, ◌-◌, ◌≤◌, List, [], ◌∷◌, ◌++◌, ◌≡◌, refl, sym, ◌∙◌, true,
  ltb, length, length-drop, drop, take, arith, append_assoc, All, Bool-cases, inl, inr,
}
use synthient_mcp.Text.{Text}
use synthient_mcp.Net.{Prefix}
use synthient_mcp.Forwarding.{
  Error, remote_ip, trusted_address, trust_peer, collect_values, collect_lines, choose,
  first_behind, check_proxies, canonical_client_ip,
}
use synthient_mcp.Forwarding.Chain.{
  header_values, collect_lines-values, collect_values_front, choose-append,
}

trust_peer_ok :
    (prefixes : List Prefix) (peer : Text) (u : Unit {0})
    → trust_peer prefixes peer ≡ ok u
    → trusted_address peer prefixes ≡ true
trust_peer_ok prefixes peer u e = ground arith

check_proxies_sound :
    (prefixes : List Prefix) (proxies : List Text) (u : Unit {0})
    → check_proxies prefixes proxies ≡ ok u
    → All (λ proxy. trusted_address proxy prefixes ≡ true) proxies
unfolding check_proxies
check_proxies_sound prefixes [] u e = tt
check_proxies_sound prefixes (p ∷ ps) u e = elim (Bool-cases (trusted_address p prefixes)) [
  | inl trusted ↦ (trusted, check_proxies_sound prefixes ps u (ground arith))
  | inr other ↦ absurd (ground arith)
]

-- The address stands in the chain, exactly `hops` places from its right end, and every place
-- behind it is a trusted proxy.
pub record IsBehindTrusted (hops : ℕ) (prefixes : List Prefix) (chain : List Text) (ip : Text)
    : Type 0 where
  pub front : List Text
  pub proxies : List Text
  pub placed : chain ≡ front ++ ip ∷ proxies
  pub counted : length proxies ≡ hops
  pub trusted : All (λ proxy. trusted_address proxy prefixes ≡ true) proxies

take-append-drop : (n : ℕ) (xs : List Text) → take n xs ++ drop n xs ≡ xs
take-append-drop zero xs = refl
take-append-drop (suc n) [] = refl
take-append-drop (suc n) (x ∷ xs) = rw (take-append-drop n xs)

first_behind_ok :
    (hops : ℕ) (prefixes : List Prefix) (front chain : List Text) (ip : Text)
    → length chain ≡ suc hops
    → first_behind prefixes chain ≡ ok ip
    → IsBehindTrusted hops prefixes (front ++ chain) ip
first_behind_ok hops prefixes front [] ip n e = absurd (omega arith)
first_behind_ok hops prefixes front (client ∷ proxies) ip n e =
    let (u, checked, last) = bind_steps (check_proxies prefixes proxies) _ e in
    record {
      front = front;
      proxies = proxies;
      placed = ground arith;
      counted = omega arith;
      trusted = check_proxies_sound prefixes proxies u checked;
    }

choose_sound :
    (hops : ℕ) (prefixes : List Prefix) (chain : List Text) (ip : Text)
    → choose hops prefixes chain ≡ ok ip
    → (suc hops ≤ length chain) × IsBehindTrusted hops prefixes chain ip
unfolding choose
choose_sound hops prefixes chain ip e = elim (Bool-cases (ltb (length chain) (suc hops))) [
  | inl short ↦ absurd (ground arith)
  | inr enough ↦
      let long : suc hops ≤ length chain = ground arith in
      let at_end = length-drop (length chain - suc hops) chain in
      (
        long,
        rw (take-append-drop (length chain - suc hops) chain) at (
            first_behind_ok hops prefixes (take (length chain - suc hops) chain)
              (drop (length chain - suc hops) chain) ip (omega (arith, at_end)) (rw enough at e)),
      )
]

-- The parts of a run that succeeded behind at least one proxy.
record Parts (address : Text) (lines : List Text) (hops : ℕ) (prefixes : List Prefix) (ip : Text)
    : Type 0 where
  peer : Text
  chain : List Text
  remote : remote_ip address ≡ ok peer
  direct : trusted_address peer prefixes ≡ true
  collected : collect_lines [] lines ≡ ok chain
  chosen : choose (suc hops) prefixes (chain ++ peer ∷ []) ≡ ok ip

parts :
    (address : Text) (lines : List Text) (hops : ℕ) (prefixes : List Prefix) (ip : Text)
    → canonical_client_ip address lines (suc hops) prefixes ≡ ok ip
    → Parts address lines hops prefixes ip
unfolding canonical_client_ip
parts address lines hops prefixes ip e =
    let (peer, remote, e1) = bind_steps (remote_ip address) _ e in
    let (u, direct, e2) = bind_steps (trust_peer prefixes peer) _ e1 in
    let (chain, collected, chosen) = bind_steps (collect_lines [] lines) _ e2 in
    record {
      peer = peer;
      chain = chain;
      remote = remote;
      direct = trust_peer_ok prefixes peer u direct;
      collected = collected;
      chosen = chosen;
    }

pub record IsVouched (address : Text) (lines : List Text) (hops : ℕ) (prefixes : List Prefix)
    (ip : Text) : Type 0 where
  pub peer : Text
  pub chain : List Text
  pub remote : remote_ip address ≡ ok peer
  pub direct : trusted_address peer prefixes ≡ true
  pub collected : collect_lines [] lines ≡ ok chain
  pub behind : IsBehindTrusted hops prefixes (chain ++ peer ∷ []) ip

-- Behind `hops` proxies, an address that is returned stands `hops` places left of the end of the
-- forwarded chain with the peer's own address; the peer and every address in between are trusted.
pub canonical_client_ip-IsVouched :
    (address : Text) (lines : List Text) (hops : ℕ) (prefixes : List Prefix) (ip : Text)
    → canonical_client_ip address lines (suc hops) prefixes ≡ ok ip
    → IsVouched address lines (suc hops) prefixes ip
canonical_client_ip-IsVouched address lines hops prefixes ip e =
    let p = parts address lines hops prefixes ip e in
    record {
      peer = p.peer;
      chain = p.chain;
      remote = p.remote;
      direct = p.direct;
      collected = p.collected;
      behind = (choose_sound (suc hops) prefixes (p.chain ++ p.peer ∷ []) ip p.chosen).1;
    }

same_ok : {A : Type 0} (r : Result Error A) {a b : A} → r ≡ ok a → r ≡ ok b → a ≡ b
same_ok r p q = ground arith

-- Values that a caller forges in front of those that the proxies appended, in lines of their own or
-- in the same line, may make the request fail, but never change the address that is returned.
pub canonical_client_ip_forged :
    (address : Text) (lines lines' forged : List Text) (hops : ℕ) (prefixes : List Prefix)
    (ip ip' : Text)
    → header_values lines' ≡ forged ++ header_values lines
    → canonical_client_ip address lines hops prefixes ≡ ok ip
    → canonical_client_ip address lines' hops prefixes ≡ ok ip'
    → ip' ≡ ip
canonical_client_ip_forged address lines lines' forged zero prefixes ip ip' same e e' =
    unfold canonical_client_ip in same_ok (remote_ip address) e' e
canonical_client_ip_forged address lines lines' forged (suc hops) prefixes ip ip' same e e' =
    let p = parts address lines hops prefixes ip e in
    let p' = parts address lines' hops prefixes ip' e' in
    let peers = same_ok (remote_ip address) p'.remote p.remote in
    let (front, rest, kept, longer) =
      collect_values_front forged (header_values lines) p'.chain
        (rw (collect_lines-values lines' [], same) at p'.collected) in
    let chains =
      same_ok (collect_values [] (header_values lines)) kept
        (rw (collect_lines-values lines []) at p.collected) in
    let enough = (choose_sound (suc hops) prefixes (p.chain ++ p.peer ∷ []) ip p.chosen).0 in
    let shape : p'.chain ++ p'.peer ∷ [] ≡ front ++ (p.chain ++ p.peer ∷ []) =
      rw (longer, chains, peers) (append_assoc front p.chain (p.peer ∷ [])) in
    same_ok (choose (suc hops) prefixes (p.chain ++ p.peer ∷ []))
      (sym (choose-append (suc hops) prefixes front (p.chain ++ p.peer ∷ []) enough)
        ∙ (rw shape at p'.chosen))
      p.chosen
