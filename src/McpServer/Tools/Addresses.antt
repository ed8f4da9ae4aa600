-- ===== src/McpServer/Tools/Addresses.antt =====
-- The addresses that normalizeIP and its loops let through.
use synthient_mcp.Prelude.{
  Result, ok, err, bind_steps, guard_passed, ℕ, suc, ◌≤◌, ◌/◌, ◌^◌, ◌==◌, List, [], ◌∷◌, ◌≡◌, refl,
  ap, Bool, false, not, ◌&&◌, ◌||◌, Option, none, some, ltb, length, All, arith, inl, inr,
  Bool-cases,
}
use synthient_mcp.Text.{Text, trim_space}
use synthient_mcp.Net.{Addr, unmap, has_zone}
use synthient_mcp.Net.Parse.{parse_addr}
use synthient_mcp.Net.Print.{addr_string}
use synthient_mcp.Net.Print.Charset.{IsAddressByte, addr_string-address}
use synthient_mcp.McpServer.Tools.{
  Error, ip_text, normalize_ip, at_index, normalize_ips, checked_ips,
}

-- An address as it is printed: without a zone, in the IPv4 form where it has one.
pub record IsAddress (ip : Text) : Type 0 where
  pub address : Addr
  pub plain : address.zone ≡ []
  pub printed : ip ≡ addr_string address
  pub bytes : All IsAddressByte ip

no_zone :
    (is4 : Bool) (v : ℕ) (z : Text)
    → has_zone (record { is4 = is4; value = v; zone = z }) ≡ false
    → z ≡ []
no_zone is4 v [] h = refl
no_zone is4 v (c ∷ z) h = absurd (cc)

unmap-plain : (a : Addr) → has_zone a ≡ false → (unmap a).zone ≡ []
unfolding unmap
unmap-plain a h = elim (Bool-cases (not a.is4 && a.value / 2 ^ 32 == 0xffff)) [
  | inl mapped ↦ rw mapped refl
  | inr other ↦ rw other (no_zone a.is4 a.value a.zone h)
]

ip_text-IsAddress : (o : Option Addr) (ip : Text) → ip_text o ≡ ok ip → IsAddress ip
ip_text-IsAddress none ip e = absurd (cc)
ip_text-IsAddress (some a) ip e = elim (Bool-cases (has_zone a)) [
  | inl zoned ↦ absurd (ground arith)
  | inr plain ↦
      let printed : addr_string (unmap a) ≡ ip = ground arith in
      rw (← printed) (record {
        address = unmap a;
        plain = unmap-plain a plain;
        printed = refl;
        bytes = addr_string-address (unmap a) (unmap-plain a plain);
      })
]

pub normalize_ip-IsAddress : (value ip : Text) → normalize_ip value ≡ ok ip → IsAddress ip
unfolding normalize_ip
normalize_ip-IsAddress value ip e = ip_text-IsAddress (parse_addr (trim_space value)) ip e

at_index-ok : (i : ℕ) (r : Result Error Text) (ip : Text) → at_index i r ≡ ok ip → r ≡ ok ip
at_index-ok i (ok ip') ip e = e
at_index-ok i (err e') ip e = absurd (cc)

normalize_ips-IsAddress :
    (i : ℕ) (items ips : List Text)
    → normalize_ips i items ≡ ok ips
    → (length ips ≡ length items) × All IsAddress ips
unfolding normalize_ips
normalize_ips-IsAddress i [] ips e = let same : ips ≡ [] = ground arith in rw same (refl, tt)
normalize_ips-IsAddress i (item ∷ items) ips e =
    let (ip, first, e1) = bind_steps (at_index i (normalize_ip item)) _ e in
    let (rest, others, e2) = bind_steps (normalize_ips (suc i) items) _ e1 in
    let (same, safe) = normalize_ips-IsAddress (suc i) items rest others in
    let whole : ips ≡ ip ∷ rest = ground arith in
    rw whole (ap suc same, (normalize_ip-IsAddress item ip (at_index-ok i _ ip first), safe))

pub checked_ips-IsAddress :
    (items ips : List Text)
    → checked_ips items ≡ ok ips
    → ((1 ≤ length ips) × (length ips ≤ 1000)) × All IsAddress ips
unfolding checked_ips
checked_ips-IsAddress items ips e =
    let (sized, e1) = guard_passed (ltb (length items) 1 || ltb 1000 (length items)) _ _ e in
    let (same, safe) = normalize_ips-IsAddress 0 items ips e1 in
    ((ground arith, ground arith), safe)
