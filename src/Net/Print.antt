-- ===== src/Net/Print.antt =====
-- `netip.Addr.String` and `net.IP.String`.
pub mod Charset
pub mod Named
use synthient_mcp.Prelude.{
  ℕ, zero, suc, ◌+◌, ◌*◌, ◌/◌, ◌%◌, ◌^◌, List, [], ◌∷◌, ◌++◌, true, false, ◌==◌, leb, ltb,
  if◌then◌else◌, ◌≡◌, refl, drop, take,
}
use synthient_mcp.Text.{Text, codes}
use synthient_mcp.Text.Decimal.{itoa}
use synthient_mcp.Net.{Addr, unmap}

unfoldable string4 : ℕ → Text
unfolding itoa
string4 v =
    itoa (v / 2 ^ 24 % 256)
    ++ b'.' ∷ (itoa (v / 2 ^ 16 % 256) ++ b'.' ∷ (itoa (v / 2 ^ 8 % 256) ++ b'.' ∷ itoa (v % 256)))

abbrev hex : ℕ → ℕ
hex d = if ltb d 10 then b'0' + d else 87 + d

-- A group in lower-case hexadecimal, with no leading zero.
string_group : ℕ → Text
string_group g =
    if leb 0x1000 g
    then hex (g / 0x1000 % 16) ∷ hex (g / 0x100 % 16) ∷ hex (g / 0x10 % 16) ∷ hex (g % 16) ∷ []
    else if leb 0x100 g
    then hex (g / 0x100 % 16) ∷ hex (g / 0x10 % 16) ∷ hex (g % 16) ∷ []
    else if leb 0x10 g
    then hex (g / 0x10 % 16) ∷ hex (g % 16) ∷ []
    else hex (g % 16) ∷ []

-- The `n` last groups of the address.
groups_from : ℕ → ℕ → List ℕ
groups_from zero v = []
groups_from (suc n) v = v / 2 ^ (16 * n) % 65536 ∷ groups_from n v

-- The zeros at the front of the groups.
zero_run : List ℕ → ℕ
zero_run [] = 0
zero_run (g ∷ gs) = let more = suc (zero_run gs) in if g == 0 then more else 0

-- The longest run of at least two zeros, the first of equal ones: its place and its length.
record Run : Type 0 where
  place : ℕ
  size : ℕ

best_run : ℕ → Run → List ℕ → Run
unfolding zero_run
best_run at best [] = best
best_run at best (g ∷ gs) =
    best_run (suc at)
      (if ltb (if best.size == 0 then 1 else best.size) (zero_run (g ∷ gs))
        then record { place = at; size = zero_run (g ∷ gs) }
        else best)
      gs

-- The groups with colons between them.
join_groups : List ℕ → Text
unfolding string_group
join_groups [] = []
join_groups (g ∷ []) = string_group g
join_groups (g ∷ h ∷ gs) = string_group g ++ b':' ∷ join_groups (h ∷ gs)

unfoldable string6 : ℕ → Text
unfolding groups_from best_run join_groups
string6 v =
    let gs = groups_from 8 v in
    let run = best_run 0 (record { place = 8; size = 0 }) gs in
    if run.size == 0
    then join_groups gs
    else join_groups (take run.place gs)
      ++ b':' ∷ b':' ∷ join_groups (drop (run.place + run.size) gs)

abbrev with_zone : Text → Text → Text
with_zone s [] = s
with_zone s (c ∷ z) = s ++ b'%' ∷ c ∷ z

-- `Addr.String`; an IPv4-mapped address shows its IPv4 part in dotted form.
unfoldable pub addr_string : Addr → Text
unfolding string4 string6
addr_string a =
    if a.is4
    then string4 a.value
    else if a.value / 2 ^ 32 == 0xffff
    then with_zone (codes "::ffff:" ++ string4 (a.value % 2 ^ 32)) a.zone
    else with_zone (string6 a.value) a.zone

-- `net.IP.String`: an address that has a 4-byte form is printed in it.
unfoldable pub ip_string : Addr → Text
unfolding addr_string unmap
ip_string a = addr_string (unmap a)

abbrev v6 : ℕ → Addr
v6 v = record { is4 = false; value = v; zone = [] }

string_tests :
    (ip_string (record { is4 = true; value = 134744072; zone = [] }) ≡ codes "8.8.8.8")
    × (ip_string (v6 (0xffff * 2 ^ 32 + 134744072)) ≡ codes "8.8.8.8")
    × (ip_string (v6 (0x20010db8 * 2 ^ 96 + 1)) ≡ codes "2001:db8::1")
    × (ip_string (v6 0) ≡ codes "::")
    × (ip_string (v6 (2 ^ 112)) ≡ codes "1::")
    × (ip_string (v6 0x0001_0000_0002_0003_0004_0005_0006_0007) ≡ codes "1:0:2:3:4:5:6:7")
    × (ip_string (v6 0x0001_0000_0000_0003_0000_0000_0000_00ab) ≡ codes "1:0:0:3::ab")
unfolding ip_string
string_tests = (refl, refl, refl, refl, refl, refl, refl)
