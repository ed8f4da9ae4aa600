-- ===== src/Net/Parse.antt =====
-- `netip.ParseAddr` and `net.ParseIP`.
use synthient_mcp.Prelude.{
  ℕ, zero, suc, ◌+◌, ◌-◌, ◌*◌, ◌/◌, ◌%◌, ◌^◌, List, [], ◌∷◌, ◌++◌, Bool, true, false, not, ◌&&◌,
  ◌||◌, Option, none, some, ◌==◌, leb, ltb, if◌then◌else◌, length, drop, ◌≡◌, refl, take,
}
use synthient_mcp.Text.{Text, codes, cut, split}
use synthient_mcp.Text.Decimal.{is_digit, scan}
use synthient_mcp.Net.{Addr, has_zone}

infixl 5 ◌>>=◌
abbrev ◌>>=◌ {ℓ κ} : {A : Type ℓ} {B : Type κ} → Option A → (A → Option B) → Option B
none >>= f = none
some a >>= f = f a

abbrev guard : Bool → Option (Unit {0})
guard true = some tt
guard false = none

infixl 5 ◌>>◌
abbrev ◌>>◌ {ℓ} : {B : Type ℓ} → Option (Unit {0}) → Option B → Option B
m >> k = m >>= λ _. k

-- A decimal field of parseIPv4Fields: digits with no leading zero, at most 255.
unfoldable octet : Text → Option ℕ
unfolding scan
octet [] = none
octet (c ∷ []) = scan 0 (c ∷ [])
octet (c ∷ d ∷ s) = do guard (not (c == b'0')); n ← scan 0 (c ∷ d ∷ s); guard (leb n 255); some n

-- Exactly four fields between dots.
unfoldable four_octets : List Text → Option ℕ
unfolding octet
four_octets (a ∷ b ∷ c ∷ d ∷ []) = do
  w ← octet a
  x ← octet b
  y ← octet c
  z ← octet d
  some (((w * 256 + x) * 256 + y) * 256 + z)
four_octets _ = none

unfoldable pub parse_ipv4_value : Text → Option ℕ
unfolding four_octets split
parse_ipv4_value s = four_octets (split b'.' s)

abbrev hex_digit : ℕ → Option ℕ
hex_digit c =
    if is_digit c
    then some (c - b'0')
    else if leb b'a' c && leb c b'f'
    then some (c - 87)
    else if leb b'A' c && leb c b'F'
    then some (c - 55)
    else none

-- The hexadecimal digits at the front of a text: their number, their value and what follows.
record Group : Type 0 where
  width : ℕ
  acc : ℕ
  rest : Text

unfoldable read_group : ℕ → ℕ → Text → Group
read_group width acc [] = record { width = width; acc = acc; rest = [] }
read_group width acc (c ∷ s) = elim (hex_digit c) [
  | none ↦ record { width = width; acc = acc; rest = c ∷ s }
  | some d ↦ read_group (suc width) (acc * 16 + d) s
]

-- The 16-bit groups read so far, first to last, and the number of them in front of the ellipsis.
record Groups : Type 0 where
  groups : List ℕ
  ellipsis : Option ℕ

abbrev is_none : Option ℕ → Bool
is_none none = true
is_none (some _) = false

-- What stands behind a group: the end, or a colon and more; a second colon is the ellipsis. The
-- result says whether the loop goes on.
record Next : Type 0 where
  rest : Text
  ellipsis : Option ℕ
  ended : Bool

after_group : ℕ → Option ℕ → Text → Option Next
after_group n e [] = some (record { rest = []; ellipsis = e; ended = true })
after_group n e (c ∷ []) = none
after_group n e (c ∷ d ∷ s) =
    if not (c == b':')
    then none
    else if not (d == b':')
    then some (record { rest = d ∷ s; ellipsis = e; ended = false })
    else if is_none e
    then some (record { rest = s; ellipsis = some n; ended = elim s [ [] ↦ true | _ ↦ false ] })
    else none

abbrev starts_with_dot : Text → Bool
starts_with_dot [] = false
starts_with_dot (c ∷ s) = c == b'.'

-- The loop of parseIPv6; the fuel is the room for groups. A text that is left over is an error.
unfoldable read_groups : ℕ → List ℕ → Option ℕ → Text → Option Groups
unfolding read_group parse_ipv4_value after_group
read_groups zero gs e s = elim s [ [] ↦ some (record { groups = gs; ellipsis = e }) | _ ↦ none ]
read_groups (suc room) gs e s =
    let g = read_group 0 0 s in
    let n = length gs in
    if g.width == 0 || ltb 4 g.width
    then none
    else if starts_with_dot g.rest
    then (do
      guard (not (is_none e && not (n == 6)) && leb (n + 2) 8)
      v4 ← parse_ipv4_value s
      some (record { groups = gs ++ ((v4 / 65536) ∷ (v4 % 65536) ∷ []); ellipsis = e }))
    else do
      next ← after_group (suc n) e g.rest
      elim (next.ended) [
        | true ↦ some (record { groups = gs ++ g.acc ∷ []; ellipsis = next.ellipsis })
        | false ↦ read_groups room (gs ++ g.acc ∷ []) next.ellipsis next.rest
      ]

zeros : ℕ → List ℕ
zeros zero = []
zeros (suc n) = 0 ∷ zeros n

-- The ellipsis stands for at least one group of zeros.
expand : Groups → Option (List ℕ)
unfolding zeros
expand g = elim (g.ellipsis) [
  | none ↦ if length g.groups == 8 then some g.groups else none
  | some at ↦
      if ltb (length g.groups) 8
      then some (take at g.groups ++ (zeros (8 - length g.groups) ++ drop at g.groups))
      else none
]

value_of : ℕ → List ℕ → ℕ
value_of n [] = n
value_of n (g ∷ gs) = value_of (n * 65536 + g) gs

unfoldable ipv6_fields : Option ℕ → Text → Option ℕ
unfolding read_groups expand value_of
ipv6_fields e s = do g ← read_groups 8 [] e s; gs ← expand g; some (value_of 0 gs)

-- A leading ellipsis is two colons, and may be all.
behind_ellipsis : Text → Option ℕ
unfolding ipv6_fields
behind_ellipsis [] = some 0
behind_ellipsis (c ∷ s) = ipv6_fields (some 0) (c ∷ s)

-- The address in front of the zone.
unfoldable parse_ipv6_value : Text → Option ℕ
unfolding behind_ellipsis
parse_ipv6_value [] = none
parse_ipv6_value (c ∷ []) = none
parse_ipv6_value (c ∷ d ∷ s) =
    if c == b':' && d == b':' then behind_ellipsis s else ipv6_fields none (c ∷ d ∷ s)

abbrev is_empty : Text → Bool
is_empty [] = true
is_empty _ = false

unfoldable parse_ipv6 : Text → Option Addr
unfolding parse_ipv6_value cut
parse_ipv6 s =
    let c = cut b'%' s in
    if c.found && is_empty c.after
    then none
    else do v ← parse_ipv6_value c.before; some (record { is4 = false; value = v; zone = c.after })

unfoldable parse_ipv4 : Text → Option Addr
unfolding parse_ipv4_value
parse_ipv4 s = do v ← parse_ipv4_value s; some (record { is4 = true; value = v; zone = [] })

-- The first dot, colon or percent sign decides.
parse_by : Text → Text → Option Addr
unfolding parse_ipv4 parse_ipv6
parse_by s [] = none
parse_by s (c ∷ t) =
    let rest = parse_by s t in
    if c == b'.'
    then parse_ipv4 s
    else if c == b':'
    then parse_ipv6 s
    else if c == b'%'
    then none
    else rest

-- `netip.ParseAddr`; `none` is its error.
unfoldable pub parse_addr : Text → Option Addr
unfolding parse_by
parse_addr s = parse_by s s

-- `net.ParseIP`: an address without zone; `none` is nil.
unfoldable pub parse_ip : Text → Option Addr
unfolding parse_addr
parse_ip s = do a ← parse_addr s; guard (not (has_zone a)); some a

parse_tests :
    (parse_ip (codes "8.8.8.8") ≡ some (record { is4 = true; value = 134744072; zone = [] }))
    × (parse_ip (codes "::1") ≡ some (record { is4 = false; value = 1; zone = [] }))
    × (parse_ip (codes "2001:0db8::1")
        ≡ some (record { is4 = false; value = 0x20010db8 * 2 ^ 96 + 1; zone = [] }))
    × (parse_ip (codes "::ffff:8.8.8.8")
        ≡ some (record { is4 = false; value = 0xffff * 2 ^ 32 + 134744072; zone = [] }))
    × (parse_ip (codes "fe80::1%eth0") ≡ none)
    × (parse_ip (codes "01.2.3.4") ≡ none)
    × (parse_ip (codes "1:2:3:4:5:6:7::")
        ≡ some
            (record { is4 = false; value = 0x0001_0002_0003_0004_0005_0006_0007_0000; zone = [] }))
    × (parse_ip (codes "1::2::3") ≡ none)
    × (parse_ip (codes "not-an-ip") ≡ none)
unfolding parse_ip
parse_tests = (refl, refl, refl, refl, refl, refl, refl, refl, refl)
