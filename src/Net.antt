-- ===== src/Net.antt =====
-- What the program uses of Go's packages net and net/netip: SplitHostPort, ParseAddr, ParseIP,
-- Addr.String, Addr.Unmap and Prefix.Contains.
pub mod Parse
pub mod Url
pub mod Print
use synthient_mcp.Prelude.{
  ℕ, ◌+◌, ◌-◌, ◌*◌, ◌/◌, ◌^◌, List, [], ◌∷◌, Bool, true, false, not, ◌&&◌, ◌||◌, Option, none, some,
  ◌==◌, leb, if◌then◌else◌, any,
}
use synthient_mcp.Text.{Text, cut}

-- `strings.Contains` of one byte.
abbrev pub has : ℕ → Text → Bool
has b s = any (λ c. c == b) s

pub record HostPort : Type 0 where
  pub host : Text
  pub port : Text

-- Behind the closing bracket stands the last colon.
abbrev pub bracketed : Text → Text → Option HostPort
bracketed host [] = none
bracketed host (c ∷ port) =
    if c == b':'
      && not (has b':' port)
      && not (has b'[' host)
      && not (has b'[' port)
      && not (has b']' port)
    then some (record { host = host; port = port })
    else none

abbrev pub unbracketed : Text → Text → Option HostPort
unbracketed host port =
    if not (has b':' port)
      && not (has b'[' host)
      && not (has b'[' port)
      && not (has b']' host)
      && not (has b']' port)
    then some (record { host = host; port = port })
    else none

-- `net.SplitHostPort`; `none` is its error.
unfoldable pub split_host_port : Text → Option HostPort
unfolding cut
split_host_port [] = none
split_host_port (c ∷ s) =
    if c == b'['
    then (if (cut b']' s).found then bracketed (cut b']' s).before (cut b']' s).after else none)
    else if (cut b':' (c ∷ s)).found
    then unbracketed (cut b':' (c ∷ s)).before (cut b':' (c ∷ s)).after
    else none

-- `netip.Addr`: 32 or 128 bits, with a zone where IPv6 has one.
pub record Addr : Type 0 where
  pub is4 : Bool
  pub value : ℕ
  pub zone : Text

-- `Addr.Unmap`: ::ffff:a.b.c.d becomes a.b.c.d.
unfoldable pub unmap : Addr → Addr
unmap a =
    if not a.is4 && a.value / 2 ^ 32 == 0xffff
    then record { is4 = true; value = a.value - 0xffff * 2 ^ 32; zone = [] }
    else a

-- `netip.Prefix`: an address without zone and a number of bits within its size.
pub record Prefix : Type 0 where
  pub base : Addr
  pub bits : ℕ

abbrev pub bit_len : Addr → ℕ
bit_len a = if a.is4 then 32 else 128

abbrev pub has_zone : Addr → Bool
has_zone a = elim (a.zone) [ [] ↦ false | _ ↦ true ]

-- `Prefix.Contains`: the leading bits agree.
unfoldable pub prefix_contains : Prefix → Addr → Bool
prefix_contains p a =
    not (has_zone a)
    && bit_len p.base == bit_len a
    && p.base.value / 2 ^ (bit_len a - p.bits) == a.value / 2 ^ (bit_len a - p.bits)
