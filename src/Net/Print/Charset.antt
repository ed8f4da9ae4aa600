-- ===== src/Net/Print/Charset.antt =====
-- The characters of a printed address.
use synthient_mcp.Prelude.{
  ℕ, ◌+◌, ◌/◌, ◌%◌, ◌^◌, ◌≤◌, ◌<◌, ◌⊎◌, List, [], ◌∷◌, ◌≡◌, refl, ◌==◌, leb, inl, inr, Bool-cases,
  All, All-append, arith, take, drop,
}
use synthient_mcp.Text.{Text, codes}
use synthient_mcp.Text.Decimal.{itoa, itoa-IsDigit}
use synthient_mcp.Net.{Addr}
use synthient_mcp.Net.Print.{
  string4, string_group, join_groups, string6, groups_from, best_run, hex, addr_string,
}

-- A digit of hexadecimal in lower case, a dot or a colon: nothing that a URL's path gives a meaning
-- to but the dot.
abbrev pub IsAddressByte : ℕ → Type 0
IsAddressByte c =
    ((b'0' ≤ c) × (c ≤ b'9')) ⊎ (((b'a' ≤ c) × (c ≤ b'f')) ⊎ ((c ≡ b'.') ⊎ (c ≡ b':')))

abbrev AreAddress : Text → Type 0
AreAddress = All IsAddressByte

digits-address : (s : Text) → All (λ c. (b'0' ≤ c) × (c ≤ b'9')) s → AreAddress s
digits-address [] h = tt
digits-address (c ∷ s) h = (inl h.0, digits-address s h.1)

itoa-address : (n : ℕ) → AreAddress (itoa n)
itoa-address n = digits-address (itoa n) (itoa-IsDigit n)

string4-address : (v : ℕ) → AreAddress (string4 v)
unfolding string4
string4-address v =
    All-append IsAddressByte (itoa (v / 2 ^ 24 % 256)) _ (itoa-address (v / 2 ^ 24 % 256)) (
      dot,
      All-append IsAddressByte (itoa (v / 2 ^ 16 % 256)) _ (itoa-address (v / 2 ^ 16 % 256)) (
        dot,
        All-append IsAddressByte (itoa (v / 2 ^ 8 % 256)) _ (itoa-address (v / 2 ^ 8 % 256))
            (dot, itoa-address (v % 256)),
      ),
    )
  where
    dot : IsAddressByte b'.'
    dot = inr (inr (inl refl))

hex-address : (d : ℕ) → d < 16 → IsAddressByte (hex d)
hex-address d h = ground arith

mod16-address : (d : ℕ) → IsAddressByte (hex (d % 16))
mod16-address d = hex-address (d % 16) (omega arith)

group-address : (g : ℕ) → AreAddress (string_group g)
unfolding string_group
group-address g =
    let a = mod16-address (g / 0x1000) in
    let b = mod16-address (g / 0x100) in
    let c = mod16-address (g / 0x10) in
    let d = mod16-address g in
    elim (Bool-cases (leb 0x1000 g)) [
      | inl four ↦ rw four (a, (b, (c, (d, tt))))
      | inr less4 ↦ rw less4 (elim (Bool-cases (leb 0x100 g)) [
        | inl three ↦ rw three (b, (c, (d, tt)))
        | inr less3 ↦ rw less3 (elim (Bool-cases (leb 0x10 g)) [
          | inl pair ↦ rw pair (c, (d, tt))
          | inr single ↦ rw single (d, tt)
        ])
      ])
    ]

groups-address : (gs : List ℕ) → AreAddress (join_groups gs)
unfolding join_groups
groups-address [] = tt
groups-address (g ∷ []) = group-address g
groups-address (g ∷ h ∷ gs) =
    All-append IsAddressByte (string_group g) _ (group-address g)
      (inr (inr (inr refl)), groups-address (h ∷ gs))

string6-address : (v : ℕ) → AreAddress (string6 v)
unfolding string6
string6-address v =
    let gs = groups_from 8 v in
    let run = best_run 0 (record { place = 8; size = 0 }) gs in
    elim (Bool-cases (run.size == 0)) [
      | inl none_long ↦ rw none_long (groups-address gs)
      | inr long ↦ rw long (
          All-append IsAddressByte (join_groups (take run.place gs)) _
            (groups-address (take run.place gs))
            (
              inr (inr (inr refl)),
              (inr (inr (inr refl)), groups-address (drop (run.place + run.size) gs)),
            ))
    ]

-- Without a zone, an address prints to characters of addresses.
pub addr_string-address : (a : Addr) → a.zone ≡ [] → AreAddress (addr_string a)
unfolding addr_string
addr_string-address a plain = elim (Bool-cases (a.is4)) [
  | inl four ↦ rw four (string4-address a.value)
  | inr six ↦ elim (Bool-cases (a.value / 2 ^ 32 == 0xffff)) [
    | inl mapped ↦
        rw (six, mapped, plain)
          (All-append IsAddressByte (codes "::ffff:") _
            (colon, (colon, (f, (f, (f, (f, (colon, tt))))))) (string4-address (a.value % 2 ^ 32)))
    | inr other ↦ rw (six, other, plain) (string6-address a.value)
  ]
]
  where
    colon : IsAddressByte b':'
    colon = inr (inr (inr refl))

    f : IsAddressByte b'f'
    f = inr (inl (omega arith, omega arith))
