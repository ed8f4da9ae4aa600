-- ===== src/Net/Print/Named.antt =====
-- A printed address is never made of dots alone.
use synthient_mcp.Prelude.{
  ℕ, zero, suc, length, ap, ◌/◌, ◌%◌, ◌^◌, ◌≤◌, List, [], ◌∷◌, ◌++◌, ◌≡◌, refl, ◌≢◌, ◌==◌, inl, inr,
  Bool-cases, All, arith, take,
}
use synthient_mcp.Text.{Text}
use synthient_mcp.Text.Decimal.{itoa, itoa-IsDigit, itoa-ne-nil, IsDigit}
use synthient_mcp.Net.{Addr}
use synthient_mcp.Net.Url.Segments.{IsLettered}
use synthient_mcp.Net.Print.{
  string4, string_group, join_groups, string6, groups_from, best_run, addr_string,
}

append-IsLettered : (s t : Text) → IsLettered s → IsLettered (s ++ t)
append-IsLettered [] t h = absurd (cc)
append-IsLettered (c ∷ s) t h = ground (arith, append-IsLettered s t)

behind-IsLettered : (s t : Text) → IsLettered t → IsLettered (s ++ t)
behind-IsLettered [] t h = h
behind-IsLettered (c ∷ s) t h = ground (arith, behind-IsLettered s t h)

digits-IsLettered : (s : Text) → All IsDigit s → s ≢ [] → IsLettered s
digits-IsLettered [] h ne = absurd (ne refl)
digits-IsLettered (c ∷ s) h ne = ground (arith, h.0)

pub itoa-IsLettered : (n : ℕ) → IsLettered (itoa n)
itoa-IsLettered n = digits-IsLettered (itoa n) (itoa-IsDigit n) (itoa-ne-nil n)

string4-IsLettered : (v : ℕ) → IsLettered (string4 v)
unfolding string4
string4-IsLettered v =
    append-IsLettered (itoa (v / 2 ^ 24 % 256)) _ (itoa-IsLettered (v / 2 ^ 24 % 256))

colon-IsLettered : (s : Text) → IsLettered (b':' ∷ s)
colon-IsLettered s = refl

-- The first group gives a digit or a colon stands behind it.
groups-IsLettered : (gs : List ℕ) → 2 ≤ length gs → IsLettered (join_groups gs)
unfolding join_groups
groups-IsLettered [] h = absurd (omega arith)
groups-IsLettered (g ∷ []) h = absurd (omega arith)
groups-IsLettered (g ∷ k ∷ gs) h = behind-IsLettered (string_group g) _ refl

length-groups_from : (n v : ℕ) → length (groups_from n v) ≡ n
unfolding groups_from
length-groups_from zero v = refl
length-groups_from (suc n) v = ap suc (length-groups_from n v)

string6-IsLettered : (v : ℕ) → IsLettered (string6 v)
unfolding string6
string6-IsLettered v =
    let gs = groups_from 8 v in
    let run = best_run 0 (record { place = 8; size = 0 }) gs in
    elim (Bool-cases (run.size == 0)) [
      | inl none_long ↦ rw none_long (groups-IsLettered gs (omega (arith, length-groups_from 8 v)))
      | inr long ↦ rw long (behind-IsLettered (join_groups (take run.place gs)) _ refl)
    ]

pub addr_string-IsLettered : (a : Addr) → a.zone ≡ [] → IsLettered (addr_string a)
unfolding addr_string
addr_string-IsLettered a plain = elim (Bool-cases (a.is4)) [
  | inl four ↦ rw four (string4-IsLettered a.value)
  | inr six ↦ elim (Bool-cases (a.value / 2 ^ 32 == 0xffff)) [
    | inl mapped ↦ rw (six, mapped, plain) refl
    | inr other ↦ rw (six, other, plain) (string6-IsLettered a.value)
  ]
]
