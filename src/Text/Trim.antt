-- ===== src/Text/Trim.antt =====
-- Texts that TrimSpace and ToLower leave as they are.
use synthient_mcp.Prelude.{
  ℕ, zero, suc, ◌<◌, [], ◌∷◌, ◌≡◌, refl, true, arith, All, All-append, reverse, all, map, ◌⊎◌,
}
use mathlib.Core.List.{reverse-cons, reverse-reverse}
use synthient_mcp.Text.{
  Text, space_width, last_space_width, trim_by, trim_space, to_lower, is_ascii, lower_byte,
}

-- A byte above the blank and below the non-ASCII range stands for a rune that is no white space.
abbrev pub IsVisible : ℕ → Type 0
IsVisible c = (32 < c) × (c < 128)

space_width-visible : (s : Text) → All IsVisible s → space_width s ≡ 0
unfolding space_width
space_width-visible [] h = refl
space_width-visible (a ∷ []) h = ground arith
space_width-visible (a ∷ b ∷ []) h = ground arith
space_width-visible (a ∷ b ∷ c ∷ s) h = ground arith

last_space_width-visible : (s : Text) → All IsVisible s → last_space_width s ≡ 0
unfolding last_space_width
last_space_width-visible [] h = refl
last_space_width-visible (a ∷ []) h = ground arith
last_space_width-visible (a ∷ b ∷ []) h = ground arith
last_space_width-visible (a ∷ b ∷ c ∷ s) h = ground arith

pub trim_by_stop : (width : Text → ℕ) (n : ℕ) (s : Text) → width s ≡ 0 → trim_by width n s ≡ s
unfolding trim_by
trim_by_stop width zero s h = refl
trim_by_stop width (suc n) s h = ground arith

pub All-reverse {ℓ} : (P : ℕ → Type ℓ) (s : Text) → All P s → All P (reverse s)
All-reverse P [] h = tt
All-reverse P (c ∷ s) (h, hs) =
    rw reverse-cons (All-append P (reverse s) (c ∷ []) (All-reverse P s hs) (h, tt))

-- TrimSpace changes no text of visible ASCII characters.
pub trim_space_visible : (s : Text) → All IsVisible s → trim_space s ≡ s
unfolding trim_space
trim_space_visible s h = rw (trim_by_stop space_width _ s (space_width-visible s h)) (
    rw
      (trim_by_stop last_space_width _ (reverse s)
        (last_space_width-visible (reverse s) (All-reverse IsVisible s h)))
      (reverse-reverse s))

abbrev pub IsLowerAscii : ℕ → Type 0
IsLowerAscii c = (c < 128) × ((c < b'A') ⊎ (b'Z' < c))

all-is_ascii : (s : Text) → All IsLowerAscii s → all is_ascii s ≡ true
all-is_ascii [] h = refl
all-is_ascii (c ∷ s) h = ground (arith, all-is_ascii s h.1)

map-lower_byte : (s : Text) → All IsLowerAscii s → map lower_byte s ≡ s
map-lower_byte [] h = refl
map-lower_byte (c ∷ s) (h, hs) = ground (arith, map-lower_byte s hs)

-- ToLower changes no ASCII text without capitals, whatever the Unicode tables say.
pub to_lower_lower :
    (unicode_lower : Text → Text) (s : Text) → All IsLowerAscii s → to_lower unicode_lower s ≡ s
unfolding to_lower
to_lower_lower u s h = rw (all-is_ascii s h, map-lower_byte s h)
