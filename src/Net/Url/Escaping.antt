-- ===== src/Net/Url/Escaping.antt =====
-- PathEscape and the escaping of a path can be undone, and what they leave is valid in a path.
use synthient_mcp.Prelude.{
  ℕ, ◌/◌, ◌%◌, ◌<◌, [], ◌∷◌, ◌++◌, ◌≡◌, refl, ap, ◌≢◌, true, false, Option, none, some, ◌==◌, All,
  arith, inl, inr, Bool-cases, append-nil,
}
use synthient_mcp.Text.{Text}
use synthient_mcp.Net.Url.{
  Mode, path_mode, segment_mode, query_mode, is_kept, hex_upper, hex_value, percent, escape,
  prepend, prepend_byte, unescape,
}

-- Go strings hold bytes.
abbrev pub AreBytes : Text → Type 0
AreBytes = All (λ c. c < 256)

-- The modes of paths.
abbrev pub IsPathMode : Mode → Type 0
IsPathMode mode = mode ≢ query_mode

hex_value-hex_upper : (d : ℕ) → d < 16 → hex_value (hex_upper d) ≡ some d
hex_value-hex_upper d h = ground arith

unescape-percent :
    (c : ℕ) (s : Text) → c < 256 → unescape (percent c s) ≡ prepend_byte c (unescape s)
unfolding unescape
unescape-percent c s h =
    rw (hex_value-hex_upper (c / 16 % 16) (omega arith), hex_value-hex_upper (c % 16) (omega arith))
      (halves (unescape s))
  where
    halves :
        (rest : Option Text)
        → prepend (some (c / 16 % 16)) (some (c % 16)) rest ≡ prepend_byte c rest
    halves none = refl
    halves (some t) = ap (λ d. some (d ∷ t)) (omega arith)

unescape-kept :
    (c : ℕ) (s : Text) → (c == b'%') ≡ false → unescape (c ∷ s) ≡ prepend_byte c (unescape s)
unfolding unescape
unescape-kept c [] h = rw h refl
unescape-kept c (a ∷ []) h = rw h refl
unescape-kept c (a ∷ b ∷ s) h = rw h refl

abbrev pub prepend_all : Text → Option Text → Option Text
prepend_all [] rest = rest
prepend_all (c ∷ s) rest = prepend_byte c (prepend_all s rest)

kept-ne-percent : (mode : Mode) (c : ℕ) → is_kept mode c ≡ true → (c == b'%') ≡ false
kept-ne-percent path_mode c h = ground arith
kept-ne-percent segment_mode c h = ground arith
kept-ne-percent query_mode c h = ground arith

-- Unescaping goes through an escaped text and on behind it.
pub unescape-escape_append :
    (mode : Mode) (s t : Text)
    → IsPathMode mode
    → AreBytes s
    → unescape (escape mode s ++ t) ≡ prepend_all s (unescape t)
unfolding escape
unescape-escape_append mode [] t m h = refl
unescape-escape_append query_mode (c ∷ s) t m h = absurd (m refl)
unescape-escape_append path_mode (c ∷ s) t m (hc, h) =
    let rest = unescape-escape_append path_mode s t m h in
    elim (Bool-cases (is_kept path_mode c)) [
      | inl kept ↦
          rw
            (
              kept,
              unescape-kept c (escape path_mode s ++ t) (kept-ne-percent path_mode c kept),
              rest,
            )
            refl
      | inr not_kept ↦ rw (not_kept, unescape-percent c (escape path_mode s ++ t) hc, rest) refl
    ]
unescape-escape_append segment_mode (c ∷ s) t m (hc, h) =
    let rest = unescape-escape_append segment_mode s t m h in
    elim (Bool-cases (is_kept segment_mode c)) [
      | inl kept ↦
          rw
            (
              kept,
              unescape-kept c (escape segment_mode s ++ t) (kept-ne-percent segment_mode c kept),
              rest,
            )
            refl
      | inr not_kept ↦ rw (not_kept, unescape-percent c (escape segment_mode s ++ t) hc, rest) refl
    ]

prepend_all-some : (s t : Text) → prepend_all s (some t) ≡ some (s ++ t)
prepend_all-some [] t = refl
prepend_all-some (c ∷ s) t = ap (prepend_byte c) (prepend_all-some s t)

-- Whatever bytes a segment or a path has, unescaping its escaped form gives it back.
pub unescape-escape :
    (mode : Mode) (s : Text) → IsPathMode mode → AreBytes s → unescape (escape mode s) ≡ some s
unescape-escape mode s m h =
    let whole = unescape-escape_append mode s [] m h in
    let empty : unescape [] ≡ some [] = unfold unescape in refl in
    rw (append-nil (escape mode s), empty, prepend_all-some s [], append-nil s) at whole
