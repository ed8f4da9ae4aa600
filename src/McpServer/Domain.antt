-- ===== src/McpServer/Domain.antt =====
-- normalizeDomain and asciiLetterOrDigit of go/internal/mcpserver/server.go.
pub mod Laws
pub mod Stable
use synthient_mcp.Prelude.{
  Result, ok, err, ◌>>=◌, ℕ, zero, suc, ◌+◌, ◌-◌, ◌≤◌, ◌<◌, ◌⊎◌, List, [], ◌∷◌, ◌++◌, ◌≡◌, refl,
  sym, ◌∙◌, ap, ◌≢◌, Bool, true, false, not, ◌&&◌, ◌||◌, Option, none, some, leb, ltb, ◌==◌,
  if◌then◌else◌, length, All, all, arith, inl, inr, Bool-cases, and-eq-true_iff,
}
use synthient_mcp.Text.{Text, codes, trim_space, to_lower, trim_suffix, split, ends_with}
use synthient_mcp.Text.Trim.{IsVisible, IsLowerAscii, trim_space_visible, to_lower_lower}
use synthient_mcp.Text.Search.{Lacks}
use synthient_mcp.Text.Split.{join, join-split, split-Lacks}

abbrev pub ascii_letter_or_digit : ℕ → Bool
ascii_letter_or_digit c = (leb b'a' c && leb c b'z') || (leb b'0' c && leb c b'9')

abbrev inner_byte : ℕ → Bool
inner_byte c = ascii_letter_or_digit c || c == b'-'

-- `label[len(label)-1]` of a label that is not empty; the loop over the bytes between the ends.
unfoldable pub inner_and_last : Text → Bool
inner_and_last [] = true
inner_and_last (c ∷ []) = ascii_letter_or_digit c
inner_and_last (c ∷ d ∷ s) = inner_byte c && inner_and_last (d ∷ s)

-- The tests on one label: its length, its first and its last byte, and those in between.
unfoldable pub valid_label : Text → Bool
unfolding inner_and_last
valid_label [] = false
valid_label (c ∷ s) = leb (length (c ∷ s)) 63 && (ascii_letter_or_digit c && inner_and_last s)

pub data Error : Type 0 where
  bad_length bad_label : Error

abbrev is_empty : Text → Bool
is_empty [] = true
is_empty _ = false

abbrev checked_domain : Text → Result Error Text
checked_domain value =
    if is_empty value || ltb 253 (length value)
    then err bad_length
    else if all valid_label (split b'.' value)
    then ok value
    else err bad_label

-- The text that is checked: without blanks, in lower case, without one trailing dot.
abbrev pub canonical_domain : (Text → Text) → Text → Text
canonical_domain unicode_lower value =
    trim_suffix (codes ".") (to_lower unicode_lower (trim_space value))

unfoldable pub normalize_domain : (Text → Text) → Text → Result Error Text
unfolding trim_space to_lower trim_suffix split valid_label
normalize_domain unicode_lower value = checked_domain (canonical_domain unicode_lower value)
