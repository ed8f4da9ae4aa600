-- ===== src/McpServer/Symbols.antt =====
-- validateSymbols of go/internal/mcpserver/feeds.go.
use synthient_mcp.Prelude.{
  ℕ, suc, ◌≤◌, ◌⊎◌, List, [], ◌∷◌, ◌≡◌, refl, ◌↔◌, Bool, false, ◌&&◌, ◌||◌, Option, none, some, leb,
  ltb, ◌==◌, if◌then◌else◌, length, All, arith,
}
use synthient_mcp.Text.{Text, codes, starts_with, ends_with}
use synthient_mcp.McpServer.Filters.{is_empty, or_else}

pub data Error : Type 0 where
  too_many : Error
  not_qualified bad_characters : ℕ → Error

abbrev symbol_byte : ℕ → Bool
symbol_byte c =
    (leb b'a' c && leb c b'z')
    || (leb b'A' c && leb c b'Z')
    || (leb b'0' c && leb c b'9')
    || c == b'_'
    || c == b'.'

-- The loop over the runes; a rune outside ASCII is refused, as each of its bytes is.
unfoldable pub check_runes : ℕ → Text → Option Error
check_runes index [] = none
check_runes index (c ∷ s) =
    let rest = check_runes index s in if symbol_byte c then rest else some (bad_characters index)

unfoldable pub check_symbol : ℕ → Text → Option Error
unfolding check_runes starts_with ends_with
check_symbol index symbol =
    if is_empty symbol
      || ltb 256 (length symbol)
      || starts_with symbol (codes ".")
      || ends_with symbol (codes ".")
    then some (not_qualified index)
    else check_runes index symbol

unfoldable pub check_symbols : ℕ → List Text → Option Error
unfolding check_symbol
check_symbols index [] = none
check_symbols index (symbol ∷ symbols) =
    or_else (check_symbol index symbol) (check_symbols (suc index) symbols)

unfoldable pub validate_symbols : List Text → Option Error
unfolding check_symbols
validate_symbols symbols =
    if ltb 25 (length symbols) then some too_many else check_symbols 0 symbols

abbrev pub IsSymbolByte : ℕ → Type 0
IsSymbolByte c =
    ((b'a' ≤ c) × (c ≤ b'z'))
    ⊎ (((b'A' ≤ c) × (c ≤ b'Z')) ⊎ (((b'0' ≤ c) × (c ≤ b'9')) ⊎ ((c ≡ b'_') ⊎ (c ≡ b'.'))))

pub record IsSymbol (symbol : Text) : Type 0 where
  pub size : (1 ≤ length symbol) × (length symbol ≤ 256)
  pub first : starts_with symbol (codes ".") ≡ false
  pub last : ends_with symbol (codes ".") ≡ false
  pub bytes : All IsSymbolByte symbol

check_runes_iff : (i : ℕ) (s : Text) → (check_runes i s ≡ none) ↔ All IsSymbolByte s
unfolding check_runes
check_runes_iff i [] = (λ h. tt, λ h. refl)
check_runes_iff i (c ∷ s) = (
  λ h. (ground arith, (check_runes_iff i s).0 (ground arith)),
  λ h. ground (arith, h.0, (check_runes_iff i s).1 h.1),
)

check_symbol_iff : (i : ℕ) (s : Text) → (check_symbol i s ≡ none) ↔ IsSymbol s
unfolding check_symbol
check_symbol_iff i [] = (λ h. absurd (cc), λ v. absurd (omega (arith, v.size.0)))
check_symbol_iff i (c ∷ s) = (
  λ h. record {
    size = (omega arith, ground arith);
    first = ground arith;
    last = ground arith;
    bytes = (check_runes_iff i (c ∷ s)).0 (ground arith);
  },
  λ v. ground (arith, v.size.1, v.first, v.last, (check_runes_iff i (c ∷ s)).1 v.bytes),
)

check_symbols_iff : (i : ℕ) (ss : List Text) → (check_symbols i ss ≡ none) ↔ All IsSymbol ss
unfolding check_symbols
check_symbols_iff i [] = (λ h. tt, λ h. refl)
check_symbols_iff i (s ∷ ss) = (
  λ h. ((check_symbol_iff i s).0 (ground arith), (check_symbols_iff (suc i) ss).0 (ground arith)),
  λ h. ground (arith, (check_symbol_iff i s).1 h.0, (check_symbols_iff (suc i) ss).1 h.1),
)

-- Symbols are accepted exactly if there are at most 25, each has 1 to 256 bytes, all of them
-- letters, digits, `_` or `.`, and none begins or ends with a dot.
pub validate_symbols_iff :
    (symbols : List Text)
    → (validate_symbols symbols ≡ none) ↔ ((length symbols ≤ 25) × All IsSymbol symbols)
unfolding validate_symbols
validate_symbols_iff ss = (
  λ h. (ground arith, (check_symbols_iff 0 ss).0 (ground arith)),
  λ h. ground (arith, h.0, (check_symbols_iff 0 ss).1 h.1),
)
