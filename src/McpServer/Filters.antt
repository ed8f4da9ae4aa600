-- ===== src/McpServer/Filters.antt =====
-- validateFilters of go/internal/mcpserver/feeds.go, over the entries of the map in the order in
-- which the loop meets them.
use synthient_mcp.Prelude.{
  ℕ, ◌≤◌, ◌⊎◌, List, [], ◌∷◌, ◌≡◌, refl, ◌↔◌, Bool, true, false, ◌&&◌, ◌||◌, Option, none, some,
  leb, ltb, ◌==◌, if◌then◌else◌, length, All, arith,
}
use synthient_mcp.Text.{Text}

pub data Error : Type 0 where
  too_many bad_size : Error
  bad_characters : Text → Error

abbrev filter_byte : ℕ → Bool
filter_byte c =
    (leb b'a' c && leb c b'z')
    || (leb b'A' c && leb c b'Z')
    || (leb b'0' c && leb c b'9')
    || c == b'_'
    || c == b'-'
    || c == b'.'

abbrev pub is_empty : Text → Bool
is_empty [] = true
is_empty _ = false

-- The loop over the runes of a name: `key` is the whole name, for the message. A rune outside ASCII
-- is refused, as each of its bytes is.
unfoldable pub check_name : Text → Text → Option Error
check_name key [] = none
check_name key (c ∷ s) =
    let rest = check_name key s in if filter_byte c then rest else some (bad_characters key)

abbrev pub check_filter : Text → Text → Option Error
check_filter key value =
    if is_empty key || ltb 128 (length key) || ltb 256 (length value)
    then some bad_size
    else check_name key key

abbrev pub or_else {ℓ} : {E : Type ℓ} → Option E → Option E → Option E
or_else none later = later
or_else (some e) later = some e

unfoldable pub check_filters : List (Text × Text) → Option Error
unfolding check_name
check_filters [] = none
check_filters ((key, value) ∷ filters) = or_else (check_filter key value) (check_filters filters)

unfoldable pub validate_filters : List (Text × Text) → Option Error
unfolding check_filters
validate_filters filters = if ltb 10 (length filters) then some too_many else check_filters filters

-- A letter, a digit, or one of `_`, `-` and `.`.
abbrev pub IsNameByte : ℕ → Type 0
IsNameByte c =
    ((b'a' ≤ c) × (c ≤ b'z'))
    ⊎ (((b'A' ≤ c) × (c ≤ b'Z'))
        ⊎ (((b'0' ≤ c) × (c ≤ b'9')) ⊎ ((c ≡ b'_') ⊎ ((c ≡ b'-') ⊎ (c ≡ b'.')))))

pub record IsFilter (filter : Text × Text) : Type 0 where
  pub name_size : (1 ≤ length filter.0) × (length filter.0 ≤ 128)
  pub value_size : length filter.1 ≤ 256
  pub name_bytes : All IsNameByte filter.0

check_name_iff : (key s : Text) → (check_name key s ≡ none) ↔ All IsNameByte s
unfolding check_name
check_name_iff key [] = (λ h. tt, λ h. refl)
check_name_iff key (c ∷ s) = (
  λ h. (ground arith, (check_name_iff key s).0 (ground arith)),
  λ h. ground (arith, h.0, (check_name_iff key s).1 h.1),
)

check_filter_iff : (key value : Text) → (check_filter key value ≡ none) ↔ IsFilter (key, value)
check_filter_iff [] value = (λ h. absurd (cc), λ f. absurd (omega (arith, f.name_size.0)))
check_filter_iff (c ∷ key) value = (
  λ h. record {
    name_size = (omega arith, ground arith);
    value_size = ground arith;
    name_bytes = (check_name_iff (c ∷ key) (c ∷ key)).0 (ground arith);
  },
  λ f.
      ground
        (arith, f.name_size.1, f.value_size, (check_name_iff (c ∷ key) (c ∷ key)).1 f.name_bytes),
)

check_filters_iff : (fs : List (Text × Text)) → (check_filters fs ≡ none) ↔ All IsFilter fs
unfolding check_filters
check_filters_iff [] = (λ h. tt, λ h. refl)
check_filters_iff ((k, v) ∷ fs) = (
  λ h. ((check_filter_iff k v).0 (ground arith), (check_filters_iff fs).0 (ground arith)),
  λ h. ground (arith, (check_filter_iff k v).1 h.0, (check_filters_iff fs).1 h.1),
)

-- Filters are accepted exactly if there are at most ten, each name has 1 to 128 bytes, all of them
-- letters, digits, `_`, `-` or `.`, and each value has at most 256 bytes.
pub validate_filters_iff :
    (filters : List (Text × Text))
    → (validate_filters filters ≡ none) ↔ ((length filters ≤ 10) × All IsFilter filters)
unfolding validate_filters
validate_filters_iff fs = (
  λ h. (ground arith, (check_filters_iff fs).0 (ground arith)),
  λ h. ground (arith, h.0, (check_filters_iff fs).1 h.1),
)
