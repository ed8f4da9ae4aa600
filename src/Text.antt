-- ===== src/Text.antt =====
-- Go strings as sequences of bytes, with the functions of Go's `strings` that the program calls:
-- comparison, HasPrefix, Contains, ContainsAny, TrimSpace, Trim, TrimSuffix, ToLower, Split, Cut
-- and ReplaceAll.
pub mod Equality
pub mod Search
pub mod Replace
pub mod Trim
pub mod Split
pub mod Decimal
pub mod Cutting
pub mod Parts
use Prim.Native.Char.{code}
use Prim.Native.String.{String}
use synthient_mcp.Prelude.{
  ℕ, zero, suc, ◌-◌, ◌+◌, List, [], ◌∷◌, ◌++◌, Bool, true, false, ◌&&◌, ◌||◌, ◌==◌, ltb, leb,
  if◌then◌else◌, length, reverse, map, all, any, drop,
}

-- A string is its bytes.
abbrev pub Text : Type 0
Text = List ℕ

-- The bytes of an ASCII literal.
abbrev pub codes : String → Text
codes String.[] = []
codes (String.◌∷◌ c s) = code c ∷ codes s

-- `a == b` on strings.
unfoldable pub text_eq : Text → Text → Bool
text_eq [] [] = true
text_eq (a ∷ s) (b ∷ t) = a == b && text_eq s t
text_eq _ _ = false

-- The loop `for _, v := range values { if v == target { return true } }; return false`.
unfoldable pub member : Text → List Text → Bool
member t [] = false
member t (s ∷ ss) = text_eq s t || member t ss

unfoldable pub starts_with : Text → Text → Bool
starts_with s [] = true
starts_with [] (p ∷ ps) = false
starts_with (c ∷ s) (p ∷ ps) = c == p && starts_with s ps

unfoldable pub ends_with : Text → Text → Bool
ends_with s t = starts_with (reverse s) (reverse t)

unfoldable pub contains : Text → Text → Bool
contains [] sub = starts_with [] sub
contains (c ∷ s) sub = starts_with (c ∷ s) sub || contains s sub

-- `strings.ContainsAny`, for a set of ASCII characters.
unfoldable pub contains_any : Text → Text → Bool
contains_any s set = any (λ c. any (λ d. c == d) set) s

-- `unicode.IsSpace` for the runes of one, two and three bytes.
abbrev pub ascii_space : ℕ → Bool
ascii_space c = (leb 9 c && leb c 13) || c == 32

abbrev pub space2 : ℕ → ℕ → Bool
space2 a b = a == 0xc2 && (b == 0x85 || b == 0xa0)

abbrev pub space3 : ℕ → ℕ → ℕ → Bool
space3 a b c =
    (a == 0xe1 && b == 0x9a && c == 0x80)
    || (a == 0xe2 && b == 0x80 && (leb 0x80 c && leb c 0x8a || c == 0xa8 || c == 0xa9 || c == 0xaf))
    || (a == 0xe2 && b == 0x81 && c == 0x9f)
    || (a == 0xe3 && b == 0x80 && c == 0x80)

-- The bytes of a white-space rune at the front of a string, 0 where none stands there.
unfoldable pub space_width : Text → ℕ
space_width [] = 0
space_width (a ∷ []) = if ascii_space a then 1 else 0
space_width (a ∷ b ∷ []) = if ascii_space a then 1 else if space2 a b then 2 else 0
space_width (a ∷ b ∷ c ∷ s) =
    if ascii_space a then 1 else if space2 a b then 2 else if space3 a b c then 3 else 0

-- The same at the back: the string is given backwards.
unfoldable pub last_space_width : Text → ℕ
last_space_width [] = 0
last_space_width (a ∷ []) = if ascii_space a then 1 else 0
last_space_width (b ∷ a ∷ []) = if ascii_space b then 1 else if space2 a b then 2 else 0
last_space_width (c ∷ b ∷ a ∷ s) =
    if ascii_space c then 1 else if space2 b c then 2 else if space3 a b c then 3 else 0

-- Drops white space as long as `width` finds some; the fuel bounds the rounds.
unfoldable pub trim_by : (Text → ℕ) → ℕ → Text → Text
trim_by width zero s = s
trim_by width (suc n) s =
    let rest = trim_by width n (drop (width s) s) in if width s == 0 then s else rest

unfoldable pub trim_space : Text → Text
unfolding trim_by space_width last_space_width
trim_space s =
    let front = trim_by space_width (length s) s in
    reverse (trim_by last_space_width (length front) (reverse front))

-- `strings.Trim` for a set of ASCII characters.
unfoldable pub trim_left_set : Text → Text → Text
trim_left_set set [] = []
trim_left_set set (c ∷ s) = if any (λ d. c == d) set then trim_left_set set s else c ∷ s

unfoldable pub trim_set : Text → Text → Text
unfolding trim_left_set
trim_set set s = reverse (trim_left_set set (reverse (trim_left_set set s)))

unfoldable pub trim_suffix : Text → Text → Text
unfolding ends_with starts_with
trim_suffix suffix s = if ends_with s suffix then reverse (drop (length suffix) (reverse s)) else s

unfoldable pub trim_prefix : Text → Text → Text
unfolding starts_with
trim_prefix prefix s = if starts_with s prefix then drop (length prefix) s else s

abbrev pub lower_byte : ℕ → ℕ
lower_byte c = if leb b'A' c && leb c b'Z' then c + 32 else c

abbrev pub is_ascii : ℕ → Bool
is_ascii c = ltb c 128

-- `strings.ToLower`: the ASCII path, and `unicode_lower` (`strings.Map(unicode.ToLower, s)`, a
-- table of the Unicode database) for any other string.
unfoldable pub to_lower : (Text → Text) → Text → Text
to_lower unicode_lower s = if all is_ascii s then map lower_byte s else unicode_lower s

abbrev pub push_first : ℕ → List Text → List Text
push_first c [] = (c ∷ []) ∷ []
push_first c (p ∷ ps) = (c ∷ p) ∷ ps

-- `strings.Split` and `strings.SplitSeq` at one byte.
unfoldable pub split : ℕ → Text → List Text
split sep [] = [] ∷ []
split sep (c ∷ s) = let rest = split sep s in if c == sep then [] ∷ rest else push_first c rest

pub record Cut : Type 0 where
  pub before : Text
  pub after : Text
  pub found : Bool

-- `strings.Cut` at one byte.
unfoldable pub cut : ℕ → Text → Cut
cut sep [] = record { before = []; after = []; found = false }
cut sep (c ∷ s) =
    let rest = cut sep s in
    if c == sep
    then record { before = []; after = s; found = true }
    else record { before = c ∷ rest.before; after = rest.after; found = rest.found }

-- `strings.ReplaceAll` of a string that is not empty; the second argument counts the bytes of a
-- match that are still to be passed over.
unfoldable pub replace_from : Text → Text → ℕ → Text → Text
unfolding starts_with
replace_from old new skip [] = []
replace_from old new (suc k) (c ∷ s) = replace_from old new k s
replace_from old new zero (c ∷ s) = elim (starts_with (c ∷ s) old) [
  | true ↦ new ++ replace_from old new (length old - 1) s
  | false ↦ c ∷ replace_from old new zero s
]

unfoldable pub replace_all : Text → Text → Text → Text
unfolding replace_from
replace_all s old new = replace_from old new zero s
