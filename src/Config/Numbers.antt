-- ===== src/Config/Numbers.antt =====
-- Which numbers a setting can be given.
use synthient_mcp.Prelude.{ok, ℕ, ◌≤◌, [], ◌∷◌, ◌≡◌, ◌≢◌, ◌↔◌, refl, Option, none, some, arith}
use synthient_mcp.Text.{Text}
use synthient_mcp.Text.Decimal.{ℤ, pos, negsuc, atoi}
use synthient_mcp.Config.{within, integer_of, integer}

within_sound :
    (name : Text) (low high : ℕ) (o : Option ℤ) (n : ℕ)
    → within name low high o ≡ ok n
    → (o ≡ some (pos n)) × (low ≤ n) × (n ≤ high)
within_sound name low high none n e = absurd (cc)
within_sound name low high (some (negsuc k)) n e = absurd (cc)
within_sound name low high (some (pos k)) n e = (ground arith, ground arith, ground arith)

within_complete :
    (name : Text) (low high n : ℕ) → low ≤ n → n ≤ high → within name low high (some (pos n)) ≡ ok n
within_complete name low high n l h = ground arith

-- A number that a setting takes: the fallback where the variable is not set or is empty, else the
-- number that it spells, within the bounds.
pub data IsSetting (fallback low high n : ℕ) : Option Text → Type 0 where
  unset : n ≡ fallback → IsSetting fallback low high n none
  empty : n ≡ fallback → IsSetting fallback low high n (some [])
  spelled :
      (value : Text)
      → value ≢ []
      → atoi value ≡ some (pos n)
      → (low ≤ n) × (n ≤ high)
      → IsSetting fallback low high n (some value)

integer_of_sound :
    (name : Text) (fallback low high : ℕ) (o : Option Text) (n : ℕ)
    → integer_of name fallback low high o ≡ ok n
    → IsSetting fallback low high n o
integer_of_sound name fallback low high none n e = unset (ground arith)
integer_of_sound name fallback low high (some []) n e = empty (ground arith)
integer_of_sound name fallback low high (some (c ∷ s)) n e =
    let (parsed, least, most) = within_sound name low high (atoi (c ∷ s)) n e in
    spelled (c ∷ s) (cc) parsed (least, most)

integer_of_complete :
    (name : Text) (fallback low high : ℕ) (o : Option Text) (n : ℕ)
    → IsSetting fallback low high n o
    → integer_of name fallback low high o ≡ ok n
integer_of_complete name fallback low high _ n (unset e) = rw e refl
integer_of_complete name fallback low high _ n (empty e) = rw e refl
integer_of_complete name fallback low high _ n (spelled [] filled parsed bounds) =
    absurd (filled refl)
integer_of_complete name fallback low high _ n (spelled (c ∷ s) filled parsed bounds) =
    rw parsed (within_complete name low high n bounds.0 bounds.1)

-- A setting is read as a number exactly if it is not set or empty, for the fallback, or spells the
-- number, which is within the bounds; every other value is refused.
pub integer_iff :
    (lookup : Text → Option Text) (name : Text) (fallback low high n : ℕ)
    → (integer lookup name fallback low high ≡ ok n) ↔ IsSetting fallback low high n (lookup name)
unfolding integer
integer_iff lookup name fallback low high n = (
  integer_of_sound name fallback low high (lookup name) n,
  integer_of_complete name fallback low high (lookup name) n,
)
