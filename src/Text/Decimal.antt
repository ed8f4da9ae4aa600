-- ===== src/Text/Decimal.antt =====
-- `strconv.Itoa` of a number that is not negative, and `strconv.Atoi` on its digits.
use synthient_mcp.Prelude.{
  ℕ, zero, suc, ◌+◌, ◌-◌, ◌*◌, ◌/◌, ◌%◌, ◌^◌, ◌≤◌, ◌<◌, [], ◌∷◌, ◌≡◌, refl, ◌≢◌, Bool, ◌&&◌, ltb,
  leb, ◌==◌, if◌then◌else◌, Option, none, some, arith, Bool-cases, inl, inr, All,
}
use synthient_mcp.Text.{Text}

abbrev pub is_digit : ℕ → Bool
is_digit c = leb b'0' c && leb c b'9'

-- The digits of `n` in front of `out`, last digit first; the fuel bounds the digits.
unfoldable pub digits : ℕ → ℕ → Text → Text
digits zero n out = out
digits (suc fuel) n out =
    let longer = digits fuel (n / 10) ((b'0' + n % 10) ∷ out) in
    if ltb n 10 then (b'0' + n % 10) ∷ out else longer

unfoldable pub itoa : ℕ → Text
unfolding digits
itoa n = digits (suc n) n []

-- The value that digits spell behind `n`; `none` on a byte that is no digit.
unfoldable pub scan : ℕ → Text → Option ℕ
scan n [] = some n
scan n (c ∷ s) = let rest = scan (n * 10 + (c - b'0')) s in if is_digit c then rest else none

-- The magnitude that `strconv.Atoi` reads behind the sign.
unfoldable pub parse_digits : Text → Option ℕ
unfolding scan
parse_digits [] = none
parse_digits (c ∷ s) = scan 0 (c ∷ s)

scan-digits : (fuel n : ℕ) (out : Text) → n < fuel → scan 0 (digits fuel n out) ≡ scan n out
unfolding digits scan
scan-digits zero n out h = absurd (omega arith)
scan-digits (suc fuel) n out h = ground (arith, scan-digits fuel (n / 10) ((b'0' + n % 10) ∷ out))

digits-ne-nil : (fuel n : ℕ) (out : Text) → n < fuel → digits fuel n out ≢ []
unfolding digits
digits-ne-nil zero n out h = absurd (omega arith)
digits-ne-nil (suc fuel) n out h =
    ground (arith, digits-ne-nil fuel (n / 10) ((b'0' + n % 10) ∷ out))

parse_digits-scan : (s : Text) → s ≢ [] → parse_digits s ≡ scan 0 s
unfolding parse_digits
parse_digits-scan [] h = absurd (h refl)
parse_digits-scan (c ∷ s) h = refl

-- A printed number is read back.
pub parse_digits-itoa : (n : ℕ) → parse_digits (itoa n) ≡ some n
unfolding itoa scan
parse_digits-itoa n =
    rw (parse_digits-scan (digits (suc n) n []) (digits-ne-nil (suc n) n [] (omega arith)))
      (scan-digits (suc n) n [] (omega arith))

pub itoa-ne-nil : (n : ℕ) → itoa n ≢ []
unfolding itoa
itoa-ne-nil n = digits-ne-nil (suc n) n [] (omega arith)

-- Go's int: `negsuc n` is -(n + 1).
pub data ℤ : Type 0 where
  pos : ℕ → ℤ
  negsuc : ℕ → ℤ

abbrev positive : Option ℕ → Option ℤ
positive none = none
positive (some n) = if ltb n (2 ^ 63) then some (pos n) else none

abbrev opposite : ℕ → ℤ
opposite zero = pos 0
opposite (suc n) = negsuc n

abbrev negative : Option ℕ → Option ℤ
negative none = none
negative (some n) = if leb n (2 ^ 63) then some (opposite n) else none

-- `strconv.Atoi` into 64 bits; `none` is its error.
unfoldable pub atoi : Text → Option ℤ
unfolding parse_digits
atoi [] = none
atoi (c ∷ s) =
    if c == b'-'
    then negative (parse_digits s)
    else if c == b'+'
    then positive (parse_digits s)
    else positive (parse_digits (c ∷ s))

unfoldable pub itoa_int : ℤ → Text
unfolding itoa
itoa_int (pos n) = itoa n
itoa_int (negsuc n) = b'-' ∷ itoa (suc n)

abbrev pub IsDigit : ℕ → Type 0
IsDigit c = (b'0' ≤ c) × (c ≤ b'9')

digits-IsDigit : (fuel n : ℕ) (out : Text) → All IsDigit out → All IsDigit (digits fuel n out)
unfolding digits
digits-IsDigit zero n out h = h
digits-IsDigit (suc fuel) n out h = elim (Bool-cases (ltb n 10)) [
  | inl last ↦ rw last ((omega arith, omega arith), h)
  | inr more ↦
      rw more (digits-IsDigit fuel (n / 10) ((b'0' + n % 10) ∷ out) ((omega arith, omega arith), h))
]

pub itoa-IsDigit : (n : ℕ) → All IsDigit (itoa n)
unfolding itoa
itoa-IsDigit n = digits-IsDigit (suc n) n [] tt

atoi-digits :
    (s : Text) (n : ℕ)
    → All IsDigit s
    → parse_digits s ≡ some n
    → n < 2 ^ 63
    → atoi s ≡ some (pos n)
unfolding atoi
atoi-digits [] n d e fits = absurd (cc)
atoi-digits (c ∷ s) n d e fits = ground (arith, d.0)

-- A printed number is read back, as far as it fits.
pub atoi-itoa : (n : ℕ) → n < 2 ^ 63 → atoi (itoa n) ≡ some (pos n)
atoi-itoa n fits = atoi-digits (itoa n) n (itoa-IsDigit n) (parse_digits-itoa n) fits

itoa_429 : itoa 429 ≡ b'4' ∷ b'2' ∷ b'9' ∷ []
unfolding itoa
itoa_429 = refl
