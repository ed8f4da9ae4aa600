-- ===== src/Synthient/Response/Line.antt =====
-- The size and the characters of what errorDetail gives.
use synthient_mcp.Prelude.{
  ℕ, zero, suc, ◌+◌, ◌≤◌, List, [], ◌∷◌, ◌++◌, ◌≡◌, refl, false, Option, none, some, ltb, map,
  arith, inl, inr, Bool-cases, All, All-append,
}
use synthient_mcp.Text.{Text, codes, text_eq, trim_space}
use synthient_mcp.Synthient.Json.{Value, null, bool, number, string, array, object, Fields, find}
use synthient_mcp.Synthient.Response.{
  is_control, blank_control, is_start, rune_count, take_runes, ellipsis, shorten, detail_or,
  first_detail, error_detail,
}

-- A text that may stand in one line of an error: no control character, and at most 501 characters.
pub record IsLine (s : Text) : Type 0 where
  pub printable : All (λ c. is_control c ≡ false) s
  pub short : rune_count s ≤ 501

blank_control-printable : (s : Text) → All (λ c. is_control c ≡ false) (map blank_control s)
blank_control-printable [] = tt
blank_control-printable (c ∷ s) = (ground arith, blank_control-printable s)

take_runes-printable :
    (n : ℕ) (s : Text)
    → All (λ c. is_control c ≡ false) s
    → All (λ c. is_control c ≡ false) (take_runes n s)
unfolding take_runes
take_runes-printable n [] h = tt
take_runes-printable zero (c ∷ s) h = elim (Bool-cases (is_start c)) [
  | inl start ↦ rw start tt
  | inr inside ↦ rw inside (h.0, take_runes-printable zero s h.1)
]
take_runes-printable (suc n) (c ∷ s) h = elim (Bool-cases (is_start c)) [
  | inl start ↦ rw start (h.0, take_runes-printable n s h.1)
  | inr inside ↦ rw inside (h.0, take_runes-printable (suc n) s h.1)
]

rune_count-take_runes : (n : ℕ) (s : Text) → rune_count (take_runes n s) ≤ n
unfolding take_runes rune_count
rune_count-take_runes n [] = omega arith
rune_count-take_runes zero (c ∷ s) = ground (arith, rune_count-take_runes zero s)
rune_count-take_runes (suc n) (c ∷ s) =
    ground (arith, rune_count-take_runes n s, rune_count-take_runes (suc n) s)

rune_count-append : (s t : Text) → rune_count (s ++ t) ≡ rune_count s + rune_count t
unfolding rune_count
rune_count-append [] t = omega arith
rune_count-append (c ∷ s) t = omega (arith, rune_count-append s t)

shorten-IsLine : (s : Text) → All (λ c. is_control c ≡ false) s → IsLine (shorten s)
unfolding shorten
shorten-IsLine s h = elim (Bool-cases (ltb 500 (rune_count s))) [
  | inr fits ↦ rw fits (record { printable = h; short = ground arith })
  | inl long ↦ rw long (record {
    printable =
        All-append (λ c. is_control c ≡ false) (take_runes 500 s) ellipsis
          (take_runes-printable 500 s h) (refl, (refl, (refl, tt)));
    short =
        unfold rune_count in
        omega (arith, rune_count-append (take_runes 500 s) ellipsis, rune_count-take_runes 500 s);
  })
]

detail_or-IsLine : (o : Option Value) (later : Text) → IsLine later → IsLine (detail_or o later)
unfolding detail_or
detail_or-IsLine none later h = h
detail_or-IsLine (some (string s)) later h = elim (Bool-cases (text_eq (trim_space s) [])) [
  | inl blank ↦ rw blank h
  | inr shown ↦ rw shown (shorten-IsLine _ (blank_control-printable (trim_space s)))
]
detail_or-IsLine (some null) later h = h
detail_or-IsLine (some (bool b)) later h = h
detail_or-IsLine (some (number n)) later h = h
detail_or-IsLine (some (array xs)) later h = h
detail_or-IsLine (some (object fs)) later h = h

nil-IsLine : IsLine []
nil-IsLine = record { printable = tt; short = unfold rune_count in omega arith }

first_detail-IsLine : (keys : List Text) (fs : Fields) → IsLine (first_detail keys fs)
unfolding first_detail
first_detail-IsLine [] fs = nil-IsLine
first_detail-IsLine (key ∷ keys) fs =
    detail_or-IsLine (find key fs) (first_detail keys fs) (first_detail-IsLine keys fs)

-- Whatever the upstream answers, the detail that is put into an error has no control character,
-- so it cannot break a line of a log, and at most 501 characters, the ellipsis included.
pub error_detail-IsLine : (decoded : Option Fields) → IsLine (error_detail decoded)
unfolding error_detail
error_detail-IsLine none = nil-IsLine
error_detail-IsLine (some fs) =
    first_detail-IsLine (codes "message" ∷ codes "error" ∷ codes "detail" ∷ []) fs
