-- ===== src/Synthient/Response/Detail.antt =====
-- What errorDetail can let out of an answer of the upstream.
use synthient_mcp.Prelude.{
  ℕ, zero, suc, ◌≤◌, List, [], ◌∷◌, ◌++◌, ◌≡◌, ◌≢◌, refl, ap, false, Option, none, some, ltb, map,
  arith, inl, inr, Bool-cases, All,
}
use synthient_mcp.Text.{Text, codes, text_eq, trim_space, starts_with, contains}
use synthient_mcp.Text.Trim.{IsVisible}
use synthient_mcp.Text.Search.{Lacks, contains-append_stop}
use synthient_mcp.Text.Parts.{IsPart, contains-IsPart, trim_space-IsPart}
use synthient_mcp.Synthient.Json.{
  Value, null, bool, number, string, array, object, Fields, end, field, find,
}
use synthient_mcp.Synthient.Sanitize.{sanitize_object, sanitize_fields}
use synthient_mcp.Synthient.Sanitize.Laws.{
  IsRedactable, IsClean, a_string, HasClean, a_field, sanitize_fields-HasClean,
}
use synthient_mcp.Synthient.Response.{
  blank_control, is_start, rune_count, take_runes, shorten, detail_or, first_detail, error_detail,
}

starts_with-blank_control :
    (s p : Text)
    → All IsVisible p
    → starts_with s p ≡ false
    → starts_with (map blank_control s) p ≡ false
unfolding starts_with
starts_with-blank_control [] [] h e = absurd (cc)
starts_with-blank_control (c ∷ s) [] h e = absurd (cc)
starts_with-blank_control [] (x ∷ p) h e = refl
starts_with-blank_control (c ∷ s) (x ∷ p) h e = elim (Bool-cases (starts_with s p)) [
  | inl later ↦ ground (arith, h.0)
  | inr later ↦ ground (arith, starts_with-blank_control s p h.1 later)
]

contains-blank_control :
    (s p : Text) → All IsVisible p → contains s p ≡ false → contains (map blank_control s) p ≡ false
unfolding contains
contains-blank_control [] p h e = starts_with-blank_control [] p h e
contains-blank_control (c ∷ s) p h e =
    ground (arith, starts_with-blank_control (c ∷ s) p h, contains-blank_control s p h)

take_runes-IsPart : (n : ℕ) (s : Text) → IsPart (take_runes n s) s
unfolding take_runes
take_runes-IsPart n s =
    let (back, same) = prefix n s in record { front = []; back = back; placed = same }
  where
    prefix : (n : ℕ) (s : Text) → (back : Text) × (s ≡ take_runes n s ++ back)
    prefix n [] = ([], refl)
    prefix zero (c ∷ s) = elim (Bool-cases (is_start c)) [
      | inl start ↦ (c ∷ s, rw start refl)
      | inr inside ↦ let (back, same) = prefix zero s in (back, rw inside (ap (λ t. c ∷ t) same))
    ]
    prefix (suc n) (c ∷ s) = elim (Bool-cases (is_start c)) [
      | inl start ↦ let (back, same) = prefix n s in (back, rw start (ap (λ t. c ∷ t) same))
      | inr inside ↦ let (back, same) = prefix (suc n) s in (back, rw inside (ap (λ t. c ∷ t) same))
    ]

visible-Lacks : (p : Text) (b : ℕ) → 128 ≤ b → All IsVisible p → Lacks b p
visible-Lacks [] b h v = tt
visible-Lacks (x ∷ p) b h v = (λ e. omega (arith, v.0.1), visible-Lacks p b h v.1)

nil_lacks : (p : Text) → p ≢ [] → contains [] p ≡ false
unfolding contains starts_with
nil_lacks [] filled = absurd (filled refl)
nil_lacks (x ∷ p) filled = refl

ellipsis-lacks : (p : Text) → p ≢ [] → All IsVisible p → contains (0x80 ∷ 0xa6 ∷ []) p ≡ false
unfolding contains starts_with
ellipsis-lacks [] filled v = absurd (filled refl)
ellipsis-lacks (x ∷ p) filled v = ground (arith, v.0.1)

shorten_hides :
    (s p : Text) → p ≢ [] → All IsVisible p → contains s p ≡ false → contains (shorten s) p ≡ false
unfolding shorten
shorten_hides s p filled v h = elim (Bool-cases (ltb 500 (rune_count s))) [
  | inr fits ↦ rw fits h
  | inl long ↦ rw long (
      ground (
        arith,
        contains-append_stop (take_runes 500 s) (0x80 ∷ 0xa6 ∷ []) p 0xe2 filled
            (visible-Lacks p 0xe2 (omega arith) v),
        contains-IsPart (take_runes 500 s) s p (take_runes-IsPart 500 s) h,
        ellipsis-lacks p filled v,
      ))
]

-- What holds of the value of every key of a clean object.
find-IsClean :
    (secret key : Text) (fs : Fields) (v : Value)
    → HasClean secret fs
    → find key fs ≡ some v
    → IsClean secret v
unfolding find
find-IsClean secret key end v h e = absurd (cc)
find-IsClean secret key (field k w fs) v (a_field named clean rest) e =
    elim (Bool-cases (text_eq k key)) [
      | inl hit ↦ let same : w ≡ v = ground arith in rw (← same) clean
      | inr miss ↦ find-IsClean secret key fs v rest (ground arith)
    ]

module _ (secret : Text) (filled : secret ≢ []) (visible : All IsVisible secret) where
  detail_or_hides :
      (o : Option Value) (later : Text)
      → ((v : Value) → o ≡ some v → IsClean secret v)
      → contains later secret ≡ false
      → contains (detail_or o later) secret ≡ false
  unfolding detail_or
  detail_or_hides none later clean h = h
  detail_or_hides (some (string s)) later clean h = elim (Bool-cases (text_eq (trim_space s) [])) [
    | inl blank ↦ rw blank h
    | inr shown ↦ rw shown (
        shorten_hides (map blank_control (trim_space s)) secret filled visible (
          contains-blank_control (trim_space s) secret visible (
            contains-IsPart (trim_space s) s secret (trim_space-IsPart s)
              (string_clean s (clean (string s) refl)))))
  ]
    where
      string_clean : (s : Text) → IsClean secret (string s) → contains s secret ≡ false
      string_clean s (a_string _ lacks) = lacks
  detail_or_hides (some null) later clean h = h
  detail_or_hides (some (bool b)) later clean h = h
  detail_or_hides (some (number n)) later clean h = h
  detail_or_hides (some (array xs)) later clean h = h
  detail_or_hides (some (object fs)) later clean h = h

  first_detail_hides :
      (keys : List Text) (fs : Fields)
      → HasClean secret fs
      → contains (first_detail keys fs) secret ≡ false
  unfolding first_detail
  first_detail_hides [] fs h = nil_lacks secret filled
  first_detail_hides (key ∷ keys) fs h =
      detail_or_hides (find key fs) (first_detail keys fs) (λ v e. find-IsClean secret key fs v h e)
        (first_detail_hides keys fs h)

-- The detail that is put into an error never holds the caller's key, if that is a redactable text
-- of visible ASCII characters: not even the trimming, the blanks in place of control characters
-- and the cut at 500 characters let it appear again.
pub error_detail_hides :
    (secret : Text) (decoded : Option Fields)
    → IsRedactable secret
    → All IsVisible secret
    → contains (error_detail (sanitize_object secret decoded)) secret ≡ false
unfolding error_detail sanitize_object
error_detail_hides secret none r visible = nil_lacks secret r.occurs
error_detail_hides secret (some fs) r visible =
    first_detail_hides secret r.occurs visible
      (codes "message" ∷ codes "error" ∷ codes "detail" ∷ []) (sanitize_fields secret fs)
      (sanitize_fields-HasClean secret fs r)
