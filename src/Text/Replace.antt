-- ===== src/Text/Replace.antt =====
-- What is left of the replaced text after ReplaceAll.
use synthient_mcp.Prelude.{
  ℕ, zero, suc, ◌-◌, [], ◌∷◌, ◌++◌, ◌≡◌, refl, ◌≢◌, true, false, length, arith, Bool-cases, inl,
  inr, append_assoc, ◌∙◌,
}
use synthient_mcp.Text.{Text, starts_with, contains, replace_from, replace_all}
use synthient_mcp.Text.Search.{Lacks, contains-append_stop}

-- The output agrees with the input up to the first byte of the marker.
starts_with-replace_from :
    (old new : Text) (open_byte : ℕ) (s p : Text)
    → Lacks open_byte p
    → starts_with (replace_from old (open_byte ∷ new) zero s) p ≡ true
    → starts_with s p ≡ true
unfolding starts_with replace_from
starts_with-replace_from old new b s [] h e = refl
starts_with-replace_from old new b [] (x ∷ p) h e = e
starts_with-replace_from old new b (c ∷ s) (x ∷ p) h e =
    ground (arith, starts_with-replace_from old new b s p h.1)

starts_with_cons-replace_from :
    (old new : Text) (open_byte c : ℕ) (s p : Text)
    → Lacks open_byte p
    → starts_with (c ∷ replace_from old (open_byte ∷ new) zero s) p ≡ true
    → starts_with (c ∷ s) p ≡ true
unfolding starts_with
starts_with_cons-replace_from old new b c s [] h e = refl
starts_with_cons-replace_from old new b c s (x ∷ p) h e =
    ground (arith, starts_with-replace_from old new b s p h.1)

contains-nil : (p : Text) → p ≢ [] → contains [] p ≡ false
unfolding contains starts_with
contains-nil [] h = absurd (h refl)
contains-nil (x ∷ p) h = refl

module _ (old inner : Text) (open_byte close_byte : ℕ) (occurs : old ≢ [])
    (no_open : Lacks open_byte old) (no_close : Lacks close_byte old)
    (fresh : contains (open_byte ∷ inner) old ≡ false) where
  abbrev marker : Text
  marker = open_byte ∷ (inner ++ close_byte ∷ [])

  contains-marker-append : (t : Text) → contains t old ≡ false → contains (marker ++ t) old ≡ false
  contains-marker-append t h =
      rw (append_assoc inner (close_byte ∷ []) t)
        (contains-append_stop (open_byte ∷ inner) t old close_byte occurs no_close ∙ cc)

  contains_cons-replace_from :
      (c : ℕ) (s : Text)
      → starts_with (c ∷ s) old ≡ false
      → contains (replace_from old marker zero s) old ≡ false
      → contains (c ∷ replace_from old marker zero s) old ≡ false
  unfolding contains
  contains_cons-replace_from c s miss h = ground (
    arith,
    starts_with_cons-replace_from old (inner ++ close_byte ∷ []) open_byte c s old no_open,
  )

  contains-replace_from :
      (skip : ℕ) (s : Text) → contains (replace_from old marker skip s) old ≡ false
  unfolding replace_from
  contains-replace_from zero [] = contains-nil old occurs
  contains-replace_from (suc k) [] = contains-nil old occurs
  contains-replace_from (suc k) (c ∷ s) = contains-replace_from k s
  contains-replace_from zero (c ∷ s) = elim (Bool-cases (starts_with (c ∷ s) old)) [
    | inl hit ↦
        rw (hit, replace_from) (contains-marker-append _ (contains-replace_from (length old - 1) s))
    | inr miss ↦
        rw (miss, replace_from) (contains_cons-replace_from c s miss (contains-replace_from zero s))
  ]

  -- A bracketed marker that does not spell the replaced text leaves none of it behind.
  pub contains-replace_all : (s : Text) → contains (replace_all s old marker) old ≡ false
  unfolding replace_all
  contains-replace_all s = contains-replace_from zero s

replace_from_miss : (old new s : Text) → contains s old ≡ false → replace_from old new zero s ≡ s
unfolding replace_from contains
replace_from_miss old new [] h = refl
replace_from_miss old new (c ∷ s) h = ground (arith, replace_from_miss old new s)

-- A text that does not hold the searched text stays as it is.
pub replace_all_miss : (s old new : Text) → contains s old ≡ false → replace_all s old new ≡ s
unfolding replace_all
replace_all_miss s old new h = replace_from_miss old new s h
