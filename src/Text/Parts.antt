-- ===== src/Text/Parts.antt =====
-- The parts of a text, which Contains finds and TrimSpace leaves.
use synthient_mcp.Prelude.{
  ℕ, zero, suc, [], ◌∷◌, ◌++◌, ◌≡◌, refl, sym, ◌∙◌, ap, true, false, ◌==◌, inl, inr, Bool-cases,
  arith, append_assoc, append-nil, reverse, drop, length,
}
use mathlib.Core.List.{reverse-append, reverse-reverse}
use synthient_mcp.Text.{
  Text, starts_with, contains, space_width, last_space_width, trim_by, trim_space,
}

pub record IsPart (p s : Text) : Type 0 where
  pub front : Text
  pub back : Text
  pub placed : s ≡ front ++ (p ++ back)

pub IsPart-refl : (s : Text) → IsPart s s
IsPart-refl s = record { front = []; back = []; placed = sym (append-nil s) }

pub IsPart-trans : (p s t : Text) → IsPart p s → IsPart s t → IsPart p t
IsPart-trans p s t inner outer = record {
  front = outer.front ++ inner.front;
  back = inner.back ++ outer.back;
  placed = outer.placed ∙ rw inner.placed (simp (append_assoc));
}

starts_with_sound : (s p : Text) → starts_with s p ≡ true → (back : Text) × (s ≡ p ++ back)
unfolding starts_with
starts_with_sound s [] h = (s, refl)
starts_with_sound [] (x ∷ p) h = absurd (cc)
starts_with_sound (c ∷ s) (x ∷ p) h =
    let (back, same) = starts_with_sound s p (ground arith) in (back, ground arith)

pub starts_with_complete : (p back : Text) → starts_with (p ++ back) p ≡ true
unfolding starts_with
starts_with_complete [] [] = refl
starts_with_complete [] (b ∷ back) = refl
starts_with_complete (x ∷ p) back = ground (arith, starts_with_complete p back)

pub contains_sound : (s p : Text) → contains s p ≡ true → IsPart p s
unfolding contains
contains_sound [] p h =
    let (back, same) = starts_with_sound [] p h in record { front = []; back = back; placed = same }
contains_sound (c ∷ s) p h = elim (Bool-cases (starts_with (c ∷ s) p)) [
  | inl here ↦
      let (back, same) = starts_with_sound (c ∷ s) p here in
      record { front = []; back = back; placed = same }
  | inr later ↦
      let part = contains_sound s p (ground arith) in
      record { front = c ∷ part.front; back = part.back; placed = ap (λ t. c ∷ t) part.placed }
]

contains_complete : (front p back : Text) → contains (front ++ (p ++ back)) p ≡ true
unfolding contains
contains_complete [] [] [] = starts_with_complete [] []
contains_complete [] [] (b ∷ back) = ground (arith, starts_with_complete [] (b ∷ back))
contains_complete [] (x ∷ p) back = ground (arith, starts_with_complete (x ∷ p) back)
contains_complete (c ∷ front) p back = ground (arith, contains_complete front p back)

-- A text that lacks a part lacks it in each of its own parts.
pub contains-IsPart : (s t p : Text) → IsPart s t → contains t p ≡ false → contains s p ≡ false
contains-IsPart s t p inside h = elim (Bool-cases (contains s p)) [
  | inr lacks ↦ lacks
  | inl has ↦
      let whole = IsPart-trans p s t (contains_sound s p has) inside in
      absurd (ground (arith, whole.placed, contains_complete whole.front p whole.back))
]

IsPart-reverse : (s t : Text) → IsPart s t → IsPart (reverse s) (reverse t)
IsPart-reverse s t part = record {
  front = reverse part.back;
  back = reverse part.front;
  placed = rw part.placed (simp (reverse-append, append_assoc));
}

drop-IsPart : (n : ℕ) (s : Text) → IsPart (drop n s) s
drop-IsPart zero s = IsPart-refl s
drop-IsPart (suc n) [] = IsPart-refl []
drop-IsPart (suc n) (c ∷ s) =
    let part = drop-IsPart n s in
    record { front = c ∷ part.front; back = part.back; placed = ap (λ t. c ∷ t) part.placed }

trim_by-IsPart : (width : Text → ℕ) (n : ℕ) (s : Text) → IsPart (trim_by width n s) s
unfolding trim_by
trim_by-IsPart width zero s = IsPart-refl s
trim_by-IsPart width (suc n) s = elim (Bool-cases (width s == 0)) [
  | inl stop ↦ rw stop (IsPart-refl s)
  | inr go ↦
      rw go
        (IsPart-trans _ (drop (width s) s) s (trim_by-IsPart width n _) (drop-IsPart (width s) s))
]

pub trim_space-IsPart : (s : Text) → IsPart (trim_space s) s
unfolding trim_space
trim_space-IsPart s =
    let front = trim_by space_width (length s) s in
    let back = trim_by last_space_width (length front) (reverse front) in
    let flipped : IsPart (reverse back) (reverse (reverse front)) =
      IsPart-reverse back (reverse front)
        (trim_by-IsPart last_space_width (length front) (reverse front)) in
    IsPart-trans (reverse back) front s (rw reverse-reverse at flipped)
      (trim_by-IsPart space_width (length s) s)
