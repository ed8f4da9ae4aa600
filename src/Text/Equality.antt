-- ===== src/Text/Equality.antt =====
-- `text_eq` and `member` decide equality and membership.
use synthient_mcp.Prelude.{
  [], ◌∷◌, ◌≡◌, refl, ◌≢◌, ◌⊎◌, true, false, ==_refl, arith, Bool-cases, inl, inr,
}
use synthient_mcp.Text.{Text, text_eq}

pub text_eq_refl : (s : Text) → text_eq s s ≡ true
unfolding text_eq
text_eq_refl [] = refl
text_eq_refl (a ∷ s) = ground (arith, ==_refl a, text_eq_refl s)

pub text_eq→eq : (s t : Text) → text_eq s t ≡ true → s ≡ t
unfolding text_eq
text_eq→eq [] [] h = refl
text_eq→eq (a ∷ s) (b ∷ t) h = ground (arith, text_eq→eq s t)
text_eq→eq [] (b ∷ t) h = cc
text_eq→eq (a ∷ s) [] h = cc

pub eq→text_eq : (s t : Text) → s ≡ t → text_eq s t ≡ true
eq→text_eq s t e = rw e (text_eq_refl t)

pub ne→text_eq : (s t : Text) → s ≢ t → text_eq s t ≡ false
ne→text_eq s t h = elim (Bool-cases (text_eq s t)) [
  | inl e ↦ absurd (h (text_eq→eq s t e))
  | inr e ↦ e
]

-- The cases of a comparison, with both readings.
pub text_eq-cases :
    (s t : Text) → ((text_eq s t ≡ true) × (s ≡ t)) ⊎ ((text_eq s t ≡ false) × (s ≢ t))
text_eq-cases s t = elim (Bool-cases (text_eq s t)) [
  | inl e ↦ inl (e, text_eq→eq s t e)
  | inr e ↦ inr (e, λ p. ground (arith, eq→text_eq s t p))
]

pub text_eq_comm : (s t : Text) → text_eq s t ≡ text_eq t s
unfolding text_eq
text_eq_comm [] [] = refl
text_eq_comm (a ∷ s) (b ∷ t) = ground (arith, text_eq_comm s t)
text_eq_comm [] (b ∷ t) = refl
text_eq_comm (a ∷ s) [] = refl
