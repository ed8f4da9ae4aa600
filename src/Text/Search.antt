-- ===== src/Text/Search.antt =====
-- Laws of HasPrefix and Contains.
use synthient_mcp.Prelude.{ℕ, [], ◌∷◌, ◌++◌, ◌≡◌, refl, ◌≢◌, false, ◌||◌, arith, All}
use synthient_mcp.Text.{Text, starts_with, contains}

-- The text does not hold the byte.
abbrev pub Lacks : ℕ → Text → Type 0
Lacks b = All (λ c. c ≢ b)

pub starts_with-append_stop :
    (w t p : Text) (b : ℕ) → Lacks b p → starts_with (w ++ b ∷ t) p ≡ starts_with w p
unfolding starts_with
starts_with-append_stop w t [] b h = refl
starts_with-append_stop [] t (x ∷ p) b h = ground arith
starts_with-append_stop (c ∷ w) t (x ∷ p) b h = ground (arith, starts_with-append_stop w t p b h.1)

starts_with-nil : (p : Text) → p ≢ [] → starts_with [] p ≡ false
unfolding starts_with
starts_with-nil [] h = absurd (h refl)
starts_with-nil (x ∷ p) h = refl

-- A byte that the searched text lacks separates two places to search.
pub contains-append_stop :
    (w t p : Text) (b : ℕ)
    → p ≢ []
    → Lacks b p
    → contains (w ++ b ∷ t) p ≡ (contains w p || contains t p)
unfolding contains
contains-append_stop [] t p b ne h =
    ground (arith, starts_with-append_stop [] t p b h, starts_with-nil p ne)
contains-append_stop (c ∷ w) t p b ne h =
    ground (arith, starts_with-append_stop (c ∷ w) t p b h, contains-append_stop w t p b ne h)
