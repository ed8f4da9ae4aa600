-- ===== src/Text/Cutting.antt =====
-- Laws of Cut.
use synthient_mcp.Prelude.{
  ℕ, [], ◌∷◌, ◌++◌, ◌≡◌, refl, true, false, arith, if◌then◌else◌, Bool-cases, inl, inr, ◌==◌,
}
use synthient_mcp.Text.{Text, Cut, cut}
use synthient_mcp.Text.Search.{Lacks}

-- What a cut says of the text that was cut.
abbrev pub IsCut : ℕ → Text → Cut → Type 0
IsCut sep s c =
    (Lacks sep c.before) × (s ≡ (if c.found then c.before ++ sep ∷ c.after else c.before))

pub cut-IsCut : (sep : ℕ) (s : Text) → IsCut sep s (cut sep s)
unfolding cut
cut-IsCut sep [] = (tt, refl)
cut-IsCut sep (c ∷ s) = elim (Bool-cases (c == sep)) [
  | inl hit ↦ rw hit (tt, ground arith)
  | inr miss ↦ let ih = cut-IsCut sep s in rw miss ((ground arith, ih.0), ground (arith, ih.1))
]

pub cut_miss :
    (sep : ℕ) (s : Text)
    → Lacks sep s
    → cut sep s ≡ record { before = s; after = []; found = false }
unfolding cut
cut_miss sep [] h = refl
cut_miss sep (c ∷ s) h = ground (arith, cut_miss sep s h.1)

pub cut_hit :
    (sep : ℕ) (s t : Text)
    → Lacks sep s
    → cut sep (s ++ sep ∷ t) ≡ record { before = s; after = t; found = true }
unfolding cut
cut_hit sep [] t h = ground arith
cut_hit sep (c ∷ s) t h = ground (arith, cut_hit sep s t h.1)
