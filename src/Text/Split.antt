-- ===== src/Text/Split.antt =====
-- Laws of Split: its parts, joined at the separator, spell the text, and none holds it.
use synthient_mcp.Prelude.{
  ℕ, List, [], ◌∷◌, ◌++◌, ◌≡◌, refl, ◌≢◌, arith, Bool-cases, inl, inr, All, All-append, ◌==◌,
}
use synthient_mcp.Text.{Text, split, push_first}
use synthient_mcp.Text.Search.{Lacks}

-- `strings.Join`, at one byte.
unfoldable pub join : ℕ → List Text → Text
join sep [] = []
join sep (p ∷ []) = p
join sep (p ∷ q ∷ ps) = p ++ sep ∷ join sep (q ∷ ps)

pub split-ne-nil : (sep : ℕ) (s : Text) → split sep s ≢ []
unfolding split
split-ne-nil sep [] = cc
split-ne-nil sep (c ∷ s) = ground (arith, push_first-ne-nil c (split sep s))
  where
    push_first-ne-nil : (c : ℕ) (ps : List Text) → push_first c ps ≢ []
    push_first-ne-nil c [] = cc
    push_first-ne-nil c (p ∷ ps) = cc

join-push_first :
    (sep c : ℕ) (ps : List Text) → ps ≢ [] → join sep (push_first c ps) ≡ c ∷ join sep ps
unfolding join
join-push_first sep c [] h = absurd (h refl)
join-push_first sep c (p ∷ []) h = refl
join-push_first sep c (p ∷ q ∷ ps) h = refl

join-nil-cons : (sep : ℕ) (ps : List Text) → ps ≢ [] → join sep ([] ∷ ps) ≡ sep ∷ join sep ps
unfolding join
join-nil-cons sep [] h = absurd (h refl)
join-nil-cons sep (p ∷ ps) h = refl

pub join-split : (sep : ℕ) (s : Text) → join sep (split sep s) ≡ s
unfolding split
join-split sep [] = unfold join in refl
join-split sep (c ∷ s) = ground (
  arith,
  join-split sep s,
  join-push_first sep c (split sep s) (split-ne-nil sep s),
  join-nil-cons sep (split sep s) (split-ne-nil sep s),
)

push_first-Lacks :
    (sep c : ℕ) (ps : List Text) → c ≢ sep → All (Lacks sep) ps → All (Lacks sep) (push_first c ps)
push_first-Lacks sep c [] h a = ((h, tt), tt)
push_first-Lacks sep c (p ∷ ps) h a = ((h, a.0), a.1)

pub split-Lacks : (sep : ℕ) (s : Text) → All (Lacks sep) (split sep s)
unfolding split
split-Lacks sep [] = (tt, tt)
split-Lacks sep (c ∷ s) = elim (Bool-cases (c == sep)) [
  | inl hit ↦ rw hit (tt, split-Lacks sep s)
  | inr miss ↦ rw miss (push_first-Lacks sep c (split sep s) (ground arith) (split-Lacks sep s))
]

-- A predicate on bytes that holds along the text holds along each part.
push_first-All {ℓ} :
    (P : ℕ → Type ℓ) (c : ℕ) (ps : List Text) → P c → All (All P) ps → All (All P) (push_first c ps)
push_first-All P c [] h a = ((h, tt), tt)
push_first-All P c (p ∷ ps) h a = ((h, a.0), a.1)

pub split-All {ℓ} : (P : ℕ → Type ℓ) (sep : ℕ) (s : Text) → All P s → All (All P) (split sep s)
unfolding split
split-All P sep [] h = (tt, tt)
split-All P sep (c ∷ s) (h, hs) = elim (Bool-cases (c == sep)) [
  | inl hit ↦ rw hit (tt, split-All P sep s hs)
  | inr miss ↦ rw miss (push_first-All P c (split sep s) h (split-All P sep s hs))
]

-- A predicate on bytes that holds along the parts and at the separator holds along the joined text.
pub join-All {ℓ} :
    (P : ℕ → Type ℓ) (sep : ℕ) (ps : List Text) → P sep → All (All P) ps → All P (join sep ps)
unfolding join
join-All P sep [] h a = tt
join-All P sep (p ∷ []) h a = a.0
join-All P sep (p ∷ q ∷ ps) h a =
    All-append P p (sep ∷ join sep (q ∷ ps)) a.0 (h, join-All P sep (q ∷ ps) h a.1)
