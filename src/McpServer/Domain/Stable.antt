-- ===== src/McpServer/Domain/Stable.antt =====
-- A normalised domain is safe in a URL path, and normalising it again changes nothing.
use synthient_mcp.Prelude.{
  ℕ, ◌⊎◌, List, [], ◌∷◌, ◌≡◌, refl, sym, ◌∙◌, subst, ◌≢◌, true, false, ◌==◌, All, arith, inl, inr,
  Bool-cases, ok,
}
use synthient_mcp.Text.{Text, codes, trim_suffix, split, push_first, ends_with}
use synthient_mcp.Text.Trim.{trim_space_visible, to_lower_lower}
use synthient_mcp.Text.Split.{join-split, join-All}
use synthient_mcp.McpServer.Domain.{canonical_domain, normalize_domain}
use synthient_mcp.McpServer.Domain.Laws.{
  IsLabelByte, IsLabel, IsDomain, normalize_domain_iff, ends_with_cons, ends_with_one,
}

-- The bytes of a domain name: no blank, no capital, and none with a meaning in a URL.
abbrev pub IsDomainByte : ℕ → Type 0
IsDomainByte c = IsLabelByte c ⊎ (c ≡ b'.')

map-All {ℓ κ} :
    {P : ℕ → Type ℓ} {Q : ℕ → Type κ} (s : Text) → ((c : ℕ) → P c → Q c) → All P s → All Q s
map-All [] f h = tt
map-All (c ∷ s) f h = (f c h.0, map-All s f h.1)

labels-bytes : (ls : List Text) → All IsLabel ls → All (All IsDomainByte) ls
labels-bytes [] h = tt
labels-bytes (l ∷ ls) h = (map-All l (λ c b. inl b) h.0.bytes, labels-bytes ls h.1)

IsDomain-bytes : (d : Text) → IsDomain d → All IsDomainByte d
IsDomain-bytes d v =
    subst (All IsDomainByte) (join-split b'.' d)
      (join-All IsDomainByte b'.' (split b'.' d) (inr refl) (labels-bytes (split b'.' d) v.labels))

-- Every part but perhaps the first holds a byte.
abbrev TailFull : List Text → Type 0
TailFull [] = Unit
TailFull (p ∷ ps) = All (λ q. q ≢ []) ps

TailFull-push_first : (c : ℕ) (ps : List Text) → TailFull (push_first c ps) → TailFull ps
TailFull-push_first c [] h = tt
TailFull-push_first c (p ∷ ps) h = h

TailFull-of_All : (ps : List Text) → All (λ q. q ≢ []) ps → TailFull ps
TailFull-of_All [] h = tt
TailFull-of_All (p ∷ ps) h = h.1

no_last_dot :
    (c : ℕ) (s : Text) → TailFull (split b'.' (c ∷ s)) → ends_with (c ∷ s) (codes ".") ≡ false
unfolding split
no_last_dot c [] h = elim (Bool-cases (c == b'.')) [
  | inl hit ↦ absurd ((rw hit at h).0 refl)
  | inr miss ↦ ends_with_one c b'.' ∙ miss
]
no_last_dot c (d ∷ s) h =
    ends_with_cons c d b'.' s ∙ no_last_dot d s (inner (Bool-cases (c == b'.')))
  where
    inner : ((c == b'.') ≡ true) ⊎ ((c == b'.') ≡ false) → TailFull (split b'.' (d ∷ s))
    inner (inl hit) = TailFull-of_All (split b'.' (d ∷ s)) (rw hit at h)
    inner (inr miss) = TailFull-push_first c (split b'.' (d ∷ s)) (rw miss at h)

labels-full : (ls : List Text) → All IsLabel ls → All (λ q. q ≢ []) ls
labels-full [] h = tt
labels-full ([] ∷ ls) h = absurd (omega (arith, h.0.short.0))
labels-full ((c ∷ l) ∷ ls) h = (cc, labels-full ls h.1)

trim_suffix_miss : (suffix s : Text) → ends_with s suffix ≡ false → trim_suffix suffix s ≡ s
unfolding trim_suffix
trim_suffix_miss suffix s h = rw h

canonical_domain_stable :
    (unicode_lower : Text → Text) (d : Text) → IsDomain d → canonical_domain unicode_lower d ≡ d
canonical_domain_stable u [] v = absurd (omega (arith, v.bounds.0))
canonical_domain_stable u (c ∷ s) v =
    let bytes = IsDomain-bytes (c ∷ s) v in
    let trimmed = trim_space_visible (c ∷ s) (map-All (c ∷ s) (λ b h. ground arith) bytes) in
    let lowered = to_lower_lower u (c ∷ s) (map-All (c ∷ s) (λ b h. ground arith) bytes) in
    let last =
      no_last_dot c s
        (TailFull-of_All (split b'.' (c ∷ s)) (labels-full (split b'.' (c ∷ s)) v.labels)) in
    rw (trimmed, lowered) (trim_suffix_miss (codes ".") (c ∷ s) last)

-- Whatever the caller sends, an accepted domain holds letters in lower case, digits, dashes and
-- dots alone, so nothing of it is read as a path, a query or an escape.
pub normalize_domain-bytes :
    (unicode_lower : Text → Text) (value d : Text)
    → normalize_domain unicode_lower value ≡ ok d
    → All IsDomainByte d
normalize_domain-bytes u value d e =
    let (same, v) = (normalize_domain_iff u value d).0 e in rw same (IsDomain-bytes _ v)

-- An accepted domain is accepted again as it is.
pub normalize_domain_idem :
    (unicode_lower : Text → Text) (value d : Text)
    → normalize_domain unicode_lower value ≡ ok d
    → normalize_domain unicode_lower d ≡ ok d
normalize_domain_idem u value d e =
    let (same, v) = (normalize_domain_iff u value d).0 e in
    let v' : IsDomain d = rw same v in
    let stable = canonical_domain_stable u d v' in
    (normalize_domain_iff u d d).1 (sym stable, rw stable v')
