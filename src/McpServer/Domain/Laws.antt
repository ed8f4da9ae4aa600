-- ===== src/McpServer/Domain/Laws.antt =====
-- What a normalised domain is, and that normalising it again changes nothing.
use synthient_mcp.Prelude.{
  ℕ, ◌≤◌, ◌⊎◌, List, [], ◌∷◌, ◌++◌, ◌≡◌, refl, sym, ◌∙◌, ◌≢◌, ◌↔◌, true, false, ◌==◌, length, All,
  all, arith, reverse, ok,
}
use mathlib.Core.List.{reverse-cons}
use synthient_mcp.Text.{Text, codes, split, ends_with, starts_with}
use synthient_mcp.McpServer.Domain.{
  ascii_letter_or_digit, inner_and_last, valid_label, checked_domain, canonical_domain,
  normalize_domain,
}

-- A byte that may stand in a label.
abbrev pub IsLabelByte : ℕ → Type 0
IsLabelByte c = ((b'a' ≤ c) × (c ≤ b'z')) ⊎ (((b'0' ≤ c) × (c ≤ b'9')) ⊎ (c ≡ b'-'))

-- A DNS label: 1 to 63 bytes, letters in lower case, digits and dashes, with no dash at an end.
pub record IsLabel (label : Text) : Type 0 where
  pub short : (1 ≤ length label) × (length label ≤ 63)
  pub bytes : All IsLabelByte label
  pub first : starts_with label (codes "-") ≡ false
  pub last : ends_with label (codes "-") ≡ false

inner_and_last-bytes : (s : Text) → inner_and_last s ≡ true → All IsLabelByte s
unfolding inner_and_last
inner_and_last-bytes [] h = tt
inner_and_last-bytes (c ∷ []) h = (ground arith, tt)
inner_and_last-bytes (c ∷ d ∷ s) h = (ground arith, inner_and_last-bytes (d ∷ s) (ground arith))

starts_with-append_one :
    (xs ys : Text) (b : ℕ) → xs ≢ [] → starts_with (xs ++ ys) (b ∷ []) ≡ starts_with xs (b ∷ [])
unfolding starts_with
starts_with-append_one [] ys b h = absurd (h refl)
starts_with-append_one (x ∷ []) [] b h = refl
starts_with-append_one (x ∷ []) (y ∷ ys) b h = refl
starts_with-append_one (x ∷ z ∷ xs) ys b h = refl

reverse-ne-nil : (c : ℕ) (s : Text) → reverse (c ∷ s) ≢ []
reverse-ne-nil c s e = append_one-ne-nil (reverse s) c (sym (reverse-cons c s) ∙ e)
  where
    append_one-ne-nil : (xs : Text) (c : ℕ) → xs ++ c ∷ [] ≢ []
    append_one-ne-nil [] c = cc
    append_one-ne-nil (x ∷ xs) c = cc

-- The last byte of a text decides what it ends with.
pub ends_with_cons :
    (c d b : ℕ) (s : Text) → ends_with (c ∷ d ∷ s) (b ∷ []) ≡ ends_with (d ∷ s) (b ∷ [])
unfolding ends_with
ends_with_cons c d b s =
    rw (reverse-cons c (d ∷ s))
      (starts_with-append_one (reverse (d ∷ s)) (c ∷ []) b (reverse-ne-nil d s))

pub ends_with_one : (c b : ℕ) → ends_with (c ∷ []) (b ∷ []) ≡ (c == b)
unfolding ends_with starts_with
ends_with_one c b = ground arith

inner_and_last-last :
    (c : ℕ) (s : Text) → inner_and_last (c ∷ s) ≡ true → ends_with (c ∷ s) (codes "-") ≡ false
unfolding inner_and_last
inner_and_last-last c [] k = ground (arith, ends_with_one c b'-')
inner_and_last-last c (d ∷ s) k = ground (arith, ends_with_cons c d b'-' s, inner_and_last-last d s)

label-last :
    (c : ℕ) (s : Text)
    → ascii_letter_or_digit c ≡ true
    → inner_and_last s ≡ true
    → ends_with (c ∷ s) (codes "-") ≡ false
label-last c [] h k = ground (arith, ends_with_one c b'-')
label-last c (d ∷ s) h k = ends_with_cons c d b'-' s ∙ inner_and_last-last d s k

starts_with_one : (c b : ℕ) (s : Text) → starts_with (c ∷ s) (b ∷ []) ≡ (c == b)
unfolding starts_with
starts_with_one c b [] = ground arith
starts_with_one c b (d ∷ s) = ground arith

valid_label-IsLabel : (label : Text) → valid_label label ≡ true → IsLabel label
unfolding valid_label
valid_label-IsLabel [] h = absurd (cc)
valid_label-IsLabel (c ∷ s) h = record {
  short = (omega arith, ground arith);
  bytes = (ground arith, inner_and_last-bytes s (ground arith));
  first = ground (arith, starts_with_one c b'-' s);
  last = label-last c s (ground arith) (ground arith);
}

bytes-inner_and_last :
    (c : ℕ) (s : Text)
    → All IsLabelByte (c ∷ s)
    → ends_with (c ∷ s) (codes "-") ≡ false
    → inner_and_last (c ∷ s) ≡ true
unfolding inner_and_last
bytes-inner_and_last c [] (h, _) e = ground (arith, ends_with_one c b'-')
bytes-inner_and_last c (d ∷ s) (h, hs) e =
    ground (arith, ends_with_cons c d b'-' s, bytes-inner_and_last d s hs)

IsLabel-valid_label : (label : Text) → IsLabel label → valid_label label ≡ true
unfolding valid_label inner_and_last
IsLabel-valid_label [] l = absurd (omega (arith, l.short.0))
IsLabel-valid_label (c ∷ []) l = ground (arith, l.bytes.0, starts_with_one c b'-' [], l.first)
IsLabel-valid_label (c ∷ d ∷ s) l = ground (
  arith,
  l.short.1,
  l.bytes.0,
  l.first,
  starts_with_one c b'-' (d ∷ s),
  bytes-inner_and_last d s l.bytes.1,
  l.last,
  ends_with_cons c d b'-' s,
)

all-valid_label : (labels : List Text) → (all valid_label labels ≡ true) ↔ All IsLabel labels
all-valid_label [] = (λ h. tt, λ h. refl)
all-valid_label (l ∷ ls) = (
  λ h. (valid_label-IsLabel l (ground arith), (all-valid_label ls).0 (ground arith)),
  λ h. ground (arith, IsLabel-valid_label l h.0, (all-valid_label ls).1 h.1),
)

-- A domain name: 1 to 253 bytes, whose parts between dots are labels.
pub record IsDomain (d : Text) : Type 0 where
  pub bounds : (1 ≤ length d) × (length d ≤ 253)
  pub labels : All IsLabel (split b'.' d)

checked_domain_iff :
    (value d : Text) → (checked_domain value ≡ ok d) ↔ ((d ≡ value) × IsDomain value)
checked_domain_iff value d = (forward value, backward value)
  where
    forward : (value : Text) → checked_domain value ≡ ok d → (d ≡ value) × IsDomain value
    forward [] e = absurd (ground arith)
    forward (c ∷ s) e = (
      ground arith,
      record {
        bounds = (omega arith, ground arith);
        labels = (all-valid_label (split b'.' (c ∷ s))).0 (ground arith);
      },
    )

    backward : (value : Text) → (d ≡ value) × IsDomain value → checked_domain value ≡ ok d
    backward [] (same, v) = absurd (omega (arith, v.bounds.0))
    backward (c ∷ s) (same, v) =
        ground (arith, v.bounds.1, (all-valid_label (split b'.' (c ∷ s))).1 v.labels)

-- A domain is accepted exactly if its text without blanks, in lower case and without one trailing
-- dot has 1 to 253 bytes and consists of DNS labels; that text is the result.
pub normalize_domain_iff :
    (unicode_lower : Text → Text) (value d : Text)
    → (normalize_domain unicode_lower value ≡ ok d) ↔ (
        (d ≡ canonical_domain unicode_lower value)
        × IsDomain (canonical_domain unicode_lower value))
unfolding normalize_domain
normalize_domain_iff u value d = checked_domain_iff (canonical_domain u value) d
