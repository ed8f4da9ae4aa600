-- ===== src/Net/Url/Segments.antt =====
-- Escaped segments of a path, and path.Clean, Split and unescaping on a path made of them.
use synthient_mcp.Prelude.{
  ℕ, ◌/◌, ◌%◌, ◌<◌, [], ◌∷◌, ◌++◌, ◌≡◌, refl, ◌∙◌, ap, ◌≢◌, some, Bool, true, false, not, ◌==◌, all,
  any, All, arith, inl, inr, Bool-cases,
}
use synthient_mcp.Text.{Text, codes}
use synthient_mcp.Text.Search.{Lacks}
use synthient_mcp.Net.Url.{
  Mode, path_mode, segment_mode, query_mode, is_kept, hex_upper, escape, unescape, plus_for_blank,
  is_encoded_byte,
}
use synthient_mcp.Net.Url.Escaping.{
  AreBytes, IsPathMode, prepend_all, unescape-escape_append, unescape-escape,
}

-- A text that names a segment, which path.Clean keeps: neither empty nor `.` nor `..`.
abbrev pub IsNamed : Text → Type 0
IsNamed s = (s ≢ []) × (s ≢ codes ".") × (s ≢ codes "..")

-- A text with a byte other than a dot.
abbrev pub IsLettered : Text → Type 0
IsLettered s = any (λ c. not (c == b'.')) s ≡ true

pub lettered-IsNamed : (s : Text) → IsLettered s → IsNamed s
lettered-IsNamed [] h = absurd (cc)
lettered-IsNamed (c ∷ s) h = (cc, λ e. ground (arith, e), λ e. ground (arith, e))

-- A segment as the program is given it.
pub record IsPlain (s : Text) : Type 0 where
  pub visible : IsNamed s
  pub bytes : AreBytes s

-- A segment as it stands in an encoded path.
pub record IsEscaped (e : Text) : Type 0 where
  pub raw : Text
  pub undone : (t : Text) → unescape (e ++ t) ≡ prepend_all raw (unescape t)
  pub valid : all is_encoded_byte e ≡ true
  pub whole : Lacks b'/' e
  pub visible : IsNamed e

-- A predicate that holds of the bytes kept and of those of an escape holds along an escaped text.
-- A slash that the mode keeps is one of the text.
escape-All {ℓ} :
    (P : ℕ → Type ℓ) (mode : Mode) (s : Text)
    → IsPathMode mode
    → All (λ c. is_kept mode c ≡ true → P c) s
    → P b'%'
    → ((d : ℕ) → d < 16 → P (hex_upper d))
    → All P (escape mode s)
unfolding escape
escape-All P mode [] m kept sign digit = tt
escape-All P mode (c ∷ s) m (hc, h) sign digit =
    let rest = escape-All P mode s m h sign digit in
    elim (Bool-cases (is_kept mode c)) [
      | inl is_in ↦ rw is_in (hc is_in, rest)
      | inr out ↦
          rw (out, no_plus mode c m)
            (sign, (digit (c / 16 % 16) (omega arith), (digit (c % 16) (omega arith), rest)))
    ]
  where
    no_plus : (mode : Mode) (c : ℕ) → IsPathMode mode → plus_for_blank mode c ≡ false
    no_plus path_mode c m = refl
    no_plus segment_mode c m = refl
    no_plus query_mode c m = absurd (m refl)

everywhere {ℓ} : (P : ℕ → Type ℓ) (s : Text) → ((c : ℕ) → P c) → All P s
everywhere P [] h = tt
everywhere P (c ∷ s) h = (h c, everywhere P s h)

kept-encoded : (mode : Mode) (c : ℕ) → is_kept mode c ≡ true → is_encoded_byte c ≡ true
kept-encoded path_mode c h = ground arith
kept-encoded segment_mode c h = ground arith
kept-encoded query_mode c h = ground arith

pub all-All : (p : ℕ → Bool) (s : Text) → All (λ c. p c ≡ true) s → all p s ≡ true
all-All p [] h = refl
all-All p (c ∷ s) (hc, h) = rw (hc, all-All p s h) refl

escape-All-valid :
    (mode : Mode) (s : Text) → IsPathMode mode → All (λ c. is_encoded_byte c ≡ true) (escape mode s)
escape-All-valid mode s m =
    escape-All (λ c. is_encoded_byte c ≡ true) mode s m
      (everywhere (λ c. is_kept mode c ≡ true → is_encoded_byte c ≡ true) s (kept-encoded mode))
      refl (λ d h. ground arith)

escape-valid :
    (mode : Mode) (s : Text) → IsPathMode mode → all is_encoded_byte (escape mode s) ≡ true
escape-valid mode s m = all-All is_encoded_byte (escape mode s) (escape-All-valid mode s m)

-- An escaped segment is valid in an encoded path.
pub segment-valid : (s : Text) → All (λ c. is_encoded_byte c ≡ true) (escape segment_mode s)
segment-valid s = escape-All-valid segment_mode s (cc)

pub segment-Lacks : (s : Text) → Lacks b'/' (escape segment_mode s)
segment-Lacks s =
    escape-All (λ c. c ≢ b'/') segment_mode s (cc)
      (everywhere (λ c. is_kept segment_mode c ≡ true → c ≢ b'/') s (λ c h. ground arith)) (cc)
      (λ d h. ground arith)

path-Lacks : (s : Text) → Lacks b'/' s → Lacks b'/' (escape path_mode s)
path-Lacks s h = escape-All (λ c. c ≢ b'/') path_mode s (cc) (known s h) (cc) (λ d h. ground arith)
  where
    known : (s : Text) → Lacks b'/' s → All (λ c. is_kept path_mode c ≡ true → c ≢ b'/') s
    known [] h = tt
    known (c ∷ s) h = ((λ _. h.0), known s h.1)

-- Only a text that unescapes to a name is one: the three exceptions stand for themselves.
escape-IsNamed :
    (mode : Mode) (s : Text) → IsPathMode mode → AreBytes s → IsNamed s → IsNamed (escape mode s)
escape-IsNamed mode s m h (some_byte, one, two) =
    let back = unescape-escape mode s m h in
    (
      λ e. some_byte (undo [] (unfold unescape in refl) e back),
      λ e. one (undo (codes ".") (unfold unescape in refl) e back),
      λ e. two (undo (codes "..") (unfold unescape in refl) e back),
    )
  where
    undo :
        (t : Text)
        → unescape t ≡ some t
        → escape mode s ≡ t
        → unescape (escape mode s) ≡ some s
        → s ≡ t
    undo t plain e back =
        let here : unescape (escape mode s) ≡ some t = ap unescape e ∙ plain in
        ground (arith, here, back)

pub segment-IsEscaped : (s : Text) → IsPlain s → IsEscaped (escape segment_mode s)
segment-IsEscaped s h = record {
  raw = s;
  undone = λ t. unescape-escape_append segment_mode s t (cc) h.bytes;
  valid = escape-valid segment_mode s (cc);
  whole = segment-Lacks s;
  visible = escape-IsNamed segment_mode s (cc) h.bytes h.visible;
}

pub path-IsEscaped : (s : Text) → IsPlain s → Lacks b'/' s → IsEscaped (escape path_mode s)
path-IsEscaped s h lacks = record {
  raw = s;
  undone = λ t. unescape-escape_append path_mode s t (cc) h.bytes;
  valid = escape-valid path_mode s (cc);
  whole = path-Lacks s lacks;
  visible = escape-IsNamed path_mode s (cc) h.bytes h.visible;
}
