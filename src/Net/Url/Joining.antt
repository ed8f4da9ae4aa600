-- ===== src/Net/Url/Joining.antt =====
-- JoinPath on a path of escaped segments: it hangs one more segment on, and nothing else happens.
use mathlib.Core.List.{reverse-cons}
use synthient_mcp.Prelude.{
  ℕ, List, [], ◌∷◌, ◌++◌, ◌≡◌, refl, sym, ◌∙◌, ap, ◌≢◌, Bool, true, false, Option, none, some, all,
  All, All-append, reverse, arith, inl, inr, Bool-cases, append-nil, append_assoc,
}
use synthient_mcp.Text.{Text, codes, text_eq, starts_with, ends_with}
use synthient_mcp.Text.Equality.{text_eq→eq, text_eq_refl}
use synthient_mcp.Text.Search.{Lacks}
use synthient_mcp.Net.Url.{
  Url, path_mode, escape, unescape, is_encoded_byte, escaped_path, rooted, clean, joined_path,
  set_decoded, set_path, join_path,
}
use synthient_mcp.Net.Url.Escaping.{prepend_all}
use synthient_mcp.Net.Url.Segments.{IsEscaped}
use synthient_mcp.Net.Url.Cleaning.{clean-rooted}

pub rooted-append : (ss ts : List Text) → rooted (ss ++ ts) ≡ rooted ss ++ rooted ts
unfolding rooted
rooted-append [] ts = refl
rooted-append (s ∷ ss) ts = rw (rooted-append ss ts, append_assoc s (rooted ss) (rooted ts)) refl

pub All-reverse {ℓ} : (P : ℕ → Type ℓ) (s : Text) → All P s → All P (reverse s)
All-reverse P [] h = tt
All-reverse P (c ∷ s) h =
    rw (reverse-cons c s) (All-append P (reverse s) (c ∷ []) (All-reverse P s h.1) (h.0, tt))

pub ends_with-Lacks : (s : Text) → Lacks b'/' s → ends_with s (codes "/") ≡ false
unfolding ends_with
ends_with-Lacks s h = front (reverse s) (All-reverse (λ c. c ≢ b'/') s h)
  where
    front : (s : Text) → Lacks b'/' s → starts_with s (reverse (codes "/")) ≡ false
    front [] h = unfold starts_with in refl
    front (c ∷ s) h = unfold starts_with in ground (arith, h.0)

joined_path-absolute :
    (from e : Text)
    → starts_with from (codes "/") ≡ true
    → ends_with e (codes "/") ≡ false
    → joined_path from e ≡ clean (from ++ (codes "/" ++ e))
unfolding joined_path
joined_path-absolute from e absolute no_slash = rw (no_slash, absolute) refl

-- The path that JoinPath sets: one more escaped segment.
pub joined_path-rooted :
    (s : Text) (segments : List Text) (e : Text)
    → All IsEscaped (s ∷ segments)
    → IsEscaped e
    → joined_path (rooted (s ∷ segments)) e ≡ rooted (s ∷ segments ++ e ∷ [])
joined_path-rooted s segments e h he =
    joined_path-absolute (rooted (s ∷ segments)) e at_root (ends_with-Lacks e he.whole)
    ∙ ap clean
        (ap (λ t. rooted (s ∷ segments) ++ t) last ∙ sym (rooted-append (s ∷ segments) (e ∷ [])))
    ∙ clean-rooted s (segments ++ e ∷ []) (All-append IsEscaped (s ∷ segments) (e ∷ []) h (he, tt))
  where
    at_root : starts_with (rooted (s ∷ segments)) (codes "/") ≡ true
    at_root = unfold rooted starts_with in refl

    last : codes "/" ++ e ≡ rooted (e ∷ [])
    last = unfold rooted in ap (λ t. b'/' ∷ t) (sym (append-nil e))

pub all-append :
    (p : ℕ → Bool) (s t : Text) → all p s ≡ true → all p t ≡ true → all p (s ++ t) ≡ true
all-append p [] t h k = k
all-append p (c ∷ s) t h k = ground (arith, all-append p s t)

pub rooted-valid :
    (segments : List Text) → All IsEscaped segments → all is_encoded_byte (rooted segments) ≡ true
unfolding rooted
rooted-valid [] h = refl
rooted-valid (s ∷ segments) h =
    all-append is_encoded_byte s (rooted segments) h.0.valid (rooted-valid segments h.1)

prepend_all-is_some :
    (s : Text) (rest : Option Text) (t : Text)
    → rest ≡ some t
    → (whole : Text) × (prepend_all s rest ≡ some whole)
prepend_all-is_some [] rest t e = (t, e)
prepend_all-is_some (c ∷ s) rest t e =
    let (whole, same) = prepend_all-is_some s rest t e in (c ∷ whole, rw same refl)

unescape-slash : (s t : Text) → unescape s ≡ some t → unescape (b'/' ∷ s) ≡ some (b'/' ∷ t)
unfolding unescape
unescape-slash [] t e = ground arith
unescape-slash (a ∷ []) t e = ground arith
unescape-slash (a ∷ b ∷ s) t e = ground arith

decoded_rest :
    (segments : List Text)
    → All IsEscaped segments
    → (decoded : Text) × (unescape (rooted segments) ≡ some decoded)
unfolding rooted
decoded_rest [] h = ([], unfold unescape in refl)
decoded_rest (s ∷ segments) h =
    let (rest, same) = decoded_rest segments h.1 in
    let (whole, more) = prepend_all-is_some h.0.raw (unescape (rooted segments)) rest same in
    (
      b'/' ∷ whole,
      unescape-slash (s ++ rooted segments) whole (h.0.undone (rooted segments) ∙ more),
    )

-- An encoded path has a decoded form, which starts with its slash.
rooted-decoded :
    (s : Text) (segments : List Text)
    → All IsEscaped (s ∷ segments)
    → (rest : Text) × (unescape (rooted (s ∷ segments)) ≡ some (b'/' ∷ rest))
unfolding rooted
rooted-decoded s segments h =
    let (rest, same) = decoded_rest segments h.1 in
    let (whole, more) = prepend_all-is_some h.0.raw (unescape (rooted segments)) rest same in
    (whole, unescape-slash (s ++ rooted segments) whole (h.0.undone (rooted segments) ∙ more))

-- The encoded form of a path without a raw form, unless it is the asterisk.
pub escaped_path-plain :
    (u : Url)
    → u.raw_path ≡ []
    → text_eq u.path (codes "*") ≡ false
    → escaped_path u ≡ escape path_mode u.path
unfolding escaped_path
escaped_path-plain u no_raw other = rw (no_raw, other) refl

-- A raw form that is valid and decodes to the path is the encoded form.
pub escaped_path-raw :
    (u : Url)
    → text_eq u.raw_path [] ≡ false
    → all is_encoded_byte u.raw_path ≡ true
    → unescape u.raw_path ≡ some u.path
    → escaped_path u ≡ u.raw_path
unfolding escaped_path
escaped_path-raw u full valid decoded = rw (full, valid, decoded, text_eq_refl u.path) refl

set_decoded-spelled :
    (u : Url) (p decoded : Text)
    → text_eq p [] ≡ false
    → text_eq decoded (codes "*") ≡ false
    → all is_encoded_byte p ≡ true
    → unescape p ≡ some decoded
    → escaped_path (set_decoded u p (some decoded)) ≡ p
set_decoded-spelled u p decoded full other valid spelled =
    elim (Bool-cases (text_eq p (escape path_mode decoded))) [
      | inl same ↦
          let here : (set_decoded u p (some decoded)).raw_path ≡ [] = rw same refl in
          escaped_path-plain (set_decoded u p (some decoded)) here other
          ∙ sym (text_eq→eq p (escape path_mode decoded) same)
      | inr differs ↦
          let here : (set_decoded u p (some decoded)).raw_path ≡ p = rw differs refl in
          escaped_path-raw (set_decoded u p (some decoded)) (rw here full) (rw here valid)
            (rw here spelled)
          ∙ here
    ]

-- JoinPath with an escaped segment hangs it on.
pub join_path-rooted :
    (u : Url) (s : Text) (segments : List Text) (e : Text)
    → All IsEscaped (s ∷ segments)
    → IsEscaped e
    → escaped_path u ≡ rooted (s ∷ segments)
    → escaped_path (join_path u e) ≡ rooted (s ∷ segments ++ e ∷ [])
join_path-rooted u s segments e h he at =
    let longer = All-append IsEscaped (s ∷ segments) (e ∷ []) h (he, tt) in
    let p = rooted (s ∷ segments ++ e ∷ []) in
    let (rest, spelled) = rooted-decoded s (segments ++ e ∷ []) longer in
    let opened : join_path u e ≡ set_decoded u p (some (b'/' ∷ rest)) =
      step
      ∙ ap (λ q. set_path u q)
          (ap (λ from. joined_path from e) at ∙ joined_path-rooted s segments e h he)
      ∙ decide p
      ∙ ap (set_decoded u p) spelled in
    rw opened (
      set_decoded-spelled u p (b'/' ∷ rest) (unfold rooted text_eq in refl) (unfold text_eq in refl)
        (rooted-valid (s ∷ segments ++ e ∷ []) longer) spelled)
  where
    step : join_path u e ≡ set_path u (joined_path (escaped_path u) e)
    step = unfold join_path in refl

    decide : (p : Text) → set_path u p ≡ set_decoded u p (unescape p)
    decide p = unfold set_path in refl

set_decoded_place :
    (u : Url) (p : Text) (decoded : Option Text)
    → ((set_decoded u p decoded).scheme ≡ u.scheme) × ((set_decoded u p decoded).host ≡ u.host)
set_decoded_place u p none = (refl, refl)
set_decoded_place u p (some decoded) = (refl, refl)

-- JoinPath keeps the scheme and the host.
pub join_path_place :
    (u : Url) (e : Text) → ((join_path u e).scheme ≡ u.scheme) × ((join_path u e).host ≡ u.host)
unfolding join_path set_path
join_path_place u e =
    set_decoded_place u (joined_path (escaped_path u) e) (unescape (joined_path (escaped_path u) e))
