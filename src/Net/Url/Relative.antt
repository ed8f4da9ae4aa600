-- ===== src/Net/Url/Relative.antt =====
-- JoinPath on a path that has no slash at its front: there is none at the front of the result.
use synthient_mcp.Prelude.{
  ℕ, List, [], ◌∷◌, ◌++◌, ◌≡◌, refl, sym, ◌∙◌, subst, ◌≢◌, true, false, some, All, All-append,
  reverse, drop, Option-cases, arith, inl, inr, Bool-cases,
}
use mathlib.Core.List.{reverse-cons}
use synthient_mcp.Text.{Text, codes, text_eq, split, starts_with, ends_with}
use synthient_mcp.Text.Equality.{text_eq→eq, eq→text_eq}
use synthient_mcp.Text.Search.{Lacks}
use synthient_mcp.Text.Split.{split-All, split-Lacks}
use synthient_mcp.Net.Url.{
  Url, path_mode, escape, unescape, is_encoded_byte, escaped_path, rooted, tail, push_segment,
  push_segments, clean, slash_if_empty, joined_path, set_decoded, set_path, join_path, path_escape,
}
use synthient_mcp.Net.Url.Segments.{segment-Lacks, segment-valid, all-All}
use synthient_mcp.Net.Url.Joining.{ends_with-Lacks, escaped_path-plain, escaped_path-raw}

-- A segment that stands between slashes of a clean path, of bytes with a property.
abbrev IsPart : (ℕ → Type 0) → Text → Type 0
IsPart P s = (s ≢ []) × Lacks b'/' s × All P s

push_segment-IsPart :
    (P : ℕ → Type 0) (segments : List Text) (s : Text)
    → All (IsPart P) segments
    → Lacks b'/' s
    → All P s
    → All (IsPart P) (push_segment segments s)
unfolding push_segment
push_segment-IsPart P segments s h lacks bytes = elim (Bool-cases (text_eq s [])) [
  | inl empty ↦ rw empty h
  | inr full ↦ elim (Bool-cases (text_eq s (codes "."))) [
    | inl dot ↦ rw (full, dot) h
    | inr more ↦ elim (Bool-cases (text_eq s (codes ".."))) [
      | inl dots ↦ rw (full, more, dots) (tail-All segments h)
      | inr other ↦ rw (full, more, other) ((full_text s full, lacks, bytes), h)
    ]
  ]
]
  where
    tail-All : (segments : List Text) → All (IsPart P) segments → All (IsPart P) (tail segments)
    tail-All [] h = tt
    tail-All (s ∷ segments) h = h.1

    full_text : (s : Text) → text_eq s [] ≡ false → s ≢ []
    full_text s h e = ground (arith, eq→text_eq s [] e)

push_segments-IsPart :
    (P : ℕ → Type 0) (before segments : List Text)
    → All (IsPart P) before
    → All (Lacks b'/') segments
    → All (All P) segments
    → All (IsPart P) (push_segments before segments)
unfolding push_segments
push_segments-IsPart P before [] h lacks bytes = h
push_segments-IsPart P before (s ∷ segments) h lacks bytes =
    push_segments-IsPart P (push_segment before s) segments
      (push_segment-IsPart P before s h lacks.0 bytes.0) lacks.1 bytes.1

reverse-IsPart :
    (P : ℕ → Type 0) (segments : List Text)
    → All (IsPart P) segments
    → All (IsPart P) (reverse segments)
reverse-IsPart P [] h = tt
reverse-IsPart P (s ∷ segments) h =
    rw (reverse-cons s segments)
      (All-append (IsPart P) (reverse segments) (s ∷ []) (reverse-IsPart P segments h.1) (h.0, tt))

-- A path whose encoded form is valid and has no slash at its front.
abbrev pub IsRelative : Text → Type 0
IsRelative p = (starts_with p (codes "/") ≡ false) × (All (λ c. is_encoded_byte c ≡ true) p)

abbrev Valid : ℕ → Type 0
Valid c = is_encoded_byte c ≡ true

rooted-Valid : (segments : List Text) → All (IsPart Valid) segments → All Valid (rooted segments)
unfolding rooted
rooted-Valid [] h = tt
rooted-Valid (s ∷ segments) h =
    (refl, All-append Valid s (rooted segments) h.0.2 (rooted-Valid segments h.1))

drop_slash-IsRelative :
    (segments : List Text)
    → All (IsPart Valid) segments
    → IsRelative (drop 1 (slash_if_empty (rooted segments)))
unfolding rooted
drop_slash-IsRelative [] h = (unfold starts_with in refl, tt)
drop_slash-IsRelative (s ∷ segments) h = (
  front s (rooted segments) h.0.0 h.0.1,
  All-append Valid s (rooted segments) h.0.2 (rooted-Valid segments h.1),
)
  where
    front : (s t : Text) → s ≢ [] → Lacks b'/' s → starts_with (s ++ t) (codes "/") ≡ false
    front [] t full h = absurd (full refl)
    front (c ∷ s) t full h = unfold starts_with in ground (arith, h.0)

-- What is left of a cleaned path without its first slash.
drop-clean-IsRelative : (p : Text) → All Valid p → IsRelative (drop 1 (clean p))
unfolding clean
drop-clean-IsRelative p h = drop_slash-IsRelative (reverse (push_segments [] (split b'/' p))) (
    reverse-IsPart Valid (push_segments [] (split b'/' p)) (
      push_segments-IsPart Valid [] (split b'/' p) tt (split-Lacks b'/' p)
        (split-All Valid b'/' p h)))

joined_path-IsRelative :
    (from e : Text)
    → IsRelative from
    → ends_with e (codes "/") ≡ false
    → All Valid e
    → IsRelative (joined_path from e)
unfolding joined_path
joined_path-IsRelative from e (front, bytes) no_slash valid =
    rw (no_slash, front)
      (drop-clean-IsRelative (codes "/" ++ (from ++ (codes "/" ++ e)))
        (refl, All-append Valid from (codes "/" ++ e) bytes (refl, valid)))

-- A raw form that differs from the escaped path is not empty.
raw-full :
    (p decoded : Text)
    → unescape p ≡ some decoded
    → text_eq p (escape path_mode decoded) ≡ false
    → text_eq p [] ≡ false
unfolding unescape escape text_eq
raw-full [] [] spelled differs = absurd (cc)
raw-full [] (c ∷ s) spelled differs = absurd (cc)
raw-full (c ∷ p) decoded spelled differs = refl

escaped_path-star :
    (u : Url) → u.raw_path ≡ [] → text_eq u.path (codes "*") ≡ true → escaped_path u ≡ codes "*"
unfolding escaped_path
escaped_path-star u no_raw star = rw (no_raw, star) refl

set_decoded-IsRelative :
    (u : Url) (p decoded : Text)
    → IsRelative p
    → unescape p ≡ some decoded
    → IsRelative (escaped_path (set_decoded u p (some decoded)))
set_decoded-IsRelative u p decoded relative spelled =
    let next = set_decoded u p (some decoded) in
    elim (Bool-cases (text_eq p (escape path_mode decoded))) [
      | inl same ↦
          let here : next.raw_path ≡ [] = rw same refl in
          elim (Bool-cases (text_eq decoded (codes "*"))) [
            | inl star ↦
                rw (escaped_path-star next here star) (unfold starts_with in refl, (refl, tt))
            | inr other ↦
                subst IsRelative
                  (text_eq→eq p (escape path_mode decoded) same
                    ∙ sym (escaped_path-plain next here other))
                  relative
          ]
      | inr differs ↦
          let here : next.raw_path ≡ p = rw differs refl in
          let spelled_raw : escaped_path next ≡ next.raw_path =
            escaped_path-raw next (rw here (raw-full p decoded spelled differs))
              (rw here (all-All is_encoded_byte p relative.1)) (rw here spelled) in
          subst IsRelative (sym (spelled_raw ∙ here)) relative
    ]

-- JoinPath with an escaped segment, whatever it is, leaves the path without a slash at its front.
pub join_path-IsRelative :
    (u : Url) (s : Text)
    → IsRelative (escaped_path u)
    → IsRelative (escaped_path (join_path u (path_escape s)))
unfolding join_path set_path
join_path-IsRelative u s relative =
    let e = path_escape s in
    let p = joined_path (escaped_path u) e in
    let longer =
      joined_path-IsRelative (escaped_path u) e relative (ends_with-Lacks e (segment-Lacks s))
        (segment-valid s) in
    elim (Option-cases (unescape p)) [
      | inl bad ↦ rw bad relative
      | inr (decoded, good) ↦ rw good (set_decoded-IsRelative u p decoded longer good)
    ]
