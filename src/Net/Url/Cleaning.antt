-- ===== src/Net/Url/Cleaning.antt =====
-- Clean of package path on a path of escaped segments: it has nothing to remove.
use mathlib.Core.List.{reverse-cons, reverse-reverse}
use synthient_mcp.Prelude.{
  ℕ, List, [], ◌∷◌, ◌++◌, ◌≡◌, refl, ◌∙◌, ap, All, reverse, arith, append-nil, append_assoc,
}
use synthient_mcp.Text.{Text, codes, text_eq, split}
use synthient_mcp.Text.Equality.{ne→text_eq}
use synthient_mcp.Text.Search.{Lacks}
use synthient_mcp.Net.Url.{rooted, push_segment, push_segments, clean, slash_if_empty}
use synthient_mcp.Net.Url.Segments.{IsNamed, IsEscaped}

split-append : (sep : ℕ) (s t : Text) → Lacks sep s → split sep (s ++ sep ∷ t) ≡ s ∷ split sep t
unfolding split
split-append sep [] t h = ground arith
split-append sep (c ∷ s) t h = ground (arith, split-append sep s t h.1)

split-single : (sep : ℕ) (s : Text) → Lacks sep s → split sep s ≡ s ∷ []
unfolding split
split-single sep [] h = refl
split-single sep (c ∷ s) h = ground (arith, split-single sep s h.1)

-- Split at the slashes of a path with a slash before each segment.
pub split-rooted :
    (segments : List Text) → All IsEscaped segments → split b'/' (rooted segments) ≡ [] ∷ segments
unfolding rooted split
split-rooted [] h = refl
split-rooted (s ∷ []) h =
    rw (append-nil s) (ap (λ parts. [] ∷ parts) (split-single b'/' s h.0.whole))
split-rooted (s ∷ t ∷ segments) h =
    ap (λ parts. [] ∷ parts)
      (split-append b'/' s (t ++ rooted segments) h.0.whole
        ∙ ap (λ parts. s ∷ parts) (tail_parts (split-rooted (t ∷ segments) h.1)))
  where
    tail_parts : {p : Text} {ps qs : List Text} → p ∷ ps ≡ p ∷ qs → ps ≡ qs
    tail_parts e = ground (arith, e)

push_segment-named :
    (segments : List Text) (s : Text) → IsNamed s → push_segment segments s ≡ s ∷ segments
unfolding push_segment
push_segment-named segments s (some_byte, one, two) =
    rw (ne→text_eq s [] some_byte, ne→text_eq s (codes ".") one, ne→text_eq s (codes "..") two) refl

push_segments-named :
    (before segments : List Text)
    → All IsEscaped segments
    → push_segments before segments ≡ reverse segments ++ before
unfolding push_segments
push_segments-named before [] h = refl
push_segments-named before (s ∷ segments) h =
    rw
      (
        push_segment-named before s h.0.visible,
        push_segments-named (s ∷ before) segments h.1,
        reverse-cons s segments,
        append_assoc,
      )
      refl

clean-split :
    (p : Text) (parts segments : List Text)
    → split b'/' p ≡ parts
    → push_segments [] parts ≡ segments
    → clean p ≡ slash_if_empty (rooted (reverse segments))
clean-split p parts segments divided pushed =
    opened ∙ ap (λ r. slash_if_empty (rooted (reverse r))) (ap (push_segments []) divided ∙ pushed)
  where
    opened : clean p ≡ slash_if_empty (rooted (reverse (push_segments [] (split b'/' p))))
    opened = unfold clean in refl

-- A path of escaped segments is clean.
pub clean-rooted :
    (s : Text) (segments : List Text)
    → All IsEscaped (s ∷ segments)
    → clean (rooted (s ∷ segments)) ≡ rooted (s ∷ segments)
clean-rooted s segments h =
    clean-split (rooted (s ∷ segments)) ([] ∷ s ∷ segments) (reverse (s ∷ segments) ++ [])
      (split-rooted (s ∷ segments) h) (nothing ∙ push_segments-named [] (s ∷ segments) h)
    ∙ ap (λ r. slash_if_empty (rooted (reverse r))) (append-nil (reverse (s ∷ segments)))
    ∙ ap (λ r. slash_if_empty (rooted r)) (reverse-reverse (s ∷ segments))
    ∙ starts
  where
    nothing : push_segments [] ([] ∷ s ∷ segments) ≡ push_segments [] (s ∷ segments)
    nothing = unfold push_segments push_segment text_eq in refl

    starts : slash_if_empty (rooted (s ∷ segments)) ≡ rooted (s ∷ segments)
    starts = unfold rooted in refl
