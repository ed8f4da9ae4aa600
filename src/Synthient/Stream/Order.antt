-- ===== src/Synthient/Stream/Order.antt =====
-- The filters are a Go map, whose loop meets its entries in any order.
use mathlib.Core.List.{Perm, Permᴰ}
use mathlib.Core.Logic.{∥∥₁_elim}
use mathlib.Core.Path.{fun_ext}
use synthient_mcp.Prelude.{
  ℕ, ◌+◌, List, [], ◌∷◌, ◌≡◌, refl, ◌∙◌, ap, Bool, ◌&&◌, Option, ltb, length, arith, Bool-cases,
  Option-cases, inl, inr,
}
use synthient_mcp.Text.{Text, trim_space}
use synthient_mcp.Synthient.Sanitize.{sanitize_object}
use synthient_mcp.Synthient.Stream.{
  Event, matches_filter, matches_filters, ScanEnd, Sample, Progress, take_event, take_decoded,
  take_line, sample_from, sample_stream, max_stream_read_bytes,
}

and_swap : (a b c : Bool) → (a && (b && c)) ≡ (b && (a && c))
and_swap a b c = ground arith

matches-permuted :
    (event : Event) (fs gs : List (Text × Text))
    → Permᴰ fs gs
    → matches_filters event fs ≡ matches_filters event gs
unfolding matches_filters
matches-permuted event _ _ Permᴰ.nil = refl
matches-permuted event _ _ (Permᴰ.cons {a} {b} {l₁} {l₂} same rest) =
    rw (same, matches-permuted event l₁ l₂ rest) refl
matches-permuted event _ _ (Permᴰ.swap {a} {b} {a'} {b'} {l} e f) =
    rw (e, f)
      (and_swap (matches_filter event b') (matches_filter event a') (matches_filters event l))
matches-permuted event _ _ (Permᴰ.trans {l₁} {l₂} {l₃} p q) =
    matches-permuted event l₁ l₂ p ∙ matches-permuted event l₂ l₃ q

matches_filters-Perm :
    (event : Event) (fs gs : List (Text × Text))
    → Perm fs gs
    → matches_filters event fs ≡ matches_filters event gs
matches_filters-Perm event fs gs p = ∥∥₁_elim p (hlevel) (matches-permuted event fs gs)

module _ (decode : Text → Option Event) (api_key : Text) (count output_limit : ℕ)
    (fs gs : List (Text × Text)) (scan_end : ScanEnd)
    (alike : (event : Event) → matches_filters event fs ≡ matches_filters event gs) where
  take_line-alike :
      (p : Progress) (line : Text) (continue : Progress → Sample)
      → take_line decode api_key count output_limit fs scan_end p line continue
        ≡ take_line decode api_key count output_limit gs scan_end p line continue
  unfolding take_line take_decoded take_event
  take_line-alike p [] continue = refl
  take_line-alike p (c ∷ line) continue = elim (Option-cases (decode (c ∷ line))) [
    | inl failed ↦ rw failed refl
    | inr (event, decoded) ↦ rw (decoded, alike (sanitize_object api_key event)) refl
  ]

  sample_from-alike :
      (p : Progress) (raws : List Text)
      → sample_from decode api_key count output_limit fs scan_end p raws
        ≡ sample_from decode api_key count output_limit gs scan_end p raws
  unfolding sample_from
  sample_from-alike p [] = refl
  sample_from-alike p (raw ∷ raws) =
      let q = record p { read_bytes = p.read_bytes + length (trim_space raw) } in
      elim (Bool-cases (ltb max_stream_read_bytes (p.read_bytes + length (trim_space raw)))) [
        | inl over ↦ rw over refl
        | inr room ↦ rw room (
            ap (take_line decode api_key count output_limit fs scan_end q (trim_space raw))
              (fun_ext (λ next. sample_from-alike next raws))
            ∙ take_line-alike q (trim_space raw)
                (λ next. sample_from decode api_key count output_limit gs scan_end next raws))
      ]

-- A sample does not depend on the order in which the loop over the map of filters meets them.
pub sample_stream-Perm :
    (decode : Text → Option Event) (api_key : Text) (count output_limit : ℕ)
    (filters filters' : List (Text × Text)) (scan_end : ScanEnd) (raws : List Text)
    → Perm filters filters'
    → sample_stream decode api_key count output_limit filters scan_end raws
      ≡ sample_stream decode api_key count output_limit filters' scan_end raws
unfolding sample_stream
sample_stream-Perm decode api_key count output_limit fs gs scan_end raws p =
    sample_from-alike decode api_key count output_limit fs gs scan_end
      (λ event. matches_filters-Perm event fs gs p)
      (record { events = []; read_bytes = 0; output_bytes = 0 }) raws
