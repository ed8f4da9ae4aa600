-- ===== src/Synthient/Request/Unrooted.antt =====
-- A base URL without a path.
use synthient_mcp.Prelude.{
  ok, err, List, [], ◌∷◌, ◌++◌, ◌≡◌, refl, ◌∙◌, ap, ◌⊎◌, inl, inr, Bool, true, false, ◌&&◌,
  Bool-cases, arith,
}
use synthient_mcp.Text.{Text, codes, text_eq, starts_with, trim_suffix}
use synthient_mcp.Net.Url.{Url, path_mode, escape, path_escape, escaped_path, join_path}
use synthient_mcp.Net.Url.Joining.{escaped_path-plain}
use synthient_mcp.Net.Url.Relative.{IsRelative, join_path-IsRelative}
use synthient_mcp.Synthient.Request.{
  add_segments, base_prefix, resolve, is_below, escaped_endpoint, empty_segment,
}

add_segments-IsRelative :
    (endpoint last : Url) (path : List Text)
    → IsRelative (escaped_path endpoint)
    → add_segments endpoint path ≡ ok last
    → IsRelative (escaped_path last)
unfolding add_segments
add_segments-IsRelative endpoint last [] relative e =
    let same : endpoint ≡ last = ground arith in rw (← same) relative
add_segments-IsRelative endpoint last (s ∷ path) relative e = elim (Bool-cases (text_eq s [])) [
  | inl empty ↦ absurd (ground arith)
  | inr full ↦
      add_segments-IsRelative (join_path endpoint (path_escape s)) last path
        (join_path-IsRelative endpoint s relative) (rw full at e)
]

-- The base URL of a host alone, which the configuration leaves with the path `/`.
pub record IsBare (base : Url) : Type 0 where
  pub no_raw_path : base.raw_path ≡ []
  pub spelled : base.path ≡ codes "/"

slash-escaped : (base : Url) → IsBare base → base_prefix base ≡ codes "/"
slash-escaped base h = opened ∙ ap (λ t. trim_suffix (codes "/") t ++ codes "/") whole ∙ trimmed
  where
    opened : base_prefix base ≡ trim_suffix (codes "/") (escaped_path base) ++ codes "/"
    opened = unfold base_prefix in refl

    whole : escaped_path base ≡ codes "/"
    whole =
        escaped_path-plain base h.no_raw_path (rw h.spelled (unfold text_eq in refl))
        ∙ ap (escape path_mode) h.spelled
        ∙ unfold escape in refl

    trimmed : trim_suffix (codes "/") (codes "/") ++ codes "/" ≡ codes "/"
    trimmed = unfold trim_suffix in refl

start-IsRelative :
    (base : Url)
    → IsBare base
    → IsRelative (escaped_path (record base { path = trim_suffix (codes "/") base.path }))
start-IsRelative base h =
    let start = record base { path = trim_suffix (codes "/") base.path } in
    let empty : start.path ≡ [] =
      ap (trim_suffix (codes "/")) h.spelled ∙ unfold trim_suffix in refl in
    let whole : escaped_path start ≡ [] =
      escaped_path-plain start h.no_raw_path (rw empty (unfold text_eq in refl))
      ∙ ap (escape path_mode) empty
      ∙ unfold escape in refl in
    rw whole (unfold starts_with in refl, tt)

-- The loop has one error.
add_segments-cases :
    (endpoint : Url) (path : List Text)
    → ((last : Url) × (add_segments endpoint path ≡ ok last))
      ⊎ (add_segments endpoint path ≡ err empty_segment)
unfolding add_segments
add_segments-cases endpoint [] = inl (endpoint, refl)
add_segments-cases endpoint (s ∷ path) = elim (Bool-cases (text_eq s [])) [
  | inl empty ↦ inr (rw empty refl)
  | inr full ↦ rw full (add_segments-cases (join_path endpoint (path_escape s)) path)
]

relative-outside :
    (base last : Url) → IsBare base → IsRelative (escaped_path last) → is_below base last ≡ false
relative-outside base last h relative =
    outside (text_eq last.scheme base.scheme && text_eq last.host base.host)
      (rw (slash-escaped base h) relative.0)
  where
    outside : (b : Bool) {c : Bool} → c ≡ false → (b && c) ≡ false
    outside true e = e
    outside false e = refl

-- Below the base URL of a host alone no path resolves: JoinPath leaves the path without its slash,
-- so the test of the prefix refuses every endpoint, and no request is sent.
pub resolve_bare :
    (base : Url) (path : List Text)
    → IsBare base
    → (resolve base path ≡ err escaped_endpoint) ⊎ (resolve base path ≡ err empty_segment)
unfolding resolve
resolve_bare base path h =
    let start = record base { path = trim_suffix (codes "/") base.path } in
    elim (add_segments-cases start path) [
      | inr empty ↦ inr (rw empty refl)
      | inl (last, found) ↦
          let outside =
            relative-outside base last h
              (add_segments-IsRelative start last path (start-IsRelative base h) found) in
          inl (rw (found, outside) refl)
    ]
