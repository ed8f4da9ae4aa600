-- ===== src/Synthient/Request/Targets.antt =====
-- Where requests go: below a base with a path, at the escaped segments.
use mathlib.Core.List.{reverse-append, reverse-reverse}
use synthient_mcp.Prelude.{
  ok, List, [], ◌∷◌, ◌++◌, ◌≡◌, refl, sym, ◌∙◌, ap, true, false, map, All, All-append, append-nil,
  append_assoc, arith,
}
use synthient_mcp.Text.{Text, codes, text_eq, trim_suffix, starts_with, ends_with}
use synthient_mcp.Text.Equality.{eq→text_eq}
use synthient_mcp.Text.Search.{Lacks}
use synthient_mcp.Text.Parts.{starts_with_complete}
use synthient_mcp.Net.Url.{Url, path_mode, escape, path_escape, escaped_path, rooted, join_path}
use synthient_mcp.Net.Url.Segments.{IsPlain, IsEscaped, segment-IsEscaped, path-IsEscaped}
use synthient_mcp.Net.Url.Joining.{
  rooted-append, escaped_path-plain, join_path-rooted, join_path_place,
}
use synthient_mcp.Synthient.Request.{add_segments, base_prefix, resolve, is_below}

-- A base URL with a path of segments and a slash at its end.
pub record IsBase (base : Url) (first : Text) (others : List Text) : Type 0 where
  pub no_raw_path : base.raw_path ≡ []
  pub spelled : base.path ≡ rooted (first ∷ others) ++ codes "/"
  pub plain : All (λ s. IsPlain s × Lacks b'/' s) (first ∷ others)

-- The path of an endpoint as it is sent.
abbrev pub encoded_segments : List Text → List Text → List Text
encoded_segments base path = map (escape path_mode) base ++ map path_escape path

trim_suffix-append : (s : Text) → trim_suffix (codes "/") (s ++ codes "/") ≡ s
unfolding trim_suffix ends_with starts_with
trim_suffix-append s = rw (reverse-append s (codes "/")) (reverse-reverse s)

escape-append : (s t : Text) → escape path_mode (s ++ t) ≡ escape path_mode s ++ escape path_mode t
unfolding escape
escape-append [] t = refl
escape-append (c ∷ s) t = ground (arith, escape-append s t)

escape-rooted :
    (segments : List Text)
    → escape path_mode (rooted segments) ≡ rooted (map (escape path_mode) segments)
unfolding rooted
escape-rooted [] = unfold escape in refl
escape-rooted (s ∷ segments) =
    slash (s ++ rooted segments)
    ∙ ap (λ t. b'/' ∷ t)
        (escape-append s (rooted segments)
          ∙ ap (λ t. escape path_mode s ++ t) (escape-rooted segments))
  where
    slash : (t : Text) → escape path_mode (b'/' ∷ t) ≡ b'/' ∷ escape path_mode t
    slash t = unfold escape in refl

base-IsEscaped :
    (segments : List Text)
    → All (λ s. IsPlain s × Lacks b'/' s) segments
    → All IsEscaped (map (escape path_mode) segments)
base-IsEscaped [] h = tt
base-IsEscaped (s ∷ segments) h = (path-IsEscaped s h.0.0 h.0.1, base-IsEscaped segments h.1)

path_segments-IsEscaped :
    (path : List Text) → All IsPlain path → All IsEscaped (map path_escape path)
path_segments-IsEscaped [] h = tt
path_segments-IsEscaped (s ∷ path) h = (segment-IsEscaped s h.0, path_segments-IsEscaped path h.1)

pub encoded_segments-IsEscaped :
    (base path : List Text)
    → All (λ s. IsPlain s × Lacks b'/' s) base
    → All IsPlain path
    → All IsEscaped (encoded_segments base path)
encoded_segments-IsEscaped base path h plain =
    All-append IsEscaped (map (escape path_mode) base) (map path_escape path)
      (base-IsEscaped base h) (path_segments-IsEscaped path plain)

-- An endpoint at a path, with the scheme and the host of the base.
pub record IsAt (base : Url) (segments : List Text) (endpoint : Url) : Type 0 where
  pub scheme : endpoint.scheme ≡ base.scheme
  pub host : endpoint.host ≡ base.host
  pub spelled : escaped_path endpoint ≡ rooted segments

plain-ne-nil : (s : Text) → IsPlain s → text_eq s [] ≡ false
plain-ne-nil [] h = absurd (h.visible.0 refl)
plain-ne-nil (c ∷ s) h = unfold text_eq in refl

add_segments-IsAt :
    (base endpoint : Url) (s : Text) (segments path : List Text)
    → All IsEscaped (s ∷ segments)
    → All IsPlain path
    → IsAt base (s ∷ segments) endpoint
    → (last : Url) × (add_segments endpoint path ≡ ok last)
      × IsAt base (s ∷ segments ++ map path_escape path) last
add_segments-IsAt base endpoint s segments [] h plain at =
    (endpoint, unfold add_segments in refl, rw (append-nil segments) at)
add_segments-IsAt base endpoint s segments (x ∷ path) h plain at =
    let e = path_escape x in
    let he = segment-IsEscaped x plain.0 in
    let place = join_path_place endpoint e in
    let (last, found, there) =
      add_segments-IsAt base (join_path endpoint e) s (segments ++ e ∷ []) path
        (All-append IsEscaped (s ∷ segments) (e ∷ []) h (he, tt)) plain.1
        (record {
          scheme = place.0 ∙ at.scheme;
          host = place.1 ∙ at.host;
          spelled = join_path-rooted endpoint s segments e h he at.spelled;
        }) in
    (last, step ∙ found, rw append_assoc at there)
  where
    step : add_segments endpoint (x ∷ path) ≡ add_segments (join_path endpoint (path_escape x)) path
    step = unfold add_segments in rw (plain-ne-nil x plain.0) refl

base_prefix-spelled :
    (base : Url) (b : Text) (bs : List Text)
    → IsBase base b bs
    → base_prefix base ≡ rooted (map (escape path_mode) (b ∷ bs)) ++ codes "/"
unfolding escape
base_prefix-spelled base b bs h =
    opened
    ∙ ap (λ t. trim_suffix (codes "/") t ++ codes "/") whole
    ∙ ap (λ t. t ++ codes "/") (trim_suffix-append (rooted (map (escape path_mode) (b ∷ bs))))
  where
    opened : base_prefix base ≡ trim_suffix (codes "/") (escaped_path base) ++ codes "/"
    opened = unfold base_prefix in refl

    whole : escaped_path base ≡ rooted (map (escape path_mode) (b ∷ bs)) ++ codes "/"
    whole =
        escaped_path-plain base h.no_raw_path (rw h.spelled (unfold rooted text_eq in refl))
        ∙ ap (escape path_mode) h.spelled
        ∙ escape-append (rooted (b ∷ bs)) (codes "/")
        ∙ ap (λ t. t ++ codes "/") (escape-rooted (b ∷ bs))

-- Without the slash at its end, the base is where its segments say.
start-IsAt :
    (base : Url) (b : Text) (bs : List Text)
    → IsBase base b bs
    → IsAt base
        (map (escape path_mode) (b ∷ bs))
        (record base { path = trim_suffix (codes "/") base.path })
start-IsAt base b bs h =
    let trimmed : trim_suffix (codes "/") base.path ≡ rooted (b ∷ bs) =
      ap (trim_suffix (codes "/")) h.spelled ∙ trim_suffix-append (rooted (b ∷ bs)) in
    record {
      scheme = refl;
      host = refl;
      spelled =
          escaped_path-plain (record base { path = trim_suffix (codes "/") base.path })
            h.no_raw_path (rw trimmed (unfold rooted text_eq in refl))
          ∙ ap (escape path_mode) trimmed
          ∙ escape-rooted (b ∷ bs);
    }

IsAt-is_below :
    (base last : Url) (b : Text) (bs : List Text) (x : Text) (path : List Text)
    → IsBase base b bs
    → IsAt base (encoded_segments (b ∷ bs) (x ∷ path)) last
    → is_below base last ≡ true
IsAt-is_below base last b bs x path h at =
    rw (eq→text_eq last.scheme base.scheme at.scheme, eq→text_eq last.host base.host at.host)
      (ap (λ t. starts_with t (base_prefix base)) spelled
        ∙ ap (λ p. starts_with (prefix ++ rest) p) (base_prefix-spelled base b bs h)
        ∙ starts_with_complete prefix rest)
  where
    front : Text
    front = rooted (map (escape path_mode) (b ∷ bs))

    prefix : Text
    prefix = front ++ codes "/"

    rest : Text
    rest = path_escape x ++ rooted (map path_escape path)

    spelled : escaped_path last ≡ prefix ++ rest
    spelled =
        at.spelled
        ∙ rooted-append (map (escape path_mode) (b ∷ bs)) (map path_escape (x ∷ path))
        ∙ unfold rooted in sym (append_assoc front (codes "/") rest)

-- With a base URL that has a path, a path of plain segments resolves to the URL of the same scheme
-- and host whose encoded path is that of the base followed by the escaped segments.
pub resolve-IsAt :
    (base : Url) (b : Text) (bs : List Text) (x : Text) (path : List Text)
    → IsBase base b bs
    → All IsPlain (x ∷ path)
    → (endpoint : Url) × (resolve base (x ∷ path) ≡ ok endpoint)
      × IsAt base (encoded_segments (b ∷ bs) (x ∷ path)) endpoint
resolve-IsAt base b bs x path h plain =
    let (last, found, at) =
      add_segments-IsAt base (record base { path = trim_suffix (codes "/") base.path })
        (escape path_mode b) (map (escape path_mode) bs) (x ∷ path)
        (base-IsEscaped (b ∷ bs) h.plain) plain (start-IsAt base b bs h) in
    (last, opened last found (IsAt-is_below base last b bs x path h at), at)
  where
    opened :
        (last : Url)
        → add_segments (record base { path = trim_suffix (codes "/") base.path }) (x ∷ path)
          ≡ ok last
        → is_below base last ≡ true
        → resolve base (x ∷ path) ≡ ok last
    opened last found below = unfold resolve in rw (found, below) refl
