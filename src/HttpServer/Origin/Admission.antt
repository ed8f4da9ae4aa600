-- ===== src/HttpServer/Origin/Admission.antt =====
-- Which origins reach the endpoint.
use synthient_mcp.Prelude.{
  List, [], ◌∷◌, map, all, none, ◌≡◌, ◌≢◌, ◌↔◌, inl, inr, refl, ◌∙◌, ap, true, false, Option, some,
  arith, Bool-cases, Option-cases,
}
use synthient_mcp.Text.{Text, text_eq, member, to_lower, lower_byte, is_ascii}
use synthient_mcp.Text.Equality.{text_eq→eq, eq→text_eq, ne→text_eq}
use synthient_mcp.HttpServer.Origin.{
  passed, is_plain_origin, Request, canonical_origin, request_origin, require_exact_origin,
  allow_cors,
}
use synthient_mcp.Net.Url.{Url}
use synthient_mcp.HttpServer.Protect.{allowed_request_host}

module _ (unicode_lower : Text → Text) (parse_request_uri : Text → Option Url)
    (url_text : Text → Text → Text) where
  -- An origin that is none, or that of the request itself, or one of the configured ones.
  pub data IsTrusted (allowed : List Text) (r : Request) : Type 0 where
    no_origin : r.origin ≡ [] → IsTrusted allowed r
    same_origin :
        canonical_origin unicode_lower parse_request_uri url_text r.origin
          ≡ some (request_origin unicode_lower parse_request_uri url_text r)
        → IsTrusted allowed r
    configured :
        (canonical : Text)
        → canonical_origin unicode_lower parse_request_uri url_text r.origin ≡ some canonical
        → member canonical allowed ≡ true
        → IsTrusted allowed r

  exact_sound :
      (allowed : List Text) (r : Request)
      → require_exact_origin unicode_lower parse_request_uri url_text allowed r ≡ passed
      → IsTrusted allowed r
  unfolding require_exact_origin
  exact_sound allowed r e = elim (Bool-cases (text_eq r.origin [])) [
    | inl empty ↦ no_origin (text_eq→eq r.origin [] empty)
    | inr given ↦
        elim (Option-cases (canonical_origin unicode_lower parse_request_uri url_text r.origin)) [
          | inl bad ↦ absurd (ground arith)
          | inr (canonical, good) ↦
              elim (Bool-cases
                (text_eq canonical (request_origin unicode_lower parse_request_uri url_text r))) [
                  | inl own ↦ same_origin (good ∙ ap some (text_eq→eq canonical _ own))
                  | inr other ↦ configured canonical good (ground arith)
                ]
        ]
  ]

  exact_complete :
      (allowed : List Text) (r : Request)
      → IsTrusted allowed r
      → require_exact_origin unicode_lower parse_request_uri url_text allowed r ≡ passed
  unfolding require_exact_origin
  exact_complete allowed r (no_origin e) = rw (eq→text_eq r.origin [] e) refl
  exact_complete allowed r (same_origin good) =
      ground
        (arith, good, eq→text_eq (request_origin unicode_lower parse_request_uri url_text r) _ refl)
  exact_complete allowed r (configured canonical good listed) = ground (arith, good, listed)

-- requireExactOrigin passes a request on exactly if it names no origin, its own, or a configured
-- one; an origin that does not parse, or has more than a scheme and a host, is refused.
pub require_exact_origin_iff :
    (unicode_lower : Text → Text) (parse_request_uri : Text → Option Url)
    (url_text : Text → Text → Text) (allowed : List Text) (r : Request)
    → (require_exact_origin unicode_lower parse_request_uri url_text allowed r ≡ passed)
      ↔ IsTrusted unicode_lower parse_request_uri url_text allowed r
require_exact_origin_iff u parse text allowed r =
    (exact_sound u parse text allowed r, exact_complete u parse text allowed r)

-- What net/url and strings do: the empty text is no URL, a URL with a host is not printed as the
-- empty text, and a text that is not empty stays so in lower case.
pub record IsDocumented (unicode_lower : Text → Text) (parse_request_uri : Text → Option Url)
    (url_text : Text → Text → Text) : Type 0 where
  pub empty : parse_request_uri [] ≡ none
  pub printed : (scheme host : Text) → host ≢ [] → url_text scheme host ≢ []
  pub lowered : (s : Text) → s ≢ [] → unicode_lower s ≢ []

module _ (unicode_lower : Text → Text) (parse_request_uri : Text → Option Url)
    (url_text : Text → Text → Text) (allowed hosts : List Text) (r : Request)
    (documented : IsDocumented unicode_lower parse_request_uri url_text) where
  -- No origin, or a configured one that asks an allowed host for something other than its options.
  pub data IsCorsTrusted : Type 0 where
    without_origin : r.origin ≡ [] → IsCorsTrusted
    by_list :
        (canonical : Text)
        → canonical_origin unicode_lower parse_request_uri url_text r.origin ≡ some canonical
        → member canonical allowed ≡ true
        → allowed_request_host unicode_lower r.host hosts ≡ true
        → r.options ≡ false
        → IsCorsTrusted

  to_lower-ne-nil : (s : Text) → s ≢ [] → to_lower unicode_lower s ≢ []
  unfolding to_lower
  to_lower-ne-nil s h = elim (Bool-cases (all is_ascii s)) [
    | inl ascii ↦ rw ascii (mapped s h)
    | inr other ↦ rw other (documented.lowered s h)
  ]
    where
      mapped : (s : Text) → s ≢ [] → map lower_byte s ≢ []
      mapped [] h = h
      mapped (c ∷ s) h = cc

  canonical-ne-nil :
      (value canonical : Text)
      → canonical_origin unicode_lower parse_request_uri url_text value ≡ some canonical
      → canonical ≢ []
  unfolding canonical_origin
  canonical-ne-nil value canonical e = elim (Option-cases (parse_request_uri value)) [
    | inl bad ↦ absurd (ground arith)
    | inr (u, good) ↦ elim (Bool-cases (is_plain_origin u)) [
      | inl plain ↦
          let hosted : u.host ≢ [] = λ h. ground (arith, eq→text_eq u.host [] h, plain) in
          let printed =
            documented.printed (to_lower unicode_lower u.scheme) (to_lower unicode_lower u.host)
              (to_lower-ne-nil u.host hosted) in
          let here : url_text (to_lower unicode_lower u.scheme) (to_lower unicode_lower u.host)
              ≡ canonical =
            ground (arith, good, plain) in
          λ none_left. printed (here ∙ none_left)
      | inr extra ↦ absurd (ground arith)
    ]
  ]

  cors_listed :
      (canonical : Text)
      → canonical_origin unicode_lower parse_request_uri url_text r.origin ≡ some canonical
      → allow_cors unicode_lower parse_request_uri url_text allowed hosts r ≡ passed
      → (member canonical allowed ≡ true)
        × (allowed_request_host unicode_lower r.host hosts ≡ true)
        × (r.options ≡ false)
  unfolding allow_cors
  cors_listed canonical good e =
      let filled = ne→text_eq canonical [] (canonical-ne-nil r.origin canonical good) in
      ground (arith, filled, good)

  -- With CORS enabled, a request passes both allowCORS and requireExactOrigin exactly if it names no
  -- origin, or one of the configured origins, and then asks an allowed host and is no preflight. So
  -- with CORS a request that names another origin, that of the server itself included, does not
  -- pass. This is where net/url takes the empty text for no URL and prints no URL with a host as the
  -- empty text, and the lower case of a text is not empty where the text is not.
  pub allow_cors_iff :
      ((allow_cors unicode_lower parse_request_uri url_text allowed hosts r ≡ passed)
        × (require_exact_origin unicode_lower parse_request_uri url_text allowed r ≡ passed))
      ↔ IsCorsTrusted
  unfolding allow_cors
  allow_cors_iff = (forward, backward)
    where
      forward :
          (allow_cors unicode_lower parse_request_uri url_text allowed hosts r ≡ passed)
            × (require_exact_origin unicode_lower parse_request_uri url_text allowed r ≡ passed)
          → IsCorsTrusted
      forward (cors, exact) =
          elim (exact_sound unicode_lower parse_request_uri url_text allowed r exact) [
            | no_origin e ↦ without_origin e
            | same_origin good ↦
                let (listed, asked, plain) = cors_listed _ good cors in
                by_list _ good listed asked plain
            | configured canonical good here ↦
                let (listed, asked, plain) = cors_listed canonical good cors in
                by_list canonical good listed asked plain
          ]

      backward :
          IsCorsTrusted
          → (allow_cors unicode_lower parse_request_uri url_text allowed hosts r ≡ passed)
            × (require_exact_origin unicode_lower parse_request_uri url_text allowed r ≡ passed)
      backward (without_origin e) =
          let none_named : canonical_origin unicode_lower parse_request_uri url_text [] ≡ none =
            unfold canonical_origin in rw documented.empty refl in
          (
            rw (e, none_named) refl,
            exact_complete unicode_lower parse_request_uri url_text allowed r (no_origin e),
          )
      backward (by_list canonical good listed asked plain) =
          let filled = ne→text_eq canonical [] (canonical-ne-nil r.origin canonical good) in
          (
            rw (good, filled, listed, asked, plain) refl,
            exact_complete unicode_lower parse_request_uri url_text allowed r
                (configured canonical good listed),
          )
