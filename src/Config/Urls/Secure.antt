-- ===== src/Config/Urls/Secure.antt =====
-- The URLs that the configuration accepts.
use synthient_mcp.Prelude.{
  ok, guard_passed, [], ◌++◌, ◌≡◌, refl, ◌≢◌, ◌⊎◌, inl, inr, Bool, true, false, not, ◌&&◌, ◌||◌,
  Option, none, some, Bool-cases, arith, reverse,
}
use mathlib.Core.List.{reverse-append}
use synthient_mcp.Text.{Text, codes, text_eq, ends_with}
use synthient_mcp.Text.Equality.{text_eq→eq, eq→text_eq}
use synthient_mcp.Text.Parts.{starts_with_complete}
use synthient_mcp.Net.Url.{Url, hostname}
use synthient_mcp.Config.Urls.{
  is_loopback_host, is_scheme, validate_base_url, with_slash, checked_secure, validate_secure_url,
}

-- An absolute URL of a host by HTTPS, or by HTTP where the host is this machine, with nothing but a
-- path behind the host.
pub record IsSecure (u : Url) : Type 0 where
  pub named : hostname u ≢ []
  pub safe :
      (u.scheme ≡ codes "https")
      ⊎ ((u.scheme ≡ codes "http") × (is_loopback_host (hostname u) ≡ true))
  pub no_user : u.has_user ≡ false
  pub no_query : u.raw_query ≡ []
  pub no_fragment : u.fragment ≡ []
  pub no_opaque : u.opaque ≡ []

empty_text : (s : Text) → not (text_eq s []) ≡ false → s ≡ []
empty_text s h = text_eq→eq s [] (ground arith)

full_text : (s : Text) → text_eq s [] ≡ false → s ≢ []
full_text s h e = ground (arith, eq→text_eq s [] e)

or_false : (a b : Bool) → (a || b) ≡ false → (a ≡ false) × (b ≡ false)
or_false false b h = (refl, h)
or_false true b h = absurd (cc)

safe_scheme :
    (u : Url) (local : Bool)
    → (not (is_scheme u (codes "https")) && not (is_scheme u (codes "http") && local)) ≡ false
    → (u.scheme ≡ codes "https") ⊎ ((u.scheme ≡ codes "http") × (local ≡ true))
safe_scheme u local h = elim (Bool-cases (text_eq u.scheme (codes "https"))) [
  | inl https ↦ inl (text_eq→eq u.scheme (codes "https") https)
  | inr other ↦ elim (Bool-cases (text_eq u.scheme (codes "http"))) [
    | inl http ↦ inr (text_eq→eq u.scheme (codes "http") http, ground arith)
    | inr neither ↦ absurd (ground arith)
  ]
]

-- A URL that validateSecureURL accepts.
checked_secure-IsSecure :
    (name : Text) (parsed : Option Url)
    → checked_secure name parsed ≡ ok tt
    → (u : Url) × (parsed ≡ some u) × IsSecure u
checked_secure-IsSecure name none e = absurd (cc)
checked_secure-IsSecure name (some u) e =
    let (absolute, e1) = guard_passed (text_eq u.scheme [] || text_eq (hostname u) []) _ _ e in
    let (safe, e2) =
      guard_passed
        (not (is_scheme u (codes "https"))
          && not (is_scheme u (codes "http") && is_loopback_host (hostname u)))
        _ _ e1 in
    let (bare, last) =
      guard_passed
        (u.has_user
          || not (text_eq u.raw_query [])
          || not (text_eq u.fragment [])
          || not (text_eq u.opaque []))
        _ _ e2 in
    let (h3, opaque) = or_false _ (not (text_eq u.opaque [])) bare in
    let (h2, fragment) = or_false _ (not (text_eq u.fragment [])) h3 in
    let (user, query) = or_false u.has_user (not (text_eq u.raw_query [])) h2 in
    (
      u,
      refl,
      record {
        named = full_text (hostname u) (or_false _ _ absolute).1;
        safe = safe_scheme u (is_loopback_host (hostname u)) safe;
        no_user = user;
        no_query = empty_text u.raw_query query;
        no_fragment = empty_text u.fragment fragment;
        no_opaque = empty_text u.opaque opaque;
      },
    )

pub validate_secure_url-IsSecure :
    (parse_request_uri : Text → Option Url) (name value : Text)
    → validate_secure_url parse_request_uri name value ≡ ok tt
    → (u : Url) × (parse_request_uri value ≡ some u) × IsSecure u
unfolding validate_secure_url
validate_secure_url-IsSecure parse_request_uri name value e =
    checked_secure-IsSecure name (parse_request_uri value) e

both_schemes :
    (https http local : Bool)
    → (not https && not http) ≡ false
    → (http && not local) ≡ false
    → (not https && not (http && local)) ≡ false
both_schemes https http local h k = ground arith

-- A base URL that validateBaseURL accepts.
pub validate_base_url-IsSecure :
    (u : Url) → validate_base_url u ≡ ok tt → IsSecure u × (u.raw_path ≡ [])
unfolding validate_base_url
validate_base_url-IsSecure u e =
    let (absolute, e1) = guard_passed (text_eq u.scheme [] || text_eq (hostname u) []) _ _ e in
    let (web, e2) =
      guard_passed (not (is_scheme u (codes "https")) && not (is_scheme u (codes "http"))) _ _ e1 in
    let (local, e3) =
      guard_passed (is_scheme u (codes "http") && not (is_loopback_host (hostname u))) _ _ e2 in
    let (bare, last) =
      guard_passed
        (u.has_user
          || not (text_eq u.raw_query [])
          || not (text_eq u.fragment [])
          || not (text_eq u.opaque [])
          || not (text_eq u.raw_path []))
        _ _ e3 in
    let (h4, raw_path) = or_false _ (not (text_eq u.raw_path [])) bare in
    let (h3, opaque) = or_false _ (not (text_eq u.opaque [])) h4 in
    let (h2, fragment) = or_false _ (not (text_eq u.fragment [])) h3 in
    let (user, query) = or_false u.has_user (not (text_eq u.raw_query [])) h2 in
    (
      record {
        named = full_text (hostname u) (or_false _ _ absolute).1;
        safe = safe_scheme u (is_loopback_host (hostname u)) (
            both_schemes (is_scheme u (codes "https")) (is_scheme u (codes "http"))
              (is_loopback_host (hostname u)) web local);
        no_user = user;
        no_query = empty_text u.raw_query query;
        no_fragment = empty_text u.fragment fragment;
        no_opaque = empty_text u.opaque opaque;
      },
      empty_text u.raw_path raw_path,
    )

append-ends_with : (s t : Text) → ends_with (s ++ t) t ≡ true
unfolding ends_with
append-ends_with s t = rw (reverse-append s t) (starts_with_complete (reverse t) (reverse s))

-- The path of the base URL ends with a slash.
pub with_slash-ends_with : (u : Url) → ends_with (with_slash u).path (codes "/") ≡ true
unfolding with_slash
with_slash-ends_with u = elim (Bool-cases (ends_with u.path (codes "/"))) [
  | inl slash ↦ rw slash slash
  | inr none_there ↦ rw none_there (append-ends_with u.path (codes "/"))
]

pub with_slash-IsSecure : (u : Url) → IsSecure u → IsSecure (with_slash u)
unfolding with_slash hostname
with_slash-IsSecure u h = record {
  named = h.named;
  safe = h.safe;
  no_user = h.no_user;
  no_query = h.no_query;
  no_fragment = h.no_fragment;
  no_opaque = h.no_opaque;
}
