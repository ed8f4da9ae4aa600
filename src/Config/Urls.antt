-- ===== src/Config/Urls.antt =====
-- validateBaseURL, validateSecureURL, isLoopbackHost and canonicalOrigin of
-- go/internal/config/config.go, with the slash that LoadFrom appends to the path of the base URL.
-- The parser of URLs and the text of a URL with a scheme and a host are parameters.
pub mod Secure
pub mod Agreement
use synthient_mcp.Prelude.{
  Result, ok, err, ℕ, ◌/◌, ◌^◌, List, [], ◌∷◌, ◌++◌, Bool, true, false, not, ◌&&◌, ◌||◌, Option,
  none, some, ◌==◌, map, if◌then◌else◌,
}
use synthient_mcp.Text.{Text, codes, text_eq, ends_with, to_lower, lower_byte}
use synthient_mcp.Net.{Addr, unmap}
use synthient_mcp.Net.Parse.{parse_ip}
use synthient_mcp.Net.Url.{Url, hostname}
use synthient_mcp.Config.{
  Error, base_relative, base_scheme, base_insecure, base_extra, url_relative, url_insecure,
  url_extra,
}

-- The long s, which strings.EqualFold takes for an s.
unfoldable pub fold_long_s : Text → Text
fold_long_s [] = []
fold_long_s (c ∷ []) = c ∷ []
fold_long_s (c ∷ d ∷ s) =
    let folded = fold_long_s s in
    let same = fold_long_s (d ∷ s) in if c == 0xc5 && d == 0xbf then b's' ∷ folded else c ∷ same

-- `strings.EqualFold(host, "localhost")`.
unfoldable pub is_localhost : Text → Bool
unfolding fold_long_s text_eq
is_localhost host = text_eq (map lower_byte (fold_long_s host)) (codes "localhost")

-- `ip.IsLoopback()`.
abbrev pub is_loopback : Addr → Bool
is_loopback a = if a.is4 then a.value / 2 ^ 24 == 127 else a.value == 1

abbrev pub is_loopback_ip : Option Addr → Bool
is_loopback_ip none = false
is_loopback_ip (some a) = is_loopback (unmap a)

unfoldable pub is_loopback_host : Text → Bool
unfolding is_localhost parse_ip unmap
is_loopback_host host = is_localhost host || is_loopback_ip (parse_ip host)

abbrev pub is_scheme : Url → Text → Bool
is_scheme u scheme = text_eq u.scheme scheme

-- The scheme, the host and what must be absent, in the order of validateBaseURL.
unfoldable pub validate_base_url : Url → Result Error (Unit {0})
unfolding hostname is_loopback_host text_eq
validate_base_url u =
    if text_eq u.scheme [] || text_eq (hostname u) []
    then err base_relative
    else if not (is_scheme u (codes "https")) && not (is_scheme u (codes "http"))
    then err base_scheme
    else if is_scheme u (codes "http") && not (is_loopback_host (hostname u))
    then err base_insecure
    else if u.has_user
        || not (text_eq u.raw_query [])
        || not (text_eq u.fragment [])
        || not (text_eq u.opaque [])
        || not (text_eq u.raw_path [])
    then err base_extra
    else ok tt

-- `if !strings.HasSuffix(baseURL.Path, "/") { baseURL.Path += "/" }`.
unfoldable pub with_slash : Url → Url
unfolding ends_with
with_slash u = record u {
  path = if ends_with u.path (codes "/") then u.path else u.path ++ codes "/";
}

abbrev pub checked_secure : Text → Option Url → Result Error (Unit {0})
checked_secure name none = err (url_relative name)
checked_secure name (some u) =
    if text_eq u.scheme [] || text_eq (hostname u) []
    then err (url_relative name)
    else if not (is_scheme u (codes "https"))
        && not (is_scheme u (codes "http") && is_loopback_host (hostname u))
    then err (url_insecure name)
    else if u.has_user
        || not (text_eq u.raw_query [])
        || not (text_eq u.fragment [])
        || not (text_eq u.opaque [])
    then err (url_extra name)
    else ok tt

abbrev pub has_web_scheme : Text → Bool
has_web_scheme scheme = text_eq scheme (codes "http") || text_eq scheme (codes "https")

module _ (parse_request_uri : Text → Option Url) where
  unfoldable pub validate_secure_url : Text → Text → Result Error (Unit {0})
  unfolding hostname is_loopback_host text_eq
  validate_secure_url name value = checked_secure name (parse_request_uri value)

  module _ (unicode_lower : Text → Text) (url_text : Text → Text → Text) where
    abbrev pub checked_origin : Option Url → Option Text
    checked_origin none = none
    checked_origin (some u) =
        if text_eq (hostname u) [] || not (has_web_scheme (to_lower unicode_lower u.scheme))
        then none
        else if u.has_user
            || (not (text_eq u.path []) && not (text_eq u.path (codes "/")))
            || not (text_eq u.raw_query [])
            || not (text_eq u.fragment [])
        then none
        else some (url_text (to_lower unicode_lower u.scheme) (to_lower unicode_lower u.host))

    -- `none` is canonicalOrigin's error.
    unfoldable pub config_origin : Text → Option Text
    unfolding hostname to_lower text_eq
    config_origin value = checked_origin (parse_request_uri value)
