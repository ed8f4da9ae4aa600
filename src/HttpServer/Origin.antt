-- ===== src/HttpServer/Origin.antt =====
-- requireExactOrigin, allowCORS, canonicalOriginHeader and stringInSlice of
-- go/internal/httpserver/server.go. The parser of URLs and the text of a URL with a scheme and a
-- host are parameters.
pub mod Admission
use synthient_mcp.Prelude.{
  List, [], ◌∷◌, Bool, true, false, not, ◌&&◌, ◌||◌, Option, none, some, if◌then◌else◌,
}
use synthient_mcp.Text.{Text, codes, text_eq, member, to_lower}
use synthient_mcp.Net.Url.{Url}
use synthient_mcp.HttpServer.Protect.{allowed_request_host}

-- What a handler does: 403, 204 for a preflight, or the call of the next handler.
pub data Outcome : Type 0 where
  forbidden preflight passed : Outcome

pub record Request : Type 0 where
  pub origin : Text
  pub host : Text
  pub tls : Bool
  pub options : Bool

abbrev pub is_plain_origin : Url → Bool
is_plain_origin u = not (
    text_eq u.host []
    || u.has_user
    || (not (text_eq u.path []) && not (text_eq u.path (codes "/")))
    || not (text_eq u.raw_query [])
    || not (text_eq u.fragment []))

module _ (unicode_lower : Text → Text) (parse_request_uri : Text → Option Url)
    (url_text : Text → Text → Text) where
  abbrev pub canonical_url : Option Url → Option Text
  canonical_url none = none
  canonical_url (some u) =
      if is_plain_origin u
      then some (url_text (to_lower unicode_lower u.scheme) (to_lower unicode_lower u.host))
      else none

  -- The origin that the header names; `none` for one that is refused.
  unfoldable pub canonical_origin : Text → Option Text
  unfolding to_lower text_eq
  canonical_origin value = canonical_url (parse_request_uri value)

  abbrev pub scheme_of : Request → Text
  scheme_of r = if r.tls then codes "https" else codes "http"

  -- The origin of the request itself.
  unfoldable pub request_origin : Request → Text
  unfolding to_lower
  request_origin r = url_text (scheme_of r) (to_lower unicode_lower r.host)

  abbrev pub judge : List Text → Request → Option Text → Outcome
  judge allowed r none = forbidden
  judge allowed r (some canonical) =
      if text_eq canonical (request_origin r) || member canonical allowed then passed else forbidden

  unfoldable pub require_exact_origin : List Text → Request → Outcome
  unfolding canonical_origin request_origin text_eq member
  require_exact_origin allowed r =
      if text_eq r.origin [] then passed else judge allowed r (canonical_origin r.origin)

  -- canonicalOriginHeader returns the empty string for an origin that it refuses.
  abbrev pub header_text : Option Text → Text
  header_text none = []
  header_text (some canonical) = canonical

  abbrev pub judge_cors : List Text → List Text → Request → Text → Outcome
  judge_cors allowed hosts r origin =
      if text_eq origin []
      then passed
      else if not (member origin allowed) || not (allowed_request_host unicode_lower r.host hosts)
      then forbidden
      else if r.options
      then preflight
      else passed

  unfoldable pub allow_cors : List Text → List Text → Request → Outcome
  unfolding canonical_origin text_eq member allowed_request_host
  allow_cors allowed hosts r = judge_cors allowed hosts r (header_text (canonical_origin r.origin))
