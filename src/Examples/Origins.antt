-- ===== src/Examples/Origins.antt =====
-- Runs and instances for HttpServer.Origin.
use synthient_mcp.Prelude.{
  List, [], ◌∷◌, ◌++◌, ◌≡◌, refl, ◌≢◌, ◌↔◌, true, false, Option, none, some, if◌then◌else◌,
}
use synthient_mcp.Text.{Text, codes, text_eq, starts_with, member}
use synthient_mcp.HttpServer.Origin.{
  Request, forbidden, preflight, passed, canonical_origin, request_origin, require_exact_origin,
  allow_cors,
}
use synthient_mcp.Net.Url.{Url}
use synthient_mcp.HttpServer.Origin.Admission.{IsDocumented, IsCorsTrusted, by_list, allow_cors_iff}
use synthient_mcp.HttpServer.Protect.{allowed_request_host}

abbrev same : Text → Text
same s = s

abbrev url_text : Text → Text → Text
url_text scheme host = scheme ++ codes "://" ++ host

-- A parser that knows one URL.
parse : Text → Option Url
parse value =
    if text_eq value (codes "HTTP://Me")
    then some (record {
      scheme = codes "HTTP";
      host = codes "Me";
      opaque = [];
      has_user = false;
      path = [];
      raw_path = [];
      raw_query = [];
      fragment = [];
    })
    else none

runs : Unit {0}
unfolding parse text_eq starts_with member canonical_origin request_origin require_exact_origin
    allow_cors
runs = tt

abbrev own : Request
own = record { origin = codes "HTTP://Me"; host = codes "me"; tls = false; options = true }

abbrev listed : List Text
listed = codes "http://me" ∷ []

outcomes :
    (require_exact_origin same parse url_text [] own ≡ passed)
    × (allow_cors same parse url_text listed (codes "me" ∷ []) own ≡ preflight)
    × (require_exact_origin same parse url_text listed (record own { origin = codes "x" })
        ≡ forbidden)
unfolding runs
outcomes = (refl, refl, refl)

own_canonical : canonical_origin same parse url_text own.origin ≡ some (codes "http://me")
unfolding runs
own_canonical = refl

empty_unparsed : parse [] ≡ none
unfolding runs
empty_unparsed = refl

parse-IsDocumented : IsDocumented same parse url_text
parse-IsDocumented = record {
  empty = empty_unparsed;
  printed = λ scheme host filled. colon_ne scheme host;
  lowered = λ s filled. filled;
}
  where
    colon_ne : (scheme host : Text) → url_text scheme host ≢ []
    colon_ne [] host = cc
    colon_ne (c ∷ scheme) host = cc

abbrev asking : Request
asking = record own { options = false }

asking_listed : member (codes "http://me") listed ≡ true
unfolding runs
asking_listed = refl

asking_allowed : allowed_request_host same asking.host (codes "me" ∷ []) ≡ true
unfolding runs
asking_allowed = refl

asking-IsCorsTrusted :
    IsCorsTrusted same parse url_text listed (codes "me" ∷ []) asking parse-IsDocumented
asking-IsCorsTrusted = by_list (codes "http://me") own_canonical asking_listed asking_allowed refl

allow_cors_iff_example :
    ((allow_cors same parse url_text listed (codes "me" ∷ []) asking ≡ passed)
      × (require_exact_origin same parse url_text listed asking ≡ passed))
    ↔ IsCorsTrusted same parse url_text listed (codes "me" ∷ []) asking parse-IsDocumented
allow_cors_iff_example =
    allow_cors_iff same parse url_text listed (codes "me" ∷ []) asking parse-IsDocumented

-- Without a list, the server's own origin is refused by CORS alone.
own_refused :
    (allow_cors same parse url_text [] (codes "me" ∷ []) asking ≡ forbidden)
    × (require_exact_origin same parse url_text [] asking ≡ passed)
unfolding runs
own_refused = (refl, refl)
