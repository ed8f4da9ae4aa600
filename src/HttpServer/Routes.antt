-- ===== src/HttpServer/Routes.antt =====
-- The routes that newHandler registers, of go/internal/httpserver/server.go, with
-- resourceMetadataURL and resourceMetadataPath of oauth.go. The parser and the printer of URLs are
-- parameters.
pub mod Apart
use synthient_mcp.Prelude.{
  List, [], ◌∷◌, ◌++◌, Bool, true, false, Option, none, some, if◌then◌else◌,
}
use synthient_mcp.Text.{Text, codes, text_eq, trim_suffix}
use synthient_mcp.Net.Url.{Url}

abbrev pub metadata_root : Text
metadata_root = codes "/.well-known/oauth-protected-resource"

-- `(&url.URL{Scheme: u.Scheme, Host: u.Host, Path: path})`.
abbrev pub at_path : Url → Text → Url
at_path u path = record {
  scheme = u.scheme;
  opaque = [];
  has_user = false;
  host = u.host;
  path = path;
  raw_path = [];
  raw_query = [];
  fragment = [];
}

-- What a pattern of the mux is for.
pub data Route : Type 0 where
  healthz metrics metadata mcp : Route

module _ (parse : Text → Option Url) (print : Url → Text) where
  abbrev pub metadata_url_of : Option Url → Text
  metadata_url_of none = []
  metadata_url_of (some u) = print (at_path u (metadata_root ++ trim_suffix (codes "/") u.path))

  unfoldable pub resource_metadata_url : Text → Text
  unfolding trim_suffix
  resource_metadata_url resource = metadata_url_of (parse resource)

  abbrev pub path_or_root : Option Url → Text
  path_or_root none = metadata_root
  path_or_root (some u) = if text_eq u.path [] then metadata_root else u.path

  unfoldable pub resource_metadata_path : Text → Text
  unfolding resource_metadata_url text_eq
  resource_metadata_path resource = path_or_root (parse (resource_metadata_url resource))

  abbrev pub metadata_routes : Text → List (Text × Route)
  metadata_routes path =
      (path, metadata) ∷ (if text_eq path metadata_root then [] else (metadata_root, metadata) ∷ [])

  -- The paths of the patterns, in the order in which they are registered; the first two are for GET.
  unfoldable pub routes : Bool → Bool → Text → List (Text × Route)
  unfolding resource_metadata_path text_eq
  routes metrics_enabled oauth resource =
      (codes "/healthz", healthz)
      ∷ ((if metrics_enabled then (codes "/metrics", metrics) ∷ [] else [])
          ++ ((if oauth then metadata_routes (resource_metadata_path resource) else [])
              ++ (codes "/mcp", mcp) ∷ []))
