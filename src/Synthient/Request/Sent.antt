-- ===== src/Synthient/Request/Sent.antt =====
-- The requests that prepare and new_request make below a base with a path.
use synthient_mcp.Prelude.{
  ok, List, [], ◌∷◌, ◌++◌, map, ◌≡◌, refl, ◌∙◌, ap, true, Option, none, some, All,
}
use synthient_mcp.Text.{Text}
use synthient_mcp.Net.Url.{Url, path_mode, escape, path_escape, escaped_path}
use synthient_mcp.Net.Url.Joining.{rooted-valid}
use synthient_mcp.Net.Url.Segments.{IsPlain}
use synthient_mcp.Synthient.Request.{
  Client, HttpRequest, Target, created, encode_query, request_headers, stream_headers, get, prepare,
  new_request, encoded_body, body_or_error,
}
use synthient_mcp.Synthient.Request.Targets.{
  IsBase, IsAt, encoded_segments, encoded_segments-IsEscaped, resolve-IsAt,
}
use synthient_mcp.Synthient.Request.Sendable.{
  IsUnadorned, IsQueryByte, IsSendable, IsSame, encode_query-query, resolve-IsUnadorned,
  rooted-at_root,
}

-- A client with an HTTP client and a base URL with a path, without user information, opaque part,
-- query and fragment.
pub record IsConfigured (client : Client) (base : Url) (b : Text) (bs : List Text) : Type 0 where
  pub at_base : client.base_url ≡ some base
  pub connected : client.has_http_client ≡ true
  pub unadorned : IsUnadorned base
  pub well_formed : IsBase base b bs

-- What net/http and encoding/json do: a printable URL at the scheme and the host of the base, with a
-- path and a query alone, is read back as it is printed, and a list of strings can be encoded.
pub record IsDocumented (renew : Url → Option Url) (marshal : List Text → Option Text) (base : Url)
    : Type 0 where
  pub reads : (u : Url) → IsSendable base u → (v : Url) × (renew u ≡ some v) × IsSame u v
  pub encodes : (ips : List Text) → (body : Text) × (marshal ips ≡ some body)

-- The request of a target: its method, its URL below the base, its query, headers and body.
pub record IsSent (marshal : List Text → Option Text) (client : Client) (base : Url)
    (segments : List Text) (target : Target) (request : HttpRequest) : Type 0 where
  pub method : request.method ≡ target.method
  pub placed : IsAt base segments request.url
  pub query : request.url.raw_query ≡ encode_query target.query
  pub headers : request.headers ≡ request_headers client request.body
  pub encoded : encoded_body marshal target.ips ≡ ok request.body

-- The request of a stream.
pub record IsStreamed (client : Client) (base : Url) (segments : List Text) (request : HttpRequest)
    : Type 0 where
  pub method : request.method ≡ get
  pub placed : IsAt base segments request.url
  pub no_query : request.url.raw_query ≡ []
  pub headers : request.headers ≡ stream_headers client
  pub no_body : request.body ≡ none

module _ (renew : Url → Option Url) (marshal : List Text → Option Text) where
  encoded_body-ok :
      ((ips : List Text) → (body : Text) × (marshal ips ≡ some body))
      → (ips : Option (List Text)) → (body : Option Text) × (encoded_body marshal ips ≡ ok body)
  encoded_body-ok encodes none = (none, refl)
  encoded_body-ok encodes (some ips) =
      let (body, e) = encodes ips in (some body, ap body_or_error e)

  -- An endpoint below the base, with a query, can be sent.
  endpoint-IsSendable :
      (base : Url) (b : Text) (bs : List Text) (x : Text) (path : List Text) (endpoint : Url)
      (query : Text)
      → IsUnadorned endpoint
      → IsBase base b bs
      → All IsPlain (x ∷ path)
      → IsAt base (encoded_segments (b ∷ bs) (x ∷ path)) endpoint
      → All IsQueryByte query
      → IsSendable base (record endpoint { raw_query = query })
  unfolding escaped_path
  endpoint-IsSendable base b bs x path endpoint query unadorned h plain at printable = record {
    scheme = at.scheme;
    host = at.host;
    no_opaque = unadorned.no_opaque;
    no_user = unadorned.no_user;
    no_fragment = unadorned.no_fragment;
    at_root = rw at.spelled (
        rooted-at_root (escape path_mode b)
          (map (escape path_mode) bs ++ map path_escape (x ∷ path)));
    valid = rw at.spelled (
        rooted-valid (encoded_segments (b ∷ bs) (x ∷ path))
          (encoded_segments-IsEscaped (b ∷ bs) (x ∷ path) h.plain plain));
    query = printable;
  }

  same-IsAt :
      (base u v : Url) (segments : List Text)
      → IsSame u v
      → IsAt base segments u
      → IsAt base segments v
  same-IsAt base u v segments same at = record {
    scheme = same.scheme ∙ at.scheme;
    host = same.host ∙ at.host;
    spelled = same.spelled ∙ at.spelled;
  }

  created-renewed :
      (u v : Url) (request : HttpRequest)
      → renew u ≡ some v
      → created renew u request ≡ ok (record request { url = v })
  created-renewed u v request e = rw (created, e) refl

  pub prepare-IsSent :
      (client : Client) (base : Url) (b : Text) (bs : List Text) (x : Text) (path : List Text)
      (target : Target)
      → IsConfigured client base b bs
      → IsDocumented renew marshal base
      → target.path ≡ x ∷ path
      → All IsPlain (x ∷ path)
      → (request : HttpRequest) × (prepare renew marshal client target ≡ ok request)
        × IsSent marshal client base (encoded_segments (b ∷ bs) (x ∷ path)) target request
  unfolding prepare escaped_path
  prepare-IsSent client base b bs x path target configured documented same plain =
      let (endpoint, found, at) = resolve-IsAt base b bs x path configured.well_formed plain in
      let (body, encoded) = encoded_body-ok documented.encodes target.ips in
      let unadorned = resolve-IsUnadorned base endpoint (x ∷ path) configured.unadorned found in
      let url = record endpoint { raw_query = encode_query target.query } in
      let (v, renewed, alike) = documented.reads url (
        endpoint-IsSendable base b bs x path endpoint (encode_query target.query) unadorned
          configured.well_formed plain at (encode_query-query target.query)) in
      let there : IsAt base (encoded_segments (b ∷ bs) (x ∷ path)) url = record {
        scheme = at.scheme;
        host = at.host;
        spelled = at.spelled;
      } in
      let request : HttpRequest = record {
        method = target.method;
        url = url;
        headers = request_headers client body;
        body = body;
      } in
      (
        record request { url = v },
        rw (configured.at_base, configured.connected, same, found, encoded)
            (created-renewed url v request renewed),
        record {
          method = refl;
          placed = same-IsAt base url v (encoded_segments (b ∷ bs) (x ∷ path)) alike there;
          query = alike.query;
          headers = refl;
          encoded = encoded;
        },
      )

  pub new_request-IsSent :
      (client : Client) (base : Url) (b : Text) (bs : List Text) (x : Text) (path : List Text)
      → IsConfigured client base b bs
      → IsDocumented renew marshal base
      → All IsPlain (x ∷ path)
      → (request : HttpRequest) × (new_request renew client (x ∷ path) ≡ ok request)
        × IsStreamed client base (encoded_segments (b ∷ bs) (x ∷ path)) request
  unfolding new_request escaped_path encode_query
  new_request-IsSent client base b bs x path configured documented plain =
      let (endpoint, found, at) = resolve-IsAt base b bs x path configured.well_formed plain in
      let unadorned = resolve-IsUnadorned base endpoint (x ∷ path) configured.unadorned found in
      let sendable : IsSendable base endpoint =
        endpoint-IsSendable base b bs x path endpoint endpoint.raw_query unadorned
          configured.well_formed plain at (rw unadorned.no_query tt) in
      let (v, renewed, alike) = documented.reads endpoint sendable in
      (
        record { method = get; url = v; headers = stream_headers client; body = none },
        rw (configured.at_base, configured.connected, found)
            (created-renewed endpoint v
              (record {
                method = get;
                url = endpoint;
                headers = stream_headers client;
                body = none;
              })
              renewed),
        record {
          method = refl;
          placed = same-IsAt base endpoint v (encoded_segments (b ∷ bs) (x ∷ path)) alike at;
          no_query = alike.query ∙ unadorned.no_query;
          headers = refl;
          no_body = refl;
        },
      )
