-- ===== src/Synthient/Request.antt =====
-- The requests that the client sends: requestQuery up to `Do`, newRequest, the paths, queries and
-- bodies of the operations, of go/internal/synthient/client.go and feeds.go. The URL that
-- http.NewRequestWithContext makes of an endpoint and json.Marshal are parameters.
pub mod Targets
pub mod Sendable
pub mod Sent
pub mod Calls
pub mod Unrooted
pub mod Decoded
use synthient_mcp.Prelude.{
  Result, ok, err, ◌>>=◌, ℕ, suc, List, [], ◌∷◌, ◌++◌, Bool, true, false, not, ◌&&◌, ◌||◌, Option,
  none, some, ltb, ◌==◌, if◌then◌else◌,
}
use synthient_mcp.Text.{Text, codes, text_eq, starts_with, trim_suffix}
use synthient_mcp.Text.Decimal.{itoa}
use synthient_mcp.Net.Url.{Url, query_mode, path_escape, escape, escaped_path, join_path}
use synthient_mcp.BuildInfo.{user_agent}
use synthient_mcp.McpServer.Streams.{feed_path}
use synthient_mcp.McpServer.Tools
use synthient_mcp.McpServer.Tools.{Call}

pub data Method : Type 0 where
  get post : Method

-- What the client reads of itself; `version` is that of the build.
pub record Client : Type 0 where
  pub base_url : Option Url
  pub has_http_client : Bool
  pub api_key : Text
  pub forwarded_for : Text
  pub version : Text

pub record HttpRequest : Type 0 where
  pub method : Method
  pub url : Url
  pub headers : List (Text × Text)
  pub body : Option Text

pub data Error : Type 0 where
  no_base_url no_client not_configured empty_segment escaped_endpoint bad_body bad_request : Error

-- The loop over the segments of the path.
unfoldable pub add_segments : Url → List Text → Result Error Url
unfolding join_path text_eq escape
add_segments endpoint [] = ok endpoint
add_segments endpoint (segment ∷ path) =
    let rest = add_segments (join_path endpoint (path_escape segment)) path in
    if text_eq segment [] then err empty_segment else rest

unfoldable pub base_prefix : Url → Text
unfolding escaped_path trim_suffix
base_prefix base = trim_suffix (codes "/") (escaped_path base) ++ codes "/"

abbrev pub is_below : Url → Url → Bool
is_below base endpoint =
    text_eq endpoint.scheme base.scheme
    && text_eq endpoint.host base.host
    && starts_with (escaped_path endpoint) (base_prefix base)

-- The endpoint of a request, which must stand below the base.
unfoldable pub resolve : Url → List Text → Result Error Url
unfolding add_segments trim_suffix text_eq starts_with escaped_path base_prefix
resolve base path =
    add_segments (record base { path = trim_suffix (codes "/") base.path }) path >>= λ endpoint.
    if not (is_below base endpoint) then err escaped_endpoint else ok endpoint

-- `url.Values` with one value for each key, in the order of the keys, as Encode writes them.
abbrev pub Query : Type 0
Query = List (Text × Text)

abbrev pub query_pair : Text × Text → Text
query_pair (key, value) = escape query_mode key ++ codes "=" ++ escape query_mode value

unfoldable pub encode_query : Query → Text
unfolding escape
encode_query [] = []
encode_query (pair ∷ []) = query_pair pair
encode_query (pair ∷ next ∷ query) = query_pair pair ++ codes "&" ++ encode_query (next ∷ query)

-- The query of FeedSnapshots.
unfoldable pub page_query : ℕ → Text → Query
unfolding text_eq itoa
page_query limit cursor =
    (if text_eq cursor [] then [] else (codes "cursor", cursor) ∷ [])
    ++ (if ltb 0 limit then (codes "limit", itoa limit) ∷ [] else [])

abbrev pub forwarded_header : Text → List (Text × Text)
forwarded_header [] = []
forwarded_header (c ∷ address) = (codes "X-Forwarded-For", c ∷ address) ∷ []

abbrev pub content_header : Option Text → List (Text × Text)
content_header none = []
content_header (some body) = (codes "Content-Type", codes "application/json") ∷ []

-- The headers of requestQuery and those of newRequest.
unfoldable pub request_headers : Client → Option Text → List (Text × Text)
unfolding user_agent
request_headers client body =
    (codes "Accept", codes "application/json")
    ∷ (codes "User-Agent", user_agent client.version)
    ∷ (codes "X-API-Key", client.api_key)
    ∷ (forwarded_header client.forwarded_for ++ content_header body)

unfoldable pub stream_headers : Client → List (Text × Text)
stream_headers client =
    (codes "Accept", codes "application/x-ndjson, application/json")
    ∷ (codes "X-API-Key", client.api_key)
    ∷ forwarded_header client.forwarded_for

-- The method, path, query and body of an operation of the client.
pub record Target : Type 0 where
  pub method : Method
  pub path : List Text
  pub query : Query
  pub ips : Option (List Text)

abbrev pub get_target : List Text → Query → Target
get_target path query = record { method = get; path = path; query = query; ips = none }

-- Account, LookupIP, LookupIPs, LookupDomain, FeedSnapshots, FeedSnapshotMeta and the start of
-- SampleStream; GRPCSchema sends its request through the SDK.
unfoldable pub target_of : Call → Option Target
unfolding feed_path page_query
target_of Call.account = some (get_target (codes "account" ∷ codes "me" ∷ []) [])
target_of (Call.lookup_ip ip) = some (get_target (codes "lookup" ∷ codes "ip" ∷ ip ∷ []) [])
target_of (Call.lookup_ips ips) =
    some (record {
      method = post;
      path = codes "lookup" ∷ codes "ips" ∷ [];
      query = [];
      ips = some ips;
    })
target_of (Call.lookup_domain domain) =
    some (get_target (codes "lookup" ∷ codes "domain" ∷ domain ∷ []) [])
target_of (Call.feed_snapshots stream limit cursor) = some (
    get_target (codes "feeds" ∷ (feed_path stream ++ codes "export" ∷ []))
      (page_query limit cursor))
target_of (Call.feed_snapshot_meta stream segments) = some (
    get_target
      (codes "feeds" ∷ (feed_path stream ++ codes "export" ∷ segments ++ codes "meta" ∷ [])) [])
target_of (Call.sample_stream stream count output_limit timeout filters) =
    some (get_target (codes "feeds" ∷ (feed_path stream ++ codes "stream" ∷ [])) [])
target_of (Call.grpc_schema symbols timeout) = none

abbrev pub body_or_error : Option Text → Result Error (Option Text)
body_or_error none = err bad_body
body_or_error (some body) = ok (some body)

abbrev pub encoded_body :
    (List Text → Option Text) → Option (List Text) → Result Error (Option Text)
encoded_body marshal none = ok none
encoded_body marshal (some ips) = body_or_error (marshal ips)

abbrev base_of : Client → Result Error Url
base_of client = elim client.base_url [
  | none ↦ err no_base_url
  | some base ↦ if client.has_http_client then ok base else err no_client
]

abbrev stream_base_of : Client → Result Error Url
stream_base_of client = elim client.base_url [
  | none ↦ err not_configured
  | some base ↦ if client.has_http_client then ok base else err not_configured
]

-- http.NewRequestWithContext prints the endpoint and parses the text again: `renew` gives the URL
-- that it parses, and `none` for its error.
module _ (renew : Url → Option Url) where
  abbrev pub created : Url → HttpRequest → Result Error HttpRequest
  created endpoint request = elim (renew endpoint) [
    | none ↦ err bad_request
    | some url ↦ ok (record request { url = url })
  ]

  -- requestQuery up to `httpClient.Do`.
  unfoldable pub prepare : (List Text → Option Text) → Client → Target → Result Error HttpRequest
  unfolding resolve encode_query request_headers
  prepare marshal client target = do
    base ← base_of client
    endpoint ← resolve base target.path
    let url = record endpoint { raw_query = encode_query target.query }
    body ← encoded_body marshal target.ips
    created url (record {
      method = target.method;
      url = url;
      headers = request_headers client body;
      body = body;
    })

  -- newRequest, which sets no query and has no body.
  unfoldable pub new_request : Client → List Text → Result Error HttpRequest
  unfolding resolve stream_headers
  new_request client path = do
    base ← stream_base_of client
    endpoint ← resolve base path
    created endpoint
        (record { method = get; url = endpoint; headers = stream_headers client; body = none })
