-- ===== src/Examples/Upstream.antt =====
-- Runs of the client's requests, and their theorems at concrete inputs.
use synthient_mcp.Prelude.{
  Result, ok, err, ◌>>=◌, ◌^◌, List, [], ◌∷◌, ◌≡◌, refl, true, false, Bool, Option, none, some, any,
  all, ◌==◌, ◌&&◌, if◌then◌else◌, All, arith,
}
use synthient_mcp.Text.{Text, codes}
use synthient_mcp.Text.Search.{Lacks}
use synthient_mcp.Text.Decimal.{pos}
use synthient_mcp.Net.Url.{Url, escaped_path, rooted, is_encoded_byte}
use synthient_mcp.Net.Url.Segments.{IsPlain, all-All}
use synthient_mcp.McpServer.Tools
use synthient_mcp.McpServer.Tools.{call_of}
use synthient_mcp.Synthient.Json.{object, field, end, bool, Fields}
use synthient_mcp.Synthient.Decode.{Next, value, decode_object}
use synthient_mcp.Synthient.Request.{
  Error, Client, HttpRequest, Target, get_target, resolve, prepare, target_of, escaped_endpoint,
  empty_segment, encode_query, page_query,
}
use synthient_mcp.Synthient.Request.Calls.{is_plain-IsPlain}
use synthient_mcp.Synthient.Request.Targets.{IsBase, encoded_segments}
use synthient_mcp.Synthient.Request.Unrooted.{IsBare}
use synthient_mcp.Synthient.Request.Decoded.{read_path, read_path-resolve}
use synthient_mcp.Synthient.Upstream.{request_as, Scanned, answer_or_failure, sampled, sample}
use synthient_mcp.Synthient.Stream.{ScanEnd}
use synthient_mcp.Synthient.Request.Sent.{IsConfigured, IsDocumented, IsStreamed}
use synthient_mcp.Synthient.Request.Sendable.{IsUnadorned, is_query_byte}
use synthient_mcp.Synthient.Upstream.Delivery.{sample-call_of}
use synthient_mcp.Synthient.Response.{Answer}

abbrev base : Url
base = record {
  scheme = codes "https";
  opaque = [];
  has_user = false;
  host = codes "api.synthient.com";
  path = codes "/api/v4/";
  raw_path = [];
  raw_query = [];
  fragment = [];
}

-- As the configuration makes it of `https://api.synthient.com`.
abbrev bare : Url
bare = record base { path = codes "/" }

runs : Unit {0}
unfolding resolve prepare call_of target_of escaped_path read_path request_as decode_object rooted
    encode_query page_query
runs = tt

abbrev escaped : Result Error Url → Text
escaped (ok u) = escaped_path u
escaped (err e) = []

resolved :
    (escaped (resolve base (codes "lookup" ∷ codes "ip" ∷ codes "a/b %" ∷ []))
      ≡ codes "/api/v4/lookup/ip/a%2Fb%20%25")
    × (resolve base (codes ".." ∷ codes "me" ∷ []) ≡ err escaped_endpoint)
    × (resolve base ([] ∷ []) ≡ err empty_segment)
    × (resolve bare (codes "account" ∷ codes "me" ∷ []) ≡ err escaped_endpoint)
    × (encode_query (page_query 100 (codes "a b&")) ≡ codes "cursor=a+b%26&limit=100")
unfolding runs
resolved = (refl, refl, refl, refl, refl)

lacks : (s : Text) → any (λ c. c == b'/') s ≡ false → Lacks b'/' s
lacks [] h = tt
lacks (c ∷ s) h = (ground arith, lacks s (ground arith))

base-IsBase : IsBase base (codes "api") (codes "v4" ∷ [])
base-IsBase = record {
  no_raw_path = refl;
  spelled = unfold rooted in refl;
  plain = (
    (is_plain-IsPlain (codes "api") refl, lacks (codes "api") refl),
    ((is_plain-IsPlain (codes "v4") refl, lacks (codes "v4") refl), tt),
  );
}

bare-IsBare : IsBare bare
bare-IsBare = record { no_raw_path = refl; spelled = refl }

abbrev slashed : List Text
slashed = codes "a/b %" ∷ codes "..." ∷ []

slashed-IsPlain : All IsPlain (codes "feeds" ∷ slashed)
slashed-IsPlain = (
  is_plain-IsPlain (codes "feeds") refl,
  (
    is_plain-IsPlain (codes "a/b %") refl,
    (
      record { visible = (cc, cc, cc); bytes = (omega arith, (omega arith, (omega arith, tt))) },
      tt,
    ),
  ),
)

read_path-resolve_example :
    (endpoint : Url) × (resolve base (codes "feeds" ∷ slashed) ≡ ok endpoint)
    × (read_path (escaped_path endpoint)
        ≡ some (codes "api" ∷ codes "v4" ∷ codes "feeds" ∷ slashed))
read_path-resolve_example =
    read_path-resolve base (codes "api") (codes "v4" ∷ []) (codes "feeds") slashed base-IsBase
      slashed-IsPlain

abbrev client : Client
client = record {
  base_url = some base;
  has_http_client = true;
  api_key = codes "key";
  forwarded_for = codes "8.8.8.8";
  version = codes "1.2.3";
}

-- Whether a URL can be printed and parsed again: its bytes are printable.
abbrev is_printable : Url → Bool
is_printable u = all is_encoded_byte (escaped_path u) && all is_query_byte u.raw_query

abbrev read_back : Url → Option Url
read_back u = if is_printable u then some u else none

abbrev body_of : List Text → Option Text
body_of ips = some (codes "{}")

base-IsUnadorned : IsUnadorned base
base-IsUnadorned = record { no_opaque = refl; no_user = refl; no_query = refl; no_fragment = refl }

client-IsConfigured : IsConfigured client base (codes "api") (codes "v4" ∷ [])
client-IsConfigured = record {
  at_base = refl;
  connected = refl;
  unadorned = base-IsUnadorned;
  well_formed = base-IsBase;
}

printable-IsDocumented : IsDocumented read_back body_of base
printable-IsDocumented = record {
  reads = λ u h. (
    u,
    rw (h.valid, all-All is_query_byte u.raw_query h.query) refl,
    record { scheme = refl; host = refl; spelled = refl; query = refl },
  );
  encodes = λ ips. (codes "{}", refl);
}

abbrev same : Text → Text
same s = s

abbrev domain_target : Target
domain_target = get_target (codes "lookup" ∷ codes "domain" ∷ codes "a.example" ∷ []) []

abbrev answer : Answer
answer = record { status = 200; retry_after = []; body = codes "{}"; broken = false }

abbrev next : Text → Next
next [] = Next.at_end
next (c ∷ s) = value (object (field (codes "ok") (bool true) end)) []

abbrev exchange : HttpRequest → Option Answer
exchange request = some answer

abbrev typed : Fields → Option Bool
typed (field name (bool b) fields) = some b
typed _ = none

answered : request_as read_back body_of next exchange typed client domain_target ≡ ok true
unfolding runs
answered = refl

abbrev stream_target : Target
stream_target = get_target (codes "feeds" ∷ codes "proxies" ∷ codes "stream" ∷ []) []

abbrev scan : Answer → Scanned
scan a = record { lines = a.body ∷ []; scan_end = ScanEnd.finished }

sample-call_of_example :
    (request : HttpRequest) × IsStreamed client base
      (encoded_segments (codes "api" ∷ codes "v4" ∷ []) stream_target.path)
      request
    × (sample read_back body_of next exchange scan 10 (2 ^ 20) [] client stream_target.path ≡ (
        answer_or_failure (exchange request)
        >>= sampled read_back body_of next exchange scan 10 (2 ^ 20) [] client))
unfolding runs
sample-call_of_example =
    sample-call_of read_back body_of same (pos 0)
      (Tools.Request.sample_stream (codes "Proxy") (pos 0) (pos 0) []) (codes "proxies") 10 (2 ^ 20)
      10 [] stream_target client base (codes "api") (codes "v4" ∷ []) next exchange scan refl refl
      client-IsConfigured printable-IsDocumented
