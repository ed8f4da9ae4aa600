-- ===== src/Synthient/Upstream/Delivery.antt =====
-- From a tool's input to the request upstream.
use synthient_mcp.Prelude.{ok, ◌>>=◌, ℕ, List, ◌∷◌, ◌≡◌, refl, sym, subst, Option, some}
use synthient_mcp.Text.{Text}
use synthient_mcp.Text.Decimal.{ℤ}
use synthient_mcp.Net.Url.{Url}
use synthient_mcp.McpServer.Tools
use synthient_mcp.McpServer.Tools.{Call, call_of, maximum_timeout}
use synthient_mcp.McpServer.Tools.Calls.{call_of-IsSafe}
use synthient_mcp.Synthient.Request.{Client, HttpRequest, Target, target_of}
use synthient_mcp.Synthient.Decode.{Next}
use synthient_mcp.Synthient.Response.{Answer}
use synthient_mcp.Synthient.Upstream.{Scanned, answer_or_failure, sampled, sample}
use synthient_mcp.Synthient.Request.Targets.{encoded_segments}
use synthient_mcp.Synthient.Request.Calls.{target_of-IsPlainPath}
use synthient_mcp.Synthient.Request.Sent.{
  IsConfigured, IsDocumented, IsStreamed, new_request-IsSent,
}

module _ (renew : Url → Option Url) (marshal : List Text → Option Text) where
  -- Likewise a sample of a live stream that a handler asks for: the request that newRequest makes is
  -- a GET with a URL at the escaped segments of the feed below the base, without a query, with the
  -- headers of a stream and no body, and what SampleStream returns is what it makes of the answer to
  -- that request. The client has an HTTP client and a base URL that has no user information, opaque
  -- part, encoded path, query or fragment and whose path is one or more segments, none of them empty,
  -- `.` or `..`, each behind a slash, with a slash at the end; net/http reads back a printable URL
  -- with a path and a query at the host of the base, and encoding/json encodes lists of strings.
  pub sample-call_of :
      (lower : Text → Text) (sample_timeout : ℤ) (r : Tools.Request) (name : Text)
      (count output_limit timeout : ℕ) (filters : List (Text × Text)) (target : Target)
      (client : Client) (base : Url) (b : Text) (bs : List Text) (next : Text → Next)
      (exchange : HttpRequest → Option Answer) (scan : Answer → Scanned)
      → call_of lower sample_timeout r
        ≡ ok (some (Call.sample_stream name count output_limit timeout filters))
      → target_of (Call.sample_stream name count output_limit timeout filters) ≡ some target
      → IsConfigured client base b bs
      → IsDocumented renew marshal base
      → (request : HttpRequest) × IsStreamed client base
          (encoded_segments (b ∷ bs) target.path)
          request
        × (sample renew marshal next exchange scan count output_limit filters client target.path ≡ (
            answer_or_failure (exchange request)
            >>= sampled renew marshal next exchange scan count output_limit filters client))
  unfolding sample
  sample-call_of lower sample_timeout r name count output_limit timeout filters target client base b
        bs next exchange scan made targeted configured documented =
      let safe =
        call_of-IsSafe lower sample_timeout r
          (Call.sample_stream name count output_limit timeout filters) made in
      let (x, path, same, plain) =
        target_of-IsPlainPath (maximum_timeout sample_timeout)
          (Call.sample_stream name count output_limit timeout filters) target safe targeted in
      let (request, prepared, streamed) =
        new_request-IsSent renew marshal client base b bs x path configured documented plain in
      (
        request,
        subst (λ p. IsStreamed client base (encoded_segments (b ∷ bs) p) request) (sym same)
            streamed,
        rw (same, prepared) refl,
      )
