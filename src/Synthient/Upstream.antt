-- ===== src/Synthient/Upstream.antt =====
-- The operations of the client end to end: requestQuery, requestAs, requestAsQuery and SampleStream
-- of go/internal/synthient/client.go and feeds.go, from the target to the result. Parameters are
-- the URL that http.NewRequestWithContext makes, the JSON encoder and decoder, the HTTP client and the scanner
-- of lines.
pub mod Delivery
pub mod Accepted
use synthient_mcp.Prelude.{
  Result, ok, err, ◌>>=◌, ℕ, ◌*◌, ◌^◌, List, [], ◌∷◌, Bool, true, false, not, Option, none, some,
  if◌then◌else◌, take,
}
use synthient_mcp.Text.{Text, codes}
use synthient_mcp.Net.Url.{Url}
use synthient_mcp.Synthient.Json.{Fields}
use synthient_mcp.Synthient.Sanitize.{sanitize_object}
use synthient_mcp.Synthient.Decode.{Next, decode_object, decode_event}
use synthient_mcp.Synthient.Request
use synthient_mcp.Synthient.Request.{Client, HttpRequest, Target, prepare, new_request}
use synthient_mcp.Synthient.Response
use synthient_mcp.Synthient.Response.{
  Answer, is_success, stream_error, take_answer, bad_gateway, api_error,
}
use synthient_mcp.Synthient.Stream.{ScanEnd, Sample, sample_stream}

pub data Failure : Type 0 where
  refused : Request.Error → Failure
  failed : Response.Failure → Failure

abbrev pub refused_by {ℓ} : {A : Type ℓ} → Result Request.Error A → Result Failure A
refused_by (ok a) = ok a
refused_by (err e) = err (refused e)

abbrev pub failed_by {ℓ} : {A : Type ℓ} → Result Response.Failure A → Result Failure A
failed_by (ok a) = ok a
failed_by (err e) = err (failed e)

abbrev pub contract_failure : Failure
contract_failure =
    failed
      (api_error (bad_gateway (codes "Synthient API response did not match the expected contract")))

abbrev pub typed_by {ℓ} : {T : Type ℓ} → Option T → Result Failure T
typed_by none = err contract_failure
typed_by (some value) = ok value

abbrev pub answer_or_failure : Option Answer → Result Failure Answer
answer_or_failure none = err (failed Response.request_failed)
answer_or_failure (some answer) = ok answer

-- What the scanner finds in the body: its lines, and what stops it behind the last.
pub record Scanned : Type 0 where
  pub lines : List Text
  pub scan_end : ScanEnd

module _ (renew : Url → Option Url) (marshal : List Text → Option Text) (next : Text → Next)
    (exchange : HttpRequest → Option Answer) where
  unfoldable pub request_query : Client → Target → Result Failure Fields
  unfolding prepare take_answer decode_object
  request_query client target = do
    request ← refused_by (prepare renew marshal client target)
    failed_by (take_answer (decode_object next) client.api_key (exchange request))

  -- requestAs and requestAsQuery; `typed` is the second decoding, into the type of the result.
  unfoldable pub request_as {ℓ} :
      {T : Type ℓ} → (Fields → Option T) → Client → Target → Result Failure T
  unfolding request_query
  request_as typed client target = do fields ← request_query client target; typed_by (typed fields)

  -- The answer of a stream with a status other than success: at most 64 KiB of it are read.
  unfoldable pub stream_failure : Client → Answer → Failure
  unfolding decode_object sanitize_object stream_error
  stream_failure client answer = failed (
      api_error (record {
        status = answer.status;
        retry_after = [];
        message =
            stream_error answer.status (
              sanitize_object client.api_key (decode_object next (take (64 * 2 ^ 10) answer.body)));
      }))

  module _ (scan : Answer → Scanned) (count output_limit : ℕ) (filters : List (Text × Text)) where
    -- What SampleStream does with an answer.
    unfoldable pub sampled : Client → Answer → Result Failure Sample
    unfolding stream_failure sample_stream decode_event
    sampled client answer =
        if not (is_success answer.status)
        then err (stream_failure client answer)
        else ok (
            sample_stream (decode_event next) client.api_key count output_limit filters
              (scan answer).scan_end (scan answer).lines)

    -- SampleStream, at the path of its feed.
    unfoldable pub sample : Client → List Text → Result Failure Sample
    unfolding new_request sampled
    sample client path = do
      request ← refused_by (new_request renew client path)
      answer ← answer_or_failure (exchange request)
      sampled client answer
