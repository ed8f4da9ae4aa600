-- ===== src/McpServer/Replies.antt =====
-- The handlers of the tools as a whole (go/internal/mcpserver/server.go, feeds.go and legacy.go):
-- the checks of the input, the call of the interface API, and the text and the value of the answer.
pub mod Single
use synthient_mcp.Prelude.{
  Result, ok, err, ◌>>=◌, ℕ, zero, ◌*◌, List, [], ◌∷◌, Bool, true, false, Option, ltb, length, min,
}
use synthient_mcp.Text.{Text}
use synthient_mcp.Text.Decimal.{ℤ}
use synthient_mcp.Synthient.Json.{Fields}
use synthient_mcp.McpServer.Domain.{normalize_domain}
use synthient_mcp.McpServer.Snapshot.{snapshot_segments}
use synthient_mcp.McpServer.Streams.{FeedStream, feed_streams, live_count, normalize_feed_stream}
use synthient_mcp.McpServer.Filters.{validate_filters}
use synthient_mcp.McpServer.Symbols.{validate_symbols}
use synthient_mcp.McpServer.Schema
use synthient_mcp.McpServer.Schema.{File, Schema, grpc_schema_output}
use synthient_mcp.McpServer.Summaries.{
  Account, IpReport, DomainReport, Page, Meta, account_summary, ip_summary, domain_summary,
  streams_summary, page_summary, meta_summary, sample_summary, schema_summary,
}
use synthient_mcp.McpServer.Tools
use synthient_mcp.McpServer.Tools.{
  Request, bad_limit, bad_count, bad_timeout, domain, stream, snapshot, filters, symbols, relabel,
  checked, normalize_ip, checked_ips, or_default, in_range, short_cursor, maximum_timeout,
  max_sample_output_bytes,
}

-- The events of a sample, and whether it was cut off.
pub record Sampled : Type 0 where
  pub events : List Fields
  pub truncated : Bool

-- The interface API, with its errors of a type F; the deadlines are in seconds.
pub record Api (F : Type 0) : Type 0 where
  pub account : Result F Account
  pub lookup_ip : Text → Result F IpReport
  pub lookup_ips : List Text → Result F (List IpReport)
  pub lookup_domain : Text → Result F DomainReport
  pub feed_snapshots : Text → ℕ → Text → Result F Page
  pub feed_snapshot_meta : Text → List Text → Result F Meta
  pub sample_stream : Text → ℕ → ℕ → ℕ → List (Text × Text) → Result F Sampled
  pub grpc_schema : List Text → ℕ → Result F Schema

-- The value beside the text of an answer.
pub data Output : Type 0 where
  account : Account → Output
  -- of lookup_ip, of its legacy batch, and of its legacy form for one address
  reports : (ips : List IpReport) → Output
  results : (results : List IpReport) → Output
  report : IpReport → Output
  domain_report : DomainReport → Output
  streams : List FeedStream → Output
  page : Page → Output
  meta : Meta → Output
  sample : (stream : Text) (count : ℕ) → Sampled → Output
  schema : Schema.Output → Output

pub record Reply : Type 0 where
  pub text : Text
  pub output : Output

-- The input is refused, the call fails, or the schema cannot be put out.
pub data Refused (F : Type 0) : Type 0 where
  invalid : Tools.Error → Refused F
  failed : F → Refused F
  bad_schema : Schema.Error → Refused F

abbrev pub labelled : {E G A : Type 0} → (E → G) → Result E A → Result G A
labelled f (ok a) = ok a
labelled f (err e) = err (f e)

module _ {F : Type 0} (api : Api F) (marshal : List File → Option Text) (lower : Text → Text)
    (sample_timeout : ℤ) where
  abbrev pub valid : {A : Type 0} → Result Tools.Error A → Result (Refused F) A
  valid r = labelled invalid r

  abbrev pub answered : {A : Type 0} → Result F A → Result (Refused F) A
  answered r = labelled failed r

  abbrev pub replied : Text → Output → Result (Refused F) Reply
  replied text output = ok (record { text = text; output = output })

  -- One address is looked up by itself, more in one batch.
  unfoldable pub look_up : List Text → Result (Refused F) (List IpReport)
  look_up (ip ∷ []) = do found ← answered (api.lookup_ip ip); ok (found ∷ [])
  look_up ips = answered (api.lookup_ips ips)

  unfoldable pub account_reply : Result (Refused F) Reply
  unfolding account_summary
  account_reply = do found ← answered api.account; replied (account_summary found) (account found)

  unfoldable pub domain_reply : Text → Result (Refused F) Reply
  unfolding normalize_domain domain_summary
  domain_reply value = do
    d ← valid (relabel domain (normalize_domain lower value))
    found ← answered (api.lookup_domain d)
    replied (domain_summary found) (domain_report found)

  unfoldable pub sample_reply : Text → ℤ → ℤ → List (Text × Text) → Result (Refused F) Reply
  unfolding normalize_feed_stream validate_filters sample_summary
  sample_reply name count timeout_seconds wanted = do
    s ← valid (relabel stream (normalize_feed_stream lower name true))
    events ← valid (in_range bad_count 1 50 (or_default 10 count))
    let maximum = maximum_timeout sample_timeout
    timeout ←
        valid
          (in_range (bad_timeout maximum) 1 maximum (or_default (min 10 maximum) timeout_seconds))
    _ ← valid (checked filters (validate_filters wanted))
    got ← answered (api.sample_stream s.name events max_sample_output_bytes timeout wanted)
    replied (sample_summary s.name (length got.events) got.truncated)
        (sample s.name (length got.events) got)

  -- The answer of a tool.
  unfoldable pub reply : Request → Result (Refused F) Reply
  unfolding account_reply look_up domain_reply sample_reply checked_ips normalize_ip
      normalize_feed_stream snapshot_segments validate_symbols grpc_schema_output ip_summary
      streams_summary page_summary meta_summary schema_summary feed_streams live_count
  reply Request.get_account = account_reply
  reply (Request.lookup_ip items) = do
    ips ← valid (checked_ips items)
    found ← look_up ips
    replied (ip_summary found) (reports found)
  reply (Request.lookup_domain value) = domain_reply value
  reply Request.list_feed_streams =
      replied (streams_summary (length feed_streams) (live_count feed_streams))
        (streams feed_streams)
  reply (Request.list_feed_snapshots name limit cursor) = do
    s ← valid (relabel stream (normalize_feed_stream lower name false))
    size ← valid (in_range bad_limit 1 500 (or_default 100 limit))
    _ ← valid (short_cursor cursor)
    found ← answered (api.feed_snapshots s.name size cursor)
    replied (page_summary s.name found) (page found)
  reply (Request.feed_snapshot_meta name date) = do
    s ← valid (relabel stream (normalize_feed_stream lower name false))
    segments ← valid (relabel snapshot (snapshot_segments date))
    found ← answered (api.feed_snapshot_meta s.name segments)
    replied (meta_summary s.name found) (meta found)
  reply (Request.sample_stream name count timeout_seconds wanted) =
      sample_reply name count timeout_seconds wanted
  reply (Request.grpc_schema names include_descriptor) = do
    _ ← valid (checked symbols (validate_symbols names))
    result ← answered (api.grpc_schema names 15)
    out ← labelled bad_schema (grpc_schema_output marshal result include_descriptor)
    replied (schema_summary (length out.services) (length out.files)) (schema out)
  reply Request.synthient_account = account_reply
  reply (Request.synthient_lookup_ip item) = do
    ip ← valid (normalize_ip item)
    found ← answered (api.lookup_ip ip)
    replied (ip_summary (found ∷ [])) (report found)
  reply (Request.synthient_lookup_ips items) = do
    ips ← valid (checked_ips items)
    found ← answered (api.lookup_ips ips)
    replied (ip_summary found) (results found)
  reply (Request.synthient_lookup_domain value) = domain_reply value
