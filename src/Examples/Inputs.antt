-- ===== src/Examples/Inputs.antt =====
-- Runs and instances for the inputs of the tools: domains, snapshots, feeds, filters and symbols.
use synthient_mcp.Prelude.{some, ◌^◌, List, [], ◌∷◌, ◌≡◌, refl, ◌↔◌, true, false, none, ok, err}
use synthient_mcp.Text.{Text, codes, trim_space, to_lower, trim_suffix, split, text_eq, cut, member}
use synthient_mcp.Text.Decimal.{atoi, itoa_int}
use synthient_mcp.Text.Split.{join}
use synthient_mcp.McpServer.Domain.{bad_label, valid_label, canonical_domain, normalize_domain}
use synthient_mcp.McpServer.Domain.Laws.{IsDomain, normalize_domain_iff}
use synthient_mcp.McpServer.Snapshot
use synthient_mcp.McpServer.Snapshot.{is_date, snapshot_segments}
use synthient_mcp.McpServer.Snapshot.Laws.{IsSnapshot, snapshot_segments_iff}
use synthient_mcp.McpServer.Streams
use synthient_mcp.McpServer.Streams.{FeedStream, feed_streams, find_stream, normalize_feed_stream}
use synthient_mcp.McpServer.Streams.Laws.{IsChosen, normalize_feed_stream_iff}
use synthient_mcp.Text.Decimal.{pos}
use synthient_mcp.McpServer.Tools.{Call, Request, call_of}
use synthient_mcp.McpServer.Tools.Calls.{IsSafe, call_of-IsSafe}
use synthient_mcp.McpServer.Filters.{validate_filters, check_filters}
use synthient_mcp.McpServer.Symbols.{validate_symbols, check_symbols}

-- The lower case of texts outside ASCII, here left as it is.
abbrev same : Text → Text
same s = s

runs : Unit {0}
unfolding normalize_domain trim_space to_lower trim_suffix split valid_label text_eq cut is_date
    atoi itoa_int snapshot_segments feed_streams find_stream normalize_feed_stream member
    check_filters validate_filters check_symbols validate_symbols
runs = tt

abbrev shouted : Text
shouted = codes " WWW.Example.COM. "

accepted : normalize_domain same shouted ≡ ok (codes "www.example.com")
unfolding runs
accepted = refl

empty_label : normalize_domain same (codes "a..b") ≡ err bad_label
unfolding runs
empty_label = refl

normalize_domain_iff_example : (normalize_domain same shouted ≡ ok (codes "www.example.com")) ↔ (
    (codes "www.example.com" ≡ canonical_domain same shouted)
    × IsDomain (canonical_domain same shouted))
normalize_domain_iff_example = normalize_domain_iff same shouted (codes "www.example.com")

hourly : snapshot_segments (codes "2024-02-29/7") ≡ ok (codes "2024-02-29" ∷ codes "7" ∷ [])
unfolding runs
hourly = refl

padded : snapshot_segments (codes "2024-02-29/07") ≡ err Snapshot.bad_hour
unfolding runs
padded = refl

snapshot_segments_iff_example :
    (snapshot_segments (codes "2024-02-29/7") ≡ ok (codes "2024-02-29" ∷ codes "7" ∷ [])) ↔ (
      IsSnapshot (codes "2024-02-29" ∷ codes "7" ∷ [])
      × (join b'/' (codes "2024-02-29" ∷ codes "7" ∷ []) ≡ trim_space (codes "2024-02-29/7")))
snapshot_segments_iff_example =
    snapshot_segments_iff (codes "2024-02-29/7") (codes "2024-02-29" ∷ codes "7" ∷ [])

abbrev dns : FeedStream
dns = record {
  name = codes "honeypot_dns";
  aliases = codes "helios_dns" ∷ codes "dns" ∷ [];
  description = codes "DNS resolution observations from Helios honeypot tunnels.";
  required_scope = codes "HONEYPOT_DNS_FEED";
  live = false;
}

aliased : normalize_feed_stream same (codes " DNS") false ≡ ok dns
unfolding runs
aliased = refl

not_sampled :
    normalize_feed_stream same (codes "dns") true ≡ err (Streams.not_live (codes "honeypot_dns"))
unfolding runs
not_sampled = refl

normalize_feed_stream_iff_example :
    (normalize_feed_stream same (codes " DNS") false ≡ ok dns)
    ↔ IsChosen feed_streams false (to_lower same (trim_space (codes " DNS"))) dns
normalize_feed_stream_iff_example = normalize_feed_stream_iff same (codes " DNS") false dns

abbrev one_filter : List (Text × Text)
one_filter = (codes "ip.asn", codes "1") ∷ []

filters_pass : validate_filters one_filter ≡ none
unfolding runs
filters_pass = refl

symbols_pass : validate_symbols (codes "feed.v1.Feeds" ∷ []) ≡ none
unfolding runs
symbols_pass = refl

abbrev sample : Request
sample = Request.sample_stream (codes "http") (pos 0) (pos 3) one_filter

abbrev sample_call : Call
sample_call = Call.sample_stream (codes "honeypot_http") 10 (2 ^ 20) 3 one_filter

sample_planned : call_of same (pos 0) sample ≡ ok (some sample_call)
unfolding runs call_of
sample_planned = refl

call_of-IsSafe_example : IsSafe 15 sample_call
call_of-IsSafe_example = call_of-IsSafe same (pos 0) sample sample_call sample_planned
