-- ===== src/McpServer/Tools/Calls.antt =====
-- What the handlers can ask of the API, whatever a client sends.
use mathlib.Core.List.{Memᴰ}
use synthient_mcp.Prelude.{
  Result, ok, err, bind_steps, ℕ, ◌≤◌, min, List, [], ◌∷◌, ◌≡◌, refl, Bool, true, false, not, ◌&&◌,
  Option, none, some, length, All, arith,
}
use synthient_mcp.Text.{Text}
use synthient_mcp.Text.Decimal.{ℤ, pos, negsuc}
use synthient_mcp.McpServer.Domain.{normalize_domain}
use synthient_mcp.McpServer.Domain.Laws.{IsDomain, normalize_domain_iff}
use synthient_mcp.McpServer.Snapshot.{snapshot_segments}
use synthient_mcp.McpServer.Snapshot.Laws.{IsSnapshot, snapshot_segments_iff}
use synthient_mcp.McpServer.Streams.{FeedStream, feed_streams, normalize_feed_stream}
use synthient_mcp.McpServer.Streams.Laws.{normalize_feed_stream_iff}
use synthient_mcp.McpServer.Filters.{validate_filters, IsFilter, validate_filters_iff}
use synthient_mcp.McpServer.Symbols.{validate_symbols, IsSymbol, validate_symbols_iff}
use synthient_mcp.McpServer.Tools.Addresses.{
  IsAddress, normalize_ip-IsAddress, checked_ips-IsAddress,
}
use synthient_mcp.McpServer.Tools.{
  Error, Call, Request, relabel, checked, normalize_ip, checked_ips, lookup_call, or_default,
  in_range, short_cursor, maximum_timeout, max_sample_output_bytes, call_of,
}

-- A stream of the catalogue.
pub record IsListed (require_live : Bool) (name : Text) : Type 0 where
  pub feed : FeedStream
  pub listed : Memᴰ feed feed_streams
  pub named : name ≡ feed.name
  pub fit : (require_live && not feed.live) ≡ false

-- The calls that the handlers may make, with a longest timeout for samples.
pub data IsSafe (longest : ℕ) : Call → Type 0 where
  account : IsSafe longest Call.account
  one_ip : {ip : Text} → IsAddress ip → IsSafe longest (Call.lookup_ip ip)
  several_ips :
      {ips : List Text}
      → (1 ≤ length ips) × (length ips ≤ 1000)
      → All IsAddress ips
      → IsSafe longest (Call.lookup_ips ips)
  domain : {d : Text} → IsDomain d → IsSafe longest (Call.lookup_domain d)
  snapshots :
      {name cursor : Text} {limit : ℕ}
      → IsListed false name
      → (1 ≤ limit) × (limit ≤ 500)
      → length cursor ≤ 2048
      → IsSafe longest (Call.feed_snapshots name limit cursor)
  metadata :
      {name : Text} {segments : List Text}
      → IsListed false name
      → IsSnapshot segments
      → IsSafe longest (Call.feed_snapshot_meta name segments)
  sample :
      {name : Text} {count timeout : ℕ} {filters : List (Text × Text)}
      → IsListed true name
      → (1 ≤ count) × (count ≤ 50)
      → (1 ≤ timeout) × (timeout ≤ longest)
      → (length filters ≤ 10) × All IsFilter filters
      → IsSafe longest (Call.sample_stream name count max_sample_output_bytes timeout filters)
  schema :
      {symbols : List Text}
      → (length symbols ≤ 25) × All IsSymbol symbols
      → IsSafe longest (Call.grpc_schema symbols 15)

lookup_call-IsSafe :
    (longest : ℕ) (ips : List Text)
    → ((1 ≤ length ips) × (length ips ≤ 1000)) × All IsAddress ips
    → IsSafe longest (lookup_call ips)
lookup_call-IsSafe longest [] (size, safe) = several_ips size safe
lookup_call-IsSafe longest (ip ∷ []) (size, safe) = one_ip safe.0
lookup_call-IsSafe longest (ip ∷ ip' ∷ ips) (size, safe) = several_ips size safe

relabel_ok : {E A : Type 0} (f : E → Error) (r : Result E A) {a : A} → relabel f r ≡ ok a → r ≡ ok a
relabel_ok f (ok b) e = ground arith
relabel_ok f (err b) e = absurd (cc)

checked_ok :
    {E : Type 0} (f : E → Error) (o : Option E) (u : Unit {0}) → checked f o ≡ ok u → o ≡ none
checked_ok f none u e = refl
checked_ok f (some b) u e = absurd (cc)

in_range_bounds :
    (e : Error) (low high : ℕ) (value : ℤ) (n : ℕ)
    → in_range e low high value ≡ ok n
    → (low ≤ n) × (n ≤ high)
in_range_bounds e low high (negsuc k) n h = absurd (cc)
in_range_bounds e low high (pos k) n h = (ground arith, ground arith)

short_cursor_bound :
    (cursor : Text) (u : Unit {0}) → short_cursor cursor ≡ ok u → length cursor ≤ 2048
short_cursor_bound cursor u e = ground arith

stream-IsListed :
    (lower : Text → Text) (name : Text) (live : Bool) (s : FeedStream)
    → relabel Error.stream (normalize_feed_stream lower name live) ≡ ok s
    → IsListed live s.name
stream-IsListed lower name live s e =
    let chosen =
      (normalize_feed_stream_iff lower name live s).0
        (relabel_ok Error.stream (normalize_feed_stream lower name live) e) in
    record { feed = s; listed = chosen.listed; named = refl; fit = chosen.fit }

domain-IsDomain :
    (lower : Text → Text) (value d : Text)
    → relabel Error.domain (normalize_domain lower value) ≡ ok d
    → IsDomain d
domain-IsDomain lower value d e =
    let (same, valid) =
      (normalize_domain_iff lower value d).0
        (relabel_ok Error.domain (normalize_domain lower value) e) in
    rw same valid

-- A safe call is that which the handler makes.
made :
    {longest : ℕ} {c c' : Call}
    → IsSafe longest c
    → (let result : Result Error (Option Call) = ok (some c) in result ≡ ok (some c'))
    → IsSafe longest c'
made {longest} {c} {c'} safe e = let same : c ≡ c' = ground arith in rw (← same) safe

-- Whatever a client sends to whatever tool, a call of the API that a handler makes has valid
-- arguments: addresses as they are printed, without a zone, at most 1000; a normalised domain; a
-- stream of the catalogue, live for a sample; a page of 1 to 500 and a cursor of at most 2048
-- bytes; the path of a snapshot; 1 to 50 events within 1 MiB and the longest timeout, through at
-- most ten valid filters; at most 25 valid symbols.
pub call_of-IsSafe :
    (lower : Text → Text) (sample_timeout : ℤ) (r : Request) (c : Call)
    → call_of lower sample_timeout r ≡ ok (some c)
    → IsSafe (maximum_timeout sample_timeout) c
unfolding call_of
call_of-IsSafe lower t Request.get_account c e = made account e
call_of-IsSafe lower t (Request.lookup_ip items) c e =
    let (found, good, last) = bind_steps (checked_ips items) _ e in
    made (lookup_call-IsSafe _ found (checked_ips-IsAddress items found good)) last
call_of-IsSafe lower t (Request.lookup_domain value) c e =
    let (d, good, last) = bind_steps (relabel Error.domain (normalize_domain lower value)) _ e in
    made (domain (domain-IsDomain lower value d good)) last
call_of-IsSafe lower t Request.list_feed_streams c e = absurd (ground arith)
call_of-IsSafe lower t (Request.list_feed_snapshots name limit cursor) c e =
    let (s, found, e1) =
      bind_steps (relabel Error.stream (normalize_feed_stream lower name false)) _ e in
    let (size, sized, e2) =
      bind_steps (in_range Error.bad_limit 1 500 (or_default 100 limit)) _ e1 in
    let (u, short, last) = bind_steps (short_cursor cursor) _ e2 in
    made
      (snapshots (stream-IsListed lower name false s found)
        (in_range_bounds Error.bad_limit 1 500 (or_default 100 limit) size sized)
        (short_cursor_bound cursor u short))
      last
call_of-IsSafe lower t (Request.feed_snapshot_meta name date) c e =
    let (s, found, e1) =
      bind_steps (relabel Error.stream (normalize_feed_stream lower name false)) _ e in
    let (segments, good, last) =
      bind_steps (relabel Error.snapshot (snapshot_segments date)) _ e1 in
    let path =
      (snapshot_segments_iff date segments).0
        (relabel_ok Error.snapshot (snapshot_segments date) good) in
    made (metadata (stream-IsListed lower name false s found) path.0) last
call_of-IsSafe lower t (Request.sample_stream name count timeout_seconds wanted) c e =
    let longest = maximum_timeout t in
    let (s, found, e1) =
      bind_steps (relabel Error.stream (normalize_feed_stream lower name true)) _ e in
    let (events, counted, e2) =
      bind_steps (in_range Error.bad_count 1 50 (or_default 10 count)) _ e1 in
    let (timeout, timed, e3) =
      bind_steps
        (in_range (Error.bad_timeout longest) 1 longest
          (or_default (min 10 longest) timeout_seconds))
        _ e2 in
    let (u, good, last) = bind_steps (checked Error.filters (validate_filters wanted)) _ e3 in
    made
      (sample (stream-IsListed lower name true s found)
        (in_range_bounds Error.bad_count 1 50 (or_default 10 count) events counted)
        (in_range_bounds (Error.bad_timeout longest) 1 longest
          (or_default (min 10 longest) timeout_seconds) timeout timed)
        ((validate_filters_iff wanted).0
          (checked_ok Error.filters (validate_filters wanted) u good)))
      last
call_of-IsSafe lower t (Request.grpc_schema names include_descriptor) c e =
    let (u, good, last) = bind_steps (checked Error.symbols (validate_symbols names)) _ e in
    made
      (schema
        ((validate_symbols_iff names).0 (checked_ok Error.symbols (validate_symbols names) u good)))
      last
call_of-IsSafe lower t Request.synthient_account c e = made account e
call_of-IsSafe lower t (Request.synthient_lookup_ip item) c e =
    let (ip, good, last) = bind_steps (normalize_ip item) _ e in
    made (one_ip (normalize_ip-IsAddress item ip good)) last
call_of-IsSafe lower t (Request.synthient_lookup_ips items) c e =
    let (found, good, last) = bind_steps (checked_ips items) _ e in
    let (size, safe) = checked_ips-IsAddress items found good in made (several_ips size safe) last
call_of-IsSafe lower t (Request.synthient_lookup_domain value) c e =
    let (d, good, last) = bind_steps (relabel Error.domain (normalize_domain lower value)) _ e in
    made (domain (domain-IsDomain lower value d good)) last
