-- ===== src/McpServer/Tools.antt =====
-- The handlers of the tools, of go/internal/mcpserver/server.go, feeds.go and legacy.go, up to the
-- call of the API. Each handler checks its input and makes at most one call; an error of the call
-- is passed on, and an answer is put into words and returned.
pub mod Addresses
pub mod Calls
use synthient_mcp.Prelude.{
  Result, ok, err, ◌>>=◌, ℕ, zero, suc, ◌+◌, ◌*◌, ◌/◌, ◌^◌, min, max, List, [], ◌∷◌, Bool, true,
  false, ◌&&◌, ◌||◌, Option, none, some, ltb, if◌then◌else◌, length,
}
use synthient_mcp.Text.{Text, trim_space}
use synthient_mcp.Text.Decimal.{ℤ, pos, negsuc}
use synthient_mcp.Net.{Addr, unmap, has_zone}
use synthient_mcp.Net.Parse.{parse_addr}
use synthient_mcp.Net.Print.{addr_string}
use synthient_mcp.McpServer.Domain
use synthient_mcp.McpServer.Domain.{normalize_domain}
use synthient_mcp.McpServer.Snapshot
use synthient_mcp.McpServer.Snapshot.{snapshot_segments}
use synthient_mcp.McpServer.Streams
use synthient_mcp.McpServer.Streams.{FeedStream, normalize_feed_stream}
use synthient_mcp.McpServer.Filters
use synthient_mcp.McpServer.Filters.{validate_filters}
use synthient_mcp.McpServer.Symbols
use synthient_mcp.McpServer.Symbols.{validate_symbols}

pub data Error : Type 0 where
  bad_ip bad_ip_count bad_limit long_cursor bad_count : Error
  bad_timeout : (maximum : ℕ) → Error
  bad_ip_at : (index : ℕ) → Error
  domain : Domain.Error → Error
  stream : Streams.Error → Error
  snapshot : Snapshot.Error → Error
  filters : Filters.Error → Error
  symbols : Symbols.Error → Error

-- A call of the interface API; timeouts are in seconds.
pub data Call : Type 0 where
  account : Call
  lookup_ip : (ip : Text) → Call
  lookup_ips : (ips : List Text) → Call
  lookup_domain : (domain : Text) → Call
  feed_snapshots : (stream : Text) (limit : ℕ) (cursor : Text) → Call
  feed_snapshot_meta : (stream : Text) (segments : List Text) → Call
  sample_stream :
      (stream : Text) (count output_limit timeout : ℕ) (filters : List (Text × Text)) → Call
  grpc_schema : (symbols : List Text) (timeout : ℕ) → Call

-- The tools with their inputs, the four legacy ones last. Filters are the entries of the map in
-- the order in which its loop meets them.
pub data Request : Type 0 where
  get_account : Request
  lookup_ip : (ips : List Text) → Request
  lookup_domain : (domain : Text) → Request
  list_feed_streams : Request
  list_feed_snapshots : (stream : Text) (limit : ℤ) (cursor : Text) → Request
  feed_snapshot_meta : (stream date : Text) → Request
  sample_stream :
      (stream : Text) (count timeout_seconds : ℤ) (filters : List (Text × Text)) → Request
  grpc_schema : (symbols : List Text) (include_descriptor : Bool) → Request
  synthient_account : Request
  synthient_lookup_ip : (ip : Text) → Request
  synthient_lookup_ips : (ips : List Text) → Request
  synthient_lookup_domain : (domain : Text) → Request

abbrev pub relabel {ℓ} : {E : Type ℓ} {A : Type 0} → (E → Error) → Result E A → Result Error A
relabel f (ok a) = ok a
relabel f (err e) = err (f e)

abbrev pub checked {ℓ} : {E : Type ℓ} → (E → Error) → Option E → Result Error (Unit {0})
checked f none = ok tt
checked f (some e) = err (f e)

abbrev pub ip_text : Option Addr → Result Error Text
ip_text none = err bad_ip
ip_text (some a) = if has_zone a then err bad_ip else ok (addr_string (unmap a))

unfoldable pub normalize_ip : Text → Result Error Text
unfolding parse_addr unmap addr_string trim_space
normalize_ip value = ip_text (parse_addr (trim_space value))

abbrev pub at_index : ℕ → Result Error Text → Result Error Text
at_index index (ok ip) = ok ip
at_index index (err e) = err (bad_ip_at index)

-- The loop over the addresses.
unfoldable pub normalize_ips : ℕ → List Text → Result Error (List Text)
unfolding normalize_ip
normalize_ips index [] = ok []
normalize_ips index (item ∷ items) = do
  ip ← at_index index (normalize_ip item)
  ips ← normalize_ips (suc index) items
  ok (ip ∷ ips)

unfoldable pub checked_ips : List Text → Result Error (List Text)
unfolding normalize_ips
checked_ips items =
    if ltb (length items) 1 || ltb 1000 (length items)
    then err bad_ip_count
    else normalize_ips 0 items

abbrev pub lookup_call : List Text → Call
lookup_call (ip ∷ []) = Call.lookup_ip ip
lookup_call ips = Call.lookup_ips ips

-- `if value == 0 { value = default }`.
abbrev pub or_default : ℕ → ℤ → ℤ
or_default default (pos zero) = pos default
or_default default value = value

abbrev pub in_range : Error → ℕ → ℕ → ℤ → Result Error ℕ
in_range e low high (negsuc n) = err e
in_range e low high (pos n) = if ltb n low || ltb high n then err e else ok n

abbrev pub short_cursor : Text → Result Error (Unit {0})
short_cursor cursor = if ltb 2048 (length cursor) then err long_cursor else ok tt

abbrev pub second : ℕ
second = 1_000_000_000

-- The longest timeout in seconds, for the option in nanoseconds: 15 if it is not positive.
abbrev pub maximum_timeout : ℤ → ℕ
maximum_timeout (pos zero) = 15
maximum_timeout (pos (suc n)) = max 1 (suc n / second)
maximum_timeout (negsuc n) = 15

abbrev pub max_sample_output_bytes : ℕ
max_sample_output_bytes = 2 ^ 20

-- `none` is the one tool that makes no call.
unfoldable pub call_of : (Text → Text) → ℤ → Request → Result Error (Option Call)
unfolding checked_ips normalize_ip normalize_domain normalize_feed_stream snapshot_segments
    validate_filters validate_symbols
call_of lower sample_timeout get_account = ok (some account)
call_of lower sample_timeout (Request.lookup_ip items) = do
  ips ← checked_ips items
  ok (some (lookup_call ips))
call_of lower sample_timeout (Request.lookup_domain value) = do
  d ← relabel domain (normalize_domain lower value)
  ok (some (Call.lookup_domain d))
call_of lower sample_timeout list_feed_streams = ok none
call_of lower sample_timeout (list_feed_snapshots name limit cursor) = do
  s ← relabel stream (normalize_feed_stream lower name false)
  size ← in_range bad_limit 1 500 (or_default 100 limit)
  _ ← short_cursor cursor
  ok (some (feed_snapshots s.name size cursor))
call_of lower sample_timeout (Request.feed_snapshot_meta name date) = do
  s ← relabel stream (normalize_feed_stream lower name false)
  segments ← relabel snapshot (snapshot_segments date)
  ok (some (Call.feed_snapshot_meta s.name segments))
call_of lower sample_timeout (Request.sample_stream name count timeout_seconds wanted) = do
  s ← relabel stream (normalize_feed_stream lower name true)
  events ← in_range bad_count 1 50 (or_default 10 count)
  let maximum = maximum_timeout sample_timeout
  timeout ← in_range (bad_timeout maximum) 1 maximum (or_default (min 10 maximum) timeout_seconds)
  _ ← checked filters (validate_filters wanted)
  ok (some (Call.sample_stream s.name events max_sample_output_bytes timeout wanted))
call_of lower sample_timeout (Request.grpc_schema names include_descriptor) = do
  _ ← checked symbols (validate_symbols names)
  ok (some (Call.grpc_schema names 15))
call_of lower sample_timeout synthient_account = ok (some account)
call_of lower sample_timeout (synthient_lookup_ip item) = do
  ip ← normalize_ip item
  ok (some (Call.lookup_ip ip))
call_of lower sample_timeout (synthient_lookup_ips items) = do
  ips ← checked_ips items
  ok (some (Call.lookup_ips ips))
call_of lower sample_timeout (synthient_lookup_domain value) = do
  d ← relabel domain (normalize_domain lower value)
  ok (some (Call.lookup_domain d))
