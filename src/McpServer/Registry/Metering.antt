-- ===== src/McpServer/Registry/Metering.antt =====
-- What the annotations tell of the tools, and that the names tell them apart.
use synthient_mcp.Prelude.{
  Result, ok, bind_steps, List, [], ◌∷◌, map, ◌≡◌, refl, sym, ◌∙◌, ap, Bool, true, false, not,
  Option, some, min, arith,
}
use synthient_mcp.Text.{Text, text_eq, member}
use synthient_mcp.Text.Decimal.{ℤ}
use synthient_mcp.HttpServer.Scopes.Sets.{distinct}
use synthient_mcp.McpServer.Domain.{normalize_domain}
use synthient_mcp.McpServer.Snapshot.{snapshot_segments}
use synthient_mcp.McpServer.Streams.{normalize_feed_stream}
use synthient_mcp.McpServer.Filters.{validate_filters}
use synthient_mcp.McpServer.Symbols.{validate_symbols}
use synthient_mcp.McpServer.Tools.{
  Call, Error, Request, call_of, lookup_call, relabel, checked, normalize_ip, checked_ips,
  or_default, in_range, short_cursor, maximum_timeout, max_sample_output_bytes,
}
use synthient_mcp.McpServer.Registry.{Tool, tool, tool_of, tools}

-- The calls that consume lookup credit.
abbrev pub is_lookup : Call → Bool
is_lookup (Call.lookup_ip ip) = true
is_lookup (Call.lookup_ips ips) = true
is_lookup (Call.lookup_domain domain) = true
is_lookup _ = false

lookup_call-is_lookup : (ips : List Text) → is_lookup (lookup_call ips) ≡ true
lookup_call-is_lookup [] = refl
lookup_call-is_lookup (ip ∷ []) = refl
lookup_call-is_lookup (ip ∷ other ∷ ips) = refl

made :
    {b : Bool} (d c : Call)
    → is_lookup d ≡ b
    → (let o : Result Error (Option Call) = ok (some d) in o ≡ ok (some c))
    → is_lookup c ≡ b
made d c h e = let same : d ≡ c = ground arith in rw (← same) h

-- One case for each handler: its last step makes a call of a known kind.
lookup_of :
    (lower : Text → Text) (sample_timeout : ℤ) (r : Request) (c : Call)
    → call_of lower sample_timeout r ≡ ok (some c)
    → is_lookup c ≡ (tool_of r).annotations.destructive
unfolding call_of tool_of tool
lookup_of lower t Request.get_account c e = made Call.account c refl e
lookup_of lower t (Request.lookup_ip items) c e =
    let (ips, _, last) = bind_steps (checked_ips items) _ e in
    made (lookup_call ips) c (lookup_call-is_lookup ips) last
lookup_of lower t (Request.lookup_domain value) c e =
    let (d, _, last) = bind_steps (relabel Error.domain (normalize_domain lower value)) _ e in
    made (Call.lookup_domain d) c refl last
lookup_of lower t Request.list_feed_streams c e = absurd (ground arith)
lookup_of lower t (Request.list_feed_snapshots name limit cursor) c e =
    let (s, _, e1) =
      bind_steps (relabel Error.stream (normalize_feed_stream lower name false)) _ e in
    let (size, _, e2) = bind_steps (in_range Error.bad_limit 1 500 (or_default 100 limit)) _ e1 in
    let (_, _, last) = bind_steps (short_cursor cursor) _ e2 in
    made (Call.feed_snapshots s.name size cursor) c refl last
lookup_of lower t (Request.feed_snapshot_meta name date) c e =
    let (s, _, e1) =
      bind_steps (relabel Error.stream (normalize_feed_stream lower name false)) _ e in
    let (segments, _, last) = bind_steps (relabel Error.snapshot (snapshot_segments date)) _ e1 in
    made (Call.feed_snapshot_meta s.name segments) c refl last
lookup_of lower t (Request.sample_stream name count timeout_seconds wanted) c e =
    let longest = maximum_timeout t in
    let (s, _, e1) =
      bind_steps (relabel Error.stream (normalize_feed_stream lower name true)) _ e in
    let (events, _, e2) = bind_steps (in_range Error.bad_count 1 50 (or_default 10 count)) _ e1 in
    let (timeout, _, e3) =
      bind_steps
        (in_range (Error.bad_timeout longest) 1 longest
          (or_default (min 10 longest) timeout_seconds))
        _ e2 in
    let (_, _, last) = bind_steps (checked Error.filters (validate_filters wanted)) _ e3 in
    made (Call.sample_stream s.name events max_sample_output_bytes timeout wanted) c refl last
lookup_of lower t (Request.grpc_schema names include_descriptor) c e =
    let (_, _, last) = bind_steps (checked Error.symbols (validate_symbols names)) _ e in
    made (Call.grpc_schema names 15) c refl last
lookup_of lower t Request.synthient_account c e = made Call.account c refl e
lookup_of lower t (Request.synthient_lookup_ip item) c e =
    let (ip, _, last) = bind_steps (normalize_ip item) _ e in made (Call.lookup_ip ip) c refl last
lookup_of lower t (Request.synthient_lookup_ips items) c e =
    let (ips, _, last) = bind_steps (checked_ips items) _ e in
    made (Call.lookup_ips ips) c refl last
lookup_of lower t (Request.synthient_lookup_domain value) c e =
    let (d, _, last) = bind_steps (relabel Error.domain (normalize_domain lower value)) _ e in
    made (Call.lookup_domain d) c refl last

-- The three hints of a tool say one thing.
hints :
    (r : Request)
    → ((tool_of r).annotations.read_only ≡ not (tool_of r).annotations.destructive)
      × ((tool_of r).annotations.idempotent ≡ not (tool_of r).annotations.destructive)
unfolding tool_of tool
hints Request.get_account = (refl, refl)
hints (Request.lookup_ip ips) = (refl, refl)
hints (Request.lookup_domain domain) = (refl, refl)
hints Request.list_feed_streams = (refl, refl)
hints (Request.list_feed_snapshots stream limit cursor) = (refl, refl)
hints (Request.feed_snapshot_meta stream date) = (refl, refl)
hints (Request.sample_stream stream count timeout filters) = (refl, refl)
hints (Request.grpc_schema symbols include_descriptor) = (refl, refl)
hints Request.synthient_account = (refl, refl)
hints (Request.synthient_lookup_ip ip) = (refl, refl)
hints (Request.synthient_lookup_ips ips) = (refl, refl)
hints (Request.synthient_lookup_domain domain) = (refl, refl)

-- The annotations are true: whatever a client sends, the handler of a tool that is annotated as read
-- only, idempotent and not destructive makes no call that consumes lookup credit, and a call that the
-- handler of any other tool makes is such a lookup.
pub annotations-is_lookup :
    (lower : Text → Text) (sample_timeout : ℤ) (r : Request) (c : Call)
    → call_of lower sample_timeout r ≡ ok (some c)
    → ((tool_of r).annotations.read_only ≡ not (is_lookup c))
      × ((tool_of r).annotations.destructive ≡ is_lookup c)
      × ((tool_of r).annotations.idempotent ≡ not (is_lookup c))
annotations-is_lookup lower t r c e =
    let kind = lookup_of lower t r c e in
    let (read_only, idempotent) = hints r in
    (read_only ∙ ap not (sym kind), sym kind, idempotent ∙ ap not (sym kind))

abbrev pub name_of : Tool → Text
name_of t = t.name

-- The tools of a server have different names, with the legacy names and without.
pub tools-distinct : (legacy : Bool) → distinct (map name_of (tools legacy)) ≡ true
unfolding tools member text_eq
tools-distinct true = refl
tools-distinct false = refl
