-- ===== src/McpServer/Replies/Single.antt =====
-- A tool makes the one call of its input: no other operation of the API has a part in its answer.
use synthient_mcp.Prelude.{
  Result, ok, err, ◌>>=◌, bind_cong, bind_assoc, List, [], ◌∷◌, ◌≡◌, refl, sym, ◌∙◌, Bool, true,
  false, Option, none, some, length, min,
}
use synthient_mcp.Text.{Text}
use synthient_mcp.Text.Decimal.{ℤ}
use synthient_mcp.McpServer.Domain.{normalize_domain}
use synthient_mcp.McpServer.Snapshot.{snapshot_segments}
use synthient_mcp.McpServer.Streams.{feed_streams, live_count, normalize_feed_stream}
use synthient_mcp.McpServer.Filters.{validate_filters}
use synthient_mcp.McpServer.Symbols.{validate_symbols}
use synthient_mcp.McpServer.Schema.{File, grpc_schema_output}
use synthient_mcp.McpServer.Summaries.{
  IpReport, account_summary, ip_summary, domain_summary, streams_summary, page_summary,
  meta_summary, sample_summary, schema_summary,
}
use synthient_mcp.McpServer.Tools
use synthient_mcp.McpServer.Tools.{
  Request, Call, bad_limit, bad_count, bad_timeout, domain, stream, snapshot, filters, symbols,
  relabel, checked, normalize_ip, checked_ips, lookup_call, or_default, in_range, short_cursor,
  maximum_timeout, call_of,
}
use synthient_mcp.McpServer.Replies.{
  Api, Output, results, report, Reply, Refused, account, reports, domain_report, streams, page,
  meta, sample, schema, invalid, bad_schema, labelled, answered, replied, look_up, account_reply,
  domain_reply, sample_reply, reply,
}

labelled_step :
    {E G A B C : Type 0} (f : E → G) (r : Result E A) (k : A → Result E B) (g : B → Result G C)
    → (labelled f (r >>= k) >>= g) ≡ (labelled f r >>= λ a. labelled f (k a) >>= g)
labelled_step f (ok a) k g = refl
labelled_step f (err e) k g = refl

abbrev report_output : Request → IpReport → Output
report_output (Request.synthient_lookup_ip ip) found = report found
report_output _ found = reports (found ∷ [])

abbrev batch_output : Request → List IpReport → Output
batch_output (Request.synthient_lookup_ips ips) found = results found
batch_output _ found = reports found

abbrev wants_descriptor : Request → Bool
wants_descriptor (Request.grpc_schema names include_descriptor) = include_descriptor
wants_descriptor _ = false

module _ {F : Type 0} (api : Api F) (marshal : List File → Option Text) (lower : Text → Text)
    (sample_timeout : ℤ) where
  -- What is answered to a call, and where there is none.
  unfoldable answer_to : Request → Option Call → Result (Refused F) Reply
  answer_to r none =
      replied api marshal lower sample_timeout
        (streams_summary (length feed_streams) (live_count feed_streams)) (streams feed_streams)
  answer_to r (some Call.account) = do
    found ← answered api marshal lower sample_timeout api.account
    replied api marshal lower sample_timeout (account_summary found) (account found)
  answer_to r (some (Call.lookup_ip ip)) = do
    found ← answered api marshal lower sample_timeout (api.lookup_ip ip)
    replied api marshal lower sample_timeout (ip_summary (found ∷ [])) (report_output r found)
  answer_to r (some (Call.lookup_ips ips)) = do
    found ← answered api marshal lower sample_timeout (api.lookup_ips ips)
    replied api marshal lower sample_timeout (ip_summary found) (batch_output r found)
  answer_to r (some (Call.lookup_domain d)) = do
    found ← answered api marshal lower sample_timeout (api.lookup_domain d)
    replied api marshal lower sample_timeout (domain_summary found) (domain_report found)
  answer_to r (some (Call.feed_snapshots name limit cursor)) = do
    found ← answered api marshal lower sample_timeout (api.feed_snapshots name limit cursor)
    replied api marshal lower sample_timeout (page_summary name found) (page found)
  answer_to r (some (Call.feed_snapshot_meta name segments)) = do
    found ← answered api marshal lower sample_timeout (api.feed_snapshot_meta name segments)
    replied api marshal lower sample_timeout (meta_summary name found) (meta found)
  answer_to r (some (Call.sample_stream name count output_limit timeout wanted)) = do
    got ←
        answered api marshal lower sample_timeout
          (api.sample_stream name count output_limit timeout wanted)
    replied api marshal lower sample_timeout (sample_summary name (length got.events) got.truncated)
        (sample name (length got.events) got)
  answer_to r (some (Call.grpc_schema names timeout)) = do
    result ← answered api marshal lower sample_timeout (api.grpc_schema names timeout)
    out ← labelled bad_schema (grpc_schema_output marshal result (wants_descriptor r))
    replied api marshal lower sample_timeout
        (schema_summary (length out.services) (length out.files)) (schema out)

  -- The chains of the two sides agree step by step.
  look_up-lookup_call :
      (items ips : List Text)
      → (look_up api marshal lower sample_timeout ips >>= λ found.
          replied api marshal lower sample_timeout (ip_summary found) (reports found))
        ≡ answer_to (Request.lookup_ip items) (some (lookup_call ips))
  unfolding look_up answer_to
  look_up-lookup_call items [] = refl
  look_up-lookup_call items (ip ∷ []) =
      bind_assoc (answered api marshal lower sample_timeout (api.lookup_ip ip)) _ _
  look_up-lookup_call items (ip ∷ next ∷ ips) = refl

  -- The handlers, which interleave checks, call and text, as the checks followed by the answer.
  reply-call_of :
      (r : Request)
      → reply api marshal lower sample_timeout r
        ≡ (labelled invalid (call_of lower sample_timeout r) >>= answer_to r)
  unfolding reply call_of answer_to account_reply domain_reply sample_reply
  reply-call_of Request.get_account = refl
  reply-call_of (Request.lookup_ip items) =
      bind_cong (labelled invalid (checked_ips items)) (look_up-lookup_call items)
      ∙ sym (labelled_step invalid (checked_ips items) _ _)
  reply-call_of (Request.lookup_domain value) =
      sym (labelled_step invalid (relabel domain (normalize_domain lower value)) _ _)
  reply-call_of Request.list_feed_streams = refl
  reply-call_of (Request.list_feed_snapshots name limit cursor) =
      let known = relabel stream (normalize_feed_stream lower name false) in
      sym (
        labelled_step invalid known _ _
        ∙ bind_cong (labelled invalid known) (λ s.
          labelled_step invalid (in_range bad_limit 1 500 (or_default 100 limit)) _ _
          ∙ bind_cong (labelled invalid (in_range bad_limit 1 500 (or_default 100 limit)))
              (λ size. labelled_step invalid (short_cursor cursor) _ _)))
  reply-call_of (Request.feed_snapshot_meta name date) =
      let known = relabel stream (normalize_feed_stream lower name false) in
      sym (
        labelled_step invalid known _ _
        ∙ bind_cong (labelled invalid known)
            (λ s. labelled_step invalid (relabel snapshot (snapshot_segments date)) _ _))
  reply-call_of (Request.sample_stream name count timeout_seconds wanted) =
      let known = relabel stream (normalize_feed_stream lower name true) in
      let events = in_range bad_count 1 50 (or_default 10 count) in
      let maximum = maximum_timeout sample_timeout in
      let timeout =
        in_range (bad_timeout maximum) 1 maximum (or_default (min 10 maximum) timeout_seconds) in
      sym (
        labelled_step invalid known _ _
        ∙ bind_cong (labelled invalid known) (λ s.
          labelled_step invalid events _ _
          ∙ bind_cong (labelled invalid events) (λ n.
            labelled_step invalid timeout _ _
            ∙ bind_cong (labelled invalid timeout)
                (λ t. labelled_step invalid (checked filters (validate_filters wanted)) _ _))))
  reply-call_of (Request.grpc_schema names include_descriptor) =
      sym (labelled_step invalid (checked symbols (validate_symbols names)) _ _)
  reply-call_of Request.synthient_account = refl
  reply-call_of (Request.synthient_lookup_ip item) =
      sym (labelled_step invalid (normalize_ip item) _ _)
  reply-call_of (Request.synthient_lookup_ips items) =
      sym (labelled_step invalid (checked_ips items) _ _)
  reply-call_of (Request.synthient_lookup_domain value) =
      sym (labelled_step invalid (relabel domain (normalize_domain lower value)) _ _)

-- Two APIs give the same answer to a call.
abbrev pub Agree : {F : Type 0} → Api F → Api F → Call → Type 0
Agree a b Call.account = a.account ≡ b.account
Agree a b (Call.lookup_ip ip) = a.lookup_ip ip ≡ b.lookup_ip ip
Agree a b (Call.lookup_ips ips) = a.lookup_ips ips ≡ b.lookup_ips ips
Agree a b (Call.lookup_domain d) = a.lookup_domain d ≡ b.lookup_domain d
Agree a b (Call.feed_snapshots name limit cursor) =
    a.feed_snapshots name limit cursor ≡ b.feed_snapshots name limit cursor
Agree a b (Call.feed_snapshot_meta name segments) =
    a.feed_snapshot_meta name segments ≡ b.feed_snapshot_meta name segments
Agree a b (Call.sample_stream name count output_limit timeout wanted) =
    a.sample_stream name count output_limit timeout wanted
    ≡ b.sample_stream name count output_limit timeout wanted
Agree a b (Call.grpc_schema names timeout) =
    a.grpc_schema names timeout ≡ b.grpc_schema names timeout

module _ {F : Type 0} (a b : Api F) (marshal : List File → Option Text) (lower : Text → Text)
    (sample_timeout : ℤ) where
  answer_to-Agree :
      (r : Request) (c : Call)
      → Agree a b c
      → answer_to a marshal lower sample_timeout r (some c)
        ≡ answer_to b marshal lower sample_timeout r (some c)
  unfolding answer_to
  answer_to-Agree r Call.account h = rw h refl
  answer_to-Agree r (Call.lookup_ip ip) h = rw h refl
  answer_to-Agree r (Call.lookup_ips ips) h = rw h refl
  answer_to-Agree r (Call.lookup_domain d) h = rw h refl
  answer_to-Agree r (Call.feed_snapshots name limit cursor) h = rw h refl
  answer_to-Agree r (Call.feed_snapshot_meta name segments) h = rw h refl
  answer_to-Agree r (Call.sample_stream name count output_limit timeout wanted) h = rw h refl
  answer_to-Agree r (Call.grpc_schema names timeout) h = rw h refl

  made-Agree :
      (r : Request) (made : Result Tools.Error (Option Call))
      → ((c : Call) → made ≡ ok (some c) → Agree a b c)
      → (labelled invalid made >>= answer_to a marshal lower sample_timeout r)
        ≡ (labelled invalid made >>= answer_to b marshal lower sample_timeout r)
  unfolding answer_to
  made-Agree r (err e) h = refl
  made-Agree r (ok none) h = refl
  made-Agree r (ok (some c)) h = answer_to-Agree r c (h c refl)

  -- Two APIs that give the same answer to the one call that a request's input stands for, if it
  -- stands for one, have the request answered alike, with text, value or error. So no other operation
  -- of the API has a part in the answer of a tool: input that its checks refuse, and the list of
  -- streams, are answered whatever the API is, and one address in lookup_ip is answered by the lookup
  -- of that address, never by a batch.
  pub reply-Agree :
      (r : Request)
      → ((c : Call) → call_of lower sample_timeout r ≡ ok (some c) → Agree a b c)
      → reply a marshal lower sample_timeout r ≡ reply b marshal lower sample_timeout r
  reply-Agree r h =
      reply-call_of a marshal lower sample_timeout r
      ∙ made-Agree r (call_of lower sample_timeout r) h
      ∙ sym (reply-call_of b marshal lower sample_timeout r)
