-- ===== src/Examples/Replies.antt =====
-- Runs of McpServer.Summaries and McpServer.Replies, and an instance for their theorem.
use synthient_mcp.Prelude.{ok, err, List, [], ◌∷◌, ◌≡◌, refl, subst, arith, Option, none, some}
use synthient_mcp.Text.{Text, codes}
use synthient_mcp.Text.Decimal.{pos}
use synthient_mcp.McpServer.Schema.{File}
use synthient_mcp.McpServer.Summaries.{IpReport, account_summary, ip_summary, fallback}
use synthient_mcp.McpServer.Tools.{Request, Call, call_of, bad_ip_at}
use synthient_mcp.McpServer.Replies.{Api, reports, invalid, failed, reply}
use synthient_mcp.McpServer.Replies.Single.{Agree, reply-Agree}

abbrev about : Text → IpReport
about ip = record { ip = ip; risk_score = pos 70; asn = pos 64500; country = [] }

-- An API that knows every address, and nothing else.
abbrev known_ips : Api Text
known_ips = record {
  account = err (codes "no account");
  lookup_ip = λ ip. ok (about ip);
  lookup_ips = λ ips. err (codes "no batches");
  lookup_domain = λ domain. err (codes "no domains");
  feed_snapshots = λ stream limit cursor. err (codes "no feeds");
  feed_snapshot_meta = λ stream segments. err (codes "no feeds");
  sample_stream = λ stream count output_limit timeout filters. err (codes "no feeds");
  grpc_schema = λ symbols timeout. err (codes "no schema");
}

abbrev no_json : List File → Option Text
no_json files = none

abbrev same : Text → Text
same s = s

abbrev one : Request
one = Request.lookup_ip (codes " 192.0.2.1 " ∷ [])

summarised :
    ip_summary (about (codes "192.0.2.1") ∷ [])
    ≡ codes "192.0.2.1: risk score 70, ASN 64500, country unknown."
unfolding ip_summary fallback
summarised = refl

named :
    account_summary (record {
      first_name = codes "Ada";
      last_name = [];
      email = codes "ada@example.com";
      organization = [];
      credits = pos 12;
      resets_in = pos 60;
    })
    ≡ codes
        "Synthient account Ada (no organization): 12 lookup credits remain; quota resets in 60 seconds."
unfolding account_summary
named = refl

answers :
    reply known_ips no_json same (pos 0) one
    ≡ ok (record {
      text = codes "192.0.2.1: risk score 70, ASN 64500, country unknown.";
      output = reports (about (codes "192.0.2.1") ∷ []);
    })
unfolding reply
answers = refl

refuses :
    reply known_ips no_json same (pos 0) (Request.lookup_ip (codes "x" ∷ []))
    ≡ err (invalid (bad_ip_at 0))
unfolding reply
refuses = refl

fails :
    reply known_ips no_json same (pos 0) (Request.synthient_lookup_ips (codes "192.0.2.1" ∷ []))
    ≡ err (failed (codes "no batches"))
unfolding reply
fails = refl

-- Another API, which knows single addresses alike.
abbrev with_batches : Api Text
with_batches = record known_ips { lookup_ips = λ ips. ok [] }

abbrev single : Call
single = Call.lookup_ip (codes "192.0.2.1")

calls : call_of same (pos 0) one ≡ ok (some single)
unfolding call_of
calls = refl

agree : (c : Call) → call_of same (pos 0) one ≡ ok (some c) → Agree known_ips with_batches c
agree c e =
    let here : single ≡ c = ground (arith, calls, e) in
    subst (Agree known_ips with_batches) here refl

reply-Agree_example :
    reply known_ips no_json same (pos 0) one ≡ reply with_batches no_json same (pos 0) one
reply-Agree_example = reply-Agree known_ips with_batches no_json same (pos 0) one agree
