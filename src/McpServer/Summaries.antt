-- ===== src/McpServer/Summaries.antt =====
-- The texts that the tools answer with: accountSummary, ipSummary, domainSummary and fallback of
-- go/internal/mcpserver/server.go, and the formats of feeds.go. Of the types of the SDK, the fields
-- that the texts read.
use synthient_mcp.Prelude.{ℕ, List, [], ◌∷◌, ◌++◌, Bool, true, false, not, if◌then◌else◌, length}
use synthient_mcp.Text.{Text, codes, text_eq, trim_space}
use synthient_mcp.Text.Decimal.{ℤ, itoa, itoa_int}

pub record Account : Type 0 where
  pub first_name : Text
  pub last_name : Text
  pub email : Text
  pub organization : Text
  pub credits : ℤ
  pub resets_in : ℤ

pub record IpReport : Type 0 where
  pub ip : Text
  pub risk_score : ℤ
  pub asn : ℤ
  pub country : Text

pub record DomainReport : Type 0 where
  pub domain : Text
  pub status : Text
  pub events_24h : ℤ
  pub unique_ips_24h : ℤ

pub record Page : Type 0 where
  pub feeds : List Text
  pub next_cursor : Text

pub record Meta : Type 0 where
  pub id : Text
  pub rows : ℤ
  pub size : ℤ
  pub checksum : Text

unfoldable pub fallback : Text → Text → Text
unfolding trim_space text_eq
fallback value replacement = if text_eq (trim_space value) [] then replacement else value

-- `if value == "" { value = replacement }`.
abbrev or_text : Text → Text → Text
or_text [] replacement = replacement
or_text (c ∷ value) replacement = c ∷ value

unfoldable pub account_summary : Account → Text
unfolding trim_space itoa_int
account_summary account =
    codes "Synthient account "
    ++ (or_text (trim_space (account.first_name ++ codes " " ++ account.last_name)) account.email
        ++ (codes " ("
            ++ (or_text account.organization (codes "no organization")
                ++ (codes "): "
                    ++ (itoa_int account.credits
                        ++ (codes " lookup credits remain; quota resets in "
                            ++ (itoa_int account.resets_in ++ codes " seconds.")))))))

unfoldable pub ip_summary : List IpReport → Text
unfolding itoa itoa_int fallback
ip_summary (report ∷ []) =
    report.ip
    ++ (codes ": risk score "
        ++ (itoa_int report.risk_score
            ++ (codes ", ASN "
                ++ (itoa_int report.asn
                    ++ (codes ", country "
                        ++ (fallback report.country (codes "unknown") ++ codes "."))))))
ip_summary reports =
    codes "Retrieved Synthient intelligence for "
    ++ (itoa (length reports) ++ codes " IP addresses.")

unfoldable pub domain_summary : DomainReport → Text
unfolding itoa_int fallback
domain_summary report =
    report.domain
    ++ (codes ": status "
        ++ (fallback report.status (codes "unknown")
            ++ (codes ", "
                ++ (itoa_int report.events_24h
                    ++ (codes " events in the last 24 hours, "
                        ++ (itoa_int report.unique_ips_24h
                            ++ codes " unique IPs in the last 24 hours."))))))

-- The verb %t.
abbrev pub truth : Bool → Text
truth true = codes "true"
truth false = codes "false"

unfoldable pub streams_summary : ℕ → ℕ → Text
unfolding itoa
streams_summary streams live =
    codes "Synthient exposes "
    ++ (itoa streams ++ (codes " feed streams; " ++ (itoa live ++ codes " support live sampling.")))

unfoldable pub page_summary : Text → Page → Text
unfolding itoa text_eq
page_summary stream page =
    codes "Found "
    ++ (itoa (length page.feeds)
        ++ (codes " "
            ++ (stream
                ++ (codes " snapshots; next cursor present: "
                    ++ (truth (not (text_eq page.next_cursor [])) ++ codes ".")))))

unfoldable pub meta_summary : Text → Meta → Text
unfolding itoa_int
meta_summary stream meta =
    stream
    ++ (codes " snapshot "
        ++ (meta.id
            ++ (codes ": "
                ++ (itoa_int meta.rows
                    ++ (codes " rows, "
                        ++ (itoa_int meta.size
                            ++ (codes " bytes, checksum " ++ (meta.checksum ++ codes "."))))))))

unfoldable pub sample_summary : Text → ℕ → Bool → Text
unfolding itoa
sample_summary stream events truncated =
    codes "Collected "
    ++ (itoa events
        ++ (codes " matching "
            ++ (stream ++ (codes " events; truncated: " ++ (truth truncated ++ codes ".")))))

unfoldable pub schema_summary : ℕ → ℕ → Text
unfolding itoa
schema_summary services files =
    codes "Synthient gRPC reflection returned "
    ++ (itoa services ++ (codes " services across " ++ (itoa files ++ codes " files.")))
