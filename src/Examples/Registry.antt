-- ===== src/Examples/Registry.antt =====
-- Instances for McpServer.Registry.
use synthient_mcp.Prelude.{ok, ◌≡◌, refl, not, some}
use synthient_mcp.Text.{Text, codes}
use synthient_mcp.Text.Decimal.{pos}
use synthient_mcp.McpServer.Tools.{Call, Request, call_of}
use synthient_mcp.McpServer.Registry.{tool_of}
use synthient_mcp.McpServer.Registry.Metering.{is_lookup, annotations-is_lookup}

abbrev same : Text → Text
same s = s

abbrev asked : Request
asked = Request.synthient_lookup_domain (codes "a.example")

calls : call_of same (pos 0) asked ≡ ok (some (Call.lookup_domain (codes "a.example")))
unfolding call_of
calls = refl

annotations-is_lookup_example :
    ((tool_of asked).annotations.read_only
      ≡ not (is_lookup (Call.lookup_domain (codes "a.example"))))
    × ((tool_of asked).annotations.destructive ≡ is_lookup (Call.lookup_domain (codes "a.example")))
    × ((tool_of asked).annotations.idempotent
        ≡ not (is_lookup (Call.lookup_domain (codes "a.example"))))
annotations-is_lookup_example =
    annotations-is_lookup same (pos 0) asked (Call.lookup_domain (codes "a.example")) calls
