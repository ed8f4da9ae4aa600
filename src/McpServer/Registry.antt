-- ===== src/McpServer/Registry.antt =====
-- The tools that New, registerFeedTools and registerLegacyTools of go/internal/mcpserver register,
-- with the annotations that `tool` gives them.
pub mod Metering
use synthient_mcp.Prelude.{List, [], ◌∷◌, ◌++◌, Bool, true, false, not, if◌then◌else◌}
use synthient_mcp.Text.{Text, codes}
use synthient_mcp.McpServer.Tools.{Request}

pub record Annotations : Type 0 where
  pub read_only : Bool
  pub destructive : Bool
  pub idempotent : Bool
  pub open_world : Bool

pub record Tool : Type 0 where
  pub name : Text
  pub annotations : Annotations

-- `tool`, without the texts and the schema.
unfoldable pub tool : Text → Bool → Tool
tool name metered = record {
  name = name;
  annotations = record {
    read_only = not metered;
    destructive = metered;
    idempotent = not metered;
    open_world = true;
  };
}

-- The tool that a request is for.
unfoldable pub tool_of : Request → Tool
unfolding tool
tool_of Request.get_account = tool (codes "get_account") false
tool_of (Request.lookup_ip ips) = tool (codes "lookup_ip") true
tool_of (Request.lookup_domain domain) = tool (codes "lookup_domain") true
tool_of Request.list_feed_streams = tool (codes "list_feed_streams") false
tool_of (Request.list_feed_snapshots stream limit cursor) = tool (codes "list_feed_snapshots") false
tool_of (Request.feed_snapshot_meta stream date) = tool (codes "feed_snapshot_meta") false
tool_of (Request.sample_stream stream count timeout filters) = tool (codes "sample_stream") false
tool_of (Request.grpc_schema symbols include_descriptor) = tool (codes "grpc_schema") false
tool_of Request.synthient_account = tool (codes "synthient_account") false
tool_of (Request.synthient_lookup_ip ip) = tool (codes "synthient_lookup_ip") true
tool_of (Request.synthient_lookup_ips ips) = tool (codes "synthient_lookup_ips") true
tool_of (Request.synthient_lookup_domain domain) = tool (codes "synthient_lookup_domain") true

unfoldable pub legacy_tools : List Tool
unfolding tool
legacy_tools =
    tool (codes "synthient_account") false
    ∷ tool (codes "synthient_lookup_ip") true
    ∷ tool (codes "synthient_lookup_ips") true
    ∷ tool (codes "synthient_lookup_domain") true
    ∷ []

unfoldable pub feed_tools : List Tool
unfolding tool
feed_tools =
    tool (codes "list_feed_streams") false
    ∷ tool (codes "list_feed_snapshots") false
    ∷ tool (codes "feed_snapshot_meta") false
    ∷ tool (codes "sample_stream") false
    ∷ tool (codes "grpc_schema") false
    ∷ []

-- The tools of a server, in the order in which they are added.
unfoldable pub tools : Bool → List Tool
unfolding tool feed_tools legacy_tools
tools legacy_tool_names =
    tool (codes "get_account") false
    ∷ tool (codes "lookup_ip") true
    ∷ tool (codes "lookup_domain") true
    ∷ (feed_tools ++ (if legacy_tool_names then legacy_tools else []))
