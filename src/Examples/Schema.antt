-- ===== src/Examples/Schema.antt =====
-- Runs and instances for McpServer.Schema.
use synthient_mcp.Prelude.{ok, List, [], ◌∷◌, ◌≡◌, refl, true, Option, some}
use synthient_mcp.Text.{Text, codes, starts_with, text_eq, trim_prefix}
use synthient_mcp.Synthient.Sprint.{text_lt}
use synthient_mcp.McpServer.Schema.{File, Output, Schema, grpc_schema_output}
use synthient_mcp.McpServer.Schema.Summary.{IsSummary, grpc_schema_output-IsSummary}

abbrev set : List File
set =
    record {
      name = codes "b.proto";
      package_name = codes "feed";
      services =
          record {
            name = codes "Zeta";
            methods =
                record { name = codes "Get"; input = codes ".feed.In"; output = codes ".feed.Out" }
                ∷ [];
          }
          ∷ [];
    }
    ∷ record {
      name = codes "a.proto";
      package_name = [];
      services = record { name = codes "Alpha"; methods = [] } ∷ [];
    }
    ∷ []

abbrev schema : Schema
schema = record { endpoint = codes "host:443"; symbols = []; descriptor_set = some set }

marshal : List File → Option Text
marshal files = some (codes "{}")

abbrev output : Output
output = record {
  endpoint = codes "host:443";
  symbols = [];
  files =
      record { name = codes "b.proto"; package_name = codes "feed" }
      ∷ record { name = codes "a.proto"; package_name = [] }
      ∷ [];
  services =
      record { name = codes "Alpha"; methods = [] }
      ∷ record {
        name = codes "feed.Zeta";
        methods =
            record { name = codes "Get"; input = codes "feed.In"; output = codes "feed.Out" } ∷ [];
      }
      ∷ [];
  descriptor_json = codes "{}";
}

summarized : grpc_schema_output marshal schema true ≡ ok output
unfolding grpc_schema_output text_eq trim_prefix starts_with text_lt marshal
summarized = refl

grpc_schema_output-IsSummary_example :
    (s : List File) × (schema.descriptor_set ≡ some s) × IsSummary s output
grpc_schema_output-IsSummary_example =
    grpc_schema_output-IsSummary marshal schema true output summarized
