-- ===== src/McpServer/Schema.antt =====
-- grpcSchemaOutput and summarizeServices of go/internal/mcpserver/feeds.go. A descriptor set is the
-- list of its files, with what the program reads of them; its JSON encoder is a parameter. Where
-- services have the same name, sort.Slice leaves them in some order, of which the model has one.
pub mod Summary
use synthient_mcp.Prelude.{
  Result, ok, err, ℕ, ◌^◌, List, [], ◌∷◌, ◌++◌, map, Bool, true, false, Option, none, some, ltb,
  if◌then◌else◌, length,
}
use synthient_mcp.Text.{Text, codes, text_eq, trim_prefix}
use synthient_mcp.Synthient.Sprint.{text_lt}

pub record Method : Type 0 where
  pub name : Text
  pub input : Text
  pub output : Text

pub record Service : Type 0 where
  pub name : Text
  pub methods : List Method

pub record File : Type 0 where
  pub name : Text
  pub package_name : Text
  pub services : List Service

-- GRPCFile.
pub record FileName : Type 0 where
  pub name : Text
  pub package_name : Text

pub record Output : Type 0 where
  pub endpoint : Text
  pub symbols : List Text
  pub files : List FileName
  pub services : List Service
  pub descriptor_json : Text

-- The result of the reflection client; `none` is a missing descriptor set.
pub record Schema : Type 0 where
  pub endpoint : Text
  pub symbols : List Text
  pub descriptor_set : Option (List File)

pub data Error : Type 0 where
  no_descriptor_set encoding_failed descriptor_too_large : Error

abbrev pub max_descriptor_bytes : ℕ
max_descriptor_bytes = 2 ^ 20

unfoldable pub summarize_method : Method → Method
unfolding trim_prefix
summarize_method m = record m {
  input = trim_prefix (codes ".") m.input;
  output = trim_prefix (codes ".") m.output;
}

unfoldable pub summarize_service : Text → Service → Service
unfolding summarize_method text_eq
summarize_service package_name s = record {
  name = if text_eq package_name [] then s.name else package_name ++ codes "." ++ s.name;
  methods = map summarize_method s.methods;
}

-- The loops over the files and their services.
unfoldable pub summaries : List File → List Service
unfolding summarize_service
summaries [] = []
summaries (f ∷ fs) = map (summarize_service f.package_name) f.services ++ summaries fs

unfoldable pub insert_service : Service → List Service → List Service
unfolding text_lt
insert_service s [] = s ∷ []
insert_service s (t ∷ ts) =
    let later = insert_service s ts in if text_lt t.name s.name then t ∷ later else s ∷ t ∷ ts

unfoldable pub sort_services : List Service → List Service
unfolding insert_service
sort_services [] = []
sort_services (s ∷ ss) = insert_service s (sort_services ss)

unfoldable pub summarize_services : List File → List Service
unfolding summaries sort_services
summarize_services set = sort_services (summaries set)

abbrev pub file_name : File → FileName
file_name f = record { name = f.name; package_name = f.package_name }

abbrev pub with_descriptor : Output → Option Text → Result Error Output
with_descriptor out none = err encoding_failed
with_descriptor out (some json) =
    if ltb max_descriptor_bytes (length json)
    then err descriptor_too_large
    else ok (record out { descriptor_json = json })

abbrev pub output_of :
    (List File → Option Text) → Schema → Bool → Option (List File) → Result Error Output
output_of marshal schema include_descriptor none = err no_descriptor_set
output_of marshal schema include_descriptor (some set) =
    let out : Output = record {
      endpoint = schema.endpoint;
      symbols = schema.symbols;
      files = map file_name set;
      services = summarize_services set;
      descriptor_json = [];
    } in
    if include_descriptor then with_descriptor out (marshal set) else ok out

unfoldable pub grpc_schema_output : (List File → Option Text) → Schema → Bool → Result Error Output
unfolding summarize_services
grpc_schema_output marshal schema include_descriptor =
    output_of marshal schema include_descriptor schema.descriptor_set
