-- ===== src/McpServer/Schema/Summary.antt =====
-- The summary of a schema is complete, in order, and bounded.
use mathlib.Core.List.{Perm}
use mathlib.Core.List.Perm
use synthient_mcp.Prelude.{
  ok, ok_injective, ◌≤◌, List, [], ◌∷◌, map, ◌≡◌, refl, subst, Bool, true, false, Option, none,
  some, ltb, length, arith, inl, inr, Bool-cases, Option-cases,
}
use synthient_mcp.Text.{Text}
use synthient_mcp.Synthient.Sprint.{text_lt}
use synthient_mcp.McpServer.Schema.{
  Service, File, Schema, Output, summaries, insert_service, sort_services, summarize_services,
  output_of, grpc_schema_output, file_name, max_descriptor_bytes,
}

text_lt_asym : (s t : Text) → text_lt s t ≡ true → text_lt t s ≡ false
unfolding text_lt
text_lt_asym [] [] h = refl
text_lt_asym [] (b ∷ t) h = refl
text_lt_asym (a ∷ s) [] h = absurd (cc)
text_lt_asym (a ∷ s) (b ∷ t) h = ground (arith, text_lt_asym s t)

-- No service stands before one with a lesser name.
pub data IsOrdered : List Service → Type 0 where
  nothing : IsOrdered []
  single : (s : Service) → IsOrdered (s ∷ [])
  before :
      {s t : Service} {ts : List Service}
      → text_lt t.name s.name ≡ false
      → IsOrdered (t ∷ ts)
      → IsOrdered (s ∷ t ∷ ts)

insert-IsOrdered :
    (s : Service) (ts : List Service) → IsOrdered ts → IsOrdered (insert_service s ts)
unfolding insert_service
insert-IsOrdered s _ nothing = single s
insert-IsOrdered s _ (single t) = elim (Bool-cases (text_lt t.name s.name)) [
  | inl less ↦ rw less (before (text_lt_asym t.name s.name less) (single s))
  | inr other ↦ rw other (before other (single t))
]
insert-IsOrdered s _ (before {s = t} {t = t'} {ts = ts} kept rest) =
    elim (Bool-cases (text_lt t.name s.name)) [
      | inr other ↦ rw other (before other (before kept rest))
      | inl less ↦ rw less (elim (Bool-cases (text_lt t'.name s.name)) [
        | inl less' ↦
            (let later = insert-IsOrdered s (t' ∷ ts) rest in
              rw less' (before kept (rw less' at later)))
        | inr other' ↦ rw other' (before (text_lt_asym t.name s.name less) (before other' rest))
      ])
    ]

sort-IsOrdered : (ss : List Service) → IsOrdered (sort_services ss)
unfolding sort_services
sort-IsOrdered [] = nothing
sort-IsOrdered (s ∷ ss) = insert-IsOrdered s (sort_services ss) (sort-IsOrdered ss)

insert-Perm : (s : Service) (ts : List Service) → Perm (insert_service s ts) (s ∷ ts)
unfolding insert_service
insert-Perm s [] = Perm.refl (s ∷ [])
insert-Perm s (t ∷ ts) = elim (Bool-cases (text_lt t.name s.name)) [
  | inr other ↦ rw other (Perm.refl (s ∷ t ∷ ts))
  | inl less ↦ rw less (Perm.trans (Perm.cons t (insert-Perm s ts)) (Perm.swap s t ts))
]

sort-Perm : (ss : List Service) → Perm (sort_services ss) ss
unfolding sort_services
sort-Perm [] = Perm.refl []
sort-Perm (s ∷ ss) = Perm.trans (insert-Perm s (sort_services ss)) (Perm.cons s (sort-Perm ss))

-- What an output tells of a descriptor set.
pub record IsSummary (set : List File) (out : Output) : Type 0 where
  pub services : Perm out.services (summaries set)
  pub ordered : IsOrdered out.services
  pub files : out.files ≡ map file_name set
  pub small : length out.descriptor_json ≤ max_descriptor_bytes

summary :
    (set : List File) (schema : Schema) (json : Text)
    → length json ≤ max_descriptor_bytes
    → IsSummary set (record {
      endpoint = schema.endpoint;
      symbols = schema.symbols;
      files = map file_name set;
      services = summarize_services set;
      descriptor_json = json;
    })
unfolding summarize_services
summary set schema json small = record {
  services = sort-Perm (summaries set);
  ordered = sort-IsOrdered (summaries set);
  files = refl;
  small = small;
}

output_of-IsSummary :
    (marshal : List File → Option Text) (schema : Schema) (b : Bool) (o : Option (List File))
    (out : Output)
    → output_of marshal schema b o ≡ ok out
    → (set : List File) × (o ≡ some set) × IsSummary set out
output_of-IsSummary marshal schema b none out e = absurd (cc)
output_of-IsSummary marshal schema false (some set) out e = (
  set,
  refl,
  subst (IsSummary set) (ok_injective (ok _) refl e) (summary set schema [] (omega arith)),
)
output_of-IsSummary marshal schema true (some set) out e = elim (Option-cases (marshal set)) [
  | inl failed ↦ absurd (ground arith)
  | inr (json, encoded) ↦ elim (Bool-cases (ltb max_descriptor_bytes (length json))) [
    | inl large ↦ absurd (ground arith)
    | inr fits ↦ (
      set,
      refl,
      subst (IsSummary set) (ok_injective (ok _) refl (rw (encoded, fits) at e))
          (summary set schema json (ground arith)),
    )
  ]
]

-- An output of grpc_schema is of the descriptor set that reflection returned: it has each of its
-- services once, in the order of their names, and each of its files, and at most 1 MiB of JSON.
pub grpc_schema_output-IsSummary :
    (marshal : List File → Option Text) (schema : Schema) (include_descriptor : Bool) (out : Output)
    → grpc_schema_output marshal schema include_descriptor ≡ ok out
    → (set : List File) × (schema.descriptor_set ≡ some set) × IsSummary set out
unfolding grpc_schema_output
grpc_schema_output-IsSummary marshal schema b out e =
    output_of-IsSummary marshal schema b schema.descriptor_set out e
