-- ===== src/Examples/Sampling.antt =====
-- Runs and instances for Synthient.Stream.

use synthient_mcp.Synthient.Stream.Whole
use synthient_mcp.Synthient.Stream.Whole.{Decodes, total, sample_stream-wanted}
use synthient_mcp.Prelude.{
  inl, inr, take, ℕ, ◌≤◌, List, [], ◌∷◌, ◌≡◌, refl, false, Option, none, some, length, arith,
  if◌then◌else◌,
}
use synthient_mcp.Text.{Text, codes, text_eq, split, trim_space}
use synthient_mcp.Synthient.Json.{Fields, string, end, field, find}
use synthient_mcp.Synthient.Sanitize.{sanitize_object}
use synthient_mcp.Synthient.Sprint.{sprint}
use synthient_mcp.Synthient.Stream.{Event, finished, sample_stream, matches_filters, decode_failed}
use synthient_mcp.Synthient.Stream.Bounds.{Taken, sample_stream-Taken}

abbrev near : Fields
near = field (codes "kind") (string (codes "near")) (field (codes "token") (string (codes "t")) end)

abbrev far : Fields
far = field (codes "kind") (string (codes "far")) end

-- A decoder that knows two lines.
decode : Text → Option Event
decode line =
    if text_eq line (codes "A")
    then some (some near)
    else if text_eq line (codes "B")
    then some (some far)
    else none

runs : Unit {0}
unfolding decode sample_stream matches_filters sanitize_object find sprint text_eq split trim_space
runs = tt

abbrev lines : List Text
lines = codes " A" ∷ [] ∷ codes "B" ∷ codes "A" ∷ codes "?" ∷ []

abbrev cleaned : Event
cleaned = some (field (codes "kind") (string (codes "near")) end)

abbrev wanted : List (Text × Text)
wanted = (codes "kind", codes "near") ∷ []

two_near :
    sample_stream decode (codes "key") 2 100 wanted finished lines
    ≡ record { events = cleaned ∷ cleaned ∷ []; truncated = false; failure = none }
unfolding runs
two_near = refl

-- The fifth line does not decode.
three_near :
    sample_stream decode (codes "key") 3 100 wanted finished lines
    ≡ record { events = cleaned ∷ cleaned ∷ []; truncated = false; failure = some decode_failed }
unfolding runs
three_near = refl

sample_stream-Taken_example :
    let events = (sample_stream decode (codes "key") 2 100 wanted finished lines).events in
    ((size : ℕ) × (Taken decode (codes "key") wanted lines events size × size ≤ 100))
    × length events ≤ 2
sample_stream-Taken_example =
    sample_stream-Taken decode (codes "key") 2 100 wanted finished lines (omega arith)

abbrev both : List (Text × Text)
both = (codes "kind", codes "near") ∷ (codes "ip", codes "1.1.1.1") ∷ []

abbrev both_swapped : List (Text × Text)
both_swapped = (codes "ip", codes "1.1.1.1") ∷ (codes "kind", codes "near") ∷ []

abbrev good_lines : List Text
good_lines = codes " A" ∷ [] ∷ codes "B" ∷ codes "A" ∷ []

good_lines-Decodes : Decodes decode good_lines
unfolding decode text_eq trim_space
good_lines-Decodes = (inr (_, refl), (inl refl, (inr (_, refl), (inr (_, refl), tt))))

good_total : total good_lines ≡ 3
unfolding trim_space
good_total = refl

sample_stream-wanted_example :
    let s = sample_stream decode (codes "key") 2 100 wanted finished good_lines in
    (s.events ≡ take 2 (Whole.wanted decode (codes "key") wanted good_lines))
    × (s.truncated ≡ false)
sample_stream-wanted_example =
    sample_stream-wanted decode (codes "key") 2 100 wanted finished good_lines (omega arith)
      (omega (arith, good_total)) (omega (arith, good_total)) good_lines-Decodes
