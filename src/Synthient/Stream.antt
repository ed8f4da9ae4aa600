-- ===== src/Synthient/Stream.antt =====
-- SampleStream and matchesFilters of go/internal/synthient/feeds.go. The decoder of one line is a
-- parameter: `none` is an error, and a line may hold null, which is the nil map.
pub mod Bounds
pub mod Order
pub mod Whole
use synthient_mcp.Prelude.{
  ℕ, suc, ◌+◌, ◌*◌, ◌^◌, List, [], ◌∷◌, ◌++◌, Bool, true, false, not, ◌&&◌, Option, none, some, ltb,
  leb, ◌==◌, if◌then◌else◌, length,
}
use synthient_mcp.Text.{Text, codes, text_eq, split, trim_space}
use synthient_mcp.Synthient.Json.{Value, null, object, Fields, end, find}
use synthient_mcp.Synthient.Sanitize.{sanitize_object}
use synthient_mcp.Synthient.Sprint.{sprint}

abbrev pub max_stream_read_bytes : ℕ
max_stream_read_bytes = 8 * 2 ^ 20

-- An event: a map, or the nil map.
abbrev pub Event : Type 0
Event = Option Fields

-- The value that is looked at; the nil map is a map without fields.
abbrev as_map : Event → Fields
as_map none = end
as_map (some fs) = fs

-- The loop over the segments of a path: each must be a field of a map.
unfoldable pub descend : Value → List Text → Option Value
unfolding find
descend value [] = some value
descend (object fs) (segment ∷ segments) = elim (find segment fs) [
  | none ↦ none
  | some v ↦ descend v segments
]
descend _ (segment ∷ segments) = none

abbrev printed_as : Text → Option Value → Bool
printed_as expected none = false
printed_as expected (some v) = text_eq (sprint v) expected

unfoldable pub matches_filter : Event → Text × Text → Bool
unfolding descend sprint text_eq split
matches_filter event (path, expected) =
    printed_as expected (descend (object (as_map event)) (split b'.' path))

unfoldable pub matches_filters : Event → List (Text × Text) → Bool
unfolding matches_filter
matches_filters event [] = true
matches_filters event (filter ∷ filters) =
    matches_filter event filter && matches_filters event filters

-- What the scanner does after its last line: it ends, it is stopped by the deadline, or it fails.
pub data ScanEnd : Type 0 where
  finished stopped failed : ScanEnd

pub data Failure : Type 0 where
  decode_failed read_failed : Failure

-- `events, truncated, err`.
pub record Sample : Type 0 where
  pub events : List Event
  pub truncated : Bool
  pub failure : Option Failure

-- The variables of the loop.
pub record Progress : Type 0 where
  pub events : List Event
  pub read_bytes : ℕ
  pub output_bytes : ℕ

abbrev at_end : ScanEnd → List Event → Sample
at_end failed events = record { events = events; truncated = false; failure = some read_failed }
at_end _ events = record { events = events; truncated = false; failure = none }

abbrev done : Bool → List Event → Sample
done cut_off events = record { events = events; truncated = cut_off; failure = none }

module _ (decode : Text → Option Event) (api_key : Text) (count output_limit : ℕ)
    (filters : List (Text × Text)) (scan_end : ScanEnd) where
  -- The body of the loop behind the decoder, with the rest of the loop as `continue`.
  take_event : Progress → ℕ → Event → (Progress → Sample) → Sample
  take_event p size event continue =
      if not (matches_filters event filters)
      then continue p
      else if ltb output_limit (p.output_bytes + size)
      then done true p.events
      else if leb count (length (p.events ++ event ∷ []))
      then done false (p.events ++ event ∷ [])
      else continue
          (record p { events = p.events ++ event ∷ []; output_bytes = p.output_bytes + size })

  take_decoded : Progress → ℕ → Option Event → (Progress → Sample) → Sample
  take_decoded p size none continue = record {
    events = p.events;
    truncated = false;
    failure = some decode_failed;
  }
  take_decoded p size (some event) continue =
      take_event p size (sanitize_object api_key event) continue

  take_line : Progress → Text → (Progress → Sample) → Sample
  take_line p [] continue = continue p
  take_line p (c ∷ line) continue = take_decoded p (length (c ∷ line)) (decode (c ∷ line)) continue

  -- `for scanner.Scan()`, over the lines of the response.
  unfoldable pub sample_from : Progress → List Text → Sample
  unfolding take_event take_decoded take_line trim_space sanitize_object matches_filters
  sample_from p [] = at_end scan_end p.events
  sample_from p (raw ∷ raws) =
      let q = record p { read_bytes = p.read_bytes + length (trim_space raw) } in
      if ltb max_stream_read_bytes q.read_bytes
      then done true p.events
      else take_line q (trim_space raw) (λ next. sample_from next raws)

  -- SampleStream behind an answer with a status of success.
  unfoldable pub sample_stream : List Text → Sample
  unfolding sample_from
  sample_stream raws = sample_from (record { events = []; read_bytes = 0; output_bytes = 0 }) raws
