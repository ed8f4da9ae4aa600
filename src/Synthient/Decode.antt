-- ===== src/Synthient/Decode.antt =====
-- decodeObject of go/internal/synthient/client.go, and the decoding of one event in SampleStream.
-- json.Decoder is a parameter: `next` reads one value from the front of a text.
use synthient_mcp.Prelude.{Option, none, some, ◌≡◌, refl, ◌↔◌, arith}
use synthient_mcp.Text.{Text}
use synthient_mcp.Synthient.Json.{Value, null, bool, number, string, array, object, Fields}
use synthient_mcp.Synthient.Stream.{Event}

-- The result of one Decode: an error, the end of the text, or a value and the text behind it.
pub data Next : Type 0 where
  invalid at_end : Next
  value : (read : Value) (rest : Text) → Next

module _ (next : Text → Next) where
  abbrev alone : Fields → Next → Option Fields
  alone fields at_end = some fields
  alone fields _ = none

  abbrev whole_object : Next → Option Fields
  whole_object (value (object fields) rest) = alone fields (next rest)
  whole_object _ = none

  -- The decoded object, without the error.
  unfoldable pub decode_object : Text → Option Fields
  decode_object raw = whole_object (next raw)

  abbrev event_of : Next → Option Event
  event_of (value (object fields) rest) = some (some fields)
  event_of (value null rest) = some none
  event_of _ = none

  -- Decode into a map: an object or null, and whatever stands behind it.
  unfoldable pub decode_event : Text → Option Event
  decode_event line = event_of (next line)

  alone_iff :
      (fields found : Fields) (n : Next)
      → (alone fields n ≡ some found) ↔ ((n ≡ at_end) × (fields ≡ found))
  alone_iff fields found at_end = ground arith
  alone_iff fields found invalid = ground arith
  alone_iff fields found (value v rest) = ground arith

  whole_object_iff :
      (n : Next) (fields : Fields)
      → (whole_object n ≡ some fields)
        ↔ ((rest : Text) × (n ≡ value (object fields) rest) × (next rest ≡ at_end))
  whole_object_iff invalid fields = (λ e. absurd (cc), λ (rest, e, _). absurd (cc))
  whole_object_iff at_end fields = (λ e. absurd (cc), λ (rest, e, _). absurd (cc))
  whole_object_iff (value (object found) rest) fields = (
    λ e. let (ends, same) = (alone_iff found fields (next rest)).0 e in (rest, rw same refl, ends),
    λ (rest', e, ends). (alone_iff found fields (next rest)).1 (ground arith, ground arith),
  )
  whole_object_iff (value null rest) fields = (λ e. absurd (cc), λ (rest', e, _). absurd (cc))
  whole_object_iff (value (bool b) rest) fields = (λ e. absurd (cc), λ (rest', e, _). absurd (cc))
  whole_object_iff (value (number s) rest) fields = (λ e. absurd (cc), λ (rest', e, _). absurd (cc))
  whole_object_iff (value (string s) rest) fields = (λ e. absurd (cc), λ (rest', e, _). absurd (cc))
  whole_object_iff (value (array s) rest) fields = (λ e. absurd (cc), λ (rest', e, _). absurd (cc))

  -- A body is taken exactly if one object stands in it and nothing behind that.
  pub decode_object_iff :
      (raw : Text) (fields : Fields)
      → (decode_object raw ≡ some fields)
        ↔ ((rest : Text) × (next raw ≡ value (object fields) rest) × (next rest ≡ at_end))
  unfolding decode_object
  decode_object_iff raw fields = whole_object_iff (next raw) fields
