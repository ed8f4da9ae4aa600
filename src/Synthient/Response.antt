-- ===== src/Synthient/Response.antt =====
-- What requestQuery makes of the answer of the upstream, with errorDetail, of
-- go/internal/synthient/client.go, and streamError of feeds.go. The JSON decoder is a parameter,
-- decodeObject without its error. Strings that come out of it are valid UTF-8.
pub mod Contract
pub mod Detail
pub mod Line
use synthient_mcp.Prelude.{
  Result, ok, err, ℕ, zero, suc, ◌+◌, ◌*◌, ◌^◌, List, [], ◌∷◌, ◌++◌, Bool, true, false, not, ◌&&◌,
  ◌||◌, Option, none, some, ltb, leb, ◌==◌, if◌then◌else◌, length, map, take,
}
use synthient_mcp.Text.{Text, codes, text_eq, trim_space}
use synthient_mcp.Text.Decimal.{itoa}
use synthient_mcp.Synthient.Json.{Value, string, Fields, find}
use synthient_mcp.Synthient.Sanitize.{sanitize_object}

abbrev pub max_response_bytes : ℕ
max_response_bytes = 16 * 2 ^ 20

-- The answer of the HTTP client: its bytes, and whether reading fails behind the last of them.
pub record Answer : Type 0 where
  pub status : ℕ
  pub retry_after : Text
  pub body : Text
  pub broken : Bool

pub record ApiError : Type 0 where
  pub status : ℕ
  pub retry_after : Text
  pub message : Text

pub data Failure : Type 0 where
  request_failed read_failed : Failure
  api_error : ApiError → Failure

-- The characters that errorDetail replaces.
abbrev pub is_control : ℕ → Bool
is_control c = ltb c 0x20 || c == 0x7f

abbrev pub blank_control : ℕ → ℕ
blank_control c = if is_control c then 32 else c

-- The first byte of a rune: all but the bytes that continue one.
abbrev pub is_start : ℕ → Bool
is_start c = ltb c 0x80 || leb 0xc0 c

unfoldable pub rune_count : Text → ℕ
rune_count [] = 0
rune_count (c ∷ s) = (if is_start c then 1 else 0) + rune_count s

-- `string(runes[:n])`.
unfoldable pub take_runes : ℕ → Text → Text
take_runes n [] = []
take_runes zero (c ∷ s) = let rest = take_runes zero s in if is_start c then [] else c ∷ rest
take_runes (suc n) (c ∷ s) =
    let same = take_runes (suc n) s in
    let fewer = take_runes n s in if is_start c then c ∷ fewer else c ∷ same

abbrev pub ellipsis : Text
ellipsis = 0xe2 ∷ 0x80 ∷ 0xa6 ∷ []

unfoldable pub shorten : Text → Text
unfolding rune_count take_runes
shorten s = if ltb 500 (rune_count s) then take_runes 500 s ++ ellipsis else s

-- The body of the loop for the value of one key.
unfoldable pub detail_or : Option Value → Text → Text
unfolding trim_space text_eq shorten
detail_or (some (string s)) later =
    if text_eq (trim_space s) [] then later else shorten (map blank_control (trim_space s))
detail_or _ later = later

unfoldable pub first_detail : List Text → Fields → Text
unfolding find detail_or
first_detail [] fs = []
first_detail (key ∷ keys) fs = detail_or (find key fs) (first_detail keys fs)

-- errorDetail; a nil map has no keys.
unfoldable pub error_detail : Option Fields → Text
unfolding first_detail
error_detail none = []
error_detail (some fs) = first_detail (codes "message" ∷ codes "error" ∷ codes "detail" ∷ []) fs

abbrev pub is_success : ℕ → Bool
is_success status = not (ltb status 200 || leb 300 status)

abbrev pub with_detail : Text → Text → Text
with_detail message [] = message
with_detail message (c ∷ detail) = message ++ codes ": " ++ c ∷ detail

abbrev pub with_retry : ℕ → Text → Text → Text
with_retry status retry_after message =
    if status == 429 && not (text_eq retry_after [])
    then message ++ codes ". Retry-After: " ++ retry_after
    else message

unfoldable pub stream_error : ℕ → Option Fields → Text
unfolding error_detail itoa
stream_error status decoded =
    with_detail (codes "Synthient stream returned HTTP " ++ itoa status) (error_detail decoded)

-- The answer with a status other than success.
unfoldable pub status_error : Answer → Option Fields → ApiError
unfolding error_detail itoa text_eq
status_error a decoded = record {
  status = a.status;
  retry_after = a.retry_after;
  message =
      with_retry a.status a.retry_after (
        with_detail (codes "Synthient API returned HTTP " ++ itoa a.status) (error_detail decoded));
}

abbrev pub bad_gateway : Text → ApiError
bad_gateway message = record { status = 502; retry_after = []; message = message }

abbrev pub require_object : Option Fields → Result Failure Fields
require_object none =
    err (api_error (bad_gateway (codes "Synthient API returned an invalid JSON object")))
require_object (some fs) = ok fs

-- The reader stops one byte behind the limit, so a failure behind it is not met.
abbrev pub fails_to_read : Answer → Bool
fails_to_read a = a.broken && leb (length a.body) max_response_bytes

-- The bytes that are decoded.
unfoldable pub read_limited : Answer → Text
read_limited a = take (suc max_response_bytes) a.body

module _ (decode : Text → Option Fields) (api_key : Text) where
  unfoldable pub decoded_answer : Answer → Option Fields
  unfolding sanitize_object read_limited
  decoded_answer a = sanitize_object api_key (decode (read_limited a))

  -- requestQuery behind `httpClient.Do`, with `none` where that fails.
  unfoldable pub take_answer : Option Answer → Result Failure Fields
  unfolding decoded_answer status_error read_limited
  take_answer none = err request_failed
  take_answer (some a) =
      if fails_to_read a
      then err read_failed
      else if ltb max_response_bytes (length (read_limited a))
      then err (api_error (bad_gateway (codes "Synthient API response exceeded 16 MiB")))
      else if not (is_success a.status)
      then err (api_error (status_error a (decoded_answer a)))
      else require_object (decoded_answer a)

-- The status that the observer is told; 0 where there is no answer.
unfoldable pub observed_status : Option Answer → ℕ
observed_status none = 0
observed_status (some a) = a.status
