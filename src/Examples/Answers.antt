-- ===== src/Examples/Answers.antt =====
-- Runs and instances for Synthient.Response.
use synthient_mcp.Prelude.{
  ok, err, ◌≡◌, ◌↔◌, refl, false, Option, none, some, arith, if◌then◌else◌, All, cons-ne-nil,
}
use synthient_mcp.Text.{Text, codes, text_eq, contains, starts_with}
use synthient_mcp.Text.Trim.{IsVisible}
use synthient_mcp.Synthient.Json.{Fields, string, end, field}
use synthient_mcp.Synthient.Sanitize.{sanitize_object}
use synthient_mcp.Synthient.Sanitize.Laws.{IsRedactable}
use synthient_mcp.Synthient.Response.{Answer, api_error, take_answer, error_detail}
use synthient_mcp.Synthient.Response.Contract.{IsAccepted, take_answer_iff}
use synthient_mcp.Synthient.Response.Detail.{error_detail_hides}

abbrev api_key : Text
api_key = codes "sk-12"

abbrev denied : Fields
denied = field (codes "error") (string (codes " no\tsk-12\n")) end

decode : Text → Option Fields
decode body = if text_eq body (codes "D") then some denied else none

runs : Unit {0}
unfolding decode take_answer text_eq
runs = tt

abbrev limited : Answer
limited = record { status = 429; retry_after = codes "7"; body = codes "D"; broken = false }

error_message :
    take_answer decode api_key (some limited)
    ≡ err (
        api_error (record {
          status = 429;
          retry_after = codes "7";
          message = codes "Synthient API returned HTTP 429: no [REDACTED]. Retry-After: 7";
        }))
unfolding runs
error_message = refl

abbrev good : Answer
good = record limited { status = 200 }

accepted :
    take_answer decode api_key (some good)
    ≡ ok (field (codes "error") (string (codes " no\t[REDACTED]\n")) end)
unfolding runs
accepted = refl

take_answer_iff_example :
    (take_answer decode api_key (some good) ≡ ok denied) ↔ IsAccepted decode api_key good denied
take_answer_iff_example = take_answer_iff decode api_key good denied

api_key-IsRedactable : IsRedactable api_key
unfolding contains starts_with
api_key-IsRedactable = record {
  occurs = cons-ne-nil _ _;
  no_open = omega arith;
  no_close = omega arith;
  fresh = refl;
}

api_key-IsVisible : All IsVisible api_key
api_key-IsVisible = omega arith

error_detail_hides_example :
    contains (error_detail (sanitize_object api_key (some denied))) api_key ≡ false
error_detail_hides_example =
    error_detail_hides api_key (some denied) api_key-IsRedactable api_key-IsVisible
