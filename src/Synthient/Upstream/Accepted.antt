-- ===== src/Synthient/Upstream/Accepted.antt =====
-- When an operation of the client has a result, from a tool's input to the typed answer.
use synthient_mcp.Prelude.{Result, ok, err, ◌≤◌, ◌<◌, ◌≡◌, Option, some, false, length, arith}
use synthient_mcp.Text.{Text}
use synthient_mcp.Net.Url.{Url}
use synthient_mcp.McpServer.Tools
use synthient_mcp.Synthient.Json.{Fields, object}
use synthient_mcp.Synthient.Sanitize.{sanitize_fields}
use synthient_mcp.Synthient.Decode.{Next, value, at_end}
use synthient_mcp.Synthient.Request
use synthient_mcp.Synthient.Response
use synthient_mcp.Synthient.Response.{max_response_bytes, Answer}
use synthient_mcp.Synthient.Upstream.{refused_by}

-- An answer that is read to its end within the limit, has a status of success, and is one JSON object
-- with nothing behind it, which decodes into the result once it is sanitised.
pub record IsReceived {ℓ} {T : Type ℓ} (next : Text → Next) (api_key : Text)
    (typed : Fields → Option T) (answer : Answer) (result : T) : Type ℓ where
  pub whole : answer.broken ≡ false
  pub small : length answer.body ≤ max_response_bytes
  pub success : (200 ≤ answer.status) × (answer.status < 300)
  pub fields : Fields
  pub rest : Text
  pub reads : next answer.body ≡ value (object fields) rest
  pub ends : next rest ≡ at_end
  pub decoded : typed (sanitize_fields api_key fields) ≡ some result

refused_ok : {A : Type 0} (r : Result Request.Error A) {a : A} → refused_by r ≡ ok a → r ≡ ok a
refused_ok (ok b) e = ground arith
refused_ok (err b) e = absurd (cc)
