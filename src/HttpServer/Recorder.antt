-- ===== src/HttpServer/Recorder.antt =====
-- statusRecorder and observeRequests of go/internal/httpserver/server.go, over a model of the
-- writer of net/http: the first final status is sent, a Write or a Flush before it sends 200, and
-- later statuses are superfluous. An informational status, 100 to 199 other than 101, is sent at once
-- and leaves the final one open. Statuses outside 100 to 999, at which net/http panics, and hijacked
-- connections are not modelled.
pub mod Fidelity
use synthient_mcp.Prelude.{
  ℕ, suc, ◌+◌, ◌-◌, List, [], ◌∷◌, ◌++◌, Bool, true, false, Option, none, some, not, ◌&&◌, leb,
  ◌==◌, if◌then◌else◌,
}
use synthient_mcp.Text.{Text}

-- The writer behind the recorder: the informational statuses that it sent, the final one, the body,
-- and the superfluous calls.
pub record Writer : Type 0 where
  pub informed : List ℕ
  pub sent : Option ℕ
  pub body : Text
  pub superfluous : ℕ

abbrev pub is_informational : ℕ → Bool
is_informational status = leb 100 status && leb status 199 && not (status == 101)

abbrev pub send : ℕ → Option ℕ → Option ℕ
send status none = some status
send status (some first) = some first

unfoldable pub write_header : ℕ → Writer → Writer
write_header status w = elim (w.sent) [
  | none ↦
      if is_informational status
      then record w { informed = w.informed ++ status ∷ [] }
      else record w { sent = some status }
  | some first ↦ record w { superfluous = suc w.superfluous }
]

unfoldable pub write : Text → Writer → Writer
write value w = record w { sent = send 200 w.sent; body = w.body ++ value }

unfoldable pub flush : Writer → Writer
flush w = record w { sent = send 200 w.sent }

pub record Recorder : Type 0 where
  pub writer : Writer
  pub status : ℕ
  pub wrote_header : Bool

-- What a handler does with its response; http.ResponseController flushes.
pub data Use : Type 0 where
  header : (status : ℕ) → Use
  body : (value : Text) → Use
  flushed : Use

-- WriteHeader and Write of the recorder, and a Flush, which Unwrap hands to the writer.
unfoldable pub use_recorder : Recorder → Use → Recorder
unfolding write_header write flush
use_recorder r (header status) =
    if r.wrote_header
    then r
    else record { writer = write_header status r.writer; status = status; wrote_header = true }
use_recorder r (body value) =
    if r.wrote_header
    then record r { writer = write value r.writer }
    else record { writer = write value r.writer; status = 200; wrote_header = true }
use_recorder r flushed = record r { writer = flush r.writer }

abbrev pub fresh_writer : Writer
fresh_writer = record { informed = []; sent = none; body = []; superfluous = 0 }

-- The recorder that observeRequests makes for a response.
abbrev pub fresh_recorder : Recorder
fresh_recorder = record { writer = fresh_writer; status = 200; wrote_header = false }

-- The handler's uses in their order.
unfoldable pub use_all : Recorder → List Use → Recorder
unfolding use_recorder
use_all r [] = r
use_all r (u ∷ us) = use_all (use_recorder r u) us

-- The same uses of the writer without a recorder between.
unfoldable pub use_writer : Writer → Use → Writer
unfolding write_header write flush
use_writer w (header status) = write_header status w
use_writer w (body value) = write value w
use_writer w flushed = flush w

unfoldable pub use_plain : Writer → List Use → Writer
unfolding use_writer
use_plain w [] = w
use_plain w (u ∷ us) = use_plain (use_writer w u) us

-- The status that the client gets when the handler returns: net/http sends 200 where none is sent.
abbrev pub final_status : Writer → ℕ
final_status w = elim (w.sent) [ none ↦ 200 | some status ↦ status ]
