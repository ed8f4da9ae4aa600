-- ===== src/HttpServer/Recorder/Fidelity.antt =====
-- The recorder logs the status that the client gets, and changes nothing of the response.
use synthient_mcp.Prelude.{
  ℕ, suc, List, [], ◌∷◌, ◌++◌, ◌≡◌, refl, sym, subst, Bool, true, false, not, some, arith,
}
use synthient_mcp.Text.{Text}
use synthient_mcp.HttpServer.Recorder.{
  Writer, Recorder, Use, header, body, flushed, is_informational, write_header, use_recorder,
  use_all, use_writer, use_plain, fresh_writer, fresh_recorder, final_status,
}

-- Behind a Flush with which the response started: no status before the body.
abbrev waits_for_body : List Use → Bool
waits_for_body [] = true
waits_for_body (header status ∷ us) = false
waits_for_body (body value ∷ us) = true
waits_for_body (flushed ∷ us) = waits_for_body us

-- The first status is no informational one, and a response that starts with a Flush names no status
-- before its body.
abbrev pub is_orderly : List Use → Bool
is_orderly [] = true
is_orderly (header status ∷ us) = not (is_informational status)
is_orderly (body value ∷ us) = true
is_orderly (flushed ∷ us) = waits_for_body us

-- What binds the recorder, its writer, and a writer that is used without a recorder, once the
-- recorder has seen a status or a body.
data Agrees : Recorder → Writer → Type 0 where
  started :
      (status n : ℕ) (text : Text)
      → Agrees
          (record {
            writer = record { informed = []; sent = some status; body = text; superfluous = 0 };
            status = status;
            wrote_header = true;
          })
          (record { informed = []; sent = some status; body = text; superfluous = n })

use-Agrees :
    (r : Recorder) (w : Writer) (u : Use) → Agrees r w → Agrees (use_recorder r u) (use_writer w u)
unfolding use_recorder use_writer
use-Agrees _ _ (header status') (started status n text) = started status (suc n) text
use-Agrees _ _ (body value) (started status n text) = started status n (text ++ value)
use-Agrees _ _ flushed (started status n text) = started status n text

-- Status and body are those of the writer without a recorder, and no status is superfluous.
abbrev pub IsFaithful : Recorder → Writer → Type 0
IsFaithful r w =
    (r.status ≡ final_status w)
    × (r.writer.informed ≡ w.informed)
    × (r.writer.sent ≡ w.sent)
    × (r.writer.body ≡ w.body)
    × (r.writer.superfluous ≡ 0)

agreed : (r : Recorder) (w : Writer) → Agrees r w → IsFaithful r w
agreed _ _ (started status n text) = (refl, refl, refl, refl, refl)

use_all-Agrees :
    (r : Recorder) (w : Writer) (us : List Use)
    → Agrees r w
    → IsFaithful (use_all r us) (use_plain w us)
unfolding use_all use_plain
use_all-Agrees r w [] a = agreed r w a
use_all-Agrees r w (u ∷ us) a =
    use_all-Agrees (use_recorder r u) (use_writer w u) us (use-Agrees r w u a)

-- A response that only was flushed, which sent 200.
abbrev flushed_writer : Writer
flushed_writer = record fresh_writer { sent = some 200 }

abbrev flushed_recorder : Recorder
flushed_recorder = record fresh_recorder { writer = flushed_writer }

flushed-IsFaithful :
    (us : List Use)
    → waits_for_body us ≡ true
    → IsFaithful (use_all flushed_recorder us) (use_plain flushed_writer us)
unfolding use_all use_plain use_recorder use_writer
flushed-IsFaithful [] h = (refl, refl, refl, refl, refl)
flushed-IsFaithful (header status ∷ us) h = absurd (cc)
flushed-IsFaithful (body value ∷ us) h = use_all-Agrees _ _ us (started 200 0 value)
flushed-IsFaithful (flushed ∷ us) h = flushed-IsFaithful us h

first_header :
    (status : ℕ)
    → is_informational status ≡ false
    → write_header status fresh_writer ≡ record fresh_writer { sent = some status }
unfolding write_header
first_header status final = ground (arith, final)

-- Whatever a handler does with its response, where its first status is no informational one (100 to
-- 199 other than 101) and a response that starts with a Flush names no status before its body: the
-- status that the recorder holds for the log is the one that the client gets; statuses and body are
-- those that the handler would send without the recorder, and the writer sees no superfluous status.
pub use_all-final_status :
    (us : List Use)
    → is_orderly us ≡ true
    → IsFaithful (use_all fresh_recorder us) (use_plain fresh_writer us)
unfolding use_all use_plain use_recorder use_writer
use_all-final_status [] h = (refl, refl, refl, refl, refl)
use_all-final_status (header status ∷ us) h =
    let final : is_informational status ≡ false = ground arith in
    subst
      (λ w.
        IsFaithful (use_all (record { writer = w; status = status; wrote_header = true }) us)
          (use_plain w us))
      (sym (first_header status final)) (use_all-Agrees _ _ us (started status 0 []))
use_all-final_status (body value ∷ us) h = use_all-Agrees _ _ us (started 200 0 value)
use_all-final_status (flushed ∷ us) h = flushed-IsFaithful us h
