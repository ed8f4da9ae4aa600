-- ===== src/HttpServer/Pipeline/Returns.antt =====
-- What a request takes, and that a handler that returns gives it back.
use synthient_mcp.Prelude.{
  Result, ℕ, suc, ◌≡◌, ◌∙◌, ap, inl, inr, Bool, Option, if◌then◌else◌, arith,
}
use synthient_mcp.Text.{Text, text_eq}
use synthient_mcp.Text.Equality.{text_eq-cases}
use synthient_mcp.HttpServer.Concurrency.{inflight_of, finish, release}
use synthient_mcp.HttpServer.Concurrency.Counting.{
  finish_self, finish_ne, inflight_of-insert_self, inflight_of-insert_ne,
}
use synthient_mcp.HttpServer.Protect
use synthient_mcp.HttpServer.Protect.{Refusal, protect_mcp, request_principal}
use synthient_mcp.Net.Url.{Url}
use synthient_mcp.HttpServer.Pipeline.Passage.{IsShared}
use synthient_mcp.HttpServer.Pipeline.Entry.{serve-IsServed}
use synthient_mcp.HttpServer.Pipeline.{leave, Wiring, Incoming, Gate, reached, serve}

module _ (digest : Text → Text) (wiring : Wiring) where
  shares_back :
      (g g' : Gate) (r : Protect.Request) (q : Text)
      → IsShared digest wiring g g' r
      → inflight_of q (finish g'.inflight (request_principal digest r)) ≡ inflight_of q g.inflight
  shares_back g g' r q h =
      let p = request_principal digest r in
      let n = inflight_of p g.inflight in
      elim (text_eq-cases q p) [
        | inl (hit, same) ↦
            let counted : inflight_of p g'.inflight ≡ suc n =
              ap (inflight_of p) h.counted ∙ inflight_of-insert_self p (suc n) g.inflight in
            let back : inflight_of p (finish g'.inflight p) ≡ n =
              omega (arith, finish_self p g'.inflight, counted) in
            rw same back
        | inr (miss, other) ↦
            finish_ne p q g'.inflight other
            ∙ ap (inflight_of q) h.counted
            ∙ inflight_of-insert_ne p q (suc n) g.inflight other
      ]

  share_taken :
      (g g' : Gate) (r : Protect.Request) (q : Text)
      → IsShared digest wiring g g' r
      → inflight_of q g'.inflight ≡ (
          if text_eq q (request_principal digest r)
          then suc (inflight_of q g.inflight)
          else inflight_of q g.inflight)
  share_taken g g' r q h =
      let p = request_principal digest r in
      let n = inflight_of p g.inflight in
      elim (text_eq-cases q p) [
        | inl (hit, same) ↦
            let counted : inflight_of p g'.inflight ≡ suc n =
              ap (inflight_of p) h.counted ∙ inflight_of-insert_self p (suc n) g.inflight in
            rw (hit, same) counted
        | inr (miss, other) ↦
            rw miss
              (ap (inflight_of q) h.counted ∙ inflight_of-insert_ne p q (suc n) g.inflight other)
      ]

  module _ (unicode_lower : Text → Text) (bearer : Incoming → Result ℕ Text)
      (parse_request_uri : Text → Option Url) (url_text : Text → Text → Text)
      (cross_origin : Incoming → Bool) where
    -- A request that reaches the MCP handler holds one token and one share of its principal: both
    -- counts have grown by one, and no other principal's has changed. When the handler returns, every
    -- count is what it was before the request came.
    pub leave-serve :
        (g g' : Gate) (i : Incoming) (r : Protect.Request) (q : Text)
        → serve digest wiring unicode_lower bearer parse_request_uri url_text cross_origin g i
          ≡ (g', reached r)
        → let p = request_principal digest r in
          (g'.used ≡ suc g.used)
          × (inflight_of q g'.inflight
              ≡ (if text_eq q p then suc (inflight_of q g.inflight) else inflight_of q g.inflight))
          × ((leave digest wiring g' r).used ≡ g.used)
          × (inflight_of q (leave digest wiring g' r).inflight ≡ inflight_of q g.inflight)
    unfolding leave release
    leave-serve g g' i r q e =
        let served =
          serve-IsServed digest wiring unicode_lower bearer parse_request_uri url_text cross_origin
            g g' i r e in
        let shared = served.protection.shared in
        let taken = record g { used = suc g.used; limiter = served.protection.limiter } in
        (
          shared.kept.0,
          share_taken taken g' r q shared,
          omega (arith, shared.kept.0),
          shares_back taken g' r q shared,
        )
