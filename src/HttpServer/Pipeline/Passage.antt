-- ===== src/HttpServer/Pipeline/Passage.antt =====
-- What a request to /mcp has passed when it reaches the MCP handler.
use synthient_mcp.Prelude.{
  Result, ok, err, ℕ, suc, ◌<◌, [], ◌≡◌, refl, ap, ◌≢◌, inl, inr, true, false, Bool-cases, arith,
}
use synthient_mcp.Text.{Text}
use synthient_mcp.GoMap.{GoMap, insert}
use synthient_mcp.HttpServer.Concurrency.{Verdict, admitted, inflight_of, begin}
use synthient_mcp.HttpServer.Concurrency.Counting.{begin_admitted}
use synthient_mcp.HttpServer.Rate
use synthient_mcp.HttpServer.Rate.{Limiter, handle}
use synthient_mcp.HttpServer.Protect
use synthient_mcp.HttpServer.Protect.{Refusal, protect_mcp, request_principal}
use synthient_mcp.HttpServer.Protect.Admission.{IsAdmitted, protect_mcp_iff}
use synthient_mcp.HttpServer.Pipeline.{
  Wiring, Gate, reached, is_limited, per_principal, begun, limit_principal, rated, limit_rate,
  protected, protect,
}

module _ (digest : Text → Text) (wiring : Wiring) where
  -- The share of its principal that a request takes.
  pub record IsShared (g g' : Gate) (r : Protect.Request) : Type 0 where
    pub named : request_principal digest r ≢ []
    pub under : inflight_of (request_principal digest r) g.inflight < per_principal digest wiring
    pub counted :
        g'.inflight
        ≡ insert
            (request_principal digest r)
            (suc (inflight_of (request_principal digest r) g.inflight))
            g.inflight
    pub kept : (g'.used ≡ g.used) × (g'.limiter ≡ g.limiter)

  begun_reached :
      (g g' : Gate) (r r' : Protect.Request) (step : GoMap ℕ × Verdict)
      → begun digest wiring g r step ≡ (g', reached r')
      → (r' ≡ r) × (step.1 ≡ admitted) × (g' ≡ record g { inflight = step.0 })
  begun_reached g g' r r' (m, Verdict.unauthorized) e = absurd (ground arith)
  begun_reached g g' r r' (m, Verdict.refused) e = absurd (ground arith)
  begun_reached g g' r r' (m, Verdict.admitted) e = (ground arith, refl, ground arith)

  limit_principal_reached :
      (g g' : Gate) (r r' : Protect.Request)
      → limit_principal digest wiring g r ≡ (g', reached r')
      → (r' ≡ r) × IsShared g g' r
  unfolding limit_principal
  limit_principal_reached g g' r r' e =
      let p = request_principal digest r in
      let step = begin (per_principal digest wiring) g.inflight p in
      let (same, fits, left) = begun_reached g g' r r' step e in
      let (named, under, grown) =
        begin_admitted (per_principal digest wiring) g.inflight step.0 p
          (ap (λ v. (step.0, v)) fits) in
      (
        same,
        rw left (record { named = named; under = under; counted = grown; kept = (refl, refl) }),
      )

  -- The rate limiter, where there is one, lets the request pass.
  pub data IsRated (now : ℕ) (g : Gate) (r : Protect.Request) (l : Limiter) : Type 0 where
    unlimited :
        is_limited wiring.max_requests_per_minute ≡ false → l ≡ g.limiter → IsRated now g r l
    limited :
        is_limited wiring.max_requests_per_minute ≡ true
        → handle g.limiter now (request_principal digest r) ≡ (l, Rate.passed)
        → IsRated now g r l

  rated_reached :
      (g g' : Gate) (r r' : Protect.Request) (step : Limiter × Rate.Outcome)
      → rated digest wiring g r step ≡ (g', reached r')
      → (step.1 ≡ Rate.passed)
        × (limit_principal digest wiring (record g { limiter = step.0 }) r ≡ (g', reached r'))
  rated_reached g g' r r' (l, Rate.unauthorized) e = absurd (ground arith)
  rated_reached g g' r r' (l, Rate.too_many retry reason) e = absurd (ground arith)
  rated_reached g g' r r' (l, Rate.passed) e = (refl, e)

  limit_rate_reached :
      (now : ℕ) (g g' : Gate) (r r' : Protect.Request)
      → limit_rate digest wiring now g r ≡ (g', reached r')
      → (r' ≡ r) × (l : Limiter) × IsRated now g r l × IsShared (record g { limiter = l }) g' r
  unfolding limit_rate
  limit_rate_reached now g g' r r' e =
      elim (Bool-cases (is_limited wiring.max_requests_per_minute)) [
        | inl on ↦
            let step = handle g.limiter now (request_principal digest r) in
            let (passes, later) = rated_reached g g' r r' step (rw on at e) in
            let (same, shared) =
              limit_principal_reached (record g { limiter = step.0 }) g' r r' later in
            (same, step.0, limited on (ap (λ o. (step.0, o)) passes), shared)
        | inr off ↦
            let (same, shared) = limit_principal_reached g g' r r' (rw off at e) in
            (same, g.limiter, unlimited off refl, shared)
      ]

  module _ (unicode_lower : Text → Text) where
    protected_reached :
        (now : ℕ) (g g' : Gate) (o : Result Refusal Protect.Request) (r' : Protect.Request)
        → protected digest wiring now g o ≡ (g', reached r')
        → (r : Protect.Request) × (o ≡ ok r) × (limit_rate digest wiring now g r ≡ (g', reached r'))
    protected_reached now g g' (ok r) r' e = (r, refl, e)
    protected_reached now g g' (err refusal) r' e = absurd (ground arith)

    -- What stands behind the check of a token.
    pub record IsProtected (now : ℕ) (g g' : Gate) (seen r : Protect.Request) : Type 0 where
      pub admitted : IsAdmitted unicode_lower wiring.protection seen r
      pub limiter : Limiter
      pub rated : IsRated now g r limiter
      pub shared : IsShared (record g { limiter = limiter }) g' r

    pub protect_reached :
        (now : ℕ) (g g' : Gate) (seen r' : Protect.Request)
        → protect digest wiring unicode_lower now g seen ≡ (g', reached r')
        → IsProtected now g g' seen r'
    unfolding protect
    protect_reached now g g' seen r' e =
        let (r, passes, later) =
          protected_reached now g g' (protect_mcp unicode_lower wiring.protection seen) r' e in
        let (same, l, rate, shared) = limit_rate_reached now g g' r r' later in
        rw same (record {
          admitted = (protect_mcp_iff unicode_lower wiring.protection seen r).0 passes;
          limiter = l;
          rated = rate;
          shared = shared;
        })
