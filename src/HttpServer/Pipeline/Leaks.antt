-- ===== src/HttpServer/Pipeline/Leaks.antt =====
-- An answer leaves the limiters of concurrency as they were.
use synthient_mcp.Prelude.{
  Result, ok, err, ℕ, suc, ◌≡◌, refl, sym, ◌∙◌, ◌≢◌, inl, inr, ◌-◌, Bool, Option, none, some, ltb,
  Bool-cases, arith,
}
use synthient_mcp.Text.{Text}
use synthient_mcp.GoMap.{GoMap}
use synthient_mcp.HttpServer.Concurrency.{Verdict, admitted, begin, acquire, release}
use synthient_mcp.HttpServer.Concurrency.Counting.{begin_rejected}
use synthient_mcp.HttpServer.Rate
use synthient_mcp.HttpServer.Rate.{Limiter, handle}
use synthient_mcp.HttpServer.Protect
use synthient_mcp.HttpServer.Protect.{Refusal, protect_mcp, request_principal}
use synthient_mcp.HttpServer.Origin
use synthient_mcp.HttpServer.Origin.{require_exact_origin, allow_cors}
use synthient_mcp.Net.Url.{Url}
use synthient_mcp.HttpServer.Pipeline.Entry.{authenticate-oauth, authenticate-key}
use synthient_mcp.HttpServer.Pipeline.{
  Wiring, Incoming, Gate, Outcome, answered, reached, browser_view, direct_view, is_limited,
  return_token, per_principal, max_concurrent, begun, limit_principal, rated, limit_rate, protected,
  protect, authenticated, authenticate, limit_all, exact, check_origin, crossed, serve,
}

-- Neither the tokens nor the shares differ.
abbrev pub IsKept : Gate → Gate → Type 0
IsKept g g' = (g'.used ≡ g.used) × (g'.inflight ≡ g.inflight)

module _ (digest : Text → Text) (wiring : Wiring) where
  begun_answered :
      (g g' : Gate) (r : Protect.Request) (status : ℕ) (m : GoMap ℕ) (v : Verdict)
      → (v ≢ admitted → m ≡ g.inflight)
      → begun digest wiring g r (m, v) ≡ (g', answered status)
      → IsKept g g'
  begun_answered g g' r status m Verdict.unauthorized same e =
      let left : record g { inflight = m } ≡ g' = ground arith in rw (← left) (refl, same (cc))
  begun_answered g g' r status m Verdict.refused same e =
      let left : record g { inflight = m } ≡ g' = ground arith in rw (← left) (refl, same (cc))
  begun_answered g g' r status m Verdict.admitted same e = absurd (ground arith)

  limit_principal_answered :
      (g g' : Gate) (r : Protect.Request) (status : ℕ)
      → limit_principal digest wiring g r ≡ (g', answered status)
      → IsKept g g'
  unfolding limit_principal
  limit_principal_answered g g' r status e =
      let p = request_principal digest r in
      let step = begin (per_principal digest wiring) g.inflight p in
      begun_answered g g' r status step.0 step.1
        (begin_rejected (per_principal digest wiring) g.inflight step.0 p step.1 refl) e

  rated_answered :
      (g g' : Gate) (r : Protect.Request) (status : ℕ) (step : Limiter × Rate.Outcome)
      → rated digest wiring g r step ≡ (g', answered status)
      → IsKept g g'
  rated_answered g g' r status (l, Rate.unauthorized) e =
      let left : record g { limiter = l } ≡ g' = ground arith in rw (← left) (refl, refl)
  rated_answered g g' r status (l, Rate.too_many retry reason) e =
      let left : record g { limiter = l } ≡ g' = ground arith in rw (← left) (refl, refl)
  rated_answered g g' r status (l, Rate.passed) e =
      limit_principal_answered (record g { limiter = l }) g' r status e

  limit_rate_answered :
      (now : ℕ) (g g' : Gate) (r : Protect.Request) (status : ℕ)
      → limit_rate digest wiring now g r ≡ (g', answered status)
      → IsKept g g'
  unfolding limit_rate
  limit_rate_answered now g g' r status e =
      elim (Bool-cases (is_limited wiring.max_requests_per_minute)) [
        | inl on ↦
            rated_answered g g' r status (handle g.limiter now (request_principal digest r))
              (rw on at e)
        | inr off ↦ limit_principal_answered g g' r status (rw off at e)
      ]

  same_gate :
      (g g' : Gate) (s t : ℕ)
      → (let r : Gate × Outcome = (g, answered s) in r ≡ (g', answered t))
      → IsKept g g'
  same_gate g g' s t e = let same : g ≡ g' = ground arith in rw (← same) (refl, refl)

  module _ (unicode_lower : Text → Text) where
    protected_answered :
        (now : ℕ) (g g' : Gate) (o : Result Refusal Protect.Request) (status : ℕ)
        → protected digest wiring now g o ≡ (g', answered status)
        → IsKept g g'
    protected_answered now g g' (ok r) status e = limit_rate_answered now g g' r status e
    protected_answered now g g' (err refusal) status e = same_gate g g' _ status e

    protect_answered :
        (now : ℕ) (g g' : Gate) (seen : Protect.Request) (status : ℕ)
        → protect digest wiring unicode_lower now g seen ≡ (g', answered status)
        → IsKept g g'
    unfolding protect
    protect_answered now g g' seen status e =
        protected_answered now g g' (protect_mcp unicode_lower wiring.protection seen) status e

    module _ (bearer : Incoming → Result ℕ Text) where
      authenticated_answered :
          (g g' : Gate) (i : Incoming) (o : Result ℕ Text) (status : ℕ)
          → authenticated digest wiring unicode_lower bearer g i o ≡ (g', answered status)
          → IsKept g g'
      authenticated_answered g g' i (ok user) status e =
          protect_answered i.now g g' (direct_view i (some user)) status e
      authenticated_answered g g' i (err refusal) status e = same_gate g g' refusal status e

      authenticate_answered :
          (g g' : Gate) (i : Incoming) (status : ℕ)
          → authenticate digest wiring unicode_lower bearer g i ≡ (g', answered status)
          → IsKept g g'
      authenticate_answered g g' i status e = elim (Bool-cases (wiring.protection.oauth)) [
        | inl on ↦
            authenticated_answered g g' i (bearer i) status
              (sym (authenticate-oauth digest wiring unicode_lower bearer g i on) ∙ e)
        | inr off ↦
            protect_answered i.now g g' (direct_view i none) status
              (sym (authenticate-key digest wiring unicode_lower bearer g i off) ∙ e)
      ]

      -- The token that was taken is given back.
      returned :
          (g g' : Gate) (after : Gate × Outcome) (status : ℕ)
          → ((h : Gate) → after ≡ (h, answered status) → IsKept (record g { used = suc g.used }) h)
          → return_token after ≡ (g', answered status)
          → IsKept g g'
      unfolding release
      returned g g' (h, answered s) status inner e =
          let same : s ≡ status = ground arith in
          let (used, inflight) = inner h (rw same refl) in
          let left : record h { used = h.used - 1 } ≡ g' = ground arith in
          rw (← left) (omega (arith, used), inflight)
      returned g g' (h, reached r) status inner e = absurd (ground arith)

      limit_all_answered :
          (g g' : Gate) (i : Incoming) (status : ℕ)
          → limit_all digest wiring unicode_lower bearer g i ≡ (g', answered status)
          → IsKept g g'
      unfolding limit_all acquire
      limit_all_answered g g' i status e =
          elim (Bool-cases (ltb g.used (max_concurrent digest wiring))) [
            | inl free ↦
                returned g g'
                  (authenticate digest wiring unicode_lower bearer (record g { used = suc g.used })
                    i)
                  status (λ h. authenticate_answered (record g { used = suc g.used }) h i status)
                  (rw free at e)
            | inr full ↦ same_gate g g' 503 status (rw full at e)
          ]

      module _ (parse_request_uri : Text → Option Url) (url_text : Text → Text → Text)
          (cross_origin : Incoming → Bool) where
        exact_answered :
            (g g' : Gate) (i : Incoming) (o : Origin.Outcome) (status : ℕ)
            → exact digest wiring unicode_lower bearer parse_request_uri url_text cross_origin g i o
              ≡ (g', answered status)
            → IsKept g g'
        exact_answered g g' i Origin.passed status e = limit_all_answered g g' i status e
        exact_answered g g' i Origin.preflight status e = same_gate g g' 403 status e
        exact_answered g g' i Origin.forbidden status e = same_gate g g' 403 status e

        check_origin_answered :
            (g g' : Gate) (i : Incoming) (status : ℕ)
            → check_origin digest wiring unicode_lower bearer parse_request_uri url_text
                cross_origin g i
              ≡ (g', answered status)
            → IsKept g g'
        unfolding check_origin
        check_origin_answered g g' i status e = elim (Bool-cases (cross_origin i)) [
          | inr denied ↦ same_gate g g' 403 status (rw denied at e)
          | inl crossing ↦
              exact_answered g g' i
                (require_exact_origin unicode_lower parse_request_uri url_text
                  wiring.allowed_origins (browser_view i))
                status (rw crossing at e)
        ]

        crossed_answered :
            (g g' : Gate) (i : Incoming) (o : Origin.Outcome) (status : ℕ)
            → crossed digest wiring unicode_lower bearer parse_request_uri url_text cross_origin g i
                o
              ≡ (g', answered status)
            → IsKept g g'
        crossed_answered g g' i Origin.passed status e = check_origin_answered g g' i status e
        crossed_answered g g' i Origin.preflight status e = same_gate g g' 204 status e
        crossed_answered g g' i Origin.forbidden status e = same_gate g g' 403 status e

        -- A request that any middleware answers, on whatever path, leaves the tokens and the shares of
        -- the concurrency limiters as it found them.
        pub serve-answered :
            (g g' : Gate) (i : Incoming) (status : ℕ)
            → serve digest wiring unicode_lower bearer parse_request_uri url_text cross_origin g i
              ≡ (g', answered status)
            → (g'.used ≡ g.used) × (g'.inflight ≡ g.inflight)
        unfolding serve
        serve-answered g g' i status e = elim (Bool-cases (wiring.cors_enabled)) [
          | inl on ↦
              crossed_answered g g' i
                (allow_cors unicode_lower parse_request_uri url_text wiring.allowed_origins
                  wiring.protection.allowed_hosts (browser_view i))
                status (rw on at e)
          | inr off ↦ check_origin_answered g g' i status (rw off at e)
        ]
