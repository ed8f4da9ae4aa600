-- ===== src/HttpServer/Pipeline/Entry.antt =====
-- The outer part of the chain, and the whole of it: what a request that reaches the MCP handler has
-- passed.
use synthient_mcp.Prelude.{
  Result, ok, err, ℕ, suc, ◌<◌, ◌≡◌, refl, sym, ◌∙◌, inl, inr, Bool, true, false, Option, none,
  some, Bool-cases, arith,
}
use synthient_mcp.Text.{Text}
use synthient_mcp.HttpServer.Concurrency.{Verdict, admitted, acquire}
use synthient_mcp.HttpServer.Protect
use synthient_mcp.HttpServer.Protect.{Refusal, protect_mcp, request_principal}
use synthient_mcp.HttpServer.Origin
use synthient_mcp.HttpServer.Origin.{require_exact_origin, allow_cors}
use synthient_mcp.HttpServer.Origin.Admission.{IsTrusted, require_exact_origin_iff}
use synthient_mcp.Net.Url.{Url}
use synthient_mcp.HttpServer.Pipeline.Passage.{IsProtected, protect_reached}
use synthient_mcp.HttpServer.Pipeline.{
  Wiring, Incoming, Gate, Outcome, answered, reached, browser_view, direct_view, return_token,
  max_concurrent, protect, authenticated, authenticate, slotted, limit_all, exact, check_origin,
  crossed, serve,
}

module _ (digest : Text → Text) (wiring : Wiring) (unicode_lower : Text → Text)
    (bearer : Incoming → Result ℕ Text) where
  -- The user of a token in the mode of OAuth, and nobody in the mode of keys.
  pub data IsUser (i : Incoming) : Option Text → Type 0 where
    by_token :
        (user : Text) → wiring.protection.oauth ≡ true → bearer i ≡ ok user → IsUser i (some user)
    by_key : wiring.protection.oauth ≡ false → IsUser i none

  authenticated_reached :
      (g g' : Gate) (i : Incoming) (o : Result ℕ Text) (r : Protect.Request)
      → authenticated digest wiring unicode_lower bearer g i o ≡ (g', reached r)
      → (user : Text) × (o ≡ ok user)
        × (protect digest wiring unicode_lower i.now g (direct_view i (some user))
            ≡ (g', reached r))
  authenticated_reached g g' i (ok user) r e = (user, refl, e)
  authenticated_reached g g' i (err status) r e = absurd (ground arith)

  pub authenticate-oauth :
      (g : Gate) (i : Incoming)
      → wiring.protection.oauth ≡ true
      → authenticate digest wiring unicode_lower bearer g i
        ≡ authenticated digest wiring unicode_lower bearer g i (bearer i)
  unfolding authenticate
  authenticate-oauth g i on = rw on refl

  pub authenticate-key :
      (g : Gate) (i : Incoming)
      → wiring.protection.oauth ≡ false
      → authenticate digest wiring unicode_lower bearer g i
        ≡ protect digest wiring unicode_lower i.now g (direct_view i none)
  unfolding authenticate
  authenticate-key g i off = rw off refl

  authenticate_reached :
      (g g' : Gate) (i : Incoming) (r : Protect.Request)
      → authenticate digest wiring unicode_lower bearer g i ≡ (g', reached r)
      → (user : Option Text) × IsUser i user
        × IsProtected digest wiring unicode_lower i.now g g' (direct_view i user) r
  authenticate_reached g g' i r e = elim (Bool-cases (wiring.protection.oauth)) [
    | inl on ↦
        let (user, known, later) =
          authenticated_reached g g' i (bearer i) r (sym (authenticate-oauth g i on) ∙ e) in
        (
          some user,
          by_token user on known,
          protect_reached digest wiring unicode_lower i.now g g' (direct_view i (some user)) r
              later,
        )
    | inr off ↦ (
      none,
      by_key off,
      protect_reached digest wiring unicode_lower i.now g g' (direct_view i none) r
          (sym (authenticate-key g i off) ∙ e),
    )
  ]

  return_token_reached :
      (after : Gate × Outcome) (g' : Gate) (r : Protect.Request)
      → return_token after ≡ (g', reached r)
      → after ≡ (g', reached r)
  return_token_reached (g, answered status) g' r e = absurd (ground arith)
  return_token_reached (g, reached q) g' r e = e

  slotted_reached :
      (g g' : Gate) (i : Incoming) (slot : ℕ × Verdict) (r : Protect.Request)
      → slotted digest wiring unicode_lower bearer g i slot ≡ (g', reached r)
      → (slot.1 ≡ admitted)
        × (authenticate digest wiring unicode_lower bearer (record g { used = slot.0 }) i
            ≡ (g', reached r))
  slotted_reached g g' i (used, Verdict.unauthorized) r e = absurd (ground arith)
  slotted_reached g g' i (used, Verdict.refused) r e = absurd (ground arith)
  slotted_reached g g' i (used, Verdict.admitted) r e = (
    refl,
    return_token_reached
        (authenticate digest wiring unicode_lower bearer (record g { used = used }) i) g' r e,
  )

  acquired :
      (limit used : ℕ)
      → (acquire limit used).1 ≡ admitted
      → (used < limit) × ((acquire limit used).0 ≡ suc used)
  unfolding acquire
  acquired limit used e = ground arith

  limit_all_reached :
      (g g' : Gate) (i : Incoming) (r : Protect.Request)
      → limit_all digest wiring unicode_lower bearer g i ≡ (g', reached r)
      → (g.used < max_concurrent digest wiring)
        × (user : Option Text) × IsUser i user
        × IsProtected digest wiring unicode_lower i.now
            (record g { used = suc g.used })
            g'
            (direct_view i user)
            r
  unfolding limit_all
  limit_all_reached g g' i r e =
      let slot = acquire (max_concurrent digest wiring) g.used in
      let (free, later) = slotted_reached g g' i slot r e in
      let (under, taken) = acquired (max_concurrent digest wiring) g.used free in
      let (user, known, rest) =
        authenticate_reached (record g { used = suc g.used }) g' i r (rw taken at later) in
      (under, user, known, rest)

  module _ (parse_request_uri : Text → Option Url) (url_text : Text → Text → Text)
      (cross_origin : Incoming → Bool) where
    -- All that a request has passed.
    pub record IsServed (g g' : Gate) (i : Incoming) (r : Protect.Request) : Type 0 where
      pub cors :
          wiring.cors_enabled ≡ true
          → allow_cors unicode_lower parse_request_uri url_text wiring.allowed_origins
              wiring.protection.allowed_hosts
              (browser_view i)
            ≡ Origin.passed
      pub crossing : cross_origin i ≡ true
      pub origin :
          IsTrusted unicode_lower parse_request_uri url_text wiring.allowed_origins (browser_view i)
      pub slot : g.used < max_concurrent digest wiring
      pub user : Option Text
      pub known : IsUser i user
      pub protection :
          IsProtected digest wiring unicode_lower i.now
            (record g { used = suc g.used })
            g'
            (direct_view i user)
            r

    exact_reached :
        (g g' : Gate) (i : Incoming) (o : Origin.Outcome) (r : Protect.Request)
        → exact digest wiring unicode_lower bearer parse_request_uri url_text cross_origin g i o
          ≡ (g', reached r)
        → (o ≡ Origin.passed) × (limit_all digest wiring unicode_lower bearer g i ≡ (g', reached r))
    exact_reached g g' i Origin.passed r e = (refl, e)
    exact_reached g g' i Origin.preflight r e = absurd (ground arith)
    exact_reached g g' i Origin.forbidden r e = absurd (ground arith)

    crossed_reached :
        (g g' : Gate) (i : Incoming) (o : Origin.Outcome) (r : Protect.Request)
        → crossed digest wiring unicode_lower bearer parse_request_uri url_text cross_origin g i o
          ≡ (g', reached r)
        → (o ≡ Origin.passed)
          × (check_origin digest wiring unicode_lower bearer parse_request_uri url_text cross_origin
                g i
              ≡ (g', reached r))
    crossed_reached g g' i Origin.passed r e = (refl, e)
    crossed_reached g g' i Origin.preflight r e = absurd (ground arith)
    crossed_reached g g' i Origin.forbidden r e = absurd (ground arith)

    check_origin_reached :
        (g g' : Gate) (i : Incoming) (r : Protect.Request)
        → check_origin digest wiring unicode_lower bearer parse_request_uri url_text cross_origin g
            i
          ≡ (g', reached r)
        → (wiring.cors_enabled ≡ true
            → allow_cors unicode_lower parse_request_uri url_text wiring.allowed_origins
                wiring.protection.allowed_hosts
                (browser_view i)
              ≡ Origin.passed)
        → IsServed g g' i r
    unfolding check_origin
    check_origin_reached g g' i r e cors = elim (Bool-cases (cross_origin i)) [
      | inr denied ↦ absurd (ground arith)
      | inl crossing ↦
          let exactly =
            require_exact_origin unicode_lower parse_request_uri url_text wiring.allowed_origins
              (browser_view i) in
          let (trusted, later) = exact_reached g g' i exactly r (rw crossing at e) in
          let (slot, user, known, protection) = limit_all_reached g g' i r later in
          record {
            cors = cors;
            crossing = crossing;
            origin =
                (require_exact_origin_iff unicode_lower parse_request_uri url_text
                    wiring.allowed_origins (browser_view i)).0
                  trusted;
            slot = slot;
            user = user;
            known = known;
            protection = protection;
          }
    ]

    -- A request reaches the MCP handler only past every guard: the CORS check where it is on, the
    -- protection against cross-origin requests, an origin that is trusted, a free slot, in the
    -- mode of OAuth a token, the protection of the endpoint (host, key, client address), the rate
    -- limiter where a limit is set, and a share of its principal, which has a name. One token and
    -- one share are taken, and nothing else in the limiters of concurrency changes.
    pub serve-IsServed :
        (g g' : Gate) (i : Incoming) (r : Protect.Request)
        → serve digest wiring unicode_lower bearer parse_request_uri url_text cross_origin g i
          ≡ (g', reached r)
        → IsServed g g' i r
    unfolding serve
    serve-IsServed g g' i r e = elim (Bool-cases (wiring.cors_enabled)) [
      | inl on ↦
          let allowed =
            allow_cors unicode_lower parse_request_uri url_text wiring.allowed_origins
              wiring.protection.allowed_hosts (browser_view i) in
          let (passes, later) = crossed_reached g g' i allowed r (rw on at e) in
          check_origin_reached g g' i r later (λ _. passes)
      | inr off ↦ check_origin_reached g g' i r (rw off at e) (λ on. absurd (ground arith))
    ]
