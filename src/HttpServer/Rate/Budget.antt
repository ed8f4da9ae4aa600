-- ===== src/HttpServer/Rate/Budget.antt =====
-- How many requests of one principal pass in a run of the limiter.
use synthient_mcp.Prelude.{
  ℕ, suc, ◌+◌, ◌*◌, ◌≤◌, ◌<◌, List, [], ◌∷◌, ◌≡◌, sym, ◌≢◌, ◌&&◌, some, if◌then◌else◌, arith, inl,
  inr, Option-cases,
}
use native.Mathlib.Decide.{dec_lt}
use synthient_mcp.Text.{Text, text_eq}
use synthient_mcp.Text.Equality.{text_eq-cases}
use synthient_mcp.GoMap.{lookup}
use synthient_mcp.GoMap.Laws.{lookup-Values}
use synthient_mcp.HttpServer.Rate.{Window, Limiter, handle, is_passed, minute}
use synthient_mcp.HttpServer.Rate.Invariant.{IsValid, IsWindow, handle-IsValid, IsValid-mono}
use synthient_mcp.HttpServer.Rate.Steps.{
  IsDead, handle-Kept, keep-IsDead, keep_live, handle_live, handle_dead, handle-limit, CountsOn,
  Starts,
}

-- The requests that arrive, each with its instant and its principal.
abbrev pub Arrivals : Type 0
Arrivals = List (ℕ × Text)

-- The number of requests of `p` that pass.
unfoldable pub passes : Text → Limiter → Arrivals → ℕ
passes p l [] = 0
passes p l ((now, q) ∷ es) =
    (if text_eq q p && is_passed (handle l now q).1 then 1 else 0) + passes p (handle l now q).0 es

-- The instants do not fall, and lie in [from, to).
abbrev pub Within : ℕ → ℕ → Arrivals → Type 0
Within from to [] = Unit
Within from to ((now, q) ∷ es) = (from ≤ now) × (now < to) × Within now to es

module _ (p : Text) (named : p ≢ []) where
  own_live :
      (l : Limiter) (now : ℕ) (q : Text) (w : Window)
      → q ≡ p
      → lookup p l.windows ≡ some w
      → now < w.reset_at
      → CountsOn l (handle l now q) p w
  own_live l now q w same found live = rw same (handle_live l now p w named found live)

  own_dead :
      (l : Limiter) (from now : ℕ) (q : Text)
      → q ≡ p
      → IsValid from l
      → IsDead now (lookup p l.windows)
      → Starts now (handle l now q) p
  own_dead l from now q same v dead =
      rw same (handle_dead l now p named v.positive v.map.unique dead)

  other_live :
      (l : Limiter) (from now : ℕ) (q : Text) (w : Window)
      → q ≢ p
      → IsValid from l
      → lookup p l.windows ≡ some w
      → now < w.reset_at
      → lookup p (handle l now q).0.windows ≡ some w
  other_live l from now q w other v found live =
      keep_live now w _ (rw found at (handle-Kept l now p q (λ e. other (sym e)) v.map.unique)) live

  other-IsDead :
      (l : Limiter) (from now : ℕ) (q : Text)
      → q ≢ p
      → IsValid from l
      → IsDead now (lookup p l.windows)
      → IsDead now (lookup p (handle l now q).0.windows)
  other-IsDead l from now q other v dead =
      keep-IsDead now _ _ (handle-Kept l now p q (λ e. other (sym e)) v.map.unique) dead

  -- Until the window ends, what passes and what it has counted stay within the limit.
  passes_live :
      (es : Arrivals) (l : Limiter) (from to : ℕ) (w : Window)
      → IsValid from l
      → Within from to es
      → to ≤ w.reset_at
      → lookup p l.windows ≡ some w
      → passes p l es + w.count ≤ l.limit
  unfolding passes
  passes_live [] l from to w v h ends found =
      omega (arith, (lookup-Values (IsWindow l.limit from) p l.windows v.map.sound found).1)
  passes_live ((now, q) ∷ es) l from to w v (a, b, h) ends found =
      let v' = handle-IsValid l from now q a v in
      let same_limit = handle-limit l now q in
      elim (text_eq-cases q p) [
        | inl (hit, same) ↦ elim (own_live l now q w same found (omega arith)) [
          | inl (pass, room, stored) ↦
              let ih =
                passes_live es _ now to (record w { count = suc w.count }) v' h ends stored in
              rw (hit, pass) (omega (arith, same_limit, ih))
          | inr (stop, stored) ↦
              let ih = passes_live es _ now to w v' h ends stored in
              rw (hit, stop) (omega (arith, same_limit, ih))
        ]
        | inr (miss, other) ↦
            let stored = other_live l from now q w other v found (omega arith) in
            let ih = passes_live es _ now to w v' h ends stored in
            rw miss (omega (arith, same_limit, ih))
      ]

  -- With no live window, at most the limit passes within a minute.
  passes_dead :
      (es : Arrivals) (l : Limiter) (from to : ℕ)
      → IsValid from l
      → Within from to es
      → to ≤ from + minute
      → IsDead from (lookup p l.windows)
      → passes p l es ≤ l.limit
  unfolding passes
  passes_dead [] l from to v h short dead = omega arith
  passes_dead ((now, q) ∷ es) l from to v (a, b, h) short dead =
      let v' = handle-IsValid l from now q a v in
      let same_limit = handle-limit l now q in
      let still : IsDead now (lookup p l.windows) = λ w e. omega (arith, dead w e) in
      elim (text_eq-cases q p) [
        | inl (hit, same) ↦ elim (own_dead l from now q same v still) [
          | inl (pass, stored) ↦
              let ih = passes_live es _ now to _ v' h (omega arith) stored in
              rw (hit, pass) (omega (arith, same_limit, ih))
          | inr (stop, missing) ↦
              let ih = passes_dead es _ now to v' h (omega arith) (λ w e. ground arith) in
              rw (hit, stop) (omega (arith, same_limit, ih))
        ]
        | inr (miss, other) ↦
            let ih =
              passes_dead es _ now to v' h (omega arith)
                (other-IsDead l from now q other v still) in
            rw miss (omega (arith, same_limit, ih))
      ]

  -- From a stored window, live or not: what is left of it, and one window more.
  passes_stored :
      (es : Arrivals) (l : Limiter) (from to : ℕ) (w : Window)
      → IsValid from l
      → Within from to es
      → to ≤ from + minute
      → w.count ≤ l.limit
      → lookup p l.windows ≡ some w
      → passes p l es + w.count ≤ 2 * l.limit
  unfolding passes
  passes_stored [] l from to w v h short fits found = omega arith
  passes_stored ((now, q) ∷ es) l from to w v (a, b, h) short fits found =
      let v' = handle-IsValid l from now q a v in
      let same_limit = handle-limit l now q in
      elim (dec_lt now w.reset_at) [
        | no over ↦
            let once =
              passes_dead ((now, q) ∷ es) l now to (IsValid-mono a v) (omega arith, b, h)
                (omega arith) (λ u e. ground arith) in
            omega (arith, once)
        | yes live ↦ elim (text_eq-cases q p) [
          | inl (hit, same) ↦ elim (own_live l now q w same found live) [
            | inl (pass, room, stored) ↦
                let ih =
                  passes_stored es _ now to (record w { count = suc w.count }) v' h (omega arith)
                    (omega (arith, same_limit)) stored in
                rw (hit, pass) (omega (arith, same_limit, ih))
            | inr (stop, stored) ↦
                let ih =
                  passes_stored es _ now to w v' h (omega arith) (omega (arith, same_limit))
                    stored in
                rw (hit, stop) (omega (arith, same_limit, ih))
          ]
          | inr (miss, other) ↦
              let stored = other_live l from now q w other v found live in
              let ih =
                passes_stored es _ now to w v' h (omega arith) (omega (arith, same_limit)) stored in
              rw miss (omega (arith, same_limit, ih))
        ]
      ]

-- From a valid state in which a named principal has no window, or one that has ended, it passes at
-- most `limit` times in the requests of a minute, whatever the other principals send.
pub passes_fresh-le :
    (p : Text) (es : Arrivals) (l : Limiter) (from to : ℕ)
    → p ≢ []
    → IsValid from l
    → Within from to es
    → to ≤ from + minute
    → IsDead from (lookup p l.windows)
    → passes p l es ≤ l.limit
passes_fresh-le p es l from to named v h short dead =
    passes_dead p named es l from to v h short dead

-- From any valid state of the limiter, in the requests of any minute, a named principal passes at
-- most twice the limit, whatever the other principals send.
pub passes_always-le :
    (p : Text) (es : Arrivals) (l : Limiter) (from to : ℕ)
    → p ≢ []
    → IsValid from l
    → Within from to es
    → to ≤ from + minute
    → passes p l es ≤ 2 * l.limit
passes_always-le p es l from to named v h short = elim (Option-cases (lookup p l.windows)) [
  | inl missing ↦ omega (arith, passes_dead p named es l from to v h short (λ w e. ground arith))
  | inr (w, found) ↦
      let fits = (lookup-Values (IsWindow l.limit from) p l.windows v.map.sound found).1 in
      omega (arith, passes_stored p named es l from to w v h short fits found)
]
