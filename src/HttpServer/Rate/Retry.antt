-- ===== src/HttpServer/Rate/Retry.antt =====
-- What Retry-After promises a principal that has reached its limit.
use synthient_mcp.Prelude.{
  ℕ, ◌+◌, ◌*◌, ◌≤◌, ◌<◌, [], ◌∷◌, ◌≡◌, refl, ◌≢◌, true, none, some, length, arith, inl, inr,
  Bool-cases, Option-cases, cons-ne-nil,
}
use synthient_mcp.Text.{Text}
use synthient_mcp.GoMap.{GoMap, lookup, delete}
use synthient_mcp.GoMap.Laws.{length-delete-lt, lookup-Values}
use synthient_mcp.HttpServer.Rate.{
  Window, Limiter, passed, too_many, rate_limit, is_live, sweep, fresh_window, count_request, admit,
  handle, retry_seconds, max_tracked_rate_principals, minute, second,
}
use synthient_mcp.HttpServer.Rate.Invariant.{IsValid, IsWindow}

retry_seconds_bounds :
    (now : ℕ) (w : Window)
    → now < w.reset_at
    → w.reset_at ≤ now + minute
    → (1 ≤ retry_seconds now w)
      × (retry_seconds now w ≤ 60)
      × (w.reset_at ≤ now + retry_seconds now w * second)
unfolding retry_seconds
retry_seconds_bounds now w h k = omega arith

-- The window that a refusal for the rate rests on; the refusal changes no window.
record IsLimited (l l' : Limiter) (now : ℕ) (p : Text) (r : ℕ) : Type 0 where
  named : p ≢ []
  window : Window
  stored : lookup p l.windows ≡ some window
  live : now < window.reset_at
  reached : l.limit ≤ window.count
  seconds : r ≡ retry_seconds now window
  windows : l'.windows ≡ l.windows
  limit : l'.limit ≡ l.limit

count_request_fresh :
    (l l' : Limiter) (now : ℕ) (p : Text) (m : GoMap Window) (r : ℕ)
    → 1 ≤ l.limit
    → count_request l now p m (fresh_window now) ≢ (l', too_many r rate_limit)
unfolding count_request
count_request_fresh l l' now p m r pos e = ground arith

admit-none :
    (l l' : Limiter) (now : ℕ) (p : Text) (m : GoMap Window) (r : ℕ)
    → 1 ≤ l.limit
    → admit l now p (record { window = none; map = m }) ≢ (l', too_many r rate_limit)
admit-none l l' now p m r pos e = ground (arith, count_request_fresh l l' now p (sweep now m) r pos)

handle-IsLimited :
    (l l' : Limiter) (now : ℕ) (p : Text) (r : ℕ)
    → 1 ≤ l.limit
    → handle l now p ≡ (l', too_many r rate_limit)
    → IsLimited l l' now p r
unfolding handle
handle-IsLimited l l' now [] r pos e = absurd (ground arith)
handle-IsLimited l l' now (c ∷ p) r pos e = elim (Option-cases (lookup (c ∷ p) l.windows)) [
  | inl missing ↦ absurd (admit-none l l' now (c ∷ p) l.windows r pos (rw (missing) at e))
  | inr (w, found) ↦ elim (Bool-cases (is_live now w)) [
    | inl live ↦ limited w found live (rw (found, live) at e)
    | inr over ↦
        absurd
          (admit-none l l' now (c ∷ p) (delete (c ∷ p) l.windows) r pos (rw (found, over) at e))
  ]
]
  where
    limited :
        (w : Window)
        → lookup (c ∷ p) l.windows ≡ some w
        → is_live now w ≡ true
        → count_request l now (c ∷ p) l.windows w ≡ (l', too_many r rate_limit)
        → IsLimited l l' now (c ∷ p) r
    limited w found live e = record {
      named = cons-ne-nil c p;
      window = w;
      stored = found;
      live = ground arith;
      reached = ground arith;
      seconds = ground arith;
      windows = ground arith;
      limit = ground arith;
    }

-- A request whose stored window has ended passes, whatever else the map holds.
handle_ended :
    (l : Limiter) (later : ℕ) (p : Text) (w : Window)
    → 1 ≤ l.limit
    → length l.windows ≤ max_tracked_rate_principals
    → p ≢ []
    → lookup p l.windows ≡ some w
    → w.reset_at ≤ later
    → (handle l later p).1 ≡ passed
unfolding handle
handle_ended l later [] w pos bounded named found over = absurd (named refl)
handle_ended l later (c ∷ p) w pos bounded named found over =
    rw (found) (ground (arith, length-delete-lt (c ∷ p) l.windows (λ none_there. ground arith)))

-- A principal that is refused for its rate in a valid state is told between 1 and 60 seconds; a
-- request of it that comes at least so much later passes, if no other request came between.
pub handle_retry :
    (l l' : Limiter) (last now later : ℕ) (p : Text) (r : ℕ)
    → last ≤ now
    → IsValid last l
    → handle l now p ≡ (l', too_many r rate_limit)
    → now + r * second ≤ later
    → (1 ≤ r) × (r ≤ 60) × ((handle l' later p).1 ≡ passed)
handle_retry l l' last now later p r order v e wait =
    let c = handle-IsLimited l l' now p r v.positive e in
    let w = lookup-Values (IsWindow l.limit last) p l.windows v.map.sound c.stored in
    let b = retry_seconds_bounds now c.window c.live (omega (arith, w.2)) in
    (
      omega (arith, c.seconds, b.0),
      omega (arith, c.seconds, b.1),
      handle_ended l' later p c.window (omega (arith, c.limit, v.positive))
          (rw (c.windows) v.map.bounded) c.named (rw (c.windows) c.stored)
          (omega (arith, c.seconds, b.2)),
    )
