-- ===== src/HttpServer/Rate.antt =====
-- principalRateLimiter of go/internal/httpserver/server.go. An instant is its nanoseconds; the
-- clock is an argument of each call, and each call holds the mutex from the read of the map to its
-- last write, so calls are one step each.
pub mod Budget
pub mod Invariant
pub mod Retry
pub mod Steps
use synthient_mcp.Prelude.{
  ℕ, suc, ◌+◌, ◌-◌, ◌*◌, ◌/◌, ◌^◌, max, [], ◌∷◌, Bool, true, false, not, ◌&&◌, Option, none, some,
  ltb, leb, if◌then◌else◌, length,
}
use synthient_mcp.Text.{Text}
use synthient_mcp.GoMap.{GoMap, lookup, insert, delete, prune}

abbrev pub max_tracked_rate_principals : ℕ
max_tracked_rate_principals = 10000

abbrev pub second : ℕ
second = 1_000_000_000

abbrev pub minute : ℕ
minute = 60 * second

pub record Window : Type 0 where
  pub count : ℕ
  pub reset_at : ℕ

-- `rejected` is the counter httpRateRejected.
pub record Limiter : Type 0 where
  pub limit : ℕ
  pub windows : GoMap Window
  pub rejected : ℕ

pub data Reason : Type 0 where
  tracking_full rate_limit : Reason

-- What the handler does with a request: the answer 401, the answer 429 with its Retry-After, or
-- the call of the next handler.
pub data Outcome : Type 0 where
  unauthorized : Outcome
  too_many : (retry_after : ℕ) → Reason → Outcome
  passed : Outcome

-- `now.Before(window.resetAt)`.
abbrev pub is_live : ℕ → Window → Bool
is_live now w = ltb now w.reset_at

-- `window, exists` after an expired window is deleted, with the map.
pub record Found : Type 0 where
  pub window : Option Window
  pub map : GoMap Window

abbrev pub drop_expired : ℕ → Text → GoMap Window → Option Window → Found
drop_expired now p m none = record { window = none; map = m }
drop_expired now p m (some w) =
    if is_live now w
    then record { window = some w; map = m }
    else record { window = none; map = delete p m }

abbrev pub is_full : GoMap Window → Bool
is_full m = leb max_tracked_rate_principals (length m)

-- The sweep of all expired windows, when a new one finds the map full.
unfoldable pub sweep : ℕ → GoMap Window → GoMap Window
sweep now m = if is_full m then prune (is_live now) m else m

abbrev pub fresh_window : ℕ → Window
fresh_window now = record { count = 0; reset_at = now + minute }

-- `max(1, int((remaining+time.Second-1)/time.Second))`.
unfoldable pub retry_seconds : ℕ → Window → ℕ
retry_seconds now w = max 1 ((w.reset_at - now + second - 1) / second)

abbrev pub reject : Limiter → GoMap Window → ℕ → Reason → Limiter × Outcome
reject l m retry reason =
    (record l { windows = m; rejected = suc l.rejected }, too_many retry reason)

-- The test of the count, and the update of the window.
unfoldable pub count_request : Limiter → ℕ → Text → GoMap Window → Window → Limiter × Outcome
unfolding retry_seconds
count_request l now p m w =
    if leb l.limit w.count
    then reject l m (retry_seconds now w) rate_limit
    else (record l { windows = insert p (record w { count = suc w.count }) m }, passed)

abbrev pub admit : Limiter → ℕ → Text → Found → Limiter × Outcome
admit l now p f = elim (f.window) [
  | some w ↦ count_request l now p f.map w
  | none ↦
      if is_full (sweep now f.map)
      then reject l (sweep now f.map) 1 tracking_full
      else count_request l now p (sweep now f.map) (fresh_window now)
]

-- One request of the principal; the empty principal is none.
unfoldable pub handle : Limiter → ℕ → Text → Limiter × Outcome
unfolding count_request sweep
handle l now [] = (l, unauthorized)
handle l now (c ∷ p) =
    admit l now (c ∷ p) (drop_expired now (c ∷ p) l.windows (lookup (c ∷ p) l.windows))

abbrev pub is_passed : Outcome → Bool
is_passed passed = true
is_passed _ = false
