-- ===== src/HttpServer/Concurrency.antt =====
-- limitConcurrent and limitConcurrentPerPrincipal of go/internal/httpserver/server.go, and the
-- interleavings of the requests that pass through both.
pub mod Counting
pub mod Safety
use synthient_mcp.Prelude.{
  ℕ, suc, ◌+◌, ◌-◌, ◌≤◌, ◌<◌, List, [], ◌∷◌, ◌≡◌, ◌≢◌, Bool, true, false, Option, none, some, leb,
  ltb, ◌==◌, if◌then◌else◌,
}
use synthient_mcp.Text.{Text, text_eq}
use synthient_mcp.GoMap.{GoMap, lookup, insert, delete}

-- `inflight[principal]`: 0 for a key that is missing.
abbrev pub value_or_zero : Option ℕ → ℕ
value_or_zero none = 0
value_or_zero (some n) = n

unfoldable pub inflight_of : Text → GoMap ℕ → ℕ
unfolding lookup
inflight_of p m = value_or_zero (lookup p m)

-- What a limiter does with a request: 401, 429 or 503 with Retry-After 1, or the next handler.
pub data Verdict : Type 0 where
  unauthorized refused admitted : Verdict

-- The critical section of limitConcurrentPerPrincipal before the next handler is called.
unfoldable pub begin : ℕ → GoMap ℕ → Text → GoMap ℕ × Verdict
begin limit m [] = (m, unauthorized)
begin limit m (c ∷ p) =
    if leb limit (inflight_of (c ∷ p) m)
    then (m, refused)
    else (insert (c ∷ p) (suc (inflight_of (c ∷ p) m)) m, admitted)

-- The deferred critical section. It runs only after `begin` admitted the request, so the count that
-- it lowers is positive.
unfoldable pub finish : GoMap ℕ → Text → GoMap ℕ
finish m p =
    let left = inflight_of p m - 1 in
    if left == 0 then delete p (insert p left m) else insert p left m

-- The semaphore of limitConcurrent: the buffered channel holds `used` tokens of `limit`.
unfoldable pub acquire : ℕ → ℕ → ℕ × Verdict
acquire limit used = if ltb used limit then (suc used, admitted) else (used, refused)

unfoldable pub release : ℕ → ℕ
release used = used - 1

pub record Limits : Type 0 where
  pub total : ℕ
  pub per_principal : ℕ

-- The server between two critical sections: the tokens in the channel, the map, the requests that
-- hold a token and are outside the inner limiter, and the principals of those whose handler runs.
pub record Server : Type 0 where
  pub used : ℕ
  pub inflight : GoMap ℕ
  pub waiting : ℕ
  pub running : List Text

abbrev pub idle : Server
idle = record { used = 0; inflight = []; waiting = 0; running = [] }

unfoldable pub count : Text → List Text → ℕ
count p [] = 0
count p (q ∷ qs) = (if text_eq q p then 1 else 0) + count p qs

unfoldable pub remove : Text → List Text → List Text
remove p [] = []
remove p (q ∷ qs) = if text_eq q p then qs else q ∷ remove p qs

-- One critical section of one request. Between any two of a request, those of others may stand.
pub data Step (limits : Limits) (s : Server) (t : Server) : Type 0 where
  -- the outer limiter takes a token
  enter :
      (used : ℕ)
      → acquire limits.total s.used ≡ (used, admitted)
      → t ≡ record s { used = used; waiting = suc s.waiting }
      → Step limits s t
  -- the outer limiter answers 503
  turn_away : acquire limits.total s.used ≡ (s.used, refused) → t ≡ s → Step limits s t
  -- the inner limiter admits the request of a principal
  start :
      (p : Text) (m : GoMap ℕ)
      → 0 < s.waiting
      → begin limits.per_principal s.inflight p ≡ (m, admitted)
      → t ≡ record s { inflight = m; waiting = s.waiting - 1; running = p ∷ s.running }
      → Step limits s t
  -- the inner limiter answers 401 or 429; the request still holds its token
  deny :
      (p : Text) (m : GoMap ℕ) (v : Verdict)
      → v ≢ admitted
      → begin limits.per_principal s.inflight p ≡ (m, v)
      → t ≡ record s { inflight = m }
      → Step limits s t
  -- a handler returns, and the deferred section of the inner limiter runs
  stop :
      (p : Text)
      → 0 < count p s.running
      → t ≡ record s {
        inflight = finish s.inflight p;
        waiting = suc s.waiting;
        running = remove p s.running;
      }
      → Step limits s t
  -- a request returns its token
  leave :
      0 < s.waiting
      → t ≡ record s { used = release s.used; waiting = s.waiting - 1 }
      → Step limits s t

pub data Reach (limits : Limits) : Server → Type 0 where
  here : Reach limits idle
  next : {s t : Server} → Reach limits s → Step limits s t → Reach limits t
