-- ===== src/Examples/Limits.antt =====
-- Runs and instances for HttpServer.Rate and HttpServer.Concurrency.
use synthient_mcp.Prelude.{◌+◌, ◌*◌, ◌≤◌, [], ◌∷◌, ◌≡◌, refl, arith, cons-ne-nil}
use synthient_mcp.Text.{Text, codes, text_eq}
use synthient_mcp.GoMap.{lookup, insert, delete}
use synthient_mcp.HttpServer.Rate.{Limiter, too_many, rate_limit, passed, handle, second, minute}
use synthient_mcp.HttpServer.Rate.Invariant.{IsValid, handle-IsValid}
use synthient_mcp.HttpServer.Rate.Retry.{handle_retry}
use synthient_mcp.HttpServer.Rate.Budget.{passes, passes_always-le, Arrivals}
use synthient_mcp.HttpServer.Rate.Steps.{IsDead}
use synthient_mcp.HttpServer.Concurrency.{
  Limits, Server, idle, count, acquire, begin, enter, start, stop, leave, Reach, here, next, finish,
  remove, release, inflight_of,
}
use synthient_mcp.HttpServer.Concurrency.Safety.{Reach-bounded, Reach-drained}

runs : Unit {0}
unfolding handle passes lookup insert delete text_eq acquire begin inflight_of finish remove release
    count
runs = tt

abbrev ann : Text
ann = codes "api-key:ann"

abbrev bob : Text
bob = codes "api-key:bob"

abbrev limiter : Limiter
limiter = record { limit = 2; windows = []; rejected = 0 }

limiter-IsValid : IsValid 5 limiter
limiter-IsValid = record {
  positive = omega arith;
  map = record { unique = tt; bounded = omega arith; sound = tt };
}

-- One request is counted; the second of two is the last that passes.
abbrev busy : Limiter
busy = record limiter { windows = (ann, record { count = 2; reset_at = 5 + minute }) ∷ [] }

busy-IsValid : IsValid 5 busy
busy-IsValid = record {
  positive = omega arith;
  map = record {
    unique = (unfold lookup in refl, tt);
    bounded = omega arith;
    sound = ((omega arith, omega arith, omega arith), tt);
  };
}

handle-IsValid_example : IsValid 9 (handle busy 9 bob).0
handle-IsValid_example = handle-IsValid busy 5 9 bob (omega arith) busy-IsValid

abbrev refused_once : Limiter
refused_once = record busy { rejected = 1 }

busy_refuses : handle busy (5 + second) ann ≡ (refused_once, too_many 59 rate_limit)
unfolding runs
busy_refuses = refl

handle_retry_example :
    (1 ≤ 59) × (59 ≤ 60) × ((handle refused_once (5 + 60 * second) ann).1 ≡ passed)
handle_retry_example =
    handle_retry busy refused_once 5 (5 + second) (5 + 60 * second) ann 59 (omega arith)
      busy-IsValid busy_refuses (omega arith)

abbrev burst : Arrivals
burst = (6, ann) ∷ (7, bob) ∷ (8, ann) ∷ (9, ann) ∷ []

burst-passes : passes ann limiter burst ≡ 2
unfolding runs
burst-passes = refl

no_window : IsDead 5 (lookup ann [])
unfolding lookup
no_window w e = absurd (cc)

passes_always-le_example : passes ann busy burst ≤ 2 * 2
passes_always-le_example =
    passes_always-le ann burst busy 5 10 (cons-ne-nil _ _) busy-IsValid (omega arith) (omega arith)

abbrev limits : Limits
limits = record { total = 8; per_principal = 2 }

abbrev one_running : Server
one_running = record { used = 1; inflight = (ann, 1) ∷ []; waiting = 0; running = ann ∷ [] }

one_running-Reach : Reach limits one_running
unfolding runs
one_running-Reach =
    next (next here (enter 1 refl refl)) (start ann ((ann, 1) ∷ []) (omega arith) refl refl)

Reach-bounded_example : (1 ≤ 8) × (1 ≤ 1) × (count ann (ann ∷ []) ≤ 2)
Reach-bounded_example = Reach-bounded limits one_running ann one_running-Reach

-- The request ends and gives its token back.
abbrev done : Server
done = record { used = 0; inflight = []; waiting = 0; running = [] }

abbrev stopped : Server
stopped = record { used = 1; inflight = []; waiting = 1; running = [] }

done-Reach : Reach limits done
unfolding runs
done-Reach =
    next {s = stopped} (next one_running-Reach (stop ann (omega arith) refl))
      (leave (omega arith) refl)

Reach-drained_example : done ≡ idle
Reach-drained_example = Reach-drained limits done done-Reach refl refl
