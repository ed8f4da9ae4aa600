-- ===== src/HttpServer/Telemetry.antt =====
-- The counters of telemetry, of go/internal/httpserver/server.go: ObserveUpstream, the gauge of
-- observeRequests, and the atomic additions of many requests between each other.
pub mod Consistency
use synthient_mcp.Prelude.{
  ℕ, suc, ◌+◌, ◌-◌, ◌<◌, ◌≡◌, Bool, true, false, not, ◌&&◌, ltb, leb, ◌==◌, if◌then◌else◌,
}

pub record Counters : Type 0 where
  pub http_requests : ℕ
  pub http_inflight : ℕ
  pub upstream_requests : ℕ
  pub upstream_duration_nanos : ℕ
  pub success : ℕ
  pub client_errors : ℕ
  pub server_errors : ℕ
  pub transport : ℕ

abbrev pub no_counts : Counters
no_counts = record {
  http_requests = 0;
  http_inflight = 0;
  upstream_requests = 0;
  upstream_duration_nanos = 0;
  success = 0;
  client_errors = 0;
  server_errors = 0;
  transport = 0;
}

-- The switch of ObserveUpstream.
unfoldable pub count_outcome : ℕ → Counters → Counters
count_outcome status c =
    if status == 0
    then record c { transport = suc c.transport }
    else if leb 200 status && ltb status 300
    then record c { success = suc c.success }
    else if leb 400 status && ltb status 500
    then record c { client_errors = suc c.client_errors }
    else record c { server_errors = suc c.server_errors }

-- ObserveUpstream without a request between its additions.
unfoldable pub observe_upstream : ℕ → ℕ → Counters → Counters
unfolding count_outcome
observe_upstream status nanos c = count_outcome status (record c {
  upstream_requests = suc c.upstream_requests;
  upstream_duration_nanos = c.upstream_duration_nanos + nanos;
})

-- The counters, with the number of requests whose deferred subtraction is ahead, and of calls of
-- ObserveUpstream before the addition of the duration and before the switch.
pub record State : Type 0 where
  pub counters : Counters
  pub entered : ℕ
  pub untimed : ℕ
  pub unsorted : ℕ

abbrev pub at_start : State
at_start = record { counters = no_counts; entered = 0; untimed = 0; unsorted = 0 }

-- One atomic addition of one request.
pub data Step (s : State) : State → Type 0 where
  arrive :
      Step s
        (record s { counters = record s.counters { http_requests = suc s.counters.http_requests } })
  enter : Step s (record s {
    counters = record s.counters { http_inflight = suc s.counters.http_inflight };
    entered = suc s.entered;
  })
  leave :
      0 < s.entered
      → Step s (record s {
        counters = record s.counters { http_inflight = s.counters.http_inflight - 1 };
        entered = s.entered - 1;
      })
  observe : Step s (record s {
    counters = record s.counters { upstream_requests = suc s.counters.upstream_requests };
    untimed = suc s.untimed;
  })
  time :
      (nanos : ℕ)
      → 0 < s.untimed
      → Step s (record s {
        counters = record s.counters {
          upstream_duration_nanos = s.counters.upstream_duration_nanos + nanos;
        };
        untimed = s.untimed - 1;
        unsorted = suc s.unsorted;
      })
  sort :
      (status : ℕ)
      → 0 < s.unsorted
      → Step s (record s { counters = count_outcome status s.counters; unsorted = s.unsorted - 1 })

pub data Reach : State → Type 0 where
  here : Reach at_start
  next : {s t : State} → Reach s → Step s t → Reach t
