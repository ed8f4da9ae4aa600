-- ===== src/HttpServer/Telemetry/Consistency.antt =====
-- What a reader of the metrics can rely on.
use synthient_mcp.Prelude.{ℕ, suc, ◌+◌, ◌-◌, ◌≡◌, refl, ◌∙◌, ap, subst, arith}
use synthient_mcp.HttpServer.Telemetry.{
  Counters, count_outcome, observe_upstream, State, Step, arrive, enter, leave, observe, time, sort,
  Reach, here, next,
}

abbrev pub outcomes : Counters → ℕ
outcomes c = c.success + c.client_errors + c.server_errors + c.transport

outcomes-count_outcome :
    (status : ℕ) (c : Counters) → outcomes (count_outcome status c) ≡ suc (outcomes c)
unfolding count_outcome
outcomes-count_outcome status c = ground arith

kept-count_outcome :
    (status : ℕ) (c : Counters)
    → ((count_outcome status c).upstream_requests ≡ c.upstream_requests)
      × ((count_outcome status c).http_inflight ≡ c.http_inflight)
unfolding count_outcome
kept-count_outcome status c = (ground arith, ground arith)

record IsConsistent (s : State) : Type 0 where
  gauge : s.counters.http_inflight ≡ s.entered
  total : s.counters.upstream_requests ≡ outcomes s.counters + (s.untimed + s.unsorted)

Step-IsConsistent : {s t : State} → Step s t → IsConsistent s → IsConsistent t
Step-IsConsistent arrive i = record { gauge = i.gauge; total = i.total }
Step-IsConsistent enter i = record { gauge = ap suc i.gauge; total = i.total }
Step-IsConsistent (leave some_open) i = record { gauge = omega (arith, i.gauge); total = i.total }
Step-IsConsistent (observe) i = record { gauge = i.gauge; total = omega (arith, i.total) }
Step-IsConsistent (time nanos h) i = record { gauge = i.gauge; total = omega (arith, i.total, h) }
Step-IsConsistent {s} (sort status h) i = record {
  gauge = (kept-count_outcome status s.counters).1 ∙ i.gauge;
  total = omega (
    arith,
    (kept-count_outcome status s.counters).0,
    outcomes-count_outcome status s.counters,
    i.total,
    h,
  );
}

Reach-IsConsistent : {s : State} → Reach s → IsConsistent s
Reach-IsConsistent here = record { gauge = refl; total = refl }
Reach-IsConsistent (next r step) = Step-IsConsistent step (Reach-IsConsistent r)

-- In every interleaving of the atomic additions, a reader finds the gauge of requests in flight to
-- be the number of requests that entered and did not return, and the outcomes of upstream calls to
-- add up to their number less the calls of ObserveUpstream that are under way.
pub Reach-consistent :
    (s : State)
    → Reach s
    → (s.counters.http_inflight ≡ s.entered)
      × (s.counters.upstream_requests ≡ outcomes s.counters + (s.untimed + s.unsorted))
Reach-consistent s r = let i = Reach-IsConsistent r in (i.gauge, i.total)

-- ObserveUpstream is three of these additions, so what it leaves is reached as well, with no call
-- more under way than before.
pub observe_upstream-Reach :
    (status nanos : ℕ) (s : State)
    → Reach s
    → Reach (record s { counters = observe_upstream status nanos s.counters })
unfolding observe_upstream
observe_upstream-Reach status nanos s r =
    let over = observe_upstream status nanos s.counters in
    let raw = next (next (next r observe) (time nanos (omega arith))) (sort status (omega arith)) in
    let untimed_back : suc s.untimed - 1 ≡ s.untimed = omega arith in
    let unsorted_back : suc s.unsorted - 1 ≡ s.unsorted = omega arith in
    let half =
      subst
        (λ k. Reach (record {
          counters = over;
          entered = s.entered;
          untimed = k;
          unsorted = suc s.unsorted - 1;
        }))
        untimed_back raw in
    subst (λ k. Reach (record s { counters = over; unsorted = k })) unsorted_back half
