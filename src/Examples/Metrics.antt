-- ===== src/Examples/Metrics.antt =====
-- Runs and instances for HttpServer.Recorder and HttpServer.Telemetry.
use synthient_mcp.Prelude.{◌+◌, [], ◌∷◌, List, ◌≡◌, refl, true, some}
use synthient_mcp.Text.{codes}
use synthient_mcp.HttpServer.Recorder.{
  Use, header, body, flushed, fresh_recorder, fresh_writer, final_status, use_all, use_plain,
}
use synthient_mcp.HttpServer.Recorder.Fidelity.{IsFaithful, use_all-final_status}
use synthient_mcp.HttpServer.Telemetry.{State, at_start, Reach, here, observe_upstream}
use synthient_mcp.HttpServer.Telemetry.Consistency.{
  outcomes, Reach-consistent, observe_upstream-Reach,
}

abbrev twice : List Use
twice = header 404 ∷ flushed ∷ body (codes "x") ∷ header 500 ∷ []

recorded : use_all fresh_recorder twice ≡ record {
  writer = record { informed = []; sent = some 404; body = codes "x"; superfluous = 0 };
  status = 404;
  wrote_header = true;
}
unfolding use_all
recorded = refl

-- A status behind an informational one never reaches the client, who gets 200, and the log has 103.
abbrev hinted : List Use
hinted = header 103 ∷ header 404 ∷ []

lost :
    ((use_all fresh_recorder hinted).status ≡ 103)
    × (final_status (use_all fresh_recorder hinted).writer ≡ 200)
    × (final_status (use_plain fresh_writer hinted) ≡ 404)
unfolding use_all use_plain
lost = (refl, refl, refl)

use_all-final_status_example :
    IsFaithful (use_all fresh_recorder twice) (use_plain fresh_writer twice)
use_all-final_status_example = use_all-final_status twice refl

abbrev observed : State
observed = record at_start { counters = observe_upstream 404 7 at_start.counters }

observed-Reach : Reach observed
observed-Reach = observe_upstream-Reach 404 7 at_start here

Reach-consistent_example :
    (observed.counters.http_inflight ≡ observed.entered)
    × (observed.counters.upstream_requests
        ≡ outcomes observed.counters + (observed.untimed + observed.unsorted))
Reach-consistent_example = Reach-consistent observed observed-Reach
