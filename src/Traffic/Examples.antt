-- ===== src/Traffic/Examples.antt =====
-- The theorem about app/traffic.py at a concrete run.
use fcapsule_lab.Prelude.{refl, pos}
use fcapsule_lab.Traffic.{Traffic, new_traffic, claim_slot}
use fcapsule_lab.Traffic.Load.{Running, round, start, next, tick, IsSafe, Reach-IsSafe}

abbrev quiet : Traffic
quiet = record {
  configured_max_inflight = 40;
  max_inflight = 12;
  requests_200 = 0;
  requests_503 = 0;
  transport_errors = 0;
  inflight = 0;
  shed = 0;
}

abbrev at_start : Running
at_start = record { traffic = quiet; outstanding = 0; rounds = 0; lost = 0 }

Reach-IsSafe_example : IsSafe (round (claim_slot quiet) at_start)
unfolding new_traffic
Reach-IsSafe_example =
    Reach-IsSafe (pos 40) quiet (round (claim_slot quiet) at_start) refl
      (next start (tick at_start))
