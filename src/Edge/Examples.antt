-- ===== src/Edge/Examples.antt =====
-- The theorem about app/cnfc_edge.py at a concrete run.
use fcapsule_lab.Prelude.{◌≡◌, refl, String, none, List, [], ◌∷◌, Arg, pos, ltb, if◌then◌else◌}
use fcapsule_lab.Edge.{Edge, Health, answered, probe}
use fcapsule_lab.Edge.Route.{Call, change_mode, check, run_calls, probe-route}

abbrev good : String
good = "http://inventory-api:8081"

abbrev bad : String
bad = "http://inventory-api:8099"

abbrev quiet_edge : Edge
quiet_edge = record {
  baseline_url = good;
  fault_url = bad;
  url = good;
  run_id = none;
  expires_at = 0;
  success = 0;
  failure = 0;
}

abbrev healthy : String → Health
healthy url = answered 200

abbrev one_drift : List Call
one_drift = change_mode "route-drift" (pos 60) Arg.null 1000 ∷ check 2000 healthy ∷ []

probe-route_example :
    (probe 90000 healthy (run_calls one_drift quiet_edge)).0
    ≡ (if ltb 90000 (run_calls one_drift quiet_edge).expires_at then bad else good)
probe-route_example =
    probe-route good bad one_drift quiet_edge 90000 healthy
      (record { same_baseline = refl; same_fault = refl; route = refl })
