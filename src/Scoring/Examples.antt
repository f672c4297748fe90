-- ===== src/Scoring/Examples.antt =====
-- The theorems about evaluation/scoring.py at concrete inputs.
use fcapsule_lab.Prelude.{◌≡◌, ◌≤◌, ◌↔◌, String, true, none, some, List, [], ◌∷◌}
use fcapsule_lab.Scoring.{
  RunRecord, Investigation, Alert, verified, diagnostic_attribution, pipeline_checks,
  pipeline_score, observability_score,
}
use fcapsule_lab.Scoring.Pipeline.{IsComplete, pipeline_score-full}
use fcapsule_lab.Scoring.Attribution.{has_accepted, diagnostic_attribution-verified}

abbrev good_run : RunRecord
good_run = record {
  scenario = "memory-leak";
  outcome = "captured";
  alert_observed = some true;
  acceptable_primary_alerts = [];
  expected_alert = some "MemoryHigh";
  observed_alerts = some "MemoryHigh" ∷ [];
  incident_id = some "i1";
  assessment_matches_incident = none;
  recovery_confirmed = true;
  recovery_restored = true;
  recovery_ok = true;
  owner_run_id = some "r1";
  owner = none;
  control = some (record { run_id = some "r1" });
  injection_attempted = none;
  captured_domains = "logs" ∷ [];
  logs = record { ok = some true; retained_lines = 4 } ∷ [];
}

abbrev good_investigation : Investigation
good_investigation = record {
  status = some "ready";
  primary_incident_id = some "i1";
  input_fingerprint = some "f";
}

abbrev two_domains : List String
two_domains = "logs" ∷ "metrics" ∷ []

pipeline_score-full_example :
    (pipeline_score (pipeline_checks two_domains good_run good_investigation) ≤ 100)
    × ((pipeline_score (pipeline_checks two_domains good_run good_investigation) ≡ 100)
        ↔ IsComplete good_run good_investigation)
    × (observability_score (pipeline_checks two_domains good_run good_investigation) ≤ 1000)
pipeline_score-full_example = pipeline_score-full two_domains good_run good_investigation

abbrev one_alert : Alert
one_alert = record {
  incident_id = some "i1";
  alert_identity = none;
  alertname = some "MemoryHigh";
  label_alertname = none;
}

diagnostic_attribution-verified_example :
    (diagnostic_attribution ("MemoryHigh" ∷ []) (some (one_alert ∷ [])) (some "i1") ≡ verified)
    ↔ (has_accepted ("MemoryHigh" ∷ []) "i1" (one_alert ∷ []) ≡ true)
diagnostic_attribution-verified_example =
    diagnostic_attribution-verified "MemoryHigh" [] one_alert [] "i1"
