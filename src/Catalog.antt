-- ===== src/Catalog.antt =====
-- app/scenario_catalog.py: the incidents that the controller can start. Of each entry the fields that
-- the controller reads are kept; titles, summaries and alert names are left out.
use fcapsule_lab.Prelude.{
  String, Bool, true, false, Option, none, some, List, [], ◌∷◌, Dict, update,
}

pub data Target : Type 0 where
  database worker inventory orders cnfc_edge : Target

pub record Action : Type 0 where
  pub target : Target
  pub mode : String

pub record Scenario : Type 0 where
  pub actions : Option (List Action)
  pub config : Option (Dict String)
  pub service_metrics_label : Option String
  pub scrape_path : Option String
  pub runner_only : Bool

abbrev pub default_scenario_config : Dict String
default_scenario_config =
    ("INVENTORY_URL", "http://inventory-api:8081")
    ∷ ("INVENTORY_TIMEOUT_SECONDS", "1.5")
    ∷ ("MAX_RETRIES", "3")
    ∷ ("ORDER_SIGNING_KEY_ID", "checkout-key-v1")
    ∷ ("INVENTORY_ACCEPTED_KEY_ID", "checkout-key-v1")
    ∷ ("ORDER_EXPECTED_SCHEMA", "v1")
    ∷ ("INVENTORY_RESPONSE_SCHEMA", "v1")
    ∷ ("INVENTORY_QUERY_REVISION", "v1")
    ∷ []

abbrev pub action : Target → String → Action
action t m = record { target = t; mode = m }

abbrev plain : List Action → Scenario
plain l = record {
  actions = some l;
  config = none;
  service_metrics_label = none;
  scrape_path = none;
  runner_only = false;
}

abbrev configured : String → String → List Action → Scenario
configured k v l = record (plain l) { config = some ((k, v) ∷ []) }

unfoldable pub scenarios : Dict Scenario
scenarios =
    ("poison-job", plain (action database "poison" ∷ []))
    ∷ ("response-contract", plain (action inventory "response-contract" ∷ []))
    ∷ ("reservation-token-collision", plain (action inventory "token-collision" ∷ []))
    ∷ ("transaction-deadlock", plain (action inventory "deadlock" ∷ []))
    ∷ ("idempotency-conflict", plain (action orders "idempotency-conflict" ∷ []))
    ∷ ("memory-leak", plain (action worker "memory-leak" ∷ []))
    ∷ ("cpu-saturation", plain (action worker "cpu-saturation" ∷ []))
    ∷ ("mysql-connections", plain (action inventory "connection-saturation" ∷ []))
    ∷ ("lock-contention", plain (action inventory "lock-contention" ∷ []))
    ∷ ("downstream-latency", plain (action inventory "downstream-latency" ∷ []))
    ∷ (
      "schema-drift",
      configured "INVENTORY_QUERY_REVISION" "v2" (action inventory "configured" ∷ []),
    )
    ∷ (
      "dependency-route",
      configured "INVENTORY_URL" "http://inventory-api:8099" (action orders "configured" ∷ []),
    )
    ∷ (
      "timeout-budget",
      configured "INVENTORY_TIMEOUT_SECONDS" "0.05"
          (action inventory "fixed-latency" ∷ action orders "configured" ∷ []),
    )
    ∷ (
      "signing-key-skew",
      configured "INVENTORY_ACCEPTED_KEY_ID" "checkout-key-v2"
          (action inventory "configured" ∷ action orders "configured" ∷ []),
    )
    ∷ (
      "response-schema-skew",
      configured "ORDER_EXPECTED_SCHEMA" "v2"
          (action inventory "configured" ∷ action orders "configured" ∷ []),
    )
    ∷ []

unfoldable pub discovery_scenarios : Dict Scenario
discovery_scenarios =
    (
      "metrics-service-label-drift",
      record {
        actions = none;
        config = none;
        service_metrics_label = some "ture";
        scrape_path = none;
        runner_only = false;
      },
    )
    ∷ (
      "mysql-exporter-scrape-path",
      record {
        actions = none;
        config = none;
        service_metrics_label = none;
        scrape_path = none;
        runner_only = true;
      },
    )
    ∷ []

unfoldable pub operator_scenarios : Dict Scenario
operator_scenarios =
    (
      "exporter-path-rollback",
      record {
        actions = none;
        config = none;
        service_metrics_label = none;
        scrape_path = some "/metrics-v2";
        runner_only = false;
      },
    )
    ∷ ("cnfc-route-drift", plain (action cnfc_edge "route-drift" ∷ []))
    ∷ []

-- {**SCENARIOS, **DISCOVERY_SCENARIOS, **OPERATOR_SCENARIOS}
unfoldable pub catalog : Dict Scenario
unfolding scenarios discovery_scenarios operator_scenarios update
catalog = update (update scenarios discovery_scenarios) operator_scenarios
