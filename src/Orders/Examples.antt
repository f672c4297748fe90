-- ===== src/Orders/Examples.antt =====
-- The theorems about app/orders.py at concrete inputs.
use fcapsule_lab.Prelude.{
  ℕ, ◌≤◌, ◌<◌, String, length, ltb, Arg, ℤ, pos, Bool, true, refl, [], ◌∷◌, none, arith,
  if◌then◌else◌, false, ◌≡◌, ◌↔◌, false, some,
}
use fcapsule_lab.Json.{Json, Fields, get}
use fcapsule_lab.Orders.Store.{Table, max_idempotency_entries, make_room}
use fcapsule_lab.Orders.Store.Counts.{occurs, pending}
use fcapsule_lab.Orders.Store.Room.{Crowded, make_room-decides}
use fcapsule_lab.Orders.Checkout.{Config, Orders, normal, open_request, first_look, call_inventory}
use fcapsule_lab.Orders.Checkout.Attempts.{Tried, call_inventory-Tried}
use fcapsule_lab.Orders.Checkout.Flight.{
  Live, arrived, Site, site, looked, valid, arrive, look_first, start, next, owners,
}
use fcapsule_lab.Orders.Checkout.Flight.Single.{Reach-single_flight}
use fcapsule_lab.Prelude.Exec.{Result, ok}
use fcapsule_lab.Orders.Settings.{absent, set_mode, mode_of, validate_run_id, settings_values}
use fcapsule_lab.Orders.Settings.Lease.{Applied, set_mode-Applied}
use fcapsule_lab.Orders.Upstream.{success, Call, timed_out, response, attempt_result, Honours}
use fcapsule_lab.Orders.Upstream.Contract.{attempt_result-Honours}

abbrev reserved_answer : Call
reserved_answer =
    response 200 40 (some (Json.object (Fields.field "status" (Json.text "reserved") Fields.end)))

attempt_result-Honours_example :
    (((attempt_result "v1" reserved_answer).kind ≡ success) ↔ Honours "v1" reserved_answer)
    × (((attempt_result "v1" reserved_answer).status ≡ 200) ↔ Honours "v1" reserved_answer)
    × (Honours "v1" reserved_answer → (attempt_result "v1" reserved_answer).retryable ≡ false)
attempt_result-Honours_example = attempt_result-Honours "v1" reserved_answer

abbrev one_entry : Table
one_entry =
    ("k", record { fingerprint = "f"; created_at = 5; completed = none; injected = false }) ∷ []

make_room-decides_example :
    ((make_room one_entry).0 ≡ true → length (make_room one_entry).1 < max_idempotency_entries)
    × ((make_room one_entry).0 ≡ false → Crowded (make_room one_entry).1)
make_room-decides_example = make_room-decides one_entry

abbrev usual_config : Config
usual_config = record {
  inventory_url = "http://inventory-api:8081";
  timeout = 1500;
  max_attempts = 3;
  signing_key_id = "checkout-key-v1";
  expected_schema = "v1";
}

abbrev idle_orders : Orders
idle_orders = record {
  config = usual_config;
  mode = normal;
  fault_namespace = none;
  control_run_id = none;
  expires_at = 0;
  inflight = 0;
  requests = λ j. 0;
  checkout_errors = 0;
  inventory_attempts = 0;
  inventory_retries = 0;
  dependency_failures = [];
  idempotency_conflicts = 0;
  capacity_rejections = 0;
  idempotency_replays = 0;
  idempotency = [];
}

-- a timeout, then a good answer
abbrev slow_answers : ℕ → Call
slow_answers n = if ltb n 2 then timed_out else reserved_answer

call_inventory-Tried_example :
    Tried 3 1 "v1" slow_answers idle_orders (call_inventory usual_config slow_answers idle_orders)
call_inventory-Tried_example =
    call_inventory-Tried usual_config slow_answers idle_orders (omega arith)

abbrev one_request : Live
one_request = record {
  request_id = "r1";
  key = "k";
  fingerprint = "f";
  mode = normal;
  config = usual_config;
  deadline = 9000;
  phase = arrived;
}

abbrev one_arrived : Site
one_arrived = site (open_request idle_orders) (one_request ∷ [])

abbrev one_calling : Site
one_calling =
    looked [] one_request [] (first_look "k" "f" normal 100 9000 (open_request idle_orders))

Reach-single_flight_example :
    (one_calling.orders.inflight ≡ length one_calling.live)
    × ((k : String)
        → (occurs k one_calling.orders.idempotency ≤ 1)
          × (pending k one_calling.orders.idempotency ≡ owners k one_calling.live)
          × (owners k one_calling.live ≤ 1))
Reach-single_flight_example = Reach-single_flight idle_orders one_calling refl refl (
    next (next start (arrive idle_orders [] one_request valid))
      (look_first (open_request idle_orders) [] [] one_request 100 refl))

abbrev half_second : Json → Result ℕ
half_second v = ok 500

abbrev three : Json → Result ℤ
three v = ok (pos 3)

abbrev any_port : String → Bool
any_port url = true

unfoldable configured_orders : Orders
unfolding set_mode get mode_of validate_run_id settings_values
configured_orders =
    (set_mode half_second three any_port "http://inventory-api:8081/" "configured"
      (Json.number (pos 60)) absent Arg.null 7000 "f" idle_orders).1

set_mode-Applied_example :
    Applied half_second three any_port "http://inventory-api:8081/" 7000 idle_orders
      configured_orders
unfolding configured_orders
set_mode-Applied_example =
    set_mode-Applied half_second three any_port "http://inventory-api:8081/" "configured"
      (Json.number (pos 60)) absent Arg.null 7000 "f" idle_orders configured_orders refl
