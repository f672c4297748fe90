-- ===== src/Control/Start.antt =====
-- app/control.py: start and _start. The library's cases are named by a test on their IDs, since a
-- library case is posted by its ID alone.
pub mod Frame
pub mod Admission
use fcapsule_lab.Prelude.{
  ℕ, ◌+◌, ◌*◌, String, Bool, true, false, not, ◌&&◌, ◌||◌, Option, none, some, List, [], ◌∷◌, ◌++◌,
  map, str_eq, ltb, if◌then◌else◌, Dict, find, put, update, is_some, member, Arg, ℤ, is_run_id,
}
use fcapsule_lab.Prelude
use fcapsule_lab.Prelude.Exec.{
  Exc, value_error, key_error, Result, ok, err, and_then, pure, raise, lift, gets, catch, ◌>>=◌,
  ◌>>◌,
}
use fcapsule_lab.Kube.{
  Endpoint, Value, text, endpoints, Doc, Object, in_labels, in_data, in_spec, truthy,
}
use fcapsule_lab.Safety.{Memory, lease_seconds}
use fcapsule_lab.Catalog.{
  Target, database, worker, inventory, orders, cnfc_edge, Action, Scenario, catalog,
}
use fcapsule_lab.Control.State.{
  Run, Status, starting, running, recovering, Controller, Resource, scenario_config,
  metrics_service, monitor, Service, worker_api, inventory_api, orders_api, edge_api, library_api,
  Request, Outside, Sys, Act, observe, effect, change,
}
use fcapsule_lab.Control.Journal.{external_probe_owner, present}
use fcapsule_lab.Control.Claims.{
  default_settings, persisted_run, update_run, claim_run, claim_fields, persist_job_id,
  post_for_run,
}
use fcapsule_lab.Control.Recover.{Outcome, transport_or_value, recover}

-- `not scenario.get("actions")`
abbrev no_actions : Option (List Action) → Bool
no_actions none = true
no_actions (some []) = true
no_actions (some l) = false

needs_runner : Scenario → Bool
needs_runner s =
    s.runner_only
    || (no_actions s.actions
        && not (is_some s.service_metrics_label)
        && not (is_some s.scrape_path))

target_name : Target → String
target_name database = "database"
target_name worker = "worker"
target_name inventory = "inventory"
target_name orders = "orders"
target_name cnfc_edge = "cnfc-edge"

-- list(dict.fromkeys(l))
unfoldable pub distinct : List String → List String → List String
distinct seen [] = []
distinct seen (x ∷ l) =
    let rest = distinct (x ∷ seen) l in
    let skipped = distinct seen l in if member x seen then skipped else x ∷ rest

abbrev actions_of : Option (List Action) → List Action
actions_of none = []
actions_of (some l) = l

-- The parts of the Lab that a scenario may change.
unfoldable pub targets_of : Scenario → List String
unfolding target_name distinct
targets_of s = distinct [] (
    map (λ a. target_name a.target) (actions_of s.actions)
    ++ (if is_some s.service_metrics_label then "metrics-service" ∷ [] else [])
    ++ (if is_some s.scrape_path then "exporter-monitor" ∷ [] else []))

valid_request : Arg → Result (Option String)
valid_request Arg.null = ok none
valid_request (Arg.text id) =
    if is_run_id id
    then ok (some id)
    else err (value_error "request_id must be a 32-character lowercase hexadecimal ID")
valid_request Arg.other =
    err (value_error "request_id must be a 32-character lowercase hexadecimal ID")

-- What start decides from its arguments alone.
pub record Order : Type 0 where
  pub duration : ℕ
  pub scenario : Option Scenario
  pub request : Option String

-- `library` says whether the ID names a library case.
unfoldable pub valid_order : Bool → String → ℤ → Arg → Result Order
unfolding needs_runner valid_request
valid_order library id value request = and_then (lease_seconds value) λ duration.
    and_then (known (find id catalog)) λ scenario.
      and_then (valid_request request)
        λ request'. ok (record { duration = duration; scenario = scenario; request = request' })
  where
    known : Option Scenario → Result (Option Scenario)
    known none = if library then ok none else err (value_error "Unknown scenario")
    known (some s) =
        if needs_runner s
        then err (value_error "This scenario requires its guarded external runner")
        else ok (some s)

abbrev pub gibibyte : ℕ
gibibyte = 1024 * 1024 * 1024

abbrev order_targets : Bool → Option Scenario → List String
order_targets true s = "library" ∷ []
order_targets false none = []
order_targets false (some s) = targets_of s

abbrev chosen : Option String → String → String
chosen none fresh = fresh
chosen (some id) fresh = id

unfoldable pub new_run : String → Order → Bool → Memory → String → ℕ → Run
new_run id order library memory fresh now = record {
  run_id = chosen order.request fresh;
  scenario = some id;
  duration = some order.duration;
  status = starting;
  expires_at = now + order.duration * 1000;
  minimum_available = some memory.available_bytes;
  targets = order_targets library order.scenario;
  baseline = none;
  claim_acquired = none;
  job_id = none;
  reason = none;
  finished_at = none;
}

abbrev pub entries : Option Value → List Endpoint
entries (some (endpoints l)) = l
entries v = []

abbrev pub metrics_path : Option String → Bool
metrics_path none = true
metrics_path (some p) = str_eq p "/metrics"

module _ (o : Outside) where
  unfoldable pub guard : Bool → String → Act o (Unit {0})
  guard b t = if b then pure tt else raise (value_error t)

  -- the run that self.active holds; its methods run only with one
  unfoldable pub active_run : Option Run → Act o Run
  active_run none = raise Exc.type_error
  active_run (some run) = pure run

  unfoldable pub the_run : Act o Run
  the_run = do active ← gets (λ s. s.own.active); active_run active

  unfoldable pub endpoint_service : Target → Service
  endpoint_service worker = worker_api
  endpoint_service orders = orders_api
  endpoint_service cnfc_edge = edge_api
  endpoint_service t = inventory_api

  unfoldable pub note_job : Run → Option ℕ → Act o (Unit {0})
  note_job run none = pure tt
  note_job run (some job) = do
    update_run o (λ r. record r { job_id = some job })
    persist_job_id o run.run_id job

  unfoldable pub queue_job : Act o (Unit {0})
  queue_job = do run ← the_run; job ← effect o (o.insert_job run.run_id); note_job run job

  unfoldable pub post_action : ℕ → Doc → Action → Act o (Unit {0})
  post_action duration config a = do
    run ← the_run
    post_for_run o (endpoint_service a.target)
        (record { mode = a.mode; duration = some duration; settings = some config }) run.run_id

  unfoldable pub do_action : ℕ → Doc → Target → Action → Act o (Unit {0})
  do_action duration config database a = queue_job
  do_action duration config t a = post_action duration config a

  unfoldable pub do_actions : ℕ → Doc → List Action → Act o (Unit {0})
  do_actions duration config [] = pure tt
  do_actions duration config (a ∷ rest) = do
    do_action duration config a.target a
    do_actions duration config rest

  -- The scrape path of the one endpoint of the ServiceMonitor.
  unfoldable pub change_path : String → List Endpoint → Act o (Unit {0})
  change_path path (e ∷ []) =
      claim_fields o monitor in_spec
        (("endpoints", endpoints (record e { path = some path } ∷ [])) ∷ [])
  change_path path l =
      raise (value_error "Expected one healthy exporter endpoint at /metrics; no change applied")

  unfoldable pub probe_owned : Option Object → Bool
  probe_owned none = false
  probe_owned (some x) = truthy (find external_probe_owner x.annotations)

  unfoldable pub spec_entries : Option Object → List Endpoint
  spec_entries none = []
  spec_entries (some x) = entries (find "endpoints" x.spec)

  unfoldable pub one_healthy : List Endpoint → Bool
  one_healthy (e ∷ []) = metrics_path e.path
  one_healthy l = false

  unfoldable pub start_scrape : String → Act o (Unit {0})
  start_scrape path = do
    current ← observe o (o.get monitor)
    guard (one_healthy (spec_entries current))
        "Expected one healthy exporter endpoint at /metrics; no change applied"
    guard (not (probe_owned current)) "The external screenshot runner owns this monitor"
    change_path path (spec_entries current)

  unfoldable pub start_label : String → Act o (Unit {0})
  start_label label =
      claim_fields o metrics_service in_labels (("fcapsule.io/app-metrics", text label) ∷ [])

  -- for action in scenario["actions"]
  unfoldable pub listed_actions : ℕ → Doc → Option (List Action) → Act o (Unit {0})
  listed_actions duration config none = raise (key_error "actions")
  listed_actions duration config (some l) = do_actions duration config l

  unfoldable pub start_changes :
      ℕ → Doc → Scenario → Option String → Option String → Act o (Unit {0})
  start_changes duration config s (some path) label = start_scrape path
  start_changes duration config s none (some label) = start_label label
  start_changes duration config s none none = listed_actions duration config s.actions

  unfoldable pub as_text : Dict String → Dict Value
  as_text [] = []
  as_text ((k, v) ∷ d) = (k, text v) ∷ as_text d

  unfoldable pub start_config : Option (Dict String) → Act o (Unit {0})
  start_config none = pure tt
  start_config (some d) = claim_fields o scenario_config in_data (as_text d)

  unfoldable pub settings_of : Option Doc → Doc
  settings_of none = default_settings
  settings_of (some d) = d

  unfoldable pub overrides : Option (Dict String) → Doc
  overrides none = []
  overrides (some d) = present (as_text d)

  unfoldable pub start_scenario : ℕ → Option Scenario → Act o (Unit {0})
  start_scenario duration none = raise (value_error "Unknown scenario")
  start_scenario duration (some s) = do
    guard (not s.runner_only) "This scenario requires its guarded external runner"
    run ← the_run
    start_config s.config
    start_changes duration (update (settings_of run.baseline) (overrides s.config)) s s.scrape_path
        s.service_metrics_label

  -- _start
  unfoldable pub start_work : Bool → String → Order → Act o (Unit {0})
  start_work true id order = do
    run ← the_run
    post_for_run o library_api
        (record { mode = id; duration = some order.duration; settings = none }) run.run_id
  start_work false id order = start_scenario order.duration order.scenario

  unfoldable pub healthy : o.World → Bool
  healthy w = o.reachable worker_api w && o.reachable inventory_api w && o.reachable orders_api w

  unfoldable pub check_idle : Act o (Unit {0})
  check_idle = do
    active ← gets (λ s. s.own.active)
    guard (not (is_some active))
        "A run is already active or recovering; recover it before starting another"

  unfoldable pub measure_host : Act o Memory
  measure_host = do
    memory ← observe o o.memory
    change o (λ c. record c { memory = some memory })
    guard memory.node_identity_verified "Start blocked: node-specific memory source is not verified"
    guard (not (ltb memory.available_bytes gibibyte))
        "Start blocked: node MemAvailable is below 1 GiB"
    pure memory

  unfoldable pub check_services : Bool → Act o (Unit {0})
  check_services library = do
    up ← gets (λ s. healthy s.world)
    guard up "Start blocked: wait until worker, inventory and orders are healthy"
    library_up ← gets (λ s. o.reachable library_api s.world)
    guard (not library || library_up) "Start blocked: incident library workload is unavailable"

  unfoldable pub check_journal : Act o (Unit {0})
  check_journal = do
    persisted ← observe o (persisted_run o)
    guard (not (is_some persisted)) "A persisted Lab intervention needs recovery before another run"

  -- The checks that start makes with the lock held, before it changes anything but `memory`.
  unfoldable pub admit : Bool → Act o Memory
  admit library = do
    check_idle
    memory ← measure_host
    check_services library
    check_journal
    pure memory

  abbrev pub same_run : String → Option Run → Bool
  same_run id none = false
  same_run id (some run) = str_eq run.run_id id

  abbrev pub acquired : Option Run → Bool
  acquired (some run) = elim run.claim_acquired [ some true ↦ true | _ ↦ false ]
  acquired none = false

  -- Was the claim persisted? A failed answer may follow a patch that took effect.
  unfoldable pub check_claim : String → Act o Bool
  check_claim id =
      catch transport_or_value (do found ← observe o (persisted_run o); pure (same_run id found))
        λ e. pure false

  -- `claimed` is set right before `run["claim_acquired"]`, so it is read off that key.
  unfoldable pub was_claimed : String → Act o Bool
  was_claimed id = do
    active ← gets (λ s. s.own.active)
    if acquired active then pure true else check_claim id

  unfoldable pub undo_start : String → Bool → Act o (Unit {0})
  undo_start id true = do
    update_run o (λ r. record r { status = recovering; claim_acquired = some true })
    recover o "start_failed" (some id)
    pure tt
  undo_start id false = change o (λ c. record c { active = none })

  abbrev pub any_exception : Exc → Bool
  any_exception e = true

  unfoldable pub launch : Bool → String → Order → Run → Act o (Unit {0})
  launch library id order run =
      catch any_exception
        (do
          claim_run o run
          update_run o (λ r. record r { claim_acquired = some true })
          start_work library id order)
        λ e. do claimed ← was_claimed run.run_id; undo_start run.run_id claimed; raise e

  unfoldable pub begin : Bool → String → Order → Memory → Act o (Unit {0})
  begin library id order memory = do
    fresh ← gets (λ s. o.fresh_id s.world)
    now ← gets (λ s. o.time s.world)
    change o (λ c. record c { active = some (new_run id order library memory fresh now) })
    launch library id order (new_run id order library memory fresh now)
    update_run o (λ r. record r { status = running })

  -- start
  unfoldable pub start : Bool → String → ℤ → Arg → Act o (Unit {0})
  start library id value request = do
    order ← lift (valid_order library id value request)
    memory ← admit library
    begin library id order memory
