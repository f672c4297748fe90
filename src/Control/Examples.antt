-- ===== src/Control/Examples.antt =====
-- A small world for app/control.py, and the theorems about the controller at concrete inputs.
use fcapsule_lab.Prelude.{
  ◌≡◌, inl, refl, String, true, false, Option, none, some, List, [], ◌∷◌, arith, Arg, pos, eq_iff,
  if◌then◌else◌, Dict,
}
use fcapsule_lab.Prelude.Exec.{Exc, Result, ok, err}
use fcapsule_lab.Kube.{Value, text, Doc, plain, Object, Patch, in_data}
use fcapsule_lab.Safety.{Memory}
use fcapsule_lab.Control.State.{Run, recovering, running, Resource, scenario_config, Outside, Sys}
use fcapsule_lab.Control.Journal.{control_owner}
use fcapsule_lab.Control.Journal.RoundTrip.{ReadsDoc, back}
use fcapsule_lab.Control.Journal.Undo.{restore-claim, restore-unedited, journal_key}
use fcapsule_lab.Control.Claims.Restart.{
  persisted_run-claim, clear_patch-claim, read_back, control_key,
}
use fcapsule_lab.Control.Recover.{Outcome}
use fcapsule_lab.Control.Recover.Ending.{recover-foreign}
use fcapsule_lab.Control.Start.Admission.{IsAdmissible, start-IsAdmissible, start-busy}
use fcapsule_lab.Control.Watchdog.Rounds.{
  time_over, measured, mistaken, watch-quiet, watch-recovers, watch-mistaken,
}
use fcapsule_lab.Control.History.{
  run_events, IsTidy, Event, start_call, recover_call, watch_call, elsewhere, run_events-IsTidy,
}
use fcapsule_lab.Control.Start.{
  distinct, targets_of, valid_order, new_run, guard, active_run, the_run, endpoint_service,
  note_job, queue_job, post_action, do_action, do_actions, change_path, probe_owned, spec_entries,
  one_healthy, start_scrape, start_label, listed_actions, start_changes, as_text, start_config,
  overrides, start_scenario, start_work, healthy, check_idle, measure_host, check_services,
  check_journal, admit, check_claim, was_claimed, undo_start, launch, begin, start,
}
use fcapsule_lab.Control.Recover.{
  transport_or_value, mysql, step, step_if, restore_resources, restore_services, clear_journal,
  conclude, recover_run, recover_claimed, recover_active, load_active, unreadable, attempt_load,
  after_load, recover_owned, id_of, current_owner, recover_if, recover,
}
use fcapsule_lab.Control.Claims.{
  current_settings, default_settings, claim_run_patch, clear_patch, job_patch, read_job, read_run,
  owner_text, read_journal, persisted_run, set_active, update_run, claim_run, claim_fields,
  restore_owned_fields, clear_run_claim, persist_job_id, post_for_run,
}
use fcapsule_lab.Control.Journal.{
  record_updates, kept, claim_patch, restored_fields, loads_or_empty, restore_patch,
}
use fcapsule_lab.Control.State.{new, observe, effect, change}
use fcapsule_lab.Control.Watchdog.{
  caught, reason_to_recover, lower_minimum, adopt, inspect, recover_for, round, recover_blind,
  watch,
}
use fcapsule_lab.Kube.{section_of, lookup, loads, truthy, is_owner, same}
use fcapsule_lab.Kube.Merge.{assign, merge, over, revise, merged}
use fcapsule_lab.Safety.{lease_seconds, memory_snapshot}
use fcapsule_lab.Catalog.{
  default_scenario_config, scenarios, discovery_scenarios, operator_scenarios, catalog,
}
use fcapsule_lab.Prelude.{find, put, update, remove, last_n, is_run_id}
use fcapsule_lab.Prelude.Exec.{pure, ◌>>=◌}

abbrev run_name : String
run_name = "00000000000000000000000000000001"

-- a Lab whose ConfigMap is its whole world
abbrev fetched : Resource → Object → Result (Option Object)
fetched scenario_config o = ok (some o)
fetched r o = ok none

abbrev patched : Resource → Patch → Object → Result (Unit {0}) × Object
patched scenario_config p o = (ok tt, merged "2" p o)
patched r p o = (ok tt, o)

abbrev measured_memory : Memory
measured_memory = record {
  available_bytes = 2147483648;
  total_bytes = 8589934592;
  node_identity_verified = true;
}

abbrev lab : Outside
lab = record {
  World = Object;
  get = fetched;
  patch = patched;
  post = λ service request id o. (ok (some id), o);
  reachable = λ service o. true;
  memory = λ o. ok measured_memory;
  time = λ o. 5000;
  fresh_id = λ o. run_name;
  insert_job = λ id o. (ok (some 7), o);
  delete_job = λ job id o. (ok tt, o);
}

abbrev free_config : Object
free_config = record {
  version = "1";
  annotations = [];
  labels = [];
  content = ("MAX_RETRIES", text "3") ∷ [];
  spec = [];
}

abbrev idle_lab : Sys lab
idle_lab = record { own = new; world = free_config }

abbrev worker_run : Run
worker_run = record {
  run_id = run_name;
  scenario = some "memory-leak";
  duration = some 60;
  status = running;
  expires_at = 65000;
  minimum_available = some 3000000000;
  targets = "worker" ∷ [];
  baseline = none;
  claim_acquired = some true;
  job_id = none;
  reason = none;
  finished_at = none;
}

abbrev busy_lab : Sys lab
busy_lab = record { own = record new { active = some worker_run }; world = free_config }

-- the controller after a start; the theorems below run the same code
unfoldable started_lab : Sys lab
unfolding distinct targets_of valid_order new_run guard active_run the_run endpoint_service note_job
    queue_job post_action do_action do_actions change_path probe_owned spec_entries one_healthy
    start_scrape start_label listed_actions start_changes as_text start_config
    fcapsule_lab.Control.Start.settings_of overrides start_scenario start_work healthy check_idle
    measure_host check_services check_journal admit check_claim was_claimed undo_start launch begin
    start transport_or_value mysql step step_if restore_resources restore_services clear_journal
    conclude recover_run recover_claimed recover_active load_active unreadable attempt_load
    after_load recover_owned id_of current_owner recover_if recover current_settings
    default_settings claim_run_patch clear_patch job_patch read_job read_run owner_text read_journal
    persisted_run set_active update_run claim_run claim_fields restore_owned_fields clear_run_claim
    persist_job_id post_for_run record_updates kept claim_patch restored_fields loads_or_empty
    restore_patch new observe effect change caught reason_to_recover lower_minimum adopt inspect
    recover_for round recover_blind watch section_of lookup loads truthy is_owner assign merge over
    revise merged lease_seconds memory_snapshot scenarios discovery_scenarios operator_scenarios
    catalog same find put update remove last_n is_run_id ◌>>=◌
started_lab = (start lab false "memory-leak" (pos 60) Arg.null idle_lab).1

start-IsAdmissible_example : IsAdmissible lab false idle_lab
unfolding started_lab
start-IsAdmissible_example =
    start-IsAdmissible lab false "memory-leak" (pos 60) Arg.null idle_lab tt started_lab refl

start-busy_example :
    (e : Exc) × (start lab false "memory-leak" (pos 60) Arg.null busy_lab ≡ (err e, busy_lab))
start-busy_example = start-busy lab false "memory-leak" (pos 60) Arg.null busy_lab worker_run refl

abbrev no_patch : Patch
no_patch = record { version = ""; annotations = []; section = in_data; values = [] }

abbrev patch_of : Result Patch → Patch
patch_of (ok p) = p
patch_of (err e) = no_patch

abbrev sent_of : Result (Option Patch) → Patch
sent_of (ok (some p)) = p
sent_of r = no_patch

abbrev three_retries : Dict Value
three_retries = ("MAX_RETRIES", text "5") ∷ []

-- the ConfigMap of a run
abbrev owned_config : Object
owned_config = record free_config { annotations = (control_owner, plain run_name) ∷ [] }

unfoldable fields_claim : Patch
unfolding started_lab
fields_claim = patch_of (claim_patch run_name true in_data three_retries owned_config)

unfoldable claimed_config : Object
unfolding fields_claim
claimed_config = merged "2" fields_claim owned_config

unfoldable fields_restore : Patch
unfolding claimed_config
fields_restore = sent_of (restore_patch run_name true in_data claimed_config)

restore-claim_example :
    (q : Patch) × (restore_patch run_name true in_data claimed_config ≡ ok (some q))
    × ((j : String)
        → find j (section_of in_data (merged "3" q claimed_config))
          ≡ find j (section_of in_data owned_config))
    × ((j : String)
        → find j (merged "3" q claimed_config).annotations
          ≡ (if journal_key j then none else find j owned_config.annotations))
unfolding fields_claim claimed_config
restore-claim_example =
    restore-claim run_name true in_data three_retries owned_config fields_claim "2" "3" refl refl
      (refl, tt) refl

abbrev claimed_baseline : Doc
claimed_baseline = ("MAX_RETRIES", some (text "3")) ∷ []

abbrev claimed_values : Doc
claimed_values = ("MAX_RETRIES", some (text "5")) ∷ []

restore-unedited_example :
    (is_owner run_name (find "fcapsule.io/lab-control-field-owner" claimed_config.annotations)
      ≡ true)
    × ReadsDoc (λ k. find k (section_of in_data claimed_config)) claimed_values
    × (fields_restore.values ≡ back claimed_baseline claimed_values)
    × (fields_restore.section ≡ in_data)
unfolding fields_restore claimed_config
restore-unedited_example =
    restore-unedited run_name true in_data claimed_config claimed_baseline claimed_values
      fields_restore refl refl refl

abbrev claim_of : Result (Doc × Patch) → Patch
claim_of (ok (d, p)) = p
claim_of (err e) = no_patch

unfoldable settings_now : Doc
unfolding started_lab
settings_now = current_settings free_config.content default_scenario_config

unfoldable run_claim : Patch
unfolding started_lab
run_claim = claim_of (claim_run_patch worker_run free_config)

persisted_run-claim_example :
    persisted_run lab (merged "2" run_claim free_config)
    ≡ ok (some (read_back worker_run settings_now))
unfolding run_claim settings_now
persisted_run-claim_example =
    persisted_run-claim lab (merged "2" run_claim free_config) worker_run free_config settings_now
      run_claim "2" refl refl refl refl

clear_patch-claim_example :
    (q : Patch) × (clear_patch run_name (merged "2" run_claim free_config) ≡ ok q)
    × ((j : String)
        → find j (merged "3" q (merged "2" run_claim free_config)).annotations
          ≡ (if control_key j then none else find j free_config.annotations))
    × ((merged "3" q (merged "2" run_claim free_config)).content ≡ free_config.content)
unfolding run_claim settings_now
clear_patch-claim_example =
    clear_patch-claim worker_run free_config settings_now run_claim "2" "3" refl

-- the controller whose run has claimed the ConfigMap
abbrev owning_lab : Sys lab
owning_lab = record busy_lab { world = owned_config }

abbrev success : Outcome
success = record { ok = true; errors = [] }

unfoldable recovered_lab : Sys lab
unfolding started_lab
recovered_lab = (recover_owned lab "manual" owning_lab).1

abbrev other_name : String
other_name = "00000000000000000000000000000002"

recover-foreign_example :
    (e : Exc) × (recover lab "manual" (some other_name) owning_lab ≡ (err e, owning_lab))
recover-foreign_example =
    recover-foreign lab "manual" other_name worker_run owning_lab refl
      (λ h. absurd (ground (arith, (eq_iff run_name other_name).1 h)))

watch-quiet_example :
    watch lab owning_lab ≡ (ok tt, measured lab owning_lab worker_run measured_memory 3000000000)
watch-quiet_example =
    watch-quiet lab owning_lab worker_run measured_memory 3000000000 refl refl refl refl
      (omega arith) (omega arith) refl

abbrev late_run : Run
late_run = record worker_run { expires_at = 4000 }

abbrev late_lab : Sys lab
late_lab = record owning_lab { own = record new { active = some late_run } }

unfoldable late_recovered : Sys lab
unfolding started_lab
late_recovered =
    (recover lab "lease_expired" none (measured lab late_lab late_run measured_memory 3000000000)).1

watch-recovers_example : watch lab late_lab ≡ (ok tt, late_recovered)
unfolding late_recovered
watch-recovers_example =
    watch-recovers lab late_lab late_run measured_memory 3000000000 "lease_expired" success
      late_recovered refl refl refl refl (time_over (omega arith) (inl (omega arith)) refl) refl

abbrev restored_run : Run
restored_run = record worker_run {
  status = recovering;
  minimum_available = none;
  claim_acquired = none;
}

abbrev restored_lab : Sys lab
restored_lab = record owning_lab { own = record new { active = some restored_run } }

watch-mistaken_example :
    watch lab restored_lab
    ≡ (recover lab "memory_measurement_unavailable" none >>= (λ out. pure tt))
        (mistaken lab restored_lab restored_run measured_memory)
watch-mistaken_example =
    watch-mistaken lab restored_lab restored_run measured_memory refl refl refl refl

abbrev some_events : List (Event lab)
some_events =
    start_call false "memory-leak" (pos 60) Arg.null
    ∷ watch_call
    ∷ recover_call "manual" none
    ∷ elsewhere owned_config
    ∷ []

run_events-IsTidy_example : IsTidy (run_events lab idle_lab some_events).own.history
unfolding new
run_events-IsTidy_example =
    run_events-IsTidy lab idle_lab some_events (record { short = omega arith; closed = tt })
