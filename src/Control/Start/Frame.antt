-- ===== src/Control/Start/Frame.antt =====
-- What start of app/control.py leaves alone, whether it returns or raises.
use fcapsule_lab.Prelude.{
  ℕ, String, Bool, true, false, Option, none, some, List, [], ◌∷◌, Dict, Arg, ℤ,
}
use fcapsule_lab.Prelude.Exec.{Result, ◌>>=◌, Keeps, keeps_rules}
use fcapsule_lab.Safety.{Memory}
use fcapsule_lab.Kube.{Endpoint, Value, Section, Doc}
use fcapsule_lab.Catalog.{Target, database, Action, Scenario}
use fcapsule_lab.Control.State.{
  Run, Resource, Service, Request, Outside, Sys, observe, effect, change,
}
use fcapsule_lab.Control.Claims.{update_run, claim_run, claim_fields, persist_job_id, post_for_run}
use fcapsule_lab.Control.Claims.Frame.{
  observe-Keeps, effect-Keeps, update_run-Keeps, claim_run-Keeps, claim_fields-Keeps,
  persist_job_id-Keeps, post_for_run-Keeps,
}
use fcapsule_lab.Control.Recover.{recover}
use fcapsule_lab.Control.Recover.Frame.{IsLasting, recover-Keeps}
use fcapsule_lab.Control.Start.{
  Order, guard, active_run, the_run, note_job, queue_job, post_action, do_action, do_actions,
  change_path, start_scrape, start_label, listed_actions, start_changes, start_config,
  start_scenario, start_work, check_idle, measure_host, check_services, check_journal, admit,
  check_claim, was_claimed, undo_start, launch, begin, start,
}

module _ (o : Outside) (P : Sys o → Type 0) (lasting : IsLasting o P) where
  observe-P : {A : Type 0} (f : o.World → Result A) → Keeps P (observe o f)
  observe-P = observe-Keeps o P lasting.stable.any_world

  effect-P : {A : Type 0} (f : o.World → Result A × o.World) → Keeps P (effect o f)
  effect-P = effect-Keeps o P lasting.stable.any_world

  update-P : (f : Run → Run) → Keeps P (update_run o f)
  update-P = update_run-Keeps o P lasting.stable

  claim_run-P : (run : Run) → Keeps P (claim_run o run)
  claim_run-P = claim_run-Keeps o P lasting.stable

  claim-P :
      (r : Resource) (section : Section) (updates : Dict Value)
      → Keeps P (claim_fields o r section updates)
  claim-P = claim_fields-Keeps o P lasting.stable.any_world

  job-P : (owner : String) (job : ℕ) → Keeps P (persist_job_id o owner job)
  job-P = persist_job_id-Keeps o P lasting.stable.any_world

  post-P :
      (service : Service) (request : Request) (id : String)
      → Keeps P (post_for_run o service request id)
  post-P = post_for_run-Keeps o P lasting.stable.any_world

  recover-P : (reason : String) (expected : Option String) → Keeps P (recover o reason expected)
  recover-P = recover-Keeps o P lasting

  active-P : (a : Option Run) → Keeps P (change o (λ c. record c { active = a }))
  unfolding change ◌>>=◌
  active-P a = record { at = λ s h. lasting.stable.any_active s a h }

  memory-P : (m : Memory) → Keeps P (change o (λ c. record c { memory = some m }))
  unfolding change ◌>>=◌
  memory-P m = record { at = λ s h. lasting.any_memory s (some m) s.own.memory_error h }

  guard-P : (b : Bool) (t : String) → Keeps P (guard o b t)
  unfolding guard
  guard-P b t = search keeps_rules

  active_run-P : (a : Option Run) → Keeps P (active_run o a)
  unfolding active_run
  active_run-P none = search keeps_rules
  active_run-P (some run) = search keeps_rules

  the_run-P : Keeps P (the_run o)
  unfolding the_run
  the_run-P = search (keeps_rules, active_run-P)

  ruleset frame = (
    keeps_rules, observe-P, effect-P, update-P, claim_run-P, claim-P, job-P, post-P, recover-P,
    active-P, memory-P, guard-P, the_run-P,
  )

  note_job-P : (run : Run) (job : Option ℕ) → Keeps P (note_job o run job)
  unfolding note_job
  note_job-P run none = search frame
  note_job-P run (some job) = search frame

  queue_job-P : Keeps P (queue_job o)
  unfolding queue_job
  queue_job-P = search (frame, note_job-P) depth 8

  post_action-P :
      (duration : ℕ) (config : Doc) (a : Action) → Keeps P (post_action o duration config a)
  unfolding post_action
  post_action-P duration config a = search frame

  do_action-P :
      (duration : ℕ) (config : Doc) (t : Target) (a : Action)
      → Keeps P (do_action o duration config t a)
  unfolding do_action
  do_action-P duration config database a = search queue_job-P
  do_action-P duration config _ a = search post_action-P

  do_actions-P :
      (duration : ℕ) (config : Doc) (l : List Action) → Keeps P (do_actions o duration config l)
  unfolding do_actions
  do_actions-P duration config [] = search frame
  do_actions-P duration config (a ∷ l) =
      search (frame, do_action-P duration config a.target a, do_actions-P duration config l)

  change_path-P : (path : String) (l : List Endpoint) → Keeps P (change_path o path l)
  unfolding change_path
  change_path-P path (e ∷ []) = search frame
  change_path-P path _ = search frame

  start_scrape-P : (path : String) → Keeps P (start_scrape o path)
  unfolding start_scrape
  start_scrape-P path = search (frame, change_path-P) depth 9

  start_label-P : (label : String) → Keeps P (start_label o label)
  unfolding start_label
  start_label-P label = search frame

  listed_actions-P :
      (duration : ℕ) (config : Doc) (l : Option (List Action))
      → Keeps P (listed_actions o duration config l)
  unfolding listed_actions
  listed_actions-P duration config none = search frame
  listed_actions-P duration config (some l) = search do_actions-P

  start_changes-P :
      (duration : ℕ) (config : Doc) (s : Scenario) (path label : Option String)
      → Keeps P (start_changes o duration config s path label)
  unfolding start_changes
  start_changes-P duration config s (some path) label = search start_scrape-P
  start_changes-P duration config s none (some label) = search start_label-P
  start_changes-P duration config s none none = listed_actions-P duration config s.actions

  start_config-P : (d : Option (Dict String)) → Keeps P (start_config o d)
  unfolding start_config
  start_config-P none = search frame
  start_config-P (some d) = search frame

  start_scenario-P : (duration : ℕ) (s : Option Scenario) → Keeps P (start_scenario o duration s)
  unfolding start_scenario
  start_scenario-P duration none = search frame
  start_scenario-P duration (some s) = search (frame, start_config-P, start_changes-P) depth 9

  start_work-P :
      (library : Bool) (id : String) (order : Order) → Keeps P (start_work o library id order)
  unfolding start_work
  start_work-P true id order = search frame
  start_work-P false id order = search start_scenario-P

  check_idle-P : Keeps P (check_idle o)
  unfolding check_idle
  check_idle-P = search frame

  measure_host-P : Keeps P (measure_host o)
  unfolding measure_host
  measure_host-P = search frame depth 12

  check_services-P : (library : Bool) → Keeps P (check_services o library)
  unfolding check_services
  check_services-P library = search frame depth 12

  check_journal-P : Keeps P (check_journal o)
  unfolding check_journal
  check_journal-P = search frame

  admit-P : (library : Bool) → Keeps P (admit o library)
  unfolding admit
  admit-P library =
      search (frame, check_idle-P, measure_host-P, check_services-P, check_journal-P) depth 12

  check_claim-P : (id : String) → Keeps P (check_claim o id)
  unfolding check_claim
  check_claim-P id = search frame

  was_claimed-P : (id : String) → Keeps P (was_claimed o id)
  unfolding was_claimed
  was_claimed-P id = search (frame, check_claim-P)

  undo_start-P : (id : String) (claimed : Bool) → Keeps P (undo_start o id claimed)
  unfolding undo_start
  undo_start-P id true = search frame
  undo_start-P id false = search frame

  launch-P :
      (library : Bool) (id : String) (order : Order) (run : Run)
      → Keeps P (launch o library id order run)
  unfolding launch
  launch-P library id order run = search (frame, start_work-P, was_claimed-P, undo_start-P) depth 10

  begin-P :
      (library : Bool) (id : String) (order : Order) (m : Memory)
      → Keeps P (begin o library id order m)
  unfolding begin
  begin-P library id order m = search (frame, launch-P) depth 12

  pub start-Keeps :
      (library : Bool) (id : String) (value : ℤ) (request : Arg)
      → Keeps P (start o library id value request)
  unfolding start
  start-Keeps library id value request = search (frame, admit-P, begin-P) depth 8
