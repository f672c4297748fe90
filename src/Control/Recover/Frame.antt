-- ===== src/Control/Recover/Frame.antt =====
-- What recover of app/control.py leaves alone, whether it returns or raises.
use fcapsule_lab.Prelude.{ℕ, String, Bool, false, Option, none, some, List}
use fcapsule_lab.Prelude.Exec.{Result, Exc, ◌>>=◌, Keeps, keeps_rules}
use fcapsule_lab.Safety.{Memory}
use fcapsule_lab.Control.State.{
  Run, Problem, Resource, Service, Request, Outside, Sys, Act, observe, effect, change,
}
use fcapsule_lab.Kube.{Section}
use fcapsule_lab.Control.Claims.{restore_owned_fields, clear_run_claim, post_for_run}
use fcapsule_lab.Control.Claims.Frame.{
  IsStable, observe-Keeps, effect-Keeps, restore_owned_fields-Keeps, clear_run_claim-Keeps,
  post_for_run-Keeps,
}
use fcapsule_lab.Control.Recover.{
  step, step_if, restore_resources, restore_services, clear_journal, conclude, recover_run,
  recover_claimed, recover_active, load_active, unreadable, attempt_load, after_load, recover_owned,
  current_owner, recover_if, recover,
}

-- A predicate that survives every change of the controller but a change of its history, and what a
-- recovery does to that.
pub record IsLasting (o : Outside) (P : Sys o → Type 0) : Type 0 where
  pub stable : IsStable o P
  pub any_problems :
      (s : Sys o) (l : List Problem)
      → P s
      → P (record s { own = record s.own { recovery_error = l } })
  pub any_memory :
      (s : Sys o) (m : Option Memory) (e : Option Exc)
      → P s
      → P (record s { own = record s.own { memory = m; memory_error = e } })
  pub concluded :
      (s : Sys o) (reason : String) (now : ℕ) (errors : List Problem) (run : Run)
      → P s
      → P (record s { own = conclude o reason now errors run s.own })

module _ (o : Outside) (P : Sys o → Type 0)
    (any_world : (s : Sys o) (w : o.World) → P s → P (record s { world = w })) where
  observe-P : {A : Type 0} (f : o.World → Result A) → Keeps P (observe o f)
  observe-P = observe-Keeps o P any_world

  effect-P : {A : Type 0} (f : o.World → Result A × o.World) → Keeps P (effect o f)
  effect-P = effect-Keeps o P any_world

  restore-P :
      (r : Resource) (section : Section) (owner : String)
      → Keeps P (restore_owned_fields o r section owner)
  restore-P = restore_owned_fields-Keeps o P any_world

  clear-P : (owner : String) → Keeps P (clear_run_claim o owner)
  clear-P = clear_run_claim-Keeps o P any_world

  post-P :
      (service : Service) (request : Request) (id : String)
      → Keeps P (post_for_run o service request id)
  post-P = post_for_run-Keeps o P any_world

  ruleset frame = (keeps_rules, observe-P, effect-P, restore-P, clear-P, post-P)

  step-P :
      (name : String) (test : Exc → Bool) (m : Act o (Unit {0})) (errors : List Problem)
      → Keeps P m
      → Keeps P (step o name test m errors)
  unfolding step
  step-P name test m errors k = search frame

  step_if-P :
      (wanted : Bool) (name : String) (test : Exc → Bool) (m : Act o (Unit {0}))
      (errors : List Problem)
      → Keeps P m
      → Keeps P (step_if o wanted name test m errors)
  unfolding step_if
  step_if-P wanted name test m errors k = search (frame, step-P)

  ruleset steps = (frame, step-P, step_if-P)

  pub restore_resources-P : (run : Run) → Keeps P (restore_resources o run)
  unfolding restore_resources
  restore_resources-P run = search steps depth 9

  pub restore_services-P :
      (run : Run) (restored : Bool) (errors : List Problem)
      → Keeps P (restore_services o run restored errors)
  unfolding restore_services
  restore_services-P run restored errors = search steps depth 16

  pub clear_journal-P : (run : Run) (errors : List Problem) → Keeps P (clear_journal o run errors)
  unfolding clear_journal
  clear_journal-P run errors = search steps

module _ (o : Outside) (P : Sys o → Type 0) (lasting : IsLasting o P) where
  lasting_observe : {A : Type 0} (f : o.World → Result A) → Keeps P (observe o f)
  lasting_observe = observe-Keeps o P lasting.stable.any_world

  resources-P : (run : Run) → Keeps P (restore_resources o run)
  resources-P = restore_resources-P o P lasting.stable.any_world

  services-P :
      (run : Run) (restored : Bool) (errors : List Problem)
      → Keeps P (restore_services o run restored errors)
  services-P = restore_services-P o P lasting.stable.any_world

  journal-P : (run : Run) (errors : List Problem) → Keeps P (clear_journal o run errors)
  journal-P = clear_journal-P o P lasting.stable.any_world

  ruleset lasting_frame = (keeps_rules, lasting_observe)

  conclude-P :
      (reason : String) (now : ℕ) (errors : List Problem) (run : Run)
      → Keeps P (change o (conclude o reason now errors run))
  unfolding change ◌>>=◌
  conclude-P reason now errors run = record {
    at = λ s h. lasting.concluded s reason now errors run h;
  }

  problems-P : (l : List Problem) → Keeps P (change o (λ c. record c { recovery_error = l }))
  unfolding change ◌>>=◌
  problems-P l = record { at = λ s h. lasting.any_problems s l h }

  active-P : (a : Option Run) → Keeps P (change o (λ c. record c { active = a }))
  unfolding change ◌>>=◌
  active-P a = record { at = λ s h. lasting.stable.any_active s a h }

  recover_run-P : (reason : String) (run : Run) → Keeps P (recover_run o reason run)
  unfolding recover_run
  recover_run-P reason run =
      search (lasting_frame, resources-P, services-P, journal-P, conclude-P) depth 12

  recover_claimed-P :
      (reason : String) (run : Run) (c : Option Bool) → Keeps P (recover_claimed o reason run c)
  unfolding recover_claimed
  recover_claimed-P reason run (some false) = search lasting_frame
  recover_claimed-P reason run _ = search recover_run-P

  recover_active-P : (reason : String) (a : Option Run) → Keeps P (recover_active o reason a)
  unfolding recover_active
  recover_active-P reason none = search (lasting_frame, problems-P)
  recover_active-P reason (some run) = recover_claimed-P reason run run.claim_acquired

  load_active-P : (a : Option Run) → Keeps P (load_active o a)
  unfolding load_active
  load_active-P none = search (lasting_frame, active-P)
  load_active-P (some run) = search lasting_frame

  unreadable-P : (e : Exc) → Keeps P (unreadable o e)
  unfolding unreadable
  unreadable-P e = search (lasting_frame, problems-P)

  attempt_load-P : Keeps P (attempt_load o)
  unfolding attempt_load
  attempt_load-P = search (lasting_frame, load_active-P) depth 8

  after_load-P : (reason : String) (e : Option Exc) → Keeps P (after_load o reason e)
  unfolding after_load
  after_load-P reason none = search (lasting_frame, recover_active-P)
  after_load-P reason (some e) = search unreadable-P

  recover_owned-P : (reason : String) → Keeps P (recover_owned o reason)
  unfolding recover_owned
  recover_owned-P reason = search (lasting_frame, attempt_load-P, after_load-P)

  current_owner-P : (a : Option Run) → Keeps P (current_owner o a)
  unfolding current_owner
  current_owner-P none = search lasting_frame
  current_owner-P (some run) = search lasting_frame

  recover_if-P :
      (reason expected : String) (owner : Option String)
      → Keeps P (recover_if o reason expected owner)
  unfolding recover_if
  recover_if-P reason expected none = search lasting_frame
  recover_if-P reason expected (some owner) = search (lasting_frame, recover_owned-P)

  pub recover-Keeps :
      (reason : String) (expected : Option String) → Keeps P (recover o reason expected)
  unfolding recover
  recover-Keeps reason none = search recover_owned-P
  recover-Keeps reason (some expected) =
      search (lasting_frame, current_owner-P, recover_if-P) depth 8
