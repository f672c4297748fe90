-- ===== src/Control/Claims/Frame.antt =====
-- What the journal's methods of app/control.py leave alone: any predicate that survives a change of the
-- world and of the active run survives them, whether they return or raise.
use fcapsule_lab.Prelude.{ℕ, String, Option, none, some, Dict}
use fcapsule_lab.Prelude.Exec.{Result, ◌>>=◌, Keeps, keeps_rules}
use fcapsule_lab.Kube.{Value, Object, Section, Patch}
use fcapsule_lab.Control.State.{
  Run, Resource, Service, Request, Outside, Sys, observe, effect, change,
}
use fcapsule_lab.Control.Claims.{
  update_run, claim_object, claim_run, revise_object, revise_resource, owner_of, claim_fields, send,
  restore_object, restore_owned_fields, clear_run_claim, persist_job_id, acknowledged, post_for_run,
}

pub record IsStable (o : Outside) (P : Sys o → Type 0) : Type 0 where
  pub any_world : (s : Sys o) (w : o.World) → P s → P (record s { world = w })
  pub any_active :
      (s : Sys o) (a : Option Run) → P s → P (record s { own = record s.own { active = a } })

module _ (o : Outside) (P : Sys o → Type 0)
    (any_world : (s : Sys o) (w : o.World) → P s → P (record s { world = w })) where
  pub observe-Keeps : {A : Type 0} (f : o.World → Result A) → Keeps P (observe o f)
  unfolding observe
  observe-Keeps f = record { at = λ s h. h }

  pub effect-Keeps : {A : Type 0} (f : o.World → Result A × o.World) → Keeps P (effect o f)
  unfolding effect
  effect-Keeps f = record { at = λ s h. any_world s (f s.world).1 h }

  ruleset frame = (keeps_rules, observe-Keeps, effect-Keeps)

  revise_object-Keeps :
      (r : Resource) (f : Object → Result Patch) (x : Option Object)
      → Keeps P (revise_object o r f x)
  unfolding revise_object
  revise_object-Keeps r f none = search frame
  revise_object-Keeps r f (some x) = search frame

  revise_resource-Keeps :
      (r : Resource) (f : Object → Result Patch) → Keeps P (revise_resource o r f)
  unfolding revise_resource
  revise_resource-Keeps r f = search (frame, revise_object-Keeps)

  owner_of-Keeps : (a : Option Run) → Keeps P (owner_of o a)
  unfolding owner_of
  owner_of-Keeps none = search frame
  owner_of-Keeps (some run) = search frame

  pub claim_fields-Keeps :
      (r : Resource) (section : Section) (updates : Dict Value)
      → Keeps P (claim_fields o r section updates)
  unfolding claim_fields
  claim_fields-Keeps r section updates = search (frame, owner_of-Keeps, revise_resource-Keeps)

  send-Keeps : (r : Resource) (q : Option Patch) → Keeps P (send o r q)
  unfolding send
  send-Keeps r none = search frame
  send-Keeps r (some q) = search frame

  restore_object-Keeps :
      (r : Resource) (section : Section) (owner : String) (x : Option Object)
      → Keeps P (restore_object o r section owner x)
  unfolding restore_object
  restore_object-Keeps r section owner none = search frame
  restore_object-Keeps r section owner (some x) = search (frame, send-Keeps)

  pub restore_owned_fields-Keeps :
      (r : Resource) (section : Section) (owner : String)
      → Keeps P (restore_owned_fields o r section owner)
  unfolding restore_owned_fields
  restore_owned_fields-Keeps r section owner = search (frame, restore_object-Keeps)

  pub clear_run_claim-Keeps : (owner : String) → Keeps P (clear_run_claim o owner)
  unfolding clear_run_claim
  clear_run_claim-Keeps owner = search revise_resource-Keeps

  acknowledged-Keeps : (id : String) (a : Option String) → Keeps P (acknowledged o id a)
  unfolding acknowledged
  acknowledged-Keeps id none = search frame
  acknowledged-Keeps id (some t) = search frame

  pub post_for_run-Keeps :
      (service : Service) (request : Request) (id : String)
      → Keeps P (post_for_run o service request id)
  unfolding post_for_run
  post_for_run-Keeps service request id = search (frame, acknowledged-Keeps)

  pub persist_job_id-Keeps : (owner : String) (job : ℕ) → Keeps P (persist_job_id o owner job)
  unfolding persist_job_id
  persist_job_id-Keeps owner job = search revise_resource-Keeps

module _ (o : Outside) (P : Sys o → Type 0) (stable : IsStable o P) where
  observe-P : {A : Type 0} (f : o.World → Result A) → Keeps P (observe o f)
  observe-P = observe-Keeps o P stable.any_world

  effect-P : {A : Type 0} (f : o.World → Result A × o.World) → Keeps P (effect o f)
  effect-P = effect-Keeps o P stable.any_world

  pub update_run-Keeps : (f : Run → Run) → Keeps P (update_run o f)
  unfolding update_run change ◌>>=◌
  update_run-Keeps f = record { at = λ s h. stable.any_active s _ h }

  ruleset stable_frame = (keeps_rules, observe-P, effect-P, update_run-Keeps)

  claim_object-Keeps : (run : Run) (x : Option Object) → Keeps P (claim_object o run x)
  unfolding claim_object
  claim_object-Keeps run none = search stable_frame
  claim_object-Keeps run (some x) = search stable_frame

  pub claim_run-Keeps : (run : Run) → Keeps P (claim_run o run)
  unfolding claim_run
  claim_run-Keeps run = search (stable_frame, claim_object-Keeps)
