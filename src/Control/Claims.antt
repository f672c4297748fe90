-- ===== src/Control/Claims.antt =====
-- app/control.py: the run's own claim on the ConfigMap, reading it back after a restart, and the
-- methods that read an object and patch it.
pub mod Frame
pub mod Restart
use fcapsule_lab.Prelude.{
  ℕ, ◌/◌, ◌*◌, String, Bool, true, false, not, ◌&&◌, Option, none, some, List, [], ◌∷◌, map, str_eq,
  if◌then◌else◌, Dict, find, put, is_run_id,
}
use fcapsule_lab.Prelude.Exec.{
  Exc, value_error, type_error, Result, ok, err, and_then, pure, raise, lift, gets, ◌>>=◌, ◌>>◌,
}
use fcapsule_lab.Kube.{
  Value, text, Doc, Note, plain, fields, names, number, Object, Section, in_labels, in_data,
  in_spec, Patch, truthy, is_owner,
}
use fcapsule_lab.Catalog.{default_scenario_config}
use fcapsule_lab.Control.State.{
  Run, Status, recovering, Controller, Resource, scenario_config, metrics_service, monitor, Service,
  Request, Outside, Sys, Act, observe, effect, change,
}
use fcapsule_lab.Control.Journal.{
  control_owner, external_probe_owner, control_targets, control_baseline, control_expiry,
  control_job_id, field_owner, present, is_config, claim_patch, restore_patch,
}

-- {key: str(current["data"].get(key, default)) for key, default in DEFAULT_SCENARIO_CONFIG.items()}
unfoldable pub current_settings : Dict Value → Dict String → Doc
current_settings content [] = []
current_settings content ((k, d) ∷ defaults) =
    (k, some (elim (find k content) [ none ↦ text d | some v ↦ v ]))
    ∷ current_settings content defaults

unfoldable pub default_settings : Doc
unfolding current_settings
default_settings = current_settings [] default_scenario_config

run_patch : Run → Object → Doc → Patch
run_patch run o baseline = record {
  version = o.version;
  annotations =
      (control_owner, some (plain run.run_id))
      ∷ (control_targets, some (names run.targets))
      ∷ (control_baseline, some (fields baseline))
      ∷ (control_expiry, some (number (run.expires_at / 1000)))
      ∷ [];
  section = in_data;
  values = [];
}

-- _claim_run, from the ConfigMap read to the baseline and the patch sent
unfoldable pub claim_run_patch : Run → Object → Result (Doc × Patch)
unfolding current_settings run_patch
claim_run_patch run o =
    let baseline = current_settings o.content default_scenario_config in
    if truthy (find control_owner o.annotations)
    then err (value_error "A persisted Lab run already owns scenario resources; recover it first")
    else if truthy (find external_probe_owner o.annotations)
    then err (value_error "The external Prometheus screenshot run owns the Lab; recover it first")
    else ok (baseline, run_patch run o baseline)

unfoldable pub clear_patch : String → Object → Result Patch
clear_patch owner o =
    if is_owner owner (find control_owner o.annotations)
    then ok (record {
      version = o.version;
      annotations = put control_job_id none (
          put control_expiry none (
            put control_baseline none
              (put control_targets none (put control_owner none (present o.annotations)))));
      section = in_data;
      values = [];
    })
    else err (value_error "Persisted Lab run ownership changed; recovery journal retained")

unfoldable pub job_patch : String → ℕ → Object → Result Patch
job_patch owner job o =
    if is_owner owner (find control_owner o.annotations)
    then ok (record {
      version = o.version;
      annotations = put control_job_id (some (number job)) (present o.annotations);
      section = in_data;
      values = [];
    })
    else err (value_error "Lab run ownership changed before the queue item was recorded")

-- int(annotations[CONTROL_JOB_ID]) if annotations.get(CONTROL_JOB_ID) else None
unfoldable pub read_job : Option Note → Result (Option ℕ)
read_job (some (number n)) = ok (some n)
read_job (some (plain t)) = if str_eq t "" then ok none else err (value_error "invalid literal")
read_job (some n) = err (value_error "invalid literal")
read_job none = ok none

-- The three annotations of the journal, each of the kind that was written.
journal_of : Option Note → Option Note → Option Note → Result (List String × Doc × ℕ)
journal_of (some (names targets)) (some (fields baseline)) (some (number expiry)) =
    ok (targets, baseline, expiry)
journal_of _ _ _ = err (value_error "Persisted Lab recovery journal is incomplete or invalid")

-- _persisted_run, for a ConfigMap that names an owner
unfoldable pub read_run : String → Object → Result (Option Run)
unfolding journal_of read_job
read_run owner o =
    if is_run_id owner
    then and_then
        (journal_of (find control_targets o.annotations) (find control_baseline o.annotations)
          (find control_expiry o.annotations))
        (λ journal. and_then (read_job (find control_job_id o.annotations)) λ job. ok (
          some (record {
            run_id = owner;
            scenario = none;
            duration = none;
            status = recovering;
            expires_at = journal.2 * 1000;
            minimum_available = none;
            targets = journal.0;
            baseline = some journal.1;
            claim_acquired = none;
            job_id = job;
            reason = none;
            finished_at = none;
          })))
    else err (value_error "Persisted Lab run identity is invalid; refusing automatic recovery")

-- the owner that an annotation names; what was written as JSON is no run ID
unfoldable pub owner_text : Option Note → String
owner_text (some (plain t)) = t
owner_text n = ""

module _ (o : Outside) where
  -- for resource, name in CONTROLLED_RESOURCES: an owned field without a run is refused
  no_orphan : List Resource → o.World → Result (Option Run)
  no_orphan [] w = ok none
  no_orphan (r ∷ rest) w =
      let next = no_orphan rest w in
      and_then (o.get r w) λ found.
        if truthy (elim found [ none ↦ none | some x ↦ find field_owner x.annotations ])
        then err (value_error "Orphaned owned-field journal; refusing to overwrite it")
        else next

  unfoldable pub read_journal : Option Object → o.World → Result (Option Run)
  unfolding no_orphan
  read_journal none w = no_orphan (scenario_config ∷ metrics_service ∷ monitor ∷ []) w
  read_journal (some x) w =
      if truthy (find control_owner x.annotations)
      then read_run (owner_text (find control_owner x.annotations)) x
      else no_orphan (scenario_config ∷ metrics_service ∷ monitor ∷ []) w

  unfoldable pub persisted_run : o.World → Result (Option Run)
  unfolding read_journal
  persisted_run w = and_then (o.get scenario_config w) (λ current. read_journal current w)

  unfoldable pub set_active : (Run → Run) → Controller → Controller
  set_active f c = record c { active = elim c.active [ none ↦ none | some r ↦ some (f r) ] }

  unfoldable pub update_run : (Run → Run) → Act o (Unit {0})
  unfolding set_active
  update_run f = change o (set_active f)

  claim_object : Run → Option Object → Act o Doc
  claim_object run none = pure default_settings
  claim_object run (some x) = do
    claim ← lift (claim_run_patch run x)
    effect o (o.patch scenario_config claim.1)
    pure claim.0

  unfoldable pub claim_run : Run → Act o (Unit {0})
  unfolding claim_object
  claim_run run = do
    current ← observe o (o.get scenario_config)
    baseline ← claim_object run current
    update_run (λ r. record r { baseline = some baseline })

  -- a read, then a patch made from what was read; an object that is not there is left alone
  revise_object : Resource → (Object → Result Patch) → Option Object → Act o (Unit {0})
  revise_object r f none = pure tt
  revise_object r f (some x) = do p ← lift (f x); effect o (o.patch r p)

  revise_resource : Resource → (Object → Result Patch) → Act o (Unit {0})
  unfolding revise_object
  revise_resource r f = do current ← observe o (o.get r); revise_object r f current

  owner_of : Option Run → Act o String
  owner_of none = raise type_error
  owner_of (some run) = pure run.run_id

  unfoldable pub claim_fields : Resource → Section → Dict Value → Act o (Unit {0})
  unfolding revise_resource owner_of
  claim_fields r section updates = do
    active ← gets (λ s. s.own.active)
    owner ← owner_of active
    revise_resource r (claim_patch owner (is_config r) section updates)

  send : Resource → Option Patch → Act o (Unit {0})
  send r none = pure tt
  send r (some p) = effect o (o.patch r p)

  restore_object : Resource → Section → String → Option Object → Act o (Unit {0})
  unfolding send
  restore_object r section owner none = pure tt
  restore_object r section owner (some x) = do
    q ← lift (restore_patch owner (is_config r) section x)
    send r q

  unfoldable pub restore_owned_fields : Resource → Section → String → Act o (Unit {0})
  unfolding restore_object
  restore_owned_fields r section owner = do
    current ← observe o (o.get r)
    restore_object r section owner current

  unfoldable pub clear_run_claim : String → Act o (Unit {0})
  unfolding revise_resource
  clear_run_claim owner = revise_resource scenario_config (clear_patch owner)

  unfoldable pub persist_job_id : String → ℕ → Act o (Unit {0})
  unfolding revise_resource
  persist_job_id owner job = revise_resource scenario_config (job_patch owner job)

  acknowledged : String → Option String → Act o (Unit {0})
  acknowledged id none = raise (value_error "Application did not acknowledge the active Lab run ID")
  acknowledged id (some answer) =
      if str_eq answer id
      then pure tt
      else raise (value_error "Application did not acknowledge the active Lab run ID")

  unfoldable pub post_for_run : Service → Request → String → Act o (Unit {0})
  unfolding acknowledged
  post_for_run service request id = do
    answer ← effect o (o.post service request id)
    acknowledged id answer
