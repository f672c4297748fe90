-- ===== src/Control/Claims/Restart.antt =====
-- A run's claim is what a restarted controller reads back: _claim_run, _persisted_run and
-- _clear_run_claim of app/control.py.
use fcapsule_lab.Prelude.{
  ◌/◌, ◌*◌, ◌≡◌, refl, String, Bool, true, ◌||◌, Option, none, some, [], arith, str_eq, eq_iff,
  if◌then◌else◌, Dict, find, put, find-put, is_run_id, subst, Bool-cases, inl, inr,
}
use fcapsule_lab.Prelude.Exec.{ok}
use fcapsule_lab.Kube.{
  Doc, Note, plain, fields, names, number, Object, in_data, Patch, truthy, is_owner,
}
use fcapsule_lab.Kube.Merge.{merge, over, find-merge, merged, annotations-merged}
use fcapsule_lab.Control.State.{Run, recovering, scenario_config, Outside}
use fcapsule_lab.Control.Journal.{
  control_owner, control_targets, control_baseline, control_expiry, control_job_id, present,
}
use fcapsule_lab.Control.Journal.RoundTrip.{find-present}
use fcapsule_lab.Control.Claims.{
  run_patch, claim_run_patch, clear_patch, read_run, owner_text, persisted_run, read_journal,
}

-- The run that a restarted controller works with.
unfoldable pub read_back : Run → Doc → Run
read_back run baseline = record run {
  scenario = none;
  duration = none;
  status = recovering;
  expires_at = run.expires_at / 1000 * 1000;
  minimum_available = none;
  baseline = some baseline;
  claim_acquired = none;
  job_id = none;
  reason = none;
  finished_at = none;
}

abbrev pub control_key : String → Bool
control_key j =
    str_eq control_owner j
    || str_eq control_targets j
    || str_eq control_baseline j
    || str_eq control_expiry j
    || str_eq control_job_id j

claim_run_patch-ok :
    (run : Run) (o : Object) (baseline : Doc) (p : Patch)
    → claim_run_patch run o ≡ ok (baseline, p)
    → p ≡ run_patch run o baseline
unfolding claim_run_patch
claim_run_patch-ok run o baseline p h = ground arith

claimed_note :
    (run : Run) (o : Object) (baseline : Doc) (version j : String)
    → find j (merged version (run_patch run o baseline) o).annotations ≡ (
        if str_eq control_owner j
        then some (plain run.run_id)
        else if str_eq control_targets j
        then some (names run.targets)
        else if str_eq control_baseline j
        then some (fields baseline)
        else if str_eq control_expiry j
        then some (number (run.expires_at / 1000))
        else find j o.annotations)
claimed_note run o baseline version j =
    rw (annotations-merged, find-merge) (unfold run_patch find over in ground arith)

empty_id : ¬ (is_run_id "" ≡ true)
unfolding is_run_id
empty_id h = cc

truthy-run_id : (id : String) → is_run_id id ≡ true → truthy (some (plain id)) ≡ true
unfolding truthy
truthy-run_id id h = elim (Bool-cases (str_eq id "")) [
  | inl e ↦ absurd (empty_id (subst (λ t. is_run_id t ≡ true) ((eq_iff id "").0 e) h))
  | inr e ↦ rw e
]

cleared_notes : Dict Note → Dict (Option Note)
cleared_notes annotations = put control_job_id none (
    put control_expiry none (
      put control_baseline none
        (put control_targets none (put control_owner none (present annotations)))))

module _ (run : Run) (o : Object) (baseline : Doc) (version : String) where
  abbrev claimed_object : Object
  claimed_object = merged version (run_patch run o baseline) o

  read-claimed :
      is_run_id run.run_id ≡ true
      → find control_job_id o.annotations ≡ none
      → read_run run.run_id claimed_object ≡ ok (some (read_back run baseline))
  unfolding read_run read_back
  read-claimed valid fresh =
      rw
        (
          claimed_note run o baseline version control_targets,
          claimed_note run o baseline version control_baseline,
          claimed_note run o baseline version control_expiry,
          claimed_note run o baseline version control_job_id,
        )
        (ground arith)

  abbrev cleared_patch : Patch
  cleared_patch = record {
    version = claimed_object.version;
    annotations = cleared_notes claimed_object.annotations;
    section = in_data;
    values = [];
  }

  clear-claimed : clear_patch run.run_id claimed_object ≡ ok cleared_patch
  unfolding clear_patch is_owner cleared_notes
  clear-claimed =
      rw (claimed_note run o baseline version control_owner)
        (ground (arith, eq_iff run.run_id run.run_id))

  cleared_note :
      (later j : String)
      → find j (merged later cleared_patch claimed_object).annotations
        ≡ (if control_key j then none else find j o.annotations)
  unfolding cleared_notes over
  cleared_note later j =
      rw (annotations-merged, find-merge)
        (simp (find-put, find-present) (rw (claimed_note run o baseline version j) (ground arith)))

-- A claim of the ConfigMap that is granted is what a controller reads back after a restart: the run with its
-- ID, its targets and its settings, its expiry to the second, and no more; the run is marked as
-- recovering. Here the run's ID is well formed and the ConfigMap held no job ID before the claim.
pub persisted_run-claim :
    (outside : Outside) (w : outside.World) (run : Run) (o : Object) (baseline : Doc) (p : Patch)
    (version : String)
    → claim_run_patch run o ≡ ok (baseline, p)
    → is_run_id run.run_id ≡ true
    → find control_job_id o.annotations ≡ none
    → outside.get scenario_config w ≡ ok (some (merged version p o))
    → persisted_run outside w ≡ ok (some (read_back run baseline))
persisted_run-claim outside w run o baseline p version h valid fresh stored =
    read_stored (rw (claim_run_patch-ok run o baseline p h) at stored)
  where
    read_stored :
        outside.get scenario_config w ≡ ok (some (claimed_object run o baseline version))
        → persisted_run outside w ≡ ok (some (read_back run baseline))
    read_stored e =
        unfold persisted_run read_journal owner_text in
        rw (e, claimed_note run o baseline version control_owner, truthy-run_id run.run_id valid)
          (read-claimed run o baseline version valid fresh)

-- When the run is over, its claim can be cleared by one patch, after which the five annotations of
-- the claim are gone, every other annotation is as it was before the claim, and so is the
-- ConfigMap's content.
pub clear_patch-claim :
    (run : Run) (o : Object) (baseline : Doc) (p : Patch) (version later : String)
    → claim_run_patch run o ≡ ok (baseline, p)
    → (q : Patch) × (clear_patch run.run_id (merged version p o) ≡ ok q)
      × ((j : String)
          → find j (merged later q (merged version p o)).annotations
            ≡ (if control_key j then none else find j o.annotations))
      × ((merged later q (merged version p o)).content ≡ o.content)
unfolding merged merge run_patch
clear_patch-claim run o baseline p version later h = rw (claim_run_patch-ok run o baseline p h) (
  cleared_patch run o baseline version,
  clear-claimed run o baseline version,
  cleared_note run o baseline version later,
  refl,
)
