-- ===== src/Control/Journal.antt =====
-- app/control.py: the ownership journal. A run claims the ConfigMap, claims each field that it
-- changes with the field's earlier value, and gives both back. The API server serialises writes by
-- resourceVersion, so each method is a function of the object that it read, and one patch.
pub mod RoundTrip
pub mod Undo
use fcapsule_lab.Prelude.{
  ℕ, zero, suc, ◌/◌, ◌*◌, String, ◌≡◌, Bool, true, false, not, ◌&&◌, Option, none, some, List, [],
  ◌∷◌, map, str_eq, if◌then◌else◌, Dict, find, put, is_some, is_run_id,
}
use fcapsule_lab.Prelude.Exec.{
  Exc, value_error, key_error, type_error, attribute_error, Result, ok, err, and_then, pure, raise,
  lift, gets, ◌>>=◌, ◌>>◌,
}
use fcapsule_lab.Kube.{
  Value, text, Doc, Note, plain, fields, names, number, Object, Section, in_labels, in_data,
  in_spec, section_of, Patch, lookup, loads, truthy, is_owner, same,
}
use fcapsule_lab.Catalog.{default_scenario_config}
use fcapsule_lab.Control.State.{
  Run, Status, recovering, Controller, Resource, scenario_config, metrics_service, monitor, Outside,
  Sys, Act, observe, effect, change,
}

abbrev pub control_owner : String
control_owner = "fcapsule.io/lab-control-run"

abbrev pub external_probe_owner : String
external_probe_owner = "fcapsule.lab/screenshot-run"

abbrev pub control_targets : String
control_targets = "fcapsule.io/lab-control-targets"

abbrev pub control_baseline : String
control_baseline = "fcapsule.io/lab-control-baseline-settings"

abbrev pub control_expiry : String
control_expiry = "fcapsule.io/lab-control-expires-at"

abbrev pub control_job_id : String
control_job_id = "fcapsule.io/lab-control-job-id"

abbrev pub field_owner : String
field_owner = "fcapsule.io/lab-control-field-owner"

abbrev pub field_baseline : String
field_baseline = "fcapsule.io/lab-control-field-baseline"

abbrev pub field_applied : String
field_applied = "fcapsule.io/lab-control-field-applied"

abbrev pub is_config : Resource → Bool
is_config scenario_config = true
is_config r = false

-- dict(annotations), as the entries of a patch
abbrev pub present {ℓ} : {V : Type ℓ} → Dict V → Dict (Option V)
present [] = []
present ((k, v) ∷ d) = (k, some v) ∷ present d

-- The loop over `updates`: a key's first value is kept in the baseline.
unfoldable pub record_updates : Dict Value → Dict Value → Doc × Doc → Doc × Doc
record_updates target [] journal = journal
record_updates target ((k, v) ∷ updates) (baseline, applied) = record_updates target updates (
  if is_some (find k baseline) then baseline else put k (find k target) baseline,
  put k (some v) applied,
)

-- json.loads(annotations.get(key, "{}")) if existing == owner else {}
unfoldable pub kept : Bool → Option Note → Result Doc
kept true (some n) = loads n
kept true none = ok []
kept false n = ok []

claim_annotations : String → Doc × Doc → Dict Note → Dict (Option Note)
claim_annotations owner (baseline, applied) annotations =
    put field_applied (some (fields applied)) (
      put field_baseline (some (fields baseline))
        (put field_owner (some (plain owner)) (present annotations)))

-- _claim_fields, from the object read to the patch sent
unfoldable pub claim_patch : String → Bool → Section → Dict Value → Object → Result Patch
unfolding claim_annotations kept
claim_patch owner config section updates o =
    let existing = find field_owner o.annotations in
    let mine = is_owner owner existing in
    if truthy existing && not mine
    then err (value_error "owned by a different Lab intervention")
    else if config && not (is_owner owner (find control_owner o.annotations))
    then err (value_error "Scenario ConfigMap ownership was lost before mutation")
    else and_then (kept mine (find field_baseline o.annotations)) λ baseline.
      and_then (kept mine (find field_applied o.annotations)) λ applied. ok (record {
        version = o.version;
        annotations =
            claim_annotations owner
              (record_updates (section_of section o) updates (baseline, applied)) o.annotations;
        section = section;
        values = present updates;
      })

-- The loop over `applied.items()`: an edit by anybody else is kept, by raising.
unfoldable pub restored_fields : Dict Value → Doc → Doc → Result Doc
restored_fields target baseline [] = ok []
restored_fields target baseline ((k, v) ∷ applied) =
    let rest = restored_fields target baseline applied in
    if same (find k target) v
    then and_then rest (λ r. ok ((k, lookup k baseline) ∷ r))
    else err (value_error "changed during the run; preserving operator edit")

-- json.loads(annotations.get(key, "{}")) where the value is then used as a dict
unfoldable pub loads_or_empty : Option Note → Result Doc
loads_or_empty none = ok []
loads_or_empty (some (fields d)) = ok d
loads_or_empty (some (plain t)) = err (value_error "invalid JSON")
loads_or_empty (some n) = err attribute_error

restore_annotations : Dict Note → Dict (Option Note)
restore_annotations annotations =
    put field_applied none (put field_baseline none (put field_owner none (present annotations)))

-- _restore_owned_fields, from the object read to the patch sent; `none` is the return before it
unfoldable pub restore_patch : String → Bool → Section → Object → Result (Option Patch)
unfolding restore_annotations loads_or_empty
restore_patch expected config section o =
    let owner = find field_owner o.annotations in
    if config && not (is_owner expected (find control_owner o.annotations))
    then err (value_error "run ownership changed; preserving current value")
    else if not (truthy owner)
    then ok none
    else if not (is_owner expected owner)
    then err (value_error "ownership changed; preserving current value")
    else and_then (loads_or_empty (find field_baseline o.annotations)) λ baseline.
      and_then (loads_or_empty (find field_applied o.annotations)) λ applied.
        and_then (restored_fields (section_of section o) baseline applied) λ restore. ok (
          some (record {
            version = o.version;
            annotations = restore_annotations o.annotations;
            section = section;
            values = restore;
          }))
