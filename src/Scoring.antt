-- ===== src/Scoring.antt =====
-- evaluation/scoring.py: score_pipeline and diagnostic_attribution. The JSON records are read as records with the
-- types that the tools write; a text that is absent, null or empty is `none`.
pub mod Pipeline
pub mod Attribution
mod Examples
use fcapsule_lab.Prelude.{
  ℕ, zero, suc, ◌+◌, ◌*◌, String, Bool, true, false, not, ◌&&◌, ◌||◌, Option, none, some, List, [],
  ◌∷◌, str_eq, is_some, any, all, member, if◌then◌else◌,
}

-- `logs`: one capture of a pod's log
pub record Capture : Type 0 where
  pub ok : Option Bool
  pub retained_lines : ℕ

-- `control`: `run_id` of its `run`, as it stands there, or none
pub record ControlReply : Type 0 where
  pub run_id : Option String

pub record RunRecord : Type 0 where
  pub scenario : String
  pub outcome : String
  pub alert_observed : Option Bool
  pub acceptable_primary_alerts : List String
  pub expected_alert : Option String
  -- the alertname of each observed alert
  pub observed_alerts : List (Option String)
  pub incident_id : Option String
  pub assessment_matches_incident : Option Bool
  pub recovery_confirmed : Bool
  pub recovery_restored : Bool
  pub recovery_ok : Bool
  pub owner_run_id : Option String
  pub owner : Option String
  pub control : Option ControlReply
  pub injection_attempted : Option Bool
  pub captured_domains : List String
  pub logs : List Capture

pub record Investigation : Type 0 where
  pub status : Option String
  pub primary_incident_id : Option String
  pub input_fingerprint : Option String

abbrev or_else : Option String → Option String → Option String
or_else none b = b
or_else (some a) b = some a

abbrev not_empty : Option String → Option String
not_empty none = none
not_empty (some t) = if str_eq t "" then none else some t

abbrev pub is_one_of : List String → Option String → Bool
is_one_of l none = false
is_one_of l (some t) = member t l

abbrev pub is_text : String → Option String → Bool
is_text t none = false
is_text t (some u) = str_eq u t

abbrev or_default : Bool → Option Bool → Bool
or_default d none = d
or_default d (some b) = b

unfoldable pub usable_statuses : List String
usable_statuses = "ready" ∷ "incomplete" ∷ "inconclusive" ∷ []

unfoldable pub terminal_statuses : List String
unfolding usable_statuses
terminal_statuses = "not_configured" ∷ "failed" ∷ "blocked" ∷ usable_statuses

-- acceptable_primary_alerts, or expected_alert
unfoldable pub expected_names : List String → Option String → List String
expected_names (a ∷ l) e = a ∷ l
expected_names [] none = []
expected_names [] (some a) = a ∷ []

unfoldable pub alert_seen : RunRecord → Bool
unfolding expected_names
alert_seen r =
    or_default
      (any (is_one_of (expected_names r.acceptable_primary_alerts r.expected_alert))
        r.observed_alerts)
      r.alert_observed

-- investigation.get("primary_incident_id") == incident_id, where there is an incident ID
unfoldable pub same_incident : Option String → Option String → Bool
same_incident none primary = false
same_incident (some i) primary = is_text i primary

unfoldable pub exact_incident : RunRecord → Investigation → Bool
unfolding same_incident
exact_incident r v =
    or_default (same_incident r.incident_id v.primary_incident_id) r.assessment_matches_incident

-- (run.get("control") or {}).get("run", {}).get("run_id")
unfoldable pub control_id : Option ControlReply → Option String
control_id none = none
control_id (some c) = c.run_id

unfoldable pub owner_of : RunRecord → Option String
unfolding control_id
owner_of r = or_else r.owner_run_id (or_else r.owner (not_empty (control_id r.control)))

-- the control's run ID, if it names one, is the owner
unfoldable pub agrees : Option String → Option String → Bool
agrees none control = false
agrees (some o) none = true
agrees (some o) (some c) = str_eq c o

unfoldable pub fault_owned : RunRecord → Bool
unfolding owner_of agrees control_id
fault_owned r =
    if not (is_some r.control) && is_some r.alert_observed
    then or_default true r.injection_attempted && or_default false r.alert_observed
    else if str_eq r.scenario "mysql-exporter-scrape-path"
    then is_some (owner_of r) && str_eq r.outcome "captured"
    else agrees (owner_of r) (control_id r.control)

unfoldable pub recovered : RunRecord → Bool
recovered r = r.recovery_confirmed || r.recovery_restored || r.recovery_ok

unfoldable pub logs_collected : List Capture → Bool
logs_collected [] = false
logs_collected (c ∷ l) = all (λ k. or_default false k.ok) (c ∷ l)

abbrev pub is_subset : List String → List String → Bool
is_subset l m = all (λ t. member t m) l

pub record Checks : Type 0 where
  pub owned_fault_generation : Bool
  pub expected_alert : Bool
  pub exact_incident_in_assessment : Bool
  pub investigation_terminal : Bool
  pub investigation_usable : Bool
  pub owned_recovery_confirmed : Bool
  pub required_domains_available : Bool
  pub local_log_collection_complete : Bool
  pub capsule_ready : Bool

-- `checks`, of score_pipeline
unfoldable pub pipeline_checks : List String → RunRecord → Investigation → Checks
unfolding usable_statuses terminal_statuses fault_owned alert_seen exact_incident recovered
    logs_collected
pipeline_checks required_domains r v = record {
  owned_fault_generation = fault_owned r;
  expected_alert = alert_seen r;
  exact_incident_in_assessment = exact_incident r v;
  investigation_terminal = is_one_of terminal_statuses v.status;
  investigation_usable = is_one_of usable_statuses v.status;
  owned_recovery_confirmed = recovered r;
  required_domains_available = is_subset required_domains r.captured_domains;
  local_log_collection_complete = logs_collected r.logs;
  capsule_ready = is_some v.input_fingerprint;
}

abbrev pub worth : ℕ → Bool → ℕ
worth n true = n
worth n false = 0

-- pipeline_score
unfoldable pub pipeline_score : Checks → ℕ
pipeline_score c =
    worth 15 c.owned_fault_generation
    + worth 15 c.expected_alert
    + worth 15 c.exact_incident_in_assessment
    + worth 15 c.investigation_terminal
    + worth 20 c.investigation_usable
    + worth 20 c.owned_recovery_confirmed

-- round(100 * n / 3, 1), in tenths
unfoldable pub thirds : ℕ → ℕ
thirds zero = 0
thirds (suc zero) = 333
thirds (suc (suc zero)) = 667
thirds n = 1000

unfoldable pub observability_score : Checks → ℕ
unfolding thirds
observability_score c = thirds (
    worth 1 c.required_domains_available
    + worth 1 c.local_log_collection_complete
    + worth 1 c.capsule_ready)

-- an alert of the retained context
pub record Alert : Type 0 where
  pub incident_id : Option String
  pub alert_identity : Option String
  pub alertname : Option String
  pub label_alertname : Option String

pub data Verdict : Type 0 where
  verified mismatch unavailable : Verdict

unfoldable pub identity : Alert → Option String
identity a = or_else a.alert_identity (or_else a.alertname a.label_alertname)

unfoldable pub of_incident : String → List Alert → List Alert
of_incident primary [] = []
of_incident primary (a ∷ l) =
    let rest = of_incident primary l in if is_text primary a.incident_id then a ∷ rest else rest

unfoldable pub identities : List Alert → List (Option String)
unfolding identity
identities [] = []
identities (a ∷ l) =
    let rest = identities l in if is_some (identity a) then identity a ∷ rest else rest

unfoldable pub judged : List String → List (Option String) → Verdict
judged expected [] = unavailable
judged expected (i ∷ l) = if any (is_one_of expected) (i ∷ l) then verified else mismatch

unfoldable pub among : List String → List Alert → Verdict
unfolding identities judged
among expected [] = mismatch
among expected (a ∷ l) = judged expected (identities (a ∷ l))

unfoldable pub by_primary : List String → List Alert → Option String → Verdict
unfolding of_incident among
by_primary expected alerts none = mismatch
by_primary expected alerts (some primary) = among expected (of_incident primary alerts)

-- diagnostic_attribution, of the accepted alerts, the context's alerts (`none`: no list) and the primary incident
unfoldable pub diagnostic_attribution : List String → Option (List Alert) → Option String → Verdict
unfolding by_primary
diagnostic_attribution [] alerts primary = unavailable
diagnostic_attribution expected none primary = unavailable
diagnostic_attribution expected (some []) primary = unavailable
diagnostic_attribution expected (some alerts) primary = by_primary expected alerts primary
