-- ===== src/Scoring/Pipeline.antt =====
-- What the pipeline score of evaluation/scoring.py says.
use fcapsule_lab.Prelude.{
  ℕ, zero, suc, ◌+◌, ◌≡◌, ◌≤◌, ◌↔◌, refl, String, Bool, true, Option, none, some, List, arith,
}
use fcapsule_lab.Scoring.{
  RunRecord, Investigation, is_one_of, usable_statuses, terminal_statuses, fault_owned, alert_seen,
  exact_incident, recovered, pipeline_checks, worth, pipeline_score, thirds, observability_score,
}

-- An investigation that is usable is terminal.
usable-terminal :
    (s : Option String) → is_one_of usable_statuses s ≡ true → is_one_of terminal_statuses s ≡ true
unfolding usable_statuses terminal_statuses
usable-terminal none h = h
usable-terminal (some t) h = ground arith

-- What the full score stands for.
pub record IsComplete (r : RunRecord) (v : Investigation) : Type 0 where
  pub owned : fault_owned r ≡ true
  pub seen : alert_seen r ≡ true
  pub exact : exact_incident r v ≡ true
  pub usable : is_one_of usable_statuses v.status ≡ true
  pub restored : recovered r ≡ true

-- Weights that add up to 100 are all earned.
all_earned :
    (a b c d e f : Bool)
    → worth 15 a + worth 15 b + worth 15 c + worth 15 d + worth 20 e + worth 20 f ≡ 100
    → (a ≡ true) × (b ≡ true) × (c ≡ true) × (e ≡ true) × (f ≡ true)
all_earned a b c d e f h = ground arith

at_most_100 :
    (a b c d e f : Bool)
    → worth 15 a + worth 15 b + worth 15 c + worth 15 d + worth 20 e + worth 20 f ≤ 100
at_most_100 a b c d e f = ground arith

thirds_bound : (n : ℕ) → thirds n ≤ 1000
unfolding thirds
thirds_bound zero = omega arith
thirds_bound (suc zero) = omega arith
thirds_bound (suc (suc zero)) = omega arith
thirds_bound (suc (suc (suc n))) = omega arith

pipeline_score-IsComplete :
    (required : List String) (r : RunRecord) (v : Investigation)
    → pipeline_score (pipeline_checks required r v) ≡ 100
    → IsComplete r v
unfolding pipeline_score
pipeline_score-IsComplete required r v h =
    let c = pipeline_checks required r v in
    let (owned, seen, exact, usable, restored) =
      all_earned c.owned_fault_generation c.expected_alert c.exact_incident_in_assessment
        c.investigation_terminal c.investigation_usable c.owned_recovery_confirmed h in
    unfold pipeline_checks in
    record { owned = owned; seen = seen; exact = exact; usable = usable; restored = restored }

IsComplete-pipeline_score :
    (required : List String) (r : RunRecord) (v : Investigation)
    → IsComplete r v
    → pipeline_score (pipeline_checks required r v) ≡ 100
unfolding pipeline_score pipeline_checks
IsComplete-pipeline_score required r v h =
    rw (h.owned, h.seen, h.exact, h.usable, h.restored, usable-terminal v.status h.usable) refl

-- The pipeline score is at most 100, and it is 100 exactly when the run owned its fault, its alert was seen, the
-- assessment is of that incident and usable, and the recovery was confirmed, whatever the logs and domains
-- are; the observability score is at most 100.0.
pub pipeline_score-full :
    (required : List String) (r : RunRecord) (v : Investigation)
    → (pipeline_score (pipeline_checks required r v) ≤ 100)
      × ((pipeline_score (pipeline_checks required r v) ≡ 100) ↔ IsComplete r v)
      × (observability_score (pipeline_checks required r v) ≤ 1000)
unfolding pipeline_score observability_score
pipeline_score-full required r v =
    let c = pipeline_checks required r v in
    (
      at_most_100 c.owned_fault_generation c.expected_alert c.exact_incident_in_assessment
          c.investigation_terminal c.investigation_usable c.owned_recovery_confirmed,
      (pipeline_score-IsComplete required r v, IsComplete-pipeline_score required r v),
      thirds_bound _,
    )
