-- ===== src/Scoring/Attribution.antt =====
-- When diagnostic_attribution of evaluation/scoring.py verifies an investigation.
use fcapsule_lab.Prelude.{
  ◌≡◌, ◌↔◌, inl, inr, refl, sym, ap, ◌∙◌, String, Bool, true, false, ◌||◌, ◌&&◌, Option, none, some,
  List, [], ◌∷◌, arith, is_some, any, if◌then◌else◌, Bool-cases,
}
use fcapsule_lab.Scoring.{
  Alert, verified, is_text, is_one_of, identity, of_incident, identities, judged, among, by_primary,
  diagnostic_attribution,
}

-- One of the alerts is of the primary incident, and its identity is an accepted one.
unfoldable pub has_accepted : List String → String → List Alert → Bool
has_accepted expected primary [] = false
has_accepted expected primary (a ∷ l) =
    (is_text primary a.incident_id && is_one_of expected (identity a))
    || has_accepted expected primary l

any-kept :
    (expected : List String) (v : Option String) (rest : List (Option String))
    → any (is_one_of expected) (if is_some v then v ∷ rest else rest)
      ≡ (is_one_of expected v || any (is_one_of expected) rest)
any-kept expected none rest = refl
any-kept expected (some t) rest = refl

any-identities :
    (expected : List String) (primary : String) (l : List Alert)
    → any (is_one_of expected) (identities (of_incident primary l))
      ≡ has_accepted expected primary l
unfolding has_accepted of_incident identities
any-identities expected primary [] = refl
any-identities expected primary (a ∷ l) = elim (Bool-cases (is_text primary a.incident_id)) [
  | inl e ↦
      rw (e, of_incident, has_accepted)
        (any-kept expected (identity a) (identities (of_incident primary l))
          ∙ ap (λ b. is_one_of expected (identity a) || b) (any-identities expected primary l))
  | inr e ↦ rw (e, of_incident, has_accepted) (any-identities expected primary l)
]

judged-verified :
    (expected : List String) (l : List (Option String))
    → (judged expected l ≡ verified) ↔ (any (is_one_of expected) l ≡ true)
unfolding judged
judged-verified expected [] = ((λ h. absurd (ground arith)), λ h. absurd (ground arith))
judged-verified expected (i ∷ l) = ((λ h. ground arith), λ h. ground arith)

among-verified :
    (expected : List String) (l : List Alert)
    → (among expected l ≡ verified) ↔ (any (is_one_of expected) (identities l) ≡ true)
unfolding among
among-verified expected [] = ((λ h. absurd (ground arith)), λ h. absurd (ground arith))
among-verified expected (a ∷ l) = judged-verified expected (identities (a ∷ l))

-- With accepted alerts, retained alerts and a primary incident, an investigation is verified exactly when one of the
-- retained alerts is of the primary incident and its identity is an accepted alert.
pub diagnostic_attribution-verified :
    (e : String) (expected : List String) (a : Alert) (l : List Alert) (primary : String)
    → (diagnostic_attribution (e ∷ expected) (some (a ∷ l)) (some primary) ≡ verified)
      ↔ (has_accepted (e ∷ expected) primary (a ∷ l) ≡ true)
unfolding diagnostic_attribution by_primary
diagnostic_attribution-verified e expected a l primary =
    let (there, back) = among-verified (e ∷ expected) (of_incident primary (a ∷ l)) in
    let same = any-identities (e ∷ expected) primary (a ∷ l) in
    ((λ h. sym same ∙ there h), λ h. back (same ∙ h))
