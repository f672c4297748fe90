-- ===== src/Control/Journal/RoundTrip.antt =====
-- What a claim writes down is what the recovery gives back: _claim_fields, then
-- _restore_owned_fields, of app/control.py.
use fcapsule_lab.Prelude.{
  ◌≡◌, refl, ◌∙◌, ap, String, true, ◌||◌, Option, none, some, [], ◌∷◌, arith, str_eq, eq_iff,
  if◌then◌else◌, Dict, find, put, find-put, is_some, Bool-cases, inl, inr,
}
use fcapsule_lab.Prelude.Exec.{ok, and_then-ok}
use fcapsule_lab.Kube.{Value, Doc, lookup, same, same-eq, same_refl}
use fcapsule_lab.Kube.Merge.{merge, over, find-merge}
use fcapsule_lab.Control.Journal.{present, record_updates, restored_fields}

-- Every entry is the one that a lookup finds, as in a dict.
abbrev pub Reads {ℓ} : {V : Type ℓ} → (String → Option V) → Dict V → Type ℓ
Reads f [] = Unit
Reads f ((k, v) ∷ d) = (f k ≡ some v) × Reads f d

abbrev pub ReadsDoc : (String → Option Value) → Doc → Type 0
ReadsDoc f [] = Unit
ReadsDoc f ((k, v) ∷ d) = (f k ≡ v) × ReadsDoc f d

-- the patch that restored_fields builds when no field was edited
pub back : Doc → Doc → Doc
back baseline [] = []
back baseline ((k, v) ∷ applied) = (k, lookup k baseline) ∷ back baseline applied

abbrev mapped {ℓ} : {V : Type ℓ} → Option V → Option (Option V)
mapped none = none
mapped (some v) = some (some v)

pub find-present {ℓ} :
    {V : Type ℓ} (j : String) (d : Dict V) → find j (present d) ≡ mapped (find j d)
unfolding find
find-present j [] = refl
find-present j ((k, v) ∷ d) = ground (arith, find-present j d)

over-mapped :
    (j : String) (us t : Dict Value)
    → find j (merge (present us) t) ≡ (if is_some (find j us) then find j us else find j t)
unfolding over
over-mapped j us t = ground (arith, find-merge j (present us) t, find-present j us)

Reads-merge :
    (us t d : Dict Value) → Reads (λ k. find k us) d → Reads (λ k. find k (merge (present us) t)) d
Reads-merge us t [] h = tt
Reads-merge us t ((k, v) ∷ d) h = (ground (arith, over-mapped k us t), Reads-merge us t d h.1)

ReadsDoc-put :
    (f : String → Option Value) (k : String) (o : Option Value) (a : Doc)
    → f k ≡ o
    → ReadsDoc f a
    → ReadsDoc f (put k o a)
unfolding put
ReadsDoc-put f k o [] e h = (e, tt)
ReadsDoc-put f k o ((j, v) ∷ a) e h = elim (Bool-cases (str_eq j k)) [
  | inl same_key ↦ rw same_key (ap f ((eq_iff j k).0 same_key) ∙ e, h.1)
  | inr other ↦ rw other (h.0, ReadsDoc-put f k o a e h.1)
]

ReadsDoc-record_updates :
    (f : String → Option Value) (t us : Dict Value) (b a : Doc)
    → Reads f us
    → ReadsDoc f a
    → ReadsDoc f (record_updates t us (b, a)).1
unfolding record_updates
ReadsDoc-record_updates f t [] b a r h = h
ReadsDoc-record_updates f t ((k, v) ∷ us) b a r h =
    ReadsDoc-record_updates f t us (if is_some (find k b) then b else put k (find k t) b)
      (put k (some v) a) r.1 (ReadsDoc-put f k (some v) a r.0 h)

restored_fields-back :
    (t : Dict Value) (b a : Doc)
    → ReadsDoc (λ k. find k t) a
    → restored_fields t b a ≡ ok (back b a)
unfolding restored_fields back
restored_fields-back t b [] h = refl
restored_fields-back t b ((k, v) ∷ a) h =
    ground (arith, restored_fields-back t b a h.1, same_refl v)

restored_fields-cons :
    (t : Dict Value) (b : Doc) (k : String) (v : Option Value) (a r : Doc)
    → restored_fields t b ((k, v) ∷ a) ≡ ok r
    → (same (find k t) v ≡ true)
      × (rest : Doc) × (restored_fields t b a ≡ ok rest)
      × (r ≡ (k, lookup k b) ∷ rest)
unfolding restored_fields
restored_fields-cons t b k v a r h = elim (Bool-cases (same (find k t) v)) [
  | inl e ↦
      let (rest, p, q) = and_then-ok (restored_fields t b a) _ r (rw e at h) in
      (e, rest, p, ground arith)
  | inr e ↦ absurd (ground arith)
]

-- A restore that is not refused saw every applied value in place, and gives back the baseline.
pub restored_fields-inv :
    (t : Dict Value) (b a r : Doc)
    → restored_fields t b a ≡ ok r
    → ReadsDoc (λ k. find k t) a × (r ≡ back b a)
unfolding restored_fields back
restored_fields-inv t b [] r h = (tt, ground arith)
restored_fields-inv t b ((k, v) ∷ a) r h =
    let (e, rest, p, q) = restored_fields-cons t b k v a r h in
    let (reads, same_rest) = restored_fields-inv t b a rest p in
    ((same-eq (find k t) v e, reads), q ∙ ap (λ l. (k, lookup k b) ∷ l) same_rest)

find-back :
    (j : String) (b a : Doc)
    → find j (back b a) ≡ (if is_some (find j a) then some (lookup j b) else none)
unfolding find back
find-back j b [] = refl
find-back j b ((k, v) ∷ a) = ground (arith, find-back j b a, eq_iff k j)

applied-record_updates :
    (j : String) (t us : Dict Value) (b a : Doc)
    → is_some (find j (record_updates t us (b, a)).1) ≡ is_some (find j a) || is_some (find j us)
unfolding record_updates find
applied-record_updates j t [] b a = ground arith
applied-record_updates j t ((k, v) ∷ us) b a = ground (
  arith,
  applied-record_updates j t us (if is_some (find k b) then b else put k (find k t) b)
      (put k (some v) a),
  find-put k j (some v) a,
)

baseline-record_updates :
    (j : String) (t us : Dict Value) (b a : Doc)
    → find j (record_updates t us (b, a)).0 ≡ (
        if is_some (find j b)
        then find j b
        else if is_some (find j us)
        then some (find j t)
        else none)
unfolding record_updates find
baseline-record_updates j t [] b a = ground arith
baseline-record_updates j t ((k, v) ∷ us) b a = ground (
  arith,
  baseline-record_updates j t us (if is_some (find k b) then b else put k (find k t) b)
      (put k (some v) a),
  find-put k j (find k t) b,
  eq_iff k j,
)

-- The first claim of a section, from empty journals.
abbrev pub fresh : Dict Value → Dict Value → Doc × Doc
fresh t us = record_updates t us ([], [])

-- No field was edited since: the restore finds every applied value and gives the baseline back.
pub restored_fields-fresh :
    (t us : Dict Value)
    → Reads (λ k. find k us) us
    → restored_fields (merge (present us) t) (fresh t us).0 (fresh t us).1
      ≡ ok (back (fresh t us).0 (fresh t us).1)
restored_fields-fresh t us r =
    restored_fields-back (merge (present us) t) (fresh t us).0 (fresh t us).1 (
      ReadsDoc-record_updates (λ k. find k (merge (present us) t)) t us [] []
        (Reads-merge us t us r) tt)

-- Then every key of the section has its earlier value, and an added key is gone.
pub find-back-fresh :
    (j : String) (t us : Dict Value)
    → find j (merge (back (fresh t us).0 (fresh t us).1) (merge (present us) t)) ≡ find j t
unfolding over lookup find
find-back-fresh j t us = ground (
  arith,
  find-merge j (back (fresh t us).0 (fresh t us).1) (merge (present us) t),
  over-mapped j us t,
  find-back j (fresh t us).0 (fresh t us).1,
  applied-record_updates j t us [] [],
  baseline-record_updates j t us [] [],
)
