-- ===== src/Control/Journal/Undo.antt =====
-- _claim_fields and _restore_owned_fields of app/control.py, on the objects that they patch.
use fcapsule_lab.Prelude.{
  ◌≡◌, refl, String, Bool, true, false, not, ◌&&◌, ◌||◌, Option, none, some, arith, str_eq, eq_iff,
  if◌then◌else◌, Dict, find, find-put,
}
use fcapsule_lab.Prelude.Exec.{ok, and_then, and_then-ok}
use fcapsule_lab.Kube.{
  Value, Doc, Note, plain, fields, Object, Section, section_of, Patch, truthy, is_owner,
}
use fcapsule_lab.Kube.Merge.{merge, over, find-merge, merged, section-merged, annotations-merged}
use fcapsule_lab.Control.Journal.{
  control_owner, field_owner, field_baseline, field_applied, present, claim_annotations,
  claim_patch, restore_annotations, restore_patch, restored_fields,
}
use fcapsule_lab.Control.Journal.RoundTrip.{
  ReadsDoc, restored_fields-inv, Reads, find-present, back, fresh, restored_fields-fresh,
  find-back-fresh,
}

abbrev pub journal_key : String → Bool
journal_key j = str_eq field_owner j || str_eq field_baseline j || str_eq field_applied j

abbrev first_patch : String → Section → Dict Value → Object → Patch
first_patch owner section updates o = record {
  version = o.version;
  annotations = claim_annotations owner (fresh (section_of section o) updates) o.annotations;
  section = section;
  values = present updates;
}

abbrev undo_patch : Section → Dict Value → Dict Value → Object → Patch
undo_patch section target updates o = record {
  version = o.version;
  annotations = restore_annotations o.annotations;
  section = section;
  values = back (fresh target updates).0 (fresh target updates).1;
}

not_mine :
    (owner : String) (n : Option Note)
    → str_eq owner "" ≡ false
    → truthy n ≡ false
    → is_owner owner n ≡ false
unfolding truthy is_owner
not_mine owner none e h = refl
not_mine owner (some (plain t)) e h = ground (arith, eq_iff t "", eq_iff t owner, eq_iff owner "")
not_mine owner (some n) e h = ground arith

claim_patch-first :
    (owner : String) (config : Bool) (section : Section) (updates : Dict Value) (o : Object)
    (p : Patch)
    → str_eq owner "" ≡ false
    → truthy (find field_owner o.annotations) ≡ false
    → claim_patch owner config section updates o ≡ ok p
    → (p ≡ first_patch owner section updates o)
      × (config && not (is_owner owner (find control_owner o.annotations)) ≡ false)
unfolding claim_patch
claim_patch-first owner config section updates o p e u h =
    ground (arith, not_mine owner (find field_owner o.annotations) e u)

claimed_notes :
    (owner : String) (j : String) (b a : Doc) (d : Dict Note)
    → find j (merge (claim_annotations owner (b, a) d) d) ≡ (
        if str_eq field_applied j
        then some (fields a)
        else if str_eq field_baseline j
        then some (fields b)
        else if str_eq field_owner j
        then some (plain owner)
        else find j d)
unfolding claim_annotations over
claimed_notes owner j b a d = rw find-merge (simp (find-put, find-present) (ground arith))

restored_notes :
    (j : String) (d : Dict Note)
    → find j (merge (restore_annotations d) d) ≡ (if journal_key j then none else find j d)
unfolding restore_annotations over
restored_notes j d = rw find-merge (simp (find-put, find-present) (ground arith))

is_owner_self : (owner : String) → is_owner owner (some (plain owner)) ≡ true
unfolding is_owner
is_owner_self owner = ground (arith, eq_iff owner owner)

truthy-plain : (owner : String) → str_eq owner "" ≡ false → truthy (some (plain owner)) ≡ true
unfolding truthy
truthy-plain owner e = ground arith

module _ (owner : String) (section : Section) (updates : Dict Value) (o : Object)
    (version : String) where
  abbrev claimed : Object
  claimed = merged version (first_patch owner section updates o) o

  claimed_note :
      (j : String)
      → find j claimed.annotations ≡ (
          if str_eq field_applied j
          then some (fields (fresh (section_of section o) updates).1)
          else if str_eq field_baseline j
          then some (fields (fresh (section_of section o) updates).0)
          else if str_eq field_owner j
          then some (plain owner)
          else find j o.annotations)
  claimed_note j = rw annotations-merged (claimed_notes owner j _ _ o.annotations)

  claimed_section : section_of section claimed ≡ merge (present updates) (section_of section o)
  claimed_section = section-merged version (first_patch owner section updates o) o

  restore-claimed :
      (config : Bool)
      → str_eq owner "" ≡ false
      → config && not (is_owner owner (find control_owner o.annotations)) ≡ false
      → Reads (λ k. find k updates) updates
      → restore_patch owner config section claimed
        ≡ ok (some (undo_patch section (section_of section o) updates claimed))
  unfolding restore_patch
  restore-claimed config e c r =
      rw
        (
          claimed_note control_owner,
          claimed_note field_owner,
          claimed_note field_baseline,
          claimed_note field_applied,
          claimed_section,
        )
        (ground (
          arith,
          truthy-plain owner e,
          is_owner_self owner,
          restored_fields-fresh (section_of section o) updates r,
        ))

  undone_section :
      (later j : String)
      → let q = undo_patch section (section_of section o) updates claimed in
        find j (section_of section (merged later q claimed)) ≡ find j (section_of section o)
  undone_section later j =
      rw
        (
          section-merged later (undo_patch section (section_of section o) updates claimed) claimed,
          claimed_section,
        )
        (find-back-fresh j (section_of section o) updates)

  undone_note :
      (later j : String)
      → let q = undo_patch section (section_of section o) updates claimed in
        find j (merged later q claimed).annotations
        ≡ (if journal_key j then none else find j o.annotations)
  undone_note later j = rw (annotations-merged, restored_notes, claimed_note) (ground arith)

-- If a resource had no field owner and a run claimed fields of it, and nobody changed it since, then the
-- recovery of that run is not refused: it sends one patch, after which every key of the claimed
-- section and every annotation has the value that it had before the claim, and the three journal annotations
-- are gone.
pub restore-claim :
    (owner : String) (config : Bool) (section : Section) (updates : Dict Value) (o : Object)
    (p : Patch) (version later : String)
    → str_eq owner "" ≡ false
    → truthy (find field_owner o.annotations) ≡ false
    → Reads (λ k. find k updates) updates
    → claim_patch owner config section updates o ≡ ok p
    → (q : Patch) × (restore_patch owner config section (merged version p o) ≡ ok (some q))
      × ((j : String)
          → find j (section_of section (merged later q (merged version p o)))
            ≡ find j (section_of section o))
      × ((j : String)
          → find j (merged later q (merged version p o)).annotations
            ≡ (if journal_key j then none else find j o.annotations))
restore-claim owner config section updates o p version later e u r h =
    let (same_patch, c) = claim_patch-first owner config section updates o p e u h in
    rw same_patch (
      undo_patch section (section_of section o) updates (claimed owner section updates o version),
      restore-claimed owner section updates o version config e c r,
      undone_section owner section updates o version later,
      undone_note owner section updates o version later,
    )

restored_by : Section → Object → Doc → Option Patch
restored_by section o restore = some (record {
  version = o.version;
  annotations = restore_annotations o.annotations;
  section = section;
  values = restore;
})

restore_patch-sent :
    (owner : String) (config : Bool) (section : Section) (o : Object) (b a : Doc) (q : Patch)
    → find field_baseline o.annotations ≡ some (fields b)
    → find field_applied o.annotations ≡ some (fields a)
    → restore_patch owner config section o ≡ ok (some q)
    → (is_owner owner (find field_owner o.annotations) ≡ true)
      × (and_then (restored_fields (section_of section o) b a) (λ r. ok (restored_by section o r))
          ≡ ok (some q))
unfolding restore_patch restored_by
restore_patch-sent owner config section o b a q eb ea h = ground arith

-- A recovery that sends a patch for a resource belongs to the run that owns its fields, saw
-- each field with the very value that the run had applied, and sends exactly the recorded baseline for the
-- fields that were applied: a field that somebody else edited is never overwritten.
pub restore-unedited :
    (owner : String) (config : Bool) (section : Section) (o : Object) (b a : Doc) (q : Patch)
    → find field_baseline o.annotations ≡ some (fields b)
    → find field_applied o.annotations ≡ some (fields a)
    → restore_patch owner config section o ≡ ok (some q)
    → (is_owner owner (find field_owner o.annotations) ≡ true)
      × ReadsDoc (λ k. find k (section_of section o)) a
      × (q.values ≡ back b a)
      × (q.section ≡ section)
unfolding restored_by
restore-unedited owner config section o b a q eb ea h =
    let (mine, e) = restore_patch-sent owner config section o b a q eb ea h in
    let (r, seen, sent) = and_then-ok (restored_fields (section_of section o) b a) _ (some q) e in
    let (reads, given) = restored_fields-inv (section_of section o) b a r seen in
    (mine, reads, ground arith, ground arith)
