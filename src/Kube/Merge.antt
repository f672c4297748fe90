-- ===== src/Kube/Merge.antt =====
-- The documented effect of a JSON merge patch on an object.
use fcapsule_lab.Prelude.{
  ◌≡◌, refl, String, Option, none, some, [], ◌∷◌, arith, str_eq, if◌then◌else◌, Dict, find, put,
  remove, find-put, find-remove,
}
use fcapsule_lab.Kube.{Doc, Object, Note, Section, in_labels, in_data, in_spec, section_of, Patch}

module _ {ℓ} {V : Type ℓ} where
  unfoldable pub assign : String → Option V → Dict V → Dict V
  assign k none d = remove k d
  assign k (some v) d = put k v d

  -- The keys of a patch are distinct, so their order does not matter.
  unfoldable pub merge : Dict (Option V) → Dict V → Dict V
  unfolding assign
  merge [] d = d
  merge ((k, o) ∷ p) d = assign k o (merge p d)

  -- what a patch says of a key, over what was there
  unfoldable pub over : Option (Option V) → Option V → Option V
  over none old = old
  over (some o) old = o

  find-assign :
      (k j : String) (o : Option V) (d : Dict V)
      → find j (assign k o d) ≡ (if str_eq k j then o else find j d)
  unfolding assign
  find-assign k j none d = find-remove k j d
  find-assign k j (some v) d = find-put k j v d

  -- A key that the patch names has the patch's value, and every other key is as it was.
  pub find-merge :
      (j : String) (p : Dict (Option V)) (d : Dict V)
      → find j (merge p d) ≡ over (find j p) (find j d)
  unfolding merge over find
  find-merge j [] d = refl
  find-merge j ((k, o) ∷ p) d = ground (arith, find-assign k j o (merge p d), find-merge j p d)

-- Only the section that the patch names changes, beside the annotations. `version` is the
-- resourceVersion that the server assigns.
unfoldable pub revise : Section → String → Dict Note → Doc → Object → Object
revise in_labels version notes p o = record o {
  version = version;
  annotations = notes;
  labels = merge p o.labels;
}
revise in_data version notes p o = record o {
  version = version;
  annotations = notes;
  content = merge p o.content;
}
revise in_spec version notes p o = record o {
  version = version;
  annotations = notes;
  spec = merge p o.spec;
}

unfoldable pub merged : String → Patch → Object → Object
unfolding revise
merged version p o = revise p.section version (merge p.annotations o.annotations) p.values o

-- After a patch, its section and the annotations are the merged ones.
pub section-merged :
    (version : String) (p : Patch) (o : Object)
    → section_of p.section (merged version p o) ≡ merge p.values (section_of p.section o)
unfolding merged section_of
section-merged version p o = by_section p.section
  where
    by_section :
        (s : Section)
        → section_of s (revise s version (merge p.annotations o.annotations) p.values o)
          ≡ merge p.values (section_of s o)
    by_section in_labels = refl
    by_section in_data = refl
    by_section in_spec = refl

pub annotations-merged :
    (version : String) (p : Patch) (o : Object)
    → (merged version p o).annotations ≡ merge p.annotations o.annotations
unfolding merged
annotations-merged version p o = by_section p.section
  where
    by_section :
        (s : Section)
        → (revise s version (merge p.annotations o.annotations) p.values o).annotations
          ≡ merge p.annotations o.annotations
    by_section in_labels = refl
    by_section in_data = refl
    by_section in_spec = refl
