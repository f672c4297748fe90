-- ===== src/Kube.antt =====
-- The Kubernetes objects that app/control.py reads and patches: their string maps, the ownership
-- journal kept in annotations, and the merge patch that the API server applies.
mod Equality
pub mod Merge
pub use Equality.{Endpoint, Value, text, endpoints, same-eq, same_refl}
unfoldable pub use Equality.{same}
use fcapsule_lab.Prelude.{
  ℕ, String, Bool, true, false, not, Option, none, some, List, Dict, find, str_eq,
}
use fcapsule_lab.Prelude.Exec.{Result, ok, err, value_error, type_error}

-- A JSON object; `none` is null.
abbrev pub Doc : Type 0
Doc = Dict (Option Value)

-- The text of an annotation, by what its writer wrote: the JSON text of an object, of a list of texts or of a
-- number, or any other text, a run ID among them, which is `plain`.
pub data Note : Type 0 where
  plain : String → Note
  fields : Doc → Note
  names : List String → Note
  number : ℕ → Note

pub record Object : Type 0 where
  pub version : String
  pub annotations : Dict Note
  pub labels : Dict Value
  pub content : Dict Value
  pub spec : Dict Value

pub data Section : Type 0 where
  in_labels in_data in_spec : Section

unfoldable pub section_of : Section → Object → Dict Value
section_of in_labels o = o.labels
section_of in_data o = o.content
section_of in_spec o = o.spec

-- A merge patch with its resourceVersion precondition: null deletes a key.
pub record Patch : Type 0 where
  pub version : String
  pub annotations : Dict (Option Note)
  pub section : Section
  pub values : Doc

-- d.get(k), of a JSON object whose value may be null
unfoldable pub lookup : String → Doc → Option Value
lookup k d = elim (find k d) [ none ↦ none | some v ↦ v ]

-- json.loads of an annotation, as a JSON object. JSON that is no object is rejected by the first
-- use of it as one.
unfoldable pub loads : Note → Result Doc
loads (fields d) = ok d
loads (plain t) = err (value_error "invalid JSON")
loads (names l) = err type_error
loads (number n) = err type_error

-- the truth value of `annotations.get(k)`
unfoldable pub truthy : Option Note → Bool
truthy none = false
truthy (some (plain t)) = not (str_eq t "")
truthy (some n) = true

-- annotations.get(k) == owner
unfoldable pub is_owner : String → Option Note → Bool
is_owner owner (some (plain t)) = str_eq t owner
is_owner owner o = false
