-- ===== src/Kube/Equality.antt =====
-- Values of a Kubernetes string map or spec, and Python's `==` on them.
use fcapsule_lab.Prelude.{
  String, ◌≡◌, Bool, true, false, ◌&&◌, Option, none, some, List, [], ◌∷◌, arith, str_eq, eq_iff,
}

-- An endpoint of a ServiceMonitor: its path, if it has one, and the canonical text of its other
-- fields, which the program only copies and compares.
pub record Endpoint : Type 0 where
  pub path : Option String
  pub rest : String

pub data Value : Type 0 where
  text : String → Value
  endpoints : List Endpoint → Value

same_path : Option String → Option String → Bool
same_path none none = true
same_path (some a) (some b) = str_eq a b
same_path _ _ = false

same_list : List Endpoint → List Endpoint → Bool
unfolding same_path
same_list [] [] = true
same_list (a ∷ l) (b ∷ m) = same_path a.path b.path && str_eq a.rest b.rest && same_list l m
same_list _ _ = false

same_value : Value → Value → Bool
unfolding same_list
same_value (text a) (text b) = str_eq a b
same_value (endpoints a) (endpoints b) = same_list a b
same_value _ _ = false

-- target.get(key) == value, where `none` is None
unfoldable pub same : Option Value → Option Value → Bool
unfolding same_value
same none none = true
same (some a) (some b) = same_value a b
same _ _ = false

same_path-eq : (a b : Option String) → same_path a b ≡ true → a ≡ b
unfolding same_path
same_path-eq none none h = ground arith
same_path-eq (some a) (some b) h = ground (arith, eq_iff a b)
same_path-eq none (some b) h = ground arith
same_path-eq (some a) none h = ground arith

same_list-eq : (l m : List Endpoint) → same_list l m ≡ true → l ≡ m
unfolding same_list
same_list-eq [] [] h = ground arith
same_list-eq (a ∷ l) (b ∷ m) h =
    ground (arith, same_path-eq a.path b.path, eq_iff a.rest b.rest, same_list-eq l m)
same_list-eq [] (b ∷ m) h = ground arith
same_list-eq (a ∷ l) [] h = ground arith

same_value-eq : (a b : Value) → same_value a b ≡ true → a ≡ b
unfolding same_value
same_value-eq (text a) (text b) h = ground (arith, eq_iff a b)
same_value-eq (endpoints a) (endpoints b) h = ground (arith, same_list-eq a b)
same_value-eq (text a) (endpoints b) h = ground arith
same_value-eq (endpoints a) (text b) h = ground arith

pub same-eq : (a b : Option Value) → same a b ≡ true → a ≡ b
unfolding same
same-eq none none h = ground arith
same-eq (some a) (some b) h = ground (arith, same_value-eq a b)
same-eq none (some b) h = ground arith
same-eq (some a) none h = ground arith

same_path_refl : (a : Option String) → same_path a a ≡ true
unfolding same_path
same_path_refl none = ground arith
same_path_refl (some a) = ground (arith, eq_iff a a)

same_list_refl : (l : List Endpoint) → same_list l l ≡ true
unfolding same_list
same_list_refl [] = ground arith
same_list_refl (a ∷ l) =
    ground (arith, same_path_refl a.path, eq_iff a.rest a.rest, same_list_refl l)

same_value_refl : (a : Value) → same_value a a ≡ true
unfolding same_value
same_value_refl (text a) = ground (arith, eq_iff a a)
same_value_refl (endpoints a) = same_list_refl a

pub same_refl : (a : Option Value) → same a a ≡ true
unfolding same
same_refl none = ground arith
same_refl (some a) = same_value_refl a
