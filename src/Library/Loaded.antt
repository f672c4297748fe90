-- ===== src/Library/Loaded.antt =====
-- What load_cases of app/incident_library.py returns.
use fcapsule_lab.Prelude.{
  ℕ, suc, ◌+◌, ◌*◌, ◌≡◌, ◌≤◌, refl, subst, String, true, ◌&&◌, Option, none, some, List, [], ◌∷◌,
  arith, length, str_eq, eq_iff, codes, is_some, ◌==◌, if◌then◌else◌, Bool-cases, ◌⊎◌, inl, inr,
  Dict, find, put,
}
use fcapsule_lab.Prelude.Exec.{
  Result, ok, err, and_then, and_then-ok, ok_inj, guarded-ok, value_error,
}
use fcapsule_lab.Json.{Json, Items, Fields, get}
use fcapsule_lab.Library.{
  Batch, prefix_of, has_case_fields, is_case_id, starts_with, valid_id, valid_mechanism,
  valid_details, add_case, add_item, count, add_items, add_batch, add_batches, load_cases,
}

-- A case that the library's contract accepts, under its ID.
pub record IsCase (id : String) (d : Fields) : Type 0 where
  pub named : is_case_id id ≡ true
  pub fields_match : has_case_fields d ≡ true
  pub details : valid_details d ≡ ok tt

abbrev pub AllCases : Dict Fields → Type 0
AllCases [] = Unit
AllCases ((id, d) ∷ l) = IsCase id d × AllCases l

abbrev pub uses : String → Dict Fields → ℕ
uses k [] = 0
uses k ((j, d) ∷ l) = (if str_eq j k then 1 else 0) + uses k l

-- `n` cases with distinct IDs
pub record IsLibrary (n : ℕ) (l : Dict Fields) : Type 0 where
  pub sized : length l ≡ n
  pub distinct : (k : String) → uses k l ≤ 1
  pub cases : AllCases l

put-new :
    (k : String) (d : Fields) (l : Dict Fields)
    → find k l ≡ none
    → (length (put k d l) ≡ suc (length l))
      × ((j : String) → uses j (put k d l) ≡ uses j l + (if str_eq k j then 1 else 0))
      × (uses k l ≡ 0)
unfolding find put
put-new k d [] h = (omega arith, (λ j. omega arith), refl)
put-new k d ((i, e) ∷ l) h = elim (Bool-cases (str_eq i k)) [
  | inl e₁ ↦ absurd (ground arith)
  | inr e₁ ↦
      let (longer, more, fresh) = put-new k d l (rw e₁ at h) in
      rw e₁ (omega (arith, longer), (λ j. omega (arith, more j)), omega (arith, fresh))
]

put-AllCases :
    (k : String) (d : Fields) (l : Dict Fields)
    → find k l ≡ none
    → IsCase k d
    → AllCases l
    → AllCases (put k d l)
unfolding find put
put-AllCases k d [] h c all = (c, tt)
put-AllCases k d ((i, e) ∷ l) h c all = elim (Bool-cases (str_eq i k)) [
  | inl e₁ ↦ absurd (ground arith)
  | inr e₁ ↦ rw e₁ (all.0, put-AllCases k d l (rw e₁ at h) c all.1)
]

put-IsLibrary :
    (n : ℕ) (k : String) (d : Fields) (l : Dict Fields)
    → find k l ≡ none
    → IsCase k d
    → IsLibrary n l
    → IsLibrary (suc n) (put k d l)
put-IsLibrary n k d l h c lib =
    let (longer, more, fresh) = put-new k d l h in
    record {
      sized = omega (arith, longer, lib.sized);
      distinct = λ j. ground (arith, more j, fresh, lib.distinct j, eq_iff k j);
      cases = put-AllCases k d l h c lib.cases;
    }

valid_id-ok :
    (p : String) (v : Option Json) (id : String) → valid_id p v ≡ ok id → is_case_id id ≡ true
unfolding valid_id
valid_id-ok p (some (Json.text t)) id h =
    let (passed, same) =
      guarded-ok (starts_with (codes p) (codes t) && is_case_id t) (ok t) _ id h in
    subst (λ x. is_case_id x ≡ true) (ok_inj t id same) (ground (arith, passed))
valid_id-ok p none id h = absurd (ground arith)
valid_id-ok p (some _) id h = absurd (ground arith)

-- The checks of a case after its ID.
add_case-id :
    (n : ℕ) (id : String) (l e : Dict Fields) (d : Fields) (r : Result (Unit {0}))
    → is_case_id id ≡ true
    → has_case_fields d ≡ true
    → IsLibrary n l
    → (if is_some (find id l)
        then err (value_error "Duplicate library case")
        else and_then r (λ x. and_then (valid_details d) (λ y. ok (put id d l))))
      ≡ ok e
    → IsLibrary (suc n) e
add_case-id n id l e d r named match lib h = elim (find-cases (find id l)) [
  | inl fresh ↦
      let (x, _, h₁) = and_then-ok r _ e (rw fresh at h) in
      let (y, fits, h₂) = and_then-ok (valid_details d) _ e h₁ in
      subst (IsLibrary (suc n)) (ok_inj (put id d l) e h₂) (
        put-IsLibrary n id d l fresh
          (record { named = named; fields_match = match; details = fits }) lib)
  | inr found ↦ absurd (ground arith)
]
  where
    find-cases : (v : Option Fields) → (v ≡ none) ⊎ (is_some v ≡ true)
    find-cases none = inl refl
    find-cases (some w) = inr refl

add_case-IsLibrary :
    (p : String) (n : ℕ) (l e : Dict Fields) (d : Fields)
    → IsLibrary n l
    → add_case p l d ≡ ok e
    → IsLibrary (suc n) e
unfolding add_case
add_case-IsLibrary p n l e d lib h = elim (Bool-cases (has_case_fields d)) [
  | inl match ↦
      let (id, checked, h₁) = and_then-ok (valid_id p (get "id" d)) _ e (rw match at h) in
      add_case-id n id l e d (valid_mechanism (get "mechanism" d))
        (valid_id-ok p (get "id" d) id checked) match lib h₁
  | inr other ↦ absurd (ground arith)
]

add_item-IsLibrary :
    (p : String) (n : ℕ) (l e : Dict Fields) (v : Json)
    → IsLibrary n l
    → add_item p l v ≡ ok e
    → IsLibrary (suc n) e
unfolding add_item
add_item-IsLibrary p n l e (Json.object d) lib h = add_case-IsLibrary p n l e d lib h
add_item-IsLibrary p n l e _ lib h = absurd (ground arith)

add_items-IsLibrary :
    (p : String) (items : Items) (n : ℕ) (l e : Dict Fields)
    → IsLibrary n l
    → add_items p items l ≡ ok e
    → IsLibrary (n + count items) e
unfolding add_items
add_items-IsLibrary p Items.nil n l e lib h =
    subst (IsLibrary (n + 0)) (ok_inj l e h)
      (record { sized = omega (arith, lib.sized); distinct = lib.distinct; cases = lib.cases })
add_items-IsLibrary p (Items.cons v rest) n l e lib h =
    let (m, first, h₁) = and_then-ok (add_item p l v) (add_items p rest) e h in
    let all = add_items-IsLibrary p rest (suc n) m e (add_item-IsLibrary p n l m v lib first) h₁ in
    record { sized = omega (arith, all.sized); distinct = all.distinct; cases = all.cases }

add_batch-IsLibrary :
    (p : String) (n : ℕ) (l e : Dict Fields) (v : Json)
    → IsLibrary n l
    → add_batch p l v ≡ ok e
    → IsLibrary (n + 5) e
unfolding add_batch
add_batch-IsLibrary p n l e (Json.array items) lib h =
    let (five, h₁) = guarded-ok (count items == 5) (add_items p items l) _ e h in
    let all = add_items-IsLibrary p items n l e lib h₁ in
    record { sized = ground (arith, all.sized); distinct = all.distinct; cases = all.cases }
add_batch-IsLibrary p n l e _ lib h = absurd (ground arith)

add_batches-IsLibrary :
    (files : List Batch) (n : ℕ) (l e : Dict Fields)
    → IsLibrary n l
    → add_batches files l ≡ ok e
    → IsLibrary (n + 5 * length files) e
unfolding add_batches
add_batches-IsLibrary [] n l e lib h =
    subst (IsLibrary (n + 5 * 0)) (ok_inj l e h)
      (record { sized = omega (arith, lib.sized); distinct = lib.distinct; cases = lib.cases })
add_batches-IsLibrary (b ∷ rest) n l e lib h =
    let (v, _, h₁) = and_then-ok b.content _ e h in
    let (m, first, h₂) = and_then-ok (add_batch (prefix_of b.digits) l v) (add_batches rest) e h₁ in
    let all =
      add_batches-IsLibrary rest (n + 5) m e
        (add_batch-IsLibrary (prefix_of b.digits) n l m v lib first) h₂ in
    record { sized = omega (arith, all.sized); distinct = all.distinct; cases = all.cases }

-- A library that loads has five cases for each file, with distinct IDs of the form lib-NN-words, each of them with
-- exactly the contract's fields and with texts, parameters and a context that it accepts.
pub load_cases-IsLibrary :
    (files : List Batch) (l : Dict Fields)
    → load_cases files ≡ ok l
    → IsLibrary (5 * length files) l
unfolding load_cases
load_cases-IsLibrary files l h =
    let all =
      add_batches-IsLibrary files 0 [] l
        (record { sized = refl; distinct = λ k. omega arith; cases = tt }) h in
    record { sized = omega (arith, all.sized); distinct = all.distinct; cases = all.cases }
