-- ===== src/Worker/Import/Valid.antt =====
-- What _validated_import_records of app/worker.py lets through.
use fcapsule_lab.Prelude.{
  ℕ, suc, ◌≡◌, ◌≤◌, refl, ap, subst, ◌&&◌, String, false, Option, none, some, List, [], ◌∷◌, arith,
  leb, length, codes, all, is_space, take_text, length-take_text, pos, negsuc, Bool-cases, inl, inr,
}
use fcapsule_lab.Prelude.Exec.{ok, and_then-ok, ok_inj}
use fcapsule_lab.Json.{Json, Items, Fields, get}
use fcapsule_lab.Worker.Import.{
  ImportRecord, as_object, max_rows, max_quantity, valid_sku, valid_quantity, valid_description,
  valid_row, valid_rows, count, rows_of, counted_rows, validated_import_records,
}

-- A row that fits the table lab_import_records.
pub record IsImportable (r : ImportRecord) : Type 0 where
  pub named : all is_space (codes r.sku) ≡ false
  pub short_sku : length (codes r.sku) ≤ 64
  pub small : r.quantity ≤ max_quantity
  pub short_description : length (codes r.description) ≤ 256

abbrev pub AllImportable : List ImportRecord → Type 0
AllImportable [] = Unit
AllImportable (r ∷ l) = IsImportable r × AllImportable l

valid_sku-ok :
    (v : Option Json) (t : String)
    → valid_sku v ≡ ok t
    → (all is_space (codes t) ≡ false) × (length (codes t) ≤ 64)
unfolding valid_sku
valid_sku-ok none t h = absurd (ground arith)
valid_sku-ok (some (Json.text u)) t h = elim (Bool-cases (all is_space (codes u))) [
  | inl e ↦ absurd (ground arith)
  | inr e ↦ ground arith
]
valid_sku-ok (some _) t h = absurd (ground arith)

valid_quantity-ok : (v : Option Json) (n : ℕ) → valid_quantity v ≡ ok n → n ≤ max_quantity
unfolding valid_quantity
valid_quantity-ok (some (Json.number (pos m))) n h = ground arith
valid_quantity-ok (some (Json.number (negsuc m))) n h = absurd (ground arith)
valid_quantity-ok none n h = absurd (ground arith)
valid_quantity-ok (some _) n h = absurd (ground arith)

valid_description-ok :
    (v : Option Json) (t : String) → valid_description v ≡ ok t → length (codes t) ≤ 256
unfolding valid_description
valid_description-ok none t h = subst (λ v. length (codes v) ≤ 256) (ok_inj "" t h) (omega arith)
valid_description-ok (some (Json.text u)) t h =
    subst (λ v. length (codes v) ≤ 256) (ok_inj (take_text 256 u) t h) (length-take_text 256 u)
valid_description-ok (some _) t h = absurd (ground arith)

valid_row-ok : (row : Json) (r : ImportRecord) → valid_row row ≡ ok r → IsImportable r
unfolding valid_row
valid_row-ok row r h =
    let (d, _, h₁) =
      and_then-ok (as_object "Each imported inventory record must be an object" row) _ r h in
    let (sku, e₁, h₂) = and_then-ok (valid_sku (get "sku" d)) _ r h₁ in
    let (quantity, e₂, h₃) = and_then-ok (valid_quantity (get "quantity" d)) _ r h₂ in
    let (description, e₃, h₄) = and_then-ok (valid_description (get "description" d)) _ r h₃ in
    let (named, short) = valid_sku-ok (get "sku" d) sku e₁ in
    let built : ImportRecord = record {
      sku = sku;
      quantity = quantity;
      description = description;
    } in
    subst IsImportable (ok_inj built r h₄) (record {
      named = named;
      short_sku = short;
      small = valid_quantity-ok (get "quantity" d) quantity e₂;
      short_description = valid_description-ok (get "description" d) description e₃;
    })

-- a list of `n` rows that fit
abbrev Fits : ℕ → List ImportRecord → Type 0
Fits n rs = (length rs ≡ n) × AllImportable rs

valid_rows-ok :
    (l : Items) (rs : List ImportRecord)
    → valid_rows l ≡ ok rs
    → (length rs ≡ count l) × AllImportable rs
unfolding valid_rows
valid_rows-ok Items.nil rs h = subst (Fits 0) (ok_inj [] rs h) (refl, tt)
valid_rows-ok (Items.cons row rest) rs h =
    let (r, e, h₁) = and_then-ok (valid_row row) _ rs h in
    let (l, e₁, h₂) = and_then-ok (valid_rows rest) _ rs h₁ in
    let (n, all_valid) = valid_rows-ok rest l e₁ in
    subst (Fits (suc (count rest))) (ok_inj (r ∷ l) rs h₂)
      (ap suc n, (valid_row-ok row r e, all_valid))

counted_rows-ok :
    (l : Items) (rs : List ImportRecord)
    → counted_rows l ≡ ok rs
    → (1 ≤ length rs) × (length rs ≤ max_rows) × AllImportable rs
unfolding counted_rows
counted_rows-ok l rs h = elim (Bool-cases (leb 1 (count l) && leb (count l) max_rows)) [
  | inl e ↦
      let (n, all_valid) = valid_rows-ok l rs (rw e at h) in (ground arith, ground arith, all_valid)
  | inr e ↦ absurd (ground arith)
]

-- An import that is not rejected has between 1 and 5000 records, each with a SKU that is not blank and
-- has at most 64 characters, a quantity of at most 1000000000, and a description of at most 256 characters.
pub validated_import_records-ok :
    (d : Fields) (rs : List ImportRecord)
    → validated_import_records d ≡ ok rs
    → (1 ≤ length rs) × (length rs ≤ max_rows) × AllImportable rs
unfolding validated_import_records
validated_import_records-ok d rs h =
    let (l, _, h₁) = and_then-ok (rows_of d (get "records" d)) _ rs h in counted_rows-ok l rs h₁
