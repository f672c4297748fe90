-- ===== src/Worker/Import.antt =====
-- decode_job and _validated_import_records of app/worker.py. `json_loads` and `b64decode` are parameters: what the
-- standard library makes of a text. A body that is no text makes b64decode raise TypeError.
pub mod Valid
use fcapsule_lab.Prelude.{
  ℕ, zero, suc, String, Bool, true, false, not, ◌&&◌, ◌||◌, Option, none, some, List, [], ◌∷◌, leb,
  length, str_eq, codes, all, is_space, take_text, ℤ, pos, negsuc, if◌then◌else◌,
}
use fcapsule_lab.Prelude.Exec.{Result, ok, err, and_then, value_error, key_error, type_error}
use fcapsule_lab.Json
use fcapsule_lab.Json.{Json, Items, Fields, get}

pub record ImportRecord : Type 0 where
  pub sku : String
  pub quantity : ℕ
  pub description : String

abbrev v2_schema : String
v2_schema = "inventory.import.v2"

-- schema is not None and schema != "inventory.import.v2"
unfoldable pub unsupported : Option Json → Bool
unsupported none = false
unsupported (some Json.null) = false
unsupported (some (Json.text t)) = not (str_eq t v2_schema)
unsupported (some v) = true

unfoldable pub as_object : String → Json → Result Fields
as_object problem (Json.object d) = ok d
as_object problem v = err (value_error problem)

module _ (json_loads : String → Result Json) (b64decode : String → Result String) where
  unfoldable pub decode_body : Option Json → Result Json
  decode_body none = err (key_error "body")
  decode_body (some (Json.text t)) = and_then (b64decode t) json_loads
  decode_body (some v) = err type_error

  unfoldable pub decode_envelope : Fields → Result Fields
  unfolding decode_body
  decode_envelope d =
      if unsupported (get "schema" d)
      then err (value_error "Unsupported import envelope schema")
      else and_then (decode_body (get "body" d)) (as_object "Import body must be an object")

  -- decode_job
  unfoldable pub decode_job : String → Result Fields
  unfolding decode_envelope
  decode_job payload =
      and_then (json_loads payload) λ envelope.
        and_then (as_object "Import envelope must be an object" envelope) decode_envelope

abbrev pub max_rows : ℕ
max_rows = 5000

abbrev pub max_quantity : ℕ
max_quantity = 1000000000

unfoldable pub valid_sku : Option Json → Result String
valid_sku (some (Json.text t)) =
    if all is_space (codes t) || not (leb (length (codes t)) 64)
    then err (value_error "Imported sku must be a non-empty string of at most 64 characters")
    else ok t
valid_sku v = err (value_error "Imported sku must be a non-empty string of at most 64 characters")

unfoldable pub valid_quantity : Option Json → Result ℕ
valid_quantity (some (Json.number (pos n))) =
    if leb n max_quantity
    then ok n
    else err (value_error "Imported quantity must be an integer between 0 and 1000000000")
valid_quantity v = err (value_error "Imported quantity must be an integer between 0 and 1000000000")

unfoldable pub valid_description : Option Json → Result String
valid_description none = ok ""
valid_description (some (Json.text t)) = ok (take_text 256 t)
valid_description (some v) = err (value_error "Imported description must be text")

unfoldable pub valid_row : Json → Result ImportRecord
unfolding as_object valid_sku valid_quantity valid_description
valid_row row = and_then (as_object "Each imported inventory record must be an object" row) λ d.
    and_then (valid_sku (get "sku" d)) λ sku.
      and_then (valid_quantity (get "quantity" d)) λ quantity.
        and_then (valid_description (get "description" d))
          λ description. ok (record { sku = sku; quantity = quantity; description = description })

unfoldable pub valid_rows : Items → Result (List ImportRecord)
unfolding valid_row
valid_rows Items.nil = ok []
valid_rows (Items.cons row rest) =
    let tail = valid_rows rest in and_then (valid_row row) (λ r. and_then tail (λ l. ok (r ∷ l)))

abbrev pub count : Items → ℕ
count Items.nil = 0
count (Items.cons v l) = suc (count l)

-- document.get("records", [document])
unfoldable pub rows_of : Fields → Option Json → Result Items
rows_of d none = ok (Items.cons (Json.object d) Items.nil)
rows_of d (some (Json.array l)) = ok l
rows_of d (some v) = err (value_error "Import batch must contain between 1 and 5000 records")

unfoldable pub counted_rows : Items → Result (List ImportRecord)
unfolding valid_rows
counted_rows l =
    if leb 1 (count l) && leb (count l) max_rows
    then valid_rows l
    else err (value_error "Import batch must contain between 1 and 5000 records")

-- _validated_import_records
unfoldable pub validated_import_records : Fields → Result (List ImportRecord)
unfolding rows_of counted_rows
validated_import_records d = and_then (rows_of d (get "records" d)) counted_rows
