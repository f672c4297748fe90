-- ===== src/Library.antt =====
-- load_cases of app/incident_library.py. A file is the two digits of its name and what json.loads makes of it; the
-- files come in the order of their names.
pub mod Loaded
pub mod Runtime
mod Examples
use fcapsule_lab.Prelude.{
  ℕ, zero, suc, String, Bool, true, false, not, ◌&&◌, ◌||◌, Option, none, some, List, [], ◌∷◌, ◌++◌,
  leb, ◌==◌, length, str_eq, codes, all, member, is_space, join, is_some, if◌then◌else◌, Dict, find,
  put,
}
use fcapsule_lab.Prelude.Exec.{Result, ok, err, and_then, value_error, key_error, type_error}
use fcapsule_lab.Json
use fcapsule_lab.Json.{Json, Items, Fields, get}

unfoldable pub mechanisms : List String
mechanisms =
    "db_unique" ∷ "db_foreign_key" ∷ "db_locked" ∷ "db_schema" ∷ "http_timeout" ∷ "http_status"
    ∷ "http_contract" ∷ "dns_lookup" ∷ "tcp_refused" ∷ "queue_poison" ∷ "queue_backlog"
    ∷ "auth_expired" ∷ "auth_signature" ∷ "config_missing" ∷ "config_invalid" ∷ "cache_stale"
    ∷ "file_missing" ∷ "resource_memory" ∷ "resource_cpu" ∷ "rate_limit" ∷ "thread_pool" ∷ []

unfoldable pub case_fields : List String
case_fields =
    "id" ∷ "title" ∷ "category" ∷ "service" ∷ "mechanism" ∷ "summary" ∷ "precursor" ∷ "impact"
    ∷ "parameters" ∷ "context" ∷ []

pub record Batch : Type 0 where
  pub digits : String
  pub content : Result Json

unfoldable pub prefix_of : String → String
prefix_of digits = join "lib-" (join digits "-")

abbrev keys : Fields → List String
keys Fields.end = []
keys (Fields.field k v d) = k ∷ keys d

-- set(item) == FIELDS
unfoldable pub has_case_fields : Fields → Bool
unfolding case_fields
has_case_fields d =
    all (λ k. member k case_fields) (keys d) && all (λ k. member k (keys d)) case_fields

unfoldable pub starts_with : List ℕ → List ℕ → Bool
starts_with [] l = true
starts_with (c ∷ p) [] = false
starts_with (c ∷ p) (d ∷ l) = c == d && starts_with p l

abbrev digit : ℕ → Bool
digit c = leb 48 c && leb c 57

abbrev slug_char : ℕ → Bool
slug_char c = digit c || (leb 97 c && leb c 122)

-- [a-z0-9]+(?:-[a-z0-9]+)*, where `inside` says that a word has begun
unfoldable pub is_slug : Bool → List ℕ → Bool
is_slug inside [] = inside
is_slug inside (c ∷ l) = (slug_char c && is_slug true l) || (inside && c == 45 && is_slug false l)

abbrev two_digits : List ℕ → Bool
two_digits (a ∷ b ∷ c ∷ l) = digit a && digit b && c == 45 && is_slug false l
two_digits l = false

abbrev after_lib : List ℕ → List ℕ
after_lib (a ∷ b ∷ c ∷ d ∷ l) = l
after_lib l = []

-- lib-[0-9]{2}-[a-z0-9]+(?:-[a-z0-9]+)*
unfoldable pub is_case_id : String → Bool
unfolding is_slug starts_with
is_case_id t = starts_with (codes "lib-") (codes t) && two_digits (after_lib (codes t))

abbrev trimmed_start : List ℕ → List ℕ
trimmed_start [] = []
trimmed_start (c ∷ l) = let rest = trimmed_start l in if is_space c then rest else c ∷ l

abbrev trimmed_end : List ℕ → List ℕ
trimmed_end [] = []
trimmed_end (c ∷ l) =
    let rest = trimmed_end l in if is_space c && length rest == 0 then [] else c ∷ rest

unfoldable pub valid_text : Option Json → Bool
valid_text (some (Json.text t)) =
    let n = length (trimmed_end (trimmed_start (codes t))) in leb 3 n && leb n 300
valid_text v = false

abbrev is_scalar : Json → Bool
is_scalar (Json.text t) = true
is_scalar (Json.number n) = true
is_scalar Json.real = true
is_scalar (Json.boolean b) = true
is_scalar v = false

abbrev all_scalar : Fields → Bool
all_scalar Fields.end = true
all_scalar (Fields.field k v d) = is_scalar v && all_scalar d

abbrev size : Fields → ℕ
size Fields.end = 0
size (Fields.field k v d) = suc (size d)

unfoldable pub valid_context : Option Json → Option Json → Bool
valid_context (some (Json.object p)) (some (Json.object c)) =
    leb 2 (size c) && leb (size c) 4 && all_scalar c
valid_context p c = false

-- item["mechanism"] not in MECHANISMS; what has no hash raises TypeError
unfoldable pub valid_mechanism : Option Json → Result (Unit {0})
unfolding mechanisms
valid_mechanism (some (Json.text t)) =
    if member t mechanisms then ok tt else err (value_error "unsupported mechanism")
valid_mechanism (some (Json.array l)) = err type_error
valid_mechanism (some (Json.object d)) = err type_error
valid_mechanism v = err (value_error "unsupported mechanism")

unfoldable pub valid_id : String → Option Json → Result String
valid_id prefix (some (Json.text t)) =
    if starts_with (codes prefix) (codes t) && is_case_id t
    then ok t
    else err (value_error "invalid case ID")
valid_id prefix v = err (value_error "invalid case ID")

text_fields : List String
text_fields = "title" ∷ "category" ∷ "service" ∷ "summary" ∷ "precursor" ∷ "impact" ∷ []

unfoldable pub valid_details : Fields → Result (Unit {0})
unfolding text_fields valid_text valid_context
valid_details d =
    if not (all (λ k. valid_text (get k d)) text_fields)
    then err (value_error "invalid field")
    else if valid_context (get "parameters" d) (get "context" d)
    then ok tt
    else err (value_error "parameters and context must be objects, context of 2-4 scalar fields")

unfoldable pub add_case : String → Dict Fields → Fields → Result (Dict Fields)
unfolding valid_id valid_mechanism valid_details
add_case prefix cases d =
    if not (has_case_fields d)
    then err (value_error "case fields do not match the library contract")
    else and_then (valid_id prefix (get "id" d)) λ id.
      if is_some (find id cases)
      then err (value_error "Duplicate library case")
      else and_then (valid_mechanism (get "mechanism" d))
          λ x. and_then (valid_details d) (λ y. ok (put id d cases))

unfoldable pub add_item : String → Dict Fields → Json → Result (Dict Fields)
unfolding add_case
add_item prefix cases (Json.object d) = add_case prefix cases d
add_item prefix cases v = err (value_error "case fields do not match the library contract")

abbrev pub count : Items → ℕ
count Items.nil = 0
count (Items.cons v l) = suc (count l)

unfoldable pub add_items : String → Items → Dict Fields → Result (Dict Fields)
unfolding add_item
add_items prefix Items.nil cases = ok cases
add_items prefix (Items.cons v l) cases = and_then (add_item prefix cases v) (add_items prefix l)

unfoldable pub add_batch : String → Dict Fields → Json → Result (Dict Fields)
unfolding add_items
add_batch prefix cases (Json.array l) =
    if count l == 5
    then add_items prefix l cases
    else err (value_error "must contain exactly five cases")
add_batch prefix cases v = err (value_error "must contain exactly five cases")

unfoldable pub add_batches : List Batch → Dict Fields → Result (Dict Fields)
unfolding add_batch
add_batches [] cases = ok cases
add_batches (b ∷ l) cases =
    and_then b.content
      λ batch. and_then (add_batch (prefix_of b.digits) cases batch) (add_batches l)

-- load_cases
unfoldable pub load_cases : List Batch → Result (Dict Fields)
unfolding add_batches
load_cases files = add_batches files []
