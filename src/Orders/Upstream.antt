-- ===== src/Orders/Upstream.antt =====
-- _attempt_inventory_result of app/orders.py: what one call of the Inventory API comes to. What urlopen
-- did is an argument; the log evidence is left out.
pub mod Contract
use fcapsule_lab.Prelude.{
  ℕ, ◌≡◌, ◌≤◌, ◌↔◌, refl, String, Bool, true, false, not, ◌&&◌, ◌||◌, Option, none, some, arith,
  leb, ltb, ◌==◌, str_eq, eq_iff, if◌then◌else◌,
}
use fcapsule_lab.Json
use fcapsule_lab.Json.{Json, Fields, get}

abbrev pub max_inventory_response_bytes : ℕ
max_inventory_response_bytes = 256000

pub data Kind : Type 0 where
  success timeout transport authorization http_status contract_status contract_shape
        contract_version :
      Kind

pub record Attempt : Type 0 where
  pub status : ℕ
  pub kind : Kind
  pub upstream_status : Option ℕ
  pub retryable : Bool

-- What the call of urlopen came to. A body is its length and what json.loads makes of it.
pub data Call : Type 0 where
  bad_url : Call
  response : ℕ → ℕ → Option Json → Call
  http_error : ℕ → Call
  timed_out : Call
  url_error : Bool → Call
  other_error : Call

attempt : ℕ → Kind → Option ℕ → Bool → Attempt
attempt s k u r = record { status = s; kind = k; upstream_status = u; retryable = r }

-- code in {408, 425, 429} or code >= 500
unfoldable pub worth_retrying : ℕ → Bool
worth_retrying code = code == 408 || code == 425 || code == 429 || leb 500 code

unfoldable pub is_reserved : Option Json → Bool
is_reserved (some (Json.text t)) = str_eq t "reserved"
is_reserved v = false

-- reservation.get("status"), where the reservation is an object
unfoldable pub status_of : Option Json → Option Json
status_of (some (Json.object d)) = get "status" d
status_of v = none

-- observed_schema is not None and it is not the expected text
unfoldable pub mismatched : String → Option Json → Bool
mismatched expected none = false
mismatched expected (some Json.null) = false
mismatched expected (some (Json.text t)) = not (str_eq t expected)
mismatched expected (some v) = true

unfoldable pub is_valid : String → Fields → Bool
unfolding status_of is_reserved
is_valid expected payload =
    if str_eq expected "v1"
    then is_reserved (get "status" payload)
    else is_reserved (status_of (get "reservation" payload))

read_payload : String → ℕ → Fields → Attempt
read_payload expected upstream payload =
    if not (str_eq expected "v1" || str_eq expected "v2")
    then attempt 502 contract_version (some upstream) false
    else if mismatched expected (get "schema" payload)
    then attempt 502 contract_version (some upstream) false
    else if not (is_valid expected payload)
    then attempt 502 contract_shape (some upstream) false
    else attempt upstream success (some upstream) false

read_body : String → ℕ → Option Json → Attempt
unfolding read_payload
read_body expected upstream (some (Json.object payload)) = read_payload expected upstream payload
read_body expected upstream body = attempt 502 contract_shape (some upstream) false

is_denied : ℕ → Bool
is_denied code = code == 401 || code == 403

unfoldable pub attempt_result : String → Call → Attempt
unfolding attempt read_body is_denied mismatched is_valid worth_retrying
attempt_result expected bad_url = attempt 503 transport none false
attempt_result expected (response upstream size body) =
    if not (upstream == 200)
    then (if leb 200 upstream && ltb upstream 300
        then attempt 502 contract_status (some upstream) false
        else attempt 503 http_status (some upstream) (worth_retrying upstream))
    else if ltb max_inventory_response_bytes size
    then attempt 502 contract_shape (some upstream) false
    else read_body expected upstream body
attempt_result expected (http_error code) =
    attempt 503 (if is_denied code then authorization else http_status) (some code)
      (worth_retrying code)
attempt_result expected timed_out = attempt 503 timeout none true
attempt_result expected (url_error true) = attempt 503 timeout none true
attempt_result expected (url_error false) = attempt 503 transport none false
attempt_result expected other_error = attempt 503 transport none false

-- The contract: the response is a 200 of at most 256000 bytes, a JSON object whose schema, if it
-- names one, is the expected one, and which says "reserved" where that schema has its status.
pub data Honours (expected : String) : Call → Type 0 where
  honours_v1 :
      {size : ℕ} {d : Fields}
      → size ≤ max_inventory_response_bytes
      → expected ≡ "v1"
      → mismatched expected (get "schema" d) ≡ false
      → is_reserved (get "status" d) ≡ true
      → Honours expected (response 200 size (some (Json.object d)))
  honours_v2 :
      {size : ℕ} {d e : Fields}
      → size ≤ max_inventory_response_bytes
      → expected ≡ "v2"
      → mismatched expected (get "schema" d) ≡ false
      → get "reservation" d ≡ some (Json.object e)
      → is_reserved (get "status" e) ≡ true
      → Honours expected (response 200 size (some (Json.object d)))
