-- ===== src/Orders/Upstream/Contract.antt =====
-- app/orders.py accepts a dependency answer exactly when it honours the contract.
use fcapsule_lab.Prelude.{
  ℕ, ◌≡◌, ◌≤◌, ◌↔◌, inl, inr, refl, String, Bool, true, false, not, ◌&&◌, ◌||◌, Option, none, some,
  arith, str_eq, eq_iff, Bool-cases, subst, sym,
}
use fcapsule_lab.Json.{Json, Fields, get}
use fcapsule_lab.Orders.Upstream.{
  max_inventory_response_bytes, success, Call, response, url_error, is_reserved, status_of,
  mismatched, is_valid, read_payload, attempt_result, attempt, Honours, honours_v1, honours_v2,
}

-- The answer of an accepted payload.
accepts : String → Fields → Bool
accepts expected d =
    (str_eq expected "v1" || str_eq expected "v2")
    && not (mismatched expected (get "schema" d))
    && is_valid expected d

read_payload-accepts :
    (expected : String) (d : Fields)
    → (read_payload expected 200 d).kind ≡ success
    → accepts expected d ≡ true
unfolding read_payload accepts attempt
read_payload-accepts expected d h = ground arith

accepts-read_payload :
    (expected : String) (d : Fields)
    → accepts expected d ≡ true
    → (read_payload expected 200 d).kind ≡ success
unfolding read_payload accepts attempt
accepts-read_payload expected d h = ground arith

reserved_object :
    (v : Option Json)
    → is_reserved (status_of v) ≡ true
    → (e : Fields) × (v ≡ some (Json.object e)) × (is_reserved (get "status" e) ≡ true)
unfolding is_reserved status_of
reserved_object none h = absurd (ground arith)
reserved_object (some (Json.object e)) h = (e, refl, h)
reserved_object (some Json.null) h = absurd (ground arith)
reserved_object (some _) h = absurd (ground arith)

accepts-Honours :
    (expected : String) (size : ℕ) (d : Fields)
    → size ≤ max_inventory_response_bytes
    → accepts expected d ≡ true
    → Honours expected (response 200 size (some (Json.object d)))
unfolding accepts is_valid
accepts-Honours expected size d small h = elim (Bool-cases (str_eq expected "v1")) [
  | inl e ↦ honours_v1 small ((eq_iff expected "v1").0 e) (ground arith) (ground arith)
  | inr e ↦
      let (r, found, reserved) = reserved_object (get "reservation" d) (ground arith) in
      honours_v2 small ((eq_iff expected "v2").0 (ground arith)) (ground arith) found reserved
]

object_response :
    (expected : String) (upstream size : ℕ) (d : Fields)
    → (attempt_result expected (response upstream size (some (Json.object d)))).kind ≡ success
    → (upstream ≡ 200)
      × (size ≤ max_inventory_response_bytes)
      × ((read_payload expected upstream d).kind ≡ success)
unfolding attempt_result
object_response expected upstream size d h = ground arith

kind-Honours :
    (expected : String) (c : Call) → (attempt_result expected c).kind ≡ success → Honours expected c
unfolding attempt_result
kind-Honours expected (response upstream size (some (Json.object d))) h =
    let (e, small, read) = object_response expected upstream size d h in
    subst (λ u. Honours expected (response u size (some (Json.object d)))) (sym e)
      (accepts-Honours expected size d small (
        read_payload-accepts expected d
          (subst (λ u. (read_payload expected u d).kind ≡ success) e read)))
kind-Honours expected (response upstream size _) h = absurd (ground arith)
kind-Honours expected _ h = absurd (ground arith)

Honours-accepts :
    (expected : String) (size : ℕ) (d : Fields)
    → Honours expected (response 200 size (some (Json.object d)))
    → (size ≤ max_inventory_response_bytes) × (accepts expected d ≡ true)
unfolding accepts is_valid
Honours-accepts expected size d (honours_v1 small e m r) =
    (small, ground (arith, eq_iff expected "v1"))
Honours-accepts expected size d (honours_v2 {e = inner} small e m found r) = (
  small,
  subst (λ x. accepts x d ≡ true) (sym e)
      (rw found (ground (arith, subst (λ x. mismatched x (get "schema" d) ≡ false) e m))),
)

small_response :
    (expected : String) (size : ℕ) (d : Fields)
    → size ≤ max_inventory_response_bytes
    → attempt_result expected (response 200 size (some (Json.object d)))
      ≡ read_payload expected 200 d
unfolding attempt_result
small_response expected size d small = ground arith

accepts-status :
    (expected : String) (d : Fields)
    → accepts expected d ≡ true
    → (read_payload expected 200 d).status ≡ 200
unfolding read_payload accepts attempt
accepts-status expected d h = ground arith

good_success :
    (expected : String) (size : ℕ) (d : Fields)
    → size ≤ max_inventory_response_bytes
    → accepts expected d ≡ true
    → ((attempt_result expected (response 200 size (some (Json.object d)))).kind ≡ success)
      × ((attempt_result expected (response 200 size (some (Json.object d)))).status ≡ 200)
good_success expected size d small h =
    rw (small_response expected size d small)
      (accepts-read_payload expected d h, accepts-status expected d h)

Honours-success :
    (expected : String) (c : Call)
    → Honours expected c
    → ((attempt_result expected c).kind ≡ success) × ((attempt_result expected c).status ≡ 200)
Honours-success expected _ (honours_v1 {size} {d} small e m r) =
    good_success expected size d small (Honours-accepts expected size d (honours_v1 small e m r)).1
Honours-success expected _ (honours_v2 {size} {d} {e = inner} small e m f r) =
    good_success expected size d small
      (Honours-accepts expected size d (honours_v2 small e m f r)).1

status-success :
    (expected : String) (c : Call)
    → (attempt_result expected c).status ≡ 200
    → (attempt_result expected c).kind ≡ success
unfolding attempt_result
status-success expected (response upstream size (some (Json.object d))) h = ground arith
status-success expected (response upstream size _) h = absurd (ground arith)
status-success expected (url_error true) h = absurd (ground arith)
status-success expected (url_error false) h = absurd (ground arith)
status-success expected _ h = absurd (ground arith)

success-final :
    (expected : String) (c : Call)
    → (attempt_result expected c).kind ≡ success
    → (attempt_result expected c).retryable ≡ false
unfolding attempt_result
success-final expected (response upstream size (some (Json.object d))) h = ground arith
success-final expected (response upstream size _) h = absurd (ground arith)
success-final expected (url_error true) h = absurd (ground arith)
success-final expected (url_error false) h = absurd (ground arith)
success-final expected _ h = absurd (ground arith)

-- An attempt counts as a success exactly when the answer honours the contract, and exactly then the
-- checkout's own test, that the attempt's status is 200, passes; no success is retried.
pub attempt_result-Honours :
    (expected : String) (c : Call)
    → (((attempt_result expected c).kind ≡ success) ↔ Honours expected c)
      × (((attempt_result expected c).status ≡ 200) ↔ Honours expected c)
      × (Honours expected c → (attempt_result expected c).retryable ≡ false)
attempt_result-Honours expected c = (
  (kind-Honours expected c, λ h. (Honours-success expected c h).0),
  (
    λ e. kind-Honours expected c (status-success expected c e),
    λ h. (Honours-success expected c h).1,
  ),
  λ h. success-final expected c (Honours-success expected c h).0,
)
