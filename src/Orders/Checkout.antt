-- ===== src/Orders/Checkout.antt =====
-- checkout of app/orders.py, cut at the points where its lock is released. `digest` is the hex SHA-256 of
-- a text, and `order_text` the JSON text of {"order_id": order}. Latency samples and log lines are left out.
pub mod Attempts
pub mod Claims
pub mod Flight
use fcapsule_lab.Prelude.{
  join, is_space, ℕ, zero, suc, ◌+◌, ◌-◌, ◌*◌, String, Bool, true, false, not, ◌&&◌, ◌||◌, Option,
  none, some, List, [], ◌∷◌, ltb, leb, ◌==◌, str_eq, min, max, length, all, codes, Arg, ◌++◌,
  if◌then◌else◌, Dict, find, put,
}
use fcapsule_lab.Prelude
use fcapsule_lab.Orders.Upstream.{
  Kind, success, timeout, transport, authorization, http_status, contract_status, contract_shape,
  contract_version, Attempt, Call, attempt_result,
}
use fcapsule_lab.Orders.Store.{
  Reply, Entry, Table, lookup, pop, add, move_to_end, prune, make_room, complete,
}

pub data Mode : Type 0 where
  normal configured idempotency_conflict : Mode

-- What a request reads of the state when it begins. The timeout is in milliseconds.
pub record Config : Type 0 where
  pub inventory_url : String
  pub timeout : ℕ
  pub max_attempts : ℕ
  pub signing_key_id : String
  pub expected_schema : String

pub record Orders : Type 0 where
  pub config : Config
  pub mode : Mode
  pub fault_namespace : Option String
  pub control_run_id : Option String
  -- 0 is no lease
  pub expires_at : ℕ
  pub inflight : ℕ
  pub requests : ℕ → ℕ
  pub checkout_errors : ℕ
  pub inventory_attempts : ℕ
  pub inventory_retries : ℕ
  pub dependency_failures : Dict ℕ
  pub idempotency_conflicts : ℕ
  pub capacity_rejections : ℕ
  pub idempotency_replays : ℕ
  pub idempotency : Table

kind_name : Kind → String
kind_name success = "success"
kind_name timeout = "timeout"
kind_name transport = "transport"
kind_name authorization = "authorization"
kind_name http_status = "http_error"
kind_name contract_status = "contract_status"
kind_name contract_shape = "contract_shape"
kind_name contract_version = "contract_version"

count_of : Option ℕ → ℕ
count_of none = 0
count_of (some n) = n

-- _dependency_failure
unfoldable pub dependency_failure : Kind → Orders → Orders
unfolding kind_name count_of
dependency_failure success s = s
dependency_failure kind s = record s {
  dependency_failures =
      put (kind_name kind) (suc (count_of (find (kind_name kind) s.dependency_failures)))
        s.dependency_failures;
}

-- with self._lock: self.inflight += 1
unfoldable pub open_request : Orders → Orders
open_request s = record s { inflight = suc s.inflight }

abbrev max_order_id_length : ℕ
max_order_id_length = 64

abbrev max_idempotency_key_length : ℕ
max_idempotency_key_length = 128

unfoldable pub valid_order_id : Arg → Bool
valid_order_id (Arg.text t) = not (str_eq t "") && leb (length (codes t)) max_order_id_length
valid_order_id a = false

unfoldable pub valid_key : Arg → Bool
valid_key Arg.null = true
valid_key (Arg.text t) =
    not (all is_space (codes t)) && leb (length (codes t)) max_idempotency_key_length
valid_key Arg.other = false

-- a namespace as an f-string shows it
shown_namespace : Option String → String
shown_namespace none = "None"
shown_namespace (some t) = t

-- raw_key
unfoldable pub raw_key : Mode → Option String → Option String → String → String
unfolding shown_namespace
raw_key idempotency_conflict namespace key order =
    join "fault:" (join (shown_namespace namespace) ":shared-checkout-key")
raw_key mode namespace none order = order
raw_key mode namespace (some key) order = if str_eq key "" then order else key

-- What a request is told of its key.
pub data Seen : Type 0 where
  owned : Seen
  refused : ℕ → String → Seen
  replayed : Reply → Seen
  in_progress : Seen

abbrev pub is_conflict : Mode → Bool
is_conflict idempotency_conflict = true
is_conflict m = false

unfoldable pub claim_key : String → String → Mode → ℕ → Bool × Table → Orders → Seen × Orders
claim_key k fingerprint mode now (false, t) s = (
  refused 503 "idempotency_store_busy",
  record s { capacity_rejections = suc s.capacity_rejections; idempotency = t },
)
claim_key k fingerprint mode now (true, t) s = (
  owned,
  record s {
    idempotency =
        add k
          (record {
            fingerprint = fingerprint;
            created_at = now;
            completed = none;
            injected = is_conflict mode;
          })
          t;
  },
)

unfoldable pub see_entry : String → ℕ → ℕ → Option Reply → Orders → Seen × Orders
see_entry k now deadline (some r) s = (
  replayed r,
  record s {
    idempotency_replays = suc s.idempotency_replays;
    idempotency = move_to_end k s.idempotency;
  },
)
see_entry k now deadline none s =
    if leb deadline now then (refused 409 "same_request_still_in_progress", s) else (in_progress, s)

unfoldable pub look_at : String → String → Mode → ℕ → ℕ → Option Entry → Orders → Seen × Orders
look_at k fingerprint mode now deadline none s =
    claim_key k fingerprint mode now (make_room s.idempotency) s
look_at k fingerprint mode now deadline (some e) s =
    if not (str_eq e.fingerprint fingerprint)
    then (
      refused 409 "idempotency_conflict",
      record s { idempotency_conflicts = suc s.idempotency_conflicts },
    )
    else see_entry k now deadline e.completed s

-- One pass of the loop under self._idempotency_condition.
unfoldable pub look : String → String → Mode → ℕ → ℕ → Orders → Seen × Orders
look k fingerprint mode now deadline s =
    look_at k fingerprint mode now deadline (lookup k s.idempotency) s

-- The first pass, after _prune_idempotency.
unfoldable pub first_look : String → String → Mode → ℕ → ℕ → Orders → Seen × Orders
first_look k fingerprint mode now deadline s =
    look k fingerprint mode now deadline (record s { idempotency = prune now s.idempotency })

-- deadline - time.monotonic(), when the key is computed
unfoldable pub patience : Config → ℕ
patience c = min 30000 (max 5000 (c.timeout * c.max_attempts + 2000))

-- One pass of the loop over the attempts, without its sleep.
unfoldable pub count_attempt : ℕ → Attempt → Orders → Orders
count_attempt n a s = dependency_failure a.kind (record s {
  inventory_attempts = suc s.inventory_attempts;
  inventory_retries = if ltb 1 n then suc s.inventory_retries else s.inventory_retries;
})

-- The attempts from number `n`, of which at most `left` are left. `answers n` is what the n-th call of
-- urlopen does. `status` is the status so far.
unfoldable pub attempts : ℕ → ℕ → String → (ℕ → Call) → ℕ → Orders → ℕ × Orders
attempts zero n schema answers status s = (status, s)
attempts (suc left) n schema answers status s =
    let a = attempt_result schema (answers n) in
    let s' = count_attempt n a s in
    let rest = attempts left (suc n) schema answers a.status s' in
    if a.status == 200 || not a.retryable then (a.status, s') else rest

-- for attempt in range(1, config["max_attempts"] + 1)
unfoldable pub call_inventory : Config → (ℕ → Call) → Orders → ℕ × Orders
call_inventory c answers s = attempts c.max_attempts 1 c.expected_schema answers 503 s

-- the status that the client gets of a request that called the dependency
unfoldable pub terminal : ℕ → ℕ
terminal status = if status == 200 then 200 else if status == 502 then 502 else 503

-- with self._idempotency_condition: entry["completed"] = True ...
unfoldable pub store_result : String → String → ℕ → Orders → Orders
store_result k request_id now s = record s {
  idempotency =
      complete k (record { status = 200; text = "completed"; request_id = request_id }) now
        s.idempotency;
}

abbrev pub released : Option String → Bool → Table → Table
released (some k) false t = pop k t
released k succeeded t = t

-- The `finally` block. `owned_key` is the key of the entry that the request owns.
unfoldable pub close_request : ℕ → Option String → Bool → Orders → Orders
close_request status owned_key succeeded s = record s {
  idempotency = released owned_key succeeded s.idempotency;
  inflight = s.inflight - 1;
  requests = λ j. if j == status then suc (s.requests j) else s.requests j;
  checkout_errors =
      if status == 502 || status == 503 then suc s.checkout_errors else s.checkout_errors;
}
