-- ===== src/Orders/Checkout/Attempts.antt =====
-- How often a checkout of app/orders.py calls the dependency.
use fcapsule_lab.Prelude.{
  ℕ, zero, suc, ◌+◌, ◌≡◌, ◌≤◌, ◌<◌, refl, ◌∙◌, ap, String, Bool, true, false, not, ◌||◌, arith, ltb,
  ◌==◌, if◌then◌else◌, Bool-cases, inl, inr, subst,
}
use fcapsule_lab.Orders.Upstream.{Kind, success, Attempt, Call, attempt_result}
use fcapsule_lab.Orders.Checkout.{
  Config, Orders, dependency_failure, count_attempt, attempts, call_inventory,
}

abbrev pub is_last : Attempt → Bool
is_last a = a.status == 200 || not a.retryable

-- What the attempts from number `n` came to: `extra` more after the first, `left` at most.
pub record Tried (left n : ℕ) (schema : String) (answers : ℕ → Call) (s : Orders) (r : ℕ × Orders)
    : Type 0 where
  pub extra : ℕ
  pub within : extra < left
  pub counted : r.1.inventory_attempts ≡ s.inventory_attempts + suc extra
  pub retried : r.1.inventory_retries + (if ltb 1 n then 0 else 1) ≡ s.inventory_retries + suc extra
  pub outcome : r.0 ≡ (attempt_result schema (answers (n + extra))).status
  pub repeated : (i : ℕ) → i < extra → is_last (attempt_result schema (answers (n + i))) ≡ false
  pub stopped : suc extra < left → is_last (attempt_result schema (answers (n + extra))) ≡ true
  pub same_table : r.1.idempotency ≡ s.idempotency
  pub same_inflight : r.1.inflight ≡ s.inflight

record Noted (n : ℕ) (s t : Orders) : Type 0 where
  one_attempt : t.inventory_attempts ≡ suc s.inventory_attempts
  retry : t.inventory_retries ≡ s.inventory_retries + (if ltb 1 n then 1 else 0)
  same_table : t.idempotency ≡ s.idempotency
  same_inflight : t.inflight ≡ s.inflight

dependency_failure-Noted :
    (k : Kind) (n : ℕ) (s t : Orders) → Noted n s t → Noted n s (dependency_failure k t)
unfolding dependency_failure
dependency_failure-Noted success n s t h = h
dependency_failure-Noted _ n s t h = record {
  one_attempt = h.one_attempt;
  retry = h.retry;
  same_table = h.same_table;
  same_inflight = h.same_inflight;
}

count_attempt-Noted : (n : ℕ) (a : Attempt) (s : Orders) → Noted n s (count_attempt n a s)
unfolding count_attempt
count_attempt-Noted n a s =
    dependency_failure-Noted a.kind n s _
      (record { one_attempt = refl; retry = ground arith; same_table = refl; same_inflight = refl })

first_only :
    (left n : ℕ) (schema : String) (answers : ℕ → Call) (s t : Orders) (status : ℕ)
    → Noted n s t
    → (suc zero < suc left → is_last (attempt_result schema (answers (n + 0))) ≡ true)
    → status ≡ (attempt_result schema (answers (n + 0))).status
    → Tried (suc left) n schema answers s (status, t)
first_only left n schema answers s t status h last e = record {
  extra = 0;
  within = omega arith;
  counted = omega (arith, h.one_attempt);
  retried = ground (arith, h.retry);
  outcome = e;
  repeated = λ i small. absurd (omega (arith, small));
  stopped = last;
  same_table = h.same_table;
  same_inflight = h.same_inflight;
}

then_more :
    (left n : ℕ) (schema : String) (answers : ℕ → Call) (s t : Orders) (r : ℕ × Orders)
    → Noted n s t
    → 1 ≤ n
    → is_last (attempt_result schema (answers n)) ≡ false
    → Tried left (suc n) schema answers t r
    → Tried (suc left) n schema answers s r
then_more left n schema answers s t r h one more tried = record {
  extra = suc tried.extra;
  within = omega (arith, tried.within);
  counted = omega (arith, h.one_attempt, tried.counted);
  retried = ground (arith, h.retry, tried.retried);
  outcome =
      subst (λ i. r.0 ≡ (attempt_result schema (answers i)).status) (omega arith) tried.outcome;
  repeated = repeated_from tried.extra tried.repeated;
  stopped = λ small.
      subst (λ i. is_last (attempt_result schema (answers i)) ≡ true) (omega arith)
        (tried.stopped (omega (arith, small)));
  same_table = tried.same_table ∙ h.same_table;
  same_inflight = tried.same_inflight ∙ h.same_inflight;
}
  where
    repeated_from :
        (extra : ℕ)
        → ((i : ℕ) → i < extra → is_last (attempt_result schema (answers (suc n + i))) ≡ false)
        → (i : ℕ) → i < suc extra
        → is_last (attempt_result schema (answers (n + i))) ≡ false
    repeated_from extra f zero small =
        subst (λ i. is_last (attempt_result schema (answers i)) ≡ false) (omega arith) more
    repeated_from extra f (suc i) small =
        subst (λ j. is_last (attempt_result schema (answers j)) ≡ false) (omega arith)
          (f i (omega (arith, small)))

same_start :
    (n : ℕ) (answers : ℕ → Call) (schema : String)
    → attempt_result schema (answers n) ≡ attempt_result schema (answers (n + 0))
same_start n answers schema = ap (λ i. attempt_result schema (answers i)) (omega arith)

-- The first attempt ends the loop, or the rest of the loop does.
by_first :
    (left n : ℕ) (schema : String) (answers : ℕ → Call) (status : ℕ) (s : Orders)
    → (is_last (attempt_result schema (answers n)) ≡ false
        → Tried (suc left) n schema answers s (
            attempts left
              (suc n)
              schema
              answers
              (attempt_result schema (answers n)).status
              (count_attempt n (attempt_result schema (answers n)) s)))
    → Tried (suc left) n schema answers s (attempts (suc left) n schema answers status s)
unfolding attempts
by_first left n schema answers status s more =
    elim (Bool-cases (is_last (attempt_result schema (answers n)))) [
      | inl e ↦
          rw (e, attempts)
            (first_only left n schema answers s _ _
              (count_attempt-Noted n (attempt_result schema (answers n)) s)
              (λ small. subst (λ a. is_last a ≡ true) (same_start n answers schema) e)
              (ap (λ a. a.status) (same_start n answers schema)))
      | inr e ↦ rw (e, attempts) (more e)
    ]

attempts-Tried :
    (left n : ℕ) (schema : String) (answers : ℕ → Call) (status : ℕ) (s : Orders)
    → 1 ≤ n
    → Tried (suc left) n schema answers s (attempts (suc left) n schema answers status s)
unfolding attempts
attempts-Tried zero n schema answers status s one = by_first zero n schema answers status s λ e.
    first_only zero n schema answers s _ (attempt_result schema (answers n)).status
      (count_attempt-Noted n (attempt_result schema (answers n)) s)
      (λ small. absurd (omega (arith, small))) (ap (λ a. a.status) (same_start n answers schema))
attempts-Tried (suc left) n schema answers status s one =
    by_first (suc left) n schema answers status s λ e.
      then_more (suc left) n schema answers s _ _
        (count_attempt-Noted n (attempt_result schema (answers n)) s) one e
        (attempts-Tried left (suc n) schema answers (attempt_result schema (answers n)).status _
          (omega arith))

-- A checkout that reaches the dependency calls it at least once and at most `max_attempts` times,
-- counting each call as an attempt and each after the first as a retry; its status is the last
-- attempt's; every earlier attempt failed and was worth a retry; with attempts left, the last one did
-- not; and the idempotency store and the count of requests in flight are as before. `max_attempts`
-- is at least 1.
pub call_inventory-Tried :
    (c : Config) (answers : ℕ → Call) (s : Orders)
    → 1 ≤ c.max_attempts
    → Tried c.max_attempts 1 c.expected_schema answers s (call_inventory c answers s)
unfolding call_inventory
call_inventory-Tried c answers s h = by_max c.max_attempts h
  where
    by_max :
        (m : ℕ)
        → 1 ≤ m
        → Tried m 1 c.expected_schema answers s (attempts m 1 c.expected_schema answers 503 s)
    by_max zero h = absurd (omega (arith, h))
    by_max (suc m) h = attempts-Tried m 1 c.expected_schema answers 503 s (omega arith)

-- The calls change neither the idempotency store nor the count of requests in flight.
pub call_inventory-same :
    (c : Config) (answers : ℕ → Call) (s : Orders)
    → ((call_inventory c answers s).1.idempotency ≡ s.idempotency)
      × ((call_inventory c answers s).1.inflight ≡ s.inflight)
unfolding call_inventory attempts
call_inventory-same c answers s = by_max c.max_attempts
  where
    by_max :
        (m : ℕ)
        → ((attempts m 1 c.expected_schema answers 503 s).1.idempotency ≡ s.idempotency)
          × ((attempts m 1 c.expected_schema answers 503 s).1.inflight ≡ s.inflight)
    by_max zero = (refl, refl)
    by_max (suc m) =
        let h = attempts-Tried m 1 c.expected_schema answers 503 s (omega arith) in
        (h.same_table, h.same_inflight)
