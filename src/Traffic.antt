-- ===== src/Traffic.antt =====
-- app/traffic.py: the load generator's slots and counters. A request is what urlopen did, since its order ID is
-- random.
pub mod Load
mod Examples
use fcapsule_lab.Prelude.{
  ℕ, zero, suc, ◌+◌, ◌-◌, ◌/◌, Bool, true, false, ltb, leb, ◌==◌, min, if◌then◌else◌, ℤ, pos,
  negsuc,
}
use fcapsule_lab.Prelude.Exec.{Result, ok, err, value_error}

abbrev pub max_safe_inflight : ℕ
max_safe_inflight = 12

-- `requests` is kept as its three counters, by key.
pub record Traffic : Type 0 where
  pub configured_max_inflight : ℕ
  pub max_inflight : ℕ
  pub requests_200 : ℕ
  pub requests_503 : ℕ
  pub transport_errors : ℕ
  pub inflight : ℕ
  pub shed : ℕ

abbrev fresh : ℕ → Traffic
fresh n = record {
  configured_max_inflight = n;
  max_inflight = min n max_safe_inflight;
  requests_200 = 0;
  requests_503 = 0;
  transport_errors = 0;
  inflight = 0;
  shed = 0;
}

-- TrafficState.__init__, of MAX_INFLIGHT
unfoldable pub new_traffic : ℤ → Result Traffic
new_traffic (pos zero) = err (value_error "MAX_INFLIGHT must be a positive integer")
new_traffic (pos n) = ok (fresh n)
new_traffic (negsuc n) = err (value_error "MAX_INFLIGHT must be a positive integer")

-- claim_slot
unfoldable pub claim_slot : Traffic → Bool × Traffic
claim_slot s =
    if leb s.max_inflight s.inflight
    then (false, record s { shed = suc s.shed })
    else (true, record s { inflight = suc s.inflight })

-- What urlopen came to: an answer or an HTTPError with its code, an error that is caught, or one that
-- is not.
pub data Answer : Type 0 where
  answered : ℕ → Answer
  unreachable : Answer
  uncaught : Answer

pub data Outcome : Type 0 where
  good failed transport : Outcome

-- The key of `requests` that a status counts under. A status has three digits.
unfoldable pub outcome_of : ℕ → Outcome
outcome_of n = if n == 200 then good else if n / 100 == 5 then failed else transport

count_outcome : Outcome → Traffic → Traffic
count_outcome good s = record s { requests_200 = suc s.requests_200 }
count_outcome failed s = record s { requests_503 = suc s.requests_503 }
count_outcome transport s = record s { transport_errors = suc s.transport_errors }

unfoldable pub count_answer : Answer → Traffic → Traffic
unfolding count_outcome
count_answer (answered n) s = count_outcome (outcome_of n) s
count_answer unreachable s = count_outcome transport s
count_answer uncaught s = s

-- run_request, after the call: the count, and the `finally` block
unfoldable pub finish_request : Answer → Traffic → Traffic
unfolding count_answer
finish_request a s = let t = count_answer a s in record t { inflight = t.inflight - 1 }
