-- ===== src/Traffic/Load.antt =====
-- The load loop of app/traffic.py beside the requests that it submitted, whatever order they end in.
use fcapsule_lab.Prelude.{
  ℕ, zero, suc, ◌+◌, ◌-◌, ◌≡◌, ◌≤◌, refl, Bool, arith, leb, if◌then◌else◌, ℤ, pos, negsuc,
  Bool-cases, inl, inr,
}
use fcapsule_lab.Prelude.Exec.{ok}
use fcapsule_lab.Traffic.{
  max_safe_inflight, Traffic, new_traffic, claim_slot, Answer, answered, unreachable, uncaught,
  Outcome, good, failed, transport, outcome_of, count_outcome, finish_request,
}

-- The generator, the requests that run, the rounds of the loop, and the requests that an uncaught error
-- ended.
pub record Running : Type 0 where
  pub traffic : Traffic
  pub outstanding : ℕ
  pub rounds : ℕ
  pub lost : ℕ

abbrev lost_by : Answer → ℕ
lost_by uncaught = 1
lost_by a = 0

-- A round of load_loop: executor.submit(state.run_request) where a slot was claimed.
abbrev pub round : Bool × Traffic → Running → Running
round (claimed, t) s = record s {
  traffic = t;
  outstanding = if claimed then suc s.outstanding else s.outstanding;
  rounds = suc s.rounds;
}

pub data Step : Running → Running → Type 0 where
  tick : (s : Running) → Step s (round (claim_slot s.traffic) s)
  finish :
      (s : Running) (n : ℕ) (a : Answer)
      → s.outstanding ≡ suc n
      → Step s (record s {
        traffic = finish_request a s.traffic;
        outstanding = n;
        lost = s.lost + lost_by a;
      })

pub data Reach (t : Traffic) : Running → Type 0 where
  start : Reach t (record { traffic = t; outstanding = 0; rounds = 0; lost = 0 })
  next : {s u : Running} → Reach t s → Step s u → Reach t u

-- all that `requests` counts
abbrev pub completed : Traffic → ℕ
completed t = t.requests_200 + t.requests_503 + t.transport_errors

-- The counter of requests in flight is right and within the limit, and no round is unaccounted for.
pub record IsSafe (s : Running) : Type 0 where
  pub counted : s.traffic.inflight ≡ s.outstanding
  pub within : s.outstanding ≤ s.traffic.max_inflight
  pub safe : s.traffic.max_inflight ≤ max_safe_inflight
  pub accounted : completed s.traffic + s.lost + s.outstanding + s.traffic.shed ≡ s.rounds

tick-IsSafe : (s : Running) → IsSafe s → IsSafe (round (claim_slot s.traffic) s)
unfolding claim_slot
tick-IsSafe s h = elim (Bool-cases (leb s.traffic.max_inflight s.traffic.inflight)) [
  | inl full ↦
      rw (full, claim_slot)
        (record {
          counted = h.counted;
          within = h.within;
          safe = h.safe;
          accounted = omega (arith, h.accounted);
        })
  | inr free ↦
      rw (free, claim_slot)
        (record {
          counted = omega (arith, h.counted);
          within = ground (arith, h.counted, h.within);
          safe = h.safe;
          accounted = omega (arith, h.accounted);
        })
]

record Ended (a : Answer) (t u : Traffic) : Type 0 where
  one_less : u.inflight ≡ t.inflight - 1
  same_max : u.max_inflight ≡ t.max_inflight
  same_shed : u.shed ≡ t.shed
  one_more : completed u + lost_by a ≡ suc (completed t)

count_outcome-Ended :
    (n : Outcome) (a : Answer) (t : Traffic)
    → lost_by a ≡ 0
    → Ended a t (record (count_outcome n t) { inflight = (count_outcome n t).inflight - 1 })
unfolding count_outcome
count_outcome-Ended good a t e = record {
  one_less = refl;
  same_max = refl;
  same_shed = refl;
  one_more = omega (arith, e);
}
count_outcome-Ended failed a t e = record {
  one_less = refl;
  same_max = refl;
  same_shed = refl;
  one_more = omega (arith, e);
}
count_outcome-Ended transport a t e = record {
  one_less = refl;
  same_max = refl;
  same_shed = refl;
  one_more = omega (arith, e);
}

finish_request-Ended : (a : Answer) (t : Traffic) → Ended a t (finish_request a t)
unfolding finish_request
finish_request-Ended (answered n) t = count_outcome-Ended (outcome_of n) (answered n) t refl
finish_request-Ended unreachable t = count_outcome-Ended transport unreachable t refl
finish_request-Ended uncaught t = record {
  one_less = refl;
  same_max = refl;
  same_shed = refl;
  one_more = omega arith;
}

Step-IsSafe : {s t : Running} → Step s t → IsSafe s → IsSafe t
Step-IsSafe (tick s) h = tick-IsSafe s h
Step-IsSafe (finish s n a e) h =
    let r = finish_request-Ended a s.traffic in
    record {
      counted = omega (arith, r.one_less, h.counted, e);
      within = omega (arith, r.same_max, h.within, e);
      safe = omega (arith, r.same_max, h.safe);
      accounted = omega (arith, r.one_more, r.same_shed, h.accounted, e);
    }

new_traffic-IsSafe :
    (value : ℤ) (t : Traffic)
    → new_traffic value ≡ ok t
    → IsSafe (record { traffic = t; outstanding = 0; rounds = 0; lost = 0 })
unfolding new_traffic
new_traffic-IsSafe (pos zero) t h = absurd (ground arith)
new_traffic-IsSafe (negsuc n) t h = absurd (ground arith)
new_traffic-IsSafe (pos (suc n)) t h = record {
  counted = ground arith;
  within = omega arith;
  safe = ground arith;
  accounted = ground arith;
}

-- Whatever limit is configured and however the requests end, the generator's count of requests in flight is
-- the number that run, it passes neither the effective limit nor 12, and every round of the loop is
-- counted once: as a status, as shed, as running, or as ended by an uncaught error.
pub Reach-IsSafe :
    (value : ℤ) (t : Traffic) (s : Running) → new_traffic value ≡ ok t → Reach t s → IsSafe s
Reach-IsSafe value t s h r = reached s r
  where
    reached : (u : Running) → Reach t u → IsSafe u
    reached _ start = new_traffic-IsSafe value t h
    reached u (next {s = v} r step) = Step-IsSafe step (reached v r)
