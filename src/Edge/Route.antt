-- ===== src/Edge/Route.antt =====
-- Which route the probes of app/cnfc_edge.py take, over any sequence of mode changes and probes.
use fcapsule_lab.Prelude.{
  ℕ, ◌+◌, ◌*◌, ◌≡◌, ◌≤◌, refl, String, Bool, true, false, Option, List, [], ◌∷◌, arith, ltb, ◌==◌,
  Arg, ℤ, pos, negsuc, if◌then◌else◌, Bool-cases, inl, inr,
}
use fcapsule_lab.Prelude.Exec.{Result, ok, err, and_then}
use fcapsule_lab.Edge.{
  Edge, drifts, checked_id, checked_duration, apply_route, set_mode, Health, answered, unreachable,
  uncaught, is_expired, count_check, end_lease, probe,
}

-- A drift has a lease, and no lease is no drift.
pub record IsRouted (baseline fault : String) (s : Edge) : Type 0 where
  pub same_baseline : s.baseline_url ≡ baseline
  pub same_fault : s.fault_url ≡ fault
  pub route : s.url ≡ (if s.expires_at == 0 then baseline else fault)

-- A mode change, which may be refused, or a probe.
pub data Call : Type 0 where
  change_mode : String → ℤ → Arg → ℕ → Call
  check : ℕ → (String → Health) → Call

abbrev pub changed : Edge → Result Edge → Edge
changed s (ok t) = t
changed s (err e) = s

unfoldable pub run_call : Call → Edge → Edge
unfolding set_mode probe
run_call (change_mode mode duration id now) s = changed s (set_mode mode duration id now s)
run_call (check now health) s = (probe now health s).1

unfoldable pub run_calls : List Call → Edge → Edge
unfolding run_call
run_calls [] s = s
run_calls (c ∷ l) s = run_calls l (run_call c s)

module _ (baseline fault : String) where
  apply_route-IsRouted :
      (drift : Bool) (id : Option String) (end : ℕ) (s : Edge)
      → 1 ≤ end
      → IsRouted baseline fault s
      → IsRouted baseline fault (apply_route drift id end s)
  unfolding apply_route
  apply_route-IsRouted false id end s one h = record {
    same_baseline = h.same_baseline;
    same_fault = h.same_fault;
    route = h.same_baseline;
  }
  apply_route-IsRouted true id end s one h = record {
    same_baseline = h.same_baseline;
    same_fault = h.same_fault;
    route = ground (arith, h.same_fault);
  }

  after_duration-IsRouted :
      (drift : Bool) (id : Option String) (r : Result ℕ) (now : ℕ) (s : Edge)
      → ((n : ℕ) → r ≡ ok n → 1 ≤ n)
      → IsRouted baseline fault s
      → IsRouted baseline fault
          (changed s (and_then r (λ n. ok (apply_route drift id (now + n * 1000) s))))
  after_duration-IsRouted drift id (err e) now s long h = h
  after_duration-IsRouted drift id (ok n) now s long h =
      apply_route-IsRouted drift id (now + n * 1000) s (omega (arith, long n refl)) h

  checked_duration-long : (d : ℤ) (n : ℕ) → checked_duration d ≡ ok n → 1 ≤ n
  unfolding checked_duration
  checked_duration-long (pos m) n h = ground arith
  checked_duration-long (negsuc m) n h = absurd (ground arith)

  after_checks-IsRouted :
      (r : Result Bool) (q : Result (Option String)) (d : ℤ) (now : ℕ) (s : Edge)
      → IsRouted baseline fault s
      → IsRouted baseline fault (
          changed s (
            and_then r λ drift. and_then q λ id.
              and_then (checked_duration d) λ n. ok (apply_route drift id (now + n * 1000) s)))
  after_checks-IsRouted (err e) q d now s h = h
  after_checks-IsRouted (ok drift) (err e) d now s h = h
  after_checks-IsRouted (ok drift) (ok id) d now s h =
      after_duration-IsRouted drift id (checked_duration d) now s (checked_duration-long d) h

  set_mode-IsRouted :
      (mode : String) (d : ℤ) (id : Arg) (now : ℕ) (s : Edge)
      → IsRouted baseline fault s
      → IsRouted baseline fault (changed s (set_mode mode d id now s))
  unfolding set_mode
  set_mode-IsRouted mode d id now s h =
      after_checks-IsRouted (drifts mode) (checked_id id) d now s h

  count_check-IsRouted :
      (a : Health) (s : Edge)
      → IsRouted baseline fault s
      → IsRouted baseline fault (count_check a s)
  unfolding count_check
  count_check-IsRouted (answered n) s h = elim (Bool-cases (n == 200)) [
    | inl e ↦
        rw (e, count_check)
          (record { same_baseline = h.same_baseline; same_fault = h.same_fault; route = h.route })
    | inr e ↦
        rw (e, count_check)
          (record { same_baseline = h.same_baseline; same_fault = h.same_fault; route = h.route })
  ]
  count_check-IsRouted unreachable s h = record {
    same_baseline = h.same_baseline;
    same_fault = h.same_fault;
    route = h.route;
  }
  count_check-IsRouted uncaught s h = h

  end_lease-IsRouted :
      (now : ℕ) (s : Edge) → IsRouted baseline fault s → IsRouted baseline fault (end_lease now s)
  unfolding end_lease apply_route
  end_lease-IsRouted now s h = elim (Bool-cases (is_expired now s)) [
    | inl e ↦
        rw (e, end_lease)
          (record {
            same_baseline = h.same_baseline;
            same_fault = h.same_fault;
            route = h.same_baseline;
          })
    | inr e ↦ rw (e, end_lease) h
  ]

  run_calls-IsRouted :
      (l : List Call) (s : Edge)
      → IsRouted baseline fault s
      → IsRouted baseline fault (run_calls l s)
  unfolding run_calls probe
  run_calls-IsRouted [] s h = h
  run_calls-IsRouted (change_mode mode d id now ∷ l) s h =
      run_calls-IsRouted l (changed s (set_mode mode d id now s))
        (set_mode-IsRouted mode d id now s h)
  run_calls-IsRouted (check now health ∷ l) s h = run_calls-IsRouted l (probe now health s).1 (
      count_check-IsRouted (health (probe now health s).0) (end_lease now s)
        (end_lease-IsRouted now s h))

  -- After any sequence of mode changes, refused or not, and probes, a probe asks the fault URL when a drift's lease
  -- still runs, and the baseline URL otherwise: so no drift outlives its lease, even where nobody takes it
  -- back.
  pub probe-route :
      (l : List Call) (s : Edge) (now : ℕ) (health : String → Health)
      → IsRouted baseline fault s
      → (probe now health (run_calls l s)).0
        ≡ (if ltb now (run_calls l s).expires_at then fault else baseline)
  probe-route l s now health h = asked_url now health (run_calls l s) (run_calls-IsRouted l s h)
    where
      asked_url :
          (now : ℕ) (health : String → Health) (t : Edge)
          → IsRouted baseline fault t
          → (probe now health t).0 ≡ (if ltb now t.expires_at then fault else baseline)
      asked_url now health t k = unfold probe is_expired in ground (arith, k.same_baseline, k.route)
