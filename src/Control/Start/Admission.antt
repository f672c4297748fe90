-- ===== src/Control/Start/Admission.antt =====
-- When start of app/control.py lets a run begin.
use fcapsule_lab.Prelude.{◌≡◌, ◌≤◌, ◌∙◌, ap, String, Bool, true, none, some, arith, Arg, ℤ}
use fcapsule_lab.Prelude.Exec.{Exc, value_error, Result, ok, err, lift, ◌>>=◌, bind-ok}
use fcapsule_lab.Safety.{Memory}
use fcapsule_lab.Control.State.{
  Run, worker_api, inventory_api, orders_api, library_api, Outside, Sys, observe, change,
}
use fcapsule_lab.Control.Claims.{persisted_run}
use fcapsule_lab.Control.Start.{
  Order, valid_order, gibibyte, guard, healthy, check_idle, measure_host, check_services,
  check_journal, admit, begin, start,
}

-- What start has seen of the controller and of the world before it changes anything.
pub record IsAdmissible (o : Outside) (library : Bool) (s : Sys o) : Type 0 where
  pub idle : s.own.active ≡ none
  pub reading : Memory
  pub measured : o.memory s.world ≡ ok reading
  pub verified : reading.node_identity_verified ≡ true
  pub headroom : gibibyte ≤ reading.available_bytes
  pub worker_up : o.reachable worker_api s.world ≡ true
  pub inventory_up : o.reachable inventory_api s.world ≡ true
  pub orders_up : o.reachable orders_api s.world ≡ true
  pub library_up : library ≡ true → o.reachable library_api s.world ≡ true
  pub no_journal : persisted_run o s.world ≡ ok none

module _ (o : Outside) where
  check_idle-ok :
      (s : Sys o) (x : Unit {0})
      → check_idle o s ≡ (ok x, (check_idle o s).1)
      → (s.own.active ≡ none) × ((check_idle o s).1 ≡ s)
  unfolding check_idle guard ◌>>=◌
  check_idle-ok s x h = ground arith

  measure_host-ok :
      (s : Sys o) (m : Memory)
      → measure_host o s ≡ (ok m, (measure_host o s).1)
      → (o.memory s.world ≡ ok m)
        × (m.node_identity_verified ≡ true)
        × (gibibyte ≤ m.available_bytes)
        × ((measure_host o s).1.world ≡ s.world)
  unfolding measure_host observe change guard ◌>>=◌
  measure_host-ok s m h = ground arith

  check_services-ok :
      (library : Bool) (s : Sys o) (x : Unit {0})
      → check_services o library s ≡ (ok x, (check_services o library s).1)
      → (o.reachable worker_api s.world ≡ true)
        × (o.reachable inventory_api s.world ≡ true)
        × (o.reachable orders_api s.world ≡ true)
        × (library ≡ true → o.reachable library_api s.world ≡ true)
        × ((check_services o library s).1 ≡ s)
  unfolding check_services healthy guard ◌>>=◌
  check_services-ok library s x h = ground arith

  check_journal-ok :
      (s : Sys o) (x : Unit {0})
      → check_journal o s ≡ (ok x, (check_journal o s).1)
      → persisted_run o s.world ≡ ok none
  unfolding check_journal observe guard ◌>>=◌
  check_journal-ok s x h = ground arith

  admit-IsAdmissible :
      (library : Bool) (s : Sys o) (m : Memory) (t : Sys o)
      → admit o library s ≡ (ok m, t)
      → IsAdmissible o library s
  unfolding admit
  admit-IsAdmissible library s m t h =
      let (x, idle, h₁) = bind-ok (check_idle o) _ s m t h in
      let s₁ = (check_idle o s).1 in
      let (reading, measured, h₂) = bind-ok (measure_host o) _ s₁ m t h₁ in
      let s₂ = (measure_host o s₁).1 in
      let (y, up, h₃) = bind-ok (check_services o library) _ s₂ m t h₂ in
      let s₃ = (check_services o library s₂).1 in
      let (z, clean, _) = bind-ok (check_journal o) _ s₃ m t h₃ in
      let idle' = check_idle-ok s x idle in
      let measured' = measure_host-ok s₁ reading measured in
      let up' = check_services-ok library s₂ y up in
      let clean' = check_journal-ok s₃ z clean in
      let same_world : s₂.world ≡ s.world = measured'.3 ∙ ap (λ (u : Sys o). u.world) idle'.1 in
      let same_world' : s₃.world ≡ s.world = ap (λ (u : Sys o). u.world) up'.4 ∙ same_world in
      record {
        idle = idle'.0;
        reading = reading;
        measured = rw (ap (λ (u : Sys o). u.world) idle'.1) at measured'.0;
        verified = measured'.1;
        headroom = measured'.2;
        worker_up = rw same_world at up'.0;
        inventory_up = rw same_world at up'.1;
        orders_up = rw same_world at up'.2;
        library_up = λ l. rw same_world at (up'.3 l);
        no_journal = rw same_world' at clean';
      }

  -- A start that returns found no active run, a memory reading of the controller's own node
  -- with at least 1 GiB available, every service that it needs reachable, and no persisted run or
  -- orphaned journal in the cluster.
  pub start-IsAdmissible :
      (library : Bool) (id : String) (value : ℤ) (request : Arg) (s : Sys o) (x : Unit {0})
      (t : Sys o)
      → start o library id value request s ≡ (ok x, t)
      → IsAdmissible o library s
  unfolding start ◌>>=◌
  start-IsAdmissible library id value request s x t h =
      let (order, _, h₁) = bind-ok (lift (valid_order library id value request)) _ s x t h in
      let (memory, admitted, _) = bind-ok (admit o library) (begin o library id order) s x t h₁ in
      admit-IsAdmissible library s memory _ admitted

  busy_result : Result Order → Exc
  busy_result (ok order) =
      value_error "A run is already active or recovering; recover it before starting another"
  busy_result (err e) = e

  -- While a run is active or recovering, start raises and changes nothing at all.
  pub start-busy :
      (library : Bool) (id : String) (value : ℤ) (request : Arg) (s : Sys o) (run : Run)
      → s.own.active ≡ some run
      → (e : Exc) × (start o library id value request s ≡ (err e, s))
  unfolding start admit check_idle guard busy_result ◌>>=◌
  start-busy library id value request s run h =
      (busy_result (valid_order library id value request), ground arith)
