-- ===== src/Inventory/Service/Sound.antt =====
-- No operation of app/mysql_inventory.py loses a session, a transaction or a slot.
use fcapsule_lab.Prelude.{ℕ, ◌≡◌, refl, arith, String, List, [], ◌∷◌, ap, length}
use fcapsule_lab.Prelude.Exec.{
  ok, Runs-returns, Keeps, Keeps-bind, Keeps-pure, Runs-weaken, Runs→Keeps,
}
use fcapsule_lab.Inventory.{Client, Process}
use fcapsule_lab.Inventory.Balance.{At, Any, NoneKept, IsDocumented, sessions_kept, pooled}
use fcapsule_lab.Inventory.Sessions.{release_connections}
use fcapsule_lab.Inventory.Sessions.Release.{release-Moves}
use fcapsule_lab.Inventory.Reserve.Counts.{reserve-Moves}
use fcapsule_lab.Inventory.Modes.Counts.{set_failure_mode-Moves, forget_kept}
use fcapsule_lab.Inventory.Tasks.Counts.{
  reconcile-Moves, deadlock_transaction-Moves, sample_database-Keeps, lease_pass-Moves,
}
use fcapsule_lab.Inventory.Tasks.Storm.{storm-Moves}
use fcapsule_lab.Inventory.Service.{
  Operation, reserving, switching, leasing, reconciling, storming, sampling, deadlocking, closing,
  perform, perform_all,
}

module _ {Server Conn : Type 0} (client : Client Server Conn) (safe_ref : String → String) where
  module _ (t i f u : ℕ) (known : IsDocumented client) where
    perform-Keeps : (o : Operation) → Keeps (At t i f u Any) (perform client safe_ref o)
    unfolding perform
    perform-Keeps (reserving order key) =
        Keeps-bind _ _ (Runs→Keeps (reserve-Moves client t i u f safe_ref order key known))
          λ _. Keeps-pure tt
    perform-Keeps (switching name duration values run_id now fresh_token) = Runs→Keeps (
        Runs-weaken (λ p h. h) (λ _. forget_kept client t i f u) (λ _ p h. h)
          (set_failure_mode-Moves client t i f u name duration values run_id now fresh_token known))
    perform-Keeps (leasing now fresh_token) =
        Runs→Keeps (lease_pass-Moves client t i f u now fresh_token known)
    perform-Keeps (reconciling hold_for_contention cancelled) =
        Runs→Keeps (reconcile-Moves client t i u f hold_for_contention cancelled)
    perform-Keeps (storming target stopped) =
        Keeps-bind _ _ (Runs→Keeps (storm-Moves client t i f u target stopped known))
          λ _. Keeps-pure tt
    perform-Keeps sampling = sample_database-Keeps client t i f u
    perform-Keeps (deadlocking first second broken) =
        Runs→Keeps (deadlock_transaction-Moves client t i f u first second broken)
    perform-Keeps closing = Runs→Keeps (
        Runs-weaken {E = λ _. At t i f u Any} (λ p h. h) (λ _. forget_kept client t i f u)
          (λ _ p h. h) (release-Moves client t i f u known))

    perform_all-At :
        (l : List Operation) (p : Process Server Conn)
        → At t i f u Any p
        → At t i f u Any (perform_all client safe_ref l p)
    unfolding perform_all
    perform_all-At [] p h = h
    perform_all-At (o ∷ l) p h =
        perform_all-At l (perform client safe_ref o p).1 ((perform-Keeps o).at p h)

  -- For a client that raises its documented exceptions: whatever operations the service performs, and
  -- whatever the server answers or raises in them, it counts as many open transactions, admissions and
  -- free slots afterwards as before, and where its open sessions were those that it keeps (the pooled
  -- one and those of the storm), they are so again.
  pub perform_all-balance :
      (l : List Operation) (p : Process Server Conn)
      → IsDocumented client
      → p.inventory.client_sessions_active ≡ sessions_kept p.inventory
      → ((perform_all client safe_ref l p).inventory.active_transactions
          ≡ p.inventory.active_transactions)
        × ((perform_all client safe_ref l p).inventory.reservation_admissions_inflight
            ≡ p.inventory.reservation_admissions_inflight)
        × ((perform_all client safe_ref l p).inventory.free_slots ≡ p.inventory.free_slots)
        × ((perform_all client safe_ref l p).inventory.client_sessions_active
            ≡ sessions_kept (perform_all client safe_ref l p).inventory)
  perform_all-balance l p known balanced =
      let s = p.inventory in
      let h =
        perform_all-At s.active_transactions s.reservation_admissions_inflight s.free_slots 0 known
          l p
          (record {
            transactions = refl;
            admissions = refl;
            slots = refl;
            sessions = omega (arith, balanced);
            pool = tt;
          }) in
      (h.transactions, h.admissions, h.slots, omega (arith, h.sessions))

  -- For a client that raises its documented exceptions, where the open sessions are those that the service
  -- keeps: closing the service returns, and leaves no session open and none kept.
  pub release_connections-none_open :
      (p : Process Server Conn)
      → IsDocumented client
      → p.inventory.client_sessions_active ≡ sessions_kept p.inventory
      → ((release_connections client p).0 ≡ ok tt)
        × ((release_connections client p).1.inventory.client_sessions_active ≡ 0)
        × (sessions_kept (release_connections client p).1.inventory ≡ 0)
  release_connections-none_open p known balanced =
      let s = p.inventory in
      let start : At s.active_transactions s.reservation_admissions_inflight s.free_slots 0 Any p =
        record {
          transactions = refl;
          admissions = refl;
          slots = refl;
          sessions = omega (arith, balanced);
          pool = tt;
        } in
      let (_, returned, h) =
        Runs-returns
          (release-Moves client s.active_transactions s.reservation_admissions_inflight s.free_slots
            {F = λ _ _. ⊥} 0 known)
          p start in
      let nothing = none_kept _ h in (returned, omega (arith, h.sessions, nothing), nothing)
    where
      none_kept :
          (q : Process Server Conn)
          → At p.inventory.active_transactions p.inventory.reservation_admissions_inflight
              p.inventory.free_slots 0 NoneKept q
          → sessions_kept q.inventory ≡ 0
      none_kept q h = omega (arith, ap pooled h.pool.0, ap length h.pool.1)
