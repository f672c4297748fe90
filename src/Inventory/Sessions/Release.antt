-- ===== src/Inventory/Sessions/Release.antt =====
-- _release_connections of app/mysql_inventory.py gives every kept session back, and raises nothing.
use fcapsule_lab.Prelude.{
  ℕ, suc, ◌+◌, ◌≡◌, refl, ap, subst, Option, none, some, List, [], ◌∷◌, length, arith,
}
use fcapsule_lab.Prelude.Exec.{Exc, Runs, Runs-pure, Runs-gets, Runs-modify, Runs-bind, Runs-weaken}
use fcapsule_lab.Inventory.{Client, Process, write}
use fcapsule_lab.Inventory.Balance.{At, Any, NoneKept, pooled, IsDocumented}
use fcapsule_lab.Inventory.Sessions.{discard_some, discard_all, release_connections, emptied}
use fcapsule_lab.Inventory.Sessions.Counts.{discard-Moves}

module _ {Server Conn : Type 0} (client : Client Server Conn) (t i f : ℕ) where
  -- `n` sessions in use after a sum that is `n`
  pub sum_in_use :
      {N : Option Conn → List Conn → Type 0} (n m : ℕ) (p : Process Server Conn)
      → n ≡ m
      → At t i f n N p
      → At t i f m N p
  sum_in_use {N} n m p e h = subst (λ k. At t i f k N p) e h

  discard_some-Moves :
      {N : Option Conn → List Conn → Type 0} {F : Exc → Process Server Conn → Type 0} (u : ℕ)
      (found : Option Conn)
      → IsDocumented client
      → Runs (At t i f (pooled found + u) N) (λ _. At t i f u N) F (discard_some client found)
  discard_some-Moves u none known = Runs-pure tt λ p h. sum_in_use (0 + u) u p (omega arith) h
  discard_some-Moves u (some c) known =
      Runs-weaken (λ p h. sum_in_use (1 + u) (suc u) p (omega arith) h) (λ _ p h. h) (λ _ p h. h)
        (discard-Moves client t i f u c known)

  discard_all-Moves :
      {N : Option Conn → List Conn → Type 0} {F : Exc → Process Server Conn → Type 0} (u : ℕ)
      (l : List Conn)
      → IsDocumented client
      → Runs (At t i f (length l + u) N) (λ _. At t i f u N) F (discard_all client l)
  unfolding discard_all
  discard_all-Moves u [] known = Runs-pure tt λ p h. sum_in_use (0 + u) u p (omega arith) h
  discard_all-Moves u (c ∷ l) known =
      Runs-bind
        (Runs-weaken (λ p h. sum_in_use (suc (length l) + u) (suc (length l + u)) p (omega arith) h)
          (λ _ p h. h) (λ _ p h. h) (discard-Moves client t i f (length l + u) c known))
        λ _. discard_all-Moves u l known

  pub release-Moves :
      {F : Exc → Process Server Conn → Type 0} (u : ℕ)
      → IsDocumented client
      → Runs (At t i f u Any) (λ _. At t i f u NoneKept) F (release_connections client)
  unfolding release_connections write
  release-Moves u known =
      Runs-bind {R = λ found p. At t i f u Any p × (p.inventory.normal_connection ≡ found)}
        (Runs-gets _ λ p h. (h, refl))
        λ found.
          Runs-bind
            {R = λ held p.
              At t i f u Any p
              × (p.inventory.normal_connection ≡ found)
              × (p.inventory.held_connections ≡ held)}
            (Runs-gets _ λ p (h, e). (h, e, refl))
            λ held.
              Runs-bind {R = λ _. At t i f (pooled found + (length held + u)) NoneKept}
                (Runs-modify (λ p. record p { inventory = emptied client p.inventory })
                  λ p (h, e, e'). record {
                    transactions = h.transactions;
                    admissions = h.admissions;
                    slots = h.slots;
                    sessions = omega (arith, h.sessions, ap pooled e, ap length e');
                    pool = (refl, refl);
                  })
                λ _.
                  Runs-bind (discard_some-Moves (length held + u) found known)
                    λ _. discard_all-Moves u held known
