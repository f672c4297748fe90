-- ===== src/Inventory/Reserve/Counts.antt =====
-- A reservation of app/mysql_inventory.py leaves what it opened as it was.
use fcapsule_lab.Prelude.{
  ℕ, zero, suc, not, ◌≡◌, refl, ap, String, Bool, true, false, Option, List, arith, if◌then◌else◌,
  ◌==◌, str_eq,
}
use fcapsule_lab.Prelude.Exec.{
  Exc, integrity_error, operational_error, Keeps, Keeps-bind, Keeps-catch, Runs, Runs-gets,
  Runs-modify, Runs-bind, Runs-ensure, Runs-if, Runs-assuming, Runs-branch, ◌>>◌, Keeps→Runs,
  Runs→Keeps, keeps_rules,
}
use fcapsule_lab.Inventory.{
  Mode, Inventory, Client, write, remote, is_mysql, transaction_started, transaction_finished,
}
use fcapsule_lab.Inventory.Balance.{
  At, Any, Moves, IsDocumented, Keeps-remote, Keeps-untouched, record_request-Keeps,
  record_failure-Keeps,
}
use fcapsule_lab.Inventory.Sessions.Counts.{managed-Moves, managed_reservation-Moves}
use fcapsule_lab.Inventory.Reserve.{
  reservation_token, is_normal, transact, without_stock, with_stock, conclude, own_collision,
  existing_owner, compare_owner, replay, conflict, on_failure, attempt, admitted, unauthorized,
  busy, reserve, admit, dismiss, count_deadlock,
}

module _ {Server Conn : Type 0} (client : Client Server Conn) (t i f u : ℕ) where
  without_stock-Keeps :
      {N : Option Conn → List Conn → Type 0} (c : Conn)
      → Keeps (At t i f u N) (without_stock client c)
  unfolding without_stock
  without_stock-Keeps c = search (keeps_rules, Keeps-remote, record_request-Keeps)

  with_stock-Keeps :
      {N : Option Conn → List Conn → Type 0} (c : Conn) → Keeps (At t i f u N) (with_stock client c)
  unfolding with_stock
  with_stock-Keeps c = search (keeps_rules, Keeps-remote)

  pub transact-Keeps :
      {N : Option Conn → List Conn → Type 0} (token order revision : String) (c : Conn)
      → Keeps (At t i f u N) (transact client token order revision c)
  unfolding transact
  transact-Keeps token order revision c =
      search (keeps_rules, Keeps-remote, without_stock-Keeps, with_stock-Keeps)

module _ {Server Conn : Type 0} (client : Client Server Conn) (t i f u : ℕ) where
  own_collision-Keeps :
      (mode : Mode) (token order : String)
      → Keeps
          (At t i f u Any)
          (write {Server = Server} (own_collision {Conn = Conn} mode token order))
  unfolding own_collision
  own_collision-Keeps mode token order =
      Keeps-untouched u _ λ s. (refl, refl, refl, refl, refl, refl)

  conclude-Keeps :
      (mode : Mode) (schema token order : String) (stocked : Bool)
      → Keeps (At t i f u Any) (conclude client mode schema token order stocked)
  unfolding conclude
  conclude-Keeps mode schema token order false = search keeps_rules
  conclude-Keeps mode schema token order true =
      search (keeps_rules, own_collision-Keeps, record_request-Keeps)

  existing_owner-Keeps : (token : String) → Keeps (At t i f u Any) (existing_owner client token)
  unfolding existing_owner
  existing_owner-Keeps token =
      let looked = Runs→Keeps (
        managed-Moves client t i f u (λ c. remote (client.owner_row c token))
          λ c. Keeps-remote (suc u) _) in
      Keeps-catch is_mysql _ _ looked λ problem. search keeps_rules

  replay-Keeps :
      (mode : Mode) (schema order : String)
      → Keeps (At t i f u Any) (replay client mode schema order)
  unfolding replay
  replay-Keeps mode schema order =
      Keeps-bind _ _ (Keeps-untouched u _ λ s. (refl, refl, refl, refl, refl, refl))
        λ _. search (keeps_rules, record_request-Keeps)

  conflict-Keeps : (order : String) → Keeps (At t i f u Any) (conflict client order)
  unfolding conflict
  conflict-Keeps order =
      Keeps-bind _ _ (Keeps-untouched u _ λ s. (refl, refl, refl, refl, refl, refl))
        λ _. search (keeps_rules, record_request-Keeps)

  compare_owner-Keeps :
      (mode : Mode) (schema order : String) (owner : Option String)
      → Keeps (At t i f u Any) (compare_owner client mode schema order owner)
  unfolding compare_owner
  compare_owner-Keeps mode schema order owner = search (keeps_rules, replay-Keeps, conflict-Keeps)

  unauthorized-Keeps : (order : String) → Keeps (At t i f u Any) (unauthorized client order)
  unfolding unauthorized
  unauthorized-Keeps order = search (keeps_rules, record_request-Keeps)

  busy-Keeps : (order : String) → Keeps (At t i f u Any) (busy client order)
  unfolding busy
  busy-Keeps order =
      Keeps-bind _ _ (Keeps-untouched u _ λ s. (refl, refl, refl, refl, refl, refl))
        λ _. search (keeps_rules, record_request-Keeps)

  count_deadlock-Keeps :
      (test : Bool)
      → Keeps (At t i f u Any) (write {Server = Server} (count_deadlock {Conn = Conn} test))
  count_deadlock-Keeps test = Keeps-untouched u _ λ s. (refl, refl, refl, refl, refl, refl)

  on_failure-Keeps :
      (mode : Mode) (schema token order : String) (problem : Exc)
      → Keeps (At t i f u Any) (on_failure client mode schema token order problem)
  unfolding on_failure
  on_failure-Keeps mode schema token order (integrity_error code) =
      search (keeps_rules, existing_owner-Keeps, compare_owner-Keeps)
  on_failure-Keeps mode schema token order (operational_error code) =
      search (keeps_rules, record_request-Keeps, record_failure-Keeps, count_deadlock-Keeps)
  on_failure-Keeps mode schema token order problem =
      search (keeps_rules, record_request-Keeps, record_failure-Keeps)

  pub attempt-Keeps :
      (mode : Mode) (schema revision token order : String)
      → IsDocumented client
      → Keeps (At t i f u Any) (attempt client mode schema revision token order)
  unfolding attempt
  attempt-Keeps mode schema revision token order known =
      let transacted = Runs→Keeps (
        managed_reservation-Moves client t i f u (is_normal mode)
          (transact client token order revision) known
          λ N. transact-Keeps client t i f (suc u) token order revision) in
      Keeps-catch is_mysql _ _ (Keeps-bind _ _ transacted (conclude-Keeps mode schema token order))
        (on_failure-Keeps mode schema token order)

module _ {Server Conn : Type 0} (client : Client Server Conn) (t i u : ℕ) where
  admitted-Moves :
      (f : ℕ) (safe_ref : String → String) (mode : Mode) (schema revision order : String)
      → IsDocumented client
      → Moves t i (suc f) u u u Any (admitted client safe_ref mode schema revision order)
  unfolding admitted write transaction_started transaction_finished
  admitted-Moves f safe_ref mode schema revision order known =
      Runs-bind {R = λ _. At t (suc i) f u Any}
        (Runs-modify (λ p. record p { inventory = admit p.inventory })
          λ p h. record {
            transactions = h.transactions;
            admissions = ap suc h.admissions;
            slots = omega (arith, h.slots);
            sessions = h.sessions;
            pool = tt;
          })
        λ _.
          Runs-bind {R = λ _. At t (suc i) f u Any}
            (Runs-gets (λ p. reservation_token safe_ref order mode p.inventory) λ p h. h)
            λ token.
              Runs-bind {R = λ _. At (suc t) (suc i) f u Any}
                (Runs-modify (λ p. record p { inventory = transaction_started p.inventory })
                  λ p h. record {
                    transactions = ap suc h.transactions;
                    admissions = h.admissions;
                    slots = h.slots;
                    sessions = h.sessions;
                    pool = tt;
                  })
                λ _.
                  Runs-ensure
                    (Keeps→Runs (
                      attempt-Keeps client (suc t) (suc i) f u mode schema revision token order
                        known))
                    (λ _. given_back) λ _. given_back
    where
      given_back :
          Runs
            (At (suc t) (suc i) f u Any)
            (λ _. At t i (suc f) u Any)
            (λ _. At t i (suc f) u Any)
            (write {Server = Server} (transaction_finished {Conn = Conn}) >> write dismiss)
      given_back =
          Runs-bind {R = λ _. At t (suc i) f u Any}
            (Runs-modify (λ p. record p { inventory = transaction_finished p.inventory })
              λ p h. record {
                transactions = omega (arith, h.transactions);
                admissions = h.admissions;
                slots = h.slots;
                sessions = h.sessions;
                pool = tt;
              })
            λ _.
              Runs-modify (λ p. record p { inventory = dismiss p.inventory })
                λ p h. record {
                  transactions = h.transactions;
                  admissions = omega (arith, h.admissions);
                  slots = ap suc h.slots;
                  sessions = h.sessions;
                  pool = tt;
                }

  pub reserve-Moves :
      (f : ℕ) (safe_ref : String → String) (order key : String)
      → IsDocumented client
      → Moves t i f u u u Any (reserve client safe_ref order key)
  unfolding reserve
  reserve-Moves f safe_ref order key known =
      Runs-bind {R = λ s p. (s.free_slots ≡ f) × At t i f u Any p}
        (Runs-gets (λ p. p.inventory) λ p h. (h.slots, h))
        λ s. Runs-assuming λ slots.
          Runs-if (not (str_eq key s.settings.accepted_key_id))
            (Keeps→Runs (unauthorized-Keeps client t i f u order)) (by_slots f s slots)
    where
      by_slots :
          (f : ℕ) (s : Inventory Conn)
          → s.free_slots ≡ f
          → Moves t i f u u u Any (
              if s.free_slots == 0
              then busy client order
              else admitted client safe_ref s.failure_mode s.settings.response_schema
                  s.settings.query_revision order)
      by_slots zero s slots = rw slots (Keeps→Runs (busy-Keeps client t i 0 u order))
      by_slots (suc f) s slots =
          Runs-branch (s.free_slots == 0) (λ none_free. absurd (ground (arith, slots, none_free)))
            λ _.
              admitted-Moves f safe_ref s.failure_mode s.settings.response_schema
                s.settings.query_revision order known
