-- ===== src/Inventory/Balance.antt =====
-- What the operations of app/mysql_inventory.py owe: how many transactions, admissions, free slots
-- and open sessions the process counts, beside the sessions that it keeps.
use fcapsule_lab.Prelude.{
  ℕ, ◌+◌, ◌≡◌, refl, Bool, true, false, Option, none, some, List, [], length,
}
use fcapsule_lab.Prelude.Exec.{Exc, Result, ok, err, Outcome, Exec, modify, Keeps, Runs}
use fcapsule_lab.Inventory.{
  Inventory, Client, Process, Failure, Statement, write, is_mysql, remote, is_os, is_mysql_or_os,
  record_request, record_failure,
}

module _ {Conn : Type 0} where
  abbrev pub pooled : Option Conn → ℕ
  pooled none = 0
  pooled (some c) = 1

  -- the connections that the state keeps between operations
  abbrev pub sessions_kept : Inventory Conn → ℕ
  sessions_kept s = pooled s.normal_connection + length s.held_connections

-- `t` transactions and `i` admissions are open, `f` slots are free, `u` sessions are in use beside
-- those that are kept, and those that are kept satisfy `N`.
pub record At {Server Conn : Type 0} (t i f u : ℕ) (N : Option Conn → List Conn → Type 0)
    (p : Process Server Conn) : Type 0 where
  pub transactions : p.inventory.active_transactions ≡ t
  pub admissions : p.inventory.reservation_admissions_inflight ≡ i
  pub slots : p.inventory.free_slots ≡ f
  pub sessions : p.inventory.client_sessions_active ≡ u + sessions_kept p.inventory
  pub pool : N p.inventory.normal_connection p.inventory.held_connections

-- What the service relies on of pymysql: a ping fails with the client's exceptions or those of the
-- system, closing a connection with those of the system at most, and a statement with the client's only.
pub record IsDocumented {Server Conn : Type 0} (client : Client Server Conn) : Type 0 where
  pub ping_fails :
      (c : Conn) (s : Server) (problem : Exc)
      → (client.ping c s).0 ≡ err problem
      → is_mysql_or_os problem ≡ true
  pub close_fails :
      (c : Conn) (s : Server) (problem : Exc)
      → (client.close c s).0 ≡ err problem
      → is_os problem ≡ true
  pub execute_fails :
      (c : Conn) (statement : Statement) (s : Server) (problem : Exc)
      → (client.execute c statement s).0 ≡ err problem
      → is_mysql problem ≡ true

abbrev pub Any : {Conn : Type 0} → Option Conn → List Conn → Type 0
Any c l = Unit {0}

abbrev pub NonePooled : {Conn : Type 0} → Option Conn → List Conn → Type 0
NonePooled c l = c ≡ none

abbrev pub NoneKept : {Conn : Type 0} → Option Conn → List Conn → Type 0
NoneKept c l = (c ≡ none) × (l ≡ [])

-- An action that takes `u` sessions in use to `v`, and leaves `w` where it raises.
abbrev pub Moves :
    {Server Conn A : Type 0}
    → (t i f u v w : ℕ) → (N : Option Conn → List Conn → Type 0) → Exec (Process Server Conn) A
    → Type 0
Moves t i f u v w N act = Runs (At t i f u N) (λ _. At t i f v N) (λ _. At t i f w N) act

module _ {Server Conn : Type 0} {t i f : ℕ} {N : Option Conn → List Conn → Type 0} where
  pub Keeps-remote :
      {A : Type 0} (u : ℕ) (call : Exec Server A) → Keeps (At t i f u N) (remote {Conn = Conn} call)
  unfolding remote
  Keeps-remote u call = record {
    at = λ p h. record {
      transactions = h.transactions;
      admissions = h.admissions;
      slots = h.slots;
      sessions = h.sessions;
      pool = h.pool;
    };
  }

  -- a section under a lock that touches none of the five
  pub Keeps-write :
      (u : ℕ) (change : Inventory Conn → Inventory Conn)
      → ((p : Process Server Conn)
          → At t i f u N p
          → At t i f u N (record p { inventory = change p.inventory }))
      → Keeps (At t i f u N) (write {Server = Server} change)
  unfolding write modify
  Keeps-write u change reason = record { at = reason }

  -- A call that raises only what passes a test.
  pub Runs-remote :
      {A : Type 0} (u : ℕ) (test : Exc → Bool) (b : Bool) (call : Exec Server A)
      → ((s : Server) (problem : Exc) → (call s).0 ≡ err problem → test problem ≡ b)
      → Runs
          (At t i f u N)
          (λ _. At t i f u N)
          (λ problem p. (test problem ≡ b) × At t i f u N p)
          (remote {Conn = Conn} call)
  unfolding remote
  Runs-remote {A} u test b call only = record {
    at = λ p h.
        told (call p.server).0 (record p { server = (call p.server).1 }) (only p.server)
          (record {
            transactions = h.transactions;
            admissions = h.admissions;
            slots = h.slots;
            sessions = h.sessions;
            pool = h.pool;
          });
  }
    where
      told :
          (came : Result A) (after : Process Server Conn)
          → ((problem : Exc) → came ≡ err problem → test problem ≡ b)
          → At t i f u N after
          → Outcome
              (λ _. At t i f u N)
              (λ problem p. (test problem ≡ b) × At t i f u N p)
              came
              after
      told (ok value) after only h = h
      told (err problem) after only h = (only problem refl, h)

  -- a section that touches none of the fields
  pub Keeps-untouched :
      (u : ℕ) (change : Inventory Conn → Inventory Conn)
      → ((s : Inventory Conn)
          → ((change s).active_transactions ≡ s.active_transactions)
            × ((change s).reservation_admissions_inflight ≡ s.reservation_admissions_inflight)
            × ((change s).free_slots ≡ s.free_slots)
            × ((change s).client_sessions_active ≡ s.client_sessions_active)
            × ((change s).normal_connection ≡ s.normal_connection)
            × ((change s).held_connections ≡ s.held_connections))
      → Keeps (At t i f u N) (write {Server = Server} change)
  Keeps-untouched u change same = Keeps-write u change λ p h.
      let (e₁, e₂, e₃, e₄, e₅, e₆) = same p.inventory in
      record {
        transactions = rw e₁ h.transactions;
        admissions = rw e₂ h.admissions;
        slots = rw e₃ h.slots;
        sessions = rw (e₄, e₅, e₆) h.sessions;
        pool = rw (e₅, e₆) h.pool;
      }

module _ {Server Conn : Type 0} {t i f : ℕ} {N : Option Conn → List Conn → Type 0} where
  pub record_request-Keeps :
      (u : ℕ) (success : Bool)
      → Keeps (At t i f u N) (write {Server = Server} (record_request success))
  unfolding record_request
  record_request-Keeps u true = Keeps-untouched u _ λ s. (refl, refl, refl, refl, refl, refl)
  record_request-Keeps u false = Keeps-untouched u _ λ s. (refl, refl, refl, refl, refl, refl)

  pub record_failure-Keeps :
      (u : ℕ) (kind : Failure)
      → Keeps (At t i f u N) (write {Server = Server} (record_failure kind))
  unfolding record_failure
  record_failure-Keeps u kind = Keeps-untouched u _ λ s. (refl, refl, refl, refl, refl, refl)
