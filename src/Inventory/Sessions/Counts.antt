-- ===== src/Inventory/Sessions/Counts.antt =====
-- Connections of app/mysql_inventory.py are counted while they are open, and none is lost.
use fcapsule_lab.Prelude.{
  ℕ, suc, ◌+◌, ◌≡◌, refl, ap, Bool, true, false, Option, none, some, List, arith, if◌then◌else◌,
}
use fcapsule_lab.Prelude.Exec.{
  Exc, Keeps, Runs, Runs-pure, Runs-raise, Runs-gets, Runs-modify, Runs-bind, Runs-catch,
  Runs-ensure, Runs-if, Runs-weaken, Runs-framed, Keeps→Runs,
}
use fcapsule_lab.Inventory.{Client, Process, write, is_os, is_mysql_or_os}
use fcapsule_lab.Inventory.Balance.{
  At, Any, NonePooled, Moves, pooled, Keeps-remote, Runs-remote, IsDocumented,
}
use fcapsule_lab.Inventory.Sessions.{
  Act, connect, close_connection, discard, managed, pinged, or_connect, give_back, borrow, reuse,
  managed_reservation, taken, opened, closed,
}

os_is_caught : (problem : Exc) → is_mysql_or_os problem ≡ false → is_os problem ≡ true → ⊥
os_is_caught (Exc.os_error t) e h = ground (arith, e)
os_is_caught Exc.timeout_error e h = ground (arith, e)
os_is_caught (Exc.http_error n) e h = ground (arith, e)
os_is_caught problem e h = ground (arith, h)

module _ {Server Conn : Type 0} (client : Client Server Conn) (t i f : ℕ) where
  -- What is written under the lock where a session opens, and where it is closed.
  opened-Moves :
      {N : Option Conn → List Conn → Type 0} (u : ℕ)
      → Moves {Server = Server} t i f u (suc u) u N (write (opened client))
  unfolding write opened
  opened-Moves u = Runs-modify _ λ p h. record {
    transactions = h.transactions;
    admissions = h.admissions;
    slots = h.slots;
    sessions = omega (arith, h.sessions);
    pool = h.pool;
  }

  closed-Moves :
      {N : Option Conn → List Conn → Type 0} {F : Exc → Process Server Conn → Type 0} (u : ℕ)
      → Runs (At t i f (suc u) N) (λ _. At t i f u N) F (write {Server = Server} (closed client))
  unfolding write closed
  closed-Moves u = Runs-modify _ λ p h. record {
    transactions = h.transactions;
    admissions = h.admissions;
    slots = h.slots;
    sessions = omega (arith, h.sessions);
    pool = h.pool;
  }

  pub connect-Moves :
      {N : Option Conn → List Conn → Type 0} (u : ℕ) → Moves t i f u (suc u) u N (connect client)
  unfolding connect
  connect-Moves u =
      Runs-bind (Keeps→Runs (Keeps-remote u client.connect))
        λ c. Runs-bind (opened-Moves u) λ _. Runs-pure c λ p h. h

  pub close-Moves :
      {N : Option Conn → List Conn → Type 0} (u : ℕ) (c : Conn)
      → Moves t i f (suc u) u u N (close_connection client c)
  unfolding close_connection
  close-Moves u c =
      Runs-ensure (Keeps→Runs (Keeps-remote (suc u) (client.close c))) (λ _. closed-Moves u)
        λ _. closed-Moves u

  pub close-Fails :
      {N : Option Conn → List Conn → Type 0} (u : ℕ) (c : Conn)
      → IsDocumented client
      → Runs
          (At t i f (suc u) N)
          (λ _. At t i f u N)
          (λ problem p. (is_os problem ≡ true) × At t i f u N p)
          (close_connection client c)
  unfolding close_connection
  close-Fails u c known =
      Runs-ensure (Runs-remote (suc u) is_os true (client.close c) (known.close_fails c))
        (λ _. closed-Moves u)
        λ problem.
          Runs-weaken {E = λ _ p. (is_os problem ≡ true) × ⊥} (λ p h. h) (λ _ p h. h)
            (λ _ p h. absurd h.1) (Runs-framed (closed-Moves u))

  pub discard-Moves :
      {N : Option Conn → List Conn → Type 0} {F : Exc → Process Server Conn → Type 0} (u : ℕ)
      (c : Conn)
      → IsDocumented client
      → Runs (At t i f (suc u) N) (λ _. At t i f u N) F (discard client c)
  unfolding discard
  discard-Moves u c known =
      Runs-catch is_mysql_or_os (close-Fails u c known) (λ problem _. Runs-pure tt λ p h. h.1)
        λ problem e p h. absurd (os_is_caught problem e h.0)

  pub managed-Moves :
      {N : Option Conn → List Conn → Type 0} {A : Type 0} (u : ℕ) (body : Conn → Act client A)
      → ((c : Conn) → Keeps (At t i f (suc u) N) (body c))
      → Moves t i f u u u N (managed client body)
  unfolding managed
  managed-Moves u body each =
      Runs-bind (connect-Moves u)
        λ c. Runs-ensure (Keeps→Runs (each c)) (λ _. close-Moves u c) λ _. close-Moves u c

  -- `found` was taken from the pool
  Taken : ℕ → Option Conn → Process Server Conn → Type 0
  Taken u none = At t i f u NonePooled
  Taken u (some c) = At t i f (suc u) NonePooled

  pinged-Taken :
      (u : ℕ) (found : Option Conn)
      → IsDocumented client
      → Runs
          (Taken u found)
          (λ alive. Taken u alive)
          (λ _. At t i f u NonePooled)
          (pinged client found)
  unfolding pinged Taken
  pinged-Taken u none known = Runs-pure none λ p h. h
  pinged-Taken u (some c) known =
      Runs-catch {E = λ problem p. (is_mysql_or_os problem ≡ true) × At t i f (suc u) NonePooled p}
        is_mysql_or_os
        (Runs-bind (Runs-remote (suc u) is_mysql_or_os true (client.ping c) (known.ping_fails c))
          λ _. Runs-pure (some c) λ p h. h)
        (λ problem _.
          Runs-bind
            (Runs-weaken {E = λ _. At t i f u NonePooled} (λ p h. h.1) (λ _ p h. h) (λ _ p h. h)
              (discard-Moves u c known))
            λ _. Runs-pure none λ p h. h)
        λ problem e p h. absurd (ground (arith, e, h.0))

  or_connect-Taken :
      (u : ℕ) (alive : Option Conn)
      → Runs
          (Taken u alive)
          (λ _. At t i f (suc u) NonePooled)
          (λ _. At t i f u NonePooled)
          (or_connect client alive)
  unfolding Taken
  or_connect-Taken u none = connect-Moves u
  or_connect-Taken u (some c) = Runs-pure c λ p h. h

  forget_pool : (u : ℕ) (p : Process Server Conn) → At t i f u NonePooled p → At t i f u Any p
  forget_pool u p h = record {
    transactions = h.transactions;
    admissions = h.admissions;
    slots = h.slots;
    sessions = h.sessions;
    pool = tt;
  }

  give_back-Moves :
      (u : ℕ) (c : Conn)
      → IsDocumented client
      → Runs
          (At t i f (suc u) NonePooled)
          (λ _. At t i f u Any)
          (λ _. At t i f u Any)
          (give_back client c)
  unfolding give_back write
  give_back-Moves u c known = Runs-bind (Runs-gets _ λ p h. h) λ enabled.
      Runs-if enabled
        (Runs-modify _ λ p h. record {
          transactions = h.transactions;
          admissions = h.admissions;
          slots = h.slots;
          sessions = omega (arith, h.sessions, ap pooled h.pool);
          pool = tt;
        })
        (Runs-weaken {E = λ _. At t i f u NonePooled} (λ p h. h) (λ _. forget_pool u)
          (λ _. forget_pool u) (discard-Moves u c known))

  borrow-Moves :
      {A : Type 0} (u : ℕ) (body : Conn → Act client A) (c : Conn)
      → IsDocumented client
      → Keeps (At t i f (suc u) NonePooled) (body c)
      → Runs
          (At t i f (suc u) NonePooled)
          (λ _. At t i f u Any)
          (λ _. At t i f u Any)
          (borrow client body c)
  unfolding borrow
  borrow-Moves u body c known kept_by =
      Runs-bind {R = λ _. At t i f (suc u) NonePooled}
        (Runs-catch (λ _. true) (Keeps→Runs kept_by)
          (λ problem _.
            Runs-bind
              (Runs-weaken {E = λ _. At t i f u NonePooled} (λ p h. h) (λ _. forget_pool u)
                (λ _. forget_pool u) (discard-Moves u c known))
              λ _. Runs-raise problem λ p h. h)
          λ problem e p h. absurd (ground (arith, e)))
        λ value. Runs-bind (give_back-Moves u c known) λ _. Runs-pure value λ p h. h

  reuse-Moves :
      {A : Type 0} (u : ℕ) (body : Conn → Act client A) (found : Option Conn)
      → IsDocumented client
      → ((c : Conn) → Keeps (At t i f (suc u) NonePooled) (body c))
      → Runs (Taken u found) (λ _. At t i f u Any) (λ _. At t i f u Any) (reuse client body found)
  unfolding reuse
  reuse-Moves u body found known each =
      Runs-bind
        (Runs-weaken (λ p h. h) (λ _ p h. h) (λ _. forget_pool u) (pinged-Taken u found known))
        λ alive.
          Runs-bind
            (Runs-weaken (λ p h. h) (λ _ p h. h) (λ _. forget_pool u) (or_connect-Taken u alive))
            λ c. borrow-Moves u body c known (each c)

  -- the pool after the first section, by the flag that it read
  taken-Taken :
      (u : ℕ) (enabled : Bool) (found : Option Conn)
      → Runs
          (λ p.
            At t i f u Any p
            × (p.inventory.normal_connection_enabled ≡ enabled)
            × (p.inventory.normal_connection ≡ found))
          (λ _. if enabled then Taken u found else At t i f u Any)
          (λ _. At t i f u Any)
          (write {Server = Server} (taken client))
  unfolding write taken Taken
  taken-Taken u enabled found = Runs-modify _ λ p (h, e, same). by_flag p enabled found h e same
    where
      emptied_pool :
          (p : Process Server Conn) (v : ℕ)
          → At t i f u Any p
          → p.inventory.normal_connection_enabled ≡ true
          → u + pooled p.inventory.normal_connection ≡ v
          → At t i f v NonePooled (record p { inventory = taken client p.inventory })
      emptied_pool p v h e counted = record {
        transactions = h.transactions;
        admissions = h.admissions;
        slots = h.slots;
        sessions = rw e (omega (arith, h.sessions, counted));
        pool = rw e refl;
      }

      by_flag :
          (p : Process Server Conn) (enabled : Bool) (found : Option Conn)
          → At t i f u Any p
          → p.inventory.normal_connection_enabled ≡ enabled
          → p.inventory.normal_connection ≡ found
          → (if enabled then Taken u found else At t i f u Any)
              (record p { inventory = taken client p.inventory })
      by_flag p true none h e same = emptied_pool p u h e (omega (arith, ap pooled same))
      by_flag p true (some c) h e same = emptied_pool p (suc u) h e (omega (arith, ap pooled same))
      by_flag p false found h e same = record {
        transactions = h.transactions;
        admissions = h.admissions;
        slots = h.slots;
        sessions = rw e (omega (arith, h.sessions));
        pool = tt;
      }

  pub managed_reservation-Moves :
      {A : Type 0} (u : ℕ) (reuse_normal : Bool) (body : Conn → Act client A)
      → IsDocumented client
      → ((N : Option Conn → List Conn → Type 0) (c : Conn) → Keeps (At t i f (suc u) N) (body c))
      → Moves t i f u u u Any (managed_reservation client reuse_normal body)
  unfolding managed_reservation
  managed_reservation-Moves u false body known each = managed-Moves u body (each Any)
  managed_reservation-Moves u true body known each =
      Runs-bind
        {R = λ enabled p. At t i f u Any p × (p.inventory.normal_connection_enabled ≡ enabled)}
        (Runs-gets _ λ p h. (h, refl))
        λ enabled.
          Runs-bind
            {R = λ found p.
              At t i f u Any p
              × (p.inventory.normal_connection_enabled ≡ enabled)
              × (p.inventory.normal_connection ≡ found)}
            (Runs-gets _ λ p (h, e). (h, e, refl))
            λ found. Runs-bind (taken-Taken u enabled found) λ _. by_flag enabled found
    where
      by_flag :
          (enabled : Bool) (found : Option Conn)
          → Runs
              (if enabled then Taken u found else At t i f u Any)
              (λ _. At t i f u Any)
              (λ _. At t i f u Any)
              (if enabled then reuse client body found else managed client body)
      by_flag true found = reuse-Moves u body found known (each NonePooled)
      by_flag false found = managed-Moves u body (each Any)
