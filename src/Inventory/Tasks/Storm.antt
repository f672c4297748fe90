-- ===== src/Inventory/Tasks/Storm.antt =====
-- Sessions of the connection storm of app/mysql_inventory.py are counted, and none passes its
-- target.
use fcapsule_lab.Prelude.{
  ◌⊎◌, inl, inr, ℕ, suc, ◌+◌, ◌≡◌, Bool, true, false, Option, none, some, [], ◌∷◌, arith, leb,
  length, length-append,
}
use fcapsule_lab.Prelude.Exec.{
  Exc, integrity_error, operational_error, mysql_error, Runs, Runs-pure, Runs-gets, Runs-modify,
  Runs-bind, Runs-catch, Runs-if, Runs-weaken, Keeps→Runs,
}
use fcapsule_lab.Inventory.{Client, Process, write, is_mysql, is_os, select_one, connection_failure}
use fcapsule_lab.Inventory.Sessions.{discard}
use fcapsule_lab.Inventory.Balance.{
  At, Any, pooled, Moves, IsDocumented, Runs-remote, record_failure-Keeps,
}
use fcapsule_lab.Inventory.Sessions.Counts.{connect-Moves, close-Fails, discard-Moves}
use fcapsule_lab.Inventory.Sessions.Release.{sum_in_use}
use fcapsule_lab.Inventory.Tasks.{
  hold, hold_or_close, storm_failed, use_session, open_session, storm_session, storm,
}

not_both : (problem : Exc) → is_mysql problem ≡ true → is_os problem ≡ true → ⊥
not_both (integrity_error n) e h = ground (arith, h)
not_both (operational_error n) e h = ground (arith, h)
not_both (mysql_error n) e h = ground (arith, h)
not_both problem e h = ground (arith, e)

module _ {Server Conn : Type 0} (client : Client Server Conn) (t i f u : ℕ) where
  pub hold-Moves :
      {F : Exc → Process Server Conn → Type 0} (c : Conn)
      → Runs (At t i f (suc u) Any) (λ _. At t i f u Any) F (write {Server = Server} (hold c))
  unfolding write
  hold-Moves c =
      Runs-modify (λ p. record p { inventory = hold c p.inventory })
        λ p h. record {
          transactions = h.transactions;
          admissions = h.admissions;
          slots = h.slots;
          sessions = omega (arith, h.sessions, length-append p.inventory.held_connections (c ∷ []));
          pool = tt;
        }

  hold_or_close-Moves :
      (stopped : Bool) (c : Conn)
      → IsDocumented client
      → Runs
          (At t i f (suc u) Any)
          (λ _. At t i f u Any)
          (λ problem p. (is_os problem ≡ true) × At t i f u Any p)
          (hold_or_close client stopped c)
  unfolding hold_or_close
  hold_or_close-Moves true c known = close-Fails client t i f u c known
  hold_or_close-Moves false c known = hold-Moves c

  storm_failed-Moves :
      (c : Conn)
      → IsDocumented client
      → Runs
          (At t i f (suc u) Any)
          (λ _. At t i f u Any)
          (λ _. At t i f u Any)
          (storm_failed client (some c))
  unfolding storm_failed discard
  storm_failed-Moves c known =
      Runs-bind (discard-Moves client t i f u c known) λ _. Keeps→Runs (record_failure-Keeps u _)

  -- where a session of the storm is when it raises
  Stuck : Exc → Process Server Conn → Type 0
  Stuck problem p =
      ((is_mysql problem ≡ true) × At t i f (suc u) Any p)
      ⊎ ((is_os problem ≡ true) × At t i f u Any p)

  use_session-Moves :
      (stopped : Bool) (c : Conn)
      → IsDocumented client
      → Runs
          (At t i f (suc u) Any)
          (λ _. At t i f u Any)
          (λ _. At t i f u Any)
          (use_session client stopped (some c))
  unfolding use_session Stuck
  use_session-Moves stopped c known =
      Runs-catch {E = Stuck} is_mysql
        (Runs-bind
          (Runs-weaken (λ p h. h) (λ _ p h. h) (λ _ p h. inl h)
            (Runs-remote (suc u) is_mysql true (client.execute c select_one)
              (known.execute_fails c select_one)))
          λ _.
            Runs-weaken (λ p h. h) (λ _ p h. h) (λ _ p h. inr h)
              (hold_or_close-Moves stopped c known))
        (λ problem caught.
          Runs-weaken (still_open problem caught) (λ _ p h. h) (λ _ p h. h)
            (storm_failed-Moves c known))
        no_longer
    where
      still_open :
          (problem : Exc)
          → is_mysql problem ≡ true
          → (p : Process Server Conn) → Stuck problem p
          → At t i f (suc u) Any p
      still_open problem caught p (inl h) = h.1
      still_open problem caught p (inr h) = absurd (not_both problem caught h.0)

      no_longer :
          (problem : Exc)
          → is_mysql problem ≡ false
          → (p : Process Server Conn) → Stuck problem p
          → At t i f u Any p
      no_longer problem e p (inl h) = absurd (ground (arith, e, h.0))
      no_longer problem e p (inr h) = h.1

  open_session-Moves :
      Runs
        (At t i f u Any)
        (λ found. At t i f (pooled found + u) Any)
        (λ _. At t i f u Any)
        (open_session client)
  unfolding open_session storm_failed
  open_session-Moves =
      Runs-catch {E = λ _. At t i f u Any} is_mysql
        (Runs-bind (connect-Moves client t i f u)
          λ c. Runs-pure (some c) λ p h. sum_in_use client t i f (suc u) (1 + u) p (omega arith) h)
        (λ problem _.
          Runs-bind (Keeps→Runs (record_failure-Keeps u connection_failure))
            λ _. Runs-pure none λ p h. sum_in_use client t i f u (0 + u) p (omega arith) h)
        λ problem _ p h. h

  used-Moves :
      (stopped : Bool) (found : Option Conn)
      → IsDocumented client
      → Runs
          (At t i f (pooled found + u) Any)
          (λ _. At t i f u Any)
          (λ _. At t i f u Any)
          (use_session client stopped found)
  unfolding use_session
  used-Moves stopped none known =
      Runs-pure tt λ p h. sum_in_use client t i f (0 + u) u p (omega arith) h
  used-Moves stopped (some c) known =
      Runs-weaken (λ p h. sum_in_use client t i f (1 + u) (suc u) p (omega arith) h) (λ _ p h. h)
        (λ _ p h. h) (use_session-Moves stopped c known)

  pub storm-Moves :
      (n : ℕ) (stopped : Bool)
      → IsDocumented client
      → Moves t i f u u u Any (storm client n stopped)
  unfolding storm storm_session
  storm-Moves n stopped known =
      Runs-bind {R = λ _. At t i f u Any}
        (Runs-gets (λ p. length p.inventory.held_connections) λ p h. h)
        λ held. Runs-if (leb n held) (Runs-pure true λ p h. h) (
          Runs-bind (Runs-bind open_session-Moves λ found. used-Moves stopped found known)
            λ _. Runs-pure stopped λ p h. h)
