-- ===== src/Inventory/Tasks/Counts.antt =====
-- The background threads of app/mysql_inventory.py leave what they open as it was.
use fcapsule_lab.Prelude.{
  ℕ, zero, suc, ◌≡◌, refl, ap, String, Bool, true, false, Option, none, some, List, [], not, ◌&&◌,
  arith, if◌then◌else◌, ◌==◌, leb, ℤ,
}
use fcapsule_lab.Prelude.Exec.{
  Exc, pure, ◌>>◌, Keeps, Keeps-bind, Keeps-catch, Keeps-if, Keeps-raise, Runs, Runs-pure,
  Runs-gets, Runs-modify, Runs-bind, Runs-catch, Runs-ensure, Runs-if, Runs-weaken, Runs-assuming,
  Runs-branch, Keeps→Runs, Runs→Keeps, keeps_rules,
}
use fcapsule_lab.Inventory.{
  Client, Process, write, is_mysql, transaction_started, transaction_finished,
}
use fcapsule_lab.Inventory.Balance.{
  At, Any, Moves, IsDocumented, Keeps-remote, Keeps-untouched, record_failure-Keeps,
}
use fcapsule_lab.Inventory.Sessions.Counts.{managed-Moves}
use fcapsule_lab.Inventory.Modes.Counts.{set_failure_mode-Moves, forget_kept}
use fcapsule_lab.Inventory.Tasks.{
  reconcile_body, reconcile_once, reconcile, take_slot, give_slot, lock_both, deadlock_transaction,
  is_broken, victim, sample_columns, read_sample, store_sample, sampled, sample_database,
  is_mysql_or_value, lease_pass, run_of,
}

module _ {Server Conn : Type 0} (client : Client Server Conn) (t i f u : ℕ) where
  reconcile_body-Keeps :
      (cancelled : Bool) (c : Conn) → Keeps (At t i f u Any) (reconcile_body client cancelled c)
  unfolding reconcile_body
  reconcile_body-Keeps cancelled c = Keeps-bind _ _ (Keeps-remote u _) λ _.
      Keeps-bind _ _ (Keeps-remote u _)
        λ _. Keeps-bind _ _ (Keeps-remote u _) λ _. search (keeps_rules, Keeps-remote)

  lock_both-Keeps :
      (first second : String) (broken : Bool) (c : Conn)
      → Keeps (At t i f u Any) (lock_both client first second broken c)
  unfolding lock_both
  lock_both-Keeps first second broken c =
      Keeps-bind _ _ (Keeps-remote u _)
        λ _. Keeps-bind _ _ (Keeps-remote u _) λ _. search (keeps_rules, Keeps-remote)

  sample_columns-Keeps : (c : Conn) → Keeps (At t i f u Any) (sample_columns client c)
  unfolding sample_columns
  sample_columns-Keeps c = search (keeps_rules, Keeps-remote)

  read_sample-Keeps : (c : Conn) → Keeps (At t i f u Any) (read_sample client c)
  unfolding read_sample
  read_sample-Keeps c = search (keeps_rules, Keeps-remote, sample_columns-Keeps)

  store_sample-Keeps :
      (read : ℕ × ℕ × Option (List String)) → Keeps (At t i f u Any) (store_sample client read)
  unfolding store_sample sampled
  store_sample-Keeps (connected, maximum, none) =
      Keeps-if _ _ _ (Keeps-raise _) (Keeps-untouched u _ λ s. (refl, refl, refl, refl, refl, refl))
  store_sample-Keeps (connected, maximum, some columns) =
      Keeps-if _ _ _ (Keeps-raise _) (Keeps-untouched u _ λ s. (refl, refl, refl, refl, refl, refl))

module _ {Server Conn : Type 0} (client : Client Server Conn) (t i f u : ℕ) where
  pub sample_database-Keeps : Keeps (At t i f u Any) (sample_database client)
  unfolding sample_database
  sample_database-Keeps =
      Keeps-catch is_mysql_or_value _ _
        (Keeps-bind _ _
          (Runs→Keeps (
            managed-Moves client t i f u (read_sample client)
              (read_sample-Keeps client t i f (suc u))))
          (store_sample-Keeps client t i f u))
        λ problem. Keeps-untouched u _ λ s. (refl, refl, refl, refl, refl, refl)

  -- a transaction that is opened and finished around what keeps the counts
  finish-Moves :
      {F : Exc → Process Server Conn → Type 0}
      → Runs
          (At (suc t) i f u Any)
          (λ _. At t i f u Any)
          F
          (write {Server = Server} (transaction_finished {Conn = Conn}))
  unfolding write transaction_finished
  finish-Moves = Runs-modify _ λ p h. record {
    transactions = omega (arith, h.transactions);
    admissions = h.admissions;
    slots = h.slots;
    sessions = h.sessions;
    pool = tt;
  }

  start-Moves :
      {F : Exc → Process Server Conn → Type 0}
      → Runs
          (At t i f u Any)
          (λ _. At (suc t) i f u Any)
          F
          (write {Server = Server} (transaction_started {Conn = Conn}))
  unfolding write transaction_started
  start-Moves = Runs-modify _ λ p h. record {
    transactions = ap suc h.transactions;
    admissions = h.admissions;
    slots = h.slots;
    sessions = h.sessions;
    pool = tt;
  }

  give_slot-Moves :
      {F : Exc → Process Server Conn → Type 0} (acquired : Bool)
      → Runs
          (At t i f u Any)
          (λ _. At t i (if acquired then suc f else f) u Any)
          F
          (write {Server = Server} (give_slot {Conn = Conn} acquired))
  unfolding write
  give_slot-Moves true =
      Runs-modify (λ p. record p { inventory = give_slot true p.inventory })
        λ p h. record {
          transactions = h.transactions;
          admissions = h.admissions;
          slots = ap suc h.slots;
          sessions = h.sessions;
          pool = tt;
        }
  give_slot-Moves false =
      Runs-modify (λ p. record p { inventory = give_slot false p.inventory })
        λ p h. record {
          transactions = h.transactions;
          admissions = h.admissions;
          slots = h.slots;
          sessions = h.sessions;
          pool = tt;
        }

module _ {Server Conn : Type 0} {t i f : ℕ} (u : ℕ) where
  victim-Keeps : Keeps (At t i f u Any) (write {Server = Server} (victim {Conn = Conn}))
  victim-Keeps = Keeps-untouched u _ λ s. (refl, refl, refl, refl, refl, refl)

module _ {Server Conn : Type 0} (client : Client Server Conn) (t i f u : ℕ) where
  pub deadlock_transaction-Moves :
      (first second : String) (broken : Bool)
      → Moves t i f u u u Any (deadlock_transaction client first second broken)
  unfolding deadlock_transaction
  deadlock_transaction-Moves first second broken = Runs-bind (start-Moves client t i f u) λ _.
      Runs-ensure
        (Keeps→Runs (
          Keeps-catch is_broken _ _
            (Runs→Keeps (
              managed-Moves client (suc t) i f u (lock_both client first second broken)
                (lock_both-Keeps client (suc t) i f (suc u) first second broken)))
            λ problem. search (keeps_rules, victim-Keeps, record_failure-Keeps)))
        (λ _. finish-Moves client t i f u) λ _. finish-Moves client t i f u

  reconcile_once-Moves :
      (acquired cancelled : Bool)
      → Runs
          (At t i f u Any)
          (λ _. At t i (if acquired then suc f else f) u Any)
          (λ _. At t i (if acquired then suc f else f) u Any)
          (reconcile_once client acquired cancelled)
  unfolding reconcile_once
  reconcile_once-Moves acquired cancelled =
      Runs-ensure {R = λ _. At (suc t) i f u Any} {E = λ _. At (suc t) i f u Any}
        (Runs-catch {E = λ _. At (suc t) i f u Any} is_mysql
          (Runs-bind (start-Moves client t i f u) λ _.
            managed-Moves client (suc t) i f u (reconcile_body client cancelled)
              (reconcile_body-Keeps client (suc t) i f (suc u) cancelled))
          (λ problem _. Runs-pure tt λ p h. h) λ problem _ p h. h)
        (λ _. finished) λ _. finished
    where
      finished :
          Runs
            (At (suc t) i f u Any)
            (λ _. At t i (if acquired then suc f else f) u Any)
            (λ _. At t i (if acquired then suc f else f) u Any)
            (write {Server = Server} (transaction_finished {Conn = Conn})
              >> write (give_slot acquired))
      finished =
          Runs-bind (finish-Moves client t i f u) λ _. give_slot-Moves client t i f u acquired

module _ {Server Conn : Type 0} (client : Client Server Conn) (t i u : ℕ) where
  pub reconcile-Moves :
      (f : ℕ) (hold_for_contention cancelled : Bool)
      → Moves t i f u u u Any (reconcile client hold_for_contention cancelled)
  unfolding reconcile write
  reconcile-Moves f true cancelled = reconcile_once-Moves client t i f u false cancelled
  reconcile-Moves f false cancelled =
      Runs-bind {R = λ free p. (free ≡ f) × At t i f u Any p}
        (Runs-gets (λ p. p.inventory.free_slots) λ p h. (h.slots, h))
        λ free. Runs-assuming λ slots. by_slots f free slots
    where
      by_slots :
          (f free : ℕ)
          → free ≡ f
          → Moves t i f u u u Any (
              if free == 0
              then pure tt
              else write {Server = Server} (take_slot {Conn = Conn})
                >> reconcile_once client true cancelled)
      by_slots zero free slots = rw slots (Runs-pure tt λ p h. h)
      by_slots (suc f) free slots =
          Runs-branch (free == 0) (λ none_free. absurd (ground (arith, slots, none_free)))
            λ _.
              Runs-bind
                (Runs-modify (λ p. record p { inventory = take_slot p.inventory })
                  λ p h. record {
                    transactions = h.transactions;
                    admissions = h.admissions;
                    slots = omega (arith, h.slots);
                    sessions = h.sessions;
                    pool = tt;
                  })
                λ _. reconcile_once-Moves client t i f u true cancelled

module _ {Server Conn : Type 0} (client : Client Server Conn) (t i f u : ℕ) where
  pub lease_pass-Moves :
      (now : ℕ) (fresh_token : String)
      → IsDocumented client
      → Moves t i f u u u Any (lease_pass client now fresh_token)
  unfolding lease_pass
  lease_pass-Moves now fresh_token known =
      Runs-bind {R = λ _. At t i f u Any} (Runs-gets (λ p. p.inventory.expires_at) λ p h. h)
        λ expires.
          Runs-bind {R = λ _. At t i f u Any} (Runs-gets (λ p. p.inventory.control_run_id) λ p h. h)
            λ run.
              Runs-if (not (expires == 0) && leb expires now)
                (Runs-weaken (λ p h. h) (λ _. forget_kept client t i f u) (λ _ p h. h)
                  (set_failure_mode-Moves client t i f u "normal" (ℤ.pos 180) [] (run_of run) now
                    fresh_token known))
                (Runs-pure tt λ p h. h)
