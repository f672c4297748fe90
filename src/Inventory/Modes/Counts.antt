-- ===== src/Inventory/Modes/Counts.antt =====
-- A change of the failure mode of app/mysql_inventory.py gives every kept session back.
use fcapsule_lab.Prelude.{ℕ, suc, refl, String, Option, none, some, List, ℤ, Arg, Dict}
use fcapsule_lab.Prelude.Exec.{
  ◌>>=◌, Keeps, Keeps-bind, Keeps-catch, Keeps-if, Keeps-lift, Keeps-pure, Runs, Runs-bind,
  Runs-weaken, Keeps→Runs, Runs→Keeps, keeps_rules,
}
use fcapsule_lab.Safety.{lease_seconds}
use fcapsule_lab.Inventory.{Mode, Client, Process, write, remote, is_mysql, delete_reservation}
use fcapsule_lab.Inventory.Balance.{At, Any, NoneKept, IsDocumented, Keeps-remote, Keeps-untouched}
use fcapsule_lab.Inventory.Sessions.Counts.{managed-Moves}
use fcapsule_lab.Inventory.Sessions.Release.{release-Moves}
use fcapsule_lab.Inventory.Modes.{
  check_capacity, require_column_absent, cleanup, cleanup_previous, configured_as, forget_collision,
  apply_mode, set_failure_mode, mode_of, validate_run_id, wants_v2,
}

module _ {Server Conn : Type 0} (client : Client Server Conn) (t i f u : ℕ) where
  module _ {N : Option Conn → List Conn → Type 0} where
    check_capacity-Keeps : (mode : Mode) → Keeps (At t i f u N) (check_capacity client mode)
    unfolding check_capacity
    check_capacity-Keeps mode = search keeps_rules

    require_column_absent-Keeps : Keeps (At t i f u N) (require_column_absent client)
    unfolding require_column_absent
    require_column_absent-Keeps =
        Keeps-bind _ _
          (Runs→Keeps (
            managed-Moves client t i f u (λ c. remote (client.reserved_column c))
              λ c. Keeps-remote (suc u) _))
          λ present. search keeps_rules

    cleanup-Keeps : (token owner : String) → Keeps (At t i f u N) (cleanup client token owner)
    unfolding cleanup
    cleanup-Keeps token owner =
        Keeps-catch is_mysql _ _
          (Runs→Keeps (
            managed-Moves client t i f u
              (λ c. remote (client.execute c (delete_reservation token owner)) >>= λ _.
                remote (client.commit c))
              λ c. Keeps-bind _ _ (Keeps-remote (suc u) _) λ _. Keeps-remote (suc u) _))
          λ problem. search keeps_rules

    cleanup_previous-Keeps :
        (token owner : Option String) → Keeps (At t i f u N) (cleanup_previous client token owner)
    unfolding cleanup_previous
    cleanup_previous-Keeps (some token) (some owner) = search (keeps_rules, cleanup-Keeps)
    cleanup_previous-Keeps none owner = search keeps_rules
    cleanup_previous-Keeps (some token) none = search keeps_rules

    forget_collision-Keeps :
        Keeps (At t i f u N) (write {Server = Server} (forget_collision {Conn = Conn}))
    forget_collision-Keeps = Keeps-untouched u _ λ s. (refl, refl, refl, refl, refl, refl)

    configured_as-Keeps :
        (mode : Mode) (duration : ℕ) (run_id : Option String) (values : Dict String) (now : ℕ)
        (fresh_token : String)
        → Keeps (At t i f u N) (
            write {Server = Server}
              (configured_as {Conn = Conn} mode duration run_id values now fresh_token))
    unfolding configured_as
    configured_as-Keeps mode duration run_id values now fresh_token =
        Keeps-untouched u _ λ s. (refl, refl, refl, refl, refl, refl)

  pub forget_kept : (p : Process Server Conn) → At t i f u NoneKept p → At t i f u Any p
  forget_kept p h = record {
    transactions = h.transactions;
    admissions = h.admissions;
    slots = h.slots;
    sessions = h.sessions;
    pool = tt;
  }

  apply_mode-Moves :
      (mode : Mode) (duration : ℕ) (run_id : Option String) (values : Dict String) (now : ℕ)
      (fresh_token : String)
      → IsDocumented client
      → Runs
          (At t i f u Any)
          (λ _. At t i f u NoneKept)
          (λ _. At t i f u Any)
          (apply_mode client mode duration run_id values now fresh_token)
  unfolding apply_mode
  apply_mode-Moves mode duration run_id values now fresh_token known =
      Runs-bind (release-Moves client t i f u known) λ _.
        Runs-weaken {E = λ _. At t i f u NoneKept} (λ p h. h) (λ _ p h. h) (λ _. forget_kept)
          (Keeps→Runs (
            search
              (keeps_rules, cleanup_previous-Keeps, forget_collision-Keeps, configured_as-Keeps)))

  pub set_failure_mode-Moves :
      (name : String) (duration : ℤ) (values : Dict String) (run_id : Arg) (now : ℕ)
      (fresh_token : String)
      → IsDocumented client
      → Runs
          (At t i f u Any)
          (λ _. At t i f u NoneKept)
          (λ _. At t i f u Any)
          (set_failure_mode client name duration values run_id now fresh_token)
  unfolding set_failure_mode
  set_failure_mode-Moves name duration values run_id now fresh_token known =
      Runs-bind (Keeps→Runs (Keeps-lift (mode_of name))) λ mode.
        Runs-bind (Keeps→Runs (Keeps-lift (validate_run_id run_id))) λ run.
          Runs-bind (Keeps→Runs (Keeps-lift (lease_seconds duration))) λ seconds.
            Runs-bind (Keeps→Runs (check_capacity-Keeps mode)) λ _.
              Runs-bind
                (Keeps→Runs
                  (Keeps-if (wants_v2 mode values) _ _ require_column_absent-Keeps (Keeps-pure tt)))
                λ _. apply_mode-Moves mode seconds run values now fresh_token known
