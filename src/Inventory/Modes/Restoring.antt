-- ===== src/Inventory/Modes/Restoring.antt =====
-- What a change to the normal mode of app/mysql_inventory.py leaves: no lease, no kept session, and
-- the pool in use again.
use fcapsule_lab.Prelude.{
  ℕ, ◌≡◌, refl, sym, ◌∙◌, arith, String, true, false, not, ◌&&◌, Option, none, some, [], length, ap,
  str_eq, pos, Arg,
}
use fcapsule_lab.Prelude.Exec.{
  Exc, ok, ◌>>=◌, ◌>>◌, gets, lift, pure, Keeps-bind, Runs, Runs-bind, Runs-catch, Runs-gets,
  Runs-if, Runs-modify, Runs-pure, Runs-weaken, Runs-assuming, Runs-beside,
}
use fcapsule_lab.Safety.{lease_seconds}
use fcapsule_lab.Inventory.{
  normal, Inventory, Client, Process, write, remote, is_mysql, delete_reservation,
}
use fcapsule_lab.Inventory.Balance.{At, Any, NoneKept, IsDocumented, pooled, Keeps-remote}
use fcapsule_lab.Inventory.Sessions.Collision.{Collides, release_connections-Collides}
use fcapsule_lab.Inventory.Sessions.Counts.{managed-Moves}
use fcapsule_lab.Inventory.Sessions.Release.{release-Moves}
use fcapsule_lab.Inventory.Modes.{
  check_capacity, cleanup, cleanup_previous, configured_as, forget_collision, apply_mode, mode_of,
  set_failure_mode, validate_run_id, wants_v2,
}

-- The service in normal mode, without sessions.
pub record IsRestored {Conn : Type 0} (run : Option String) (s : Inventory Conn) : Type 0 where
  pub mode : s.failure_mode ≡ normal
  pub unleased : s.expires_at ≡ 0
  pub run_id : s.control_run_id ≡ run
  pub pooling : s.normal_connection_enabled ≡ true
  pub none_kept : NoneKept s.normal_connection s.held_connections
  pub none_open : s.client_sessions_active ≡ 0
  pub no_token : s.collision_token ≡ none

-- A reservation record of the token collision is there to be deleted.
abbrev pub Owns : Option String → Option String → Type 0
Owns token owner = (t : String) × (o : String) × (token ≡ some t) × (owner ≡ some o)

module _ {Server Conn : Type 0} (client : Client Server Conn) where
  pub set_failure_mode-normal :
      (run : Option String) (given : Arg) (now : ℕ) (fresh_token : String) (p : Process Server Conn)
      → validate_run_id given ≡ ok run
      → set_failure_mode client "normal" (pos 180) [] given now fresh_token p
        ≡ apply_mode client normal 180 run [] now fresh_token p
  unfolding set_failure_mode ◌>>=◌ lift gets pure mode_of lease_seconds check_capacity wants_v2
  set_failure_mode-normal run given now fresh_token p valid = rw valid refl

  module _ (t i f : ℕ) where
    -- only what is no MySQL error escapes the cleanup, where it has a record to delete
    cleanup_previous-Runs :
        (token owner : Option String)
        → Runs
            (At t i f 0 NoneKept)
            (λ _. At t i f 0 NoneKept)
            (λ problem _. (is_mysql problem ≡ false) × Owns token owner)
            (cleanup_previous client token owner)
    unfolding cleanup_previous cleanup
    cleanup_previous-Runs (some token) (some owner) =
        Runs-if (not (str_eq token "") && not (str_eq owner ""))
          (Runs-catch is_mysql
            (managed-Moves client t i f 0
              (λ c. remote (client.execute c (delete_reservation token owner)) >>= λ _.
                remote (client.commit c))
              λ c. Keeps-bind _ _ (Keeps-remote 1 _) λ _. Keeps-remote 1 _)
            (λ problem e. Runs-pure tt λ p h. h) λ problem e p h. (e, (token, owner, refl, refl)))
          (Runs-pure tt λ p h. h)
    cleanup_previous-Runs none owner = Runs-pure tt λ p h. h
    cleanup_previous-Runs (some token) none = Runs-pure tt λ p h. h

    forget_collision-At :
        (p : Process Server Conn)
        → At t i f 0 NoneKept p
        → At t i f 0 NoneKept (record p { inventory = forget_collision p.inventory })
    forget_collision-At p h = record {
      transactions = h.transactions;
      admissions = h.admissions;
      slots = h.slots;
      sessions = h.sessions;
      pool = h.pool;
    }

    configured_as-IsRestored :
        (run : Option String) (now : ℕ) (fresh_token : String) (p : Process Server Conn)
        → At t i f 0 NoneKept p
        → IsRestored run (configured_as normal 180 run [] now fresh_token p.inventory)
    unfolding configured_as
    configured_as-IsRestored run now fresh_token p h = record {
      mode = refl;
      unleased = refl;
      run_id = refl;
      pooling = refl;
      none_kept = h.pool;
      none_open = omega (arith, h.sessions, ap pooled h.pool.0, ap length h.pool.1);
      no_token = refl;
    }

    module _ (run token owner : Option String) (now : ℕ) (fresh_token : String) where
      Failed : Exc → Process Server Conn → Type 0
      Failed problem p = (is_mysql problem ≡ false) × Owns token owner

      -- from the two sections that read the collision on
      clear_and_configure-Restores :
          (found by : Option String)
          → found ≡ token
          → by ≡ owner
          → Runs
              (At t i f 0 NoneKept)
              (λ _ p. IsRestored run p.inventory)
              Failed
              (write {Server = Server} (forget_collision {Conn = Conn})
                >> (cleanup_previous client found by
                    >> write {Server = Server}
                        (configured_as {Conn = Conn} normal 180 run [] now fresh_token)))
      unfolding write Failed
      clear_and_configure-Restores found by e e' =
          Runs-bind {R = λ _. At t i f 0 NoneKept}
            (Runs-modify (λ p. record p { inventory = forget_collision p.inventory })
              forget_collision-At)
            λ _.
              Runs-bind
                (Runs-weaken (λ p h. h) (λ _ p h. h)
                  (λ problem p (raw, (t, o, q, q')). (raw, (t, o, sym e ∙ q, sym e' ∙ q')))
                  (cleanup_previous-Runs found by))
                λ _.
                  Runs-modify
                    (λ p. record p {
                      inventory = configured_as normal 180 run [] now fresh_token p.inventory;
                    })
                    (configured_as-IsRestored run now fresh_token)

      pub apply_mode-Restores :
          IsDocumented client
          → Runs
              (λ p. At t i f 0 Any p × Collides token owner p)
              (λ _ p. IsRestored run p.inventory)
              (λ problem _. (is_mysql problem ≡ false) × Owns token owner)
              (apply_mode client normal 180 run [] now fresh_token)
      unfolding apply_mode Failed
      apply_mode-Restores known =
          Runs-bind
            (Runs-beside (release-Moves client t i f {F = λ _ _. ⊥} 0 known)
              (release_connections-Collides client token owner) λ problem p h. absurd h.0)
            λ _.
              Runs-bind
                {R = λ found p. (found ≡ token) × (At t i f 0 NoneKept p × Collides token owner p)}
                (Runs-gets (λ p. p.inventory.collision_token)
                  λ p (h, same). (same.token, (h, same)))
                λ found. Runs-assuming λ e. with_token found e
        where
          with_token :
              (found : Option String)
              → found ≡ token
              → Runs
                  (λ p. At t i f 0 NoneKept p × Collides token owner p)
                  (λ _ p. IsRestored run p.inventory)
                  Failed
                  (gets (λ p. p.inventory.collision_owner) >>= λ by.
                    write {Server = Server} (forget_collision {Conn = Conn})
                    >> (cleanup_previous client found by
                        >> write {Server = Server}
                            (configured_as {Conn = Conn} normal 180 run [] now fresh_token)))
          with_token found e =
              Runs-bind {R = λ by p. (by ≡ owner) × At t i f 0 NoneKept p}
                (Runs-gets (λ p. p.inventory.collision_owner) λ p (h, same). (same.owner, h))
                λ by. Runs-assuming λ e'. clear_and_configure-Restores found by e e'
