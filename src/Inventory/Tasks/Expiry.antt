-- ===== src/Inventory/Tasks/Expiry.antt =====
-- The end of a lease of app/mysql_inventory.py.
use fcapsule_lab.Prelude.{
  ℕ, ◌≡◌, ◌≤◌, ◌<◌, refl, arith, String, true, false, not, ◌&&◌, ◌⊎◌, inl, inr, [], leb, ◌==◌,
}
use fcapsule_lab.Prelude.Exec.{Exc, Result, ok, err, ◌>>=◌, gets, Outcome}
use fcapsule_lab.Inventory.{normal, Client, Process, is_mysql}
use fcapsule_lab.Inventory.Balance.{IsDocumented, sessions_kept}
use fcapsule_lab.Inventory.Modes.{validate_run_id, apply_mode}
use fcapsule_lab.Inventory.Modes.Restoring.{
  IsRestored, Owns, set_failure_mode-normal, apply_mode-Restores,
}
use fcapsule_lab.Inventory.Tasks.{lease_pass, run_of}

module _ {Server Conn : Type 0} (client : Client Server Conn) where
  lease_pass-applies :
      (now : ℕ) (fresh_token : String) (p : Process Server Conn)
      → 0 < p.inventory.expires_at
      → p.inventory.expires_at ≤ now
      → validate_run_id (run_of p.inventory.control_run_id) ≡ ok p.inventory.control_run_id
      → lease_pass client now fresh_token p
        ≡ apply_mode client normal 180 p.inventory.control_run_id [] now fresh_token p
  unfolding lease_pass ◌>>=◌ gets
  lease_pass-applies now fresh_token p leased ended valid =
      let due : (not (p.inventory.expires_at == 0) && leb p.inventory.expires_at now) ≡ true =
        ground arith in
      rw due (set_failure_mode-normal client p.inventory.control_run_id _ now fresh_token p valid)

  -- For a client that raises its documented exceptions, where the open sessions are those that the service
  -- keeps, its lease has ended, and its run ID is one that set_failure_mode accepts: a pass of the lease
  -- loop returns, and leaves the service in normal mode for the same run, without a lease, an open session
  -- or a collision token, and with the pool in use; or it raises what is no MySQL error, and then the
  -- service had a collision record to delete.
  pub lease_pass-restores :
      (now : ℕ) (fresh_token : String) (p : Process Server Conn)
      → IsDocumented client
      → p.inventory.client_sessions_active ≡ sessions_kept p.inventory
      → 0 < p.inventory.expires_at
      → p.inventory.expires_at ≤ now
      → validate_run_id (run_of p.inventory.control_run_id) ≡ ok p.inventory.control_run_id
      → (((lease_pass client now fresh_token p).0 ≡ ok tt)
          × IsRestored p.inventory.control_run_id (lease_pass client now fresh_token p).1.inventory)
        ⊎ ((problem : Exc) × ((lease_pass client now fresh_token p).0 ≡ err problem)
            × (is_mysql problem ≡ false)
            × Owns p.inventory.collision_token p.inventory.collision_owner)
  lease_pass-restores now fresh_token p known balanced leased ended valid =
      let s = p.inventory in
      rw (lease_pass-applies now fresh_token p leased ended valid) (
        told _ _ (
          (apply_mode-Restores client s.active_transactions s.reservation_admissions_inflight
              s.free_slots s.control_run_id s.collision_token s.collision_owner now fresh_token
              known).at
            p
            (
              record {
                transactions = refl;
                admissions = refl;
                slots = refl;
                sessions = omega (arith, balanced);
                pool = tt;
              },
              record { token = refl; owner = refl },
            )))
    where
      told :
          (came : Result (Unit {0})) (after : Process Server Conn)
          → Outcome
              (λ _ q. IsRestored p.inventory.control_run_id q.inventory)
              (λ problem _.
                (is_mysql problem ≡ false)
                × Owns p.inventory.collision_token p.inventory.collision_owner)
              came
              after
          → ((came ≡ ok tt) × IsRestored p.inventory.control_run_id after.inventory)
            ⊎ ((problem : Exc) × (came ≡ err problem)
                × (is_mysql problem ≡ false)
                × Owns p.inventory.collision_token p.inventory.collision_owner)
      told (ok value) after h = inl (refl, h)
      told (err problem) after h = inr (problem, refl, h.0, h.1)
