-- ===== src/Inventory/Service.antt =====
-- The operations of app/mysql_inventory.py as its threads perform them, one after another: an
-- operation that raises ends, and the next one begins from what it left.
pub mod Sound
use fcapsule_lab.Prelude.{ℕ, String, Bool, List, [], ◌∷◌, ℤ, Arg, Dict}
use fcapsule_lab.Prelude.Exec.{Exec, pure, ◌>>=◌, ◌>>◌}
use fcapsule_lab.Inventory.{Client, Process}
use fcapsule_lab.Inventory.Sessions.{Act, release_connections}
use fcapsule_lab.Inventory.Reserve.{reserve}
use fcapsule_lab.Inventory.Modes.{set_failure_mode}
use fcapsule_lab.Inventory.Tasks.{
  reconcile, storm, deadlock_transaction, sample_database, lease_pass,
}

pub data Operation : Type 0 where
  -- reserve(order_id, key_id)
  reserving : String → String → Operation
  -- set_failure_mode(mode, duration, settings, run_id), the clock, and the token that it makes
  switching : String → ℤ → Dict String → Arg → ℕ → String → Operation
  -- a pass of _lease_loop, of _reconcile_stock, of _connection_storm and of _sample_database
  leasing : ℕ → String → Operation
  reconciling : Bool → Bool → Operation
  storming : ℕ → Bool → Operation
  sampling : Operation
  -- _deadlock_transaction
  deadlocking : String → String → Bool → Operation
  -- close
  closing : Operation

module _ {Server Conn : Type 0} (client : Client Server Conn) (safe_ref : String → String) where
  unfoldable pub perform : Operation → Act client (Unit {0})
  unfolding ◌>>=◌
  perform (reserving order key) = reserve client safe_ref order key >> pure tt
  perform (switching name duration values run_id now fresh_token) =
      set_failure_mode client name duration values run_id now fresh_token
  perform (leasing now fresh_token) = lease_pass client now fresh_token
  perform (reconciling hold_for_contention cancelled) =
      reconcile client hold_for_contention cancelled
  perform (storming target stopped) = storm client target stopped >> pure tt
  perform sampling = sample_database client
  perform (deadlocking first second broken) = deadlock_transaction client first second broken
  perform closing = release_connections client

  unfoldable pub perform_all : List Operation → Process Server Conn → Process Server Conn
  perform_all [] p = p
  perform_all (o ∷ l) p = perform_all l (perform o p).1
