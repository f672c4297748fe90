-- ===== src/Inventory/Tasks.antt =====
-- The background threads of app/mysql_inventory.py: one pass of each loop, without the waits, and
-- what their owner does to them. `stopped` is what stop.is_set() or stop.wait answers at its place.
pub mod Counts
pub mod Storm
pub mod Pressure
pub mod Expiry
use fcapsule_lab.Prelude.{
  ℕ, zero, suc, ◌+◌, ◌-◌, String, Bool, true, false, not, ◌&&◌, Option, none, some, List, [], ◌∷◌,
  ◌++◌, length, leb, ◌==◌, if◌then◌else◌, ℤ, Arg,
}
use fcapsule_lab.Prelude.Stops.{Stop, set_before, is_within}
use fcapsule_lab.Prelude.Exec.{
  Exc, value_error, integrity_error, operational_error, mysql_error, broken_barrier_error, Exec,
  pure, raise, lift, gets, catch, ensure, ◌>>=◌, ◌>>◌,
}
use fcapsule_lab.Inventory.{
  connection_failure, deadlock_failure, set_lock_wait_timeout, select_one, lock_stock, insert_audit,
  delete_old_audit, Inventory, Client, write, remote, is_mysql, is_mysql_or_os, forgiving,
  record_failure, transaction_started, transaction_finished,
}
use fcapsule_lab.Inventory.Sessions.{Act, connect, close_connection, managed, release_connections}
use fcapsule_lab.Inventory.Modes.{saturation_target, capacity, set_failure_mode}

module _ {Conn : Type 0} where
  abbrev take_slot : Inventory Conn → Inventory Conn
  take_slot s = record s { free_slots = s.free_slots - 1 }

  abbrev give_slot : Bool → Inventory Conn → Inventory Conn
  give_slot taken s = record s { free_slots = if taken then suc s.free_slots else s.free_slots }

  abbrev hold : Conn → Inventory Conn → Inventory Conn
  hold c s = record s { held_connections = s.held_connections ++ c ∷ [] }

  -- the section of _sample_database under the lock
  unfoldable pub sampled : ℕ → ℕ → Option (List String) → Inventory Conn → Inventory Conn
  sampled connected maximum none s = record s {
    threads_connected = connected;
    server_max_connections = maximum;
    inventory_schema_sample_failures = suc s.inventory_schema_sample_failures;
  }
  sampled connected maximum (some columns) s = record s {
    threads_connected = connected;
    server_max_connections = maximum;
    inventory_item_columns = some columns;
  }

  abbrev sample_failed : Inventory Conn → Inventory Conn
  sample_failed s = record s { database_sample_failures = suc s.database_sample_failures }

  abbrev victim : Inventory Conn → Inventory Conn
  victim s = record s { deadlock_failures = suc s.deadlock_failures }

-- exc.args[0] == 1213
abbrev is_victim : Exc → Bool
is_victim (integrity_error n) = n == 1213
is_victim (operational_error n) = n == 1213
is_victim (mysql_error n) = n == 1213
is_victim e = false

-- except (pymysql.MySQLError, threading.BrokenBarrierError)
abbrev is_broken : Exc → Bool
is_broken broken_barrier_error = true
is_broken e = is_mysql e

abbrev run_of : Option String → Arg
run_of none = Arg.null
run_of (some t) = Arg.text t

-- except (pymysql.MySQLError, ValueError)
is_mysql_or_value : Exc → Bool
is_mysql_or_value (value_error t) = true
is_mysql_or_value e = is_mysql e

module _ {Server Conn : Type 0} (client : Client Server Conn) where
  -- the statements of _reconcile_stock
  unfoldable pub reconcile_body : Bool → Conn → Act client (Unit {0})
  unfolding ◌>>=◌
  reconcile_body cancelled c = do
    remote (client.execute c set_lock_wait_timeout)
    remote (client.execute c (lock_stock "sku-red-widget"))
    remote (client.execute c (lock_stock "sku-blue-widget"))
    if cancelled
        then remote (client.rollback c)
        else remote (client.execute c insert_audit) >> remote (client.commit c)
    remote (client.execute c delete_old_audit)
    remote (client.commit c)

  unfoldable pub reconcile_once : Bool → Bool → Act client (Unit {0})
  unfolding ◌>>=◌ ensure
  reconcile_once acquired cancelled =
      ensure
        (catch is_mysql (do write transaction_started; managed client (reconcile_body cancelled))
          λ _. pure tt)
        (do write transaction_finished; write (give_slot acquired))

  -- one pass of _reconcile_stock
  unfoldable pub reconcile : Bool → Bool → Act client (Unit {0})
  unfolding ◌>>=◌
  reconcile true cancelled = reconcile_once false cancelled
  reconcile false cancelled = do
    free ← gets λ p. p.inventory.free_slots
    if free == 0 then pure tt else write take_slot >> reconcile_once true cancelled

  -- the pass of _connection_storm after its test: the session is kept unless the storm was stopped
  unfoldable pub hold_or_close : Bool → Conn → Act client (Unit {0})
  hold_or_close stopped c = if stopped then close_connection client c else write (hold c)

  -- the handler of the pass: `opened` is what `connection` is bound to when it raised
  unfoldable pub storm_failed : Option Conn → Act client (Unit {0})
  unfolding ◌>>=◌
  storm_failed none = write (record_failure connection_failure)
  storm_failed (some c) = do
    forgiving is_mysql_or_os (close_connection client c)
    write (record_failure connection_failure)

  use_session : Bool → Option Conn → Act client (Unit {0})
  unfolding ◌>>=◌
  use_session stopped none = pure tt
  use_session stopped (some c) =
      catch is_mysql (do remote (client.execute c select_one); hold_or_close stopped c)
        λ _. storm_failed (some c)

  open_session : Act client (Option Conn)
  unfolding ◌>>=◌
  open_session =
      catch is_mysql (do c ← connect client; pure (some c)) λ _. do storm_failed none; pure none

  unfoldable pub storm_session : Bool → Act client (Unit {0})
  unfolding ◌>>=◌ open_session use_session
  storm_session stopped = do found ← open_session; use_session stopped found

  -- one pass of _connection_storm's loop for the target `n`; the result tells whether it returns
  unfoldable pub storm : ℕ → Bool → Act client Bool
  unfolding ◌>>=◌
  storm n stopped = do
    held ← gets λ p. length p.inventory.held_connections
    if leb n held then pure true else storm_session stopped >> pure stopped

  -- The passes of the loop, one for each entry; the result tells whether it returned with them.
  unfoldable pub storm_loop : List Stop → ℕ → Act client Bool
  unfolding ◌>>=◌
  storm_loop [] n = pure false
  storm_loop (set_before ∷ l) n = pure true
  storm_loop (stop ∷ l) n = do
    done ← storm n (is_within stop)
    if done then pure true else storm_loop l n

  -- _connection_storm
  unfoldable pub connection_storm : List Stop → Act client Bool
  unfolding ◌>>=◌
  connection_storm passes = do
    available ← gets λ p. capacity p.inventory
    n ← lift (saturation_target available)
    storm_loop passes n

  -- _deadlock_transaction; `broken` tells whether barrier.wait raises
  unfoldable pub lock_both : String → String → Bool → Conn → Act client (Unit {0})
  unfolding ◌>>=◌
  lock_both first second broken c = do
    remote (client.execute c set_lock_wait_timeout)
    remote (client.execute c (lock_stock first))
    if broken then raise broken_barrier_error else pure tt
    remote (client.execute c (lock_stock second))
    remote (client.execute c insert_audit)
    remote (client.commit c)

  unfoldable pub deadlock_transaction : String → String → Bool → Act client (Unit {0})
  unfolding ◌>>=◌ ensure
  deadlock_transaction first second broken = do
    write transaction_started
    ensure
        (catch is_broken (managed client (lock_both first second broken)) λ problem.
          if is_victim problem
          then write victim >> write (record_failure deadlock_failure)
          else pure tt)
        (write transaction_finished)

  -- one pass of _sample_database
  sample_columns : Conn → Act client (Option (List String))
  unfolding ◌>>=◌
  sample_columns c =
      catch is_mysql (do columns ← remote (client.item_columns c); pure (some columns))
        λ _. pure none

  read_sample : Conn → Act client (ℕ × ℕ × Option (List String))
  unfolding ◌>>=◌
  read_sample c = do
    connected ← remote (client.threads_connected c)
    maximum ← remote (client.max_connections c)
    columns ← sample_columns c
    pure (connected, maximum, columns)

  store_sample : ℕ × ℕ × Option (List String) → Act client (Unit {0})
  store_sample (connected, maximum, columns) =
      if maximum == 0
      then raise (value_error "MySQL returned an invalid connection capacity sample")
      else write (sampled connected maximum columns)

  unfoldable pub sample_database : Act client (Unit {0})
  unfolding ◌>>=◌ read_sample sample_columns store_sample is_mysql_or_value
  sample_database =
      catch is_mysql_or_value (do read ← managed client read_sample; store_sample read)
        λ _. write sample_failed

  -- one pass of _lease_loop
  unfoldable pub lease_pass : ℕ → String → Act client (Unit {0})
  unfolding ◌>>=◌
  lease_pass now fresh_token = do
    expires ← gets λ p. p.inventory.expires_at
    run ← gets λ p. p.inventory.control_run_id
    if not (expires == 0) && leb expires now
        then set_failure_mode client "normal" (ℤ.pos 180) [] (run_of run) now fresh_token
        else pure tt
