-- ===== src/Inventory.antt =====
-- The MySQL inventory service (app/mysql_inventory.py): its state, and what it calls of the MySQL
-- client. `Conn` stands for the client's connections and `Server` for everything behind them.
-- Log lines, latency measurements and the connect time-out are left out.
pub mod Sessions
pub mod Reserve
pub mod Modes
pub mod Tasks
pub mod Balance
pub mod Service
pub mod Ledger
mod Examples
use fcapsule_lab.Prelude.{
  ℕ, zero, suc, ◌+◌, ◌-◌, String, Bool, true, false, Option, none, some, List, str_eq,
  if◌then◌else◌,
}
use fcapsule_lab.Prelude.Exec.{
  Exc, integrity_error, operational_error, mysql_error, os_error, timeout_error, http_error, Result,
  ok, err, Exec, modify, catch, pure, ◌>>◌,
}

-- FAILURE_MODES
pub data Mode : Type 0 where
  normal configured lock_contention connection_saturation response_contract : Mode
  token_collision deadlock downstream_latency fixed_latency : Mode

-- the keys of self.db_failures
pub data Failure : Type 0 where
  lock_timeout_failure connection_failure query_failure deadlock_failure : Failure

pub record Failures : Type 0 where
  pub lock_timeout : ℕ
  pub connection : ℕ
  pub query : ℕ
  pub deadlock : ℕ

pub record Settings : Type 0 where
  pub accepted_key_id : String
  pub response_schema : String
  pub query_revision : String

-- The statements that the service executes, by what their SQL text says.
pub data Statement : Type 0 where
  set_lock_wait_timeout select_one : Statement
  -- INSERT INTO reservation_events (token, order_id), and DELETE FROM it by both
  insert_reservation delete_reservation : String → String → Statement
  -- UPDATE inventory_items SET quantity=quantity-1 for sku-red-widget, with the test
  -- quantity>reserved_quantity where the flag is set and quantity>0 where not
  take_stock : Bool → Statement
  -- SELECT quantity FROM inventory_items WHERE sku=... FOR UPDATE, with the fetch of its row
  lock_stock : String → Statement
  insert_audit delete_old_audit : Statement

-- The calls of pymysql, from the state of the server to what they return or raise.
pub record Client (Server Conn : Type 0) : Type 0 where
  pub connect : Exec Server Conn
  pub ping : Conn → Exec Server (Unit {0})
  pub close : Conn → Exec Server (Unit {0})
  -- cursor.execute(...), then cursor.rowcount
  pub execute : Conn → Statement → Exec Server ℕ
  -- SELECT order_id FROM reservation_events WHERE token=...; cursor.fetchone()
  pub owner_row : Conn → String → Exec Server (Option String)
  -- SHOW COLUMNS FROM inventory_items LIKE 'reserved_quantity'; cursor.fetchone() is not None
  pub reserved_column : Conn → Exec Server Bool
  -- SHOW STATUS LIKE 'Threads_connected' and SELECT @@max_connections
  pub threads_connected : Conn → Exec Server ℕ
  pub max_connections : Conn → Exec Server ℕ
  -- SHOW COLUMNS FROM inventory_items, sorted
  pub item_columns : Conn → Exec Server (List String)
  pub commit : Conn → Exec Server (Unit {0})
  pub rollback : Conn → Exec Server (Unit {0})

-- InventoryState. `free_slots` is the value of the semaphore _reservation_slots.
pub record Inventory (Conn : Type 0) : Type 0 where
  pub configured_max_connections : ℕ
  pub failure_mode : Mode
  pub settings : Settings
  -- 0 is no lease
  pub expires_at : ℕ
  pub control_run_id : Option String
  pub requests_success : ℕ
  pub requests_error : ℕ
  pub db_failures : Failures
  pub constraint_failures : ℕ
  pub deadlock_failures : ℕ
  pub reservation_replays : ℕ
  pub active_transactions : ℕ
  pub threads_connected : ℕ
  pub server_max_connections : ℕ
  pub database_sample_failures : ℕ
  pub inventory_item_columns : Option (List String)
  pub inventory_schema_sample_failures : ℕ
  pub client_sessions_active : ℕ
  pub reservation_admissions : ℕ
  pub reservation_admissions_inflight : ℕ
  pub reservation_admission_rejections : ℕ
  pub free_slots : ℕ
  pub normal_connection : Option Conn
  pub normal_connection_enabled : Bool
  pub held_connections : List Conn
  pub collision_token : Option String
  pub collision_owner : Option String

-- The process, and the server that it talks to.
pub record Process (Server Conn : Type 0) : Type 0 where
  pub inventory : Inventory Conn
  pub server : Server

module _ {Server Conn : Type 0} where
  -- with self._lock: ...
  unfoldable pub write : (Inventory Conn → Inventory Conn) → Exec (Process Server Conn) (Unit {0})
  unfolding modify
  write change = modify λ p. record p { inventory = change p.inventory }

  -- A call of the client.
  unfoldable pub remote : {A : Type 0} → Exec Server A → Exec (Process Server Conn) A
  remote call p = let (came, after) = call p.server in (came, record p { server = after })

-- except pymysql.MySQLError
abbrev pub is_mysql : Exc → Bool
is_mysql (integrity_error n) = true
is_mysql (operational_error n) = true
is_mysql (mysql_error n) = true
is_mysql e = false

-- OSError
abbrev pub is_os : Exc → Bool
is_os (os_error t) = true
is_os timeout_error = true
is_os (http_error n) = true
is_os e = false

-- except (pymysql.MySQLError, OSError)
abbrev pub is_mysql_or_os : Exc → Bool
is_mysql_or_os (integrity_error n) = true
is_mysql_or_os (operational_error n) = true
is_mysql_or_os (mysql_error n) = true
is_mysql_or_os (os_error t) = true
is_mysql_or_os timeout_error = true
is_mysql_or_os (http_error n) = true
is_mysql_or_os e = false

-- except ...: pass
abbrev pub forgiving : {S : Type 0} → (Exc → Bool) → Exec S (Unit {0}) → Exec S (Unit {0})
forgiving test act = catch test act λ _. pure tt

module _ {Conn : Type 0} where
  -- _record_failure
  unfoldable pub record_failure : Failure → Inventory Conn → Inventory Conn
  record_failure kind s = record s { db_failures = bump kind s.db_failures }
    where
      bump : Failure → Failures → Failures
      bump lock_timeout_failure f = record f { lock_timeout = suc f.lock_timeout }
      bump connection_failure f = record f { connection = suc f.connection }
      bump query_failure f = record f { query = suc f.query }
      bump deadlock_failure f = record f { deadlock = suc f.deadlock }

  -- _record_request
  unfoldable pub record_request : Bool → Inventory Conn → Inventory Conn
  record_request true s = record s { requests_success = suc s.requests_success }
  record_request false s = record s { requests_error = suc s.requests_error }

  -- _transaction_started and _transaction_finished
  unfoldable pub transaction_started : Inventory Conn → Inventory Conn
  transaction_started s = record s { active_transactions = suc s.active_transactions }

  unfoldable pub transaction_finished : Inventory Conn → Inventory Conn
  transaction_finished s = record s { active_transactions = s.active_transactions - 1 }
