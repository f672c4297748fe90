-- ===== src/Postgres.antt =====
-- app/inventory.py, the inventory service on PostgreSQL. What psycopg does is the interface Client: a
-- statement is a call of it, and `leave` is the end of the connection's `with` block, told whether it
-- raised. Log lines and the metrics text are left out.
pub mod Reserving
pub mod Booking
pub mod Answers
mod Examples
use fcapsule_lab.Prelude.{
  ℕ, suc, ◌+◌, ◌*◌, ◌-◌, max, String, Bool, true, false, Option, none, some, str_eq, is_run_id,
  if◌then◌else◌, ℤ, Arg,
}
use fcapsule_lab.Prelude.Exec.{
  value_error, Result, ok, err, and_then, Exec, modify, pure, lift, ◌>>=◌, ◌>>◌,
}
use fcapsule_lab.Safety.{lease_seconds}

pub data Mode : Type 0 where
  normal lock_contention bad_database_config : Mode

pub record Client (Server Conn : Type 0) : Type 0 where
  -- psycopg.connect(url)
  pub connect : String → Exec Server Conn
  -- SET LOCAL lock_timeout, and SELECT pg_sleep(0.18)
  pub set_lock_timeout : Conn → Exec Server (Unit {0})
  pub sleep : Conn → Exec Server (Unit {0})
  -- SELECT quantity ... FOR UPDATE; cursor.fetchone()
  pub lock_stock : Conn → Exec Server (Option ℕ)
  -- INSERT INTO reservation_events ... ON CONFLICT DO NOTHING; cursor.rowcount
  pub insert_event : Conn → String → String → Exec Server ℕ
  -- SELECT order_id ... WHERE idempotency_key = ...; cursor.fetchone()
  pub event_owner : Conn → String → Exec Server (Option String)
  -- UPDATE ... SET quantity = quantity - 1 ... RETURNING quantity; cursor.fetchone()
  pub take_stock : Conn → Exec Server (Option ℕ)
  pub commit : Conn → Exec Server (Unit {0})
  pub rollback : Conn → Exec Server (Unit {0})
  pub leave : Bool → Conn → Exec Server (Unit {0})

pub record Service : Type 0 where
  pub database_url : String
  pub effective_database_url : String
  pub failure_mode : Mode
  pub requests_success : ℕ
  pub requests_error : ℕ
  pub lock_timeouts : ℕ
  pub connection_failures : ℕ
  pub authentication_failures : ℕ
  pub query_failures : ℕ
  pub active_transactions : ℕ
  pub max_active_transactions : ℕ
  -- 0 is no lease
  pub expires_at : ℕ
  pub control_run_id : Option String

pub record Process (Server : Type 0) : Type 0 where
  pub service : Service
  pub server : Server

module _ {Server : Type 0} where
  unfoldable pub write : (Service → Service) → Exec (Process Server) (Unit {0})
  unfolding modify
  write change = modify λ p. record p { service = change p.service }

  unfoldable pub remote : {A : Type 0} → Exec Server A → Exec (Process Server) A
  remote call p = let (came, after) = call p.server in (came, record p { server = after })

unfoldable pub record_request : Bool → Service → Service
record_request true s = record s { requests_success = suc s.requests_success }
record_request false s = record s { requests_error = suc s.requests_error }

unfoldable pub transaction_started : Service → Service
transaction_started s = record s {
  active_transactions = suc s.active_transactions;
  max_active_transactions = max s.max_active_transactions (suc s.active_transactions);
}

unfoldable pub transaction_finished : Service → Service
transaction_finished s = record s { active_transactions = s.active_transactions - 1 }

-- mode not in FAILURE_MODES
unfoldable pub mode_of : String → Result Mode
mode_of t =
    if str_eq t "normal"
    then ok normal
    else if str_eq t "lock-contention"
    then ok lock_contention
    else if str_eq t "bad-database-config"
    then ok bad_database_config
    else err (value_error "Unknown failure mode")

-- _validate_run_id
unfoldable pub validate_run_id : Arg → Result (Option String)
validate_run_id Arg.null = ok none
validate_run_id (Arg.text t) =
    if is_run_id t
    then ok (some t)
    else err (value_error "run_id must be a 32-character lowercase hexadecimal ID")
validate_run_id Arg.other =
    err (value_error "run_id must be a 32-character lowercase hexadecimal ID")

abbrev is_normal : Mode → Bool
is_normal normal = true
is_normal m = false

-- the URL with a password that is not accepted: `spoil` stands for conninfo_to_dict and make_conninfo
abbrev url_for : (String → Result String) → Mode → String → Result String
url_for spoil bad_database_config url = spoil url
url_for spoil m url = ok url

unfoldable pub configured : Mode → String → ℕ → ℕ → Option String → Service → Service
configured mode url now seconds run s = record s {
  failure_mode = mode;
  effective_database_url = url;
  expires_at = if is_normal mode then 0 else now + seconds * 1000;
  control_run_id = run;
}

-- set_failure_mode, at time `now` in milliseconds
unfoldable pub set_failure_mode :
    (String → Result String) → String → ℤ → Arg → ℕ → Service → Result Service
set_failure_mode spoil name duration run_id now s = and_then (mode_of name) λ mode.
    and_then (validate_run_id run_id) λ run. and_then (lease_seconds duration) λ seconds.
      and_then (url_for spoil mode s.database_url) λ url. ok (configured mode url now seconds run s)
