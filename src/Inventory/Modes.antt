-- ===== src/Inventory/Modes.antt =====
-- The failure modes of app/mysql_inventory.py. `fresh_token` stands for uuid4 in the text
-- "reservation-collision-…", `now` for time.monotonic(), in seconds. The values of
-- the settings are texts already.
pub mod Counts
pub mod Target
pub mod Restoring
use fcapsule_lab.Prelude.{
  ℕ, ◌+◌, ◌-◌, ◌*◌, ◌/◌, max, String, Bool, true, false, not, ◌&&◌, ◌||◌, Option, none, some, leb,
  ltb, ◌==◌, str_eq, is_run_id, if◌then◌else◌, ℤ, pos, negsuc, Arg, Dict, find,
}
use fcapsule_lab.Prelude.Exec.{
  Exc, value_error, Result, ok, err, and_then, Exec, pure, raise, lift, gets, catch, ◌>>=◌, ◌>>◌,
}
use fcapsule_lab.Safety.{lease_seconds}
use fcapsule_lab.Inventory.{
  Mode, normal, configured, lock_contention, connection_saturation, response_contract,
  token_collision, deadlock, downstream_latency, fixed_latency, Settings, delete_reservation,
  Inventory, Client, write, remote, is_mysql,
}
use fcapsule_lab.Inventory.Sessions.{Act, managed, release_connections}
use fcapsule_lab.Inventory.Reserve.{is_normal, is_token_collision}

-- mode in FAILURE_MODES
unfoldable pub mode_of : String → Result Mode
mode_of t =
    if str_eq t "normal"
    then ok normal
    else if str_eq t "configured"
    then ok configured
    else if str_eq t "lock-contention"
    then ok lock_contention
    else if str_eq t "connection-saturation"
    then ok connection_saturation
    else if str_eq t "response-contract"
    then ok response_contract
    else if str_eq t "token-collision"
    then ok token_collision
    else if str_eq t "deadlock"
    then ok deadlock
    else if str_eq t "downstream-latency"
    then ok downstream_latency
    else if str_eq t "fixed-latency"
    then ok fixed_latency
    else err (value_error "Unknown failure mode")

-- _validate_run_id
unfoldable pub validate_run_id : Arg → Result (Option String)
validate_run_id Arg.null = ok none
validate_run_id (Arg.text t) =
    if is_run_id t
    then ok (some t)
    else err (value_error "run_id must be a 32-character lowercase hexadecimal ID")
validate_run_id Arg.other =
    err (value_error "run_id must be a 32-character lowercase hexadecimal ID")

-- max(3, math.ceil(max_connections * 0.15))
unfoldable pub headroom : ℕ → ℕ
headroom n = max 3 ((n * 15 + 99) / 100)

-- max(4, max_connections - reserve)
unfoldable pub pressure : ℕ → ℕ
unfolding headroom
pressure n = max 4 (n - headroom n)

-- _connection_saturation_target. target / max_connections <= 0.80 is written without the division.
unfoldable pub saturation_target : ℕ → Result ℕ
unfolding pressure
saturation_target n =
    if n == 0
    then err (value_error "MySQL max_connections must be a positive integer")
    else if leb n (pressure n) || leb (pressure n * 5) (n * 4)
    then err (
        value_error
          "Configured MySQL capacity cannot reach the alert threshold while reserving headroom")
    else ok (pressure n)

-- server_max_connections or configured_max_connections
unfoldable pub capacity : {Conn : Type 0} → Inventory Conn → ℕ
capacity s =
    if s.server_max_connections == 0 then s.configured_max_connections else s.server_max_connections

abbrev setting : String → String → Dict String → String
setting name default values = elim (find name values) [ none ↦ default | some t ↦ t ]

settings_of : Dict String → Settings
settings_of values = record {
  accepted_key_id = setting "INVENTORY_ACCEPTED_KEY_ID" "checkout-key-v1" values;
  response_schema = setting "INVENTORY_RESPONSE_SCHEMA" "v1" values;
  query_revision = setting "INVENTORY_QUERY_REVISION" "v1" values;
}

abbrev is_saturation : Mode → Bool
is_saturation connection_saturation = true
is_saturation m = false

abbrev is_configured : Mode → Bool
is_configured configured = true
is_configured m = false

module _ {Conn : Type 0} where
  abbrev forget_collision : Inventory Conn → Inventory Conn
  forget_collision s = record s { collision_token = none; collision_owner = none }

  -- the two sections that set the new mode
  unfoldable pub configured_as :
      Mode → ℕ → Option String → Dict String → ℕ → String → Inventory Conn → Inventory Conn
  unfolding settings_of
  configured_as mode duration run_id values now fresh_token s = record s {
    failure_mode = mode;
    expires_at = if is_normal mode then 0 else now + duration;
    settings = settings_of values;
    collision_token = if is_token_collision mode then some fresh_token else none;
    control_run_id = run_id;
    normal_connection_enabled = is_normal mode;
  }

column_present : Exc
column_present =
    value_error "Schema-drift precondition failed: inventory_items.reserved_quantity already exists"

wants_v2 : Mode → Dict String → Bool
wants_v2 mode values =
    is_configured mode && str_eq (setting "INVENTORY_QUERY_REVISION" "" values) "v2"

module _ {Server Conn : Type 0} (client : Client Server Conn) where
  -- if mode == "connection-saturation": self._connection_saturation_target(...)
  check_capacity : Mode → Act client (Unit {0})
  unfolding ◌>>=◌
  check_capacity mode = do
    n ← gets λ p. capacity p.inventory
    if is_saturation mode then lift (saturation_target n) >> pure tt else pure tt

  -- _require_reserved_quantity_column_absent
  unfoldable pub require_column_absent : Act client (Unit {0})
  unfolding ◌>>=◌ column_present
  require_column_absent = do
    present ← managed client λ c. remote (client.reserved_column c)
    if present then raise column_present else pure tt

  -- _cleanup_collision_record
  unfoldable pub cleanup : String → String → Act client (Unit {0})
  unfolding ◌>>=◌
  cleanup token owner =
      catch is_mysql
        (managed client λ c. do
          remote (client.execute c (delete_reservation token owner))
          remote (client.commit c))
        λ _. pure tt

  -- if previous_token and previous_owner
  unfoldable pub cleanup_previous : Option String → Option String → Act client (Unit {0})
  unfolding cleanup
  cleanup_previous (some token) (some owner) =
      if not (str_eq token "") && not (str_eq owner "") then cleanup token owner else pure tt
  cleanup_previous token owner = pure tt

  -- under _operation_lock
  unfoldable pub apply_mode :
      Mode → ℕ → Option String → Dict String → ℕ → String → Act client (Unit {0})
  unfolding ◌>>=◌
  apply_mode mode duration run_id values now fresh_token = do
    release_connections client
    token ← gets λ p. p.inventory.collision_token
    owner ← gets λ p. p.inventory.collision_owner
    write forget_collision
    cleanup_previous token owner
    write (configured_as mode duration run_id values now fresh_token)

  -- set_failure_mode, up to the thread that it starts
  unfoldable pub set_failure_mode :
      String → ℤ → Dict String → Arg → ℕ → String → Act client (Unit {0})
  unfolding ◌>>=◌ check_capacity wants_v2
  set_failure_mode name duration values run_id now fresh_token = do
    mode ← lift (mode_of name)
    run ← lift (validate_run_id run_id)
    seconds ← lift (lease_seconds duration)
    check_capacity mode
    if wants_v2 mode values then require_column_absent else pure tt
    apply_mode mode seconds run values now fresh_token
