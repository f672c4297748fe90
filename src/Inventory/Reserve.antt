-- ===== src/Inventory/Reserve.antt =====
-- reserve of app/mysql_inventory.py, run by one thread from its first line to its last. `safe_ref`
-- stands for the start of the SHA-256 of a text. The wait for a slot is taken to have ended: a
-- slot is free then, or it is not.
pub mod Counts
use fcapsule_lab.Prelude.{
  ℕ, suc, ◌+◌, ◌-◌, String, Bool, true, false, not, ◌&&◌, Option, none, some, ◌==◌, str_eq, join,
  if◌then◌else◌,
}
use fcapsule_lab.Prelude.Exec.{
  Exc, integrity_error, operational_error, Exec, pure, gets, catch, ensure, ◌>>=◌, ◌>>◌,
}
use fcapsule_lab.Inventory.{
  Mode, normal, response_contract, token_collision, Failure, lock_timeout_failure,
  connection_failure, query_failure, deadlock_failure, set_lock_wait_timeout, insert_reservation,
  take_stock, Inventory, Client, write, remote, is_mysql, record_failure, record_request,
  transaction_started, transaction_finished,
}
use fcapsule_lab.Inventory.Sessions.{Act, managed, managed_reservation}

abbrev pub is_normal : Mode → Bool
is_normal normal = true
is_normal m = false

abbrev pub is_token_collision : Mode → Bool
is_token_collision token_collision = true
is_token_collision m = false

abbrev pub is_response_contract : Mode → Bool
is_response_contract response_contract = true
is_response_contract m = false

-- What a client is told: a status with {"status": ..., "order_id": ...}, or 200 with one of the three
-- bodies of _reservation_response.
pub data Answer : Type 0 where
  refused : ℕ → String → String → Answer
  accepted reserved_v1 reserved_v2 : String → Answer

abbrev pub status_of : Answer → ℕ
status_of (refused n t order) = n
status_of a = 200

-- _reservation_response
unfoldable pub reservation_response : String → String → Mode → Answer
reservation_response order schema mode =
    if is_response_contract mode
    then accepted order
    else if str_eq schema "v2"
    then reserved_v2 order
    else reserved_v1 order

unfoldable pub failure_of_code : ℕ → Failure
failure_of_code code =
    if code == 1205
    then lock_timeout_failure
    else if code == 1213
    then deadlock_failure
    else if code == 1054
    then query_failure
    else connection_failure

unfoldable pub failure_name : Failure → String
failure_name lock_timeout_failure = "lock_timeout"
failure_name connection_failure = "connection"
failure_name query_failure = "query"
failure_name deadlock_failure = "deadlock"

abbrev pub is_deadlock : Failure → Bool
is_deadlock deadlock_failure = true
is_deadlock f = false

or_order : String → Option String → String
or_order own none = own
or_order own (some t) = if str_eq t "" then own else t

unfoldable pub is_token : String → Option String → Bool
is_token token none = false
is_token token (some t) = str_eq t token

is_none : Option String → Bool
is_none none = true
is_none (some t) = false

module _ {Conn : Type 0} where
  -- _reservation_token
  unfoldable pub reservation_token : (String → String) → String → Mode → Inventory Conn → String
  unfolding or_order
  reservation_token safe_ref order mode s =
      or_order (join "order-" (safe_ref order))
        (if is_token_collision mode then s.collision_token else none)

  abbrev pub admit : Inventory Conn → Inventory Conn
  admit s = record s {
    free_slots = s.free_slots - 1;
    reservation_admissions = suc s.reservation_admissions;
    reservation_admissions_inflight = suc s.reservation_admissions_inflight;
  }

  abbrev pub dismiss : Inventory Conn → Inventory Conn
  dismiss s = record s {
    reservation_admissions_inflight = s.reservation_admissions_inflight - 1;
    free_slots = suc s.free_slots;
  }

  abbrev pub count_replay : Inventory Conn → Inventory Conn
  count_replay s = record s { reservation_replays = suc s.reservation_replays }

  abbrev pub count_constraint : Inventory Conn → Inventory Conn
  count_constraint s = record s { constraint_failures = suc s.constraint_failures }

  abbrev pub count_deadlock : Bool → Inventory Conn → Inventory Conn
  count_deadlock test s = record s {
    deadlock_failures = if test then suc s.deadlock_failures else s.deadlock_failures;
  }

  abbrev pub count_rejection : Inventory Conn → Inventory Conn
  count_rejection s = record s {
    reservation_admission_rejections = suc s.reservation_admission_rejections;
  }

  -- if mode == "token-collision": ... self._collision_owner = order_id
  unfoldable pub own_collision : Mode → String → String → Inventory Conn → Inventory Conn
  unfolding is_token is_none
  own_collision mode token order s = record s {
    collision_owner =
        if is_token_collision mode && is_none s.collision_owner && is_token token s.collision_token
        then some order
        else s.collision_owner;
  }

module _ {Server Conn : Type 0} (client : Client Server Conn) where
  unfoldable pub without_stock : Conn → Act client Bool
  unfolding ◌>>=◌
  without_stock c = do remote (client.rollback c); write (record_request false); pure false

  unfoldable pub with_stock : Conn → Act client Bool
  unfolding ◌>>=◌
  with_stock c = do remote (client.commit c); pure true

  -- The statements on the connection, up to the commit. The result tells whether stock remained.
  unfoldable pub transact : String → String → String → Conn → Act client Bool
  unfolding ◌>>=◌ without_stock with_stock
  transact token order revision c = do
    remote (client.execute c set_lock_wait_timeout)
    remote (client.execute c (insert_reservation token order))
    rows ← remote (client.execute c (take_stock (str_eq revision "v2")))
    if rows == 0 then without_stock c else with_stock c

  unfoldable pub conclude : Mode → String → String → String → Bool → Act client Answer
  unfolding ◌>>=◌ own_collision
  conclude mode schema token order false = pure (refused 409 "out_of_stock" order)
  conclude mode schema token order true = do
    write (own_collision mode token order)
    write (record_request true)
    pure (reservation_response order schema mode)

  -- _existing_reservation_owner, and None where it raises
  unfoldable pub existing_owner : String → Act client (Option String)
  unfolding ◌>>=◌
  existing_owner token =
      catch is_mysql (managed client λ c. remote (client.owner_row c token)) λ _. pure none

  unfoldable pub replay : Mode → String → String → Act client Answer
  unfolding ◌>>=◌
  replay mode schema order = do
    write count_replay
    write (record_request true)
    pure (reservation_response order schema mode)

  unfoldable pub conflict : String → Act client Answer
  unfolding ◌>>=◌
  conflict order = do
    write count_constraint
    write (record_request false)
    pure (refused 409 "reservation_conflict" order)

  -- the handler of IntegrityError, once the owner is known
  unfoldable pub compare_owner : Mode → String → String → Option String → Act client Answer
  unfolding is_token replay conflict
  compare_owner mode schema order owner =
      if is_token order owner then replay mode schema order else conflict order

  -- the `except` clauses
  unfoldable pub on_failure : Mode → String → String → String → Exc → Act client Answer
  unfolding ◌>>=◌ failure_name
  on_failure mode schema token order (integrity_error code) = do
    owner ← existing_owner token
    compare_owner mode schema order owner
  on_failure mode schema token order (operational_error code) = do
    write (record_request false)
    write (record_failure (failure_of_code code))
    write (count_deadlock (is_deadlock (failure_of_code code)))
    pure (refused 503 (failure_name (failure_of_code code)) order)
  on_failure mode schema token order problem = do
    write (record_request false)
    write (record_failure query_failure)
    pure (refused 503 "query_error" order)

  -- the `try` block with its `except` clauses
  unfoldable pub attempt : Mode → String → String → String → String → Act client Answer
  unfolding ◌>>=◌
  attempt mode schema revision token order =
      catch is_mysql
        (do
          stocked ← managed_reservation client (is_normal mode) (transact token order revision)
          conclude mode schema token order stocked)
        (on_failure mode schema token order)

  -- from the admission on
  unfoldable pub admitted : (String → String) → Mode → String → String → String → Act client Answer
  unfolding ◌>>=◌ ensure
  admitted safe_ref mode schema revision order = do
    write admit
    token ← gets λ p. reservation_token safe_ref order mode p.inventory
    write transaction_started
    ensure (attempt mode schema revision token order) (do write transaction_finished; write dismiss)

  -- the two refusals before a session
  unfoldable pub unauthorized : String → Act client Answer
  unfolding ◌>>=◌
  unauthorized order = do write (record_request false); pure (refused 401 "unauthorized" order)

  unfoldable pub busy : String → Act client Answer
  unfolding ◌>>=◌
  busy order = do
    write count_rejection
    write (record_request false)
    pure (refused 503 "inventory_busy" order)

  unfoldable pub reserve : (String → String) → String → String → Act client Answer
  unfolding ◌>>=◌ unauthorized busy
  reserve safe_ref order key = do
    s ← gets λ p. p.inventory
    if not (str_eq key s.settings.accepted_key_id)
        then unauthorized order
        else if s.free_slots == 0
        then busy order
        else admitted safe_ref s.failure_mode s.settings.response_schema s.settings.query_revision
            order
