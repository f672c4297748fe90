-- ===== src/Inventory/Examples.antt =====
-- Runs of the model of app/mysql_inventory.py against a small server with one connection, and the
-- theorems at them.
mod Server
use fcapsule_lab.Prelude.{
  ℕ, zero, suc, ◌+◌, ◌-◌, ◌*◌, ◌≡◌, ◌≤◌, ◌<◌, refl, sym, ◌∙◌, ap, subst, arith, String, Bool, true,
  false, Option, none, some, ◌⊎◌, inl, inr, List, [], ◌∷◌, ◌==◌, str_eq, eq_iff, if◌then◌else◌, ℤ,
  pos, Arg, is_some, Bool-cases, ltb, ltb→lt,
}
use fcapsule_lab.Prelude.Stops.{Stop, unset}
use fcapsule_lab.Prelude.Exec.{
  Exc, integrity_error, operational_error, Result, ok, err, Exec, pure, gets, modify, raise, ensure,
  ◌>>=◌, ◌>>◌, Runs, Outcome,
}
use fcapsule_lab.Inventory.{
  Mode, normal, connection_saturation, Settings, is_mysql, Statement, set_lock_wait_timeout,
  select_one, insert_reservation, delete_reservation, take_stock, lock_stock, insert_audit,
  delete_old_audit, Client, Inventory, Process,
}
use fcapsule_lab.Inventory.Balance.{IsDocumented, sessions_kept}
use fcapsule_lab.Inventory.Service.{
  Operation, reserving, switching, leasing, reconciling, storming, sampling, deadlocking, closing,
  perform, perform_all,
}
use fcapsule_lab.Inventory.Service.Sound.{perform_all-balance, release_connections-none_open}
use fcapsule_lab.Inventory.Sessions.{release_connections}
use fcapsule_lab.Inventory.Modes.{saturation_target, headroom, validate_run_id}
use fcapsule_lab.Inventory.Modes.Target.{saturation_target_lem}
use fcapsule_lab.Inventory.Tasks.{lease_pass}
use fcapsule_lab.Inventory.Tasks.Expiry.{lease_pass-restores}
use fcapsule_lab.Inventory.Modes.Restoring.{IsRestored, Owns}
use fcapsule_lab.Inventory.{
  write, remote, record_request, transaction_started, transaction_finished,
}
use fcapsule_lab.Inventory.Sessions.{
  connect, opened, closed, close_connection, discard, taken, pinged, give_back, borrow, reuse,
  managed_reservation,
}
use fcapsule_lab.Inventory.Reserve.{
  admitted, attempt, transact, conclude, with_stock, without_stock, own_collision,
  reservation_response, is_token, Answer, reserved_v1, status_of, reserve, reservation_token,
}
use fcapsule_lab.Inventory.Ledger.Stands.{MayBook}
use fcapsule_lab.Inventory.Ledger.Booking.{Fits}
use fcapsule_lab.Inventory.Ledger.Once.{
  Committed, Books, reserve-books, reserve-once, serve_all, serve_all-refines,
}
use fcapsule_lab.Inventory.Ledger.{Ledger, book, Bank, Shows, ShowsClean, IsTransactional}
use fcapsule_lab.Inventory.Examples.Server.{
  Db, idle, db_client, db_bank, db_client-IsDocumented, db_client-IsTransactional, end_transaction,
  applied, insert, take, statement,
}

abbrev lab_settings : Settings
lab_settings = record {
  accepted_key_id = "checkout-key-v1";
  response_schema = "v1";
  query_revision = "v1";
}

unfoldable lab_inventory : Inventory ℕ
lab_inventory = record {
  configured_max_connections = 40;
  failure_mode = normal;
  settings = lab_settings;
  expires_at = 0;
  control_run_id = none;
  requests_success = 0;
  requests_error = 0;
  db_failures = record { lock_timeout = 0; connection = 0; query = 0; deadlock = 0 };
  constraint_failures = 0;
  deadlock_failures = 0;
  reservation_replays = 0;
  active_transactions = 0;
  threads_connected = 0;
  server_max_connections = 0;
  database_sample_failures = 0;
  inventory_item_columns = none;
  inventory_schema_sample_failures = 0;
  client_sessions_active = 0;
  reservation_admissions = 0;
  reservation_admissions_inflight = 0;
  reservation_admission_rejections = 0;
  free_slots = 1;
  normal_connection = none;
  normal_connection_enabled = true;
  held_connections = [];
  collision_token = none;
  collision_owner = none;
}

unfoldable lab : Process Db ℕ
lab = record {
  inventory = lab_inventory;
  server = record { owners = λ t. none; stock = 2; pending = idle };
}

operations : List Operation
operations =
    reserving "order-1" "checkout-key-v1"
    ∷ reserving "order-1" "checkout-key-v1"
    ∷ reserving "order-2" "other-key"
    ∷ reconciling false false
    ∷ switching "connection-saturation" (pos 60) [] Arg.null 100 "token"
    ∷ storming 34 false
    ∷ storming 34 false
    ∷ sampling
    ∷ deadlocking "sku-red-widget" "sku-blue-widget" true
    ∷ leasing 200 "token"
    ∷ closing
    ∷ []

unfoldable worked : Process Db ℕ
unfolding operations lab lab_inventory db_client perform_all perform reserve
worked = perform_all db_client (λ t. t) operations lab

perform_all-balance_example :
    (worked.inventory.active_transactions ≡ 0)
    × (worked.inventory.reservation_admissions_inflight ≡ 0)
    × (worked.inventory.free_slots ≡ 1)
    × (worked.inventory.client_sessions_active ≡ sessions_kept worked.inventory)
unfolding worked lab lab_inventory
perform_all-balance_example =
    perform_all-balance db_client (λ t. t) operations lab db_client-IsDocumented refl

-- The storm took two sessions, and closing gave them back.
release_connections-none_open_example :
    ((release_connections db_client lab).0 ≡ ok tt)
    × ((release_connections db_client lab).1.inventory.client_sessions_active ≡ 0)
    × (sessions_kept (release_connections db_client lab).1.inventory ≡ 0)
unfolding lab lab_inventory
release_connections-none_open_example =
    release_connections-none_open db_client (λ t. t) lab db_client-IsDocumented refl

-- two sessions held by a storm whose lease ends at 160
unfoldable pressed : Process Db ℕ
unfolding lab lab_inventory
pressed = record lab {
  inventory = record lab_inventory {
    failure_mode = connection_saturation;
    expires_at = 160;
    normal_connection_enabled = false;
    normal_connection = none;
    held_connections = 0 ∷ 0 ∷ [];
    client_sessions_active = 2;
  };
}

lease_pass-restores_example :
    (((lease_pass db_client 161 "token" pressed).0 ≡ ok tt)
      × IsRestored none (lease_pass db_client 161 "token" pressed).1.inventory)
    ⊎ ((problem : Exc) × ((lease_pass db_client 161 "token" pressed).0 ≡ err problem)
        × (is_mysql problem ≡ false)
        × Owns none none)
unfolding pressed lab lab_inventory validate_run_id
lease_pass-restores_example =
    lease_pass-restores db_client 161 "token" pressed db_client-IsDocumented refl (omega arith)
      (omega arith) refl

saturation_target_lem_example :
    (16 ≤ 40
      → (saturation_target 40 ≡ ok (40 - headroom 40))
        × (3 ≤ headroom 40)
        × (40 * 15 ≤ headroom 40 * 100)
        × (40 * 4 < (40 - headroom 40) * 5))
    × (40 < 16 → (problem : Exc) × (saturation_target 40 ≡ err problem))
saturation_target_lem_example = saturation_target_lem 40

-- a server that counts its open sessions, and refuses the 41st
open_one : Bool → ℕ → Result ℕ × ℕ
open_one true s = (ok s, suc s)
open_one false s = (err (operational_error 1040), s)

unfoldable counting_client : Client ℕ ℕ
unfolding open_one
counting_client = record {
  connect = λ s. open_one (ltb s 40) s;
  ping = λ c s. (ok tt, s);
  close = λ c s. (ok tt, s - 1);
  execute = λ c what s. (ok 0, s);
  owner_row = λ c token s. (ok none, s);
  reserved_column = λ c s. (ok false, s);
  threads_connected = λ c s. (ok s, s);
  max_connections = λ c s. (ok 40, s);
  item_columns = λ c s. (ok [], s);
  commit = λ c s. (ok tt, s);
  rollback = λ c s. (ok tt, s);
}

-- beside three other sessions
abbrev shared : Process ℕ ℕ
shared = record { inventory = lab_inventory; server = 3 }

abbrev five_passes : List Stop
five_passes = unset ∷ unset ∷ unset ∷ unset ∷ unset ∷ []

abbrev no_rows : Ledger
no_rows = record { owners = λ t. none; stock = 2 }

lab-Committed :
    Committed db_client db_bank db_client-IsTransactional normal true (λ t. t) no_rows lab
unfolding lab lab_inventory db_bank Committed
lab-Committed = record {
  pooled = none;
  at_rest = record {
    far = record {
      ledger = no_rows;
      fits = refl;
      shown = record { owners = λ t. refl; stock = refl };
    };
    near = record { mode = refl; enabled = refl; pool = refl };
  };
  pools = λ e. refl;
}

reserve-books_example :
    (k : Ledger) × Shows db_bank k
      (reserve db_client (λ t. t) "order-1" "checkout-key-v1" lab).1.server
    × MayBook (reservation_token (λ t. t) "order-1" normal lab.inventory) "order-1" no_rows k
    × ((answer : Answer)
        → (reserve db_client (λ t. t) "order-1" "checkout-key-v1" lab).0 ≡ ok answer
        → Fits
            (reservation_token (λ t. t) "order-1" normal lab.inventory)
            "order-1"
            no_rows
            answer
            k)
reserve-books_example =
    reserve-books db_client db_bank db_client-IsTransactional normal true (λ t. t) "order-1"
      "checkout-key-v1" no_rows lab lab-Committed

abbrev order_one : String
order_one = "order-1"

-- order-1 was reserved, and its session is pooled
unfoldable reserved : Process Db ℕ
unfolding lab lab_inventory db_client statement insert take applied end_transaction reserve admitted
    attempt transact conclude with_stock without_stock own_collision managed_reservation reuse
    borrow give_back pinged connect discard close_connection taken opened closed reservation_token
    record_request transaction_started transaction_finished write remote reservation_response ◌>>=◌
    ensure is_token
reserved = (reserve db_client (λ t. t) "order-1" "checkout-key-v1" lab).1

abbrev one_row : Ledger
one_row = record {
  owners = λ t. if str_eq t "order-order-1" then some "order-1" else none;
  stock = 1;
}

reserved-Committed :
    Committed db_client db_bank db_client-IsTransactional normal true (λ t. t) one_row reserved
unfolding reserved Committed db_bank
reserved-Committed = record {
  pooled = some 0;
  at_rest = record {
    far = record {
      ledger = one_row;
      fits = refl;
      shown = (record { owners = λ t. refl; stock = refl }, refl);
    };
    near = record { mode = refl; enabled = refl; pool = refl };
  };
  pools = λ e. absurd (ground (arith, e));
}

reserve-once_example :
    Shows db_bank one_row (reserve db_client (λ t. t) "order-1" "checkout-key-v1" reserved).1.server
    × ((answer : Answer)
        → (reserve db_client (λ t. t) "order-1" "checkout-key-v1" reserved).0 ≡ ok answer
        → status_of answer ≡ 200
        → order_one ≡ order_one)
unfolding reserved reservation_token
reserve-once_example =
    reserve-once db_client db_bank db_client-IsTransactional normal true (λ t. t) "order-1"
      "checkout-key-v1" order_one one_row reserved reserved-Committed refl

abbrev three_requests : List (String × String)
three_requests =
    ("order-1", "checkout-key-v1")
    ∷ ("order-1", "checkout-key-v1")
    ∷ ("order-2", "unknown-key")
    ∷ []

serve_all-refines_example :
    (k : Ledger) × (n : ℕ) × Shows db_bank k
      (serve_all db_client db_bank db_client-IsTransactional normal true
        (λ t. t)
        three_requests
        lab).server
    × Books no_rows k n
    × (n ≤ 3)
    × (k.stock + n ≡ 2)
    × ((token owner : String) → no_rows.owners token ≡ some owner → k.owners token ≡ some owner)
serve_all-refines_example =
    serve_all-refines db_client db_bank db_client-IsTransactional normal true (λ t. t)
      three_requests no_rows lab lab-Committed

-- The second request of an order takes no second piece of stock.
reserved_answer :
    (reserve db_client (λ t. t) "order-1" "checkout-key-v1" lab).0 ≡ ok (reserved_v1 "order-1")
unfolding lab lab_inventory db_client statement insert take applied end_transaction reserve admitted
    attempt transact conclude with_stock without_stock own_collision managed_reservation reuse
    borrow give_back pinged connect discard close_connection taken opened closed reservation_token
    record_request transaction_started transaction_finished write remote reservation_response ◌>>=◌
    ensure is_token
reserved_answer = refl
