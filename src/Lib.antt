-- ===== src/Lib.antt =====
-- FCAPSule Lab: a Kubernetes laboratory that starts one bounded incident at a time and recovers it. A
-- controller (app/control.py) claims and changes cluster objects and posts to the services; the services
-- are the checkout chain (app/orders.py over app/mysql_inventory.py or app/inventory.py), a worker, a load
-- generator and the incident library.
--
-- Files:
--   Prelude, Prelude/*: tests on numbers, lists, dicts, and Exec, the action monad: a state and a
--     result that is a value or an exception (`Exc`), with `catch test m h` for try/except and `ensure` for
--     try/finally. Prelude/Exec/Triples: pre- and postconditions of actions, for values and exceptions.
--   Kube, Kube/*: the objects that the controller reads, and the JSON merge patch (RFC 7396) that the API
--     server applies to them.
--   Safety: app/safety.py. Catalog: app/scenario_catalog.py.
--   Control/State: ControlState of app/control.py, and `Outside`, the interface of everything the
--     controller calls. Control/Journal: _claim_fields and _restore_owned_fields. Control/Claims:
--     _claim_run, _clear_run_claim, _persisted_run, _persist_job_id, _post_for_run. Control/Recover:
--     recover, _recover. Control/Start: start, _start. Control/Watchdog: one round of watchdog.
--     Control/History: sequences of these calls. The modules below them hold the proofs.
--   Json: decoded JSON documents. Orders/Upstream: _attempt_inventory_result of app/orders.py.
--     Orders/Store: the idempotency store. Orders/Checkout: checkout, cut where its lock is released;
--     Orders/Checkout/Flight: checkouts side by side, as a step relation on the shared state and the
--     requests in flight.
--   Traffic: app/traffic.py; Traffic/Load: its loop beside the requests it submitted.
--   Worker/Import: decode_job and _validated_import_records of app/worker.py. Worker/Queue: _job_loop,
--     its transaction included.
--     Worker/Buffer: what set_mode writes, _leak_memory, _credential_migration_loop; Worker/Buffer/Migration: how that
--     loop ends. Worker/Modes: the
--     calls of set_mode, the heartbeat, _export_loop.
--   Orders/Settings: set_mode and _lease_loop of app/orders.py. Edge: app/cnfc_edge.py; Edge/Route: its route
--     over sequences of calls. Library: load_cases of app/incident_library.py. Library/Runtime: LibraryState of
--     app/library_runtime.py.
--   Inventory: InventoryState of app/mysql_inventory.py, and `Client`, the interface of PyMySQL.
--     Inventory/Sessions: connections, the reservation pool and
--     _release_connections. Inventory/Reserve: reserve. Inventory/Modes:
--     set_failure_mode. Inventory/Tasks: _reconcile_stock, _connection_storm, _deadlock_transaction,
--     _sample_database, _lease_loop. Inventory/Service: sequences of these
--     operations. Inventory/Balance and the Counts modules: what each leaves open. Inventory/Ledger and the
--     modules below it: the laws of a transactional server, and what reserve does to its tables.
--   Postgres: set_failure_mode of app/inventory.py, and its own `Client`, of psycopg. Postgres/Reserving:
--     reserve and _bad_database_config.
--   Scoring: score_pipeline and diagnostic_attribution of evaluation/scoring.py.
--   The modules named Examples apply the results to concrete inputs.
--
-- Bounds and fuel: times are in milliseconds (in Inventory: seconds), sizes in bytes, on unbounded numbers, as Python's. The
-- loop of _make_idempotency_room runs on the table's length as fuel, since each round takes an entry out; the batch of
-- _credential_migration_loop on a list of what its rounds see of the stop event (Prelude/Stops), with one
-- round more than it has records. The loop over the attempts is
-- structural on the attempts that are left. The loop of _connection_storm runs on such a list too, with one
-- pass more than sessions are missing.
--
-- Not modelled: log lines, HTTP routes, HTML, metrics text, and what a call outside does, which is
-- an argument or a field of `Outside` or of a `Client`. What the inventories rely on of PyMySQL, psycopg and
-- their servers are named hypotheses (`IsDocumented`, `IsTransactional`, `IsServing`). The operations of
-- app/mysql_inventory.py run one after another, not beside each other; initialize_database is left out, and so
-- is FailureExecutor of app/library_runtime.py.
pub mod Catalog
pub mod Control
pub mod Edge
pub mod Inventory
pub mod Json
pub mod Kube
pub mod Library
pub mod Orders
pub mod Postgres
pub mod Prelude
pub mod Safety
pub mod Scoring
pub mod Traffic
pub mod Worker
