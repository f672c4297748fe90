-- ===== src/Postgres/Examples.antt =====
-- A reservation of app/inventory.py on a small server with one connection, and the theorem at it.
use fcapsule_lab.Prelude.{
  ℕ, ◌-◌, ◌≡◌, ◌<◌, refl, sym, ◌∙◌, ap, subst, arith, String, Bool, true, false, Option, none, some,
  is_some, ◌==◌, str_eq, ltb, ltb→lt, join, if◌then◌else◌,
}
use fcapsule_lab.Prelude.Exec.{ok, Exec, Outcome, ◌>>=◌, ensure}
use fcapsule_lab.Inventory.Ledger.{Ledger, book, Bank, Shows}
use fcapsule_lab.Inventory.Ledger.Stands.{MayBook}
use fcapsule_lab.Postgres.{
  normal, Client, Process, write, remote, record_request, transaction_started, transaction_finished,
}
use fcapsule_lab.Postgres.Reserving.{
  Reply, invalid_order, with_connection, insert_and_take, take_one, transact, counted, answer,
  try_reserve, reserve,
}
use fcapsule_lab.Postgres.Booking.{IsTransactional}
use fcapsule_lab.Postgres.Answers.{Agrees, reserve-booked}

data Pending : Type 0 where
  idle : Pending
  row booked : String → String → Pending

record Db : Type 0 where
  owners : String → Option String
  stock : ℕ
  pending : Pending

unfoldable ended : Db → Db
ended s = record s { pending = idle }

unfoldable applied : Pending → Db → Db
applied idle s = s
applied (row key order) s = s
applied (booked key order) s = record s {
  owners = λ t. if str_eq t key then some order else s.owners t;
  stock = s.stock - 1;
}

-- a row that is there stays
unfoldable insert_new : Option String → String → String → Exec Db ℕ
insert_new none key order s = (ok 1, record s { pending = row key order })
insert_new (some owner) key order s = (ok 0, s)

unfoldable take_left : Bool → String → String → Exec Db (Option ℕ)
take_left true key order s = (ok (some (s.stock - 1)), record s { pending = booked key order })
take_left false key order s = (ok none, s)

unfoldable take : Pending → Exec Db (Option ℕ)
take (row key order) s = take_left (ltb 0 s.stock) key order s
take other s = (ok none, s)

unfoldable db_client : Client Db ℕ
unfolding ended applied insert_new take_left take
db_client = record {
  connect = λ url s. (ok 0, ended s);
  set_lock_timeout = λ c s. (ok tt, s);
  sleep = λ c s. (ok tt, s);
  lock_stock = λ c s. (ok (some s.stock), s);
  insert_event = λ c key order s. insert_new (s.owners key) key order s;
  event_owner = λ c key s. (ok (s.owners key), s);
  take_stock = λ c s. take s.pending s;
  commit = λ c s. (ok tt, ended (applied s.pending s));
  rollback = λ c s. (ok tt, ended s);
  leave = λ raised c s. (ok tt, if raised then ended s else ended (applied s.pending s));
}

unfoldable db_bank : Bank Db ℕ
db_bank = record {
  owner = λ t s. s.owners t;
  quantity = λ s. s.stock;
  Clean = λ c s. s.pending ≡ idle;
  Inserted = λ c key order s. s.pending ≡ row key order;
  Booked = λ c key order s. s.pending ≡ booked key order;
}

still :
    (l : Ledger) (s : Db) (p : Pending)
    → Shows db_bank l s
    → Shows db_bank l (record s { pending = p })
unfolding db_bank
still l s p h = record { owners = h.owners; stock = h.stock }

db_client-IsTransactional : IsTransactional db_bank db_client
unfolding db_client db_bank ended applied insert_new take_left take book
db_client-IsTransactional = record {
  connects = λ l url. record { at = λ s h. (still l s idle h, refl) };
  sets = λ l c. record { at = λ s h. h };
  sleeps = λ l c. record { at = λ s h. h };
  locks = λ l c. record { at = λ s h. h };
  inserts = λ l c key order. record { at = λ s h. inserting l key order s h (s.owners key) refl };
  reads = λ l c key. record { at = λ s h. (h.0.owners key, h) };
  takes = λ l c key order. record {
    at = λ s h.
        subst
          (λ q.
            Outcome
              (λ left t.
                Shows db_bank l t
                × (is_some left ≡ true → (0 < l.stock) × (t.pending ≡ booked key order)))
              (λ _. Shows db_bank l) (take q s).0 (take q s).1)
          (sym h.1) (taking l key order s h.0 (ltb 0 s.stock) refl);
  };
  commits = λ l c. record { at = λ s h. rw h.1 (still l s idle h.0, refl) };
  commits_booked = λ l c key order. record {
    at = λ s h. rw h.1 (
      record {
        owners = λ t. ap (λ o. if str_eq t key then some order else o) (h.0.owners t);
        stock = ap (λ n. n - 1) h.0.stock;
      },
      refl,
    );
  };
  rolls_back = λ l c. record { at = λ s h. (still l s idle h, refl) };
  leaves = λ l c. record { at = λ s h. rw h.1 (still l s idle h.0) };
  abandons = λ l c. record { at = λ s h. still l s idle h };
}
  where
    inserting :
        (l : Ledger) (key order : String) (s : Db)
        → Shows db_bank l s × (s.pending ≡ idle)
        → (found : Option String) → s.owners key ≡ found
        → Outcome
            (λ rows t.
              if rows == 1
              then Shows db_bank l t × (t.pending ≡ row key order) × (l.owners key ≡ none)
              else Shows db_bank l t × (t.pending ≡ idle))
            (λ _. Shows db_bank l)
            (insert_new found key order s).0
            (insert_new found key order s).1
    inserting l key order s h none e =
        (still l s (row key order) h.0, refl, sym (h.0.owners key) ∙ e)
    inserting l key order s h (some o) e = h

    taking :
        (l : Ledger) (key order : String) (s : Db)
        → Shows db_bank l s
        → (left : Bool) → ltb 0 s.stock ≡ left
        → Outcome
            (λ left t.
              Shows db_bank l t
              × (is_some left ≡ true → (0 < l.stock) × (t.pending ≡ booked key order)))
            (λ _. Shows db_bank l)
            (take_left left key order s).0
            (take_left left key order s).1
    taking l key order s h true e =
        (still l s (booked key order) h, λ _. (omega (arith, h.stock, ltb→lt 0 s.stock e), refl))
    taking l key order s h false e = (h, λ none_taken. absurd (ground (arith, none_taken)))

abbrev lab : Process Db
lab = record {
  service = record {
    database_url = "postgresql://inventory";
    effective_database_url = "postgresql://inventory";
    failure_mode = normal;
    requests_success = 0;
    requests_error = 0;
    lock_timeouts = 0;
    connection_failures = 0;
    authentication_failures = 0;
    query_failures = 0;
    active_transactions = 0;
    max_active_transactions = 0;
    expires_at = 0;
    control_run_id = none;
  };
  server = record { owners = λ t. none; stock = 2; pending = idle };
}

abbrev no_rows : Ledger
no_rows = record { owners = λ t. none; stock = 2 }

reserved_answer : (reserve db_client (λ t. t) "order-1" lab).0 ≡ ok (200, "reserved")
unfolding db_client ended applied insert_new take_left take reserve try_reserve with_connection
    transact insert_and_take take_one counted answer invalid_order write remote record_request
    transaction_started transaction_finished ensure ◌>>=◌
reserved_answer = refl

lab-Shows : Shows db_bank no_rows lab.server
unfolding db_bank
lab-Shows = record { owners = λ t. refl; stock = refl }

reserve-booked_example :
    (k : Ledger) × Shows db_bank k (reserve db_client (λ t. t) "order-1" lab).1.server
    × MayBook (join "order-" "order-1") "order-1" no_rows k
    × ((reply : Reply)
        → (reserve db_client (λ t. t) "order-1" lab).0 ≡ ok reply
        → Agrees (join "order-" "order-1") "order-1" no_rows reply k)
reserve-booked_example =
    reserve-booked db_client db_bank db_client-IsTransactional (λ t. t) "order-1" no_rows lab
      lab-Shows
