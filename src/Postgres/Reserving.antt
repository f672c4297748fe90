-- ===== src/Postgres/Reserving.antt =====
-- reserve of app/inventory.py. `safe_ref` stands for the start of the SHA-256 of a text.
use fcapsule_lab.Prelude.{
  ℕ, suc, String, Bool, true, false, ◌||◌, Option, none, some, ltb, ◌==◌, str_eq, join, codes,
  length, take_text, if◌then◌else◌,
}
use fcapsule_lab.Prelude.Exec.{
  Exc, lock_not_available, postgres_operational, postgres_error, Exec, pure, raise, gets, catch,
  ensure, ◌>>=◌, ◌>>◌,
}
use fcapsule_lab.Postgres.{
  Mode, lock_contention, bad_database_config, Client, Service, Process, write, remote,
  record_request, transaction_started, transaction_finished,
}

-- What the statements come to.
pub data Booking : Type 0 where
  missing replayed conflict sold_out taken : Booking

-- A status, and the text of "status" in the body.
abbrev pub Reply : Type 0
Reply = ℕ × String

-- except psycopg.Error
abbrev pub is_postgres : Exc → Bool
is_postgres lock_not_available = true
is_postgres (postgres_operational state) = true
is_postgres postgres_error = true
is_postgres e = false

abbrev pub is_operational : Exc → Bool
is_operational lock_not_available = true
is_operational (postgres_operational state) = true
is_operational e = false

-- (exc.sqlstate or "").startswith("28")
abbrev pub rejects_login : Exc → Bool
rejects_login (postgres_operational (some state)) = str_eq (take_text 2 state) "28"
rejects_login e = false

abbrev is_contention : Mode → Bool
is_contention lock_contention = true
is_contention m = false

abbrev pub is_bad_config : Mode → Bool
is_bad_config bad_database_config = true
is_bad_config m = false

abbrev pub count_lock_timeout : Service → Service
count_lock_timeout s = record s { lock_timeouts = suc s.lock_timeouts }

abbrev pub count_login : Bool → Service → Service
count_login true s = record s { authentication_failures = suc s.authentication_failures }
count_login false s = record s { connection_failures = suc s.connection_failures }

abbrev pub count_query : Service → Service
count_query s = record s { query_failures = suc s.query_failures }

-- existing and existing[0] == order_id
abbrev pub is_owner : String → Option String → Bool
is_owner order none = false
is_owner order (some t) = str_eq t order

-- not order_id or len(order_id) > 128
unfoldable pub invalid_order : String → Bool
invalid_order order = str_eq order "" || ltb 128 (length (codes order))

module _ {Server Conn : Type 0} (client : Client Server Conn) where
  abbrev pub Act : Type 0 → Type 0
  Act A = Exec (Process Server) A

  -- with psycopg.connect(url) as connection: body
  unfoldable pub with_connection : {A : Type 0} → String → (Conn → Act A) → Act A
  unfolding ◌>>=◌
  with_connection url body = do
    c ← remote (client.connect url)
    value ← catch (λ _. true) (body c) λ problem. do remote (client.leave true c); raise problem
    remote (client.leave false c)
    pure value

  -- not inserted: a replay, or a key of another order
  unfoldable pub find_owner : String → String → Conn → Act Booking
  unfolding ◌>>=◌
  find_owner key order c = do
    owner ← remote (client.event_owner c key)
    if is_owner order owner
        then remote (client.commit c) >> pure replayed
        else remote (client.rollback c) >> pure conflict

  unfoldable pub take_one : Conn → Option ℕ → Act Booking
  unfolding ◌>>=◌
  take_one c none = do remote (client.rollback c); pure sold_out
  take_one c (some left) = do remote (client.commit c); pure taken

  unfoldable pub insert_and_take : Mode → String → String → Conn → Act Booking
  unfolding ◌>>=◌
  insert_and_take mode key order c = do
    if is_contention mode then remote (client.sleep c) else pure tt
    rows ← remote (client.insert_event c key order)
    if rows == 1 then remote (client.take_stock c) >>= take_one c else find_owner key order c

  abbrev pub with_stock : Mode → String → String → Conn → Option ℕ → Act Booking
  with_stock mode key order c none = pure missing
  with_stock mode key order c (some quantity) = insert_and_take mode key order c

  unfoldable pub transact : Mode → String → String → Conn → Act Booking
  unfolding ◌>>=◌
  transact mode key order c = do
    if is_contention mode then remote (client.set_lock_timeout c) else pure tt
    stock ← remote (client.lock_stock c)
    with_stock mode key order c stock

  -- what is counted inside the `with` block, and after it
  unfoldable pub counted : Booking → Act Booking
  unfolding ◌>>=◌
  counted missing = write (record_request false) >> pure missing
  counted replayed = write (record_request true) >> pure replayed
  counted conflict = write (record_request false) >> pure conflict
  counted sold_out = write (record_request false) >> pure sold_out
  counted taken = pure taken

  unfoldable pub answer : Booking → Act Reply
  unfolding ◌>>=◌
  answer missing = pure (503, "inventory_missing")
  answer replayed = pure (200, "reserved")
  answer conflict = pure (409, "reservation_conflict")
  answer sold_out = pure (409, "out_of_stock")
  answer taken = write (record_request true) >> pure (200, "reserved")

  -- the `except` clauses
  unfoldable pub failed : Exc → Act Reply
  unfolding ◌>>=◌
  failed lock_not_available = do
    write (record_request false)
    write count_lock_timeout
    pure (503, "lock_timeout")
  failed (postgres_operational state) = do
    write (record_request false)
    write (count_login (rejects_login (postgres_operational state)))
    pure (503, "database_unavailable")
  failed problem = do
    write (record_request false)
    write count_query
    pure (503, "database_query_failed")

  -- _bad_database_config
  unfoldable pub bad_login : Exc → Act Reply
  unfolding ◌>>=◌
  bad_login problem = do
    write (record_request false)
    write (count_login (rejects_login problem))
    if rejects_login problem
        then pure (503, "database_configuration_error")
        else pure (503, "database_unavailable")

  unfoldable pub or_reproduced : Option Reply → Act Reply
  unfolding ◌>>=◌
  or_reproduced (some reply) = pure reply
  or_reproduced none = write (record_request false) >> pure (500, "failure_not_reproduced")

  unfoldable pub bad_database : String → Act Reply
  unfolding ◌>>=◌
  bad_database url = do
    reached ←
        catch is_operational (with_connection url (λ c. pure tt) >> pure none)
          λ problem. do reply ← bad_login problem; pure (some reply)
    or_reproduced reached

  unfoldable pub try_reserve : Mode → String → String → String → Act Reply
  unfolding ◌>>=◌
  try_reserve mode url key order =
      catch is_postgres
        (with_connection url (λ c. transact mode key order c >>= counted) >>= answer) failed

  unfoldable pub reserve : (String → String) → String → Act Reply
  unfolding ◌>>=◌ ensure invalid_order
  reserve safe_ref order = do
    s ← gets λ p. p.service
    if invalid_order order
        then pure (400, "invalid_order_id")
        else if is_bad_config s.failure_mode
        then bad_database s.effective_database_url
        else write transaction_started
          >> ensure
              (try_reserve s.failure_mode s.effective_database_url (join "order-" (safe_ref order))
                order)
              (write transaction_finished)
