-- ===== src/Postgres/Answers.antt =====
-- Every answer of app/inventory.py agrees with the committed stock and rows.
use fcapsule_lab.Prelude.{
  ℕ, ◌≡◌, refl, subst, arith, String, Bool, true, false, Option, none, some, ◌⊎◌, inl, inr, ◌==◌,
  join, if◌then◌else◌,
}
use fcapsule_lab.Prelude.Exec.{
  Exc, lock_not_available, postgres_operational, Result, ok, err, ok_inj, Outcome, Exec, pure,
  ◌>>=◌, Runs, Runs-pure, Runs-raise, Runs-gets, Runs-bind, Runs-catch, Runs-ensure, Runs-if,
  Runs-weaken,
}
use fcapsule_lab.Inventory.Ledger.{Ledger, Bank, Shows, ShowsClean, Some, Runs-Some}
use fcapsule_lab.Inventory.Ledger.Stands.{DidBook, MayBook}
use fcapsule_lab.Postgres.{Mode, Client, Process, transaction_finished}
use fcapsule_lab.Postgres.Reserving.{
  is_postgres, is_operational, rejects_login, is_bad_config, invalid_order, bad_login,
  or_reproduced, Booking, missing, replayed, conflict, sold_out, taken, Reply, with_connection,
  transact, counted, answer, failed, try_reserve, bad_database, reserve,
}
use fcapsule_lab.Postgres.Booking.{
  IsTransactional, Far, Far-remote, Far-write, Far-map, Came, Came-MayBook, Settled, Stopped,
  unchanged, transact-Settled,
}

-- The ledger `k` after a reply, where it was `l` before: a reservation that is accepted was there, or is there
-- now; one that is not accepted changed nothing, or was booked in full.
unfoldable pub Agrees : String → String → Ledger → Reply → Ledger → Type 0
Agrees key order l reply k =
    if reply.0 == 200
    then ((k ≡ l) × (l.owners key ≡ some order)) ⊎ DidBook key order l k
    else MayBook key order l k

Agrees-MayBook :
    (key order : String) (l : Ledger) (reply : Reply) (k : Ledger)
    → Agrees key order l reply k
    → MayBook key order l k
unfolding Agrees
Agrees-MayBook key order l (n, text) k h = from_test (n == 200) h
  where
    from_test :
        (test : Bool)
        → (if test
            then ((k ≡ l) × (l.owners key ≡ some order)) ⊎ DidBook key order l k
            else MayBook key order l k)
        → MayBook key order l k
    from_test true (inl h) = inl h.0
    from_test true (inr h) = inr h
    from_test false h = h

fitting :
    {Server Conn : Type 0} {bank : Bank Server Conn} {R Q : Ledger → Type 0}
    → ((k : Ledger) → R k → Q k)
    → (p : Process Server) → Far (Some R (Shows bank)) p
    → Far (Some Q (Shows bank)) p
fitting reason =
    Far-map λ s h. record { ledger = h.ledger; fits = reason h.ledger h.fits; shown = h.shown }

module _ {Server Conn : Type 0} (client : Client Server Conn) (bank : Bank Server Conn)
    (laws : IsTransactional bank client) (key order : String) (l : Ledger) where
  abbrev Replied : Reply → Process Server → Type 0
  Replied reply = Far (Some (Agrees key order l reply) (Shows bank))

  abbrev Left : Booking → Process Server → Type 0
  Left b = Far (Some (Came key order l b) (Shows bank))

  counted-Settled :
      {F : Exc → Process Server → Type 0} (c : Conn) (b : Booking)
      → Runs
          (Settled client bank laws key order l c b)
          (Settled client bank laws key order l c)
          F
          (counted client b)
  unfolding counted
  counted-Settled c missing = Runs-bind (Far-write _) λ _. Runs-pure missing λ p h. h
  counted-Settled c replayed = Runs-bind (Far-write _) λ _. Runs-pure replayed λ p h. h
  counted-Settled c conflict = Runs-bind (Far-write _) λ _. Runs-pure conflict λ p h. h
  counted-Settled c sold_out = Runs-bind (Far-write _) λ _. Runs-pure sold_out λ p h. h
  counted-Settled c taken = Runs-pure taken λ p h. h

  weaker :
      (b : Booking) (p : Process Server)
      → Left b p
      → Far (Some (MayBook key order l) (Shows bank)) p
  weaker b = Far-map λ s h. record {
    ledger = h.ledger;
    fits = Came-MayBook key order l b h.ledger h.fits;
    shown = h.shown;
  }

  with_connection-Left :
      (url : String) (body : Conn → Exec (Process Server) Booking)
      → ((c : Conn)
          → Runs
              (Far (ShowsClean bank l c))
              (Settled client bank laws key order l c)
              (Stopped client bank laws key order l)
              (body c))
      → Runs
          (Far (Shows bank l))
          Left
          (Stopped client bank laws key order l)
          (with_connection client url body)
  unfolding with_connection
  with_connection-Left url body each =
      Runs-bind
        (Runs-weaken (λ p h. h) (λ _ p h. h) (λ _. unchanged client bank laws key order l)
          (Far-remote (laws.connects l url)))
        λ c.
          Runs-bind {R = Settled client bank laws key order l c}
            (Runs-catch (λ _. true) (each c)
              (λ problem _.
                Runs-bind (Far-remote (Runs-Some λ k r. laws.abandons k c))
                  λ _. Runs-raise problem λ p h. h)
              λ problem e p h. absurd (ground (arith, e)))
            λ b.
              Runs-bind
                (Runs-weaken (λ p h. h) (λ _ p h. h) (λ _. weaker b)
                  (Far-remote (Runs-Some λ k r. laws.leaves k c)))
                λ _. Runs-pure b λ p h. h

  answer-Replied :
      {F : Exc → Process Server → Type 0} (b : Booking) → Runs (Left b) Replied F (answer client b)
  unfolding answer Agrees
  answer-Replied missing = Runs-pure _ (fitting λ k h. inl h)
  answer-Replied replayed = Runs-pure _ (fitting λ k h. inl h)
  answer-Replied conflict = Runs-pure _ (fitting λ k h. inl h)
  answer-Replied sold_out = Runs-pure _ (fitting λ k h. inl h)
  answer-Replied taken = Runs-bind (Far-write _) λ _. Runs-pure _ (fitting λ k h. inr h)

  refusal :
      {F : Exc → Process Server → Type 0} (n : ℕ) (text : String)
      → n == 200 ≡ false
      → Runs (Far (Some (MayBook key order l) (Shows bank))) Replied F (pure (n, text))
  unfolding Agrees
  refusal n text other = Runs-pure (n, text) (fitting λ k h. rw other h)

  failed-Replied :
      {F : Exc → Process Server → Type 0} (problem : Exc)
      → Runs (Stopped client bank laws key order l problem) Replied F (failed client problem)
  unfolding failed
  failed-Replied lock_not_available =
      Runs-bind (Far-write _) λ _. Runs-bind (Far-write _) λ _. refusal 503 "lock_timeout" refl
  failed-Replied (postgres_operational state) =
      Runs-bind (Far-write _)
        λ _. Runs-bind (Far-write _) λ _. refusal 503 "database_unavailable" refl
  failed-Replied problem =
      Runs-bind (Far-write _)
        λ _. Runs-bind (Far-write _) λ _. refusal 503 "database_query_failed" refl

  try_reserve-Replied :
      (mode : Mode) (url : String)
      → Runs
          (Far (Shows bank l))
          Replied
          (Stopped client bank laws key order l)
          (try_reserve client mode url key order)
  unfolding try_reserve
  try_reserve-Replied mode url =
      Runs-catch is_postgres
        (Runs-bind
          (with_connection-Left url (λ c. transact client mode key order c >>= counted client)
            λ c.
              Runs-bind (transact-Settled client bank laws key order l mode c)
                λ b. counted-Settled c b)
          λ b. answer-Replied b)
        (λ problem _. failed-Replied problem) λ problem _ p h. h

  reached-Shows :
      (url : String)
      → Runs
          (Far (Shows bank l))
          (λ _. Far (Shows bank l))
          (λ _. Far (Shows bank l))
          (with_connection client url (λ c. pure tt))
  unfolding with_connection
  reached-Shows url = Runs-bind (Far-remote (laws.connects l url)) λ c.
      Runs-bind {R = λ _. Far (ShowsClean bank l c)}
        (Runs-catch {E = λ _. Far (Shows bank l)} (λ _. true) (Runs-pure tt λ p h. h)
          (λ problem _. Runs-bind (Far-remote (laws.abandons l c)) λ _. Runs-raise problem λ p h. h)
          λ problem _ p h. h)
        λ _. Runs-bind (Far-remote (laws.leaves l c)) λ _. Runs-pure tt λ p h. h

  -- nothing was booked, and the reply does not accept
  refused :
      {F : Exc → Process Server → Type 0} (n : ℕ) (text : String)
      → n == 200 ≡ false
      → Runs (Far (Shows bank l)) Replied F (pure (n, text))
  refused n text other =
      Runs-weaken (unchanged client bank laws key order l) (λ _ p h. h) (λ _ p h. h)
        (refusal n text other)

  bad_login-Replied :
      {F : Exc → Process Server → Type 0} (problem : Exc)
      → Runs (Far (Shows bank l)) Replied F (bad_login client problem)
  unfolding bad_login
  bad_login-Replied problem = Runs-bind (Far-write _) λ _. Runs-bind (Far-write _) λ _.
      Runs-if (rejects_login problem) (refused 503 "database_configuration_error" refl)
        (refused 503 "database_unavailable" refl)

  -- the reply so far, or none and an untouched ledger
  Tried : Option Reply → Process Server → Type 0
  Tried none = Far (Shows bank l)
  Tried (some reply) = Replied reply

  or_reproduced-Replied :
      {F : Exc → Process Server → Type 0} (reached : Option Reply)
      → Runs (Tried reached) Replied F (or_reproduced client reached)
  unfolding or_reproduced Tried
  or_reproduced-Replied none =
      Runs-bind (Far-write _) λ _. refused 500 "failure_not_reproduced" refl
  or_reproduced-Replied (some reply) = Runs-pure reply λ p h. h

  bad_database-Replied :
      (url : String)
      → Runs
          (Far (Shows bank l))
          Replied
          (Stopped client bank laws key order l)
          (bad_database client url)
  unfolding bad_database Tried
  bad_database-Replied url =
      Runs-bind {R = Tried}
        (Runs-catch is_operational (Runs-bind (reached-Shows url) λ _. Runs-pure none λ p h. h)
          (λ problem _.
            Runs-bind (bad_login-Replied problem) λ reply. Runs-pure (some reply) λ p h. h)
          λ problem _. unchanged client bank laws key order l)
        λ reached. or_reproduced-Replied reached

module _ {Server Conn : Type 0} (client : Client Server Conn) (bank : Bank Server Conn)
    (laws : IsTransactional bank client) (safe_ref : String → String) (order : String)
    (l : Ledger) where
  key_of : String
  key_of = join "order-" (safe_ref order)

  reserve-Replied :
      Runs
        (Far (Shows bank l))
        (Replied client bank laws key_of order l)
        (Stopped client bank laws key_of order l)
        (reserve client safe_ref order)
  unfolding reserve key_of
  reserve-Replied =
      Runs-bind {R = λ _. Far (Shows bank l)} (Runs-gets (λ p. p.service) λ p h. h) λ s.
        Runs-if (invalid_order order)
          (refused client bank laws key_of order l 400 "invalid_order_id" refl)
          (Runs-if (is_bad_config s.failure_mode)
            (bad_database-Replied client bank laws key_of order l s.effective_database_url)
            (Runs-bind (Far-write _) λ _.
              Runs-ensure
                (try_reserve-Replied client bank laws key_of order l s.failure_mode
                  s.effective_database_url)
                (λ _. Far-write transaction_finished) λ _. Far-write transaction_finished))

  -- For a transactional server: a reservation on PostgreSQL, whether it answers or raises, leaves the committed
  -- ledger as it was, or with one row more, that of the order's key, which was not there, and one piece of stock
  -- less, of which there was one; and where it answers 200, the row was there or is there now.
  pub reserve-booked :
      (p : Process Server)
      → Shows bank l p.server
      → (k : Ledger) × Shows bank k (reserve client safe_ref order p).1.server
        × MayBook (join "order-" (safe_ref order)) order l k
        × ((reply : Reply)
            → (reserve client safe_ref order p).0 ≡ ok reply
            → Agrees (join "order-" (safe_ref order)) order l reply k)
  unfolding key_of
  reserve-booked p h = by_outcome _ _ (reserve-Replied.at p (record { far = h }))
    where
      by_outcome :
          (came : Result Reply) (after : Process Server)
          → Outcome
              (Replied client bank laws key_of order l)
              (Stopped client bank laws key_of order l)
              came
              after
          → (k : Ledger) × Shows bank k after.server
            × MayBook key_of order l k
            × ((reply : Reply) → came ≡ ok reply → Agrees key_of order l reply k)
      by_outcome (ok reply) after h = (
        h.far.ledger,
        h.far.shown,
        Agrees-MayBook key_of order l reply h.far.ledger h.far.fits,
        λ other e.
            subst (λ r. Agrees key_of order l r h.far.ledger) (ok_inj reply other e) h.far.fits,
      )
      by_outcome (err problem) after h =
          (h.far.ledger, h.far.shown, h.far.fits, λ other e. absurd (ground (arith, e)))
