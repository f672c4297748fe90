-- ===== src/Postgres/Booking.antt =====
-- A reservation of app/inventory.py and the committed stock and rows. The server's answers are those of one
-- transaction that no other session writes to at the same time.
use fcapsule_lab.Prelude.{
  ℕ, ◌≡◌, ◌<◌, refl, sym, ◌∙◌, ap, arith, String, Bool, true, false, Option, none, some, ◌⊎◌, inl,
  inr, is_some, ◌==◌, eq_iff, if◌then◌else◌,
}
use fcapsule_lab.Prelude.Exec.{
  Exc, Result, ok, err, Outcome, Exec, ◌>>=◌, Runs, Runs-pure, Runs-modify, Runs-bind, Runs-if,
  Runs-branch, Runs-weaken, Runs-assuming,
}
use fcapsule_lab.Inventory.Ledger.{Ledger, book, Bank, Shows, ShowsClean, Some}
use fcapsule_lab.Inventory.Ledger.Stands.{DidBook, MayBook}
use fcapsule_lab.Postgres.{Mode, Client, Service, Process, write, remote}
use fcapsule_lab.Postgres.Reserving.{
  Booking, missing, replayed, conflict, sold_out, taken, is_owner, find_owner, take_one,
  insert_and_take, with_stock, transact,
}

module _ {Server Conn : Type 0} (bank : Bank Server Conn) where
  -- PostgreSQL's answers to the calls of a reservation.
  pub record IsTransactional (client : Client Server Conn) : Type 0 where
    pub connects :
        (l : Ledger) (url : String)
        → Runs (Shows bank l) (λ c. ShowsClean bank l c) (λ _. Shows bank l) (client.connect url)
    pub sets :
        (l : Ledger) (c : Conn)
        → Runs
            (ShowsClean bank l c)
            (λ _. ShowsClean bank l c)
            (λ _. Shows bank l)
            (client.set_lock_timeout c)
    pub sleeps :
        (l : Ledger) (c : Conn)
        → Runs (ShowsClean bank l c) (λ _. ShowsClean bank l c) (λ _. Shows bank l) (client.sleep c)
    pub locks :
        (l : Ledger) (c : Conn)
        → Runs
            (ShowsClean bank l c)
            (λ _. ShowsClean bank l c)
            (λ _. Shows bank l)
            (client.lock_stock c)
    pub inserts :
        (l : Ledger) (c : Conn) (key order : String)
        → Runs
            (ShowsClean bank l c)
            (λ rows s.
              if rows == 1
              then Shows bank l s × bank.Inserted c key order s × (l.owners key ≡ none)
              else ShowsClean bank l c s)
            (λ _. Shows bank l)
            (client.insert_event c key order)
    pub reads :
        (l : Ledger) (c : Conn) (key : String)
        → Runs
            (ShowsClean bank l c)
            (λ row s. (row ≡ l.owners key) × ShowsClean bank l c s)
            (λ _. Shows bank l)
            (client.event_owner c key)
    pub takes :
        (l : Ledger) (c : Conn) (key order : String)
        → Runs
            (λ s. Shows bank l s × bank.Inserted c key order s)
            (λ left s.
              Shows bank l s × (is_some left ≡ true → (0 < l.stock) × bank.Booked c key order s))
            (λ _. Shows bank l)
            (client.take_stock c)
    pub commits :
        (l : Ledger) (c : Conn)
        → Runs
            (ShowsClean bank l c)
            (λ _. ShowsClean bank l c)
            (λ _. Shows bank l)
            (client.commit c)
    -- an exception leaves open whether it was done
    pub commits_booked :
        (l : Ledger) (c : Conn) (key order : String)
        → Runs
            (λ s. Shows bank l s × bank.Booked c key order s)
            (λ _. ShowsClean bank (book key order l) c)
            (λ _ s. Shows bank l s ⊎ Shows bank (book key order l) s)
            (client.commit c)
    pub rolls_back :
        (l : Ledger) (c : Conn)
        → Runs (Shows bank l) (λ _. ShowsClean bank l c) (λ _. Shows bank l) (client.rollback c)
    pub leaves :
        (l : Ledger) (c : Conn)
        → Runs (ShowsClean bank l c) (λ _. Shows bank l) (λ _. Shows bank l) (client.leave false c)
    pub abandons :
        (l : Ledger) (c : Conn)
        → Runs (Shows bank l) (λ _. Shows bank l) (λ _. Shows bank l) (client.leave true c)

-- a predicate of the server
pub record Far {Server : Type 0} (P : Server → Type 0) (p : Process Server) : Type 0 where
  pub far : P p.server

module _ {Server : Type 0} where
  pub Far-remote :
      {A : Type 0} {P : Server → Type 0} {Q : A → Server → Type 0} {E : Exc → Server → Type 0}
      {call : Exec Server A}
      → Runs P Q E call
      → Runs (Far P) (λ a. Far (Q a)) (λ e. Far (E e)) (remote call)
  unfolding remote
  Far-remote {A} {P} {Q} {E} {call} runs = record {
    at = λ p h.
        told (call p.server).0 (record p { server = (call p.server).1 }) (runs.at p.server h.far);
  }
    where
      told :
          (came : Result A) (after : Process Server)
          → Outcome Q E came after.server
          → Outcome (λ a. Far (Q a)) (λ e. Far (E e)) came after
      told (ok value) after h = record { far = h }
      told (err problem) after h = record { far = h }

  pub Far-write :
      {P : Server → Type 0} {F : Exc → Process Server → Type 0} (change : Service → Service)
      → Runs (Far P) (λ _. Far P) F (write change)
  unfolding write
  Far-write change = Runs-modify _ λ p h. record { far = h.far }

  pub Far-map :
      {P Q : Server → Type 0}
      → ((s : Server) → P s → Q s)
      → (p : Process Server) → Far P p
      → Far Q p
  Far-map reason p h = record { far = reason p.server h.far }

-- the ledger after the statements
abbrev pub Came : String → String → Ledger → Booking → Ledger → Type 0
Came key order l taken = DidBook key order l
Came key order l replayed = λ k. (k ≡ l) × (l.owners key ≡ some order)
Came key order l other = λ k. k ≡ l

pub Came-MayBook :
    (key order : String) (l : Ledger) (b : Booking) (k : Ledger)
    → Came key order l b k
    → MayBook key order l k
Came-MayBook key order l taken k h = inr h
Came-MayBook key order l replayed k h = inl h.0
Came-MayBook key order l missing k h = inl h
Came-MayBook key order l conflict k h = inl h
Came-MayBook key order l sold_out k h = inl h

is_owner-eq : (order : String) (row : Option String) → is_owner order row ≡ true → row ≡ some order
is_owner-eq order none h = absurd (ground (arith, h))
is_owner-eq order (some t) h = ap some ((eq_iff t order).0 h)

module _ {Server Conn : Type 0} (client : Client Server Conn) (bank : Bank Server Conn)
    (laws : IsTransactional bank client) (key order : String) (l : Ledger) where
  -- the ledger after a booking, with the connection in no transaction
  abbrev pub Settled : Conn → Booking → Process Server → Type 0
  Settled c b = Far (Some (Came key order l b) (λ k. ShowsClean bank k c))

  abbrev pub Stopped : Exc → Process Server → Type 0
  Stopped e = Far (Some (MayBook key order l) (Shows bank))

  pub unchanged :
      (p : Process Server) → Far (Shows bank l) p → Far (Some (MayBook key order l) (Shows bank)) p
  unchanged = Far-map λ s h. record { ledger = l; fits = inl refl; shown = h }

  -- a call that leaves the ledger as it is
  pub called :
      {A : Type 0} {P : Server → Type 0} {Q : A → Server → Type 0} {call : Exec Server A}
      → Runs P Q (λ _. Shows bank l) call
      → Runs (Far P) (λ a. Far (Q a)) Stopped (remote call)
  called runs = Runs-weaken (λ p h. h) (λ _ p h. h) (λ _. unchanged) (Far-remote runs)

  as_before :
      (c : Conn) (b : Booking)
      → Came key order l b l
      → (p : Process Server) → Far (ShowsClean bank l c) p
      → Settled c b p
  as_before c b fits = Far-map λ s h. record { ledger = l; fits = fits; shown = h }

  find_owner-Settled :
      (c : Conn)
      → Runs (Far (ShowsClean bank l c)) (Settled c) Stopped (find_owner client key order c)
  unfolding find_owner
  find_owner-Settled c =
      Runs-bind {R = λ row p. (row ≡ l.owners key) × Far (ShowsClean bank l c) p}
        (Runs-weaken (λ p h. h) (λ _ p h. (h.far.0, record { far = h.far.1 })) (λ _. unchanged)
          (Far-remote (laws.reads l c key)))
        λ row. Runs-assuming λ same.
          Runs-branch (is_owner order row)
            (λ mine. Runs-bind (called (laws.commits l c)) λ _.
              Runs-pure replayed
                (as_before c replayed (refl, sym same ∙ is_owner-eq order row mine)))
            λ _.
              Runs-bind
                (called (Runs-weaken (λ s h. h.0) (λ _ s h. h) (λ _ s h. h) (laws.rolls_back l c)))
                λ _. Runs-pure conflict (as_before c conflict refl)

  take_one-Settled :
      (c : Conn) (left : Option ℕ)
      → l.owners key ≡ none
      → Runs
          (Far
            λ s. Shows bank l s × (is_some left ≡ true → (0 < l.stock) × bank.Booked c key order s))
          (Settled c)
          Stopped
          (take_one client c left)
  unfolding take_one
  take_one-Settled c none fresh =
      Runs-bind (called (Runs-weaken (λ s h. h.0) (λ _ s h. h) (λ _ s h. h) (laws.rolls_back l c)))
        λ _. Runs-pure sold_out (as_before c sold_out refl)
  take_one-Settled c (some left) fresh =
      Runs-weaken {P = λ p. (0 < l.stock) × Far (λ s. Shows bank l s × bank.Booked c key order s) p}
        (λ p h. ((h.far.1 refl).0, record { far = (h.far.0, (h.far.1 refl).1) })) (λ _ p h. h)
        (λ _ p h. h)
        (Runs-assuming λ stocked.
          Runs-bind
            (Runs-weaken (λ p h. h) (λ _ p h. h) (λ _. either stocked)
              (Far-remote (laws.commits_booked l c key order)))
            λ _.
              Runs-pure taken (Far-map λ s h. record { ledger = _; fits = did stocked; shown = h }))
    where
      did : 0 < l.stock → DidBook key order l (book key order l)
      did stocked = record { result = refl; fresh = fresh; stocked = stocked }

      either :
          0 < l.stock
          → (p : Process Server) → Far (λ s. Shows bank l s ⊎ Shows bank (book key order l) s) p
          → Far (Some (MayBook key order l) (Shows bank)) p
      either stocked = Far-map λ s h. elim h [
        | inl old ↦ record { ledger = l; fits = inl refl; shown = old }
        | inr new ↦ record { ledger = book key order l; fits = inr (did stocked); shown = new }
      ]

  insert_and_take-Settled :
      (mode : Mode) (c : Conn)
      → Runs
          (Far (ShowsClean bank l c))
          (Settled c)
          Stopped
          (insert_and_take client mode key order c)
  unfolding insert_and_take
  insert_and_take-Settled mode c =
      Runs-bind {R = λ _. Far (ShowsClean bank l c)}
        (Runs-if _ (called (laws.sleeps l c)) (Runs-pure tt λ p h. h))
        λ _. Runs-bind (called (laws.inserts l c key order)) λ rows. by_rows rows (rows == 1)
    where
      by_rows :
          (rows : ℕ) (inserted : Bool)
          → Runs
              (Far λ s.
                if inserted
                then Shows bank l s × bank.Inserted c key order s × (l.owners key ≡ none)
                else ShowsClean bank l c s)
              (Settled c)
              Stopped
              (if inserted
                then remote (client.take_stock c) >>= take_one client c
                else find_owner client key order c)
      by_rows rows false = find_owner-Settled c
      by_rows rows true =
          Runs-weaken
            {P = λ p.
              (l.owners key ≡ none) × Far (λ s. Shows bank l s × bank.Inserted c key order s) p}
            (λ p h. (h.far.2, record { far = (h.far.0, h.far.1) })) (λ _ p h. h) (λ _ p h. h)
            (Runs-assuming λ fresh.
              Runs-bind (called (laws.takes l c key order)) λ left. take_one-Settled c left fresh)

  pub transact-Settled :
      (mode : Mode) (c : Conn)
      → Runs (Far (ShowsClean bank l c)) (Settled c) Stopped (transact client mode key order c)
  unfolding transact
  transact-Settled mode c =
      Runs-bind {R = λ _. Far (ShowsClean bank l c)}
        (Runs-if _ (called (laws.sets l c)) (Runs-pure tt λ p h. h))
        λ _. Runs-bind (called (laws.locks l c)) λ stock. by_stock stock
    where
      by_stock :
          (stock : Option ℕ)
          → Runs
              (Far (ShowsClean bank l c))
              (Settled c)
              Stopped
              (with_stock client mode key order c stock)
      by_stock none = Runs-pure missing (as_before c missing refl)
      by_stock (some quantity) = insert_and_take-Settled mode c
