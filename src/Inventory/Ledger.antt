-- ===== src/Inventory/Ledger.antt =====
-- What app/mysql_inventory.py relies on of MySQL: the committed stock of sku-red-widget and the
-- committed rows of reservation_events, and how the statements of a reservation change them. The laws are those of
-- one transaction that no other session writes to at the same time; no reserved_quantity is negative.
pub mod Stands
pub mod Booking
pub mod Answers
pub mod History
pub mod Once
use fcapsule_lab.Prelude.{
  ℕ, ◌-◌, ◌≡◌, ◌<◌, refl, String, Bool, true, false, Option, none, some, ◌⊎◌, inl, inr, ◌==◌,
  str_eq, if◌then◌else◌,
}
use fcapsule_lab.Prelude.Exec.{Exc, Result, ok, err, Outcome, Exec, modify, Runs}
use fcapsule_lab.Inventory.{
  set_lock_wait_timeout, insert_reservation, take_stock, Inventory, Client, Process, write, remote,
}

pub record Ledger : Type 0 where
  pub owners : String → Option String
  pub stock : ℕ

-- A reservation row more, and a piece of stock less.
unfoldable pub book : String → String → Ledger → Ledger
book token order l = record {
  owners = λ t. if str_eq t token then some order else l.owners t;
  stock = l.stock - 1;
}

-- What a server has committed, and where the transaction of a connection is: nothing in it, the row
-- of a reservation, or the row and the stock.
pub record Bank (Server Conn : Type 0) : Type 1 where
  pub owner : String → Server → Option String
  pub quantity : Server → ℕ
  pub Clean : Conn → Server → Type 0
  pub Inserted : Conn → String → String → Server → Type 0
  pub Booked : Conn → String → String → Server → Type 0

module _ {Server Conn : Type 0} (bank : Bank Server Conn) where
  pub record Shows (l : Ledger) (s : Server) : Type 0 where
    pub owners : (t : String) → bank.owner t s ≡ l.owners t
    pub stock : bank.quantity s ≡ l.stock

  abbrev pub ShowsClean : Ledger → Conn → Server → Type 0
  ShowsClean l c s = Shows l s × bank.Clean c s

  -- MySQL's answers to the calls of a reservation.
  pub record IsTransactional (client : Client Server Conn) : Type 0 where
    pub connects : (l : Ledger) → Runs (Shows l) (λ c. ShowsClean l c) (λ _. Shows l) client.connect
    pub pings :
        (l : Ledger) (c : Conn)
        → Runs (ShowsClean l c) (λ _. ShowsClean l c) (λ _. Shows l) (client.ping c)
    pub closes :
        (l : Ledger) (c : Conn) → Runs (Shows l) (λ _. Shows l) (λ _. Shows l) (client.close c)
    pub waits :
        (l : Ledger) (c : Conn)
        → Runs
            (ShowsClean l c)
            (λ _. ShowsClean l c)
            (λ _. Shows l)
            (client.execute c set_lock_wait_timeout)
    -- token is the primary key
    pub inserts :
        (l : Ledger) (c : Conn) (token order : String)
        → Runs
            (ShowsClean l c)
            (λ _ s. Shows l s × bank.Inserted c token order s × (l.owners token ≡ none))
            (λ _. Shows l)
            (client.execute c (insert_reservation token order))
    pub takes :
        (l : Ledger) (c : Conn) (token order : String) (v2 : Bool)
        → Runs
            (λ s. Shows l s × bank.Inserted c token order s)
            (λ rows s.
              Shows l s × (rows == 0 ≡ false → (0 < l.stock) × bank.Booked c token order s))
            (λ _. Shows l)
            (client.execute c (take_stock v2))
    -- an exception leaves open whether it was done
    pub commits :
        (l : Ledger) (c : Conn) (token order : String)
        → Runs
            (λ s. Shows l s × bank.Booked c token order s)
            (λ _. ShowsClean (book token order l) c)
            (λ _ s. Shows l s ⊎ Shows (book token order l) s)
            (client.commit c)
    pub rolls_back :
        (l : Ledger) (c : Conn)
        → Runs (Shows l) (λ _. ShowsClean l c) (λ _. Shows l) (client.rollback c)
    pub reads :
        (l : Ledger) (c : Conn) (token : String)
        → Runs
            (Shows l)
            (λ row s. Shows l s × (row ≡ l.owners token))
            (λ _. Shows l)
            (client.owner_row c token)

-- a predicate of the server for a ledger that satisfies `R`
pub record Some {Server : Type 0} (R : Ledger → Type 0) (P : Ledger → Server → Type 0) (s : Server)
    : Type 0 where
  pub ledger : Ledger
  pub fits : R ledger
  pub shown : P ledger s

module _ {Server A : Type 0} where
  pub Runs-Some :
      {R : Ledger → Type 0} {P : Ledger → Server → Type 0} {Q : A → Ledger → Server → Type 0}
      {E : Exc → Ledger → Server → Type 0} {call : Exec Server A}
      → ((l : Ledger) → R l → Runs (P l) (λ a. Q a l) (λ e. E e l) call)
      → Runs (Some R P) (λ a. Some R (Q a)) (λ e. Some R (E e)) call
  Runs-Some {R} {P} {Q} {E} {call} each = record {
    at = λ s h. beside (call s).0 (call s).1 h.ledger h.fits ((each h.ledger h.fits).at s h.shown);
  }
    where
      beside :
          (came : Result A) (after : Server) (l : Ledger)
          → R l
          → Outcome (λ a. Q a l) (λ e. E e l) came after
          → Outcome (λ a. Some R (Q a)) (λ e. Some R (E e)) came after
      beside (ok value) after l r h = record { ledger = l; fits = r; shown = h }
      beside (err problem) after l r h = record { ledger = l; fits = r; shown = h }

-- a predicate of the server, beside one of the process's own state
pub record On {Server Conn : Type 0} (P : Server → Type 0) (S : Inventory Conn → Type 0)
    (p : Process Server Conn) : Type 0 where
  pub far : P p.server
  pub near : S p.inventory

module _ {Server Conn : Type 0} where
  pub On-remote :
      {S : Inventory Conn → Type 0} {A : Type 0} {P : Server → Type 0} {Q : A → Server → Type 0}
      {E : Exc → Server → Type 0} {call : Exec Server A}
      → Runs P Q E call
      → Runs (On P S) (λ a. On (Q a) S) (λ e. On (E e) S) (remote {Conn = Conn} call)
  unfolding remote
  On-remote {S} {A} {P} {Q} {E} {call} runs = record {
    at = λ p h.
        beside (call p.server).0 (record p { server = (call p.server).1 }) (runs.at p.server h.far)
          h.near;
  }
    where
      beside :
          (came : Result A) (after : Process Server Conn)
          → Outcome Q E came after.server
          → S after.inventory
          → Outcome (λ a. On (Q a) S) (λ e. On (E e) S) came after
      beside (ok value) after h k = record { far = h; near = k }
      beside (err problem) after h k = record { far = h; near = k }

  pub On-write :
      {P : Server → Type 0} {S T : Inventory Conn → Type 0} {F : Exc → Process Server Conn → Type 0}
      (change : Inventory Conn → Inventory Conn)
      → ((s : Inventory Conn) → S s → T (change s))
      → Runs (On P S) (λ _. On P T) F (write {Server = Server} change)
  unfolding write modify
  On-write change reason = record {
    at = λ p h. record { far = h.far; near = reason p.inventory h.near };
  }

  -- another predicate of the server
  pub On-far :
      {P Q : Server → Type 0} {S : Inventory Conn → Type 0}
      → ((s : Server) → P s → Q s)
      → (p : Process Server Conn) → On P S p
      → On Q S p
  On-far reason p h = record { far = reason p.server h.far; near = h.near }
