-- ===== src/Inventory/Ledger/Once.antt =====
-- Reservations of app/mysql_inventory.py are booked once, by one request and by any number of them.
use fcapsule_lab.Prelude.{
  ℕ, suc, ◌+◌, ◌≡◌, ◌≤◌, refl, sym, ◌∙◌, ap, subst, arith, String, Bool, true, false, some, ◌⊎◌,
  inl, inr, List, [], ◌∷◌, ◌==◌, str_eq, eq_iff, Bool-cases, if◌then◌else◌, length,
}
use fcapsule_lab.Prelude.Exec.{Result, ok, ok_inj, err, Outcome}
use fcapsule_lab.Inventory.{Mode, Client, Process}
use fcapsule_lab.Inventory.Reserve.{Answer, status_of, reserve, reservation_token}
use fcapsule_lab.Inventory.Ledger.{Ledger, book, Bank, Shows, IsTransactional}
use fcapsule_lab.Inventory.Ledger.Stands.{DidBook, MayBook, Ready, shown_ledger, known_ledger}
use fcapsule_lab.Inventory.Ledger.Booking.{Fits}
use fcapsule_lab.Inventory.Ledger.History.{reserve-Fits}

Fits-accepted :
    (token order : String) (l : Ledger) (answer : Answer) (k : Ledger)
    → Fits token order l answer k
    → status_of answer ≡ 200
    → ((k ≡ l) × (l.owners token ≡ some order)) ⊎ DidBook token order l k
unfolding Fits
Fits-accepted token order l answer k h e =
    subst
      (λ n.
        if n == 200
        then ((k ≡ l) × (l.owners token ≡ some order)) ⊎ DidBook token order l k
        else MayBook token order l k)
      e h

-- The ledgers that reservations lead to from `l`: each row is new, and takes one piece of stock.
pub data Books (l : Ledger) : Ledger → ℕ → Type 0 where
  start : Books l l 0
  next :
      {j k : Ledger} {n : ℕ} (token order : String)
      → Books l j n
      → DidBook token order j k
      → Books l k (suc n)

keeps_owner :
    (token order t o : String) (j k : Ledger)
    → DidBook token order j k
    → j.owners t ≡ some o
    → k.owners t ≡ some o
unfolding book
keeps_owner token order t o j k did h =
    ap (λ x. x.owners t) did.result ∙ elim (Bool-cases (str_eq t token)) [
      | inl e ↦
          absurd (
            ground (arith, did.fresh, h, subst (λ x. j.owners x ≡ some o) ((eq_iff t token).0 e) h))
      | inr e ↦ rw e h
    ]

Books-owners :
    {l k : Ledger} {n : ℕ} (t o : String) → Books l k n → l.owners t ≡ some o → k.owners t ≡ some o
Books-owners t o start h = h
Books-owners t o (next {j} {k} token order before did) h =
    keeps_owner token order t o j k did (Books-owners t o before h)

extended :
    {token order : String} {l j k : Ledger} {n : ℕ}
    → Books l j n
    → MayBook token order j k
    → (i : ℕ) × Books l k i × (i ≤ suc n)
extended {l = l} {n = n} so_far (inl same) =
    (n, subst (λ x. Books l x n) (sym same) so_far, omega arith)
extended {token} {order} {n = n} so_far (inr did) =
    (suc n, next token order so_far did, omega arith)

Books-stock : {l k : Ledger} {n : ℕ} → Books l k n → k.stock + n ≡ l.stock
unfolding book
Books-stock start = omega arith
Books-stock (next {j} {k} token order before did) =
    omega (arith, Books-stock before, ap (λ x. x.stock) did.result, did.stocked)

module _ {Server Conn : Type 0} (client : Client Server Conn) (bank : Bank Server Conn)
    (laws : IsTransactional bank client) (m : Mode) (b : Bool) (safe_ref : String → String) where
  -- Between two operations, with the committed ledger `l`.
  unfoldable pub Committed : Ledger → Process Server Conn → Type 0
  Committed l = Ready client bank laws m b λ k. k ≡ l

  Fits-MayBook :
      (token order : String) (l : Ledger) (answer : Answer) (k : Ledger)
      → Fits token order l answer k
      → MayBook token order l k
  unfolding Fits
  Fits-MayBook token order l answer k h = from_test (status_of answer == 200) h
    where
      from_test :
          (test : Bool)
          → (if test
              then ((k ≡ l) × (l.owners token ≡ some order)) ⊎ DidBook token order l k
              else MayBook token order l k)
          → MayBook token order l k
      from_test true (inl h) = inl h.0
      from_test true (inr h) = inr h
      from_test false h = h

  -- what a reservation leaves behind, by its outcome
  record Left (token order : String) (l : Ledger) (came : Result Answer)
      (after : Process Server Conn) (k : Ledger) : Type 0 where
    committed : Committed k after
    booked : MayBook token order l k
    answered : (answer : Answer) → came ≡ ok answer → Fits token order l answer k

  by_outcome :
      (token order : String) (l : Ledger) (came : Result Answer) (after : Process Server Conn)
      → Outcome
          (λ answer. Ready client bank laws m b (Fits token order l answer))
          (λ _. Ready client bank laws m b (MayBook token order l))
          came
          after
      → (k : Ledger) × Left token order l came after k
  unfolding Committed
  by_outcome token order l (ok answer) after h = (
    h.at_rest.far.ledger,
    record {
      committed = known_ledger client bank laws m b after h;
      booked = Fits-MayBook token order l answer h.at_rest.far.ledger h.at_rest.far.fits;
      answered = λ other e.
          subst (λ a. Fits token order l a h.at_rest.far.ledger) (ok_inj answer other e)
            h.at_rest.far.fits;
    },
  )
  by_outcome token order l (err problem) after h = (
    h.at_rest.far.ledger,
    record {
      committed = known_ledger client bank laws m b after h;
      booked = h.at_rest.far.fits;
      answered = λ other e. absurd (ground (arith, e));
    },
  )

  reserve-Left :
      (order key : String) (l : Ledger) (p : Process Server Conn)
      → Committed l p
      → (k : Ledger) × Left
          (reservation_token safe_ref order m p.inventory)
          order
          l
          (reserve client safe_ref order key p).0
          (reserve client safe_ref order key p).1
          k
  unfolding Committed
  reserve-Left order key l p h = by_outcome _ order l _ _ (
      (reserve-Fits client bank laws m b safe_ref order l
          (reservation_token safe_ref order m p.inventory) key).at
        p (refl, h))

  -- For a server that is transactional, between two operations: a reservation, whether it answers or raises,
  -- leaves the committed ledger as it was, or with one row more, that of its token and order, which was not there, and
  -- one piece of stock less, of which there was one; and where it answers 200, the row was there or is there now.
  pub reserve-books :
      (order key : String) (l : Ledger) (p : Process Server Conn)
      → Committed l p
      → (k : Ledger) × Shows bank k (reserve client safe_ref order key p).1.server
        × MayBook (reservation_token safe_ref order m p.inventory) order l k
        × ((answer : Answer)
            → (reserve client safe_ref order key p).0 ≡ ok answer
            → Fits (reservation_token safe_ref order m p.inventory) order l answer k)
  unfolding Committed
  reserve-books order key l p h =
      let (k, left) = reserve-Left order key l p h in
      (k, shown_ledger client bank laws m b k _ left.committed, left.booked, left.answered)

  -- For a server that is transactional, between two operations, where the request's token has a row already: a
  -- reservation leaves the committed ledger as it was, and answers 200 to the row's owner only.
  pub reserve-once :
      (order key owner : String) (l : Ledger) (p : Process Server Conn)
      → Committed l p
      → l.owners (reservation_token safe_ref order m p.inventory) ≡ some owner
      → Shows bank l (reserve client safe_ref order key p).1.server
        × ((answer : Answer)
            → (reserve client safe_ref order key p).0 ≡ ok answer
            → status_of answer ≡ 200
            → owner ≡ order)
  unfolding Committed Fits
  reserve-once order key owner l p h there =
      let token = reservation_token safe_ref order m p.inventory in
      let (k, left) = reserve-Left order key l p h in
      (
        subst (λ j. Shows bank j (reserve client safe_ref order key p).1.server)
            (same k left.booked) (shown_ledger client bank laws m b k _ left.committed),
        λ answer e ok_status.
            owned k (Fits-accepted token order l answer k (left.answered answer e) ok_status),
      )
    where
      not_fresh :
          (k : Ledger) → DidBook (reservation_token safe_ref order m p.inventory) order l k → ⊥
      not_fresh k did = ground (arith, did.fresh, there)

      same :
          (k : Ledger) → MayBook (reservation_token safe_ref order m p.inventory) order l k → k ≡ l
      same k (inl e) = e
      same k (inr did) = absurd (not_fresh k did)

      owned :
          (k : Ledger)
          → ((k ≡ l) × (l.owners (reservation_token safe_ref order m p.inventory) ≡ some order))
            ⊎ DidBook (reservation_token safe_ref order m p.inventory) order l k
          → owner ≡ order
      owned k (inl (_, e)) = ground (arith, there, e)
      owned k (inr did) = absurd (not_fresh k did)

  -- Requests one after another, each an order and a signing key; some may raise.
  unfoldable pub serve_all : List (String × String) → Process Server Conn → Process Server Conn
  serve_all [] p = p
  serve_all ((order, key) ∷ l) p = serve_all l (reserve client safe_ref order key p).1

  serve_all-Books :
      (requests : List (String × String)) (l j : Ledger) (n : ℕ) (p : Process Server Conn)
      → Committed j p
      → Books l j n
      → (k : Ledger) × (i : ℕ) × Committed k (serve_all requests p)
        × Books l k i
        × (i ≤ n + length requests)
  unfolding serve_all
  serve_all-Books [] l j n p h so_far = (j, n, h, so_far, omega arith)
  serve_all-Books ((order, key) ∷ rest) l j n p h so_far =
      let (k, left) = reserve-Left order key j p h in
      let (i, books, few) = extended so_far left.booked in
      let (last, count, committed, all, bound) =
        serve_all-Books rest l k i (reserve client safe_ref order key p).1 left.committed books in
      (last, count, committed, all, omega (arith, few, bound))

  -- For a server that is transactional, between two operations: any number of reservations, whatever they answer or
  -- raise, lead to a committed ledger by new rows of one piece of stock each, at most one a request; so the stock
  -- and the new rows add up to the stock before, and a row that was there keeps its owner.
  pub serve_all-refines :
      (requests : List (String × String)) (l : Ledger) (p : Process Server Conn)
      → Committed l p
      → (k : Ledger) × (n : ℕ) × Shows bank k (serve_all requests p).server
        × Books l k n
        × (n ≤ length requests)
        × (k.stock + n ≡ l.stock)
        × ((token owner : String) → l.owners token ≡ some owner → k.owners token ≡ some owner)
  unfolding Committed
  serve_all-refines requests l p h =
      let (k, n, committed, books, bound) = serve_all-Books requests l l 0 p h start in
      (
        k,
        n,
        shown_ledger client bank laws m b k _ committed,
        books,
        omega (arith, bound),
        Books-stock books,
        λ token owner there. Books-owners token owner books there,
      )
