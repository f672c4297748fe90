-- ===== src/Inventory/Examples/Server.antt =====
-- A small server with one connection at a time, which answers as the inventory service of
-- app/mysql_inventory.py relies on.
use fcapsule_lab.Prelude.{
  ℕ, ◌-◌, ◌≡◌, ◌<◌, refl, sym, ◌∙◌, ap, subst, arith, String, Bool, true, false, Option, none, some,
  [], ◌∷◌, ◌==◌, str_eq, if◌then◌else◌, ltb, ltb→lt,
}
use fcapsule_lab.Prelude.Exec.{Exc, integrity_error, Result, ok, err, Exec, Runs, Outcome}
use fcapsule_lab.Inventory.{Statement, insert_reservation, take_stock, Client, is_mysql}
use fcapsule_lab.Inventory.Balance.{IsDocumented}
use fcapsule_lab.Inventory.Ledger.{Ledger, book, Bank, Shows, ShowsClean, IsTransactional}

problem_of : Result ℕ → Exc
problem_of (ok a) = Exc.other_error
problem_of (err problem) = problem

pub data Pending : Type 0 where
  idle : Pending
  row booked : String → String → Pending

pub record Db : Type 0 where
  pub owners : String → Option String
  pub stock : ℕ
  pub pending : Pending

unfoldable pub end_transaction : Db → Db
end_transaction s = record s { pending = idle }

unfoldable pub applied : Pending → Db → Db
applied idle s = s
applied (row token order) s = s
applied (booked token order) s = record s {
  owners = λ t. if str_eq t token then some order else s.owners t;
  stock = s.stock - 1;
}

abbrev pub insert_new : Option String → String → String → Exec Db ℕ
insert_new none token order s = (ok 1, record s { pending = row token order })
insert_new (some owner) token order s = (err (integrity_error 1062), s)

unfoldable pub insert : String → String → Exec Db ℕ
insert token order s = insert_new (s.owners token) token order s

abbrev pub take_left : Bool → String → String → Exec Db ℕ
take_left true token order s = (ok 1, record s { pending = booked token order })
take_left false token order s = (ok 0, s)

unfoldable pub take : Pending → Exec Db ℕ
take (row token order) s = take_left (ltb 0 s.stock) token order s
take other s = (ok 0, s)

unfoldable pub statement : Statement → Exec Db ℕ
unfolding insert take
statement (insert_reservation token order) = insert token order
statement (take_stock v2) = λ s. take s.pending s
statement other = λ s. (ok 0, s)

unfoldable pub db_client : Client Db ℕ
unfolding end_transaction statement applied
db_client = record {
  connect = λ s. (ok 0, end_transaction s);
  ping = λ c s. (ok tt, s);
  close = λ c s. (ok tt, end_transaction s);
  execute = λ c. statement;
  owner_row = λ c token s. (ok (s.owners token), s);
  reserved_column = λ c s. (ok false, s);
  threads_connected = λ c s. (ok 3, s);
  max_connections = λ c s. (ok 40, s);
  item_columns = λ c s. (ok ("quantity" ∷ "sku" ∷ []), s);
  commit = λ c s. (ok tt, end_transaction (applied s.pending s));
  rollback = λ c s. (ok tt, end_transaction s);
}

statement_fails :
    (what : Statement) (s : Db) (problem : Exc)
    → (statement what s).0 ≡ err problem
    → is_mysql problem ≡ true
unfolding statement insert take problem_of
statement_fails (insert_reservation token order) s problem h = inserting (s.owners token) h
  where
    inserting :
        (found : Option String)
        → (insert_new found token order s).0 ≡ err problem
        → is_mysql problem ≡ true
    inserting (some owner) h = sym (ap (λ r. is_mysql (problem_of r)) h)
    inserting none h = absurd (ground (arith, h))
statement_fails (take_stock v2) s problem h = taking s.pending h
  where
    from_stock :
        (left : Bool) (token order : String)
        → (take_left left token order s).0 ≡ err problem
        → is_mysql problem ≡ true
    from_stock true token order h = absurd (ground (arith, h))
    from_stock false token order h = absurd (ground (arith, h))

    taking : (p : Pending) → (take p s).0 ≡ err problem → is_mysql problem ≡ true
    taking (row token order) h = from_stock (ltb 0 s.stock) token order h
    taking idle h = absurd (ground (arith, h))
    taking (booked token order) h = absurd (ground (arith, h))
statement_fails other s problem h = absurd (ground (arith, h))

pub db_client-IsDocumented : IsDocumented db_client
unfolding db_client
db_client-IsDocumented = record {
  ping_fails = λ c s problem h. absurd (ground (arith, h));
  close_fails = λ c s problem h. absurd (ground (arith, h));
  execute_fails = λ c what s problem h. statement_fails what s problem h;
}

unfoldable pub db_bank : Bank Db ℕ
db_bank = record {
  owner = λ t s. s.owners t;
  quantity = λ s. s.stock;
  Clean = λ c s. s.pending ≡ idle;
  Inserted = λ c token order s. s.pending ≡ row token order;
  Booked = λ c token order s. s.pending ≡ booked token order;
}

still :
    (l : Ledger) (s : Db) (p : Pending)
    → Shows db_bank l s
    → Shows db_bank l (record s { pending = p })
unfolding db_bank
still l s p h = record { owners = h.owners; stock = h.stock }

inserts_lem :
    (l : Ledger) (token order : String)
    → Runs
        (λ s. ShowsClean db_bank l 0 s)
        (λ _ s. Shows db_bank l s × (s.pending ≡ row token order) × (l.owners token ≡ none))
        (λ _. Shows db_bank l)
        (insert token order)
unfolding insert db_bank
inserts_lem l token order = record { at = λ s h. inserting s h.0 (s.owners token) refl }
  where
    inserting :
        (s : Db)
        → Shows db_bank l s
        → (found : Option String) → s.owners token ≡ found
        → Outcome
            (λ _ t. Shows db_bank l t × (t.pending ≡ row token order) × (l.owners token ≡ none))
            (λ _. Shows db_bank l)
            (insert_new found token order s).0
            (insert_new found token order s).1
    inserting s h none e = (still l s (row token order) h, refl, sym (h.owners token) ∙ e)
    inserting s h (some o) e = h

takes_lem :
    (l : Ledger) (token order : String)
    → Runs
        (λ s. Shows db_bank l s × (s.pending ≡ row token order))
        (λ rows s.
          Shows db_bank l s
          × (rows == 0 ≡ false → (0 < l.stock) × (s.pending ≡ booked token order)))
        (λ _. Shows db_bank l)
        (λ s. take s.pending s)
unfolding take db_bank
takes_lem l token order = record {
  at = λ s h.
      subst
        (λ q.
          Outcome
            (λ rows t.
              Shows db_bank l t
              × (rows == 0 ≡ false → (0 < l.stock) × (t.pending ≡ booked token order)))
            (λ _. Shows db_bank l) (take q s).0 (take q s).1)
        (sym h.1) (taking s h.0 (ltb 0 s.stock) refl);
}
  where
    taking :
        (s : Db)
        → Shows db_bank l s
        → (left : Bool) → ltb 0 s.stock ≡ left
        → Outcome
            (λ rows t.
              Shows db_bank l t
              × (rows == 0 ≡ false → (0 < l.stock) × (t.pending ≡ booked token order)))
            (λ _. Shows db_bank l)
            (take_left left token order s).0
            (take_left left token order s).1
    taking s h true e =
        (still l s (booked token order) h, λ _. (omega (arith, h.stock, ltb→lt 0 s.stock e), refl))
    taking s h false e = (h, λ none_taken. absurd (ground (arith, none_taken)))

pub db_client-IsTransactional : IsTransactional db_bank db_client
unfolding db_client db_bank statement end_transaction applied book
db_client-IsTransactional = record {
  connects = λ l. record { at = λ s h. (still l s idle h, refl) };
  pings = λ l c. record { at = λ s h. h };
  closes = λ l c. record { at = λ s h. still l s idle h };
  waits = λ l c. record { at = λ s h. h };
  inserts = λ l c token order. inserts_lem l token order;
  takes = λ l c token order v2. takes_lem l token order;
  commits = λ l c token order. record {
    at = λ s h. rw h.1 (
      record {
        owners = λ t. ap (λ o. if str_eq t token then some order else o) (h.0.owners t);
        stock = ap (λ n. n - 1) h.0.stock;
      },
      refl,
    );
  };
  rolls_back = λ l c. record { at = λ s h. (still l s idle h, refl) };
  reads = λ l c token. record { at = λ s h. (h, h.owners token) };
}
