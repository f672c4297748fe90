-- ===== src/Inventory/Ledger/Booking.antt =====
-- What a reservation of app/mysql_inventory.py does to the committed stock and rows.
use fcapsule_lab.Prelude.{
  ◌≡◌, ◌<◌, refl, subst, String, Bool, true, false, none, some, ◌⊎◌, inl, inr, ◌==◌, str_eq,
  if◌then◌else◌,
}
use fcapsule_lab.Prelude.Exec.{
  Exc, Runs, Runs-pure, Runs-bind, Runs-branch, Runs-weaken, Runs-assuming,
}
use fcapsule_lab.Inventory.{Mode, Client, Process, record_request}
use fcapsule_lab.Inventory.Sessions.{managed_reservation}
use fcapsule_lab.Inventory.Reserve.{
  is_normal, Answer, status_of, refused, accepted, reserved_v1, reserved_v2, is_response_contract,
  reservation_response, transact, without_stock, with_stock, conclude, own_collision,
}
use fcapsule_lab.Inventory.Ledger.{
  Ledger, book, Bank, Shows, ShowsClean, IsTransactional, On, On-remote, On-far,
}
use fcapsule_lab.Inventory.Ledger.Stands.{
  Rest, DidBook, MayBook, Stands, StandsClean, Ready, Ready-fits, write-Ready, write-On,
  managed_reservation-Ready,
}

-- The ledger `k` after an answer, where it was `l` before: a reservation that is accepted was there, or is there
-- now; one that is not accepted changed nothing, or was booked in full.
unfoldable pub Fits : String → String → Ledger → Answer → Ledger → Type 0
Fits token order l answer k =
    if status_of answer == 200
    then ((k ≡ l) × (l.owners token ≡ some order)) ⊎ DidBook token order l k
    else MayBook token order l k

status-response :
    (order schema : String) (mode : Mode) → status_of (reservation_response order schema mode) ≡ 200
unfolding reservation_response
status-response order schema mode = by_tests (is_response_contract mode) (str_eq schema "v2")
  where
    by_tests :
        (x y : Bool)
        → status_of
            (if x then accepted order else if y then reserved_v2 order else reserved_v1 order)
          ≡ 200
    by_tests true y = refl
    by_tests false true = refl
    by_tests false false = refl

module _ {Server Conn : Type 0} (client : Client Server Conn) (bank : Bank Server Conn)
    (laws : IsTransactional bank client) (m : Mode) (b : Bool) where
  -- the ledger after the statements, by whether stock remained
  abbrev Booked : String → String → Ledger → Bool → Ledger → Type 0
  Booked token order l true = DidBook token order l
  Booked token order l false = λ k. k ≡ l

  module _ (token order : String) (l : Ledger) (c : Conn) where
    unchanged :
        (p : Process Server Conn)
        → On (Shows bank l) (Rest m b none) p
        → Stands client bank laws m b (MayBook token order l) none p
    unchanged = On-far λ s h. record { ledger = l; fits = inl refl; shown = h }

    without-Booked :
        Runs
          (On (Shows bank l) (Rest m b none))
          (λ stocked. StandsClean client bank laws m b (Booked token order l stocked) c)
          (λ _. Stands client bank laws m b (MayBook token order l) none)
          (without_stock client c)
    unfolding without_stock record_request
    without-Booked =
        Runs-bind
          (Runs-weaken (λ p h. h) (λ _ p h. h) (λ _. unchanged) (On-remote (laws.rolls_back l c)))
          λ _.
            Runs-bind (write-On client bank laws m b (record_request false) λ s. (refl, refl, refl))
              λ _.
                Runs-pure false λ p. On-far (λ s h. record { ledger = l; fits = refl; shown = h }) p

    with-Booked :
        DidBook token order l (book token order l)
        → Runs
            (On (λ s. Shows bank l s × bank.Booked c token order s) (Rest m b none))
            (λ stocked. StandsClean client bank laws m b (Booked token order l stocked) c)
            (λ _. Stands client bank laws m b (MayBook token order l) none)
            (with_stock client c)
    unfolding with_stock
    with-Booked did =
        Runs-bind
          (Runs-weaken (λ p h. h) (λ _ p h. h) (λ _. either)
            (On-remote (laws.commits l c token order)))
          λ _. Runs-pure true λ p. On-far (λ s h. record { ledger = _; fits = did; shown = h }) p
      where
        either :
            (p : Process Server Conn)
            → On (λ s. Shows bank l s ⊎ Shows bank (book token order l) s) (Rest m b none) p
            → Stands client bank laws m b (MayBook token order l) none p
        either = On-far λ s h. elim h [
          | inl old ↦ record { ledger = l; fits = inl refl; shown = old }
          | inr new ↦ record { ledger = book token order l; fits = inr did; shown = new }
        ]

    transact-Booked :
        (revision : String)
        → Runs
            (On (ShowsClean bank l c) (Rest m b none))
            (λ stocked. StandsClean client bank laws m b (Booked token order l stocked) c)
            (λ _. Stands client bank laws m b (MayBook token order l) none)
            (transact client token order revision c)
    unfolding transact
    transact-Booked revision =
        Runs-bind
          (Runs-weaken (λ p h. h) (λ _ p h. h) (λ _. unchanged) (On-remote (laws.waits l c)))
          λ _.
            Runs-bind
              {R = λ _ p.
                (l.owners token ≡ none)
                × On (λ s. Shows bank l s × bank.Inserted c token order s) (Rest m b none) p}
              (Runs-weaken (λ p h. h)
                (λ _ p h. (h.far.2, record { far = (h.far.0, h.far.1); near = h.near }))
                (λ _. unchanged) (On-remote (laws.inserts l c token order)))
              λ _. Runs-assuming λ fresh.
                Runs-bind
                  (Runs-weaken (λ p h. h) (λ _ p h. h) (λ _. unchanged)
                    (On-remote (laws.takes l c token order (str_eq revision "v2"))))
                  λ rows.
                    Runs-branch (rows == 0)
                      (λ _.
                        Runs-weaken (On-far λ s h. h.0) (λ _ p h. h) (λ _ p h. h) without-Booked)
                      λ taken.
                        Runs-weaken
                          {P = λ p.
                            (0 < l.stock)
                            × On (λ s. Shows bank l s × bank.Booked c token order s) (Rest m b none)
                                p}
                          (λ p h. (
                            (h.far.1 taken).0,
                            record { far = (h.far.0, (h.far.1 taken).1); near = h.near },
                          ))
                          (λ _ p h. h) (λ _ p h. h)
                          (Runs-assuming λ stocked.
                            with-Booked
                              (record { result = refl; fresh = fresh; stocked = stocked }))

  module _ (token order : String) (l : Ledger) where
    pub response-Fits :
        (schema : String) (k : Ledger)
        → ((k ≡ l) × (l.owners token ≡ some order)) ⊎ DidBook token order l k
        → Fits token order l (reservation_response order schema m) k
    unfolding Fits
    response-Fits schema k h = rw (status-response order schema m) h

    Booked-MayBook :
        (stocked : Bool) (k : Ledger) → Booked token order l stocked k → MayBook token order l k
    Booked-MayBook true k h = inr h
    Booked-MayBook false k h = inl h

    pub statements-Ready :
        (revision : String)
        → Runs
            (Ready client bank laws m b (λ k. k ≡ l))
            (λ stocked. Ready client bank laws m b (Booked token order l stocked))
            (λ _. Stands client bank laws m b (MayBook token order l) none)
            (managed_reservation client (is_normal m) (transact client token order revision))
    statements-Ready revision =
        managed_reservation-Ready client bank laws m b (transact client token order revision)
          (λ k e. inl e) Booked-MayBook
          λ c.
            Runs-weaken (On-far λ s h. subst (λ k. ShowsClean bank k c s) h.fits h.shown)
              (λ _ p h. h) (λ _ p h. h) (transact-Booked token order l c revision)

    pub conclude-Ready :
        {F : Exc → Process Server Conn → Type 0} (schema : String) (stocked : Bool)
        → Runs
            (Ready client bank laws m b (Booked token order l stocked))
            (λ answer. Ready client bank laws m b (Fits token order l answer))
            F
            (conclude client m schema token order stocked)
    unfolding conclude own_collision record_request Fits
    conclude-Ready schema false =
        Runs-pure (refused 409 "out_of_stock" order) (Ready-fits client bank laws m b λ k h. inl h)
    conclude-Ready schema true =
        Runs-bind
          (write-Ready client bank laws m b (own_collision m token order) λ s. (refl, refl, refl))
          λ _.
            Runs-bind
              (write-Ready client bank laws m b (record_request true) λ s. (refl, refl, refl))
              λ _.
                Runs-pure _ (Ready-fits client bank laws m b λ k h. response-Fits schema k (inr h))
