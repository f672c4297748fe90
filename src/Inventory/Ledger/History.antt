-- ===== src/Inventory/Ledger/History.antt =====
-- reserve of app/mysql_inventory.py and the committed stock and rows: one reservation, a repeated one,
-- and any number of them.
use fcapsule_lab.Prelude.{
  ℕ, ◌≡◌, refl, sym, subst, String, Bool, false, none, inl, ◌==◌, str_eq, not,
}
use fcapsule_lab.Prelude.Exec.{
  Exc, pure, ◌>>◌, modify, Runs, Runs-pure, Runs-gets, Runs-bind, Runs-ensure, Runs-if, Runs-weaken,
  Runs-assuming,
}
use fcapsule_lab.Inventory.{
  Mode, Client, Process, write, record_request, transaction_started, transaction_finished,
}
use fcapsule_lab.Inventory.Reserve.{
  refused, attempt, admitted, admit, dismiss, unauthorized, busy, count_rejection, reserve,
  reservation_token,
}
use fcapsule_lab.Inventory.Ledger.{Ledger, Bank, IsTransactional}
use fcapsule_lab.Inventory.Ledger.Stands.{
  MayBook, Stands, Ready, Ready-fits, none_pooled, write-Ready,
}
use fcapsule_lab.Inventory.Ledger.Booking.{Fits}
use fcapsule_lab.Inventory.Ledger.Answers.{attempt-Fits}

module _ {Server Conn : Type 0} (client : Client Server Conn) (bank : Bank Server Conn)
    (laws : IsTransactional bank client) (m : Mode) (b : Bool) (safe_ref : String → String)
    (order : String) (l : Ledger) where
  module _ (token : String) where
    finished :
        {R : Ledger → Type 0} {F : Exc → Process Server Conn → Type 0}
        → Runs
            (Ready client bank laws m b R)
            (λ _. Ready client bank laws m b R)
            F
            (write {Server = Server} (transaction_finished {Conn = Conn}) >> write dismiss)
    unfolding transaction_finished
    finished =
        Runs-bind (write-Ready client bank laws m b transaction_finished λ s. (refl, refl, refl))
          λ _. write-Ready client bank laws m b dismiss λ s. (refl, refl, refl)

    admitted_first :
        {F : Exc → Process Server Conn → Type 0}
        → Runs
            (λ p.
              (reservation_token safe_ref order m p.inventory ≡ token)
              × Ready client bank laws m b (λ k. k ≡ l) p)
            (λ _ p.
              (reservation_token safe_ref order m p.inventory ≡ token)
              × Ready client bank laws m b (λ k. k ≡ l) p)
            F
            (write {Server = Server} admit)
    unfolding write modify reservation_token
    admitted_first {F} = record {
      at = λ p h.
          (h.0, (write-Ready client bank laws m b {F = F} admit λ s. (refl, refl, refl)).at p h.1);
    }

    admitted-Fits :
        (schema revision : String)
        → Runs
            (λ p.
              (reservation_token safe_ref order m p.inventory ≡ token)
              × Ready client bank laws m b (λ k. k ≡ l) p)
            (λ answer. Ready client bank laws m b (Fits token order l answer))
            (λ _. Ready client bank laws m b (MayBook token order l))
            (admitted client safe_ref m schema revision order)
    unfolding admitted transaction_started
    admitted-Fits schema revision =
        Runs-bind
          {R = λ _ p.
            (reservation_token safe_ref order m p.inventory ≡ token)
            × Ready client bank laws m b (λ k. k ≡ l) p}
          admitted_first
          λ _.
            Runs-bind {R = λ found p. (found ≡ token) × Ready client bank laws m b (λ k. k ≡ l) p}
              (Runs-gets (λ p. reservation_token safe_ref order m p.inventory) λ p h. h)
              λ found. Runs-assuming λ same.
                Runs-bind
                  (write-Ready client bank laws m b transaction_started λ s. (refl, refl, refl))
                  λ _.
                    Runs-ensure
                      (Runs-weaken (λ p h. h) (λ _ p h. h) (λ _. none_pooled client bank laws m b)
                        (subst
                          (λ t.
                            Runs (Ready client bank laws m b (λ k. k ≡ l))
                              (λ answer. Ready client bank laws m b (Fits token order l answer))
                              (λ _. Stands client bank laws m b (MayBook token order l) none)
                              (attempt client m schema revision t order))
                          (sym same)
                          (attempt-Fits client bank laws m b token order l schema revision)))
                      (λ _. finished) λ _. finished

    unchanged-Fits :
        {F : Exc → Process Server Conn → Type 0} (n : ℕ) (text : String)
        → n == 200 ≡ false
        → Runs
            (Ready client bank laws m b (λ k. k ≡ l))
            (λ answer. Ready client bank laws m b (Fits token order l answer))
            F
            (pure (refused n text order))
    unfolding Fits
    unchanged-Fits n text other =
        Runs-pure (refused n text order) (Ready-fits client bank laws m b λ k h. rw other (inl h))

    unauthorized-Fits :
        {F : Exc → Process Server Conn → Type 0}
        → Runs
            (Ready client bank laws m b (λ k. k ≡ l))
            (λ answer. Ready client bank laws m b (Fits token order l answer))
            F
            (unauthorized client order)
    unfolding unauthorized record_request
    unauthorized-Fits =
        Runs-bind (write-Ready client bank laws m b (record_request false) λ s. (refl, refl, refl))
          λ _. unchanged-Fits 401 "unauthorized" refl

    busy-Fits :
        {F : Exc → Process Server Conn → Type 0}
        → Runs
            (Ready client bank laws m b (λ k. k ≡ l))
            (λ answer. Ready client bank laws m b (Fits token order l answer))
            F
            (busy client order)
    unfolding busy record_request
    busy-Fits =
        Runs-bind (write-Ready client bank laws m b count_rejection λ s. (refl, refl, refl)) λ _.
          Runs-bind
            (write-Ready client bank laws m b (record_request false) λ s. (refl, refl, refl))
            λ _. unchanged-Fits 503 "inventory_busy" refl

    pub reserve-Fits :
        (key : String)
        → Runs
            (λ p.
              (reservation_token safe_ref order m p.inventory ≡ token)
              × Ready client bank laws m b (λ k. k ≡ l) p)
            (λ answer. Ready client bank laws m b (Fits token order l answer))
            (λ _. Ready client bank laws m b (MayBook token order l))
            (reserve client safe_ref order key)
    unfolding reserve
    reserve-Fits key =
        Runs-bind
          {R = λ s p.
            (s.failure_mode ≡ m)
            × ((reservation_token safe_ref order m p.inventory ≡ token)
                × Ready client bank laws m b (λ k. k ≡ l) p)}
          (Runs-gets (λ p. p.inventory) λ p h. (h.1.at_rest.near.mode, h))
          λ s. Runs-assuming λ same_mode.
            Runs-if (not (str_eq key s.settings.accepted_key_id))
              (Runs-weaken (λ p h. h.1) (λ _ p h. h) (λ _ p h. h) unauthorized-Fits)
              (Runs-if (s.free_slots == 0)
                (Runs-weaken (λ p h. h.1) (λ _ p h. h) (λ _ p h. h) busy-Fits)
                (in_mode s.failure_mode s.settings.response_schema s.settings.query_revision
                  same_mode))
      where
        in_mode :
            (n : Mode) (schema revision : String)
            → n ≡ m
            → Runs
                (λ p.
                  (reservation_token safe_ref order m p.inventory ≡ token)
                  × Ready client bank laws m b (λ k. k ≡ l) p)
                (λ answer. Ready client bank laws m b (Fits token order l answer))
                (λ _. Ready client bank laws m b (MayBook token order l))
                (admitted client safe_ref n schema revision order)
        in_mode n schema revision e = rw e (admitted-Fits schema revision)
