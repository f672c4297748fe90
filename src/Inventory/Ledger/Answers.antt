-- ===== src/Inventory/Ledger/Answers.antt =====
-- Every answer of a reservation of app/mysql_inventory.py agrees with the committed stock and rows.
use fcapsule_lab.Prelude.{
  ℕ, ◌≡◌, refl, sym, ◌∙◌, ap, arith, String, Bool, true, false, Option, none, some, ◌⊎◌, inl, inr,
  ◌==◌, eq_iff,
}
use fcapsule_lab.Prelude.Exec.{
  Exc, integrity_error, operational_error, pure, ◌>>◌, Runs, Runs-pure, Runs-bind, Runs-catch,
  Runs-branch, Runs-weaken,
}
use fcapsule_lab.Inventory.{
  Mode, Client, Process, write, remote, is_mysql, query_failure, record_request, record_failure,
}
use fcapsule_lab.Inventory.Reserve.{
  existing_owner, compare_owner, is_token, replay, conflict, count_replay, count_constraint,
  count_deadlock, is_deadlock, failure_of_code, failure_name, on_failure, attempt, refused,
}
use fcapsule_lab.Inventory.Ledger.{Ledger, Bank, IsTransactional, Runs-Some, On-remote, On-far}
use fcapsule_lab.Inventory.Ledger.Stands.{
  DidBook, MayBook, Stands, Stands-fits, Ready, none_pooled, write-On, unclean, managed-Stands,
  Stands-fits,
}
use fcapsule_lab.Inventory.Ledger.Booking.{Fits, response-Fits, statements-Ready, conclude-Ready}

is_token-eq :
    (order : String) (owner : Option String) → is_token order owner ≡ true → owner ≡ some order
unfolding is_token
is_token-eq order none h = absurd (ground (arith, h))
is_token-eq order (some t) h = ap some ((eq_iff t order).0 h)

module _ {Server Conn : Type 0} (client : Client Server Conn) (bank : Bank Server Conn)
    (laws : IsTransactional bank client) (m : Mode) (b : Bool) (token order : String)
    (l : Ledger) where
  -- what the row of the token says of the ledger; none where it could not be read
  Reads : Option String → Ledger → Type 0
  Reads owner k = MayBook token order l k × ((owner ≡ none) ⊎ (owner ≡ k.owners token))

  existing-Reads :
      Runs
        (Stands client bank laws m b (MayBook token order l) none)
        (λ owner. Stands client bank laws m b (Reads owner) none)
        (λ _. Stands client bank laws m b (MayBook token order l) none)
        (existing_owner client token)
  unfolding existing_owner Reads
  existing-Reads =
      Runs-catch {E = λ _. Stands client bank laws m b (MayBook token order l) none} is_mysql
        (managed-Stands client bank laws m b {Q = Reads} (λ c. remote (client.owner_row c token))
          (λ k h. h) (λ owner k h. h.0)
          λ c.
            Runs-weaken (unclean client bank laws m b c)
              (λ owner. On-far λ s h. record {
                ledger = h.ledger;
                fits = (h.fits, inr h.shown.1);
                shown = h.shown.0;
              })
              (λ _ p h. h) (On-remote (Runs-Some λ k h. laws.reads k c token)))
        (λ problem _. Runs-pure none λ p. Stands-fits client bank laws m b (λ k h. (h, inl refl)) p)
        λ problem _ p h. h

  refusal :
      {F : Exc → Process Server Conn → Type 0} (n : ℕ) (text : String)
      → n == 200 ≡ false
      → Runs
          (Stands client bank laws m b (MayBook token order l) none)
          (λ answer. Ready client bank laws m b (Fits token order l answer))
          F
          (pure (refused n text order))
  unfolding Fits
  refusal n text other = Runs-pure (refused n text order) λ p h.
      none_pooled client bank laws m b p (Stands-fits client bank laws m b (λ k h. rw other h) p h)

  compare-Fits :
      {F : Exc → Process Server Conn → Type 0} (schema : String) (owner : Option String)
      → Runs
          (Stands client bank laws m b (Reads owner) none)
          (λ answer. Ready client bank laws m b (Fits token order l answer))
          F
          (compare_owner client m schema order owner)
  unfolding compare_owner replay conflict record_request Reads
  compare-Fits schema owner =
      Runs-branch (is_token order owner)
        (λ same. Runs-bind (write-On client bank laws m b count_replay λ s. (refl, refl, refl)) λ _.
          Runs-bind (write-On client bank laws m b (record_request true) λ s. (refl, refl, refl))
            λ _. Runs-pure _ λ p h. none_pooled client bank laws m b p (
              Stands-fits client bank laws m b
                (λ k h.
                  response-Fits client bank laws m b token order l schema k
                    (owned k (is_token-eq order owner same) h))
                p h))
        λ _. Runs-bind (write-On client bank laws m b count_constraint λ s. (refl, refl, refl)) λ _.
          Runs-bind (write-On client bank laws m b (record_request false) λ s. (refl, refl, refl))
            λ _.
              Runs-weaken (Stands-fits client bank laws m b λ k h. h.0) (λ _ p h. h) (λ _ p h. h)
                (refusal 409 "reservation_conflict" refl)
    where
      owned :
          (k : Ledger)
          → owner ≡ some order
          → MayBook token order l k × ((owner ≡ none) ⊎ (owner ≡ k.owners token))
          → ((k ≡ l) × (l.owners token ≡ some order)) ⊎ DidBook token order l k
      owned k e (inr did, r) = inr did
      owned k e (inl same, inl unread) = absurd (ground (arith, e, unread))
      owned k e (inl same, inr row) = inl (same, ap (λ j. j.owners token) (sym same) ∙ sym row ∙ e)

  query_error-Fits :
      {F : Exc → Process Server Conn → Type 0}
      → Runs
          (Stands client bank laws m b (MayBook token order l) none)
          (λ answer. Ready client bank laws m b (Fits token order l answer))
          F
          (write {Server = Server} (record_request {Conn = Conn} false)
            >> (write (record_failure query_failure) >> pure (refused 503 "query_error" order)))
  unfolding record_request record_failure
  query_error-Fits =
      Runs-bind (write-On client bank laws m b (record_request false) λ s. (refl, refl, refl)) λ _.
        Runs-bind
          (write-On client bank laws m b (record_failure query_failure) λ s. (refl, refl, refl))
          λ _. refusal 503 "query_error" refl

  on_failure-Fits :
      (schema : String) (problem : Exc)
      → Runs
          (Stands client bank laws m b (MayBook token order l) none)
          (λ answer. Ready client bank laws m b (Fits token order l answer))
          (λ _. Stands client bank laws m b (MayBook token order l) none)
          (on_failure client m schema token order problem)
  unfolding on_failure record_request record_failure
  on_failure-Fits schema (integrity_error code) =
      Runs-bind existing-Reads λ owner. compare-Fits schema owner
  on_failure-Fits schema (operational_error code) =
      Runs-bind (write-On client bank laws m b (record_request false) λ s. (refl, refl, refl)) λ _.
        Runs-bind
          (write-On client bank laws m b (record_failure (failure_of_code code))
            λ s. (refl, refl, refl))
          λ _.
            Runs-bind
              (write-On client bank laws m b (count_deadlock (is_deadlock (failure_of_code code)))
                λ s. (refl, refl, refl))
              λ _. refusal 503 (failure_name (failure_of_code code)) refl
  on_failure-Fits schema problem = query_error-Fits

  pub attempt-Fits :
      (schema revision : String)
      → Runs
          (Ready client bank laws m b (λ k. k ≡ l))
          (λ answer. Ready client bank laws m b (Fits token order l answer))
          (λ _. Stands client bank laws m b (MayBook token order l) none)
          (attempt client m schema revision token order)
  unfolding attempt
  attempt-Fits schema revision =
      Runs-catch {E = λ _. Stands client bank laws m b (MayBook token order l) none} is_mysql
        (Runs-bind (statements-Ready client bank laws m b token order l revision)
          λ stocked. conclude-Ready client bank laws m b token order l schema stocked)
        (λ problem _. on_failure-Fits schema problem) λ problem _ p h. h
