-- ===== src/Inventory/Ledger/Stands.antt =====
-- The connections of app/mysql_inventory.py leave the committed stock and rows to what runs on them.
use fcapsule_lab.Prelude.{
  ◌≡◌, ◌<◌, refl, sym, ◌∙◌, subst, arith, String, Bool, true, false, Option, none, some, ◌⊎◌, ◌&&◌,
  if◌then◌else◌,
}
use fcapsule_lab.Prelude.Exec.{
  Exc, Runs, Runs-pure, Runs-raise, Runs-gets, Runs-modify, Runs-bind, Runs-catch, Runs-ensure,
  Runs-branch, Runs-weaken, Runs-assuming,
}
use fcapsule_lab.Inventory.{Mode, Inventory, Client, Process, write, is_mysql_or_os}
use fcapsule_lab.Inventory.Sessions.{
  Act, connect, opened, close_connection, closed, discard, managed, pinged, or_connect, give_back,
  kept, borrow, reuse, managed_reservation, taken,
}
use fcapsule_lab.Inventory.Reserve.{is_normal}
use fcapsule_lab.Inventory.Ledger.{
  Ledger, book, Bank, Shows, ShowsClean, IsTransactional, Some, Runs-Some, On, On-remote, On-write,
  On-far,
}

-- What the process keeps as it is: its mode, and the pooled connection with its flag.
pub record Rest {Conn : Type 0} (m : Mode) (b : Bool) (found : Option Conn) (s : Inventory Conn)
    : Type 0 where
  pub mode : s.failure_mode ≡ m
  pub enabled : s.normal_connection_enabled ≡ b
  pub pool : s.normal_connection ≡ found

-- the ledger `k` is `l` with the reservation, which it did not have before
pub record DidBook (token order : String) (l k : Ledger) : Type 0 where
  pub result : k ≡ book token order l
  pub fresh : l.owners token ≡ none
  pub stocked : 0 < l.stock

abbrev pub MayBook : String → String → Ledger → Ledger → Type 0
MayBook token order l k = (k ≡ l) ⊎ DidBook token order l k

module _ {Server Conn : Type 0} (client : Client Server Conn) (bank : Bank Server Conn)
    (laws : IsTransactional bank client) (m : Mode) (b : Bool) where
  -- the committed ledger satisfies `R`, and the process is at rest
  abbrev pub Stands : (Ledger → Type 0) → Option Conn → Process Server Conn → Type 0
  Stands R found = On (Some R (Shows bank)) (Rest m b found)

  abbrev pub StandsClean : (Ledger → Type 0) → Conn → Process Server Conn → Type 0
  StandsClean R c = On (Some R (λ l. ShowsClean bank l c)) (Rest m b none)

  pub write-On :
      {P : Server → Type 0} {found : Option Conn} {F : Exc → Process Server Conn → Type 0}
      (change : Inventory Conn → Inventory Conn)
      → ((s : Inventory Conn)
          → ((change s).failure_mode ≡ s.failure_mode)
            × ((change s).normal_connection_enabled ≡ s.normal_connection_enabled)
            × ((change s).normal_connection ≡ s.normal_connection))
      → Runs (On P (Rest m b found)) (λ _. On P (Rest m b found)) F (write {Server = Server} change)
  write-On change same = On-write change λ s h.
      let (e₁, e₂, e₃) = same s in
      record { mode = e₁ ∙ h.mode; enabled = e₂ ∙ h.enabled; pool = e₃ ∙ h.pool }

  module _ {R : Ledger → Type 0} {found : Option Conn} where
    pub connect-Stands :
        Runs
          (Stands R found)
          (λ c. On (Some R (λ l. ShowsClean bank l c)) (Rest m b found))
          (λ _. Stands R found)
          (connect client)
    unfolding connect opened
    connect-Stands = Runs-bind (On-remote (Runs-Some λ l r. laws.connects l)) λ c.
        Runs-bind {R = λ _. On (Some R (λ l. ShowsClean bank l c)) (Rest m b found)}
          (write-On (opened client) λ s. (refl, refl, refl)) λ _. Runs-pure c λ p h. h

    pub close-Stands :
        (c : Conn)
        → Runs
            (Stands R found)
            (λ _. Stands R found)
            (λ _. Stands R found)
            (close_connection client c)
    unfolding close_connection closed
    close-Stands c =
        Runs-ensure (On-remote (Runs-Some λ l r. laws.closes l c))
          (λ _. write-On (closed client) λ s. (refl, refl, refl))
          λ _. write-On (closed client) λ s. (refl, refl, refl)

    pub discard-Stands :
        (c : Conn)
        → Runs (Stands R found) (λ _. Stands R found) (λ _. Stands R found) (discard client c)
    unfolding discard
    discard-Stands c =
        Runs-catch is_mysql_or_os (close-Stands c) (λ problem _. Runs-pure tt λ p h. h)
          λ problem _ p h. h

    -- the cleanliness of a connection forgotten
    pub unclean :
        (c : Conn) (p : Process Server Conn)
        → On (Some R (λ l. ShowsClean bank l c)) (Rest m b found) p
        → Stands R found p
    unclean c = On-far λ s h. record { ledger = h.ledger; fits = h.fits; shown = h.shown.0 }

  -- another fact of the ledger
  pub Stands-fits :
      {R R' : Ledger → Type 0} {found : Option Conn}
      → ((l : Ledger) → R l → R' l)
      → (p : Process Server Conn) → Stands R found p
      → Stands R' found p
  Stands-fits reason =
      On-far λ s h. record { ledger = h.ledger; fits = reason h.ledger h.fits; shown = h.shown }

  pub managed-Stands :
      {A : Type 0} {R E : Ledger → Type 0} {Q : A → Ledger → Type 0} {found : Option Conn}
      (body : Conn → Act client A)
      → ((l : Ledger) → R l → E l)
      → ((a : A) (l : Ledger) → Q a l → E l)
      → ((c : Conn)
          → Runs
              (On (Some R (λ l. ShowsClean bank l c)) (Rest m b found))
              (λ a. Stands (Q a) found)
              (λ _. Stands E found)
              (body c))
      → Runs (Stands R found) (λ a. Stands (Q a) found) (λ _. Stands E found) (managed client body)
  unfolding managed
  managed-Stands {A} {R} {E} {Q} {found} body weaker also each =
      Runs-bind (Runs-weaken (λ p h. h) (λ _ p h. h) (λ _. Stands-fits weaker) connect-Stands) λ c.
        Runs-ensure {R = λ a. Stands (Q a) found} {E = λ _. Stands E found} (each c)
          (λ a. Runs-weaken (λ p h. h) (λ _ p h. h) (λ _. Stands-fits (also a)) (close-Stands c))
          λ _. close-Stands c

  -- the pooled connection is in no transaction
  abbrev ShowsPooled : Option Conn → Ledger → Server → Type 0
  ShowsPooled none l = Shows bank l
  ShowsPooled (some c) l = ShowsClean bank l c

  -- between two operations; only the normal mode pools
  pub record Ready (R : Ledger → Type 0) (p : Process Server Conn) : Type 0 where
    pub pooled : Option Conn
    pub at_rest : On (Some R (ShowsPooled pooled)) (Rest m b pooled) p
    pub pools : is_normal m && b ≡ false → pooled ≡ none

  pub Ready-fits :
      {R R' : Ledger → Type 0}
      → ((l : Ledger) → R l → R' l)
      → (p : Process Server Conn) → Ready R p
      → Ready R' p
  Ready-fits reason p h = record {
    pooled = h.pooled;
    at_rest =
        On-far (λ s k. record { ledger = k.ledger; fits = reason k.ledger k.fits; shown = k.shown })
          p h.at_rest;
    pools = h.pools;
  }

  pub shown_ledger :
      (l : Ledger) (p : Process Server Conn) → Ready (λ k. k ≡ l) p → Shows bank l p.server
  shown_ledger l p h =
      subst (λ k. Shows bank k p.server) h.at_rest.far.fits
        (from_pooled h.pooled h.at_rest.far.ledger h.at_rest.far.shown)
    where
      from_pooled :
          (found : Option Conn) (k : Ledger) → ShowsPooled found k p.server → Shows bank k p.server
      from_pooled none k h = h
      from_pooled (some c) k h = h.0

  -- the committed ledger of a state
  pub known_ledger :
      {R : Ledger → Type 0} (p : Process Server Conn) (h : Ready R p)
      → Ready (λ k. k ≡ h.at_rest.far.ledger) p
  known_ledger p h = record {
    pooled = h.pooled;
    at_rest = record {
      far = record { ledger = h.at_rest.far.ledger; fits = refl; shown = h.at_rest.far.shown };
      near = h.at_rest.near;
    };
    pools = h.pools;
  }

  pub write-Ready :
      {R : Ledger → Type 0} {F : Exc → Process Server Conn → Type 0}
      (change : Inventory Conn → Inventory Conn)
      → ((s : Inventory Conn)
          → ((change s).failure_mode ≡ s.failure_mode)
            × ((change s).normal_connection_enabled ≡ s.normal_connection_enabled)
            × ((change s).normal_connection ≡ s.normal_connection))
      → Runs (Ready R) (λ _. Ready R) F (write {Server = Server} change)
  unfolding write
  write-Ready change same =
      Runs-modify (λ p. record p { inventory = change p.inventory })
        λ p h.
          let (e₁, e₂, e₃) = same p.inventory in
          record {
            pooled = h.pooled;
            at_rest = record {
              far = h.at_rest.far;
              near = record {
                mode = e₁ ∙ h.at_rest.near.mode;
                enabled = e₂ ∙ h.at_rest.near.enabled;
                pool = e₃ ∙ h.at_rest.near.pool;
              };
            };
            pools = h.pools;
          }

  pub none_pooled : {R : Ledger → Type 0} (p : Process Server Conn) → Stands R none p → Ready R p
  none_pooled p h = record { pooled = none; at_rest = h; pools = λ _. refl }

  give_back-Ready :
      {R : Ledger → Type 0} (c : Conn)
      → is_normal m ≡ true
      → Runs (StandsClean R c) (λ _. Ready R) (λ _. Stands R none) (give_back client c)
  unfolding give_back write
  give_back-Ready {R} c normal_mode =
      Runs-bind {R = λ enabled p. (enabled ≡ b) × StandsClean R c p}
        (Runs-gets (λ p. p.inventory.normal_connection_enabled) λ p h. (h.near.enabled, h))
        λ enabled. Runs-assuming λ e.
          Runs-branch enabled
            (λ on.
              Runs-modify (λ p. record p { inventory = kept client c p.inventory })
                λ p h. record {
                  pooled = some c;
                  at_rest = record {
                    far = h.far;
                    near = record { mode = h.near.mode; enabled = h.near.enabled; pool = refl };
                  };
                  pools = λ off. absurd (ground (arith, e, on, off, normal_mode));
                })
            λ _. Runs-weaken (unclean c) (λ _. none_pooled) (λ _ p h. h) (discard-Stands c)

  -- the pooled connection, once it is taken out
  pub Found : (Ledger → Type 0) → Option Conn → Process Server Conn → Type 0
  Found R found = On (Some R (ShowsPooled found)) (Rest m b none)

  pinged-Found :
      {R : Ledger → Type 0} (found : Option Conn)
      → Runs (Found R found) (λ alive. Found R alive) (λ _. Stands R none) (pinged client found)
  unfolding pinged Found
  pinged-Found none = Runs-pure none λ p h. h
  pinged-Found (some c) =
      Runs-catch is_mysql_or_os
        (Runs-bind (On-remote (Runs-Some λ l r. laws.pings l c)) λ _. Runs-pure (some c) λ p h. h)
        (λ problem _. Runs-bind (discard-Stands c) λ _. Runs-pure none λ p h. h) λ problem _ p h. h

  or_connect-Found :
      {R : Ledger → Type 0} (alive : Option Conn)
      → Runs (Found R alive) (λ c. StandsClean R c) (λ _. Stands R none) (or_connect client alive)
  unfolding Found
  or_connect-Found none = connect-Stands
  or_connect-Found (some c) = Runs-pure c λ p h. h

  borrow-Ready :
      {A : Type 0} {R E : Ledger → Type 0} {Q : A → Ledger → Type 0} (body : Conn → Act client A)
      (c : Conn)
      → is_normal m ≡ true
      → ((a : A) (l : Ledger) → Q a l → E l)
      → Runs (StandsClean R c) (λ a. StandsClean (Q a) c) (λ _. Stands E none) (body c)
      → Runs (StandsClean R c) (λ a. Ready (Q a)) (λ _. Stands E none) (borrow client body c)
  unfolding borrow
  borrow-Ready {A} {R} {E} {Q} body c normal_mode also runs =
      Runs-bind {R = λ a. StandsClean (Q a) c}
        (Runs-catch (λ _. true) runs
          (λ problem _.
            Runs-bind {R = λ _. Stands E none} (discard-Stands c) λ _. Runs-raise problem λ p h. h)
          λ problem e p h. absurd (ground (arith, e)))
        λ a.
          Runs-bind {R = λ _. Ready (Q a)}
            (Runs-weaken (λ p h. h) (λ _ p h. h) (λ _. Stands-fits (also a))
              (give_back-Ready c normal_mode))
            λ _. Runs-pure a λ p h. h

  reuse-Ready :
      {A : Type 0} {R E : Ledger → Type 0} {Q : A → Ledger → Type 0} (body : Conn → Act client A)
      (found : Option Conn)
      → is_normal m ≡ true
      → ((l : Ledger) → R l → E l)
      → ((a : A) (l : Ledger) → Q a l → E l)
      → ((c : Conn)
          → Runs (StandsClean R c) (λ a. StandsClean (Q a) c) (λ _. Stands E none) (body c))
      → Runs (Found R found) (λ a. Ready (Q a)) (λ _. Stands E none) (reuse client body found)
  unfolding reuse
  reuse-Ready {A} {R} {E} {Q} body found normal_mode weaker also each =
      Runs-bind (Runs-weaken (λ p h. h) (λ _ p h. h) (λ _. Stands-fits weaker) (pinged-Found found))
        λ alive.
          Runs-bind
            (Runs-weaken (λ p h. h) (λ _ p h. h) (λ _. Stands-fits weaker) (or_connect-Found alive))
            λ c. borrow-Ready body c normal_mode also (each c)

  when_none :
      {R : Ledger → Type 0} (p : Process Server Conn) (h : Ready R p)
      → h.pooled ≡ none
      → Stands R none p
  when_none {R} p h e = subst (λ o. On (Some R (ShowsPooled o)) (Rest m b o) p) e h.at_rest

  takes_out :
      {R : Ledger → Type 0} (enabled : Bool) (found : Option Conn) (p : Process Server Conn)
      → enabled ≡ b
      → (h : Ready R p) → h.pooled ≡ found
      → (if enabled then Found R found else Stands R none)
          (record p { inventory = taken client p.inventory })
  unfolding taken Found
  takes_out {R} true found p on h same =
      let at_found = subst (λ o. On (Some R (ShowsPooled o)) (Rest m b o) p) same h.at_rest in
      record {
        far = at_found.far;
        near = record {
          mode = h.at_rest.near.mode;
          enabled = h.at_rest.near.enabled;
          pool = rw (h.at_rest.near.enabled ∙ sym on) refl;
        };
      }
  takes_out {R} false found p on h same =
      let rests = when_none p h (h.pools (ground (arith, on))) in
      record {
        far = rests.far;
        near = record {
          mode = rests.near.mode;
          enabled = rests.near.enabled;
          pool = rw (rests.near.enabled ∙ sym on) rests.near.pool;
        };
      }

  pub managed_reservation-Ready :
      {A : Type 0} {R E : Ledger → Type 0} {Q : A → Ledger → Type 0} (body : Conn → Act client A)
      → ((l : Ledger) → R l → E l)
      → ((a : A) (l : Ledger) → Q a l → E l)
      → ((c : Conn)
          → Runs (StandsClean R c) (λ a. StandsClean (Q a) c) (λ _. Stands E none) (body c))
      → Runs
          (Ready R)
          (λ a. Ready (Q a))
          (λ _. Stands E none)
          (managed_reservation client (is_normal m) body)
  unfolding managed_reservation taken write
  managed_reservation-Ready {A} {R} {E} {Q} body weaker also each = by_mode (is_normal m) refl
    where
      managed_plainly :
          Runs (Stands R none) (λ a. Ready (Q a)) (λ _. Stands E none) (managed client body)
      managed_plainly =
          Runs-weaken (λ p h. h) (λ _. none_pooled) (λ _ p h. h)
            (managed-Stands body weaker also
              λ c. Runs-weaken (λ p h. h) (λ a. unclean c) (λ _ p h. h) (each c))

      by_flag :
          (enabled : Bool) (found : Option Conn)
          → is_normal m ≡ true
          → Runs
              (if enabled then Found R found else Stands R none)
              (λ a. Ready (Q a))
              (λ _. Stands E none)
              (if enabled then reuse client body found else managed client body)
      by_flag true found e = reuse-Ready body found e weaker also each
      by_flag false found e = managed_plainly

      by_mode :
          (mode : Bool)
          → is_normal m ≡ mode
          → Runs
              (Ready R)
              (λ a. Ready (Q a))
              (λ _. Stands E none)
              (managed_reservation client mode body)
      by_mode false e =
          Runs-weaken (λ p h. when_none p h (h.pools (ground (arith, e)))) (λ _ p h. h) (λ _ p h. h)
            managed_plainly
      by_mode true e =
          Runs-bind {R = λ enabled p. (enabled ≡ b) × Ready R p}
            (Runs-gets (λ p. p.inventory.normal_connection_enabled)
              λ p h. (h.at_rest.near.enabled, h))
            λ enabled. Runs-assuming λ on.
              Runs-bind {R = λ found p. (h : Ready R p) × (h.pooled ≡ found)}
                (Runs-gets (λ p. p.inventory.normal_connection) λ p h. (h, sym h.at_rest.near.pool))
                λ found.
                  Runs-bind {R = λ _. if enabled then Found R found else Stands R none}
                    (Runs-modify (λ p. record p { inventory = taken client p.inventory })
                      λ p (h, same). takes_out enabled found p on h same)
                    λ _. by_flag enabled found e
