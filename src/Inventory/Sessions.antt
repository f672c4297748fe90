-- ===== src/Inventory/Sessions.antt =====
-- The sessions of app/mysql_inventory.py: connect, the two managed connections, and the release of
-- all that are kept.
pub mod Counts
pub mod Release
pub mod Collision
use fcapsule_lab.Prelude.{
  ℕ, suc, ◌+◌, ◌-◌, Bool, true, false, Option, none, some, List, [], ◌∷◌, if◌then◌else◌,
}
use fcapsule_lab.Prelude.Exec.{
  Exc, Result, ok, err, Exec, pure, raise, gets, modify, catch, ensure, continue, ◌>>=◌, ◌>>◌,
}
use fcapsule_lab.Inventory.{Inventory, Client, Process, write, remote, is_mysql_or_os, forgiving}

module _ {Server Conn : Type 0} (client : Client Server Conn) where
  -- the methods' actions
  abbrev pub Act : Type 0 → Type 0
  Act A = Exec (Process Server Conn) A

  unfoldable pub opened : Inventory Conn → Inventory Conn
  opened s = record s { client_sessions_active = suc s.client_sessions_active }

  unfoldable pub closed : Inventory Conn → Inventory Conn
  closed s = record s { client_sessions_active = s.client_sessions_active - 1 }

  unfoldable pub connect : Act Conn
  unfolding ◌>>=◌ write opened remote
  connect = do connection ← remote client.connect; write opened; pure connection

  unfoldable pub close_connection : Conn → Act (Unit {0})
  unfolding ensure write closed remote
  close_connection c = ensure (remote (client.close c)) (write closed)

  -- _discard_reservation_connection
  unfoldable pub discard : Conn → Act (Unit {0})
  unfolding ◌>>=◌
  discard c = forgiving is_mysql_or_os (close_connection c)

  -- with self._managed_connection() as connection: body
  unfoldable pub managed : {A : Type 0} → (Conn → Act A) → Act A
  unfolding ◌>>=◌ ensure
  managed body = do c ← connect; ensure (body c) (close_connection c)

  -- the first section under _reservation_connection_lock
  unfoldable pub taken : Inventory Conn → Inventory Conn
  taken s = record s {
    normal_connection = if s.normal_connection_enabled then none else s.normal_connection;
  }

  -- the connection that was taken, where its ping is answered
  unfoldable pub pinged : Option Conn → Act (Option Conn)
  unfolding ◌>>=◌
  pinged none = pure none
  pinged (some c) =
      catch is_mysql_or_os (remote (client.ping c) >> pure (some c)) λ _. do discard c; pure none

  abbrev pub or_connect : Option Conn → Act Conn
  or_connect none = connect
  or_connect (some c) = pure c

  -- the last section: the connection goes back where this is still enabled
  abbrev pub kept : Conn → Inventory Conn → Inventory Conn
  kept c s = record s { normal_connection = some c }

  unfoldable pub give_back : Conn → Act (Unit {0})
  unfolding ◌>>=◌
  give_back c = do
    enabled ← gets λ p. p.inventory.normal_connection_enabled
    if enabled then write (kept c) else discard c

  -- except BaseException: discard; raise. A `return` inside the body is no exception.
  unfoldable pub borrow : {A : Type 0} → (Conn → Act A) → Conn → Act A
  unfolding ◌>>=◌
  borrow body c = do
    value ← catch (λ _. true) (body c) λ problem. do discard c; raise problem
    give_back c
    pure value

  unfoldable pub reuse : {A : Type 0} → (Conn → Act A) → Option Conn → Act A
  unfolding ◌>>=◌
  reuse body found = do alive ← pinged found; c ← or_connect alive; borrow body c

  -- with self._managed_reservation_connection(reuse_normal) as connection: body
  unfoldable pub managed_reservation : {A : Type 0} → Bool → (Conn → Act A) → Act A
  unfolding ◌>>=◌ taken
  managed_reservation false body = managed body
  managed_reservation true body = do
    enabled ← gets λ p. p.inventory.normal_connection_enabled
    found ← gets λ p. p.inventory.normal_connection
    write taken
    if enabled then reuse body found else managed body

  abbrev discard_some : Option Conn → Act (Unit {0})
  discard_some none = pure tt
  discard_some (some c) = discard c

  unfoldable pub discard_all : List Conn → Act (Unit {0})
  unfolding ◌>>=◌
  discard_all [] = pure tt
  discard_all (c ∷ l) = discard c >> discard_all l

  abbrev emptied : Inventory Conn → Inventory Conn
  emptied s = record s {
    normal_connection = none;
    normal_connection_enabled = false;
    held_connections = [];
  }

  -- _release_connections
  unfoldable pub release_connections : Act (Unit {0})
  unfolding ◌>>=◌
  release_connections = do
    pooled ← gets λ p. p.inventory.normal_connection
    held ← gets λ p. p.inventory.held_connections
    write emptied
    discard_some pooled
    discard_all held
