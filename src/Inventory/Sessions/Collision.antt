-- ===== src/Inventory/Sessions/Collision.antt =====
-- The release of the sessions of app/mysql_inventory.py leaves the token collision as it is.
use fcapsule_lab.Prelude.{◌≡◌, String, Option, none, some, List, [], ◌∷◌}
use fcapsule_lab.Prelude.Exec.{
  Exec, Keeps, Keeps-bind, Keeps-pure, keeps_rules, Runs-ensure, Keeps→Runs, Runs→Keeps,
}
use fcapsule_lab.Inventory.{Client, Process, write, remote}
use fcapsule_lab.Inventory.Sessions.{
  close_connection, closed, discard, discard_some, discard_all, emptied, release_connections,
}

pub record Collides {Server Conn : Type 0} (t o : Option String) (p : Process Server Conn)
    : Type 0 where
  pub token : p.inventory.collision_token ≡ t
  pub owner : p.inventory.collision_owner ≡ o

module _ {Server Conn : Type 0} (client : Client Server Conn) (token owner : Option String) where
  remote-Collides :
      {A : Type 0} (call : Exec Server A) → Keeps (Collides token owner) (remote {Conn = Conn} call)
  unfolding remote
  remote-Collides call = record { at = λ p h. record { token = h.token; owner = h.owner } }

  closed-Collides : Keeps (Collides token owner) (write {Server = Server} (closed client))
  unfolding write closed
  closed-Collides = record { at = λ p h. record { token = h.token; owner = h.owner } }

  emptied-Collides : Keeps (Collides token owner) (write {Server = Server} (emptied client))
  unfolding write
  emptied-Collides = record { at = λ p h. record { token = h.token; owner = h.owner } }

  close-Collides : (c : Conn) → Keeps (Collides token owner) (close_connection client c)
  unfolding close_connection
  close-Collides c = Runs→Keeps (
      Runs-ensure (Keeps→Runs (remote-Collides (client.close c))) (λ _. Keeps→Runs closed-Collides)
        λ _. Keeps→Runs closed-Collides)

  discard-Collides : (c : Conn) → Keeps (Collides token owner) (discard client c)
  unfolding discard
  discard-Collides c = search (keeps_rules, close-Collides)

  discard_some-Collides :
      (found : Option Conn) → Keeps (Collides token owner) (discard_some client found)
  discard_some-Collides none = Keeps-pure tt
  discard_some-Collides (some c) = discard-Collides c

  discard_all-Collides : (l : List Conn) → Keeps (Collides token owner) (discard_all client l)
  unfolding discard_all
  discard_all-Collides [] = Keeps-pure tt
  discard_all-Collides (c ∷ l) = Keeps-bind _ _ (discard-Collides c) λ _. discard_all-Collides l

  pub release_connections-Collides : Keeps (Collides token owner) (release_connections client)
  unfolding release_connections
  release_connections-Collides =
      search (keeps_rules, emptied-Collides, discard_some-Collides, discard_all-Collides)
