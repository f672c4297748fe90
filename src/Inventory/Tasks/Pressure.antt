-- ===== src/Inventory/Tasks/Pressure.antt =====
-- The connection storm of app/mysql_inventory.py takes its target and no more.
use fcapsule_lab.Prelude.{ℕ, suc, ◌+◌, ◌≡◌, ◌≤◌, ◌<◌, length}
use fcapsule_lab.Prelude.Exec.{ok}
use fcapsule_lab.Inventory.{Client, Process, select_one}
use fcapsule_lab.Inventory.Sessions.{connect}

-- A MySQL server with `sessions` open sessions of `maximum`: it opens one more as long as there is room,
-- and answers SELECT 1 on an open one.
pub record IsServing {Server Conn : Type 0} (client : Client Server Conn) (sessions : Server → ℕ)
    (maximum : ℕ) : Type 0 where
  pub connects :
      (s : Server)
      → sessions s < maximum
      → (c : Conn) × ((client.connect s).0 ≡ ok c)
        × (sessions (client.connect s).1 ≡ suc (sessions s))
  pub selects :
      (c : Conn) (s : Server)
      → (n : ℕ) × ((client.execute c select_one s).0 ≡ ok n)
        × (sessions (client.execute c select_one s).1 ≡ sessions s)

module _ {Server Conn : Type 0} (client : Client Server Conn) (sessions : Server → ℕ) (maximum : ℕ)
    (serves : IsServing client sessions maximum) (n : ℕ) where
  -- the storm holds `m` sessions, and the server has room for `k` more
  Holding : ℕ → ℕ → Process Server Conn → Type 0
  Holding m k p = (length p.inventory.held_connections ≡ m) × (sessions p.server + k ≤ maximum)
