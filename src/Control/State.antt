-- ===== src/Control/State.antt =====
-- What app/control.py keeps, and what it calls: the Kubernetes API, the services, MySQL, the clock.
use fcapsule_lab.Prelude.{ℕ, String, Bool, Option, none, List, []}
use fcapsule_lab.Prelude.Exec.{Exc, Result, Exec, modify}
use fcapsule_lab.Kube.{Doc, Object, Patch}
use fcapsule_lab.Safety.{Memory}

pub data Status : Type 0 where
  starting running recovering recovered : Status

-- A run's dictionary. Times are in milliseconds. `none` is an absent key: a run that was read back
-- after a restart has no `scenario`, no `duration` and no `minimum_available`.
pub record Run : Type 0 where
  pub run_id : String
  pub scenario : Option String
  pub duration : Option ℕ
  pub status : Status
  pub expires_at : ℕ
  pub minimum_available : Option ℕ
  pub targets : List String
  pub baseline : Option Doc
  pub claim_acquired : Option Bool
  pub job_id : Option ℕ
  pub reason : Option String
  pub finished_at : Option ℕ

-- a recovery step that failed, and with what
pub record Problem : Type 0 where
  pub step : String
  pub cause : Exc

pub record Controller : Type 0 where
  pub active : Option Run
  pub history : List Run
  pub recovery_error : List Problem
  pub memory : Option Memory
  pub memory_error : Option Exc

unfoldable pub new : Controller
new = record {
  active = none;
  history = [];
  recovery_error = [];
  memory = none;
  memory_error = none;
}

-- CONTROLLED_RESOURCES
pub data Resource : Type 0 where
  scenario_config metrics_service monitor : Resource

pub data Service : Type 0 where
  worker_api inventory_api orders_api edge_api library_api : Service

-- The body of a POST, apart from the run's ID.
pub record Request : Type 0 where
  pub mode : String
  pub duration : Option ℕ
  pub settings : Option Doc

-- What the controller calls. A reading sees the world, a write changes it and may fail after it
-- took effect.
pub record Outside : Type 1 where
  pub World : Type 0
  -- `none`: the controller does not run in a cluster
  pub get : Resource → World → Result (Option Object)
  pub patch : Resource → Patch → World → Result (Unit {0}) × World
  -- the run ID that the service acknowledges
  pub post : Service → Request → String → World → Result (Option String) × World
  pub reachable : Service → World → Bool
  pub memory : World → Result Memory
  pub time : World → ℕ
  pub fresh_id : World → String
  pub insert_job : String → World → Result (Option ℕ) × World
  pub delete_job : Option ℕ → String → World → Result (Unit {0}) × World

pub record Sys (o : Outside) : Type 0 where
  pub own : Controller
  pub world : o.World

module _ (o : Outside) where
  abbrev pub Act : Type 0 → Type 0
  Act A = Exec (Sys o) A

  -- a reading that may fail
  unfoldable pub observe : {A : Type 0} → (o.World → Result A) → Act A
  observe f s = (f s.world, s)

  -- a write
  unfoldable pub effect : {A : Type 0} → (o.World → Result A × o.World) → Act A
  effect f s = let (r, w) = f s.world in (r, record s { world = w })

  unfoldable pub change : (Controller → Controller) → Act (Unit {0})
  unfolding modify
  change f = modify (λ s. record s { own = f s.own })
