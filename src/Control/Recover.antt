-- ===== src/Control/Recover.antt =====
-- app/control.py: recover and _recover. A step that fails is noted and the others still run; the run
-- is over only when every step succeeded.
pub mod Frame
pub mod Ending
use fcapsule_lab.Prelude.{
  ℕ, String, Bool, true, false, not, ◌&&◌, ◌||◌, Option, none, some, List, [], ◌∷◌, ◌++◌, str_eq,
  if◌then◌else◌, member, last_n, is_some,
}
use fcapsule_lab.Prelude.Exec.{
  Exc, value_error, os_error, timeout_error, http_error, integrity_error, operational_error,
  mysql_error, Result, ok, err, pure, raise, lift, gets, catch, ◌>>=◌, ◌>>◌,
}
use fcapsule_lab.Kube.{Doc, Section, in_labels, in_data, in_spec}
use fcapsule_lab.Control.State.{
  Run, Status, recovering, recovered, Problem, Controller, Resource, scenario_config,
  metrics_service, monitor, Service, worker_api, inventory_api, orders_api, edge_api, library_api,
  Request, Outside, Sys, Act, observe, effect, change,
}
use fcapsule_lab.Control.Claims.{
  default_settings, persisted_run, update_run, restore_owned_fields, clear_run_claim, post_for_run,
}

-- except (HTTPError, URLError, TimeoutError, OSError, ValueError)
unfoldable pub transport_or_value : Exc → Bool
transport_or_value (value_error t) = true
transport_or_value (os_error t) = true
transport_or_value timeout_error = true
transport_or_value (http_error n) = true
transport_or_value e = false

-- except pymysql.MySQLError
unfoldable pub mysql : Exc → Bool
mysql (integrity_error n) = true
mysql (operational_error n) = true
mysql (mysql_error n) = true
mysql e = false

pub record Outcome : Type 0 where
  pub ok : Bool
  pub errors : List Problem

abbrev pub empty : List Problem → Bool
empty [] = true
empty (p ∷ l) = false

-- No owned Lab run; no recovery writes performed.
abbrev pub nothing_to_do : Outcome
nothing_to_do = record { ok = true; errors = [] }

abbrev pub normal : Option Doc → Request
normal settings = record { mode = "normal"; duration = none; settings = settings }

abbrev pub settings_of : Option Doc → Doc
settings_of none = default_settings
settings_of (some d) = d

module _ (o : Outside) where
  -- One step of a recovery. The result says whether it went through.
  unfoldable pub step :
      String → (Exc → Bool) → Act o (Unit {0}) → List Problem → Act o (Bool × List Problem)
  step name test m errors =
      catch test (do m; pure (true, errors))
        λ e. pure (false, errors ++ record { step = name; cause = e } ∷ [])

  -- if wanted: step
  unfoldable pub step_if :
      Bool → String → (Exc → Bool) → Act o (Unit {0}) → List Problem → Act o (Bool × List Problem)
  step_if wanted name test m errors =
      if wanted then step name test m errors else pure (true, errors)

  -- The resources' owned fields; also whether the ConfigMap's were restored.
  unfoldable pub restore_resources : Run → Act o (Bool × List Problem)
  restore_resources run = do
    first ←
        step_if (member "exporter-monitor" run.targets) "exporter monitor" transport_or_value
          (restore_owned_fields o monitor in_spec run.run_id) []
    second ←
        step "kubernetes config" transport_or_value
          (restore_owned_fields o scenario_config in_data run.run_id) first.1
    third ←
        step "kubernetes" transport_or_value
          (restore_owned_fields o metrics_service in_labels run.run_id) second.1
    pure (second.0, third.1)

  unfoldable pub restore_services : Run → Bool → List Problem → Act o (List Problem)
  restore_services run config_restored errors = do
    inventory ←
        step_if (member "inventory" run.targets && config_restored) "inventory" transport_or_value
          (post_for_run o inventory_api (normal (some (settings_of run.baseline))) run.run_id)
          errors
    database ←
        step_if (member "database" run.targets) "queue" mysql
          (effect o (o.delete_job run.job_id run.run_id)) inventory.1
    worker ←
        step_if (member "worker" run.targets) "worker" transport_or_value
          (post_for_run o worker_api (normal none) run.run_id) database.1
    orders ←
        step_if (member "orders" run.targets && config_restored) "orders" transport_or_value
          (post_for_run o orders_api (normal (some (settings_of run.baseline))) run.run_id) worker.1
    edge ←
        step_if (member "cnfc-edge" run.targets) "cnfc-edge" transport_or_value
          (post_for_run o edge_api (normal none) run.run_id) orders.1
    library ←
        step_if (member "library" run.targets) "library" transport_or_value
          (post_for_run o library_api (normal none) run.run_id) edge.1
    pure library.1

  -- The journal is cleared only after every step went through.
  unfoldable pub clear_journal : Run → List Problem → Act o (List Problem)
  clear_journal run errors = do
    cleared ←
        step_if (empty errors) "recovery journal" transport_or_value (clear_run_claim o run.run_id)
          errors
    pure cleared.1

  -- what `status` and the history show of a run
  abbrev pub shown : Run → Run
  shown run = record run { baseline = none; claim_acquired = none }

  unfoldable pub conclude : String → ℕ → List Problem → Run → Controller → Controller
  conclude reason now errors run c =
      let marked = record run {
        status = if empty errors then recovered else recovering;
        reason = some reason;
      } in
      if empty errors
      then record c {
        active = none;
        recovery_error = [];
        history = last_n 20 (c.history ++ shown (record marked { finished_at = some now }) ∷ []);
      }
      else record c { active = some marked; recovery_error = errors }

  -- The steps of _recover, for the active run.
  unfoldable pub recover_run : String → Run → Act o Outcome
  recover_run reason run = do
    resources ← restore_resources run
    services ← restore_services run resources.0 resources.1
    errors ← clear_journal run services
    now ← gets (λ s. o.time s.world)
    change o (conclude reason now errors run)
    pure (record { ok = empty errors; errors = errors })

  -- if self.active.get("claim_acquired") is False: nothing to do
  unfoldable pub recover_claimed : String → Run → Option Bool → Act o Outcome
  recover_claimed reason run (some false) = pure nothing_to_do
  recover_claimed reason run c = recover_run reason run

  unfoldable pub recover_active : String → Option Run → Act o Outcome
  recover_active reason none = do
    change o (λ c. record c { recovery_error = [] })
    pure nothing_to_do
  recover_active reason (some run) = recover_claimed reason run run.claim_acquired

  -- if self.active is None: self.active = self._persisted_run()
  unfoldable pub load_active : Option Run → Act o (Unit {0})
  load_active (some run) = pure tt
  load_active none = do
    found ← observe o (persisted_run o)
    change o (λ c. record c { active = found })

  unfoldable pub unreadable : Exc → Act o Outcome
  unreadable e = do
    change o
        (λ c. record c { recovery_error = record { step = "recovery journal"; cause = e } ∷ [] })
    pure (record { ok = false; errors = record { step = "recovery journal"; cause = e } ∷ [] })

  -- The first `try` returns early from its handler, so the rest stands in its body's place.
  unfoldable pub attempt_load : Act o (Option Exc)
  attempt_load =
      catch transport_or_value (do active ← gets (λ s. s.own.active); load_active active; pure none)
        λ e. pure (some e)

  unfoldable pub after_load : String → Option Exc → Act o Outcome
  after_load reason (some e) = unreadable e
  after_load reason none = do active ← gets (λ s. s.own.active); recover_active reason active

  -- _recover
  unfoldable pub recover_owned : String → Act o Outcome
  recover_owned reason = do failure ← attempt_load; after_load reason failure

  unfoldable pub id_of : Option Run → Option String
  id_of none = none
  id_of (some run) = some run.run_id

  unfoldable pub current_owner : Option Run → Act o (Option String)
  current_owner (some run) = pure (some run.run_id)
  current_owner none = do found ← observe o (persisted_run o); pure (id_of found)

  unfoldable pub recover_if : String → String → Option String → Act o Outcome
  recover_if reason expected none = pure nothing_to_do
  recover_if reason expected (some owner) =
      if str_eq owner expected
      then recover_owned reason
      else raise (value_error "Run ownership changed; refusing to recover another operator's run")

  unfoldable pub recover : String → Option String → Act o Outcome
  recover reason none = recover_owned reason
  recover reason (some expected) = do
    active ← gets (λ s. s.own.active)
    owner ← current_owner active
    recover_if reason expected owner
