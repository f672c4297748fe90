-- ===== src/Control/Watchdog.antt =====
-- app/control.py: one round of the watchdog, without its sleep.
pub mod Frame
pub mod Rounds
use fcapsule_lab.Prelude.{
  ℕ, ◌*◌, String, Bool, true, false, not, ◌||◌, Option, none, some, ltb, leb, min, if◌then◌else◌,
}
use fcapsule_lab.Prelude.Exec.{
  Exc, value_error, os_error, timeout_error, http_error, key_error, Result, ok, err, pure, raise,
  lift, gets, catch, ◌>>=◌, ◌>>◌,
}
use fcapsule_lab.Safety.{Memory}
use fcapsule_lab.Control.State.{
  Run, Status, recovering, Controller, Outside, Sys, Act, observe, change,
}
use fcapsule_lab.Control.Claims.{persisted_run, update_run}
use fcapsule_lab.Control.Recover.{Outcome, recover}

-- except (OSError, ValueError, KeyError, TimeoutError)
unfoldable pub caught : Exc → Bool
caught (value_error t) = true
caught (os_error t) = true
caught timeout_error = true
caught (http_error n) = true
caught (key_error t) = true
caught e = false

abbrev pub low_memory : ℕ
low_memory = 768 * 1024 * 1024

abbrev is_recovering : Status → Bool
is_recovering recovering = true
is_recovering s = false

abbrev reason_or : String → Option String → String
reason_or d none = d
reason_or d (some t) = t

-- Why an active run is to be recovered now, if at all.
unfoldable pub reason_to_recover : ℕ → ℕ → Run → Option String
reason_to_recover available now run =
    if ltb available low_memory
    then some "low_host_memory"
    else if leb run.expires_at now || is_recovering run.status
    then some (reason_or "lease_expired" run.reason)
    else none

module _ (o : Outside) where
  -- self.active["minimum_available_bytes"] = min(available, self.active["minimum_available_bytes"])
  unfoldable pub lower_minimum : ℕ → Option ℕ → Act o (Unit {0})
  lower_minimum available none = raise (key_error "minimum_available_bytes")
  lower_minimum available (some least) =
      update_run o (λ r. record r { minimum_available = some (min available least) })

  unfoldable pub adopt : ℕ → Option Run → Act o (Option String)
  adopt available none = pure none
  adopt available (some run) = do
    change o (λ c. record c {
      active = some (record run {
        minimum_available = some available;
        claim_acquired = some true;
        reason = some "controller_restart";
      });
    })
    pure (some "controller_restart")

  unfoldable pub inspect : ℕ → Option Run → Act o (Option String)
  inspect available (some run) = do
    lower_minimum available run.minimum_available
    now ← gets (λ s. o.time s.world)
    pure (reason_to_recover available now run)
  inspect available none = do found ← observe o (persisted_run o); adopt available found

  unfoldable pub recover_for : Option String → Act o (Unit {0})
  recover_for none = pure tt
  recover_for (some reason) = do recover o reason none; pure tt

  unfoldable pub round : Act o (Unit {0})
  round = do
    memory ← observe o o.memory
    if memory.node_identity_verified
        then pure tt
        else raise (value_error "Node-specific memory source could not be verified")
    change o (λ c. record c { memory = some memory; memory_error = none })
    active ← gets (λ s. s.own.active)
    reason ← inspect memory.available_bytes active
    recover_for reason

  unfoldable pub recover_blind : Option Run → Act o (Unit {0})
  recover_blind none = pure tt
  recover_blind (some run) = do recover o "memory_measurement_unavailable" none; pure tt

  -- One round of `watchdog`.
  unfoldable pub watch : Act o (Unit {0})
  watch = catch caught round λ e. do
    change o (λ c. record c { memory_error = some e })
    active ← gets (λ s. s.own.active)
    recover_blind active
