-- ===== src/Control/Watchdog/Frame.antt =====
-- What the watchdog of app/control.py leaves alone, whether a round returns or raises.
use fcapsule_lab.Prelude.{ℕ, String, Option, none, some}
use fcapsule_lab.Prelude.Exec.{Result, Exc, ◌>>=◌, Keeps, keeps_rules}
use fcapsule_lab.Safety.{Memory}
use fcapsule_lab.Control.State.{Run, Outside, Sys, observe, change}
use fcapsule_lab.Control.Claims.{update_run}
use fcapsule_lab.Control.Claims.Frame.{observe-Keeps, update_run-Keeps}
use fcapsule_lab.Control.Recover.{recover}
use fcapsule_lab.Control.Recover.Frame.{IsLasting, recover-Keeps}
use fcapsule_lab.Control.Watchdog.{
  lower_minimum, adopt, inspect, recover_for, round, recover_blind, watch,
}

module _ (o : Outside) (P : Sys o → Type 0) (lasting : IsLasting o P) where
  observe-P : {A : Type 0} (f : o.World → Result A) → Keeps P (observe o f)
  observe-P = observe-Keeps o P lasting.stable.any_world

  update-P : (f : Run → Run) → Keeps P (update_run o f)
  update-P = update_run-Keeps o P lasting.stable

  recover-P : (reason : String) (expected : Option String) → Keeps P (recover o reason expected)
  recover-P = recover-Keeps o P lasting

  active-P : (a : Option Run) → Keeps P (change o (λ c. record c { active = a }))
  unfolding change ◌>>=◌
  active-P a = record { at = λ s h. lasting.stable.any_active s a h }

  measured-P :
      (m : Memory) → Keeps P (change o (λ c. record c { memory = some m; memory_error = none }))
  unfolding change ◌>>=◌
  measured-P m = record { at = λ s h. lasting.any_memory s (some m) none h }

  failed-P : (e : Exc) → Keeps P (change o (λ c. record c { memory_error = some e }))
  unfolding change ◌>>=◌
  failed-P e = record { at = λ s h. lasting.any_memory s s.own.memory (some e) h }

  ruleset frame = (keeps_rules, observe-P, update-P, recover-P, active-P, measured-P, failed-P)

  lower_minimum-P : (available : ℕ) (least : Option ℕ) → Keeps P (lower_minimum o available least)
  unfolding lower_minimum
  lower_minimum-P available none = search frame
  lower_minimum-P available (some n) = search frame

  adopt-P : (available : ℕ) (found : Option Run) → Keeps P (adopt o available found)
  unfolding adopt
  adopt-P available none = search frame
  adopt-P available (some run) = search frame

  inspect-P : (available : ℕ) (active : Option Run) → Keeps P (inspect o available active)
  unfolding inspect
  inspect-P available none = search (frame, adopt-P)
  inspect-P available (some run) = search (frame, lower_minimum-P)

  recover_for-P : (reason : Option String) → Keeps P (recover_for o reason)
  unfolding recover_for
  recover_for-P none = search frame
  recover_for-P (some reason) = search frame

  round-P : Keeps P (round o)
  unfolding round
  round-P = search (frame, inspect-P, recover_for-P) depth 14

  recover_blind-P : (active : Option Run) → Keeps P (recover_blind o active)
  unfolding recover_blind
  recover_blind-P none = search frame
  recover_blind-P (some run) = search frame

  pub watch-Keeps : Keeps P (watch o)
  unfolding watch
  watch-Keeps = search (frame, round-P, recover_blind-P) depth 10
