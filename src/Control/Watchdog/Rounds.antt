-- ===== src/Control/Watchdog/Rounds.antt =====
-- What one round of the watchdog of app/control.py does with an active run.
use fcapsule_lab.Prelude.{
  ℕ, ◌≡◌, ◌≤◌, ◌<◌, String, true, false, none, some, ◌⊎◌, inl, inr, ap, ◌∙◌, ◌*◌, arith, min,
}
use fcapsule_lab.Prelude.Exec.{key_error, ok, err, pure, ◌>>=◌}
use fcapsule_lab.Safety.{Memory}
use fcapsule_lab.Control.State.{Run, recovering, Outside, Sys, observe, change}
use fcapsule_lab.Control.Claims.{update_run, set_active}
use fcapsule_lab.Control.Recover.{Outcome, recover}
use fcapsule_lab.Control.Watchdog.{
  caught, low_memory, is_recovering, reason_to_recover, lower_minimum, inspect, recover_for, round,
  reason_or, recover_blind, watch,
}

-- Why a run is to be recovered at a time with a reading of the available memory: less than 768 MiB are
-- left; or else its lease has ended or its recovery is pending, and the reason is the one that it
-- carries, if any.
pub data IsDue (available now : ℕ) (run : Run) : String → Type 0 where
  short_of_memory : available < 768 * 1024 * 1024 → IsDue available now run "low_host_memory"
  time_over :
      768 * 1024 * 1024 ≤ available
      → (run.expires_at ≤ now) ⊎ (run.status ≡ recovering)
      → run.reason ≡ none
      → IsDue available now run "lease_expired"
  time_over_for :
      {reason : String}
      → 768 * 1024 * 1024 ≤ available
      → (run.expires_at ≤ now) ⊎ (run.status ≡ recovering)
      → run.reason ≡ some reason
      → IsDue available now run reason

reason_when_over :
    (available now : ℕ) (run : Run)
    → 768 * 1024 * 1024 ≤ available
    → (run.expires_at ≤ now) ⊎ (run.status ≡ recovering)
    → reason_to_recover available now run ≡ some (reason_or "lease_expired" run.reason)
unfolding reason_to_recover
reason_when_over available now run enough (inl ended) = ground (arith, enough, ended)
reason_when_over available now run enough (inr pending) =
    ground (arith, enough, ap is_recovering pending)

reason_to_recover-due :
    (available now : ℕ) (run : Run) (reason : String)
    → IsDue available now run reason
    → reason_to_recover available now run ≡ some reason
unfolding reason_to_recover
reason_to_recover-due available now run _ (short_of_memory short) = ground (arith, short)
reason_to_recover-due available now run _ (time_over enough h none_carried) =
    reason_when_over available now run enough h
    ∙ ap (λ r. some (reason_or "lease_expired" r)) none_carried
reason_to_recover-due available now run _ (time_over_for enough h carried) =
    reason_when_over available now run enough h
    ∙ ap (λ r. some (reason_or "lease_expired" r)) carried

module _ (o : Outside) (s : Sys o) (run : Run) (m : Memory) where
  -- The controller after a good memory reading of a run.
  abbrev pub measured : ℕ → Sys o
  measured least = record s {
    own = record s.own {
      memory = some m;
      memory_error = none;
      active = some (record run { minimum_available = some (min m.available_bytes least) });
    };
  }

  -- The controller after the good reading, when its run has no least reading to compare with.
  abbrev pub mistaken : Sys o
  mistaken = record s {
    own = record s.own {
      memory = some m;
      memory_error = some (key_error "minimum_available_bytes");
    };
  }

  inspect-measured :
      (least : ℕ)
      → s.own.active ≡ some run
      → o.memory s.world ≡ ok m
      → m.node_identity_verified ≡ true
      → run.minimum_available ≡ some least
      → round o s
        ≡ recover_for o (reason_to_recover m.available_bytes (o.time s.world) run) (measured least)
  unfolding round observe change inspect lower_minimum update_run set_active ◌>>=◌
  inspect-measured least active reading verified h = ground arith

  -- With a verified reading of at least 768 MiB, a run that is not recovering and whose lease has not
  -- ended is left alone: the round returns, notes the reading and the least memory seen,
  -- and writes nothing outside the controller.
  pub watch-quiet :
      (least : ℕ)
      → s.own.active ≡ some run
      → o.memory s.world ≡ ok m
      → m.node_identity_verified ≡ true
      → run.minimum_available ≡ some least
      → low_memory ≤ m.available_bytes
      → o.time s.world < run.expires_at
      → is_recovering run.status ≡ false
      → watch o s ≡ (ok tt, measured least)
  unfolding watch recover_for reason_to_recover ◌>>=◌
  watch-quiet least active reading verified h enough early calm =
      ground (arith, inspect-measured least active reading verified h)

  -- With a verified reading, less than 768 MiB of memory makes the round recover the run, whoever owns it,
  -- for low_host_memory; with more memory, the end of the lease or a pending recovery makes it recover the
  -- run for the reason that it carries, or else for lease_expired. The state after the round is the state
  -- after that recovery, when that returns.
  pub watch-recovers :
      (least : ℕ) (reason : String) (out : Outcome) (t : Sys o)
      → s.own.active ≡ some run
      → o.memory s.world ≡ ok m
      → m.node_identity_verified ≡ true
      → run.minimum_available ≡ some least
      → IsDue m.available_bytes (o.time s.world) run reason
      → recover o reason none (measured least) ≡ (ok out, t)
      → watch o s ≡ (ok tt, t)
  unfolding watch recover_for ◌>>=◌
  watch-recovers least reason out t active reading verified h due e = ground (
    arith,
    inspect-measured least active reading verified h,
    reason_to_recover-due m.available_bytes (o.time s.world) run reason due,
  )

  round-mistaken :
      s.own.active ≡ some run
      → o.memory s.world ≡ ok m
      → m.node_identity_verified ≡ true
      → run.minimum_available ≡ none
      → round o s ≡ (
        err (key_error "minimum_available_bytes"),
        record s { own = record s.own { memory = some m; memory_error = none } },
      )
  unfolding round observe change inspect lower_minimum ◌>>=◌
  round-mistaken active reading verified h = ground arith

  -- With a run that has no least memory reading, as one read back by a recovery, the round takes a good
  -- reading for a failed one: it notes a KeyError as the memory error, and does what a recovery of the run
  -- by any owner for memory_measurement_unavailable does, whether that returns or raises.
  pub watch-mistaken :
      s.own.active ≡ some run
      → o.memory s.world ≡ ok m
      → m.node_identity_verified ≡ true
      → run.minimum_available ≡ none
      → watch o s ≡ (recover o "memory_measurement_unavailable" none >>= (λ out. pure tt)) mistaken
  unfolding watch caught change recover_blind ◌>>=◌
  watch-mistaken active reading verified h =
      ground (arith, round-mistaken active reading verified h)
