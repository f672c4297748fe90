-- ===== src/Worker/Buffer/Migration.antt =====
-- The end of _credential_migration_loop of app/worker.py, completed or stopped between two records.
use fcapsule_lab.Prelude.{suc, ◌+◌, ◌-◌, ◌≡◌, true, false, none, List, ◌∷◌, ◌++◌, ◌⊎◌, length}
use fcapsule_lab.Prelude.Stops.{Stop, is_unset, all_unset}
use fcapsule_lab.Worker.Buffer.{normal, Tasks, resumed, left, migrate_batch}

-- A completed batch: every record that was left is migrated, and the worker is back in normal mode without a
-- lease.
pub record Completed (s t : Tasks) : Type 0 where
  pub back : t.mode ≡ normal
  pub unleased : t.expires_at ≡ 0
  pub all_done : t.migration_records_completed ≡ s.migration_records_completed + s.migration_backlog
  pub nothing_left : t.migration_backlog ≡ 0

-- A batch that the stop event ended: one record was migrated in each round before the first that saw the
-- event set, and the rest is left, in the same mode and under the same lease.
pub record Cancelled (l : List Stop) (s t : Tasks) : Type 0 where
  pub before : List Stop
  pub seen : Stop
  pub after : List Stop
  pub rounds : l ≡ before ++ seen ∷ after
  pub undisturbed : all_unset before ≡ true
  pub stopped : is_unset seen ≡ false
  pub same_mode : t.mode ≡ s.mode
  pub same_lease : t.expires_at ≡ s.expires_at
  pub some_done : t.migration_records_completed ≡ s.migration_records_completed + length before
  pub rest_left : t.migration_backlog + length before ≡ s.migration_backlog

abbrev pub Ends : List Stop → Tasks → Type 0
Ends l s =
    (t : Tasks) × (((migrate_batch l s ≡ (resumed, t)) × Completed s t)
      ⊎ ((migrate_batch l s ≡ (left, t)) × Cancelled l s t))

-- the worker after one more record
abbrev migrated : Tasks → Tasks
migrated s = record s {
  cpu_iterations = suc s.cpu_iterations;
  migration_records_completed = suc s.migration_records_completed;
  migration_backlog = s.migration_backlog - 1;
}

abbrev resumed_work : Tasks → Tasks
resumed_work s = record s { mode = normal; expires_at = 0; batch = none }
