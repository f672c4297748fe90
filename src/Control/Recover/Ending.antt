-- ===== src/Control/Recover/Ending.antt =====
-- How _recover of app/control.py ends.
use fcapsule_lab.Prelude.{
  ℕ, ◌≡◌, ◌≢◌, String, true, false, none, some, [], ◌∷◌, ◌++◌, arith, eq_iff, last_n,
}
use fcapsule_lab.Prelude.Exec.{Exc, value_error, ok, err, ◌>>=◌, ◌>>◌}
use fcapsule_lab.Control.State.{Run, recovering, recovered, Outside, Sys}
use fcapsule_lab.Control.Recover.{Outcome, shown, current_owner, recover_if, recover}

module _ (o : Outside) where
  -- Every step went through: no run is active, no error is left, and the run is in the history.
  abbrev pub Completed : String → Run → Sys o → Outcome → Sys o → Type 0
  Completed reason run s out t =
      (out.ok ≡ true)
      × (out.errors ≡ [])
      × (t.own.active ≡ none)
      × (t.own.recovery_error ≡ [])
      × (now : ℕ) × (t.own.history
          ≡ last_n 20 (
              s.own.history
              ++ shown o
                  (record run { status = recovered; reason = some reason; finished_at = some now })
                ∷ []))

  -- Some steps failed: the run stays active, marked as recovering.
  abbrev pub Pending : String → Run → Sys o → Outcome → Sys o → Type 0
  Pending reason run s out t =
      (out.ok ≡ false)
      × (out.errors ≢ [])
      × (t.own.active ≡ some (record run { status = recovering; reason = some reason }))
      × (t.own.recovery_error ≡ out.errors)
      × (t.own.history ≡ s.own.history)

  -- A recovery that names a run which is not the active one is refused, and changes nothing at all.
  pub recover-foreign :
      (reason expected : String) (run : Run) (s : Sys o)
      → s.own.active ≡ some run
      → run.run_id ≢ expected
      → (e : Exc) × (recover o reason (some expected) s ≡ (err e, s))
  unfolding recover current_owner recover_if ◌>>=◌
  recover-foreign reason expected run s a d = (
    value_error "Run ownership changed; refusing to recover another operator's run",
    ground (arith, eq_iff run.run_id expected),
  )
