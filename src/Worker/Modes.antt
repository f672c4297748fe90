-- ===== src/Worker/Modes.antt =====
-- The calls of set_mode of app/worker.py, its heartbeat, and one round of _export_loop.
use fcapsule_lab.Prelude.{
  ℕ, suc, ◌+◌, ◌*◌, ◌≡◌, ◌≤◌, refl, subst, String, Bool, true, not, ◌&&◌, Option, none, some, [],
  arith, leb, ◌==◌, str_eq, is_run_id, Arg, ℤ, pos, if◌then◌else◌,
}
use fcapsule_lab.Prelude.Exec.{
  Result, ok, err, and_then, and_then-ok, ok_inj, guarded-ok, value_error,
}
use fcapsule_lab.Safety.{lease_seconds, lease_seconds_bounds}
use fcapsule_lab.Worker.Buffer.{
  WorkerMode, normal, cpu_saturation, memory_leak, Tasks, set_mode, lease_end, IsBounded,
  set_mode-IsBounded,
}

unfoldable pub mode_of : String → Result WorkerMode
mode_of t =
    if str_eq t "normal"
    then ok normal
    else if str_eq t "cpu-saturation"
    then ok cpu_saturation
    else if str_eq t "memory-leak"
    then ok memory_leak
    else err (value_error "Unknown worker mode")

-- _validate_run_id
unfoldable pub checked_run_id : Arg → Result (Option String)
checked_run_id Arg.null = ok none
checked_run_id (Arg.text t) =
    if is_run_id t
    then ok (some t)
    else err (value_error "run_id must be a 32-character lowercase hexadecimal ID")
checked_run_id Arg.other =
    err (value_error "run_id must be a 32-character lowercase hexadecimal ID")

-- set_mode, at time `now`; `stops` says whether the previous thread ends within its two seconds
unfoldable pub call_set_mode : String → ℤ → Arg → Bool → ℕ → String → Tasks → Result Tasks
unfolding mode_of checked_run_id
call_set_mode mode duration run_id stops now batch s = and_then (mode_of mode) λ m.
    and_then (checked_run_id run_id) λ id. and_then (lease_seconds duration) λ seconds.
      if stops
      then ok (set_mode m batch (now + seconds * 1000) id s)
      else err (value_error "Previous bounded worker task has not stopped yet")

abbrev run_arg : Option String → Arg
run_arg none = Arg.null
run_arg (some t) = Arg.text t

-- One round of _heartbeat_loop.
unfoldable pub heartbeat : Bool → ℕ → String → Tasks → Result Tasks
unfolding call_set_mode
heartbeat stops now batch s =
    if not (s.expires_at == 0) && leb s.expires_at now
    then call_set_mode "normal" (pos 180) (run_arg s.control_run_id) stops now batch s
    else ok s

-- One round of _export_loop, with a page of `size` bytes.
unfoldable pub export_page : ℕ → Tasks → Tasks
export_page size s = record s {
  export_pages_completed = suc s.export_pages_completed;
  export_bytes_streamed = s.export_bytes_streamed + size;
  cpu_iterations = suc s.cpu_iterations;
  migration_records_completed = suc s.migration_records_completed;
}

-- The end of a lease that is taken at `now`, in milliseconds: none in normal mode, and 30 to 300 seconds
-- on in every other mode.
abbrev pub IsLeased : ℕ → WorkerMode → ℕ → Type 0
IsLeased now normal end = end ≡ 0
IsLeased now m end = (now + 30000 ≤ end) × (end ≤ now + 300000)

pub record Entered (now : ℕ) (t : Tasks) : Type 0 where
  pub bounded : IsBounded t
  pub emptied : t.memory ≡ []
  pub leased : IsLeased now t.mode t.expires_at

lease_end-IsLeased :
    (m : WorkerMode) (now n : ℕ) → 30 ≤ n → n ≤ 300 → IsLeased now m (lease_end m (now + n * 1000))
lease_end-IsLeased normal now n long short = refl
lease_end-IsLeased cpu_saturation now n long short = (omega (arith, long), omega (arith, short))
lease_end-IsLeased memory_leak now n long short = (omega (arith, long), omega (arith, short))

-- A change of mode that returns empties the export buffer, leaves it and the migration batch within their bounds, and
-- takes no lease in normal mode and one of 30 to 300 seconds in every other.
pub call_set_mode-Entered :
    (mode : String) (duration : ℤ) (run_id : Arg) (stops : Bool) (now : ℕ) (batch : String)
    (s t : Tasks)
    → call_set_mode mode duration run_id stops now batch s ≡ ok t
    → Entered now t
unfolding call_set_mode set_mode
call_set_mode-Entered mode duration run_id stops now batch s t h =
    let (m, _, h₁) = and_then-ok (mode_of mode) _ t h in
    let (id, _, h₂) = and_then-ok (checked_run_id run_id) _ t h₁ in
    let (n, seconds, h₃) = and_then-ok (lease_seconds duration) _ t h₂ in
    let (_, same) = guarded-ok stops (ok (set_mode m batch (now + n * 1000) id s)) _ t h₃ in
    let (long, short) = lease_seconds_bounds duration n seconds in
    subst (Entered now) (ok_inj (set_mode m batch (now + n * 1000) id s) t same) (record {
      bounded = set_mode-IsBounded m batch (now + n * 1000) id s;
      emptied = refl;
      leased = lease_end-IsLeased m now n long short;
    })

unfoldable pub has_run_id : Option String → Bool
has_run_id none = true
has_run_id (some t) = is_run_id t

checked_run_id-run_arg :
    (id : Option String) → has_run_id id ≡ true → checked_run_id (run_arg id) ≡ ok id
unfolding checked_run_id has_run_id
checked_run_id-run_arg none h = refl
checked_run_id-run_arg (some t) h = rw h refl

-- A heartbeat after the end of a lease puts the worker back in normal mode, without a lease and with an empty export
-- buffer, when the mode's thread stops; the run ID is absent or one that set_mode accepts.
pub heartbeat-normal :
    (now : ℕ) (batch : String) (s : Tasks)
    → 1 ≤ s.expires_at
    → s.expires_at ≤ now
    → has_run_id s.control_run_id ≡ true
    → (t : Tasks) × (heartbeat true now batch s ≡ ok t)
      × (t.mode ≡ normal)
      × (t.expires_at ≡ 0)
      × (t.memory ≡ [])
      × (t.migration_backlog ≡ 0)
unfolding heartbeat mode_of set_mode lease_seconds
heartbeat-normal now batch s leased over id = (
  set_mode normal batch (now + 180 * 1000) s.control_run_id s,
  ground (arith, checked_run_id-run_arg s.control_run_id id),
  refl,
  refl,
  refl,
  refl,
)
