-- ===== src/Library/Runtime.antt =====
-- LibraryState of app/library_runtime.py: the requests that start and recover a case, and the two
-- locked sections of the runner's tick, with the case's execution between them. Times are in milliseconds; log
-- lines are left out, and what an execution comes to is an argument.
pub mod Owned
mod Examples
use fcapsule_lab.Prelude.{
  ℕ, suc, ◌+◌, ◌*◌, String, Bool, true, false, not, ◌&&◌, Option, none, some, List, [], ◌∷◌, leb,
  ltb, str_eq, member, is_run_id, if◌then◌else◌, ℤ, pos, negsuc, Arg,
}
use fcapsule_lab.Prelude.Exec.{Exc, Result, ok, err, and_then, value_error, type_error}

pub record Active : Type 0 where
  pub case_id : String
  pub run_id : String
  pub expires_at : ℕ

pub record Runtime : Type 0 where
  -- the IDs of self.cases
  pub cases : List String
  pub active : Option Active
  pub attempts : String → ℕ
  pub failures : String → ℕ
  pub last_duration : String → ℕ
  -- what the runner works on, between the sections of a tick
  pub running : Option Active

-- case_id not in self.cases; what is no text is refused
unfoldable pub known_case : Arg → Runtime → Result String
known_case (Arg.text t) s =
    if member t s.cases then ok t else err (value_error "Unknown library case")
known_case given s = err (value_error "Unknown library case")

unfoldable pub valid_run : Arg → Result String
valid_run (Arg.text t) = if is_run_id t then ok t else err (value_error "Invalid run ID")
valid_run given = err (value_error "Invalid run ID")

-- `none` is what is no int
unfoldable pub valid_seconds : Option ℤ → Result ℕ
valid_seconds (some (pos n)) =
    if leb 15 n && leb n 300
    then ok n
    else err (value_error "Duration must be between 15 and 300 seconds")
valid_seconds given = err (value_error "Duration must be between 15 and 300 seconds")

-- self.active and time.time() < self.active["expires_at"]
unfoldable pub is_busy : ℕ → Option Active → Bool
is_busy now none = false
is_busy now (some r) = ltb now r.expires_at

-- start, at time `now`
unfoldable pub start : Arg → Arg → Option ℤ → ℕ → Runtime → Result Runtime
start case_id run_id duration now s = and_then (known_case case_id s) λ case.
    and_then (valid_run run_id) λ run. and_then (valid_seconds duration) λ seconds.
      if is_busy now s.active
      then err (value_error "Another library case is active")
      else ok (record s {
        active = some (record { case_id = case; run_id = run; expires_at = now + seconds * 1000 });
      })

unfoldable pub owns : Arg → Option Active → Bool
owns run_id none = true
owns (Arg.text t) (some r) = str_eq r.run_id t
owns given (some r) = false

unfoldable pub recover : Arg → Runtime → Result Runtime
recover run_id s =
    if owns run_id s.active
    then ok (record s { active = none })
    else err (value_error "Run ownership changed")

unfoldable pub unexpired : ℕ → Option Active → Option Active
unexpired now none = none
unexpired now (some r) = if leb r.expires_at now then none else some r

-- tick, up to the execution
unfoldable pub begin_tick : ℕ → Runtime → Runtime
begin_tick now s = record s { active = unexpired now s.active; running = unexpired now s.active }

abbrev pub count : String → (String → ℕ) → String → ℕ
count k c j = if str_eq j k then suc (c j) else c j

-- tick, from the execution on
unfoldable pub end_of : Option Active → Bool → ℕ → Runtime → Runtime
end_of none failed elapsed s = s
end_of (some r) failed elapsed s = record s {
  attempts = count r.case_id s.attempts;
  failures = if failed then count r.case_id s.failures else s.failures;
  last_duration = λ j. if str_eq j r.case_id then elapsed else s.last_duration j;
  running = none;
}

unfoldable pub end_tick : Bool → ℕ → Runtime → Runtime
end_tick failed elapsed s = end_of s.running failed elapsed s

-- What the service's threads do: the requests at any time, the runner its sections in turn.
pub data Event : Type 0 where
  starting : Arg → Arg → Option ℤ → ℕ → Event
  recovering : Arg → Event
  ticking : ℕ → Event
  finishing : Bool → ℕ → Event

-- A request that raises leaves the state as it is.
abbrev pub or_same : Runtime → Result Runtime → Runtime
or_same s (ok t) = t
or_same s (err problem) = s

unfoldable pub handle : Event → Runtime → Runtime
handle (starting case_id run_id duration now) s = or_same s (start case_id run_id duration now s)
handle (recovering run_id) s = or_same s (recover run_id s)
handle (ticking now) s = begin_tick now s
handle (finishing failed elapsed) s = end_tick failed elapsed s

unfoldable pub handle_all : List Event → Runtime → Runtime
handle_all [] s = s
handle_all (e ∷ l) s = handle_all l (handle e s)
