-- ===== src/Edge.antt =====
-- app/cnfc_edge.py: the dependency probe and its route. Times are in milliseconds.
pub mod Route
mod Examples
use fcapsule_lab.Prelude.{
  ℕ, zero, suc, ◌+◌, ◌*◌, String, Bool, true, false, not, ◌&&◌, Option, none, some, leb, ◌==◌,
  str_eq, is_run_id, Arg, ℤ, pos, negsuc, if◌then◌else◌,
}
use fcapsule_lab.Prelude
use fcapsule_lab.Prelude.Exec.{Exc, Result, ok, err, and_then, value_error, type_error}

pub record Edge : Type 0 where
  pub baseline_url : String
  pub fault_url : String
  pub url : String
  pub run_id : Option String
  -- 0 is no lease
  pub expires_at : ℕ
  pub success : ℕ
  pub failure : ℕ

unfoldable pub drifts : String → Result Bool
drifts mode =
    if str_eq mode "route-drift"
    then ok true
    else if str_eq mode "normal"
    then ok false
    else err (value_error "Unknown CNFC edge mode")

-- re.fullmatch raises TypeError for what is no text
unfoldable pub checked_id : Arg → Result (Option String)
checked_id Arg.null = ok none
checked_id (Arg.text t) = if is_run_id t then ok (some t) else err (value_error "Invalid run ID")
checked_id Arg.other = err type_error

unfoldable pub checked_duration : ℤ → Result ℕ
checked_duration (pos n) =
    if leb 30 n && leb n 300
    then ok n
    else err (value_error "Duration must be between 30 and 300 seconds")
checked_duration (negsuc n) = err (value_error "Duration must be between 30 and 300 seconds")

-- What set_mode writes under its lock.
unfoldable pub apply_route : Bool → Option String → ℕ → Edge → Edge
apply_route drift id end s = record s {
  url = if drift then s.fault_url else s.baseline_url;
  run_id = id;
  expires_at = if drift then end else 0;
}

-- set_mode, at time `now`
unfoldable pub set_mode : String → ℤ → Arg → ℕ → Edge → Result Edge
unfolding drifts checked_id checked_duration apply_route
set_mode mode duration run_id now s = and_then (drifts mode) λ drift.
    and_then (checked_id run_id) λ id.
      and_then (checked_duration duration)
        λ seconds. ok (apply_route drift id (now + seconds * 1000) s)

-- What the health request came to: an answer, an error that is caught, or one that is not.
pub data Health : Type 0 where
  answered : ℕ → Health
  unreachable : Health
  uncaught : Health

unfoldable pub is_expired : ℕ → Edge → Bool
is_expired now s = not (s.expires_at == 0) && leb s.expires_at now

unfoldable pub count_check : Health → Edge → Edge
count_check (answered n) s =
    if n == 200 then record s { success = suc s.success } else record s { failure = suc s.failure }
count_check unreachable s = record s { failure = suc s.failure }
count_check uncaught s = s

-- The end of a lease: set_mode("normal", run_id=run_id), with a run ID that was accepted before.
unfoldable pub end_lease : ℕ → Edge → Edge
unfolding is_expired apply_route
end_lease now s = if is_expired now s then apply_route false s.run_id 0 s else s

-- probe: the URL that it asks, and the state after the answer. `health` is what a URL's request comes to.
unfoldable pub probe : ℕ → (String → Health) → Edge → String × Edge
unfolding is_expired end_lease count_check
probe now health s =
    let asked = if is_expired now s then s.baseline_url else s.url in
    (asked, count_check (health asked) (end_lease now s))
