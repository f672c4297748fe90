-- ===== src/Library/Runtime/Examples.antt =====
-- A run of the model of app/library_runtime.py, and the theorem at it.
use fcapsule_lab.Prelude.{
  ◌≡◌, refl, subst, arith, true, none, some, List, [], ◌∷◌, String, Arg, pos, is_run_id, member,
}
use fcapsule_lab.Prelude.Exec.{ok}
use fcapsule_lab.Library.Runtime.{
  Active, Runtime, Event, starting, recovering, ticking, finishing, start, handle_all, known_case,
  valid_run, valid_seconds, is_busy, owns,
}
use fcapsule_lab.Library.Runtime.Owned.{
  Spares, none_left, one_more, IsSound, some_inj, handle_all-owned,
}

abbrev run_a : String
run_a = "0123456789abcdef0123456789abcdef"

abbrev fresh : Runtime
fresh = record {
  cases = "lib-01-locks" ∷ [];
  active = none;
  attempts = λ k. 0;
  failures = λ k. 0;
  last_duration = λ k. 0;
  running = none;
}

abbrev active_run : Active
active_run = record { case_id = "lib-01-locks"; run_id = run_a; expires_at = 30000 }

abbrev started : Runtime
started = record fresh { active = some active_run }

start_example :
    start (Arg.text "lib-01-locks") (Arg.text run_a) (some (pos 20)) 10000 fresh ≡ ok started
unfolding start known_case valid_run valid_seconds is_busy is_run_id
start_example = refl

abbrev events : List Event
events =
    ticking 11000
    ∷ starting (Arg.text "lib-01-locks") Arg.null none 12000
    ∷ finishing true 7
    ∷ recovering (Arg.text "another run")
    ∷ []

started-IsSound : IsSound started
unfolding is_run_id
started-IsSound = record {
  known = λ r e.
      subst (λ x. (member x.case_id started.cases ≡ true) × (is_run_id x.run_id ≡ true))
        (some_inj active_run r e) (refl, refl);
  runs = λ r e. absurd (ground (arith, e));
  counted = λ k. omega arith;
}

handle_all-owned_example :
    ((handle_all events started).active ≡ some active_run) × IsSound (handle_all events started)
unfolding Spares owns
handle_all-owned_example =
    handle_all-owned active_run events started started-IsSound refl
      (one_more (omega arith) (one_more (omega arith) (one_more tt (one_more refl none_left))))
