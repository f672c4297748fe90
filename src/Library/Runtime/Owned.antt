-- ===== src/Library/Runtime/Owned.antt =====
-- A case of app/library_runtime.py runs until its lease ends or its own run is recovered.
use fcapsule_lab.Prelude.{
  ℕ, ◌≡◌, ◌≤◌, ◌<◌, refl, ap, sym, subst, ◌∙◌, arith, String, Bool, true, false, Option, none, some,
  List, [], ◌∷◌, leb, member, is_run_id, if◌then◌else◌, ℤ, Arg,
}
use fcapsule_lab.Prelude.Exec.{
  Exc, value_error, Result, ok, err, and_then, and_then-ok, ok_inj, guarded-ok,
}
use fcapsule_lab.Library.Runtime.{
  Active, Runtime, known_case, valid_run, valid_seconds, is_busy, start, owns, recover, unexpired,
  begin_tick, end_of, end_tick, Event, starting, recovering, ticking, finishing, or_same, handle,
  handle_all,
}

-- The event is before the end of the run's lease, and recovers another run than it.
unfoldable pub Spares : Active → Event → Type 0
Spares r (starting case_id run_id duration now) = now < r.expires_at
Spares r (recovering run_id) = owns run_id (some r) ≡ false
Spares r (ticking now) = now < r.expires_at
Spares r (finishing failed elapsed) = Unit {0}

pub data AllSpare (r : Active) : List Event → Type 0 where
  none_left : AllSpare r []
  one_more : {e : Event} {l : List Event} → Spares r e → AllSpare r l → AllSpare r (e ∷ l)

-- what holds of every state of the runtime
pub record IsSound (s : Runtime) : Type 0 where
  pub known :
      (r : Active)
      → s.active ≡ some r
      → (member r.case_id s.cases ≡ true) × (is_run_id r.run_id ≡ true)
  pub runs : (r : Active) → s.running ≡ some r → member r.case_id s.cases ≡ true
  pub counted : (k : String) → s.failures k ≤ s.attempts k

still_busy :
    (case_id run_id : Arg) (duration : Option ℤ) (now : ℕ) (s : Runtime)
    → is_busy now s.active ≡ true
    → or_same s (start case_id run_id duration now s) ≡ s
unfolding start
still_busy case_id run_id duration now s busy =
    rw busy (refused (known_case case_id s) (valid_run run_id) (valid_seconds duration))
  where
    refused :
        (c r : Result String) (n : Result ℕ)
        → or_same s (
            and_then c λ case.
              and_then r
                λ run. and_then n λ seconds. err (value_error "Another library case is active"))
          ≡ s
    refused (ok c) (ok r) (ok n) = refl
    refused (ok c) (ok r) (err e) = refl
    refused (ok c) (err e) n = refl
    refused (err e) r n = refl

not_recovered :
    (run_id : Arg) (s : Runtime) → owns run_id s.active ≡ false → or_same s (recover run_id s) ≡ s
unfolding recover
not_recovered run_id s e = rw e refl

handle-active :
    (r : Active) (e : Event) (s : Runtime)
    → s.active ≡ some r
    → Spares r e
    → (handle e s).active ≡ some r
unfolding handle Spares is_busy recover begin_tick unexpired end_tick end_of
handle-active r (starting case_id run_id duration now) s h before =
    ap (λ t. t.active) (still_busy case_id run_id duration now s (rw h (ground (arith, before))))
    ∙ h
handle-active r (recovering run_id) s h spared =
    ap (λ t. t.active) (not_recovered run_id s (subst (λ a. owns run_id a ≡ false) (sym h) spared))
    ∙ h
handle-active r (ticking now) s h before = rw h (ground (arith, before))
handle-active r (finishing failed elapsed) s h _ = finished s.running ∙ h
  where
    finished : (running : Option Active) → (end_of running failed elapsed s).active ≡ s.active
    finished none = refl
    finished (some q) = refl

known_case-ok :
    (case_id : Arg) (s : Runtime) (c : String)
    → known_case case_id s ≡ ok c
    → member c s.cases ≡ true
unfolding known_case
known_case-ok (Arg.text t) s c h =
    let (known, same) = guarded-ok (member t s.cases) (ok t) _ c h in
    subst (λ x. member x s.cases ≡ true) (ok_inj t c same) known
known_case-ok Arg.null s c h = absurd (ground (arith, h))
known_case-ok Arg.other s c h = absurd (ground (arith, h))

valid_run-ok : (run_id : Arg) (c : String) → valid_run run_id ≡ ok c → is_run_id c ≡ true
unfolding valid_run
valid_run-ok (Arg.text t) c h =
    let (valid, same) = guarded-ok (is_run_id t) (ok t) _ c h in
    subst (λ x. is_run_id x ≡ true) (ok_inj t c same) valid
valid_run-ok Arg.null c h = absurd (ground (arith, h))
valid_run-ok Arg.other c h = absurd (ground (arith, h))

not_refused :
    (test : Bool) (e : Exc) (s t : Runtime) → (if test then err e else ok s) ≡ ok t → s ≡ t
not_refused true e s t h = absurd (ground (arith, h))
not_refused false e s t h = ok_inj s t h

start-ok :
    (case_id run_id : Arg) (duration : Option ℤ) (now : ℕ) (s t : Runtime)
    → start case_id run_id duration now s ≡ ok t
    → (r : Active) × (t ≡ record s { active = some r })
      × (member r.case_id s.cases ≡ true)
      × (is_run_id r.run_id ≡ true)
unfolding start
start-ok case_id run_id duration now s t h =
    let (case, h₁, h₂) = and_then-ok (known_case case_id s) _ t h in
    let (run, h₃, h₄) = and_then-ok (valid_run run_id) _ t h₂ in
    let (seconds, _, h₅) = and_then-ok (valid_seconds duration) _ t h₄ in
    (
      _,
      sym (not_refused (is_busy now s.active) _ _ t h₅),
      known_case-ok case_id s case h₁,
      valid_run-ok run_id run h₃,
    )

pub some_inj : (r q : Active) → some r ≡ some q → r ≡ q
some_inj r q h = ap (λ o. elim o [ none ↦ r | some x ↦ x ]) h

start-IsSound :
    (case_id run_id : Arg) (duration : Option ℤ) (now : ℕ) (s : Runtime)
    → IsSound s
    → IsSound (or_same s (start case_id run_id duration now s))
start-IsSound case_id run_id duration now s sound =
    by_result (start case_id run_id duration now s) refl
  where
    by_result :
        (came : Result Runtime)
        → start case_id run_id duration now s ≡ came
        → IsSound (or_same s came)
    by_result (err e) _ = sound
    by_result (ok t) h =
        let (r, same, known, valid) = start-ok case_id run_id duration now s t h in
        rw same (record {
          known = λ q e.
              subst (λ x. (member x.case_id s.cases ≡ true) × (is_run_id x.run_id ≡ true))
                (some_inj r q e) (known, valid);
          runs = sound.runs;
          counted = sound.counted;
        })

recover-IsSound : (run_id : Arg) (s : Runtime) → IsSound s → IsSound (or_same s (recover run_id s))
unfolding recover
recover-IsSound run_id s sound = by_owner (owns run_id s.active)
  where
    by_owner :
        (mine : Bool)
        → IsSound (
            or_same s (
              if mine
              then ok (record s { active = none })
              else err (value_error "Run ownership changed")))
    by_owner true = record {
      known = λ q e. absurd (ground (arith, e));
      runs = sound.runs;
      counted = sound.counted;
    }
    by_owner false = sound

unexpired-same : (now : ℕ) (a : Option Active) (r : Active) → unexpired now a ≡ some r → a ≡ some r
unfolding unexpired
unexpired-same now none r h = absurd (ground (arith, h))
unexpired-same now (some q) r h = from_test (leb q.expires_at now) h
  where
    from_test : (b : Bool) → (if b then none else some q) ≡ some r → some q ≡ some r
    from_test true h = absurd (ground (arith, h))
    from_test false h = h

handle-IsSound : (e : Event) (s : Runtime) → IsSound s → IsSound (handle e s)
unfolding handle begin_tick end_tick end_of
handle-IsSound (starting case_id run_id duration now) s sound =
    start-IsSound case_id run_id duration now s sound
handle-IsSound (recovering run_id) s sound = recover-IsSound run_id s sound
handle-IsSound (ticking now) s sound = record {
  known = λ r e. sound.known r (unexpired-same now s.active r e);
  runs = λ r e. (sound.known r (unexpired-same now s.active r e)).0;
  counted = sound.counted;
}
handle-IsSound (finishing failed elapsed) s sound = ended s.running failed
  where
    ended : (running : Option Active) (failed : Bool) → IsSound (end_of running failed elapsed s)
    ended none failed = sound
    ended (some r) true = record {
      known = sound.known;
      runs = λ q e. absurd (ground (arith, e));
      counted = λ k. ground (arith, sound.counted k);
    }
    ended (some r) false = record {
      known = sound.known;
      runs = λ q e. absurd (ground (arith, e));
      counted = λ k. ground (arith, sound.counted k);
    }

-- From a sound state with an active run, whatever requests come and however the runner's sections fall between
-- them: as long as the run's lease lasts and no request recovers it, the run stays the active one; and the
-- state stays sound: an active run and the case that the runner works on are of the library, the run ID is
-- valid, and no case has more failures than attempts.
pub handle_all-owned :
    (r : Active) (l : List Event) (s : Runtime)
    → IsSound s
    → s.active ≡ some r
    → AllSpare r l
    → ((handle_all l s).active ≡ some r) × IsSound (handle_all l s)
unfolding handle_all
handle_all-owned r [] s sound h spared = (h, sound)
handle_all-owned r (e ∷ l) s sound h (one_more first rest) =
    handle_all-owned r l (handle e s) (handle-IsSound e s sound) (handle-active r e s h first) rest
