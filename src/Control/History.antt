-- ===== src/Control/History.antt =====
-- The controller's history, over any sequence of calls of start, recover and watchdog (app/control.py)
-- and any change of the world between them.
use fcapsule_lab.Prelude.{
  ℕ, ◌≤◌, ◌≡◌, refl, String, Bool, Option, none, List, [], ◌∷◌, ◌++◌, length, length-last_n, last_n,
  drop, Arg, ℤ,
}
use fcapsule_lab.Control.State.{Run, recovered, Problem, Outside, Sys}
use fcapsule_lab.Control.Recover.{recover, conclude}
use fcapsule_lab.Control.Recover.Frame.{IsLasting, recover-Keeps}
use fcapsule_lab.Control.Start.{start}
use fcapsule_lab.Control.Start.Frame.{start-Keeps}
use fcapsule_lab.Control.Watchdog.{watch}
use fcapsule_lab.Control.Watchdog.Frame.{watch-Keeps}

-- A run in the history is over, and its settings and claim are not shown.
pub record IsClosed (r : Run) : Type 0 where
  pub over : r.status ≡ recovered
  pub hidden : r.baseline ≡ none
  pub released : r.claim_acquired ≡ none

abbrev pub AllClosed : List Run → Type 0
AllClosed [] = Unit
AllClosed (r ∷ l) = IsClosed r × AllClosed l

pub record IsTidy (l : List Run) : Type 0 where
  pub short : length l ≤ 20
  pub closed : AllClosed l

AllClosed-append : (l m : List Run) → AllClosed l → AllClosed m → AllClosed (l ++ m)
AllClosed-append [] m hl hm = hm
AllClosed-append (r ∷ l) m hl hm = (hl.0, AllClosed-append l m hl.1 hm)

AllClosed-drop : (n : ℕ) (l : List Run) → AllClosed l → AllClosed (drop n l)
AllClosed-drop ℕ.zero l h = h
AllClosed-drop (ℕ.suc n) [] h = h
AllClosed-drop (ℕ.suc n) (r ∷ l) h = AllClosed-drop n l h.1

last-IsTidy : (l : List Run) (r : Run) → AllClosed l → IsClosed r → IsTidy (last_n 20 (l ++ r ∷ []))
unfolding last_n
last-IsTidy l r h k = record {
  short = unfold last_n in length-last_n 20 (l ++ r ∷ []);
  closed = AllClosed-drop _ (l ++ r ∷ []) (AllClosed-append l (r ∷ []) h (k, tt));
}

-- What may happen to the controller: a call of one of its entry points, or a change outside it.
pub data Event (o : Outside) : Type 0 where
  start_call : Bool → String → ℤ → Arg → Event o
  recover_call : String → Option String → Event o
  watch_call : Event o
  elsewhere : o.World → Event o

module _ (o : Outside) where
  abbrev Tidy : Sys o → Type 0
  Tidy s = IsTidy s.own.history

  conclude-Tidy :
      (s : Sys o) (reason : String) (now : ℕ) (errors : List Problem) (run : Run)
      → Tidy s
      → Tidy (record s { own = conclude o reason now errors run s.own })
  unfolding conclude
  conclude-Tidy s reason now [] run h =
      last-IsTidy s.own.history _ h.closed (record { over = refl; hidden = refl; released = refl })
  conclude-Tidy s reason now (p ∷ l) run h = h

  Tidy-IsLasting : IsLasting o Tidy
  Tidy-IsLasting = record {
    stable = record { any_world = λ s w h. h; any_active = λ s a h. h };
    any_problems = λ s l h. h;
    any_memory = λ s m e h. h;
    concluded = conclude-Tidy;
  }

  unfoldable pub happen : Sys o → Event o → Sys o
  happen s (start_call library id value request) = (start o library id value request s).1
  happen s (recover_call reason expected) = (recover o reason expected s).1
  happen s watch_call = (watch o s).1
  happen s (elsewhere w) = record s { world = w }

  unfoldable pub run_events : Sys o → List (Event o) → Sys o
  unfolding happen
  run_events s [] = s
  run_events s (e ∷ l) = run_events (happen s e) l

  happen-Tidy : (s : Sys o) (e : Event o) → Tidy s → Tidy (happen s e)
  unfolding happen
  happen-Tidy s (start_call library id value request) h =
      (start-Keeps o Tidy Tidy-IsLasting library id value request).at s h
  happen-Tidy s (recover_call reason expected) h =
      (recover-Keeps o Tidy Tidy-IsLasting reason expected).at s h
  happen-Tidy s watch_call h = (watch-Keeps o Tidy Tidy-IsLasting).at s h
  happen-Tidy s (elsewhere w) h = h

  -- Whatever calls of start, recover and the watchdog are made, whether they succeed or raise, and
  -- whatever happens outside between them, a history that holds at most 20 runs, each of them
  -- recovered and without its settings and its claim, stays so.
  pub run_events-IsTidy :
      (s : Sys o) (l : List (Event o)) → IsTidy s.own.history → IsTidy (run_events s l).own.history
  unfolding run_events
  run_events-IsTidy s [] h = h
  run_events-IsTidy s (e ∷ l) h = run_events-IsTidy (happen s e) l (happen-Tidy s e h)
