-- ===== src/Orders/Checkout/Flight.antt =====
-- Checkouts of app/orders.py side by side. A step is what one request does while it holds the lock;
-- between two steps of a request the others may make any of theirs. The attempts are one step, since all that
-- they write is counters.
pub mod Single
use fcapsule_lab.Prelude.{
  ℕ, zero, suc, ◌+◌, ◌≡◌, ◌≤◌, String, Bool, true, false, Option, none, some, List, [], ◌∷◌, ◌++◌,
  str_eq, ◌==◌, if◌then◌else◌,
}
use fcapsule_lab.Orders.Upstream.{Call}
use fcapsule_lab.Orders.Checkout.{
  Mode, Config, Orders, Seen, owned, refused, replayed, in_progress, open_request, look, first_look,
  call_inventory, terminal, store_result, close_request,
}

-- Where a request is in its `try` block.
pub data Phase : Type 0 where
  -- before the loop, and in its wait
  arrived waiting : Phase
  -- the new entry is its own, and it calls the dependency
  calling : Phase
  -- a call answered 200, the result is not stored yet
  answered : Phase
  -- before `finally`: the status, whether it owns the entry, and whether it completed it
  settled : ℕ → Bool → Bool → Phase

pub record Live : Type 0 where
  pub request_id : String
  pub key : String
  pub fingerprint : String
  pub mode : Mode
  pub config : Config
  pub deadline : ℕ
  pub phase : Phase

pub record Site : Type 0 where
  pub orders : Orders
  pub live : List Live

unfoldable pub after_look : Seen → Phase
after_look owned = calling
after_look (refused status text) = settled status false false
after_look (replayed r) = settled r.status false false
after_look in_progress = waiting

unfoldable pub after_call : ℕ → Phase
unfolding terminal
after_call status = if status == 200 then answered else settled (terminal status) true false

abbrev pub move : Live → Phase → Live
move r p = record r { phase = p }

abbrev pub own_key : Live → Bool → Option String
own_key r true = some r.key
own_key r false = none

abbrev pub site : Orders → List Live → Site
site o l = record { orders = o; live = l }

-- A request moves on from its pass of the loop, or from its calls.
abbrev pub looked : List Live → Live → List Live → Seen × Orders → Site
looked before r after (seen, o) = site o (before ++ move r (after_look seen) ∷ after)

abbrev pub called : List Live → Live → List Live → ℕ × Orders → Site
called before r after (status, o) = site o (before ++ move r (after_call status) ∷ after)

-- A request begins before the loop, or with the refusal of an argument.
pub data IsNew : Phase → Type 0 where
  valid : IsNew arrived
  invalid : IsNew (settled 400 false false)

pub data Step : Site → Site → Type 0 where
  arrive :
      (o : Orders) (l : List Live) (r : Live)
      → IsNew r.phase
      → Step (site o l) (site (open_request o) (r ∷ l))
  look_first :
      (o : Orders) (before after : List Live) (r : Live) (now : ℕ)
      → r.phase ≡ arrived
      → Step
          (site o (before ++ r ∷ after))
          (looked before r after (first_look r.key r.fingerprint r.mode now r.deadline o))
  look_again :
      (o : Orders) (before after : List Live) (r : Live) (now : ℕ)
      → r.phase ≡ waiting
      → Step
          (site o (before ++ r ∷ after))
          (looked before r after (look r.key r.fingerprint r.mode now r.deadline o))
  call :
      (o : Orders) (before after : List Live) (r : Live) (answers : ℕ → Call)
      → r.phase ≡ calling
      → Step
          (site o (before ++ r ∷ after))
          (called before r after (call_inventory r.config answers o))
  store :
      (o : Orders) (before after : List Live) (r : Live) (now : ℕ)
      → r.phase ≡ answered
      → Step (site o (before ++ r ∷ after)) (
          site
            (store_result r.key r.request_id now o)
            (before ++ move r (settled 200 true true) ∷ after))
  leave :
      (o : Orders) (before after : List Live) (r : Live) (status : ℕ) (owns succeeded : Bool)
      → r.phase ≡ settled status owns succeeded
      → Step
          (site o (before ++ r ∷ after))
          (site (close_request status (own_key r owns) succeeded o) (before ++ after))

-- The sites that a service reaches from one where no request is in flight.
pub data Reach (o : Orders) : Site → Type 0 where
  start : Reach o (site o [])
  next : {s t : Site} → Reach o s → Step s t → Reach o t

-- the request's entry is in the store and not completed
abbrev pub holds : Phase → Bool
holds calling = true
holds answered = true
holds (settled status true false) = true
holds p = false

-- the requests that hold an entry under `k`
abbrev pub owners : String → List Live → ℕ
owners k [] = 0
owners k (r ∷ l) = (if str_eq r.key k then (if holds r.phase then 1 else 0) else 0) + owners k l
