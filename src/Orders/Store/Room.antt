-- ===== src/Orders/Store/Room.antt =====
-- When _make_idempotency_room of app/orders.py gives up.
use fcapsule_lab.Prelude.{
  ℕ, zero, suc, ◌≡◌, ◌≤◌, ◌<◌, refl, Bool, true, false, Option, none, some, [], ◌∷◌, arith, leb,
  length, is_some, if◌then◌else◌, Bool-cases, inl, inr,
}
use fcapsule_lab.Orders.Store.{
  max_idempotency_entries, Table, evict, kept_before, after_evict, make_room_fuel, make_room,
}
use fcapsule_lab.Orders.Store.Counts.{evict-counts}

-- No entry is completed.
abbrev pub AllPending : Table → Type 0
AllPending [] = Unit
AllPending ((k, e) ∷ t) = (e.completed ≡ none) × AllPending t

AllPending-evict : (t : Table) → evict t ≡ none → AllPending t
unfolding evict
AllPending-evict [] h = tt
AllPending-evict ((k, e) ∷ t) h = by_rest (evict t) (AllPending-evict t) h
  where
    by_rest :
        (r : Option Table)
        → (r ≡ none → AllPending t)
        → (if is_some e.completed then some t else kept_before k e r) ≡ none
        → AllPending ((k, e) ∷ t)
    by_rest none ih h = (ground arith, ih refl)
    by_rest (some u) ih h = absurd (ground arith)

-- The table is full, and nothing in it can be dropped.
abbrev pub Crowded : Table → Type 0
Crowded t = (max_idempotency_entries ≤ length t) × AllPending t

abbrev Decided : Bool × Table → Type 0
Decided r = (r.0 ≡ true → length r.1 < max_idempotency_entries) × (r.0 ≡ false → Crowded r.1)

after_evict-Decided :
    (t : Table) (again : Table → Bool × Table) (r : Option Table)
    → max_idempotency_entries ≤ length t
    → (r ≡ none → AllPending t)
    → ((u : Table) → r ≡ some u → Decided (again u))
    → Decided (after_evict t again r)
after_evict-Decided t again none full stuck more =
    (λ e. absurd (ground arith), λ e. (full, stuck refl))
after_evict-Decided t again (some u) full stuck more = more u refl

make_room_fuel-Decided : (fuel : ℕ) (t : Table) → length t ≤ fuel → Decided (make_room_fuel fuel t)
unfolding make_room_fuel
make_room_fuel-Decided zero t small = (λ e. ground arith, λ e. absurd (ground arith))
make_room_fuel-Decided (suc fuel) t small =
    elim (Bool-cases (leb max_idempotency_entries (length t))) [
      | inl full ↦
          rw (full, make_room_fuel)
            (after_evict-Decided t (make_room_fuel fuel) (evict t) (ground arith)
              (AllPending-evict t)
              (λ u e. make_room_fuel-Decided fuel u (ground (arith, evict-counts "" t u e))))
      | inr room ↦ rw (room, make_room_fuel) (λ e. ground arith, λ e. absurd (ground arith))
    ]

-- Making room ends with a table below 10000 entries, or it gives up: then the table has at least
-- 10000 entries and none of them is completed.
pub make_room-decides :
    (t : Table)
    → ((make_room t).0 ≡ true → length (make_room t).1 < max_idempotency_entries)
      × ((make_room t).0 ≡ false → Crowded (make_room t).1)
unfolding make_room
make_room-decides t = make_room_fuel-Decided (length t) t (omega arith)
