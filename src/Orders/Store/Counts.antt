-- ===== src/Orders/Store/Counts.antt =====
-- How the operations of the idempotency store (app/orders.py) change the number of entries, and of
-- incomplete entries, under each key.
use fcapsule_lab.Prelude.{
  ℕ, zero, suc, ◌+◌, ◌≡◌, ◌≤◌, refl, String, Bool, false, Option, none, some, [], ◌∷◌, ◌++◌, arith,
  leb, length, str_eq, eq_iff, is_some, if◌then◌else◌, Bool-cases, inl, inr,
}
use fcapsule_lab.Orders.Store.{
  max_idempotency_entries, Reply, Entry, Table, lookup, pop, prune, evict, kept_before, after_evict,
  make_room_fuel, make_room, complete,
}

abbrev pub hit : String → String → ℕ
hit k j = if str_eq j k then 1 else 0

-- entries under a key
abbrev pub occurs : String → Table → ℕ
occurs k [] = 0
occurs k ((j, e) ∷ t) = hit k j + occurs k t

abbrev pub wait : Option Reply → ℕ
wait none = 1
wait (some r) = 0

-- incomplete entries under a key
abbrev pub pending : String → Table → ℕ
pending k [] = 0
pending k ((j, e) ∷ t) = (if str_eq j k then wait e.completed else 0) + pending k t

pub occurs-append : (k : String) (t u : Table) → occurs k (t ++ u) ≡ occurs k t + occurs k u
occurs-append k [] u = omega arith
occurs-append k ((j, e) ∷ t) u = omega (arith, occurs-append k t u)

pub pending-append : (k : String) (t u : Table) → pending k (t ++ u) ≡ pending k t + pending k u
pending-append k [] u = omega arith
pending-append k ((j, e) ∷ t) u = omega (arith, pending-append k t u)

pub pending-le-occurs : (k : String) (t : Table) → pending k t ≤ occurs k t
pending-le-occurs k [] = omega arith
pending-le-occurs k ((j, e) ∷ t) = ground (arith, pending-le-occurs k t)

pub occurs-lookup-none : (k : String) (t : Table) → lookup k t ≡ none → occurs k t ≡ 0
unfolding lookup
occurs-lookup-none k [] h = refl
occurs-lookup-none k ((j, e) ∷ t) h = ground (arith, occurs-lookup-none k t)

pub occurs-lookup-some : (k : String) (t : Table) (e : Entry) → lookup k t ≡ some e → 1 ≤ occurs k t
unfolding lookup
occurs-lookup-some k [] e h = absurd (ground arith)
occurs-lookup-some k ((j, f) ∷ t) e h = ground (arith, occurs-lookup-some k t e)

pub prune-counts :
    (now : ℕ) (k : String) (t : Table)
    → (occurs k (prune now t) ≤ occurs k t) × (pending k (prune now t) ≡ pending k t)
unfolding prune
prune-counts now k [] = ground arith
prune-counts now k ((j, e) ∷ t) = ground (arith, prune-counts now k t)

abbrev pub Evicted : String → Table → Table → Type 0
Evicted k t u =
    (occurs k u ≤ occurs k t) × (pending k u ≡ pending k t) × (suc (length u) ≡ length t)

evict-cons :
    (k j : String) (e : Entry) (t u : Table) (r : Option Table)
    → ((v : Table) → r ≡ some v → Evicted k t v)
    → (if is_some e.completed then some t else kept_before j e r) ≡ some u
    → Evicted k ((j, e) ∷ t) u
evict-cons k j e t u none ih h = ground arith
evict-cons k j e t u (some v) ih h = ground (arith, ih v refl)

pub evict-counts : (k : String) (t u : Table) → evict t ≡ some u → Evicted k t u
unfolding evict
evict-counts k [] u h = absurd (ground arith)
evict-counts k ((j, e) ∷ t) u h = evict-cons k j e t u (evict t) (λ v. evict-counts k t v) h

abbrev pub Made : String → Table → Bool × Table → Type 0
Made k t r = (occurs k r.1 ≤ occurs k t) × (pending k r.1 ≡ pending k t)

after_evict-Made :
    (k : String) (t : Table) (again : Table → Bool × Table) (r : Option Table)
    → ((u : Table) → r ≡ some u → Evicted k t u)
    → ((u : Table) → Made k u (again u))
    → Made k t (after_evict t again r)
after_evict-Made k t again none out more = ground arith
after_evict-Made k t again (some u) out more = ground (arith, out u refl, more u)

make_room_fuel-counts : (fuel : ℕ) (k : String) (t : Table) → Made k t (make_room_fuel fuel t)
unfolding make_room_fuel
make_room_fuel-counts zero k t = ground arith
make_room_fuel-counts (suc fuel) k t = elim (Bool-cases (leb max_idempotency_entries (length t))) [
  | inl full ↦
      rw (full, make_room_fuel)
        (after_evict-Made k t (make_room_fuel fuel) (evict t) (λ u. evict-counts k t u)
          (make_room_fuel-counts fuel k))
  | inr room ↦ rw (room, make_room_fuel) (ground arith)
]

-- Making room takes completed entries out, and no others.
pub make_room-counts : (k : String) (t : Table) → Made k t (make_room t)
unfolding make_room
make_room-counts k t = make_room_fuel-counts (length t) k t

-- The store never has two entries for a key.
abbrev pub IsTable : Table → Type 0
IsTable t = (k : String) → occurs k t ≤ 1

pub pop-counts :
    (k j : String) (t : Table)
    → (occurs j (pop k t) ≤ occurs j t)
      × (str_eq k j ≡ false → pending j (pop k t) ≡ pending j t)
      × (occurs k t ≤ 1 → occurs k (pop k t) ≡ 0)
unfolding pop
pop-counts k j [] = ground arith
pop-counts k j ((i, e) ∷ t) = ground (arith, pop-counts k j t, eq_iff i k, eq_iff i j, eq_iff k j)

pub complete-counts :
    (k j : String) (r : Reply) (now : ℕ) (t : Table)
    → (occurs j (complete k r now t) ≡ occurs j t)
      × (str_eq k j ≡ false → pending j (complete k r now t) ≡ pending j t)
      × (occurs k t ≤ 1 → pending k (complete k r now t) ≡ 0)
      × (length (complete k r now t) ≡ length t)
unfolding complete
complete-counts k j r now [] = ground arith
complete-counts k j r now ((i, e) ∷ t) =
    ground (
      arith,
      complete-counts k j r now t,
      eq_iff i k,
      eq_iff i j,
      eq_iff k j,
      pending-le-occurs k t,
    )
