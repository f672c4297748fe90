-- ===== src/Orders/Store.antt =====
-- The idempotency store of app/orders.py: an ordered table of requests by key. Times are in
-- milliseconds.
pub mod Counts
pub mod Room
use fcapsule_lab.Prelude.{
  ℕ, zero, suc, ◌-◌, String, Bool, true, false, not, ◌&&◌, ◌||◌, Option, none, some, List, [], ◌∷◌,
  ◌++◌, ltb, leb, length, str_eq, is_some, if◌then◌else◌,
}

abbrev pub max_idempotency_entries : ℕ
max_idempotency_entries = 10000

abbrev pub idempotency_ttl : ℕ
idempotency_ttl = 900000

-- The result that is kept of a completed request.
pub record Reply : Type 0 where
  pub status : ℕ
  pub text : String
  pub request_id : String

-- `completed` is the reply once there is one.
pub record Entry : Type 0 where
  pub fingerprint : String
  pub created_at : ℕ
  pub completed : Option Reply
  pub injected : Bool

abbrev pub Table : Type 0
Table = List (String × Entry)

-- self._idempotency.get(key)
unfoldable pub lookup : String → Table → Option Entry
lookup k [] = none
lookup k ((j, e) ∷ t) = if str_eq j k then some e else lookup k t

-- self._idempotency.pop(key, None)
unfoldable pub pop : String → Table → Table
pop k [] = []
pop k ((j, e) ∷ t) = let rest = pop k t in if str_eq j k then t else (j, e) ∷ rest

-- self._idempotency[key] = entry, where the key is not in the table
unfoldable pub add : String → Entry → Table → Table
add k e t = t ++ (k, e) ∷ []

-- self._idempotency.move_to_end(key)
unfoldable pub move_to_end : String → Table → Table
unfolding lookup pop
move_to_end k t = elim (lookup k t) [ none ↦ t | some e ↦ pop k t ++ (k, e) ∷ [] ]

-- entry.get("completed") and now - entry["created_at"] > IDEMPOTENCY_TTL_SECONDS
unfoldable pub expired : ℕ → Entry → Bool
expired now e = is_some e.completed && ltb idempotency_ttl (now - e.created_at)

-- _prune_idempotency
unfoldable pub prune : ℕ → Table → Table
unfolding expired
prune now [] = []
prune now ((k, e) ∷ t) = let rest = prune now t in if expired now e then rest else (k, e) ∷ rest

abbrev pub kept_before : String → Entry → Option Table → Option Table
kept_before k e none = none
kept_before k e (some t) = some ((k, e) ∷ t)

-- The first completed key, if any, is taken out.
unfoldable pub evict : Table → Option Table
evict [] = none
evict ((k, e) ∷ t) =
    let rest = kept_before k e (evict t) in if is_some e.completed then some t else rest

abbrev pub after_evict : Table → (Table → Bool × Table) → Option Table → Bool × Table
after_evict t again none = (false, t)
after_evict t again (some t') = again t'

-- The loop of _make_idempotency_room, for at most `fuel` rounds; each round takes one entry out.
unfoldable pub make_room_fuel : ℕ → Table → Bool × Table
make_room_fuel zero t = (ltb (length t) max_idempotency_entries, t)
make_room_fuel (suc fuel) t = elim (leb max_idempotency_entries (length t)) [
  | false ↦ (true, t)
  | true ↦ after_evict t (make_room_fuel fuel) (evict t)
]

unfoldable pub make_room : Table → Bool × Table
unfolding make_room_fuel evict
make_room t = make_room_fuel (length t) t

-- The owner's write of its result: entry["completed"] = True and the fields beside it.
unfoldable pub complete : String → Reply → ℕ → Table → Table
complete k r now [] = []
complete k r now ((j, e) ∷ t) =
    let rest = complete k r now t in
    if str_eq j k then (j, record e { completed = some r; created_at = now }) ∷ t else (j, e) ∷ rest
