-- ===== src/Orders/Checkout/Claims.antt =====
-- What one pass of the loop of checkout (app/orders.py) does to the idempotency store.
use fcapsule_lab.Prelude.{
  ℕ, ◌+◌, ◌≡◌, ◌≤◌, refl, String, Bool, true, false, Option, none, some, [], ◌∷◌, arith, leb,
  str_eq, eq_iff, if◌then◌else◌, Bool-cases, inl, inr,
}
use fcapsule_lab.Orders.Store.{Reply, Entry, Table, lookup, pop, add, move_to_end, prune, make_room}
use fcapsule_lab.Orders.Store.Counts.{
  occurs, pending, wait, hit, occurs-append, pending-append, pending-le-occurs, occurs-lookup-none,
  prune-counts, make_room-counts, pop-counts,
}
use fcapsule_lab.Orders.Checkout.{
  Mode, Orders, Seen, owned, replayed, claim_key, see_entry, look_at, look, first_look,
}

abbrev pub is_owned : Seen → Bool
is_owned owned = true
is_owned v = false

pending-lookup :
    (k : String) (t : Table) (e : Entry)
    → occurs k t ≤ 1
    → lookup k t ≡ some e
    → pending k t ≡ wait e.completed
unfolding lookup
pending-lookup k [] e u h = absurd (ground arith)
pending-lookup k ((j, f) ∷ t) e u h = ground (arith, pending-lookup k t e, pending-le-occurs k t)

-- How a pass that ends with `seen` may change the entries under `j`.
pub record Counted (k : String) (j : String) (t : Table) (seen : Seen) (u : Table) : Type 0 where
  pub waits : pending j u ≡ pending j t + (if is_owned seen then hit j k else 0)
  pub unique : occurs j u ≤ 1

add-Counted :
    (k j : String) (e : Entry) (t u : Table)
    → e.completed ≡ none
    → occurs k t ≡ 0
    → occurs j t ≤ 1
    → occurs j u ≤ occurs j t
    → pending j u ≡ pending j t
    → Counted k j t owned (add k e u)
unfolding add
add-Counted k j e t u fresh empty one fewer same = record {
  waits = ground (arith, pending-append j u ((k, e) ∷ []), eq_iff k j);
  unique = ground (arith, occurs-append j u ((k, e) ∷ []), eq_iff k j);
}

move_to_end-Counted :
    (k j : String) (e : Entry) (r : Reply) (t : Table)
    → lookup k t ≡ some e
    → e.completed ≡ some r
    → occurs k t ≤ 1
    → occurs j t ≤ 1
    → Counted k j t (replayed r) (move_to_end k t)
unfolding move_to_end
move_to_end-Counted k j e r t found done one one_j = record {
  waits = ground (
    arith,
    pending-append j (pop k t) ((k, e) ∷ []),
    pop-counts k j t,
    eq_iff k j,
    pending-lookup k t e one found,
    pending-le-occurs k (pop k t),
  );
  unique = ground (arith, occurs-append j (pop k t) ((k, e) ∷ []), pop-counts k j t, eq_iff k j);
}

no_claim :
    (k j : String) (t u : Table) (seen : Seen)
    → is_owned seen ≡ false
    → occurs j t ≤ 1
    → occurs j u ≤ occurs j t
    → pending j u ≡ pending j t
    → Counted k j t seen u
no_claim k j t u seen unowned one fewer same = record {
  waits = ground arith;
  unique = ground arith;
}

claim_key-Counted :
    (k f j : String) (m : Mode) (now : ℕ) (r : Bool × Table) (s : Orders)
    → occurs k s.idempotency ≡ 0
    → occurs j s.idempotency ≤ 1
    → occurs j r.1 ≤ occurs j s.idempotency
    → occurs k r.1 ≤ occurs k s.idempotency
    → pending j r.1 ≡ pending j s.idempotency
    → Counted k j s.idempotency (claim_key k f m now r s).0 (claim_key k f m now r s).1.idempotency
unfolding claim_key
claim_key-Counted k f j m now (false, t) s empty one fewer fewer_k same =
    no_claim k j s.idempotency t _ refl one fewer same
claim_key-Counted k f j m now (true, t) s empty one fewer fewer_k same =
    add-Counted k j _ s.idempotency t refl empty one fewer same

see_entry-Counted :
    (k j : String) (now deadline : ℕ) (e : Entry) (c : Option Reply) (s : Orders)
    → lookup k s.idempotency ≡ some e
    → e.completed ≡ c
    → occurs k s.idempotency ≤ 1
    → occurs j s.idempotency ≤ 1
    → Counted k j s.idempotency
        (see_entry k now deadline c s).0
        (see_entry k now deadline c s).1.idempotency
unfolding see_entry
see_entry-Counted k j now deadline e (some r) s found done one one_j =
    move_to_end-Counted k j e r s.idempotency found done one one_j
see_entry-Counted k j now deadline e none s found done one one_j =
    elim (Bool-cases (leb deadline now)) [
      | inl late ↦
          rw (late, see_entry)
            (no_claim k j s.idempotency s.idempotency _ refl one_j (omega arith) refl)
      | inr early ↦
          rw (early, see_entry)
            (no_claim k j s.idempotency s.idempotency _ refl one_j (omega arith) refl)
    ]

look_at-Counted :
    (k f j : String) (m : Mode) (now deadline : ℕ) (found : Option Entry) (s : Orders)
    → lookup k s.idempotency ≡ found
    → occurs k s.idempotency ≤ 1
    → occurs j s.idempotency ≤ 1
    → Counted k j s.idempotency
        (look_at k f m now deadline found s).0
        (look_at k f m now deadline found s).1.idempotency
unfolding look_at
look_at-Counted k f j m now deadline none s h one one_j =
    let (fewer, same) = make_room-counts j s.idempotency in
    claim_key-Counted k f j m now (make_room s.idempotency) s (occurs-lookup-none k s.idempotency h)
      one_j fewer (make_room-counts k s.idempotency).0 same
look_at-Counted k f j m now deadline (some e) s h one one_j =
    elim (Bool-cases (str_eq e.fingerprint f)) [
      | inl e₁ ↦
          rw (e₁, look_at) (see_entry-Counted k j now deadline e e.completed s h refl one one_j)
      | inr e₁ ↦
          rw (e₁, look_at)
            (no_claim k j s.idempotency s.idempotency _ refl one_j (omega arith) refl)
    ]

-- A pass of the loop adds an incomplete entry under the key that it then owns, and changes the number of
-- incomplete entries under no other key; a key that has at most one entry keeps at most one.
pub look-Counted :
    (k f j : String) (m : Mode) (now deadline : ℕ) (s : Orders)
    → occurs k s.idempotency ≤ 1
    → occurs j s.idempotency ≤ 1
    → Counted k j s.idempotency
        (look k f m now deadline s).0
        (look k f m now deadline s).1.idempotency
unfolding look
look-Counted k f j m now deadline s one one_j =
    look_at-Counted k f j m now deadline (lookup k s.idempotency) s refl one one_j

pub first_look-Counted :
    (k f j : String) (m : Mode) (now deadline : ℕ) (s : Orders)
    → occurs k s.idempotency ≤ 1
    → occurs j s.idempotency ≤ 1
    → Counted k j s.idempotency
        (first_look k f m now deadline s).0
        (first_look k f m now deadline s).1.idempotency
unfolding first_look
first_look-Counted k f j m now deadline s one one_j =
    let (fewer_k, _) = prune-counts now k s.idempotency in
    let (fewer, same) = prune-counts now j s.idempotency in
    let h =
      look-Counted k f j m now deadline (record s { idempotency = prune now s.idempotency })
        (omega (arith, fewer_k, one)) (omega (arith, fewer, one_j)) in
    record { waits = omega (arith, h.waits, same); unique = h.unique }

look_at-inflight :
    (k f : String) (m : Mode) (now deadline : ℕ) (found : Option Entry) (r : Bool × Table)
    (s : Orders)
    → make_room s.idempotency ≡ r
    → (look_at k f m now deadline found s).1.inflight ≡ s.inflight
unfolding look_at claim_key see_entry
look_at-inflight k f m now deadline none (false, t) s e = rw e refl
look_at-inflight k f m now deadline none (true, t) s e = rw e refl
look_at-inflight k f m now deadline (some e) r s h = ground arith

pub look-inflight :
    (k f : String) (m : Mode) (now deadline : ℕ) (s : Orders)
    → (look k f m now deadline s).1.inflight ≡ s.inflight
unfolding look
look-inflight k f m now deadline s = look_at-inflight k f m now deadline _ _ s refl

pub first_look-inflight :
    (k f : String) (m : Mode) (now deadline : ℕ) (s : Orders)
    → (first_look k f m now deadline s).1.inflight ≡ s.inflight
unfolding first_look
first_look-inflight k f m now deadline s =
    look-inflight k f m now deadline (record s { idempotency = prune now s.idempotency })
