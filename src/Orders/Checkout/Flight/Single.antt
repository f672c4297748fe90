-- ===== src/Orders/Checkout/Flight/Single.antt =====
-- At most one checkout at a time works on a key (app/orders.py).
use fcapsule_lab.Prelude.{
  ℕ, suc, ◌+◌, ◌-◌, ◌≡◌, ◌≤◌, refl, ◌∙◌, ap, sym, subst, String, Bool, true, false, none, some,
  List, [], ◌∷◌, ◌++◌, arith, str_eq, eq_iff, length, length-append, if◌then◌else◌, Bool-cases, inl,
  inr,
}
use fcapsule_lab.Orders.Store.{Reply, Table, pop, complete}
use fcapsule_lab.Orders.Store.Counts.{
  occurs, pending, pending-le-occurs, pop-counts, complete-counts,
}
use fcapsule_lab.Orders.Checkout.{
  Orders, Seen, owned, refused, replayed, in_progress, open_request, store_result, close_request,
}
use fcapsule_lab.Orders.Checkout.Attempts.{call_inventory-same}
use fcapsule_lab.Orders.Checkout.Claims.{
  is_owned, Counted, look-Counted, first_look-Counted, look-inflight, first_look-inflight,
}
use fcapsule_lab.Orders.Checkout.Flight.{
  Phase, settled, Live, Site, after_look, after_call, move, own_key, site, IsNew, valid, invalid,
  Step, arrive, look_first, look_again, call, store, leave, Reach, start, next, holds, owners,
  looked,
}

owners-append : (k : String) (l m : List Live) → owners k (l ++ m) ≡ owners k l + owners k m
owners-append k [] m = omega arith
owners-append k (r ∷ l) m = omega (arith, owners-append k l m)

-- The counter counts the requests in flight; an incomplete entry stands for each request that works on
-- its key; and a key has one entry at most.
pub record IsSound (s : Site) : Type 0 where
  pub counted : s.orders.inflight ≡ length s.live
  pub matched : (k : String) → pending k s.orders.idempotency ≡ owners k s.live
  pub unique : (k : String) → occurs k s.orders.idempotency ≤ 1

abbrev weight : String → Live → ℕ
weight k r = if str_eq r.key k then (if holds r.phase then 1 else 0) else 0

-- One request moved on, in place.
moved :
    (o o' : Orders) (before after : List Live) (r : Live) (p : Phase)
    → IsSound (site o (before ++ r ∷ after))
    → o'.inflight ≡ o.inflight
    → ((k : String)
        → (pending k o'.idempotency + weight k r ≡ pending k o.idempotency + weight k (move r p))
          × (occurs k o'.idempotency ≤ 1))
    → IsSound (site o' (before ++ move r p ∷ after))
moved o o' before after r p h same change = record {
  counted = omega (
    arith,
    h.counted,
    same,
    length-append before (r ∷ after),
    length-append before (move r p ∷ after),
  );
  matched = λ k. omega (
    arith,
    h.matched k,
    (change k).0,
    owners-append k before (r ∷ after),
    owners-append k before (move r p ∷ after),
  );
  unique = λ k. (change k).1;
}

holds-after_look : (seen : Seen) → holds (after_look seen) ≡ is_owned seen
unfolding after_look
holds-after_look owned = refl
holds-after_look (refused status text) = refl
holds-after_look (replayed r) = refl
holds-after_look in_progress = refl

after_look-IsSound :
    (o : Orders) (before after : List Live) (r : Live) (seen : Seen) (o' : Orders)
    → IsSound (site o (before ++ r ∷ after))
    → holds r.phase ≡ false
    → o'.inflight ≡ o.inflight
    → ((k : String) → Counted r.key k o.idempotency seen o'.idempotency)
    → IsSound (looked before r after (seen, o'))
after_look-IsSound o before after r seen o' h idle same change =
    moved o o' before after r (after_look seen) h same
      λ k. (ground (arith, (change k).waits, holds-after_look seen), (change k).unique)

same-IsSound :
    (o o' : Orders) (before after : List Live) (r : Live) (p : Phase)
    → IsSound (site o (before ++ r ∷ after))
    → holds p ≡ holds r.phase
    → o'.inflight ≡ o.inflight
    → o'.idempotency ≡ o.idempotency
    → IsSound (site o' (before ++ move r p ∷ after))
same-IsSound o o' before after r p h keeps same table =
    moved o o' before after r p h same λ k. rw (table, keeps) (refl, h.unique k)

holds-after_call : (status : ℕ) → holds (after_call status) ≡ true
unfolding after_call
holds-after_call status = ground arith

-- The one request that holds an entry of the key lets go of it.
lets_go :
    (o : Orders) (before after : List Live) (r : Live) (u : Table) (k : String)
    → IsSound (site o (before ++ r ∷ after))
    → holds r.phase ≡ true
    → (str_eq r.key k ≡ false → pending k u ≡ pending k o.idempotency)
    → pending r.key u ≡ 0
    → pending k u + weight k r ≡ pending k o.idempotency
lets_go o before after r u k h mine others none_left = elim (Bool-cases (str_eq r.key k)) [
  | inl e ↦
      let same_key = (eq_iff r.key k).0 e in
      ground (
        arith,
        subst (λ j. pending j u ≡ 0) same_key none_left,
        h.matched k,
        h.unique k,
        owners-append k before (r ∷ after),
        pending-le-occurs k o.idempotency,
      )
  | inr e ↦ ground (arith, others e)
]

store-IsSound :
    (o : Orders) (before after : List Live) (r : Live) (id : String) (now : ℕ)
    → IsSound (site o (before ++ r ∷ after))
    → holds r.phase ≡ true
    → IsSound
        (site (store_result r.key id now o) (before ++ move r (settled 200 true true) ∷ after))
unfolding store_result
store-IsSound o before after r id now h mine =
    let reply : Reply = record { status = 200; text = "completed"; request_id = id } in
    let u = complete r.key reply now o.idempotency in
    moved o (record o { idempotency = u }) before after r (settled 200 true true) h refl
      λ k.
        let (as_many, others, done, _) = complete-counts r.key k reply now o.idempotency in
        (
          ground (arith, lets_go o before after r u k h mine others (done (h.unique r.key))),
          omega (arith, as_many, h.unique k),
        )

-- One request left.
left :
    (o o' : Orders) (before after : List Live) (r : Live)
    → IsSound (site o (before ++ r ∷ after))
    → o'.inflight ≡ o.inflight - 1
    → ((k : String)
        → (pending k o'.idempotency + weight k r ≡ pending k o.idempotency)
          × (occurs k o'.idempotency ≤ 1))
    → IsSound (site o' (before ++ after))
left o o' before after r h one_less change = record {
  counted =
      omega
        (arith, h.counted, one_less, length-append before (r ∷ after), length-append before after);
  matched = λ k. omega (
    arith,
    h.matched k,
    (change k).0,
    owners-append k before (r ∷ after),
    owners-append k before after,
  );
  unique = λ k. (change k).1;
}

weightless : (k : String) (r : Live) → holds r.phase ≡ false → weight k r ≡ 0
weightless k r e = ground arith

leave-IsSound :
    (o : Orders) (before after : List Live) (r : Live) (status : ℕ) (owns succeeded : Bool)
    → IsSound (site o (before ++ r ∷ after))
    → holds r.phase ≡ holds (settled status owns succeeded)
    → IsSound (site (close_request status (own_key r owns) succeeded o) (before ++ after))
unfolding close_request
leave-IsSound o before after r status false succeeded h e =
    left o (close_request status none succeeded o) before after r h refl
      λ k. (omega (arith, weightless k r e), h.unique k)
leave-IsSound o before after r status true true h e =
    left o (close_request status (some r.key) true o) before after r h refl
      λ k. (omega (arith, weightless k r e), h.unique k)
leave-IsSound o before after r status true false h e =
    left o (close_request status (some r.key) false o) before after r h refl λ k.
      let (fewer, others, gone) = pop-counts r.key k o.idempotency in
      (
        lets_go o before after r (pop r.key o.idempotency) k h e others (
            omega
              (arith, gone (h.unique r.key), pending-le-occurs r.key (pop r.key o.idempotency))),
        omega (arith, fewer, h.unique k),
      )

arrive-IsSound :
    (o : Orders) (l : List Live) (r : Live)
    → IsNew r.phase
    → IsSound (site o l)
    → IsSound (site (open_request o) (r ∷ l))
unfolding open_request
arrive-IsSound o l r new h = record {
  counted = ap suc h.counted;
  matched = λ k. omega (arith, weightless k r (new_idle r.phase new), h.matched k);
  unique = h.unique;
}
  where
    new_idle : (p : Phase) → IsNew p → holds p ≡ false
    new_idle _ valid = refl
    new_idle _ invalid = refl

Step-IsSound : {s t : Site} → Step s t → IsSound s → IsSound t
Step-IsSound (arrive o l r new) h = arrive-IsSound o l r new h
Step-IsSound (look_first o before after r now e) h =
    after_look-IsSound o before after r _ _ h (rw e refl)
      (first_look-inflight r.key r.fingerprint r.mode now r.deadline o)
      λ k.
        first_look-Counted r.key r.fingerprint k r.mode now r.deadline o (h.unique r.key)
          (h.unique k)
Step-IsSound (look_again o before after r now e) h =
    after_look-IsSound o before after r _ _ h (rw e refl)
      (look-inflight r.key r.fingerprint r.mode now r.deadline o)
      λ k. look-Counted r.key r.fingerprint k r.mode now r.deadline o (h.unique r.key) (h.unique k)
Step-IsSound (call o before after r answers e) h =
    let (table, same) = call_inventory-same r.config answers o in
    same-IsSound o _ before after r _ h (holds-after_call _ ∙ sym (ap holds e)) same table
Step-IsSound (store o before after r now e) h =
    store-IsSound o before after r r.request_id now h (ap holds e)
Step-IsSound (leave o before after r status owns succeeded e) h =
    leave-IsSound o before after r status owns succeeded h (ap holds e)

-- From a state with no request in flight and an empty store, whatever requests arrive and however their
-- steps interleave: the counter of requests in flight counts them, no key has two entries in the store, each
-- request that works on a key has the key's one incomplete entry, and so at most one request at a time works
-- on a key.
pub Reach-single_flight :
    (o : Orders) (s : Site)
    → o.inflight ≡ 0
    → o.idempotency ≡ []
    → Reach o s
    → (s.orders.inflight ≡ length s.live)
      × ((k : String)
          → (occurs k s.orders.idempotency ≤ 1)
            × (pending k s.orders.idempotency ≡ owners k s.live)
            × (owners k s.live ≤ 1))
Reach-single_flight o s idle empty reach =
    let h = reach-IsSound s reach in
    (
      h.counted,
      λ k. (
        h.unique k,
        h.matched k,
        omega (arith, h.unique k, h.matched k, pending-le-occurs k s.orders.idempotency),
      ),
    )
  where
    reach-IsSound : (t : Site) → Reach o t → IsSound t
    reach-IsSound _ start = record {
      counted = idle;
      matched = λ k. rw empty refl;
      unique = λ k. rw empty (omega arith);
    }
    reach-IsSound t (next {s = before} r step) = Step-IsSound step (reach-IsSound before r)
