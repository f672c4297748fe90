-- ===== src/Inventory/Modes/Target.antt =====
-- The number of sessions that app/mysql_inventory.py takes to press the server.
use fcapsule_lab.Prelude.{
  ℕ, ◌-◌, ◌*◌, ◌≡◌, ◌≤◌, ◌<◌, refl, arith, Bool, true, false, leb, ◌==◌, ◌||◌, if◌then◌else◌,
}
use fcapsule_lab.Prelude.Exec.{Exc, Result, ok, err}
use fcapsule_lab.Inventory.Modes.{headroom, pressure, saturation_target}

headroom_bounds :
    (n : ℕ) → (3 ≤ headroom n) × (n * 15 ≤ headroom n * 100) × (16 ≤ n → headroom n * 5 < n)
unfolding headroom
headroom_bounds n = (omega arith, omega arith, λ h. omega (arith, h))

some_error :
    (b c : Bool) (e e' : Exc) (r : Result ℕ)
    → c ≡ true
    → (x : Exc) × ((if b then err e else if c then err e' else r) ≡ err x)
some_error true c e e' r h = (e, refl)
some_error false true e e' r h = (e', refl)
some_error false false e e' r h = absurd (ground (arith, h))

refused : (n : ℕ) → n < 16 → (leb n (pressure n) || leb (pressure n * 5) (n * 4)) ≡ true
unfolding pressure
refused n h = ground (arith, (headroom_bounds n).0, h)

-- Of a server that takes 16 connections or more, the storm takes all but the headroom, which is 15% of them
-- rounded up and at least 3; and what it takes is more than 80%, the threshold of the alert. A smaller server is
-- refused with an error.
pub saturation_target_lem :
    (n : ℕ)
    → (16 ≤ n
        → (saturation_target n ≡ ok (n - headroom n))
          × (3 ≤ headroom n)
          × (n * 15 ≤ headroom n * 100)
          × (n * 4 < (n - headroom n) * 5))
      × (n < 16 → (problem : Exc) × (saturation_target n ≡ err problem))
unfolding saturation_target pressure
saturation_target_lem n =
    let (least, share, most) = headroom_bounds n in
    (
      λ h. (ground (arith, least, most h), least, share, omega (arith, most h)),
      λ h. some_error (n == 0) _ _ _ _ (refused n h),
    )
