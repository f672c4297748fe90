-- ===== src/Orders/Settings/Lease.antt =====
-- What set_mode of app/orders.py leaves: valid settings and a bounded lease.
use fcapsule_lab.Prelude.{
  ℕ, ◌+◌, ◌≡◌, ◌≤◌, refl, ap, subst, String, Bool, arith, Arg, ℤ, pos, negsuc,
}
use fcapsule_lab.Prelude.Exec.{Result, ok, and_then-ok, ok_inj, lifted-ok, modify, ◌>>=◌}
use fcapsule_lab.Json.{Json, Fields, get}
use fcapsule_lab.Orders.Checkout.{Mode, normal, configured, idempotency_conflict, Config, Orders}
use fcapsule_lab.Orders.Settings.{
  mode_of, validate_run_id, short_identifier, value_or, valid_url, valid_timeout, valid_retries,
  Settings, settings_values, lease_length, lease_end, length_of, write_settings, write_lease,
  checked_port, new_config, set_mode,
}

-- Settings that a checkout can run with.
pub record IsValid (c : Config) : Type 0 where
  pub slow_enough : 10 ≤ c.timeout
  pub fast_enough : c.timeout ≤ 30000
  pub one_attempt : 1 ≤ c.max_attempts
  pub few_attempts : c.max_attempts ≤ 5

valid_timeout-ok : (t u : ℕ) → valid_timeout t ≡ ok u → (10 ≤ u) × (u ≤ 30000)
unfolding valid_timeout
valid_timeout-ok t u h = ground arith

valid_retries-ok : (n : ℤ) (m : ℕ) → valid_retries n ≡ ok m → (1 ≤ m) × (m ≤ 5)
unfolding valid_retries
valid_retries-ok (pos n) m h = ground arith
valid_retries-ok (negsuc n) m h = absurd (ground arith)

lease_length-bounds : (d : ℤ) → (30000 ≤ lease_length d) × (lease_length d ≤ 300000)
unfolding lease_length
lease_length-bounds (pos n) = ground arith
lease_length-bounds (negsuc n) = ground arith

-- The end of a lease that is taken at `now`, in milliseconds: none in normal mode, and 30 to 300 seconds
-- on in every other mode.
abbrev pub IsLeased : ℕ → Mode → ℕ → Type 0
IsLeased now normal end = end ≡ 0
IsLeased now m end = (now + 30000 ≤ end) × (end ≤ now + 300000)

module _ (number : Json → Result ℕ) (whole : Json → Result ℤ) (port_is_valid : String → Bool)
    (default_url : String) where
  checked_port-ok :
      (c d : Config) → checked_port number whole port_is_valid default_url c ≡ ok d → c ≡ d
  unfolding checked_port
  checked_port-ok c d h = ground arith

  new_config-IsValid :
      (values : Fields) (c : Config)
      → new_config number whole port_is_valid default_url values ≡ ok c
      → IsValid c
  unfolding new_config
  new_config-IsValid values c h =
      let (url, _, h₁) =
        and_then-ok (valid_url (value_or (Json.text default_url) (get "INVENTORY_URL" values))) _ c
          h in
      let (t, _, h₂) =
        and_then-ok (number (value_or (Json.text "1.5") (get "INVENTORY_TIMEOUT_SECONDS" values))) _
          c h₁ in
      let (n, _, h₃) =
        and_then-ok (whole (value_or (Json.text "3") (get "MAX_RETRIES" values))) _ c h₂ in
      let (timeout, slow, h₄) = and_then-ok (valid_timeout t) _ c h₃ in
      let (retries, few, h₅) = and_then-ok (valid_retries n) _ c h₄ in
      let (schema, _, h₆) =
        and_then-ok
          (short_identifier 32 (value_or (Json.text "v1") (get "ORDER_EXPECTED_SCHEMA" values))) _ c
          h₅ in
      let (key, _, h₇) =
        and_then-ok
          (short_identifier 64
            (value_or (Json.text "checkout-key-v1") (get "ORDER_SIGNING_KEY_ID" values)))
          _ c h₆ in
      let (enough, quick) = valid_timeout-ok t timeout slow in
      let (one, five) = valid_retries-ok n retries few in
      subst IsValid (checked_port-ok _ c h₇) (record {
        slow_enough = enough;
        fast_enough = quick;
        one_attempt = one;
        few_attempts = five;
      })

  -- What a call of set_mode that returns leaves of the state.
  pub record Applied (now : ℕ) (s t : Orders) : Type 0 where
    pub valid : IsValid t.config
    pub leased : IsLeased now t.mode t.expires_at
    pub same_requests : t.inflight ≡ s.inflight
    pub same_table : t.idempotency ≡ s.idempotency

  length_of-lease_end :
      (m : Mode) (duration : Json) (now d : ℕ)
      → length_of number whole port_is_valid default_url m duration ≡ ok d
      → IsLeased now m (lease_end m now d)
  unfolding length_of
  length_of-lease_end normal duration now d h = refl
  length_of-lease_end configured duration now d h =
      let (n, _, same) = and_then-ok (whole duration) _ d h in
      let (long, short) = lease_length-bounds n in
      let e : lease_length n ≡ d = ok_inj _ _ same in
      (omega (arith, long, e), omega (arith, short, e))
  length_of-lease_end idempotency_conflict duration now d h =
      let (n, _, same) = and_then-ok (whole duration) _ d h in
      let (long, short) = lease_length-bounds n in
      let e : lease_length n ≡ d = ok_inj _ _ same in
      (omega (arith, long, e), omega (arith, short, e))

  -- A call of set_mode that returns leaves settings with a timeout of 10 to 30000 milliseconds and 1 to 5
  -- attempts, and no lease in normal mode and one of 30 to 300 seconds in every other; the requests in
  -- flight and the idempotency store are as before.
  pub set_mode-Applied :
      (mode : String) (duration : Json) (settings : Settings) (run_id : Arg) (now : ℕ)
      (fresh : String) (s t : Orders)
      → set_mode number whole port_is_valid default_url mode duration settings run_id now fresh s
        ≡ (ok tt, t)
      → Applied now s t
  unfolding set_mode write_settings write_lease ◌>>=◌ modify
  set_mode-Applied mode duration settings run_id now fresh s t h =
      let (m, _, h₁) = lifted-ok (mode_of mode) _ s t tt h in
      let (id, _, h₂) = lifted-ok (validate_run_id run_id) _ s t tt h₁ in
      let (values, _, h₃) = lifted-ok (settings_values settings) _ s t tt h₂ in
      let (c, made, h₄) =
        lifted-ok (new_config number whole port_is_valid default_url values) _ s t tt h₃ in
      let (d, long_enough, h₅) =
        lifted-ok (length_of number whole port_is_valid default_url m duration) _
          (write_settings m fresh c s) t tt h₄ in
      let same : write_lease m id now d (write_settings m fresh c s) ≡ t = ap (λ r. r.1) h₅ in
      subst (Applied now s) same (record {
        valid = new_config-IsValid values c made;
        leased = length_of-lease_end m duration now d long_enough;
        same_requests = refl;
        same_table = refl;
      })
