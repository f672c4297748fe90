-- ===== src/Orders/Settings.antt =====
-- set_mode and _lease_loop of app/orders.py. `number` is float(value), in milliseconds, and `whole` is int(value);
-- `port_is_valid` says whether urlparse(url).port is; `default_url` is INVENTORY_URL of the environment.
pub mod Lease
use fcapsule_lab.Prelude.{
  ℕ, zero, suc, ◌+◌, ◌*◌, String, Bool, true, false, not, ◌&&◌, ◌||◌, Option, none, some, List, [],
  ◌∷◌, ltb, leb, ◌==◌, str_eq, min, max, length, all, codes, Arg, ℤ, pos, negsuc, is_run_id,
  if◌then◌else◌,
}
use fcapsule_lab.Prelude
use fcapsule_lab.Prelude.Exec.{
  Exc, Result, ok, err, and_then, value_error, Exec, gets, lift, modify, pure, ◌>>=◌, ◌>>◌,
}
use fcapsule_lab.Json
use fcapsule_lab.Json.{Json, Fields, get}
use fcapsule_lab.Orders.Checkout.{
  Mode, normal, configured, idempotency_conflict, Config, Orders, is_conflict,
}

unfoldable pub mode_of : String → Result Mode
mode_of t =
    if str_eq t "normal"
    then ok normal
    else if str_eq t "configured"
    then ok configured
    else if str_eq t "idempotency-conflict"
    then ok idempotency_conflict
    else err (value_error "Unknown orders mode")

-- _validate_run_id
unfoldable pub validate_run_id : Arg → Result (Option String)
validate_run_id Arg.null = ok none
validate_run_id (Arg.text t) =
    if is_run_id t
    then ok (some t)
    else err (value_error "run_id must be a 32-character lowercase hexadecimal ID")
validate_run_id Arg.other =
    err (value_error "run_id must be a 32-character lowercase hexadecimal ID")

abbrev letter_or_digit : ℕ → Bool
letter_or_digit c = (leb 65 c && leb c 90) || (leb 97 c && leb c 122) || (leb 48 c && leb c 57)

abbrev identifier_char : ℕ → Bool
identifier_char c = letter_or_digit c || c == 46 || c == 95 || c == 45

-- [A-Za-z0-9][A-Za-z0-9._-]*
unfoldable pub is_identifier : List ℕ → Bool
is_identifier [] = false
is_identifier (c ∷ l) = letter_or_digit c && all identifier_char l

-- _short_identifier
unfoldable pub short_identifier : ℕ → Json → Result String
unfolding is_identifier
short_identifier max_length (Json.text t) =
    if leb (length (codes t)) max_length && is_identifier (codes t)
    then ok t
    else err (value_error "must be a short identifier")
short_identifier max_length v = err (value_error "must be a short identifier")

-- values.get(key, default)
abbrev pub value_or : Json → Option Json → Json
value_or d none = d
value_or d (some v) = v

-- url.rstrip("/")
unfoldable pub strip_slashes : String → String
strip_slashes String.[] = ""
strip_slashes (String.◌∷◌ c s) =
    let rest = strip_slashes s in
    if str_eq rest "" && str_eq (String.◌∷◌ c String.[]) "/" then "" else String.◌∷◌ c rest

unfoldable pub valid_url : Json → Result String
unfolding strip_slashes
valid_url (Json.text t) =
    if str_eq t "" || ltb 2048 (length (codes t))
    then err (value_error "Inventory URL must be a non-empty URL under 2048 characters")
    else ok (strip_slashes t)
valid_url v = err (value_error "Inventory URL must be a non-empty URL under 2048 characters")

unfoldable pub valid_timeout : ℕ → Result ℕ
valid_timeout t =
    if leb 10 t && leb t 30000
    then ok t
    else err (value_error "Inventory timeout must be between 0.01 and 30 seconds")

unfoldable pub valid_retries : ℤ → Result ℕ
valid_retries (pos n) =
    if leb 1 n && leb n 5
    then ok n
    else err (value_error "MAX_RETRIES must be between 1 and 5 attempts")
valid_retries (negsuc n) = err (value_error "MAX_RETRIES must be between 1 and 5 attempts")

-- settings, as an argument of any type
pub data Settings : Type 0 where
  absent : Settings
  given : Fields → Settings
  no_object : Settings

unfoldable pub settings_values : Settings → Result Fields
settings_values absent = ok Fields.end
settings_values (given d) = ok d
settings_values no_object = err (value_error "Orders settings must be an object")

-- max(30, min(300, int(duration))), in milliseconds
unfoldable pub lease_length : ℤ → ℕ
lease_length (pos n) = max 30 (min 300 n) * 1000
lease_length (negsuc n) = 30000

abbrev pub lease_end : Mode → ℕ → ℕ → ℕ
lease_end normal now d = 0
lease_end m now d = now + d

abbrev pub namespace_of : Mode → String → Option String
namespace_of idempotency_conflict fresh = some fresh
namespace_of m fresh = none

-- What set_mode writes under its lock, before and after it reads the duration.
unfoldable pub write_settings : Mode → String → Config → Orders → Orders
write_settings mode fresh c s = record s {
  mode = mode;
  config = c;
  fault_namespace = namespace_of mode fresh;
}

unfoldable pub write_lease : Mode → Option String → ℕ → ℕ → Orders → Orders
write_lease mode run_id now d s = record s {
  expires_at = lease_end mode now d;
  control_run_id = run_id;
}

module _ (number : Json → Result ℕ) (whole : Json → Result ℤ) (port_is_valid : String → Bool)
    (default_url : String) where
  checked_port : Config → Result Config
  checked_port c =
      if port_is_valid c.inventory_url
      then ok c
      else err (value_error "Inventory URL contains an invalid port")

  unfoldable pub new_config : Fields → Result Config
  unfolding checked_port valid_url valid_timeout valid_retries short_identifier
  new_config values =
      and_then (valid_url (value_or (Json.text default_url) (get "INVENTORY_URL" values))) λ url.
        and_then (number (value_or (Json.text "1.5") (get "INVENTORY_TIMEOUT_SECONDS" values))) λ t.
          and_then (whole (value_or (Json.text "3") (get "MAX_RETRIES" values))) λ n.
            and_then (valid_timeout t) λ timeout. and_then (valid_retries n) λ retries.
              and_then
                (short_identifier 32
                  (value_or (Json.text "v1") (get "ORDER_EXPECTED_SCHEMA" values)))
                λ schema.
                  and_then
                    (short_identifier 64
                      (value_or (Json.text "checkout-key-v1") (get "ORDER_SIGNING_KEY_ID" values)))
                    λ key. checked_port (record {
                      inventory_url = url;
                      timeout = timeout;
                      max_attempts = retries;
                      signing_key_id = key;
                      expected_schema = schema;
                    })

  -- int(duration), which normal mode does not read
  unfoldable pub length_of : Mode → Json → Result ℕ
  unfolding lease_length
  length_of normal duration = ok 0
  length_of m duration = and_then (whole duration) λ n. ok (lease_length n)

  -- set_mode, at time `now`; `fresh` is the new namespace. A duration that is no number raises after the
  -- settings are written.
  unfoldable pub set_mode : String → Json → Settings → Arg → ℕ → String → Exec Orders (Unit {0})
  unfolding new_config write_settings write_lease length_of ◌>>=◌
  set_mode mode duration settings run_id now fresh = do
    m ← lift (mode_of mode)
    id ← lift (validate_run_id run_id)
    values ← lift (settings_values settings)
    c ← lift (new_config values)
    modify (write_settings m fresh c)
    d ← lift (length_of m duration)
    modify (write_lease m id now d)

  abbrev run_arg : Option String → Arg
  run_arg none = Arg.null
  run_arg (some t) = Arg.text t

  -- One round of _lease_loop.
  unfoldable pub lease_round : ℕ → String → Exec Orders (Unit {0})
  unfolding set_mode ◌>>=◌
  lease_round now fresh = do
    s ← gets λ s. s
    if not (s.expires_at == 0) && leb s.expires_at now
        then set_mode "normal" (Json.number (pos 180)) absent (run_arg s.control_run_id) now fresh
        else pure tt
