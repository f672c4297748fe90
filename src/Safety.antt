-- ===== src/Safety.antt =====
-- app/safety.py: the lease of a run, and the memory reading that admits one. The exporter's answer
-- (urlopen) and `int(float(text))` are parameters.
mod Examples
use fcapsule_lab.Prelude.{
  ℕ, String, ◌≡◌, refl, ◌≤◌, ◌<◌, arith, Bool, true, false, not, ◌&&◌, ◌||◌, Option, none, some,
  List, [], ◌∷◌, leb, ltb, str_eq, eq_iff, if◌then◌else◌, Dict, find, put, ℤ, pos, negsuc,
}
use fcapsule_lab.Prelude.Exec.{Result, ok, err, and_then, and_then-ok, value_error, key_error}

-- lease_seconds(value), after `int(value)`
unfoldable pub lease_seconds : ℤ → Result ℕ
lease_seconds (pos n) =
    if leb 30 n && leb n 300
    then ok n
    else err (value_error "Duration must be between 30 and 300 seconds")
lease_seconds (negsuc n) = err (value_error "Duration must be between 30 and 300 seconds")

pub record Memory : Type 0 where
  pub available_bytes : ℕ
  pub total_bytes : ℕ
  pub node_identity_verified : Bool

abbrev pub available_name : String
available_name = "node_memory_MemAvailable_bytes"

abbrev pub total_name : String
total_name = "node_memory_MemTotal_bytes"

-- A line of the exporter's answer: what stands before its first blank, and the words after it.
pub record Line : Type 0 where
  pub name : String
  pub words : List String

module _ (number : String → Result ℤ) where
  -- name, value = line.split(); values[name] = int(float(value))
  record_line : Line → Dict ℤ → Result (Dict ℤ)
  record_line l values = only l.words
    where
      only : List String → Result (Dict ℤ)
      only (v ∷ []) = and_then (number v) (λ n. ok (put l.name n values))
      only _ = err (value_error "unpack")

  read_lines : List Line → Dict ℤ → Result (Dict ℤ)
  read_lines [] values = ok values
  read_lines (l ∷ rest) values =
      let here =
        if str_eq l.name available_name || str_eq l.name total_name
        then record_line l values
        else ok values in
      and_then here (read_lines rest)

value_of : String → Dict ℤ → Result ℤ
value_of name values = elim (find name values) [ none ↦ err (key_error name) | some n ↦ ok n ]

-- not 0 < available <= total
checked : ℤ → ℤ → Bool → Result Memory
checked (pos a) (pos t) verified =
    if ltb 0 a && leb a t
    then ok (record { available_bytes = a; total_bytes = t; node_identity_verified = verified })
    else err (value_error "Invalid node memory measurement")
checked _ _ verified = err (value_error "Invalid node memory measurement")

is_host : String → Option String → Bool
is_host ip none = false
is_host ip (some h) = str_eq h ip

module _ (number : String → Result ℤ) where
  measure : Result (List Line) → Bool → Result Memory
  measure response verified = and_then response λ lines.
      and_then (read_lines number lines []) λ values.
        and_then (value_of available_name values) λ available.
          and_then (value_of total_name values) λ total. checked available total verified

  unfoldable pub memory_snapshot : String → Option String → Result (List Line) → Result Memory
  unfolding measure record_line read_lines value_of checked is_host
  memory_snapshot expected_node_ip endpoint_host response =
      let same_host = is_host expected_node_ip endpoint_host in
      let expected = not (str_eq expected_node_ip "") in
      if expected && not same_host
      then err
          (value_error "Node exporter endpoint does not match the Lab controller's scheduled node")
      else measure response (expected && same_host)

-- A lease lies between 30 and 300 seconds, whatever was asked for.
pub lease_seconds_bounds : (value : ℤ) (n : ℕ) → lease_seconds value ≡ ok n → (30 ≤ n) × (n ≤ 300)
unfolding lease_seconds
lease_seconds_bounds (pos m) n h = ground arith
lease_seconds_bounds (negsuc m) n h = ground arith

checked_bounds :
    (a t : ℤ) (v : Bool) (m : Memory)
    → checked a t v ≡ ok m
    → (0 < m.available_bytes) × (m.available_bytes ≤ m.total_bytes) × (m.node_identity_verified ≡ v)
unfolding checked
checked_bounds (pos a) (pos t) v m h = ground arith
checked_bounds (negsuc a) t v m h = ground arith
checked_bounds (pos a) (negsuc t) v m h = ground arith

module _ (number : String → Result ℤ) where
  measure_bounds :
      (response : Result (List Line)) (v : Bool) (m : Memory)
      → measure number response v ≡ ok m
      → (0 < m.available_bytes)
        × (m.available_bytes ≤ m.total_bytes)
        × (m.node_identity_verified ≡ v)
  unfolding measure
  measure_bounds response v m h =
      let (lines, _, h₁) = and_then-ok response _ m h in
      let (values, _, h₂) = and_then-ok (read_lines number lines []) _ m h₁ in
      let (available, _, h₃) = and_then-ok (value_of available_name values) _ m h₂ in
      let (total, _, h₄) = and_then-ok (value_of total_name values) _ m h₃ in
      checked_bounds available total v m h₄

  is_host-eq : (ip : String) (host : Option String) → is_host ip host ≡ true → host ≡ some ip
  unfolding is_host
  is_host-eq ip none h = ground arith
  is_host-eq ip (some n) h = ground (arith, eq_iff n ip)

  -- A memory reading that is accepted measures something, does not pass the total, and counts as
  -- verified only where the endpoint's host is the node that was expected.
  pub memory_snapshot-IsSound :
      (ip : String) (host : Option String) (response : Result (List Line)) (m : Memory)
      → memory_snapshot number ip host response ≡ ok m
      → (0 < m.available_bytes)
        × (m.available_bytes ≤ m.total_bytes)
        × (m.node_identity_verified ≡ true → host ≡ some ip)
  unfolding memory_snapshot
  memory_snapshot-IsSound ip host response m h =
      let v = not (str_eq ip "") && is_host ip host in
      ground (arith, measure_bounds response v m, is_host-eq ip host)
