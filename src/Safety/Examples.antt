-- ===== src/Safety/Examples.antt =====
-- The theorems about app/safety.py at concrete inputs.
use fcapsule_lab.Prelude.{
  ◌≡◌, ◌≤◌, ◌<◌, refl, String, true, Option, some, List, [], ◌∷◌, ℤ, pos, str_eq, if◌then◌else◌,
  find, put,
}
use fcapsule_lab.Prelude.Exec.{Result, ok, err, value_error}
use fcapsule_lab.Safety.{Line, Memory, memory_snapshot, memory_snapshot-IsSound}

-- the numbers that the answer below holds
abbrev two_numbers : String → Result ℤ
two_numbers t =
    if str_eq t "2048"
    then ok (pos 2048)
    else if str_eq t "8192"
    then ok (pos 8192)
    else err (value_error "could not convert string to float")

abbrev answer : Result (List Line)
answer = ok (
    record { name = "node_memory_MemAvailable_bytes"; words = "2048" ∷ [] }
    ∷ record { name = "up"; words = "1" ∷ [] }
    ∷ record { name = "node_memory_MemTotal_bytes"; words = "8192" ∷ [] }
    ∷ [])

abbrev node_memory : Memory
node_memory = record { available_bytes = 2048; total_bytes = 8192; node_identity_verified = true }

abbrev node_ip : String
node_ip = "10.0.0.7"

abbrev node_host : Option String
node_host = some node_ip

memory_snapshot-IsSound_example :
    (0 < node_memory.available_bytes)
    × (node_memory.available_bytes ≤ node_memory.total_bytes)
    × (node_memory.node_identity_verified ≡ true → node_host ≡ some node_ip)
unfolding memory_snapshot find put
memory_snapshot-IsSound_example =
    memory_snapshot-IsSound two_numbers node_ip node_host answer node_memory refl
