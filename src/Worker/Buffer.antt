-- ===== src/Worker/Buffer.antt =====
-- The export buffer and the migration batch of app/worker.py. A page is its length in bytes.
pub mod Migration
use fcapsule_lab.Prelude.{
  ℕ, zero, suc, ◌+◌, ◌-◌, ◌*◌, ◌≡◌, ◌≤◌, refl, sym, ap, ◌∙◌, String, Bool, true, false, ◌&&◌, ◌||◌,
  Option, none, some, List, [], ◌∷◌, ◌++◌, arith, ltb, leb, ◌==◌, length, length-append,
  if◌then◌else◌, Bool-cases, inl, inr,
}
use fcapsule_lab.Prelude.Stops.{Stop, unset, set_before, set_within, is_within}

pub data WorkerMode : Type 0 where
  normal cpu_saturation memory_leak : WorkerMode

abbrev max_buffered_export_pages : ℕ
max_buffered_export_pages = 160

abbrev max_buffered_export_bytes : ℕ
max_buffered_export_bytes = 96 * 1024 * 1024

abbrev cpu_migration_batch_size : ℕ
cpu_migration_batch_size = 160

-- What the modes' threads change. `memory` is the lengths of the retained pages.
pub record Tasks : Type 0 where
  pub mode : WorkerMode
  pub memory : List ℕ
  pub allocated_bytes : ℕ
  pub migration_backlog : ℕ
  pub batch : Option String
  pub expires_at : ℕ
  pub cpu_iterations : ℕ
  pub migration_records_completed : ℕ
  pub export_pages_completed : ℕ
  pub export_bytes_streamed : ℕ
  pub control_run_id : Option String

abbrev pub lease_end : WorkerMode → ℕ → ℕ
lease_end normal at = 0
lease_end m at = at

abbrev batch_of : WorkerMode → String → Option String
batch_of cpu_saturation id = some id
batch_of m id = none

abbrev backlog_of : WorkerMode → ℕ
backlog_of cpu_saturation = cpu_migration_batch_size
backlog_of m = 0

-- What set_mode writes under its lock, once the previous thread has stopped. `end` is now + duration.
unfoldable pub set_mode : WorkerMode → String → ℕ → Option String → Tasks → Tasks
set_mode m batch end run_id s = record s {
  mode = m;
  memory = [];
  allocated_bytes = 0;
  migration_backlog = backlog_of m;
  batch = batch_of m batch;
  expires_at = lease_end m end;
  control_run_id = run_id;
}

-- One round of _leak_memory, with a page of `size` bytes; false: it returns, at its bound.
unfoldable pub leak_page : ℕ → Tasks → Bool × Tasks
leak_page size s =
    if leb max_buffered_export_pages (length s.memory)
      || ltb max_buffered_export_bytes (s.allocated_bytes + size)
    then (false, s)
    else (
      true,
      record s {
        memory = s.memory ++ size ∷ [];
        allocated_bytes = s.allocated_bytes + size;
        export_pages_completed = suc s.export_pages_completed;
      },
    )

abbrev pub saturating : WorkerMode → Bool
saturating cpu_saturation = true
saturating m = false

-- How a round of _credential_migration_loop goes on: with another round, with _export_loop once the batch
-- is completed, or not at all.
pub data Next : Type 0 where
  again resumed left : Next

abbrev pub is_again : Next → Bool
is_again again = true
is_again next = false

-- One round of _credential_migration_loop. No other thread changes the mode, the batch or its backlog under
-- it, since set_mode writes them only once the thread has ended.
unfoldable pub migrate_record : Stop → Tasks → Next × Tasks
migrate_record set_before s = (left, s)
migrate_record stop s =
    if saturating s.mode && s.migration_backlog == 0
    then (resumed, record s { mode = normal; expires_at = 0; batch = none })
    else if is_within stop
    then (left, s)
    else (
      again,
      record s {
        cpu_iterations = suc s.cpu_iterations;
        migration_records_completed = suc s.migration_records_completed;
        migration_backlog =
            if saturating s.mode then s.migration_backlog - 1 else s.migration_backlog;
      },
    )

-- The rounds of the loop, one for each entry; `again` where it has not ended with them.
unfoldable pub migrate_batch : List Stop → Tasks → Next × Tasks
migrate_batch [] s = (again, s)
migrate_batch (stop ∷ l) s =
    let (next, t) = migrate_record stop s in
    let rest = migrate_batch l t in if is_again next then rest else (next, t)

abbrev pub total : List ℕ → ℕ
total [] = 0
total (n ∷ l) = n + total l

total-append : (l m : List ℕ) → total (l ++ m) ≡ total l + total m
total-append [] m = omega arith
total-append (n ∷ l) m = omega (arith, total-append l m)

-- The retained pages are accounted for, and within the bounds.
pub record IsBounded (s : Tasks) : Type 0 where
  pub accounted : s.allocated_bytes ≡ total s.memory
  pub pages : length s.memory ≤ max_buffered_export_pages
  pub bytes : s.allocated_bytes ≤ max_buffered_export_bytes
  pub backlog : s.migration_backlog ≤ cpu_migration_batch_size

leak_page-IsBounded : (size : ℕ) (s : Tasks) → IsBounded s → IsBounded (leak_page size s).1
unfolding leak_page
leak_page-IsBounded size s h =
    elim (Bool-cases (
      leb max_buffered_export_pages (length s.memory)
      || ltb max_buffered_export_bytes (s.allocated_bytes + size))) [
        | inl full ↦ rw (full, leak_page) h
        | inr room ↦
            rw (room, leak_page)
              (record {
                accounted = omega (arith, h.accounted, total-append s.memory (size ∷ []));
                pages = ground (arith, length-append s.memory (size ∷ []));
                bytes = ground arith;
                backlog = h.backlog;
              })
      ]

migrate_record-backlog :
    (stop : Stop) (s : Tasks) → (migrate_record stop s).1.migration_backlog ≤ s.migration_backlog
unfolding migrate_record
migrate_record-backlog set_before s = omega arith
migrate_record-backlog unset s = ground arith
migrate_record-backlog set_within s = ground arith

migrate_record-same_pages :
    (stop : Stop) (s : Tasks)
    → ((migrate_record stop s).1.memory ≡ s.memory)
      × ((migrate_record stop s).1.allocated_bytes ≡ s.allocated_bytes)
unfolding migrate_record
migrate_record-same_pages set_before s = (refl, refl)
migrate_record-same_pages unset s = ground arith
migrate_record-same_pages set_within s = ground arith

migrate_record-IsBounded :
    (stop : Stop) (s : Tasks) → IsBounded s → IsBounded (migrate_record stop s).1
migrate_record-IsBounded stop s h =
    let (memory, bytes) = migrate_record-same_pages stop s in
    record {
      accounted = bytes ∙ h.accounted ∙ ap total (sym memory);
      pages = omega (arith, h.pages, ap length memory);
      bytes = omega (arith, h.bytes, bytes);
      backlog = omega (arith, h.backlog, migrate_record-backlog stop s);
    }

pub set_mode-IsBounded :
    (m : WorkerMode) (batch : String) (end : ℕ) (id : Option String) (s : Tasks)
    → IsBounded (set_mode m batch end id s)
unfolding set_mode
set_mode-IsBounded m batch end id s = record {
  accounted = refl;
  pages = omega arith;
  bytes = omega arith;
  backlog = small m;
}
  where
    small : (m : WorkerMode) → backlog_of m ≤ cpu_migration_batch_size
    small normal = omega arith
    small cpu_saturation = omega arith
    small memory_leak = omega arith

-- What the worker's threads and its callers may do.
pub data Act : Type 0 where
  change_mode : WorkerMode → String → ℕ → Option String → Act
  retain_page : ℕ → Act
  migrate : Stop → Act

unfoldable pub act : Act → Tasks → Tasks
unfolding set_mode leak_page migrate_record
act (change_mode m batch end id) s = set_mode m batch end id s
act (retain_page size) s = (leak_page size s).1
act (migrate stop) s = (migrate_record stop s).1

unfoldable pub run_acts : List Act → Tasks → Tasks
unfolding act
run_acts [] s = s
run_acts (a ∷ l) s = run_acts l (act a s)

-- Whatever the worker does, the retained pages are accounted for, and they stay within 160 pages and 96 MiB; the
-- batch never has more than 160 records left.
pub run_acts-IsBounded : (l : List Act) (s : Tasks) → IsBounded s → IsBounded (run_acts l s)
unfolding run_acts
run_acts-IsBounded [] s h = h
run_acts-IsBounded (change_mode m batch end id ∷ l) s h =
    run_acts-IsBounded l (set_mode m batch end id s) (set_mode-IsBounded m batch end id s)
run_acts-IsBounded (retain_page size ∷ l) s h =
    run_acts-IsBounded l (leak_page size s).1 (leak_page-IsBounded size s h)
run_acts-IsBounded (migrate stop ∷ l) s h =
    run_acts-IsBounded l (migrate_record stop s).1 (migrate_record-IsBounded stop s h)
