-- ===== src/Worker/Examples.antt =====
-- The theorems about app/worker.py at concrete inputs.
use fcapsule_lab.Prelude.{
  true, Arg, ◌≡◌, ◌≤◌, refl, String, none, List, [], ◌∷◌, arith, length, pos, str_eq, if◌then◌else◌,
}
use fcapsule_lab.Prelude.Exec.{Result, ok, err, value_error}
use fcapsule_lab.Json.{Json, Fields, get}
use fcapsule_lab.Safety.{lease_seconds}
use fcapsule_lab.Worker.Buffer.{set_mode}
use fcapsule_lab.Worker.Modes.{
  call_set_mode, call_set_mode-Entered, Entered, heartbeat, heartbeat-normal, has_run_id,
}
use fcapsule_lab.Worker.Import.{ImportRecord, max_rows, validated_import_records}
use fcapsule_lab.Worker.Import.Valid.{AllImportable, validated_import_records-ok}
use fcapsule_lab.Worker.Queue.{Worker, works, job_round}
use fcapsule_lab.Worker.Queue.Atomic.{IsConsistent, Grown, job_round-IsConsistent}
use fcapsule_lab.Worker.Buffer.{
  cpu_saturation, memory_leak, normal, Tasks, migrate_batch, migrate_record, Act, change_mode,
  retain_page, run_acts, IsBounded, run_acts-IsBounded,
}
use fcapsule_lab.Prelude.Stops.{Stop, unset, set_within}

abbrev two_widgets : Fields
two_widgets =
    Fields.field "sku" (Json.text "sku-red-widget")
      (Fields.field "quantity" (Json.number (pos 2)) Fields.end)

abbrev widget_record : ImportRecord
widget_record = record { sku = "sku-red-widget"; quantity = 2; description = "" }

validated_import_records-ok_example :
    (1 ≤ length (widget_record ∷ []))
    × (length (widget_record ∷ []) ≤ max_rows)
    × AllImportable (widget_record ∷ [])
unfolding validated_import_records get
validated_import_records-ok_example =
    validated_import_records-ok two_widgets (widget_record ∷ []) refl

abbrev decoded : String → Result Fields
decoded t = if str_eq t "good" then ok two_widgets else err (value_error "bad payload")

abbrev one_job : Worker
one_job = record {
  jobs = 0;
  poison_retries = 0;
  last_delivery_job_id = none;
  delivery_attempt = 0;
  database = record {
    lab_jobs = record { job_id = 3; payload = "good"; owner_run_id = none } ∷ [];
    lab_import_records = [];
  };
}

job_round-IsConsistent_example :
    IsConsistent (job_round decoded works one_job).1.database
    × Grown one_job.database (job_round decoded works one_job).1.database
job_round-IsConsistent_example =
    job_round-IsConsistent decoded works one_job
      (record { unique = λ i. ground arith; exclusive = λ i h. absurd (omega (arith, h)) })

abbrev quiet_tasks : Tasks
quiet_tasks = record {
  mode = normal;
  memory = [];
  allocated_bytes = 0;
  migration_backlog = 0;
  batch = none;
  expires_at = 0;
  cpu_iterations = 0;
  migration_records_completed = 0;
  export_pages_completed = 0;
  export_bytes_streamed = 0;
  control_run_id = none;
}

abbrev some_acts : List Act
some_acts = change_mode memory_leak "" 9000 none ∷ retain_page 2000000 ∷ retain_page 2000000 ∷ []

run_acts-IsBounded_example : IsBounded (run_acts some_acts quiet_tasks)
run_acts-IsBounded_example =
    run_acts-IsBounded some_acts quiet_tasks
      (record { accounted = refl; pages = omega arith; bytes = omega arith; backlog = omega arith })

abbrev migrating : Tasks
migrating = record quiet_tasks { mode = cpu_saturation; migration_backlog = 3 }

-- the event is set while the second record is prepared
abbrev stopping : List Stop
stopping = unset ∷ set_within ∷ unset ∷ unset ∷ []

two_left : (migrate_batch stopping migrating).1.migration_backlog ≡ 2
unfolding migrate_batch migrate_record
two_left = refl

abbrev tasks_of : Result Tasks → Tasks
tasks_of (ok t) = t
tasks_of (err e) = quiet_tasks

unfoldable leaking : Tasks
unfolding call_set_mode set_mode lease_seconds
leaking = tasks_of (call_set_mode "memory-leak" (pos 60) Arg.null true 1000 "b" quiet_tasks)

call_set_mode-Entered_example : Entered 1000 leaking
unfolding leaking
call_set_mode-Entered_example =
    call_set_mode-Entered "memory-leak" (pos 60) Arg.null true 1000 "b" quiet_tasks leaking refl

heartbeat-normal_example :
    (t : Tasks) × (heartbeat true 61000 "b" leaking ≡ ok t)
    × (t.mode ≡ normal)
    × (t.expires_at ≡ 0)
    × (t.memory ≡ [])
    × (t.migration_backlog ≡ 0)
unfolding leaking has_run_id
heartbeat-normal_example = heartbeat-normal 61000 "b" leaking (omega arith) (omega arith) refl
