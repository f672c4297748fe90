-- ===== src/Worker/Queue/Atomic.antt =====
-- A round of the import queue of app/worker.py is all or nothing, and never imports a job twice.
use fcapsule_lab.Prelude.{
  ℕ, suc, ◌+◌, ◌≡◌, ◌≤◌, ◌⊎◌, inl, inr, refl, ◌∙◌, ap, sym, subst, String, Bool, true, false,
  Option, none, some, List, [], ◌∷◌, ◌++◌, arith, ◌==◌, length, get_elem?, if◌then◌else◌,
}
use mathlib.Core.Option.{map as map_option}
use fcapsule_lab.Prelude.Exec.{Exc, Result, ok, err, and_then, ◌>>=◌}
use fcapsule_lab.Json.{Fields}
use fcapsule_lab.Worker.Import.{ImportRecord, validated_import_records}
use fcapsule_lab.Worker.Queue.{
  Job, Imported, Database, Worker, Sql, works, poll_fails, insert_fails, delete_fails, commit_fails,
  answer_lost, rollback_fails, record_delivery_attempt, clear_delivery_attempt, numbered,
  without_job, insert_records, delete_job, own, statement, commit, rollback, rejected,
  import_records, try_import, acknowledge, run_import, deliver, job_round,
}

-- the number of queued jobs with an ID
abbrev pub queued : ℕ → List Job → ℕ
queued i [] = 0
queued i (j ∷ l) = (if j.job_id == i then 1 else 0) + queued i l

-- the number of imported rows of a job
abbrev pub rows_of_job : ℕ → List Imported → ℕ
rows_of_job i [] = 0
rows_of_job i (r ∷ l) = (if r.job_id == i then 1 else 0) + rows_of_job i l

-- The row of lab_import_records for a record of a job.
abbrev row_of : ℕ → ℕ → ImportRecord → Imported
row_of id n r = record { job_id = id; record_number = n; row = r }

-- The commands that commit: the last two only lose what comes after.
abbrev pub commits : Sql → Bool
commits works = true
commits answer_lost = true
commits rollback_fails = true
commits sql = false

abbrev pub document : (String → Result Fields) → Job → Result (List ImportRecord)
document decode j = and_then (decode j.payload) validated_import_records

-- Why a round leaves the database as it is: a command failed, no job is queued, or the oldest one's payload
-- is no import.
pub data Stays (decode : String → Result Fields) (sql : Sql) (d : Database) : Type 0 where
  failed : commits sql ≡ false → Stays decode sql d
  idle : d.lab_jobs ≡ [] → Stays decode sql d
  invalid :
      (j : Job) (l : List Job) (e : Exc)
      → d.lab_jobs ≡ j ∷ l
      → document decode j ≡ err e
      → Stays decode sql d

-- The import of the oldest job: the other jobs stay queued, and the job's records follow the earlier rows,
-- numbered from 1.
pub record Imports (decode : String → Result Fields) (d e : Database) : Type 0 where
  pub job : Job
  pub others : List Job
  pub records : List ImportRecord
  pub rows : List Imported
  pub oldest : d.lab_jobs ≡ job ∷ others
  pub valid : document decode job ≡ ok records
  pub dequeued : e.lab_jobs ≡ others
  pub added : e.lab_import_records ≡ d.lab_import_records ++ rows
  pub numbers :
      (k : ℕ) → get_elem? rows k ≡ map_option (row_of job.job_id (1 + k)) (get_elem? records k)

-- both statements of an import, done
both : ℕ → List ImportRecord → Database → Database
unfolding insert_records delete_job
both id rs d = delete_job id (insert_records id rs d)

record_delivery_attempt-same :
    (i : ℕ) (w : Worker) → (record_delivery_attempt i w).database ≡ w.database
unfolding record_delivery_attempt
record_delivery_attempt-same i w = ground arith

clear_delivery_attempt-same :
    (i : Option ℕ) (w : Worker) → (clear_delivery_attempt i w).database ≡ w.database
unfolding clear_delivery_attempt
clear_delivery_attempt-same none w = refl
clear_delivery_attempt-same (some i) w = ground arith

-- The committed tables after the statements of a valid import.
run_import-ok :
    (sql : Sql) (i : ℕ) (rs : List ImportRecord) (w : Worker)
    → (run_import sql i (ok rs) w).1.database
      ≡ (if commits sql then both i rs w.database else w.database)
unfolding run_import try_import import_records acknowledge statement own commit rollback rejected
    both ◌>>=◌
run_import-ok works i rs w = clear_delivery_attempt-same (some i) _
run_import-ok rollback_fails i rs w = clear_delivery_attempt-same (some i) _
run_import-ok answer_lost i rs w = refl
run_import-ok poll_fails i rs w = refl
run_import-ok insert_fails i rs w = refl
run_import-ok delete_fails i rs w = refl
run_import-ok commit_fails i rs w = refl

run_import-err :
    (sql : Sql) (i : ℕ) (e : Exc) (w : Worker)
    → (run_import sql i (err e) w).1.database ≡ w.database
unfolding run_import try_import import_records acknowledge statement own commit rollback ◌>>=◌
run_import-err rollback_fails i e w = ground arith
run_import-err sql i e w = ground arith

-- The oldest job was taken, with what its statements do.
record Took (decode : String → Result Fields) (d e : Database) : Type 0 where
  job : Job
  others : List Job
  records : List ImportRecord
  oldest : d.lab_jobs ≡ job ∷ others
  valid : document decode job ≡ ok records
  result : e ≡ both job.job_id records d

module _ (decode : String → Result Fields) where
  run_import-Took :
      (sql : Sql) (j : Job) (l : List Job) (w v : Worker) (r : Result (List ImportRecord))
      → w.database.lab_jobs ≡ j ∷ l
      → v.database ≡ w.database
      → document decode j ≡ r
      → (Stays decode sql w.database × ((run_import sql j.job_id r v).1.database ≡ w.database))
        ⊎ Took decode w.database (run_import sql j.job_id r v).1.database
  run_import-Took sql j l w v (err e) h same d =
      inl (invalid j l e h d, run_import-err sql j.job_id e v ∙ same)
  run_import-Took sql j l w v (ok rs) h same d = by_commit (commits sql) refl
    where
      by_commit :
          (b : Bool)
          → commits sql ≡ b
          → (Stays decode sql w.database
              × ((run_import sql j.job_id (ok rs) v).1.database ≡ w.database))
            ⊎ Took decode w.database (run_import sql j.job_id (ok rs) v).1.database
      by_commit false e = inl (failed e, rw (run_import-ok sql j.job_id rs v, e) same)
      by_commit true e = inr (record {
        job = j;
        others = l;
        records = rs;
        oldest = h;
        valid = d;
        result = rw (run_import-ok sql j.job_id rs v, e) (ap (both j.job_id rs) same);
      })

  deliver-Took :
      (sql : Sql) (jobs : List Job) (w : Worker)
      → w.database.lab_jobs ≡ jobs
      → (Stays decode sql w.database × ((deliver decode sql jobs w).1.database ≡ w.database))
        ⊎ Took decode w.database (deliver decode sql jobs w).1.database
  unfolding deliver
  deliver-Took sql [] w h = inl (idle h, clear_delivery_attempt-same none w)
  deliver-Took sql (j ∷ l) w h =
      run_import-Took sql j l w (record_delivery_attempt j.job_id w) _ h
        (record_delivery_attempt-same j.job_id w) refl

  job_round-Took :
      (sql : Sql) (w : Worker)
      → (Stays decode sql w.database × ((job_round decode sql w).1.database ≡ w.database))
        ⊎ Took decode w.database (job_round decode sql w).1.database
  unfolding job_round
  job_round-Took poll_fails w = inl (failed refl, refl)
  job_round-Took sql w = deliver-Took sql w.database.lab_jobs w refl

-- An ID is queued once at most, and an imported job is not queued.
pub record IsConsistent (d : Database) : Type 0 where
  pub unique : (i : ℕ) → queued i d.lab_jobs ≤ 1
  pub exclusive : (i : ℕ) → 1 ≤ rows_of_job i d.lab_import_records → queued i d.lab_jobs ≡ 0

queued-without_job :
    (id i : ℕ) (l : List Job) → queued i (without_job id l) ≡ (if id == i then 0 else queued i l)
unfolding without_job
queued-without_job id i [] = ground arith
queued-without_job id i (j ∷ l) = ground (arith, queued-without_job id i l)

rows_of_job-append :
    (i : ℕ) (l m : List Imported) → rows_of_job i (l ++ m) ≡ rows_of_job i l + rows_of_job i m
rows_of_job-append i [] m = omega arith
rows_of_job-append i (r ∷ l) m = omega (arith, rows_of_job-append i l m)

rows_of_job-numbered :
    (id i n : ℕ) (rs : List ImportRecord)
    → rows_of_job i (numbered id n rs) ≡ (if id == i then length rs else 0)
unfolding numbered
rows_of_job-numbered id i n [] = ground arith
rows_of_job-numbered id i n (r ∷ rs) = ground (arith, rows_of_job-numbered id i (suc n) rs)

both-IsConsistent :
    (id : ℕ) (rs : List ImportRecord) (d : Database) → IsConsistent d → IsConsistent (both id rs d)
unfolding both insert_records delete_job
both-IsConsistent id rs d h = record {
  unique = λ i. ground (arith, queued-without_job id i d.lab_jobs, h.unique i);
  exclusive = λ i some_row. ground (
    arith,
    queued-without_job id i d.lab_jobs,
    h.exclusive i,
    rows_of_job-append i d.lab_import_records (numbered id 1 rs),
    rows_of_job-numbered id i 1 rs,
    some_row,
  );
}

-- An import leaves the rows of the jobs that are not queued as they are.
both-kept :
    (j : Job) (l : List Job) (rs : List ImportRecord) (d : Database) (i : ℕ)
    → d.lab_jobs ≡ j ∷ l
    → queued i d.lab_jobs ≡ 0
    → rows_of_job i (both j.job_id rs d).lab_import_records ≡ rows_of_job i d.lab_import_records
unfolding both insert_records delete_job
both-kept j l rs d i first none_queued =
    let absent : queued i (j ∷ l) ≡ 0 = subst (λ x. queued i x ≡ 0) first none_queued in
    ground (
      arith,
      absent,
      rows_of_job-append i d.lab_import_records (numbered j.job_id 1 rs),
      rows_of_job-numbered j.job_id i 1 rs,
    )

-- Nothing is imported that was imported before.
abbrev pub Grown : Database → Database → Type 0
Grown d e =
    (i : ℕ)
    → 1 ≤ rows_of_job i d.lab_import_records
    → rows_of_job i e.lab_import_records ≡ rows_of_job i d.lab_import_records

Took-IsConsistent :
    (decode : String → Result Fields) (d e : Database)
    → Took decode d e
    → IsConsistent d
    → IsConsistent e × Grown d e
Took-IsConsistent decode d e t h =
    subst (λ x. IsConsistent x × Grown d x) (sym t.result)
      (
        both-IsConsistent t.job.job_id t.records d h,
        λ i some_row. both-kept t.job t.others t.records d i t.oldest (h.exclusive i some_row),
      )

-- A round keeps each ID queued once at most and no imported job queued, and adds no row to a job that has
-- rows: so every job is imported at most once.
pub job_round-IsConsistent :
    (decode : String → Result Fields) (sql : Sql) (w : Worker)
    → IsConsistent w.database
    → IsConsistent (job_round decode sql w).1.database
      × Grown w.database (job_round decode sql w).1.database
job_round-IsConsistent decode sql w h = elim (job_round-Took decode sql w) [
  | inl (why, same) ↦
      subst (λ x. IsConsistent x × Grown w.database x) (sym same) (h, λ i some_row. refl)
  | inr took ↦ Took-IsConsistent decode w.database _ took h
]
