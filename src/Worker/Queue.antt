-- ===== src/Worker/Queue.antt =====
-- The import queue of app/worker.py: one round of _job_loop. The connection's commands may raise
-- pymysql.MySQLError, and a commit may raise after it took effect; `Sql` says which of these happen. An
-- uncommitted transaction is rolled back, by rollback or when the connection closes.
pub mod Atomic
use fcapsule_lab.Prelude.{
  ℕ, zero, suc, ◌+◌, String, Bool, true, false, Option, none, some, List, [], ◌∷◌, ◌++◌, ◌==◌, min,
  if◌then◌else◌,
}
use fcapsule_lab.Prelude.Exec.{
  Exc, value_error, key_error, type_error, integrity_error, operational_error, mysql_error, Result,
  ok, err, and_then, Exec, modify, raise, pure, lift, catch, ◌>>=◌, ◌>>◌,
}
use fcapsule_lab.Json.{Fields}
use fcapsule_lab.Worker.Import.{ImportRecord, validated_import_records}

-- a row of lab_jobs whose kind is "import"; the list is in the order of the IDs
pub record Job : Type 0 where
  pub job_id : ℕ
  pub payload : String
  pub owner_run_id : Option String

-- a row of lab_import_records
pub record Imported : Type 0 where
  pub job_id : ℕ
  pub record_number : ℕ
  pub row : ImportRecord

pub record Database : Type 0 where
  pub lab_jobs : List Job
  pub lab_import_records : List Imported

pub record Worker : Type 0 where
  pub jobs : ℕ
  pub poison_retries : ℕ
  pub last_delivery_job_id : Option ℕ
  pub delivery_attempt : ℕ
  pub database : Database

-- What MySQL does with the round's commands.
pub data Sql : Type 0 where
  works poll_fails insert_fails delete_fails commit_fails answer_lost rollback_fails : Sql

abbrev pub max_logged_delivery_attempt : ℕ
max_logged_delivery_attempt = 1000000

abbrev same_job : ℕ → Option ℕ → Bool
same_job id none = false
same_job id (some j) = j == id

-- _record_delivery_attempt
unfoldable pub record_delivery_attempt : ℕ → Worker → Worker
record_delivery_attempt id w =
    if same_job id w.last_delivery_job_id
    then record w { delivery_attempt = min (suc w.delivery_attempt) max_logged_delivery_attempt }
    else record w { last_delivery_job_id = some id; delivery_attempt = 1 }

-- _clear_delivery_attempt
unfoldable pub clear_delivery_attempt : Option ℕ → Worker → Worker
clear_delivery_attempt none w = record w { last_delivery_job_id = none; delivery_attempt = 0 }
clear_delivery_attempt (some id) w =
    if same_job id w.last_delivery_job_id
    then record w { last_delivery_job_id = none; delivery_attempt = 0 }
    else w

-- enumerate(records, start=1), as rows of lab_import_records
unfoldable pub numbered : ℕ → ℕ → List ImportRecord → List Imported
numbered id n [] = []
numbered id n (r ∷ l) = record { job_id = id; record_number = n; row = r } ∷ numbered id (suc n) l

-- DELETE FROM lab_jobs WHERE id=%s
unfoldable pub without_job : ℕ → List Job → List Job
without_job id [] = []
without_job id (j ∷ l) = let rest = without_job id l in if j.job_id == id then rest else j ∷ rest

-- What a round's connection works on: the worker with the committed tables, and the tables as the open
-- transaction shows them.
pub record Session : Type 0 where
  pub worker : Worker
  pub working : Database

abbrev Step : Type 0
Step = Exec Session (Unit {0})

-- the process's own fields
own : (Worker → Worker) → Step
unfolding modify
own change = modify λ t. record t { worker = change t.worker }

-- A statement: it raises, or it changes the tables that the transaction shows.
statement : Bool → (Database → Database) → Step
unfolding modify raise
statement true change = raise (mysql_error 0)
statement false change = modify λ t. record t { working = change t.working }

-- INSERT INTO lab_import_records, with executemany
unfoldable pub insert_records : ℕ → List ImportRecord → Database → Database
unfolding numbered
insert_records id records d = record d {
  lab_import_records = d.lab_import_records ++ numbered id 1 records;
}

unfoldable pub delete_job : ℕ → Database → Database
unfolding without_job
delete_job id d = record d { lab_jobs = without_job id d.lab_jobs }

abbrev written : Session → Session
written t = record t { worker = record t.worker { database = t.working } }

commit : Sql → Step
unfolding modify raise ◌>>=◌
commit commit_fails = raise (mysql_error 0)
-- a round whose poll failed gets no further
commit poll_fails = raise (mysql_error 0)
commit answer_lost = modify written >> raise (mysql_error 0)
commit sql = modify written

rollback : Sql → Step
unfolding modify raise
rollback rollback_fails = raise (mysql_error 0)
rollback sql = modify λ t. record t { working = t.worker.database }

abbrev is_insert_fails : Sql → Bool
is_insert_fails insert_fails = true
is_insert_fails sql = false

abbrev is_delete_fails : Sql → Bool
is_delete_fails delete_fails = true
is_delete_fails sql = false

-- except (ValueError, KeyError, TypeError)
unfoldable pub rejected : Exc → Bool
rejected (value_error t) = true
rejected (key_error t) = true
rejected type_error = true
rejected e = false

-- How a round ends: what its sleep depends on, or the exception that ends the loop.
pub data Round : Type 0 where
  slept : Round
  poison_retried : Round
  died : Exc → Round

abbrev count_job : Worker → Worker
count_job w = record w { jobs = suc w.jobs }

abbrev count_poison : Worker → Worker
count_poison w = record w { poison_retries = suc w.poison_retries }

-- the inner `try`: `document` is what decode_job and _validated_import_records return or raise
unfoldable pub import_records : Sql → ℕ → Result (List ImportRecord) → Step
unfolding statement insert_records delete_job commit lift ◌>>=◌
import_records sql id document = do
  records ← lift document
  statement (is_insert_fails sql) (insert_records id records)
  statement (is_delete_fails sql) (delete_job id)
  commit sql

-- the inner `except`, and the result tells whether it ran
unfoldable pub try_import : Sql → ℕ → Result (List ImportRecord) → Exec Session Bool
unfolding import_records rejected rollback own catch pure ◌>>=◌
try_import sql id document =
    catch rejected (import_records sql id document >> pure false)
      λ problem. rollback sql >> (own count_poison >> pure true)

-- if not poison_retried: the delivery is acknowledged
unfoldable pub acknowledge : ℕ → Bool → Exec Session Bool
unfolding own clear_delivery_attempt pure ◌>>=◌
acknowledge id true = pure true
acknowledge id false = own (clear_delivery_attempt (some id)) >> (own count_job >> pure false)

-- the outer `except`, after the connection closed and dropped what was not committed
unfoldable pub ended : Result Bool → Round
ended (ok true) = poison_retried
ended (ok false) = slept
ended (err (integrity_error n)) = slept
ended (err (operational_error n)) = slept
ended (err (mysql_error n)) = slept
ended (err e) = died e

unfoldable pub run_import : Sql → ℕ → Result (List ImportRecord) → Worker → Round × Worker
unfolding try_import acknowledge ended ◌>>=◌
run_import sql id document w =
    let (came, t) =
      (try_import sql id document >>= acknowledge id)
        (record { worker = w; working = w.database }) in
    (ended came, t.worker)

module _ (decode : String → Result Fields) where
  unfoldable pub deliver : Sql → List Job → Worker → Round × Worker
  unfolding record_delivery_attempt clear_delivery_attempt
  deliver sql [] w = (slept, clear_delivery_attempt none w)
  deliver sql (j ∷ l) w =
      run_import sql j.job_id (and_then (decode j.payload) validated_import_records)
        (record_delivery_attempt j.job_id w)

  -- One round of _job_loop; `decode` is decode_job.
  unfoldable pub job_round : Sql → Worker → Round × Worker
  unfolding deliver
  job_round poll_fails w = (slept, w)
  job_round sql w = deliver sql w.database.lab_jobs w
