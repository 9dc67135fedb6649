-- ===== src/Jobs/Invariant/Steps.antt =====
-- The operations of src/ai_examiner/services/job_control.py as steps on the database, taken by any
-- deliveries, operators and schedulers in any order. The UPDATE of a claim is a step of its own and
-- its snapshot may be any row at all, so every interleaving of two claims is a path.
use ai_examiner.Prelude.{
  Bool-cases, Dict, lookup, AllValues-insert, ℕ, String, ◌≡◌, refl, inl, inr, Option, none, some,
  arith, str_eq,
}
use ai_examiner.Jobs.Model.{Json, BackgroundJob, Db, Settings, is_queued}
use ai_examiner.Jobs.Envelope.{Runtime, TaskEnvelope}
use ai_examiner.Jobs.Lease.{
  after_start, begin_claim, finish_claim, heartbeat_job, update_running_job, complete_job,
}
use ai_examiner.Jobs.Failure.{Exception, fail_job}
use ai_examiner.Jobs.Control.{
  request_job_cancellation, reset_job_for_retry, recover_stale_jobs, recover_orphaned_queued_jobs,
}
use ai_examiner.Jobs.Dispatch.{undelivered, refused_by_broker, recorded_task}
use ai_examiner.Jobs.Worker.{progress_values, denied_job, deny_found}
use ai_examiner.Jobs.Invariant.{IsWellFormed, AllWellFormed}
use ai_examiner.Jobs.Invariant.Table.{
  found-IsWellFormed, finish_claim-AllWellFormed, heartbeat_job-AllWellFormed, update-AllWellFormed,
  complete_job-AllWellFormed, fail_job-AllWellFormed, begin_claim-AllWellFormed,
  request_job_cancellation-AllWellFormed, reset_job_for_retry-AllWellFormed,
}
use ai_examiner.Jobs.Invariant.Recovery.{
  recover_stale_jobs-AllWellFormed, recover_orphaned_queued_jobs-AllWellFormed,
}

pub data Step (rt : Runtime) (settings : Settings) (db : Db) : Db → Type 0 where
  begin :
      (e : TaskEnvelope) (now : ℕ)
      → Step rt settings db (after_start (begin_claim rt settings e now db) db)
  finish :
      (e : TaskEnvelope) (delivery token : String) (snapshot : BackgroundJob) (now : ℕ)
      → Step rt settings db (finish_claim rt settings e delivery token snapshot now db).1
  heartbeat :
      (e : TaskEnvelope) (token : String) (now : ℕ)
      → Step rt settings db (heartbeat_job settings e token now db).1
  progress :
      (e : TaskEnvelope) (token message : String) (amount now : ℕ)
      → Step rt settings db (update_running_job e token now (progress_values amount message) db).1
  complete :
      (e : TaskEnvelope) (token message : String) (result : Dict Json) (now : ℕ)
      → Step rt settings db (complete_job e token result message now db).1
  fail :
      (e : TaskEnvelope) (token : String) (exc : Exception) (now : ℕ)
      → Step rt settings db (fail_job settings e token exc now db).1
  cancel :
      (key : String) (job : BackgroundJob) (principal reason : String) (now : ℕ)
      → lookup key db.jobs ≡ some job
      → Step rt settings db (request_job_cancellation job principal reason now db)
  reset :
      (key : String) (job : BackgroundJob) (reason : String) (now : ℕ)
      → lookup key db.jobs ≡ some job
      → Step rt settings db (reset_job_for_retry job reason now db).1
  recover :
      (organization : String) (now : ℕ)
      → Step rt settings db (recover_stale_jobs settings organization now db).1
  recover_orphans :
      (organization : String) (now : ℕ)
      → Step rt settings db (recover_orphaned_queued_jobs settings organization now db).1
  -- The `except JobAuthorizationError` block of a delivery.
  deny :
      (e : TaskEnvelope) (now : ℕ)
      → Step rt settings db (deny_found e now (lookup e.job_id db.jobs) db)
  -- The broker's refusal of a job, and its identifier of the task.
  undeliver : (id : String) → Step rt settings db (refused_by_broker (lookup id db.jobs) db).1
  sent : (id task : String) → Step rt settings db (recorded_task task (lookup id db.jobs) db).1

pub data Reach (rt : Runtime) (settings : Settings) (db : Db) : Db → Type 0 where
  here : Reach rt settings db db
  next :
      {db' db'' : Db}
      → Reach rt settings db db'
      → Step rt settings db' db''
      → Reach rt settings db db''

progress_values-IsWellFormed :
    (amount now : ℕ) (message : String) (row : BackgroundJob)
    → IsWellFormed row
    → IsWellFormed (record (progress_values amount message row) { updated_at = now })
progress_values-IsWellFormed amount now message row w = ground arith

denied_job-IsWellFormed :
    (now : ℕ) (row : BackgroundJob) → IsWellFormed row → IsWellFormed (denied_job now row)
unfolding denied_job
denied_job-IsWellFormed now row w = ground arith

undelivered-IsWellFormed : (row : BackgroundJob) → IsWellFormed row → IsWellFormed (undelivered row)
unfolding undelivered
undelivered-IsWellFormed row w = ground arith

sent-IsWellFormed :
    (task : String) (row : BackgroundJob)
    → IsWellFormed row
    → IsWellFormed (record row { celery_task_id = some task })
sent-IsWellFormed task row w = ground arith

deny_found-AllWellFormed :
    (e : TaskEnvelope) (now : ℕ) (found : Option BackgroundJob) (db : Db)
    → ((job : BackgroundJob) → found ≡ some job → IsWellFormed job)
    → AllWellFormed db
    → AllWellFormed (deny_found e now found db)
unfolding denied_job
deny_found-AllWellFormed e now none db w all = all
deny_found-AllWellFormed e now (some job) db w all =
    elim (Bool-cases (str_eq job.organization_id e.organization_id)) [
      | inl own ↦ rw own (
          AllValues-insert IsWellFormed job.id (denied_job now job) db.jobs
            (denied_job-IsWellFormed now job (w job refl)) all)
      | inr elsewhere ↦ rw elsewhere all
    ]

refused_by_broker-AllWellFormed :
    (found : Option BackgroundJob) (db : Db)
    → ((job : BackgroundJob) → found ≡ some job → IsWellFormed job)
    → AllWellFormed db
    → AllWellFormed (refused_by_broker found db).1
unfolding undelivered
refused_by_broker-AllWellFormed none db w all = all
refused_by_broker-AllWellFormed (some job) db w all = elim (Bool-cases (is_queued job.status)) [
  | inl waiting ↦ rw waiting (
      AllValues-insert IsWellFormed job.id (undelivered job) db.jobs
        (undelivered-IsWellFormed job (w job refl)) all)
  | inr gone_on ↦ rw gone_on all
]

recorded_task-AllWellFormed :
    (task : String) (found : Option BackgroundJob) (db : Db)
    → ((job : BackgroundJob) → found ≡ some job → IsWellFormed job)
    → AllWellFormed db
    → AllWellFormed (recorded_task task found db).1
recorded_task-AllWellFormed task none db w all = all
recorded_task-AllWellFormed task (some job) db w all =
    let row = record job { celery_task_id = some task } in
    AllValues-insert IsWellFormed job.id row db.jobs (sent-IsWellFormed task job (w job refl)) all

Step-AllWellFormed :
    (rt : Runtime) (settings : Settings) {db db' : Db}
    → Step rt settings db db'
    → AllWellFormed db
    → AllWellFormed db'
Step-AllWellFormed rt settings {db} (begin e now) all =
    begin_claim-AllWellFormed rt settings e now db all
Step-AllWellFormed rt settings {db} (finish e delivery token snapshot now) all =
    finish_claim-AllWellFormed rt settings e delivery token snapshot now db all
Step-AllWellFormed rt settings {db} (heartbeat e token now) all =
    heartbeat_job-AllWellFormed settings e token now db all
Step-AllWellFormed rt settings {db} (progress e token message amount now) all =
    update-AllWellFormed e token now (progress_values amount message) db
      (progress_values-IsWellFormed amount now message) all
Step-AllWellFormed rt settings {db} (complete e token message result now) all =
    complete_job-AllWellFormed e token result message now db all
Step-AllWellFormed rt settings {db} (fail e token exc now) all =
    fail_job-AllWellFormed settings e token exc now db all
Step-AllWellFormed rt settings {db} (cancel key job principal reason now found) all =
    request_job_cancellation-AllWellFormed job principal reason now db
      (found-IsWellFormed key job db all found) all
Step-AllWellFormed rt settings {db} (reset key job reason now found) all =
    reset_job_for_retry-AllWellFormed job reason now db (found-IsWellFormed key job db all found)
      all
Step-AllWellFormed rt settings {db} (recover organization now) all =
    recover_stale_jobs-AllWellFormed settings organization now db all
Step-AllWellFormed rt settings {db} (recover_orphans organization now) all =
    recover_orphaned_queued_jobs-AllWellFormed settings organization now db all
Step-AllWellFormed rt settings {db} (deny e now) all =
    deny_found-AllWellFormed e now (lookup e.job_id db.jobs) db
      (λ job found. found-IsWellFormed e.job_id job db all found) all
Step-AllWellFormed rt settings {db} (undeliver id) all =
    refused_by_broker-AllWellFormed (lookup id db.jobs) db
      (λ job found. found-IsWellFormed id job db all found) all
Step-AllWellFormed rt settings {db} (sent id task) all =
    recorded_task-AllWellFormed task (lookup id db.jobs) db
      (λ job found. found-IsWellFormed id job db all found) all

-- Every row stays well-formed, whatever claims, heartbeats, completions, failures, denials,
-- cancellations, retries, recoveries and answers of the broker run, in any order and with claims
-- interleaved: attempts within their limit, a lease on every running job, a reason on every ended
-- one, and a time too unless the broker has refused it.
pub Reach-AllWellFormed :
    (rt : Runtime) (settings : Settings) {before after : Db}
    → Reach rt settings before after
    → AllWellFormed before
    → AllWellFormed after
Reach-AllWellFormed rt settings here all = all
Reach-AllWellFormed rt settings (next r s) all =
    Step-AllWellFormed rt settings s (Reach-AllWellFormed rt settings r all)
