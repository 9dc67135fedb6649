-- ===== src/Jobs/Invariant/Table.antt =====
-- Each operation of src/ai_examiner/services/job_control.py keeps the whole table well-formed.
use ai_examiner.Prelude.{
  ltb, leb, ◌==◌, Bool-cases, is_none, is_some, Dict, lookup, insert, AllValues, AllValues-insert,
  AllValues-lookup, Result, ok, err, ℕ, String, ◌≡◌, refl, inl, inr, ◌&&◌, ◌||◌, Option, none, some,
  arith, str_eq,
}
use ai_examiner.Jobs.Model.{
  Json, RetryClass, BackgroundJob, Db, Settings, JobError, is_terminal, is_cancelling,
}
use ai_examiner.Jobs.Store.{update_where, update_where-AllValues}
use ai_examiner.Jobs.Envelope.{Runtime, TaskEnvelope, envelope_digest, verify_job_envelope}
use ai_examiner.Jobs.Lease.{
  truncate, authorize_job_execution, ClaimStart, cancel_now, exhaust_now, after_start, authorized,
  triage, verified, begin_found, begin_claim, is_eligible, claimed, answer, finish_claim, is_owned,
  renewed, heartbeat_job, update_running_job, completed_values, audit_completed, complete_job,
}
use ai_examiner.Jobs.Failure.{
  Exception, classify_job_exception, is_cancelled_class, is_transient, retry_countdown, dispose,
  holds_lease, fail_found, fail_job,
}
use ai_examiner.Jobs.Invariant.{
  IsWellFormed, AllWellFormed, claimed-IsWellFormed, cancel_now-IsWellFormed,
  exhaust_now-IsWellFormed, cancel_failed-IsWellFormed, schedule_retry-IsWellFormed,
  bury-IsWellFormed, mark_cancelled-IsWellFormed, requeued-IsWellFormed,
  completed_values-IsWellFormed, renewed-IsWellFormed,
}
use ai_examiner.Jobs.Control.{
  mark_cancelled, request_job_cancellation, can_retry, requeued, reset_job_for_retry,
}

put-AllWellFormed :
    (k : String) (job : BackgroundJob) (jobs : Dict BackgroundJob)
    → IsWellFormed job
    → AllValues IsWellFormed jobs
    → AllValues IsWellFormed (insert k job jobs)
put-AllWellFormed k job jobs = AllValues-insert IsWellFormed k job jobs

-- The row that a key finds is well-formed.
pub found-IsWellFormed :
    (k : String) (job : BackgroundJob) (db : Db)
    → AllWellFormed db
    → lookup k db.jobs ≡ some job
    → IsWellFormed job
found-IsWellFormed k job db = AllValues-lookup IsWellFormed k job db.jobs

db-answer :
    (token : String) (snapshot : BackgroundJob) (updated : ℕ × Db)
    → (answer token snapshot updated).1 ≡ updated.1
db-answer token snapshot (count, db) = ground arith

pub finish_claim-AllWellFormed :
    (rt : Runtime) (settings : Settings) (envelope : TaskEnvelope) (delivery token : String)
    (snapshot : BackgroundJob) (now : ℕ) (db : Db)
    → AllWellFormed db
    → AllWellFormed (finish_claim rt settings envelope delivery token snapshot now db).1
unfolding finish_claim
finish_claim-AllWellFormed rt settings envelope delivery token snapshot now db all =
    let test = is_eligible snapshot (envelope_digest rt envelope) now in
    let values = claimed settings snapshot delivery token now in
    rw (db-answer token snapshot (update_where snapshot.id test values db)) (
      update_where-AllValues snapshot.id test values db IsWellFormed
        (claimed-IsWellFormed settings snapshot delivery token (envelope_digest rt envelope) now)
        all)

pub heartbeat_job-AllWellFormed :
    (settings : Settings) (envelope : TaskEnvelope) (token : String) (now : ℕ) (db : Db)
    → AllWellFormed db
    → AllWellFormed (heartbeat_job settings envelope token now db).1
unfolding heartbeat_job
heartbeat_job-AllWellFormed settings envelope token now db =
    update_where-AllValues envelope.job_id
      (λ row. is_owned envelope token row && is_none row.cancel_requested_at) (renewed settings now)
      db IsWellFormed (λ row _. renewed-IsWellFormed settings now row)

pub update-AllWellFormed :
    (envelope : TaskEnvelope) (token : String) (now : ℕ) (values : BackgroundJob → BackgroundJob)
    (db : Db)
    → ((row : BackgroundJob)
        → IsWellFormed row
        → IsWellFormed (record (values row) { updated_at = now }))
    → AllWellFormed db
    → AllWellFormed (update_running_job envelope token now values db).1
unfolding update_running_job
update-AllWellFormed envelope token now values db keeps all =
    let set_values = λ (row : BackgroundJob). record (values row) { updated_at = now } in
    let written =
      update_where-AllValues envelope.job_id (is_owned envelope token) set_values db IsWellFormed
        (λ row _. keeps row) all in
    elim (Bool-cases
      ((update_where envelope.job_id (is_owned envelope token) set_values db).0 == 1)) [
        | inl done ↦ rw done written
        | inr lost ↦ rw lost all
      ]

audit_completed-AllWellFormed :
    (job : Option BackgroundJob) (before : Db) (updated : Result JobError (Unit {0}) × Db)
    → AllWellFormed before
    → AllWellFormed updated.1
    → AllWellFormed (audit_completed job before updated).1
audit_completed-AllWellFormed job before (err e, db) all all' = all'
audit_completed-AllWellFormed none before (ok u, db) all all' = all
audit_completed-AllWellFormed (some job) before (ok u, db) all all' = all'

pub complete_job-AllWellFormed :
    (envelope : TaskEnvelope) (token : String) (result : Dict Json) (message : String) (now : ℕ)
    (db : Db)
    → AllWellFormed db
    → AllWellFormed (complete_job envelope token result message now db).1
unfolding complete_job
complete_job-AllWellFormed envelope token result message now db all =
    let updated = update_running_job envelope token now (completed_values result message now) db in
    audit_completed-AllWellFormed (lookup envelope.job_id updated.1.jobs) db updated all (
      update-AllWellFormed envelope token now (completed_values result message now) db
        (completed_values-IsWellFormed result message now) all)

dispose-AllWellFormed :
    (settings : Settings) (code : String) (c : RetryClass) (now : ℕ) (job : BackgroundJob) (db : Db)
    → IsWellFormed job
    → AllWellFormed db
    → AllWellFormed (dispose settings code c now job db).1
unfolding dispose
dispose-AllWellFormed settings code c now job db w all =
    elim (Bool-cases (is_cancelled_class c || is_some job.cancel_requested_at)) [
      | inl cancel ↦
          rw cancel
            (put-AllWellFormed job.id _ db.jobs (cancel_failed-IsWellFormed code c now job w) all)
      | inr go_on ↦ elim (Bool-cases (is_transient c && ltb job.attempt_count job.max_attempts)) [
        | inl again ↦
            rw (go_on, again)
              (put-AllWellFormed job.id _ db.jobs
                (schedule_retry-IsWellFormed code c (retry_countdown settings job.attempt_count) now
                  job w)
                all)
        | inr over ↦
            rw (go_on, over)
              (put-AllWellFormed _ _ db.jobs (bury-IsWellFormed code c now job w) all)
      ]
    ]

fail_found-AllWellFormed :
    (settings : Settings) (envelope : TaskEnvelope) (token : String) (exc : Exception) (now : ℕ)
    (found : Option BackgroundJob) (db : Db)
    → ((job : BackgroundJob) → found ≡ some job → IsWellFormed job)
    → AllWellFormed db
    → AllWellFormed (fail_found settings envelope token exc now found db).1
fail_found-AllWellFormed settings envelope token exc now none db w all = all
fail_found-AllWellFormed settings envelope token exc now (some job) db w all =
    elim (Bool-cases (holds_lease envelope token job)) [
      | inl held ↦ rw held (
          dispose-AllWellFormed settings (truncate 120 exc.code) (classify_job_exception exc) now
            job db (w job refl) all)
      | inr lost ↦ rw lost all
    ]

pub fail_job-AllWellFormed :
    (settings : Settings) (envelope : TaskEnvelope) (token : String) (exc : Exception) (now : ℕ)
    (db : Db)
    → AllWellFormed db
    → AllWellFormed (fail_job settings envelope token exc now db).1
unfolding fail_job
fail_job-AllWellFormed settings envelope token exc now db all =
    fail_found-AllWellFormed settings envelope token exc now (lookup envelope.job_id db.jobs) db
      (λ job found. found-IsWellFormed envelope.job_id job db all found) all

db-authorized :
    (job : BackgroundJob) (r : Result JobError (Unit {0})) (db : Db)
    → after_start (authorized job r) db ≡ db
db-authorized job (ok u) db = refl
db-authorized job (err e) db = refl

triage-AllWellFormed :
    (settings : Settings) (job : BackgroundJob) (now : ℕ) (db : Db)
    → IsWellFormed job
    → AllWellFormed db
    → AllWellFormed (after_start (triage settings job now db) db)
unfolding triage
triage-AllWellFormed settings job now db w all = elim (Bool-cases (is_terminal job.status)) [
  | inl ended ↦ rw ended all
  | inr live ↦ elim (Bool-cases (is_some job.cancel_requested_at || is_cancelling job.status)) [
    | inl cancel ↦
        rw (live, cancel)
          (put-AllWellFormed job.id (cancel_now now job) db.jobs (cancel_now-IsWellFormed now job w)
            all)
    | inr go_on ↦ elim (Bool-cases (leb job.max_attempts job.attempt_count)) [
      | inl spent ↦
          rw (live, go_on, spent)
            (put-AllWellFormed job.id (exhaust_now now job) db.jobs
              (exhaust_now-IsWellFormed now job w) all)
      | inr left ↦
          rw (live, go_on, left, db-authorized job (authorize_job_execution settings job db) db) all
    ]
  ]
]

verified-AllWellFormed :
    (r : Result JobError (Unit {0})) (start : ClaimStart) (db : Db)
    → AllWellFormed db
    → AllWellFormed (after_start start db)
    → AllWellFormed (after_start (verified r start) db)
verified-AllWellFormed (ok u) start db all next = next
verified-AllWellFormed (err e) start db all next = all

begin_found-AllWellFormed :
    (rt : Runtime) (settings : Settings) (envelope : TaskEnvelope) (now : ℕ)
    (found : Option BackgroundJob) (db : Db)
    → ((job : BackgroundJob) → found ≡ some job → IsWellFormed job)
    → AllWellFormed db
    → AllWellFormed (after_start (begin_found rt settings envelope now found db) db)
begin_found-AllWellFormed rt settings envelope now none db w all = all
begin_found-AllWellFormed rt settings envelope now (some job) db w all =
    elim (Bool-cases (str_eq job.organization_id envelope.organization_id)) [
      | inl here ↦ rw here (
          verified-AllWellFormed (verify_job_envelope rt job envelope) (triage settings job now db)
            db all (triage-AllWellFormed settings job now db (w job refl) all))
      | inr elsewhere ↦ rw elsewhere all
    ]

-- The early exits of a claim.
pub begin_claim-AllWellFormed :
    (rt : Runtime) (settings : Settings) (envelope : TaskEnvelope) (now : ℕ) (db : Db)
    → AllWellFormed db
    → AllWellFormed (after_start (begin_claim rt settings envelope now db) db)
unfolding begin_claim
begin_claim-AllWellFormed rt settings envelope now db all =
    begin_found-AllWellFormed rt settings envelope now (lookup envelope.job_id db.jobs) db
      (λ job found. found-IsWellFormed envelope.job_id job db all found) all

pub request_job_cancellation-AllWellFormed :
    (job : BackgroundJob) (principal reason : String) (now : ℕ) (db : Db)
    → IsWellFormed job
    → AllWellFormed db
    → AllWellFormed (request_job_cancellation job principal reason now db)
unfolding request_job_cancellation
request_job_cancellation-AllWellFormed job principal reason now db w all =
    let kept =
      put-AllWellFormed (mark_cancelled principal reason now job).id
        (mark_cancelled principal reason now job) db.jobs
        (mark_cancelled-IsWellFormed principal reason now job w) all in
    elim (Bool-cases (is_terminal job.status)) [
      | inl ended ↦ rw ended all
      | inr live ↦
          elim (Bool-cases (is_cancelling (mark_cancelled principal reason now job).status)) [
            | inl waiting ↦ rw (live, waiting) kept
            | inr over ↦ rw (live, over) kept
          ]
    ]

pub reset_job_for_retry-AllWellFormed :
    (job : BackgroundJob) (reason : String) (now : ℕ) (db : Db)
    → IsWellFormed job
    → AllWellFormed db
    → AllWellFormed (reset_job_for_retry job reason now db).1
unfolding reset_job_for_retry requeued
reset_job_for_retry-AllWellFormed job reason now db w all =
    elim (Bool-cases (can_retry job.status)) [
      | inl ended ↦ rw ended (
          put-AllWellFormed job.id (requeued reason now job) db.jobs
            (requeued-IsWellFormed reason now job w) all)
      | inr live ↦ rw live all
    ]
