-- ===== src/Jobs/Control.antt =====
-- The operator's and the scheduler's operations of src/ai_examiner/services/job_control.py:
-- cancellation, manual retry, recovery of expired leases and of jobs that were never delivered.
-- Each operation reads, decides and writes the whole row in one step; the source takes no lock on
-- the row of a cancellation or of a retry.
pub mod Order
use ai_examiner.Prelude.{
  leb, if◌then◌else◌, is_none, is_some, take, keep, Dict, insert, Result, ok, err, ℕ, ◌+◌, String,
  Bool, true, false, ◌&&◌, none, some, List, [], ◌∷◌, map, str_eq,
}
use ai_examiner.Jobs.Model.{
  JobStatus, queued, retry_scheduled, cancelling, failed, cancelled, dead_letter, no_class,
  worker_lost, no_reason, cancel_requested, attempt_limit_exhausted, BackgroundJob, succeeded,
  failed_outcome, AuditEntry, Db, Settings, JobError, value_error, seconds, is_terminal, is_running,
  is_cancelling, is_queued, append_job_audit, put_job, put_audited,
}
use ai_examiner.Jobs.Lease.{truncate, due}

unfoldable pub mark_cancelled : String → String → ℕ → BackgroundJob → BackgroundJob
mark_cancelled principal_id reason now job =
    let j = record job {
      cancel_requested_at = some now;
      cancel_requested_by = some principal_id;
      message = truncate 120 reason;
      updated_at = now;
    } in
    if is_running job.status then record j { status = cancelling } else record j {
      status = cancelled;
      progress = 1000000;
      completed_at = some now;
      terminal_reason = cancel_requested;
    }

unfoldable pub request_job_cancellation : BackgroundJob → String → String → ℕ → Db → Db
request_job_cancellation job principal_id reason now db =
    let marked = mark_cancelled principal_id reason now job in
    if is_terminal job.status
    then db
    else if is_cancelling marked.status
    then put_job marked db
    else put_audited marked cancel_requested succeeded db

-- `job.status in {"failed", "dead_letter", "cancelled"}`
abbrev pub can_retry : JobStatus → Bool
can_retry failed = true
can_retry dead_letter = true
can_retry cancelled = true
can_retry _ = false

unfoldable pub requeued : String → ℕ → BackgroundJob → BackgroundJob
requeued reason now job = record job {
  status = queued;
  progress = 0;
  message = truncate 120 reason;
  error = "";
  retry_class = no_class;
  next_attempt_at = none;
  lease_owner = none;
  lease_token = none;
  lease_expires_at = none;
  cancel_requested_at = none;
  cancel_requested_by = none;
  dead_lettered_at = none;
  terminal_reason = no_reason;
  completed_at = none;
  attempt_count = 0;
  updated_at = now;
}

unfoldable pub reset_job_for_retry :
    BackgroundJob → String → ℕ → Db → Result JobError (Unit {0}) × Db
reset_job_for_retry job reason now db =
    if can_retry job.status
    then (ok tt, put_job (requeued reason now job) db)
    else (err value_error, db)

-- The rows of a query in the order of `created_at`; equal times stay in the order of the table.
unfoldable pub insert_by_created : BackgroundJob → List BackgroundJob → List BackgroundJob
insert_by_created job [] = job ∷ []
insert_by_created job (j ∷ js) =
    if leb job.created_at j.created_at then job ∷ j ∷ js else j ∷ insert_by_created job js

unfoldable pub order_by_created : List BackgroundJob → List BackgroundJob
order_by_created [] = []
order_by_created (j ∷ js) = insert_by_created j (order_by_created js)

abbrev pub rows : Dict BackgroundJob → List BackgroundJob
rows jobs = map (λ entry. entry.1) jobs

unfoldable pub is_stale : String → ℕ → BackgroundJob → Bool
is_stale organization_id now job =
    str_eq job.organization_id organization_id
    && (is_running job.status && due job.lease_expires_at now)

unfoldable pub stale_jobs : Settings → String → ℕ → Db → List BackgroundJob
stale_jobs settings organization_id now db =
    take settings.job_recovery_batch_size
      (order_by_created (keep (is_stale organization_id now) (rows db.jobs)))

-- The body of the loop of `recover_stale_jobs`, on the row.
unfoldable pub recovered : ℕ → BackgroundJob → BackgroundJob
recovered now job =
    let j = record job {
      lease_owner = none;
      lease_token = none;
      lease_expires_at = none;
      retry_class = worker_lost;
      error = "worker_lease_expired";
      updated_at = now;
    } in
    if is_some job.cancel_requested_at
    then record j {
      status = cancelled;
      completed_at = some now;
      terminal_reason = cancel_requested;
    }
    else if leb job.max_attempts job.attempt_count
    then record j {
      status = dead_letter;
      dead_lettered_at = some now;
      completed_at = some now;
      terminal_reason = attempt_limit_exhausted;
    }
    else record j {
      status = retry_scheduled;
      next_attempt_at = some now;
      message = "Recovered after worker lease expired";
    }

-- The audit entry of the first two branches; a scheduled retry has none.
unfoldable pub recovery_audit : JobStatus → BackgroundJob → List AuditEntry → List AuditEntry
recovery_audit cancelled job audit = append_job_audit job cancelled cancel_requested succeeded audit
recovery_audit dead_letter job audit =
    append_job_audit job dead_letter attempt_limit_exhausted failed_outcome audit
recovery_audit _ job audit = audit

abbrev pub put_recovered : BackgroundJob → Db → Db
put_recovered job db = record db {
  jobs = insert job.id job db.jobs;
  audit = recovery_audit job.status job db.audit;
}

unfoldable pub recover_all : ℕ → List BackgroundJob → Db → Db
recover_all now [] db = db
recover_all now (job ∷ jobs) db = recover_all now jobs (put_recovered (recovered now job) db)

abbrev pub is_scheduled : BackgroundJob → Bool
is_scheduled job = elim (job.status) [ retry_scheduled ↦ true | _ ↦ false ]

unfoldable pub recover_stale_jobs : Settings → String → ℕ → Db → List BackgroundJob × Db
recover_stale_jobs settings organization_id now db =
    let stale = stale_jobs settings organization_id now db in
    (keep is_scheduled (map (recovered now) stale), recover_all now stale db)

unfoldable pub is_orphaned : Settings → String → ℕ → BackgroundJob → Bool
is_orphaned settings organization_id now job =
    str_eq job.organization_id organization_id
    && (is_queued job.status
        && (is_none job.celery_task_id
            && leb (job.created_at + seconds settings.job_orphan_grace_seconds) now))

abbrev pub noted : ℕ → BackgroundJob → BackgroundJob
noted now job = record job {
  message = "Recovered after broker dispatch was not recorded";
  updated_at = now;
}

unfoldable pub note_all : ℕ → List BackgroundJob → Db → Db
note_all now [] db = db
note_all now (job ∷ jobs) db = note_all now jobs (put_job (noted now job) db)

unfoldable pub orphaned_jobs : Settings → String → ℕ → Db → List BackgroundJob
orphaned_jobs settings organization_id now db =
    take settings.job_recovery_batch_size
      (order_by_created (keep (is_orphaned settings organization_id now) (rows db.jobs)))

unfoldable pub recover_orphaned_queued_jobs : Settings → String → ℕ → Db → List BackgroundJob × Db
recover_orphaned_queued_jobs settings organization_id now db =
    let orphaned = orphaned_jobs settings organization_id now db in
    (map (noted now) orphaned, note_all now orphaned db)
