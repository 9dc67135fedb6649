-- ===== src/Jobs/Worker.antt =====
-- One delivery of a job, `_execute_job_delivery` of src/ai_examiner/jobs.py, with `JobHeartbeat` of
-- services/job_control.py. A handler reaches the job's row by `_progress` and `checkpoint` only, so
-- a run of it is the list of these calls, together with the heartbeats of the thread beside it and
-- the cancellations that an operator asks for meanwhile, and the way it ends.
pub mod Attempt
pub mod Ending
pub mod Start
pub mod Liveness
use ai_examiner.Prelude.{
  if◌then◌else◌, Dict, lookup, Result, ok, err, ◌>>◌, ℕ, String, Bool, true, false, not, Option,
  none, some, List, [], ◌∷◌, str_eq,
}
use ai_examiner.Jobs.Model.{
  Json, failed, authorization_revoked, BackgroundJob, denied, Db, Settings, JobError,
  job_authorization_denied, put_audited,
}
use ai_examiner.Jobs.Envelope.{Runtime, TaskEnvelope}
use ai_examiner.Jobs.Lease.{
  JobClaim, claim_job, renewed, heartbeat_job, job_cancel_requested, update_running_job,
  complete_job,
}
use ai_examiner.Jobs.Failure.{
  job_cancelled_class, other_class, Exception, JobFailureDisposition, fail_job,
}
use ai_examiner.Jobs.Control.{request_job_cancellation}

pub data WorkEvent : Type 0 where
  report : (progress now : ℕ) (message : String) → WorkEvent
  checkpoint : WorkEvent
  beat : (now : ℕ) → WorkEvent
  cancellation : (principal reason : String) (now : ℕ) → WorkEvent

pub data WorkEnd : Type 0 where
  returned : (result : Dict Json) (message : String) → WorkEnd
  raised : Exception → WorkEnd

-- The identifiers, the times and the work of one delivery.
pub record Delivery : Type 0 where
  pub delivery_id : String
  pub lease_token : String
  pub claimed_at : ℕ
  pub events : List WorkEvent
  pub ending : WorkEnd
  pub ended_at : ℕ

-- What `_execute_job_delivery` returns or raises.
pub data Answer : Type 0 where
  refused : JobError → Answer
  duplicate : JobClaim → Answer
  finished : Dict Json → Answer
  retry : (countdown : ℕ) → Answer
  stopped : Answer
  given_up : Exception → Answer
  lost : JobError → Answer

abbrev pub lease_lost_exception : Exception
lease_lost_exception = record {
  class = other_class;
  code = "job_lease_lost";
  lowered_message = "job lease is no longer owned by this delivery";
}

abbrev pub heartbeat_lost_exception : Exception
heartbeat_lost_exception = record {
  class = other_class;
  code = "job_lease_lost";
  lowered_message = "job heartbeat could not renew its lease";
}

abbrev pub cancelled_exception : Exception
cancelled_exception = record {
  class = job_cancelled_class;
  code = "job_cancelled";
  lowered_message = "job cancellation was requested";
}

-- `checkpoint`: what it raises, if anything; `is_lost` is the event that the heartbeat thread sets.
abbrev pub raised_by : Result JobError Bool → Option Exception
raised_by (err _) = some lease_lost_exception
raised_by (ok true) = some cancelled_exception
raised_by (ok false) = none

unfoldable pub checkpoint_raises : TaskEnvelope → String → Bool → Db → Option Exception
checkpoint_raises e token is_lost db =
    if is_lost then some heartbeat_lost_exception else raised_by (job_cancel_requested e token db)

-- What `_progress` assigns.
abbrev pub progress_values : ℕ → String → BackgroundJob → BackgroundJob
progress_values progress message row = record row { progress = progress; message = message }

-- The operator's request on the row as it is.
abbrev pub cancel_found : Option BackgroundJob → String → String → ℕ → Db → Db
cancel_found none principal reason now db = db
cancel_found (some job) principal reason now db =
    request_job_cancellation job principal reason now db

-- The last lines of the `try` block: the second checkpoint and the completion.
abbrev pub completed_or_raised :
    Dict Json → Result JobError (Unit {0}) × Db → Result Exception (Dict Json) × Db
completed_or_raised result (ok _, db) = (ok result, db)
completed_or_raised result (err _, db) = (err lease_lost_exception, db)

abbrev pub conclude_work :
    TaskEnvelope
    → String
    → ℕ
    → Dict Json
    → String
    → Option Exception
    → Db
    → Result Exception (Dict Json) × Db
conclude_work e token now result message (some exc) db = (err exc, db)
conclude_work e token now result message none db =
    completed_or_raised result (complete_job e token result message now db)

-- The rest of the work, unless something was raised.
abbrev pub stop_or :
    Option Exception → Db → Result Exception (Dict Json) × Db → Result Exception (Dict Json) × Db
stop_or none db rest = rest
stop_or (some exc) db rest = (err exc, db)

-- The `try` block from the handler on.
unfoldable pub work :
    Settings
    → TaskEnvelope
    → String
    → List WorkEvent
    → WorkEnd
    → ℕ
    → Bool
    → Db
    → Result Exception (Dict Json) × Db
work settings e token [] (raised exc) now is_lost db = (err exc, db)
work settings e token [] (returned result message) now is_lost db =
    conclude_work e token now result message (checkpoint_raises e token is_lost db) db
work settings e token (report progress at message ∷ events) ending now is_lost db =
    let (done, db') = update_running_job e token at (progress_values progress message) db in
    let rest = work settings e token events ending now is_lost db' in
    stop_or (raised_by (done >> ok false)) db' rest
work settings e token (checkpoint ∷ events) ending now is_lost db =
    let rest = work settings e token events ending now is_lost db in
    stop_or (checkpoint_raises e token is_lost db) db rest
work settings e token (beat at ∷ events) ending now is_lost db =
    let (renewed, db') = heartbeat_job settings e token at db in
    let rest = work settings e token events ending now (not renewed) db' in
    let without = work settings e token events ending now true db in
    if is_lost then without else rest
work settings e token (cancellation principal reason at ∷ events) ending now is_lost db =
    work settings e token events ending now is_lost
      (cancel_found (lookup e.job_id db.jobs) principal reason at db)

-- The `except Exception` block.
abbrev pub answer_failure : Exception → Result JobError JobFailureDisposition × Db → Answer × Db
answer_failure exc (err error, db) = (lost error, db)
answer_failure exc (ok d, db) =
    if d.retry
    then (retry d.countdown, db)
    else (elim (exc.class) [ job_cancelled_class ↦ stopped | _ ↦ given_up exc ], db)

abbrev pub answer_work :
    Settings → TaskEnvelope → String → ℕ → Result Exception (Dict Json) × Db → Answer × Db
answer_work settings e token now (ok result, db) = (finished result, db)
answer_work settings e token now (err exc, db) =
    answer_failure exc (fail_job settings e token exc now db)

-- The `except JobAuthorizationError` block.
unfoldable pub denied_job : ℕ → BackgroundJob → BackgroundJob
denied_job now job = record job {
  status = failed;
  progress = 1000000;
  error = "job_authorization_denied";
  message = "Job authorization denied";
  terminal_reason = authorization_revoked;
  completed_at = some now;
  updated_at = now;
}

abbrev pub deny_found : TaskEnvelope → ℕ → Option BackgroundJob → Db → Db
deny_found e now none db = db
deny_found e now (some job) db =
    if str_eq job.organization_id e.organization_id
    then put_audited (denied_job now job) authorization_revoked denied db
    else db

abbrev pub answer_refusal : TaskEnvelope → ℕ → JobError → Db → Answer × Db
answer_refusal e now job_authorization_denied db =
    (refused job_authorization_denied, deny_found e now (lookup e.job_id db.jobs) db)
answer_refusal e now error db = (refused error, db)

-- `heartbeat.checkpoint()`, the handler, and what follows, for a claim that executes.
abbrev pub answer_claim :
    Settings → TaskEnvelope → Delivery → Result JobError JobClaim × Db → Answer × Db
answer_claim settings e d (err error, db) = answer_refusal e d.claimed_at error db
answer_claim settings e d (ok claim, db) =
    if claim.execute
    then answer_work settings e d.lease_token d.ended_at
        (work settings e d.lease_token (checkpoint ∷ d.events) d.ending d.ended_at false db)
    else (duplicate claim, db)

unfoldable pub execute_job_delivery :
    Runtime → Settings → TaskEnvelope → Delivery → Db → Answer × Db
execute_job_delivery rt settings e d db =
    answer_claim settings e d (claim_job rt settings e d.delivery_id d.lease_token d.claimed_at db)
