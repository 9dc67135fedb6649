-- ===== src/Jobs/Failure.antt =====
-- `classify_job_exception` and `fail_job` of src/ai_examiner/services/job_control.py. An exception
-- is its class, its code (or the name of its class) and `str(exc).lower()`.
-- The operation reads, decides and writes the whole row in one step; the source takes no lock here.
use ai_examiner.Prelude.{
  ltb, if◌then◌else◌, is_some, opt_eq, exists, lookup, has_text, Result, ok, err, ℕ, ◌+◌, ◌-◌, ◌*◌,
  ◌^◌, min, String, Bool, true, false, ◌&&◌, ◌||◌, Option, none, some, List, [], ◌∷◌, str_eq,
}
use ai_examiner.Jobs.Model.{
  JobStatus, retry_scheduled, failed, cancelled, dead_letter, RetryClass, transient, permanent,
  cancelled_class, no_reason, cancel_requested, attempt_limit_exhausted, permanent_failure,
  BackgroundJob, succeeded, failed_outcome, Db, Settings, JobError, job_lease_lost, seconds,
  put_job, put_audited,
}
use ai_examiner.Jobs.Envelope.{TaskEnvelope}
use ai_examiner.Jobs.Lease.{truncate}

-- The classes that `isinstance` tells apart; `other_class` is any other, `JobLeaseLost` among them.
pub data ExceptionClass : Type 0 where
  job_cancelled_class model_output_validation job_envelope_class : ExceptionClass
  job_authorization_class key_error value_error_class : ExceptionClass
  timeout_error connection_error os_error other_class : ExceptionClass

pub record Exception : Type 0 where
  pub class : ExceptionClass
  pub code : String
  pub lowered_message : String

abbrev transient_markers : List String
transient_markers =
    "timeout" ∷ "timed out" ∷ "temporarily unavailable" ∷ "rate limit" ∷ "too many requests"
    ∷ "connection reset" ∷ "service unavailable" ∷ "429" ∷ "502" ∷ "503" ∷ "504" ∷ []

unfoldable pub classify_job_exception : Exception → RetryClass
unfolding has_text
classify_job_exception exc = elim (exc.class) [
  | job_cancelled_class ↦ cancelled_class
  | model_output_validation ↦ transient
  | job_envelope_class ↦ permanent
  | job_authorization_class ↦ permanent
  | key_error ↦ permanent
  | value_error_class ↦ permanent
  | timeout_error ↦ transient
  | connection_error ↦ transient
  | os_error ↦ transient
  | other_class ↦
      if exists (λ marker. has_text marker exc.lowered_message) transient_markers
      then transient
      else permanent
]

pub record JobFailureDisposition : Type 0 where
  pub status : JobStatus
  pub retry : Bool
  pub countdown : ℕ
  pub error_code : String

abbrev pub is_cancelled_class : RetryClass → Bool
is_cancelled_class cancelled_class = true
is_cancelled_class _ = false

abbrev pub is_transient : RetryClass → Bool
is_transient transient = true
is_transient _ = false

-- The assignments that all three branches make; the retry leaves the progress to its own.
abbrev common : ℕ → String → RetryClass → ℕ → BackgroundJob → BackgroundJob
common progress error_code retry_class now job = record job {
  progress = progress;
  error = error_code;
  retry_class = retry_class;
  lease_owner = none;
  lease_token = none;
  lease_expires_at = none;
  updated_at = now;
}

-- `min(base * 2 ** max(0, attempt_count - 1), 3600)`
unfoldable pub retry_countdown : Settings → ℕ → ℕ
retry_countdown settings attempt_count =
    min (settings.job_retry_base_seconds * 2 ^ (attempt_count - 1)) 3600

unfoldable pub cancel_failed : String → RetryClass → ℕ → BackgroundJob → BackgroundJob
cancel_failed error_code retry_class now job =
    let j = common 1000000 error_code retry_class now job in
    record j {
      status = cancelled;
      message = "Job cancelled";
      completed_at = some now;
      terminal_reason = cancel_requested;
    }

unfoldable pub schedule_retry : String → RetryClass → ℕ → ℕ → BackgroundJob → BackgroundJob
schedule_retry error_code retry_class countdown now job =
    let j = common (min job.progress 950000) error_code retry_class now job in
    record j {
      status = retry_scheduled;
      message = "Transient failure; retry scheduled";
      next_attempt_at = some (now + seconds countdown);
      terminal_reason = no_reason;
    }

unfoldable pub bury : String → RetryClass → ℕ → BackgroundJob → BackgroundJob
bury error_code retry_class now job =
    let j = common 1000000 error_code retry_class now job in
    if is_transient retry_class
    then record j {
      status = dead_letter;
      message = "Job moved to dead letter";
      completed_at = some now;
      dead_lettered_at = some now;
      terminal_reason = attempt_limit_exhausted;
    }
    else record j {
      status = failed;
      message = "Job failed permanently";
      completed_at = some now;
      dead_lettered_at = none;
      terminal_reason = permanent_failure;
    }

-- The branches of `fail_job` on the job that the delivery holds.
unfoldable pub dispose :
    Settings → String → RetryClass → ℕ → BackgroundJob → Db → JobFailureDisposition × Db
unfolding cancel_failed schedule_retry bury retry_countdown
dispose settings error_code retry_class now job db =
    if is_cancelled_class retry_class || is_some job.cancel_requested_at
    then (
      record { status = cancelled; retry = false; countdown = 0; error_code = error_code },
      put_audited (cancel_failed error_code retry_class now job) cancel_requested succeeded db,
    )
    else if is_transient retry_class && ltb job.attempt_count job.max_attempts
    then (let countdown = retry_countdown settings job.attempt_count in
        (
          record {
            status = retry_scheduled;
            retry = true;
            countdown = countdown;
            error_code = error_code;
          },
          put_job (schedule_retry error_code retry_class countdown now job) db,
        ))
    else let buried = bury error_code retry_class now job in
      (
        record { status = buried.status; retry = false; countdown = 0; error_code = error_code },
        put_audited buried buried.terminal_reason failed_outcome db,
      )

abbrev pub disposed : JobFailureDisposition × Db → Result JobError JobFailureDisposition × Db
disposed (disposition, db) = (ok disposition, db)

-- `job.organization_id == envelope.organization_id and job.lease_token == lease_token`
unfoldable pub holds_lease : TaskEnvelope → String → BackgroundJob → Bool
holds_lease envelope lease_token job =
    str_eq job.organization_id envelope.organization_id && opt_eq job.lease_token (some lease_token)

abbrev pub fail_found :
    Settings
    → TaskEnvelope
    → String
    → Exception
    → ℕ
    → Option BackgroundJob
    → Db
    → Result JobError JobFailureDisposition × Db
fail_found settings envelope lease_token exc now none db = (err job_lease_lost, db)
fail_found settings envelope lease_token exc now (some job) db =
    if holds_lease envelope lease_token job
    then disposed (dispose settings (truncate 120 exc.code) (classify_job_exception exc) now job db)
    else (err job_lease_lost, db)

unfoldable pub fail_job :
    Settings
    → TaskEnvelope
    → String
    → Exception
    → ℕ
    → Db
    → Result JobError JobFailureDisposition × Db
fail_job settings envelope lease_token exc now db =
    fail_found settings envelope lease_token exc now (lookup envelope.job_id db.jobs) db
