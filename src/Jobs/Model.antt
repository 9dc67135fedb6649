-- ===== src/Jobs/Model.antt =====
-- The rows that src/ai_examiner/services/job_control.py reads and writes (`BackgroundJob` of
-- models.py and the identity tables), the audit trail, the errors and the settings. A time is a
-- number of microseconds; a progress of 1.0 is a million. A table is keyed by the primary key.
use ai_examiner.Prelude.{
  Dict, insert, ℕ, ◌*◌, String, Bool, true, false, not, Option, List, [], ◌∷◌, ◌++◌,
}
use ai_examiner.Enterprise.{OrganizationStatus, PrincipalStatus}
use ai_examiner.Membership.{OrganizationMembership}

-- A JSON value; fractions are left out, the envelope holds none.
mutual
  pub data Json : Type 0 where
    null : Json
    bool : Bool → Json
    int : ℕ → Json
    text : String → Json
    arr : Items → Json
    obj : Fields → Json

  pub data Items : Type 0 where
    nil : Items
    item : Json → Items → Items

  pub data Fields : Type 0 where
    end : Fields
    field : String → Json → Fields → Fields

pub data JobStatus : Type 0 where
  queued running retry_scheduled cancelling : JobStatus
  completed failed cancelled dead_letter : JobStatus

-- `retry_class`; `no_class` is the empty text.
pub data RetryClass : Type 0 where
  no_class transient permanent cancelled_class worker_lost : RetryClass

-- `terminal_reason`; `no_reason` is the empty text.
pub data TerminalReason : Type 0 where
  no_reason completed_reason cancel_requested attempt_limit_exhausted : TerminalReason
  permanent_failure authorization_revoked queue_unavailable : TerminalReason

pub record BackgroundJob : Type 0 where
  pub id : String
  pub organization_id : String
  pub actor_principal_id : Option String
  pub kind : String
  pub idempotency_key : Option String
  pub envelope_version : ℕ
  pub envelope_json : Dict Json
  pub envelope_digest : String
  pub required_capability : String
  pub authorization_mode : String
  pub status : JobStatus
  pub progress : ℕ
  pub message : String
  pub payload : Dict Json
  pub result : Dict Json
  pub error : String
  pub attempt_count : ℕ
  pub max_attempts : ℕ
  pub retry_class : RetryClass
  pub next_attempt_at : Option ℕ
  pub lease_owner : Option String
  pub lease_token : Option String
  pub lease_expires_at : Option ℕ
  pub heartbeat_at : Option ℕ
  pub cancel_requested_at : Option ℕ
  pub cancel_requested_by : Option String
  pub dead_lettered_at : Option ℕ
  pub terminal_reason : TerminalReason
  pub celery_task_id : Option String
  pub created_at : ℕ
  pub updated_at : ℕ
  pub started_at : Option ℕ
  pub completed_at : Option ℕ

pub data Outcome : Type 0 where
  succeeded denied failed_outcome : Outcome

-- What `append_job_audit` hands to the audit trail, the correlation identifiers left out.
pub record AuditEntry : Type 0 where
  pub organization_id : String
  pub actor_id : Option String
  pub authentication_method : String
  pub status : JobStatus
  pub job_kind : String
  pub resource_id : String
  pub outcome : Outcome
  pub reason_code : TerminalReason
  pub security_retention : Bool

pub record Db : Type 0 where
  pub jobs : Dict BackgroundJob
  pub audit : List AuditEntry
  pub organizations : Dict OrganizationStatus
  pub principals : Dict PrincipalStatus
  pub memberships : List OrganizationMembership

pub record Settings : Type 0 where
  pub single_workspace_mode : Bool
  pub job_lease_seconds : ℕ
  pub job_retry_base_seconds : ℕ
  pub job_recovery_batch_size : ℕ
  pub job_orphan_grace_seconds : ℕ
  pub job_max_attempts : ℕ

-- The classes of `JobControlError`, and the `ValueError` of `reset_job_for_retry`.
pub data JobError : Type 0 where
  job_envelope_invalid job_authorization_denied job_lease_lost job_cancelled : JobError
  value_error : JobError

-- `timedelta(seconds=n)`
abbrev pub seconds : ℕ → ℕ
seconds n = n * 1000000

abbrev pub is_terminal : JobStatus → Bool
is_terminal completed = true
is_terminal failed = true
is_terminal cancelled = true
is_terminal dead_letter = true
is_terminal _ = false

-- `RETRYABLE_JOB_STATUSES`
abbrev pub is_retryable : JobStatus → Bool
is_retryable queued = true
is_retryable retry_scheduled = true
is_retryable _ = false

abbrev pub is_running : JobStatus → Bool
is_running running = true
is_running _ = false

abbrev pub is_cancelling : JobStatus → Bool
is_cancelling cancelling = true
is_cancelling _ = false

abbrev pub is_queued : JobStatus → Bool
is_queued queued = true
is_queued _ = false

abbrev pub is_success : Outcome → Bool
is_success succeeded = true
is_success _ = false

unfoldable pub append_job_audit :
    BackgroundJob → JobStatus → TerminalReason → Outcome → List AuditEntry → List AuditEntry
append_job_audit job status reason outcome audit =
    audit
    ++ record {
      organization_id = job.organization_id;
      actor_id = job.actor_principal_id;
      authentication_method = job.authorization_mode;
      status = status;
      job_kind = job.kind;
      resource_id = job.id;
      outcome = outcome;
      reason_code = reason;
      security_retention = not (is_success outcome);
    }
      ∷ []

-- The commit of one row.
abbrev pub put_job : BackgroundJob → Db → Db
put_job job db = record db { jobs = insert job.id job db.jobs }

-- The commit of one row together with its audit entry.
abbrev pub put_audited : BackgroundJob → TerminalReason → Outcome → Db → Db
put_audited job reason outcome db = record db {
  jobs = insert job.id job db.jobs;
  audit = append_job_audit job job.status reason outcome db.audit;
}
