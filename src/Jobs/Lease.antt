-- ===== src/Jobs/Lease.antt =====
-- Claiming, renewing and using a lease: `authorize_job_execution` to `complete_job` of
-- src/ai_examiner/services/job_control.py. A claim is two transactions' worth of steps, the read
-- with its early exits (`begin_claim`) and the conditional UPDATE (`finish_claim`), so that other
-- deliveries can be placed between them. `uuid4` and the clock are arguments.
use ai_examiner.Prelude.{
  ltb, leb, ◌==◌, if◌then◌else◌, is_none, is_some, or_default, opt_eq, contains, Dict, lookup,
  Result, ok, err, guard, ℕ, zero, suc, ◌+◌, max, String, Bool, true, false, not, ◌&&◌, ◌||◌,
  Option, none, some, List, [], ◌∷◌, str_eq,
}
use ai_examiner.Enterprise.{
  OrganizationStatus, PrincipalStatus, MembershipStatus, effective_capabilities,
}
use ai_examiner.Membership.{OrganizationMembership}
use ai_examiner.Jobs.Model.{
  Json, JobStatus, running, completed, cancelled, dead_letter, no_class, completed_reason,
  cancel_requested, attempt_limit_exhausted, BackgroundJob, succeeded, failed_outcome, Db, Settings,
  JobError, job_envelope_invalid, job_authorization_denied, job_lease_lost, seconds, is_terminal,
  is_retryable, is_running, is_cancelling, append_job_audit, put_audited,
}
use ai_examiner.Jobs.Store.{update_where}
use ai_examiner.Jobs.Envelope.{Runtime, TaskEnvelope, envelope_digest, verify_job_envelope}

-- `text[:n]`
pub truncate : ℕ → String → String
truncate zero s = ""
truncate (suc n) String.[] = ""
truncate (suc n) (String.◌∷◌ c s) = String.◌∷◌ c (truncate n s)

abbrev organization_active : Option OrganizationStatus → Bool
organization_active (some OrganizationStatus.active) = true
organization_active _ = false

abbrev principal_active : Option PrincipalStatus → Bool
principal_active (some PrincipalStatus.active) = true
principal_active _ = false

abbrev membership_active : MembershipStatus → Bool
membership_active MembershipStatus.active = true
membership_active _ = false

find_membership : String → String → List OrganizationMembership → Option OrganizationMembership
find_membership organization_id principal_id [] = none
find_membership organization_id principal_id (m ∷ ms) =
    if str_eq m.organization_id organization_id && str_eq m.principal_id principal_id
    then some m
    else find_membership organization_id principal_id ms

abbrev member_may : String → Option OrganizationMembership → Bool
member_may capability none = false
member_may capability (some m) =
    membership_active m.status && contains (effective_capabilities m.role) capability

unfoldable pub authorize_member : BackgroundJob → Option String → Db → Result JobError (Unit {0})
unfolding find_membership
authorize_member job none db = err job_authorization_denied
authorize_member job (some actor) db =
    guard
      (not (str_eq actor "")
        && (organization_active (lookup job.organization_id db.organizations)
            && (principal_active (lookup actor db.principals)
                && member_may job.required_capability
                    (find_membership job.organization_id actor db.memberships))))
      job_authorization_denied

unfoldable pub authorize_job_execution : Settings → BackgroundJob → Db → Result JobError (Unit {0})
authorize_job_execution settings job db =
    if str_eq job.authorization_mode "legacy_local"
    then guard settings.single_workspace_mode job_authorization_denied
    else authorize_member job job.actor_principal_id db

-- The status of a claim is missing (`unavailable`) when the job has gone.
pub record JobClaim : Type 0 where
  pub execute : Bool
  pub lease_token : Option String
  pub status : Option JobStatus
  pub result : Dict Json

abbrev pub not_claimed : Option JobStatus → Dict Json → JobClaim
not_claimed status result = record {
  execute = false;
  lease_token = none;
  status = status;
  result = result;
}

-- `current.status if current else "unavailable"`, and the like for the result.
abbrev pub unavailable_or : Option BackgroundJob → JobClaim
unavailable_or none = not_claimed none []
unavailable_or (some current) = not_claimed (some current.status) current.result

pub data ClaimStart : Type 0 where
  refused : JobError → ClaimStart
  settled : JobClaim → Db → ClaimStart
  attempt : BackgroundJob → ClaimStart

abbrev pub cancel_now : ℕ → BackgroundJob → BackgroundJob
cancel_now now job = record job {
  status = cancelled;
  progress = 1000000;
  message = "Job cancelled";
  terminal_reason = cancel_requested;
  completed_at = some now;
  updated_at = now;
}

abbrev pub exhaust_now : ℕ → BackgroundJob → BackgroundJob
exhaust_now now job = record job {
  status = dead_letter;
  dead_lettered_at = some now;
  completed_at = some now;
  terminal_reason = attempt_limit_exhausted;
  updated_at = now;
}

-- The database when `claim_job` returns or raises before its UPDATE.
abbrev pub after_start : ClaimStart → Db → Db
after_start (settled claim db') db = db'
after_start (refused e) db = db
after_start (attempt job) db = db

abbrev pub authorized : BackgroundJob → Result JobError (Unit {0}) → ClaimStart
authorized job (ok _) = attempt job
authorized job (err e) = refused e

-- The exits of `claim_job` on a job whose envelope has been verified.
unfoldable pub triage : Settings → BackgroundJob → ℕ → Db → ClaimStart
triage settings job now db =
    if is_terminal job.status
    then settled (not_claimed (some job.status) job.result) db
    else if is_some job.cancel_requested_at || is_cancelling job.status
    then settled (not_claimed (some cancelled) [])
        (put_audited (cancel_now now job) cancel_requested succeeded db)
    else if leb job.max_attempts job.attempt_count
    then settled (not_claimed (some dead_letter) [])
        (put_audited (exhaust_now now job) attempt_limit_exhausted failed_outcome db)
    else authorized job (authorize_job_execution settings job db)

abbrev pub verified : Result JobError (Unit {0}) → ClaimStart → ClaimStart
verified (ok _) next = next
verified (err e) next = refused e

abbrev pub begin_found :
    Runtime → Settings → TaskEnvelope → ℕ → Option BackgroundJob → Db → ClaimStart
begin_found rt settings envelope now none db = refused job_envelope_invalid
begin_found rt settings envelope now (some job) db =
    if str_eq job.organization_id envelope.organization_id
    then verified (verify_job_envelope rt job envelope) (triage settings job now db)
    else refused job_envelope_invalid

-- `claim_job` up to the UPDATE.
unfoldable pub begin_claim : Runtime → Settings → TaskEnvelope → ℕ → Db → ClaimStart
begin_claim rt settings envelope now db =
    begin_found rt settings envelope now (lookup envelope.job_id db.jobs) db

-- `column <= now`, where NULL is not
abbrev pub due : Option ℕ → ℕ → Bool
due none now = false
due (some t) now = leb t now

-- The conditions of the UPDATE, read on the row as it is when the statement runs.
unfoldable pub is_eligible : BackgroundJob → String → ℕ → BackgroundJob → Bool
is_eligible snapshot digest now row =
    str_eq row.organization_id snapshot.organization_id
    && (str_eq row.envelope_digest digest
        && (ltb row.attempt_count row.max_attempts
            && ((is_retryable row.status || (is_running row.status && due row.lease_expires_at now))
                && ((is_none row.next_attempt_at || due row.next_attempt_at now)
                    && is_none row.cancel_requested_at))))

unfoldable pub claimed :
    Settings → BackgroundJob → String → String → ℕ → BackgroundJob → BackgroundJob
claimed settings snapshot delivery_id lease_token now row = record row {
  status = running;
  progress = max snapshot.progress 10000;
  message = "Worker claimed job";
  attempt_count = row.attempt_count + 1;
  lease_owner = some (truncate 160 delivery_id);
  lease_token = some lease_token;
  lease_expires_at = some (now + seconds settings.job_lease_seconds);
  heartbeat_at = some now;
  started_at = some (or_default snapshot.started_at now);
  next_attempt_at = none;
  retry_class = no_class;
  error = "";
  updated_at = now;
}

abbrev pub answer : String → BackgroundJob → ℕ × Db → JobClaim × Db
answer lease_token snapshot (rowcount, db) =
    if rowcount == 1
    then (
      record { execute = true; lease_token = some lease_token; status = some running; result = [] },
      db,
    )
    else (unavailable_or (lookup snapshot.id db.jobs), db)

unfoldable pub finish_claim :
    Runtime → Settings → TaskEnvelope → String → String → BackgroundJob → ℕ → Db → JobClaim × Db
finish_claim rt settings envelope delivery_id lease_token snapshot now db =
    answer lease_token snapshot (
      update_where snapshot.id (is_eligible snapshot (envelope_digest rt envelope) now)
        (claimed settings snapshot delivery_id lease_token now) db)

-- `claim_job` from its exits on.
abbrev pub claim_from :
    Runtime
    → Settings
    → TaskEnvelope
    → String
    → String
    → ℕ
    → ClaimStart
    → Db
    → Result JobError JobClaim × Db
claim_from rt settings envelope delivery_id lease_token now (refused e) db = (err e, db)
claim_from rt settings envelope delivery_id lease_token now (settled claim db') db = (ok claim, db')
claim_from rt settings envelope delivery_id lease_token now (attempt job) db =
    let (claim, db') = finish_claim rt settings envelope delivery_id lease_token job now db in
    (ok claim, db')

-- `claim_job` with nothing in between.
unfoldable pub claim_job :
    Runtime → Settings → TaskEnvelope → String → String → ℕ → Db → Result JobError JobClaim × Db
claim_job rt settings envelope delivery_id lease_token now db =
    claim_from rt settings envelope delivery_id lease_token now
      (begin_claim rt settings envelope now db) db

-- The conditions under which a delivery's statements reach the row.
unfoldable pub is_owned : TaskEnvelope → String → BackgroundJob → Bool
is_owned envelope lease_token row =
    str_eq row.organization_id envelope.organization_id
    && (is_running row.status && opt_eq row.lease_token (some lease_token))

unfoldable pub renewed : Settings → ℕ → BackgroundJob → BackgroundJob
renewed settings now row = record row {
  heartbeat_at = some now;
  lease_expires_at = some (now + seconds settings.job_lease_seconds);
  updated_at = now;
}

unfoldable pub heartbeat_job : Settings → TaskEnvelope → String → ℕ → Db → Bool × Db
heartbeat_job settings envelope lease_token now db =
    let (rowcount, db') =
      update_where envelope.job_id
        (λ row. is_owned envelope lease_token row && is_none row.cancel_requested_at)
        (renewed settings now) db in
    (rowcount == 1, db')

unfoldable pub job_cancel_requested : TaskEnvelope → String → Db → Result JobError Bool
job_cancel_requested envelope lease_token db = elim (lookup envelope.job_id db.jobs) [
  | none ↦ err job_lease_lost
  | some job ↦
      if str_eq job.organization_id envelope.organization_id
        && opt_eq job.lease_token (some lease_token)
      then ok (is_some job.cancel_requested_at || is_cancelling job.status)
      else err job_lease_lost
]

-- `update_running_job`: `values` is the assignment of the keyword arguments. A failure rolls back.
unfoldable pub update_running_job :
    TaskEnvelope
    → String
    → ℕ
    → (BackgroundJob → BackgroundJob)
    → Db
    → Result JobError (Unit {0}) × Db
update_running_job envelope ownership_token now values db =
    let (rowcount, db') =
      update_where envelope.job_id (is_owned envelope ownership_token)
        (λ row. record (values row) { updated_at = now }) db in
    if rowcount == 1 then (ok tt, db') else (err job_lease_lost, db)

unfoldable pub completed_values : Dict Json → String → ℕ → BackgroundJob → BackgroundJob
completed_values result message now row = record row {
  status = completed;
  progress = 1000000;
  message = message;
  result = result;
  error = "";
  lease_owner = none;
  lease_token = none;
  lease_expires_at = none;
  heartbeat_at = some now;
  completed_at = some now;
  terminal_reason = completed_reason;
}

-- The audit entry of a completed job, appended in the same transaction as the update.
abbrev pub audit_completed :
    Option BackgroundJob → Db → Result JobError (Unit {0}) × Db → Result JobError (Unit {0}) × Db
audit_completed job before (err e, db) = (err e, db)
audit_completed none before (ok _, db) = (err job_lease_lost, before)
audit_completed (some job) before (ok _, db) = (
  ok tt,
  record db { audit = append_job_audit job completed completed_reason succeeded db.audit },
)

unfoldable pub complete_job :
    TaskEnvelope → String → Dict Json → String → ℕ → Db → Result JobError (Unit {0}) × Db
complete_job envelope lease_token result message now db =
    let (done, db') =
      update_running_job envelope lease_token now (completed_values result message now) db in
    audit_completed (lookup envelope.job_id db'.jobs) db (done, db')
