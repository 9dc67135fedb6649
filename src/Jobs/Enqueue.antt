-- ===== src/Jobs/Enqueue.antt =====
-- `enqueue_job` of src/ai_examiner/services/jobs.py up to the hand-over to the broker, with
-- `TaskEnvelope.create` of services/job_control.py. The look-up by idempotency key and the commit
-- under the unique constraint are two steps, so that other requests can come between them. The
-- `uuid4` identifiers, the clock, the correlation and `str.strip` are arguments.
pub mod Once
use Prim.Native.String.{count}
use ai_examiner.Prelude.{
  leb, ◌==◌, if◌then◌else◌, or_default, opt_eq, truthy, Dict, lookup, Result, ok, err, ◌>>=◌, ◌>>◌,
  guard, require, ℕ, String, Bool, true, not, ◌&&◌, Option, none, some, [], ◌∷◌, str_eq,
}
use ai_examiner.Jobs.Model.{
  Json, queued, no_class, no_reason, BackgroundJob, Db, Settings, JobError, put_job,
}
use ai_examiner.Jobs.Envelope.{
  Runtime, TaskEnvelope, job_capabilities, from_dict, as_dict, envelope_digest,
}

-- `ValueError`, and what `TaskEnvelope.from_dict` raises.
pub data EnqueueError : Type 0 where
  rejected : EnqueueError
  envelope_error : JobError → EnqueueError

-- The arguments of `enqueue_job`.
pub record Submission : Type 0 where
  pub kind : String
  pub project_id : Option String
  pub payload : Dict Json
  pub organization_id : Option String
  pub actor_principal_id : Option String
  pub idempotency_key : Option String
  pub max_attempts : Option ℕ

-- `current_tenant_context`
pub record Tenant : Type 0 where
  pub organization_id : Option String
  pub principal_id : Option String

-- `value or default`
abbrev or_text : Option String → String → String
or_text none fallback = fallback
or_text (some s) fallback = if str_eq s "" then fallback else s

-- `LEGACY_ORGANIZATION_ID`
abbrev legacy_organization_id : String
legacy_organization_id = "00000000-0000-0000-0000-000000000001"

abbrev agrees : Option String → String → Bool
agrees none resolved = true
agrees (some stated) resolved = str_eq stated resolved

-- The organization of the job, from its project (the projects are keyed by their identifiers, with
-- their organizations), the request or the tenant.
abbrev project_organization : Option String → Option String → Result EnqueueError String
project_organization stated none = err rejected
project_organization stated (some organization) =
    if agrees stated organization then ok organization else err rejected

unfoldable pub resolve_organization : Tenant → Dict String → Submission → Result EnqueueError String
resolve_organization tenant projects s = do
  resolved ←
      if truthy s.project_id
      then project_organization s.organization_id (lookup (or_default s.project_id "") projects)
      else ok (or_text s.organization_id (or_text tenant.organization_id legacy_organization_id))
  guard (agrees tenant.organization_id resolved) rejected
  ok resolved

-- `TaskEnvelope.create`
unfoldable pub create_envelope :
    Runtime
    → (job_id organization_id : String) → Option String
    → (kind capability : String) → (mode key : String) → Dict Json
    → (request_id traceparent : String) → TaskEnvelope
create_envelope rt job_id organization_id actor kind capability mode key payload request_id
      traceparent =
    record {
      job_id = job_id;
      organization_id = organization_id;
      actor_principal_id = actor;
      kind = kind;
      required_capability = capability;
      authorization_mode = mode;
      idempotency_key = key;
      payload_digest = rt.digest payload;
      request_id = request_id;
      traceparent = traceparent;
      version = 2;
    }

-- The identifiers, the clock and the correlation of one request.
pub record Origin : Type 0 where
  pub job_id : String
  pub key : String
  pub now : ℕ
  pub request_id : String
  pub traceparent : String

-- The envelope of a submission, or why it is refused.
unfoldable pub prepare :
    Runtime
    → (String → String)
    → Origin
    → Tenant
    → Dict String
    → Submission
    → Result EnqueueError TaskEnvelope
prepare rt strip origin tenant projects s = do
  capability ← require (lookup s.kind job_capabilities) rejected
  organization ← resolve_organization tenant projects s
  let actor = if truthy s.actor_principal_id then s.actor_principal_id else tenant.principal_id
  let key = strip (or_text s.idempotency_key origin.key)
  guard (not (str_eq key "") && leb (count key) 160) rejected
  ok (
      create_envelope rt origin.job_id organization actor s.kind capability
        (if truthy actor then "membership" else "legacy_local") key s.payload origin.request_id
        origin.traceparent)

-- The row that the unique constraint looks at.
abbrev pub has_key : TaskEnvelope → BackgroundJob → Bool
has_key e job =
    str_eq job.organization_id e.organization_id
    && (str_eq job.kind e.kind && opt_eq job.idempotency_key (some e.idempotency_key))

unfoldable pub find_job : TaskEnvelope → Dict BackgroundJob → Option BackgroundJob
find_job e [] = none
find_job e ((id, job) ∷ jobs) = if has_key e job then some job else find_job e jobs

abbrev pub digest_of : Result JobError TaskEnvelope → Result EnqueueError String
digest_of (ok e) = ok e.payload_digest
digest_of (err e) = err (envelope_error e)

-- The payload digest of `ensure_job_envelope`; a row without an envelope is given one.
unfoldable pub persisted_digest : Runtime → BackgroundJob → Dict Json → Result EnqueueError String
persisted_digest rt job [] = do
  _ ← require (lookup job.kind job_capabilities) rejected
  ok (rt.digest job.payload)
persisted_digest rt job (entry ∷ entries) = digest_of (from_dict rt (entry ∷ entries))

-- A request whose key is taken.
unfoldable pub reuse : Runtime → TaskEnvelope → BackgroundJob → Result EnqueueError BackgroundJob
reuse rt e existing = do
  guard (opt_eq existing.actor_principal_id e.actor_principal_id) rejected
  digest ← persisted_digest rt existing existing.envelope_json
  guard (str_eq digest e.payload_digest) rejected
  ok existing

-- `max_attempts or get_settings().job_max_attempts`
abbrev attempts_of : Settings → Option ℕ → ℕ
attempts_of settings none = settings.job_max_attempts
attempts_of settings (some n) = if n == 0 then settings.job_max_attempts else n

unfoldable pub new_job :
    Runtime → Settings → TaskEnvelope → Dict Json → Option ℕ → ℕ → BackgroundJob
new_job rt settings e payload max_attempts now = record {
  id = e.job_id;
  organization_id = e.organization_id;
  actor_principal_id = e.actor_principal_id;
  kind = e.kind;
  idempotency_key = some e.idempotency_key;
  envelope_version = e.version;
  envelope_json = as_dict e;
  envelope_digest = envelope_digest rt e;
  required_capability = e.required_capability;
  authorization_mode = e.authorization_mode;
  status = queued;
  progress = 0;
  message = "";
  payload = payload;
  result = [];
  error = "";
  attempt_count = 0;
  max_attempts = attempts_of settings max_attempts;
  retry_class = no_class;
  next_attempt_at = none;
  lease_owner = none;
  lease_token = none;
  lease_expires_at = none;
  heartbeat_at = none;
  cancel_requested_at = none;
  cancel_requested_by = none;
  dead_lettered_at = none;
  terminal_reason = no_reason;
  celery_task_id = none;
  created_at = now;
  updated_at = now;
  started_at = none;
  completed_at = none;
}

abbrev pub commit_found :
    Runtime
    → TaskEnvelope
    → BackgroundJob
    → Option BackgroundJob
    → Db
    → Result EnqueueError BackgroundJob × Db
commit_found rt e job none db = (ok job, put_job job db)
commit_found rt e job (some existing) db = (reuse rt e existing, db)

-- The commit of a new row, which the unique constraint turns into the reuse of the row that has
-- come before it.
unfoldable pub commit_job :
    Runtime
    → Settings
    → TaskEnvelope
    → Dict Json
    → Option ℕ
    → ℕ
    → Db
    → Result EnqueueError BackgroundJob × Db
commit_job rt settings e payload max_attempts now db =
    commit_found rt e (new_job rt settings e payload max_attempts now) (find_job e db.jobs) db

abbrev enqueue_prepared :
    Runtime
    → Settings
    → Origin
    → Submission
    → Result EnqueueError TaskEnvelope
    → Db
    → Result EnqueueError BackgroundJob × Db
unfolding commit_job
enqueue_prepared rt settings origin s (err e) db = (err e, db)
enqueue_prepared rt settings origin s (ok e) db =
    commit_job rt settings e s.payload s.max_attempts origin.now db

-- The whole of a request that no other comes between, `dispatch` false.
unfoldable pub enqueue_job :
    Runtime
    → (String → String)
    → Settings
    → Origin
    → Tenant
    → Dict String
    → Submission
    → Db
    → Result EnqueueError BackgroundJob × Db
unfolding enqueue_prepared
enqueue_job rt strip settings origin tenant projects s db =
    enqueue_prepared rt settings origin s (prepare rt strip origin tenant projects s) db
