-- ===== src/Jobs/Dispatch.antt =====
-- The hand-over to the broker: `ensure_job_envelope` to `recover_and_dispatch_jobs` of
-- src/ai_examiner/services/jobs.py. The broker's `delay` is an argument: it may run the job at once
-- (an eager configuration), and answers the identifier of the task, or raises (none).
use ai_examiner.Prelude.{
  ◌==◌, if◌then◌else◌, is_some, or_default, truthy, length, Dict, lookup, insert,
  lookup-insert_self, Result, ok, err, ◌>>=◌, require, ℕ, ◌-◌, String, ◌≡◌, refl, true, false,
  Option, none, some, List, [], ◌∷◌, ◌++◌, arith,
}
use ai_examiner.Jobs.Model.{
  Json, queued, retry_scheduled, failed, queue_unavailable, BackgroundJob, failed_outcome, Db,
  Settings, JobError, is_queued, put_job, put_audited,
}
use ai_examiner.Jobs.Envelope.{
  Runtime, TaskEnvelope, job_capabilities, from_dict, as_dict, envelope_digest,
}
use ai_examiner.Jobs.Control.{
  reset_job_for_retry, is_stale, recover_stale_jobs, is_orphaned, recover_orphaned_queued_jobs,
}
use ai_examiner.Jobs.Enqueue.{create_envelope}

abbrev pub Broker : Type 0
Broker = TaskEnvelope → Db → Option String × Db

-- The correlation identifiers of the request, for an envelope that has to be made.
pub record Correlation : Type 0 where
  pub request_id : String
  pub traceparent : String

-- `JobQueueUnavailable`, `ValueError`, the row that has gone, and what `from_dict` raises.
pub data DispatchError : Type 0 where
  queue_unavailable_error unsupported row_gone : DispatchError
  envelope_error : JobError → DispatchError

abbrev restored :
    BackgroundJob
    → Result JobError TaskEnvelope
    → Result DispatchError (TaskEnvelope × BackgroundJob)
restored job (ok e) = ok (e, job)
restored job (err e) = err (DispatchError.envelope_error e)

-- The row with the envelope that was made for it.
abbrev enveloped : Runtime → String → TaskEnvelope → BackgroundJob → BackgroundJob
enveloped rt key e job = record job {
  idempotency_key = some key;
  envelope_version = e.version;
  envelope_json = as_dict e;
  envelope_digest = envelope_digest rt e;
  required_capability = e.required_capability;
  authorization_mode = e.authorization_mode;
}

abbrev made :
    Runtime → Correlation → BackgroundJob → Result DispatchError (TaskEnvelope × BackgroundJob)
made rt correlation job = do
  capability ← require (lookup job.kind job_capabilities) unsupported
  let key = if truthy job.idempotency_key then or_default job.idempotency_key job.id else job.id
  let mode = if truthy job.actor_principal_id then "membership" else "legacy_local"
  let e =
      create_envelope rt job.id job.organization_id job.actor_principal_id job.kind capability mode
        key job.payload correlation.request_id correlation.traceparent
  ok (e, enveloped rt key e job)

abbrev ensured :
    Runtime
    → Correlation
    → BackgroundJob
    → Dict Json
    → Result DispatchError (TaskEnvelope × BackgroundJob)
ensured rt correlation job [] = made rt correlation job
ensured rt correlation job (entry ∷ entries) = restored job (from_dict rt (entry ∷ entries))

unfoldable pub ensure_job_envelope :
    Runtime → Correlation → BackgroundJob → Result DispatchError (TaskEnvelope × BackgroundJob)
ensure_job_envelope rt correlation job = ensured rt correlation job job.envelope_json

-- The row of a job that the broker has refused.
unfoldable pub undelivered : BackgroundJob → BackgroundJob
undelivered job = record job {
  status = failed;
  error = "queue_unavailable";
  terminal_reason = queue_unavailable;
}

-- The `except` block, on the row as it is after the failure.
abbrev pub refused_by_broker : Option BackgroundJob → Db → Result DispatchError BackgroundJob × Db
refused_by_broker none db = (err row_gone, db)
refused_by_broker (some current) db =
    if is_queued current.status
    then (
      err queue_unavailable_error,
      put_audited (undelivered current) queue_unavailable failed_outcome db,
    )
    else (ok current, db)

abbrev pub recorded_task :
    String → Option BackgroundJob → Db → Result DispatchError BackgroundJob × Db
recorded_task task none db = (err row_gone, db)
recorded_task task (some current) db =
    let sent = record current { celery_task_id = some task } in (ok sent, put_job sent db)

abbrev pub after_delay : String → Option String × Db → Result DispatchError BackgroundJob × Db
after_delay id (none, db) = refused_by_broker (lookup id db.jobs) db
after_delay id (some task, db) = recorded_task task (lookup id db.jobs) db

abbrev pub dispatch_ensured :
    Broker
    → Result DispatchError (TaskEnvelope × BackgroundJob)
    → Db
    → Result DispatchError BackgroundJob × Db
dispatch_ensured broker (err error) db = (err error, db)
dispatch_ensured broker (ok (e, job)) db = after_delay job.id (broker e (put_job job db))

unfoldable pub dispatch_persisted_job :
    Runtime → Broker → Correlation → BackgroundJob → Db → Result DispatchError BackgroundJob × Db
dispatch_persisted_job rt broker correlation job db =
    if is_some (lookup job.kind job_capabilities)
    then dispatch_ensured broker (ensure_job_envelope rt correlation job) db
    else (err unsupported, db)

abbrev dispatch_reset :
    Runtime
    → Broker
    → Correlation
    → String
    → Result JobError (Unit {0}) × Db
    → Result DispatchError BackgroundJob × Db
dispatch_reset rt broker correlation id (err e, db) = (err (DispatchError.envelope_error e), db)
dispatch_reset rt broker correlation id (ok _, db) = elim (lookup id db.jobs) [
  | none ↦ (err row_gone, db)
  | some job ↦ dispatch_persisted_job rt broker correlation job db
]

unfoldable pub retry_persisted_job :
    Runtime
    → Broker
    → Correlation
    → BackgroundJob
    → String
    → ℕ
    → Db
    → Result DispatchError BackgroundJob × Db
retry_persisted_job rt broker correlation job reason now db =
    dispatch_reset rt broker correlation job.id (reset_job_for_retry job reason now db)

-- The dispatches of a recovery, up to the first that raises.
unfoldable pub dispatch_each :
    Runtime
    → Broker
    → Correlation
    → List BackgroundJob
    → Db
    → Result DispatchError (List BackgroundJob) × Db
dispatch_each rt broker correlation [] db = (ok [], db)
dispatch_each rt broker correlation (job ∷ jobs) db =
    let (first, db') = dispatch_persisted_job rt broker correlation job db in
    let (others, db'') = dispatch_each rt broker correlation jobs db' in
    elim first [
      | err error ↦ (err error, db')
      | ok sent ↦ (others >>= λ rest. ok (sent ∷ rest), db'')
    ]

-- The stale jobs first, and the orphaned ones in what is left of the batch.
unfoldable pub recover_jobs : Settings → String → ℕ → Db → List BackgroundJob × Db
recover_jobs settings organization_id now db =
    let (stale, db') = recover_stale_jobs settings organization_id now db in
    let remaining = settings.job_recovery_batch_size - length stale in
    let (orphaned, db'') =
      recover_orphaned_queued_jobs (record settings { job_recovery_batch_size = remaining })
        organization_id now db' in
    if remaining == 0 then (stale, db') else (stale ++ orphaned, db'')

unfoldable pub recover_and_dispatch_jobs :
    Runtime
    → Broker
    → Correlation
    → Settings
    → String
    → ℕ
    → Db
    → Result DispatchError (List BackgroundJob) × Db
recover_and_dispatch_jobs rt broker correlation settings organization_id now db =
    let (jobs, db') = recover_jobs settings organization_id now db in
    dispatch_each rt broker correlation jobs db'

module _ (rt : Runtime) (broker : Broker) (correlation : Correlation) (e : TaskEnvelope)
    (job : BackgroundJob) (db : Db) where
  -- What a refused dispatch of a queued job has done.
  pub record IsReported : Type 0 where
    pub answer : dispatch_persisted_job rt broker correlation job db ≡ (
      err queue_unavailable_error,
      put_audited (undelivered job) queue_unavailable failed_outcome (put_job job db),
    )
    pub failed_row :
        lookup job.id (dispatch_persisted_job rt broker correlation job db).1.jobs
        ≡ some (undelivered job)

  -- What a refused dispatch of a job that waits for a retry has done.
  pub record IsStranded : Type 0 where
    pub answer : dispatch_persisted_job rt broker correlation job db ≡ (ok job, put_job job db)
    pub not_stale : (organization_id : String) (now : ℕ) → is_stale organization_id now job ≡ false
    pub not_orphaned :
        (settings : Settings) (organization_id : String) (now : ℕ)
        → is_orphaned settings organization_id now job ≡ false

  refused_dispatch :
      is_some (lookup job.kind job_capabilities) ≡ true
      → ensure_job_envelope rt correlation job ≡ ok (e, job)
      → broker e (put_job job db) ≡ (none, put_job job db)
      → dispatch_persisted_job rt broker correlation job db
        ≡ refused_by_broker (some job) (put_job job db)
  unfolding dispatch_persisted_job
  refused_dispatch known ensured_ok refuses =
      rw (known, ensured_ok, refuses, lookup-insert_self job.id job db.jobs) refl

  -- When the broker refuses a job that has its envelope, a queued job is marked as failed and the
  -- caller is told; a job that waits for a retry is left as it is, the caller is told nothing, and
  -- no later recovery takes the job up.
  pub broker_refusal :
      is_some (lookup job.kind job_capabilities) ≡ true
      → ensure_job_envelope rt correlation job ≡ ok (e, job)
      → broker e (put_job job db) ≡ (none, put_job job db)
      → (job.status ≡ queued → IsReported) × (job.status ≡ retry_scheduled → IsStranded)
  unfolding is_stale is_orphaned undelivered
  broker_refusal known ensured_ok refuses =
      let answer = refused_dispatch known ensured_ok refuses in
      (
        λ waiting.
            let told : dispatch_persisted_job rt broker correlation job db ≡ (
              err queue_unavailable_error,
              put_audited (undelivered job) queue_unavailable failed_outcome (put_job job db),
            ) =
              rw (answer, waiting) refl in
            record {
              answer = told;
              failed_row =
                  rw told (lookup-insert_self job.id (undelivered job) (insert job.id job db.jobs));
            },
        λ waiting. record {
          answer = rw (answer, waiting) refl;
          not_stale = λ organization_id now. ground (arith, waiting);
          not_orphaned = λ settings organization_id now. ground (arith, waiting);
        },
      )
