-- ===== src/Jobs/Retry.antt =====
-- When a failed job runs again: the backoff of `fail_job` and the dead letters of a claim.
use ai_examiner.Prelude.{
  ltb, leb, Bool-cases, is_some, Dict, lookup, lookup-insert_self, err, ℕ, ◌+◌, ◌≤◌, ◌<◌, String,
  ◌≡◌, refl, inl, inr, true, false, ◌&&◌, ◌||◌, none, some, [], arith, eq_iff,
}
use ai_examiner.Jobs.Model.{
  Json, running, retry_scheduled, dead_letter, RetryClass, attempt_limit_exhausted, BackgroundJob,
  failed_outcome, Db, Settings, job_lease_lost, seconds, put_job, put_audited,
}
use ai_examiner.Jobs.Lease.{
  not_claimed, settled, exhaust_now, after_start, triage, is_eligible, is_owned, complete_job,
}
use ai_examiner.Jobs.Failure.{
  is_cancelled_class, is_transient, retry_countdown, schedule_retry, dispose,
}
use ai_examiner.Jobs.Envelope.{TaskEnvelope}
use ai_examiner.Jobs.Fencing.{foreign-IsFenced}

-- What a disposition that retries has written.
record Scheduled (settings : Settings) (code : String) (c : RetryClass) (now : ℕ)
    (job : BackgroundJob) (db : Db) : Type 0 where
  transient_class : is_transient c ≡ true
  wanted : job.cancel_requested_at ≡ none
  left : job.attempt_count < job.max_attempts
  written : dispose settings code c now job db ≡ (
    record {
      status = retry_scheduled;
      retry = true;
      countdown = retry_countdown settings job.attempt_count;
      error_code = code;
    },
    put_job (schedule_retry code c (retry_countdown settings job.attempt_count) now job) db,
  )

dispose_inversion :
    (settings : Settings) (code : String) (c : RetryClass) (now : ℕ) (job : BackgroundJob) (db : Db)
    → (dispose settings code c now job db).0.retry ≡ true
    → Scheduled settings code c now job db
unfolding dispose
dispose_inversion settings code c now job db h =
    elim (Bool-cases (is_cancelled_class c || is_some job.cancel_requested_at)) [
      | inl cancel ↦ absurd (cc (rw cancel at h))
      | inr go_on ↦ elim (Bool-cases (is_transient c && ltb job.attempt_count job.max_attempts)) [
        | inl again ↦ record {
          transient_class = ground arith;
          wanted = ground arith;
          left = ground arith;
          written = rw (go_on, again);
        }
        | inr over ↦ absurd (cc (rw (go_on, over) at h))
      ]
    ]

eligible_again :
    (code : String) (c : RetryClass) (countdown now later : ℕ) (job : BackgroundJob)
    → job.cancel_requested_at ≡ none
    → job.attempt_count < job.max_attempts
    → let row = schedule_retry code c countdown now job in
      is_eligible row row.envelope_digest later row ≡ leb (now + seconds countdown) later
unfolding is_eligible schedule_retry
eligible_again code c countdown now later job wanted left = ground (
  arith,
  eq_iff job.organization_id job.organization_id,
  eq_iff job.envelope_digest job.envelope_digest,
)

retry_countdown-le : (settings : Settings) (n : ℕ) → retry_countdown settings n ≤ 3600
unfolding retry_countdown
retry_countdown-le settings n = omega arith

-- A failure that is to be retried leaves the job without a lease and with its attempts counted,
-- waits an hour at most, and can be claimed again exactly from the end of the wait.
pub retry_window :
    (settings : Settings) (code : String) (c : RetryClass) (now : ℕ) (job : BackgroundJob) (db : Db)
    → (dispose settings code c now job db).0.retry ≡ true
    → let (d, db') = dispose settings code c now job db in
      (d.countdown ≤ 3600)
      × ((row : BackgroundJob) × (lookup job.id db'.jobs ≡ some row)
          × (row.status ≡ retry_scheduled)
          × (row.lease_token ≡ none)
          × (row.attempt_count ≡ job.attempt_count)
          × ((later : ℕ)
              → is_eligible row row.envelope_digest later row
                ≡ leb (now + seconds d.countdown) later))
unfolding schedule_retry
retry_window settings code c now job db h =
    let s = dispose_inversion settings code c now job db h in
    let countdown = retry_countdown settings job.attempt_count in
    let row = schedule_retry code c countdown now job in
    rw (s.written) (
      retry_countdown-le settings job.attempt_count,
      (
        row,
        lookup-insert_self job.id row db.jobs,
        refl,
        refl,
        refl,
        λ later. eligible_again code c countdown now later job s.wanted s.left,
      ),
    )

exhausted_foreign :
    (e : TaskEnvelope) (token : String) (now : ℕ) (job : BackgroundJob)
    → is_owned e token (exhaust_now now job) ≡ false
unfolding is_owned
exhausted_foreign e token now job = ground arith

triage_buries :
    (settings : Settings) (job : BackgroundJob) (now : ℕ) (db : Db)
    → job.status ≡ running
    → job.cancel_requested_at ≡ none
    → job.attempt_count ≡ job.max_attempts
    → triage settings job now db
      ≡ settled
          (not_claimed (some dead_letter) [])
          (put_audited (exhaust_now now job) attempt_limit_exhausted failed_outcome db)
unfolding triage
triage_buries settings job now db run wanted last = ground arith

-- A second delivery of a job that is running its last allowed attempt, with no cancellation asked,
-- buries the job as a dead letter, however long its lease still runs; the holder's completion is
-- then refused.
pub duplicate_delivery_buries :
    (settings : Settings) (e : TaskEnvelope) (token message : String) (result : Dict Json)
    (job : BackgroundJob) (now later : ℕ) (db : Db)
    → job.status ≡ running
    → job.cancel_requested_at ≡ none
    → job.attempt_count ≡ job.max_attempts
    → e.job_id ≡ job.id
    → let db' = after_start (triage settings job now db) db in
      (lookup job.id db'.jobs ≡ some (exhaust_now now job))
      × (complete_job e token result message later db' ≡ (err job_lease_lost, db'))
duplicate_delivery_buries settings e token message result job now later db run wanted last same =
    let db' = put_audited (exhaust_now now job) attempt_limit_exhausted failed_outcome db in
    let found = lookup-insert_self job.id (exhaust_now now job) db.jobs in
    let found' : lookup e.job_id db'.jobs ≡ some (exhaust_now now job) = rw same found in
    rw (triage_buries settings job now db run wanted last) (
      found,
      (foreign-IsFenced settings e token db' (exhaust_now now job) found'
            (exhausted_foreign e token now job)).no_completion
          later result message,
    )
