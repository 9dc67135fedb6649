-- ===== src/Jobs/Worker/Attempt.antt =====
-- The row of a job while a delivery of src/ai_examiner/jobs.py works on it.
use ai_examiner.Prelude.{
  ◌==◌, Bool-cases, is_none, lookup, insert, lookup-insert_self, ok, ℕ, ◌<◌, String, ◌≡◌, ◌∙◌, ◌⊎◌,
  inl, inr, Bool, true, ◌&&◌, some, arith, str_eq, eq_iff,
}
use ai_examiner.Jobs.Model.{
  retry_scheduled, BackgroundJob, Db, Settings, is_terminal, is_running, is_cancelling,
}
use ai_examiner.Jobs.Store.{update_where, update_where_hit, update_where_miss}
use ai_examiner.Jobs.Envelope.{Runtime, TaskEnvelope, envelope_digest, verify_job_envelope}
use ai_examiner.Jobs.Failure.{holds_lease}
use ai_examiner.Jobs.Lease.{is_owned, renewed, heartbeat_job, update_running_job}
use ai_examiner.Jobs.Control.{mark_cancelled, request_job_cancellation}
use ai_examiner.Jobs.Worker.{progress_values, cancel_found}

-- The row of a key satisfies `P`.
abbrev pub Found {κ} : (BackgroundJob → Type κ) → String → Db → Type κ
Found P k db = (row : BackgroundJob) × (lookup k db.jobs ≡ some row) × P row

-- A delivery holds the job, in its attempt `n` of `m`.
pub record IsAttempt (rt : Runtime) (e : TaskEnvelope) (token : String) (n m : ℕ)
    (row : BackgroundJob) : Type 0 where
  pub own : holds_lease e token row ≡ true
  pub sound : verify_job_envelope rt row e ≡ ok tt
  pub attempt_number : row.attempt_count ≡ n
  pub limit : row.max_attempts ≡ m

-- The job waits for another attempt after `n` of `m`.
pub record IsWaiting (rt : Runtime) (e : TaskEnvelope) (n m : ℕ) (row : BackgroundJob)
    : Type 0 where
  pub scheduled : row.status ≡ retry_scheduled
  pub sound : verify_job_envelope rt row e ≡ ok tt
  pub attempts : row.attempt_count ≡ n
  pub limit : row.max_attempts ≡ m
  pub left : n < m

abbrev pub IsEnded : BackgroundJob → Type 0
IsEnded row = is_terminal row.status ≡ true

abbrev pub IsOver : Runtime → TaskEnvelope → ℕ → ℕ → BackgroundJob → Type 0
IsOver rt e n m row = IsEnded row ⊎ IsWaiting rt e n m row

-- What the verification of the envelope says of the row.
pub record IsVerified (rt : Runtime) (e : TaskEnvelope) (row : BackgroundJob) : Type 0 where
  pub same_id : row.id ≡ e.job_id
  pub same_organization : str_eq row.organization_id e.organization_id ≡ true
  pub same_digest : str_eq row.envelope_digest (envelope_digest rt e) ≡ true

pub verify_job_envelope-IsVerified :
    (rt : Runtime) (e : TaskEnvelope) (row : BackgroundJob)
    → verify_job_envelope rt row e ≡ ok tt
    → IsVerified rt e row
unfolding verify_job_envelope
verify_job_envelope-IsVerified rt e row h = record {
  same_id = ground (arith, eq_iff row.id e.job_id);
  same_organization = ground arith;
  same_digest = ground arith;
}

module _ {κ} (P : BackgroundJob → Type κ) (k : String) where
  pub update_where-Found :
      (test : BackgroundJob → Bool) (values : BackgroundJob → BackgroundJob) (db : Db)
      → ((row : BackgroundJob) → P row → P (values row))
      → Found P k db
      → Found P k (update_where k test values db).1
  update_where-Found test values db keeps (row, found, p) = elim (Bool-cases (test row)) [
    | inl pass ↦
        rw (update_where_hit k test values db row found pass)
          (values row, lookup-insert_self k (values row) db.jobs, keeps row p)
    | inr fail ↦ rw (update_where_miss k test values db row found fail) (row, found, p)
  ]

module _ (rt : Runtime) (e : TaskEnvelope) (token : String) (n m : ℕ) where
  abbrev pub Held : Db → Type 0
  Held = Found (IsAttempt rt e token n m) e.job_id

  renewed-IsAttempt :
      (settings : Settings) (now : ℕ) (row : BackgroundJob)
      → IsAttempt rt e token n m row
      → IsAttempt rt e token n m (renewed settings now row)
  unfolding renewed holds_lease verify_job_envelope
  renewed-IsAttempt settings now row a = record {
    own = a.own;
    sound = a.sound;
    attempt_number = a.attempt_number;
    limit = a.limit;
  }

  progress_values-IsAttempt :
      (progress now : ℕ) (message : String) (row : BackgroundJob)
      → IsAttempt rt e token n m row
      → IsAttempt rt e token n m
          (record (progress_values progress message row) { updated_at = now })
  unfolding holds_lease verify_job_envelope
  progress_values-IsAttempt progress now message row a = record {
    own = a.own;
    sound = a.sound;
    attempt_number = a.attempt_number;
    limit = a.limit;
  }

  mark_cancelled-IsAttempt :
      (principal reason : String) (now : ℕ) (row : BackgroundJob)
      → IsAttempt rt e token n m row
      → IsAttempt rt e token n m (mark_cancelled principal reason now row)
  unfolding mark_cancelled holds_lease verify_job_envelope
  mark_cancelled-IsAttempt principal reason now row a = elim (Bool-cases (is_running row.status)) [
    | inl run ↦ rw run (record {
      own = a.own;
      sound = a.sound;
      attempt_number = a.attempt_number;
      limit = a.limit;
    })
    | inr idle ↦ rw idle (record {
      own = a.own;
      sound = a.sound;
      attempt_number = a.attempt_number;
      limit = a.limit;
    })
  ]

  pub heartbeat_job-Held :
      (settings : Settings) (now : ℕ) (db : Db)
      → Held db
      → Held (heartbeat_job settings e token now db).1
  unfolding heartbeat_job
  heartbeat_job-Held settings now db =
      update_where-Found (IsAttempt rt e token n m) e.job_id
        (λ row. is_owned e token row && is_none row.cancel_requested_at) (renewed settings now) db
        (renewed-IsAttempt settings now)

  pub report-Held :
      (progress now : ℕ) (message : String) (db : Db)
      → Held db
      → Held (update_running_job e token now (progress_values progress message) db).1
  unfolding update_running_job
  report-Held progress now message db held =
      let set_values = λ (row : BackgroundJob). record (progress_values progress message row) {
        updated_at = now;
      } in
      let written =
        update_where-Found (IsAttempt rt e token n m) e.job_id (is_owned e token) set_values db
          (progress_values-IsAttempt progress now message) held in
      elim (Bool-cases ((update_where e.job_id (is_owned e token) set_values db).0 == 1)) [
        | inl done ↦ rw done written
        | inr missed ↦ rw missed held
      ]

  put-Held :
      (key : String) (row : BackgroundJob) (db : Db)
      → key ≡ e.job_id
      → IsAttempt rt e token n m row
      → lookup e.job_id (insert key row db.jobs) ≡ some row
  put-Held key row db same a = rw same (lookup-insert_self e.job_id row db.jobs)

  mark_cancelled-id :
      (principal reason : String) (now : ℕ) (row : BackgroundJob)
      → (mark_cancelled principal reason now row).id ≡ row.id
  unfolding mark_cancelled
  mark_cancelled-id principal reason now row = ground arith

  pub cancel_found-Held :
      (principal reason : String) (now : ℕ) (db : Db)
      → Held db
      → Held (cancel_found (lookup e.job_id db.jobs) principal reason now db)
  unfolding request_job_cancellation
  cancel_found-Held principal reason now db (row, found, a) =
      let marked = mark_cancelled principal reason now row in
      let same =
        mark_cancelled-id principal reason now row
        ∙ (verify_job_envelope-IsVerified rt e row a.sound).same_id in
      let b = mark_cancelled-IsAttempt principal reason now row a in
      rw found (elim (Bool-cases (is_terminal row.status)) [
        | inl ended ↦ rw ended (row, found, a)
        | inr live ↦ elim (Bool-cases (is_cancelling marked.status)) [
          | inl asked ↦ rw (live, asked) (marked, put-Held marked.id marked db same b, b)
          | inr done ↦ rw (live, done) (marked, put-Held marked.id marked db same b, b)
        ]
      ])
