-- ===== src/Jobs/Fencing.antt =====
-- What a delivery can still do to a job that it no longer holds, and to a cancelled one.
use ai_examiner.Prelude.{
  is_none, Dict, lookup, lookup-insert_self, Result, ok, err, ℕ, String, ◌≡◌, ◌≢◌, true, false,
  ◌&&◌, none, some, arith, eq_iff,
}
use ai_examiner.Jobs.Model.{Json, cancelled, BackgroundJob, Db, Settings, JobError, job_lease_lost}
use ai_examiner.Jobs.Store.{update_where_miss}
use ai_examiner.Jobs.Envelope.{Runtime, TaskEnvelope}
use ai_examiner.Jobs.Lease.{
  claimed, finish_claim, is_owned, renewed, heartbeat_job, update_running_job, completed_values,
  complete_job,
}
use ai_examiner.Jobs.Failure.{Exception, JobFailureDisposition, holds_lease, fail_job}
use ai_examiner.Jobs.Claims.{finish_claim_inversion}

-- The statements of a delivery that does not reach the row.
pub record IsFenced (settings : Settings) (e : TaskEnvelope) (token : String) (db : Db)
    : Type 0 where
  pub no_heartbeat : (now : ℕ) → heartbeat_job settings e token now db ≡ (false, db)
  pub no_update :
      (now : ℕ) (values : BackgroundJob → BackgroundJob)
      → update_running_job e token now values db ≡ (err job_lease_lost, db)
  pub no_completion :
      (now : ℕ) (result : Dict Json) (message : String)
      → complete_job e token result message now db ≡ (err job_lease_lost, db)

module _ (settings : Settings) (e : TaskEnvelope) (token : String) (db : Db) (row : BackgroundJob)
    (found : lookup e.job_id db.jobs ≡ some row) (foreign : is_owned e token row ≡ false) where
  heartbeat_foreign : (now : ℕ) → heartbeat_job settings e token now db ≡ (false, db)
  unfolding heartbeat_job
  heartbeat_foreign now = rw (
      update_where_miss e.job_id (λ row. is_owned e token row && is_none row.cancel_requested_at)
        (renewed settings now) db row found (ground arith))

  update_foreign :
      (now : ℕ) (values : BackgroundJob → BackgroundJob)
      → update_running_job e token now values db ≡ (err job_lease_lost, db)
  unfolding update_running_job
  update_foreign now values = rw (
      update_where_miss e.job_id (is_owned e token)
        (λ row. record (values row) { updated_at = now }) db row found foreign)

  complete_foreign :
      (now : ℕ) (result : Dict Json) (message : String)
      → complete_job e token result message now db ≡ (err job_lease_lost, db)
  unfolding complete_job
  complete_foreign now result message =
      rw (update_foreign now (completed_values result message now))

  pub foreign-IsFenced : IsFenced settings e token db
  foreign-IsFenced = record {
    no_heartbeat = heartbeat_foreign;
    no_update = update_foreign;
    no_completion = complete_foreign;
  }

fail_foreign :
    (settings : Settings) (e : TaskEnvelope) (token : String) (db : Db) (row : BackgroundJob)
    (exc : Exception) (now : ℕ)
    → lookup e.job_id db.jobs ≡ some row
    → holds_lease e token row ≡ false
    → fail_job settings e token exc now db ≡ (err job_lease_lost, db)
unfolding fail_job
fail_foreign settings e token db row exc now found foreign = rw (found, foreign)

token_taken :
    (settings : Settings) (e : TaskEnvelope) (snapshot row : BackgroundJob)
    (delivery token rival : String) (now : ℕ)
    → token ≢ rival
    → (is_owned e token (claimed settings snapshot delivery rival now row) ≡ false)
      × (holds_lease e token (claimed settings snapshot delivery rival now row) ≡ false)
unfolding is_owned claimed holds_lease
token_taken settings e snapshot row delivery token rival now differ =
    ground (arith, eq_iff rival token)

-- Once another delivery has claimed the job, the earlier holder's heartbeats, progress, completion
-- and failure are all refused, and none of them changes the database.
pub takeover_fences :
    (rt : Runtime) (settings : Settings) (e e' : TaskEnvelope) (delivery token rival : String)
    (snapshot : BackgroundJob) (now : ℕ) (db : Db)
    → (finish_claim rt settings e' delivery rival snapshot now db).0.execute ≡ true
    → e.job_id ≡ snapshot.id
    → token ≢ rival
    → let db' = (finish_claim rt settings e' delivery rival snapshot now db).1 in
      IsFenced settings e token db'
      × ((exc : Exception) (later : ℕ)
          → fail_job settings e token exc later db' ≡ (err job_lease_lost, db'))
takeover_fences rt settings e e' delivery token rival snapshot now db h same differ =
    let db' = (finish_claim rt settings e' delivery rival snapshot now db).1 in
    let c = finish_claim_inversion rt settings e' delivery rival snapshot now db h in
    let row' = claimed settings snapshot delivery rival now c.row in
    let found : lookup e.job_id db'.jobs ≡ some row' =
      rw (c.written, same, lookup-insert_self snapshot.id row' db.jobs) in
    let (foreign, unheld) = token_taken settings e snapshot c.row delivery token rival now differ in
    (
      foreign-IsFenced settings e token db' row' found foreign,
      λ exc later. fail_foreign settings e token db' row' exc later found unheld,
    )

-- The answer and the row of a failure that ends a job as cancelled.
pub record IsEndedCancelled (id code : String) (later : ℕ)
    (r : Result JobError JobFailureDisposition × Db) : Type 0 where
  pub row : BackgroundJob
  pub answer :
      r.0 ≡ ok (record { status = cancelled; retry = false; countdown = 0; error_code = code })
  pub found : lookup id r.1.jobs ≡ some row
  pub ended : row.status ≡ cancelled
  pub free : row.lease_token ≡ none
  pub finished : row.completed_at ≡ some later
