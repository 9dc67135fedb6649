-- ===== src/Jobs/Worker/Ending.antt =====
-- How the work of a delivery of src/ai_examiner/jobs.py ends.
use mathlib.Core.Path.{subst}
use ai_examiner.Prelude.{
  ltb, Bool-cases, is_some, Dict, lookup, lookup-insert_self, Result, ok, err, ◌>>◌, ℕ, ◌<◌, String,
  ◌≡◌, refl, inl, inr, Bool, true, false, not, ◌&&◌, ◌||◌, Option, none, some, List, [], ◌∷◌, arith,
}
use ai_examiner.Jobs.Model.{Json, RetryClass, BackgroundJob, Db, Settings, JobError}
use ai_examiner.Jobs.Store.{update_where_hit, update_where_miss}
use ai_examiner.Jobs.Envelope.{Runtime, TaskEnvelope, verify_job_envelope}
use ai_examiner.Jobs.Lease.{
  truncate, is_owned, heartbeat_job, update_running_job, completed_values, complete_job,
}
use ai_examiner.Jobs.Failure.{
  Exception, classify_job_exception, JobFailureDisposition, is_cancelled_class, is_transient,
  retry_countdown, cancel_failed, schedule_retry, bury, dispose, disposed, fail_job,
}
use ai_examiner.Jobs.Worker.{
  WorkEvent, report, checkpoint, beat, cancellation, WorkEnd, returned, raised, raised_by,
  checkpoint_raises, progress_values, cancel_found, completed_or_raised, conclude_work, stop_or,
  work, answer_failure, answer_work,
}
use ai_examiner.Jobs.Worker.Attempt.{
  Found, IsAttempt, IsWaiting, IsEnded, IsOver, verify_job_envelope-IsVerified, Held,
  heartbeat_job-Held, report-Held, cancel_found-Held,
}

module _ (rt : Runtime) (settings : Settings) (e : TaskEnvelope) (token : String) (n m : ℕ) where
  -- The job is completed, or the delivery still holds it and has an exception to report.
  abbrev Concluded : Result Exception (Dict Json) × Db → Type 0
  Concluded (ok _, db) = Found IsEnded e.job_id db
  Concluded (err _, db) = Held rt e token n m db

  completed_values-IsEnded :
      (result : Dict Json) (message : String) (now : ℕ) (row : BackgroundJob)
      → IsEnded (record (completed_values result message now row) { updated_at = now })
  unfolding completed_values
  completed_values-IsEnded result message now row = refl

  complete_job-Concluded :
      (result : Dict Json) (message : String) (now : ℕ) (db : Db)
      → Held rt e token n m db
      → Concluded (completed_or_raised result (complete_job e token result message now db))
  unfolding complete_job update_running_job
  complete_job-Concluded result message now db (row, found, a) =
      let set_values = λ (j : BackgroundJob). record (completed_values result message now j) {
        updated_at = now;
      } in
      elim (Bool-cases (is_owned e token row)) [
        | inl owned ↦
            rw
              (
                update_where_hit e.job_id (is_owned e token) set_values db row found owned,
                lookup-insert_self e.job_id (set_values row) db.jobs,
              )
              (
                set_values row,
                lookup-insert_self e.job_id (set_values row) db.jobs,
                completed_values-IsEnded result message now row,
              )
        | inr foreign ↦
            rw
              (update_where_miss e.job_id (is_owned e token) set_values db row found foreign, found)
              (row, refl, a)
      ]

  conclude_work-Concluded :
      (result : Dict Json) (message : String) (now : ℕ) (raised : Option Exception) (db : Db)
      → Held rt e token n m db
      → Concluded (conclude_work e token now result message raised db)
  conclude_work-Concluded result message now none db held =
      complete_job-Concluded result message now db held
  conclude_work-Concluded result message now (some exc) db held = held

  stop_or-Concluded :
      (raised : Option Exception) (rest : Result Exception (Dict Json) × Db) (db : Db)
      → Held rt e token n m db
      → Concluded rest
      → Concluded (stop_or raised db rest)
  stop_or-Concluded none rest db held next = next
  stop_or-Concluded (some exc) rest db held next = held

  work-Concluded :
      (events : List WorkEvent) (ending : WorkEnd) (now : ℕ) (is_lost : Bool) (db : Db)
      → Held rt e token n m db
      → Concluded (work settings e token events ending now is_lost db)
  unfolding work
  work-Concluded [] (raised exc) now is_lost db held = held
  work-Concluded [] (returned result message) now is_lost db held =
      conclude_work-Concluded result message now (checkpoint_raises e token is_lost db) db held
  work-Concluded (report progress at message ∷ events) ending now is_lost db held =
      let next = report-Held rt e token n m progress at message db held in
      let reported = update_running_job e token at (progress_values progress message) db in
      stop_or-Concluded (raised_by (reported.0 >> ok false))
        (work settings e token events ending now is_lost reported.1) reported.1 next
        (work-Concluded events ending now is_lost reported.1 next)
  work-Concluded (checkpoint ∷ events) ending now is_lost db held =
      stop_or-Concluded (checkpoint_raises e token is_lost db)
        (work settings e token events ending now is_lost db) db held
        (work-Concluded events ending now is_lost db held)
  work-Concluded (beat at ∷ events) ending now true db held =
      work-Concluded events ending now true db held
  work-Concluded (beat at ∷ events) ending now false db held =
      work-Concluded events ending now (not (heartbeat_job settings e token at db).0)
        (heartbeat_job settings e token at db).1
        (heartbeat_job-Held rt e token n m settings at db held)
  work-Concluded (cancellation principal reason at ∷ events) ending now is_lost db held =
      work-Concluded events ending now is_lost
        (cancel_found (lookup e.job_id db.jobs) principal reason at db)
        (cancel_found-Held rt e token n m principal reason at db held)

  cancel_failed-IsEnded :
      (code : String) (c : RetryClass) (now : ℕ) (row : BackgroundJob)
      → IsEnded (cancel_failed code c now row)
  unfolding cancel_failed
  cancel_failed-IsEnded code c now row = refl

  bury-IsEnded :
      (code : String) (c : RetryClass) (now : ℕ) (row : BackgroundJob)
      → IsEnded (bury code c now row)
  unfolding bury
  bury-IsEnded code c now row = ground arith

  bury-id :
      (code : String) (c : RetryClass) (now : ℕ) (row : BackgroundJob)
      → (bury code c now row).id ≡ row.id
  unfolding bury
  bury-id code c now row = ground arith

  schedule_retry-IsWaiting :
      (code : String) (c : RetryClass) (countdown now : ℕ) (row : BackgroundJob)
      → row.attempt_count < row.max_attempts
      → IsAttempt rt e token n m row
      → IsWaiting rt e n m (schedule_retry code c countdown now row)
  unfolding schedule_retry verify_job_envelope
  schedule_retry-IsWaiting code c countdown now row left a = record {
    scheduled = refl;
    sound = a.sound;
    attempts = a.attempt_number;
    limit = a.limit;
    left = omega (arith, a.attempt_number, a.limit, left);
  }

  dispose-Found :
      (code : String) (c : RetryClass) (now : ℕ) (row : BackgroundJob) (db : Db)
      → IsAttempt rt e token n m row
      → Found (IsOver rt e n m) row.id (dispose settings code c now row db).1
  unfolding dispose
  dispose-Found code c now row db a =
      elim (Bool-cases (is_cancelled_class c || is_some row.cancel_requested_at)) [
        | inl cancel ↦ rw cancel (
          cancel_failed code c now row,
          lookup-insert_self row.id (cancel_failed code c now row) db.jobs,
          inl (cancel_failed-IsEnded code c now row),
        )
        | inr go_on ↦ elim (Bool-cases (is_transient c && ltb row.attempt_count row.max_attempts)) [
          | inl again ↦
              let row' =
                schedule_retry code c (retry_countdown settings row.attempt_count) now row in
              rw (go_on, again)
                (
                  row',
                  lookup-insert_self row.id row' db.jobs,
                  inr (
                      schedule_retry-IsWaiting code c (retry_countdown settings row.attempt_count)
                        now row (ground arith) a),
                )
          | inr over ↦
              rw (go_on, over, bury-id code c now row)
                (
                  bury code c now row,
                  lookup-insert_self row.id (bury code c now row) db.jobs,
                  inl (bury-IsEnded code c now row),
                )
        ]
      ]

  disposed-db : (p : JobFailureDisposition × Db) (db : Db) → p.1 ≡ db → (disposed p).1 ≡ db
  disposed-db (d, db') db same = same

  fail_job-Found :
      (exc : Exception) (now : ℕ) (db : Db)
      → Held rt e token n m db
      → Found (IsOver rt e n m) e.job_id (fail_job settings e token exc now db).1
  unfolding fail_job
  fail_job-Found exc now db (row, found, a) =
      let code = truncate 120 exc.code in
      let c = classify_job_exception exc in
      let same = (verify_job_envelope-IsVerified rt e row a.sound).same_id in
      rw
        (
          found,
          a.own,
          disposed-db (dispose settings code c now row db) (dispose settings code c now row db).1
              refl,
        )
        (subst (λ k. Found (IsOver rt e n m) k (dispose settings code c now row db).1) same
          (dispose-Found code c now row db a))

  answer_failure-db :
      (exc : Exception) (p : Result JobError JobFailureDisposition × Db)
      → (answer_failure exc p).1 ≡ p.1
  answer_failure-db exc (err error, db) = refl
  answer_failure-db exc (ok d, db) = elim (Bool-cases (d.retry)) [
    | inl again ↦ rw again refl
    | inr over ↦ rw over refl
  ]

  ended-IsOver : (db : Db) → Found IsEnded e.job_id db → Found (IsOver rt e n m) e.job_id db
  ended-IsOver db (row, found, done) = (row, found, inl done)

  answer_work-Found :
      (now : ℕ) (p : Result Exception (Dict Json) × Db)
      → Concluded p
      → Found (IsOver rt e n m) e.job_id (answer_work settings e token now p).1
  answer_work-Found now (ok result, db) done = ended-IsOver db done
  answer_work-Found now (err exc, db) held =
      rw (answer_failure-db exc (fail_job settings e token exc now db))
        (fail_job-Found exc now db held)

  -- Whatever a delivery that holds the job does, it leaves it ended, or waiting for an attempt
  -- that is still allowed.
  pub work-IsOver :
      (events : List WorkEvent) (ending : WorkEnd) (now : ℕ) (is_lost : Bool) (db : Db)
      → Held rt e token n m db
      → Found
          (IsOver rt e n m)
          e.job_id
          (answer_work settings e token now (work settings e token events ending now is_lost db)).1
  work-IsOver events ending now is_lost db held =
      answer_work-Found now (work settings e token events ending now is_lost db)
        (work-Concluded events ending now is_lost db held)
