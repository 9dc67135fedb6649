-- ===== src/Jobs/Worker/Liveness.antt =====
-- Every job comes to an end: deliveries of src/ai_examiner/jobs.py one after the other.
use ai_examiner.Prelude.{
  length, lookup, ok, ℕ, ◌+◌, ◌≤◌, ◌≡◌, refl, inl, inr, true, some, List, [], ◌∷◌, arith,
}
use ai_examiner.Jobs.Model.{BackgroundJob, Db, Settings, is_retryable}
use ai_examiner.Jobs.Envelope.{Runtime, TaskEnvelope, verify_job_envelope}
use ai_examiner.Jobs.Worker.{Delivery, execute_job_delivery}
use ai_examiner.Jobs.Worker.Attempt.{Found, IsWaiting, IsEnded, IsOver}
use ai_examiner.Jobs.Worker.Start.{is_due, IsReady, ended_delivery, ready_delivery}

-- The deliveries of one message, one after the other.
unfoldable pub deliver_all : Runtime → Settings → TaskEnvelope → List Delivery → Db → Db
deliver_all rt settings e [] db = db
deliver_all rt settings e (d ∷ ds) db =
    deliver_all rt settings e ds (execute_job_delivery rt settings e d db).1

unfoldable pub AreTimely : Runtime → Settings → TaskEnvelope → List Delivery → Db → Type 0
AreTimely rt settings e [] db = Unit
AreTimely rt settings e (d ∷ ds) db =
    (is_due (lookup e.job_id db.jobs) d.claimed_at ≡ true)
    × AreTimely rt settings e ds (execute_job_delivery rt settings e d db).1

module _ (rt : Runtime) (settings : Settings) (e : TaskEnvelope) where
  waiting-IsReady : (n m : ℕ) (row : BackgroundJob) → IsWaiting rt e n m row → IsReady rt e n m row
  waiting-IsReady n m row w = record {
    takeable = rw (w.scheduled) refl;
    sound = w.sound;
    attempts = w.attempts;
    limit = w.limit;
  }

  -- An ended job stays as it is, whatever is delivered.
  ended_deliveries :
      (ds : List Delivery) (db : Db)
      → Found IsEnded e.job_id db
      → deliver_all rt settings e ds db ≡ db
  unfolding deliver_all
  ended_deliveries [] db done = refl
  ended_deliveries (d ∷ ds) db (row, found, done) =
      rw (ended_delivery rt settings e d row db found done)
        (ended_deliveries ds db (row, found, done))

  from_over :
      (n m : ℕ) (ds : List Delivery) (db : Db)
      → Found (IsOver rt e n m) e.job_id db
      → AreTimely rt settings e ds db
      → m ≤ n + length ds
      → Found IsEnded e.job_id (deliver_all rt settings e ds db)
  unfolding deliver_all AreTimely
  from_over n m ds db (row, found, inl done) timely enough =
      rw (ended_deliveries ds db (row, found, done)) (row, found, done)
  from_over n m [] db (row, found, inr w) timely enough = absurd (omega (arith, w.left, enough))
  from_over n m (d ∷ ds) db (row, found, inr w) (first, timely) enough =
      from_over (n + 1) m ds (execute_job_delivery rt settings e d db).1
        (ready_delivery rt settings e n m d row db found (waiting-IsReady n m row w)
          (rw found at first))
        timely (omega (arith, enough))

  -- A job that is queued or waits for a retry, whatever its handler does in each attempt and
  -- whatever cancellations are asked meanwhile, is in a terminal status after as many deliveries in
  -- time as it has attempts left, and after one if it has none.
  pub deliver_all-IsEnded :
      (row : BackgroundJob) (ds : List Delivery) (db : Db)
      → lookup e.job_id db.jobs ≡ some row
      → is_retryable row.status ≡ true
      → verify_job_envelope rt row e ≡ ok tt
      → AreTimely rt settings e ds db
      → 1 ≤ length ds
      → row.max_attempts ≤ row.attempt_count + length ds
      → Found IsEnded e.job_id (deliver_all rt settings e ds db)
  unfolding deliver_all AreTimely
  deliver_all-IsEnded row [] db found takeable sound timely some_delivery enough =
      absurd (omega (arith, some_delivery))
  deliver_all-IsEnded row (d ∷ ds) db found takeable sound (first, timely) some_delivery enough =
      let n = row.attempt_count in
      let m = row.max_attempts in
      let r : IsReady rt e n m row = record {
        takeable = takeable;
        sound = sound;
        attempts = refl;
        limit = refl;
      } in
      from_over (n + 1) m ds (execute_job_delivery rt settings e d db).1
        (ready_delivery rt settings e n m d row db found r (rw found at first)) timely
        (omega (arith, enough))
