-- ===== src/Jobs/Worker/Start.antt =====
-- What one delivery of src/ai_examiner/jobs.py makes of a job that it may take up.
use mathlib.Core.Path.{subst}
use ai_examiner.Prelude.{
  leb, Bool-cases, leb→lt, lt→ltb, is_none, is_some, str_eq_refl, lookup, insert,
  lookup-insert_self, ok, err, guard_cases, ℕ, ◌+◌, ◌<◌, String, ◌≡◌, refl, sym, ◌∙◌, ◌⊎◌, inl, inr,
  Bool, true, false, ◌||◌, Option, none, some, [], ◌∷◌, arith, str_eq,
}
use ai_examiner.Jobs.Model.{
  cancelled, dead_letter, cancel_requested, attempt_limit_exhausted, BackgroundJob, succeeded,
  failed_outcome, Db, Settings, JobError, job_envelope_invalid, job_authorization_denied,
  is_terminal, is_retryable, is_cancelling, put_audited,
}
use ai_examiner.Jobs.Envelope.{Runtime, TaskEnvelope, envelope_digest, verify_job_envelope}
use ai_examiner.Jobs.Lease.{
  authorize_member, authorize_job_execution, JobClaim, not_claimed, ClaimStart, settled, attempt,
  cancel_now, exhaust_now, triage, begin_claim, due, is_eligible, claimed, finish_claim, claim_job,
}
use ai_examiner.Jobs.Failure.{holds_lease}
use ai_examiner.Jobs.Worker.{checkpoint, Delivery, denied_job, answer_refusal, execute_job_delivery}
use ai_examiner.Jobs.Worker.Attempt.{
  Found, IsAttempt, IsEnded, IsOver, verify_job_envelope-IsVerified,
}
use ai_examiner.Jobs.Store.{update_where_hit}
use ai_examiner.Jobs.Worker.Ending.{work-IsOver}

-- A delivery comes after the time that the job waits for, which is the broker's `countdown`.
abbrev pub is_due : Option BackgroundJob → ℕ → Bool
is_due none now = true
is_due (some row) now = is_none row.next_attempt_at || due row.next_attempt_at now

-- A job that a delivery may take up, after `n` attempts of `m`.
pub record IsReady (rt : Runtime) (e : TaskEnvelope) (n m : ℕ) (row : BackgroundJob) : Type 0 where
  pub takeable : is_retryable row.status ≡ true
  pub sound : verify_job_envelope rt row e ≡ ok tt
  pub attempts : row.attempt_count ≡ n
  pub limit : row.max_attempts ≡ m

module _ (rt : Runtime) (settings : Settings) (e : TaskEnvelope) where
  -- A delivery of an ended job changes nothing.
  triage_ended :
      (row : BackgroundJob) (now : ℕ) (db : Db)
      → IsEnded row
      → triage settings row now db ≡ settled (not_claimed (some row.status) row.result) db
  unfolding triage
  triage_ended row now db done = rw done refl

  verify_cases :
      (row : BackgroundJob)
      → (verify_job_envelope rt row e ≡ ok tt)
        ⊎ (verify_job_envelope rt row e ≡ err job_envelope_invalid)
  unfolding verify_job_envelope
  verify_cases row = ground arith

  authorize_member_cases :
      (row : BackgroundJob) (actor : Option String) (db : Db)
      → (authorize_member row actor db ≡ ok tt)
        ⊎ (authorize_member row actor db ≡ err job_authorization_denied)
  unfolding authorize_member
  authorize_member_cases row none db = inr refl
  authorize_member_cases row (some actor) db = guard_cases _ job_authorization_denied

  authorize_cases :
      (row : BackgroundJob) (db : Db)
      → (authorize_job_execution settings row db ≡ ok tt)
        ⊎ (authorize_job_execution settings row db ≡ err job_authorization_denied)
  unfolding authorize_job_execution
  authorize_cases row db = elim (Bool-cases (str_eq row.authorization_mode "legacy_local")) [
    | inl local ↦ rw local (guard_cases settings.single_workspace_mode job_authorization_denied)
    | inr member ↦ rw member (authorize_member_cases row row.actor_principal_id db)
  ]

  -- A delivery of a job whose start is settled or refused.
  settled_delivery :
      (d : Delivery) (claim : JobClaim) (db db' : Db)
      → begin_claim rt settings e d.claimed_at db ≡ settled claim db'
      → claim.execute ≡ false
      → (execute_job_delivery rt settings e d db).1 ≡ db'
  unfolding execute_job_delivery claim_job
  settled_delivery d claim db db' start idle = rw (start, idle) refl

  refused_delivery :
      (d : Delivery) (error : JobError) (db : Db)
      → begin_claim rt settings e d.claimed_at db ≡ ClaimStart.refused error
      → (execute_job_delivery rt settings e d db).1 ≡ (answer_refusal e d.claimed_at error db).1
  unfolding execute_job_delivery claim_job
  refused_delivery d error db start = rw start refl

  pub ended_delivery :
      (d : Delivery) (row : BackgroundJob) (db : Db)
      → lookup e.job_id db.jobs ≡ some row
      → IsEnded row
      → (execute_job_delivery rt settings e d db).1 ≡ db
  unfolding begin_claim
  ended_delivery d row db found done =
      elim (Bool-cases (str_eq row.organization_id e.organization_id)) [
        | inr elsewhere ↦ refused_delivery d job_envelope_invalid db (rw (found, elsewhere) refl)
        | inl here ↦ elim (verify_cases row) [
          | inr forged ↦ refused_delivery d job_envelope_invalid db (rw (found, here, forged) refl)
          | inl sound ↦
              settled_delivery d (not_claimed (some row.status) row.result) db db
                (rw (found, here, sound, triage_ended row d.claimed_at db done) refl) refl
        ]
      ]

  claimed-IsAttempt :
      (n m now : ℕ) (delivery token : String) (row : BackgroundJob)
      → IsReady rt e n m row
      → IsAttempt rt e token (n + 1) m (claimed settings row delivery token now row)
  unfolding claimed holds_lease verify_job_envelope
  claimed-IsAttempt n m now delivery token row r =
      let v = verify_job_envelope-IsVerified rt e row (r.sound) in
      record {
        own = rw (v.same_organization) (str_eq_refl token);
        sound = r.sound;
        attempt_number = rw (r.attempts) refl;
        limit = r.limit;
      }

  ready_eligible :
      (n m now : ℕ) (row : BackgroundJob)
      → IsReady rt e n m row
      → row.cancel_requested_at ≡ none
      → row.attempt_count < row.max_attempts
      → is_due (some row) now ≡ true
      → is_eligible row (envelope_digest rt e) now row ≡ true
  unfolding is_eligible
  ready_eligible n m now row r wanted left timely =
      let v = verify_job_envelope-IsVerified rt e row (r.sound) in
      rw
        (
          str_eq_refl row.organization_id,
          v.same_digest,
          lt→ltb row.attempt_count row.max_attempts left,
          r.takeable,
          timely,
          wanted,
        )
        refl

  attempted_delivery :
      (n m : ℕ) (d : Delivery) (row : BackgroundJob) (db : Db)
      → lookup e.job_id db.jobs ≡ some row
      → IsReady rt e n m row
      → is_eligible row (envelope_digest rt e) d.claimed_at row ≡ true
      → begin_claim rt settings e d.claimed_at db ≡ attempt row
      → Found (IsOver rt e (n + 1) m) e.job_id (execute_job_delivery rt settings e d db).1
  unfolding execute_job_delivery claim_job finish_claim
  attempted_delivery n m d row db found r fit start =
      let row' = claimed settings row d.delivery_id d.lease_token d.claimed_at row in
      let db' : Db = record db { jobs = insert row.id row' db.jobs } in
      let same = (verify_job_envelope-IsVerified rt e row (r.sound)).same_id in
      rw
        (
          start,
          update_where_hit row.id (is_eligible row (envelope_digest rt e) d.claimed_at)
              (claimed settings row d.delivery_id d.lease_token d.claimed_at) db row
              (subst (λ k. lookup k db.jobs ≡ some row) (sym same) found) fit,
        )
        (work-IsOver rt settings e d.lease_token (n + 1) m (checkpoint ∷ d.events) d.ending
          d.ended_at false db'
          (
            row',
            subst (λ k. lookup k db'.jobs ≡ some row') same
                (lookup-insert_self row.id row' db.jobs),
            claimed-IsAttempt n m d.claimed_at d.delivery_id d.lease_token row r,
          ))

  denied_job-IsEnded : (now : ℕ) (row : BackgroundJob) → IsEnded (denied_job now row)
  unfolding denied_job
  denied_job-IsEnded now row = refl

  put_ended :
      (n m : ℕ) (row row' : BackgroundJob) (db : Db)
      → IsReady rt e n m row
      → IsEnded row'
      → row'.id ≡ row.id
      → lookup e.job_id (insert row'.id row' db.jobs) ≡ some row'
  put_ended n m row row' db r done kept =
      subst (λ k. lookup k (insert row'.id row' db.jobs) ≡ some row')
        (kept ∙ (verify_job_envelope-IsVerified rt e row (r.sound)).same_id)
        (lookup-insert_self row'.id row' db.jobs)

  -- A delivery in time of a job that may be taken up ends it, or counts one attempt more.
  pub ready_delivery :
      (n m : ℕ) (d : Delivery) (row : BackgroundJob) (db : Db)
      → lookup e.job_id db.jobs ≡ some row
      → IsReady rt e n m row
      → is_due (some row) d.claimed_at ≡ true
      → Found (IsOver rt e (n + 1) m) e.job_id (execute_job_delivery rt settings e d db).1
  unfolding begin_claim triage denied_job
  ready_delivery n m d row db found r timely =
      let now = d.claimed_at in
      let v = verify_job_envelope-IsVerified rt e row (r.sound) in
      let live : is_terminal row.status ≡ false = ground (arith, r.takeable) in
      elim (Bool-cases (is_some row.cancel_requested_at || is_cancelling row.status)) [
        | inl cancel ↦
            rw
              (settled_delivery d (not_claimed (some cancelled) []) db
                (put_audited (cancel_now now row) cancel_requested succeeded db)
                (rw (found, v.same_organization, r.sound, live, cancel) refl) refl)
              (cancel_now now row, put_ended n m row (cancel_now now row) db r refl refl, inl refl)
        | inr go_on ↦ elim (Bool-cases (leb row.max_attempts row.attempt_count)) [
          | inl spent ↦
              rw
                (settled_delivery d (not_claimed (some dead_letter) []) db
                  (put_audited (exhaust_now now row) attempt_limit_exhausted failed_outcome db)
                  (rw (found, v.same_organization, r.sound, live, go_on, spent) refl) refl)
                (
                  exhaust_now now row,
                  put_ended n m row (exhaust_now now row) db r refl refl,
                  inl refl,
                )
          | inr left ↦ elim (authorize_cases row db) [
            | inr denied_here ↦
                rw
                  (
                    refused_delivery d job_authorization_denied db (
                        rw (found, v.same_organization, r.sound, live, go_on, left, denied_here)
                          refl),
                    found,
                    v.same_organization,
                  )
                  (
                    denied_job now row,
                    put_ended n m row (denied_job now row) db r (denied_job-IsEnded now row) refl,
                    inl (denied_job-IsEnded now row),
                  )
            | inl allowed ↦
                attempted_delivery n m d row db found r
                  (ready_eligible n m now row r (ground (arith, go_on)) (leb→lt _ _ left) timely)
                  (rw (found, v.same_organization, r.sound, live, go_on, left, allowed) refl)
          ]
        ]
      ]
