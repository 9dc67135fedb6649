-- ===== src/Jobs/Claims.antt =====
-- Who may work on a job: exclusive claims and fencing by the lease token.
use mathlib.Core.Path.{subst}
use mathlib.Core.Option.{some-injective}
use ai_examiner.Prelude.{
  leb, Bool-cases, leb→le, is_some, str_eq_refl, Option-cases, lookup, insert, lookup-insert,
  Result, ok, err, ℕ, ◌+◌, ◌≤◌, ◌<◌, String, ◌≡◌, refl, sym, ap, ◌∙◌, ◌⊎◌, inl, inr, Bool, true,
  false, ◌||◌, Option, none, some, arith, str_eq,
}
use ai_examiner.Jobs.Model.{
  attempt_limit_exhausted, BackgroundJob, failed_outcome, Db, Settings, JobError, seconds,
  is_terminal, is_cancelling, put_audited,
}
use ai_examiner.Jobs.Store.{update_where_hit, update_where_miss, update_where-none}
use ai_examiner.Jobs.Envelope.{Runtime, TaskEnvelope, envelope_digest, verify_job_envelope}
use ai_examiner.Jobs.Lease.{
  authorize_job_execution, JobClaim, unavailable_or, ClaimStart, exhaust_now, authorized, triage,
  verified, begin_found, begin_claim, is_eligible, claimed, answer, finish_claim, claim_from,
  claim_job,
}

-- What a claim that executes has done.
pub record Claimed (rt : Runtime) (settings : Settings) (e : TaskEnvelope) (delivery token : String)
    (snapshot : BackgroundJob) (now : ℕ) (db db' : Db) : Type 0 where
  pub row : BackgroundJob
  pub found : lookup snapshot.id db.jobs ≡ some row
  pub fit : is_eligible snapshot (envelope_digest rt e) now row ≡ true
  pub written : db' ≡ record db {
    jobs = insert snapshot.id (claimed settings snapshot delivery token now row) db.jobs;
  }

execute-unavailable_or : (o : Option BackgroundJob) → (unavailable_or o).execute ≡ false
execute-unavailable_or none = refl
execute-unavailable_or (some j) = refl

pub finish_claim_inversion :
    (rt : Runtime) (settings : Settings) (e : TaskEnvelope) (delivery token : String)
    (snapshot : BackgroundJob) (now : ℕ) (db : Db)
    → (finish_claim rt settings e delivery token snapshot now db).0.execute ≡ true
    → Claimed rt settings e delivery token snapshot now db
        (finish_claim rt settings e delivery token snapshot now db).1
unfolding finish_claim
finish_claim_inversion rt settings e delivery token snapshot now db h =
    let test = is_eligible snapshot (envelope_digest rt e) now in
    let values = claimed settings snapshot delivery token now in
    elim (Option-cases (lookup snapshot.id db.jobs)) [
      | inl gone ↦ absurd (cc (rw (update_where-none snapshot.id test values db gone) at h))
      | inr (row, found) ↦ elim (Bool-cases (test row)) [
        | inl fit ↦ record {
          row = row;
          found = found;
          fit = fit;
          written = rw (update_where_hit snapshot.id test values db row found fit);
        }
        | inr unfit ↦
            absurd
              (cc (rw (update_where_miss snapshot.id test values db row found unfit, found) at h))
      ]
    ]

-- A claim of a row that fails the conditions executes nothing and changes nothing.
pub finish_claim_miss :
    (rt : Runtime) (settings : Settings) (e : TaskEnvelope) (delivery token : String)
    (snapshot row : BackgroundJob) (now : ℕ) (db : Db)
    → lookup snapshot.id db.jobs ≡ some row
    → is_eligible snapshot (envelope_digest rt e) now row ≡ false
    → ((finish_claim rt settings e delivery token snapshot now db).0.execute ≡ false)
      × ((finish_claim rt settings e delivery token snapshot now db).1 ≡ db)
unfolding finish_claim
finish_claim_miss rt settings e delivery token snapshot row now db found unfit =
    rw
      (update_where_miss snapshot.id (is_eligible snapshot (envelope_digest rt e) now)
        (claimed settings snapshot delivery token now) db row found unfit)
      (execute-unavailable_or (lookup snapshot.id db.jobs), refl)

-- A leased row is not eligible before its lease runs out.
leased_unfit :
    (settings : Settings) (snapshot snapshot' row : BackgroundJob) (delivery token digest : String)
    (now now' : ℕ)
    → now' < now + seconds settings.job_lease_seconds
    → is_eligible snapshot' digest now' (claimed settings snapshot delivery token now row) ≡ false
unfolding is_eligible claimed
leased_unfit settings snapshot snapshot' row delivery token digest now now' early = ground arith

-- A claimed row runs, and its cancellation has not been asked.
claimed_live :
    (settings : Settings) (snapshot row : BackgroundJob) (delivery token digest : String) (now : ℕ)
    → is_eligible snapshot digest now row ≡ true
    → let j = claimed settings snapshot delivery token now row in
      (is_terminal j.status ≡ false)
      × ((is_some j.cancel_requested_at || is_cancelling j.status) ≡ false)
unfolding is_eligible claimed
claimed_live settings snapshot row delivery token digest now fit = (refl, ground (arith, fit))

-- Whether a claim is told to execute.
abbrev pub executes : Result JobError JobClaim → Bool
executes (err raised) = false
executes (ok claim) = claim.execute

module _ (rt : Runtime) (settings : Settings) (e e' : TaskEnvelope)
    (delivery delivery' token token' : String) (snapshot : BackgroundJob) (now now' : ℕ) (db : Db)
    (claims : (finish_claim rt settings e delivery token snapshot now db).0.execute ≡ true)
    (early : now' < now + seconds settings.job_lease_seconds) where
  abbrev pub after_claim : Db
  after_claim = (finish_claim rt settings e delivery token snapshot now db).1

  -- The row that the claim has written.
  abbrev holder : BackgroundJob
  holder =
      claimed settings snapshot delivery token now
        (finish_claim_inversion rt settings e delivery token snapshot now db claims).row

  holder-found : lookup snapshot.id after_claim.jobs ≡ some holder
  holder-found =
      let c = finish_claim_inversion rt settings e delivery token snapshot now db claims in
      rw (
        c.written,
        lookup-insert snapshot.id snapshot.id (claimed settings snapshot delivery token now c.row)
            db.jobs,
        str_eq_refl snapshot.id,
      )

  late-miss :
      (snapshot' : BackgroundJob)
      → snapshot'.id ≡ snapshot.id
      → ((finish_claim rt settings e' delivery' token' snapshot' now' after_claim).0.execute
          ≡ false)
        × ((finish_claim rt settings e' delivery' token' snapshot' now' after_claim).1
            ≡ after_claim)
  late-miss snapshot' same =
      let c = finish_claim_inversion rt settings e delivery token snapshot now db claims in
      finish_claim_miss rt settings e' delivery' token' snapshot' holder now' after_claim
        (rw same holder-found)
        (leased_unfit settings snapshot snapshot' c.row delivery token (envelope_digest rt e') now
          now' early)

  -- Burying the held job is all that another delivery can do.
  abbrev IsHarmless : ClaimStart → Type 0
  IsHarmless start =
      let (answer, db') = claim_from rt settings e' delivery' token' now' start after_claim in
      (executes answer ≡ false)
      × ((db' ≡ after_claim)
          ⊎ ((holder.max_attempts ≤ holder.attempt_count)
              × (db'
                  ≡ put_audited (exhaust_now now' holder) attempt_limit_exhausted failed_outcome
                      after_claim)))

  authorized-IsHarmless :
      (permission : Result JobError (Unit {0}))
      → holder.id ≡ snapshot.id
      → IsHarmless (authorized holder permission)
  authorized-IsHarmless (err raised) own = (refl, inl refl)
  authorized-IsHarmless (ok _) own = let (idle, same) = late-miss holder own in (idle, inl same)

  triage-IsHarmless : holder.id ≡ snapshot.id → IsHarmless (triage settings holder now' after_claim)
  unfolding triage
  triage-IsHarmless own =
      let c = finish_claim_inversion rt settings e delivery token snapshot now db claims in
      let (live, wanted) =
        claimed_live settings snapshot c.row delivery token (envelope_digest rt e) now c.fit in
      elim (Bool-cases (leb holder.max_attempts holder.attempt_count)) [
        | inl spent ↦
            rw (live, wanted, spent)
              (refl, inr (leb→le holder.max_attempts holder.attempt_count spent, refl))
        | inr some_left ↦
            rw (live, wanted, some_left)
              (authorized-IsHarmless (authorize_job_execution settings holder after_claim) own)
      ]

  verified-IsHarmless :
      (check : Result JobError (Unit {0}))
      → holder.id ≡ snapshot.id
      → IsHarmless (verified check (triage settings holder now' after_claim))
  verified-IsHarmless (err raised) own = (refl, inl refl)
  verified-IsHarmless (ok _) own = triage-IsHarmless own

  begin-IsHarmless :
      holder.id ≡ snapshot.id
      → IsHarmless (begin_found rt settings e' now' (some holder) after_claim)
  begin-IsHarmless own = elim (Bool-cases (str_eq holder.organization_id e'.organization_id)) [
    | inr foreign ↦ rw foreign (refl, inl refl)
    | inl same ↦ rw same (verified-IsHarmless (verify_job_envelope rt holder e') own)
  ]

  claim-IsHarmless :
      holder.id ≡ snapshot.id
      → e'.job_id ≡ snapshot.id
      → IsHarmless (begin_claim rt settings e' now' after_claim)
  unfolding begin_claim
  claim-IsHarmless own same =
      let found : lookup e'.job_id after_claim.jobs ≡ some holder = rw same holder-found in
      rw found (begin-IsHarmless own)

  -- After a delivery has claimed a job, on the row as that claim has left it and until the lease runs
  -- out, no other delivery executes. A claim that had read the job before changes nothing; one that
  -- reads it now changes nothing either, unless the job is on its last attempt, when it may bury the
  -- job as a dead letter. Rows are stored under their identifiers.
  pub claim_exclusive :
      (row snapshot' : BackgroundJob)
      → lookup snapshot.id after_claim.jobs ≡ some row
      → row.id ≡ snapshot.id
      → snapshot'.id ≡ snapshot.id
      → e'.job_id ≡ snapshot.id
      → let late = finish_claim rt settings e' delivery' token' snapshot' now' after_claim in
        let whole = claim_job rt settings e' delivery' token' now' after_claim in
        ((late.0.execute ≡ false) × (late.1 ≡ after_claim))
        × ((executes whole.0 ≡ false)
            × ((whole.1 ≡ after_claim)
                ⊎ ((row.max_attempts ≤ row.attempt_count)
                    × (whole.1
                        ≡ put_audited
                            (exhaust_now now' row)
                            attempt_limit_exhausted
                            failed_outcome
                            after_claim))))
  unfolding claim_job
  claim_exclusive row snapshot' found own same same' =
      let held : holder ≡ row = some-injective holder row (sym holder-found ∙ found) in
      let harmless = claim-IsHarmless (ap (λ j. j.id) held ∙ own) same' in
      (
        late-miss snapshot' same,
        subst
            (λ j.
              (executes (claim_job rt settings e' delivery' token' now' after_claim).0 ≡ false)
              × (((claim_job rt settings e' delivery' token' now' after_claim).1 ≡ after_claim)
                  ⊎ ((j.max_attempts ≤ j.attempt_count)
                      × ((claim_job rt settings e' delivery' token' now' after_claim).1
                          ≡ put_audited (exhaust_now now' j) attempt_limit_exhausted failed_outcome
                              after_claim))))
            held harmless,
      )
