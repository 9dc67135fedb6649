-- ===== src/Jobs/Enqueue/Once.antt =====
-- One row for each idempotency key, however the requests come.
use ai_examiner.Prelude.{
  if◌then◌else◌, Bool-cases, opt_eq, str_eq_refl, opt_eq_refl, Dict, lookup, insert, ok, err, ℕ,
  String, ◌≡◌, refl, ap, ◌∙◌, inl, inr, true, Option, none, some, [], ◌∷◌, str_eq,
}
use ai_examiner.Jobs.Model.{Json, BackgroundJob, Db, Settings, put_job}
use ai_examiner.Jobs.Envelope.{Runtime, TaskEnvelope, as_dict}
use ai_examiner.Jobs.Envelope.RoundTrip.{IsValid, from_dict-as_dict}
use ai_examiner.Jobs.Enqueue.{
  rejected, has_key, find_job, digest_of, persisted_digest, reuse, new_job, commit_job,
}

find_job-insert :
    (e : TaskEnvelope) (k : String) (job : BackgroundJob) (jobs : Dict BackgroundJob)
    → lookup k jobs ≡ none
    → find_job e jobs ≡ none
    → has_key e job ≡ true
    → find_job e (insert k job jobs) ≡ some job
unfolding find_job lookup insert
find_job-insert e k job [] unused missing own = rw own
find_job-insert e k job ((j, other_job) ∷ jobs) unused missing own =
    elim (Bool-cases (str_eq j k)) [
      | inl same ↦ absurd (cc (rw same at unused))
      | inr apart ↦ elim (Bool-cases (has_key e other_job)) [
        | inl mine ↦ absurd (cc (rw mine at missing))
        | inr foreign ↦
            rw (apart, foreign)
              (find_job-insert e k job jobs (rw apart at unused) (rw foreign at missing) own)
      ]
    ]

-- Two requests for one job: same organization, kind and key.
pub record IsSameRequest (e e' : TaskEnvelope) : Type 0 where
  pub same_organization : e'.organization_id ≡ e.organization_id
  pub same_kind : e'.kind ≡ e.kind
  pub same_key : e'.idempotency_key ≡ e.idempotency_key
  pub same_actor : e'.actor_principal_id ≡ e.actor_principal_id

module _ (rt : Runtime) (settings : Settings) (e e' : TaskEnvelope) (payload : Dict Json)
    (max_attempts : Option ℕ) (now : ℕ) where
  new_job-has_key :
      IsSameRequest e e' → has_key e' (new_job rt settings e payload max_attempts now) ≡ true
  unfolding new_job
  new_job-has_key s =
      rw
        (
          s.same_organization,
          s.same_kind,
          s.same_key,
          str_eq_refl e.organization_id,
          str_eq_refl e.kind,
          str_eq_refl e.idempotency_key,
        )
        refl

  persisted-new_job :
      IsValid rt e
      → persisted_digest rt
          (new_job rt settings e payload max_attempts now)
          (new_job rt settings e payload max_attempts now).envelope_json
        ≡ ok e.payload_digest
  unfolding persisted_digest new_job as_dict
  persisted-new_job v = ap digest_of (from_dict-as_dict rt e v)

  actor-new_job :
      IsSameRequest e e'
      → opt_eq
          (new_job rt settings e payload max_attempts now).actor_principal_id
          e'.actor_principal_id
        ≡ true
  unfolding new_job
  actor-new_job s = rw (s.same_actor) (opt_eq_refl e.actor_principal_id)

  reuse-new_job :
      IsSameRequest e e'
      → IsValid rt e
      → reuse rt e' (new_job rt settings e payload max_attempts now) ≡ (
          if str_eq e.payload_digest e'.payload_digest
          then ok (new_job rt settings e payload max_attempts now)
          else err rejected)
  unfolding reuse
  reuse-new_job s v = elim (Bool-cases (str_eq e.payload_digest e'.payload_digest)) [
    | inl same ↦ rw (actor-new_job s, persisted-new_job v, same) refl
    | inr differ ↦ rw (actor-new_job s, persisted-new_job v, differ) refl
  ]

find_job-same :
    (e e' : TaskEnvelope)
    → IsSameRequest e e'
    → (jobs : Dict BackgroundJob) → find_job e' jobs ≡ find_job e jobs
unfolding find_job
find_job-same e e' s [] = refl
find_job-same e e' s ((id, job) ∷ jobs) =
    rw (s.same_organization, s.same_kind, s.same_key, find_job-same e e' s jobs) refl

id_unused :
    (rt : Runtime) (settings : Settings) (e : TaskEnvelope) (payload : Dict Json)
    (max_attempts : Option ℕ) (now : ℕ) (db : Db)
    → lookup e.job_id db.jobs ≡ none
    → lookup (new_job rt settings e payload max_attempts now).id db.jobs ≡ none
unfolding new_job
id_unused rt settings e payload max_attempts now db unused = unused

-- Once a request has committed its row, any other with the same organization, kind, key and actor
-- writes nothing, though it had found no row before: with the same payload it is answered that row,
-- with another payload it is refused.
pub enqueue_once :
    (rt : Runtime) (settings : Settings) (e e' : TaskEnvelope) (payload payload' : Dict Json)
    (max_attempts max_attempts' : Option ℕ) (now later : ℕ) (db : Db)
    → IsValid rt e
    → IsSameRequest e e'
    → lookup e.job_id db.jobs ≡ none
    → find_job e db.jobs ≡ none
    → let (answer, db') = commit_job rt settings e payload max_attempts now db in
      let job = new_job rt settings e payload max_attempts now in
      (answer ≡ ok job)
      × (commit_job rt settings e' payload' max_attempts' later db'
          ≡ (if str_eq e.payload_digest e'.payload_digest then ok job else err rejected, db'))
unfolding commit_job
enqueue_once rt settings e e' payload payload' max_attempts max_attempts' now later db v s unused
      missing =
    let job = new_job rt settings e payload max_attempts now in
    let found : find_job e' (put_job job db).jobs ≡ some job =
      find_job-insert e' job.id job db.jobs
        (id_unused rt settings e payload max_attempts now db unused)
        (find_job-same e e' s db.jobs ∙ missing)
        (new_job-has_key rt settings e e' payload max_attempts now s) in
    rw missing (refl, rw (found, reuse-new_job rt settings e e' payload max_attempts now s v) refl)
