-- ===== src/Examples/Jobs.antt =====
-- A benchmark job of src/ai_examiner/services/job_control.py from its claim to its end.
use ai_examiner.Prelude.{
  leb, ◌==◌, if◌then◌else◌, lookup, insert, ok, err, ℕ, ◌≤◌, String, ◌≡◌, refl, ap, ◌≢◌, ◌⊎◌, inr,
  true, false, ◌&&◌, none, some, [], ◌∷◌, arith, str_eq,
}
use ai_examiner.Jobs.Model.{
  queued, no_class, transient, no_reason, attempt_limit_exhausted, BackgroundJob, failed_outcome,
  Db, Settings, job_lease_lost, put_audited,
}
use ai_examiner.Jobs.Store.{update_where}
use ai_examiner.Jobs.Envelope.{
  Runtime, TaskEnvelope, has_trace_id, from_dict, as_dict, envelope_digest, verify_job_envelope,
}
use ai_examiner.Jobs.Envelope.RoundTrip.{IsAccepted, IsValid, from_dict-as_dict, from_dict_accepts}
use ai_examiner.Jobs.Lease.{
  exhaust_now, after_start, triage, is_eligible, claimed, answer, finish_claim, claim_job,
  heartbeat_job, complete_job,
}
use ai_examiner.Jobs.Failure.{Exception, dispose, holds_lease, fail_job}
use ai_examiner.Jobs.Invariant.{IsWellFormed, AllWellFormed}
use ai_examiner.Jobs.Invariant.Steps.{finish, heartbeat, Reach, here, next, Reach-AllWellFormed}
use ai_examiner.Jobs.Claims.{executes, claim_exclusive}
use ai_examiner.Jobs.Enqueue.{rejected, find_job, new_job, commit_job}
use ai_examiner.Jobs.Enqueue.Once.{enqueue_once}
use ai_examiner.Jobs.Fencing.{IsFenced, takeover_fences}
use ai_examiner.Jobs.Retry.{retry_window, duplicate_delivery_buries}

-- A runtime whose digest is a constant, and whose decimal digits are those of ASCII.
abbrev pub plain : Runtime
plain = record {
  parse_int = λ s. none;
  show = λ j. "";
  is_decimal = λ c. leb 48 c && leb c 57;
  is_space = λ c. c == 32;
  digest = λ d. "digest";
}

abbrev pub settings : Settings
settings = record {
  single_workspace_mode = true;
  job_lease_seconds = 300;
  job_retry_base_seconds = 5;
  job_recovery_batch_size = 100;
  job_orphan_grace_seconds = 30;
  job_max_attempts = 3;
}

abbrev pub envelope : TaskEnvelope
envelope = record {
  job_id = "job";
  organization_id = "org";
  actor_principal_id = none;
  kind = "benchmark";
  required_capability = "benchmark.run";
  authorization_mode = "legacy_local";
  idempotency_key = "key";
  payload_digest = "digest";
  request_id = "request";
  traceparent = "00-0123456789abcdef0123456789abcdef-0123456789abcdef-01";
  version = 2;
}

abbrev pub job : BackgroundJob
job = record {
  id = "job";
  organization_id = "org";
  actor_principal_id = none;
  kind = "benchmark";
  idempotency_key = some "key";
  envelope_version = 2;
  envelope_json = as_dict envelope;
  envelope_digest = "digest";
  required_capability = "benchmark.run";
  authorization_mode = "legacy_local";
  status = queued;
  progress = 0;
  message = "";
  payload = [];
  result = [];
  error = "";
  attempt_count = 0;
  max_attempts = 3;
  retry_class = no_class;
  next_attempt_at = none;
  lease_owner = none;
  lease_token = none;
  lease_expires_at = none;
  heartbeat_at = none;
  cancel_requested_at = none;
  cancel_requested_by = none;
  dead_lettered_at = none;
  terminal_reason = no_reason;
  celery_task_id = none;
  created_at = 0;
  updated_at = 0;
  started_at = none;
  completed_at = none;
}

abbrev pub db : Db
db = record {
  jobs = ("job", job) ∷ [];
  audit = [];
  organizations = [];
  principals = [];
  memberships = [];
}

pub envelope-IsValid : IsValid plain envelope
unfolding has_trace_id lookup mathlib.Core.Option.bind
envelope-IsValid = record {
  accepted = record {
    known_version = inr refl;
    known_mode = refl;
    known_kind = refl;
    short_request = omega arith;
    traced = refl;
  };
  bare = λ one. absurd (omega arith);
}

from_dict-as_dict_example : from_dict plain (as_dict envelope) ≡ ok envelope
from_dict-as_dict_example = from_dict-as_dict plain envelope envelope-IsValid

from_dict_accepts_example : IsAccepted plain envelope
from_dict_accepts_example =
    from_dict_accepts plain (as_dict envelope) envelope from_dict-as_dict_example

pub job-verifies : verify_job_envelope plain job envelope ≡ ok tt
unfolding verify_job_envelope lookup
job-verifies = refl

first_claim : (finish_claim plain settings envelope "d1" "t1" job 0 db).0.execute ≡ true
unfolding finish_claim is_eligible update_where lookup envelope_digest
first_claim = refl

abbrev claimed_db : Db
claimed_db = (finish_claim plain settings envelope "d1" "t1" job 0 db).1

abbrev claimed_row : BackgroundJob
claimed_row = claimed settings job "d1" "t1" 0 job

claimed_found : lookup "job" claimed_db.jobs ≡ some claimed_row
unfolding finish_claim is_eligible update_where lookup envelope_digest claimed insert
claimed_found = refl

claimed_own : claimed_row.id ≡ "job"
unfolding claimed
claimed_own = refl

claim_exclusive_example :
    (((finish_claim plain settings envelope "d2" "t2" job 5 claimed_db).0.execute ≡ false)
      × ((finish_claim plain settings envelope "d2" "t2" job 5 claimed_db).1 ≡ claimed_db))
    × ((executes (claim_job plain settings envelope "d2" "t2" 5 claimed_db).0 ≡ false)
        × (((claim_job plain settings envelope "d2" "t2" 5 claimed_db).1 ≡ claimed_db)
            ⊎ ((claimed_row.max_attempts ≤ claimed_row.attempt_count)
                × ((claim_job plain settings envelope "d2" "t2" 5 claimed_db).1
                    ≡ put_audited
                        (exhaust_now 5 claimed_row)
                        attempt_limit_exhausted
                        failed_outcome
                        claimed_db))))
claim_exclusive_example =
    claim_exclusive plain settings envelope envelope "d1" "d2" "t1" "t2" job 0 5 db first_claim
      (omega arith) claimed_row job claimed_found claimed_own refl refl

abbrev lost_token : String
lost_token = "t0"

lost_token-differs : lost_token ≢ "t1"
lost_token-differs e = cc (ap (λ s. str_eq s "t0") e)

takeover_fences_example :
    IsFenced settings envelope "t0" claimed_db
    × ((exc : Exception) (later : ℕ)
        → fail_job settings envelope "t0" exc later claimed_db ≡ (err job_lease_lost, claimed_db))
takeover_fences_example =
    takeover_fences plain settings envelope envelope "d1" "t0" "t1" job 0 db first_claim refl
      lost_token-differs

job-IsWellFormed : IsWellFormed job
job-IsWellFormed = ground arith

claim_path : Reach plain settings db (heartbeat_job settings envelope "t1" 9 claimed_db).1
claim_path = next (next here (finish envelope "d1" "t1" job 0)) (heartbeat envelope "t1" 9)

Reach-AllWellFormed_example : AllWellFormed (heartbeat_job settings envelope "t1" 9 claimed_db).1
Reach-AllWellFormed_example = Reach-AllWellFormed plain settings claim_path (job-IsWellFormed, tt)

abbrev holder : BackgroundJob
holder = claimed settings job "d1" "t1" 0 job

-- The delivery `d1` holds the job, so the last part is about a report of its failure.
holder-holds : holds_lease envelope "t1" holder ≡ true
unfolding holds_lease claimed
holder-holds = refl

transient_failure : (dispose settings "Timeout" transient 7 holder claimed_db).0.retry ≡ true
unfolding dispose claimed
transient_failure = refl

retry_window_example : (dispose settings "Timeout" transient 7 holder claimed_db).0.countdown ≤ 3600
retry_window_example =
    (retry_window settings "Timeout" transient 7 holder claimed_db transient_failure).0

abbrev last_attempt : BackgroundJob
last_attempt = record holder { attempt_count = 3 }

duplicate_delivery_buries_example :
    let db' = after_start (triage settings last_attempt 1 claimed_db) claimed_db in
    (lookup "job" db'.jobs ≡ some (exhaust_now 1 last_attempt))
    × (complete_job envelope "t1" [] "done" 2 db' ≡ (err job_lease_lost, db'))
unfolding claimed
duplicate_delivery_buries_example =
    duplicate_delivery_buries settings envelope "t1" "done" [] last_attempt 1 2 claimed_db refl refl
      refl refl

abbrev no_jobs : Db
no_jobs = record db { jobs = [] }

abbrev second_request : TaskEnvelope
second_request = record envelope { job_id = "job2" }

enqueue_once_example :
    let (answer, db') = commit_job plain settings envelope [] none 1 no_jobs in
    let first = new_job plain settings envelope [] none 1 in
    (answer ≡ ok first)
    × (commit_job plain settings second_request [] (some 5) 2 db'
        ≡ (if str_eq "digest" "digest" then ok first else err rejected, db'))
unfolding lookup find_job
enqueue_once_example =
    enqueue_once plain settings envelope second_request [] [] none (some 5) 1 2 no_jobs
      envelope-IsValid
      (record { same_organization = refl; same_kind = refl; same_key = refl; same_actor = refl })
      refl refl
