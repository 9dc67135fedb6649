-- ===== src/Examples/Worker.antt =====
-- A benchmark job of src/ai_examiner/jobs.py that fails twice and is cancelled in its third attempt,
-- and one that the broker refuses.
use ai_examiner.Prelude.{
  lookup, insert, ok, ℕ, ◌+◌, String, ◌≡◌, refl, none, some, List, [], ◌∷◌, arith,
}
use ai_examiner.Jobs.Model.{queued, retry_scheduled}
use ai_examiner.Jobs.Store.{update_where}
use ai_examiner.Jobs.Envelope.{as_dict, envelope_digest, same_dict, verify_job_envelope}
use ai_examiner.Jobs.Envelope.RoundTrip.{from_dict-as_dict}
use ai_examiner.Jobs.Lease.{
  authorize_job_execution, triage, begin_claim, is_eligible, claimed, finish_claim, claim_job,
  is_owned, renewed, heartbeat_job, job_cancel_requested, update_running_job,
}
use ai_examiner.Jobs.Failure.{
  timeout_error, Exception, classify_job_exception, retry_countdown, schedule_retry, dispose,
  holds_lease, fail_job,
}
use ai_examiner.Jobs.Dispatch.{
  Broker, Correlation, ensure_job_envelope, IsReported, IsStranded, broker_refusal,
}
use ai_examiner.Jobs.Worker.{
  WorkEvent, report, checkpoint, beat, cancellation, WorkEnd, returned, raised, Delivery,
  checkpoint_raises, work, execute_job_delivery,
}
use ai_examiner.Jobs.Worker.Attempt.{Found, IsEnded}
use ai_examiner.Jobs.Worker.Liveness.{deliver_all, AreTimely, deliver_all-IsEnded}
use ai_examiner.Examples.Jobs.{plain, settings, envelope, job, db, envelope-IsValid, job-verifies}

abbrev timeout : Exception
timeout = record { class = timeout_error; code = "Timeout"; lowered_message = "timed out" }

-- A delivery at a time, with the work and the end given.
abbrev delivery : ℕ → String → List WorkEvent → WorkEnd → Delivery
delivery now token events ending = record {
  delivery_id = "d";
  lease_token = token;
  claimed_at = now;
  events = events;
  ending = ending;
  ended_at = now + 5;
}

abbrev deliveries : List Delivery
deliveries =
    delivery 0 "t1" (report 150000 1 "Running benchmark" ∷ checkpoint ∷ []) (raised timeout)
    ∷ delivery 100000000 "t2" (beat 100000001 ∷ []) (raised timeout)
    ∷ delivery 200000000 "t3" (cancellation "p1" "stop" 200000001 ∷ checkpoint ∷ [])
        (returned [] "Benchmark completed")
    ∷ []

deliveries-timely : AreTimely plain settings envelope deliveries db
unfolding AreTimely execute_job_delivery claim_job begin_claim finish_claim update_where lookup
    insert triage is_eligible claimed work checkpoint_raises job_cancel_requested update_running_job
    is_owned heartbeat_job renewed fail_job holds_lease dispose schedule_retry retry_countdown
    verify_job_envelope authorize_job_execution classify_job_exception as_dict envelope_digest
    same_dict
deliveries-timely = (refl, (refl, (refl, tt)))

found_job : lookup "job" db.jobs ≡ some job
unfolding lookup
found_job = refl

deliver_all-IsEnded_example :
    Found IsEnded "job" (deliver_all plain settings envelope deliveries db)
deliver_all-IsEnded_example =
    deliver_all-IsEnded plain settings envelope job deliveries db found_job refl job-verifies
      deliveries-timely (omega arith) (omega arith)

-- A broker that cannot be reached.
abbrev unreachable : Broker
unreachable e db = (none, db)

abbrev correlation : Correlation
correlation = record { request_id = ""; traceparent = "" }

job-enveloped : ensure_job_envelope plain correlation job ≡ ok (envelope, job)
unfolding ensure_job_envelope as_dict
job-enveloped = rw (from_dict-as_dict plain envelope envelope-IsValid) refl

broker_refusal_example :
    (job.status ≡ queued → IsReported plain unreachable correlation envelope job db)
    × (job.status ≡ retry_scheduled → IsStranded plain unreachable correlation envelope job db)
unfolding lookup
broker_refusal_example =
    broker_refusal plain unreachable correlation envelope job db refl job-enveloped refl
