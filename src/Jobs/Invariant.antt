-- ===== src/Jobs/Invariant.antt =====
-- What holds of every row of the job table, whatever operations of
-- src/ai_examiner/services/job_control.py run, and in whatever order.
pub mod Table
pub mod Recovery
pub mod Steps
use ai_examiner.Prelude.{is_some, Dict, AllValues, ℕ, ◌≤◌, String, ◌≡◌, ◌≢◌, true, none, arith}
use ai_examiner.Jobs.Model.{
  Json, running, retry_scheduled, cancelling, dead_letter, RetryClass, no_reason, queue_unavailable,
  BackgroundJob, Db, Settings, is_terminal,
}
use ai_examiner.Jobs.Lease.{
  cancel_now, exhaust_now, is_eligible, claimed, renewed, completed_values,
}
use ai_examiner.Jobs.Failure.{cancel_failed, schedule_retry, bury}
use ai_examiner.Jobs.Control.{mark_cancelled, requeued, recovered}

-- A row as the operations leave it.
pub record IsWellFormed (j : BackgroundJob) : Type 0 where
  pub attempts_bounded : j.attempt_count ≤ j.max_attempts
  pub running_leased :
      j.status ≡ running → (is_some j.lease_token ≡ true) × (is_some j.lease_expires_at ≡ true)
  pub running_started : j.status ≡ running → (is_some j.started_at ≡ true) × (1 ≤ j.attempt_count)
  pub running_wanted : j.status ≡ running → j.cancel_requested_at ≡ none
  pub retry_timed : j.status ≡ retry_scheduled → is_some j.next_attempt_at ≡ true
  pub cancelling_asked : j.status ≡ cancelling → is_some j.cancel_requested_at ≡ true
  pub dead_timed : j.status ≡ dead_letter → is_some j.dead_lettered_at ≡ true
  pub ended_timed :
      is_terminal j.status ≡ true
      → j.terminal_reason ≢ queue_unavailable
      → is_some j.completed_at ≡ true
  pub ended_for : is_terminal j.status ≡ true → j.terminal_reason ≢ no_reason

claimed-IsWellFormed :
    (settings : Settings) (snapshot : BackgroundJob) (delivery token digest : String) (now : ℕ)
    (row : BackgroundJob)
    → is_eligible snapshot digest now row ≡ true
    → IsWellFormed row
    → IsWellFormed (claimed settings snapshot delivery token now row)
unfolding claimed is_eligible
claimed-IsWellFormed settings snapshot delivery token digest now row h w = ground arith

cancel_now-IsWellFormed :
    (now : ℕ) (row : BackgroundJob) → IsWellFormed row → IsWellFormed (cancel_now now row)
cancel_now-IsWellFormed now row w = ground arith

exhaust_now-IsWellFormed :
    (now : ℕ) (row : BackgroundJob) → IsWellFormed row → IsWellFormed (exhaust_now now row)
exhaust_now-IsWellFormed now row w = ground arith

cancel_failed-IsWellFormed :
    (code : String) (c : RetryClass) (now : ℕ) (row : BackgroundJob)
    → IsWellFormed row
    → IsWellFormed (cancel_failed code c now row)
unfolding cancel_failed
cancel_failed-IsWellFormed code c now row w = ground arith

schedule_retry-IsWellFormed :
    (code : String) (c : RetryClass) (countdown now : ℕ) (row : BackgroundJob)
    → IsWellFormed row
    → IsWellFormed (schedule_retry code c countdown now row)
unfolding schedule_retry
schedule_retry-IsWellFormed code c countdown now row w = ground arith

bury-IsWellFormed :
    (code : String) (c : RetryClass) (now : ℕ) (row : BackgroundJob)
    → IsWellFormed row
    → IsWellFormed (bury code c now row)
unfolding bury
bury-IsWellFormed code c now row w = ground arith

mark_cancelled-IsWellFormed :
    (principal reason : String) (now : ℕ) (row : BackgroundJob)
    → IsWellFormed row
    → IsWellFormed (mark_cancelled principal reason now row)
unfolding mark_cancelled
mark_cancelled-IsWellFormed principal reason now row w = ground arith

requeued-IsWellFormed :
    (reason : String) (now : ℕ) (row : BackgroundJob)
    → IsWellFormed row
    → IsWellFormed (requeued reason now row)
unfolding requeued
requeued-IsWellFormed reason now row w = ground arith

recovered-IsWellFormed :
    (now : ℕ) (row : BackgroundJob) → IsWellFormed row → IsWellFormed (recovered now row)
unfolding recovered
recovered-IsWellFormed now row w = ground arith

completed_values-IsWellFormed :
    (result : Dict Json) (message : String) (now : ℕ) (row : BackgroundJob)
    → IsWellFormed row
    → IsWellFormed (record (completed_values result message now row) { updated_at = now })
unfolding completed_values
completed_values-IsWellFormed result message now row w = ground arith

renewed-IsWellFormed :
    (settings : Settings) (now : ℕ) (row : BackgroundJob)
    → IsWellFormed row
    → IsWellFormed (renewed settings now row)
unfolding renewed
renewed-IsWellFormed settings now row w = ground arith

abbrev pub AllWellFormed : Db → Type 0
AllWellFormed db = AllValues IsWellFormed db.jobs
