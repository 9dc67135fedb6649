-- ===== src/Jobs.antt =====
-- src/ai_examiner/services/job_control.py: the life of a background job, from its signed envelope
-- to a terminal status, and the delivery loop of src/ai_examiner/jobs.py around it.
pub mod Model
pub mod Store
pub mod Envelope
pub mod Lease
pub mod Failure
pub mod Control
pub mod Invariant
pub mod Claims
pub mod Fencing
pub mod Retry
pub mod Recovery
pub mod Enqueue
pub mod Dispatch
pub mod Worker
