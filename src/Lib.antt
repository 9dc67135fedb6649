-- ===== src/Lib.antt =====
-- AI Examiner, an oral examination service: a verification library of its core.
--
-- The service examines learners by voice and text with the help of language models. The parts
-- below are those that decide who may do what, when and at which cost. Paths are from the
-- repository's root.
--
-- Prelude holds the shared names: Boolean tests on native numbers and texts (Prelude/Tests), lists
-- (Prelude/Lists), texts (Prelude/Texts), dictionaries as association lists (Prelude/Dicts) and
-- results with `do` (Prelude/Results).
--
-- RateLimit models SlidingWindowLimiter of src/ai_examiner/services/rate_limit.py: the table of
-- deques as a dictionary, and `check` with its pruning. RateLimit/Window and RateLimit/Deques are
-- about one deque, RateLimit/Table about the table and interleaved keys, RateLimit/Pruning about
-- what pruning forgets, RateLimit/Eviction about requests that prune.
--
-- Enterprise models the roles and the capability bundles of
-- src/ai_examiner/enterprise_constants.py, which `effective_capabilities` of
-- services/authorization.py reads; Enterprise/Bundles compares them. Membership models
-- MembershipAdministrationService of services/membership_admin.py; the table of memberships is its
-- state, and the row that an update has loaded is an argument apart from it. Membership/Owners
-- takes its operations as steps, and an update of a stale row by itself.
--
-- Jobs models src/ai_examiner/services/job_control.py. Jobs/Model has the row BackgroundJob, the
-- database and the audit trail, Jobs/Store the conditional UPDATE, Jobs/Envelope the task
-- envelope, Jobs/Lease claims, heartbeats and completion, Jobs/Failure the classification and the
-- disposition of failures, Jobs/Control cancellation, retry and recovery, Jobs/Enqueue
-- `enqueue_job` of services/jobs.py up to the hand-over to the broker, Jobs/Enqueue/Once its
-- idempotency, and Jobs/Dispatch the hand-over, with the broker as an argument. Jobs/Worker is
-- `execute_job_delivery` of jobs.py with JobHeartbeat: a handler reaches the row of its job by
-- `_progress` and `checkpoint` only, so its run is a list of these calls, of heartbeats and of
-- cancellations, with the way it ends; the children Attempt, Ending, Start and Liveness follow a
-- job through its deliveries. Jobs reads Enterprise and Membership where a worker checks its actor
-- again. Jobs/Invariant and its children are about one row and about all, Jobs/Claims and
-- Jobs/Fencing about two deliveries, Jobs/Retry about time, Jobs/Recovery about the table that a
-- recovery leaves.
--
-- Governance models src/ai_examiner/services/model_governance.py: Catalog the prices of
-- model_catalog.py and `parse_profile`, Policy the organization's policy, Limiter the memory
-- limiter and the interface that the service uses a limiter by, Ledger the usage ledger, Quota the
-- budgets, Reserve the reservation with its two limiters, Call the candidates and the loop over
-- them, Usage the monthly summary. Budget, Admission, Fallback, OpenRows, Closing and Outage hold
-- the proofs.
--
-- Assignments models src/ai_examiner/services/assignments.py, with the frozen settings in
-- Assignments/Settings; Assignments/Windows is about attempts, Assignments/Codes about join codes.
-- Conversation models agents/policy.py, services/conversation_policy.py and the exam lock;
-- Conversation/Actions and Conversation/Lock are about its decisions.
--
-- Lifecycle models src/ai_examiner/services/data_lifecycle.py: Model the rows, Reviews
-- HumanReviewService, Requests the requests of data subjects with the routes of main.py that drive
-- them and create or release legal holds, Deletion the holds and the deletion of a project or a
-- learner, Execution `execute_deletion` and the worker's handler `_delete_data_subject`, Retention
-- the policies and the download of exports. The object store and
-- MemoryControlService.execute_deletion are arguments. Steps takes all of them as steps, with the
-- enqueuing, the worker and the route's second commit apart; Frame, Aside, Projects, Control,
-- Decisions and Executed hold the lemmas, Held, DualControl and Races what they lead to.
--
-- Audit models src/ai_examiner/services/audit.py: Model the row AuditEvent, Listing the query with
-- its cursors and the rows of an export, Redaction what may enter an event, Append which requests
-- are recorded and the event that is written. Order and Pages are about the listing, Safety about
-- the redaction, Coverage about what is recorded. The texts of actions and resources, the classes
-- of clients, the secret patterns and the digest are arguments.
--
-- Identity models src/ai_examiner/services/oidc.py with authentication.py: Model the rows, Tokens
-- OIDCTokenValidator, Principals `resolve_principal` and `transition_principal_status` of
-- enterprise_identity.py, Login begin_login and complete_login, Access bearer tokens, sessions,
-- logout and `current_authentication`. A callback is taken apart at the read of its transaction.
-- Steps has all of them as steps, Changes and its child say what a step does to the tables, Rows
-- what stays true of a row; Sessions and Overlap hold what follows. The token library, hashes, the
-- cipher and the answers of OIDCDiscoveryCache are arguments.
--
-- Examples runs the components at concrete inputs.
--
-- State is passed explicitly, an exception is a value of Result beside the state it leaves, and
-- the clock, `uuid4` and every library call are arguments. Times are natural numbers of
-- microseconds, costs of 10⁻⁸ dollars, ratios and progress of millionths; where the source
-- computes them in floating point the model takes the decimal that is meant. Loops are structural
-- recursion on the list that the source walks, so no fuel is needed. Row locks and process locks
-- make an operation one step. Of what is not locked, the read and the conditional UPDATE of a
-- claim, the read and the write of a login, and the load and the write of a membership are apart;
-- in the relation of Membership/Owners a load and its write are one step. The other operations
-- that read and then write without a lock, such as fail_job, request_job_cancellation and
-- reset_job_for_retry, are one step, and their interleavings inside one operation are not
-- modelled. A write replaces the whole row, where the ORM writes the changed columns.
--
-- Left out: the broker, the Redis limiter, the discovery cache of oidc.py, asyncio semaphores, the
-- other HTTP routes, migrations, the model providers and the user interface, since they are
-- network, scheduling or glue; and assessment, learner memory, templates and realtime normalizers,
-- which have no module yet.

pub mod Prelude
pub mod RateLimit
pub mod Enterprise
pub mod Membership
pub mod Jobs
pub mod Governance
pub mod Assignments
pub mod Conversation
pub mod Lifecycle
pub mod Audit
pub mod Identity
mod Examples
