-- ===== src/Examples.antt =====
-- Concrete runs of the components, and the theorems at them.
mod RateLimit
mod Membership
mod Jobs
mod Worker
mod Governance
mod Assignments
mod Lifecycle
mod Audit
mod Identity
