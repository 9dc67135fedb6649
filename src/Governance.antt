-- ===== src/Governance.antt =====
-- Model governance, src/ai_examiner/services/model_governance.py: the policy of an organization,
-- admission control, the usage ledger, reservations against budgets, and the call with its
-- fallbacks.
pub mod Catalog
pub mod Policy
pub mod Limiter
pub mod Ledger
pub mod Quota
pub mod Reserve
pub mod Call
pub mod Budget
pub mod Admission
pub mod Fallback
pub mod OpenRows
pub mod Closing
pub mod Outage
pub mod Usage
