-- ===== src/Identity.antt =====
-- Who a request comes from: src/ai_examiner/services/oidc.py, authentication.py and the principals of
-- enterprise_identity.py.
pub mod Model
pub mod Tokens
pub mod Principals
pub mod Login
pub mod Access
pub mod Steps
pub mod Changes
pub mod Rows
pub mod Sessions
pub mod Overlap
