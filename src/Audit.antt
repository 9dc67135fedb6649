-- ===== src/Audit.antt =====
-- src/ai_examiner/services/audit.py: what an audit event may carry, how it is classified, and how the
-- events of an organization are listed page by page.
pub mod Model
pub mod Listing
pub mod Order
pub mod Pages
pub mod Redaction
pub mod Safety
pub mod Append
pub mod Coverage
