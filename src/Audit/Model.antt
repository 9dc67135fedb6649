-- ===== src/Audit/Model.antt =====
-- The rows of `AuditEvent` (models.py), as src/ai_examiner/services/audit.py lists them.
use ai_examiner.Prelude.{Dict, ℕ, String, Bool, true, false, Option}
use ai_examiner.Jobs.Model.{Json, Outcome, succeeded, denied, failed_outcome}

pub data RetentionClass : Type 0 where
  security sensitive_read administrative : RetentionClass

pub record AuditEvent : Type 0 where
  pub id : String
  pub schema_version : ℕ
  pub organization_id : Option String
  pub actor_type : String
  pub actor_id : Option String
  pub authentication_method : String
  pub action : String
  pub resource_type : String
  pub resource_id : Option String
  pub outcome : Outcome
  pub reason_code : String
  pub request_id : String
  pub trace_id : String
  pub source_ip_class : String
  pub source_ip_hash : Option String
  pub user_agent_family : String
  pub metadata : Dict Json
  pub event_digest : String
  pub retention_class : RetentionClass
  pub retention_until : ℕ
  pub occurred_at : ℕ

-- Equality of outcomes.
abbrev pub same_outcome : Outcome → Outcome → Bool
same_outcome succeeded succeeded = true
same_outcome denied denied = true
same_outcome failed_outcome failed_outcome = true
same_outcome _ _ = false
