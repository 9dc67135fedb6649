-- ===== src/Governance/Ledger.antt =====
-- `ModelUsageLedger` of models.py, and the writes of it by
-- src/ai_examiner/services/model_governance.py that end a reservation.
use ai_examiner.Prelude.{
  Dict, lookup, insert, ℕ, max, String, Bool, true, false, Option, none, some, List, [], ◌∷◌, ◌++◌,
}
use ai_examiner.Governance.Policy.{Classification, OrganizationModelPolicy}
use ai_examiner.Governance.Limiter.{
  Code, provider_failure, organization_rate_limited, principal_rate_limited,
  organization_token_rate_limited, organization_concurrency_limited, rate_limiter_unavailable,
}
use ai_examiner.Governance.Catalog.{estimate_cost}

pub data UsageStatus : Type 0 where
  reserved completed failed denied released : UsageStatus

pub record ModelUsageLedger : Type 0 where
  pub id : String
  pub organization_id : String
  pub policy_id : String
  pub policy_version : ℕ
  pub policy_snapshot_digest : String
  pub project_id : Option String
  pub session_id : Option String
  pub actor_principal_id : Option String
  pub request_id : String
  pub task_type : String
  pub data_classification : Classification
  pub requested_profile : String
  pub actual_provider : Option String
  pub actual_model : Option String
  pub fallback_from_profile : Option String
  pub status : UsageStatus
  pub reservation_cost_usd : ℕ
  pub estimated_cost_usd : ℕ
  pub input_tokens : ℕ
  pub output_tokens : ℕ
  pub latency_ms : ℕ
  pub retry_count : ℕ
  pub rate_limit_scope : String
  pub denial_reason : Code
  pub soft_limit_exceeded : Bool
  pub created_at : ℕ
  pub completed_at : Option ℕ

-- What `_append_denial_audit` hands to the audit trail.
pub record DenialEvent : Type 0 where
  pub organization_id : String
  pub actor_id : Option String
  pub resource_id : String
  pub reason_code : Code
  pub request_id : String
  pub task_type : String
  pub requested_profile : String
  pub policy_version : ℕ
  pub data_classification : Classification

pub record GovernanceDb : Type 0 where
  pub policies : Dict OrganizationModelPolicy
  pub ledger : Dict ModelUsageLedger
  pub audit : List DenialEvent

-- What a call of a provider returns; `image_model` is the provider's.
pub record ProviderResult : Type 0 where
  pub provider : String
  pub model : String
  pub input_tokens : ℕ
  pub output_tokens : ℕ
  pub latency_ms : ℕ
  pub retry_count : ℕ
  pub content : String

abbrev pub is_reserved : UsageStatus → Bool
is_reserved reserved = true
is_reserved _ = false

-- `status in ("completed", "failed")`
abbrev pub is_accounted : UsageStatus → Bool
is_accounted completed = true
is_accounted failed = true
is_accounted _ = false

abbrev pub put_ledger : ModelUsageLedger → GovernanceDb → GovernanceDb
put_ledger e db = record db { ledger = insert e.id e db.ledger }

unfoldable pub append_denial_audit : ModelUsageLedger → Code → List DenialEvent → List DenialEvent
append_denial_audit e reason audit =
    audit
    ++ record {
      organization_id = e.organization_id;
      actor_id = e.actor_principal_id;
      resource_id = e.id;
      reason_code = reason;
      request_id = e.request_id;
      task_type = e.task_type;
      requested_profile = e.requested_profile;
      policy_version = e.policy_version;
      data_classification = e.data_classification;
    }
      ∷ []

abbrev pub put_denied : ModelUsageLedger → Code → GovernanceDb → GovernanceDb
put_denied e reason db = record db {
  ledger = insert e.id e db.ledger;
  audit = append_denial_audit e reason db.audit;
}

-- The scope of a reason, or the one that the row has.
abbrev scope_of : Code → String → String
scope_of organization_rate_limited scope = "organization_requests"
scope_of principal_rate_limited scope = "principal_requests"
scope_of organization_token_rate_limited scope = "organization_tokens"
scope_of organization_concurrency_limited scope = "organization_concurrency"
scope_of rate_limiter_unavailable scope = "admission_backend"
scope_of _ scope = scope

unfoldable pub denied_row : Code → ℕ → ModelUsageLedger → ModelUsageLedger
denied_row reason now e = record e {
  status = denied;
  denial_reason = reason;
  rate_limit_scope = scope_of reason e.rate_limit_scope;
  completed_at = some now;
}

abbrev pub deny_found : Code → ℕ → Option ModelUsageLedger → GovernanceDb → GovernanceDb
deny_found reason now none db = db
deny_found reason now (some e) db = put_denied (denied_row reason now e) reason db

unfoldable pub deny_reserved : String → Code → ℕ → GovernanceDb → GovernanceDb
deny_reserved ledger_id reason now db = deny_found reason now (lookup ledger_id db.ledger) db

unfoldable pub settled_row : ProviderResult → ℕ → ModelUsageLedger → ModelUsageLedger
settled_row r now e = record e {
  actual_provider = some r.provider;
  actual_model = some r.model;
  status = completed;
  estimated_cost_usd = estimate_cost r.provider r.model r.input_tokens r.output_tokens;
  input_tokens = r.input_tokens;
  output_tokens = r.output_tokens;
  latency_ms = r.latency_ms;
  retry_count = r.retry_count;
  completed_at = some now;
}

-- The transaction of `settle`; `false` where it raises since the row is gone.
abbrev pub settle_found :
    ProviderResult → ℕ → Option ModelUsageLedger → GovernanceDb → Bool × GovernanceDb
settle_found r now none db = (false, db)
settle_found r now (some e) db = (true, put_ledger (settled_row r now e) db)

unfoldable pub settle_ledger : String → ProviderResult → ℕ → GovernanceDb → Bool × GovernanceDb
settle_ledger ledger_id r now db = settle_found r now (lookup ledger_id db.ledger) db

unfoldable pub failed_row : ℕ → ModelUsageLedger → ModelUsageLedger
failed_row now e = record e {
  status = failed;
  denial_reason = provider_failure;
  estimated_cost_usd = max e.estimated_cost_usd e.reservation_cost_usd;
  completed_at = some now;
}

abbrev pub fail_found : ℕ → Option ModelUsageLedger → GovernanceDb → GovernanceDb
fail_found now none db = db
fail_found now (some e) db = put_ledger (failed_row now e) db

-- The transaction of `fail`.
unfoldable pub fail_ledger : String → ℕ → GovernanceDb → GovernanceDb
fail_ledger ledger_id now db = fail_found now (lookup ledger_id db.ledger) db
