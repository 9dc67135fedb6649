-- ===== src/Governance/Quota.antt =====
-- The budgets of src/ai_examiner/services/model_governance.py: the sums over the ledger, the reasons
-- to refuse, and the row that `_reserve_locked` writes.
use ai_examiner.Prelude.{
  ltb, leb, if◌then◌else◌, opt_eq, truthy, Dict, Result, ok, err, ℕ, ◌+◌, ◌*◌, max, String, Bool,
  true, false, ◌&&◌, ◌||◌, Option, none, some, [], ◌∷◌, str_eq,
}
use ai_examiner.Governance.Policy.{
  Classification, QuotaMode, soft, hard, OrganizationModelPolicy, Runtime,
}
use ai_examiner.Governance.Limiter.{
  Code, no_code, per_request_quota_exceeded, monthly_quota_exceeded, session_quota_exceeded,
}
use ai_examiner.Governance.Catalog.{estimate_cost}
use ai_examiner.Governance.Ledger.{
  UsageStatus, reserved, denied, ModelUsageLedger, GovernanceDb, is_reserved, is_accounted,
  put_ledger, put_denied,
}

pub record Settings : Type 0 where
  pub model_reserved_output_tokens : ℕ
  pub model_rate_limit_window_seconds : ℕ
  pub model_concurrency_lease_seconds : ℕ
  pub model_rate_limit_required : Bool

-- `ModelGovernanceError` with its code, status and `retry_after`; the `ValueError` of
-- `parse_profile`, the `RuntimeError` of `settle`, and what a provider raises.
pub data GovernanceError : Type 0 where
  governance_error : Code → ℕ → Option ℕ → GovernanceError
  value_error runtime_error : GovernanceError
  provider_error : String → GovernanceError

-- The arguments of `reserve`.
pub record Request : Type 0 where
  pub organization_id : String
  pub principal_id : Option String
  pub project_id : Option String
  pub session_id : Option String
  pub requested_profile : String
  pub candidate_profile : String
  pub fallback_from_profile : Option String
  pub task_type : String
  pub classification : Classification
  pub token_units : ℕ
  pub request_id : String

-- The sum of `amount` over the rows that pass `test`.
unfoldable pub total :
    (ModelUsageLedger → ℕ) → (ModelUsageLedger → Bool) → Dict ModelUsageLedger → ℕ
total amount test [] = 0
total amount test ((k, e) ∷ rows) =
    let rest = total amount test rows in if test e then amount e + rest else rest

abbrev pub in_period : String → ℕ → ModelUsageLedger → Bool
in_period organization_id start e =
    str_eq e.organization_id organization_id && leb start e.created_at

abbrev pub completed_cost : String → ℕ → Dict ModelUsageLedger → ℕ
completed_cost organization_id start =
    total (λ e. e.estimated_cost_usd)
      (λ e. in_period organization_id start e && is_accounted e.status)

abbrev pub reserved_cost : String → ℕ → Dict ModelUsageLedger → ℕ
reserved_cost organization_id start =
    total (λ e. e.reservation_cost_usd)
      (λ e. in_period organization_id start e && is_reserved e.status)

abbrev in_session : String → String → ModelUsageLedger → Bool
in_session organization_id session_id e =
    str_eq e.organization_id organization_id && opt_eq e.session_id (some session_id)

abbrev pub session_cost : String → Option String → Dict ModelUsageLedger → ℕ
session_cost organization_id none rows = 0
session_cost organization_id (some session_id) rows =
    if str_eq session_id ""
    then 0
    else total (λ e. e.estimated_cost_usd)
        (λ e. in_session organization_id session_id e && is_accounted e.status) rows
      + total (λ e. e.reservation_cost_usd)
          (λ e. in_session organization_id session_id e && is_reserved e.status) rows

-- Why the budgets refuse a cost; a budget of 0 refuses none.
unfoldable pub quota_reason : OrganizationModelPolicy → Bool → (cost month session : ℕ) → Code
quota_reason policy has_session cost month session =
    if ltb 0 policy.per_request_budget_usd && ltb policy.per_request_budget_usd cost
    then per_request_quota_exceeded
    else (if ltb 0 policy.monthly_budget_usd && ltb policy.monthly_budget_usd (month + cost)
        then monthly_quota_exceeded
        else (if has_session
              && (ltb 0 policy.per_session_budget_usd
                  && ltb policy.per_session_budget_usd (session + cost))
            then session_quota_exceeded
            else no_code))

abbrev pub has_reason : Code → Bool
has_reason no_code = false
has_reason _ = true

abbrev pub is_hard : QuotaMode → Bool
is_hard hard = true
is_hard soft = false

-- `projected_ratio >= policy.soft_limit_ratio`
abbrev pub soft_exceeded : OrganizationModelPolicy → ℕ → Bool
soft_exceeded policy projected =
    if ltb 0 policy.monthly_budget_usd
    then leb (policy.soft_limit_ratio * policy.monthly_budget_usd) (projected * 1000000)
    else leb policy.soft_limit_ratio 0

abbrev is_denied : UsageStatus → Bool
is_denied denied = true
is_denied _ = false

-- `_new_ledger`, with the parsed profile.
unfoldable pub new_ledger :
    OrganizationModelPolicy
    → Request
    → (id provider model : String) → (cost : ℕ) → UsageStatus
    → Code
    → Bool
    → (now : ℕ) → ModelUsageLedger
new_ledger policy req id provider model cost status reason over_soft now = record {
  id = id;
  organization_id = req.organization_id;
  policy_id = policy.id;
  policy_version = policy.version;
  policy_snapshot_digest = policy.policy_digest;
  project_id = req.project_id;
  session_id = req.session_id;
  actor_principal_id = req.principal_id;
  request_id = req.request_id;
  task_type = req.task_type;
  data_classification = req.classification;
  requested_profile = req.requested_profile;
  actual_provider = if is_denied status then none else some provider;
  actual_model = if is_denied status then none else some model;
  fallback_from_profile = req.fallback_from_profile;
  status = status;
  reservation_cost_usd = cost;
  estimated_cost_usd = 0;
  input_tokens = 0;
  output_tokens = 0;
  latency_ms = 0;
  retry_count = 0;
  rate_limit_scope = "";
  denial_reason = reason;
  soft_limit_exceeded = over_soft;
  created_at = now;
  completed_at = if is_denied status then some now else none;
}

-- The fresh identifiers of one call, of a ledger row and of a policy.
pub record Fresh : Type 0 where
  pub ledger_id : String
  pub policy_id : String

-- `max(estimate_cost(...), 0.000001)`
abbrev pub reservation_cost : Settings → String → String → ℕ → ℕ
reservation_cost settings provider model token_units =
    max (estimate_cost provider model token_units settings.model_reserved_output_tokens) 100

-- The transaction of `_reserve_locked` behind the policy's test: the sums, and the row.
unfoldable pub charge :
    Runtime
    → Request
    → OrganizationModelPolicy
    → (id provider model : String) → (cost now : ℕ) → GovernanceDb
    → Result GovernanceError ModelUsageLedger × GovernanceDb
charge rt req policy id provider model cost now db =
    let start = rt.month_start now in
    let month =
      completed_cost req.organization_id start db.ledger
      + reserved_cost req.organization_id start db.ledger in
    let session = session_cost req.organization_id req.session_id db.ledger in
    let reason = quota_reason policy (truthy req.session_id) cost month session in
    let row =
      new_ledger policy req id provider model cost reserved
        (if is_hard policy.quota_mode then no_code else reason)
        (soft_exceeded policy (month + cost) || has_reason reason) now in
    let refused = new_ledger policy req id provider model cost denied reason true now in
    if has_reason reason && is_hard policy.quota_mode
    then (err (governance_error reason 429 none), put_denied refused reason db)
    else (ok row, put_ledger row db)
