-- ===== src/Examples/Governance.antt =====
-- An organization with a budget, one governed call of the offline provider, and the limiter.
use ai_examiner.Prelude.{
  if◌then◌else◌, Bool-cases, Option-cases, All, Dict, lookup, insert, AllValues, Result, ok, err, ℕ,
  ◌+◌, ◌≤◌, String, ◌≡◌, refl, inl, inr, true, false, Option, none, some, List, [], ◌∷◌, arith,
  str_eq,
}
use ai_examiner.Governance.Catalog.{find_entry, estimate_cost, parse_profile}
use ai_examiner.Governance.Policy.{
  internal, confidential, deny, hard, OrganizationModelPolicy, Runtime, ensure_model_policy,
  rule_allows, too_sensitive, profile_allowed,
}
use ai_examiner.Governance.Limiter.{
  no_code, organization_concurrency_limited, RateLimitLease, Admission, limited, broken,
  MemoryModelRateLimiter, org_key, concurrent_key, refusal, counted, acquire, release,
  memory_limiter,
}
use ai_examiner.Governance.Ledger.{
  reserved, completed, ModelUsageLedger, GovernanceDb, ProviderResult, is_reserved, settle_ledger,
}
use ai_examiner.Governance.Quota.{
  Settings, governance_error, Request, total, completed_cost, reserved_cost, quota_reason,
  new_ledger, Fresh, charge,
}
use ai_examiner.Governance.Reserve.{World, reserve_row, admission, limiter_answer}
use ai_examiner.Governance.Call.{allows, CallContext, Round, Provider, request_of, call}
use ai_examiner.Governance.Budget.{committed}
use ai_examiner.Governance.Budget.Charge.{IsWithinBudget}
use ai_examiner.Governance.Budget.Steps.{
  IsOpen, overspent, reserving, settling, Reach, here, next, Reach-IsWithinBudget,
}
use ai_examiner.Governance.OpenRows.{AllClosed}
use ai_examiner.Governance.Closing.{call-closes}
use ai_examiner.Governance.Admission.{
  Event, asked, ended, run, admitted_requests, IsLimited, window_admissions,
}
use ai_examiner.Governance.Admission.Concurrency.{HoldsAtMost, run-HoldsAtMost}
use ai_examiner.Governance.Fallback.{call_uses_allowed}
use ai_examiner.Governance.Usage.{usage_summary, bucket_cost, usage_summary-adds_up}
use ai_examiner.Governance.Outage.{outage_leaks}

abbrev plain : Runtime
plain = record {
  fnmatchcase = str_eq;
  str = λ n. "0";
  digest = λ p. "digest";
  month_start = λ now. 0;
}

abbrev policy : OrganizationModelPolicy
policy = record {
  id = "policy";
  organization_id = "org";
  version = 1;
  allowed_profiles =
      record { provider = some "mock"; model_pattern = some "heuristic-v2"; tasks = none } ∷ [];
  fallback_profiles = [];
  external_provider_max_classification = confidential;
  fallback_mode = deny;
  provider_retention_allowed = false;
  quota_mode = hard;
  monthly_budget_usd = 1000;
  per_session_budget_usd = 0;
  per_request_budget_usd = 500;
  soft_limit_ratio = 800000;
  organization_requests_per_minute = 2;
  principal_requests_per_minute = 2;
  organization_tokens_per_minute = 100;
  max_concurrent_calls = 1;
  policy_digest = "digest";
  updated_by_principal_id = none;
  created_at = 0;
  updated_at = 0;
}

abbrev settings : Settings
settings = record {
  model_reserved_output_tokens = 10;
  model_rate_limit_window_seconds = 60;
  model_concurrency_lease_seconds = 120;
  model_rate_limit_required = true;
}

abbrev db : GovernanceDb
db = record { policies = ("org", policy) ∷ []; ledger = []; audit = [] }

abbrev empty_limiter : MemoryModelRateLimiter
empty_limiter = record { windows = []; leases = [] }

abbrev world : World MemoryModelRateLimiter
world = record { db = db; limiter = empty_limiter; memory = empty_limiter }

abbrev ctx : CallContext
ctx = record {
  organization_id = "org";
  principal_id = none;
  project_id = none;
  session_id = none;
  classification = internal;
  requested_profile = "mock:heuristic-v2";
  agent = "planner";
  request_id = "request";
}

abbrev ids : Fresh
ids = record { ledger_id = "row"; policy_id = "policy2" }

abbrev rounds : ℕ → Round
rounds n = record { fresh = ids; reserved_at = 5; ended_at = 6 }

abbrev answer_text : ProviderResult
answer_text = record {
  provider = "mock";
  model = "heuristic-v2";
  input_tokens = 3;
  output_tokens = 4;
  latency_ms = 0;
  retry_count = 0;
  content = "{}";
}

start-IsWithinBudget : IsWithinBudget policy 0 0 db
unfolding lookup committed total
start-IsWithinBudget = record { current = refl; within = omega arith; unspent = tt }

abbrev reserved_db : GovernanceDb
reserved_db = (reserve_row plain settings ids (request_of ctx 7 "mock:heuristic-v2" false) 5 db).1

reserved_path : Reach plain settings "org" 0 db 0 reserved_db
unfolding lookup
reserved_path = next here (reserving ids (request_of ctx 7 "mock:heuristic-v2" false) 5 refl refl)

-- The provider answers with more tokens than were reserved, and of a dearer model.
abbrev dear_answer : ProviderResult
dear_answer = record answer_text {
  provider = "openai";
  model = "gpt-5.4-mini";
  input_tokens = 1000000;
  output_tokens = 1000000;
}

abbrev reserved_entry : ModelUsageLedger
reserved_entry =
    new_ledger policy (request_of ctx 7 "mock:heuristic-v2" false) "row" "mock" "heuristic-v2" 100
      reserved no_code false 5

entry_found : lookup "row" reserved_db.ledger ≡ some reserved_entry
unfolding reserve_row ensure_model_policy charge new_ledger lookup insert parse_profile
    profile_allowed rule_allows quota_reason estimate_cost find_entry total
entry_found = refl

entry_own : (reserved_entry.id ≡ "row") × (is_reserved reserved_entry.status ≡ true)
unfolding new_ledger
entry_own = (refl, refl)

abbrev open_row : IsOpen "row" reserved_db.ledger
open_row = record {
  row = reserved_entry;
  found = entry_found;
  own = entry_own.0;
  still = entry_own.1;
}

overspends : overspent "org" dear_answer reserved_entry ≡ 524999900
unfolding new_ledger estimate_cost find_entry
overspends = refl

Reach-IsWithinBudget_example :
    IsWithinBudget policy 0
      (0 + overspent "org" dear_answer reserved_entry)
      (settle_ledger "row" dear_answer 6 reserved_db).1
Reach-IsWithinBudget_example =
    Reach-IsWithinBudget plain settings policy 0 refl (omega arith)
      (next reserved_path (settling "row" dear_answer 6 open_row)) start-IsWithinBudget

-- The offline provider works, and any other fails with `message`.
abbrev only_mock : String → Option (String × String) → Result String (ProviderResult × ℕ)
only_mock message none = err message
only_mock message (some (provider, model)) =
    if str_eq "mock" provider then ok (answer_text, 9) else err message

abbrev failing_with : String → Provider
failing_with message profile = only_mock message (parse_profile profile)

call-closes_example :
    AllClosed
      (call
        (memory_limiter plain)
        plain
        settings
        ctx
        7
        (failing_with "down")
        rounds
        ids
        "denial"
        4
        world).1.db
call-closes_example =
    call-closes (memory_limiter plain) plain settings refl ctx 7 (failing_with "down") rounds ids
      "denial" 4 world tt

mock_only :
    (profile : String)
    → allows plain policy "planner" internal profile ≡ some true
    → failing_with "down" profile ≡ failing_with "busy" profile
unfolding allows profile_allowed rule_allows
mock_only profile h = elim (Option-cases (parse_profile profile)) [
  | inl odd ↦ absurd (cc (rw odd at h))
  | inr ((provider, model), parsed) ↦ elim (Bool-cases (str_eq "mock" provider)) [
    | inl mock ↦ rw (parsed, mock) refl
    | inr else_where ↦ elim (Bool-cases (too_sensitive policy provider internal)) [
      | inl shut ↦ absurd (cc (rw (parsed, shut) at h))
      | inr calm ↦ absurd (cc (rw (parsed, calm, else_where) at h))
    ]
  ]
]

call_uses_allowed_example :
    call
      (memory_limiter plain)
      plain
      settings
      ctx
      7
      (failing_with "down")
      rounds
      ids
      "denial"
      4
      world
    ≡ call
        (memory_limiter plain)
        plain
        settings
        ctx
        7
        (failing_with "busy")
        rounds
        ids
        "denial"
        4
        world
unfolding ensure_model_policy lookup
call_uses_allowed_example =
    call_uses_allowed (memory_limiter plain) plain settings ctx 7 (failing_with "down")
      (failing_with "busy") rounds ids "denial" 4 world mock_only

abbrev asks : ℕ → String → Admission
asks now reservation = record {
  organization_id = "org";
  principal_id = none;
  reservation_id = reservation;
  token_units = 30;
  organization_limit = 2;
  principal_limit = 2;
  token_limit = 100;
  concurrent_limit = 1;
  window_seconds = 60;
  lease_seconds = 120;
}

abbrev lease : String → RateLimitLease
lease reservation = record {
  reservation_id = reservation;
  concurrent_key = concurrent_key (asks 0 reservation);
}

abbrev traffic : List Event
traffic =
    asked 1 (asks 1 "r1")
    ∷ asked 2 (asks 2 "r2")
    ∷ ended (lease "r1")
    ∷ asked 3 (asks 3 "r3")
    ∷ asked 4 (asks 4 "r4")
    ∷ []

-- The second request finds the one lease taken, and the fourth the requests spent.
traffic_admitted :
    admitted_requests plain (org_key plain 1 (asks 1 "r1")) empty_limiter traffic ≡ (2, 60)
unfolding admitted_requests acquire release refusal counted lookup insert
traffic_admitted = refl

abbrev WithinLimits : (now : ℕ) (reservation : String) (e : Event) → Type 0
WithinLimits now reservation e = IsLimited plain (org_key plain now (asks now reservation)) 2 100 e

traffic_limited : All (WithinLimits 1 "r1") traffic
traffic_limited =
    let small : (2 ≤ 2) × (100 ≤ 100) = (omega arith, omega arith) in
    (λ _. small, (λ _. small, (tt, (λ _. small, (λ _. small, tt)))))

window_admissions_example :
    let total = admitted_requests plain (org_key plain 1 (asks 1 "r1")) empty_limiter traffic in
    (total.0 ≤ 2) × (total.1 ≤ 100)
window_admissions_example = window_admissions plain 1 (asks 1 "r1") traffic traffic_limited

run-HoldsAtMost_example : AllValues (HoldsAtMost 1) (run plain empty_limiter traffic).leases
run-HoldsAtMost_example =
    run-HoldsAtMost plain 1 empty_limiter traffic
      (omega arith, (omega arith, (tt, (omega arith, (omega arith, tt))))) tt

abbrev row : ModelUsageLedger
row = record {
  id = "row";
  organization_id = "org";
  policy_id = "policy";
  policy_version = 1;
  policy_snapshot_digest = "digest";
  project_id = some "project";
  session_id = none;
  actor_principal_id = none;
  request_id = "request";
  task_type = "planner";
  data_classification = internal;
  requested_profile = "mock:heuristic-v2";
  actual_provider = some "mock";
  actual_model = some "heuristic-v2";
  fallback_from_profile = none;
  status = reserved;
  reservation_cost_usd = 100;
  estimated_cost_usd = 0;
  input_tokens = 0;
  output_tokens = 0;
  latency_ms = 0;
  retry_count = 0;
  rate_limit_scope = "";
  denial_reason = no_code;
  soft_limit_exceeded = false;
  created_at = 5;
  completed_at = none;
}

abbrev done_row : ModelUsageLedger
done_row = record row { id = "row2"; status = completed; estimated_cost_usd = 70 }

abbrev month_rows : Dict ModelUsageLedger
month_rows = ("row", row) ∷ ("row2", done_row) ∷ []

usage_summary-adds_up_example :
    let part = usage_summary plain policy "org" (some "project") 7 month_rows in
    let whole = usage_summary plain policy "org" none 7 month_rows in
    (bucket_cost part.by_profile ≡ part.committed_cost_usd)
    × (bucket_cost part.by_project ≡ part.committed_cost_usd)
    × (bucket_cost part.by_task ≡ part.committed_cost_usd)
    × (whole.committed_cost_usd ≡ completed_cost "org" 0 month_rows)
    × (whole.reserved_cost_usd ≡ reserved_cost "org" 0 month_rows)
usage_summary-adds_up_example =
    usage_summary-adds_up plain policy "org" (some "project") 7 month_rows

-- The memory limiter of the process, where the organization holds its one lease.
abbrev busy : MemoryModelRateLimiter
busy = record { windows = []; leases = ("concurrent:org", ("other", 900000000) ∷ []) ∷ [] }

abbrev outage : World MemoryModelRateLimiter
outage = record {
  db = record { policies = ("org", policy) ∷ []; ledger = ("row", row) ∷ []; audit = [] };
  limiter = empty_limiter;
  memory = busy;
}

abbrev lenient : Settings
lenient = record settings { model_rate_limit_required = false }

abbrev call_request : Request
call_request = request_of ctx 7 "mock:heuristic-v2" false

refused_by_memory :
    acquire plain (admission lenient call_request policy row) 5 busy
    ≡ (limited organization_concurrency_limited 1, busy)
unfolding acquire refusal lookup insert
refused_by_memory = refl

row_found : lookup "row" outage.db.ledger ≡ some row
unfolding lookup
row_found = refl

outage_leaks_example :
    let (answer, w') =
      limiter_answer plain lenient call_request policy row 5 outage (broken, empty_limiter) in
    (answer ≡ err (governance_error organization_concurrency_limited 429 (some 1)))
    × (lookup "row" w'.db.ledger ≡ some row)
outage_leaks_example =
    (outage_leaks (memory_limiter plain) plain lenient refl call_request policy row 5 outage
        empty_limiter row_found).0
      organization_concurrency_limited 1 busy refused_by_memory
