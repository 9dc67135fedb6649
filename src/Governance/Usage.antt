-- ===== src/Governance/Usage.antt =====
-- `usage_summary` of src/ai_examiner/services/model_governance.py: the month of an organization,
-- in total and by profile, project and task. The order of the buckets is left out.
use Prim.Native.String.{◌++◌ as join}
use ai_examiner.Prelude.{
  ltb, if◌then◌else◌, or_default, opt_eq, truthy, length, keep, Dict, lookup, insert, ℕ, ◌+◌, ◌-◌,
  String, ◌≡◌, refl, ◌∙◌, Bool, true, false, ◌&&◌, Option, none, some, List, [], ◌∷◌, ◌++◌, arith,
}
use ai_examiner.Governance.Policy.{OrganizationModelPolicy, Runtime}
use ai_examiner.Governance.Ledger.{
  UsageStatus, completed, failed, denied, ModelUsageLedger, is_reserved, is_accounted,
}
use ai_examiner.Governance.Quota.{total, in_period, completed_cost, reserved_cost}

pub record Bucket : Type 0 where
  pub calls : ℕ
  pub tokens : ℕ
  pub cost_usd : ℕ

abbrev no_calls : Bucket
no_calls = record { calls = 0; tokens = 0; cost_usd = 0 }

-- An entry of a dimension.
unfoldable pub add_entry :
    (ModelUsageLedger → String) → ModelUsageLedger → Dict Bucket → Dict Bucket
add_entry key e buckets =
    let bucket = or_default (lookup (key e) buckets) no_calls in
    insert (key e)
      (record {
        calls = bucket.calls + 1;
        tokens = bucket.tokens + (e.input_tokens + e.output_tokens);
        cost_usd = bucket.cost_usd + e.estimated_cost_usd;
      })
      buckets

unfoldable pub bucketed :
    (ModelUsageLedger → String) → List ModelUsageLedger → Dict Bucket → Dict Bucket
bucketed key [] buckets = buckets
bucketed key (e ∷ es) buckets = bucketed key es (add_entry key e buckets)

abbrev shown : Option String → String
shown none = "None"
shown (some s) = s

abbrev pub profile_key : ModelUsageLedger → String
profile_key e = join (shown e.actual_provider) (join ":" (shown e.actual_model))

-- `entry.project_id or "unassigned"`
abbrev pub project_key : ModelUsageLedger → String
project_key e = if truthy e.project_id then shown e.project_id else "unassigned"

abbrev is_completed : UsageStatus → Bool
is_completed completed = true
is_completed _ = false

abbrev is_failed : UsageStatus → Bool
is_failed failed = true
is_failed _ = false

abbrev is_denied : UsageStatus → Bool
is_denied denied = true
is_denied _ = false

abbrev pub sum : (ModelUsageLedger → ℕ) → List ModelUsageLedger → ℕ
sum amount [] = 0
sum amount (e ∷ es) = amount e + sum amount es

abbrev values : Dict ModelUsageLedger → List ModelUsageLedger
values [] = []
values ((k, e) ∷ rows) = e ∷ values rows

abbrev in_project : Option String → ModelUsageLedger → Bool
in_project project_id e = if truthy project_id then opt_eq e.project_id project_id else true

pub record UsageSummary : Type 0 where
  pub committed_cost_usd : ℕ
  pub reserved_cost_usd : ℕ
  pub remaining_budget_usd : Option ℕ
  pub completed_calls : ℕ
  pub failed_calls : ℕ
  pub reserved_calls : ℕ
  pub denied_calls : ℕ
  pub input_tokens : ℕ
  pub output_tokens : ℕ
  pub by_profile : Dict Bucket
  pub by_project : Dict Bucket
  pub by_task : Dict Bucket

-- The rows of the month, of one project if one is named.
abbrev pub entries_of :
    Runtime → String → Option String → ℕ → Dict ModelUsageLedger → List ModelUsageLedger
entries_of rt organization_id project_id now rows =
    keep (λ e. in_period organization_id (rt.month_start now) e && in_project project_id e)
      (values rows)

abbrev having : (UsageStatus → Bool) → List ModelUsageLedger → List ModelUsageLedger
having test es = keep (λ e. test e.status) es

unfoldable pub usage_summary :
    Runtime
    → OrganizationModelPolicy
    → String
    → Option String
    → ℕ
    → Dict ModelUsageLedger
    → UsageSummary
usage_summary rt policy organization_id project_id now rows =
    let entries = entries_of rt organization_id project_id now rows in
    let done = having is_completed entries in
    let accounted = done ++ having is_failed entries in
    let cost = sum (λ e. e.estimated_cost_usd) accounted in
    let reserved_usd = sum (λ e. e.reservation_cost_usd) (having is_reserved entries) in
    record {
      committed_cost_usd = cost;
      reserved_cost_usd = reserved_usd;
      remaining_budget_usd =
          if ltb 0 policy.monthly_budget_usd
          then some (policy.monthly_budget_usd - cost - reserved_usd)
          else none;
      completed_calls = length done;
      failed_calls = length (having is_failed entries);
      reserved_calls = length (having is_reserved entries);
      denied_calls = length (having is_denied entries);
      input_tokens = sum (λ e. e.input_tokens) done;
      output_tokens = sum (λ e. e.output_tokens) done;
      by_profile = bucketed profile_key accounted [];
      by_project = bucketed project_key accounted [];
      by_task = bucketed (λ e. e.task_type) accounted [];
    }

-- The cost of all the buckets of a dimension.
unfoldable pub bucket_cost : Dict Bucket → ℕ
bucket_cost [] = 0
bucket_cost ((k, b) ∷ buckets) = b.cost_usd + bucket_cost buckets

bucket_cost-insert :
    (k : String) (b : Bucket) (buckets : Dict Bucket)
    → bucket_cost (insert k b buckets) + (or_default (lookup k buckets) no_calls).cost_usd
      ≡ bucket_cost buckets + b.cost_usd
unfolding bucket_cost lookup insert
bucket_cost-insert k b [] = omega arith
bucket_cost-insert k b ((j, c) ∷ buckets) = ground (arith, bucket_cost-insert k b buckets)

bucketed_cost :
    (key : ModelUsageLedger → String) (es : List ModelUsageLedger) (buckets : Dict Bucket)
    → bucket_cost (bucketed key es buckets)
      ≡ bucket_cost buckets + sum (λ e. e.estimated_cost_usd) es
unfolding bucketed add_entry
bucketed_cost key [] buckets = omega arith
bucketed_cost key (e ∷ es) buckets =
    omega
      (arith, bucketed_cost key es (add_entry key e buckets), bucket_cost-insert (key e) _ buckets)

all_buckets_cost :
    (key : ModelUsageLedger → String) (es : List ModelUsageLedger)
    → bucket_cost (bucketed key es []) ≡ sum (λ e. e.estimated_cost_usd) es
unfolding bucket_cost
all_buckets_cost key es = omega (arith, bucketed_cost key es [])

sum-append :
    (amount : ModelUsageLedger → ℕ) (xs ys : List ModelUsageLedger)
    → sum amount (xs ++ ys) ≡ sum amount xs + sum amount ys
sum-append amount [] ys = omega arith
sum-append amount (x ∷ xs) ys = omega (arith, sum-append amount xs ys)

accounted-total :
    (amount : ModelUsageLedger → ℕ) (test : ModelUsageLedger → Bool) (rows : Dict ModelUsageLedger)
    → sum amount (having is_completed (keep test (values rows)))
        + sum amount (having is_failed (keep test (values rows)))
      ≡ total amount (λ e. test e && is_accounted e.status) rows
unfolding total
accounted-total amount test [] = refl
accounted-total amount test ((k, e) ∷ rows) = ground (arith, accounted-total amount test rows)

reserved-total :
    (amount : ModelUsageLedger → ℕ) (test : ModelUsageLedger → Bool) (rows : Dict ModelUsageLedger)
    → sum amount (having is_reserved (keep test (values rows)))
      ≡ total amount (λ e. test e && is_reserved e.status) rows
unfolding total
reserved-total amount test [] = refl
reserved-total amount test ((k, e) ∷ rows) = ground (arith, reserved-total amount test rows)

total-agrees :
    (amount : ModelUsageLedger → ℕ) (p q : ModelUsageLedger → Bool) (rows : Dict ModelUsageLedger)
    → ((e : ModelUsageLedger) → p e ≡ q e)
    → total amount p rows ≡ total amount q rows
unfolding total
total-agrees amount p q [] same = refl
total-agrees amount p q ((k, e) ∷ rows) same =
    ground (arith, total-agrees amount p q rows same, same e)

-- The costs of the buckets of each dimension add up to the committed cost; and the summary of a
-- whole organization reports, committed and reserved, the sums that `reserve` holds against the
-- monthly budget.
pub usage_summary-adds_up :
    (rt : Runtime) (policy : OrganizationModelPolicy) (organization_id : String)
    (project_id : Option String) (now : ℕ) (rows : Dict ModelUsageLedger)
    → let part = usage_summary rt policy organization_id project_id now rows in
      let whole = usage_summary rt policy organization_id none now rows in
      (bucket_cost part.by_profile ≡ part.committed_cost_usd)
      × (bucket_cost part.by_project ≡ part.committed_cost_usd)
      × (bucket_cost part.by_task ≡ part.committed_cost_usd)
      × (whole.committed_cost_usd ≡ completed_cost organization_id (rt.month_start now) rows)
      × (whole.reserved_cost_usd ≡ reserved_cost organization_id (rt.month_start now) rows)
unfolding usage_summary bucket_cost
usage_summary-adds_up rt policy organization_id project_id now rows =
    let start = rt.month_start now in
    let entries = entries_of rt organization_id project_id now rows in
    let accounted = having is_completed entries ++ having is_failed entries in
    let all = entries_of rt organization_id none now rows in
    let month = λ (e : ModelUsageLedger). in_period organization_id start e && true in
    let cost = λ (e : ModelUsageLedger). e.estimated_cost_usd in
    let reservation = λ (e : ModelUsageLedger). e.reservation_cost_usd in
    (
      all_buckets_cost profile_key accounted,
      all_buckets_cost project_key accounted,
      all_buckets_cost (λ e. e.task_type) accounted,
      sum-append cost (having is_completed all) (having is_failed all)
          ∙ accounted-total cost month rows
          ∙ total-agrees cost (λ e. month e && is_accounted e.status)
              (λ e. in_period organization_id start e && is_accounted e.status) rows
              (λ e. ground arith),
      reserved-total reservation month rows
          ∙ total-agrees reservation (λ e. month e && is_reserved e.status)
              (λ e. in_period organization_id start e && is_reserved e.status) rows
              (λ e. ground arith),
    )
