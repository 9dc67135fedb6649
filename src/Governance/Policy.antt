-- ===== src/Governance/Policy.antt =====
-- `OrganizationModelPolicy` of models.py and the policy functions of
-- src/ai_examiner/services/model_governance.py. A ratio is a number of millionths.
use ai_examiner.Prelude.{
  ltb, if◌then◌else◌, or_default, opt_eq, exists, contains, Dict, lookup, insert, ℕ, ◌+◌, String,
  Bool, false, ◌&&◌, ◌||◌, Option, none, some, List, [], ◌∷◌, ◌++◌, map,
}
use ai_examiner.Governance.Catalog.{ModelCatalogEntry, catalog}

pub data Classification : Type 0 where
  public internal confidential restricted : Classification

pub data FallbackMode : Type 0 where
  deny ordered : FallbackMode

pub data QuotaMode : Type 0 where
  soft hard : QuotaMode

-- An entry of `allowed_profiles_json`; a missing key is `none`.
pub record ProfileRule : Type 0 where
  pub provider : Option String
  pub model_pattern : Option String
  pub tasks : Option (List String)

pub record OrganizationModelPolicy : Type 0 where
  pub id : String
  pub organization_id : String
  pub version : ℕ
  pub allowed_profiles : List ProfileRule
  pub fallback_profiles : List String
  pub external_provider_max_classification : Classification
  pub fallback_mode : FallbackMode
  pub provider_retention_allowed : Bool
  pub quota_mode : QuotaMode
  pub monthly_budget_usd : ℕ
  pub per_session_budget_usd : ℕ
  pub per_request_budget_usd : ℕ
  pub soft_limit_ratio : ℕ
  pub organization_requests_per_minute : ℕ
  pub principal_requests_per_minute : ℕ
  pub organization_tokens_per_minute : ℕ
  pub max_concurrent_calls : ℕ
  pub policy_digest : String
  pub updated_by_principal_id : Option String
  pub created_at : ℕ
  pub updated_at : ℕ

-- What the source calls in its libraries: `fnmatchcase`, `str()` on a number, the SHA-256 of the
-- canonical JSON of a policy snapshot, and `now.replace(day=1, ...)`.
pub record Runtime : Type 0 where
  pub fnmatchcase : String → String → Bool
  pub str : ℕ → String
  pub digest : OrganizationModelPolicy → String
  pub month_start : ℕ → ℕ

-- `CLASSIFICATION_ORDER`
abbrev pub classification_order : Classification → ℕ
classification_order public = 0
classification_order internal = 1
classification_order confidential = 2
classification_order restricted = 3

-- `EXTERNAL_PROVIDERS`
abbrev pub external_providers : List String
external_providers = "openai" ∷ "anthropic" ∷ "gemini" ∷ "qwen" ∷ []

-- `TASK_FAMILY_ALIASES`
abbrev task_family_aliases : Dict String
task_family_aliases =
    ("session_planner", "planner")
    ∷ ("answer_analyzer", "analyzer")
    ∷ ("report_generator", "reporter")
    ∷ []

abbrev any_task : ModelCatalogEntry → ProfileRule
any_task e = record {
  provider = some e.provider;
  model_pattern = some e.model;
  tasks = some ("*" ∷ []);
}

abbrev voice_rule : String → String → ProfileRule
voice_rule provider pattern = record {
  provider = some provider;
  model_pattern = some pattern;
  tasks = some ("voice" ∷ []);
}

-- `_default_allowed_profiles`
pub default_allowed_profiles : List ProfileRule
default_allowed_profiles =
    map any_task catalog
    ++ voice_rule "openai" "gpt-realtime-*" ∷ voice_rule "qwen" "qwen*-realtime" ∷ []

-- The digest covers the snapshot without `policy_digest` and `updated_at`.
pub effective_policy_digest : Runtime → OrganizationModelPolicy → String
effective_policy_digest rt policy = rt.digest (record policy { policy_digest = ""; updated_at = 0 })

abbrev default_policy :
    Runtime → (id organization_id : String) → Option String → ℕ → OrganizationModelPolicy
default_policy rt id organization_id principal_id now =
    let policy : OrganizationModelPolicy = record {
      id = id;
      organization_id = organization_id;
      version = 1;
      allowed_profiles = default_allowed_profiles;
      fallback_profiles = [];
      external_provider_max_classification = confidential;
      fallback_mode = deny;
      provider_retention_allowed = false;
      quota_mode = hard;
      monthly_budget_usd = 50000000000;
      per_session_budget_usd = 400000000;
      per_request_budget_usd = 100000000;
      soft_limit_ratio = 800000;
      organization_requests_per_minute = 120;
      principal_requests_per_minute = 30;
      organization_tokens_per_minute = 500000;
      max_concurrent_calls = 3;
      policy_digest = "";
      updated_by_principal_id = principal_id;
      created_at = now;
      updated_at = now;
    } in
    record policy { policy_digest = effective_policy_digest rt policy }

abbrev ensured :
    OrganizationModelPolicy
    → Option OrganizationModelPolicy
    → Dict OrganizationModelPolicy
    → OrganizationModelPolicy × Dict OrganizationModelPolicy
ensured fresh (some policy) policies = (policy, policies)
ensured fresh none policies = (fresh, insert fresh.organization_id fresh policies)

-- The policies are keyed by their organization, which is unique. `id` is the fresh identifier.
unfoldable pub ensure_model_policy :
    Runtime
    → (id organization_id : String) → Option String
    → ℕ
    → Dict OrganizationModelPolicy
    → OrganizationModelPolicy × Dict OrganizationModelPolicy
ensure_model_policy rt id organization_id principal_id now policies =
    ensured (default_policy rt id organization_id principal_id now)
      (lookup organization_id policies) policies

-- `values` assigns the fields that the request names.
unfoldable pub update_model_policy :
    Runtime
    → OrganizationModelPolicy
    → (OrganizationModelPolicy → OrganizationModelPolicy)
    → Option String
    → ℕ
    → Dict OrganizationModelPolicy
    → OrganizationModelPolicy × Dict OrganizationModelPolicy
update_model_policy rt policy values principal_id now policies =
    let assigned = values policy in
    let next = record assigned {
      version = assigned.version + 1;
      updated_by_principal_id = principal_id;
      updated_at = now;
    } in
    let final = record next { policy_digest = effective_policy_digest rt next } in
    (final, insert final.organization_id final policies)

-- `rule.get("tasks") or ["*"]`
abbrev rule_tasks : Option (List String) → List String
rule_tasks none = "*" ∷ []
rule_tasks (some []) = "*" ∷ []
rule_tasks (some tasks) = tasks

abbrev alias_in : Option String → List String → Bool
alias_in none tasks = false
alias_in (some name) tasks = contains tasks name

unfoldable pub rule_allows : Runtime → String → String → String → ProfileRule → Bool
rule_allows rt provider model task_type rule =
    opt_eq rule.provider (some provider)
    && (rt.fnmatchcase model (or_default rule.model_pattern "")
        && (contains (rule_tasks rule.tasks) "*"
            || (contains (rule_tasks rule.tasks) task_type
                || alias_in (lookup task_type task_family_aliases) (rule_tasks rule.tasks))))

abbrev pub too_sensitive : OrganizationModelPolicy → String → Classification → Bool
too_sensitive policy provider classification =
    contains external_providers provider
    && ltb (classification_order policy.external_provider_max_classification)
        (classification_order classification)

-- `_profile_allowed` behind its parsing.
unfoldable pub profile_allowed :
    Runtime → OrganizationModelPolicy → String → String → String → Classification → Bool
profile_allowed rt policy provider model task_type classification =
    if too_sensitive policy provider classification
    then false
    else exists (rule_allows rt provider model task_type) policy.allowed_profiles
