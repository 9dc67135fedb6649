-- ===== src/Governance/Call.antt =====
-- `ModelGovernanceService.candidates` and `GovernedModelProvider._call` of
-- src/ai_examiner/services/model_governance.py. The providers are arguments.
use ai_examiner.Prelude.{
  ltb, ◌==◌, if◌then◌else◌, keep, Result, ok, err, ℕ, suc, ◌+◌, ◌/◌, max, String, Bool, true, false,
  not, Option, none, some, List, [], ◌∷◌, str_eq,
}
use ai_examiner.Governance.Policy.{
  Classification, FallbackMode, deny, ordered, OrganizationModelPolicy, Runtime,
  ensure_model_policy, profile_allowed,
}
use ai_examiner.Governance.Catalog.{parse_profile}
use ai_examiner.Governance.Limiter.{Code, model_policy_denied, RateLimiter}
use ai_examiner.Governance.Ledger.{
  denied, ModelUsageLedger, GovernanceDb, ProviderResult, put_denied,
}
use ai_examiner.Governance.Quota.{
  Settings, GovernanceError, governance_error, value_error, provider_error, Request, Fresh,
}
use ai_examiner.Governance.Reserve.{World, UsageReservation, reserve, settle, fail}

-- `dict.fromkeys`: the first occurrence of each.
unfoldable pub fromkeys : List String → List String
fromkeys [] = []
fromkeys (x ∷ xs) = x ∷ keep (λ y. not (str_eq x y)) (fromkeys xs)

abbrev is_ordered : FallbackMode → Bool
is_ordered ordered = true
is_ordered deny = false

abbrev pub parsed_allowed :
    Runtime
    → OrganizationModelPolicy
    → String
    → Classification
    → Option (String × String)
    → Option Bool
parsed_allowed rt policy task_type classification none = none
parsed_allowed rt policy task_type classification (some (provider, model)) =
    some (profile_allowed rt policy provider model task_type classification)

-- The call of `_profile_allowed`, or `none` where its parsing raises.
unfoldable pub allows :
    Runtime → OrganizationModelPolicy → String → Classification → String → Option Bool
allows rt policy task_type classification profile =
    parsed_allowed rt policy task_type classification (parse_profile profile)

abbrev pub keep_one : String → Option Bool → Option (List String) → Option (List String)
keep_one profile none rest = none
keep_one profile (some b) none = none
keep_one profile (some b) (some rest) = some (if b then profile ∷ rest else rest)

-- The comprehension of `candidates`, or `none` where one of its profiles cannot be parsed.
unfoldable pub allowed_of : (String → Option Bool) → List String → Option (List String)
allowed_of test [] = some []
allowed_of test (profile ∷ profiles) = keep_one profile (test profile) (allowed_of test profiles)

abbrev pub wanted : String → OrganizationModelPolicy → List String
wanted requested policy =
    if is_ordered policy.fallback_mode
    then fromkeys (requested ∷ policy.fallback_profiles)
    else fromkeys (requested ∷ [])

abbrev pub starts_with : String → List String → Bool
starts_with requested [] = false
starts_with requested (profile ∷ profiles) = str_eq profile requested

-- The arguments of `_call` that its calls share.
pub record CallContext : Type 0 where
  pub organization_id : String
  pub principal_id : Option String
  pub project_id : Option String
  pub session_id : Option String
  pub classification : Classification
  pub requested_profile : String
  pub agent : String
  pub request_id : String

-- The row of `_record_denial`.
abbrev pub denial_row :
    CallContext → OrganizationModelPolicy → (id request_id : String) → Code → ℕ → ModelUsageLedger
denial_row ctx policy id request_id reason now = record {
  id = id;
  organization_id = ctx.organization_id;
  policy_id = policy.id;
  policy_version = policy.version;
  policy_snapshot_digest = policy.policy_digest;
  project_id = none;
  session_id = none;
  actor_principal_id = ctx.principal_id;
  request_id = request_id;
  task_type = ctx.agent;
  data_classification = ctx.classification;
  requested_profile = ctx.requested_profile;
  actual_provider = none;
  actual_model = none;
  fallback_from_profile = none;
  status = denied;
  reservation_cost_usd = 0;
  estimated_cost_usd = 0;
  input_tokens = 0;
  output_tokens = 0;
  latency_ms = 0;
  retry_count = 0;
  rate_limit_scope = "";
  denial_reason = reason;
  soft_limit_exceeded = false;
  created_at = now;
  completed_at = some now;
}

abbrev pub chosen :
    CallContext
    → Fresh
    → String
    → ℕ
    → OrganizationModelPolicy
    → GovernanceDb
    → Option (List String)
    → Result GovernanceError (List String) × GovernanceDb
chosen ctx fresh denial_id now policy db none = (err value_error, db)
chosen ctx fresh denial_id now policy db (some profiles) =
    if starts_with ctx.requested_profile profiles then (ok profiles, db) else (
      err (governance_error model_policy_denied 403 none),
      put_denied (denial_row ctx policy fresh.ledger_id denial_id model_policy_denied now)
          model_policy_denied db,
    )

-- `candidates`; `denial_id` is the request identifier that `_record_denial` draws.
unfoldable pub candidates :
    Runtime
    → CallContext
    → Fresh
    → String
    → ℕ
    → GovernanceDb
    → Result GovernanceError (List String) × GovernanceDb
candidates rt ctx fresh denial_id now db =
    let ensured =
      ensure_model_policy rt fresh.policy_id ctx.organization_id ctx.principal_id now db.policies in
    chosen ctx fresh denial_id now ensured.0 (record db { policies = ensured.1 })
      (allowed_of (allows rt ensured.0 ctx.agent ctx.classification)
        (wanted ctx.requested_profile ensured.0))

-- `_input_token_estimate`, from the lengths of the instructions and of the payload's JSON text.
abbrev pub input_token_estimate : (instructions payload : ℕ) → ℕ
input_token_estimate instructions payload = max 1 ((instructions + payload + 3) / 4)

-- One round of the loop: its identifiers, and the clock at its reservation and at its end.
pub record Round : Type 0 where
  pub fresh : Fresh
  pub reserved_at : ℕ
  pub ended_at : ℕ

-- A provider, built and called: what it raises, or its result with the elapsed milliseconds.
abbrev pub Provider : Type 0
Provider = String → Result String (ProviderResult × ℕ)

abbrev timed : ProviderResult × ℕ → ProviderResult
timed (result, elapsed) =
    if result.latency_ms == 0 then record result { latency_ms = max 1 elapsed } else result

abbrev pub request_of : CallContext → ℕ → String → Bool → Request
request_of ctx token_units profile fallback = record {
  organization_id = ctx.organization_id;
  principal_id = ctx.principal_id;
  project_id = ctx.project_id;
  session_id = ctx.session_id;
  requested_profile = ctx.requested_profile;
  candidate_profile = profile;
  fallback_from_profile = if fallback then some ctx.requested_profile else none;
  task_type = ctx.agent;
  classification = ctx.classification;
  token_units = token_units;
  request_id = ctx.request_id;
}

abbrev pub returned :
    {S : Type 0}
    → ProviderResult
    → Result GovernanceError (Unit {0}) × World S
    → Result GovernanceError ProviderResult × World S
returned result (ok _, w) = (ok result, w)
returned result (err e, w) = (err e, w)

module _ {S : Type 0} (limiter : RateLimiter S) (rt : Runtime) (settings : Settings)
    (ctx : CallContext) (token_units : ℕ) (provider : Provider) (rounds : ℕ → Round) where
  -- What follows a reservation: the provider's result is settled, its failure is recorded and
  -- the next candidate is tried.
  abbrev pub attempted :
      ℕ
      → (GovernanceError → World S → Result GovernanceError ProviderResult × World S)
      → UsageReservation
      → Result String (ProviderResult × ℕ)
      → World S
      → Result GovernanceError ProviderResult × World S
  attempted index next r (err raised) w =
      next (provider_error raised) (fail limiter rt settings r (rounds index).ended_at w)
  attempted index next r (ok result) w =
      returned (timed result)
        (settle limiter rt settings r (timed result) (rounds index).ended_at w)

  abbrev pub after_reserve :
      ℕ
      → (GovernanceError → World S → Result GovernanceError ProviderResult × World S)
      → String
      → Result GovernanceError UsageReservation × World S
      → Result GovernanceError ProviderResult × World S
  after_reserve index next profile (err e, w) = (err e, w)
  after_reserve index next profile (ok r, w) = attempted index next r (provider profile) w

  unfoldable pub call_loop :
      List String
      → ℕ
      → Option GovernanceError
      → World S
      → Result GovernanceError ProviderResult × World S
  call_loop [] index none w = (err (governance_error model_policy_denied 403 none), w)
  call_loop [] index (some last_error) w = (err last_error, w)
  call_loop (profile ∷ profiles) index last_error w =
      after_reserve index (λ e. call_loop profiles (suc index) (some e)) profile
        (reserve limiter rt settings (rounds index).fresh
          (request_of ctx token_units profile (ltb 0 index)) (rounds index).reserved_at w)

  abbrev pub with_candidates :
      World S
      → Result GovernanceError (List String) × GovernanceDb
      → Result GovernanceError ProviderResult × World S
  with_candidates w (err e, db) = (err e, record w { db = db })
  with_candidates w (ok profiles, db) = call_loop profiles 0 none (record w { db = db })

  -- `_call`
  unfoldable pub call :
      Fresh → String → ℕ → World S → Result GovernanceError ProviderResult × World S
  call fresh denial_id now w = with_candidates w (candidates rt ctx fresh denial_id now w.db)
