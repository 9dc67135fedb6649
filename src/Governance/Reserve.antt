-- ===== src/Governance/Reserve.antt =====
-- `reserve`, `settle` and `fail` of `ModelGovernanceService` in
-- src/ai_examiner/services/model_governance.py, and the two limiters that `_reserve_locked` asks.
-- The lock of `reserve` makes one call of it at a time; `uuid4` and the clock are arguments.
use ai_examiner.Prelude.{
  if◌then◌else◌, truthy, Dict, Result, ok, err, ℕ, String, Bool, true, false, Option, none, some,
}
use ai_examiner.Governance.Policy.{
  OrganizationModelPolicy, Runtime, ensure_model_policy, profile_allowed,
}
use ai_examiner.Governance.Limiter.{
  model_policy_changed, rate_limiter_unavailable, RateLimitLease, Admission, Admitted, granted,
  limited, broken, RateLimiter, MemoryModelRateLimiter, acquire,
}
use ai_examiner.Governance.Catalog.{parse_profile}
use ai_examiner.Governance.Quota.{
  Settings, GovernanceError, governance_error, value_error, runtime_error, Request, Fresh,
  reservation_cost, charge,
}
use ai_examiner.Governance.Ledger.{
  ModelUsageLedger, GovernanceDb, ProviderResult, deny_reserved, settle_ledger, fail_ledger,
}

-- The service's database, its limiter, and `_MEMORY_RATE_LIMITER`.
pub record World (S : Type 0) : Type 0 where
  pub db : GovernanceDb
  pub limiter : S
  pub memory : MemoryModelRateLimiter

pub record UsageReservation : Type 0 where
  pub ledger_id : String
  pub lease : RateLimitLease
  pub profile : String
  pub organization_id : String
  pub principal_id : Option String

abbrev pub with_row :
    OrganizationModelPolicy
    → Result GovernanceError ModelUsageLedger × GovernanceDb
    → Result GovernanceError (OrganizationModelPolicy × ModelUsageLedger) × GovernanceDb
with_row policy (ok row, db) = (ok (policy, row), db)
with_row policy (err e, db) = (err e, db)

abbrev pub charge_allowed :
    Runtime
    → Settings
    → Fresh
    → Request
    → ℕ
    → Option (String × String)
    → OrganizationModelPolicy × Dict OrganizationModelPolicy
    → GovernanceDb
    → Result GovernanceError (OrganizationModelPolicy × ModelUsageLedger) × GovernanceDb
charge_allowed rt settings fresh req now none ensured db = (err value_error, db)
charge_allowed rt settings fresh req now (some (provider, model)) (policy, policies) db =
    if profile_allowed rt policy provider model req.task_type req.classification
    then with_row policy (
        charge rt req policy fresh.ledger_id provider model
          (reservation_cost settings provider model req.token_units) now
          (record db { policies = policies }))
    else (err (governance_error model_policy_changed 403 none), db)

-- The transaction of `_reserve_locked`. The refusal of the policy rolls back.
unfoldable pub reserve_row :
    Runtime
    → Settings
    → Fresh
    → Request
    → ℕ
    → GovernanceDb
    → Result GovernanceError (OrganizationModelPolicy × ModelUsageLedger) × GovernanceDb
reserve_row rt settings fresh req now db =
    charge_allowed rt settings fresh req now (parse_profile req.candidate_profile)
      (ensure_model_policy rt fresh.policy_id req.organization_id req.principal_id now db.policies)
      db

abbrev pub admission : Settings → Request → OrganizationModelPolicy → ModelUsageLedger → Admission
admission settings req policy row = record {
  organization_id = req.organization_id;
  principal_id = req.principal_id;
  reservation_id = row.id;
  token_units = req.token_units;
  organization_limit = policy.organization_requests_per_minute;
  principal_limit =
      if truthy req.principal_id
      then policy.principal_requests_per_minute
      else policy.organization_requests_per_minute;
  token_limit = policy.organization_tokens_per_minute;
  concurrent_limit = policy.max_concurrent_calls;
  window_seconds = settings.model_rate_limit_window_seconds;
  lease_seconds = settings.model_concurrency_lease_seconds;
}

abbrev pub reservation_of : Request → ModelUsageLedger → RateLimitLease → UsageReservation
reservation_of req row lease = record {
  ledger_id = row.id;
  lease = lease;
  profile = req.candidate_profile;
  organization_id = req.organization_id;
  principal_id = req.principal_id;
}

-- The answer of `_MEMORY_RATE_LIMITER`, which never breaks; its refusal is raised as it is.
abbrev pub memory_answer :
    {S : Type 0}
    → Request
    → ModelUsageLedger
    → World S
    → Admitted × MemoryModelRateLimiter
    → Result GovernanceError UsageReservation × World S
memory_answer req row w (granted lease, memory) =
    (ok (reservation_of req row lease), record w { memory = memory })
memory_answer req row w (limited code wait, memory) =
    (err (governance_error code 429 (some wait)), record w { memory = memory })
memory_answer req row w (broken, memory) = (err runtime_error, record w { memory = memory })

-- What `_reserve_locked` makes of its limiter's answer.
abbrev pub limiter_answer :
    {S : Type 0}
    → Runtime
    → Settings
    → Request
    → OrganizationModelPolicy
    → ModelUsageLedger
    → ℕ
    → World S
    → Admitted × S
    → Result GovernanceError UsageReservation × World S
limiter_answer rt settings req policy row now w (granted lease, s) =
    (ok (reservation_of req row lease), record w { limiter = s })
limiter_answer rt settings req policy row now w (limited code wait, s) = (
  err (governance_error code 429 (some wait)),
  record w { db = deny_reserved row.id code now w.db; limiter = s },
)
limiter_answer rt settings req policy row now w (broken, s) =
    if settings.model_rate_limit_required
    then (
      err (governance_error rate_limiter_unavailable 503 none),
      record w { db = deny_reserved row.id rate_limiter_unavailable now w.db; limiter = s },
    )
    else memory_answer req row (record w { limiter = s })
        (acquire rt (admission settings req policy row) now w.memory)

module _ {S : Type 0} (limiter : RateLimiter S) (rt : Runtime) (settings : Settings) where
  abbrev pub admit :
      Request
      → ℕ
      → World S
      → Result GovernanceError (OrganizationModelPolicy × ModelUsageLedger) × GovernanceDb
      → Result GovernanceError UsageReservation × World S
  admit req now w (err e, db) = (err e, record w { db = db })
  admit req now w (ok (policy, row), db) =
      limiter_answer rt settings req policy row now (record w { db = db })
        (limiter.acquire (admission settings req policy row) now w.limiter)

  unfoldable pub reserve :
      Fresh → Request → ℕ → World S → Result GovernanceError UsageReservation × World S
  reserve fresh req now w = admit req now w (reserve_row rt settings fresh req now w.db)

  abbrev pub raise_missing : Bool → World S → Result GovernanceError (Unit {0}) × World S
  raise_missing true w = (ok tt, w)
  raise_missing false w = (err runtime_error, w)

  -- The lease is given back whether the row was there or not.
  unfoldable pub settle :
      UsageReservation → ProviderResult → ℕ → World S → Result GovernanceError (Unit {0}) × World S
  settle reservation result now w =
      let (there, db) = settle_ledger reservation.ledger_id result now w.db in
      raise_missing there
        (record w { db = db; limiter = limiter.release reservation.lease w.limiter })

  unfoldable pub fail : UsageReservation → ℕ → World S → World S
  fail reservation now w = record w {
    db = fail_ledger reservation.ledger_id now w.db;
    limiter = limiter.release reservation.lease w.limiter;
  }
