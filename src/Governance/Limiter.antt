-- ===== src/Governance/Limiter.antt =====
-- `MemoryModelRateLimiter` of src/ai_examiner/services/model_governance.py, and the interface that
-- the service uses a limiter by. A time is a number of microseconds; the clock is read once.
use ai_examiner.Prelude.{
  ltb, leb, if◌then◌else◌, or_default, length, keep, Dict, lookup, insert, ℕ, ◌+◌, ◌-◌, ◌*◌, ◌/◌,
  ◌%◌, String, not, Option, none, some, [], str_eq,
}
use Prim.Native.String.{◌++◌ as join}
use ai_examiner.Governance.Policy.{Runtime}

-- The codes of `ModelGovernanceError`; `no_code` is the empty text and `provider_failure` the
-- reason of a failed call, both of which only the ledger holds.
pub data Code : Type 0 where
  no_code provider_failure : Code
  model_policy_denied model_policy_changed : Code
  per_request_quota_exceeded monthly_quota_exceeded session_quota_exceeded : Code
  organization_rate_limited principal_rate_limited : Code
  organization_token_rate_limited organization_concurrency_limited : Code
  rate_limiter_unavailable : Code

pub record RateLimitLease : Type 0 where
  pub reservation_id : String
  pub concurrent_key : String

-- The arguments of `acquire`.
pub record Admission : Type 0 where
  pub organization_id : String
  pub principal_id : Option String
  pub reservation_id : String
  pub token_units : ℕ
  pub organization_limit : ℕ
  pub principal_limit : ℕ
  pub token_limit : ℕ
  pub concurrent_limit : ℕ
  pub window_seconds : ℕ
  pub lease_seconds : ℕ

-- A lease, a refusal with its `retry_after`, or any other exception.
pub data Admitted : Type 0 where
  granted : RateLimitLease → Admitted
  limited : Code → ℕ → Admitted
  broken : Admitted

-- What `ModelGovernanceService` does with its limiter.
pub record RateLimiter (S : Type 0) : Type 0 where
  pub acquire : Admission → ℕ → S → Admitted × S
  pub release : RateLimitLease → S → S

-- A window: requests, token units.
pub record MemoryModelRateLimiter : Type 0 where
  pub windows : Dict (ℕ × ℕ)
  pub leases : Dict (Dict ℕ)

abbrev pub window_of : ℕ → Admission → ℕ
window_of now a = now / 1000000 / a.window_seconds

abbrev pub org_key : Runtime → ℕ → Admission → String
org_key rt now a = join "org:" (join a.organization_id (join ":" (rt.str (window_of now a))))

-- `principal_id or 'anonymous'`
abbrev principal_name : Option String → String
principal_name none = "anonymous"
principal_name (some p) = if str_eq p "" then "anonymous" else p

abbrev pub principal_key : Runtime → ℕ → Admission → String
principal_key rt now a = join "principal:" (
    join a.organization_id
      (join ":" (join (principal_name a.principal_id) (join ":" (rt.str (window_of now a))))))

abbrev pub concurrent_key : Admission → String
concurrent_key a = join "concurrent:" a.organization_id

abbrev pub usage : String → Dict (ℕ × ℕ) → ℕ × ℕ
usage key windows = or_default (lookup key windows) (0, 0)

-- The leases that have not expired.
abbrev pub live : ℕ → Dict ℕ → Dict ℕ
live now leases = keep (λ lease. ltb now lease.1) leases

abbrev retry_after : ℕ → Admission → ℕ
retry_after now a = a.window_seconds - now / 1000000 % a.window_seconds

-- The tests of `acquire`, in their order.
unfoldable pub refusal : ℕ → Admission → (org principal : ℕ × ℕ) → Dict ℕ → Option (Code × ℕ)
refusal now a org principal leases =
    if leb a.organization_limit org.0
    then some (organization_rate_limited, retry_after now a)
    else (if leb a.principal_limit principal.0
        then some (principal_rate_limited, retry_after now a)
        else (if ltb a.token_limit (org.1 + a.token_units)
            then some (organization_token_rate_limited, retry_after now a)
            else (if leb a.concurrent_limit (length leases)
                then some (organization_concurrency_limited, 1)
                else none)))

-- What `acquire` writes when no test refuses.
unfoldable pub counted :
    Runtime
    → ℕ
    → Admission
    → (org principal : ℕ × ℕ) → Dict ℕ
    → MemoryModelRateLimiter
    → MemoryModelRateLimiter
counted rt now a org principal leases s = record {
  windows =
      insert (principal_key rt now a) (principal.0 + 1, 0)
        (insert (org_key rt now a) (org.0 + 1, org.1 + a.token_units) s.windows);
  leases =
      insert (concurrent_key a) (insert a.reservation_id (now + a.lease_seconds * 1000000) leases)
        s.leases;
}

abbrev answer :
    Option (Code × ℕ)
    → RateLimitLease
    → (refused admitted : MemoryModelRateLimiter) → Admitted × MemoryModelRateLimiter
answer none lease refused admitted = (granted lease, admitted)
answer (some (code, wait)) lease refused admitted = (limited code wait, refused)

unfoldable pub acquire :
    Runtime → Admission → ℕ → MemoryModelRateLimiter → Admitted × MemoryModelRateLimiter
acquire rt a now s =
    let org = usage (org_key rt now a) s.windows in
    let principal = usage (principal_key rt now a) s.windows in
    let leases = live now (or_default (lookup (concurrent_key a) s.leases) []) in
    let pruned = record s { leases = insert (concurrent_key a) leases s.leases } in
    answer (refusal now a org principal leases)
      (record { reservation_id = a.reservation_id; concurrent_key = concurrent_key a }) pruned
      (counted rt now a org principal leases pruned)

abbrev released : String → String → Option (Dict ℕ) → Dict (Dict ℕ) → Dict (Dict ℕ)
released key reservation none leases = leases
released key reservation (some held) leases =
    insert key (keep (λ lease. not (str_eq lease.0 reservation)) held) leases

unfoldable pub release : RateLimitLease → MemoryModelRateLimiter → MemoryModelRateLimiter
release lease s = record s {
  leases =
      released lease.concurrent_key lease.reservation_id (lookup lease.concurrent_key s.leases)
        s.leases;
}

abbrev pub memory_limiter : Runtime → RateLimiter MemoryModelRateLimiter
memory_limiter rt = record { acquire = acquire rt; release = release }
