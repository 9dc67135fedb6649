-- ===== src/Governance/Outage.antt =====
-- The fallback of `_reserve_locked` in src/ai_examiner/services/model_governance.py: the limiter is
-- out of service and not required, and `_MEMORY_RATE_LIMITER` answers in its place.
use ai_examiner.Prelude.{lookup, ok, err, ℕ, ◌≡◌, refl, Bool, true, false, some}
use ai_examiner.Governance.Policy.{OrganizationModelPolicy, Runtime}
use ai_examiner.Governance.Limiter.{
  Code, RateLimitLease, granted, limited, broken, RateLimiter, MemoryModelRateLimiter, acquire,
}
use ai_examiner.Governance.Ledger.{ModelUsageLedger, ProviderResult}
use ai_examiner.Governance.Quota.{Settings, governance_error, Request}
use ai_examiner.Governance.Reserve.{
  World, UsageReservation, admission, reservation_of, limiter_answer, raise_missing, settle, fail,
}

module _ {S : Type 0} (limiter : RateLimiter S) (rt : Runtime) (settings : Settings)
    (lenient : settings.model_rate_limit_required ≡ false) where
  settle_memory :
      (r : UsageReservation) (result : ProviderResult) (now : ℕ) (w : World S)
      → (settle limiter rt settings r result now w).1.memory ≡ w.memory
  unfolding settle
  settle_memory r result now w = raised _ _
    where
      raised :
          (there : Bool) (w : World S)
          → (raise_missing limiter rt settings there w).1.memory ≡ w.memory
      raised true w = refl
      raised false w = refl

  -- While the limiter is out of service, a refusal by the fallback leaves the row of the ledger
  -- reserved, and a lease that the fallback grants is given back by neither end of the call.
  pub outage_leaks :
      (req : Request) (policy : OrganizationModelPolicy) (row : ModelUsageLedger) (now : ℕ)
      (w : World S) (s : S)
      → lookup row.id w.db.ledger ≡ some row
      → ((code : Code) (wait : ℕ) (memory : MemoryModelRateLimiter)
          → acquire rt (admission settings req policy row) now w.memory
            ≡ (limited code wait, memory)
          → let (answer, w') = limiter_answer rt settings req policy row now w (broken, s) in
            (answer ≡ err (governance_error code 429 (some wait)))
            × (lookup row.id w'.db.ledger ≡ some row))
        × ((lease : RateLimitLease) (memory : MemoryModelRateLimiter)
            → acquire rt (admission settings req policy row) now w.memory ≡ (granted lease, memory)
            → let (answer, w') = limiter_answer rt settings req policy row now w (broken, s) in
              let r = reservation_of req row lease in
              (answer ≡ ok r)
              × ((result : ProviderResult) (later : ℕ)
                  → (settle limiter rt settings r result later w').1.memory ≡ memory)
              × ((later : ℕ) → (fail limiter rt settings r later w').memory ≡ memory))
  unfolding ai_examiner.Governance.Reserve.fail
  outage_leaks req policy row now w s found = (
    λ code wait memory refused. rw (lenient, refused) (refl, found),
    λ lease memory let_in.
        let r = reservation_of req row lease in
        let after_grant : World S = record w { limiter = s; memory = memory } in
        let state : limiter_answer rt settings req policy row now w (broken, s)
            ≡ (ok r, after_grant) =
          rw (lenient, let_in) refl in
        rw state (refl, λ result later. settle_memory r result later after_grant, λ later. refl),
  )
