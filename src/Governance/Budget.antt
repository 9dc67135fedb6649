-- ===== src/Governance/Budget.antt =====
-- The hard monthly budget: what the completed, the failed and the reserved calls of an organization
-- cost in a month, along the reservations of `reserve_row` and their ends.
pub mod Charge
pub mod Steps
use ai_examiner.Prelude.{
  if◌then◌else◌, Bool-cases, truthy, Dict, lookup, insert, ℕ, ◌+◌, ◌≤◌, ◌<◌, String, ◌≡◌, refl, ◌⊎◌,
  inl, inr, Bool, true, false, ◌&&◌, ◌||◌, none, some, [], ◌∷◌, arith, str_eq,
}
use ai_examiner.Governance.Ledger.{
  reserved, denied, ModelUsageLedger, GovernanceDb, is_reserved, is_accounted,
}
use ai_examiner.Governance.Quota.{
  Request, total, in_period, completed_cost, reserved_cost, session_cost, quota_reason, has_reason,
  is_hard, soft_exceeded, new_ledger, charge,
}
use ai_examiner.Governance.Policy.{OrganizationModelPolicy, Runtime}
use ai_examiner.Governance.Limiter.{Code, no_code}

abbrev part : (ModelUsageLedger → ℕ) → (ModelUsageLedger → Bool) → ModelUsageLedger → ℕ
part amount test e = if test e then amount e else 0

module _ (amount : ModelUsageLedger → ℕ) (test : ModelUsageLedger → Bool) where
  total-insert_new :
      (k : String) (v : ModelUsageLedger) (rows : Dict ModelUsageLedger)
      → lookup k rows ≡ none
      → total amount test (insert k v rows) ≡ total amount test rows + part amount test v
  unfolding total lookup insert
  total-insert_new k v [] h = ground arith
  total-insert_new k v ((j, w) ∷ rows) h = ground (arith, total-insert_new k v rows)

  total-insert_old :
      (k : String) (v w : ModelUsageLedger) (rows : Dict ModelUsageLedger)
      → lookup k rows ≡ some w
      → total amount test (insert k v rows) + part amount test w
        ≡ total amount test rows + part amount test v
  unfolding total lookup insert
  total-insert_old k v w [] h = cc
  total-insert_old k v w ((j, u) ∷ rows) h = ground (arith, total-insert_old k v w rows)

-- What the month's budget is compared with.
unfoldable pub committed : String → ℕ → Dict ModelUsageLedger → ℕ
committed organization_id start rows =
    completed_cost organization_id start rows + reserved_cost organization_id start rows

-- The part of one row in it.
pub share : String → ℕ → ModelUsageLedger → ℕ
share organization_id start e =
    if in_period organization_id start e && is_accounted e.status
    then e.estimated_cost_usd
    else (if in_period organization_id start e && is_reserved e.status
        then e.reservation_cost_usd
        else 0)

module _ (organization_id : String) (start : ℕ) where
  committed-insert_new :
      (k : String) (v : ModelUsageLedger) (rows : Dict ModelUsageLedger)
      → lookup k rows ≡ none
      → committed organization_id start (insert k v rows)
        ≡ committed organization_id start rows + share organization_id start v
  unfolding committed share
  committed-insert_new k v rows h = ground (
    arith,
    total-insert_new (λ e. e.estimated_cost_usd)
        (λ e. in_period organization_id start e && is_accounted e.status) k v rows h,
    total-insert_new (λ e. e.reservation_cost_usd)
        (λ e. in_period organization_id start e && is_reserved e.status) k v rows h,
  )

  pub committed-insert_old :
      (k : String) (v w : ModelUsageLedger) (rows : Dict ModelUsageLedger)
      → lookup k rows ≡ some w
      → committed organization_id start (insert k v rows) + share organization_id start w
        ≡ committed organization_id start rows + share organization_id start v
  unfolding committed share
  committed-insert_old k v w rows h = ground (
    arith,
    total-insert_old (λ e. e.estimated_cost_usd)
        (λ e. in_period organization_id start e && is_accounted e.status) k v w rows h,
    total-insert_old (λ e. e.reservation_cost_usd)
        (λ e. in_period organization_id start e && is_reserved e.status) k v w rows h,
  )

share_new :
    (policy : OrganizationModelPolicy) (req : Request) (id provider model organization_id : String)
    (cost now start : ℕ) (reason : Code) (over_soft : Bool)
    → (share organization_id start
          (new_ledger policy req id provider model cost reserved reason over_soft now)
        ≤ (if str_eq req.organization_id organization_id then cost else 0))
      × (share organization_id start
            (new_ledger policy req id provider model cost denied reason over_soft now)
          ≡ 0)
unfolding share new_ledger
share_new policy req id provider model organization_id cost now start reason over_soft =
    ground arith

pub no_reason-fits :
    (policy : OrganizationModelPolicy) (has_session : Bool) (cost month session : ℕ)
    → has_reason (quota_reason policy has_session cost month session) ≡ false
    → 0 < policy.monthly_budget_usd
    → month + cost ≤ policy.monthly_budget_usd
unfolding quota_reason
no_reason-fits policy has_session cost month session h some_budget = ground arith

-- What `charge` does to a month: nothing, or the addition of a row that was fit to be charged.
pub charge-committed :
    (rt : Runtime) (req : Request) (policy : OrganizationModelPolicy)
    (id provider model organization_id : String) (cost now start : ℕ) (db : GovernanceDb)
    → lookup id db.ledger ≡ none
    → let session = session_cost req.organization_id req.session_id db.ledger in
      let month = committed req.organization_id (rt.month_start now) db.ledger in
      let reason = quota_reason policy (truthy req.session_id) cost month session in
      let before = committed organization_id start db.ledger in
      let after =
        committed organization_id start
          (charge rt req policy id provider model cost now db).1.ledger in
      (after ≡ before)
      ⊎ (((has_reason reason && is_hard policy.quota_mode) ≡ false)
          × (after ≤ before + (if str_eq req.organization_id organization_id then cost else 0)))
unfolding charge committed new_ledger
charge-committed rt req policy id provider model organization_id cost now start db fresh =
    let month = committed req.organization_id (rt.month_start now) db.ledger in
    let session = session_cost req.organization_id req.session_id db.ledger in
    let reason = quota_reason policy (truthy req.session_id) cost month session in
    elim (Bool-cases (has_reason reason && is_hard policy.quota_mode)) [
      | inl over ↦
          let row : ModelUsageLedger =
            new_ledger policy req id provider model cost denied reason true now in
          rw over (
            inl (
              omega (
                arith,
                committed-insert_new organization_id start id row db.ledger fresh,
                (share_new policy req id provider model organization_id cost now start reason
                    true).1,
              )))
      | inr under ↦
          let over_soft = soft_exceeded policy (month + cost) || has_reason reason in
          let noted : Code = if is_hard policy.quota_mode then no_code else reason in
          let row : ModelUsageLedger =
            new_ledger policy req id provider model cost reserved noted over_soft now in
          rw under (
            inr (
              refl,
              omega (
                arith,
                committed-insert_new organization_id start id row db.ledger fresh,
                (share_new policy req id provider model organization_id cost now start noted
                    over_soft).0,
              ),
            ))
    ]
