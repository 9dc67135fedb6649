-- ===== src/Governance/Budget/Charge.antt =====
-- What a reservation does to the month of one organization, whoever makes it.
use ai_examiner.Prelude.{
  if◌then◌else◌, Bool-cases, Option-cases, truthy, Dict, lookup, AllValues, AllValues-insert,
  lookup-insert_new, Result, ok, err, ℕ, ◌+◌, ◌≤◌, ◌<◌, String, ◌≡◌, refl, ◌⊎◌, inl, inr, Bool,
  true, false, ◌&&◌, ◌||◌, Option, none, some, arith, str_eq,
}
use ai_examiner.Governance.Policy.{
  OrganizationModelPolicy, Runtime, ensure_model_policy, profile_allowed,
}
use ai_examiner.Governance.Limiter.{Code, no_code}
use ai_examiner.Governance.Ledger.{
  UsageStatus, reserved, denied, ModelUsageLedger, GovernanceDb, is_reserved,
}
use ai_examiner.Governance.Quota.{
  Settings, GovernanceError, Request, completed_cost, reserved_cost, session_cost, quota_reason,
  has_reason, is_hard, soft_exceeded, new_ledger, Fresh, reservation_cost, charge,
}
use ai_examiner.Governance.Reserve.{with_row, charge_allowed}
use ai_examiner.Governance.Budget.{committed, no_reason-fits, charge-committed}

-- A row that is still reserved has been charged nothing else.
abbrev pub IsOpenOnce : ModelUsageLedger → Type 0
IsOpenOnce e = is_reserved e.status ≡ true → e.estimated_cost_usd ≤ e.reservation_cost_usd

-- The month is within the hard budget of the organization's policy, up to an excess.
pub record IsWithinBudget (policy : OrganizationModelPolicy) (start excess : ℕ) (db : GovernanceDb)
    : Type 0 where
  pub current : lookup policy.organization_id db.policies ≡ some policy
  pub within : committed policy.organization_id start db.ledger ≤ policy.monthly_budget_usd + excess
  pub unspent : AllValues IsOpenOnce db.ledger

new_ledger-IsOpenOnce :
    (policy : OrganizationModelPolicy) (req : Request) (id provider model : String) (cost now : ℕ)
    (status : UsageStatus) (reason : Code) (over_soft : Bool)
    → IsOpenOnce (new_ledger policy req id provider model cost status reason over_soft now)
unfolding new_ledger
new_ledger-IsOpenOnce policy req id provider model cost now status reason over_soft h = omega arith

reserved-IsOpenOnce :
    (rt : Runtime) (req : Request) (policy : OrganizationModelPolicy) (id provider model : String)
    (cost now : ℕ) (db : GovernanceDb)
    → AllValues IsOpenOnce db.ledger
    → AllValues IsOpenOnce (charge rt req policy id provider model cost now db).1.ledger
unfolding charge
reserved-IsOpenOnce rt req policy id provider model cost now db all =
    let month =
      completed_cost req.organization_id (rt.month_start now) db.ledger
      + reserved_cost req.organization_id (rt.month_start now) db.ledger in
    let session = session_cost req.organization_id req.session_id db.ledger in
    let reason = quota_reason policy (truthy req.session_id) cost month session in
    let kept = λ (status : UsageStatus) (noted : Code) (over_soft : Bool).
      let row = new_ledger policy req id provider model cost status noted over_soft now in
      AllValues-insert IsOpenOnce row.id row db.ledger
        (new_ledger-IsOpenOnce policy req id provider model cost now status noted over_soft) all in
    elim (Bool-cases (has_reason reason && is_hard policy.quota_mode)) [
      | inl over ↦ rw over (kept denied reason true)
      | inr under ↦ rw under (
          kept reserved (if is_hard policy.quota_mode then no_code else reason)
            (soft_exceeded policy (month + cost) || has_reason reason))
    ]

policies-charge :
    (rt : Runtime) (req : Request) (policy : OrganizationModelPolicy) (id provider model : String)
    (cost now : ℕ) (db : GovernanceDb)
    → (charge rt req policy id provider model cost now db).1.policies ≡ db.policies
unfolding charge
policies-charge rt req policy id provider model cost now db = ground arith

charge_within :
    (rt : Runtime) (req : Request) (used policy : OrganizationModelPolicy)
    (id provider model : String) (cost now excess : ℕ) (db : GovernanceDb)
    → lookup id db.ledger ≡ none
    → is_hard policy.quota_mode ≡ true
    → 0 < policy.monthly_budget_usd
    → (str_eq req.organization_id policy.organization_id ≡ false)
      ⊎ ((req.organization_id ≡ policy.organization_id) × (used ≡ policy))
    → committed policy.organization_id (rt.month_start now) db.ledger
      ≤ policy.monthly_budget_usd + excess
    → committed policy.organization_id
        (rt.month_start now)
        (charge rt req used id provider model cost now db).1.ledger
      ≤ policy.monthly_budget_usd + excess
charge_within rt req used policy id provider model cost now excess db fresh hard_mode some_budget
      whose within =
    let session = session_cost req.organization_id req.session_id db.ledger in
    let month = committed req.organization_id (rt.month_start now) db.ledger in
    let change =
      charge-committed rt req used id provider model policy.organization_id cost now
        (rt.month_start now) db fresh in
    elim change [
      | inl same ↦ omega (arith, within, same)
      | inr (free, added) ↦ elim whose [
        | inl foreign ↦ let added' = rw foreign at added in omega (arith, within, added')
        | inr (own, mine) ↦
            let free' = rw (mine, hard_mode) at free in
            let unrefused : has_reason
                  (quota_reason policy (truthy req.session_id) cost month session)
                ≡ false =
              ground arith in
            let fits =
              no_reason-fits policy (truthy req.session_id) cost month session unrefused
                some_budget in
            let fits' : committed policy.organization_id (rt.month_start now) db.ledger + cost
                ≤ policy.monthly_budget_usd =
              rw own at fits in
            let small : (if str_eq req.organization_id policy.organization_id then cost else 0)
                ≤ cost =
              ground arith in
            omega (arith, fits', small, added)
      ]
    ]

charge-IsWithinBudget :
    (rt : Runtime) (req : Request) (used policy : OrganizationModelPolicy)
    (id provider model : String) (cost now excess : ℕ) (db : GovernanceDb)
    → lookup id db.ledger ≡ none
    → is_hard policy.quota_mode ≡ true
    → 0 < policy.monthly_budget_usd
    → (str_eq req.organization_id policy.organization_id ≡ false)
      ⊎ ((req.organization_id ≡ policy.organization_id) × (used ≡ policy))
    → IsWithinBudget policy (rt.month_start now) excess db
    → IsWithinBudget policy
        (rt.month_start now)
        excess
        (charge rt req used id provider model cost now db).1
charge-IsWithinBudget rt req used policy id provider model cost now excess db fresh hard_mode
      some_budget whose b =
    record {
      current = rw (policies-charge rt req used id provider model cost now db) (b.current);
      within =
          charge_within rt req used policy id provider model cost now excess db fresh hard_mode
            some_budget whose b.within;
      unspent = reserved-IsOpenOnce rt req used id provider model cost now db b.unspent;
    }

pub lookup-ensure :
    (rt : Runtime) (id organization_id other_id : String) (principal_id : Option String) (now : ℕ)
    (policy : OrganizationModelPolicy) (policies : Dict OrganizationModelPolicy)
    → lookup organization_id policies ≡ some policy
    → lookup organization_id (ensure_model_policy rt id other_id principal_id now policies).1
      ≡ some policy
unfolding ensure_model_policy
lookup-ensure rt id organization_id other_id principal_id now policy policies found =
    elim (Option-cases (lookup other_id policies)) [
      | inl missing ↦
          rw missing (lookup-insert_new organization_id other_id policy _ policies found missing)
      | inr (theirs, there) ↦ rw there found
    ]

pub ensure-own :
    (rt : Runtime) (id organization_id : String) (principal_id : Option String) (now : ℕ)
    (policy : OrganizationModelPolicy) (policies : Dict OrganizationModelPolicy)
    → lookup organization_id policies ≡ some policy
    → (ensure_model_policy rt id organization_id principal_id now policies).0 ≡ policy
unfolding ensure_model_policy
ensure-own rt id organization_id principal_id now policy policies found = rw found refl

ledger-with_row :
    (policy : OrganizationModelPolicy) (r : Result GovernanceError ModelUsageLedger × GovernanceDb)
    → (with_row policy r).1 ≡ r.1
ledger-with_row policy (ok row, db) = refl
ledger-with_row policy (err e, db) = refl

pub charge_allowed-IsWithinBudget :
    (rt : Runtime) (settings : Settings) (fresh : Fresh) (req : Request) (now excess : ℕ)
    (parsed : Option (String × String))
    (ensured : OrganizationModelPolicy × Dict OrganizationModelPolicy)
    (policy : OrganizationModelPolicy) (db : GovernanceDb)
    → lookup fresh.ledger_id db.ledger ≡ none
    → is_hard policy.quota_mode ≡ true
    → 0 < policy.monthly_budget_usd
    → (str_eq req.organization_id policy.organization_id ≡ false)
      ⊎ ((req.organization_id ≡ policy.organization_id) × (ensured.0 ≡ policy))
    → lookup policy.organization_id ensured.1 ≡ some policy
    → IsWithinBudget policy (rt.month_start now) excess db
    → IsWithinBudget policy
        (rt.month_start now)
        excess
        (charge_allowed rt settings fresh req now parsed ensured db).1
charge_allowed-IsWithinBudget rt settings fresh req now excess none ensured policy db unused
      hard_mode some_budget whose current b =
    b
charge_allowed-IsWithinBudget rt settings fresh req now excess (some (provider, model))
      (used, policies) policy db unused hard_mode some_budget whose current b =
    let db' : GovernanceDb = record db { policies = policies } in
    let b' : IsWithinBudget policy (rt.month_start now) excess db' = record {
      current = current;
      within = b.within;
      unspent = b.unspent;
    } in
    let cost = reservation_cost settings provider model req.token_units in
    elim (Bool-cases (profile_allowed rt used provider model req.task_type req.classification)) [
      | inl may ↦
          rw
            (
              may,
              ledger-with_row used (charge rt req used fresh.ledger_id provider model cost now db'),
            )
            (charge-IsWithinBudget rt req used policy fresh.ledger_id provider model cost now excess
              db' unused hard_mode some_budget whose b')
      | inr may_not ↦ rw may_not b
    ]
