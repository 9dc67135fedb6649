-- ===== src/Governance/Budget/Steps.antt =====
-- The month of one organization along the calls of all: reservations, denials, settlements and
-- failures, in any order.
use mathlib.Core.Path.{subst}
use ai_examiner.Prelude.{
  if◌then◌else◌, Bool-cases, Dict, lookup, insert, AllValues-insert, AllValues-lookup, ℕ, ◌+◌, ◌-◌,
  ◌≤◌, ◌<◌, String, ◌≡◌, refl, ◌∙◌, ◌⊎◌, inl, inr, true, false, none, some, List, arith, str_eq,
  eq_iff,
}
use ai_examiner.Governance.Policy.{OrganizationModelPolicy, Runtime, ensure_model_policy}
use ai_examiner.Governance.Limiter.{Code}
use ai_examiner.Governance.Catalog.{estimate_cost, parse_profile}
use ai_examiner.Governance.Ledger.{
  ModelUsageLedger, DenialEvent, GovernanceDb, ProviderResult, is_reserved, denied_row,
  deny_reserved, settled_row, settle_ledger, failed_row, fail_ledger,
}
use ai_examiner.Governance.Quota.{Settings, Request, is_hard, Fresh}
use ai_examiner.Governance.Reserve.{reserve_row}
use ai_examiner.Governance.Budget.Charge.{
  IsOpenOnce, IsWithinBudget, lookup-ensure, ensure-own, charge_allowed-IsWithinBudget,
}
use ai_examiner.Governance.Budget.{share, committed-insert_old}

-- A row that `deny_reserved`, `settle` or `fail` may close.
pub record IsOpen (id : String) (rows : Dict ModelUsageLedger) : Type 0 where
  pub row : ModelUsageLedger
  pub found : lookup id rows ≡ some row
  pub own : row.id ≡ id
  pub still : is_reserved row.status ≡ true

-- What a settlement of one organization costs beyond its reservation.
abbrev pub overspent : String → ProviderResult → ModelUsageLedger → ℕ
overspent organization_id r e =
    if str_eq e.organization_id organization_id
    then estimate_cost r.provider r.model r.input_tokens r.output_tokens - e.reservation_cost_usd
    else 0

-- The writes of the ledger, each with what it costs one organization beyond the reservations. A
-- reservation is made within the month from `start` under an identifier that no row has.
pub data Step (rt : Runtime) (settings : Settings) (organization_id : String) (start : ℕ)
    (db : GovernanceDb) : ℕ → GovernanceDb → Type 0 where
  reserving :
      (fresh : Fresh) (req : Request) (now : ℕ)
      → lookup fresh.ledger_id db.ledger ≡ none
      → rt.month_start now ≡ start
      → Step rt settings organization_id start db 0 (reserve_row rt settings fresh req now db).1
  denying :
      (id : String) (reason : Code) (now : ℕ)
      → IsOpen id db.ledger
      → Step rt settings organization_id start db 0 (deny_reserved id reason now db)
  settling :
      (id : String) (r : ProviderResult) (now : ℕ) (o : IsOpen id db.ledger)
      → Step rt settings organization_id start db
          (overspent organization_id r o.row)
          (settle_ledger id r now db).1
  failing :
      (id : String) (now : ℕ)
      → IsOpen id db.ledger
      → Step rt settings organization_id start db 0 (fail_ledger id now db)

-- Sequences of writes, with the sum of what they cost beyond the reservations.
pub data Reach (rt : Runtime) (settings : Settings) (organization_id : String) (start : ℕ)
    (db : GovernanceDb) : ℕ → GovernanceDb → Type 0 where
  here : Reach rt settings organization_id start db 0 db
  next :
      {excess more : ℕ} {middle last : GovernanceDb}
      → Reach rt settings organization_id start db excess middle
      → Step rt settings organization_id start middle more last
      → Reach rt settings organization_id start db (excess + more) last

-- A row that is written over an open one adds to the excess what its share is greater.
closed-IsWithinBudget :
    (policy : OrganizationModelPolicy) (start excess more : ℕ) (db : GovernanceDb) (id : String)
    (o : IsOpen id db.ledger) (row' : ModelUsageLedger) (audit : List DenialEvent)
    → row'.id ≡ id
    → share policy.organization_id start row' ≤ share policy.organization_id start o.row + more
    → IsOpenOnce row'
    → IsWithinBudget policy start excess db
    → IsWithinBudget policy start
        (excess + more)
        (record { policies = db.policies; ledger = insert row'.id row' db.ledger; audit = audit })
closed-IsWithinBudget policy start excess more db id o row' audit same less once b = record {
  current = b.current;
  within =
      let moved =
        committed-insert_old policy.organization_id start row'.id row' o.row db.ledger
          (rw same (o.found)) in
      omega (arith, moved, b.within, less);
  unspent = AllValues-insert IsOpenOnce row'.id row' db.ledger once b.unspent;
}

plus_zero : (n : ℕ) → n + 0 ≡ n
plus_zero n = omega arith

denied-share :
    (organization_id : String) (start now : ℕ) (reason : Code) (e : ModelUsageLedger)
    → (share organization_id start (denied_row reason now e) ≤ share organization_id start e + 0)
      × IsOpenOnce (denied_row reason now e)
      × ((denied_row reason now e).id ≡ e.id)
unfolding share denied_row
denied-share organization_id start now reason e = (ground arith, λ h. absurd (cc), refl)

settled-share :
    (organization_id : String) (start now : ℕ) (r : ProviderResult) (e : ModelUsageLedger)
    → is_reserved e.status ≡ true
    → (share organization_id start (settled_row r now e)
        ≤ share organization_id start e + overspent organization_id r e)
      × IsOpenOnce (settled_row r now e)
      × ((settled_row r now e).id ≡ e.id)
unfolding share settled_row
settled-share organization_id start now r e still = (ground arith, λ h. absurd (cc), refl)

failed-share :
    (organization_id : String) (start now : ℕ) (e : ModelUsageLedger)
    → is_reserved e.status ≡ true
    → e.estimated_cost_usd ≤ e.reservation_cost_usd
    → (share organization_id start (failed_row now e) ≤ share organization_id start e + 0)
      × IsOpenOnce (failed_row now e)
      × ((failed_row now e).id ≡ e.id)
unfolding share failed_row
failed-share organization_id start now e still cheap = (ground arith, λ h. absurd (cc), refl)

reserve_row-IsWithinBudget :
    (rt : Runtime) (settings : Settings) (fresh : Fresh) (req : Request) (now excess : ℕ)
    (policy : OrganizationModelPolicy) (db : GovernanceDb)
    → lookup fresh.ledger_id db.ledger ≡ none
    → is_hard policy.quota_mode ≡ true
    → 0 < policy.monthly_budget_usd
    → IsWithinBudget policy (rt.month_start now) excess db
    → IsWithinBudget policy (rt.month_start now) excess (reserve_row rt settings fresh req now db).1
unfolding reserve_row
reserve_row-IsWithinBudget rt settings fresh req now excess policy db unused hard_mode some_budget
      b =
    let id = fresh.policy_id in
    let ensured = ensure_model_policy rt id req.organization_id req.principal_id now db.policies in
    let whose : (str_eq req.organization_id policy.organization_id ≡ false)
        ⊎ ((req.organization_id ≡ policy.organization_id) × (ensured.0 ≡ policy)) =
      elim (Bool-cases (str_eq req.organization_id policy.organization_id)) [
        | inl same ↦
            let own : req.organization_id ≡ policy.organization_id =
              ground (arith, eq_iff req.organization_id policy.organization_id) in
            inr (
              own,
              ensure-own rt id req.organization_id req.principal_id now policy db.policies
                  (rw own (b.current)),
            )
        | inr differ ↦ inl differ
      ] in
    charge_allowed-IsWithinBudget rt settings fresh req now excess
      (parse_profile req.candidate_profile) ensured policy db unused hard_mode some_budget whose
      (lookup-ensure rt id policy.organization_id req.organization_id req.principal_id now policy
        db.policies b.current)
      b

module _ (rt : Runtime) (settings : Settings) (policy : OrganizationModelPolicy) (start : ℕ)
    (hard_mode : is_hard policy.quota_mode ≡ true)
    (some_budget : 0 < policy.monthly_budget_usd) where
  Step-IsWithinBudget :
      {db db' : GovernanceDb} {more : ℕ} (excess : ℕ)
      → Step rt settings policy.organization_id start db more db'
      → IsWithinBudget policy start excess db
      → IsWithinBudget policy start (excess + more) db'
  unfolding deny_reserved settle_ledger fail_ledger
  Step-IsWithinBudget {db} excess (reserving fresh req now unused month) b =
      subst (λ m. IsWithinBudget policy m (excess + 0) (reserve_row rt settings fresh req now db).1)
        month
        (reserve_row-IsWithinBudget rt settings fresh req now (excess + 0) policy db unused
          hard_mode some_budget (rw (month, plus_zero excess) b))
  Step-IsWithinBudget {db} excess (denying id reason now o) b =
      let (less, once, same) = denied-share policy.organization_id start now reason o.row in
      rw (o.found) (
        closed-IsWithinBudget policy start excess 0 db id o (denied_row reason now o.row) _
          (same ∙ o.own) less once b)
  Step-IsWithinBudget {db} excess (settling id r now o) b =
      let (less, once, same) = settled-share policy.organization_id start now r o.row o.still in
      rw (o.found) (
        closed-IsWithinBudget policy start excess (overspent policy.organization_id r o.row) db id o
          (settled_row r now o.row) _ (same ∙ o.own) less once b)
  Step-IsWithinBudget {db} excess (failing id now o) b =
      let (less, once, same) =
        failed-share policy.organization_id start now o.row o.still
          (AllValues-lookup IsOpenOnce id o.row db.ledger b.unspent o.found o.still) in
      rw (o.found) (
        closed-IsWithinBudget policy start excess 0 db id o (failed_row now o.row) _ (same ∙ o.own)
          less once b)

  -- Under a hard monthly budget, along every sequence of reservations, denials, settlements and
  -- failures of all organizations, a month that starts within it stays within the budget and what the
  -- settlements have cost the organization beyond their reservations; so the month stays within the
  -- budget itself while calls cost what was reserved at most.
  pub Reach-IsWithinBudget :
      {db db' : GovernanceDb} {excess : ℕ}
      → Reach rt settings policy.organization_id start db excess db'
      → IsWithinBudget policy start 0 db
      → IsWithinBudget policy start excess db'
  Reach-IsWithinBudget here b = b
  Reach-IsWithinBudget (next {excess} path step) b =
      Step-IsWithinBudget excess step (Reach-IsWithinBudget path b)
