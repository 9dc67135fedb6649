-- ===== src/Governance/Closing.antt =====
-- The reservations of a governed call, `_call` of
-- src/ai_examiner/services/model_governance.py, when the call has ended.
use mathlib.Core.Path.{subst}
use ai_examiner.Prelude.{
  Bool-cases, truthy, Dict, AllValues-insert, Result, ok, err, ℕ, suc, ◌+◌, String, ◌≡◌, refl, sym,
  inl, inr, Bool, true, false, ◌&&◌, Option, none, some, List, [], ◌∷◌,
}
use ai_examiner.Governance.Catalog.{parse_profile}
use ai_examiner.Governance.Limiter.{
  rate_limiter_unavailable, Admitted, granted, limited, broken, RateLimiter,
}
use ai_examiner.Governance.Ledger.{ModelUsageLedger, GovernanceDb, ProviderResult}
use ai_examiner.Governance.Policy.{
  OrganizationModelPolicy, Runtime, ensure_model_policy, profile_allowed,
}
use ai_examiner.Governance.Quota.{
  Settings, GovernanceError, Request, completed_cost, reserved_cost, session_cost, quota_reason,
  has_reason, is_hard, new_ledger, Fresh, reservation_cost, charge,
}
use ai_examiner.Governance.Reserve.{
  World, UsageReservation, with_row, charge_allowed, reserve_row, limiter_answer, admit, reserve,
  raise_missing, settle,
}
use ai_examiner.Governance.OpenRows.{
  IsClosed, AllClosed, OneOpen, deny-closes, fail-closes, settle-closes,
}
use ai_examiner.Governance.Call.{
  allows, allowed_of, wanted, starts_with, CallContext, chosen, candidates, Round, Provider,
  returned, attempted, after_reserve, call_loop, with_candidates, call,
}

-- What a charge leaves: all closed, or its own row open.
data Charged (id : String)
    : Result GovernanceError (OrganizationModelPolicy × ModelUsageLedger) × GovernanceDb
      → Type 0 where
  refused : (e : GovernanceError) (db : GovernanceDb) → AllClosed db → Charged id (err e, db)
  charged :
      (policy : OrganizationModelPolicy) (row : ModelUsageLedger) (db : GovernanceDb)
      → row.id ≡ id
      → OneOpen id db
      → Charged id (ok (policy, row), db)

charge-Charged :
    (rt : Runtime) (req : Request) (policy : OrganizationModelPolicy) (id provider model : String)
    (cost now : ℕ) (db : GovernanceDb)
    → AllClosed db
    → Charged id (with_row policy (charge rt req policy id provider model cost now db))
unfolding charge new_ledger
charge-Charged rt req policy id provider model cost now db h =
    let month =
      completed_cost req.organization_id (rt.month_start now) db.ledger
      + reserved_cost req.organization_id (rt.month_start now) db.ledger in
    let session = session_cost req.organization_id req.session_id db.ledger in
    let reason = quota_reason policy (truthy req.session_id) cost month session in
    elim (Bool-cases (has_reason reason && is_hard policy.quota_mode)) [
      | inl over ↦ rw over (refused _ _ (AllValues-insert IsClosed id _ db.ledger refl h))
      | inr under ↦ rw under (
          charged policy _ _ refl
            (record { rows = db.ledger; row = _; written = refl; own = refl; closed = h }))
    ]

reserve_row-Charged :
    (rt : Runtime) (settings : Settings) (fresh : Fresh) (req : Request) (now : ℕ)
    (db : GovernanceDb)
    → AllClosed db
    → Charged fresh.ledger_id (reserve_row rt settings fresh req now db)
unfolding reserve_row
reserve_row-Charged rt settings fresh req now db h =
    let ensured =
      ensure_model_policy rt fresh.policy_id req.organization_id req.principal_id now db.policies in
    charge_allowed-Charged (parse_profile req.candidate_profile) ensured
  where
    charge_allowed-Charged :
        (parsed : Option (String × String))
        (ensured : OrganizationModelPolicy × Dict OrganizationModelPolicy)
        → Charged fresh.ledger_id (charge_allowed rt settings fresh req now parsed ensured db)
    charge_allowed-Charged none ensured = refused _ _ h
    charge_allowed-Charged (some (provider, model)) (policy, policies) =
        elim (Bool-cases
          (profile_allowed rt policy provider model req.task_type req.classification)) [
            | inl may ↦ rw may (
                charge-Charged rt req policy fresh.ledger_id provider model
                  (reservation_cost settings provider model req.token_units) now
                  (record db { policies = policies }) h)
            | inr may_not ↦ rw may_not (refused _ _ h)
          ]

-- What `reserve` leaves.
data Held {S : Type 0} : Result GovernanceError UsageReservation × World S → Type 0 where
  not_held : (e : GovernanceError) (w : World S) → AllClosed w.db → Held (err e, w)
  held : (r : UsageReservation) (w : World S) → OneOpen r.ledger_id w.db → Held (ok r, w)

module _ {S : Type 0} (limiter : RateLimiter S) (rt : Runtime) (settings : Settings)
    (strict : settings.model_rate_limit_required ≡ true) where
  answer-Held :
      (req : Request) (policy : OrganizationModelPolicy) (row : ModelUsageLedger) (now : ℕ)
      (w : World S) (answer : Admitted × S)
      → OneOpen row.id w.db
      → Held (limiter_answer rt settings req policy row now w answer)
  answer-Held req policy row now w (granted lease, s) o = held _ _ o
  answer-Held req policy row now w (limited code wait, s) o =
      not_held _ _ (deny-closes row.id code now w.db o)
  answer-Held req policy row now w (broken, s) o =
      rw strict (not_held _ _ (deny-closes row.id rate_limiter_unavailable now w.db o))

  admit-Held :
      (id : String) (req : Request) (now : ℕ) (w : World S)
      (r : Result GovernanceError (OrganizationModelPolicy × ModelUsageLedger) × GovernanceDb)
      → Charged id r
      → Held (admit limiter rt settings req now w r)
  admit-Held id req now w _ (refused e db h) = not_held _ _ h
  admit-Held id req now w _ (charged policy row db own o) =
      answer-Held req policy row now (record w { db = db }) _
        (subst (λ k. OneOpen k db) (sym own) o)

  reserve-Held :
      (fresh : Fresh) (req : Request) (now : ℕ) (w : World S)
      → AllClosed w.db
      → Held (reserve limiter rt settings fresh req now w)
  unfolding reserve
  reserve-Held fresh req now w h =
      admit-Held fresh.ledger_id req now w _ (reserve_row-Charged rt settings fresh req now w.db h)

  raise_missing-closes :
      (result : ProviderResult) (there : Bool) (w : World S)
      → AllClosed w.db
      → AllClosed (returned result (raise_missing limiter rt settings there w)).1.db
  raise_missing-closes result true w h = h
  raise_missing-closes result false w h = h

  settled-world :
      (r : UsageReservation) (result : ProviderResult) (now : ℕ) (w : World S)
      → OneOpen r.ledger_id w.db
      → AllClosed (returned result (settle limiter rt settings r result now w)).1.db
  unfolding settle
  settled-world r result now w o =
      raise_missing-closes result _ _ (settle-closes r.ledger_id result now w.db o)

  module _ (ctx : CallContext) (token_units : ℕ) (provider : Provider) (rounds : ℕ → Round) where
    attempt-closes :
        (index : ℕ)
        (next : GovernanceError → World S → Result GovernanceError ProviderResult × World S)
        (profile : String) (r : Result GovernanceError UsageReservation × World S)
        → ((e : GovernanceError) (w : World S) → AllClosed w.db → AllClosed (next e w).1.db)
        → Held r
        → AllClosed
            (after_reserve limiter rt settings ctx token_units provider rounds index next profile
              r).1.db
    unfolding ai_examiner.Governance.Reserve.fail
    attempt-closes index next profile _ later (not_held e w h) = h
    attempt-closes index next profile _ later (held r w o) = answered (provider profile)
      where
        answered :
            (answer : Result String (ProviderResult × ℕ))
            → AllClosed
                (attempted limiter rt settings ctx token_units provider rounds index next r answer
                  w).1.db
        answered (err raised) = later _ _ (fail-closes r.ledger_id _ w.db o)
        answered (ok result) = settled-world r _ _ w o

    call_loop-closes :
        (profiles : List String) (index : ℕ) (last_error : Option GovernanceError) (w : World S)
        → AllClosed w.db
        → AllClosed
            (call_loop limiter rt settings ctx token_units provider rounds profiles index last_error
              w).1.db
    unfolding call_loop
    call_loop-closes [] index none w h = h
    call_loop-closes [] index (some e) w h = h
    call_loop-closes (profile ∷ profiles) index last_error w h =
        attempt-closes index
          (λ e.
            call_loop limiter rt settings ctx token_units provider rounds profiles (suc index)
              (some e))
          profile _ (λ e w' h'. call_loop-closes profiles (suc index) (some e) w' h')
          (reserve-Held _ _ _ w h)

    candidates-closes :
        (fresh : Fresh) (denial_id : String) (now : ℕ) (db : GovernanceDb)
        → AllClosed db
        → AllClosed (candidates rt ctx fresh denial_id now db).1
    unfolding candidates
    candidates-closes fresh denial_id now db h =
        let ensured =
          ensure_model_policy rt fresh.policy_id ctx.organization_id ctx.principal_id now
            db.policies in
        chosen-closes ensured.0 (record db { policies = ensured.1 })
          (allowed_of (allows rt ensured.0 ctx.agent ctx.classification)
            (wanted ctx.requested_profile ensured.0))
          h
      where
        chosen-closes :
            (policy : OrganizationModelPolicy) (db : GovernanceDb) (profiles : Option (List String))
            → AllClosed db
            → AllClosed (chosen ctx fresh denial_id now policy db profiles).1
        chosen-closes policy db none h = h
        chosen-closes policy db (some profiles) h =
            elim (Bool-cases (starts_with ctx.requested_profile profiles)) [
              | inl first ↦ rw first h
              | inr denied_first ↦
                  rw denied_first (AllValues-insert IsClosed fresh.ledger_id _ db.ledger refl h)
            ]

    candidates_then-closes :
        (w : World S) (r : Result GovernanceError (List String) × GovernanceDb)
        → AllClosed r.1
        → AllClosed (with_candidates limiter rt settings ctx token_units provider rounds w r).1.db
    candidates_then-closes w (err e, db) h = h
    candidates_then-closes w (ok profiles, db) h = call_loop-closes profiles 0 none _ h

    -- Where admission control is required, a governed call that starts with no open reservation
    -- leaves none open, whatever the providers, the budgets and the limiter answer.
    pub call-closes :
        (fresh : Fresh) (denial_id : String) (now : ℕ) (w : World S)
        → AllClosed w.db
        → AllClosed
            (call limiter rt settings ctx token_units provider rounds fresh denial_id now w).1.db
    unfolding call
    call-closes fresh denial_id now w h =
        candidates_then-closes w _ (candidates-closes fresh denial_id now w.db h)
