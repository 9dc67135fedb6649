-- ===== src/Governance/Fallback.antt =====
-- Which providers a governed call can reach.
use mathlib.Core.Option.{some-injective}
use ai_examiner.Prelude.{
  Bool-cases, Option-cases, All, All-map, Result, ok, err, ℕ, suc, String, ◌≡◌, refl, sym, inl, inr,
  Bool, true, false, Option, none, some, List, [], ◌∷◌,
}
use ai_examiner.Governance.Policy.{Runtime, ensure_model_policy}
use ai_examiner.Governance.Limiter.{RateLimiter}
use ai_examiner.Governance.Quota.{Settings, GovernanceError, Fresh}
use ai_examiner.Governance.Reserve.{World, UsageReservation}
use ai_examiner.Governance.Call.{
  allows, keep_one, allowed_of, wanted, starts_with, CallContext, candidates, Round, Provider,
  attempted, after_reserve, call_loop, call,
}
use ai_examiner.Governance.Ledger.{ProviderResult}

-- The policy allows a profile.
abbrev pub IsAllowed : (String → Option Bool) → String → Type 0
IsAllowed test profile = test profile ≡ some true

keep_one-All :
    (test : String → Option Bool) (profile : String) (answer : Option Bool)
    (rest : Option (List String)) (ys : List String)
    → test profile ≡ answer
    → ((zs : List String) → rest ≡ some zs → All (IsAllowed test) zs)
    → keep_one profile answer rest ≡ some ys
    → All (IsAllowed test) ys
keep_one-All test profile none rest ys same h e = cc
keep_one-All test profile (some b) none ys same h e = cc
keep_one-All test profile (some true) (some zs) ys same h e =
    rw (sym (some-injective (profile ∷ zs) ys e)) (same, h zs refl)
keep_one-All test profile (some false) (some zs) ys same h e =
    rw (sym (some-injective zs ys e)) (h zs refl)

-- What the comprehension keeps is allowed.
allowed_of-All :
    (test : String → Option Bool) (xs ys : List String)
    → allowed_of test xs ≡ some ys
    → All (IsAllowed test) ys
unfolding allowed_of
allowed_of-All test [] ys e = rw (sym (some-injective [] ys e)) tt
allowed_of-All test (x ∷ xs) ys e =
    keep_one-All test x (test x) (allowed_of test xs) ys refl (λ zs. allowed_of-All test xs zs) e

module _ {S : Type 0} (limiter : RateLimiter S) (rt : Runtime) (settings : Settings)
    (ctx : CallContext) (token_units : ℕ) (f g : Provider) (rounds : ℕ → Round) where
  module _ (index : ℕ)
      (next next' : GovernanceError → World S → Result GovernanceError ProviderResult × World S)
      (agree : (e : GovernanceError) (w : World S) → next e w ≡ next' e w) where
    attempted-agrees :
        (r : UsageReservation) (answer : Result String (ProviderResult × ℕ)) (w : World S)
        → attempted limiter rt settings ctx token_units f rounds index next r answer w
          ≡ attempted limiter rt settings ctx token_units g rounds index next' r answer w
    attempted-agrees r (err raised) w = agree _ _
    attempted-agrees r (ok (result, elapsed)) w = refl

    after_reserve-agrees :
        (profile : String) (r : Result GovernanceError UsageReservation × World S)
        → f profile ≡ g profile
        → after_reserve limiter rt settings ctx token_units f rounds index next profile r
          ≡ after_reserve limiter rt settings ctx token_units g rounds index next' profile r
    after_reserve-agrees profile (err e, w) same = refl
    after_reserve-agrees profile (ok r, w) same = rw same (attempted-agrees r (g profile) w)

  -- A round uses the provider of its own profile only.
  call_loop-agrees :
      (profiles : List String) (index : ℕ) (last_error : Option GovernanceError) (w : World S)
      → All (λ profile. f profile ≡ g profile) profiles
      → call_loop limiter rt settings ctx token_units f rounds profiles index last_error w
        ≡ call_loop limiter rt settings ctx token_units g rounds profiles index last_error w
  unfolding call_loop
  call_loop-agrees [] index none w h = refl
  call_loop-agrees [] index (some e) w h = refl
  call_loop-agrees (profile ∷ profiles) index last_error w (same, h) =
      after_reserve-agrees index
        (λ e. call_loop limiter rt settings ctx token_units f rounds profiles (suc index) (some e))
        (λ e. call_loop limiter rt settings ctx token_units g rounds profiles (suc index) (some e))
        (λ e w. call_loop-agrees profiles (suc index) (some e) w h) profile _ same

  -- Providers that agree wherever the organization's policy allows the task at the data's
  -- classification make the same call: no other profile is ever used.
  pub call_uses_allowed :
      (fresh : Fresh) (denial_id : String) (now : ℕ) (w : World S)
      → let policy =
          (ensure_model_policy rt fresh.policy_id ctx.organization_id ctx.principal_id now
            w.db.policies).0 in
        ((profile : String)
          → allows rt policy ctx.agent ctx.classification profile ≡ some true
          → f profile ≡ g profile)
        → call limiter rt settings ctx token_units f rounds fresh denial_id now w
          ≡ call limiter rt settings ctx token_units g rounds fresh denial_id now w
  unfolding call candidates
  call_uses_allowed fresh denial_id now w agree =
      let ensured =
        ensure_model_policy rt fresh.policy_id ctx.organization_id ctx.principal_id now
          w.db.policies in
      let test = allows rt ensured.0 ctx.agent ctx.classification in
      let list = allowed_of test (wanted ctx.requested_profile ensured.0) in
      elim (Option-cases list) [
        | inl unparsed ↦ rw unparsed refl
        | inr (profiles, kept) ↦ elim (Bool-cases (starts_with ctx.requested_profile profiles)) [
          | inl first ↦
              rw (kept, first)
                (call_loop-agrees profiles 0 none _ (
                  All-map (IsAllowed test) (λ profile. f profile ≡ g profile) profiles agree
                    (allowed_of-All test (wanted ctx.requested_profile ensured.0) profiles kept)))
          | inr denied_first ↦ rw (kept, denied_first) refl
        ]
      ]
