-- ===== src/Enterprise/Bundles.antt =====
-- What the capability bundles grant and withhold.
use ai_examiner.Prelude.{
  Bool-cases, keep, forall, contains, String, ◌≡◌, refl, sym, ◌∙◌, ◌⊎◌, inl, inr, Bool, true, false,
  not, List, [], ◌∷◌, arith, eq_iff,
}
use ai_examiner.Enterprise.{
  Role, owner, admin, examiner, template_author, reviewer, learner, auditor, capabilities,
  owner_only, effective_capabilities, high_risk_capabilities,
}

-- Every member of the list is a member of the other.
abbrev subset : List String → List String → Bool
subset xs ys = forall (contains ys) xs

subset_sound :
    (xs ys : List String) (c : String)
    → subset xs ys ≡ true
    → contains xs c ≡ true
    → contains ys c ≡ true
subset_sound [] ys c h m = cc
subset_sound (x ∷ xs) ys c h m = ground (arith, eq_iff x c, subset_sound xs ys c)

keep_out :
    (drop xs : List String) (c : String)
    → contains drop c ≡ true
    → contains (keep (λ x. not (contains drop x)) xs) c ≡ false
keep_out drop [] c h = refl
keep_out drop (x ∷ xs) c h = ground (arith, eq_iff x c, keep_out drop xs c h)

keep_in :
    (drop xs : List String) (c : String)
    → contains drop c ≡ false
    → contains (keep (λ x. not (contains drop x)) xs) c ≡ contains xs c
keep_in drop [] c h = refl
keep_in drop (x ∷ xs) c h = ground (arith, eq_iff x c, keep_in drop xs c h)

-- A list that shares no member with the other.
abbrev disjoint : List String → List String → Bool
disjoint xs ys = forall (λ x. not (contains ys x)) xs

disjoint_sound :
    (xs ys : List String) (c : String)
    → disjoint xs ys ≡ true
    → contains xs c ≡ true
    → contains ys c ≡ false
disjoint_sound [] ys c h m = cc
disjoint_sound (x ∷ xs) ys c h m = ground (arith, eq_iff x c, disjoint_sound xs ys c)

-- Every bundle holds known capabilities only.
pub effective_capabilities-known :
    (r : Role) (c : String)
    → contains (effective_capabilities r) c ≡ true
    → contains capabilities c ≡ true
unfolding effective_capabilities
effective_capabilities-known Role.owner c h = h
effective_capabilities-known admin c h =
    subset_sound (effective_capabilities admin) capabilities c refl h
effective_capabilities-known examiner c h =
    subset_sound (effective_capabilities examiner) capabilities c refl h
effective_capabilities-known template_author c h =
    subset_sound (effective_capabilities template_author) capabilities c refl h
effective_capabilities-known reviewer c h =
    subset_sound (effective_capabilities reviewer) capabilities c refl h
effective_capabilities-known learner c h =
    subset_sound (effective_capabilities learner) capabilities c refl h
effective_capabilities-known auditor c h =
    subset_sound (effective_capabilities auditor) capabilities c refl h

-- What the documents reserve to owners.
abbrev pub reserved : List String
reserved = "organization.delete" ∷ "member.grant_owner" ∷ "system_backup.run" ∷ []

owner_only-reserved : (c : String) → contains owner_only c ≡ contains reserved c
owner_only-reserved c = refl

withheld :
    (r : Role) (c : String)
    → disjoint high_risk_capabilities (effective_capabilities r) ≡ true
    → contains high_risk_capabilities c ≡ true
    → ¬ (contains (effective_capabilities r) c ≡ true)
withheld r c d h m = cc (disjoint_sound high_risk_capabilities (effective_capabilities r) c d h)

-- Whoever holds a high-risk capability is an owner or an administrator, and an owner where the
-- capability is reserved to owners.
pub high_risk_holder :
    (r : Role) (c : String)
    → contains high_risk_capabilities c ≡ true
    → contains (effective_capabilities r) c ≡ true
    → (r ≡ owner) ⊎ ((r ≡ admin) × (contains owner_only c ≡ false))
unfolding effective_capabilities
high_risk_holder owner c h m = inl refl
high_risk_holder admin c h m = elim (Bool-cases (contains owner_only c)) [
  | inl reserved ↦ absurd (cc (keep_out owner_only capabilities c reserved))
  | inr open_to ↦ inr (refl, open_to)
]
high_risk_holder examiner c h m = absurd (withheld examiner c refl h m)
high_risk_holder template_author c h m = absurd (withheld template_author c refl h m)
high_risk_holder reviewer c h m = absurd (withheld reviewer c refl h m)
high_risk_holder learner c h m = absurd (withheld learner c refl h m)
high_risk_holder auditor c h m = absurd (withheld auditor c refl h m)

kept_back :
    (r : Role) (c : String)
    → disjoint reserved (effective_capabilities r) ≡ true
    → contains reserved c ≡ true
    → contains (effective_capabilities r) c ≡ true
    → r ≡ owner
kept_back r c d h m = absurd (cc (disjoint_sound reserved (effective_capabilities r) c d h, m))

reserved-owner :
    (r : Role) (c : String)
    → contains reserved c ≡ true
    → contains (effective_capabilities r) c ≡ true
    → r ≡ owner
unfolding effective_capabilities
reserved-owner owner c h m = refl
reserved-owner admin c h m = kept_back admin c refl h m
reserved-owner examiner c h m = kept_back examiner c refl h m
reserved-owner template_author c h m = kept_back template_author c refl h m
reserved-owner reviewer c h m = kept_back reviewer c refl h m
reserved-owner learner c h m = kept_back learner c refl h m
reserved-owner auditor c h m = kept_back auditor c refl h m

-- Deleting the organization, granting ownership and running a system backup are for owners alone,
-- and an administrator has every other capability there is.
pub reserved_to_owners :
    (r : Role) (c : String)
    → (contains reserved c ≡ true → contains (effective_capabilities r) c ≡ true → r ≡ owner)
      × (contains reserved c ≡ false
          → contains capabilities c ≡ true
          → contains (effective_capabilities admin) c ≡ true)
unfolding effective_capabilities
reserved_to_owners r c = (
  reserved-owner r c,
  λ free known. keep_in owner_only capabilities c (sym (owner_only-reserved c) ∙ free) ∙ known,
)
