-- ===== src/Conversation/Actions.antt =====
-- The actions that `decide` of src/ai_examiner/agents/policy.py takes.
use mathlib.Core.Path.{subst}
use mathlib.Core.Option.{some-injective}
use ai_examiner.Prelude.{
  ltb, ◌==◌, Bool-cases, or_default, Option-cases, contains, ℕ, ◌<◌, String, ◌≡◌, refl, sym, ap,
  ◌⊎◌, inl, inr, Bool, true, false, not, ◌&&◌, ◌||◌, Option, none, some, List, arith, str_eq,
}
use ai_examiner.Conversation.{
  ConversationPolicy, Config, Analysis, default_allowed_actions, or_list, Reason, Requested,
  Decision, plain, nonempty, allows_by_default, max_followups, request, authorized, audited, decide,
}

-- The actions that `decide` keeps to.
abbrev pub effective_actions : ConversationPolicy → List String
effective_actions policy = or_list policy.allowed_actions default_allowed_actions

pub authorized_within :
    (requested d : Requested) (allowed : List String) (is_last_question : Bool) (attempts most : ℕ)
    (candidates : List String)
    → authorized requested allowed is_last_question attempts most candidates ≡ some d
    → contains allowed d.action ≡ true
unfolding authorized
authorized_within requested d allowed is_last_question attempts most candidates h = ground arith

requested_followup :
    (analysis : Analysis) (attempts most : ℕ) (candidates : List String)
    (hints_allowed is_last_question : Bool)
    → str_eq
        (request analysis attempts candidates hints_allowed most is_last_question).action
        "ASK_FOLLOWUP"
      ≡ true
    → attempts < most
unfolding request
requested_followup analysis attempts most candidates hints_allowed is_last_question h =
    elim (Bool-cases
      (not (or_default analysis.answered true) && (hints_allowed && attempts == 0))) [
        | inl hint ↦ absurd (cc (rw hint at h))
        | inr no_hint ↦
            elim (Bool-cases
              ((ltb analysis.coverage 720000 || nonempty analysis.errors) && ltb attempts most)) [
                | inl again ↦ ground arith
                | inr enough ↦ elim (Bool-cases is_last_question) [
                  | inl last ↦ absurd (cc (rw (no_hint, enough, last) at h))
                  | inr more ↦ absurd (cc (rw (no_hint, enough, more) at h))
                ]
              ]
      ]

not_followup :
    (reason : Reason) (action : String) (d : Requested)
    → some (plain action reason) ≡ some d
    → str_eq action "ASK_FOLLOWUP" ≡ false
    → str_eq d.action "ASK_FOLLOWUP" ≡ true
    → ⊥
not_followup reason action d e apart h =
    let same : action ≡ d.action =
      ap (λ (r : Requested). r.action) (some-injective (plain action reason) d e) in
    cc (apart, ap (λ a. str_eq a "ASK_FOLLOWUP") same, h)

authorized_followup :
    (requested d : Requested) (allowed : List String) (is_last_question : Bool) (attempts most : ℕ)
    (candidates : List String)
    → authorized requested allowed is_last_question attempts most candidates ≡ some d
    → str_eq d.action "ASK_FOLLOWUP" ≡ true
    → (requested ≡ d) ⊎ (attempts < most)
unfolding authorized
authorized_followup requested d allowed is_last_question attempts most candidates h ask =
    elim (Bool-cases (contains allowed requested.action)) [
      | inl may ↦ inl (some-injective requested d (rw may at h))
      | inr may_not ↦ elim (Bool-cases (is_last_question && contains allowed "END")) [
        | inl over ↦ absurd (not_followup _ "END" d (rw (may_not, over) at h) refl ask)
        | inr go_on ↦
            elim (Bool-cases (
              str_eq requested.action "GIVE_HINT"
              && (contains allowed "ASK_FOLLOWUP" && ltb attempts most))) [
                | inl again ↦ inr (ground arith)
                | inr enough ↦ elim (Bool-cases (contains allowed "MOVE_ON")) [
                  | inl move ↦
                      absurd (
                        not_followup _ "MOVE_ON" d (rw (may_not, go_on, enough, move) at h) refl
                          ask)
                  | inr stay ↦ elim (Bool-cases (contains allowed "END")) [
                    | inl stop ↦ absurd (
                        not_followup _ "END" d (rw (may_not, go_on, enough, stay, stop) at h) refl
                          ask)
                    | inr stuck ↦ absurd (cc (rw (may_not, go_on, enough, stay, stuck) at h))
                  ]
                ]
              ]
      ]
    ]

-- A policy that allows an end leaves no request without an action.
pub authorized_ends :
    (requested : Requested) (allowed : List String) (is_last_question : Bool) (attempts most : ℕ)
    (candidates : List String)
    → contains allowed "END" ≡ true
    → (d : Requested) × (authorized requested allowed is_last_question attempts most candidates
        ≡ some d)
unfolding authorized
authorized_ends requested allowed is_last_question attempts most candidates ends =
    elim (Option-cases (authorized requested allowed is_last_question attempts most candidates)) [
      | inr decided ↦ decided
      | inl none_left ↦ absurd (ground arith)
    ]

audited-inversion :
    (policy : ConversationPolicy) (allowed : List String) (requested : Requested)
    (chosen : Option Requested) (d : Decision)
    → audited policy allowed requested chosen ≡ some d
    → (r : Requested) × (chosen ≡ some r)
      × (r.action ≡ d.action)
      × (d.policy_audit.effective_action ≡ d.action)
audited-inversion policy allowed requested none d h = cc
audited-inversion policy allowed requested (some r) d h =
    let fields = some-injective _ d h in
    (
      r,
      refl,
      ap (λ (x : Decision). x.action) fields,
      subst (λ (x : Decision). x.policy_audit.effective_action ≡ x.action) fields refl,
    )

-- A decision keeps to the actions that the policy allows, its audit names the action that is
-- taken, and a follow-up is asked only while follow-ups are left.
pub decide_within :
    (analysis : Analysis) (attempts : ℕ) (followups : List String) (config : Config)
    (is_last_question : Bool) (policy : ConversationPolicy) (d : Decision)
    → decide analysis attempts followups config is_last_question policy ≡ some d
    → (contains (effective_actions policy) d.action ≡ true)
      × ((d.policy_audit.effective_action ≡ d.action)
          × (str_eq d.action "ASK_FOLLOWUP" ≡ true → attempts < max_followups policy config))
unfolding decide
decide_within analysis attempts followups config is_last_question policy d h =
    let allowed = effective_actions policy in
    let most = max_followups policy config in
    let hints_allowed = allows_by_default policy.hints (or_default config.allow_hints true) in
    let candidates = or_list analysis.followup_candidates followups in
    let requested = request analysis attempts candidates hints_allowed most is_last_question in
    let (r, chosen, same, noted) =
      audited-inversion policy allowed requested
        (authorized requested allowed is_last_question attempts most candidates) d h in
    (
      subst (λ a. contains allowed a ≡ true) same
          (authorized_within requested r allowed is_last_question attempts most candidates chosen),
      (
        noted,
        λ ask.
            let asks : str_eq r.action "ASK_FOLLOWUP" ≡ true =
              subst (λ a. str_eq a "ASK_FOLLOWUP" ≡ true) (sym same) ask in
            elim (authorized_followup requested r allowed is_last_question attempts most candidates
              chosen asks) [
                | inr less ↦ less
                | inl own ↦
                    requested_followup analysis attempts most candidates hints_allowed
                      is_last_question
                      (subst (λ (x : Requested). str_eq x.action "ASK_FOLLOWUP" ≡ true) (sym own)
                        asks)
              ],
      ),
    )
