-- ===== src/Conversation/Lock.antt =====
-- What `decide` may do under an exam's lock.
use ai_examiner.Prelude.{
  Bool-cases, or_default, keep, contains, ℕ, String, ◌≡◌, refl, ap, inl, inr, Bool, true, false,
  not, ◌||◌, some, List, [], ◌∷◌, ◌++◌, arith, str_eq, eq_iff,
}
use ai_examiner.Conversation.Actions.{effective_actions, authorized_within, authorized_ends}
use ai_examiner.Conversation.{
  ConversationPolicy, Config, Analysis, default_allowed_actions, or_list, is_locked_action,
  locked_actions, lock_conversation_policy, Decision, allows_by_default, max_followups, request,
  audited, decide,
}

contains-append :
    (xs ys : List String) (s : String) → contains (xs ++ ys) s ≡ (contains xs s || contains ys s)
contains-append [] ys s = refl
contains-append (x ∷ xs) ys s = ground (arith, contains-append xs ys s)

contains-keep :
    (p : String → Bool) (xs : List String) (s : String)
    → p s ≡ false
    → contains (keep p xs) s ≡ false
contains-keep p [] s h = refl
contains-keep p (x ∷ xs) s h = ground (arith, eq_iff x s, contains-keep p xs s h)

-- A locked policy allows an end, and neither a hint nor a correction.
locked_actions_lem :
    (actions : List String)
    → (contains (locked_actions actions) "END" ≡ true)
      × ((contains (locked_actions actions) "GIVE_HINT" ≡ false)
          × (contains (locked_actions actions) "CORRECT" ≡ false))
locked_actions_lem actions =
    let allowed = keep (λ action. not (is_locked_action action)) actions in
    let no_hint =
      contains-keep (λ action. not (is_locked_action action)) actions "GIVE_HINT" refl in
    let no_correction =
      contains-keep (λ action. not (is_locked_action action)) actions "CORRECT" refl in
    elim (Bool-cases (contains allowed "END")) [
      | inl ends ↦ rw ends (ends, (no_hint, no_correction))
      | inr no_end ↦
          rw
            (
              no_end,
              contains-append allowed ("END" ∷ []) "END",
              contains-append allowed ("END" ∷ []) "GIVE_HINT",
              contains-append allowed ("END" ∷ []) "CORRECT",
              no_end,
              no_hint,
              no_correction,
            )
            (refl, (refl, refl))
    ]

apart :
    (xs : List String) (a b : String)
    → contains xs a ≡ true
    → contains xs b ≡ false
    → str_eq a b ≡ false
apart xs a b there missing = elim (Bool-cases (str_eq a b)) [
  | inr differ ↦ differ
  | inl same ↦
      let equal : a ≡ b = ground (arith, eq_iff a b) in
      absurd (cc (missing, ap (contains xs) equal, there))
]

locked_effective :
    (policy : ConversationPolicy)
    → effective_actions (lock_conversation_policy policy) ≡ locked_actions policy.allowed_actions
unfolding lock_conversation_policy
locked_effective policy =
    nonempty_actions (locked_actions policy.allowed_actions)
      (locked_actions_lem policy.allowed_actions).0
  where
    nonempty_actions :
        (xs : List String) → contains xs "END" ≡ true → or_list xs default_allowed_actions ≡ xs
    nonempty_actions [] h = cc
    nonempty_actions (x ∷ xs) h = refl

-- Under an exam's lock, whatever the template, the configuration and the analysis say, there is a
-- decision, and it is neither a hint nor a correction.
pub locked_decides :
    (analysis : Analysis) (attempts : ℕ) (followups : List String) (config : Config)
    (is_last_question : Bool) (policy : ConversationPolicy)
    → (d : Decision) × (decide analysis attempts followups config is_last_question
          (lock_conversation_policy policy)
        ≡ some d)
      × (str_eq d.action "GIVE_HINT" ≡ false)
      × (str_eq d.action "CORRECT" ≡ false)
unfolding decide
locked_decides analysis attempts followups config is_last_question policy =
    let locked = lock_conversation_policy policy in
    let allowed = effective_actions locked in
    let (ends, (no_hint, no_correction)) = locked_actions_lem policy.allowed_actions in
    let same = locked_effective policy in
    let most = max_followups locked config in
    let hints_allowed = allows_by_default locked.hints (or_default config.allow_hints true) in
    let candidates = or_list analysis.followup_candidates followups in
    let requested = request analysis attempts candidates hints_allowed most is_last_question in
    let (r, chosen) =
      authorized_ends requested allowed is_last_question attempts most candidates (rw same ends) in
    let within =
      authorized_within requested r allowed is_last_question attempts most candidates chosen in
    (
      _,
      ap (audited locked allowed requested) chosen,
      apart allowed r.action "GIVE_HINT" within (rw same no_hint),
      apart allowed r.action "CORRECT" within (rw same no_correction),
    )
