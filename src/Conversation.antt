-- ===== src/Conversation.antt =====
-- The conversation policy of an examination: `PolicyController` of src/ai_examiner/agents/policy.py,
-- `effective_conversation_policy` of services/conversation_policy.py and
-- `lock_conversation_policy` of services/assignments.py. A coverage is a number of millionths.
pub mod Actions
pub mod Lock
use ai_examiner.Prelude.{
  ltb, ◌==◌, if◌then◌else◌, or_default, length, keep, contains, ℕ, zero, suc, ◌-◌, min, String,
  Bool, true, false, not, ◌&&◌, ◌||◌, Option, none, some, List, [], ◌∷◌, ◌++◌, str_eq,
}

-- The parts of a policy dictionary; a missing key or an empty part is `none`.
pub record Assistance : Type 0 where
  pub allowed : Option Bool
  pub maximum_per_question : ℕ
  pub timing : String

pub record Interruption : Type 0 where
  pub enabled : Bool
  pub declared_enabled : Bool
  pub level : String
  pub user_can_disable : Bool

pub record ConversationPolicy : Type 0 where
  pub allowed_actions : List String
  pub max_followups_per_question : Option ℕ
  pub hints : Option Assistance
  pub corrections : Option Assistance
  pub answer_disclosure : Option Assistance
  pub active_interruption : Option Interruption
  pub exam_lock : Bool

-- The session's configuration.
pub record Config : Type 0 where
  pub max_followups_per_question : Option ℕ
  pub allow_hints : Option Bool
  pub allow_corrections : Option Bool

pub record Analysis : Type 0 where
  pub answered : Option Bool
  pub coverage : ℕ
  pub errors : List String
  pub followup_candidates : List String

-- `DEFAULT_ALLOWED_ACTIONS`
abbrev pub default_allowed_actions : List String
default_allowed_actions = "ASK_FOLLOWUP" ∷ "GIVE_HINT" ∷ "MOVE_ON" ∷ "END" ∷ []

-- `xs or ys`
abbrev pub or_list : List String → List String → List String
or_list [] ys = ys
or_list (x ∷ xs) ys = x ∷ xs

-- The template's `conversation` section.
pub record Conversation : Type 0 where
  pub allowed_actions : List String
  pub max_followups_per_question : Option ℕ
  pub hints : Option Assistance
  pub corrections : Option Assistance
  pub answer_disclosure : Option Assistance
  pub interruption_enabled : Bool
  pub interruption_level : Option String

abbrev assistance : Bool → ℕ → String → Assistance
assistance allowed maximum timing = record {
  allowed = some allowed;
  maximum_per_question = maximum;
  timing = timing;
}

unfoldable pub effective_conversation_policy :
    Option Conversation → Bool → Config → ConversationPolicy
effective_conversation_policy none user_allows config = record {
  allowed_actions = default_allowed_actions;
  max_followups_per_question = some (or_default config.max_followups_per_question 2);
  hints = some (assistance (or_default config.allow_hints true) 1 "");
  corrections =
      some (assistance (or_default config.allow_corrections true) 0 "after_independent_attempt");
  answer_disclosure = some (assistance false 0 "");
  active_interruption = some (record {
    enabled = false;
    declared_enabled = false;
    level = "off";
    user_can_disable = true;
  });
  exam_lock = false;
}
effective_conversation_policy (some c) user_allows config = record {
  allowed_actions = or_list c.allowed_actions default_allowed_actions;
  max_followups_per_question = some (or_default c.max_followups_per_question 2);
  hints = some (or_default c.hints (assistance false 0 ""));
  corrections = some (or_default c.corrections (assistance false 0 "never"));
  answer_disclosure = some (or_default c.answer_disclosure (assistance false 0 ""));
  active_interruption = some (record {
    enabled = c.interruption_enabled && user_allows;
    declared_enabled = c.interruption_enabled;
    level = or_default c.interruption_level "off";
    user_can_disable = true;
  });
  exam_lock = false;
}

-- `LOCKED_ACTIONS`
abbrev pub is_locked_action : String → Bool
is_locked_action action = str_eq action "GIVE_HINT" || str_eq action "CORRECT"

-- The allowed actions of a locked policy: no assistance, and always an end.
abbrev pub locked_actions : List String → List String
locked_actions actions =
    let allowed = keep (λ action. not (is_locked_action action)) actions in
    if contains allowed "END" then allowed else allowed ++ "END" ∷ []

unfoldable pub lock_conversation_policy : ConversationPolicy → ConversationPolicy
lock_conversation_policy policy = record policy {
  allowed_actions = locked_actions policy.allowed_actions;
  hints = some (assistance false 0 "");
  corrections = some (assistance false 0 "never");
  answer_disclosure = some (assistance false 0 "");
  exam_lock = true;
}

pub data Reason : Type 0 where
  answer_insufficient incomplete_or_problematic question_limit_reached : Reason
  sufficient_evidence authorized_terminal_fallback : Reason
  authorized_followup_fallback authorized_move_on_fallback : Reason

pub record Requested : Type 0 where
  pub action : String
  pub reason : Reason
  pub followup : Option String

-- `policy_audit`, without the copy of the allowed actions and of the interruption.
pub record PolicyAudit : Type 0 where
  pub requested_action : String
  pub effective_action : String
  pub fell_back : Bool
  pub hints_allowed : Bool
  pub corrections_allowed : Bool
  pub answer_disclosure_allowed : Bool

pub record Decision : Type 0 where
  pub action : String
  pub reason : Reason
  pub followup : Option String
  pub policy_audit : PolicyAudit

abbrev nth : ℕ → List String → Option String
nth n [] = none
nth zero (x ∷ xs) = some x
nth (suc n) (x ∷ xs) = nth n xs

-- `candidates[min(attempts, len(candidates) - 1)] if candidates else None`
abbrev pub followup_at : ℕ → List String → Option String
followup_at attempts candidates = nth (min attempts (length candidates - 1)) candidates

abbrev pub plain : String → Reason → Requested
plain action reason = record { action = action; reason = reason; followup = none }

abbrev pub nonempty : List String → Bool
nonempty [] = false
nonempty (x ∷ xs) = true

-- `(part or {}).get("allowed", default)`
abbrev pub allows_by_default : Option Assistance → Bool → Bool
allows_by_default none default_value = default_value
allows_by_default (some a) default_value = or_default a.allowed default_value

abbrev pub max_followups : ConversationPolicy → Config → ℕ
max_followups policy config =
    or_default policy.max_followups_per_question (or_default config.max_followups_per_question 2)

-- The action that `decide` asks for.
unfoldable pub request :
    Analysis → ℕ → List String → (hints_allowed : Bool) → (max_followups : ℕ) → Bool → Requested
request analysis attempts candidates hints_allowed max_followups is_last_question =
    if not (or_default analysis.answered true) && (hints_allowed && attempts == 0)
    then plain "GIVE_HINT" answer_insufficient
    else (if (ltb analysis.coverage 720000 || nonempty analysis.errors)
          && ltb attempts max_followups
        then record {
          action = "ASK_FOLLOWUP";
          reason = incomplete_or_problematic;
          followup = followup_at attempts candidates;
        }
        else (if is_last_question
            then plain "END" question_limit_reached
            else plain "MOVE_ON" sufficient_evidence))

-- What `_authorize` decides; `none` where it raises, with no safe action left.
unfoldable pub authorized :
    Requested → List String → Bool → (attempts max_followups : ℕ) → List String → Option Requested
authorized requested allowed is_last_question attempts max_followups candidates =
    if contains allowed requested.action
    then some requested
    else (if is_last_question && contains allowed "END"
        then some (plain "END" authorized_terminal_fallback)
        else (if str_eq requested.action "GIVE_HINT"
              && (contains allowed "ASK_FOLLOWUP" && ltb attempts max_followups)
            then some (record {
              action = "ASK_FOLLOWUP";
              reason = authorized_followup_fallback;
              followup = followup_at attempts candidates;
            })
            else (if contains allowed "MOVE_ON"
                then some (plain "MOVE_ON" authorized_move_on_fallback)
                else (if contains allowed "END"
                    then some (plain "END" authorized_terminal_fallback)
                    else none))))

abbrev pub audited :
    ConversationPolicy → List String → Requested → Option Requested → Option Decision
audited policy allowed requested none = none
audited policy allowed requested (some d) = some (record {
  action = d.action;
  reason = d.reason;
  followup = d.followup;
  policy_audit = record {
    requested_action = requested.action;
    effective_action = d.action;
    fell_back = not (contains allowed requested.action);
    hints_allowed = allows_by_default policy.hints true;
    corrections_allowed = allows_by_default policy.corrections true;
    answer_disclosure_allowed = allows_by_default policy.answer_disclosure false;
  };
})

unfoldable pub decide :
    Analysis → ℕ → (followups : List String) → Config → Bool → ConversationPolicy → Option Decision
decide analysis attempts followups config is_last_question policy =
    let allowed = or_list policy.allowed_actions default_allowed_actions in
    let most = max_followups policy config in
    let hints_allowed = allows_by_default policy.hints (or_default config.allow_hints true) in
    let candidates = or_list analysis.followup_candidates followups in
    let requested = request analysis attempts candidates hints_allowed most is_last_question in
    audited policy allowed requested
      (authorized requested allowed is_last_question attempts most candidates)
