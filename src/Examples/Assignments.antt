-- ===== src/Examples/Assignments.antt =====
-- An exam with a window, its settings, and the decisions under its lock.
use Prim.Native.Char.{code}
use ai_examiner.Prelude.{
  ◌==◌, contains, Dict, lookup, insert, ok, ◌+◌, ◌≤◌, ◌<◌, ◌≡◌, refl, true, false, none, some, [],
  ◌∷◌, str_eq,
}
use ai_examiner.Assignments.{
  exam, published, Assignment, Runtime, without_separators, all_in_alphabet, normalize_join_code,
  open_state, window_state, ensure_attempt_allowed,
}
use ai_examiner.Assignments.Windows.{MayAttempt, ensure_attempt_allowed_iff}
use ai_examiner.Assignments.Settings.{
  Setting, null, number, flag, text, merge, assists, freeze_session_settings, exam_settings_locked,
}
use ai_examiner.Conversation.{
  ConversationPolicy, Config, Analysis, effective_conversation_policy, lock_conversation_policy,
  answer_insufficient, Decision, max_followups, request, authorized, decide,
}
use ai_examiner.Conversation.Actions.{effective_actions, decide_within}
use ai_examiner.Conversation.Lock.{locked_decides}

abbrev midterm : Assignment
midterm = record {
  id = "a1";
  title = "Midterm";
  mode = exam;
  status = published;
  join_code = "ABC234";
  opens_at = some 10;
  closes_at = some 20;
  max_attempts = 2;
  require_learner_key = true;
  results_released = false;
}

midterm_open : window_state midterm 15 ≡ open_state
unfolding window_state
midterm_open = refl

ensure_attempt_allowed_iff_example :
    (ensure_attempt_allowed midterm 1 (some "S1") 15 ≡ ok 2
      → MayAttempt midterm 1 (some "S1") 15 × ((2 ≡ 1 + 1) × (2 ≤ 2)))
    × (MayAttempt midterm 1 (some "S1") 15
        → ensure_attempt_allowed midterm 1 (some "S1") 15 ≡ ok (1 + 1))
ensure_attempt_allowed_iff_example = ensure_attempt_allowed_iff midterm 1 (some "S1") 15 2

-- Texts of capital letters and digits, with the dash as the separator.
abbrev capitals : Runtime
capitals = record {
  upper = λ s. s;
  is_separator = λ c. code c == 45;
  strip = λ s. s;
  sha256 = λ s. s;
}

typed_code : normalize_join_code capitals "ABC-234" ≡ some "ABC234"
unfolding normalize_join_code without_separators all_in_alphabet
typed_code = refl

abbrev asked_settings : Dict Setting
asked_settings = ("question_limit", number 8) ∷ ("allow_hints", flag false) ∷ []

abbrev exam_settings : Dict Setting
exam_settings =
    ("question_limit", number 8)
    ∷ ("max_followups_per_question", number 1)
    ∷ ("question_strategy", text "fixed")
    ∷ ("session_mode", text "defense")
    ∷ ("allow_hints", flag false)
    ∷ ("allow_corrections", flag false)
    ∷ ("profile", null)
    ∷ ("template_version_id", null)
    ∷ ("exam_lock", flag true)
    ∷ []

frozen_settings : freeze_session_settings "exam" asked_settings ≡ ok exam_settings
unfolding freeze_session_settings merge lookup insert
frozen_settings = refl

exam_settings_locked_example :
    (lookup "exam_lock" exam_settings ≡ some (flag true))
    × ((assists "allow_hints" exam_settings ≡ false)
        × (assists "allow_corrections" exam_settings ≡ false))
exam_settings_locked_example = exam_settings_locked asked_settings exam_settings frozen_settings

abbrev silent : Analysis
silent = record { answered = some false; coverage = 0; errors = []; followup_candidates = [] }

abbrev helpful : Config
helpful = record {
  max_followups_per_question = some 2;
  allow_hints = some true;
  allow_corrections = some true;
}

abbrev open_policy : ConversationPolicy
unfolding effective_conversation_policy
open_policy = effective_conversation_policy none false helpful

locked_decides_example :
    (d : Decision) × (decide silent 0
        ("Why?" ∷ [])
        helpful
        false
        (lock_conversation_policy open_policy)
      ≡ some d)
    × (str_eq d.action "GIVE_HINT" ≡ false)
    × (str_eq d.action "CORRECT" ≡ false)
locked_decides_example = locked_decides silent 0 ("Why?" ∷ []) helpful false open_policy

abbrev hint : Decision
hint = record {
  action = "GIVE_HINT";
  reason = answer_insufficient;
  followup = none;
  policy_audit = record {
    requested_action = "GIVE_HINT";
    effective_action = "GIVE_HINT";
    fell_back = false;
    hints_allowed = true;
    corrections_allowed = true;
    answer_disclosure_allowed = false;
  };
}

hint_decided : decide silent 0 ("Why?" ∷ []) helpful false open_policy ≡ some hint
unfolding decide request authorized effective_conversation_policy
hint_decided = refl

decide_within_example :
    (contains (effective_actions open_policy) "GIVE_HINT" ≡ true)
    × (("GIVE_HINT" ≡ hint.action)
        × (str_eq "GIVE_HINT" "ASK_FOLLOWUP" ≡ true → 0 < max_followups open_policy helpful))
decide_within_example =
    decide_within silent 0 ("Why?" ∷ []) helpful false open_policy hint hint_decided
