-- ===== src/Assignments/Settings.antt =====
-- `freeze_session_settings` of src/ai_examiner/services/assignments.py.
use ai_examiner.Prelude.{
  ltb, if◌then◌else◌, Bool-cases, is_some, or_default, Dict, lookup, insert, lookup-insert, Result,
  ok, err, ◌>>=◌, >>=-eq-ok, ℕ, String, ◌≡◌, refl, inl, inr, Bool, true, false, not, ◌&&◌, ◌||◌,
  Option, none, some, [], ◌∷◌, arith, str_eq,
}
use ai_examiner.Assignments.{
  Mode, practice, exam, AssignmentError, assignment_mode_invalid, assignment_setting_unknown,
  assignment_exam_assistance_forbidden, is_exam,
}

-- A value of a setting.
pub data Setting : Type 0 where
  null : Setting
  number : ℕ → Setting
  flag : Bool → Setting
  text : String → Setting

-- What Python takes for true.
abbrev pub is_true : Setting → Bool
is_true null = false
is_true (number n) = ltb 0 n
is_true (flag b) = b
is_true (text s) = not (str_eq s "")

abbrev defaults : (followups : ℕ) (assistance : Bool) → Dict Setting
defaults followups assistance =
    ("question_limit", number 5)
    ∷ ("max_followups_per_question", number followups)
    ∷ ("question_strategy", text "fixed")
    ∷ ("session_mode", text "defense")
    ∷ ("allow_hints", flag assistance)
    ∷ ("allow_corrections", flag assistance)
    ∷ ("profile", null)
    ∷ ("template_version_id", null)
    ∷ []

-- `MODE_DEFAULT_SETTINGS`
abbrev pub mode_default_settings : Mode → Dict Setting
mode_default_settings practice = defaults 2 true
mode_default_settings exam = defaults 1 false

abbrev mode_of : String → Option Mode
mode_of s =
    if str_eq s "practice" then some practice else (if str_eq s "exam" then some exam else none)

-- The choices of the teacher, one after the other.
unfoldable pub merge : Dict Setting → Dict Setting → Result AssignmentError (Dict Setting)
merge frozen [] = ok frozen
merge frozen ((key, value) ∷ requested) =
    let rest = merge (insert key value frozen) requested in
    if is_some (lookup key frozen) then rest else err assignment_setting_unknown

-- `frozen[key]`, which is there for the keys that are read.
abbrev pub assists : String → Dict Setting → Bool
assists key frozen = is_true (or_default (lookup key frozen) null)

abbrev locked : Mode → Dict Setting → Result AssignmentError (Dict Setting)
locked mode frozen =
    if is_exam mode && (assists "allow_hints" frozen || assists "allow_corrections" frozen)
    then err assignment_exam_assistance_forbidden
    else ok (insert "exam_lock" (flag (is_exam mode)) frozen)

abbrev pub freeze_mode : Option Mode → Dict Setting → Result AssignmentError (Dict Setting)
freeze_mode none requested = err assignment_mode_invalid
freeze_mode (some mode) requested = do
  frozen ← merge (mode_default_settings mode) requested
  locked mode frozen

unfoldable pub freeze_session_settings :
    String → Dict Setting → Result AssignmentError (Dict Setting)
freeze_session_settings mode requested = freeze_mode (mode_of mode) requested

locked-inversion :
    (frozen final : Dict Setting)
    → locked exam frozen ≡ ok final
    → (final ≡ insert "exam_lock" (flag true) frozen)
      × ((assists "allow_hints" frozen ≡ false) × (assists "allow_corrections" frozen ≡ false))
locked-inversion frozen final h =
    elim (Bool-cases (assists "allow_hints" frozen || assists "allow_corrections" frozen)) [
      | inl assisted ↦ absurd (cc (rw assisted at h))
      | inr bare ↦ (cc (rw bare at h), (ground arith, ground arith))
    ]

-- The settings of an exam that are frozen carry the lock and neither hints nor corrections,
-- whatever the teacher asks for.
pub exam_settings_locked :
    (requested final : Dict Setting)
    → freeze_session_settings "exam" requested ≡ ok final
    → (lookup "exam_lock" final ≡ some (flag true))
      × ((assists "allow_hints" final ≡ false) × (assists "allow_corrections" final ≡ false))
unfolding freeze_session_settings
exam_settings_locked requested final h =
    let (frozen, _, e) =
      >>=-eq-ok (merge (mode_default_settings exam) requested) (λ f. locked exam f) h in
    let (same, (no_hints, no_corrections)) = locked-inversion frozen final e in
    rw
      (
        same,
        lookup-insert "exam_lock" "exam_lock" (flag true) frozen,
        lookup-insert "exam_lock" "allow_hints" (flag true) frozen,
        lookup-insert "exam_lock" "allow_corrections" (flag true) frozen,
      )
      (refl, (no_hints, no_corrections))
