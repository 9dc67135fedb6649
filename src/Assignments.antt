-- ===== src/Assignments.antt =====
-- src/ai_examiner/services/assignments.py: join codes, frozen settings, windows, attempts and what
-- a learner may see. A time is a number of microseconds.
pub mod Windows
pub mod Codes
pub mod Settings
use Prim.Native.Char.{Char, code}
use ai_examiner.Prelude.{
  ltb, leb, ◌==◌, if◌then◌else◌, or_default, opt_eq, truthy, Result, ok, err, ◌>>◌, guard, ℕ, suc,
  ◌+◌, String, Bool, true, false, not, ◌&&◌, ◌||◌, Option, none, some, str_eq,
}

pub data Mode : Type 0 where
  practice exam : Mode

pub data AssignmentStatus : Type 0 where
  published closed : AssignmentStatus

-- `AssignmentError` with its code.
pub data AssignmentError : Type 0 where
  assignment_mode_invalid assignment_setting_unknown : AssignmentError
  assignment_exam_assistance_forbidden : AssignmentError
  assignment_closed assignment_scheduled assignment_ended : AssignmentError
  learner_key_required attempt_limit_reached : AssignmentError

pub record Assignment : Type 0 where
  pub id : String
  pub title : String
  pub mode : Mode
  pub status : AssignmentStatus
  pub join_code : String
  pub opens_at : Option ℕ
  pub closes_at : Option ℕ
  pub max_attempts : ℕ
  pub require_learner_key : Bool
  pub results_released : Bool

pub record AssignmentAttempt : Type 0 where
  pub id : String
  pub principal_id : Option String
  pub attempt_number : ℕ
  pub token_hash : String

-- Python's text functions and the SHA-256 of a token: `str.upper`, the class `[\s\-_]`,
-- `str.strip`, and `hexdigest`.
pub record Runtime : Type 0 where
  pub upper : String → String
  pub is_separator : Char → Bool
  pub strip : String → String
  pub sha256 : String → String

abbrev pub is_practice : Mode → Bool
is_practice practice = true
is_practice exam = false

abbrev pub is_exam : Mode → Bool
is_exam exam = true
is_exam practice = false

abbrev pub is_published : AssignmentStatus → Bool
is_published published = true
is_published closed = false

-- The characters of `JOIN_CODE_ALPHABET`: the letters without I and O, and the digits from 2.
abbrev pub in_alphabet : Char → Bool
in_alphabet c =
    let n = code c in
    (leb b'A' n && (leb n b'Z' && (not (n == b'I') && not (n == b'O'))))
    || (leb b'2' n && leb n b'9')

-- `_JOIN_CODE_SEPARATORS.sub("", raw)`
unfoldable pub without_separators : Runtime → String → String
without_separators rt String.[] = ""
without_separators rt (String.◌∷◌ c s) =
    let rest = without_separators rt s in if rt.is_separator c then rest else String.◌∷◌ c rest

unfoldable pub all_in_alphabet : String → Bool
all_in_alphabet String.[] = true
all_in_alphabet (String.◌∷◌ c s) = in_alphabet c && all_in_alphabet s

abbrev pub size : String → ℕ
size String.[] = 0
size (String.◌∷◌ c s) = suc (size s)

unfoldable pub normalize_join_code : Runtime → String → Option String
normalize_join_code rt raw =
    let code = rt.upper (without_separators rt raw) in
    if not (size code == 6) then none else (if all_in_alphabet code then some code else none)

pub data WindowState : Type 0 where
  closed_state scheduled open_state ended : WindowState

abbrev pub before : ℕ → Option ℕ → Bool
before now none = false
before now (some opens) = ltb now opens

abbrev pub reached : ℕ → Option ℕ → Bool
reached now none = false
reached now (some closes) = leb closes now

unfoldable pub window_state : Assignment → ℕ → WindowState
window_state a now =
    if not (is_published a.status)
    then closed_state
    else (if before now a.opens_at
        then scheduled
        else (if reached now a.closes_at then ended else open_state))

abbrev pub state_error : WindowState → Result AssignmentError (Unit {0})
state_error open_state = ok tt
state_error closed_state = err assignment_closed
state_error scheduled = err assignment_scheduled
state_error ended = err assignment_ended

unfoldable pub ensure_window_open : Assignment → ℕ → Result AssignmentError (Unit {0})
ensure_window_open a now = state_error (window_state a now)

unfoldable pub ensure_attempt_allowed :
    Assignment → ℕ → Option String → ℕ → Result AssignmentError ℕ
ensure_attempt_allowed a prior_attempts learner_key now = do
  ensure_window_open a now
  guard (not (a.require_learner_key && not (truthy learner_key))) learner_key_required
  guard (not (leb a.max_attempts prior_attempts)) attempt_limit_reached
  ok (prior_attempts + 1)

unfoldable pub normalize_learner_key : Runtime → Option String → Option String
normalize_learner_key rt raw =
    let value = rt.strip (or_default raw "") in
    if str_eq value "" then none else some (rt.upper value)

unfoldable pub verify_attempt_token : Runtime → Option String → String → Bool
verify_attempt_token rt none token_hash = false
verify_attempt_token rt (some token) token_hash =
    not (str_eq token "") && str_eq (rt.sha256 token) token_hash

unfoldable pub attempt_belongs_to :
    Runtime → AssignmentAttempt → (principal_id token : Option String) → Bool
attempt_belongs_to rt attempt principal_id token =
    (truthy principal_id && opt_eq attempt.principal_id principal_id)
    || verify_attempt_token rt token attempt.token_hash

unfoldable pub results_visible : Assignment → Bool
results_visible a = is_practice a.mode || a.results_released
