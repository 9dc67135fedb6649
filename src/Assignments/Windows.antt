-- ===== src/Assignments/Windows.antt =====
-- When src/ai_examiner/services/assignments.py lets an attempt begin.
use ai_examiner.Prelude.{
  leb, Bool-cases, truthy, ok, err, ℕ, ◌+◌, ◌≤◌, ◌<◌, String, ◌≡◌, refl, ◌⊎◌, inl, inr, Bool, true,
  false, not, ◌&&◌, Option, none, some, arith, str_eq,
}
use ai_examiner.Assignments.{
  AssignmentStatus, published, closed, AssignmentError, assignment_closed, assignment_scheduled,
  assignment_ended, Assignment, is_published, WindowState, closed_state, scheduled, open_state,
  ended, before, reached, window_state, state_error, ensure_window_open, ensure_attempt_allowed,
}

-- How far a window has come; a closed assignment is beyond all of them.
abbrev pub progress : WindowState → ℕ
progress scheduled = 0
progress open_state = 1
progress ended = 2
progress closed_state = 3

-- The window of an assignment never goes back.
pub window_state-Monotonic :
    (a : Assignment) (now later : ℕ)
    → now ≤ later
    → progress (window_state a now) ≤ progress (window_state a later)
unfolding window_state
window_state-Monotonic a now later le = ground arith

-- The times at which a window lets attempts begin: from its opening on, and before its end.
abbrev pub HasOpened : Option ℕ → ℕ → Type 0
HasOpened none now = Unit
HasOpened (some opens_at) now = opens_at ≤ now

abbrev pub HasNotEnded : Option ℕ → ℕ → Type 0
HasNotEnded none now = Unit
HasNotEnded (some closes_at) now = now < closes_at

-- A learner key is given, unless none is required.
abbrev pub HasKey : Bool → Option String → Type 0
HasKey false learner_key = Unit
HasKey true none = ⊥
HasKey true (some key) = str_eq key "" ≡ false

-- The conditions of an attempt.
pub record MayAttempt (a : Assignment) (prior_attempts : ℕ) (learner_key : Option String) (now : ℕ)
    : Type 0 where
  pub status : a.status ≡ published
  pub opened : HasOpened a.opens_at now
  pub unended : HasNotEnded a.closes_at now
  pub keyed : HasKey a.require_learner_key learner_key
  pub left : prior_attempts < a.max_attempts

published_status : (s : AssignmentStatus) → is_published s ≡ true → s ≡ published
published_status published h = refl
published_status closed h = cc

before-opened : (now : ℕ) (o : Option ℕ) → before now o ≡ false → HasOpened o now
before-opened now none h = tt
before-opened now (some opens_at) h = ground (arith, h)

opened-before : (now : ℕ) (o : Option ℕ) → HasOpened o now → before now o ≡ false
opened-before now none h = refl
opened-before now (some opens_at) h = ground (arith, h)

reached-unended : (now : ℕ) (o : Option ℕ) → reached now o ≡ false → HasNotEnded o now
reached-unended now none h = tt
reached-unended now (some closes_at) h = ground (arith, h)

unended-reached : (now : ℕ) (o : Option ℕ) → HasNotEnded o now → reached now o ≡ false
unended-reached now none h = refl
unended-reached now (some closes_at) h = ground (arith, h)

keyed-given :
    (required : Bool) (key : Option String)
    → (required && not (truthy key)) ≡ false
    → HasKey required key
keyed-given false key h = tt
keyed-given true none h = cc
keyed-given true (some key) h = ground (arith, h)

given-keyed :
    (required : Bool) (key : Option String)
    → HasKey required key
    → (required && not (truthy key)) ≡ false
given-keyed false key h = refl
given-keyed true none h = absurd h
given-keyed true (some key) h = rw h refl

open-window :
    (a : Assignment) (now : ℕ)
    → window_state a now ≡ open_state
    → (a.status ≡ published) × HasOpened a.opens_at now × HasNotEnded a.closes_at now
unfolding window_state
open-window a now h = elim (Bool-cases (is_published a.status)) [
  | inr shut ↦ absurd (cc (rw shut at h))
  | inl live ↦ elim (Bool-cases (before now a.opens_at)) [
    | inl early ↦ absurd (cc (rw (live, early) at h))
    | inr opened ↦ elim (Bool-cases (reached now a.closes_at)) [
      | inl late ↦ absurd (cc (rw (live, opened, late) at h))
      | inr running ↦ (
        published_status a.status live,
        before-opened now a.opens_at opened,
        reached-unended now a.closes_at running,
      )
    ]
  ]
]

window-open :
    (a : Assignment) (now : ℕ)
    → a.status ≡ published
    → HasOpened a.opens_at now
    → HasNotEnded a.closes_at now
    → window_state a now ≡ open_state
unfolding window_state
window-open a now live opened running =
    rw (live, opened-before now a.opens_at opened, unended-reached now a.closes_at running) refl

-- What the code tests.
record IsTested (a : Assignment) (prior_attempts : ℕ) (learner_key : Option String) (now : ℕ)
    : Type 0 where
  open_now : window_state a now ≡ open_state
  keyed : (a.require_learner_key && not (truthy learner_key)) ≡ false
  left : prior_attempts < a.max_attempts

state_error-cases :
    (s : WindowState) → (s ≡ open_state) ⊎ ((e : AssignmentError) × (state_error s ≡ err e))
state_error-cases open_state = inl refl
state_error-cases closed_state = inr (assignment_closed, refl)
state_error-cases scheduled = inr (assignment_scheduled, refl)
state_error-cases ended = inr (assignment_ended, refl)

attempt-IsTested :
    (a : Assignment) (prior_attempts : ℕ) (learner_key : Option String) (now number : ℕ)
    → ensure_attempt_allowed a prior_attempts learner_key now ≡ ok number
    → IsTested a prior_attempts learner_key now × (number ≡ prior_attempts + 1)
unfolding ensure_attempt_allowed ensure_window_open
attempt-IsTested a prior_attempts learner_key now number h =
    elim (state_error-cases (window_state a now)) [
      | inr (e, shut) ↦ absurd (cc (rw shut at h))
      | inl is_open ↦ elim (Bool-cases (a.require_learner_key && not (truthy learner_key))) [
        | inl missing ↦ absurd (cc (rw (is_open, missing) at h))
        | inr keyed ↦ elim (Bool-cases (leb a.max_attempts prior_attempts)) [
          | inl spent ↦ absurd (cc (rw (is_open, keyed, spent) at h))
          | inr some_left ↦ (
            record { open_now = is_open; keyed = keyed; left = ground arith },
            cc (rw (is_open, keyed, some_left) at h),
          )
        ]
      ]
    ]

IsTested-attempt :
    (a : Assignment) (prior_attempts : ℕ) (learner_key : Option String) (now : ℕ)
    → IsTested a prior_attempts learner_key now
    → ensure_attempt_allowed a prior_attempts learner_key now ≡ ok (prior_attempts + 1)
unfolding ensure_attempt_allowed ensure_window_open
IsTested-attempt a prior_attempts learner_key now m =
    let more : leb a.max_attempts prior_attempts ≡ false = ground (arith, m.left) in
    rw (m.open_now, m.keyed, more) refl

IsTested-MayAttempt :
    (a : Assignment) (prior_attempts : ℕ) (learner_key : Option String) (now : ℕ)
    → IsTested a prior_attempts learner_key now
    → MayAttempt a prior_attempts learner_key now
IsTested-MayAttempt a prior_attempts learner_key now t =
    let (live, opened, running) = open-window a now t.open_now in
    record {
      status = live;
      opened = opened;
      unended = running;
      keyed = keyed-given a.require_learner_key learner_key t.keyed;
      left = t.left;
    }

MayAttempt-IsTested :
    (a : Assignment) (prior_attempts : ℕ) (learner_key : Option String) (now : ℕ)
    → MayAttempt a prior_attempts learner_key now
    → IsTested a prior_attempts learner_key now
MayAttempt-IsTested a prior_attempts learner_key now m = record {
  open_now = window-open a now m.status m.opened m.unended;
  keyed = given-keyed a.require_learner_key learner_key m.keyed;
  left = m.left;
}

-- An attempt is admitted exactly when the assignment is published, has opened and has not ended, as
-- far as it has such times, the learner key that it requires is given, and attempts are left; its
-- number is the next one.
pub ensure_attempt_allowed_iff :
    (a : Assignment) (prior_attempts : ℕ) (learner_key : Option String) (now number : ℕ)
    → (ensure_attempt_allowed a prior_attempts learner_key now ≡ ok number
        → MayAttempt a prior_attempts learner_key now
          × ((number ≡ prior_attempts + 1) × (number ≤ a.max_attempts)))
      × (MayAttempt a prior_attempts learner_key now
          → ensure_attempt_allowed a prior_attempts learner_key now ≡ ok (prior_attempts + 1))
ensure_attempt_allowed_iff a prior_attempts learner_key now number = (
  λ h.
      let (t, same) = attempt-IsTested a prior_attempts learner_key now number h in
      (IsTested-MayAttempt a prior_attempts learner_key now t, (same, omega (arith, same, t.left))),
  λ m.
      IsTested-attempt a prior_attempts learner_key now
        (MayAttempt-IsTested a prior_attempts learner_key now m),
)
