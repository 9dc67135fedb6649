-- ===== src/RateLimit/Eviction.antt =====
-- Requests to the limiter of src/ai_examiner/services/rate_limit.py that may prune its table.
use mathlib.Core.Path.{subst}
use ai_examiner.Prelude.{
  leb, if◌then◌else◌, Bool-cases, Option-cases, length, lookup, insert, lookup-insert, ℕ, ◌≤◌, ◌<◌,
  String, ◌≡◌, refl, sym, ap, ◌∙◌, inl, inr, none, some, List, [], ◌∷◌, arith, str_eq, eq_iff,
}
use ai_examiner.RateLimit.{
  max_tracked_keys, Outcome, SlidingWindowLimiter, fresh, expire, admit, prune, track, check,
}
use ai_examiner.RateLimit.Deques.{IsOrdered, admit-IsOrdered, AreAlike, alike-admit}
use ai_examiner.RateLimit.Table.{
  events_of, Request, admissions, times_of, InOrder, times_of-Monotonic,
}
use ai_examiner.RateLimit.Window.{count_window, admitted, admitted-le-limit}
use ai_examiner.RateLimit.Pruning.{
  IsTable, later-IsTable, insert-IsTable, lookup-IsOrdered, live, live-IsTable, live-AreAlike,
}

-- At a request at `now`, fewer than 50,000 keys have a last admission inside the window, so a full
-- table is pruned and not cleared.
abbrev pub HasSpace : ℕ → ℕ → SlidingWindowLimiter → Type 0
HasSpace now w s = length (live now w s.events) < max_tracked_keys

-- A table in order that no request from `now` on can tell from the one before.
abbrev IsLike : ℕ → ℕ → SlidingWindowLimiter → SlidingWindowLimiter → Type 0
IsLike now w s s' =
    IsTable now s'.events × ((j : String) → AreAlike w now (events_of s' j) (events_of s j))

abbrev room_of : ℕ → ℕ → SlidingWindowLimiter → SlidingWindowLimiter
room_of now w s = if leb max_tracked_keys (length s.events) then prune now w s else s

prune-live :
    (now w : ℕ) (s : SlidingWindowLimiter)
    → HasSpace now w s
    → prune now w s ≡ record { events = live now w s.events }
unfolding prune
prune-live now w s space = ground arith

room-IsLike :
    (now w : ℕ) (s : SlidingWindowLimiter)
    → HasSpace now w s
    → IsTable now s.events
    → IsLike now w s (room_of now w s)
room-IsLike now w s space h = elim (Bool-cases (leb max_tracked_keys (length s.events))) [
  | inl full ↦
      rw (full, prune-live now w s space)
        (live-IsTable now w s.events h, λ j. live-AreAlike now w j s.events h)
  | inr room ↦ rw room (h, λ j t le. refl)
]

insert-IsLike :
    (now w : ℕ) (key : String) (s room : SlidingWindowLimiter)
    → IsLike now w s room
    → IsLike now w s (record { events = insert key (events_of room key) room.events })
insert-IsLike now w key s room (h, alike) = (
  insert-IsTable now key (events_of room key) room.events (lookup-IsOrdered now key room.events h)
      h,
  λ j. rw (lookup-insert key j (events_of room key) room.events) (elim (Bool-cases (str_eq key j)) [
    | inl same ↦ rw same (rw ((eq_iff key j).0 same) (alike j))
    | inr other ↦ rw other (alike j)
  ]),
)

track_known :
    (key : String) (now w : ℕ) (s : SlidingWindowLimiter) (d : List ℕ)
    → lookup key s.events ≡ some d
    → track key now w s ≡ (s, d)
unfolding track
track_known key now w s d found = rw (track, found) refl

track_new :
    (key : String) (now w : ℕ) (s : SlidingWindowLimiter)
    → lookup key s.events ≡ none
    → track key now w s ≡ (
      record { events = insert key (events_of (room_of now w s) key) (room_of now w s).events },
      events_of (room_of now w s) key,
    )
unfolding track
track_new key now w s absent = rw (track, absent) refl

-- What tracking a key gives: a table like the one before, and a deque like the key's own.
abbrev IsTracked : String → ℕ → ℕ → SlidingWindowLimiter → SlidingWindowLimiter × List ℕ → Type 0
IsTracked key now w s (tracked, d) =
    IsLike now w s tracked × IsOrdered now d × AreAlike w now d (events_of s key)

track-IsTracked :
    (key : String) (now w : ℕ) (s : SlidingWindowLimiter)
    → HasSpace now w s
    → IsTable now s.events
    → IsTracked key now w s (track key now w s)
track-IsTracked key now w s space h = elim (Option-cases (lookup key s.events)) [
  | inl absent ↦
      let room = room-IsLike now w s space h in
      rw (track_new key now w s absent) (
        insert-IsLike now w key s (room_of now w s) room,
        lookup-IsOrdered now key (room_of now w s).events room.0,
        room.1 key,
      )
  | inr (d, found) ↦ rw (track_known key now w s d found) (
    (h, λ j t le. refl),
    rw found at (lookup-IsOrdered now key s.events h),
    λ t le. rw found refl,
  )
]

-- A request is answered as the key's own deque answers it, and no later request can tell any
-- deque of the new table from what that answer, or the table before, leaves.
abbrev IsChecked :
    String → ℕ → ℕ → ℕ → SlidingWindowLimiter → Outcome × SlidingWindowLimiter → Type 0
IsChecked key limit w now s (outcome, s') =
    (outcome ≡ (admit limit w now (events_of s key)).0)
    × IsTable now s'.events
    × ((j : String)
        → AreAlike w now (events_of s' j)
            (if str_eq key j then (admit limit w now (events_of s key)).1 else events_of s j))

check-IsChecked :
    (key : String) (limit w now : ℕ) (s : SlidingWindowLimiter)
    → HasSpace now w s
    → IsTable now s.events
    → IsChecked key limit w now s (check key limit w now s)
unfolding check
check-IsChecked key limit w now s space h =
    let ((ordered, alike), deque, own) = track-IsTracked key now w s space h in
    let (tracked, d) = track key now w s in
    let same_answer = alike-admit limit w now d (events_of s key) own in
    (
      ap (λ answer. answer.0) same_answer,
      insert-IsTable now key (admit limit w now d).1 tracked.events
          (admit-IsOrdered limit w now now d (omega arith) deque) ordered,
      λ j.
          rw (lookup-insert key j (admit limit w now d).1 tracked.events)
            (elim (Bool-cases (str_eq key j)) [
              | inl same ↦ rw same (λ t le. ap (λ answer. expire t w answer.1) same_answer)
              | inr other ↦ rw other (alike j)
            ]),
    )

-- Every request of the run meets a table that `HasSpace`.
abbrev pub IsNeverCleared : ℕ → ℕ → SlidingWindowLimiter → List Request → Type 0
IsNeverCleared limit window s [] = Unit
IsNeverCleared limit window s (r ∷ rs) =
    HasSpace r.at window s × IsNeverCleared limit window (check r.key limit window r.at s).1 rs

later-AreAlike : (w now t : ℕ) (d d' : List ℕ) → now ≤ t → AreAlike w now d d' → AreAlike w t d d'
later-AreAlike w now t d d' le alike u later = alike u (omega arith)

-- One key's admissions are those of its deque alone, however the keys interleave and whatever is
-- pruned in between.
admissions-admitted :
    (key : String) (limit w now : ℕ) (s : SlidingWindowLimiter) (d : List ℕ) (rs : List Request)
    → IsTable now s.events
    → AreAlike w now (events_of s key) d
    → InOrder now rs
    → IsNeverCleared limit w s rs
    → admissions key limit w s rs ≡ admitted limit w d (times_of key rs)
unfolding admissions admitted
admissions-admitted key limit w now s d [] h alike ordered space = refl
admissions-admitted key limit w now s d (r ∷ rs) h alike (le, ordered) (space, spaces) =
    let t = r.at in
    let (answer, h', like) =
      check-IsChecked r.key limit w t s space (later-IsTable now t s.events le h) in
    let s' = (check r.key limit w t s).1 in
    let alike_now = later-AreAlike w now t (events_of s key) d le alike in
    elim (Bool-cases (str_eq r.key key)) [
      | inl same ↦
          let its_key = (eq_iff r.key key).0 same in
          let same_answer =
            alike-admit limit w t (events_of s r.key) d
              (subst (λ k. AreAlike w t (events_of s k) d) (sym its_key) alike_now) in
          let own =
            subst (λ k. AreAlike w t (events_of s' k) (admit limit w t d).1) its_key
              (rw ((eq_iff r.key r.key).1 refl, same_answer) at (like r.key)) in
          let ih =
            admissions-admitted key limit w t s' (admit limit w t d).1 rs h' own ordered spaces in
          rw (same, ih, answer, same_answer) refl
      | inr other ↦
          let own : AreAlike w t (events_of s' key) d =
            λ u later. rw other at (like key u later) ∙ alike_now u later in
          rw (other, admissions-admitted key limit w t s' d rs h' own ordered spaces) refl
    ]

-- From a new limiter, over any interleaved sequence of requests in the order of their times, with
-- one limit and one window, each key is admitted at most `limit` times in any window, deques that
-- are pruned on the way included; at each request, fewer than 50,000 keys have a last admission
-- inside the window, so that the table is never cleared.
pub admissions-le-limit :
    (limit window t : ℕ) (key : String) (requests : List Request)
    → InOrder 0 requests
    → IsNeverCleared limit window fresh requests
    → count_window window t (admissions key limit window fresh requests) ≤ limit
unfolding lookup
admissions-le-limit limit window t key requests ordered space =
    rw (admissions-admitted key limit window 0 fresh [] requests tt (λ u le. refl) ordered space) (
      admitted-le-limit limit window t (times_of key requests)
        (times_of-Monotonic key 0 requests ordered))
