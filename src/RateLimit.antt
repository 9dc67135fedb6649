-- ===== src/RateLimit.antt =====
-- src/ai_examiner/services/rate_limit.py: `SlidingWindowLimiter`. The lock makes each method one
-- step. A time is a number of clock ticks; `a - b >= w` on floats is written `b + w ≤ a`, and
-- `max(0, w - (now - e))` is the truncated `e + w - now`, the same on numbers of ticks.
pub mod Window
pub mod Table
pub mod Deques
pub mod Pruning
pub mod Eviction
use ai_examiner.Prelude.{
  leb, if◌then◌else◌, or_default, length, keep, Dict, lookup, insert, ℕ, ◌+◌, ◌-◌, String, Bool,
  not, Option, none, some, List, [], ◌∷◌, ◌++◌,
}

abbrev pub max_tracked_keys : ℕ
max_tracked_keys = 50000

-- `index_error` is the exception of `events[0]` on an empty deque.
pub data Outcome : Type 0 where
  allowed : Outcome
  retry_after : ℕ → Outcome
  index_error : Outcome

pub record SlidingWindowLimiter : Type 0 where
  pub events : Dict (List ℕ)

abbrev pub fresh : SlidingWindowLimiter
fresh = record { events = [] }

-- `while events and current - events[0] >= window_seconds: events.popleft()`
unfoldable pub expire : ℕ → ℕ → List ℕ → List ℕ
expire current window [] = []
expire current window (e ∷ es) =
    if leb (e + window) current then expire current window es else e ∷ es

-- The two tests that follow the loop, on one key's deque.
unfoldable pub decide : ℕ → ℕ → ℕ → List ℕ → Outcome × List ℕ
decide limit window current [] = if leb limit 0 then (index_error, []) else (allowed, current ∷ [])
decide limit window current (e ∷ es) =
    if leb limit (length (e ∷ es))
    then (retry_after (e + window - current), e ∷ es)
    else (allowed, (e ∷ es) ++ current ∷ [])

unfoldable pub admit : ℕ → ℕ → ℕ → List ℕ → Outcome × List ℕ
unfolding expire decide
admit limit window current events = decide limit window current (expire current window events)

-- `events[-1]`
unfoldable pub last : List ℕ → Option ℕ
last [] = none
last (e ∷ []) = some e
last (e ∷ f ∷ es) = last (f ∷ es)

-- `not events or current - events[-1] >= window_seconds`
abbrev pub is_stale_at : ℕ → ℕ → Option ℕ → Bool
is_stale_at current window none = Bool.true
is_stale_at current window (some e) = leb (e + window) current

unfoldable pub is_stale : ℕ → ℕ → String × List ℕ → Bool
is_stale current window (key, events) = is_stale_at current window (last events)

unfoldable pub prune : ℕ → ℕ → SlidingWindowLimiter → SlidingWindowLimiter
prune current window s =
    let live = keep (λ entry. not (is_stale current window entry)) s.events in
    record { events = if leb max_tracked_keys (length live) then [] else live }

-- The deque of `key`, made if the table has none; a full table is pruned first.
unfoldable pub track : String → ℕ → ℕ → SlidingWindowLimiter → SlidingWindowLimiter × List ℕ
track key current window s = elim (lookup key s.events) [
  | some events ↦ (s, events)
  | none ↦
      let room = if leb max_tracked_keys (length s.events) then prune current window s else s in
      let events = or_default (lookup key room.events) [] in
      (record { events = insert key events room.events }, events)
]

unfoldable pub check : String → ℕ → ℕ → ℕ → SlidingWindowLimiter → Outcome × SlidingWindowLimiter
unfolding track admit
check key limit window current s =
    let (tracked, events) = track key current window s in
    let (outcome, events') = admit limit window current events in
    (outcome, record { events = insert key events' tracked.events })

pub reset : SlidingWindowLimiter → SlidingWindowLimiter
reset s = record { events = [] }
