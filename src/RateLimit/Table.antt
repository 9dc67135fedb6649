-- ===== src/RateLimit/Table.antt =====
-- The table of deques over a sequence of requests that interleaves the keys, and the bound on the
-- keys it tracks.
use ai_examiner.Prelude.{
  leb, if◌then◌else◌, Bool-cases, or_default, length, lookup, lookup-insert, length-insert,
  length-insert_tracked, ℕ, ◌≤◌, ◌<◌, String, ◌≡◌, inl, inr, some, List, [], ◌∷◌, arith, str_eq,
  eq_iff,
}
use ai_examiner.RateLimit.{max_tracked_keys, SlidingWindowLimiter, admit, prune, track, check}
use ai_examiner.RateLimit.Window.{Monotonic, admitted_time, Monotonic-weaken}

-- The deque of a key; a key that is not tracked has an empty one.
abbrev pub events_of : SlidingWindowLimiter → String → List ℕ
events_of s key = or_default (lookup key s.events) []

lookup-track :
    (key : String) (now w : ℕ) (s : SlidingWindowLimiter)
    → lookup key (track key now w s).0.events ≡ some (track key now w s).1
unfolding track
lookup-track key now w s =
    let room = if leb max_tracked_keys (length s.events) then prune now w s else s in
    ground (
      arith,
      lookup-insert key key (or_default (lookup key room.events) []) room.events,
      eq_iff key key,
    )

pub record Request : Type 0 where
  pub key : String
  pub at : ℕ

-- The times at which the limiter admits the requests of `key`, among all that are made.
unfoldable pub admissions : String → ℕ → ℕ → SlidingWindowLimiter → List Request → List ℕ
admissions key limit window s [] = []
admissions key limit window s (r ∷ rs) =
    let (outcome, s') = check r.key limit window r.at s in
    let rest = admissions key limit window s' rs in
    if str_eq r.key key then admitted_time outcome r.at rest else rest

abbrev pub times_of : String → List Request → List ℕ
times_of key [] = []
times_of key (r ∷ rs) = let rest = times_of key rs in if str_eq r.key key then r.at ∷ rest else rest

abbrev pub InOrder : ℕ → List Request → Type 0
InOrder from [] = Unit
InOrder from (r ∷ rs) = (from ≤ r.at) × InOrder r.at rs

pub times_of-Monotonic :
    (key : String) (from : ℕ) (rs : List Request)
    → InOrder from rs
    → Monotonic from (times_of key rs)
times_of-Monotonic key from [] h = tt
times_of-Monotonic key from (r ∷ rs) (le, h) = elim (Bool-cases (str_eq r.key key)) [
  | inl same ↦ rw same (le, times_of-Monotonic key r.at rs h)
  | inr other ↦
      rw other (Monotonic-weaken from r.at (times_of key rs) le (times_of-Monotonic key r.at rs h))
]

length-prune :
    (now w : ℕ) (s : SlidingWindowLimiter) → length (prune now w s).events < max_tracked_keys
unfolding prune
length-prune now w s = ground arith

length-track_bounded :
    (key : String) (now w : ℕ) (s : SlidingWindowLimiter)
    → length s.events ≤ max_tracked_keys
    → length (track key now w s).0.events ≤ max_tracked_keys
unfolding track
length-track_bounded key now w s h = ground (
  arith,
  length-prune now w s,
  length-insert key (or_default (lookup key s.events) []) s.events,
  length-insert key (or_default (lookup key (prune now w s).events) []) (prune now w s).events,
)

-- The table never tracks more than 50,000 keys, evictions included.
pub check_bounded :
    (key : String) (limit window now : ℕ) (s : SlidingWindowLimiter)
    → length s.events ≤ max_tracked_keys
    → length (check key limit window now s).1.events ≤ max_tracked_keys
unfolding check
check_bounded key limit w now s h =
    let (t, events) = track key now w s in
    rw
      (length-insert_tracked key (admit limit w now events).1 events t.events
        (lookup-track key now w s))
      (length-track_bounded key now w s h)
