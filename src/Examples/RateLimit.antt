-- ===== src/Examples/RateLimit.antt =====
-- The limiter of src/ai_examiner/services/rate_limit.py on short traces.
use ai_examiner.Prelude.{
  length, lookup, insert, ℕ, ◌+◌, ◌≤◌, String, ◌≡◌, refl, ◌↔◌, List, [], ◌∷◌, arith,
}
use ai_examiner.RateLimit.{
  max_tracked_keys, allowed, index_error, fresh, admit, last, is_stale, track, check,
}
use ai_examiner.RateLimit.Window.{count_window, retry_after_exact}
use ai_examiner.RateLimit.Table.{Request, admissions, check_bounded}
use ai_examiner.RateLimit.Eviction.{IsNeverCleared, admissions-le-limit}

abbrev at : String → ℕ → Request
at key time = record { key = key; at = time }

abbrev burst : List Request
burst = at "a" 0 ∷ at "b" 1 ∷ at "a" 2 ∷ at "a" 3 ∷ at "a" 12 ∷ []

-- Two a window of ten ticks: the third request of "a" is refused, the fourth comes later.
burst_admits : admissions "a" 2 10 fresh burst ≡ 0 ∷ 2 ∷ 12 ∷ []
unfolding admissions check track admit lookup insert
burst_admits = refl

burst_clears_nothing : IsNeverCleared 2 10 fresh burst
unfolding check track admit lookup insert is_stale last
burst_clears_nothing = (omega arith, (omega arith, (omega arith, (omega arith, (omega arith, tt)))))

admissions-le-limit_example : count_window 10 5 (admissions "a" 2 10 fresh burst) ≤ 2
admissions-le-limit_example =
    admissions-le-limit 2 10 5 "a" burst (omega arith) burst_clears_nothing

retry_after_exact_example : ((admit 2 10 (3 + 7) (0 ∷ 2 ∷ [])).0 ≡ allowed) ↔ (7 ≤ 7)
unfolding admit
retry_after_exact_example =
    retry_after_exact 2 10 3 7 (0 ∷ 2 ∷ []) (0 ∷ 2 ∷ []) (omega arith) refl 7

check_bounded_example : length (check "a" 2 10 0 fresh).1.events ≤ max_tracked_keys
check_bounded_example = check_bounded "a" 2 10 0 fresh (omega arith)

-- With a limit of zero the first request of a key reads the head of an empty deque.
zero_limit_raises : (check "a" 0 10 0 fresh).0 ≡ index_error
unfolding check track admit lookup
zero_limit_raises = refl
