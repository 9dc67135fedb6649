-- ===== src/RateLimit/Window.antt =====
-- The deque of one key over a sequence of requests: how many it admits in a window.
use ai_examiner.Prelude.{
  ltb, leb, if◌then◌else◌, Bool-cases, leb→le, leb→lt, ltb→lt, length, length-append, ℕ, suc, ◌+◌,
  ◌-◌, ◌≤◌, ◌<◌, ◌≡◌, refl, ◌≢◌, ◌↔◌, ◌⊎◌, inl, inr, false, ◌&&◌, List, [], ◌∷◌, ◌++◌, arith,
}
use ai_examiner.RateLimit.{Outcome, allowed, retry_after, fresh, expire, decide, admit}

-- How many of the times lie in the window of length `window` that ends at `t`.
abbrev pub count_window : ℕ → ℕ → List ℕ → ℕ
count_window window t [] = 0
count_window window t (a ∷ as') =
    (if leb a t && ltb t (a + window) then 1 else 0) + count_window window t as'

-- Times that never go back, none before `from`: what a monotonic clock shows.
abbrev pub Monotonic : ℕ → List ℕ → Type 0
Monotonic from [] = Unit
Monotonic from (t ∷ ts) = (from ≤ t) × Monotonic t ts

abbrev pub admitted_time : Outcome → ℕ → List ℕ → List ℕ
admitted_time allowed t rest = t ∷ rest
admitted_time _ t rest = rest

-- The times at which a key's deque admits its requests.
unfoldable pub admitted : ℕ → ℕ → List ℕ → List ℕ → List ℕ
admitted limit window events [] = []
admitted limit window events (t ∷ ts) =
    let (outcome, events') = admit limit window t events in
    admitted_time outcome t (admitted limit window events' ts)

count_window-le : (w t : ℕ) (xs : List ℕ) → count_window w t xs ≤ length xs
count_window-le w t [] = omega arith
count_window-le w t (x ∷ xs) = ground (arith, count_window-le w t xs)

count_window-append :
    (w t : ℕ) (xs ys : List ℕ)
    → count_window w t (xs ++ ys) ≡ count_window w t xs + count_window w t ys
count_window-append w t [] ys = omega arith
count_window-append w t (x ∷ xs) ys = omega (arith, count_window-append w t xs ys)

-- Times after `t` are in no window that ends at `t`.
count_window_after : (w t x : ℕ) (xs : List ℕ) → t < x → Monotonic x xs → count_window w t xs ≡ 0
count_window_after w t x [] h m = refl
count_window_after w t x (y ∷ ys) h (le, m) =
    ground (arith, count_window_after w t y ys (omega arith) m)

pub Monotonic-weaken : (a b : ℕ) (xs : List ℕ) → a ≤ b → Monotonic b xs → Monotonic a xs
Monotonic-weaken a b [] h m = tt
Monotonic-weaken a b (x ∷ xs) h (le, m) = (omega arith, m)

admitted_time-Monotonic :
    (from t : ℕ) (o : Outcome) (rest : List ℕ)
    → from ≤ t
    → Monotonic t rest
    → Monotonic from (admitted_time o t rest)
admitted_time-Monotonic from t allowed rest le h = (le, h)
admitted_time-Monotonic from t (retry_after _) rest le h = Monotonic-weaken from t rest le h
admitted_time-Monotonic from t Outcome.index_error rest le h = Monotonic-weaken from t rest le h

admitted-Monotonic :
    (limit w from : ℕ) (events ts : List ℕ)
    → Monotonic from ts
    → Monotonic from (admitted limit w events ts)
unfolding admitted
admitted-Monotonic limit w from events [] m = tt
admitted-Monotonic limit w from events (t ∷ ts) (le, m) =
    let (o, events') = admit limit w t events in
    admitted_time-Monotonic from t o (admitted limit w events' ts) le
      (admitted-Monotonic limit w t events' ts m)

-- What the loop drops is in no window that ends at the present time or later.
count_window-expire :
    (w now t : ℕ) (events : List ℕ)
    → now ≤ t
    → count_window w t (expire now w events) ≡ count_window w t events
unfolding expire
count_window-expire w now t [] h = refl
count_window-expire w now t (e ∷ es) h = ground (arith, count_window-expire w now t es h)

length-expire : (w now : ℕ) (events : List ℕ) → length (expire now w events) ≤ length events
unfolding expire
length-expire w now [] = omega arith
length-expire w now (e ∷ es) = ground (arith, length-expire w now es)

decide_cases :
    (limit w now : ℕ) (d : List ℕ)
    → (((decide limit w now d).0 ≡ allowed)
        × ((decide limit w now d).1 ≡ d ++ now ∷ [])
        × (length d < limit))
      ⊎ (((k : List ℕ) → admitted_time (decide limit w now d).0 now k ≡ k)
          × ((decide limit w now d).1 ≡ d))
unfolding decide
decide_cases limit w now [] = elim (Bool-cases (leb limit 0)) [
  | inl e ↦ inr (rw e ((λ k. refl), refl))
  | inr e ↦ inl (rw e (refl, refl, leb→lt _ _ e))
]
decide_cases limit w now (x ∷ xs) = elim (Bool-cases (leb limit (length (x ∷ xs)))) [
  | inl e ↦ inr (rw e ((λ k. refl), refl))
  | inr e ↦ inl (rw e (refl, refl, leb→lt _ _ e))
]

ltb→ge : (a b : ℕ) → ltb a b ≡ false → b ≤ a
ltb→ge a b h = ground arith

-- The counts of what the deque holds and of what it goes on to admit, together within the limit.
count_window-admitted :
    (limit w now t : ℕ) (events ts : List ℕ)
    → length events ≤ limit
    → Monotonic now ts
    → count_window w t events + count_window w t (admitted limit w events ts) ≤ limit
unfolding admitted admit
count_window-admitted limit w now t events [] h m = omega (arith, count_window-le w t events)
count_window-admitted limit w now t events (x ∷ ts) h (le, m) = elim (Bool-cases (ltb t x)) [
  | inl before ↦ omega (
    arith,
    count_window-le w t events,
    count_window_after w t x (admitted limit w events (x ∷ ts)) (ltb→lt t x before)
        (admitted-Monotonic limit w x events (x ∷ ts) (omega arith, m)),
  )
  | inr after ↦
      let same = count_window-expire w x t events (ltb→ge t x after) in
      let d = expire x w events in
      let fits = length-expire w x events in
      elim (decide_cases limit w x d) [
        | inl (o, kept, room) ↦
            rw (o, kept)
              (omega (
                arith,
                same,
                count_window-append w t d (x ∷ []),
                count_window-admitted limit w x t (d ++ x ∷ []) ts
                    (omega (arith, length-append d (x ∷ []), room)) m,
              ))
        | inr (skip, kept) ↦
            rw (skip (admitted limit w (decide limit w x d).1 ts), kept)
              (omega (arith, same, count_window-admitted limit w x t d ts (omega (arith, fits)) m))
      ]
]

-- Of the requests that one key makes at times that never go back, the limiter admits at most
-- `limit` in any window of `window` ticks, wherever the window ends.
pub admitted-le-limit :
    (limit window t : ℕ) (times : List ℕ)
    → Monotonic 0 times
    → count_window window t (admitted limit window [] times) ≤ limit
admitted-le-limit limit window t times m =
    omega (arith, count_window-admitted limit window 0 t [] times (omega arith) m)

expire_fresh : (w now e : ℕ) (es : List ℕ) → now < e + w → expire now w (e ∷ es) ≡ e ∷ es
unfolding expire
expire_fresh w now e es h = ground arith

expire_head :
    (w now e : ℕ) (events es : List ℕ)
    → expire now w events ≡ e ∷ es
    → (now < e + w) × (suc (length es) ≤ length events)
unfolding expire
expire_head w now e [] es h = cc
expire_head w now e (x ∷ xs) es h =
    ground (arith, expire_head w now e xs es, length-expire w now xs)

-- What a refusal leaves: a head still in its window, as many events as the limit.
refused :
    (limit w now r : ℕ) (d events : List ℕ)
    → decide limit w now d ≡ (retry_after r, events)
    → (e : ℕ) × (es : List ℕ) × (d ≡ e ∷ es)
      × (events ≡ e ∷ es)
      × (r ≡ e + w - now)
      × (limit ≤ length (e ∷ es))
unfolding decide
refused limit w now r [] events h = ground arith
refused limit w now r (x ∷ xs) events h =
    (x, xs, ground arith, ground arith, ground arith, ground arith)

decide_room : (limit w now : ℕ) (d : List ℕ) → length d < limit → (decide limit w now d).0 ≡ allowed
unfolding decide
decide_room limit w now [] h = ground arith
decide_room limit w now (x ∷ xs) h = ground arith

decide_full :
    (limit w now e : ℕ) (es : List ℕ)
    → limit ≤ length (e ∷ es)
    → (decide limit w now (e ∷ es)).0 ≢ allowed
unfolding decide
decide_full limit w now e es h = ground arith

expire_later : (w now e : ℕ) (es : List ℕ) → e + w ≤ now → expire now w (e ∷ es) ≡ expire now w es
unfolding expire
expire_later w now e es h = ground arith

-- With no request in between, a refused key is admitted again `s` ticks later exactly when `s` is
-- at least the answered number of ticks, as long as its deque held at most `limit` events.
pub retry_after_exact :
    (limit window now r : ℕ) (before after : List ℕ)
    → length before ≤ limit
    → admit limit window now before ≡ (retry_after r, after)
    → (s : ℕ) → ((admit limit window (now + s) after).0 ≡ allowed) ↔ (r ≤ s)
unfolding admit
retry_after_exact limit w now r before after fits h s =
    let (e, es, d, a, wait, full) = refused limit w now r (expire now w before) after h in
    let (fresh, shorter) = expire_head w now e before es d in
    (
      λ again. elim (Bool-cases (leb r s)) [
        | inl le ↦ leb→le r s le
        | inr gt ↦ absurd (
            decide_full limit w (now + s) e es full
              (rw (a, expire_fresh w (now + s) e es (omega (arith, leb→lt r s gt))) at again))
      ],
      λ le.
          rw (a, expire_later w (now + s) e es (omega arith))
            (decide_room limit w (now + s) (expire (now + s) w es)
              (omega (arith, length-expire w (now + s) es))),
    )
