-- ===== src/RateLimit/Deques.antt =====
-- The deques of src/ai_examiner/services/rate_limit.py as lists of times in order.
use ai_examiner.Prelude.{
  leb, Bool-cases, length, ℕ, ◌+◌, ◌≤◌, String, ◌≡◌, refl, ap, inl, inr, true, List, [], ◌∷◌, ◌++◌,
  arith,
}
use ai_examiner.RateLimit.{expire, decide, admit, last, is_stale}

-- Times in order, none after `now`.
abbrev pub IsOrdered : ℕ → List ℕ → Type 0
IsOrdered now [] = Unit
IsOrdered now (e ∷ []) = e ≤ now
IsOrdered now (e ∷ f ∷ es) = (e ≤ f) × IsOrdered now (f ∷ es)

pub later-IsOrdered : (now t : ℕ) (d : List ℕ) → now ≤ t → IsOrdered now d → IsOrdered t d
later-IsOrdered now t [] le o = tt
later-IsOrdered now t (e ∷ []) le o = omega (arith, le, o)
later-IsOrdered now t (e ∷ f ∷ es) le (first, o) = (first, later-IsOrdered now t (f ∷ es) le o)

tail-IsOrdered : (now e : ℕ) (es : List ℕ) → IsOrdered now (e ∷ es) → IsOrdered now es
tail-IsOrdered now e [] o = tt
tail-IsOrdered now e (f ∷ es) (first, o) = o

expire-IsOrdered : (now t w : ℕ) (d : List ℕ) → IsOrdered now d → IsOrdered now (expire t w d)
unfolding expire
expire-IsOrdered now t w [] o = tt
expire-IsOrdered now t w (e ∷ es) o = elim (Bool-cases (leb (e + w) t)) [
  | inl out ↦ rw out (expire-IsOrdered now t w es (tail-IsOrdered now e es o))
  | inr inside ↦ rw inside o
]

snoc-IsOrdered : (t : ℕ) (d : List ℕ) → IsOrdered t d → IsOrdered t (d ++ t ∷ [])
snoc-IsOrdered t [] o = omega arith
snoc-IsOrdered t (e ∷ []) o = (o, omega arith)
snoc-IsOrdered t (e ∷ f ∷ es) (first, o) = (first, snoc-IsOrdered t (f ∷ es) o)

decide-IsOrdered : (limit w t : ℕ) (d : List ℕ) → IsOrdered t d → IsOrdered t (decide limit w t d).1
unfolding decide
decide-IsOrdered limit w t [] o = elim (Bool-cases (leb limit 0)) [
  | inl none_allowed ↦ rw none_allowed tt
  | inr some_allowed ↦ rw some_allowed (omega arith)
]
decide-IsOrdered limit w t (e ∷ es) o = elim (Bool-cases (leb limit (length (e ∷ es)))) [
  | inl full ↦ rw full o
  | inr room ↦ rw room (snoc-IsOrdered t (e ∷ es) o)
]

pub admit-IsOrdered :
    (limit w now t : ℕ) (d : List ℕ) → now ≤ t → IsOrdered now d → IsOrdered t (admit limit w t d).1
unfolding admit
admit-IsOrdered limit w now t d le o =
    decide-IsOrdered limit w t (expire t w d)
      (expire-IsOrdered t t w d (later-IsOrdered now t d le o))

-- Two deques that no request from `now` on can tell apart.
abbrev pub AreAlike : ℕ → ℕ → List ℕ → List ℕ → Type 0
AreAlike w now d d' = (t : ℕ) → now ≤ t → expire t w d ≡ expire t w d'

pub alike-admit :
    (limit w t : ℕ) (d d' : List ℕ) → AreAlike w t d d' → admit limit w t d ≡ admit limit w t d'
unfolding admit
alike-admit limit w t d d' alike = ap (decide limit w t) (alike t (omega arith))

first-expired : (t w f : ℕ) (es : List ℕ) → expire t w (f ∷ es) ≡ [] → leb (f + w) t ≡ true
unfolding expire
first-expired t w f es gone = elim (Bool-cases (leb (f + w) t)) [
  | inl out ↦ out
  | inr inside ↦ absurd (cc (rw inside at gone))
]

-- A deque whose last time has left the window expires as a whole.
pub stale-expire :
    (now t w : ℕ) (key : String) (d : List ℕ)
    → now ≤ t
    → IsOrdered now d
    → is_stale now w (key, d) ≡ true
    → expire t w d ≡ []
unfolding expire is_stale last
stale-expire now t w key [] le o stale = refl
stale-expire now t w key (e ∷ []) le o stale =
    let out : leb (e + w) t ≡ true = ground (arith, le, stale) in rw out refl
stale-expire now t w key (e ∷ f ∷ es) le (first, o) stale =
    let rest = stale-expire now t w key (f ∷ es) le o stale in
    let next = first-expired t w f es rest in
    let out : leb (e + w) t ≡ true = ground (arith, first, next) in rw out rest
