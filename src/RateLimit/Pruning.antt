-- ===== src/RateLimit/Pruning.antt =====
-- What `_prune` of src/ai_examiner/services/rate_limit.py keeps of the table, and what it forgets.
use ai_examiner.Prelude.{
  Bool-cases, or_default, keep, Dict, lookup, insert, lookup-insert, ℕ, ◌≤◌, String, ◌≡◌, refl, sym,
  inl, inr, false, not, none, List, [], ◌∷◌, arith, str_eq, eq_iff,
}
use ai_examiner.RateLimit.{expire, is_stale}
use ai_examiner.RateLimit.Deques.{IsOrdered, later-IsOrdered, AreAlike, stale-expire}

-- Every deque is in order, and no key has two.
abbrev pub IsTable : ℕ → Dict (List ℕ) → Type 0
IsTable now [] = Unit
IsTable now ((key, d) ∷ rest) = IsOrdered now d × (lookup key rest ≡ none) × IsTable now rest

pub later-IsTable : (now t : ℕ) (xs : Dict (List ℕ)) → now ≤ t → IsTable now xs → IsTable t xs
later-IsTable now t [] le h = tt
later-IsTable now t ((key, d) ∷ rest) le (o, new, h) =
    (later-IsOrdered now t d le o, new, later-IsTable now t rest le h)

insert-absent :
    (j key : String) (d : List ℕ) (xs : Dict (List ℕ))
    → str_eq key j ≡ false
    → lookup j xs ≡ none
    → lookup j (insert key d xs) ≡ none
insert-absent j key d xs other absent = rw (lookup-insert key j d xs, other) absent

pub insert-IsTable :
    (now : ℕ) (key : String) (d : List ℕ) (xs : Dict (List ℕ))
    → IsOrdered now d
    → IsTable now xs
    → IsTable now (insert key d xs)
unfolding insert lookup
insert-IsTable now key d [] o h = (o, refl, tt)
insert-IsTable now key d ((j, old) ∷ rest) o (first, new, h) = elim (Bool-cases (str_eq j key)) [
  | inl same ↦ rw same (o, rw (sym ((eq_iff j key).0 same)) new, h)
  | inr other ↦ rw other (
    first,
    insert-absent j key d rest (ground (arith, eq_iff j key, eq_iff key j)) new,
    insert-IsTable now key d rest o h,
  )
]

pub lookup-IsOrdered :
    (now : ℕ) (key : String) (xs : Dict (List ℕ))
    → IsTable now xs
    → IsOrdered now (or_default (lookup key xs) [])
unfolding lookup
lookup-IsOrdered now key [] h = tt
lookup-IsOrdered now key ((j, d) ∷ rest) (o, new, h) = elim (Bool-cases (str_eq j key)) [
  | inl same ↦ rw same o
  | inr other ↦ rw other (lookup-IsOrdered now key rest h)
]

-- What `_prune` keeps.
abbrev pub live : ℕ → ℕ → Dict (List ℕ) → Dict (List ℕ)
live now w xs = keep (λ entry. not (is_stale now w entry)) xs

live-absent :
    (now w : ℕ) (key : String) (xs : Dict (List ℕ))
    → lookup key xs ≡ none
    → lookup key (live now w xs) ≡ none
unfolding lookup
live-absent now w key [] absent = refl
live-absent now w key ((j, d) ∷ rest) absent = elim (Bool-cases (str_eq j key)) [
  | inl same ↦ absurd (cc (rw same at absent))
  | inr other ↦
      let ih = live-absent now w key rest (rw other at absent) in
      elim (Bool-cases (is_stale now w (j, d))) [
        | inl stale ↦ rw stale ih
        | inr kept ↦ rw (kept, other) ih
      ]
]

pub live-IsTable : (now w : ℕ) (xs : Dict (List ℕ)) → IsTable now xs → IsTable now (live now w xs)
live-IsTable now w [] h = tt
live-IsTable now w ((j, d) ∷ rest) (o, new, h) = elim (Bool-cases (is_stale now w (j, d))) [
  | inl stale ↦ rw stale (live-IsTable now w rest h)
  | inr kept ↦ rw kept (o, live-absent now w j rest new, live-IsTable now w rest h)
]

-- No request from `now` on can tell a key's deque in what is kept from the one before.
pub live-AreAlike :
    (now w : ℕ) (key : String) (xs : Dict (List ℕ))
    → IsTable now xs
    → AreAlike w now (or_default (lookup key (live now w xs)) []) (or_default (lookup key xs) [])
unfolding lookup expire
live-AreAlike now w key [] h t le = refl
live-AreAlike now w key ((j, d) ∷ rest) (o, new, h) t le =
    elim (Bool-cases (is_stale now w (j, d))) [
      | inl stale ↦ elim (Bool-cases (str_eq j key)) [
        | inl same ↦
            let absent : lookup key rest ≡ none = rw (sym ((eq_iff j key).0 same)) new in
            rw (stale, same, live-absent now w key rest absent)
              (sym (stale-expire now t w j d le o stale))
        | inr other ↦ rw (stale, other) (live-AreAlike now w key rest h t le)
      ]
      | inr kept ↦ elim (Bool-cases (str_eq j key)) [
        | inl same ↦ rw (kept, same) refl
        | inr other ↦ rw (kept, other) (live-AreAlike now w key rest h t le)
      ]
    ]
