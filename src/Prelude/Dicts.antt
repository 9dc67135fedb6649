-- ===== src/Prelude/Dicts.antt =====
-- Python's `dict` with text keys, as an association list: `get`, `d[k] = v` (in place, or at the
-- end) and deletion. The program's uses of it do not depend on the order of the entries.
use Prim.Native.Nat.{◌+◌, ◌≤◌}
use Prim.Native.String.{String}
use mathlib.Core.Path.{◌≡◌, refl, subst}
use mathlib.Core.Option.{Option, none, some, some-injective}
use mathlib.Core.Bool.{Bool}
use mathlib.Core.Logic.{inl, inr}
use mathlib.Core.List.{List, [], ◌∷◌}
use native.Mathlib.Omega.{arith}
use text.Mathlib.Text.{◌==◌ as str_eq}
use text.Mathlib.TextEquality.{eq_iff}
use ai_examiner.Prelude.Tests.{if◌then◌else◌, Bool-cases, str_eq_refl}
use ai_examiner.Prelude.Lists.{length, All}

abbrev pub Dict {ℓ} : Type ℓ → Type ℓ
Dict V = List (String × V)

module _ {ℓ} {V : Type ℓ} where
  -- `d.get(key)`
  unfoldable pub lookup : String → Dict V → Option V
  lookup key [] = none
  lookup key ((other, value) ∷ rest) = if str_eq other key then some value else lookup key rest

  -- `d[key] = value`
  unfoldable pub insert : String → V → Dict V → Dict V
  insert key value [] = (key, value) ∷ []
  insert key value ((other, old) ∷ rest) =
      if str_eq other key then (key, value) ∷ rest else (other, old) ∷ insert key value rest

  pub lookup-insert :
      (new key : String) (value : V) (d : Dict V)
      → lookup key (insert new value d) ≡ (if str_eq new key then some value else lookup key d)
  unfolding insert lookup
  lookup-insert new key value [] = refl
  lookup-insert new key value ((other, old) ∷ rest) =
      ground (
        arith,
        lookup-insert new key value rest,
        eq_iff other new,
        eq_iff new key,
        eq_iff other key,
      )

  pub length-insert : (k : String) (v : V) (m : Dict V) → length (insert k v m) ≤ length m + 1
  unfolding insert
  length-insert k v [] = omega arith
  length-insert k v ((j, w) ∷ m) = ground (arith, length-insert k v m)

  pub length-insert_tracked :
      (k : String) (v w : V) (m : Dict V) → lookup k m ≡ some w → length (insert k v m) ≡ length m
  unfolding lookup insert
  length-insert_tracked k v w [] h = cc
  length-insert_tracked k v w ((j, u) ∷ m) h = ground (arith, length-insert_tracked k v w m)

-- Every value of a dictionary satisfies `P`.
abbrev pub AllValues {ℓ κ} : {V : Type ℓ} → (V → Type κ) → Dict V → Type κ
AllValues P m = All (λ entry. P (entry.1)) m

module _ {ℓ κ} {V : Type ℓ} (P : V → Type κ) where
  pub AllValues-insert :
      (k : String) (v : V) (m : Dict V) → P v → AllValues P m → AllValues P (insert k v m)
  unfolding insert
  AllValues-insert k v [] p h = (p, tt)
  AllValues-insert k v ((j, w) ∷ m) p (q, h) =
      elim (str_eq j k) as (λ b. AllValues P (if b then (k, v) ∷ m else (j, w) ∷ insert k v m)) [
        | Bool.true ↦ (p, h)
        | Bool.false ↦ (q, AllValues-insert k v m p h)
      ]

  pub AllValues-lookup :
      (k : String) (v : V) (m : Dict V) → AllValues P m → lookup k m ≡ some v → P v
  unfolding lookup
  AllValues-lookup k v [] h e = cc
  AllValues-lookup k v ((j, w) ∷ m) (q, h) e = elim (Bool-cases (str_eq j k)) [
    | inl same ↦ subst P (some-injective w v (rw same at e)) q
    | inr other ↦ AllValues-lookup k v m h (rw other at e)
  ]

pub lookup-insert_self {ℓ} :
    {V : Type ℓ} (k : String) (v : V) (m : Dict V) → lookup k (insert k v m) ≡ some v
lookup-insert_self k v m = simp (lookup-insert, str_eq_refl)

-- A new key changes no other one.
pub lookup-insert_new {ℓ} :
    {V : Type ℓ} (k j : String) (v w : V) (m : Dict V)
    → lookup k m ≡ some v
    → lookup j m ≡ none
    → lookup k (insert j w m) ≡ some v
lookup-insert_new k j v w m found missing = ground (arith, lookup-insert j k w m, eq_iff j k)
