-- ===== src/Assignments/Codes.antt =====
-- How src/ai_examiner/services/assignments.py reads join codes.
use Prim.Native.Char.{Char, code}
use mathlib.Core.Option.{some-injective}
use ai_examiner.Prelude.{
  ◌==◌, Bool-cases, String, ◌≡◌, refl, ap, ◌∙◌, inl, inr, true, false, some, arith,
}
use ai_examiner.Assignments.{
  Runtime, in_alphabet, without_separators, all_in_alphabet, size, normalize_join_code,
}

-- What the text functions do with the characters of a join code: `upper` keeps a text of them, and
-- none of them separates.
pub record KeepsCodes (rt : Runtime) : Type 0 where
  pub upper_code : (s : String) → all_in_alphabet s ≡ true → rt.upper s ≡ s
  pub no_separator : (c : Char) → in_alphabet c ≡ true → rt.is_separator c ≡ false

without_separators-code :
    (rt : Runtime) (s : String)
    → KeepsCodes rt
    → all_in_alphabet s ≡ true
    → without_separators rt s ≡ s
unfolding without_separators all_in_alphabet
without_separators-code rt String.[] k h = refl
without_separators-code rt (String.◌∷◌ c s) k h =
    let here : in_alphabet c ≡ true = ground arith in
    let there : all_in_alphabet s ≡ true = ground arith in
    rw (k.no_separator c here) (ap (String.◌∷◌ c) (without_separators-code rt s k there))

-- A join code is its own canonical form: reading it again changes nothing.
pub normalize_join_code_idempotent :
    (rt : Runtime) (raw code : String)
    → KeepsCodes rt
    → normalize_join_code rt raw ≡ some code
    → normalize_join_code rt code ≡ some code
unfolding normalize_join_code
normalize_join_code_idempotent rt raw code k h =
    let read = rt.upper (without_separators rt raw) in
    elim (Bool-cases (size read == 6)) [
      | inr odd ↦ absurd (cc (rw odd at h))
      | inl long ↦ elim (Bool-cases (all_in_alphabet read)) [
        | inr odd ↦ absurd (cc (rw (long, odd) at h))
        | inl fit ↦
            let same : read ≡ code = some-injective read code (rw (long, fit) at h) in
            let long' : (size code == 6) ≡ true = rw same at long in
            let fit' : all_in_alphabet code ≡ true = rw same at fit in
            let upper : rt.upper (without_separators rt code) ≡ code =
              ap rt.upper (without_separators-code rt code k fit') ∙ k.upper_code code fit' in
            rw (upper, long', fit') refl
      ]
    ]
