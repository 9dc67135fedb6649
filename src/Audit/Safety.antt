-- ===== src/Audit/Safety.antt =====
-- The metadata of an audit event of src/ai_examiner/services/audit.py carries nothing but safe values.
use Prim.Native.String.{count}
use ai_examiner.Prelude.{
  ltb, Bool-cases, and_left, or_default, take, exists, All, contains, All-take, Dict, insert,
  has_text, String, ◌≡◌, refl, inl, inr, Bool, true, false, not, ◌&&◌, ◌||◌, Option, none, some,
  List, [], ◌∷◌, arith, str_eq,
}
use ai_examiner.Jobs.Model.{Json, null, bool, int, text, arr, obj, Items, nil, item}
use ai_examiner.Audit.Listing.{less}
use ai_examiner.Audit.Redaction.{
  TextOps, is_identifier, safe_identifier, redact_text, redact_scalar, safe_metadata_keys,
  forbidden_key_fragments, is_safe_key, shown, add_field, changed_values, insert_unique, sorted_set,
  as_items, is_route, changed_of, redact_value, put_value, redact_from, redact_audit_metadata,
}

-- An identifier that shows no secret.
abbrev pub is_clean : TextOps → String → Bool
is_clean ops s = is_identifier s && not (ops.is_secret s)

abbrev pub clean_items : TextOps → Items → Bool
clean_items ops nil = true
clean_items ops (item (text s) rest) = is_clean ops s && clean_items ops rest
clean_items ops (item value rest) = false

-- A value that may stand under a key: a number, a truth value, nothing, a clean identifier, the mark
-- of a redaction, a route under `route_template`, and a list of clean identifiers under
-- `changed_fields`.
unfoldable pub is_safe_value : TextOps → String → Json → Bool
is_safe_value ops key null = true
is_safe_value ops key (bool b) = true
is_safe_value ops key (int n) = true
is_safe_value ops key (text s) =
    str_eq s "[REDACTED]" || (is_clean ops s || (str_eq key "route_template" && is_route s))
is_safe_value ops key (arr items) = str_eq key "changed_fields" && clean_items ops items
is_safe_value ops key (obj fields) = false

abbrev pub IsSafeEntry : TextOps → String × Json → Type 0
IsSafeEntry ops (key, value) =
    (contains safe_metadata_keys key ≡ true) × (is_safe_value ops key value ≡ true)

module _ (ops : TextOps) where
  redact_text-safe : (key s : String) → is_safe_value ops key (redact_text ops s) ≡ true
  unfolding is_safe_value
  redact_text-safe key s =
      elim (Bool-cases (str_eq s "" || (ltb 160 (count s) || ops.is_secret s))) [
        | inl bad ↦ rw bad refl
        | inr fine ↦ elim (Bool-cases (is_identifier s)) [
          | inr odd ↦ rw (fine, odd) refl
          | inl good ↦
              let clean : is_clean ops s ≡ true = rw good (ground (arith, fine)) in
              rw (fine, good) (ground (arith, good, clean))
        ]
      ]

  redact_scalar-safe :
      (key : String) (value : Json) → is_safe_value ops key (redact_scalar ops value) ≡ true
  unfolding redact_scalar is_safe_value
  redact_scalar-safe key null = refl
  redact_scalar-safe key (bool b) = refl
  redact_scalar-safe key (int n) = refl
  redact_scalar-safe key (text s) = redact_text-safe key (ops.strip s)
  redact_scalar-safe key (arr items) = redact_text-safe key (ops.strip (ops.show (arr items)))
  redact_scalar-safe key (obj fields) = redact_text-safe key (ops.strip (ops.show (obj fields)))

  abbrev AreClean : List String → Type 0
  AreClean = All (λ s. is_clean ops s ≡ true)

  add_safe-AreClean :
      (value : Option String) (fields : List String)
      → AreClean fields
      → AreClean (add_field (safe_identifier ops value) fields)
  unfolding safe_identifier
  add_safe-AreClean value fields clean =
      let candidate = ops.strip (or_default value "") in
      elim (Bool-cases (is_clean ops candidate)) [
        | inl good ↦ rw good (good, clean)
        | inr bad ↦ rw bad clean
      ]

  changed_values-AreClean : (items : Items) → AreClean (changed_values ops items)
  unfolding changed_values
  changed_values-AreClean nil = tt
  changed_values-AreClean (item value rest) =
      add_safe-AreClean (some (shown ops value)) (changed_values ops rest)
        (changed_values-AreClean rest)

  insert_unique-AreClean :
      (s : String) (ts : List String)
      → is_clean ops s ≡ true
      → AreClean ts
      → AreClean (insert_unique s ts)
  unfolding insert_unique
  insert_unique-AreClean s [] good clean = (good, tt)
  insert_unique-AreClean s (t ∷ ts) good (first, clean) = elim (Bool-cases (str_eq s t)) [
    | inl same ↦ rw same (first, clean)
    | inr other ↦ elim (Bool-cases (less s t)) [
      | inl before ↦ rw (other, before) (good, (first, clean))
      | inr after ↦ rw (other, after) (first, insert_unique-AreClean s ts good clean)
    ]
  ]

  sorted_set-AreClean : (ss : List String) → AreClean ss → AreClean (sorted_set ss)
  unfolding sorted_set
  sorted_set-AreClean [] clean = tt
  sorted_set-AreClean (s ∷ ss) (good, clean) =
      insert_unique-AreClean s (sorted_set ss) good (sorted_set-AreClean ss clean)

  as_items-clean : (ss : List String) → AreClean ss → clean_items ops (as_items ss) ≡ true
  as_items-clean [] clean = refl
  as_items-clean (s ∷ ss) (good, clean) = rw (good, as_items-clean ss clean) refl

  -- A value that is kept is safe.
  abbrev IsSafeOption : String → Option Json → Type 0
  IsSafeOption key none = Unit
  IsSafeOption key (some value) = is_safe_value ops key value ≡ true

  changed_of-safe :
      (key : String) (value : Json)
      → str_eq key "changed_fields" ≡ true
      → IsSafeOption key (changed_of ops value)
  unfolding is_safe_value
  changed_of-safe key null same = tt
  changed_of-safe key (bool b) same = tt
  changed_of-safe key (int n) same = tt
  changed_of-safe key (text s) same = tt
  changed_of-safe key (obj fields) same = tt
  changed_of-safe key (arr items) same =
      let values = sorted_set (changed_values ops items) in
      rw
        (
          same,
          as_items-clean (take 32 values) (
              All-take (λ s. is_clean ops s ≡ true) 32 values
                (sorted_set-AreClean (changed_values ops items) (changed_values-AreClean items))),
        )
        refl

  redact_value-safe : (key : String) (value : Json) → IsSafeOption key (redact_value ops key value)
  unfolding redact_value is_safe_value
  redact_value-safe key value = elim (Bool-cases (str_eq key "changed_fields")) [
    | inl changed ↦ rw changed (changed_of-safe key value changed)
    | inr other ↦ elim (Bool-cases (str_eq key "route_template")) [
      | inr scalar ↦ rw (other, scalar) (redact_scalar-safe key value)
      | inl route ↦ elim (Bool-cases (is_route (ops.strip (shown ops value)))) [
        | inr odd ↦ rw (other, route, odd) tt
        | inl good ↦ rw (other, route, good) (ground (arith, route, good))
      ]
    ]
  ]

  insert-safe :
      (key : String) (value : Json) (d : Dict Json)
      → IsSafeEntry ops (key, value)
      → All (IsSafeEntry ops) d
      → All (IsSafeEntry ops) (insert key value d)
  unfolding insert
  insert-safe key value [] safe all = (safe, tt)
  insert-safe key value ((k, v) ∷ d) safe (first, all) = elim (Bool-cases (str_eq k key)) [
    | inl same ↦ rw same (safe, all)
    | inr other ↦ rw other (first, insert-safe key value d safe all)
  ]

  put_value-safe :
      (key : String) (value : Option Json) (d : Dict Json)
      → contains safe_metadata_keys key ≡ true
      → IsSafeOption key value
      → All (IsSafeEntry ops) d
      → All (IsSafeEntry ops) (put_value key value d)
  put_value-safe key none d known safe all = all
  put_value-safe key (some value) d known safe all = insert-safe key value d (known, safe) all

  is_safe_key-known :
      (key : String) → is_safe_key key ≡ true → contains safe_metadata_keys key ≡ true
  unfolding is_safe_key
  is_safe_key-known key safe =
      and_left (contains safe_metadata_keys key)
        (not (exists (λ fragment. has_text fragment key) forbidden_key_fragments)) safe

  redact_from-safe :
      (metadata sanitized : Dict Json)
      → All (IsSafeEntry ops) sanitized
      → All (IsSafeEntry ops) (redact_from ops metadata sanitized)
  unfolding redact_from
  redact_from-safe [] sanitized all = all
  redact_from-safe ((raw_key, value) ∷ rest) sanitized all =
      let key = ops.lower (ops.strip raw_key) in
      elim (Bool-cases (is_safe_key key)) [
        | inr unsafe ↦ rw unsafe (redact_from-safe rest sanitized all)
        | inl safe ↦ rw safe (
            redact_from-safe rest (put_value key (redact_value ops key value) sanitized) (
              put_value-safe key (redact_value ops key value) sanitized (is_safe_key-known key safe)
                (redact_value-safe key value) all))
      ]

  -- Whatever metadata a caller hands over, an event carries known keys only, and under each a number,
  -- a truth value, nothing, the mark of a redaction, an identifier without a secret, under
  -- `route_template` a route of the interface, or under `changed_fields` a list of such identifiers.
  pub redact_audit_metadata-IsSafe :
      (metadata : Dict Json) → All (IsSafeEntry ops) (redact_audit_metadata ops metadata)
  unfolding redact_audit_metadata
  redact_audit_metadata-IsSafe metadata = redact_from-safe metadata [] tt
