-- ===== src/Audit/Order.antt =====
-- The order of the audit listing of src/ai_examiner/services/audit.py is strict and total.
use Prim.Native.Char.{code}
use Prim.Native.Nat.{compare, Ordering}
use mathlib.Core.Path.{ap₂}
use text.Mathlib.TextEquality.{codes_equal}
use ai_examiner.Prelude.{
  Bool-cases, keep, All, All-keep, All-map, String, ◌≡◌, refl, inl, inr, Bool, true, false, List,
  [], ◌∷◌, ◌++◌, arith, str_eq, eq_iff,
}
use ai_examiner.Audit.Listing.{
  AuditFilters, matches, less, is_beyond, insert_event, ordered, event_rows,
}
use ai_examiner.Audit.Model.{AuditEvent}

less_irreflexive : (s : String) → less s s ≡ false
unfolding less
less_irreflexive String.[] = refl
less_irreflexive (String.◌∷◌ c s) = ground (arith, less_irreflexive s)

less_transitive : (s t u : String) → less s t ≡ true → less t u ≡ true → less s u ≡ true
unfolding less
less_transitive String.[] String.[] u p q = cc
less_transitive String.[] (String.◌∷◌ d t) String.[] p q = cc
less_transitive String.[] (String.◌∷◌ d t) (String.◌∷◌ e u) p q = refl
less_transitive (String.◌∷◌ c s) String.[] u p q = cc
less_transitive (String.◌∷◌ c s) (String.◌∷◌ d t) String.[] p q = cc
less_transitive (String.◌∷◌ c s) (String.◌∷◌ d t) (String.◌∷◌ e u) p q =
    ground (arith, p, q, less_transitive s t u)

less_total : (s t : String) → less s t ≡ false → less t s ≡ false → s ≡ t
unfolding less
less_total String.[] String.[] p q = refl
less_total String.[] (String.◌∷◌ d t) p q = cc
less_total (String.◌∷◌ c s) String.[] p q = cc
less_total (String.◌∷◌ c s) (String.◌∷◌ d t) p q =
    let same_code : compare (code c) (code d) ≡ Ordering.eq = ground (arith, p, q) in
    let same_rest = less_total s t (ground (arith, p, q)) (ground (arith, p, q)) in
    ap₂ String.◌∷◌ (codes_equal c d same_code) same_rest

pub is_beyond_irreflexive : (e : AuditEvent) → is_beyond e e ≡ false
unfolding is_beyond
is_beyond_irreflexive e = ground (arith, less_irreflexive e.id)

is_beyond_transitive :
    (e f g : AuditEvent) → is_beyond e f ≡ true → is_beyond f g ≡ true → is_beyond e g ≡ true
unfolding is_beyond
is_beyond_transitive e f g p q = ground (arith, p, q, less_transitive g.id f.id e.id)

is_beyond_total :
    (e f : AuditEvent) → str_eq e.id f.id ≡ false → is_beyond e f ≡ false → is_beyond f e ≡ true
unfolding is_beyond
is_beyond_total e f differ p = elim (Bool-cases (less e.id f.id)) [
  | inl before ↦ ground (arith, p, before)
  | inr not_before ↦ elim (Bool-cases (less f.id e.id)) [
    | inl after ↦ ground (arith, p, after)
    | inr not_after ↦
        let same = (eq_iff e.id f.id).1 (less_total e.id f.id not_before not_after) in
        absurd (cc (same, differ))
  ]
]

pub is_beyond_asymmetric : (e f : AuditEvent) → is_beyond e f ≡ true → is_beyond f e ≡ false
is_beyond_asymmetric e f p = elim (Bool-cases (is_beyond f e)) [
  | inr no_cycle ↦ no_cycle
  | inl back ↦
      let cycle = is_beyond_transitive e f e p back in
      let none_beyond_itself = is_beyond_irreflexive e in absurd (cc (cycle, none_beyond_itself))
]

-- Each event stands before all that follow it.
pub IsSorted : List AuditEvent → Type 0
IsSorted [] = Unit
IsSorted (e ∷ es) = All (λ f. is_beyond e f ≡ true) es × IsSorted es

-- The identifiers of a table are distinct, and none is empty.
unfoldable pub IsTable : List AuditEvent → Type 0
IsTable [] = Unit
IsTable (e ∷ es) = (str_eq e.id "" ≡ false) × (All (λ f. str_eq e.id f.id ≡ false) es × IsTable es)

insert_event-All {κ} :
    (P : AuditEvent → Type κ) (e : AuditEvent) (es : List AuditEvent)
    → P e
    → All P es
    → All P (insert_event e es)
unfolding insert_event
insert_event-All P e [] p h = (p, tt)
insert_event-All P e (f ∷ fs) p (q, h) = elim (Bool-cases (is_beyond e f)) [
  | inl before ↦ rw before (p, (q, h))
  | inr after ↦ rw after (q, insert_event-All P e fs p h)
]

-- What holds of every event of the table holds of the listing.
pub ordered-All {κ} :
    (P : AuditEvent → Type κ) (es : List AuditEvent) → All P es → All P (ordered es)
unfolding ordered
ordered-All P [] h = tt
ordered-All P (e ∷ es) (p, h) = insert_event-All P e (ordered es) p (ordered-All P es h)

insert_event-IsSorted :
    (e : AuditEvent) (es : List AuditEvent)
    → All (λ f. str_eq e.id f.id ≡ false) es
    → IsSorted es
    → IsSorted (insert_event e es)
unfolding insert_event IsSorted
insert_event-IsSorted e [] fresh sorted = (tt, tt)
insert_event-IsSorted e (f ∷ fs) (differ, fresh) (first, sorted) =
    elim (Bool-cases (is_beyond e f)) [
      | inl before ↦ rw before (
        (
          before,
          All-map (λ g. is_beyond f g ≡ true) (λ g. is_beyond e g ≡ true) fs
              (λ g q. is_beyond_transitive e f g before q) first,
        ),
        (first, sorted),
      )
      | inr after ↦ rw after (
        insert_event-All (λ g. is_beyond f g ≡ true) e fs (is_beyond_total e f differ after) first,
        insert_event-IsSorted e fs fresh sorted,
      )
    ]

ordered-IsSorted : (es : List AuditEvent) → IsTable es → IsSorted (ordered es)
unfolding ordered IsTable IsSorted
ordered-IsSorted [] table = tt
ordered-IsSorted (e ∷ es) (present, (fresh, table)) =
    insert_event-IsSorted e (ordered es) (ordered-All (λ f. str_eq e.id f.id ≡ false) es fresh)
      (ordered-IsSorted es table)

keep-IsSorted : (p : AuditEvent → Bool) (es : List AuditEvent) → IsSorted es → IsSorted (keep p es)
unfolding IsSorted
keep-IsSorted p [] sorted = tt
keep-IsSorted p (e ∷ es) (first, sorted) = elim (Bool-cases (p e)) [
  | inl pass ↦ rw pass (All-keep (λ f. is_beyond e f ≡ true) p es first, keep-IsSorted p es sorted)
  | inr fail ↦ rw fail (keep-IsSorted p es sorted)
]

-- The rows of a query are sorted.
pub event_rows-IsSorted :
    (organization_id : String) (filters : AuditFilters) (events : List AuditEvent)
    → IsTable events
    → IsSorted (event_rows organization_id filters events)
unfolding event_rows
event_rows-IsSorted organization_id filters events table =
    keep-IsSorted (matches organization_id filters) (ordered events) (ordered-IsSorted events table)

keep-All {ℓ} : {A : Type ℓ} (p : A → Bool) (xs : List A) → All (λ x. p x ≡ true) xs → keep p xs ≡ xs
keep-All p [] h = refl
keep-All p (x ∷ xs) (pass, h) = rw (pass, keep-All p xs h) refl

pub All-middle {ℓ κ} :
    {A : Type ℓ} (P : A → Type κ) (xs : List A) (y : A) (ys : List A) → All P (xs ++ y ∷ ys) → P y
All-middle P [] y ys (p, h) = p
All-middle P (x ∷ xs) y ys (p, h) = All-middle P xs y ys h

-- In sorted rows, the rows behind one of them are those that follow it.
pub keep-beyond :
    (before : List AuditEvent) (cursor : AuditEvent) (after : List AuditEvent)
    → IsSorted (before ++ cursor ∷ after)
    → keep (is_beyond cursor) (before ++ cursor ∷ after) ≡ after
unfolding IsSorted
keep-beyond [] cursor after (first, sorted) =
    rw (is_beyond_irreflexive cursor, keep-All (is_beyond cursor) after first) refl
keep-beyond (e ∷ es) cursor after (first, sorted) =
    let behind = All-middle (λ f. is_beyond e f ≡ true) es cursor after first in
    rw (is_beyond_asymmetric e cursor behind) (keep-beyond es cursor after sorted)
