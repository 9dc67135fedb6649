-- ===== src/Audit/Pages.antt =====
-- A client that follows the cursors of `list_audit_events` of src/ai_examiner/services/audit.py.
use mathlib.Core.Path.{subst}
use mathlib.Core.List.{append_assoc, append-nil}
use ai_examiner.Prelude.{
  ltb, leb, Bool-cases, leb→le, leb→lt, opt_eq, str_eq_refl, length, take, keep, length-append, All,
  All-keep, keep_passes, All-map, ℕ, zero, suc, ◌+◌, ◌≤◌, ◌<◌, String, ◌≡◌, refl, sym, ap, ◌∙◌, inl,
  inr, true, false, Option, none, some, List, [], ◌∷◌, ◌++◌, arith, str_eq,
}
use ai_examiner.Audit.Model.{AuditEvent}
use ai_examiner.Audit.Listing.{
  AuditFilters, matches, is_beyond, ordered, event_rows, find_event, from_cursor, last_id, page,
  list_audit_events, all_pages,
}
use ai_examiner.Audit.Order.{
  IsSorted, IsTable, ordered-All, event_rows-IsSorted, All-middle, keep-beyond,
}

-- What a page that is followed by others has taken: it ends in `cursor`.
record IsSplit (limit : ℕ) (rows : List AuditEvent) : Type 0 where
  front : List AuditEvent
  cursor : AuditEvent
  after : List AuditEvent
  taken : take limit rows ≡ front ++ cursor ∷ []
  whole : rows ≡ front ++ cursor ∷ after

plus_one : (n : ℕ) → n + 1 ≡ suc n
plus_one n = omega arith

take-take-suc {ℓ} : {A : Type ℓ} (n : ℕ) (xs : List A) → take n (take (suc n) xs) ≡ take n xs
take-take-suc zero xs = refl
take-take-suc (suc n) [] = refl
take-take-suc (suc n) (x ∷ xs) = ap (λ ys. x ∷ ys) (take-take-suc n xs)

after-le :
    {limit : ℕ} {rows : List AuditEvent} (s : IsSplit limit rows) (n : ℕ)
    → length rows ≤ suc n
    → length s.after ≤ n
after-le {limit} {rows} s n enough =
    let sizes : length rows ≡ length s.front + length (s.cursor ∷ s.after) =
      ap length (s.whole) ∙ length-append s.front (s.cursor ∷ s.after) in
    omega (arith, enough, sizes)

take-take {ℓ} : {A : Type ℓ} (n : ℕ) (xs : List A) → take n (take (n + 1) xs) ≡ take n xs
take-take n xs = rw (plus_one n) (take-take-suc n xs)

take-short {ℓ} : {A : Type ℓ} (n : ℕ) (xs : List A) → length xs ≤ n → take n xs ≡ xs
take-short zero [] h = refl
take-short zero (x ∷ xs) h = absurd (omega (arith, h))
take-short (suc n) [] h = refl
take-short (suc n) (x ∷ xs) h = ap (λ ys. x ∷ ys) (take-short n xs (omega (arith, h)))

length-take_long {ℓ} : {A : Type ℓ} (n : ℕ) (xs : List A) → n ≤ length xs → length (take n xs) ≡ n
length-take_long zero xs h = refl
length-take_long (suc n) [] h = absurd (omega (arith, h))
length-take_long (suc n) (x ∷ xs) h = ap suc (length-take_long n xs (omega (arith, h)))

IsSplit-page :
    (limit : ℕ) (rows : List AuditEvent) → 1 ≤ limit → limit < length rows → IsSplit limit rows
IsSplit-page zero rows positive more = absurd (omega (arith, positive))
IsSplit-page (suc n) [] positive more = absurd (omega (arith, more))
IsSplit-page (suc zero) (e ∷ es) positive more = record {
  front = [];
  cursor = e;
  after = es;
  taken = refl;
  whole = refl;
}
IsSplit-page (suc (suc n)) (e ∷ es) positive more =
    let s = IsSplit-page (suc n) es (omega arith) (omega (arith, more)) in
    record {
      front = e ∷ s.front;
      cursor = s.cursor;
      after = s.after;
      taken = ap (λ ys. e ∷ ys) (s.taken);
      whole = ap (λ ys. e ∷ ys) (s.whole);
    }

last_id-end : (front : List AuditEvent) (e : AuditEvent) → last_id (front ++ e ∷ []) ≡ some e.id
unfolding last_id
last_id-end [] e = refl
last_id-end (f ∷ []) e = refl
last_id-end (f ∷ g ∷ fs) e = last_id-end (g ∷ fs) e

page-last :
    (limit : ℕ) (rows : List AuditEvent) → length rows ≤ limit → page limit rows ≡ (rows, none)
unfolding page
page-last limit rows short =
    let whole = take-short (limit + 1) rows (omega (arith, short)) in
    let few : ltb limit (length rows) ≡ false = ground (arith, short) in
    rw (whole, few, take-short limit rows short) refl

page-next :
    (limit : ℕ) (rows : List AuditEvent)
    → limit < length rows
    → (s : IsSplit limit rows) → page limit rows ≡ (s.front ++ s.cursor ∷ [], some s.cursor.id)
unfolding page
page-next limit rows more s =
    let many : ltb limit (length (take (limit + 1) rows)) ≡ true =
      rw (length-take_long (limit + 1) rows (omega (arith, more))) (ground arith) in
    rw (many, take-take limit rows, s.taken, last_id-end s.front s.cursor) refl

All-both {ℓ κ} :
    {A : Type ℓ} (P Q : A → Type κ) (xs : List A) → All P xs → All Q xs → All (λ x. P x × Q x) xs
All-both P Q [] h k = tt
All-both P Q (x ∷ xs) (p, h) (q, k) = ((p, q), All-both P Q xs h k)

module _ (organization_id : String) (filters : AuditFilters) (events : List AuditEvent) where
  -- The event is found again by its identifier, if it is the organization's.
  abbrev IsFoundIn : List AuditEvent → AuditEvent → Type 0
  IsFoundIn es e =
      opt_eq e.organization_id (some organization_id) ≡ true
      → find_event organization_id e.id es ≡ some e

  found_later :
      (e : AuditEvent) (es : List AuditEvent) (f : AuditEvent)
      → (str_eq e.id f.id ≡ false) × IsFoundIn es f
      → IsFoundIn (e ∷ es) f
  unfolding find_event
  found_later e es f (differ, found) own =
      elim (Bool-cases (opt_eq e.organization_id (some organization_id))) [
        | inl same ↦ rw (same, differ) (found own)
        | inr other ↦ rw other (found own)
      ]

  found_again : (es : List AuditEvent) → IsTable es → All (IsFoundIn es) es
  unfolding find_event IsTable
  found_again [] table = tt
  found_again (e ∷ es) (present, (fresh, table)) = (
    λ own. rw (own, str_eq_refl e.id) refl,
    All-map (λ f. (str_eq e.id f.id ≡ false) × IsFoundIn es f) (IsFoundIn (e ∷ es)) es
        (found_later e es)
        (All-both (λ f. str_eq e.id f.id ≡ false) (IsFoundIn es) es fresh (found_again es table)),
  )

  named : (es : List AuditEvent) → IsTable es → All (λ e. str_eq e.id "" ≡ false) es
  unfolding IsTable
  named [] table = tt
  named (e ∷ es) (present, (fresh, table)) = (present, named es table)

  matches_own :
      (e : AuditEvent)
      → matches organization_id filters e ≡ true
      → opt_eq e.organization_id (some organization_id) ≡ true
  unfolding matches
  matches_own e h = elim (Bool-cases (opt_eq e.organization_id (some organization_id))) [
    | inl own ↦ own
    | inr other ↦ absurd (cc (rw other at h))
  ]

  -- A row of the query can serve as a cursor.
  abbrev IsCursor : AuditEvent → Type 0
  IsCursor e = (str_eq e.id "" ≡ false) × (find_event organization_id e.id events ≡ some e)

  rows-IsCursor : IsTable events → All IsCursor (event_rows organization_id filters events)
  unfolding event_rows
  rows-IsCursor table =
      let test = matches organization_id filters in
      let Known = λ (e : AuditEvent). (str_eq e.id "" ≡ false) × IsFoundIn events e in
      All-map (λ e. (test e ≡ true) × Known e) IsCursor (keep test (ordered events))
        (λ e h. (h.1.0, h.1.1 (matches_own e h.0)))
        (All-both (λ e. test e ≡ true) Known (keep test (ordered events))
          (keep_passes test (ordered events))
          (All-keep Known test (ordered events) (
            ordered-All Known events (
              All-both (λ e. str_eq e.id "" ≡ false) (IsFoundIn events) events (named events table)
                (found_again events table)))))

module _ (organization_id : String) (filters : AuditFilters) (limit : ℕ) (events : List AuditEvent)
    (table : IsTable events) (positive : 1 ≤ limit) where
  abbrev rows : List AuditEvent
  rows = event_rows organization_id filters events

  from_cursor-after :
      (before : List AuditEvent) (cursor : AuditEvent) (after : List AuditEvent)
      → rows ≡ before ++ cursor ∷ after
      → from_cursor organization_id (some cursor.id) events rows ≡ after
  unfolding from_cursor
  from_cursor-after before cursor after place =
      let (present, found) =
        All-middle (IsCursor organization_id filters events) before cursor after (
          subst (All (IsCursor organization_id filters events)) place
            (rows-IsCursor organization_id filters events table)) in
      let behind =
        keep-beyond before cursor after
          (subst IsSorted place (event_rows-IsSorted organization_id filters events table)) in
      rw (present, found) (ap (keep (is_beyond cursor)) place ∙ behind)

  -- From a cursor on, the pages list the rows that are behind it.
  pages_from :
      (n : ℕ) (before rest : List AuditEvent) (cursor : Option String)
      → rows ≡ before ++ rest
      → from_cursor organization_id cursor events rows ≡ rest
      → length rest ≤ n
      → all_pages organization_id filters limit events n cursor ≡ rest
  unfolding all_pages list_audit_events
  pages_from zero before [] cursor place start enough = refl
  pages_from zero before (e ∷ es) cursor place start enough = absurd (omega (arith, enough))
  pages_from (suc n) before rest cursor place start enough =
      elim (Bool-cases (leb (length rest) limit)) [
        | inl last ↦
            rw (start, page-last limit rest (leb→le (length rest) limit last)) (append-nil rest)
        | inr more ↦
            let many = leb→lt (length rest) limit more in
            let s = IsSplit-page limit rest positive many in
            let seen = before ++ s.front in
            let place_cursor : rows ≡ seen ++ s.cursor ∷ s.after =
              place
              ∙ (ap (λ ys. before ++ ys) (s.whole)
                  ∙ sym (append_assoc before s.front (s.cursor ∷ s.after))) in
            let place_after : rows ≡ (seen ++ s.cursor ∷ []) ++ s.after =
              place_cursor ∙ sym (append_assoc seen (s.cursor ∷ []) s.after) in
            let shorter : length s.after ≤ n = after-le s n enough in
            let others =
              pages_from n (seen ++ s.cursor ∷ []) s.after (some s.cursor.id) place_after
                (from_cursor-after seen s.cursor s.after place_cursor) shorter in
            rw (start, page-next limit rest many s, others)
              (append_assoc s.front (s.cursor ∷ []) s.after ∙ sym (s.whole))
      ]

  -- With pages of at least one event, a client that follows the cursors from the start lists each
  -- matching event of the organization once, in the order of the listing, and needs no more pages
  -- than there are events.
  pub all_pages_complete :
      (n : ℕ) → length rows ≤ n → all_pages organization_id filters limit events n none ≡ rows
  unfolding from_cursor
  all_pages_complete n enough = pages_from n [] rows none refl refl enough
