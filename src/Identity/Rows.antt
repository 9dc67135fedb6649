-- ===== src/Identity/Rows.antt =====
-- What stays true of the tables of src/ai_examiner/services/oidc.py through every change.
use mathlib.Core.Path.{subst}
use mathlib.Core.Option.{some-injective}
use ai_examiner.Prelude.{
  Bool-cases, is_none, is_some, Dict, lookup, insert, lookup-insert, AllValues, AllValues-insert,
  AllValues-lookup, ◌+◌, ◌≤◌, String, ◌≡◌, refl, sym, ap, ◌∙◌, inl, inr, Bool, true, false, Option,
  none, some, str_eq, eq_iff,
}
use ai_examiner.Identity.Model.{OidcLoginTransaction, BrowserAuthSession, OidcSettings, minutes}
use ai_examiner.Identity.Changes.{
  SessionChange, kept, opened, seen, ended_by_logout, LoginChange, begun, consumed,
}

-- The table has a row under the key, and it passes the test.
pub record HasRow {A : Type 0} (test : A → Bool) (key : String) (rows : Dict A) : Type 0 where
  pub value : A
  pub found : lookup key rows ≡ some value
  pub passes : test value ≡ true

module _ {A : Type 0} (test : A → Bool) where
  insert-HasRow :
      (key other : String) (new : A) (rows : Dict A)
      → HasRow test key rows
      → (str_eq other key ≡ true → test new ≡ true)
      → HasRow test key (insert other new rows)
  insert-HasRow key other new rows row passing = elim (Bool-cases (str_eq other key)) [
    | inl same ↦ record {
      value = new;
      found = lookup-insert other key new rows ∙ rw same refl;
      passes = passing same;
    }
    | inr differ ↦ record {
      value = row.value;
      found = lookup-insert other key new rows ∙ rw differ (row.found);
      passes = row.passes;
    }
  ]

  taken :
      (key other : String) (rows : Dict A)
      → HasRow test key rows
      → lookup other rows ≡ none
      → str_eq other key ≡ true
      → ⊥
  taken key other rows row free same =
      let there : lookup other rows ≡ some row.value =
        subst (λ k. lookup k rows ≡ some row.value) (sym ((eq_iff other key).0 same)) (row.found) in
      cc (free, there)

  same_row :
      (key other : String) (old : A) (rows : Dict A)
      → (row : HasRow test key rows) → lookup other rows ≡ some old
      → str_eq other key ≡ true
      → old ≡ row.value
  same_row key other old rows row there same =
      let path = (eq_iff other key).0 same in
      some-injective old row.value (sym there ∙ (ap (λ k. lookup k rows) path ∙ row.found))

-- A revoked session, and a consumed transaction.
unfoldable pub is_over : BrowserAuthSession → Bool
is_over s = is_some s.revoked_at

unfoldable pub is_used : OidcLoginTransaction → Bool
is_used tx = is_some tx.consumed_at

pub some_none {ℓ} : {A : Type ℓ} (o : Option A) → is_some o ≡ true → is_none o ≡ false
some_none none h = cc
some_none (some a) h = refl

pub SessionChange-over :
    {settings : OidcSettings} {rows rows' : Dict BrowserAuthSession} (key : String)
    → SessionChange settings rows rows'
    → HasRow is_over key rows
    → HasRow is_over key rows'
unfolding is_over
SessionChange-over key kept row = row
SessionChange-over {rows = rows} key (opened other s free term) row =
    insert-HasRow is_over key other s rows row
      (λ same. absurd (taken is_over key other rows row free same))
SessionChange-over {rows = rows} key (seen other s now found) row =
    insert-HasRow is_over key other (record s { last_seen_at = now }) rows row
      (λ same. ap is_over (same_row is_over key other s rows row found same) ∙ row.passes)
SessionChange-over {rows = rows} key (ended_by_logout other s now found) row =
    insert-HasRow is_over key other (record s { revoked_at = some now }) rows row (λ same. refl)

pub LoginChange-used :
    {rows rows' : Dict OidcLoginTransaction} (key : String)
    → LoginChange rows rows'
    → HasRow is_used key rows
    → HasRow is_used key rows'
unfolding is_used
LoginChange-used key kept row = row
LoginChange-used {rows} key (begun other tx free) row =
    insert-HasRow is_used key other tx rows row
      (λ same. absurd (taken is_used key other rows row free same))
LoginChange-used {rows} key (consumed other tx now) row =
    insert-HasRow is_used key other (record tx { consumed_at = some now }) rows row (λ same. refl)

-- Every session has a bounded term.
abbrev pub HasTerm : OidcSettings → BrowserAuthSession → Type 0
HasTerm settings s = s.expires_at ≤ s.created_at + minutes settings.oidc_session_max_minutes

pub SessionChange-HasTerm :
    {settings : OidcSettings} {rows rows' : Dict BrowserAuthSession}
    → SessionChange settings rows rows'
    → AllValues (HasTerm settings) rows
    → AllValues (HasTerm settings) rows'
SessionChange-HasTerm kept all = all
SessionChange-HasTerm {settings} {rows} (opened other s free term) all =
    AllValues-insert (HasTerm settings) other s rows term all
SessionChange-HasTerm {settings} {rows} (seen other s now found) all =
    AllValues-insert (HasTerm settings) other (record s { last_seen_at = now }) rows
      (AllValues-lookup (HasTerm settings) other s rows all found) all
SessionChange-HasTerm {settings} {rows} (ended_by_logout other s now found) all =
    AllValues-insert (HasTerm settings) other (record s { revoked_at = some now }) rows
      (AllValues-lookup (HasTerm settings) other s rows all found) all
