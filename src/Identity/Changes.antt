-- ===== src/Identity/Changes.antt =====
-- What the login of src/ai_examiner/services/oidc.py does to the tables of sessions and of login
-- transactions: it changes one row of each at most, in one of few ways. Changes/Steps is about all
-- operations.
pub mod Steps
use ai_examiner.Prelude.{
  Bool-cases, Dict, lookup, insert, Result, ok, err, ℕ, ◌+◌, ◌≤◌, String, ◌≡◌, refl, ◌∙◌, inl, inr,
  Bool, true, false, Option, none, some, arith,
}
use mathlib.Core.Path.{subst}
use mathlib.Core.Option.{some-injective}
use ai_examiner.Identity.Model.{
  Principal, OidcLoginTransaction, BrowserAuthSession, IdentityDb, OidcSettings, OidcError, minutes,
  add_at, add_unique,
}
use ai_examiner.Identity.Tokens.{TokenOps, ValidatedToken}
use ai_examiner.Identity.Principals.{
  find_principal, may_provision, provision, or_provision, resolve_principal,
}
use ai_examiner.Identity.Login.{
  SessionDraw, with_session, with_transaction, started, new_session, open_session, admit_identity,
}

-- The life of a session row: opened with a bounded term, seen, revoked.
pub data SessionChange (settings : OidcSettings) (rows : Dict BrowserAuthSession)
    : Dict BrowserAuthSession → Type 0 where
  kept : SessionChange settings rows rows
  opened :
      (key : String) (s : BrowserAuthSession)
      → lookup key rows ≡ none
      → s.expires_at ≤ s.created_at + minutes settings.oidc_session_max_minutes
      → SessionChange settings rows (insert key s rows)
  seen :
      (key : String) (s : BrowserAuthSession) (now : ℕ)
      → lookup key rows ≡ some s
      → SessionChange settings rows (insert key (record s { last_seen_at = now }) rows)
  ended_by_logout :
      (key : String) (s : BrowserAuthSession) (now : ℕ)
      → lookup key rows ≡ some s
      → SessionChange settings rows (insert key (record s { revoked_at = some now }) rows)

-- The life of a login transaction: begun, consumed.
pub data LoginChange (rows : Dict OidcLoginTransaction) : Dict OidcLoginTransaction → Type 0 where
  kept : LoginChange rows rows
  begun :
      (key : String) (tx : OidcLoginTransaction)
      → lookup key rows ≡ none
      → LoginChange rows (insert key tx rows)
  consumed :
      (key : String) (tx : OidcLoginTransaction) (now : ℕ)
      → LoginChange rows (insert key (record tx { consumed_at = some now }) rows)

provision-tables :
    (settings : OidcSettings) (token : ValidatedToken) (id : String) (now : ℕ) (db : IdentityDb)
    → ((provision settings token id now db).1.sessions ≡ db.sessions)
      × ((provision settings token id now db).1.transactions ≡ db.transactions)
provision-tables settings token id now db =
    elim (Bool-cases (may_provision settings.oidc_principal_provisioning)) [
      | inl allowed ↦ rw allowed (refl, refl)
      | inr refused ↦ rw refused (refl, refl)
    ]

or_provision-tables :
    (settings : OidcSettings) (token : ValidatedToken) (id : String) (now : ℕ) (db : IdentityDb)
    (o : Option Principal)
    → ((or_provision settings token id now db o).1.sessions ≡ db.sessions)
      × ((or_provision settings token id now db o).1.transactions ≡ db.transactions)
or_provision-tables settings token id now db (some p) = (refl, refl)
or_provision-tables settings token id now db none = provision-tables settings token id now db

pub resolve_principal-tables :
    (settings : OidcSettings) (token : ValidatedToken) (id : String) (now : ℕ) (db : IdentityDb)
    → ((resolve_principal settings token id now db).1.sessions ≡ db.sessions)
      × ((resolve_principal settings token id now db).1.transactions ≡ db.transactions)
unfolding resolve_principal
resolve_principal-tables settings token id now db =
    or_provision-tables settings token id now db
      (find_principal token.issuer token.subject db.principals)

with_session-change :
    (settings : OidcSettings) (s : BrowserAuthSession) (secret key : String) (db : IdentityDb)
    (o : Option BrowserAuthSession)
    → lookup key db.sessions ≡ o
    → s.expires_at ≤ s.created_at + minutes settings.oidc_session_max_minutes
    → SessionChange settings db.sessions
        (with_session s secret db (add_at key s db.sessions o)).1.sessions
with_session-change settings s secret key db (some taken) found term = kept
with_session-change settings s secret key db none free term = opened key s free term

with_session-transactions :
    (s : BrowserAuthSession) (secret : String) (db : IdentityDb)
    (added : Result OidcError (Dict BrowserAuthSession))
    → (with_session s secret db added).1.transactions ≡ db.transactions
with_session-transactions s secret db (err raised) = refl
with_session-transactions s secret db (ok rows) = refl

with_transaction-change :
    (expires_at : ℕ) (key : String) (tx : OidcLoginTransaction) (db : IdentityDb)
    (o : Option OidcLoginTransaction)
    → lookup key db.transactions ≡ o
    → (LoginChange db.transactions
        (with_transaction expires_at db (add_at key tx db.transactions o)).1.transactions)
      × ((with_transaction expires_at db (add_at key tx db.transactions o)).1.sessions
          ≡ db.sessions)
with_transaction-change expires_at key tx db (some taken) found = (kept, refl)
with_transaction-change expires_at key tx db none free = (begun key tx free, refl)

pub started-change :
    (given : Bool) (expires_at : ℕ) (key : String) (tx : OidcLoginTransaction) (db : IdentityDb)
    → (LoginChange db.transactions
        (started given expires_at db (add_unique key tx db.transactions)).1.transactions)
      × ((started given expires_at db (add_unique key tx db.transactions)).1.sessions ≡ db.sessions)
started-change false expires_at key tx db = (kept, refl)
started-change true expires_at key tx db =
    with_transaction-change expires_at key tx db (lookup key db.transactions) refl

module _ {Key : Type 0} (ops : TokenOps Key) (settings : OidcSettings) where
  open_session-change :
      (token : ValidatedToken) (draw : SessionDraw)
      (found : Result OidcError Principal × IdentityDb)
      → SessionChange settings found.1.sessions
          (open_session ops settings token draw found).1.sessions
  open_session-change token draw (err raised, db) = kept
  open_session-change token draw (ok p, db) =
      with_session-change settings (new_session ops settings token p draw) draw.session_secret
        (ops.sha256 draw.session_secret) db (lookup (ops.sha256 draw.session_secret) db.sessions)
        refl (omega arith)

  pub open_session-transactions :
      (token : ValidatedToken) (draw : SessionDraw)
      (found : Result OidcError Principal × IdentityDb)
      → (open_session ops settings token draw found).1.transactions ≡ found.1.transactions
  open_session-transactions token draw (err raised, db) = refl
  open_session-transactions token draw (ok p, db) =
      let s = new_session ops settings token p draw in
      with_session-transactions s draw.session_secret db
        (add_unique (ops.sha256 draw.session_secret) s db.sessions)

  pub admit_identity-change :
      (draw : SessionDraw) (now : ℕ) (db : IdentityDb) (named : Result OidcError ValidatedToken)
      → SessionChange settings db.sessions
          (admit_identity ops settings draw now db named).1.sessions
  admit_identity-change draw now db (err raised) = kept
  admit_identity-change draw now db (ok token) =
      let found = resolve_principal settings token draw.principal_id now db in
      subst
        (λ rows.
          SessionChange settings rows (open_session ops settings token draw found).1.sessions)
        (resolve_principal-tables settings token draw.principal_id now db).0
        (open_session-change token draw found)

  pub admit_identity-transactions :
      (draw : SessionDraw) (now : ℕ) (db : IdentityDb) (named : Result OidcError ValidatedToken)
      → (admit_identity ops settings draw now db named).1.transactions ≡ db.transactions
  admit_identity-transactions draw now db (err raised) = refl
  admit_identity-transactions draw now db (ok token) =
      open_session-transactions token draw
        (resolve_principal settings token draw.principal_id now db)
      ∙ (resolve_principal-tables settings token draw.principal_id now db).1
