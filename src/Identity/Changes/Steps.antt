-- ===== src/Identity/Changes/Steps.antt =====
-- What each step of src/ai_examiner/services/oidc.py does to the tables of sessions and of login
-- transactions.
use ai_examiner.Prelude.{
  ltb, leb, Bool-cases, is_none, is_some, Dict, lookup, Result, ok, err, guard, require, >>=-eq-ok,
  guard-eq-ok, ok-injective, require-eq-ok, ℕ, ◌+◌, String, ◌≡◌, refl, sym, ap, ◌∙◌, inl, inr, true,
  ◌&&◌, Option, none, some, arith, str_eq,
}
use mathlib.Core.Path.{subst}
use mathlib.Core.Option.{some-injective}
use ai_examiner.Identity.Model.{
  Principal, OidcLoginTransaction, BrowserAuthSession, IdentityDb, OidcSettings, OidcError,
  principal_inactive, browser_session_invalid, has_size, minutes, is_active_status,
}
use ai_examiner.Identity.Tokens.{TokenOps, ValidatedToken, validate_access_token}
use ai_examiner.Identity.Principals.{
  resolve_principal, may_become, same_status, transition_principal_status,
}
use ai_examiner.Identity.Login.{
  OidcProvider, SessionDraw, begin_login, consume, verified_identity, finish_login,
}
use ai_examiner.Identity.Access.{
  as_bearer, with_access, authenticate_bearer, live_session, with_live, authenticate_session,
  revoked_row, revoke_session,
}
use ai_examiner.Enterprise.{PrincipalStatus}
use ai_examiner.Identity.Steps.{Step, beginning, callback, bearer, request, logout, status_change}
use ai_examiner.Identity.Changes.{
  SessionChange, kept, seen, ended_by_logout, LoginChange, consumed, resolve_principal-tables,
  started-change, admit_identity-change, admit_identity-transactions,
}

module _ {Key : Type 0} (ops : TokenOps Key) (settings : OidcSettings) where
  as_bearer-tables :
      (token : ValidatedToken) (found : Result OidcError Principal × IdentityDb)
      → ((as_bearer ops settings token found).1.sessions ≡ found.1.sessions)
        × ((as_bearer ops settings token found).1.transactions ≡ found.1.transactions)
  as_bearer-tables token (err raised, db) = (refl, refl)
  as_bearer-tables token (ok p, db) = (refl, refl)

  with_access-tables :
      (id : String) (now : ℕ) (db : IdentityDb) (access : Result OidcError ValidatedToken)
      → ((with_access ops settings id now db access).1.sessions ≡ db.sessions)
        × ((with_access ops settings id now db access).1.transactions ≡ db.transactions)
  with_access-tables id now db (err raised) = (refl, refl)
  with_access-tables id now db (ok access) =
      let bearer_tables = as_bearer-tables access (resolve_principal settings access id now db) in
      let tables = resolve_principal-tables settings access id now db in
      (bearer_tables.0 ∙ tables.0, bearer_tables.1 ∙ tables.1)

  -- What a live session has passed.
  pub record IsLive (session_token : String) (now : ℕ) (db : IdentityDb) (s : BrowserAuthSession)
      (p : Principal) : Type 0 where
    pub row : lookup (ops.sha256 session_token) db.sessions ≡ some s
    pub unrevoked : is_none s.revoked_at ≡ true
    pub in_term : ltb now s.expires_at ≡ true
    pub principal : lookup s.principal_id db.principals ≡ some p
    pub active : is_active_status p.status ≡ true

  pub live_session-IsLive :
      (session_token : String) (now : ℕ) (db : IdentityDb) (s : BrowserAuthSession) (p : Principal)
      → live_session ops settings session_token now db ≡ ok (s, p)
      → IsLive session_token now db s p
  unfolding live_session
  live_session-IsLive session_token now db s p live =
      let (u, sized, r1) =
        >>=-eq-ok (guard (has_size 500 session_token) browser_session_invalid) _ live in
      let (s', row, r2) =
        >>=-eq-ok (require (lookup (ops.sha256 session_token) db.sessions) browser_session_invalid)
          _ r1 in
      let (v, valid, r3) =
        >>=-eq-ok (guard (is_none s'.revoked_at && ltb now s'.expires_at) browser_session_invalid) _
          r2 in
      let (p', found, r4) =
        >>=-eq-ok (require (lookup s'.principal_id db.principals) principal_inactive) _ r3 in
      let (w, active, r5) =
        >>=-eq-ok (guard (is_active_status p'.status) principal_inactive) _ r4 in
      let both =
        guard-eq-ok (is_none s'.revoked_at && ltb now s'.expires_at) browser_session_invalid
          valid in
      let facts : IsLive session_token now db s' p' = record {
        row =
            require-eq-ok (lookup (ops.sha256 session_token) db.sessions) browser_session_invalid
              row;
        unrevoked = ground (arith, both);
        in_term = ground (arith, both);
        principal = require-eq-ok (lookup s'.principal_id db.principals) principal_inactive found;
        active = guard-eq-ok (is_active_status p'.status) principal_inactive active;
      } in
      subst (λ pair. IsLive session_token now db pair.0 pair.1)
        (ok-injective OidcError (s', p') (s, p) r5) facts

  with_live-change :
      (session_token : String) (now : ℕ) (db : IdentityDb)
      (live : Result OidcError (BrowserAuthSession × Principal))
      → live_session ops settings session_token now db ≡ live
      → SessionChange settings db.sessions
          (with_live ops settings session_token now db live).1.sessions
  with_live-change session_token now db (err raised) read = kept
  with_live-change session_token now db (ok (s, p)) read =
      let found = (live_session-IsLive session_token now db s p read).row in
      elim (Bool-cases (leb (s.last_seen_at + minutes 5) now)) [
        | inl late ↦ rw late (seen (ops.sha256 session_token) s now found)
        | inr soon ↦ rw soon kept
      ]

  with_live-transactions :
      (session_token : String) (now : ℕ) (db : IdentityDb)
      (live : Result OidcError (BrowserAuthSession × Principal))
      → (with_live ops settings session_token now db live).1.transactions ≡ db.transactions
  with_live-transactions session_token now db (err raised) = refl
  with_live-transactions session_token now db (ok (s, p)) =
      elim (Bool-cases (leb (s.last_seen_at + minutes 5) now)) [
        | inl late ↦ rw late refl
        | inr soon ↦ rw soon refl
      ]

  revoked_row-change :
      (key : String) (now : ℕ) (db : IdentityDb) (o : Option BrowserAuthSession)
      → lookup key db.sessions ≡ o
      → (SessionChange settings db.sessions (revoked_row ops settings key now db o).1.sessions)
        × ((revoked_row ops settings key now db o).1.transactions ≡ db.transactions)
  revoked_row-change key now db none missing = (kept, refl)
  revoked_row-change key now db (some s) found = elim (Bool-cases (is_some s.revoked_at)) [
    | inl over ↦ rw over (kept, refl)
    | inr live ↦ rw live (ended_by_logout key s now found, refl)
  ]

  revoke_session-change :
      (session_token : Option String) (now : ℕ) (db : IdentityDb)
      → (SessionChange settings db.sessions
          (revoke_session ops settings session_token now db).1.sessions)
        × ((revoke_session ops settings session_token now db).1.transactions ≡ db.transactions)
  unfolding revoke_session
  revoke_session-change none now db = (kept, refl)
  revoke_session-change (some session_token) now db = elim (Bool-cases (str_eq session_token "")) [
    | inl empty ↦ rw empty (kept, refl)
    | inr given ↦ rw given (
        revoked_row-change (ops.sha256 session_token) now db
          (lookup (ops.sha256 session_token) db.sessions) refl)
  ]

  finish_login-change :
      (provider : OidcProvider Key) (state login_code : String) (draw : SessionDraw) (now : ℕ)
      (tx : OidcLoginTransaction) (db : IdentityDb)
      → (SessionChange settings db.sessions
          (finish_login ops settings provider state login_code draw now tx db).1.sessions)
        × (LoginChange db.transactions
            (finish_login ops settings provider state login_code draw now tx db).1.transactions)
  unfolding finish_login consume
  finish_login-change provider state login_code draw now tx db =
      let named = verified_identity ops settings provider tx login_code now in
      (
        admit_identity-change ops settings draw now (consume ops settings state tx now db) named,
        subst (LoginChange db.transactions)
            (sym (
              admit_identity-transactions ops settings draw now
                (consume ops settings state tx now db) named))
            (consumed (ops.sha256 state) tx now),
      )

  unchanged :
      {rows rows' : Dict BrowserAuthSession} {txs txs' : Dict OidcLoginTransaction}
      → rows' ≡ rows
      → txs' ≡ txs
      → (SessionChange settings rows rows') × (LoginChange txs txs')
  unchanged {rows} {rows'} {txs} p q =
      (subst (SessionChange settings rows) (sym p) kept, subst (LoginChange txs) (sym q) kept)

  sessions_only :
      {rows rows' : Dict BrowserAuthSession} {txs txs' : Dict OidcLoginTransaction}
      → SessionChange settings rows rows'
      → txs' ≡ txs
      → (SessionChange settings rows rows') × (LoginChange txs txs')
  sessions_only {rows} {rows'} {txs} change q = (change, subst (LoginChange txs) (sym q) kept)

  status-tables :
      (p : Principal) (target : PrincipalStatus) (now : ℕ) (db db' : IdentityDb)
      → transition_principal_status p target now db ≡ some db'
      → (db'.sessions ≡ db.sessions) × (db'.transactions ≡ db.transactions)
  unfolding transition_principal_status
  status-tables p target now db db' done = elim (Bool-cases (same_status target p.status)) [
    | inl same ↦
        let back = some-injective db db' (rw same at done) in
        (sym (ap (λ d. d.sessions) back), sym (ap (λ d. d.transactions) back))
    | inr other ↦ elim (Bool-cases (may_become p.status target)) [
      | inr refused ↦ absurd (cc (rw (other, refused) at done))
      | inl allowed ↦
          let back = some-injective _ db' (rw (other, allowed) at done) in
          (sym (ap (λ d. d.sessions) back), sym (ap (λ d. d.transactions) back))
    ]
  ]

  -- Every step changes the sessions and the transactions in one of these ways.
  pub Step-change :
      {db db' : IdentityDb}
      → Step ops settings db db'
      → (SessionChange settings db.sessions db'.sessions)
        × (LoginChange db.transactions db'.transactions)
  unfolding begin_login authenticate_bearer authenticate_session
  Step-change {db} (beginning secrets now) =
      let (change, same) =
        started-change settings.has_auth_session_secret
          (now + minutes settings.oidc_login_ttl_minutes) (ops.sha256 secrets.state) _ db in
      (subst (SessionChange settings db.sessions) (sym same) kept, change)
  Step-change {db} (callback provider state login_code draw now tx) =
      finish_login-change provider state login_code draw now tx db
  Step-change {db} (bearer provider token principal_id now) =
      let tables =
        with_access-tables principal_id now db
          (validate_access_token ops settings provider.signing_key now token) in
      unchanged tables.0 tables.1
  Step-change {db} (request session_token now) =
      let live = live_session ops settings session_token now db in
      sessions_only (with_live-change session_token now db live refl)
        (with_live-transactions session_token now db live)
  Step-change {db} (logout session_token now) =
      let change = revoke_session-change session_token now db in sessions_only change.0 change.1
  Step-change {db} {db'} (status_change p target now done) =
      let tables = status-tables p target now db db' done in unchanged tables.0 tables.1
