-- ===== src/Identity/Sessions.antt =====
-- Browser sessions and logins of src/ai_examiner/services/oidc.py over time.
use mathlib.Core.Path.{subst}
use ai_examiner.Prelude.{
  if◌then◌else◌, Bool-cases, ltb→lt, is_some, lookup, insert, AllValues, AllValues-lookup,
  lookup-insert_self, Result, ok, err, ok-injective, ℕ, ◌+◌, ◌<◌, String, ◌≡◌, refl, sym, ap, inl,
  inr, true, ◌&&◌, Option, none, some, [], arith, str_eq,
}
use ai_examiner.Identity.Model.{
  Principal, OidcLoginTransaction, BrowserAuthSession, IdentityDb, OidcSettings, OidcError,
  oidc_callback_invalid, oidc_state_invalid, browser_session_invalid, has_size, minutes,
}
use ai_examiner.Identity.Tokens.{TokenOps}
use ai_examiner.Identity.Login.{
  OidcProvider, SessionDraw, open_transaction, consume, verified_identity, finish_login, after_read,
  complete_login,
}
use ai_examiner.Identity.Access.{
  AuthenticationContext, live_session, session_context, with_live, authenticate_session,
  revoked_row, revoke_session,
}
use ai_examiner.Identity.Steps.{Reach, here, next}
use ai_examiner.Identity.Changes.{admit_identity-transactions}
use ai_examiner.Identity.Changes.Steps.{IsLive, live_session-IsLive, Step-change}
use ai_examiner.Identity.Rows.{
  HasRow, is_over, is_used, some_none, SessionChange-over, LoginChange-used, HasTerm,
  SessionChange-HasTerm,
}

module _ {Key : Type 0} (ops : TokenOps Key) (settings : OidcSettings) where
  Reach-over :
      {db db' : IdentityDb} (key : String)
      → Reach ops settings db db'
      → HasRow is_over key db.sessions
      → HasRow is_over key db'.sessions
  Reach-over key here row = row
  Reach-over key (next run step) row =
      SessionChange-over key (Step-change ops settings step).0 (Reach-over key run row)

  Reach-used :
      {db db' : IdentityDb} (key : String)
      → Reach ops settings db db'
      → HasRow is_used key db.transactions
      → HasRow is_used key db'.transactions
  Reach-used key here row = row
  Reach-used key (next run step) row =
      LoginChange-used key (Step-change ops settings step).1 (Reach-used key run row)

  Reach-HasTerm :
      {db db' : IdentityDb}
      → Reach ops settings db db'
      → AllValues (HasTerm settings) db.sessions
      → AllValues (HasTerm settings) db'.sessions
  Reach-HasTerm here all = all
  Reach-HasTerm (next run step) all =
      SessionChange-HasTerm (Step-change ops settings step).0 (Reach-HasTerm run all)

  revoked_row-over :
      (key : String) (now : ℕ) (db : IdentityDb) (o : Option BrowserAuthSession)
      → (revoked_row ops settings key now db o).0 ≡ true
      → HasRow is_over key (revoked_row ops settings key now db o).1.sessions
  unfolding is_over
  revoked_row-over key now db none done = cc
  revoked_row-over key now db (some s) done = elim (Bool-cases (is_some s.revoked_at)) [
    | inl over ↦ absurd (cc (rw over at done))
    | inr live ↦
        let ended : BrowserAuthSession = record s { revoked_at = some now } in
        let row : HasRow is_over key (insert key ended db.sessions) = record {
          value = ended;
          found = lookup-insert_self key ended db.sessions;
          passes = refl;
        } in
        rw live row
  ]

  revoke_session-over :
      (session_token : String) (now : ℕ) (db : IdentityDb)
      → (revoke_session ops settings (some session_token) now db).0 ≡ true
      → HasRow is_over
          (ops.sha256 session_token)
          (revoke_session ops settings (some session_token) now db).1.sessions
  unfolding revoke_session
  revoke_session-over session_token now db done = elim (Bool-cases (str_eq session_token "")) [
    | inl empty ↦ absurd (cc (rw empty at done))
    | inr given ↦
        let key = ops.sha256 session_token in
        rw given (revoked_row-over key now db (lookup key db.sessions) (rw given at done))
  ]

  over-refused :
      (session_token : String) (now : ℕ) (db : IdentityDb)
      → HasRow is_over (ops.sha256 session_token) db.sessions
      → live_session ops settings session_token now db ≡ err browser_session_invalid
  unfolding live_session is_over
  over-refused session_token now db row = elim (Bool-cases (has_size 500 session_token)) [
    | inr odd ↦ rw odd refl
    | inl sized ↦
        let over = some_none (row.value.revoked_at) (row.passes) in rw (sized, row.found, over) refl
  ]

  -- Logout is final: once a session has been revoked, its token never authenticates a request again,
  -- whatever logins, callbacks, requests, logouts and changes of status follow.
  pub revoked_stays_out :
      (session_token : String) (now later : ℕ) (db db' : IdentityDb)
      → (revoke_session ops settings (some session_token) now db).0 ≡ true
      → Reach ops settings (revoke_session ops settings (some session_token) now db).1 db'
      → authenticate_session ops settings session_token later db'
        ≡ (err browser_session_invalid, db')
  unfolding authenticate_session
  revoked_stays_out session_token now later db db' done run =
      let row =
        Reach-over (ops.sha256 session_token) run (revoke_session-over session_token now db done) in
      ap (with_live ops settings session_token later db') (over-refused session_token later db' row)

  finish_login-used :
      (provider : OidcProvider Key) (state login_code : String) (draw : SessionDraw) (now : ℕ)
      (tx : OidcLoginTransaction) (db : IdentityDb)
      → HasRow is_used
          (ops.sha256 state)
          (finish_login ops settings provider state login_code draw now tx db).1.transactions
  unfolding finish_login consume is_used
  finish_login-used provider state login_code draw now tx db =
      let key = ops.sha256 state in
      let used : OidcLoginTransaction = record tx { consumed_at = some now } in
      let row : HasRow is_used key (insert key used db.transactions) = record {
        value = used;
        found = lookup-insert_self key used db.transactions;
        passes = refl;
      } in
      subst (HasRow is_used key)
        (sym (
          admit_identity-transactions ops settings draw now (consume ops settings state tx now db)
            (verified_identity ops settings provider tx login_code now)))
        row

  used-refused :
      (state login_code : String) (now : ℕ) (db : IdentityDb)
      → HasRow is_used (ops.sha256 state) db.transactions
      → open_transaction ops settings state login_code now db
        ≡ err (
            if has_size 500 state && has_size 4000 login_code
            then oidc_state_invalid
            else oidc_callback_invalid)
  unfolding open_transaction is_used
  used-refused state login_code now db row =
      elim (Bool-cases (has_size 500 state && has_size 4000 login_code)) [
        | inr odd ↦ rw odd refl
        | inl sized ↦
            let used = some_none (row.value.consumed_at) (row.passes) in
            rw (sized, row.found, used) refl
      ]

  -- The state of a login is good for one callback: after a callback has taken its transaction,
  -- however it ended, every later callback with that state is refused and changes nothing.
  pub login_once :
      (provider : OidcProvider Key) (state login_code : String) (draw : SessionDraw) (now : ℕ)
      (tx : OidcLoginTransaction) (db db' : IdentityDb)
      → Reach ops settings
          (finish_login ops settings provider state login_code draw now tx db).1
          db'
      → (provider' : OidcProvider Key) (login_code' : String) (draw' : SessionDraw) (later : ℕ)
      → complete_login ops settings provider' state login_code' draw' later db' ≡ (
        err (
            if has_size 500 state && has_size 4000 login_code'
            then oidc_state_invalid
            else oidc_callback_invalid),
        db',
      )
  unfolding complete_login
  login_once provider state login_code draw now tx db db' run provider' login_code' draw' later =
      let row =
        Reach-used (ops.sha256 state) run
          (finish_login-used provider state login_code draw now tx db) in
      ap (after_read ops settings provider' state login_code' draw' later db')
        (used-refused state login_code' later db' row)

  -- What an accepted session token stands for.
  abbrev IsAuthenticated : String → ℕ → IdentityDb → AuthenticationContext → Type 0
  IsAuthenticated session_token now db context =
      (s : BrowserAuthSession) × (p : Principal) × (context ≡ session_context ops settings s p)
      × (IsLive ops settings session_token now db s p)
      × (now < s.created_at + minutes settings.oidc_session_max_minutes)

  with_live-IsAuthenticated :
      (session_token : String) (now : ℕ) (db : IdentityDb) (context : AuthenticationContext)
      (live : Result OidcError (BrowserAuthSession × Principal))
      → live_session ops settings session_token now db ≡ live
      → AllValues (HasTerm settings) db.sessions
      → (with_live ops settings session_token now db live).0 ≡ ok context
      → IsAuthenticated session_token now db context
  with_live-IsAuthenticated session_token now db context (err raised) read all accepted = cc
  with_live-IsAuthenticated session_token now db context (ok (s, p)) read all accepted =
      let facts = live_session-IsLive ops settings session_token now db s p read in
      let term =
        AllValues-lookup (HasTerm settings) (ops.sha256 session_token) s db.sessions all
          (facts.row) in
      let in_term = ltb→lt now s.expires_at (facts.in_term) in
      (
        s,
        p,
        sym (ok-injective OidcError (session_context ops settings s p) context accepted),
        facts,
        omega (arith, term, in_term),
      )

  -- From a table without sessions on, whatever steps follow, a session token authenticates only by a
  -- row that is neither revoked nor past its term, as the principal of that row, which is active, and
  -- only before the maximal age of a session has passed since the row was made.
  pub authenticate_session-IsAuthenticated :
      (db db' : IdentityDb) (session_token : String) (now : ℕ) (context : AuthenticationContext)
      → db.sessions ≡ []
      → Reach ops settings db db'
      → (authenticate_session ops settings session_token now db').0 ≡ ok context
      → IsAuthenticated session_token now db' context
  unfolding authenticate_session
  authenticate_session-IsAuthenticated db db' session_token now context empty run accepted =
      let all = Reach-HasTerm run (subst (AllValues (HasTerm settings)) (sym empty) tt) in
      with_live-IsAuthenticated session_token now db' context
        (live_session ops settings session_token now db') refl all accepted
