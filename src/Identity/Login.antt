-- ===== src/Identity/Login.antt =====
-- The login of `OIDCAuthenticator` of src/ai_examiner/services/oidc.py. Random texts, the clock, the cipher and the answers of
-- `OIDCDiscoveryCache` are arguments. An exception stands beside the state that is committed.
use Prim.Native.Nat.{min}
use ai_examiner.Prelude.{
  ltb, is_none, or_default, Dict, lookup, insert, Result, ok, err, ◌>>=◌, ◌>>◌, guard, require, ℕ,
  ◌+◌, ◌*◌, String, Bool, true, false, ◌&&◌, Option, none, some, str_eq,
}
use ai_examiner.Jobs.Model.{Json}
use ai_examiner.Audit.Redaction.{sorted_set}
use ai_examiner.Identity.Model.{
  Principal, OidcLoginTransaction, BrowserAuthSession, IdentityDb, OidcSettings, OidcError,
  oidc_callback_invalid, oidc_state_invalid, oidc_verifier_invalid,
  oidc_token_response_missing_tokens, oidc_token_identity_mismatch, auth_session_secret_missing,
  has_size, minutes, add_unique,
}
use ai_examiner.Identity.Principals.{resolve_principal}
use ai_examiner.Identity.Tokens.{
  TokenOps, ValidatedToken, text_of, validate_access_token, validate_id_token,
}

-- What a login asks the provider for: a signing key, and the tokens for a code, its verifier and the
-- redirect address. `decrypt` gets the time to live in seconds.
pub record OidcProvider (Key : Type 0) : Type 0 where
  pub signing_key : String → String → Result OidcError Key
  pub exchange_code : String → String → String → Result OidcError (Dict Json)
  pub decrypt : ℕ → String → Option String

pub record LoginComplete : Type 0 where
  pub principal_id : String
  pub session_token : String
  pub expires_at : ℕ

-- What `begin_login` draws and encrypts.
pub record LoginSecrets : Type 0 where
  pub state : String
  pub ciphertext : String
  pub nonce : String

-- The identifiers and the secret that a completed login draws, and the time of its session.
pub record SessionDraw : Type 0 where
  pub principal_id : String
  pub session_id : String
  pub session_secret : String
  pub session_now : ℕ

abbrev pub with_session :
    BrowserAuthSession
    → String
    → IdentityDb
    → Result OidcError (Dict BrowserAuthSession)
    → Result OidcError LoginComplete × IdentityDb
with_session s secret db (err raised) = (err raised, db)
with_session s secret db (ok sessions) =
    let done : LoginComplete = record {
      principal_id = s.principal_id;
      session_token = secret;
      expires_at = s.expires_at;
    } in
    (ok done, record db { sessions = sessions })

abbrev pub with_transaction :
    ℕ → IdentityDb → Result OidcError (Dict OidcLoginTransaction) → Result OidcError ℕ × IdentityDb
with_transaction expires_at db (err raised) = (err raised, db)
with_transaction expires_at db (ok transactions) =
    (ok expires_at, record db { transactions = transactions })

-- The cipher needs the session secret before the row is added.
abbrev pub started :
    Bool
    → ℕ
    → IdentityDb
    → Result OidcError (Dict OidcLoginTransaction)
    → Result OidcError ℕ × IdentityDb
started false expires_at db added = (err auth_session_secret_missing, db)
started true expires_at db added = with_transaction expires_at db added

module _ {Key : Type 0} (ops : TokenOps Key) (settings : OidcSettings) where
  -- The transaction that `begin_login` commits; the address that the browser is sent to is made of
  -- the same secrets.
  unfoldable pub begin_login : LoginSecrets → ℕ → IdentityDb → Result OidcError ℕ × IdentityDb
  begin_login secrets now db =
      let expires_at = now + minutes settings.oidc_login_ttl_minutes in
      let tx : OidcLoginTransaction = record {
        code_verifier_ciphertext = secrets.ciphertext;
        nonce_hash = ops.sha256 secrets.nonce;
        redirect_uri = or_default settings.oidc_redirect_uri "";
        created_at = now;
        expires_at = expires_at;
        consumed_at = none;
      } in
      started settings.has_auth_session_secret expires_at db
        (add_unique (ops.sha256 secrets.state) tx db.transactions)

  -- The transaction of a callback, read and checked.
  unfoldable pub open_transaction :
      String → String → ℕ → IdentityDb → Result OidcError OidcLoginTransaction
  open_transaction state login_code now db = do
    guard (has_size 500 state && has_size 4000 login_code) oidc_callback_invalid
    tx ← require (lookup (ops.sha256 state) db.transactions) oidc_state_invalid
    guard (is_none tx.consumed_at && ltb now tx.expires_at) oidc_state_invalid
    ok tx

  -- `transaction.consumed_at = now`, by the row's key
  unfoldable pub consume : String → OidcLoginTransaction → ℕ → IdentityDb → IdentityDb
  consume state tx now db = record db {
    transactions = insert (ops.sha256 state) (record tx { consumed_at = some now }) db.transactions;
  }

  -- From the verifier to the identity that both tokens name.
  unfoldable pub verified_identity :
      OidcProvider Key → OidcLoginTransaction → String → ℕ → Result OidcError ValidatedToken
  verified_identity provider tx login_code now = do
    guard settings.has_auth_session_secret auth_session_secret_missing
    verifier ←
        require
          (provider.decrypt (settings.oidc_login_ttl_minutes * 60) tx.code_verifier_ciphertext)
          oidc_verifier_invalid
    response ← provider.exchange_code login_code verifier tx.redirect_uri
    access_token ←
        require (text_of (lookup "access_token" response)) oidc_token_response_missing_tokens
    id_token ← require (text_of (lookup "id_token" response)) oidc_token_response_missing_tokens
    access ← validate_access_token ops settings provider.signing_key now access_token
    named ←
        validate_id_token ops settings provider.signing_key now id_token tx.nonce_hash access_token
    guard (str_eq access.issuer named.issuer && str_eq access.subject named.subject)
        oidc_token_identity_mismatch
    ok access

  abbrev pub new_session : ValidatedToken → Principal → SessionDraw → BrowserAuthSession
  new_session token p draw = record {
    id = draw.session_id;
    principal_id = p.id;
    scopes = sorted_set token.scopes;
    auth_time = token.issued_at;
    expires_at =
        min token.expires_at (draw.session_now + minutes settings.oidc_session_max_minutes);
    last_seen_at = draw.session_now;
    revoked_at = none;
    created_at = draw.session_now;
  }

  abbrev pub open_session :
      ValidatedToken
      → SessionDraw
      → Result OidcError Principal × IdentityDb
      → Result OidcError LoginComplete × IdentityDb
  open_session token draw (err raised, db) = (err raised, db)
  open_session token draw (ok p, db) =
      let s = new_session token p draw in
      with_session s draw.session_secret db
        (add_unique (ops.sha256 draw.session_secret) s db.sessions)

  abbrev pub admit_identity :
      SessionDraw
      → ℕ
      → IdentityDb
      → Result OidcError ValidatedToken
      → Result OidcError LoginComplete × IdentityDb
  admit_identity draw now db (err raised) = (err raised, db)
  admit_identity draw now db (ok token) =
      open_session token draw (resolve_principal settings token draw.principal_id now db)

  -- What a callback does after it has read its transaction.
  unfoldable pub finish_login :
      OidcProvider Key
      → String
      → String
      → SessionDraw
      → ℕ
      → OidcLoginTransaction
      → IdentityDb
      → Result OidcError LoginComplete × IdentityDb
  finish_login provider state login_code draw now tx db =
      admit_identity draw now (consume state tx now db)
        (verified_identity provider tx login_code now)

  abbrev pub after_read :
      OidcProvider Key
      → String
      → String
      → SessionDraw
      → ℕ
      → IdentityDb
      → Result OidcError OidcLoginTransaction
      → Result OidcError LoginComplete × IdentityDb
  after_read provider state login_code draw now db (err raised) = (err raised, db)
  after_read provider state login_code draw now db (ok tx) =
      finish_login provider state login_code draw now tx db

  unfoldable pub complete_login :
      OidcProvider Key
      → String
      → String
      → SessionDraw
      → ℕ
      → IdentityDb
      → Result OidcError LoginComplete × IdentityDb
  complete_login provider state login_code draw now db =
      after_read provider state login_code draw now db (open_transaction state login_code now db)
