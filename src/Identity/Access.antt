-- ===== src/Identity/Access.antt =====
-- How a request is authenticated and a session revoked: `OIDCAuthenticator` of
-- src/ai_examiner/services/oidc.py and `current_authentication` of services/authentication.py.
use Prim.Native.Char.{code}
use ai_examiner.Prelude.{
  ltb, leb, ◌==◌, if◌then◌else◌, is_none, is_some, or_default, truthy, lookup, insert, Result, ok,
  err, ◌>>=◌, ◌>>◌, guard, require, ℕ, ◌+◌, String, Bool, true, false, not, ◌&&◌, Option, none,
  some, List, [], str_eq,
}
use ai_examiner.Identity.Model.{
  Principal, BrowserAuthSession, IdentityDb, OidcSettings, OidcError, principal_inactive,
  browser_session_invalid, authorization_header_invalid, authentication_required, has_size, minutes,
  is_active_status,
}
use ai_examiner.Identity.Tokens.{TokenOps, ValidatedToken, validate_access_token}
use ai_examiner.Identity.Principals.{resolve_principal}
use ai_examiner.Identity.Login.{OidcProvider}

pub record AuthenticationContext : Type 0 where
  pub method : String
  pub principal_id : Option String
  pub issuer : Option String
  pub subject : Option String
  pub scopes : List String
  pub session_id : Option String

-- The text before the first space and the text behind it.
unfoldable pub partition_space : String → Option (String × String)
partition_space String.[] = none
partition_space (String.◌∷◌ c s) =
    let rest = partition_space s in
    if code c == 32
    then some ("", s)
    else elim rest [ none ↦ none | some (scheme, token) ↦ some (String.◌∷◌ c scheme, token) ]

module _ {Key : Type 0} (ops : TokenOps Key) (settings : OidcSettings) where
  abbrev pub bearer_context : ValidatedToken → Principal → AuthenticationContext
  bearer_context token p = record {
    method = "oidc_bearer";
    principal_id = some p.id;
    issuer = some token.issuer;
    subject = some token.subject;
    scopes = token.scopes;
    session_id = none;
  }

  abbrev pub as_bearer :
      ValidatedToken
      → Result OidcError Principal × IdentityDb
      → Result OidcError AuthenticationContext × IdentityDb
  as_bearer token (err raised, db) = (err raised, db)
  as_bearer token (ok p, db) = (ok (bearer_context token p), db)

  abbrev pub with_access :
      String
      → ℕ
      → IdentityDb
      → Result OidcError ValidatedToken
      → Result OidcError AuthenticationContext × IdentityDb
  with_access principal_id now db (err raised) = (err raised, db)
  with_access principal_id now db (ok access) =
      as_bearer access (resolve_principal settings access principal_id now db)

  unfoldable pub authenticate_bearer :
      OidcProvider Key
      → String
      → String
      → ℕ
      → IdentityDb
      → Result OidcError AuthenticationContext × IdentityDb
  authenticate_bearer provider token principal_id now db =
      with_access principal_id now db
        (validate_access_token ops settings provider.signing_key now token)

  -- The session of a token and its principal, checked.
  unfoldable pub live_session :
      String → ℕ → IdentityDb → Result OidcError (BrowserAuthSession × Principal)
  live_session session_token now db = do
    guard (has_size 500 session_token) browser_session_invalid
    s ← require (lookup (ops.sha256 session_token) db.sessions) browser_session_invalid
    guard (is_none s.revoked_at && ltb now s.expires_at) browser_session_invalid
    p ← require (lookup s.principal_id db.principals) principal_inactive
    guard (is_active_status p.status) principal_inactive
    ok (s, p)

  abbrev pub session_context : BrowserAuthSession → Principal → AuthenticationContext
  session_context s p = record {
    method = "oidc_session";
    principal_id = some p.id;
    issuer = some p.issuer;
    subject = some p.subject;
    scopes = s.scopes;
    session_id = some s.id;
  }

  -- `last_seen_at` is written at most every five minutes.
  abbrev pub touched : String → BrowserAuthSession → ℕ → IdentityDb → IdentityDb
  touched session_token s now db =
      if leb (s.last_seen_at + minutes 5) now
      then record db {
        sessions = insert (ops.sha256 session_token) (record s { last_seen_at = now }) db.sessions;
      }
      else db

  abbrev pub with_live :
      String
      → ℕ
      → IdentityDb
      → Result OidcError (BrowserAuthSession × Principal)
      → Result OidcError AuthenticationContext × IdentityDb
  with_live session_token now db (err raised) = (err raised, db)
  with_live session_token now db (ok (s, p)) =
      (ok (session_context s p), touched session_token s now db)

  unfoldable pub authenticate_session :
      String → ℕ → IdentityDb → Result OidcError AuthenticationContext × IdentityDb
  authenticate_session session_token now db =
      with_live session_token now db (live_session session_token now db)

  abbrev pub revoked_row : String → ℕ → IdentityDb → Option BrowserAuthSession → Bool × IdentityDb
  revoked_row key now db none = (false, db)
  revoked_row key now db (some s) = if is_some s.revoked_at then (false, db) else (
    true,
    record db { sessions = insert key (record s { revoked_at = some now }) db.sessions },
  )

  unfoldable pub revoke_session : Option String → ℕ → IdentityDb → Bool × IdentityDb
  revoke_session none now db = (false, db)
  revoke_session (some session_token) now db =
      let key = ops.sha256 session_token in
      if str_eq session_token ""
      then (false, db)
      else revoked_row key now db (lookup key db.sessions)

  abbrev pub disabled_context : AuthenticationContext
  disabled_context = record {
    method = "disabled";
    principal_id = none;
    issuer = none;
    subject = none;
    scopes = [];
    session_id = none;
  }

  abbrev pub by_header :
      OidcProvider Key
      → (String → String)
      → String
      → ℕ
      → IdentityDb
      → Option (String × String)
      → Result OidcError AuthenticationContext × IdentityDb
  by_header provider strip principal_id now db none = (err authorization_header_invalid, db)
  by_header provider strip principal_id now db (some (scheme, token)) =
      if str_eq (ops.lower scheme) "bearer" && not (str_eq (strip token) "")
      then authenticate_bearer provider (strip token) principal_id now db
      else (err authorization_header_invalid, db)

  -- The header `Authorization`, else the cookie of the session.
  unfoldable pub current_authentication :
      OidcProvider Key
      → (String → String)
      → Option String
      → Option String
      → String
      → ℕ
      → IdentityDb
      → Result OidcError AuthenticationContext × IdentityDb
  current_authentication provider strip authorization cookie principal_id now db =
      if settings.auth_disabled
      then (ok disabled_context, db)
      else if truthy authorization
      then by_header provider strip principal_id now db
          (partition_space (or_default authorization ""))
      else if truthy cookie
      then authenticate_session (or_default cookie "") now db
      else (err authentication_required, db)
